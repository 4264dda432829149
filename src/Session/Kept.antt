-- ===== src/Session/Kept.antt =====
-- What `sanitize_tool_call_sequence` keeps: every message but tool messages.
use arcc.Base.{
  ℕ, zero, suc, ◌≤◌, ◌≡◌, refl, sym, ap, ◌∙◌, inl, inr, Bool, not, ◌||◌, List, [], ◌∷◌, ◌++◌,
  append_assoc, arith, ltb, ◌==◌, list_Eq, ==_iff, Bool-cases, Option-cases, List-cases, length,
  keep_if, keep_if-append, All,
}
use arcc.Base.Text.{Text}
use arcc.Base.Maps.{Map, get, remove}
use arcc.Model.Types.{ChatMessage, assistant_role, tool_role, tool_result}
use arcc.Session.Sanitize.{
  tool_ids, collect, scan, emit, missing_text, sanitize_from, sanitize_tool_call_sequence,
}
use arcc.Session.ToolOrder.{Answers, get-Answers, remove-Answers, scan-IsSound, tool_result-Answers}

-- Nothing but tool messages is consumed.
abbrev pub is_plain : ChatMessage → Bool
is_plain m = not (m.role == tool_role)

scan-keep_if :
    (ids : List Text) (results : Map Text ChatMessage) (deferred ms : List ChatMessage)
    → let s = scan ids results deferred ms in
      keep_if is_plain (s.deferred ++ s.rest) ≡ keep_if is_plain (deferred ++ ms)
unfolding scan
scan-keep_if ids results deferred [] = refl
scan-keep_if ids results deferred (m ∷ ms) =
    elim (Bool-cases (not (ltb (length results) (length ids)) || m.role == assistant_role)) [
      | inl stop ↦ rw stop
      | inr go ↦ rw go (elim (Bool-cases (m.role == tool_role)) [
        | inl is_tool ↦ rw is_tool (
            scan-keep_if ids (collect ids m results m.tool_call_id) deferred ms
            ∙ rw (keep_if-append is_plain deferred ms, keep_if-append is_plain deferred (m ∷ ms))
                (ground arith))
        | inr other ↦ rw other (
            scan-keep_if ids results (deferred ++ m ∷ []) ms
            ∙ ap (keep_if is_plain) (append_assoc deferred (m ∷ []) ms))
      ])
    ]

length-scan :
    (ids : List Text) (results : Map Text ChatMessage) (deferred ms : List ChatMessage)
    → length (scan ids results deferred ms).rest ≤ length ms
unfolding scan
length-scan ids results deferred [] = omega arith
length-scan ids results deferred (m ∷ ms) = ground (
  arith,
  length-scan ids (collect ids m results m.tool_call_id) deferred ms,
  length-scan ids results (deferred ++ m ∷ []) ms,
)

emit-keep_if :
    (ids : List Text) (results : Map Text ChatMessage)
    → All Answers results
    → keep_if is_plain (emit results ids) ≡ []
unfolding emit
emit-keep_if [] results a = refl
emit-keep_if (id ∷ ids) results a = elim (Option-cases (get id results)) [
  | inl missing ↦
      rw (missing, emit)
        (ground (
          arith,
          tool_result-Answers id missing_text,
          ==_iff (tool_result id missing_text).role tool_role,
          emit-keep_if ids results a,
        ))
  | inr (m, found) ↦
      rw (found, emit)
        (ground (
          arith,
          get-Answers id results a found,
          ==_iff m.role tool_role,
          emit-keep_if ids (remove id results) (remove-Answers id results a),
        ))
]

sanitize_from-keep_if :
    (fuel : ℕ) (msgs : List ChatMessage)
    → length msgs ≤ fuel
    → keep_if is_plain (sanitize_from fuel msgs) ≡ keep_if is_plain msgs
unfolding sanitize_from
sanitize_from-keep_if zero [] h = refl
sanitize_from-keep_if zero (m ∷ ms) h = absurd (omega arith)
sanitize_from-keep_if (suc fuel) [] h = refl
sanitize_from-keep_if (suc fuel) (m ∷ ms) h = elim (List-cases (tool_ids m)) [
  | inl e ↦ rw (e, sanitize_from) (ground (arith, sanitize_from-keep_if fuel ms))
  | inr (id, ids, e) ↦
      let found = scan (id ∷ ids) [] [] ms in
      let sound = scan-IsSound (id ∷ ids) [] [] ms tt tt in
      let later = sanitize_from fuel found.rest in
      let same : keep_if is_plain later ≡ keep_if is_plain found.rest =
        sanitize_from-keep_if fuel found.rest (omega (arith, length-scan (id ∷ ids) [] [] ms)) in
      let shown : keep_if is_plain (emit found.results (id ∷ ids) ++ (found.deferred ++ later))
          ≡ keep_if is_plain ms =
        simp (keep_if-append, emit-keep_if (id ∷ ids) found.results sound.answers, same)
          (sym (keep_if-append is_plain found.deferred found.rest)
            ∙ scan-keep_if (id ∷ ids) [] [] ms) in
      rw (e, sanitize_from) (ground (arith, shown))
]

-- The repair keeps every message that is not a tool message, once, and in the same order.
pub sanitize-keep_if :
    (msgs : List ChatMessage)
    → keep_if is_plain (sanitize_tool_call_sequence msgs) ≡ keep_if is_plain msgs
unfolding sanitize_tool_call_sequence
sanitize-keep_if msgs = sanitize_from-keep_if (length msgs) msgs (omega arith)
