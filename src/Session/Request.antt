-- ===== src/Session/Request.antt =====
-- crates/arcc-core/src/session.rs, `prepare_for_request` and `attach_reasoning`: the messages that
-- are sent, and the reasoning that the endpoint wants on them.
use mathlib.Core.List.{reverse}
use arcc.Base.{
  ◌≡◌, refl, ap, ◌∙◌, ◌⊎◌, inl, inr, Bool, true, false, ◌&&◌, ◌||◌, List, [], ◌∷◌, map, Option,
  none, some, arith, ◌==◌, list_Eq, if◌then◌else◌, Bool-cases, keep_if, All,
}
use arcc.Base.Text.{Text, codes, trim, is_empty}
use arcc.Model.Types.{ChatMessage, ToolCall, assistant_role}
use arcc.Session.{Session, context}
use arcc.Session.Sanitize.{tool_ids, sanitize_tool_call_sequence}
use arcc.Session.ToolOrder.{Ordered, sanitize-Ordered}
use arcc.Session.Kept.{is_plain, sanitize-keep_if}

abbrev pub placeholder : Text
placeholder = codes "(reasoning omitted)"

unfoldable pub has_tool_calls : Option (List ToolCall) → Bool
has_tool_calls none = false
has_tool_calls (some []) = false
has_tool_calls (some (c ∷ cs)) = true

unfoldable pub is_blank : Option Text → Bool
unfolding is_empty trim
is_blank none = true
is_blank (some s) = is_empty (trim s)

-- One round of the loop of `prepare_for_request`.
unfoldable pub with_placeholder : ChatMessage → ChatMessage
unfolding has_tool_calls is_blank
with_placeholder m =
    if (m.role == assistant_role) && (has_tool_calls m.tool_calls && is_blank m.reasoning_content)
    then record m { reasoning_content = some placeholder }
    else m

unfoldable pub prepare_for_request : Session → List ChatMessage
unfolding context sanitize_tool_call_sequence with_placeholder
prepare_for_request s = map with_placeholder (sanitize_tool_call_sequence (context s))

-- Sets the reasoning unless there is some already.
unfoldable pub set_reasoning : Text → ChatMessage → ChatMessage
unfolding is_empty trim
set_reasoning text m =
    let existing : Text = elim m.reasoning_content [ none ↦ [] | some r ↦ r ] in
    record m {
      reasoning_content =
          some (if is_empty (trim existing) || existing == placeholder then text else existing);
    }

-- The newest assistant message is changed; the messages come newest first.
unfoldable pub attach_from : Text → List ChatMessage → List ChatMessage
unfolding set_reasoning
attach_from text [] = []
attach_from text (m ∷ ms) =
    if m.role == assistant_role then set_reasoning text m ∷ ms else m ∷ attach_from text ms

unfoldable pub attach_reasoning : Session → Text → Session
unfolding attach_from
attach_reasoning s text =
    if is_empty text
    then s
    else record s { messages = reverse (attach_from text (reverse s.messages)) }

-- A message that expects answers carries reasoning that is not blank.
abbrev pub HasReasoning : ChatMessage → Type 0
HasReasoning m =
    (tool_ids m ≡ []) ⊎ ((r : Text) × (m.reasoning_content ≡ some r) × (is_empty (trim r) ≡ false))

tool_ids-with_placeholder : (m : ChatMessage) → tool_ids (with_placeholder m) ≡ tool_ids m
unfolding with_placeholder tool_ids
tool_ids-with_placeholder m = ground arith

tool_ids_without_calls : (m : ChatMessage) → has_tool_calls m.tool_calls ≡ false → tool_ids m ≡ []
unfolding tool_ids has_tool_calls
tool_ids_without_calls m h = ground arith

tool_ids_of_role : (m : ChatMessage) → (m.role == assistant_role) ≡ false → tool_ids m ≡ []
unfolding tool_ids
tool_ids_of_role m h = ground arith

is_blank-false :
    (o : Option Text) → is_blank o ≡ false → (r : Text) × (o ≡ some r) × (is_empty (trim r) ≡ false)
unfolding is_blank
is_blank-false none h = cc
is_blank-false (some r) h = (r, refl, h)

placeholder_is_shown : is_empty (trim placeholder) ≡ false
unfolding is_empty trim
placeholder_is_shown = refl

with_placeholder-HasReasoning : (m : ChatMessage) → HasReasoning (with_placeholder m)
unfolding with_placeholder
with_placeholder-HasReasoning m = elim (Bool-cases (m.role == assistant_role)) [
  | inr other ↦ rw other (inl (tool_ids_of_role m other))
  | inl by_assistant ↦ elim (Bool-cases (has_tool_calls m.tool_calls)) [
    | inr no_calls ↦ rw (by_assistant, no_calls) (inl (tool_ids_without_calls m no_calls))
    | inl calls ↦ elim (Bool-cases (is_blank m.reasoning_content)) [
      | inl blank ↦ rw (by_assistant, calls, blank) (inr (placeholder, refl, placeholder_is_shown))
      | inr shown ↦ rw (by_assistant, calls, shown) (inr (is_blank-false m.reasoning_content shown))
    ]
  ]
]

with_placeholder-role : (m : ChatMessage) → (with_placeholder m).role ≡ m.role
unfolding with_placeholder
with_placeholder-role m = ground arith

with_placeholder-tool_call_id :
    (m : ChatMessage) → (with_placeholder m).tool_call_id ≡ m.tool_call_id
unfolding with_placeholder
with_placeholder-tool_call_id m = ground arith

Ordered-map :
    (ids : List Text) (ms : List ChatMessage)
    → Ordered ids ms
    → Ordered ids (map with_placeholder ms)
Ordered-map [] [] o = tt
Ordered-map (id ∷ ids) [] o = elim o [ ]
Ordered-map [] (m ∷ ms) o = (
  rw (with_placeholder-role m) o.0,
  rw (tool_ids-with_placeholder m) (Ordered-map (tool_ids m) ms o.1),
)
Ordered-map (id ∷ ids) (m ∷ ms) o =
    (with_placeholder-role m ∙ o.0, with_placeholder-tool_call_id m ∙ o.1, Ordered-map ids ms o.2)

All-HasReasoning : (ms : List ChatMessage) → All HasReasoning (map with_placeholder ms)
All-HasReasoning [] = tt
All-HasReasoning (m ∷ ms) = (with_placeholder-HasReasoning m, All-HasReasoning ms)

-- Every list that `prepare_for_request` makes of a session meets both conditions of the endpoint: the
-- answers of each tool-call message follow it at once and in order, with no other tool message, and
-- each such message has reasoning that is not blank.
pub prepare_for_request-IsAccepted :
    (s : Session) → Ordered [] (prepare_for_request s) × All HasReasoning (prepare_for_request s)
unfolding prepare_for_request
prepare_for_request-IsAccepted s = (
  Ordered-map [] (sanitize_tool_call_sequence (context s)) (sanitize-Ordered (context s)),
  All-HasReasoning (sanitize_tool_call_sequence (context s)),
)

abbrev pub without_reasoning : ChatMessage → ChatMessage
without_reasoning m = record m { reasoning_content = none }

without_reasoning-with_placeholder :
    (m : ChatMessage) → without_reasoning (with_placeholder m) ≡ without_reasoning m
unfolding with_placeholder
without_reasoning-with_placeholder m = ground arith

map-keep_if :
    (ms : List ChatMessage)
    → map without_reasoning (keep_if is_plain (map with_placeholder ms))
      ≡ map without_reasoning (keep_if is_plain ms)
map-keep_if [] = refl
map-keep_if (m ∷ ms) =
    ground (arith, with_placeholder-role m, without_reasoning-with_placeholder m, map-keep_if ms)

-- Apart from tool messages and from reasoning, a request holds the context of the session: the
-- same messages in the same order.
pub prepare_for_request-context :
    (s : Session)
    → map without_reasoning (keep_if is_plain (prepare_for_request s))
      ≡ map without_reasoning (keep_if is_plain (context s))
unfolding prepare_for_request
prepare_for_request-context s =
    map-keep_if (sanitize_tool_call_sequence (context s))
    ∙ ap (map without_reasoning) (sanitize-keep_if (context s))
