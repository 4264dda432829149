-- ===== src/Session/ToolOrder.antt =====
-- What `sanitize_tool_call_sequence` guarantees: the order that the chat endpoint accepts.
use arcc.Base.{
  ℕ, zero, suc, ◌≡◌, ◌≢◌, refl, inl, inr, Bool, false, not, ◌||◌, List, [], ◌∷◌, ◌++◌, Option, none,
  some, arith, ltb, ◌==◌, list_Eq, ==_iff, Bool-cases, Option-cases, List-cases, length, All,
  All-append,
}
use arcc.Base.Text.{Text}
use arcc.Base.Maps.{Map, get, insert, remove}
use arcc.Model.Types.{ChatMessage, assistant_role, tool_role, tool_result}
use arcc.Session.Sanitize.{
  tool_ids, collect, Scan, scan, emit, missing_text, sanitize_from, sanitize_tool_call_sequence,
}

-- The order that the endpoint accepts, with the ids still to be answered: a message that expects
-- answers is followed by exactly those, in order, and no other tool message occurs.
abbrev pub Ordered : List Text → List ChatMessage → Type 0
Ordered [] [] = Unit
Ordered (id ∷ ids) [] = ⊥
Ordered [] (m ∷ ms) = (m.role ≢ tool_role) × Ordered (tool_ids m) ms
Ordered (id ∷ ids) (m ∷ ms) = (m.role ≡ tool_role) × (m.tool_call_id ≡ some id) × Ordered ids ms

pub roles_differ : assistant_role ≢ tool_role
unfolding assistant_role tool_role
roles_differ = cc

tool_ids_of_other : (m : ChatMessage) → m.role ≢ assistant_role → tool_ids m ≡ []
unfolding tool_ids
tool_ids_of_other m h = ground (arith, ==_iff m.role assistant_role)

role_of_expecting :
    (m : ChatMessage) {id : Text} {ids : List Text} → tool_ids m ≡ id ∷ ids → m.role ≢ tool_role
unfolding tool_ids
role_of_expecting m e = ground (arith, ==_iff m.role assistant_role, roles_differ)

-- A collected result answers the id that it is stored under.
abbrev pub Answers : Text × ChatMessage → Type 0
Answers (id, m) = (m.role ≡ tool_role) × (m.tool_call_id ≡ some id)

-- A deferred message is neither an assistant turn nor a tool message.
abbrev pub IsAside : ChatMessage → Type 0
IsAside m = (m.role ≢ assistant_role) × (m.role ≢ tool_role)

insert-Answers :
    (id : Text) (m : ChatMessage) (results : Map Text ChatMessage)
    → Answers (id, m)
    → All Answers results
    → All Answers (insert id m results)
unfolding insert
insert-Answers id m [] h a = (h, tt)
insert-Answers id m ((j, w) ∷ results) h a = ground (arith, insert-Answers id m results h a.1)

pub remove-Answers :
    (id : Text) (results : Map Text ChatMessage)
    → All Answers results
    → All Answers (remove id results)
unfolding remove
remove-Answers id [] a = tt
remove-Answers id ((j, w) ∷ results) a = ground (arith, remove-Answers id results a.1)

pub get-Answers :
    (id : Text) (results : Map Text ChatMessage) {m : ChatMessage}
    → All Answers results
    → get id results ≡ some m
    → Answers (id, m)
unfolding get
get-Answers id [] a e = cc
get-Answers id ((j, w) ∷ results) {m} a e =
    ground (arith, ==_iff j id, get-Answers id results {m = m} a.1)

collect-Answers :
    (ids : List Text) (m : ChatMessage) (results : Map Text ChatMessage) (o : Option Text)
    → m.role ≡ tool_role
    → m.tool_call_id ≡ o
    → All Answers results
    → All Answers (collect ids m results o)
unfolding collect
collect-Answers ids m results none r e a = a
collect-Answers ids m results (some id) r e a = ground (arith, insert-Answers id m results (r, e) a)

IsAside-of :
    (m : ChatMessage) (b : Bool)
    → (b || m.role == assistant_role) ≡ false
    → (m.role == tool_role) ≡ false
    → IsAside m
IsAside-of m b h k = ground (arith, ==_iff m.role assistant_role, ==_iff m.role tool_role)

pub record IsSound (s : Scan) : Type 0 where
  pub answers : All Answers s.results
  pub asides : All IsAside s.deferred

pub scan-IsSound :
    (ids : List Text) (results : Map Text ChatMessage) (deferred ms : List ChatMessage)
    → All Answers results
    → All IsAside deferred
    → IsSound (scan ids results deferred ms)
unfolding scan
scan-IsSound ids results deferred [] a d = record { answers = a; asides = d }
scan-IsSound ids results deferred (m ∷ ms) a d =
    elim (Bool-cases (not (ltb (length results) (length ids)) || m.role == assistant_role)) [
      | inl stop ↦ rw stop (record { answers = a; asides = d })
      | inr go ↦ rw go (elim (Bool-cases (m.role == tool_role)) [
        | inl is_tool ↦ rw is_tool (
            scan-IsSound ids (collect ids m results m.tool_call_id) deferred ms
              (collect-Answers ids m results m.tool_call_id ((==_iff _ _).0 is_tool) refl a) d)
        | inr other ↦ rw other (
            scan-IsSound ids results (deferred ++ m ∷ []) ms a
              (All-append IsAside deferred (m ∷ []) d (IsAside-of m _ go other, tt)))
      ])
    ]

pub tool_result-Answers : (id text : Text) → Answers (id, tool_result id text)
unfolding tool_result
tool_result-Answers id text = (refl, refl)

emit-Ordered :
    (ids : List Text) (results : Map Text ChatMessage) (tail : List ChatMessage)
    → All Answers results
    → Ordered [] tail
    → Ordered ids (emit results ids ++ tail)
unfolding emit
emit-Ordered [] results tail a t = t
emit-Ordered (id ∷ ids) results tail a t = elim (Option-cases (get id results)) [
  | inl missing ↦
      let (r, e) = tool_result-Answers id missing_text in
      rw (missing, emit) (r, e, emit-Ordered ids results tail a t)
  | inr (m, found) ↦
      let (r, e) = get-Answers id results a found in
      rw (found, emit)
        (r, e, emit-Ordered ids (remove id results) tail (remove-Answers id results a) t)
]

Ordered-asides :
    (asides tail : List ChatMessage)
    → All IsAside asides
    → Ordered [] tail
    → Ordered [] (asides ++ tail)
Ordered-asides [] tail a t = t
Ordered-asides (m ∷ asides) tail a t =
    (a.0.1, rw (tool_ids_of_other m a.0.0) (Ordered-asides asides tail a.1 t))

sanitize_from-Ordered : (fuel : ℕ) (msgs : List ChatMessage) → Ordered [] (sanitize_from fuel msgs)
unfolding sanitize_from
sanitize_from-Ordered zero msgs = tt
sanitize_from-Ordered (suc fuel) [] = tt
sanitize_from-Ordered (suc fuel) (m ∷ ms) = elim (List-cases (tool_ids m)) [
  | inl e ↦
      rw (e, sanitize_from)
        (elim (Bool-cases (m.role == tool_role)) [
          | inl is_tool ↦ rw is_tool (sanitize_from-Ordered fuel ms)
          | inr other ↦
              rw other
                (ground (arith, ==_iff m.role tool_role), rw e (sanitize_from-Ordered fuel ms))
        ])
  | inr (id, ids, e) ↦
      let found = scan (id ∷ ids) [] [] ms in
      let sound = scan-IsSound (id ∷ ids) [] [] ms tt tt in
      rw (e, sanitize_from)
        (
          role_of_expecting m e,
          rw e (
              emit-Ordered (id ∷ ids) found.results
                (found.deferred ++ sanitize_from fuel found.rest) sound.answers
                (Ordered-asides found.deferred (sanitize_from fuel found.rest) sound.asides
                  (sanitize_from-Ordered fuel found.rest))),
        )
]

-- Whatever the history, the repaired list has the order that the endpoint accepts: each message
-- that expects answers is followed at once by one tool message for each of its ids, in order, and
-- there is no other tool message.
pub sanitize-Ordered : (msgs : List ChatMessage) → Ordered [] (sanitize_tool_call_sequence msgs)
unfolding sanitize_tool_call_sequence
sanitize-Ordered msgs = sanitize_from-Ordered (length msgs) msgs
