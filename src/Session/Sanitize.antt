-- ===== src/Session/Sanitize.antt =====
-- crates/arcc-core/src/session.rs, `sanitize_tool_call_sequence`: the repair of the message order
-- before a request. The two `while` loops over an index are recursions on the messages left.
use arcc.Base.{
  ℕ, zero, suc, not, ◌||◌, List, [], ◌∷◌, ◌++◌, map, Option, none, some, ltb, ◌==◌, list_Eq,
  if◌then◌else◌, length, any,
}
use arcc.Base.Text.{Text, codes}
use arcc.Base.Maps.{Map, get, insert, remove}
use arcc.Model.Types.{ChatMessage, ToolCall, assistant_role, tool_role, tool_result}

abbrev ids_of : Option (List ToolCall) → List Text
ids_of none = []
ids_of (some calls) = map (λ c. c.id) calls

-- The ids that an assistant message expects answers to.
unfoldable pub tool_ids : ChatMessage → List Text
tool_ids m = if m.role == assistant_role then ids_of m.tool_calls else []

-- A tool message is kept if its id is expected; an orphan is dropped.
unfoldable pub collect :
    List Text → ChatMessage → Map Text ChatMessage → Option Text → Map Text ChatMessage
collect ids m results none = results
collect ids m results (some id) =
    if any (λ expected. expected == id) ids then insert id m results else results

pub record Scan : Type 0 where
  pub results : Map Text ChatMessage
  pub deferred : List ChatMessage
  pub rest : List ChatMessage

-- The inner loop: stops when every id has its result, or at the next assistant turn.
unfoldable pub scan : List Text → Map Text ChatMessage → List ChatMessage → List ChatMessage → Scan
unfolding collect
scan ids results deferred [] = record { results = results; deferred = deferred; rest = [] }
scan ids results deferred (m ∷ ms) =
    let is_tool = m.role == tool_role in
    let onward =
      scan ids (if is_tool then collect ids m results m.tool_call_id else results)
        (if is_tool then deferred else deferred ++ m ∷ []) ms in
    if not (ltb (length results) (length ids)) || m.role == assistant_role
    then record { results = results; deferred = deferred; rest = m ∷ ms }
    else onward

abbrev pub missing_text : Text
missing_text = codes "(tool result missing: the turn was interrupted)"

-- One tool message for each id, a synthetic one where the result is missing.
unfoldable pub emit : Map Text ChatMessage → List Text → List ChatMessage
unfolding get remove
emit results [] = []
emit results (id ∷ ids) = elim (get id results) [
  | some result ↦ result ∷ emit (remove id results) ids
  | none ↦ tool_result id missing_text ∷ emit results ids
]

-- The outer loop, with one unit of fuel for each message.
unfoldable pub sanitize_from : ℕ → List ChatMessage → List ChatMessage
unfolding scan emit tool_ids
sanitize_from zero msgs = []
sanitize_from (suc fuel) [] = []
sanitize_from (suc fuel) (m ∷ ms) = elim (tool_ids m) [
  | [] ↦ if m.role == tool_role then sanitize_from fuel ms else m ∷ sanitize_from fuel ms
  | id ∷ ids ↦
      let found = scan (id ∷ ids) [] [] ms in
      m ∷ (emit found.results (id ∷ ids) ++ (found.deferred ++ sanitize_from fuel found.rest))
]

unfoldable pub sanitize_tool_call_sequence : List ChatMessage → List ChatMessage
unfolding sanitize_from
sanitize_tool_call_sequence msgs = sanitize_from (length msgs) msgs
