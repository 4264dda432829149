-- ===== src/Feishu.antt =====
-- crates/arcc-server/src/feishu/webhook.rs, `sanitize_history`: the repair of a chat's history before
-- it is sent. The index of the loop is the part of the list that is left, and `history.remove` drops
-- from it.
pub mod Post
pub mod Handlers
pub mod Chat
pub mod Webhook
pub mod History
mod Tests
use arcc.Base.{
  ℕ, zero, suc, List, [], ◌∷◌, ◌++◌, Option, none, some, leb, ◌==◌, list_Eq, nat_eq, if◌then◌else◌,
  length,
}
use arcc.Model.Types.{ChatMessage, ToolCall, assistant_role, tool_role}

abbrev calls_of : Option (List ToolCall) → ℕ
calls_of none = 0
calls_of (some calls) = length calls

-- `expected_count`, and 0 for a message that the loop steps over.
unfoldable pub expected_count : ChatMessage → ℕ
expected_count m = if m.role == assistant_role then calls_of m.tool_calls else 0

-- The consecutive tool messages at the start.
unfoldable pub tool_run : List ChatMessage → List ChatMessage
tool_run [] = []
tool_run (m ∷ ms) = if m.role == tool_role then m ∷ tool_run ms else []

-- The messages behind them.
unfoldable pub after_tools : List ChatMessage → List ChatMessage
after_tools [] = []
after_tools (m ∷ ms) = if m.role == tool_role then after_tools ms else m ∷ ms

unfoldable pub strip_calls : ChatMessage → ChatMessage
strip_calls m = record m { tool_calls = none }

-- The loop, with one unit of fuel for each message.
unfoldable pub repair : ℕ → List ChatMessage → List ChatMessage
unfolding expected_count tool_run after_tools strip_calls
repair zero ms = []
repair (suc fuel) [] = []
repair (suc fuel) (m ∷ ms) =
    let next = repair fuel ms in
    let behind = repair fuel (after_tools ms) in
    let expected = expected_count m in
    if nat_eq expected 0
    then m ∷ next
    else if leb expected (length (tool_run ms))
    then m ∷ (tool_run ms ++ behind)
    else strip_calls m ∷ behind

unfoldable pub sanitize_history : List ChatMessage → List ChatMessage
unfolding repair after_tools
sanitize_history history = let kept = after_tools history in repair (length kept) kept
