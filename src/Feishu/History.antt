-- ===== src/Feishu/History.antt =====
-- What `sanitize_history` guarantees: the counts that the chat endpoint asks for.
use arcc.Base.{
  ℕ, zero, suc, ◌≤◌, ◌≡◌, ◌≢◌, ◌↔◌, ◌∙◌, ap, subst, refl, List, [], ◌∷◌, ◌++◌, arith, list_Eq,
  ==_iff, length,
}
use arcc.Model.Types.{ChatMessage, assistant_role, tool_role}
use arcc.Session.ToolOrder.{roles_differ}
use arcc.Feishu.{expected_count, tool_run, after_tools, strip_calls, repair, sanitize_history}

-- Every message is followed by at least as many tool messages as it calls for.
abbrev pub IsFed : List ChatMessage → Type 0
IsFed [] = Unit
IsFed (m ∷ ms) = (expected_count m ≤ length (tool_run ms)) × IsFed ms

-- The first message is not a tool message.
abbrev pub StartsWell : List ChatMessage → Type 0
StartsWell [] = Unit
StartsWell (m ∷ ms) = m.role ≢ tool_role

abbrev pub IsWellFormed : List ChatMessage → Type 0
IsWellFormed history = StartsWell history × IsFed history

expected_of_tool : (m : ChatMessage) → m.role ≡ tool_role → expected_count m ≡ 0
unfolding expected_count
expected_of_tool m h = ground (arith, ==_iff m.role assistant_role, roles_differ)

expected_of_stripped : (m : ChatMessage) → expected_count (strip_calls m) ≡ 0
unfolding expected_count strip_calls
expected_of_stripped m = ground arith

length-tool_run-append :
    (ms rest : List ChatMessage) → length (tool_run ms) ≤ length (tool_run (tool_run ms ++ rest))
unfolding tool_run
length-tool_run-append [] rest = omega arith
length-tool_run-append (m ∷ ms) rest = ground (arith, length-tool_run-append ms rest)

tool_run-append-IsFed : (ms rest : List ChatMessage) → IsFed rest → IsFed (tool_run ms ++ rest)
unfolding tool_run
tool_run-append-IsFed [] rest h = h
tool_run-append-IsFed (m ∷ ms) rest h =
    ground (arith, ==_iff m.role tool_role, expected_of_tool m, tool_run-append-IsFed ms rest h)

tool_run-append-after_tools : (ms : List ChatMessage) → tool_run ms ++ after_tools ms ≡ ms
unfolding tool_run after_tools
tool_run-append-after_tools [] = refl
tool_run-append-after_tools (m ∷ ms) = ground (arith, tool_run-append-after_tools ms)

length-after_tools : (ms : List ChatMessage) → length (after_tools ms) ≤ length ms
unfolding after_tools
length-after_tools [] = omega arith
length-after_tools (m ∷ ms) = ground (arith, length-after_tools ms)

after_tools-IsFed : (ms : List ChatMessage) → IsFed ms → IsFed (after_tools ms)
unfolding after_tools
after_tools-IsFed [] h = tt
after_tools-IsFed (m ∷ ms) h = ground (arith, after_tools-IsFed ms h.1)

after_tools-StartsWell : (ms : List ChatMessage) → StartsWell (after_tools ms)
unfolding after_tools
after_tools-StartsWell [] = tt
after_tools-StartsWell (m ∷ ms) = ground (arith, ==_iff m.role tool_role, after_tools-StartsWell ms)

repair-IsFed : (fuel : ℕ) (ms : List ChatMessage) → IsFed (repair fuel ms)
unfolding repair
repair-IsFed zero ms = tt
repair-IsFed (suc fuel) [] = tt
repair-IsFed (suc fuel) (m ∷ ms) =
    let ih = repair-IsFed fuel (after_tools ms) in
    ground (
      arith,
      repair-IsFed fuel ms,
      ih,
      tool_run-append-IsFed ms (repair fuel (after_tools ms)) ih,
      length-tool_run-append ms (repair fuel (after_tools ms)),
      expected_of_stripped m,
    )

repair-unchanged :
    (fuel : ℕ) (ms : List ChatMessage) → length ms ≤ fuel → IsFed ms → repair fuel ms ≡ ms
unfolding repair
repair-unchanged zero [] l h = refl
repair-unchanged zero (m ∷ ms) l h = ground arith
repair-unchanged (suc fuel) [] l h = refl
repair-unchanged (suc fuel) (m ∷ ms) l (f, h) = ground (
  arith,
  repair-unchanged fuel ms,
  repair-unchanged fuel (after_tools ms),
  after_tools-IsFed ms h,
  length-after_tools ms,
  tool_run-append-after_tools ms,
)

after_tools-unchanged : (ms : List ChatMessage) → StartsWell ms → after_tools ms ≡ ms
unfolding after_tools
after_tools-unchanged [] h = refl
after_tools-unchanged (m ∷ ms) h = ground (arith, ==_iff m.role tool_role)

repair-StartsWell : (fuel : ℕ) (ms : List ChatMessage) → StartsWell ms → StartsWell (repair fuel ms)
unfolding repair strip_calls
repair-StartsWell zero ms h = tt
repair-StartsWell (suc fuel) [] h = tt
repair-StartsWell (suc fuel) (m ∷ ms) h = ground (arith, h)

pub sanitize-IsWellFormed : (history : List ChatMessage) → IsWellFormed (sanitize_history history)
unfolding sanitize_history
sanitize-IsWellFormed history =
    let kept = after_tools history in
    (
      repair-StartsWell (length kept) kept (after_tools-StartsWell history),
      repair-IsFed (length kept) kept,
    )

sanitize_unchanged :
    (history : List ChatMessage) → IsWellFormed history → sanitize_history history ≡ history
unfolding sanitize_history
sanitize_unchanged history (starts, fed) =
    ap (λ kept. repair (length kept) kept) (after_tools-unchanged history starts)
    ∙ repair-unchanged (length history) history (omega arith) fed

-- A history that is sanitized starts with no tool message, and each of its assistant messages is
-- followed by at least as many consecutive tool messages as it has tool calls. A history is left as
-- it is exactly if it already has this form, whatever ids its tool messages carry.
pub sanitize_history_iff :
    (history : List ChatMessage)
    → IsWellFormed (sanitize_history history)
      × ((sanitize_history history ≡ history) ↔ IsWellFormed history)
sanitize_history_iff history = (
  sanitize-IsWellFormed history,
  ((λ e. subst IsWellFormed e (sanitize-IsWellFormed history)), sanitize_unchanged history),
)
