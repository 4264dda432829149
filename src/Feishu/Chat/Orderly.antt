-- ===== src/Feishu/Chat/Orderly.antt =====
-- crates/arcc-server/src/feishu/webhook.rs: the messages that an exchange begins with, and what its
-- rounds add to them, are in the order that the chat endpoint asks for.
use arcc.Base.{
  ◌≤◌, ◌≡◌, ◌≢◌, ◌∙◌, sym, true, List, [], ◌∷◌, ◌++◌, arith, length, some, ◌==◌, list_Eq, ==_iff,
  keep_if, Bool-cases, inl, inr,
}
use arcc.Base.Text.{Text, is_empty}
use arcc.Model.Types.{
  ChatMessage, ToolCall, assistant_role, tool_role, system_role, system, new_message,
}
use arcc.Session.{Session, context}
use arcc.Session.ToolOrder.{roles_differ}
use arcc.Acp.Prompt.Answering.{AnswersAll}
use arcc.Feishu.{expected_count, tool_run, sanitize_history}
use arcc.Feishu.History.{IsFed, StartsWell, IsWellFormed, sanitize-IsWellFormed}
use arcc.Feishu.Chat.{initial_messages, memory_message, is_kept}

length-tool_run-longer :
    (xs ys : List ChatMessage) → length (tool_run xs) ≤ length (tool_run (xs ++ ys))
unfolding tool_run
length-tool_run-longer [] ys = omega arith
length-tool_run-longer (m ∷ xs) ys = ground (arith, length-tool_run-longer xs ys)

append-IsFed : (xs ys : List ChatMessage) → IsFed xs → IsFed ys → IsFed (xs ++ ys)
append-IsFed [] ys hx hy = hy
append-IsFed (m ∷ xs) ys (enough, hx) hy =
    (omega (arith, length-tool_run-longer xs ys), append-IsFed xs ys hx hy)

append-StartsWell :
    (xs ys : List ChatMessage) → StartsWell xs → StartsWell ys → StartsWell (xs ++ ys)
append-StartsWell [] ys hx hy = hy
append-StartsWell (m ∷ xs) ys hx hy = hx

-- The answers to the calls of a message are enough.
length-tool_run-answers :
    (calls : List ToolCall) (answers : List ChatMessage)
    → AnswersAll calls answers
    → length calls ≤ length (tool_run answers)
unfolding tool_run
length-tool_run-answers [] answers h = omega arith
length-tool_run-answers (tc ∷ tcs) [] h = absurd h
length-tool_run-answers (tc ∷ tcs) (m ∷ ms) ((role, _), h) =
    ground (arith, ==_iff m.role tool_role, length-tool_run-answers tcs ms h)

expected_of_tool : (m : ChatMessage) → m.role ≡ tool_role → expected_count m ≡ 0
unfolding expected_count
expected_of_tool m h = ground (arith, ==_iff m.role assistant_role, roles_differ)

answers-IsFed :
    (calls : List ToolCall) (answers : List ChatMessage) → AnswersAll calls answers → IsFed answers
answers-IsFed [] [] h = tt
answers-IsFed [] (m ∷ ms) h = absurd h
answers-IsFed (tc ∷ tcs) [] h = absurd h
answers-IsFed (tc ∷ tcs) (m ∷ ms) ((role, _), h) =
    (omega (arith, expected_of_tool m role), answers-IsFed tcs ms h)

pub round-IsWellFormed :
    (m : ChatMessage) (calls : List ToolCall) (answers : List ChatMessage)
    → m.tool_calls ≡ some calls
    → m.role ≡ assistant_role
    → AnswersAll calls answers
    → IsWellFormed (m ∷ answers)
unfolding expected_count
round-IsWellFormed m calls answers e role h = (
  (λ tool. roles_differ (sym role ∙ tool)),
  (ground (arith, length-tool_run-answers calls answers h), answers-IsFed calls answers h),
)

pub append-IsWellFormed :
    (xs ys : List ChatMessage) → IsWellFormed xs → IsWellFormed ys → IsWellFormed (xs ++ ys)
append-IsWellFormed xs ys (sx, fx) (sy, fy) =
    (append-StartsWell xs ys sx sy, append-IsFed xs ys fx fy)

system_is_no_tool : system_role ≢ tool_role
unfolding system_role tool_role
system_is_no_tool = cc

tool_is_kept : (m : ChatMessage) → m.role ≡ tool_role → is_kept m ≡ true
tool_is_kept m h = ground (arith, ==_iff m.role system_role, system_is_no_tool)

length-tool_run-kept :
    (ms : List ChatMessage) → length (tool_run ms) ≤ length (tool_run (keep_if is_kept ms))
unfolding tool_run
length-tool_run-kept [] = omega arith
length-tool_run-kept (m ∷ ms) = elim (Bool-cases (m.role == tool_role)) [
  | inl tool ↦
      rw (tool, tool_is_kept m ((==_iff m.role tool_role).0 tool))
        (rw tool (omega (arith, length-tool_run-kept ms)))
  | inr other ↦ rw other (omega arith)
]

kept-IsFed : (ms : List ChatMessage) → IsFed ms → IsFed (keep_if is_kept ms)
kept-IsFed [] h = tt
kept-IsFed (m ∷ ms) (enough, h) = elim (Bool-cases (is_kept m)) [
  | inl kept ↦ rw kept (omega (arith, length-tool_run-kept ms), kept-IsFed ms h)
  | inr left ↦ rw left (kept-IsFed ms h)
]

expected_of_system : (text : Text) → expected_count (system text) ≡ 0
unfolding expected_count system new_message
expected_of_system text = ground arith

memory-IsFed : (text : Text) → IsFed (memory_message text)
unfolding is_empty
memory-IsFed [] = tt
memory-IsFed (c ∷ cs) = (omega (arith, expected_of_system (c ∷ cs)), tt)

pub initial-IsWellFormed :
    (template memory_context : Text) (s : Session)
    → IsWellFormed (initial_messages (system template) memory_context s)
unfolding initial_messages system new_message
initial-IsWellFormed template memory_context s = (
  system_is_no_tool,
  (
    omega (arith, expected_of_system template),
    append-IsFed (memory_message memory_context) (keep_if is_kept (sanitize_history (context s)))
        (memory-IsFed memory_context) (kept-IsFed _ (sanitize-IsWellFormed (context s)).1),
  ),
)
