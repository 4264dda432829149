-- ===== src/Feishu/Chat/Turns.antt =====
-- crates/arcc-server/src/feishu/webhook.rs: what an exchange adds to the session.
use arcc.Base.{
  ℕ, zero, suc, ◌≡◌, refl, sym, ap, ◌∙◌, Bool, List, [], ◌∷◌, ◌++◌, Option, none, some, arith,
  append-nil, append_assoc, length, if◌then◌else◌, list_Eq,
}
use arcc.Base.Text.{Text}
use arcc.Model.Json.{unwrap_or}
use arcc.Model.Types.{
  ChatMessage, ChatResponse, ToolCall, assistant_role, tool_role, tool_result, new_message,
}
use arcc.Model.Provider.{Result, ok, err}
use arcc.Session.{push_message}
use arcc.Acp.Prompt.Answering.{IsAnswer, AnswersAll, AnswersFirst}
use arcc.Feishu.{expected_count}
use arcc.Feishu.Handlers.{Server, Desk, Chat, Handled, done, panicked, call_tool}
use arcc.Feishu.Chat.{
  Exchange, save, display_content, reply_message, answer, Called, answered, interrupted, call_tools,
  Looped, replied, model_failed, aborted, unfinished, after_calls, by_calls, after_request, rounds,
}

-- How an exchange ends for the session.
pub data Ending : Type 0 where
  completed stopped crashed : Ending

-- What is added behind the user's message: rounds of an assistant message with tool calls and an
-- answer to each of them, in order; then a last assistant message without calls. An exchange that
-- stops adds no last message, and one that crashes ends in a round with answers to the first calls.
pub data Turns : Ending → List ChatMessage → Type 0 where
  last :
      (m : ChatMessage) → m.role ≡ assistant_role → expected_count m ≡ 0 → Turns completed (m ∷ [])
  nothing : Turns stopped []
  cut :
      (m : ChatMessage) (calls : List ToolCall) (answers : List ChatMessage)
      → m.role ≡ assistant_role
      → m.tool_calls ≡ some calls
      → AnswersFirst calls answers
      → Turns crashed (m ∷ answers)
  round :
      {ending : Ending} (m : ChatMessage) (calls : List ToolCall)
      (answers rest added : List ChatMessage)
      → m.role ≡ assistant_role
      → m.tool_calls ≡ some calls
      → AnswersAll calls answers
      → Turns ending rest
      → added ≡ m ∷ (answers ++ rest)
      → Turns ending added

abbrev pub stored : Exchange → List ChatMessage
stored x = x.session.messages

-- A list was extended.
abbrev Extends : List ChatMessage → List ChatMessage → List ChatMessage → Type 0
Extends before added after = after ≡ before ++ added

-- What the tool calls of a round add to the session and to the vector.
abbrev pub AddsAnswers : List ToolCall → Exchange → Called → Type 0
AddsAnswers tcs x (answered x') =
    (ms : List ChatMessage) × AnswersAll tcs ms
    × Extends (stored x) ms (stored x')
    × Extends x.messages ms x'.messages
AddsAnswers tcs x (interrupted x') =
    (ms : List ChatMessage) × AnswersFirst tcs ms × Extends (stored x) ms (stored x')

answer_lem : (tc : ToolCall) (content : Text) → IsAnswer tc (tool_result tc.id content)
unfolding tool_result new_message tool_role
answer_lem tc content = (refl, refl)

answer-stored :
    (tc : ToolCall) (tool_ok : Bool) (content : Text) (x : Exchange) (d : Desk)
    → stored (answer tc tool_ok content x d) ≡ stored x ++ tool_result tc.id content ∷ []
unfolding answer save push_message
answer-stored tc tool_ok content x d = refl

answer-messages :
    (tc : ToolCall) (tool_ok : Bool) (content : Text) (x : Exchange) (d : Desk)
    → (answer tc tool_ok content x d).messages ≡ x.messages ++ tool_result tc.id content ∷ []
unfolding answer save
answer-messages tc tool_ok content x d = refl

-- The answers of the later calls stand behind that of the first.
behind :
    (tc : ToolCall) (tcs : List ToolCall) (x u : Exchange) (c : Called) (m : ChatMessage)
    → IsAnswer tc m
    → stored u ≡ stored x ++ m ∷ []
    → u.messages ≡ x.messages ++ m ∷ []
    → AddsAnswers tcs u c
    → AddsAnswers (tc ∷ tcs) x c
behind tc tcs x u (answered x') m a e f (ms, all, added, sent) = (
  m ∷ ms,
  (a, all),
  added ∙ (ap (λ r. r ++ ms) e ∙ append_assoc (stored x) (m ∷ []) ms),
  sent ∙ (ap (λ r. r ++ ms) f ∙ append_assoc x.messages (m ∷ []) ms),
)
behind tc tcs x u (interrupted x') m a e f (ms, first, added) =
    (m ∷ ms, (a, first), added ∙ (ap (λ r. r ++ ms) e ∙ append_assoc (stored x) (m ∷ []) ms))

module _ (g : Server) where
  pub call_tools-AddsAnswers :
      (tcs : List ToolCall) (chat : Chat) (x : Exchange)
      → AddsAnswers tcs x (call_tools g tcs chat x)
  unfolding call_tools
  call_tools-AddsAnswers [] chat x =
      ([], tt, sym (append-nil (stored x)), sym (append-nil x.messages))
  call_tools-AddsAnswers (tc ∷ tcs) chat x =
      elim (call_tool g tc chat x.desk)
        as (λ (h : Handled). AddsAnswers (tc ∷ tcs) x (elim h [
          | panicked d ↦ interrupted (record x { desk = d })
          | done tool_ok content d ↦ call_tools g tcs chat (answer tc tool_ok content x d)
        ])) [
          | panicked d ↦ ([], tt, sym (append-nil (stored x)))
          | done tool_ok content d ↦
              let u = answer tc tool_ok content x d in
              behind tc tcs x u (call_tools g tcs chat u) (tool_result tc.id content)
                (answer_lem tc content) (answer-stored tc tool_ok content x d)
                (answer-messages tc tool_ok content x d) (call_tools-AddsAnswers tcs chat u)
        ]

abbrev pub ending : Looped → Ending
ending (replied text x) = completed
ending (model_failed x) = stopped
ending (aborted x) = crashed
ending (unfinished x) = stopped

abbrev pub result : Looped → Exchange
result (replied text x) = x
result (model_failed x) = x
result (aborted x) = x
result (unfinished x) = x

-- What the loop adds.
abbrev pub AddsTurns : Exchange → Looped → Type 0
AddsTurns x r =
    (ms : List ChatMessage) × Turns (ending r) ms × Extends (stored x) ms (stored (result r))

-- A whole round in front of what the later ones add.
in_front :
    (m : ChatMessage) (calls : List ToolCall) (answers : List ChatMessage) (x u : Exchange)
    (r : Looped)
    → m.role ≡ assistant_role
    → m.tool_calls ≡ some calls
    → AnswersAll calls answers
    → stored u ≡ stored x ++ m ∷ answers
    → AddsTurns u r
    → AddsTurns x r
in_front m calls answers x u r role has all e (ms, turns, added) = (
  m ∷ (answers ++ ms),
  round m calls answers ms _ role has all turns refl,
  added ∙ (ap (λ l. l ++ ms) e ∙ append_assoc (stored x) (m ∷ answers) ms),
)

no_calls :
    (m : ChatMessage) (calls : Option (List ToolCall))
    → unwrap_or calls [] ≡ []
    → expected_count (reply_message m calls) ≡ 0
unfolding unwrap_or expected_count reply_message
no_calls m none e = ground arith
no_calls m (some calls) e = ground (arith, ap length e)

pub all_calls :
    (calls : Option (List ToolCall)) {tc : ToolCall} {tcs : List ToolCall}
    → unwrap_or calls [] ≡ tc ∷ tcs
    → calls ≡ some (tc ∷ tcs)
unfolding unwrap_or
all_calls none e = cc
all_calls (some calls) e = ap some e

module _ (g : Server) (next : Exchange → Looped)
    (adds : (x : Exchange) → AddsTurns x (next x)) where
  after_calls-AddsTurns :
      (m : ChatMessage) (calls : List ToolCall) (x kept : Exchange) (c : Called)
      → m.role ≡ assistant_role
      → m.tool_calls ≡ some calls
      → stored kept ≡ stored x ++ m ∷ []
      → AddsAnswers calls kept c
      → AddsTurns x (after_calls g next c)
  unfolding after_calls
  after_calls-AddsTurns m calls x kept (interrupted x') role has e (ms, first, added) = (
    m ∷ ms,
    cut m calls ms role has first,
    added ∙ (ap (λ r. r ++ ms) e ∙ append_assoc (stored x) (m ∷ []) ms),
  )
  after_calls-AddsTurns m calls x kept (answered x') role has e (ms, all, added, _) =
      in_front m calls ms x x' (next x') role has all
        (added ∙ (ap (λ r. r ++ ms) e ∙ append_assoc (stored x) (m ∷ []) ms)) (adds x')

  by_calls-AddsTurns :
      (m : ChatMessage) (kept_calls : Option (List ToolCall)) (calls : List ToolCall) (chat : Chat)
      (x kept : Exchange)
      → unwrap_or kept_calls [] ≡ calls
      → stored kept ≡ stored x ++ reply_message m kept_calls ∷ []
      → AddsTurns x (by_calls g next m calls chat kept)
  unfolding by_calls reply_message
  by_calls-AddsTurns m kept_calls [] chat x kept e f =
      (reply_message m kept_calls ∷ [], last _ refl (no_calls m kept_calls e), f)
  by_calls-AddsTurns m kept_calls (tc ∷ tcs) chat x kept e f =
      let u : Exchange = record kept {
        messages = kept.messages ++ reply_message m m.tool_calls ∷ [];
      } in
      after_calls-AddsTurns (reply_message m kept_calls) (tc ∷ tcs) x u
        (call_tools g (tc ∷ tcs) chat u) refl (all_calls kept_calls e) f
        (call_tools-AddsAnswers g (tc ∷ tcs) chat u)

  reply_stored :
      (m : ChatMessage) (counted : Text) (x : Exchange)
      → stored (save m counted x) ≡ stored x ++ m ∷ []
  unfolding save push_message
  reply_stored m counted x = refl

  after_request-AddsTurns :
      (phase_1 : Bool) (reply : Result ChatResponse) (chat : Chat) (x : Exchange)
      → AddsTurns x (after_request g next phase_1 reply chat x)
  unfolding after_request
  after_request-AddsTurns phase_1 (err e) chat x = ([], nothing, sym (append-nil (stored x)))
  after_request-AddsTurns phase_1 (ok response) chat x =
      let m = response.message in
      let calls = if phase_1 then m.tool_calls else none in
      by_calls-AddsTurns m calls _ chat x _ refl
        (reply_stored (reply_message m calls) (display_content m) x)

pub rounds-AddsTurns :
    (g : Server) (temperature max_tokens fuel : ℕ) (phase_1 : Bool) (tool_rounds : ℕ) (chat : Chat)
    (x : Exchange)
    → AddsTurns x (rounds g temperature max_tokens fuel phase_1 tool_rounds chat x)
unfolding rounds
rounds-AddsTurns g t k zero phase_1 n chat x = ([], nothing, sym (append-nil (stored x)))
rounds-AddsTurns g t k (suc fuel) phase_1 n chat x =
    after_request-AddsTurns g _ (rounds-AddsTurns g t k fuel _ (suc n) chat) phase_1 _ chat _
