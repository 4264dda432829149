-- ===== src/Feishu/Chat.antt =====
-- crates/arcc-server/src/feishu/webhook.rs, `process_feishu_chat`: one exchange in a chat. The session is
-- the one that `get_or_create` returns; no other task writes to it in the exchange, except that
-- sessions are compressed behind it. Logging is left out.
pub mod Turns
pub mod Rounds
pub mod Orderly
pub mod Requests
pub mod Stored
pub mod Replies
use arcc.Base.{
  ℕ, zero, suc, ◌+◌, Bool, true, false, not, ◌&&◌, ◌||◌, List, [], ◌∷◌, ◌++◌, Option, none, some,
  leb, ◌==◌, list_Eq, if◌then◌else◌, keep_if,
}
use arcc.Base.Text.{Text, codes, is_empty, trim, strip_prefix, starts_with, lines}
use arcc.Model.Json.{string, unwrap_or}
use arcc.Model.Types.{
  ChatMessage, ChatRequest, ChatResponse, ToolCall, assistant_role, system_role, system, user,
  tool_result,
}
use arcc.Model.Provider.{ModelProvider, Result, ok, err}
use arcc.Memory.{MemoryFact, format_for_context}
use arcc.Session.{Session, Statement, push_message, context}
use arcc.Tools.Definitions.{
  command_tool_definition, reply_to_user_definition, use_pro_model_definition,
  schedule_task_definition, get_current_time_definition, list_scheduled_tasks_definition,
  cancel_scheduled_task_definition,
}
use arcc.Feishu.{sanitize_history}
use arcc.Feishu.Post.{Target, is_group, maybe_mention, reply_target}
use arcc.Base.Maps.{Map}
use arcc.TaskLoop.{ScheduledTask}
use arcc.Feishu.Handlers.{Server, Desk, Sent, Chat, done, panicked, post, send, call_tool}

-- The state of an exchange: the session with its statements, the vector `messages`, the requests
-- that the providers got, and the flag `replied_to_user`.
pub record Exchange : Type 0 where
  pub session : Session
  pub statements : List Statement
  pub messages : List ChatMessage
  pub requests : List ChatRequest
  pub replied_to_user : Bool
  pub desk : Desk

unfoldable pub save : ChatMessage → Text → Exchange → Exchange
unfolding push_message
save m counted x =
    let pushed = push_message x.session m (x.desk.provider.count_tokens counted) in
    record x { session = pushed.0; statements = x.statements ++ pushed.1 }

abbrev pub trigger_prefix : Text
trigger_prefix = codes "[Scheduled task trigger] "

abbrev first_or : List Text → Text → Text
first_or [] rest = rest
first_or (l ∷ ls) rest = l

unfoldable pub clean_text : Text → Text
unfolding strip_prefix lines
clean_text user_text = elim (strip_prefix trigger_prefix user_text) [
  | none ↦ user_text
  | some rest ↦ first_or (lines rest) rest
]

-- The history without plain system messages; summaries stay.
abbrev pub is_kept : ChatMessage → Bool
is_kept m =
    not ((m.role == system_role) && not (starts_with (codes "[conversation summary]") m.content))

abbrev memory_message : Text → List ChatMessage
memory_message memory_context = if is_empty memory_context then [] else system memory_context ∷ []

unfoldable pub initial_messages : ChatMessage → Text → Session → List ChatMessage
unfolding context sanitize_history is_empty starts_with
initial_messages system_msg memory_context s =
    system_msg ∷ (memory_message memory_context ++ keep_if is_kept (sanitize_history (context s)))

-- The content and the calls of a reply, as they are kept.
abbrev pub has_calls : Option (List ToolCall) → Bool
has_calls none = false
has_calls (some _) = true

unfoldable pub display_content : ChatMessage → Text
unfolding is_empty trim
display_content m =
    if is_empty (trim m.content) && has_calls m.tool_calls then codes "处理中…" else m.content

unfoldable pub reply_message : ChatMessage → Option (List ToolCall) → ChatMessage
unfolding display_content
reply_message m tool_calls = record {
  role = assistant_role;
  content = display_content m;
  images = [];
  tool_calls = tool_calls;
  tool_call_id = none;
  reasoning_content = m.reasoning_content;
}

abbrev pub max_tool_rounds : ℕ
max_tool_rounds = 10

-- The end of the loop: the reply's text, a failed call of the model, a panic, or no fuel.
pub data Looped : Type 0 where
  replied : Text → Exchange → Looped
  model_failed aborted unfinished : Exchange → Looped

-- The end of the tool calls of a round.
pub data Called : Type 0 where
  answered interrupted : Exchange → Called

-- The result of a call goes to the vector and to the session.
unfoldable pub answer : ToolCall → Bool → Text → Exchange → Desk → Exchange
unfolding save tool_result
answer tc tool_ok content x d = save (tool_result tc.id content) content (record x {
  messages = x.messages ++ tool_result tc.id content ∷ [];
  replied_to_user = x.replied_to_user || ((tc.name == codes "reply_to_user") && tool_ok);
  desk = d;
})

module _ (temperature max_tokens : ℕ) where
  unfoldable pub request : Bool → Exchange → ChatRequest
  unfolding command_tool_definition reply_to_user_definition use_pro_model_definition
  request has_tools x = record {
    model = x.desk.provider.model_name;
    messages = x.messages;
    tools =
        if has_tools
        then some (
            command_tool_definition ∷ reply_to_user_definition ∷ use_pro_model_definition
            ∷ schedule_task_definition ∷ get_current_time_definition
            ∷ list_scheduled_tasks_definition ∷ cancel_scheduled_task_definition ∷ [])
        else none;
    tool_choice = if has_tools then some (string (codes "auto")) else none;
    temperature = some temperature;
    max_tokens = some max_tokens;
    stream = false;
    thinking_mode = none;
    reasoning_effort = none;
  }

module _ (g : Server) where
  unfoldable pub call_tools : List ToolCall → Chat → Exchange → Called
  unfolding answer call_tool
  call_tools [] chat x = answered x
  call_tools (tc ∷ tcs) chat x = elim (call_tool g tc chat x.desk) [
    | panicked d ↦ interrupted (record x { desk = d })
    | done tool_ok content d ↦ call_tools tcs chat (answer tc tool_ok content x d)
  ]

  -- What follows the tool calls of a round; `next` is the loop's next round.
  unfoldable pub after_calls : (Exchange → Looped) → Called → Looped
  after_calls next (interrupted x) = aborted x
  after_calls next (answered x) = next x

  -- A reply whose calls are executed, or one without calls, which ends the loop.
  unfoldable pub by_calls :
      (Exchange → Looped) → ChatMessage → List ToolCall → Chat → Exchange → Looped
  unfolding after_calls call_tools reply_message
  by_calls next m [] chat kept = replied m.content kept
  by_calls next m (tc ∷ tcs) chat kept = after_calls next (
      call_tools (tc ∷ tcs) chat
        (record kept { messages = kept.messages ++ reply_message m m.tool_calls ∷ [] }))

  -- A round behind its request; `phase_1` is `phase == 1`. In phase 2 the calls of a reply are
  -- neither kept nor executed.
  unfoldable pub after_request :
      (Exchange → Looped) → Bool → Result ChatResponse → Chat → Exchange → Looped
  unfolding save reply_message by_calls
  after_request next phase_1 (err e) chat x = model_failed x
  after_request next phase_1 (ok response) chat x =
      let m = response.message in
      let tool_calls_for_session = if phase_1 then m.tool_calls else none in
      by_calls next m (unwrap_or tool_calls_for_session []) chat
        (save (reply_message m tool_calls_for_session) (display_content m) x)

module _ (g : Server) (temperature max_tokens : ℕ) where
  -- The loop.
  unfoldable pub rounds : ℕ → Bool → ℕ → Chat → Exchange → Looped
  unfolding request after_request
  rounds zero phase_1 tool_rounds chat x = unfinished x
  rounds (suc fuel) phase_1 tool_rounds chat x =
      let req = request temperature max_tokens phase_1 x in
      after_request g
        (rounds fuel (not (leb max_tool_rounds (suc tool_rounds))) (suc tool_rounds) chat) phase_1
        (x.desk.provider.chat req) chat (record x { requests = x.requests ++ req ∷ [] })

-- How `process_feishu_chat` ends. It returns true if it is `finished`: then the facts are extracted,
-- under the id and from the user's text and the reply, and the sessions are compressed.
pub data Outcome : Type 0 where
  unavailable : Option Sent → Outcome
  failed : Exchange → Outcome
  panics : Exchange → Outcome
  out_of_fuel : Exchange → Outcome
  finished : Text → Text → Text → Exchange → Outcome

module _ (g : Server) where
  -- `send_fallback`, where there is a client.
  abbrev fallback : Chat → Exchange → Exchange
  fallback chat x = record x {
    desk =
        (send g chat.target
          (maybe_mention (codes "Sorry, I encountered an error processing your message.")
            chat.chat_type chat.open_id)
          x.desk).1;
  }

  unfoldable pub send_result : Text → Chat → Exchange → Exchange
  unfolding send maybe_mention
  send_result reply_text chat x = if x.replied_to_user then x else record x {
    desk = (send g chat.target (maybe_mention reply_text chat.chat_type chat.open_id) x.desk).1;
  }

  unfoldable pub conclude : Text → Text → Chat → Looped → Outcome
  unfolding send_result
  conclude memory_user_id user_text chat (replied reply_text x) =
      finished memory_user_id user_text reply_text (send_result reply_text chat x)
  conclude memory_user_id user_text chat (model_failed x) = failed (fallback chat x)
  conclude memory_user_id user_text chat (aborted x) = panics x
  conclude memory_user_id user_text chat (unfinished x) = out_of_fuel x

  unfoldable pub no_provider : Chat → Outcome
  unfolding post maybe_mention
  no_provider chat = unavailable (
      if g.has_client
      then some (
          post g 0 chat.target (
            maybe_mention (codes "Service unavailable: no model provider") chat.chat_type
              chat.open_id))
      else none)

  abbrev memory_user_id : Chat → Text
  memory_user_id chat = if is_group chat.chat_type then chat.open_id else chat.chat_id

  -- The exchange with the user's message in the session, and the first messages of the vector.
  unfoldable pub opened :
      Text
      → List MemoryFact
      → Chat
      → Text
      → ModelProvider
      → Session
      → Map Text ScheduledTask
      → Exchange
  unfolding save clean_text initial_messages format_for_context user
  opened template facts chat user_text flash session tasks =
      let heard = save (user (clean_text user_text)) (clean_text user_text) (record {
        session = session;
        statements = [];
        messages = [];
        requests = [];
        replied_to_user = false;
        desk = record { sent = []; tasks = tasks; provider = flash; calls = 0 };
      }) in
      record heard {
        messages =
            initial_messages (system template) (format_for_context (memory_user_id chat) facts)
              heard.session;
      }

module _ (g : Server) (temperature max_tokens fuel : ℕ) where
  -- The exchange behind its opening. The loop has no bound but its own; each round takes one unit of
  -- the fuel.
  unfoldable pub converse : Text → Chat → Exchange → Outcome
  unfolding conclude rounds
  converse user_text chat x =
      if g.has_client
      then conclude g (memory_user_id g chat) user_text chat
          (rounds g temperature max_tokens fuel true 0 chat x)
      else failed x

  unfoldable pub by_provider :
      Option ModelProvider → (ModelProvider → Exchange) → Text → Chat → Outcome
  unfolding no_provider converse
  by_provider none start user_text chat = no_provider g chat
  by_provider (some flash) start user_text chat = converse user_text chat (start flash)

  unfoldable pub process_feishu_chat :
      Text
      → List MemoryFact
      → Text
      → Text
      → Text
      → Text
      → Session
      → Map Text ScheduledTask
      → Outcome
  unfolding opened by_provider reply_target
  process_feishu_chat template facts chat_id chat_type open_id user_text session tasks =
      let chat : Chat = record {
        chat_id = chat_id;
        chat_type = chat_type;
        open_id = open_id;
        target = reply_target chat_id chat_type open_id;
      } in
      by_provider g.flash (λ flash. opened g template facts chat user_text flash session tasks)
        user_text chat
