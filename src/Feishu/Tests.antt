-- ===== src/Feishu/Tests.antt =====
-- The history of a chat at concrete messages.
use arcc.Base.{
  ◌≡◌, ◌↔◌, ◌⊎◌, refl, true, ◌||◌, List, [], ◌∷◌, ◌++◌, Option, none, some, ltb, ◌==◌, list_Eq,
  if◌then◌else◌, length, arith,
}
use arcc.Base.Text.{Text, codes}
use arcc.Base.Maps.{get}
use arcc.Model.Json.{Value, null, string, obj, arr, str, ◌:=◌}
use arcc.Model.Types.{ChatMessage, ToolCall, assistant_role, user, assistant, tool_result}
use arcc.Model.Provider.{ModelProvider, ok, err, stream}
use arcc.Session.{Session}
use arcc.Tools.{timed_out}
use arcc.Feishu.{sanitize_history}
use arcc.Feishu.History.{IsWellFormed, sanitize_history_iff}
use arcc.Feishu.Post.{reply_target}
use arcc.Feishu.Handlers.{Server, Desk, never, handle_cancel_task}
use arcc.Feishu.Handlers.Delivery.{desk_of}
use arcc.Feishu.Handlers.Tasks.{
  task_id, is_pause, paused, is_some, succeeded, handle_cancel_task-tasks,
}
use arcc.Feishu.Chat.{Outcome, clean_text, process_feishu_chat}
use arcc.Feishu.Chat.Requests.{FewAndOrderly, requests_made, process_feishu_chat-requests}
use arcc.Feishu.Chat.Stored.{Stores, process_feishu_chat-Stores}
use arcc.Feishu.Chat.Replies.{IsHeard, process_feishu_chat-IsHeard}
use arcc.Feishu.Webhook.{EventV2, nothing, payload, handler, handle_message_event}
use arcc.Feishu.Webhook.Gate.{IsAdmitted, handler-IsAdmitted, IsChat, handle_message_event-IsChat}

-- An assistant message with two calls, of which one is answered.
abbrev cut_short : List ChatMessage
cut_short =
    tool_result (codes "z") (codes "old")
    ∷ user (codes "list")
    ∷ record {
      role = assistant_role;
      content = codes "looking";
      images = [];
      tool_calls = some (
          record { id = codes "a"; name = codes "run"; arguments = null }
          ∷ record { id = codes "b"; name = codes "run"; arguments = null }
          ∷ []);
      tool_call_id = none;
      reasoning_content = none;
    }
    ∷ tool_result (codes "a") (codes "done")
    ∷ user (codes "thanks")
    ∷ []

sanitize_history_iff_example :
    IsWellFormed (sanitize_history cut_short)
    × ((sanitize_history cut_short ≡ cut_short) ↔ IsWellFormed cut_short)
sanitize_history_iff_example = sanitize_history_iff cut_short

-- A model that calls `reply_to_user` first, and then answers.
abbrev calling : Option (List ToolCall)
calling = some (
    record {
      id = codes "c1";
      name = codes "reply_to_user";
      arguments = obj (("message" := str "hello") ∷ []);
    }
    ∷ [])

abbrev model : ModelProvider
unfolding assistant
model = record {
  model_name = codes "flash";
  chat = λ req. ok (record {
    message =
        if ltb (length req.messages) 3
        then record (assistant []) { tool_calls = calling }
        else assistant (codes "done");
    reasoning_content = none;
    usage = record { prompt_tokens = 0; completion_tokens = 0 };
  });
  chat_stream = λ _. err (stream []);
  count_tokens = λ _. 1;
}

abbrev server : Server
server = record {
  flash = some model;
  pro = none;
  has_client = true;
  deliver = λ _. none;
  db_error = λ _. none;
  id_taken = codes "UNIQUE constraint failed";
  now = λ _. codes "2026-01-01 00:00:00";
  fire_at = λ _ _. none;
  cron = λ _ _. never;
  new_id = λ _. codes "t1";
  shell = λ _ _ _. timed_out;
  decode = λ bytes. bytes;
  debug_code = λ _. codes "None";
  digits = λ _. [];
  allowlist = record { require_confirm = []; session_approved = [] };
  command_timeout_seconds = 30;
  max_output_bytes = 4096;
}

abbrev talk : Session
talk = record {
  id = codes "s";
  name = codes "oc_1";
  mode = codes "feishu";
  messages = cut_short;
  token_count = 0;
  context_max_tokens = 8000;
  summary = none;
  db = none;
}

abbrev exchanged : Outcome
exchanged =
    process_feishu_chat server 70 4096 11 (codes "You are ARCC.") [] (codes "oc_1") (codes "group")
      (codes "ou_1") (codes "hi") talk []

process_feishu_chat-requests_example : FewAndOrderly (requests_made exchanged)
process_feishu_chat-requests_example =
    process_feishu_chat-requests server 70 4096 11 (codes "You are ARCC.") [] (codes "oc_1")
      (codes "group") (codes "ou_1") (codes "hi") talk []

process_feishu_chat-Stores_example :
    Stores (talk.messages ++ user (clean_text (codes "hi")) ∷ []) exchanged
process_feishu_chat-Stores_example =
    process_feishu_chat-Stores server 70 4096 11 (codes "You are ARCC.") [] (codes "oc_1")
      (codes "group") (codes "ou_1") (codes "hi") talk [] (omega arith)

process_feishu_chat-IsHeard_example :
    IsHeard server
      (record {
        chat_id = codes "oc_1";
        chat_type = codes "group";
        open_id = codes "ou_1";
        target = reply_target (codes "oc_1") (codes "group") (codes "ou_1");
      })
      exchanged
process_feishu_chat-IsHeard_example =
    process_feishu_chat-IsHeard server 70 4096 11 (codes "You are ARCC.") [] (codes "oc_1")
      (codes "group") (codes "ou_1") (codes "hi") talk []

abbrev pausing : ToolCall
pausing = record {
  id = codes "c2";
  name = codes "cancel_scheduled_task";
  arguments = obj (("task_id" := str "t9") ∷ ("action" := str "pause") ∷ []);
}

abbrev desk : Desk
desk = record { sent = []; tasks = []; provider = model; calls = 0 }

handle_cancel_task-tasks_example :
    (get (codes "t1") (desk_of (handle_cancel_task server pausing desk)).tasks ≡ (
      if task_id pausing == codes "t1"
      then (if is_pause pausing then paused (get (codes "t1") []) else none)
      else get (codes "t1") []))
    × (succeeded (handle_cancel_task server pausing desk)
        ≡ (is_pause pausing || is_some (get (task_id pausing) [])))
handle_cancel_task-tasks_example = handle_cancel_task-tasks server pausing desk (codes "t1") refl

-- A message in a group, to a server that has a token.
abbrev posted : EventV2
posted = record {
  schema = some (codes "2.0");
  header =
      some (record {
        token = some (codes "secret");
        event_type = some (codes "im.message.receive_v1");
      });
  event = obj (
      ("message"
        := obj (
            ("chat_id" := str "oc_1")
            ∷ ("message_id" := str "om_1")
            ∷ ("message_type" := str "text")
            ∷ ("chat_type" := str "group")
            ∷ ("mentions" := arr (obj (("key" := str "@_user_1") ∷ []) ∷ []))
            ∷ ("content" := str "@_user_1 hi")
            ∷ []))
      ∷ []);
}

abbrev content_of : Text → Value
content_of s = obj (("text" := string s) ∷ [])

handler-IsAdmitted_example :
    ((handler (λ _. payload posted) content_of (λ _. none) (codes "secret") true []).1 ≡ nothing)
    ⊎ IsAdmitted (codes "secret") (payload posted)
handler-IsAdmitted_example =
    handler-IsAdmitted (λ _. payload posted) content_of (λ _. none) (codes "secret") true []

handle_message_event-IsChat_example :
    IsChat content_of posted.event (handle_message_event content_of posted.event)
handle_message_event-IsChat_example = handle_message_event-IsChat content_of posted.event
