-- ===== src/Feishu/Handlers/Delivery.antt =====
-- crates/arcc-server/src/feishu/webhook.rs: what the handlers send, and that nothing sent is lost.
use arcc.Base.{
  ◌≡◌, subst, true, false, [], ◌∷◌, none, arith, ◌==◌, list_Eq, Listed, append-Listed,
  append-Listed_last, Option-cases, inl, inr,
}
use arcc.Base.Text.{Text, codes}
use arcc.Base.Maps.{insert}
use arcc.Model.Types.{ToolCall}
use arcc.TaskLoop.{ScheduledTask}
use arcc.Feishu.Post.{Target, maybe_mention}
use arcc.Model.Json.{unwrap_or}
use arcc.Feishu.Handlers.{
  text_arg, confirmation, schedule_at, new_task, Server, Sent, Desk, Chat, Handled, done, panicked,
  called, post, send, Timed, at, rejected, out_of_range, handle_reply_to_user,
  handle_get_current_time, save_task, handle_schedule_task, handle_list_tasks, handle_use_pro_model,
  remove_task, handle_cancel_task, handle_execute_command, call_tool,
}

abbrev pub desk_of : Handled → Desk
desk_of (done tool_ok content d) = d
desk_of (panicked d) = d

module _ (g : Server) (sent : Sent) where
  abbrev Keeps : Desk → Handled → Type 0
  Keeps d h = Listed sent d.sent → Listed sent (desk_of h).sent

  send-Listed :
      (to : Target) (text : Text) (d : Desk)
      → Listed sent d.sent
      → Listed sent (send g to text d).1.sent
  unfolding send
  send-Listed to text d l = append-Listed sent d.sent (post g d.calls to text ∷ []) l

  reply-Keeps :
      (tc : ToolCall) (chat : Chat) (d : Desk) → Keeps d (handle_reply_to_user g tc chat d)
  unfolding handle_reply_to_user
  reply-Keeps tc chat d l =
      let text =
        maybe_mention (unwrap_or (text_arg (codes "message") tc) []) chat.chat_type chat.open_id in
      ground (arith, send-Listed chat.target text d l)

  save-Keeps : (task : ScheduledTask) (chat : Chat) (d : Desk) → Keeps d (save_task g task chat d)
  unfolding save_task
  save-Keeps task chat d l =
      let text = confirmation g task.task_description task.cron task.next_run_at in
      let saved : Desk = record (called d) { tasks = insert task.id task d.tasks } in
      ground
        (arith, send-Listed chat.target (maybe_mention text chat.chat_type chat.open_id) saved l)

  schedule_at-Keeps :
      (t : Timed) (tc : ToolCall) (chat : Chat) (d : Desk) → Keeps d (schedule_at g t tc chat d)
  unfolding schedule_at
  schedule_at-Keeps (at cron time) tc chat d l =
      ground (arith, save-Keeps (new_task g cron time tc chat d) chat (called d) l)
  schedule_at-Keeps (rejected e) tc chat d l = l
  schedule_at-Keeps out_of_range tc chat d l = l

  schedule-Keeps :
      (tc : ToolCall) (chat : Chat) (d : Desk) → Keeps d (handle_schedule_task g tc chat d)
  unfolding handle_schedule_task
  schedule-Keeps tc chat d l = schedule_at-Keeps _ tc chat d l

  list-Keeps : (chat : Chat) (d : Desk) → Keeps d (handle_list_tasks g chat d)
  unfolding handle_list_tasks
  list-Keeps chat d l = ground arith

  pro-Keeps : (d : Desk) → Keeps d (handle_use_pro_model g d)
  unfolding handle_use_pro_model
  pro-Keeps d l = ground arith

  cancel-Keeps : (tc : ToolCall) (d : Desk) → Keeps d (handle_cancel_task g tc d)
  unfolding handle_cancel_task remove_task
  cancel-Keeps tc d l = ground arith

  execute-Keeps : (tc : ToolCall) (d : Desk) → Keeps d (handle_execute_command g tc d)
  unfolding handle_execute_command
  execute-Keeps tc d l = ground arith

  -- No handler takes back what was sent.
  pub call_tool-Keeps : (tc : ToolCall) (chat : Chat) (d : Desk) → Keeps d (call_tool g tc chat d)
  unfolding call_tool handle_get_current_time
  call_tool-Keeps tc chat d l = ground (
    arith,
    reply-Keeps tc chat d l,
    schedule-Keeps tc chat d l,
    list-Keeps chat d l,
    pro-Keeps d l,
    cancel-Keeps tc d l,
    execute-Keeps tc d l,
  )

-- The text that a call of `reply_to_user` sends to a chat.
abbrev pub reply_of : ToolCall → Chat → Text
reply_of tc chat =
    maybe_mention (unwrap_or (text_arg (codes "message") tc) []) chat.chat_type chat.open_id

-- A handler that succeeds has sent the call's message, and Feishu took it.
abbrev pub Reaches : Server → ToolCall → Chat → Desk → Handled → Type 0
Reaches g tc chat d (done true content d') =
    (g.deliver d.calls ≡ none) × Listed (post g d.calls chat.target (reply_of tc chat)) d'.sent
Reaches g tc chat d (done false content d') = Unit
Reaches g tc chat d (panicked d') = Unit

reply-Reaches :
    (g : Server) (tc : ToolCall) (chat : Chat) (d : Desk)
    → Reaches g tc chat d (handle_reply_to_user g tc chat d)
unfolding handle_reply_to_user send
reply-Reaches g tc chat d = elim (Option-cases (g.deliver d.calls)) [
  | inl taken ↦
      rw taken (taken, append-Listed_last (post g d.calls chat.target (reply_of tc chat)) d.sent)
  | inr (e, refused) ↦ rw refused tt
]

-- A call of `reply_to_user` that succeeds has sent the call's message to the chat, and Feishu took it.
pub reply_to_user-Reaches :
    (g : Server) (tc : ToolCall) (chat : Chat) (d d' : Desk) (content : Text)
    → (tc.name == codes "reply_to_user") ≡ true
    → call_tool g tc chat d ≡ done true content d'
    → Reaches g tc chat d (done true content d')
unfolding call_tool
reply_to_user-Reaches g tc chat d d' content named e =
    subst (Reaches g tc chat d) (rw named at e) (reply-Reaches g tc chat d)
