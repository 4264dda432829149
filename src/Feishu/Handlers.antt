-- ===== src/Feishu/Handlers.antt =====
-- crates/arcc-server/src/feishu/webhook.rs: the handlers of the tool calls in a chat. The clock, the
-- cron library, the shell, Feishu's answers and the success of a statement are the fields of
-- `Server`, as functions of the number of earlier calls of them; `fire_at` is none on a value that is no
-- `i64`, and a delay that chrono cannot add makes the handler panic.
pub mod Delivery
pub mod Tasks
use Prim.Native.String.{String}
use arcc.Base.{
  ℕ, suc, Bool, true, false, ◌&&◌, ◌||◌, List, [], ◌∷◌, ◌++◌, map, Option, none, some, ltb, nat_eq,
  ◌==◌, list_Eq, if◌then◌else◌, any, keep_if,
}
use arcc.Base.Text.{Text, codes, is_empty}
use arcc.Base.Maps.{Map, get, insert, remove}
use arcc.Model.Json.{Value, get_value, and_str, unwrap_or}
use arcc.Model.Types.{ToolCall}
use arcc.Model.Provider.{ModelProvider}
use arcc.Safety.{Allowlist}
use arcc.Tools
use arcc.Tools.{Process, ToolResult, execute_command_with_config, to_content}
use arcc.Acp.Talk.{display_tool_error}
use arcc.TaskLoop.{ScheduledTask, change}
use arcc.Feishu.Post.{Target, post_md, maybe_mention, replace_char}

-- What `chrono` makes of a delay, and what the cron library makes of an expression.
pub data Delay : Type 0 where
  fires : Text → Delay
  overflows : Delay

pub data Cron : Type 0 where
  invalid : Text → Cron
  never : Cron
  next : Text → Cron

pub record Server : Type 0 where
  pub flash : Option ModelProvider
  pub pro : Option ModelProvider
  pub has_client : Bool
  pub deliver : ℕ → Option Text
  pub db_error : ℕ → Option Text
  pub id_taken : Text
  pub now : ℕ → Text
  pub fire_at : ℕ → Value → Option Delay
  pub cron : ℕ → Text → Cron
  pub new_id : ℕ → Text
  pub shell : ℕ → ℕ → Text → Process
  pub decode : List ℕ → Text
  pub debug_code : Option ℕ → Text
  pub digits : ℕ → Text
  pub allowlist : Allowlist
  pub command_timeout_seconds : ℕ
  pub max_output_bytes : ℕ

-- A message that was handed to the client, with Feishu's error if there was one.
pub record Sent : Type 0 where
  pub target : Target
  pub content : Value
  pub error : Option Text

-- What the handlers change: the messages sent, the table of tasks, the provider of the turn. The
-- last field counts the calls of what lies outside.
pub record Desk : Type 0 where
  pub sent : List Sent
  pub tasks : Map Text ScheduledTask
  pub provider : ModelProvider
  pub calls : ℕ

-- Who the chat is with: `chat_id`, `chat_type`, `open_id`, and where replies go.
pub record Chat : Type 0 where
  pub chat_id : Text
  pub chat_type : Text
  pub open_id : Text
  pub target : Target

pub data Handled : Type 0 where
  done : Bool → Text → Desk → Handled
  panicked : Desk → Handled

-- `arguments[key].as_str()`
unfoldable pub text_arg : Text → ToolCall → Option Text
unfolding get_value and_str
text_arg key tc = and_str (get_value key tc.arguments)

abbrev pub called : Desk → Desk
called d = record d { calls = suc d.calls }

-- When a task runs: its cron expression and the next time, or why there is none.
pub data Timed : Type 0 where
  at : Option Text → Text → Timed
  rejected : Text → Timed
  out_of_range : Timed

abbrev filled : Option Text → Option Text
filled none = none
filled (some s) = if is_empty s then none else some s

-- The rows of `list_tasks_by_user`, `ORDER BY next_run_at`: texts in the order of their codes.
unfoldable pub before : Text → Text → Bool
before s [] = false
before [] (d ∷ t) = true
before (c ∷ s) (d ∷ t) = ltb c d || (nat_eq c d && before s t)

unfoldable pub place : ScheduledTask → List ScheduledTask → List ScheduledTask
unfolding before
place t [] = t ∷ []
place t (u ∷ us) = if before u.next_run_at t.next_run_at then u ∷ place t us else t ∷ u ∷ us

unfoldable pub by_next_run : List ScheduledTask → List ScheduledTask
unfolding place
by_next_run [] = []
by_next_run (t ∷ ts) = place t (by_next_run ts)

abbrev is_listed : Text → ScheduledTask → Bool
is_listed chat_id t =
    (t.chat_id == chat_id) && (t.status == codes "pending" || t.status == codes "running")

unfoldable pub list_tasks_by_user : Text → Map Text ScheduledTask → List ScheduledTask
unfolding by_next_run
list_tasks_by_user chat_id tasks = by_next_run (keep_if (is_listed chat_id) (map (λ e. e.1) tasks))

unfoldable pub task_line : ScheduledTask → Text
unfolding unwrap_or
task_line t =
    codes "- `"
    ++ (t.id
        ++ (codes "`: "
            ++ (t.task_description
                ++ (codes " (cron: "
                    ++ (unwrap_or t.cron (codes "one-shot")
                        ++ (codes ", next: "
                            ++ (t.next_run_at ++ (codes ") [" ++ (t.status ++ codes "]\n")))))))))

unfoldable pub task_lines : List ScheduledTask → Text
unfolding task_line
task_lines [] = []
task_lines (t ∷ ts) = task_line t ++ task_lines ts

abbrev pub create_scheduled_task : Text → ScheduledTask → Map Text ScheduledTask → Option Text
create_scheduled_task id_taken task tasks = elim (get task.id tasks) [
  | none ↦ none
  | some _ ↦ some id_taken
]

-- Whether a row was deleted.
unfoldable pub delete_task : Text → Map Text ScheduledTask → Bool × Map Text ScheduledTask
unfolding get remove
delete_task id tasks = (any (λ e. e.0 == id) tasks, remove id tasks)

unfoldable pub pause_task : Text → Map Text ScheduledTask → Map Text ScheduledTask
unfolding change
pause_task id tasks = change id (λ t. record t { status = codes "paused" }) tasks

abbrev pub failed : String → Text → Desk → Handled
failed what e d = done false (codes what ++ e) d

module _ (g : Server) where
  -- A message of the type `post`, and whether Feishu took it.
  unfoldable pub post : ℕ → Target → Text → Sent
  unfolding post_md
  post n target text = record { target = target; content = post_md text; error = g.deliver n }

  unfoldable pub send : Target → Text → Desk → Option Text × Desk
  unfolding post
  send target text d =
      (g.deliver d.calls, record (called d) { sent = d.sent ++ post d.calls target text ∷ [] })

  unfoldable pub handle_reply_to_user : ToolCall → Chat → Desk → Handled
  unfolding text_arg unwrap_or maybe_mention send
  handle_reply_to_user tc chat d =
      let message = unwrap_or (text_arg (codes "message") tc) [] in
      let after = send chat.target (maybe_mention message chat.chat_type chat.open_id) d in
      elim after.0 [
        | none ↦ done true (codes "Message sent to user successfully.") after.1
        | some e ↦ failed "Failed to send message: " e after.1
      ]

  unfoldable pub handle_get_current_time : Desk → Handled
  handle_get_current_time d = done true (codes "Current server time: " ++ g.now d.calls) (called d)

  unfoldable pub cron_time : ℕ → Text → Timed
  cron_time n cron_expr = elim (g.cron n cron_expr) [
    | invalid e ↦ rejected (codes "Invalid cron expression '" ++ (cron_expr ++ (codes "': " ++ e)))
    | never ↦ rejected (codes "Cron expression never repeats (no future occurrence).")
    | next time ↦ at (some cron_expr) time
  ]

  -- The delay counts before the cron expression.
  unfoldable pub task_time : ℕ → Option Delay → Option Text → Timed
  unfolding cron_time
  task_time n (some (fires time)) cron = at none time
  task_time n (some overflows) cron = out_of_range
  task_time n none (some cron_expr) = cron_time n cron_expr
  task_time n none none = at none (g.now n)

  abbrev delay_of : ℕ → Option Value → Option Delay
  delay_of n none = none
  delay_of n (some v) = g.fire_at n v

  -- `safe_task` and the confirmation that is shown to the user.
  unfoldable pub confirmation : Text → Option Text → Text → Text
  unfolding replace_char
  confirmation task cron next_run =
      codes "✅ Task scheduled!\n> "
      ++ (replace_char 13 [] (replace_char 10 (codes " ") (replace_char b'>' (codes "\\>") task))
          ++ (codes "\nCron: "
              ++ (elim cron [ none ↦ codes "one-shot" | some c ↦ codes "`" ++ (c ++ codes "`") ]
                  ++ (codes "\nNext run: " ++ next_run))))

  unfoldable pub save_task : ScheduledTask → Chat → Desk → Handled
  unfolding get insert maybe_mention send confirmation
  save_task task chat d = elim (g.db_error d.calls) [
    | some e ↦ failed "Failed to save task: " e (called d)
    | none ↦ elim (create_scheduled_task g.id_taken task d.tasks) [
      | some e ↦ failed "Failed to save task: " e (called d)
      | none ↦
          let saved : Desk = record (called d) { tasks = insert task.id task d.tasks } in
          done true (codes "Task scheduled successfully. Next run at: " ++ task.next_run_at)
            (send chat.target
              (maybe_mention (confirmation task.task_description task.cron task.next_run_at)
                chat.chat_type chat.open_id)
              saved).1
    ]
  ]

  -- The row of a new task.
  unfoldable pub new_task : Option Text → Text → ToolCall → Chat → Desk → ScheduledTask
  unfolding text_arg unwrap_or
  new_task cron time tc chat d = record {
    id = g.new_id d.calls;
    chat_id = chat.chat_id;
    chat_type = chat.chat_type;
    open_id = chat.open_id;
    reply_id = chat.target.0;
    reply_id_type = chat.target.1;
    cron = cron;
    task_description = unwrap_or (text_arg (codes "task") tc) [];
    status = codes "pending";
    next_run_at = time;
  }

  unfoldable pub schedule_at : Timed → ToolCall → Chat → Desk → Handled
  unfolding new_task save_task
  schedule_at out_of_range tc chat d = panicked (called d)
  schedule_at (rejected e) tc chat d = done false e (called d)
  schedule_at (at cron time) tc chat d =
      if g.has_client
      then save_task (new_task cron time tc chat d) chat (called d)
      else done false (codes "Feishu client not available") (called d)

  unfoldable pub handle_schedule_task : ToolCall → Chat → Desk → Handled
  unfolding text_arg task_time schedule_at get_value
  handle_schedule_task tc chat d =
      schedule_at
        (task_time d.calls (delay_of d.calls (get_value (codes "delay_seconds") tc.arguments))
          (filled (text_arg (codes "cron") tc)))
        tc chat d

  unfoldable pub handle_list_tasks : Chat → Desk → Handled
  unfolding list_tasks_by_user task_lines
  handle_list_tasks chat d = elim (g.db_error d.calls) [
    | some e ↦ failed "Failed to list tasks: " e (called d)
    | none ↦
        done true
          (elim (list_tasks_by_user chat.chat_id d.tasks) [
            | [] ↦ codes "You have no active scheduled tasks."
            | t ∷ ts ↦ codes "Your scheduled tasks:\n\n" ++ task_lines (t ∷ ts)
          ])
          (called d)
  ]

  unfoldable pub handle_use_pro_model : Desk → Handled
  handle_use_pro_model d = elim g.pro [
    | none ↦ done false (codes "Pro model is not available.") d
    | some pro ↦
        done true
          (codes "Switched to Pro model. I now have more reasoning capacity to handle this task.")
          (record d { provider = pro })
  ]

  abbrev about_task : Text → String → Text
  about_task id what = codes "Task " ++ (id ++ codes what)

  unfoldable pub remove_task : Text → Desk → Handled
  unfolding delete_task
  remove_task id d =
      let deleted = delete_task id d.tasks in
      if deleted.0
      then done true (about_task id " has been deleted.") (record (called d) { tasks = deleted.1 })
      else done false (about_task id " not found.") (called d)

  unfoldable pub handle_cancel_task : ToolCall → Desk → Handled
  unfolding text_arg unwrap_or pause_task remove_task
  handle_cancel_task tc d =
      let id = unwrap_or (text_arg (codes "task_id") tc) [] in
      if unwrap_or (text_arg (codes "action") tc) (codes "delete") == codes "pause"
      then (elim (g.db_error d.calls) [
        | some e ↦ failed "Failed to pause task: " e (called d)
        | none ↦
            done true (about_task id " has been paused.")
              (record (called d) { tasks = pause_task id d.tasks })
      ])
      else (elim (g.db_error d.calls) [
        | some e ↦ failed "Failed to delete task: " e (called d)
        | none ↦ remove_task id d
      ])

  abbrev of_result : ToolResult → Desk → Handled
  of_result (Tools.ok output) d = done true (to_content g.debug_code output) d
  of_result (Tools.err e) d = done false (display_tool_error g.digits e) d

  -- The command runs with `skip_permissions` set.
  unfoldable pub handle_execute_command : ToolCall → Desk → Handled
  unfolding text_arg unwrap_or execute_command_with_config to_content display_tool_error
  handle_execute_command tc d =
      of_result
        (execute_command_with_config g.decode (g.shell d.calls)
          (unwrap_or (text_arg (codes "command") tc) []) g.allowlist true g.command_timeout_seconds
          g.max_output_bytes)
        (called d)

  unfoldable pub call_tool : ToolCall → Chat → Desk → Handled
  call_tool tc chat d =
      if tc.name == codes "reply_to_user"
      then handle_reply_to_user tc chat d
      else if tc.name == codes "get_current_time"
      then handle_get_current_time d
      else if tc.name == codes "schedule_task"
      then handle_schedule_task tc chat d
      else if tc.name == codes "list_scheduled_tasks"
      then handle_list_tasks chat d
      else if tc.name == codes "use_pro_model"
      then handle_use_pro_model d
      else if tc.name == codes "cancel_scheduled_task"
      then handle_cancel_task tc d
      else handle_execute_command tc d
