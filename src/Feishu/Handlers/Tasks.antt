-- ===== src/Feishu/Handlers/Tasks.antt =====
-- crates/arcc-server/src/feishu/webhook.rs: what `cancel_scheduled_task` does to the table of tasks.
use arcc.Base.{
  ◌≡◌, refl, ◌∙◌, Bool, true, false, ◌||◌, [], ◌∷◌, Option, none, some, arith, any, ◌==◌, list_Eq,
  ==_iff, if◌then◌else◌,
}
use arcc.Base.Text.{Text, codes}
use arcc.Base.Maps.{Map, get, insert, get-insert, get-remove}
use arcc.Model.Json.{unwrap_or}
use arcc.Model.Types.{ToolCall}
use arcc.TaskLoop.{ScheduledTask, change}
use arcc.Feishu.Handlers.{
  Server, Desk, Handled, done, panicked, text_arg, pause_task, delete_task, remove_task,
  handle_cancel_task,
}
use arcc.Feishu.Handlers.Delivery.{desk_of}

abbrev pub is_some : Option ScheduledTask → Bool
is_some none = false
is_some (some t) = true

abbrev pub paused : Option ScheduledTask → Option ScheduledTask
paused none = none
paused (some t) = some (record t { status = codes "paused" })

abbrev pub succeeded : Handled → Bool
succeeded (done tool_ok content d) = tool_ok
succeeded (panicked d) = false

get-paused_row :
    (id j : Text) (tasks : Map Text ScheduledTask) (row : Option ScheduledTask)
    → get id tasks ≡ row
    → get j (elim row [
      | none ↦ tasks
      | some t ↦ insert id (record t { status = codes "paused" }) tasks
    ])
      ≡ (if id == j then paused (get j tasks) else get j tasks)
get-paused_row id j tasks none e = ground (arith, e, ==_iff id j)
get-paused_row id j tasks (some t) e =
    get-insert id j (record t { status = codes "paused" }) tasks ∙ ground (arith, e, ==_iff id j)

get-pause_task :
    (id j : Text) (tasks : Map Text ScheduledTask)
    → get j (pause_task id tasks) ≡ (if id == j then paused (get j tasks) else get j tasks)
unfolding pause_task change
get-pause_task id j tasks = get-paused_row id j tasks (get id tasks) refl

any-get :
    (id : Text) (tasks : Map Text ScheduledTask)
    → any (λ e. e.0 == id) tasks ≡ is_some (get id tasks)
unfolding get
any-get id [] = refl
any-get id ((j, t) ∷ tasks) = ground (arith, any-get id tasks)

abbrev pub task_id : ToolCall → Text
task_id tc = unwrap_or (text_arg (codes "task_id") tc) []

abbrev pub is_pause : ToolCall → Bool
is_pause tc = unwrap_or (text_arg (codes "action") tc) (codes "delete") == codes "pause"

-- Where the statement succeeds, a call of `cancel_scheduled_task` changes no task but the one that is
-- named, whichever chat it belongs to: this one is paused if the action is to pause, and is gone
-- otherwise. A call that pauses says that it succeeded also if there is no such task, and one that
-- deletes does so exactly if there was one.
pub handle_cancel_task-tasks :
    (g : Server) (tc : ToolCall) (d : Desk) (j : Text)
    → g.db_error d.calls ≡ none
    → let h = handle_cancel_task g tc d in
      (get j (desk_of h).tasks ≡ (
        if task_id tc == j
        then (if is_pause tc then paused (get j d.tasks) else none)
        else get j d.tasks))
      × (succeeded h ≡ (is_pause tc || is_some (get (task_id tc) d.tasks)))
unfolding handle_cancel_task remove_task delete_task
handle_cancel_task-tasks g tc d j no_error = ground (
  arith,
  no_error,
  get-pause_task (task_id tc) j d.tasks,
  get-remove (task_id tc) j d.tasks,
  any-get (task_id tc) d.tasks,
  ==_iff (task_id tc) j,
)
