-- ===== src/TaskLoop/Tests.antt =====
-- The theorems about scheduled tasks at a concrete table.
use arcc.Base.{◌≡◌, refl, Bool, true, false, [], ◌∷◌, some, list_Eq, list_eq, arith, ==_refl, ◌∙◌}
use arcc.Base.Text.{Text, codes}
use arcc.Base.Maps.{Map, get, insert, remove, get-insert}
use arcc.TaskLoop.{ScheduledTask, Update, Upcoming, next_at, Loop, run_task}
use arcc.TaskLoop.Retries.{
  HasStatus, HasRow, Settles, executed, run_task-Settles, Fails, repeated, repeated_failures,
}

abbrev hourly : ScheduledTask
hourly = record {
  id = codes "t1";
  chat_id = codes "c1";
  chat_type = codes "p2p";
  open_id = codes "u";
  reply_id = codes "c1";
  reply_id_type = codes "chat_id";
  cron = some (codes "0 0 * * * *");
  task_description = codes "report";
  status = codes "pending";
  next_run_at = codes "10:00";
}

abbrev loop : Loop
loop = record { tasks = (codes "t1", hourly) ∷ []; retry_count = [] }

abbrev every_time : Update → Bool
every_time _ = true

abbrev at_eleven : Text → Upcoming
at_eleven _ = next_at (codes "11:00")

hourly-HasRow : HasRow (codes "t1") loop.tasks
unfolding get list_eq
hourly-HasRow = (hourly, refl)

-- An exchange that fails and pauses the task, and one that deletes it.
abbrev pausing : ScheduledTask → Map Text ScheduledTask → Bool × Map Text ScheduledTask
pausing task tasks = (false, insert task.id (record task { status = codes "paused" }) tasks)

abbrev deleting : ScheduledTask → Map Text ScheduledTask → Bool × Map Text ScheduledTask
deleting task tasks = (true, remove task.id tasks)

run_task-Settles_example :
    Settles
      (codes "t1")
      (executed every_time deleting at_eleven (λ _. refl) hourly loop).1
      (run_task every_time deleting at_eleven hourly loop).tasks
run_task-Settles_example = run_task-Settles every_time deleting at_eleven (λ _. refl) hourly loop

pausing-Fails : Fails every_time pausing at_eleven (λ _. refl) hourly
pausing-Fails tasks = (
  refl,
  λ row. (
    record hourly { status = codes "paused" },
    get-insert (codes "t1") (codes "t1") (record hourly { status = codes "paused" }) tasks
        ∙ (rw (==_refl (codes "t1"))),
  ),
)

repeated_failures_example :
    let s' = repeated every_time pausing at_eleven (λ _. refl) 10 hourly loop in
    HasStatus (codes "t1") (codes "failed") s'.tasks × (get (codes "t1") s'.retry_count ≡ some 10)
unfolding get
repeated_failures_example =
    repeated_failures every_time pausing at_eleven (λ _. refl) 9 hourly loop (omega arith)
      pausing-Fails hourly-HasRow refl
