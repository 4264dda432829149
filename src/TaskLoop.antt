-- ===== src/TaskLoop.antt =====
-- crates/arcc-server/src/scheduler.rs: the loop that runs scheduled tasks, over the table of
-- crates/arcc-storage/src/db/queries.rs. The executor, the cron library with the clock, and whether
-- a statement succeeds are the arguments `execute`, `upcoming` and `succeeds`. An executor says
-- whether it has succeeded and what it leaves in the table: the tool calls of a chat can change it.
pub mod Retries
mod Tests
use arcc.Base.{
  ℕ, suc, ◌+◌, ◌%◌, Bool, true, false, List, [], ◌∷◌, Option, none, some, ◌&&◌, ◌==◌, leb, nat_eq,
  list_Eq, if◌then◌else◌,
}
use arcc.Base.Text.{Text, codes}
use arcc.Base.Maps.{Map, get, insert, remove}

-- A row of the table; the three times that SQLite fills in are left out.
pub record ScheduledTask : Type 0 where
  pub id : Text
  pub chat_id : Text
  pub chat_type : Text
  pub open_id : Text
  pub reply_id : Text
  pub reply_id_type : Text
  pub cron : Option Text
  pub task_description : Text
  pub status : Text
  pub next_run_at : Text

-- The updates of the table.
pub data Update : Type 0 where
  task_status : Text → Text → Update
  task_next_run : Text → Text → Update
  completion : Text → Update

-- What the cron library says of an expression: a next time, none, or that it is malformed.
pub data Upcoming : Type 0 where
  next_at : Text → Upcoming
  no_more malformed : Upcoming

-- The table of tasks and the loop's count of failures.
pub record Loop : Type 0 where
  pub tasks : Map Text ScheduledTask
  pub retry_count : Map Text ℕ

unfoldable pub change :
    Text → (ScheduledTask → ScheduledTask) → Map Text ScheduledTask → Map Text ScheduledTask
unfolding get insert
change id f tasks = elim (get id tasks) [ none ↦ tasks | some task ↦ insert id (f task) tasks ]

unfoldable pub apply : Update → Map Text ScheduledTask → Map Text ScheduledTask
unfolding change
apply (task_status id status) tasks = change id (λ t. record t { status = status }) tasks
apply (task_next_run id next) tasks =
    change id (λ t. record t { next_run_at = next; status = codes "pending" }) tasks
apply (completion id) tasks = change id (λ t. record t { status = codes "completed" }) tasks

abbrev pub max_consecutive_failures : ℕ
max_consecutive_failures = 10

-- The counter's `*fails += 1` on 32 bits, from 0 where there is no entry.
unfoldable pub one_more : Option ℕ → ℕ
one_more none = 1
one_more (some n) = (n + 1) % 4294967296

module _ (succeeds : Update → Bool)
    (execute : ScheduledTask → Map Text ScheduledTask → Bool × Map Text ScheduledTask)
    (upcoming : Text → Upcoming) where
  unfoldable pub write : Update → Loop → Loop
  unfolding apply
  write u s = if succeeds u then record s { tasks = apply u s.tasks } else s

  unfoldable pub on_failure : Text → Loop → Loop
  unfolding write one_more get insert
  on_failure id s =
      let fails = one_more (get id s.retry_count) in
      let counted : Loop = record s { retry_count = insert id fails s.retry_count } in
      if leb max_consecutive_failures fails
      then write (task_status id (codes "failed")) counted
      else write (task_status id (codes "pending")) counted

  unfoldable pub reschedule : Text → Upcoming → Loop → Loop
  unfolding write
  reschedule id (next_at next) s = write (task_next_run id next) s
  reschedule id no_more s = write (task_status id (codes "completed")) s
  reschedule id malformed s = write (task_status id (codes "failed")) s

  unfoldable pub finish_run : Text → Option Text → Loop → Loop
  unfolding reschedule write
  finish_run id none s = write (completion id) s
  finish_run id (some cron) s = reschedule id (upcoming cron) s

  unfoldable pub on_success : ScheduledTask → Loop → Loop
  unfolding finish_run remove
  on_success task s =
      finish_run task.id task.cron (record s { retry_count = remove task.id s.retry_count })

  -- One round of the loop over the due tasks.
  unfoldable pub run_task : ScheduledTask → Loop → Loop
  unfolding on_success on_failure apply
  run_task task s =
      if succeeds (task_status task.id (codes "running"))
      then (let run = execute task (apply (task_status task.id (codes "running")) s.tasks) in
          let ran : Loop = record s { tasks = run.1 } in
          if run.0 then on_success task ran else on_failure task.id ran)
      else s

  unfoldable pub run_tasks : List ScheduledTask → Loop → Loop
  unfolding run_task
  run_tasks [] s = s
  run_tasks (task ∷ tasks) s = run_tasks tasks (run_task task s)

  -- One tick, by what `list_due_tasks` returns and whether there is a flash model: whether the
  -- sessions are compressed, and the loop.
  unfoldable pub tick : Bool → ℕ → Option (List ScheduledTask) → Loop → Bool × Loop
  unfolding run_tasks
  tick has_flash tick_count none s = (false, s)
  tick has_flash tick_count (some tasks) s =
      (nat_eq (tick_count % 360) 0 && has_flash, run_tasks tasks s)
