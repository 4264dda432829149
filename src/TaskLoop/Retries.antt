-- ===== src/TaskLoop/Retries.antt =====
-- crates/arcc-server/src/scheduler.rs: how often a task is tried, and what state it is left in.
use arcc.Base.{
  ◌≡◌, refl, ap, ◌∙◌, ◌⊎◌, inl, inr, ℕ, zero, suc, ◌<◌, Bool, true, false, Option, none, some,
  arith, leb, list_Eq, ==_refl, if◌then◌else◌, Bool-cases,
}
use arcc.Base.Text.{Text, codes}
use arcc.Base.Maps.{Map, get, insert, get-insert}
use arcc.TaskLoop.{
  ScheduledTask, Update, task_status, task_next_run, completion, Upcoming, next_at, no_more,
  malformed, Loop, change, apply, one_more, write, on_failure, reschedule, finish_run, on_success,
  run_task,
}

-- A task of the table, and its status.
abbrev pub HasStatus : Text → Text → Map Text ScheduledTask → Type 0
HasStatus id status tasks = (t : ScheduledTask) × (get id tasks ≡ some t) × (t.status ≡ status)

change_found :
    (id : Text) (t : ScheduledTask) (f : ScheduledTask → ScheduledTask)
    (tasks : Map Text ScheduledTask)
    → get id tasks ≡ some t
    → change id f tasks ≡ insert id (f t) tasks
unfolding change
change_found id t f tasks e = rw (e, change)

change-HasStatus :
    (id old status : Text) (f : ScheduledTask → ScheduledTask) (tasks : Map Text ScheduledTask)
    → ((t : ScheduledTask) → (f t).status ≡ status)
    → HasStatus id old tasks
    → HasStatus id status (change id f tasks)
change-HasStatus id old status f tasks sets (t, e, _) = (
  f t,
  ap (get id) (change_found id t f tasks e) ∙ get-insert id id (f t) tasks ∙ (rw (==_refl id)),
  sets t,
)

-- A row of the table.
abbrev pub HasRow : Text → Map Text ScheduledTask → Type 0
HasRow id tasks = (t : ScheduledTask) × (get id tasks ≡ some t)

change_missing :
    (id : Text) (f : ScheduledTask → ScheduledTask) (tasks : Map Text ScheduledTask)
    → get id tasks ≡ none
    → change id f tasks ≡ tasks
unfolding change
change_missing id f tasks e = rw (e, change)

-- A status in which a task is not left behind.
pub IsSettled : Text → Map Text ScheduledTask → Type 0
IsSettled id tasks =
    HasStatus id (codes "pending") tasks
    ⊎ HasStatus id (codes "failed") tasks
    ⊎ HasStatus id (codes "completed") tasks

-- A task that has a row before is settled afterwards, and one without a row has none.
abbrev pub Settles : Text → Map Text ScheduledTask → Map Text ScheduledTask → Type 0
Settles id before after =
    (HasRow id before → IsSettled id after) × (get id before ≡ none → get id after ≡ none)

change-Settles :
    (id status : Text) (f : ScheduledTask → ScheduledTask) (tasks : Map Text ScheduledTask)
    → ((t : ScheduledTask) → (f t).status ≡ status)
    → (HasStatus id status (change id f tasks) → IsSettled id (change id f tasks))
    → Settles id tasks (change id f tasks)
change-Settles id status f tasks sets settled = (
  (λ (t, e). settled (change-HasStatus id t.status status f tasks sets (t, e, refl))),
  (λ e. ap (get id) (change_missing id f tasks e) ∙ e),
)

module _ (succeeds : Update → Bool)
    (execute : ScheduledTask → Map Text ScheduledTask → Bool × Map Text ScheduledTask)
    (upcoming : Text → Upcoming) (all_succeed : (u : Update) → succeeds u ≡ true) where
  on_failure_lem :
      (id old : Text) (n : ℕ) (s : Loop)
      → one_more (get id s.retry_count) ≡ n
      → HasStatus id old s.tasks
      → let s' = on_failure succeeds execute upcoming id s in
        HasStatus id (if leb 10 n then codes "failed" else codes "pending") s'.tasks
        × (get id s'.retry_count ≡ some n)
  unfolding on_failure write apply
  on_failure_lem id old n s counted was =
      let listed = get-insert id id n s.retry_count ∙ (rw (==_refl id)) in
      elim (Bool-cases (leb 10 n)) [
        | inl over ↦
            rw (counted, over, all_succeed (task_status id (codes "failed")))
              (change-HasStatus id old (codes "failed") _ s.tasks (λ t. refl) was, listed)
        | inr under ↦
            rw (counted, under, all_succeed (task_status id (codes "pending")))
              (change-HasStatus id old (codes "pending") _ s.tasks (λ t. refl) was, listed)
      ]

  on_failure-Settles :
      (id : Text) (s : Loop) → Settles id s.tasks (on_failure succeeds execute upcoming id s).tasks
  unfolding IsSettled on_failure write apply
  on_failure-Settles id s = elim (Bool-cases (leb 10 (one_more (get id s.retry_count)))) [
    | inl over ↦
        rw (over, all_succeed (task_status id (codes "failed")))
          (change-Settles id (codes "failed") _ s.tasks (λ t. refl) (λ h. inr (inl h)))
    | inr under ↦
        rw (under, all_succeed (task_status id (codes "pending")))
          (change-Settles id (codes "pending") _ s.tasks (λ t. refl) inl)
  ]

  reschedule-Settles :
      (id : Text) (u : Upcoming) (s : Loop)
      → Settles id s.tasks (reschedule succeeds execute upcoming id u s).tasks
  unfolding IsSettled reschedule write apply
  reschedule-Settles id (next_at next) s =
      rw (all_succeed (task_next_run id next))
        (change-Settles id (codes "pending") _ s.tasks (λ t. refl) inl)
  reschedule-Settles id no_more s =
      rw (all_succeed (task_status id (codes "completed")))
        (change-Settles id (codes "completed") _ s.tasks (λ t. refl) (λ h. inr (inr h)))
  reschedule-Settles id malformed s =
      rw (all_succeed (task_status id (codes "failed")))
        (change-Settles id (codes "failed") _ s.tasks (λ t. refl) (λ h. inr (inl h)))

  finish_run-Settles :
      (id : Text) (cron : Option Text) (s : Loop)
      → Settles id s.tasks (finish_run succeeds execute upcoming id cron s).tasks
  unfolding IsSettled finish_run write apply
  finish_run-Settles id none s =
      rw (all_succeed (completion id))
        (change-Settles id (codes "completed") _ s.tasks (λ t. refl) (λ h. inr (inr h)))
  finish_run-Settles id (some cron) s = reschedule-Settles id (upcoming cron) s

  -- What the executor leaves of the task's run, begun with the task running.
  abbrev pub executed : ScheduledTask → Loop → Bool × Map Text ScheduledTask
  executed task s = execute task (apply (task_status task.id (codes "running")) s.tasks)

  abbrev left_by : ScheduledTask → Loop → Loop
  left_by task s = record s { tasks = (executed task s).1 }

  run_task_done :
      (task : ScheduledTask) (s : Loop)
      → (executed task s).0 ≡ true
      → run_task succeeds execute upcoming task s
        ≡ on_success succeeds execute upcoming task (left_by task s)
  unfolding run_task
  run_task_done task s e = rw (all_succeed (task_status task.id (codes "running")), e)

  run_task_failed :
      (task : ScheduledTask) (s : Loop)
      → (executed task s).0 ≡ false
      → run_task succeeds execute upcoming task s
        ≡ on_failure succeeds execute upcoming task.id (left_by task s)
  unfolding run_task
  run_task_failed task s e = rw (all_succeed (task_status task.id (codes "running")), e)

  -- When every statement succeeds, a task that has run is pending, failed or completed afterwards,
  -- whatever the cron library answers and whether or not the executor succeeds, as long as the executor
  -- leaves the task's row in the table, in any status: the task is not left running. A task whose row
  -- the executor has deleted stays deleted.
  pub run_task-Settles :
      (task : ScheduledTask) (s : Loop)
      → Settles task.id (executed task s).1 (run_task succeeds execute upcoming task s).tasks
  unfolding on_success
  run_task-Settles task s = elim (Bool-cases (executed task s).0) [
    | inl e ↦ rw (run_task_done task s e) (finish_run-Settles task.id task.cron _)
    | inr e ↦ rw (run_task_failed task s e) (on_failure-Settles task.id (left_by task s))
  ]

  -- The loop after a number of runs of one task.
  abbrev pub repeated : ℕ → ScheduledTask → Loop → Loop
  repeated zero task s = s
  repeated (suc n) task s = run_task succeeds execute upcoming task (repeated n task s)

  -- An executor that fails the task and leaves it a row where there was one.
  abbrev pub Fails : ScheduledTask → Type 0
  Fails task =
      (tasks : Map Text ScheduledTask)
      → ((execute task tasks).0 ≡ false)
        × (HasRow task.id tasks → HasRow task.id (execute task tasks).1)

  one_failure :
      (task : ScheduledTask) (n : ℕ) (s : Loop)
      → Fails task
      → one_more (get task.id s.retry_count) ≡ n
      → HasRow task.id s.tasks
      → let s' = run_task succeeds execute upcoming task s in
        HasStatus task.id (if leb 10 n then codes "failed" else codes "pending") s'.tasks
        × (get task.id s'.retry_count ≡ some n)
  unfolding apply
  one_failure task n s fails counted (t, e) =
      let (failed, keeps) = fails (apply (task_status task.id (codes "running")) s.tasks) in
      let (u, begun, _) =
        change-HasStatus task.id t.status (codes "running") _ s.tasks (λ t. refl) (t, e, refl) in
      let (v, kept) = keeps (u, begun) in
      rw (run_task_failed task s failed)
        (on_failure_lem task.id v.status n (left_by task s) counted (v, kept, refl))

  -- A task without earlier failures whose execution fails again and again is pending after each of
  -- the first nine runs and failed after the tenth, when every statement succeeds and the executor
  -- does not delete the task's row.
  pub repeated_failures :
      (n : ℕ) (task : ScheduledTask) (s : Loop)
      → n < 10
      → Fails task
      → HasRow task.id s.tasks
      → get task.id s.retry_count ≡ none
      → let s' = repeated (suc n) task s in
        HasStatus task.id (if leb 10 (suc n) then codes "failed" else codes "pending") s'.tasks
        × (get task.id s'.retry_count ≡ some (suc n))
  unfolding one_more
  repeated_failures zero task s h fails row fresh =
      one_failure task 1 s fails (ap one_more fresh) row
  repeated_failures (suc n) task s h fails row fresh =
      let ((t, e, _), count) = repeated_failures n task s (omega (arith, h)) fails row fresh in
      one_failure task (suc (suc n)) (repeated (suc n) task s) fails
        (ap one_more count ∙ no_wrap (suc n) (omega (arith, h))) (t, e)
    where
      no_wrap : (k : ℕ) → k < 10 → one_more (some k) ≡ suc k
      no_wrap k l = omega (arith, l)

-- If the statement that stores the next run fails, a recurring task that has run well and was left
-- running stays running.
pub run_task_stuck :
    (succeeds : Update → Bool)
    (execute : ScheduledTask → Map Text ScheduledTask → Bool × Map Text ScheduledTask)
    (upcoming : Text → Upcoming) (task : ScheduledTask) (cron next : Text) (s : Loop)
    → let run = execute task (apply (task_status task.id (codes "running")) s.tasks) in
      run.0 ≡ true
      → HasStatus task.id (codes "running") run.1
      → task.cron ≡ some cron
      → upcoming cron ≡ next_at next
      → succeeds (task_status task.id (codes "running")) ≡ true
      → succeeds (task_next_run task.id next) ≡ false
      → HasStatus task.id (codes "running") (run_task succeeds execute upcoming task s).tasks
unfolding run_task on_success finish_run reschedule write
run_task_stuck succeeds execute upcoming task cron next s done was c u begun lost =
    simp (begun, done, c, u, lost) was
