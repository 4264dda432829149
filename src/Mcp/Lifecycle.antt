-- ===== src/Mcp/Lifecycle.antt =====
-- Starting, checking and ending the tools.
use arcc.Base.{
  ◌≡◌, refl, ◌∙◌, subst, ◌⊎◌, inl, inr, sym, Bool, true, false, List, none, some, ◌==◌, list_Eq,
  ==_refl, Bool-cases, Option-cases,
}
use arcc.Base.Text.{Text}
use arcc.Base.Maps.{Map, get, insert, get-insert}
use arcc.Mcp.{
  McpToolEntry, McpScheduler, McpSchedulerError, Child, Started, ok, err, tool_not_found,
  spawn_failed, Spawned, child, io_error, Run, done, waits_for_ever, with_lock, launch,
  ensure_running, needs_restart, restart, health_check,
}

done_inj : {A : Type 0} {a b : A} {s t : McpScheduler} → done a s ≡ done b t → (a ≡ b) × (s ≡ t)
done_inj e = (cc, cc)

waits_is_not_done : {A : Type 0} {a : A} {s : McpScheduler} → waits_for_ever ≡ done a s → ⊥
waits_is_not_done e = cc

err_is_not_ok :
    {x : McpSchedulerError} {s t : McpScheduler} {r : Run (Started (Unit {0}))}
    → r ≡ done (err x) s
    → r ≡ done (ok tt) t
    → ⊥
err_is_not_ok e f = cc

Spawned-cases : (x : Spawned) → ((c : Child) × (x ≡ child c)) ⊎ ((why : Text) × (x ≡ io_error why))
Spawned-cases (child c) = inl (c, refl)
Spawned-cases (io_error why) = inr (why, refl)

-- The scheduler with these tools while no task holds its lock.
abbrev pub unlocked : Map Text McpToolEntry → McpScheduler
unlocked m = record { tools = m; locked = false }

module _ (spawn : Text → List Text → Spawned) where
  -- A health check of a registered tool whose process has ended, or was never started, waits for
  -- ever: it asks for the lock that it holds.
  pub health_check_waits :
      (name : Text) (m : Map Text McpToolEntry) (entry : McpToolEntry)
      → get name m ≡ some entry
      → needs_restart entry.child ≡ true
      → health_check spawn name (unlocked m) ≡ waits_for_ever
  unfolding health_check with_lock restart ensure_running
  health_check_waits name m entry found dead = rw (found, dead)

  health_check_absent :
      (name : Text) (m : Map Text McpToolEntry)
      → get name m ≡ none
      → health_check spawn name (unlocked m) ≡ done false (unlocked m)
  unfolding health_check with_lock
  health_check_absent name m absent = rw absent

  health_check_alive :
      (name : Text) (m : Map Text McpToolEntry) (entry : McpToolEntry)
      → get name m ≡ some entry
      → needs_restart entry.child ≡ false
      → health_check spawn name (unlocked m) ≡ done true (unlocked m)
  unfolding health_check with_lock
  health_check_alive name m entry found alive = rw (found, alive)

  -- When a health check ends, it leaves the tools as they are. It then says true if the tool is
  -- registered, and the tool's process has not ended; it says false if no tool has the name.
  pub health_check_ends :
      (name : Text) (m : Map Text McpToolEntry) (b : Bool) (s : McpScheduler)
      → health_check spawn name (unlocked m) ≡ done b s
      → (s ≡ unlocked m)
        × (((b ≡ false) × (get name m ≡ none))
            ⊎ ((b ≡ true)
                × ((entry : McpToolEntry) × (get name m ≡ some entry)
                    × (needs_restart entry.child ≡ false))))
  health_check_ends name m b s e = elim (Option-cases (get name m)) [
    | inl absent ↦
        let (same, kept) = done_inj (sym (health_check_absent name m absent) ∙ e) in
        (sym kept, inl (sym same, absent))
    | inr (entry, found) ↦ elim (Bool-cases (needs_restart entry.child)) [
      | inl dead ↦ absurd (waits_is_not_done (sym (health_check_waits name m entry found dead) ∙ e))
      | inr alive ↦
          let (same, kept) = done_inj (sym (health_check_alive name m entry found alive) ∙ e) in
          (sym kept, inr (sym same, (entry, found, alive)))
    ]
  ]

  ensure_running_absent :
      (name : Text) (m : Map Text McpToolEntry)
      → get name m ≡ none
      → ensure_running spawn name (unlocked m) ≡ done (err (tool_not_found name)) (unlocked m)
  unfolding ensure_running with_lock
  ensure_running_absent name m absent = rw absent

  ensure_running_found :
      (name : Text) (m : Map Text McpToolEntry) (entry : McpToolEntry) (c : Child)
      → get name m ≡ some entry
      → entry.child ≡ some c
      → ensure_running spawn name (unlocked m) ≡ done (ok tt) (unlocked m)
  unfolding ensure_running with_lock
  ensure_running_found name m entry c found runs = rw (found, runs)

  ensure_running_fails :
      (name : Text) (m : Map Text McpToolEntry) (entry : McpToolEntry) (why : Text)
      → get name m ≡ some entry
      → entry.child ≡ none
      → spawn entry.command entry.args ≡ io_error why
      → ensure_running spawn name (unlocked m) ≡ done (err (spawn_failed name why)) (unlocked m)
  unfolding ensure_running with_lock launch
  ensure_running_fails name m entry why found idle failed = rw (found, idle, failed)

  ensure_running_starts :
      (name : Text) (m : Map Text McpToolEntry) (entry : McpToolEntry) (c : Child)
      → get name m ≡ some entry
      → entry.child ≡ none
      → spawn entry.command entry.args ≡ child c
      → ensure_running spawn name (unlocked m)
        ≡ done (ok tt) (unlocked (insert name (record entry { child = some c }) m))
  unfolding ensure_running with_lock launch
  ensure_running_starts name m entry c found idle started = rw (found, idle, started)

  -- What a successful start of a tool leaves.
  pub IsStarted : Text → Map Text McpToolEntry → McpScheduler → Type 0
  IsStarted name m s =
      ((entry : McpToolEntry) × (c : Child) × (get name s.tools ≡ some entry)
        × (entry.child ≡ some c))
      × ((j : Text) → (name == j) ≡ false → get j s.tools ≡ get j m)
      × (s.locked ≡ false)
      × (ensure_running spawn name s ≡ done (ok tt) s)

  insert-IsStarted :
      (name : Text) (m : Map Text McpToolEntry) (entry : McpToolEntry) (c : Child)
      → IsStarted name m (unlocked (insert name (record entry { child = some c }) m))
  unfolding IsStarted
  insert-IsStarted name m entry c = (
    (record entry { child = some c }, c, here, refl),
    (λ j other. get-insert name j _ m ∙ (rw other)),
    refl,
    ensure_running_found name _ (record entry { child = some c }) c here refl,
  )
    where
      here :
          get name (insert name (record entry { child = some c }) m)
          ≡ some (record entry { child = some c })
      here = get-insert name name _ m ∙ (rw (==_refl name))

  -- Started once, a tool runs: when `ensure_running` succeeds, the tool is registered with a
  -- process, every other tool is as before, the lock is free, and a second call succeeds and
  -- changes nothing.
  pub ensure_running_lem :
      (name : Text) (m : Map Text McpToolEntry) (s : McpScheduler)
      → ensure_running spawn name (unlocked m) ≡ done (ok tt) s
      → IsStarted name m s
  ensure_running_lem name m s e = elim (Option-cases (get name m)) [
    | inl absent ↦ absurd (err_is_not_ok (ensure_running_absent name m absent) e)
    | inr (entry, found) ↦ elim (Option-cases entry.child) [
      | inr (c, runs) ↦
          let same = ensure_running_found name m entry c found runs in
          subst (IsStarted name m) (done_inj (sym same ∙ e)).1
            (unfold IsStarted in ((entry, c, found, runs), (λ j other. refl), refl, same))
      | inl idle ↦ elim (Spawned-cases (spawn entry.command entry.args)) [
        | inl (c, started) ↦
            subst (IsStarted name m)
              (done_inj (sym (ensure_running_starts name m entry c found idle started) ∙ e)).1
              (insert-IsStarted name m entry c)
        | inr (why, failed) ↦
            absurd (err_is_not_ok (ensure_running_fails name m entry why found idle failed) e)
      ]
    ]
  ]
