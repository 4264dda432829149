-- ===== src/Mcp.antt =====
-- crates/arcc-core/src/mcp: the registered tools and their subprocesses. The lock round the table is
-- tokio's `RwLock`, which is not re-entrant: a task that asks for it while it holds it waits for
-- ever. Starting a process is the argument `spawn`.
pub mod Lifecycle
mod Tests
use arcc.Base.{Bool, true, false, List, [], ◌∷◌, Option, none, some, list_Eq, if◌then◌else◌, map}
use arcc.Base.Text.{Text, codes}
use arcc.Base.Maps.{Map, get, insert}
use arcc.Model.Json.{Value, string, object, end, field}

pub data McpTransport : Type 0 where
  stdio sse : McpTransport

pub record McpTool : Type 0 where
  pub name : Text
  pub description : Text
  pub input_schema : Value

-- A subprocess, and whether `try_wait` says that it has ended.
pub record Child : Type 0 where
  pub exited : Bool

pub record McpToolEntry : Type 0 where
  pub tool : McpTool
  pub command : Text
  pub args : List Text
  pub transport : McpTransport
  pub child : Option Child

-- The table, and whether the running task holds its lock for writing.
pub record McpScheduler : Type 0 where
  pub tools : Map Text McpToolEntry
  pub locked : Bool

pub data McpSchedulerError : Type 0 where
  tool_not_found : Text → McpSchedulerError
  spawn_failed : Text → Text → McpSchedulerError

pub data Started {ℓ} (A : Type ℓ) : Type ℓ where
  ok : A → Started A
  err : McpSchedulerError → Started A

-- What the operating system answers: a process, or the text of an error.
pub data Spawned : Type 0 where
  child : Child → Spawned
  io_error : Text → Spawned

-- The end of an operation: a result and the new table, or a wait that never ends.
pub data Run (A : Type 0) : Type 0 where
  done : A → McpScheduler → Run A
  waits_for_ever : Run A

unfoldable pub new_scheduler : McpScheduler
new_scheduler = record { tools = []; locked = false }

-- `write().await`, the body under the guard, and the release of the guard.
unfoldable pub with_lock : {A : Type 0} → (McpScheduler → Run A) → McpScheduler → Run A
with_lock body s = elim s.locked [
  | true ↦ waits_for_ever
  | false ↦ elim (body (record s { locked = true })) [
    | done a s' ↦ done a (record s' { locked = false })
    | waits_for_ever ↦ waits_for_ever
  ]
]

abbrev put : Text → McpToolEntry → McpScheduler → McpScheduler
put name entry s = record s { tools = insert name entry s.tools }

unfoldable pub register_stdio : Text → Text → Text → List Text → McpScheduler → Run (Unit {0})
unfolding with_lock insert
register_stdio name description command args =
    let schema = object (
      field (codes "type") (string (codes "object"))
        (field (codes "properties") (object end) end)) in
    let entry : McpToolEntry = record {
      tool = record { name = name; description = description; input_schema = schema };
      command = command;
      args = args;
      transport = stdio;
      child = none;
    } in
    with_lock (λ s. done tt (put name entry s))

unfoldable pub list_tools : McpScheduler → Run (List McpTool)
unfolding with_lock
list_tools = with_lock λ s. done (map (λ e. e.1.tool) s.tools) s

unfoldable pub needs_restart : Option Child → Bool
needs_restart none = true
needs_restart (some c) = c.exited

module _ (spawn : Text → List Text → Spawned) where
  unfoldable pub launch : Text → McpToolEntry → McpScheduler → Run (Started (Unit {0}))
  unfolding insert
  launch name entry s = elim (spawn entry.command entry.args) [
    | child c ↦ done (ok tt) (put name (record entry { child = some c }) s)
    | io_error e ↦ done (err (spawn_failed name e)) s
  ]

  unfoldable pub ensure_running : Text → McpScheduler → Run (Started (Unit {0}))
  unfolding with_lock launch get
  ensure_running name = with_lock λ s. elim (get name s.tools) [
    | none ↦ done (err (tool_not_found name)) s
    | some entry ↦ elim entry.child [ some c ↦ done (ok tt) s | none ↦ launch name entry s ]
  ]

  -- The restart that `health_check` makes while it holds the lock.
  unfoldable pub restart : Text → McpScheduler → Run Bool
  unfolding ensure_running
  restart name s = elim (ensure_running name s) [
    | done (ok _) s' ↦ done true s'
    | done (err e) s' ↦ done false s'
    | waits_for_ever ↦ waits_for_ever
  ]

  unfoldable pub health_check : Text → McpScheduler → Run Bool
  unfolding with_lock needs_restart restart get
  health_check name = with_lock λ s. elim (get name s.tools) [
    | none ↦ done false s
    | some entry ↦ if needs_restart entry.child then restart name s else done true s
  ]

unfoldable pub shut_down : Text × McpToolEntry → Text × McpToolEntry
shut_down (name, entry) = (name, record entry { child = none })

unfoldable pub shutdown_all : McpScheduler → Run (Unit {0})
unfolding with_lock shut_down
shutdown_all = with_lock λ s. done tt (record s { tools = map shut_down s.tools })
