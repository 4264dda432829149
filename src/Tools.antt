-- ===== src/Tools.antt =====
-- crates/arcc-core/src/tools.rs: running a command for a model. The shell is a parameter: what it
-- yields is a failure to start or to be waited for, a timeout, or the bytes of its two streams.
pub mod Definitions
pub mod Limits
pub mod Clearance
mod Tests
use arcc.Base.{
  ℕ, zero, suc, ◌+◌, ◌-◌, Bool, true, false, not, ◌&&◌, ◌||◌, List, [], ◌∷◌, ◌++◌, Option, none,
  some, ltb, leb, if◌then◌else◌,
}
use arcc.Base.Text.{Text, codes, is_empty, byte_len, utf8_len}
use arcc.Safety.{Allowlist, Checked, permitted, refused, check}

abbrev pub default_timeout_secs : ℕ
default_timeout_secs = 30

abbrev pub default_max_bytes : ℕ
default_max_bytes = 4096

pub record CommandOutput : Type 0 where
  pub stdout : Text
  pub stderr : Text
  pub exit_code : Option ℕ
  pub truncated : Bool

pub data ToolError : Type 0 where
  requires_confirmation : Text → ToolError
  spawn : Text → ToolError
  timeout : ℕ → ToolError

pub data ToolResult : Type 0 where
  ok : CommandOutput → ToolResult
  err : ToolError → ToolResult

-- What becomes of a process. An exit code is a number; none stands for the end by a signal.
pub data Process : Type 0 where
  not_spawned : Text → Process
  timed_out : Process
  wait_failed : Text → Process
  exited : List ℕ → List ℕ → Option ℕ → Process

-- `truncate` at `floor_char_boundary(max)`: the longest prefix of whole characters in `max` bytes.
unfoldable pub fit : ℕ → Text → Text
fit max_bytes [] = []
fit max_bytes (c ∷ s) =
    if leb (utf8_len c) max_bytes then c ∷ fit (max_bytes - utf8_len c) s else []

abbrev pub truncation_note : Text
truncation_note = codes "\n... (truncated)"

abbrev pub is_over : ℕ → Text → Bool
is_over max_bytes s = ltb max_bytes (byte_len s)

unfoldable pub limit : ℕ → Text → Text
unfolding fit
limit max_bytes s = if is_over max_bytes s then fit max_bytes s ++ truncation_note else s

-- `to_content`; a code is written by `{:?}`, which is a parameter.
unfoldable pub to_content : (Option ℕ → Text) → CommandOutput → Text
unfolding is_empty
to_content debug o =
    if is_empty o.stderr
    then o.stdout
    else codes "exit_code: "
      ++ (debug o.exit_code
          ++ (codes "\nstdout:\n" ++ (o.stdout ++ (codes "\nstderr:\n" ++ o.stderr))))

abbrev pub or_false : Checked → Bool
or_false (permitted b) = b
or_false (refused _) = false

-- `check(cmd).unwrap_or(false)`
unfoldable pub needs_confirmation : Allowlist → Text → Bool
unfolding check
needs_confirmation a cmd = or_false (check a cmd)

module _ (decode : List ℕ → Text) where
  unfoldable pub collect : ℕ → ℕ → Process → ToolResult
  unfolding limit
  collect timeout_secs max_bytes (not_spawned e) = err (spawn e)
  collect timeout_secs max_bytes timed_out = err (timeout timeout_secs)
  collect timeout_secs max_bytes (wait_failed e) = err (spawn e)
  collect timeout_secs max_bytes (exited out errors code) = ok (record {
    stdout = limit max_bytes (decode out);
    stderr = limit max_bytes (decode errors);
    exit_code = code;
    truncated = is_over max_bytes (decode out) || is_over max_bytes (decode errors);
  })

  -- `shell` is what running the command with a timeout yields.
  unfoldable pub execute_command_with_config :
      (ℕ → Text → Process) → Text → Allowlist → Bool → ℕ → ℕ → ToolResult
  unfolding collect needs_confirmation
  execute_command_with_config shell cmd a skip_permissions timeout_secs max_bytes =
      if not skip_permissions && needs_confirmation a cmd
      then err (requires_confirmation (codes "command requires human confirmation"))
      else collect timeout_secs max_bytes (shell timeout_secs cmd)

  unfoldable pub execute_command : (ℕ → Text → Process) → Text → Allowlist → Bool → ToolResult
  unfolding execute_command_with_config
  execute_command shell cmd a skip_permissions =
      execute_command_with_config shell cmd a skip_permissions default_timeout_secs
        default_max_bytes

  -- The same in a directory.
  unfoldable pub execute_command_acp :
      (Text → ℕ → Text → Process) → Text → Text → Allowlist → Bool → ℕ → ℕ → ToolResult
  unfolding collect needs_confirmation
  execute_command_acp shell cmd cwd a skip_permissions timeout_secs max_bytes =
      if not skip_permissions && needs_confirmation a cmd
      then err (requires_confirmation (codes "command requires human confirmation"))
      else collect timeout_secs max_bytes (shell cwd timeout_secs cmd)
