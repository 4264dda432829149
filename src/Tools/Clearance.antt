-- ===== src/Tools/Clearance.antt =====
-- crates/arcc-core/src/tools.rs: which commands are run.
use arcc.Base.{
  ℕ, ◌≡◌, ◌↔◌, refl, ap, inl, inr, Bool, true, false, not, ◌&&◌, List, if◌then◌else◌, Bool-cases,
}
use arcc.Base.Text.{Text, codes}
use arcc.Safety.{Allowlist, Checked, check, permitted, refused}
use arcc.Tools.{
  ToolResult, err, requires_confirmation, Process, not_spawned, timed_out, wait_failed, exited,
  or_false, needs_confirmation, collect, execute_command_with_config, execute_command_acp,
}

-- A refusal for want of a confirmation.
abbrev pub IsRefused : ToolResult → Type 0
IsRefused r = r ≡ err (requires_confirmation (codes "command requires human confirmation"))

or_false_iff : (c : Checked) → (or_false c ≡ true) ↔ (c ≡ permitted true)
or_false_iff (permitted b) = ((λ h. ap permitted h), λ h. cc)
or_false_iff (refused reason) = ((λ h. cc), λ h. cc)

collect-not_refused :
    (decode : List ℕ → Text) (timeout_secs max_bytes : ℕ) (p : Process)
    → IsRefused (collect decode timeout_secs max_bytes p)
    → ⊥
unfolding collect
collect-not_refused decode timeout_secs max_bytes (not_spawned e) h = cc
collect-not_refused decode timeout_secs max_bytes timed_out h = cc
collect-not_refused decode timeout_secs max_bytes (wait_failed e) h = cc
collect-not_refused decode timeout_secs max_bytes (exited out errors code) h = cc

-- The condition under which a command is refused without being run.
abbrev pub IsUncleared : Bool → Allowlist → Text → Type 0
IsUncleared skip_permissions a cmd = (skip_permissions ≡ false) × (check a cmd ≡ permitted true)

guard_iff :
    (a : Allowlist) (cmd : Text) (skip_permissions : Bool) (r : ToolResult)
    → (IsRefused r → ⊥)
    → IsRefused (
        if not skip_permissions && needs_confirmation a cmd
        then err (requires_confirmation (codes "command requires human confirmation"))
        else r)
      ↔ IsUncleared skip_permissions a cmd
unfolding needs_confirmation
guard_iff a cmd true r ran = ((λ h. absurd (ran h)), λ h. cc)
guard_iff a cmd false r ran = elim (Bool-cases (or_false (check a cmd))) [
  | inl risky ↦ ((λ h. (refl, (or_false_iff (check a cmd)).0 risky)), λ h. rw risky refl)
  | inr safe ↦ (
    (λ h. absurd (ran (rw safe at h))),
    λ h. let risky = (or_false_iff (check a cmd)).1 h.1 in cc,
  )
]

-- Both ways to run a command refuse it, whatever the shell would yield, exactly if permissions are
-- not skipped and the allowlist wants a confirmation for it.
pub execute_command-IsRefused :
    (decode : List ℕ → Text) (shell : ℕ → Text → Process) (shell_in : Text → ℕ → Text → Process)
    (cmd cwd : Text) (a : Allowlist) (skip_permissions : Bool) (timeout_secs max_bytes : ℕ)
    → (IsRefused
          (execute_command_with_config decode shell cmd a skip_permissions timeout_secs max_bytes)
        ↔ IsUncleared skip_permissions a cmd)
      × (IsRefused
            (execute_command_acp decode shell_in cmd cwd a skip_permissions timeout_secs max_bytes)
          ↔ IsUncleared skip_permissions a cmd)
unfolding execute_command_with_config execute_command_acp
execute_command-IsRefused decode shell shell_in cmd cwd a skip_permissions timeout_secs max_bytes =
    (
      guard_iff a cmd skip_permissions _
          (collect-not_refused decode timeout_secs max_bytes (shell timeout_secs cmd)),
      guard_iff a cmd skip_permissions _
          (collect-not_refused decode timeout_secs max_bytes (shell_in cwd timeout_secs cmd)),
    )
