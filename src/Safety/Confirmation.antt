-- ===== src/Safety/Confirmation.antt =====
-- When a command is confirmed, said without the code's tests.
use arcc.Base.{◌≤◌, ◌<◌, ◌≡◌, ◌⊎◌, true, false, List, [], ◌∷◌, arith, ◌==◌, list_Eq, if◌then◌else◌}
use arcc.Base.Text.{Text, trim, Occurs, byte_len}
use arcc.Safety.{
  Allowlist, command_name, permitted, check, approve, SafetyValidator, allowed, needs_confirmation,
  command_too_long, ok, err, outcome_of, validate_command,
}

-- Some dangerous text occurs in the command.
abbrev pub IsDangerous : List Text → Text → Type 0
IsDangerous [] cmd = ⊥
IsDangerous (danger ∷ rest) cmd = Occurs danger cmd ⊎ IsDangerous rest cmd

-- Approving a word lets every command that begins with it pass, whatever else it holds, and
-- changes nothing for any other command.
pub check-approve :
    (a : Allowlist) (word command : Text)
    → check (approve a word) command
      ≡ (if word == command_name (trim command) then permitted false else check a command)
unfolding check approve
check-approve a word command = ground arith

-- Validation never blocks a command: it fails exactly for a text over the byte limit, and
-- otherwise wants a confirmation exactly as `check` does.
pub validate_command-cases :
    (v : SafetyValidator) (command : Text)
    → ((v.max_cmd_length < byte_len command)
        × (validate_command v command ≡ err (command_too_long (byte_len command))))
      ⊎ ((byte_len command ≤ v.max_cmd_length)
          × (check v.allowlist command ≡ permitted true)
          × (validate_command v command ≡ ok needs_confirmation))
      ⊎ ((byte_len command ≤ v.max_cmd_length)
          × (check v.allowlist command ≡ permitted false)
          × (validate_command v command ≡ ok allowed))
unfolding validate_command check outcome_of
validate_command-cases v command = ground arith
