-- ===== src/Safety.antt =====
-- crates/arcc-core/src/safety: which shell commands want a confirmation. The hash sets are lists.
pub mod Confirmation
mod Tests
use arcc.Base.{
  ℕ, ◌*◌, Bool, true, false, ◌||◌, List, [], ◌∷◌, Option, none, some, ltb, ◌==◌, list_Eq,
  if◌then◌else◌, any,
}
use arcc.Base.Text.{Text, trim, trim_start, is_whitespace, contains, byte_len}

pub record Allowlist : Type 0 where
  pub require_confirm : List Text
  pub session_approved : List Text

unfoldable pub new_allowlist : List Text → Allowlist
new_allowlist require_confirm = record { require_confirm = require_confirm; session_approved = [] }

-- The characters before the first whitespace.
unfoldable pub first_part : Text → Text
unfolding is_whitespace
first_part [] = []
first_part (c ∷ s) = if is_whitespace c then [] else c ∷ first_part s

-- `split_whitespace().next()`
unfoldable pub first_word : Text → Option Text
unfolding first_part trim_start
first_word s = elim (trim_start s) [ [] ↦ none | c ∷ r ↦ some (first_part (c ∷ r)) ]

unfoldable pub command_name : Text → Text
unfolding first_word
command_name cmd = elim (first_word cmd) [ none ↦ cmd | some word ↦ word ]

-- `Result<bool, String>`: whether a confirmation is wanted, or the reason of a refusal.
pub data Checked : Type 0 where
  permitted : Bool → Checked
  refused : Text → Checked

unfoldable pub check : Allowlist → Text → Checked
unfolding command_name trim contains
check a command =
    let cmd = trim command in
    let cmd_name = command_name cmd in
    if any (λ word. word == cmd_name) a.session_approved
    then permitted false
    else permitted (any (λ danger. cmd_name == danger || contains danger cmd) a.require_confirm)

unfoldable pub approve : Allowlist → Text → Allowlist
approve a cmd = record a { session_approved = cmd ∷ a.session_approved }

pub record SafetyValidator : Type 0 where
  pub allowlist : Allowlist
  pub max_cmd_length : ℕ

unfoldable pub new_validator : Allowlist → SafetyValidator
new_validator a = record { allowlist = a; max_cmd_length = 4096 }

pub data ValidationResult : Type 0 where
  allowed needs_confirmation : ValidationResult

pub data ValidationError : Type 0 where
  blocked : Text → ValidationError
  command_too_long : ℕ → ValidationError
  input_too_large : ℕ → ValidationError
  schema : Text → ValidationError

pub data Outcome {ℓ} (A : Type ℓ) : Type ℓ where
  ok : A → Outcome A
  err : ValidationError → Outcome A

-- What `serde_json::from_str` makes of a text: a value of the target type or its error's text.
pub data Parsed {ℓ} (A : Type ℓ) : Type ℓ where
  value : A → Parsed A
  malformed : Text → Parsed A

unfoldable pub parsed {ℓ} : {A : Type ℓ} → Parsed A → Outcome A
parsed (value a) = ok a
parsed (malformed e) = err (schema e)

unfoldable pub validate_json {ℓ} :
    {A : Type ℓ} → (Text → Parsed A) → SafetyValidator → Text → Outcome A
unfolding parsed
validate_json from_str v raw =
    if ltb (v.max_cmd_length * 4) (byte_len raw)
    then err (input_too_large (byte_len raw))
    else parsed (from_str raw)

unfoldable pub outcome_of : Checked → Outcome ValidationResult
outcome_of (permitted true) = ok needs_confirmation
outcome_of (permitted false) = ok allowed
outcome_of (refused reason) = err (blocked reason)

unfoldable pub validate_command : SafetyValidator → Text → Outcome ValidationResult
unfolding check outcome_of
validate_command v command =
    if ltb v.max_cmd_length (byte_len command)
    then err (command_too_long (byte_len command))
    else outcome_of (check v.allowlist command)
