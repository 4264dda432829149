-- ===== src/Computer.antt =====
-- crates/arcc-core/src/computer/mod.rs: the arguments of the tool that controls the desktop, their
-- check, and the errors. Reading JSON into the arguments, and the platform's own calls, are outside.
pub mod Keys
pub mod Laws
mod Tests
use arcc.Base.{
  ℕ, Bool, true, false, not, ◌||◌, List, [], ◌∷◌, ◌++◌, Option, none, some, ◌==◌, list_Eq,
  if◌then◌else◌,
}
use arcc.Base.Text.{Text, codes, is_empty, trim}

-- A signed integer over the native numbers: `negsuc n` is the one below `-n`.
pub data ℤ : Type 0 where
  pos negsuc : ℕ → ℤ

pub data ComputerAction : Type 0 where
  screenshot status click double_click right_click move drag scroll type_text key wait :
      ComputerAction

unfoldable pub is_read_only : ComputerAction → Bool
is_read_only screenshot = true
is_read_only status = true
is_read_only _ = false

pub record ComputerArgs : Type 0 where
  pub action : ComputerAction
  pub x : Option ℤ
  pub y : Option ℤ
  pub to_x : Option ℤ
  pub to_y : Option ℤ
  pub button : Option Text
  pub text : Option Text
  pub press_enter : Option Bool
  pub keys : Option Text
  pub direction : Option Text
  pub amount : Option ℤ
  pub milliseconds : Option ℕ
  pub display : Option ℕ
  pub include_screenshot : Option Bool

pub data ComputerError : Type 0 where
  unsupported : ComputerError
  invalid_args capture input internal : Text → ComputerError

pub data Result {ℓ} (A : Type ℓ) : Type ℓ where
  ok : A → Result A
  err : ComputerError → Result A

unfoldable pub is_none {ℓ} : {A : Type ℓ} → Option A → Bool
is_none none = true
is_none (some _) = false

unfoldable pub need_xy : ComputerArgs → Result (Unit {0})
unfolding is_none
need_xy a =
    if is_none a.x || is_none a.y
    then err (invalid_args (codes "x and y are required for this action"))
    else ok tt

unfoldable pub need_end : ComputerArgs → Result (Unit {0})
unfolding is_none
need_end a =
    if is_none a.to_x || is_none a.to_y
    then err (invalid_args (codes "to_x and to_y are required for drag"))
    else ok tt

unfoldable pub need_direction : Option Text → Result (Unit {0})
need_direction none = err (invalid_args (codes "direction must be one of: up, down, left, right"))
need_direction (some d) =
    if (d == codes "up") || (d == codes "down") || (d == codes "left") || (d == codes "right")
    then ok tt
    else err (invalid_args (codes "direction must be one of: up, down, left, right"))

unfoldable pub need_text : Option Text → Result (Unit {0})
unfolding is_empty
need_text none = err (invalid_args (codes "text is required for the type action"))
need_text (some t) =
    if not (is_empty t)
    then ok tt
    else err (invalid_args (codes "text is required for the type action"))

unfoldable pub need_keys : Option Text → Result (Unit {0})
unfolding is_empty trim
need_keys none = err (invalid_args (codes "keys is required for the key action"))
need_keys (some k) =
    if not (is_empty (trim k))
    then ok tt
    else err (invalid_args (codes "keys is required for the key action"))

unfoldable pub need_drag : ComputerArgs → Result (Unit {0})
unfolding need_xy need_end
need_drag a = elim (need_xy a) [ ok _ ↦ need_end a | err e ↦ err e ]

unfoldable pub validate_as : ComputerAction → ComputerArgs → Result (Unit {0})
unfolding need_xy need_drag need_direction need_text need_keys
validate_as screenshot a = ok tt
validate_as status a = ok tt
validate_as wait a = ok tt
validate_as click a = need_xy a
validate_as double_click a = need_xy a
validate_as right_click a = need_xy a
validate_as move a = need_xy a
validate_as drag a = need_drag a
validate_as scroll a = need_direction a.direction
validate_as type_text a = need_text a.text
validate_as key a = need_keys a.keys

unfoldable pub validate : ComputerArgs → Result (Unit {0})
unfolding validate_as
validate a = validate_as a.action a

-- The screenshot after an action whose arguments do not say whether to take one.
unfoldable pub default_screenshot : ComputerAction → Bool → Bool
default_screenshot move after = false
default_screenshot wait after = false
default_screenshot status after = false
default_screenshot screenshot after = true
default_screenshot _ after = after

unfoldable pub wants_of : ComputerAction → Option Bool → Bool → Bool
unfolding default_screenshot
wants_of screenshot explicit after = true
wants_of action (some explicit) after = explicit
wants_of action none after = default_screenshot action after

unfoldable pub wants_screenshot : ComputerArgs → Bool → Bool
unfolding wants_of
wants_screenshot a default_after_action =
    wants_of a.action a.include_screenshot default_after_action

unfoldable pub hint : ComputerError → Option Text
hint unsupported = some (codes "Desktop control is currently available on macOS only (TUI mode).")
hint (capture _) = some (
    codes
      "Grant Screen Recording to your terminal in System Settings → Privacy & Security → Screen Recording, then restart the terminal.")
hint (input _) = some (
    codes
      "Grant Accessibility to your terminal in System Settings → Privacy & Security → Accessibility, then restart the terminal.")
hint (invalid_args _) = none
hint (internal _) = none
