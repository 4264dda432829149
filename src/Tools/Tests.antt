-- ===== src/Tools/Tests.antt =====
-- The theorems about commands at concrete ones.
use arcc.Base.{ℕ, ◌≡◌, ◌↔◌, refl, false, List, [], ◌∷◌, some, list_Eq}
use arcc.Base.Text.{Text, codes}
use arcc.Safety.{Allowlist}
use arcc.Tools.{Process, exited, limit, execute_command_with_config, execute_command_acp}
use arcc.Tools.Clearance.{IsRefused, IsUncleared, execute_command-IsRefused}

abbrev as_text : List ℕ → Text
as_text bytes = bytes

-- A character of two bytes does not fit behind four.
limit_test : limit 5 (codes "abcdé") ≡ codes "abcd\n... (truncated)"
unfolding limit
limit_test = refl

abbrev echo : ℕ → Text → Process
echo secs cmd = exited cmd [] (some 0)

abbrev echo_in : Text → ℕ → Text → Process
echo_in cwd secs cmd = exited cmd [] (some 0)

abbrev careful : Allowlist
careful = record { require_confirm = codes "rm" ∷ []; session_approved = [] }

execute_command-IsRefused_example :
    (IsRefused (execute_command_with_config as_text echo (codes "rm x") careful false 30 5)
      ↔ IsUncleared false careful (codes "rm x"))
    × (IsRefused (execute_command_acp as_text echo_in (codes "rm x") [] careful false 30 5)
        ↔ IsUncleared false careful (codes "rm x"))
execute_command-IsRefused_example =
    execute_command-IsRefused as_text echo echo_in (codes "rm x") [] careful false 30 5
