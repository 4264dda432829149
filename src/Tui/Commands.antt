-- ===== src/Tui/Commands.antt =====
-- crates/arcc-tui/src/commands.rs: the table of slash commands.
use Prim.Native.String.{String}
use arcc.Base.{List, [], ◌∷◌, map, Option, none, some, keep_if, ◌==◌, list_Eq, if◌then◌else◌}
use arcc.Base.Text.{Text, codes, starts_with}

pub data Category : Type 0 where
  navigation view tools system : Category

unfoldable pub label : Category → Text
label navigation = codes "navigation"
label view = codes "view"
label tools = codes "tools"
label system = codes "system"

pub record Cmd : Type 0 where
  pub name : Text
  pub desc : Text
  pub usage : Text
  pub cat : Category

abbrev cmd : String → String → String → Category → Cmd
cmd name desc usage cat = record {
  name = codes name;
  desc = codes desc;
  usage = codes usage;
  cat = cat;
}

unfoldable pub commands : List Cmd
commands =
    cmd "plan" "Plan a complex multi-step task" "/plan <task description>" tools
    ∷ cmd "clear" "Clear chat history" "/clear" view
    ∷ cmd "model" "Show active model providers" "/model" view
    ∷ cmd "skills" "List registered MCP tools" "/skills" tools
    ∷ cmd "init" "Generate AGENTS.md with project instructions in repo root" "/init" system
    ∷ cmd "dashboard" "Interactive dashboard with sessions, tokens, audit, and system info"
        "/dashboard" system
    ∷ cmd "exec" "Execute a shell command directly" "/exec <command>" tools
    ∷ cmd "computer" "Toggle desktop control (screenshot + mouse/keyboard, macOS)"
        "/computer [on/off/status]" tools
    ∷ cmd "stats" "Show session statistics" "/stats" system
    ∷ cmd "thinking" "Toggle DeepSeek thinking mode on/off" "/thinking" system
    ∷ cmd "mouse" "Toggle terminal mouse capture (off restores native text selection)"
        "/mouse [on/off/status]" system
    ∷ cmd "exit" "Quit ARCC" "/exit" system
    ∷ cmd "help" "Show help for commands" "/help [command]" navigation
    ∷ []

unfoldable pub complete : Text → List Text
unfolding commands starts_with
complete prefix = map (λ c. c.name) (keep_if (λ c. starts_with prefix c.name) commands)

unfoldable pub find_in : Text → List Cmd → Option Cmd
find_in name [] = none
find_in name (c ∷ cs) = if c.name == name then some c else find_in name cs

unfoldable pub find : Text → Option Cmd
unfolding find_in commands
find name = find_in name commands
