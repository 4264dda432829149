-- ===== src/Mcp/Tests.antt =====
-- The theorems about the tools at a concrete table.
use arcc.Base.{◌≡◌, refl, false, List, [], ◌∷◌, Option, none, list_Eq, list_eq}
use arcc.Base.Text.{Text, codes}
use arcc.Base.Maps.{Map, get}
use arcc.Model.Json.{null}
use arcc.Mcp.{
  McpToolEntry, stdio, Child, Spawned, child, waits_for_ever, needs_restart, health_check,
}
use arcc.Mcp.Lifecycle.{unlocked, health_check_waits}

abbrev search_tool : Option Child → McpToolEntry
search_tool process = record {
  tool = record { name = codes "search"; description = []; input_schema = null };
  command = codes "mcp-search";
  args = [];
  transport = stdio;
  child = process;
}

abbrev table : Option Child → Map Text McpToolEntry
table process = (codes "search", search_tool process) ∷ []

-- A system that starts every process.
abbrev starts : Text → List Text → Spawned
starts _ _ = child (record { exited = false })

health_check_waits_example :
    health_check starts (codes "search") (unlocked (table none)) ≡ waits_for_ever
unfolding get list_eq needs_restart
health_check_waits_example =
    health_check_waits starts (codes "search") (table none) (search_tool none) refl refl
