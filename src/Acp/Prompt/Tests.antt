-- ===== src/Acp/Prompt/Tests.antt =====
-- The theorems about a turn at a concrete one.
use arcc.Base.{ℕ, ◌≡◌, refl, false, List, [], ◌∷◌, ◌++◌, none, some, list_Eq, list_eq}
use arcc.Base.Text.{codes}
use arcc.Model.Json.{null, obj, str, ◌:=◌}
use arcc.Model.Types.{ChatMessage, ChatRequest, tool_call_start, content, ToolCall, system, user}
use arcc.Model.Provider.{ok}
use arcc.Acp.{Woken, response, new_registry}
use arcc.Acp.Talk.{PromptOutcome, item, Start, started, ToolRun, cancelled_run, Talk, Setting}
use arcc.Acp.Prompt.{run_prompt}
use arcc.Acp.Prompt.Answering.{messages}
use arcc.Acp.Prompt.Dialogue.{Dialogue, is_whole}
use arcc.Acp.Prompt.Rounds.{run_prompt-Dialogue, run_prompt_ends}

abbrev setting : Setting
setting = record {
  session_id = codes "s";
  model_name = codes "flash";
  count_tokens = λ _. 1;
  system_msg = system (codes "be brief");
  temperature = 70;
  max_tokens = 100;
  skip_permissions = false;
  allowlist = record { require_confirm = codes "rm" ∷ []; session_approved = [] };
  digits = λ _. [];
  debug_code = λ _. [];
  code_value = λ _. null;
  new_id = λ _. codes "q";
}

abbrev talk : Talk
unfolding new_registry
talk = record {
  session = record {
    id = codes "s";
    name = codes "acp";
    mode = codes "acp";
    messages = [];
    token_count = 0;
    context_max_tokens = 100;
    summary = none;
    db = none;
  };
  statements = [];
  out = [];
  perms = new_registry;
}

abbrev remove_call : ToolCall
remove_call = record {
  id = codes "t";
  name = codes "execute_command";
  arguments = obj (("command" := str "rm x") ∷ []);
}

-- A call in the first round where tools are offered, and text without them.
abbrev model : ℕ → ChatRequest → Start
model n req = elim req.tools [
  | none ↦ started (item (ok (content (codes "done"))) ∷ [])
  | some _ ↦ started (item (ok (tool_call_start remove_call)) ∷ [])
]

abbrev refusing : ℕ → ℕ → Woken
refusing _ _ = response null

abbrev no_run : ℕ → ℕ → ToolCall → ToolRun
no_run _ _ _ = cancelled_run

run_prompt_ends_example :
    (o : PromptOutcome) × (t' : Talk) × (run_prompt setting model refusing no_run 2
        (codes "hi")
        talk
      ≡ some (o, t'))
run_prompt_ends_example =
    run_prompt_ends setting model refusing no_run 0 (codes "hi") talk (λ n req e. rw e tt)

abbrev final_talk : Talk
unfolding talk
final_talk = elim (run_prompt setting model refusing no_run 2 (codes "hi") talk) [
  | none ↦ talk
  | some r ↦ r.1
]

run_prompt-Dialogue_example :
    (ms : List ChatMessage) × Dialogue (is_whole (codes "end_turn")) ms
    × (messages final_talk ≡ messages talk ++ user (codes "hi") ∷ ms)
unfolding final_talk talk run_prompt list_eq
run_prompt-Dialogue_example =
    run_prompt-Dialogue setting model refusing no_run 2 (codes "hi") talk
      (record { stop_reason = codes "end_turn"; usage = none }) final_talk refl
