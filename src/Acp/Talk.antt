-- ===== src/Acp/Talk.antt =====
-- crates/arcc-acp/src/prompt.rs: what a turn reads and writes: its requests, its stream, its messages.
use arcc.Base.{
  ℕ, ◌+◌, Bool, true, not, List, [], ◌∷◌, ◌++◌, Option, none, some, ◌==◌, list_Eq, if◌then◌else◌,
  keep_if, nat_Eq,
}
use arcc.Base.Text.{Text, codes}
use arcc.Model.Json.{Value, str}
use arcc.Model.Types.{
  ChatMessage, ChatRequest, StreamChunk, content, reasoning, tool_call_start, tool_call_end, finish,
  ToolCall, Usage, system_role,
}
use arcc.Model.Provider.{ModelError, http, api, rate_limited, stream, serde, Result, ok, err}
use arcc.Session.{Statement, Session, push_message}
use arcc.Session.Request.{prepare_for_request}
use arcc.Safety.{Allowlist}
use arcc.Tools.{ToolError, requires_confirmation, spawn, timeout, ToolResult}
use arcc.Tools.Definitions.{command_tool_definition}
use arcc.Acp.{PermRegistry}
use arcc.Acp.Protocol.{session_update, agent_message_chunk, agent_thought_chunk, usage_update}

pub record PromptOutcome : Type 0 where
  pub stop_reason : Text
  pub usage : Option Value

-- What the loop reads from a stream, if nothing stops it before.
pub data Item : Type 0 where
  item : Result StreamChunk → Item
  cancel_now : Item

pub data Start : Type 0 where
  started : List Item → Start
  not_started : ModelError → Start
  cancelled_start : Start

pub data ToolRun : Type 0 where
  ran : ToolResult → ToolRun
  cancelled_run : ToolRun

-- What the turn writes: the conversation and its statements, the messages to the client, and the
-- questions that wait for an answer.
pub record Talk : Type 0 where
  pub session : Session
  pub statements : List Statement
  pub out : List Value
  pub perms : PermRegistry

-- What is fixed for a turn.
pub record Setting : Type 0 where
  pub session_id : Text
  pub model_name : Text
  pub count_tokens : Text → ℕ
  pub system_msg : ChatMessage
  pub temperature : ℕ
  pub max_tokens : ℕ
  pub skip_permissions : Bool
  pub allowlist : Allowlist
  pub digits : ℕ → Text
  pub debug_code : Option ℕ → Text
  pub code_value : Option ℕ → Value
  pub new_id : ℕ → Text

unfoldable pub display_error : (ℕ → Text) → ModelError → Text
display_error digits (http e) = codes "HTTP request failed: " ++ e
display_error digits (api code message) =
    codes "API error (" ++ (digits code ++ (codes "): " ++ message))
display_error digits (rate_limited secs) =
    codes "rate limited — retry after " ++ (digits secs ++ codes "s")
display_error digits (stream e) = codes "stream error: " ++ e
display_error digits (serde e) = codes "serialization error: " ++ e

unfoldable pub display_tool_error : (ℕ → Text) → ToolError → Text
display_tool_error digits (requires_confirmation e) =
    codes "command requires human confirmation: " ++ e
display_tool_error digits (spawn e) = codes "failed to spawn command: " ++ e
display_tool_error digits (timeout secs) =
    codes "command timed out after " ++ (digits secs ++ codes "s")

unfoldable pub push : ChatMessage → ℕ → Talk → Talk
unfolding push_message
push m tokens t =
    let pushed = push_message t.session m tokens in
    record t { session = pushed.0; statements = t.statements ++ pushed.1 }

abbrev pub say : Value → Talk → Talk
say v t = record t { out = t.out ++ (v ∷ []) }

-- What has been read from a stream.
pub record Heard : Type 0 where
  pub text : Text
  pub thought : Text
  pub calls : List ToolCall
  pub last_usage : Option Usage

abbrev pub nothing_heard : Heard
nothing_heard = record { text = []; thought = []; calls = []; last_usage = none }

pub data Read : Type 0 where
  complete : Heard → Talk → Read
  broken cancelled : Talk → Read

module _ (g : Setting) where
  abbrev pub update : Value → Talk → Talk
  update v t = say (session_update g.session_id v) t

  unfoldable pub build_messages : Session → List ChatMessage
  unfolding prepare_for_request
  build_messages s =
      g.system_msg ∷ keep_if (λ m. not (m.role == system_role)) (prepare_for_request s)

  unfoldable pub request_for : Bool → Session → ChatRequest
  unfolding build_messages command_tool_definition
  request_for has_tools s = record {
    model = g.model_name;
    messages = build_messages s;
    tools = if has_tools then some (command_tool_definition ∷ []) else none;
    tool_choice = if has_tools then some (str "auto") else none;
    temperature = some g.temperature;
    max_tokens = some g.max_tokens;
    stream = true;
    thinking_mode = none;
    reasoning_effort = none;
  }

  abbrev used_tokens : Heard → Talk → ℕ
  used_tokens h t = t.session.token_count + g.count_tokens h.text + g.count_tokens h.thought

  unfoldable pub read_stream : List Item → Heard → Talk → Read
  unfolding display_error agent_message_chunk agent_thought_chunk usage_update
  read_stream [] h t = complete h t
  read_stream (cancel_now ∷ items) h t = cancelled t
  read_stream (item (err e) ∷ items) h t =
      broken
        (update (agent_message_chunk none (codes "❌ stream error: " ++ display_error g.digits e)) t)
  read_stream (item (ok (content s)) ∷ items) h t =
      read_stream items (record h { text = h.text ++ s }) (update (agent_message_chunk none s) t)
  read_stream (item (ok (reasoning s)) ∷ items) h t =
      read_stream items (record h { thought = h.thought ++ s })
        (update (agent_thought_chunk none s) t)
  read_stream (item (ok (tool_call_start tc)) ∷ items) h t =
      read_stream items (record h { calls = h.calls ++ (tc ∷ []) }) t
  read_stream (item (ok (tool_call_end _ _)) ∷ items) h t = read_stream items h t
  read_stream (item (ok (finish u)) ∷ items) h t =
      read_stream items (record h { last_usage = some u })
        (update (usage_update (g.digits (used_tokens h t)) (g.digits t.session.context_max_tokens))
          t)
