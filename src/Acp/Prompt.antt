-- ===== src/Acp/Prompt.antt =====
-- crates/arcc-acp/src/prompt.rs, `run_prompt`: one turn. What the turn waits for is given as functions of
-- the round and of the place of a tool call: the stream, the client's answer, and the run of a command, each
-- of which a cancellation may cut short. The allowlist and the configuration do not change in a turn.
pub mod Answering
pub mod Dialogue
pub mod Rounds
mod Tests
use arcc.Base.{
  ℕ, zero, suc, ◌+◌, Bool, true, false, not, List, [], ◌∷◌, ◌++◌, Option, none, some, ◌==◌, list_Eq,
  if◌then◌else◌, length, keep_if, nat_eq, nat_Eq,
}
use arcc.Base.Text.{Text, codes, is_empty}
use arcc.Model.Json.{
  Value, null, string, number, bool, get_value, and_str, obj, arr, str, ◌:=◌, unwrap_or,
}
use arcc.Model.Types.{
  ChatMessage, ChatRequest, StreamChunk, content, reasoning, tool_call_start, tool_call_end, finish,
  ToolCall, Usage, assistant_role, system_role, user, tool_result,
}
use arcc.Model.Provider.{ModelError, http, api, rate_limited, stream, serde, Result, ok, err}
use arcc.Session.{Statement, Session, push_message}
use arcc.Session.Request.{prepare_for_request}
use arcc.Safety.{Allowlist, check}
use arcc.Tools
use arcc.Tools.{
  CommandOutput, ToolError, requires_confirmation, spawn, timeout, ToolResult, to_content,
}
use arcc.Tools.Definitions.{command_tool_definition}
use arcc.Acp.{PermRegistry, Woken, Gate, runs, refuses, aborts, register, needs_confirm, gate}
use arcc.Acp.Protocol.{
  session_update, agent_message_chunk, agent_thought_chunk, tool_call_status, tool_call_update,
  usage_update,
}
use arcc.Acp.Talk.{
  PromptOutcome, Item, item, cancel_now, Start, started, not_started, cancelled_start, ToolRun, ran,
  cancelled_run, Talk, Setting, display_error, display_tool_error, push, say, update,
  build_messages, request_for, Heard, nothing_heard, Read, complete, broken, cancelled, read_stream,
}

pub data Called : Type 0 where
  answered stopped : Talk → Called

-- How a round ends: the turn is over, or another round follows.
pub data Ended : Type 0 where
  over : Text → Option Value → Talk → Ended
  again : Option Value → Talk → Ended

module _ (g : Setting) where
  unfoldable pub usage_value : Usage → Value
  usage_value u = obj (
      ("inputTokens" := number (g.digits u.prompt_tokens))
      ∷ ("outputTokens" := number (g.digits u.completion_tokens))
      ∷ [])

  -- The assistant's message: content, calls and reasoning.
  unfoldable pub assistant_message : Heard → ChatMessage
  assistant_message h = record {
    role = assistant_role;
    content = h.text;
    images = [];
    tool_calls = elim h.calls [ [] ↦ none | c ∷ cs ↦ some (c ∷ cs) ];
    tool_call_id = none;
    reasoning_content = if is_empty h.thought then none else some h.thought;
  }

  unfoldable pub keep_reply : Heard → Talk → Talk
  unfolding push assistant_message
  keep_reply h t = push (assistant_message h) (g.count_tokens h.text + g.count_tokens h.thought) t

  -- `arguments["command"]`, empty if it is not a text.
  unfoldable pub command_of : ToolCall → Text
  unfolding get_value and_str unwrap_or
  command_of tc = unwrap_or (and_str (get_value (codes "command") tc.arguments)) []

  abbrev answer_option : Text → Text → Value
  answer_option id name =
      obj (("optionId" := string id) ∷ ("name" := string name) ∷ ("kind" := string id) ∷ [])

  unfoldable pub permission_request : Text → ToolCall → Text → Value
  permission_request request_id tc command = obj (
      ("jsonrpc" := str "2.0")
      ∷ ("id" := string request_id)
      ∷ ("method" := str "session/request_permission")
      ∷ ("params"
          := obj (
              ("sessionId" := string g.session_id)
              ∷ ("toolCall"
                  := obj (
                      ("toolCallId" := string tc.id)
                      ∷ ("title" := string command)
                      ∷ ("kind" := str "shell")
                      ∷ ("status" := str "pending")
                      ∷ ("rawInput" := string command)
                      ∷ []))
              ∷ ("options"
                  := arr (
                      answer_option (codes "allow_once") (codes "Allow once")
                      ∷ answer_option (codes "reject_once") (codes "Reject")
                      ∷ []))
              ∷ []))
      ∷ [])

  -- The question, if one is asked: its id is registered before it is sent.
  unfoldable pub ask : ToolCall → Talk → Talk
  unfolding needs_confirm check register permission_request command_of
  ask tc t =
      let request_id = g.new_id (length t.out) in
      if not g.skip_permissions
      then (if needs_confirm (check g.allowlist (command_of tc))
          then say (permission_request request_id tc (command_of tc))
              (record t { perms = register request_id (length t.out) t.perms })
          else t)
      else t

  abbrev failure : Text → Option Value
  failure e = some (obj (("error" := string e) ∷ []))

  unfoldable pub reject : ToolCall → Talk → Talk
  unfolding push tool_call_update tool_result
  reject tc t =
      update g (tool_call_update tc.id (codes "failed") (failure (codes "rejected by user")))
        (push (tool_result tc.id (codes "execution rejected by user")) 0 t)

  unfoldable pub finish_run : ToolCall → ToolRun → Talk → Called
  unfolding push tool_call_update tool_result to_content display_tool_error
  finish_run tc cancelled_run t = stopped t
  finish_run tc (ran (Tools.ok output)) t =
      let content = to_content g.debug_code output in
      answered (
        update g
          (tool_call_update tc.id (codes "completed") (
            some (
              obj (
                ("stdout" := string output.stdout)
                ∷ ("stderr" := string output.stderr)
                ∷ ("exit_code" := g.code_value output.exit_code)
                ∷ ("truncated" := bool output.truncated)
                ∷ []))))
          (push (tool_result tc.id content) (g.count_tokens content) t))
  finish_run tc (ran (Tools.err e)) t = answered (
      update g (tool_call_update tc.id (codes "failed") (failure (display_tool_error g.digits e)))
        (push (tool_result tc.id (codes "error: " ++ display_tool_error g.digits e)) 0 t))

  unfoldable pub by_gate : Gate → ToolCall → ToolRun → Talk → Called
  unfolding reject finish_run tool_call_update
  by_gate refuses tc run t = answered (reject tc t)
  by_gate aborts tc run t = stopped t
  by_gate runs tc run t =
      finish_run tc run (update g (tool_call_update tc.id (codes "in_progress") none) t)

  -- One tool call; `woken` is what ends the wait for a permission, `run` what running it yields.
  unfoldable pub call_tool : ToolCall → Woken → ToolRun → Talk → Called
  unfolding tool_call_status ask gate by_gate
  call_tool tc woken run t =
      let command = command_of tc in
      let pending =
        tool_call_status tc.id command (codes "execute") (codes "pending") (some command) in
      by_gate (gate g.skip_permissions g.allowlist command woken) tc run
        (ask tc (update g pending t))

  -- The tool calls of a round, one by one; `k` is the place of the first.
  unfoldable pub call_tools :
      (ℕ → Woken) → (ℕ → ToolCall → ToolRun) → ℕ → List ToolCall → Talk → Called
  unfolding call_tool
  call_tools woken run k [] t = answered t
  call_tools woken run k (tc ∷ tcs) t = elim (call_tool tc (woken k) (run k tc) t) [
    | stopped t' ↦ stopped t'
    | answered t' ↦ call_tools woken run (k + 1) tcs t'
  ]

  abbrev or_last : Option Usage → Option Value → Option Value
  or_last none usage = usage
  or_last (some u) usage = some (usage_value u)

  unfoldable pub after_reply :
      (ℕ → Woken) → (ℕ → ToolCall → ToolRun) → Heard → Option Value → Talk → Ended
  unfolding keep_reply call_tools usage_value
  after_reply woken run h old t =
      let usage = or_last h.last_usage old in
      let kept = keep_reply h t in
      elim h.calls [
        | [] ↦ over (codes "end_turn") usage kept
        | c ∷ cs ↦ elim (call_tools woken run 0 (c ∷ cs) kept) [
          | stopped t' ↦ over (codes "cancelled") usage t'
          | answered t' ↦ again usage t'
        ]
      ]

  unfoldable pub after_start :
      (ℕ → Woken) → (ℕ → ToolCall → ToolRun) → Start → Option Value → Talk → Ended
  unfolding read_stream after_reply display_error agent_message_chunk
  after_start woken run cancelled_start usage t = over (codes "cancelled") usage t
  after_start woken run (not_started e) usage t =
      over (codes "end_turn") usage
        (update g (agent_message_chunk none (codes "❌ " ++ display_error g.digits e)) t)
  after_start woken run (started items) usage t = elim (read_stream g items nothing_heard t) [
    | cancelled t' ↦ over (codes "cancelled") usage t'
    | broken t' ↦ over (codes "end_turn") usage t'
    | complete h t' ↦ after_reply woken run h usage t'
  ]

  module _ (chat_stream : ℕ → ChatRequest → Start) (woken : ℕ → ℕ → Woken)
      (run : ℕ → ℕ → ToolCall → ToolRun) where
    -- The loop from a round on, with one unit of fuel for each round; the first has tools.
    unfoldable pub rounds : ℕ → ℕ → Option Value → Talk → Option (PromptOutcome × Talk)
    unfolding request_for after_start
    rounds zero n usage t = none
    rounds (suc fuel) n usage t =
        let start = chat_stream n (request_for g (nat_eq n 0) t.session) in
        elim (after_start (woken n) (run n) start usage t) [
          | over stop_reason final t' ↦
              some (record { stop_reason = stop_reason; usage = final }, t')
          | again usage' t' ↦ rounds fuel (n + 1) usage' t'
        ]

    -- The user's message is kept before all else.
    unfoldable pub run_prompt : ℕ → Text → Talk → Option (PromptOutcome × Talk)
    unfolding rounds push
    run_prompt fuel user_text t =
        rounds fuel 0 none (push (user user_text) (g.count_tokens user_text) t)
