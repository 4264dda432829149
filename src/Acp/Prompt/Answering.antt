-- ===== src/Acp/Prompt/Answering.antt =====
-- crates/arcc-acp/src/prompt.rs: what a turn adds to the conversation.
use arcc.Base.{
  ℕ, ◌+◌, ◌≡◌, ◌≢◌, refl, sym, ap, ◌∙◌, true, false, List, [], ◌∷◌, ◌++◌, some, list_Eq, arith,
  append-nil, append_assoc,
}
use arcc.Base.Text.{codes}
use arcc.Model.Json.{Value}
use arcc.Model.Types.{ChatMessage, ToolCall, tool_role, tool_result, new_message}
use arcc.Session.{push_message}
use arcc.Acp.{Woken, Gate, runs, refuses, aborts}
use arcc.Tools
use arcc.Acp.Talk.{ToolRun, ran, cancelled_run, Talk, Setting, push, update}
use arcc.Acp.Protocol.{tool_call_status}
use arcc.Acp.{gate, needs_confirm, response}
use arcc.Acp.Consent.{Consents, gate-Consents}
use arcc.Safety.{check}
use arcc.Acp.Prompt.{
  command_of, ask, reject, Called, answered, stopped, finish_run, by_gate, call_tool, call_tools,
}

-- A message that answers a call.
abbrev pub IsAnswer : ToolCall → ChatMessage → Type 0
IsAnswer tc m = (m.role ≡ tool_role) × (m.tool_call_id ≡ some tc.id)

-- Answers to the calls, in their order: to all of them, or to the first ones.
abbrev pub AnswersAll : List ToolCall → List ChatMessage → Type 0
AnswersAll [] [] = Unit
AnswersAll [] (m ∷ ms) = ⊥
AnswersAll (tc ∷ tcs) [] = ⊥
AnswersAll (tc ∷ tcs) (m ∷ ms) = IsAnswer tc m × AnswersAll tcs ms

abbrev pub AnswersFirst : List ToolCall → List ChatMessage → Type 0
AnswersFirst tcs [] = Unit
AnswersFirst [] (m ∷ ms) = ⊥
AnswersFirst (tc ∷ tcs) (m ∷ ms) = IsAnswer tc m × AnswersFirst tcs ms

abbrev pub messages : Talk → List ChatMessage
messages t = t.session.messages

push-messages :
    (m : ChatMessage) (tokens : ℕ) (t : Talk) → messages (push m tokens t) ≡ messages t ++ m ∷ []
unfolding push push_message
push-messages m tokens t = refl

module _ (g : Setting) where
  -- What one call adds: its answer, or nothing if the turn is stopped.
  abbrev AddsAnswer : ToolCall → Talk → Called → Type 0
  AddsAnswer tc t (answered t') =
      (m : ChatMessage) × IsAnswer tc m × (messages t' ≡ messages t ++ m ∷ [])
  AddsAnswer tc t (stopped t') = messages t' ≡ messages t

  ask-messages : (tc : ToolCall) (t : Talk) → messages (ask g tc t) ≡ messages t
  unfolding ask
  ask-messages tc t = ground arith

  by_gate-AddsAnswer :
      (gate : Gate) (tc : ToolCall) (run : ToolRun) (t : Talk)
      → AddsAnswer tc t (by_gate g gate tc run t)
  unfolding by_gate reject finish_run push push_message tool_result new_message
  by_gate-AddsAnswer refuses tc run t = (_, (refl, refl), refl)
  by_gate-AddsAnswer aborts tc run t = refl
  by_gate-AddsAnswer runs tc cancelled_run t = refl
  by_gate-AddsAnswer runs tc (ran (Tools.ok output)) t = (_, (refl, refl), refl)
  by_gate-AddsAnswer runs tc (ran (Tools.err e)) t = (_, (refl, refl), refl)

  moved :
      (tc : ToolCall) (t u : Talk) (c : Called)
      → messages u ≡ messages t
      → AddsAnswer tc u c
      → AddsAnswer tc t c
  moved tc t u (answered t') same (m, a, e) = (m, a, e ∙ ap (λ ms. ms ++ m ∷ []) same)
  moved tc t u (stopped t') same e = e ∙ same

  call_tool-AddsAnswer :
      (tc : ToolCall) (woken : Woken) (run : ToolRun) (t : Talk)
      → AddsAnswer tc t (call_tool g tc woken run t)
  unfolding call_tool
  call_tool-AddsAnswer tc woken run t =
      let command = command_of g tc in
      let pending =
        tool_call_status tc.id command (codes "execute") (codes "pending") (some command) in
      moved tc t (ask g tc (update g pending t)) _ (ask-messages tc (update g pending t)) (
        by_gate-AddsAnswer (gate g.skip_permissions g.allowlist command woken) tc run
          (ask g tc (update g pending t)))

  -- What the calls of a round add.
  abbrev pub AddsAnswers : List ToolCall → Talk → Called → Type 0
  AddsAnswers tcs t (answered t') =
      (ms : List ChatMessage) × AnswersAll tcs ms × (messages t' ≡ messages t ++ ms)
  AddsAnswers tcs t (stopped t') =
      (ms : List ChatMessage) × AnswersFirst tcs ms × (messages t' ≡ messages t ++ ms)

  -- The answers of the later calls behind that of the first.
  behind :
      (tc : ToolCall) (tcs : List ToolCall) (t u : Talk) (c : Called) (m : ChatMessage)
      → IsAnswer tc m
      → messages u ≡ messages t ++ m ∷ []
      → AddsAnswers tcs u c
      → AddsAnswers (tc ∷ tcs) t c
  behind tc tcs t u (answered t') m a e (ms, all, added) =
      (m ∷ ms, (a, all), added ∙ (ap (λ r. r ++ ms) e ∙ append_assoc (messages t) (m ∷ []) ms))
  behind tc tcs t u (stopped t') m a e (ms, all, added) =
      (m ∷ ms, (a, all), added ∙ (ap (λ r. r ++ ms) e ∙ append_assoc (messages t) (m ∷ []) ms))

  pub call_tools-AddsAnswers :
      (woken : ℕ → Woken) (run : ℕ → ToolCall → ToolRun) (k : ℕ) (tcs : List ToolCall) (t : Talk)
      → AddsAnswers tcs t (call_tools g woken run k tcs t)
  unfolding call_tools
  call_tools-AddsAnswers woken run k [] t = ([], tt, sym (append-nil (messages t)))
  call_tools-AddsAnswers woken run k (tc ∷ tcs) t =
      next (call_tool g tc (woken k) (run k tc) t) (call_tool-AddsAnswer tc (woken k) (run k tc) t)
        (λ t'. call_tools-AddsAnswers woken run (k + 1) tcs t')
    where
      next :
          (c : Called)
          → AddsAnswer tc t c
          → ((t' : Talk) → AddsAnswers tcs t' (call_tools g woken run (k + 1) tcs t'))
          → AddsAnswers (tc ∷ tcs) t (elim c [
            | stopped t' ↦ stopped t'
            | answered t' ↦ call_tools g woken run (k + 1) tcs t'
          ])
      next (stopped t') e later = ([], tt, e ∙ sym (append-nil (messages t)))
      next (answered t') (m, a, e) later = behind tc tcs t t' _ m a e (later t')

  by_gate_idle :
      (d : Gate) (tc : ToolCall) (run other : ToolRun) (t : Talk)
      → d ≢ runs
      → by_gate g d tc run t ≡ by_gate g d tc other t
  unfolding by_gate
  by_gate_idle refuses tc run other t idle = refl
  by_gate_idle aborts tc run other t idle = refl
  by_gate_idle runs tc run other t idle = absurd (idle refl)

  -- A command that the allowlist wants a confirmation for is not run unless the client consents to
  -- it: without consent, what a run of it would yield makes no difference to the turn.
  pub call_tool-unconsented :
      (tc : ToolCall) (woken : Woken) (run other : ToolRun) (t : Talk)
      → g.skip_permissions ≡ false
      → needs_confirm (check g.allowlist (command_of g tc)) ≡ true
      → ((v : Value) → woken ≡ response v → Consents v → ⊥)
      → call_tool g tc woken run t ≡ call_tool g tc woken other t
  unfolding call_tool
  call_tool-unconsented tc woken run other t careful risky no_consent =
      let command = command_of g tc in
      let pending =
        tool_call_status tc.id command (codes "execute") (codes "pending") (some command) in
      by_gate_idle (gate g.skip_permissions g.allowlist command woken) tc run other
        (ask g tc (update g pending t))
        (λ e.
          let (v, same, consent) =
            (gate-Consents g.allowlist command woken risky).0 (rw careful at e) in
          no_consent v same consent)
