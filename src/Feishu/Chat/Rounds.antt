-- ===== src/Feishu/Chat/Rounds.antt =====
-- crates/arcc-server/src/feishu/webhook.rs: the loop of an exchange ends.
use arcc.Base.{
  ℕ, zero, suc, ◌+◌, ◌≤◌, ◌<◌, ◌≡◌, refl, Bool, true, false, not, List, [], ◌∷◌, arith, leb,
  Bool-cases, inl, inr,
}
use arcc.Model.Json.{unwrap_or}
use arcc.Model.Types.{ChatMessage, ChatRequest, ChatResponse, ToolCall}
use arcc.Model.Provider.{Result, ok, err}
use arcc.Feishu.Handlers.{Server, Chat, Handled, done, panicked, call_tool}
use arcc.Feishu.Chat.{
  Exchange, save, answer, Called, answered, interrupted, call_tools, Looped, unfinished,
  after_calls, by_calls, after_request, rounds,
}

abbrev pub Ends : Looped → Type 0
Ends (unfinished x) = ⊥
Ends _ = Unit

-- The fuel is enough for the rounds that are left.
abbrev pub IsEnough : ℕ → Bool → ℕ → Type 0
IsEnough fuel true tool_rounds = (tool_rounds < 10) × (11 ≤ fuel + tool_rounds)
IsEnough fuel false tool_rounds = 1 ≤ fuel

later_IsEnough :
    (fuel tool_rounds : ℕ)
    → IsEnough (suc fuel) true tool_rounds
    → IsEnough fuel (not (leb 10 (suc tool_rounds))) (suc tool_rounds)
later_IsEnough fuel tool_rounds (below, enough) = elim (Bool-cases (leb 10 (suc tool_rounds))) [
  | inl last ↦ rw last (ground arith)
  | inr more ↦ rw more (ground arith, ground arith)
]

abbrev pub requests_of : Called → List ChatRequest
requests_of (answered x) = x.requests
requests_of (interrupted x) = x.requests

module _ (g : Server) where
  pub call_tools-requests :
      (tcs : List ToolCall) (chat : Chat) (x : Exchange)
      → requests_of (call_tools g tcs chat x) ≡ x.requests
  unfolding call_tools answer save
  call_tools-requests [] chat x = refl
  call_tools-requests (tc ∷ tcs) chat x =
      elim (call_tool g tc chat x.desk)
        as (λ (h : Handled).
          requests_of (elim h [
            | panicked d ↦ interrupted (record x { desk = d })
            | done tool_ok content d ↦ call_tools g tcs chat (answer tc tool_ok content x d)
          ])
          ≡ x.requests) [
            | panicked d ↦ refl
            | done tool_ok content d ↦ call_tools-requests tcs chat (answer tc tool_ok content x d)
          ]

module _ (g : Server) (next : Exchange → Looped) (ends : (x : Exchange) → Ends (next x)) where
  after_calls-Ends : (c : Called) → Ends (after_calls g next c)
  unfolding after_calls
  after_calls-Ends (answered x) = ends x
  after_calls-Ends (interrupted x) = tt

  by_calls-Ends :
      (m : ChatMessage) (calls : List ToolCall) (chat : Chat) (kept : Exchange)
      → Ends (by_calls g next m calls chat kept)
  unfolding by_calls
  by_calls-Ends m [] chat kept = tt
  by_calls-Ends m (tc ∷ tcs) chat kept = after_calls-Ends _

  after_request-Ends :
      (reply : Result ChatResponse) (chat : Chat) (x : Exchange)
      → Ends (after_request g next true reply chat x)
  unfolding after_request
  after_request-Ends (err e) chat x = tt
  after_request-Ends (ok response) chat x = by_calls-Ends response.message _ chat _

-- Phase 2 makes one round.
phase_2-Ends :
    (g : Server) (next : Exchange → Looped) (reply : Result ChatResponse) (chat : Chat)
    (x : Exchange)
    → Ends (after_request g next false reply chat x)
unfolding after_request by_calls unwrap_or
phase_2-Ends g next (err e) chat x = tt
phase_2-Ends g next (ok response) chat x = tt

pub rounds-Ends :
    (g : Server) (temperature max_tokens fuel : ℕ) (phase_1 : Bool) (tool_rounds : ℕ) (chat : Chat)
    (x : Exchange)
    → IsEnough fuel phase_1 tool_rounds
    → Ends (rounds g temperature max_tokens fuel phase_1 tool_rounds chat x)
unfolding rounds
rounds-Ends g t k zero true n chat x h = absurd (omega arith)
rounds-Ends g t k zero false n chat x h = absurd (omega arith)
rounds-Ends g t k (suc fuel) true n chat x h =
    after_request-Ends g _ (λ y. rounds-Ends g t k fuel _ (suc n) chat y (later_IsEnough fuel n h))
      _ chat _
rounds-Ends g t k (suc fuel) false n chat x h = phase_2-Ends g _ _ chat _
