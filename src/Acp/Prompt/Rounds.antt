-- ===== src/Acp/Prompt/Rounds.antt =====
-- crates/arcc-acp/src/prompt.rs: the shape of a whole turn, and when two rounds are enough.
use arcc.Base.{
  ℕ, zero, suc, ◌+◌, ◌≡◌, refl, ap, subst, ◌∙◌, true, false, List, [], ◌∷◌, ◌++◌, Option, none,
  some, append_assoc, list_Eq, some_same, none_is_not_some, nat_eq,
}
use arcc.Base.Text.{Text, codes}
use arcc.Model.Json.{Value}
use arcc.Model.Types.{
  ChatMessage, ChatRequest, content, reasoning, tool_call_start, tool_call_end, finish, ToolCall,
  user,
}
use arcc.Model.Provider.{ok, err}
use arcc.Session.{push_message}
use arcc.Acp.{Woken}
use arcc.Acp.Talk.{
  PromptOutcome, Item, item, cancel_now, Start, started, not_started, cancelled_start, ToolRun,
  Talk, Setting, push, Heard, nothing_heard, Read, complete, broken, cancelled, read_stream,
  request_for,
}
use arcc.Acp.Prompt.{Ended, over, again, after_reply, after_start, rounds, run_prompt}
use arcc.Acp.Prompt.Answering.{messages}
use arcc.Acp.Prompt.Dialogue.{Dialogue, round, is_whole, Adds, AddsRound, after_start-AddsRound}

-- A stream in which no tool call is announced.
abbrev pub HasNoCalls : List Item → Type 0
HasNoCalls [] = Unit
HasNoCalls (cancel_now ∷ items) = HasNoCalls items
HasNoCalls (item (err e) ∷ items) = HasNoCalls items
HasNoCalls (item (ok (content s)) ∷ items) = HasNoCalls items
HasNoCalls (item (ok (reasoning s)) ∷ items) = HasNoCalls items
HasNoCalls (item (ok (tool_call_start tc)) ∷ items) = ⊥
HasNoCalls (item (ok (tool_call_end i s)) ∷ items) = HasNoCalls items
HasNoCalls (item (ok (finish u)) ∷ items) = HasNoCalls items

abbrev pub StartsNoCalls : Start → Type 0
StartsNoCalls (started items) = HasNoCalls items
StartsNoCalls (not_started e) = Unit
StartsNoCalls cancelled_start = Unit

-- A round after which no other one follows.
abbrev IsLast : Ended → Type 0
IsLast (over stop_reason usage t) = Unit
IsLast (again usage t) = ⊥

-- What was read announces no call.
abbrev ReadsNoCalls : Read → Type 0
ReadsNoCalls (complete h t) = h.calls ≡ []
ReadsNoCalls (broken t) = Unit
ReadsNoCalls (cancelled t) = Unit

module _ (g : Setting) where
  read_stream-ReadsNoCalls :
      (items : List Item) (h : Heard) (t : Talk)
      → HasNoCalls items
      → h.calls ≡ []
      → ReadsNoCalls (read_stream g items h t)
  unfolding read_stream
  read_stream-ReadsNoCalls [] h t quiet e = e
  read_stream-ReadsNoCalls (cancel_now ∷ items) h t quiet e = tt
  read_stream-ReadsNoCalls (item (err x) ∷ items) h t quiet e = tt
  read_stream-ReadsNoCalls (item (ok (content s)) ∷ items) h t quiet e =
      read_stream-ReadsNoCalls items _ _ quiet e
  read_stream-ReadsNoCalls (item (ok (reasoning s)) ∷ items) h t quiet e =
      read_stream-ReadsNoCalls items _ _ quiet e
  read_stream-ReadsNoCalls (item (ok (tool_call_start tc)) ∷ items) h t quiet e = absurd quiet
  read_stream-ReadsNoCalls (item (ok (tool_call_end i s)) ∷ items) h t quiet e =
      read_stream-ReadsNoCalls items _ _ quiet e
  read_stream-ReadsNoCalls (item (ok (finish u)) ∷ items) h t quiet e =
      read_stream-ReadsNoCalls items _ _ quiet e

  after_read-IsLast :
      (woken : ℕ → Woken) (run : ℕ → ToolCall → ToolRun) (usage : Option Value) (r : Read)
      → ReadsNoCalls r
      → IsLast (elim r [
        | cancelled t' ↦ over (codes "cancelled") usage t'
        | broken t' ↦ over (codes "end_turn") usage t'
        | complete h t' ↦ after_reply g woken run h usage t'
      ])
  unfolding after_reply
  after_read-IsLast woken run usage (cancelled t') quiet = tt
  after_read-IsLast woken run usage (broken t') quiet = tt
  after_read-IsLast woken run usage (complete h t') quiet = rw (quiet, after_reply) tt

  after_start-IsLast :
      (woken : ℕ → Woken) (run : ℕ → ToolCall → ToolRun) (start : Start) (usage : Option Value)
      (t : Talk)
      → StartsNoCalls start
      → IsLast (after_start g woken run start usage t)
  unfolding after_start
  after_start-IsLast woken run cancelled_start usage t quiet = tt
  after_start-IsLast woken run (not_started e) usage t quiet = tt
  after_start-IsLast woken run (started items) usage t quiet =
      after_read-IsLast woken run usage (read_stream g items nothing_heard t)
        (read_stream-ReadsNoCalls items nothing_heard t quiet refl)

  module _ (chat_stream : ℕ → ChatRequest → Start) (woken : ℕ → ℕ → Woken)
      (run : ℕ → ℕ → ToolCall → ToolRun) where
    -- What the loop makes of a round.
    abbrev go_on : ℕ → ℕ → Ended → Option (PromptOutcome × Talk)
    go_on fuel n r = elim r [
      | over stop_reason usage t ↦ some (record { stop_reason = stop_reason; usage = usage }, t)
      | again usage t ↦ rounds g chat_stream woken run fuel (n + 1) usage t
    ]

    -- A round and what the later rounds add.
    round_and_rest :
        (fuel n : ℕ) (t : Talk) (r : Ended) (o : PromptOutcome) (t' : Talk)
        → AddsRound t r
        → go_on fuel n r ≡ some (o, t')
        → ((usage : Option Value) (u : Talk)
            → rounds g chat_stream woken run fuel (n + 1) usage u ≡ some (o, t')
            → Adds (is_whole o.stop_reason) u t')
        → Adds (is_whole o.stop_reason) t t'
    round_and_rest fuel n t (over stop_reason usage u) o t' (ms, d, e) h later =
        let same = some_same h in
        subst (λ (p : PromptOutcome × Talk). Adds (is_whole p.0.stop_reason) t p.1) same (ms, d, e)
    round_and_rest fuel n t (again usage u) o t' (m, calls, answers, role, has_calls, all, e) h
          later =
        let (ms, d, added) = later usage u h in
        (
          m ∷ (answers ++ ms),
          round m calls answers ms _ role has_calls all d refl,
          added ∙ (ap (λ l. l ++ ms) e ∙ append_assoc (messages t) (m ∷ answers) ms),
        )

    rounds-Adds :
        (fuel n : ℕ) (usage : Option Value) (t : Talk) (o : PromptOutcome) (t' : Talk)
        → rounds g chat_stream woken run fuel n usage t ≡ some (o, t')
        → Adds (is_whole o.stop_reason) t t'
    unfolding rounds
    rounds-Adds zero n usage t o t' h = absurd (none_is_not_some h)
    rounds-Adds (suc fuel) n usage t o t' h =
        let start = chat_stream n (request_for g (nat_eq n 0) t.session) in
        round_and_rest fuel n t (after_start g (woken n) (run n) start usage t) o t'
          (after_start-AddsRound g (woken n) (run n) start usage t) h
          (λ usage' u k. rounds-Adds fuel (n + 1) usage' u o t' k)

    -- However a turn ends, it has added the user's message and a dialogue behind it, in which every
    -- tool call of an assistant message has its answer, in the order of the calls; only in a
    -- turn that did not end by itself the last calls may lack answers.
    pub run_prompt-Dialogue :
        (fuel : ℕ) (user_text : Text) (t : Talk) (o : PromptOutcome) (t' : Talk)
        → run_prompt g chat_stream woken run fuel user_text t ≡ some (o, t')
        → (ms : List ChatMessage) × Dialogue (is_whole o.stop_reason) ms
          × (messages t' ≡ messages t ++ user user_text ∷ ms)
    unfolding run_prompt push push_message
    run_prompt-Dialogue fuel user_text t o t' h =
        let (ms, d, e) =
          rounds-Adds fuel 0 none (push (user user_text) (g.count_tokens user_text) t) o t' h in
        (ms, d, e ∙ append_assoc (messages t) (user user_text ∷ []) ms)

    -- A round that is the last one ends the turn.
    last_round :
        (fuel n : ℕ) (r : Ended)
        → IsLast r
        → (o : PromptOutcome) × (t' : Talk) × (go_on fuel n r ≡ some (o, t'))
    last_round fuel n (over stop_reason usage t') last = (_, t', refl)
    last_round fuel n (again usage t') last = absurd last

    -- The first round, and the second one where it follows.
    first_round :
        (fuel : ℕ) (r : Ended)
        → ((n : ℕ) (req : ChatRequest) → req.tools ≡ none → StartsNoCalls (chat_stream n req))
        → (o : PromptOutcome) × (t' : Talk) × (go_on (suc fuel) 0 r ≡ some (o, t'))
    unfolding rounds request_for
    first_round fuel (over stop_reason usage t') quiet = (_, t', refl)
    first_round fuel (again usage u) quiet =
        let req = request_for g false u.session in
        last_round fuel 1 (after_start g (woken 1) (run 1) (chat_stream 1 req) usage u)
          (after_start-IsLast (woken 1) (run 1) (chat_stream 1 req) usage u (quiet 1 req refl))

    -- If the model announces no tool call where it is offered no tools, a turn ends after at most two
    -- rounds: two units of fuel, or more, give a result.
    pub run_prompt_ends :
        (fuel : ℕ) (user_text : Text) (t : Talk)
        → ((n : ℕ) (req : ChatRequest) → req.tools ≡ none → StartsNoCalls (chat_stream n req))
        → (o : PromptOutcome) × (t' : Talk) × (run_prompt g chat_stream woken run
              (suc (suc fuel))
              user_text
              t
            ≡ some (o, t'))
    unfolding run_prompt rounds
    run_prompt_ends fuel user_text t quiet =
        let asked = push (user user_text) (g.count_tokens user_text) t in
        let start = chat_stream 0 (request_for g true asked.session) in
        first_round fuel (after_start g (woken 0) (run 0) start none asked) quiet
