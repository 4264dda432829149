-- ===== src/Feishu/Chat/Requests.antt =====
-- crates/arcc-server/src/feishu/webhook.rs: the requests of an exchange are in the order that the
-- chat endpoint asks for.
use arcc.Base.{
  ℕ, zero, suc, ◌+◌, ◌-◌, ◌≤◌, ◌<◌, ◌≡◌, refl, ap, subst, ◌∙◌, sym, Bool, true, false, not, List,
  [], ◌∷◌, ◌++◌, arith, leb, length, length-append, Option, none, some, list_Eq, All, All-append,
  append_assoc, Bool-cases, inl, inr, if_either,
}
use arcc.Base.Text.{Text}
use arcc.Model.Json.{unwrap_or}
use arcc.Model.Types.{ChatMessage, ChatRequest, ChatResponse, ToolCall, assistant_role}
use arcc.Model.Provider.{ModelProvider, Result, ok, err}
use arcc.Base.Maps.{Map}
use arcc.Memory.{MemoryFact, format_for_context}
use arcc.Feishu.Post.{reply_target}
use arcc.TaskLoop.{ScheduledTask}
use arcc.Session.{Session}
use arcc.Feishu.History.{IsWellFormed}
use arcc.Feishu.Handlers.{Server, Chat}
use arcc.Feishu.Chat.{
  Exchange, save, reply_message, Called, answered, interrupted, call_tools, Looped, replied,
  model_failed, aborted, unfinished, after_calls, by_calls, after_request, request, rounds, Outcome,
  unavailable, failed, panics, out_of_fuel, finished, conclude, send_result, no_provider, opened,
  converse, by_provider, memory_user_id, process_feishu_chat,
}
use arcc.Feishu.Chat.Turns.{result, all_calls, AddsAnswers, call_tools-AddsAnswers}
use arcc.Feishu.Chat.Rounds.{requests_of, call_tools-requests}
use arcc.Feishu.Chat.Orderly.{round-IsWellFormed, append-IsWellFormed, initial-IsWellFormed}

-- The requests so far, and the vector for the next one.
abbrev IsOrderly : ChatRequest → Type 0
IsOrderly r = IsWellFormed r.messages

abbrev Ready : Exchange → Type 0
Ready x = IsWellFormed x.messages × All IsOrderly x.requests

-- All requests that were sent are well formed, and no more than a number came on.
abbrev Sends : ℕ → Exchange → Looped → Type 0
Sends n x r =
    All IsOrderly (result r).requests × (length (result r).requests ≤ length x.requests + n)

module _ (g : Server) (next : Exchange → Looped) (n : ℕ)
    (sends : (x : Exchange) → Ready x → Sends n x (next x)) where
  after_calls-Sends :
      (m : ChatMessage) (calls : List ToolCall) (x : Exchange) (c : Called)
      → m.role ≡ assistant_role
      → m.tool_calls ≡ some calls
      → Ready x
      → AddsAnswers calls (record x { messages = x.messages ++ m ∷ [] }) c
      → requests_of c ≡ x.requests
      → Sends n x (after_calls g next c)
  unfolding after_calls
  after_calls-Sends m calls x (interrupted x') role has (wf, all) (ms, first, added) same =
      (subst (All IsOrderly) (sym same) all, omega (arith, ap length same))
  after_calls-Sends m calls x (answered x') role has (wf, all) (ms, answers, added, sent) same =
      let ready : Ready x' = (
        subst IsWellFormed (sym (sent ∙ append_assoc x.messages (m ∷ []) ms)) (
            append-IsWellFormed x.messages (m ∷ ms) wf
              (round-IsWellFormed m calls ms has role answers)),
        subst (All IsOrderly) (sym same) all,
      ) in
      let (orderly, few) = sends x' ready in (orderly, omega (arith, ap length same))

  by_calls-Sends :
      (m : ChatMessage) (calls : List ToolCall) (chat : Chat) (x : Exchange)
      → unwrap_or m.tool_calls [] ≡ calls
      → Ready x
      → Sends n x (by_calls g next m calls chat x)
  unfolding by_calls reply_message
  by_calls-Sends m [] chat x e (wf, all) = (all, omega arith)
  by_calls-Sends m (tc ∷ tcs) chat x e ready =
      let u : Exchange = record x { messages = x.messages ++ reply_message m m.tool_calls ∷ [] } in
      after_calls-Sends (reply_message m m.tool_calls) (tc ∷ tcs) x (call_tools g (tc ∷ tcs) chat u)
        refl (all_calls m.tool_calls e) ready (call_tools-AddsAnswers g (tc ∷ tcs) chat u)
        (call_tools-requests g (tc ∷ tcs) chat u)

  after_request-Sends :
      (reply : Result ChatResponse) (chat : Chat) (x : Exchange)
      → Ready x
      → Sends n x (after_request g next true reply chat x)
  unfolding after_request save
  after_request-Sends (err e) chat x (wf, all) = (all, omega arith)
  after_request-Sends (ok response) chat x ready =
      by_calls-Sends response.message _ chat _ refl ready

phase_2-Sends :
    (g : Server) (next : Exchange → Looped) (reply : Result ChatResponse) (chat : Chat)
    (x : Exchange)
    → Ready x
    → Sends 0 x (after_request g next false reply chat x)
unfolding after_request by_calls unwrap_or save
phase_2-Sends g next (err e) chat x (wf, all) = (all, omega arith)
phase_2-Sends g next (ok response) chat x (wf, all) = (all, omega arith)

asked :
    (x : Exchange) (req : ChatRequest) (r : Looped) (n : ℕ)
    → Sends n (record x { requests = x.requests ++ req ∷ [] }) r
    → Sends (suc n) x r
asked x req r n (all, few) = (all, omega (arith, length-append x.requests (req ∷ [])))

widened : (x : Exchange) (r : Looped) (m n : ℕ) → m ≤ n → Sends m x r → Sends n x r
widened x r m n le (all, few) = (all, omega arith)

-- How many requests are left, in phase 1 and in phase 2.
abbrev left : Bool → ℕ → ℕ
left true tool_rounds = 11 - tool_rounds
left false tool_rounds = 1

abbrev IsUnder : Bool → ℕ → Type 0
IsUnder true tool_rounds = tool_rounds < 10
IsUnder false tool_rounds = Unit

later_IsUnder :
    (n : ℕ)
    → n < 10
    → let phase = not (leb 10 (suc n)) in
      IsUnder phase (suc n) × (suc (left phase (suc n)) ≤ 11 - n)
later_IsUnder n h = elim (Bool-cases (leb 10 (suc n))) [
  | inl over ↦ rw over (tt, ground arith)
  | inr under ↦ rw under (ground arith, ground arith)
]

-- With any fuel.
rounds-Sends :
    (g : Server) (temperature max_tokens fuel : ℕ) (phase_1 : Bool) (tool_rounds : ℕ) (chat : Chat)
    (x : Exchange)
    → IsUnder phase_1 tool_rounds
    → Ready x
    → Sends
        (left phase_1 tool_rounds)
        x
        (rounds g temperature max_tokens fuel phase_1 tool_rounds chat x)
unfolding rounds request
rounds-Sends g t k zero phase_1 n chat x under (wf, all) = (all, omega arith)
rounds-Sends g t k (suc fuel) true n chat x under (wf, all) =
    let req = request t k true x in
    let u : Exchange = record x { requests = x.requests ++ req ∷ [] } in
    let phase = not (leb 10 (suc n)) in
    let next = rounds g t k fuel phase (suc n) chat in
    let (later, fewer) = later_IsUnder n under in
    let r = after_request g next true (x.desk.provider.chat req) chat u in
    widened x r (suc (left phase (suc n))) (11 - n) fewer (
      asked x req r (left phase (suc n)) (
        after_request-Sends g next (left phase (suc n))
          (λ y. rounds-Sends g t k fuel phase (suc n) chat y later) (x.desk.provider.chat req) chat
          u (wf, All-append IsOrderly x.requests _ all (wf, tt))))
rounds-Sends g t k (suc fuel) false n chat x under (wf, all) =
    let req = request t k false x in
    let u : Exchange = record x { requests = x.requests ++ req ∷ [] } in
    let next = rounds g t k fuel (not (leb 10 (suc n))) (suc n) chat in
    asked x req (after_request g next false (x.desk.provider.chat req) chat u) 0 (
      phase_2-Sends g next (x.desk.provider.chat req) chat u
        (wf, All-append IsOrderly x.requests _ all (wf, tt)))

-- The requests of an exchange.
abbrev pub requests_made : Outcome → List ChatRequest
requests_made (unavailable sent) = []
requests_made (failed x) = x.requests
requests_made (panics x) = x.requests
requests_made (out_of_fuel x) = x.requests
requests_made (finished uid text reply x) = x.requests

abbrev pub FewAndOrderly : List ChatRequest → Type 0
FewAndOrderly rs = All IsOrderly rs × (length rs ≤ 11)

conclude-requests :
    (g : Server) (uid text : Text) (chat : Chat) (r : Looped)
    → requests_made (conclude g uid text chat r) ≡ (result r).requests
unfolding conclude send_result
conclude-requests g uid text chat (replied reply x) = ground arith
conclude-requests g uid text chat (model_failed x) = refl
conclude-requests g uid text chat (aborted x) = refl
conclude-requests g uid text chat (unfinished x) = refl

module _ (g : Server) (temperature max_tokens fuel : ℕ) where
  converse-requests :
      (user_text : Text) (chat : Chat) (x : Exchange)
      → IsWellFormed x.messages
      → x.requests ≡ []
      → FewAndOrderly (requests_made (converse g temperature max_tokens fuel user_text chat x))
  unfolding converse
  converse-requests user_text chat x wf e =
      let r = rounds g temperature max_tokens fuel true 0 chat x in
      let (all, few) =
        rounds-Sends g temperature max_tokens fuel true 0 chat x (omega arith)
          (wf, subst (All IsOrderly) (sym e) tt) in
      if_either (λ o. FewAndOrderly (requests_made o)) g.has_client
        (subst FewAndOrderly (sym (conclude-requests g (memory_user_id g chat) user_text chat r))
          (all, omega (arith, ap length e)))
        (subst FewAndOrderly (sym e) (tt, omega arith))

  by_provider-requests :
      (flash : Option ModelProvider) (start : ModelProvider → Exchange) (user_text : Text)
      (chat : Chat)
      → ((p : ModelProvider) → IsWellFormed (start p).messages)
      → ((p : ModelProvider) → (start p).requests ≡ [])
      → FewAndOrderly
          (requests_made (by_provider g temperature max_tokens fuel flash start user_text chat))
  unfolding by_provider no_provider
  by_provider-requests none start user_text chat wf e = (tt, omega arith)
  by_provider-requests (some p) start user_text chat wf e =
      converse-requests user_text chat (start p) (wf p) (e p)

opened-IsWellFormed :
    (g : Server) (template : Text) (facts : List MemoryFact) (chat : Chat) (user_text : Text)
    (flash : ModelProvider) (session : Session) (tasks : Map Text ScheduledTask)
    → IsWellFormed (opened g template facts chat user_text flash session tasks).messages
unfolding opened
opened-IsWellFormed g template facts chat user_text flash session tasks =
    initial-IsWellFormed template (format_for_context (memory_user_id g chat) facts)
      (opened g template facts chat user_text flash session tasks).session

-- Whatever the session held, the models answer and the tools do, an exchange sends at most eleven
-- requests, however much fuel its loop is given. The messages of each start with no tool message, and each assistant message in them is
-- followed by at least as many tool messages as it has tool calls.
pub process_feishu_chat-requests :
    (g : Server) (temperature max_tokens fuel : ℕ) (template : Text) (facts : List MemoryFact)
    (chat_id chat_type open_id user_text : Text) (session : Session)
    (tasks : Map Text ScheduledTask)
    → FewAndOrderly (
        requests_made (
          process_feishu_chat g temperature max_tokens fuel template facts chat_id chat_type open_id
            user_text session tasks))
unfolding process_feishu_chat opened save
process_feishu_chat-requests g t k fuel template facts chat_id chat_type open_id user_text session
      tasks =
    let chat : Chat = record {
      chat_id = chat_id;
      chat_type = chat_type;
      open_id = open_id;
      target = reply_target chat_id chat_type open_id;
    } in
    by_provider-requests g t k fuel g.flash
      (λ p. opened g template facts chat user_text p session tasks) user_text chat
      (λ p. opened-IsWellFormed g template facts chat user_text p session tasks) (λ p. refl)
