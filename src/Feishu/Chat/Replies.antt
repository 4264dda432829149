-- ===== src/Feishu/Chat/Replies.antt =====
-- crates/arcc-server/src/feishu/webhook.rs: the user hears of every exchange that is finished.
use arcc.Base.{
  ℕ, zero, suc, ◌≡◌, refl, ap, subst, ◌∙◌, ◌⊎◌, inl, inr, Bool, true, false, not, ◌&&◌, ◌||◌, List,
  [], ◌∷◌, ◌++◌, Option, none, some, leb, ◌==◌, list_Eq, if◌then◌else◌, if_either, and_left,
  and_right, Listed, append-Listed, append-Listed_last, append-nil, sym, ==_iff,
}
use arcc.Base.Text.{Text, codes}
use arcc.Base.Maps.{Map}
use arcc.Memory.{MemoryFact}
use arcc.Model.Json.{unwrap_or}
use arcc.Model.Types.{ChatMessage, ChatResponse, ToolCall}
use arcc.Model.Provider.{ModelProvider, Result, ok, err}
use arcc.Session.{Session}
use arcc.TaskLoop.{ScheduledTask}
use arcc.Feishu.Post.{maybe_mention, reply_target}
use arcc.Feishu.Handlers.{Server, Sent, Desk, Chat, Handled, done, panicked, post, send, call_tool}
use arcc.Feishu.Handlers.Delivery.{call_tool-Keeps, reply_to_user-Reaches, reply_of, desk_of}
use arcc.Feishu.Chat.{
  Exchange, save, reply_message, answer, Called, answered, interrupted, call_tools, Looped, replied,
  model_failed, aborted, unfinished, after_calls, by_calls, after_request, rounds, Outcome,
  finished, send_result, conclude, no_provider, memory_user_id, opened, converse, by_provider,
  process_feishu_chat,
}
use arcc.Feishu.Chat.Turns.{result, all_calls}

-- A call of one of the messages.
abbrev pub CalledIn : ToolCall → List ChatMessage → Type 0
CalledIn tc ms =
    (m : ChatMessage) × (calls : List ToolCall) × Listed m ms
    × (m.tool_calls ≡ some calls)
    × Listed tc calls

-- A call of `reply_to_user` in the messages of an exchange, whose text was sent to the chat, and which
-- Feishu took.
abbrev pub Reached : Server → Chat → Exchange → Type 0
Reached g chat x =
    (tc : ToolCall) × (n : ℕ) × (tc.name ≡ codes "reply_to_user")
    × CalledIn tc x.messages
    × (g.deliver n ≡ none)
    × Listed (post g n chat.target (reply_of tc chat)) x.desk.sent

-- The flag says that the chat was reached.
abbrev pub IsHonest : Server → Chat → Exchange → Type 0
IsHonest g chat x = x.replied_to_user ≡ true → Reached g chat x

append-CalledIn :
    (tc : ToolCall) (ms more : List ChatMessage) → CalledIn tc ms → CalledIn tc (ms ++ more)
append-CalledIn tc ms more (m, calls, l, e, c) = (m, calls, append-Listed m ms more l, e, c)

later-Reached :
    (g : Server) (chat : Chat) (x y : Exchange) (more : List ChatMessage)
    → y.messages ≡ x.messages ++ more
    → ((sent : Sent) → Listed sent x.desk.sent → Listed sent y.desk.sent)
    → Reached g chat x
    → Reached g chat y
later-Reached g chat x y more e kept (tc, n, named, found, taken, l) = (
  tc,
  n,
  named,
  subst (CalledIn tc) (sym e) (append-CalledIn tc x.messages more found),
  taken,
  kept _ l,
)

abbrev exchange_of : Called → Exchange
exchange_of (answered x) = x
exchange_of (interrupted x) = x

or_cases : (a b : Bool) → (a || b) ≡ true → (a ≡ true) ⊎ (b ≡ true)
or_cases true b h = inl refl
or_cases false b h = inr h

module _ (g : Server) (chat : Chat) where
  kept_by :
      (tc : ToolCall) (d : Desk) (h : Handled)
      → call_tool g tc chat d ≡ h
      → (sent : Sent) → Listed sent d.sent
      → Listed sent (desk_of h).sent
  kept_by tc d h e sent l =
      subst (λ k. Listed sent (desk_of k).sent) e (call_tool-Keeps g sent tc chat d l)

  answer-IsHonest :
      (tc : ToolCall) (tool_ok : Bool) (content : Text) (x : Exchange) (d : Desk)
      → call_tool g tc chat x.desk ≡ done tool_ok content d
      → CalledIn tc x.messages
      → IsHonest g chat x
      → IsHonest g chat (answer tc tool_ok content x d)
  unfolding answer save
  answer-IsHonest tc tool_ok content x d e called honest h =
      elim (or_cases x.replied_to_user ((tc.name == codes "reply_to_user") && tool_ok) h) [
        | inl before ↦
            later-Reached g chat x (answer tc tool_ok content x d) _ refl
              (kept_by tc x.desk (done tool_ok content d) e) (honest before)
        | inr now ↦
            let named = and_left (tc.name == codes "reply_to_user") tool_ok now in
            let (taken, l) = reply_to_user-Reaches g tc chat x.desk d content named (
              e
              ∙ ap (λ b. done b content d)
                  (and_right (tc.name == codes "reply_to_user") tool_ok now)) in
            (
              tc,
              x.desk.calls,
              (==_iff tc.name (codes "reply_to_user")).0 named,
              append-CalledIn tc x.messages _ called,
              taken,
              l,
            )
      ]

  interrupted-IsHonest :
      (tc : ToolCall) (x : Exchange) (d : Desk)
      → call_tool g tc chat x.desk ≡ panicked d
      → IsHonest g chat x
      → IsHonest g chat (record x { desk = d })
  interrupted-IsHonest tc x d e honest h =
      later-Reached g chat x (record x { desk = d }) [] (sym (append-nil x.messages))
        (kept_by tc x.desk (panicked d) e) (honest h)

  -- The calls are those of a message.
  abbrev AllCalled : List ToolCall → Exchange → Type 0
  AllCalled tcs x = (tc : ToolCall) → Listed tc tcs → CalledIn tc x.messages

  answer-AllCalled :
      (tc : ToolCall) (tcs : List ToolCall) (tool_ok : Bool) (content : Text) (x : Exchange)
      (d : Desk)
      → AllCalled (tc ∷ tcs) x
      → AllCalled tcs (answer tc tool_ok content x d)
  unfolding answer save
  answer-AllCalled tc tcs tool_ok content x d all t l =
      append-CalledIn t x.messages _ (all t (inr l))

  after_tool :
      (tc : ToolCall) (tcs : List ToolCall) (x : Exchange) (h : Handled)
      → call_tool g tc chat x.desk ≡ h
      → AllCalled (tc ∷ tcs) x
      → IsHonest g chat x
      → ((u : Exchange)
          → AllCalled tcs u
          → IsHonest g chat u
          → IsHonest g chat (exchange_of (call_tools g tcs chat u)))
      → IsHonest g chat (
          exchange_of (elim h [
            | panicked d ↦ interrupted (record x { desk = d })
            | done tool_ok content d ↦ call_tools g tcs chat (answer tc tool_ok content x d)
          ]))
  after_tool tc tcs x (panicked d) e all honest later = interrupted-IsHonest tc x d e honest
  after_tool tc tcs x (done tool_ok content d) e all honest later =
      later (answer tc tool_ok content x d) (answer-AllCalled tc tcs tool_ok content x d all)
        (answer-IsHonest tc tool_ok content x d e (all tc (inl refl)) honest)

  call_tools-IsHonest :
      (tcs : List ToolCall) (x : Exchange)
      → AllCalled tcs x
      → IsHonest g chat x
      → IsHonest g chat (exchange_of (call_tools g tcs chat x))
  unfolding call_tools
  call_tools-IsHonest [] x all honest = honest
  call_tools-IsHonest (tc ∷ tcs) x all honest =
      after_tool tc tcs x (call_tool g tc chat x.desk) refl all honest (call_tools-IsHonest tcs)

abbrev EndsHonest : Server → Chat → Looped → Type 0
EndsHonest g chat r = IsHonest g chat (result r)

module _ (g : Server) (chat : Chat) (next : Exchange → Looped)
    (honest : (x : Exchange) → IsHonest g chat x → EndsHonest g chat (next x)) where
  after_calls-EndsHonest :
      (c : Called) → IsHonest g chat (exchange_of c) → EndsHonest g chat (after_calls g next c)
  unfolding after_calls
  after_calls-EndsHonest (answered x) h = honest x h
  after_calls-EndsHonest (interrupted x) h = h

  by_calls-EndsHonest :
      (m : ChatMessage) (calls : List ToolCall) (x : Exchange)
      → unwrap_or m.tool_calls [] ≡ calls
      → IsHonest g chat x
      → EndsHonest g chat (by_calls g next m calls chat x)
  unfolding by_calls reply_message
  by_calls-EndsHonest m [] x e h = h
  by_calls-EndsHonest m (tc ∷ tcs) x e h =
      let asked = reply_message m m.tool_calls in
      let u : Exchange = record x { messages = x.messages ++ asked ∷ [] } in
      after_calls-EndsHonest (call_tools g (tc ∷ tcs) chat u) (
        call_tools-IsHonest g chat (tc ∷ tcs) u
          (λ t l.
            (asked, tc ∷ tcs, append-Listed_last asked x.messages, all_calls m.tool_calls e, l))
          (λ said. later-Reached g chat x u (asked ∷ []) refl (λ s l. l) (h said)))

  after_request-EndsHonest :
      (phase_1 : Bool) (reply : Result ChatResponse) (x : Exchange)
      → IsHonest g chat x
      → EndsHonest g chat (after_request g next phase_1 reply chat x)
  unfolding after_request by_calls save unwrap_or
  after_request-EndsHonest phase_1 (err e) x h = h
  after_request-EndsHonest true (ok response) x h = by_calls-EndsHonest response.message _ _ refl h
  after_request-EndsHonest false (ok response) x h = h

rounds-EndsHonest :
    (g : Server) (temperature max_tokens fuel : ℕ) (phase_1 : Bool) (tool_rounds : ℕ) (chat : Chat)
    (x : Exchange)
    → IsHonest g chat x
    → EndsHonest g chat (rounds g temperature max_tokens fuel phase_1 tool_rounds chat x)
unfolding rounds
rounds-EndsHonest g t k zero phase_1 n chat x h = h
rounds-EndsHonest g t k (suc fuel) phase_1 n chat x h =
    after_request-EndsHonest g chat (rounds g t k fuel (not (leb 10 (suc n))) (suc n) chat)
      (λ y. rounds-EndsHonest g t k fuel (not (leb 10 (suc n))) (suc n) chat y) phase_1 _ _ h

-- A finished exchange has either reached the chat by `reply_to_user`, and then nothing is sent behind
-- the loop, or the reply is the last message that is handed to Feishu.
abbrev pub IsHeard : Server → Chat → Outcome → Type 0
IsHeard g chat (finished uid text reply x) =
    ((x.replied_to_user ≡ true) × Reached g chat x)
    ⊎ ((x.replied_to_user ≡ false)
        × (before : List Sent) × (n : ℕ) × (x.desk.sent
            ≡ before
              ++ post g n chat.target (maybe_mention reply chat.chat_type chat.open_id) ∷ []))
IsHeard g chat _ = Unit

unless_replied :
    (g : Server) (uid text reply : Text) (chat : Chat) (x : Exchange) (spoken : Bool)
    → x.replied_to_user ≡ spoken
    → IsHonest g chat x
    → IsHeard g chat (
        finished uid text reply (
          if spoken then x else record x {
            desk = (send g chat.target (maybe_mention reply chat.chat_type chat.open_id) x.desk).1;
          }))
unfolding send
unless_replied g uid text reply chat x true e h = inl (e, h e)
unless_replied g uid text reply chat x false e h = inr (e, x.desk.sent, x.desk.calls, refl)

module _ (g : Server) where
  conclude-IsHeard :
      (uid text : Text) (chat : Chat) (r : Looped)
      → EndsHonest g chat r
      → IsHeard g chat (conclude g uid text chat r)
  unfolding conclude send_result
  conclude-IsHeard uid text chat (replied reply x) h =
      unless_replied g uid text reply chat x x.replied_to_user refl h
  conclude-IsHeard uid text chat (model_failed x) h = tt
  conclude-IsHeard uid text chat (aborted x) h = tt
  conclude-IsHeard uid text chat (unfinished x) h = tt

  by_provider-IsHeard :
      (temperature max_tokens fuel : ℕ) (flash : Option ModelProvider)
      (start : ModelProvider → Exchange) (text : Text) (chat : Chat)
      → ((p : ModelProvider) → (start p).replied_to_user ≡ false)
      → IsHeard g chat (by_provider g temperature max_tokens fuel flash start text chat)
  unfolding by_provider no_provider converse
  by_provider-IsHeard t k fuel none start text chat e = tt
  by_provider-IsHeard t k fuel (some p) start text chat e =
      if_either (IsHeard g chat) g.has_client
        (conclude-IsHeard (memory_user_id g chat) text chat
          (rounds g t k fuel true 0 chat (start p))
          (rounds-EndsHonest g t k fuel true 0 chat (start p) (λ h. cc (e p))))
        tt

-- If an exchange is finished, then either `replied_to_user` is set, and a message of the exchange has
-- a call of `reply_to_user` whose argument, with a mention in a group, was sent to the chat and taken
-- by Feishu; or the flag is not set, and the reply, with a mention in a group, is the last message
-- that was handed to Feishu.
pub process_feishu_chat-IsHeard :
    (g : Server) (temperature max_tokens fuel : ℕ) (template : Text) (facts : List MemoryFact)
    (chat_id chat_type open_id user_text : Text) (session : Session)
    (tasks : Map Text ScheduledTask)
    → IsHeard g
        (record {
          chat_id = chat_id;
          chat_type = chat_type;
          open_id = open_id;
          target = reply_target chat_id chat_type open_id;
        })
        (process_feishu_chat g temperature max_tokens fuel template facts chat_id chat_type open_id
          user_text session tasks)
unfolding process_feishu_chat opened save
process_feishu_chat-IsHeard g t k fuel template facts chat_id chat_type open_id user_text session
      tasks =
    let chat : Chat = record {
      chat_id = chat_id;
      chat_type = chat_type;
      open_id = open_id;
      target = reply_target chat_id chat_type open_id;
    } in
    by_provider-IsHeard g t k fuel g.flash
      (λ p. opened g template facts chat user_text p session tasks) user_text chat (λ p. refl)
