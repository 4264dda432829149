-- ===== src/Feishu/Chat/Stored.antt =====
-- crates/arcc-server/src/feishu/webhook.rs: the session behind an exchange.
use arcc.Base.{
  ℕ, ◌≤◌, ◌≡◌, refl, sym, ◌∙◌, true, List, [], ◌∷◌, ◌++◌, Option, none, some, arith, append-nil,
  if_either,
}
use arcc.Base.Text.{Text}
use arcc.Base.Maps.{Map}
use arcc.Memory.{MemoryFact}
use arcc.Model.Types.{ChatMessage, user}
use arcc.Model.Provider.{ModelProvider}
use arcc.Session.{Session, push_message}
use arcc.TaskLoop.{ScheduledTask}
use arcc.Feishu.Post.{reply_target}
use arcc.Feishu.Handlers.{Server, Chat}
use arcc.Feishu.Chat.{
  Exchange, save, Looped, replied, model_failed, aborted, unfinished, rounds, clean_text, Outcome,
  unavailable, failed, panics, out_of_fuel, finished, send_result, conclude, no_provider,
  memory_user_id, opened, converse, by_provider, process_feishu_chat,
}
use arcc.Feishu.Chat.Turns.{
  Ending, completed, stopped, crashed, Turns, nothing, stored, AddsTurns, rounds-AddsTurns,
}
use arcc.Feishu.Chat.Rounds.{Ends, rounds-Ends}

-- A session that held `before` has got the turns of an ending.
abbrev pub Grown : List ChatMessage → Ending → Exchange → Type 0
Grown before ending x = (ms : List ChatMessage) × Turns ending ms × (stored x ≡ before ++ ms)

-- The session behind an exchange; without a model it is not touched, and the fuel is enough.
abbrev pub Stores : List ChatMessage → Outcome → Type 0
Stores before (unavailable sent) = Unit
Stores before (failed x) = Grown before stopped x
Stores before (panics x) = Grown before crashed x
Stores before (out_of_fuel x) = ⊥
Stores before (finished uid text reply x) = Grown before completed x

module _ (g : Server) (temperature max_tokens : ℕ) where
  send_result-stored :
      (reply : Text) (chat : Chat) (x : Exchange) → stored (send_result g reply chat x) ≡ stored x
  unfolding send_result
  send_result-stored reply chat x = if_either (λ y. stored y ≡ stored x) x.replied_to_user refl refl

  conclude-Stores :
      (uid user_text : Text) (chat : Chat) (x : Exchange) (r : Looped)
      → Ends r
      → AddsTurns x r
      → Stores (stored x) (conclude g uid user_text chat r)
  unfolding conclude
  conclude-Stores uid user_text chat x (replied reply x') ends (ms, turns, e) =
      (ms, turns, send_result-stored reply chat x' ∙ e)
  conclude-Stores uid user_text chat x (model_failed x') ends adds = adds
  conclude-Stores uid user_text chat x (aborted x') ends adds = adds
  conclude-Stores uid user_text chat x (unfinished x') ends adds = ends

module _ (g : Server) (temperature max_tokens fuel : ℕ) (enough : 11 ≤ fuel) where
  converse-Stores :
      (user_text : Text) (chat : Chat) (x : Exchange)
      → Stores (stored x) (converse g temperature max_tokens fuel user_text chat x)
  unfolding converse
  converse-Stores user_text chat x =
      if_either (Stores (stored x)) g.has_client
        (conclude-Stores g temperature max_tokens (memory_user_id g chat) user_text chat x
          (rounds g temperature max_tokens fuel true 0 chat x)
          (rounds-Ends g temperature max_tokens fuel true 0 chat x
            (omega arith, omega (arith, enough)))
          (rounds-AddsTurns g temperature max_tokens fuel true 0 chat x))
        ([], nothing, sym (append-nil (stored x)))

  by_provider-Stores :
      (flash : Option ModelProvider) (start : ModelProvider → Exchange) (user_text : Text)
      (chat : Chat) (before : List ChatMessage)
      → ((p : ModelProvider) → stored (start p) ≡ before)
      → Stores before (by_provider g temperature max_tokens fuel flash start user_text chat)
  unfolding by_provider no_provider
  by_provider-Stores none start user_text chat before e = tt
  by_provider-Stores (some p) start user_text chat before e =
      rw (← e p) (converse-Stores user_text chat (start p))

opened-stored :
    (g : Server) (template : Text) (facts : List MemoryFact) (chat : Chat) (user_text : Text)
    (flash : ModelProvider) (session : Session) (tasks : Map Text ScheduledTask)
    → stored (opened g template facts chat user_text flash session tasks)
      ≡ session.messages ++ user (clean_text user_text) ∷ []
unfolding opened save push_message
opened-stored g template facts chat user_text flash session tasks = refl

-- An exchange comes to an end with eleven units of fuel, and with more. If there is a model, the
-- session has got the user's message, without the scheduler's prefix, and behind it the turns of
-- the exchange: rounds of an assistant message with tool calls and exactly one answer to each of
-- them, in order, and at the end of a finished exchange an assistant message without calls. Only a
-- handler that panics leaves a round in which the last calls have no answers; an exchange that
-- fails stops behind a whole round.
pub process_feishu_chat-Stores :
    (g : Server) (temperature max_tokens fuel : ℕ) (template : Text) (facts : List MemoryFact)
    (chat_id chat_type open_id user_text : Text) (session : Session)
    (tasks : Map Text ScheduledTask)
    → 11 ≤ fuel
    → Stores (session.messages ++ user (clean_text user_text) ∷ []) (
        process_feishu_chat g temperature max_tokens fuel template facts chat_id chat_type open_id
          user_text session tasks)
unfolding process_feishu_chat
process_feishu_chat-Stores g t k fuel template facts chat_id chat_type open_id user_text session
      tasks enough =
    let chat : Chat = record {
      chat_id = chat_id;
      chat_type = chat_type;
      open_id = open_id;
      target = reply_target chat_id chat_type open_id;
    } in
    by_provider-Stores g t k fuel enough g.flash
      (λ p. opened g template facts chat user_text p session tasks) user_text chat _
      (λ p. opened-stored g template facts chat user_text p session tasks)
