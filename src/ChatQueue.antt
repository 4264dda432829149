-- ===== src/ChatQueue.antt =====
-- crates/arcc-server/src/feishu/chat_queue.rs: the messages of each chat, and the tasks that take
-- them. A task is named by its channel; a channel has one sender, the one in `consumers`. Tasks run
-- interleaved: an operation is what one task does between two awaits. What the chat itself does
-- with an event (`process_feishu_chat`) is the argument `process`.
pub mod Order
pub mod Overlap
mod Tests
use arcc.Base.{
  ◌≡◌, ℕ, suc, Bool, true, false, List, [], ◌∷◌, ◌++◌, Option, none, some, nat_Eq, list_Eq,
  if◌then◌else◌, ◌==◌,
}
use arcc.Base.Text.{Text}
use arcc.Base.Maps.{Map, get, insert, remove}

pub record ChatEvent : Type 0 where
  pub chat_id : Text
  pub chat_type : Text
  pub open_id : Text
  pub message_id : Text
  pub user_text : Text

-- A scheduler's request carries a channel for the answer, named by a number.
pub data QueueMsg : Type 0 where
  event : ChatEvent → QueueMsg
  scheduler : ChatEvent → ℕ → QueueMsg

-- Where a consumer stands: it processes a message, waits for one, has seen the end (the timeout or
-- a closed channel) but still holds its receiver, or has dropped it and must still clean up.
pub data Phase : Type 0 where
  busy : QueueMsg → Phase
  waiting stopped leaving ended : Phase

-- A consumer. The last two fields are histories, which no operation reads: the messages that were
-- handed to it, and those that it has processed.
pub record Consumer : Type 0 where
  pub chat : Text
  pub inbox : List QueueMsg
  pub phase : Phase
  pub handed : List QueueMsg
  pub processed : List QueueMsg

-- The queue's map from chats to channels, the tasks, the next channel's number, and the answers
-- that the scheduler's requests have got.
pub record State : Type 0 where
  pub consumers : Map Text ℕ
  pub tasks : Map ℕ Consumer
  pub next : ℕ
  pub answers : Map ℕ Bool

unfoldable pub new_queue : State
new_queue = record { consumers = []; tasks = []; next = 0; answers = [] }

unfoldable pub chat_of : QueueMsg → Text
chat_of (event e) = e.chat_id
chat_of (scheduler e _) = e.chat_id

-- Whether the receiver of a consumer's channel still exists.
unfoldable pub receives : Phase → Bool
receives leaving = false
receives ended = false
receives _ = true

unfoldable pub push : QueueMsg → Consumer → Consumer
push m c = record c { inbox = c.inbox ++ (m ∷ []); handed = c.handed ++ (m ∷ []) }

-- `tx.send(msg)`: none is its error.
unfoldable pub send : QueueMsg → Option Consumer → Option Consumer
unfolding receives push
send m none = none
send m (some c) = if receives c.phase then some (push m c) else none

unfoldable pub spawned : QueueMsg → Consumer
unfolding chat_of
spawned m = record { chat = chat_of m; inbox = []; phase = busy m; handed = m ∷ []; processed = [] }

-- What `enqueue_inner` does when the map has the channel `n` for the chat: queue, or drop.
unfoldable pub queue_on : QueueMsg → ℕ → Option Consumer → State → State
unfolding chat_of insert remove
queue_on m n (some c) s = record s { tasks = insert n c s.tasks }
queue_on m n none s = record s { consumers = remove (chat_of m) s.consumers }

unfoldable pub start : QueueMsg → State → State
unfolding chat_of spawned insert
start m s = record s {
  consumers = insert (chat_of m) s.next s.consumers;
  tasks = insert s.next (spawned m) s.tasks;
  next = suc s.next;
}

unfoldable pub enqueue_at : QueueMsg → Option ℕ → State → State
unfolding send queue_on start get
enqueue_at m (some n) s = queue_on m n (send m (get n s.tasks)) s
enqueue_at m none s = start m s

unfoldable pub enqueue_inner : QueueMsg → State → State
unfolding enqueue_at chat_of get
enqueue_inner m s = enqueue_at m (get (chat_of m) s.consumers) s

unfoldable pub enqueue : ChatEvent → State → State
unfolding enqueue_inner
enqueue e s = enqueue_inner (event e) s

-- A scheduler's request, up to its wait for the answer on the channel `r`.
unfoldable pub enqueue_scheduler : ChatEvent → ℕ → State → State
unfolding enqueue_inner
enqueue_scheduler e r s = enqueue_inner (scheduler e r) s

-- `rx.await.unwrap_or(false)`: false if the channel was dropped without an answer.
unfoldable pub awaited : Option Bool → Bool
awaited none = false
awaited (some ok) = ok

-- The consumer's own steps, each with what it needs of the consumer.
unfoldable pub receive : Consumer → QueueMsg → List QueueMsg → Consumer
receive c m rest = record c { inbox = rest; phase = busy m }

unfoldable pub finish : Consumer → QueueMsg → Consumer
finish c m = record c { phase = waiting; processed = c.processed ++ (m ∷ []) }

unfoldable pub stop : Consumer → Consumer
stop c = record c { phase = stopped }

-- Dropping the receiver drops what is still in the channel.
unfoldable pub drop_receiver : Consumer → Consumer
drop_receiver c = record c { phase = leaving; inbox = [] }

unfoldable pub put : ℕ → Consumer → State → State
unfolding insert
put n c s = record s { tasks = insert n c s.tasks }

-- The answer that `process_one` sends to the scheduler.
unfoldable pub answer : (ChatEvent → Bool) → QueueMsg → Map ℕ Bool → Map ℕ Bool
unfolding insert
answer process (event e) answers = answers
answer process (scheduler e r) answers = insert r (process e) answers

unfoldable pub process_one : (ChatEvent → Bool) → ℕ → Consumer → QueueMsg → State → State
unfolding put finish answer
process_one process n c m s =
    let s' = put n (finish c m) s in record s' { answers = answer process m s'.answers }

-- `consumers.lock().await.remove(&chat_id)`, whatever channel the map has for the chat.
unfoldable pub clean_up : ℕ → Consumer → State → State
unfolding put remove
clean_up n c s =
    let s' = put n (record c { phase = ended }) s in
    record s' { consumers = remove c.chat s'.consumers }

-- One step of the queue and its tasks.
pub data Step (process : ChatEvent → Bool) : State → State → Type 0 where
  enqueues : {s : State} (m : QueueMsg) → Step process s (enqueue_inner m s)
  processes :
      {s : State} (n : ℕ) (c : Consumer) (m : QueueMsg)
      → get n s.tasks ≡ some c
      → c.phase ≡ busy m
      → Step process s (process_one process n c m s)
  takes :
      {s : State} (n : ℕ) (c : Consumer) (m : QueueMsg) (rest : List QueueMsg)
      → get n s.tasks ≡ some c
      → c.phase ≡ waiting
      → c.inbox ≡ m ∷ rest
      → Step process s (put n (receive c m rest) s)
  stops :
      {s : State} (n : ℕ) (c : Consumer)
      → get n s.tasks ≡ some c
      → c.phase ≡ waiting
      → c.inbox ≡ []
      → Step process s (put n (stop c) s)
  drops :
      {s : State} (n : ℕ) (c : Consumer)
      → get n s.tasks ≡ some c
      → c.phase ≡ stopped
      → Step process s (put n (drop_receiver c) s)
  cleans :
      {s : State} (n : ℕ) (c : Consumer)
      → get n s.tasks ≡ some c
      → c.phase ≡ leaving
      → Step process s (clean_up n c s)

-- The states that the program reaches from an empty queue.
pub data Reachable (process : ChatEvent → Bool) : State → Type 0 where
  begins : Reachable process new_queue
  steps : {s t : State} → Reachable process s → Step process s t → Reachable process t
