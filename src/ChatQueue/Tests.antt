-- ===== src/ChatQueue/Tests.antt =====
-- The theorems about the queue at concrete states.
use arcc.Base.{◌≡◌, refl, Bool, true, [], ◌∷◌, some, nat_Eq, list_Eq, list_eq, arith}
use arcc.Base.Text.{Text, codes}
use arcc.Base.Maps.{get, insert}
use arcc.ChatQueue.{
  ChatEvent, QueueMsg, event, leaving, Consumer, State, new_queue, chat_of, spawned, enqueue_inner,
  enqueue_at, start, clean_up, enqueues, begins, steps,
}
use arcc.ChatQueue.Order.{InOrder, consumer-InOrder}
use arcc.ChatQueue.Overlap.{consumers_overlap}

abbrev message : Text → QueueMsg
message text = event (record {
  chat_id = codes "c1";
  chat_type = codes "p2p";
  open_id = codes "u";
  message_id = codes "m";
  user_text = text;
})

abbrev hello : QueueMsg
hello = message (codes "hello")

abbrev succeeds : ChatEvent → Bool
succeeds _ = true

consumer-InOrder_example : InOrder (spawned hello)
unfolding enqueue_inner enqueue_at start new_queue get insert chat_of
consumer-InOrder_example =
    consumer-InOrder succeeds (enqueue_inner hello new_queue) (steps begins (enqueues hello)) 0
      (spawned hello) refl

-- A consumer that has gone through its message and then timed out.
abbrev timed_out : Consumer
timed_out = record {
  chat = codes "c1";
  inbox = [];
  phase = leaving;
  handed = hello ∷ [];
  processed = hello ∷ [];
}

abbrev before_cleaning : State
before_cleaning = record {
  consumers = (codes "c1", 0) ∷ [];
  tasks = (0, timed_out) ∷ [];
  next = 1;
  answers = [];
}

consumers_overlap_example :
    ((enqueue_inner hello before_cleaning).tasks ≡ (0, timed_out) ∷ [])
    × (let end = enqueue_inner (message (codes "third")) (
          clean_up 0 timed_out
            (enqueue_inner (message (codes "second")) (enqueue_inner hello before_cleaning))) in
        (get 1 end.tasks ≡ some (spawned (message (codes "second"))))
        × (get 2 end.tasks ≡ some (spawned (message (codes "third")))))
unfolding get chat_of list_eq
consumers_overlap_example =
    consumers_overlap hello (message (codes "second")) (message (codes "third")) 0 timed_out
      before_cleaning refl refl refl refl refl refl (omega arith)
