-- ===== src/ChatQueue/Overlap.antt =====
-- crates/arcc-server/src/feishu/chat_queue.rs: what happens between the moment when a consumer drops
-- its receiver and the moment when it takes its chat out of the map.
use arcc.Base.{
  ◌≡◌, sym, ap, ◌∙◌, ℕ, suc, ◌<◌, false, none, some, arith, nat_Eq, list_Eq, ==_iff, ==_refl,
}
use arcc.Base.Maps.{get, insert, remove, get-insert, get-remove}
use arcc.ChatQueue.{
  QueueMsg, leaving, ended, Consumer, State, chat_of, receives, send, spawned, queue_on, start,
  enqueue_at, enqueue_inner, put, clean_up,
}

-- A message for a chat whose consumer has dropped its receiver: the chat leaves the map, and the
-- message goes nowhere.
drop_message :
    (m : QueueMsg) (n : ℕ) (c : Consumer) (s : State)
    → get (chat_of m) s.consumers ≡ some n
    → get n s.tasks ≡ some c
    → receives c.phase ≡ false
    → enqueue_inner m s ≡ record s { consumers = remove (chat_of m) s.consumers }
unfolding enqueue_inner remove
drop_message m n c s e f g = rw (e, enqueue_inner, enqueue_at, f, send, g, queue_on)

-- A message for a chat without a channel starts a consumer.
start_message :
    (m : QueueMsg) (s : State) → get (chat_of m) s.consumers ≡ none → enqueue_inner m s ≡ start m s
unfolding enqueue_inner start
start_message m s e = rw (e, enqueue_inner, enqueue_at)

-- A message after the one that was lost.
next_message :
    (m k : QueueMsg) (n : ℕ) (c : Consumer) (s : State)
    → chat_of k ≡ chat_of m
    → get (chat_of m) s.consumers ≡ some n
    → get n s.tasks ≡ some c
    → receives c.phase ≡ false
    → enqueue_inner k (enqueue_inner m s)
      ≡ start k (record s { consumers = remove (chat_of m) s.consumers })
next_message m k n c s same e f g =
    ap (enqueue_inner k) (drop_message m n c s e f g)
    ∙ start_message k _ (
        ap (λ t. get t (remove (chat_of m) s.consumers)) same
        ∙ get-remove (chat_of m) (chat_of m) s.consumers
        ∙ (rw (==_refl (chat_of m))))

-- A message after a consumer of its chat has cleaned up.
cleaned_message :
    (k : QueueMsg) (n : ℕ) (c : Consumer) (s : State)
    → chat_of k ≡ c.chat
    → enqueue_inner k (clean_up n c s) ≡ start k (clean_up n c s)
unfolding clean_up put
cleaned_message k n c s same = start_message k _ (
    ap (λ t. get t (remove c.chat s.consumers)) same
    ∙ get-remove c.chat c.chat s.consumers
    ∙ (rw (==_refl c.chat)))

-- The tasks after two starts with a clean-up between them.
both_tasks :
    (k l : QueueMsg) (n : ℕ) (c : Consumer) (s : State)
    → n < s.next
    → (get s.next (start l (clean_up n c (start k s))).tasks ≡ some (spawned k))
      × (get (suc s.next) (start l (clean_up n c (start k s))).tasks ≡ some (spawned l))
unfolding start clean_up put
both_tasks k l n c s h =
    let ended_task = insert n (record c { phase = ended }) (insert s.next (spawned k) s.tasks) in
    (
      ground (
        arith,
        get-insert (suc s.next) s.next (spawned l) ended_task,
        get-insert n s.next (record c { phase = ended }) (insert s.next (spawned k) s.tasks),
        get-insert s.next s.next (spawned k) s.tasks,
        ==_iff (suc s.next) s.next,
        ==_iff n s.next,
        ==_refl s.next,
        h,
      ),
      get-insert (suc s.next) (suc s.next) (spawned l) ended_task ∙ (rw (==_refl (suc s.next))),
    )

-- Let a consumer of the queue have dropped its receiver, and not yet have taken its chat out of the
-- map. If three messages for the chat come, and the consumer cleans up between the second and
-- the third, then the first reaches no consumer, since it changes no task, and the other two
-- are in the hands of two consumers at once.
pub consumers_overlap :
    (m k l : QueueMsg) (n : ℕ) (c : Consumer) (s : State)
    → chat_of m ≡ c.chat
    → chat_of k ≡ c.chat
    → chat_of l ≡ c.chat
    → get c.chat s.consumers ≡ some n
    → get n s.tasks ≡ some c
    → c.phase ≡ leaving
    → n < s.next
    → ((enqueue_inner m s).tasks ≡ s.tasks)
      × (let end = enqueue_inner l (clean_up n c (enqueue_inner k (enqueue_inner m s))) in
          (get s.next end.tasks ≡ some (spawned k))
          × (get (suc s.next) end.tasks ≡ some (spawned l)))
unfolding receives
consumers_overlap m k l n c s em ek el e f g h =
    let mapped : get (chat_of m) s.consumers ≡ some n = ap (λ t. get t s.consumers) em ∙ e in
    let closed : receives c.phase ≡ false = ap receives g in
    let second = next_message m k n c s (ek ∙ sym em) mapped f closed in
    let third = cleaned_message l n c (enqueue_inner k (enqueue_inner m s)) el in
    let end = third ∙ ap (λ x. start l (clean_up n c x)) second in
    let (a, b) = both_tasks k l n c (record s { consumers = remove (chat_of m) s.consumers }) h in
    (
      ap (λ x. x.tasks) (drop_message m n c s mapped f closed),
      (ap (λ x. get s.next x.tasks) end ∙ a, ap (λ x. get (suc s.next) x.tasks) end ∙ b),
    )
