-- ===== src/ChatQueue/Order.antt =====
-- crates/arcc-server/src/feishu/chat_queue.rs: the order in which a consumer processes messages.
use arcc.Base.{
  none_is_not_some, some_same, ◌≡◌, refl, sym, ap, subst, ◌∙◌, inl, inr, ℕ, Bool, true, false, List,
  [], ◌∷◌, ◌++◌, append_assoc, Option, none, some, nat_Eq, list_Eq, ◌==◌, Bool-cases,
}
use arcc.Base.Maps.{Map, get, insert, get-insert}
use arcc.ChatQueue.{
  ChatEvent, QueueMsg, Phase, busy, waiting, ended, Consumer, State, new_queue, chat_of, receives,
  push, send, spawned, queue_on, start, enqueue_at, enqueue_inner, receive, finish, stop,
  drop_receiver, put, process_one, clean_up, Step, enqueues, processes, takes, stops, drops, cleans,
  Reachable, begins, steps,
}

-- The message that a consumer has taken and not finished.
unfoldable pub in_hand : Phase → List QueueMsg
in_hand (busy m) = m ∷ []
in_hand _ = []

-- A consumer processes what it was handed, in order: nothing is lost or repeated while it receives,
-- and afterwards only a rest of the messages is.
pub record InOrder (c : Consumer) : Type 0 where
  pub kept : receives c.phase ≡ true → c.handed ≡ c.processed ++ (in_hand c.phase ++ c.inbox)
  pub lost : List QueueMsg
  pub prefix : c.handed ≡ c.processed ++ lost

false_is_not_true : false ≡ true → ⊥
false_is_not_true e = cc

-- A consumer of the map after an insertion is the new one or an old one.
insert-each :
    (P : Consumer → Type 0) (n : ℕ) (c : Consumer) (m : Map ℕ Consumer)
    → P c
    → ((j : ℕ) (d : Consumer) → get j m ≡ some d → P d)
    → (j : ℕ) (d : Consumer) → get j (insert n c m) ≡ some d
    → P d
insert-each P n c m new old j d e = elim (Bool-cases (n == j)) [
  | inl same ↦ subst P (some_same (sym (get-insert n j c m ∙ (rw same)) ∙ e)) new
  | inr other ↦ old j d (sym (get-insert n j c m ∙ (rw other)) ∙ e)
]

-- Each step of one consumer.
push-InOrder :
    (m : QueueMsg) (c : Consumer) → receives c.phase ≡ true → InOrder c → InOrder (push m c)
unfolding push
push-InOrder m c r o = record {
  kept = λ _.
      ap (λ l. l ++ (m ∷ [])) (o.kept r)
      ∙ append_assoc c.processed (in_hand c.phase ++ c.inbox) (m ∷ [])
      ∙ ap (λ l. c.processed ++ l) (append_assoc (in_hand c.phase) c.inbox (m ∷ []));
  lost = o.lost ++ (m ∷ []);
  prefix = ap (λ l. l ++ (m ∷ [])) o.prefix ∙ append_assoc c.processed o.lost (m ∷ []);
}

finish-InOrder : (c : Consumer) (m : QueueMsg) → c.phase ≡ busy m → InOrder c → InOrder (finish c m)
unfolding finish in_hand receives
finish-InOrder c m e o = record { kept = λ _. all; lost = c.inbox; prefix = all }
  where
    all : c.handed ≡ (c.processed ++ (m ∷ [])) ++ c.inbox
    all =
        o.kept (ap receives e)
        ∙ ap (λ q. c.processed ++ (in_hand q ++ c.inbox)) e
        ∙ sym (append_assoc c.processed (m ∷ []) c.inbox)

receive-InOrder :
    (c : Consumer) (m : QueueMsg) (rest : List QueueMsg)
    → c.phase ≡ waiting
    → c.inbox ≡ m ∷ rest
    → InOrder c
    → InOrder (receive c m rest)
unfolding receive in_hand receives
receive-InOrder c m rest e f o = record {
  kept = λ _.
      o.kept (ap receives e)
      ∙ ap (λ q. c.processed ++ (in_hand q ++ c.inbox)) e
      ∙ ap (λ l. c.processed ++ l) f;
  lost = o.lost;
  prefix = o.prefix;
}

stop-InOrder : (c : Consumer) → c.phase ≡ waiting → InOrder c → InOrder (stop c)
unfolding stop in_hand receives
stop-InOrder c e o = record {
  kept = λ _. o.kept (ap receives e) ∙ ap (λ q. c.processed ++ (in_hand q ++ c.inbox)) e;
  lost = o.lost;
  prefix = o.prefix;
}

drop_receiver-InOrder : (c : Consumer) → InOrder c → InOrder (drop_receiver c)
unfolding drop_receiver receives
drop_receiver-InOrder c o = record {
  kept = λ e. absurd (false_is_not_true e);
  lost = o.lost;
  prefix = o.prefix;
}

ended-InOrder : (c : Consumer) → InOrder c → InOrder (record c { phase = ended })
unfolding receives
ended-InOrder c o = record {
  kept = λ e. absurd (false_is_not_true e);
  lost = o.lost;
  prefix = o.prefix;
}

spawned-InOrder : (m : QueueMsg) → InOrder (spawned m)
unfolding spawned in_hand
spawned-InOrder m = record { kept = λ e. refl; lost = m ∷ []; prefix = refl }

-- Every consumer of a state.
AllInOrder : State → Type 0
AllInOrder s = (n : ℕ) (c : Consumer) → get n s.tasks ≡ some c → InOrder c

send-InOrder :
    (m : QueueMsg) (o : Option Consumer) (d : Consumer)
    → ((c : Consumer) → o ≡ some c → InOrder c)
    → send m o ≡ some d
    → InOrder d
unfolding send
send-InOrder m none d all e = absurd (none_is_not_some {a = d} e)
send-InOrder m (some c) d all e = elim (Bool-cases (receives c.phase)) [
  | inl r ↦ subst InOrder (some_same (rw (r, send) at e)) (push-InOrder m c r (all c refl))
  | inr r ↦ absurd (none_is_not_some (rw (r, send) at e))
]

queue_on-AllInOrder :
    (m : QueueMsg) (n : ℕ) (o : Option Consumer) (s : State)
    → ((c : Consumer) → o ≡ some c → InOrder c)
    → AllInOrder s
    → AllInOrder (queue_on m n o s)
unfolding AllInOrder queue_on
queue_on-AllInOrder m n none s new all = all
queue_on-AllInOrder m n (some c) s new all = insert-each InOrder n c s.tasks (new c refl) all

enqueue_at-AllInOrder :
    (m : QueueMsg) (o : Option ℕ) (s : State) → AllInOrder s → AllInOrder (enqueue_at m o s)
unfolding AllInOrder enqueue_at start
enqueue_at-AllInOrder m none s all =
    insert-each InOrder s.next (spawned m) s.tasks (spawned-InOrder m) all
enqueue_at-AllInOrder m (some n) s all =
    queue_on-AllInOrder m n (send m (get n s.tasks)) s
      (λ c. send-InOrder m (get n s.tasks) c (all n)) all

enqueue_inner-AllInOrder :
    (m : QueueMsg) (s : State) → AllInOrder s → AllInOrder (enqueue_inner m s)
unfolding enqueue_inner
enqueue_inner-AllInOrder m s all = enqueue_at-AllInOrder m (get (chat_of m) s.consumers) s all

put-AllInOrder :
    (n : ℕ) (c : Consumer) (s : State) → InOrder c → AllInOrder s → AllInOrder (put n c s)
unfolding AllInOrder put
put-AllInOrder n c s new all = insert-each InOrder n c s.tasks new all

module _ (process : ChatEvent → Bool) where
  Step-AllInOrder : {s t : State} → Step process s t → AllInOrder s → AllInOrder t
  unfolding AllInOrder process_one clean_up
  Step-AllInOrder (enqueues m) all = enqueue_inner-AllInOrder m _ all
  Step-AllInOrder {s = s} (processes n c m e f) all =
      put-AllInOrder n _ s (finish-InOrder c m f (all n c e)) all
  Step-AllInOrder {s = s} (takes n c m rest e f g) all =
      put-AllInOrder n _ s (receive-InOrder c m rest f g (all n c e)) all
  Step-AllInOrder {s = s} (stops n c e f g) all =
      put-AllInOrder n _ s (stop-InOrder c f (all n c e)) all
  Step-AllInOrder {s = s} (drops n c e f) all =
      put-AllInOrder n _ s (drop_receiver-InOrder c (all n c e)) all
  Step-AllInOrder {s = s} (cleans n c e f) all =
      put-AllInOrder n _ s (ended-InOrder c (all n c e)) all

  -- In every state that is reached from an empty queue, each consumer has processed a first part of
  -- the messages that it was handed, in their order; and as long as it can receive, what it
  -- was handed is what it has processed, then the message in its hands, then its channel.
  pub consumer-InOrder :
      (s : State)
      → Reachable process s
      → (n : ℕ) (c : Consumer) → get n s.tasks ≡ some c
      → InOrder c
  unfolding AllInOrder new_queue get
  consumer-InOrder _ begins n c e = absurd (none_is_not_some {a = c} e)
  consumer-InOrder _ (steps r x) n c e = Step-AllInOrder x (consumer-InOrder _ r) n c e
