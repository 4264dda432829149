-- ===== src/Session/Persistence.antt =====
-- What reaches the database, and when: persistence that is turned on late writes what persistence
-- from the start would have written.
use arcc.Base.{
  ℕ, ◌+◌, ◌≡◌, refl, ap, ◌∙◌, List, [], ◌∷◌, ◌++◌, map, append-nil, append_assoc, none, some, arith,
}
use arcc.Base.Text.{Text}
use arcc.Model.Types.{ChatMessage}
use arcc.Session.{
  healthy, Statement, upsert_session, update_summary, insert_message, touch_session, Session,
  with_db, new_session, back, persist_message, push_message, enable_persistence,
}

-- A row of the table `messages`, without its token count.
abbrev pub MessageRow : Type 0
MessageRow = Text × Text × Text

abbrev pub message_rows : List Statement → List MessageRow
message_rows [] = []
message_rows (insert_message id role content tokens ∷ out) = (id, role, content) ∷ message_rows out
message_rows (upsert_session id name mode ∷ out) = message_rows out
message_rows (update_summary id summary ∷ out) = message_rows out
message_rows (touch_session id ∷ out) = message_rows out

-- A run of `push_message` over messages with their token counts.
abbrev pub push_all : Session → List (ChatMessage × ℕ) → Session × List Statement
push_all s [] = (s, [])
push_all s ((m, tokens) ∷ rest) =
    let one = push_message s m tokens in
    let others = push_all one.0 rest in (others.0, one.1 ++ others.1)

abbrev row_of : Text → ChatMessage → MessageRow
row_of id m = (id, m.role, m.content)

abbrev total : List (ChatMessage × ℕ) → ℕ
total [] = 0
total ((m, tokens) ∷ rest) = tokens + total rest

abbrev sent : List (ChatMessage × ℕ) → List ChatMessage
sent = map λ p. p.0

abbrev grown : Session → List (ChatMessage × ℕ) → Session
grown s ps = record s { messages = s.messages ++ sent ps; token_count = s.token_count + total ps }

message_rows-append :
    (xs ys : List Statement) → message_rows (xs ++ ys) ≡ message_rows xs ++ message_rows ys
message_rows-append [] ys = refl
message_rows-append (insert_message id role content tokens ∷ xs) ys =
    ap (λ r. (id, role, content) ∷ r) (message_rows-append xs ys)
message_rows-append (upsert_session id name mode ∷ xs) ys = message_rows-append xs ys
message_rows-append (update_summary id summary ∷ xs) ys = message_rows-append xs ys
message_rows-append (touch_session id ∷ xs) ys = message_rows-append xs ys

back-append : (ms : List ChatMessage) (m : ChatMessage) → back (ms ++ m ∷ []) ≡ some m
unfolding back
back-append [] m = refl
back-append (n ∷ []) m = refl
back-append (n ∷ k ∷ ms) m = back-append (k ∷ ms) m

push_all-grown : (s : Session) (ps : List (ChatMessage × ℕ)) → (push_all s ps).0 ≡ grown s ps
unfolding push_message
push_all-grown s [] = ground (arith, append-nil s.messages)
push_all-grown s ((m, tokens) ∷ rest) =
    push_all-grown (push_message s m tokens).0 rest
    ∙ ground (arith, append_assoc s.messages (m ∷ []) (sent rest))

push_message-none :
    (s : Session) (m : ChatMessage) (tokens : ℕ) → s.db ≡ none → (push_message s m tokens).1 ≡ []
unfolding push_message persist_message with_db
push_message-none s m tokens e = ground arith

push_message-healthy :
    (s : Session) (m : ChatMessage) (tokens : ℕ)
    → s.db ≡ some healthy
    → message_rows (push_message s m tokens).1 ≡ row_of s.id m ∷ []
unfolding push_message persist_message with_db
push_message-healthy s m tokens e = ground (arith, back-append s.messages m)

db-push_message :
    (s : Session) (m : ChatMessage) (tokens : ℕ) → (push_message s m tokens).0.db ≡ s.db
unfolding push_message
db-push_message s m tokens = refl

id-push_message :
    (s : Session) (m : ChatMessage) (tokens : ℕ) → (push_message s m tokens).0.id ≡ s.id
unfolding push_message
id-push_message s m tokens = refl

push_all-none : (s : Session) (ps : List (ChatMessage × ℕ)) → s.db ≡ none → (push_all s ps).1 ≡ []
push_all-none s [] e = refl
push_all-none s ((m, tokens) ∷ rest) e =
    rw (push_message-none s m tokens e)
      (push_all-none (push_message s m tokens).0 rest (db-push_message s m tokens ∙ e))

push_all-healthy :
    (s : Session) (ps : List (ChatMessage × ℕ))
    → s.db ≡ some healthy
    → message_rows (push_all s ps).1 ≡ map (row_of s.id) (sent ps)
push_all-healthy s [] e = refl
push_all-healthy s ((m, tokens) ∷ rest) e =
    let one = push_message s m tokens in
    message_rows-append one.1 (push_all one.0 rest).1
    ∙ rw (
      push_message-healthy s m tokens e,
      push_all-healthy one.0 rest (db-push_message s m tokens ∙ e),
      id-push_message s m tokens,
    )

message_rows-map :
    (id : Text) (ms : List ChatMessage) (out : List Statement)
    → message_rows (map (λ m. insert_message id m.role m.content none) ms ++ out)
      ≡ map (row_of id) ms ++ message_rows out
message_rows-map id [] out = refl
message_rows-map id (m ∷ ms) out = ap (λ r. row_of id m ∷ r) (message_rows-map id ms out)

-- A session that is kept in memory first and persisted later ends in the same state, and has
-- written the same messages in the same order, as one that is persisted from the start.
pub enable_persistence-late :
    (id name mode : Text) (limit : ℕ) (ps : List (ChatMessage × ℕ))
    → let early = push_all (new_session id name mode limit (some healthy)).0 ps in
      let late = push_all (new_session id name mode limit none).0 ps in
      let turned_on = enable_persistence late.0 healthy in
      (turned_on.0 ≡ early.0) × (message_rows (late.1 ++ turned_on.1) ≡ message_rows early.1)
unfolding new_session enable_persistence with_db
enable_persistence-late id name mode limit ps =
    let first = (new_session id name mode limit none).0 in
    let early = (new_session id name mode limit (some healthy)).0 in
    (
      rw (push_all-grown first ps, push_all-grown early ps),
      rw (push_all-none first ps refl, push_all-healthy early ps refl, push_all-grown first ps)
          (message_rows-map id (sent ps) (touch_session id ∷ [])
            ∙ append-nil (map (row_of id) (sent ps))),
    )
