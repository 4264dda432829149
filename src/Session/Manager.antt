-- ===== src/Session/Manager.antt =====
-- crates/arcc-core/src/session.rs, `SessionManager`: the live sessions by id. A session that another
-- task is writing to is busy. The order of a hash map is the order of the list here, which is
-- arbitrary; a new id comes from `uuid` and is an argument.
use arcc.Base.{
  ℕ, suc, ◌≤◌, ◌≡◌, refl, ◌⊎◌, inl, inr, Bool, true, false, not, ◌&&◌, List, [], ◌∷◌, ◌++◌, Option,
  none, some, arith, ◌==◌, list_Eq, ==_refl, ==_iff, if◌then◌else◌, Bool-cases, Option-cases,
  length, All, keep_if,
}
use arcc.Base.Text.{Text}
use arcc.Base.Maps.{Map, get, insert, remove}
use arcc.Model.Types.{ChatMessage}
use arcc.Model.Provider.{ModelProvider}
use arcc.Session.{Connection, Statement, Session, new_session, needs_compression, compress}
use arcc.Session.Budget.{compress_bounded}

-- A shared session and whether its lock is held for writing.
pub record Slot : Type 0 where
  pub session : Session
  pub busy : Bool

pub record SessionManager : Type 0 where
  pub sessions : Map Text Slot
  pub context_max_tokens : ℕ
  pub db : Option Connection

unfoldable pub new_manager : ℕ → SessionManager
new_manager limit = record { sessions = []; context_max_tokens = limit; db = none }

unfoldable pub with_db : ℕ → Connection → SessionManager
with_db limit db = record { sessions = []; context_max_tokens = limit; db = some db }

unfoldable pub set_db : SessionManager → Connection → SessionManager
set_db g db = record g { db = some db }

-- The id of the new session is the first argument.
unfoldable pub create : Text → SessionManager → Text → Text → SessionManager × Slot × List Statement
unfolding new_session insert
create id g name mode =
    let one = new_session id name mode g.context_max_tokens g.db in
    let slot : Slot = record { session = one.0; busy = false } in
    (record g { sessions = insert id slot g.sessions }, slot, one.1)

unfoldable pub find : SessionManager → Text → Option Slot
unfolding get
find g id = get id g.sessions

-- `try_read` fails on a busy session, which is passed over.
abbrev is_named : Text → Slot → Bool
is_named name slot = not slot.busy && (slot.session.name == name)

unfoldable pub find_named : Text → Map Text Slot → Option Slot
find_named name [] = none
find_named name ((id, slot) ∷ m) = if is_named name slot then some slot else find_named name m

unfoldable pub find_by_name : SessionManager → Text → Option Slot
unfolding find_named
find_by_name g name = find_named name g.sessions

unfoldable pub get_or_create :
    Text → SessionManager → Text → Text → SessionManager × Slot × List Statement
unfolding find_by_name create
get_or_create id g name mode = elim (find_by_name g name) [
  | some slot ↦ (g, slot, [])
  | none ↦ create id g name mode
]

unfoldable pub remove_session : SessionManager → Text → SessionManager
unfolding remove
remove_session g id = record g { sessions = remove id g.sessions }

unfoldable pub count : SessionManager → ℕ
count g = length g.sessions

-- One round of the loop of `compress_all`, which waits for the lock of the session.
unfoldable pub compress_slot : ChatMessage → ModelProvider → Slot → Slot × List Statement
unfolding needs_compression compress
compress_slot template flash slot =
    let one = compress template flash slot.session in
    if needs_compression slot.session then (record slot { session = one.0 }, one.1) else (slot, [])

unfoldable pub compress_slots :
    ChatMessage → ModelProvider → Map Text Slot → Map Text Slot × List Statement
unfolding compress_slot
compress_slots template flash [] = ([], [])
compress_slots template flash ((id, slot) ∷ m) =
    let one = compress_slot template flash slot in
    let others = compress_slots template flash m in ((id, one.0) ∷ others.0, one.1 ++ others.1)

unfoldable pub compress_all :
    ChatMessage → ModelProvider → SessionManager → SessionManager × List Statement
unfolding compress_slots
compress_all template flash g =
    let all = compress_slots template flash g.sessions in (record g { sessions = all.0 }, all.1)

-- The budget of a session is kept, or at most two messages are left.
abbrev pub WithinBudget : Text × Slot → Type 0
WithinBudget (id, slot) =
    (slot.session.token_count ≤ slot.session.context_max_tokens)
    ⊎ (length slot.session.messages ≤ 2)

compress_slot-WithinBudget :
    (template : ChatMessage) (flash : ModelProvider) (id : Text) (slot : Slot)
    → WithinBudget (id, (compress_slot template flash slot).0)
unfolding compress_slot needs_compression
compress_slot-WithinBudget template flash id slot =
    elim (Bool-cases (needs_compression slot.session)) [
      | inl over ↦ rw over (compress_bounded template flash slot.session)
      | inr under ↦ rw under (inl (ground arith))
    ]

compress_slots-WithinBudget :
    (template : ChatMessage) (flash : ModelProvider) (m : Map Text Slot)
    → All WithinBudget (compress_slots template flash m).0
unfolding compress_slots
compress_slots-WithinBudget template flash [] = tt
compress_slots-WithinBudget template flash ((id, slot) ∷ m) = (
  compress_slot-WithinBudget template flash id slot,
  compress_slots-WithinBudget template flash m,
)

-- After the hourly compression every live session is within its budget or has at most two
-- messages, whatever the model answers.
pub compress_all-WithinBudget :
    (template : ChatMessage) (flash : ModelProvider) (g : SessionManager)
    → All WithinBudget (compress_all template flash g).0.sessions
unfolding compress_all
compress_all-WithinBudget template flash g = compress_slots-WithinBudget template flash g.sessions

find_named-insert :
    (name id : Text) (slot : Slot) (m : Map Text Slot)
    → find_named name m ≡ none
    → is_named name slot ≡ true
    → find_named name (insert id slot m) ≡ some slot
unfolding find_named insert
find_named-insert name id slot [] e h = ground arith
find_named-insert name id slot ((j, w) ∷ m) e h = ground (arith, find_named-insert name id slot m)

get_or_create_found :
    (id : Text) (g : SessionManager) (name mode : Text) (slot : Slot)
    → find_by_name g name ≡ some slot
    → get_or_create id g name mode ≡ (g, slot, [])
unfolding get_or_create
get_or_create_found id g name mode slot e = rw (e, get_or_create)

get_or_create_missing :
    (id : Text) (g : SessionManager) (name mode : Text)
    → find_by_name g name ≡ none
    → get_or_create id g name mode ≡ create id g name mode
unfolding get_or_create
get_or_create_missing id g name mode e = rw (e, get_or_create)

find_by_name-create :
    (id : Text) (g : SessionManager) (name mode : Text)
    → find_by_name g name ≡ none
    → find_by_name (create id g name mode).0 name ≡ some (create id g name mode).1
unfolding find_by_name create new_session
find_by_name-create id g name mode e = find_named-insert name id _ g.sessions e (==_refl name)

-- Asking twice for a session by name, with nothing in between, yields the same session, and the
-- second time creates nothing and runs no statement.
pub get_or_create_again :
    (id id' : Text) (g : SessionManager) (name mode mode' : Text)
    → let one = get_or_create id g name mode in
      get_or_create id' one.0 name mode' ≡ (one.0, one.1, [])
get_or_create_again id id' g name mode mode' = elim (Option-cases (find_by_name g name)) [
  | inr (slot, found) ↦
      rw (get_or_create_found id g name mode slot found)
        (get_or_create_found id' g name mode' slot found)
  | inl missing ↦ rw (get_or_create_missing id g name mode missing) (
      get_or_create_found id' (create id g name mode).0 name mode' (create id g name mode).1
        (find_by_name-create id g name mode missing))
]

abbrev pub session_count : Text → Map Text Slot → ℕ
session_count name m = length (keep_if (λ e. e.1.session.name == name) m)

session_count-insert :
    (name id : Text) (slot : Slot) (m : Map Text Slot)
    → get id m ≡ none
    → (slot.session.name == name) ≡ true
    → session_count name (insert id slot m) ≡ suc (session_count name m)
unfolding get insert
session_count-insert name id slot [] e h = ground arith
session_count-insert name id slot ((j, w) ∷ m) e h =
    ground (arith, session_count-insert name id slot m)

-- All sessions of the name are busy.
abbrev pub AllBusy : Text → Map Text Slot → Type 0
AllBusy name m = All (λ (e : Text × Slot). e.1.session.name ≡ name → e.1.busy ≡ true) m

find_named_busy : (name : Text) (m : Map Text Slot) → AllBusy name m → find_named name m ≡ none
unfolding find_named
find_named_busy name [] busy = refl
find_named_busy name ((id, slot) ∷ m) (b, busy) =
    ground (arith, find_named_busy name m busy, ==_iff slot.session.name name, b)

-- If all sessions of a name are busy, none is found by the name. If there is at least one, asking for
-- the name with a fresh id then makes one more session of it: the session that is returned has the
-- fresh id, and it is the one that is found by the name afterwards.
pub get_or_create_busy :
    (id : Text) (g : SessionManager) (name mode : Text)
    → get id g.sessions ≡ none
    → AllBusy name g.sessions
    → 1 ≤ session_count name g.sessions
    → let r = get_or_create id g name mode in
      (find_by_name g name ≡ none)
      × (session_count name r.0.sessions ≡ suc (session_count name g.sessions))
      × (r.1.session.id ≡ id)
      × (find_by_name r.0 name ≡ some r.1)
unfolding create new_session find_by_name
get_or_create_busy id g name mode fresh busy h =
    let unseen = find_named_busy name g.sessions busy in
    (
      unseen,
      rw (get_or_create_missing id g name mode unseen)
          (session_count-insert name id _ g.sessions fresh (==_refl name)),
      rw (get_or_create_missing id g name mode unseen) refl,
      rw (get_or_create_missing id g name mode unseen) (find_by_name-create id g name mode unseen),
    )
