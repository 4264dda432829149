-- ===== src/Acp/Sessions.antt =====
-- crates/arcc-acp/src/session.rs: the sessions of the agent. A handle that is shared is a number, and
-- what it stands for a map, since a turn keeps a handle that was removed; so is a
-- cancellation token. A conversation itself is not part of a handle here, but its id is.
use arcc.Base.{ℕ, ◌+◌, Bool, false, List, ◌∷◌, Option, none, some, nat_Eq, list_Eq}
use arcc.Base.Text.{Text, codes}
use arcc.Base.Maps.{Map, get, insert, remove}
use arcc.Model.Json.{Value}
use arcc.Session.Manager.{SessionManager, create, remove_session}
use arcc.Acp.{PermRegistry}

pub record AcpSessionHandle : Type 0 where
  pub id : Text
  pub cwd : Text
  pub cancel : ℕ
  pub running : Bool
  pub model_pref : Option Text

-- A turn of a session that was spawned and has not ended: the id to answer, the handle, the text, and
-- the token that it listens to once it has begun.
pub record Turn : Type 0 where
  pub id : Value
  pub handle : ℕ
  pub text : Text
  pub token : Option ℕ

-- The state that the tasks of the server share. `next` is the next handle or token, `cancelled` the
-- tokens that were cancelled, `out` what was sent to the writer.
pub record Server : Type 0 where
  pub handles : Map ℕ AcpSessionHandle
  pub sessions : Map Text ℕ
  pub next : ℕ
  pub cancelled : List ℕ
  pub core : SessionManager
  pub perms : PermRegistry
  pub turns : List Turn
  pub out : List Value

abbrev new_handle : Text → Text → ℕ → AcpSessionHandle
new_handle id cwd token = record {
  id = id;
  cwd = cwd;
  cancel = token;
  running = false;
  model_pref = none;
}

-- `AcpSessionRegistry::create`, with the id that `uuid` made.
unfoldable pub create_session : Text → Text → Server → Server
unfolding insert create
create_session id cwd s = record s {
  core = (create id s.core (codes "acp") (codes "acp")).0;
  handles = insert s.next (new_handle id cwd s.next) s.handles;
  sessions = insert id s.next s.sessions;
  next = s.next + 1;
}

-- `AcpSessionRegistry::get`
unfoldable pub find_session : Text → Server → Option ℕ
unfolding get
find_session id s = get id s.sessions

unfoldable pub with_handle : ℕ → (AcpSessionHandle → AcpSessionHandle) → Server → Server
unfolding get insert
with_handle n f s = elim (get n s.handles) [
  | none ↦ s
  | some h ↦ record s { handles = insert n (f h) s.handles }
]

unfoldable pub is_running : ℕ → Server → Bool
unfolding get
is_running n s = elim (get n s.handles) [ none ↦ false | some h ↦ h.running ]

unfoldable pub set_running : ℕ → Bool → Server → Server
unfolding with_handle
set_running n b s = with_handle n (λ h. record h { running = b }) s

unfoldable pub set_model : ℕ → Text → Server → Server
unfolding with_handle
set_model n value s = with_handle n (λ h. record h { model_pref = some value }) s

-- `AcpSessionHandle::cancel`: it cancels the token that the handle has now.
unfoldable pub cancel : ℕ → Server → Server
unfolding get
cancel n s = elim (get n s.handles) [
  | none ↦ s
  | some h ↦ record s { cancelled = h.cancel ∷ s.cancelled }
]

unfoldable pub fresh_cancel_token : ℕ → Server → ℕ × Server
unfolding with_handle
fresh_cancel_token n s =
    (s.next, with_handle n (λ h. record h { cancel = s.next }) (record s { next = s.next + 1 }))

-- `AcpSessionRegistry::remove`
unfoldable pub remove_handle : Text → Server → Option ℕ × Server
unfolding find_session cancel remove remove_session
remove_handle id s = elim (find_session id s) [
  | none ↦ (none, s)
  | some n ↦
      let gone = cancel n (record s { sessions = remove id s.sessions }) in
      (some n, record gone { core = remove_session gone.core id })
]
