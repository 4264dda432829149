-- ===== src/Acp/Dispatch/Cancellation.antt =====
-- crates/arcc-acp/src/session.rs and lib.rs: a cancellation and the token that a turn listens to.
use arcc.Base.{
  ℕ, ◌+◌, ◌<◌, ◌≡◌, refl, ◌⊎◌, inl, inr, List, ◌∷◌, some, nat_Eq, nat_eq_iff, arith, All, Listed,
  All-Listed,
}
use arcc.Base.Maps.{get, insert}
use arcc.Acp.Sessions.{AcpSessionHandle, Turn, Server, with_handle, cancel, fresh_cancel_token}
use arcc.Acp.Dispatch.{begin_turn}
use arcc.Acp.Dispatch.Parts.{get-insert_here}

-- The tokens that a state names were made before.
abbrev pub IsOld : Server → AcpSessionHandle → Type 0
IsOld s a = All (λ c. c < s.next) s.cancelled × (a.cancel < s.next)

cancel-get :
    (n : ℕ) (s : Server) (a : AcpSessionHandle)
    → get n s.handles ≡ some a
    → cancel n s ≡ record s { cancelled = a.cancel ∷ s.cancelled }
unfolding cancel
cancel-get n s a e = rw (e, cancel) refl

begin_turn-get :
    (t : Turn) (others : List Turn) (s : Server) (a : AcpSessionHandle)
    → get t.handle s.handles ≡ some a
    → begin_turn t others s ≡ record s {
      next = s.next + 1;
      handles = insert t.handle (record a { cancel = s.next }) s.handles;
      turns = record t { token = some s.next } ∷ others;
    }
unfolding begin_turn fresh_cancel_token with_handle
begin_turn-get t others s a e = rw (e, with_handle) refl

-- A turn listens to a new token from its beginning on. A cancellation of its session after that
-- cancels this token; one that comes between the prompt and the beginning does not, so it is lost.
pub cancel-begin_turn :
    (t : Turn) (others : List Turn) (s : Server) (a : AcpSessionHandle)
    → get t.handle s.handles ≡ some a
    → IsOld s a
    → let after = cancel t.handle (begin_turn t others s) in
      let before = begin_turn t others (cancel t.handle s) in
      let begun = record t { token = some s.next } ∷ others in
      ((after.turns ≡ begun) × Listed s.next after.cancelled)
      × ((before.turns ≡ begun) × (Listed s.next before.cancelled → ⊥))
cancel-begin_turn t others s a e (old, own) =
    let a' : AcpSessionHandle = record a { cancel = s.next } in
    let here =
      get-insert_here t.handle t.handle a' s.handles ((nat_eq_iff t.handle t.handle).1 refl) in
    let began : Server = record s {
      next = s.next + 1;
      handles = insert t.handle a' s.handles;
      turns = record t { token = some s.next } ∷ others;
    } in
    let stopped : Server = record s { cancelled = a.cancel ∷ s.cancelled } in
    (
      rw (begin_turn-get t others s a e, cancel-get t.handle began a' here) (refl, inl refl),
      rw (cancel-get t.handle s a e, begin_turn-get t others stopped a e) (refl, λ l. new l),
    )
  where
    new : (a.cancel ≡ s.next) ⊎ Listed s.next s.cancelled → ⊥
    new (inl same) = omega arith
    new (inr l) = let below = All-Listed (λ c. c < s.next) s.cancelled old l in omega arith
