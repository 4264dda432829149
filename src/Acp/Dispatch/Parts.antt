-- ===== src/Acp/Dispatch/Parts.antt =====
-- crates/arcc-acp/src/session.rs: the handles, the registry and the turns of a server, and when each running
-- flag stands for one turn.
use arcc.Base.{
  none_is_not_some, some_same, ℕ, ◌+◌, ◌≤◌, ◌<◌, ◌≡◌, refl, ap, ◌∙◌, inl, inr, Bool, true, false,
  List, [], ◌∷◌, ◌++◌, Option, none, some, ◌==◌, nat_eq, nat_Eq, list_Eq, leb, leb→le, nat_eq_iff,
  if◌then◌else◌, Bool-cases, Option-cases, arith,
}
use arcc.Base.Text.{Text}
use arcc.Base.Maps.{Map, get, insert, remove, get-insert, get-remove}
use arcc.Acp.Sessions.{AcpSessionHandle, Turn}

abbrev pub Handles : Type 0
Handles = Map ℕ AcpSessionHandle

abbrev pub flag : Option AcpSessionHandle → Bool
flag none = false
flag (some h) = h.running

abbrev pub one_if : Bool → ℕ
one_if true = 1
one_if false = 0

abbrev pub count_turns : ℕ → List Turn → ℕ
count_turns n [] = 0
count_turns n (t ∷ ts) = one_if (nat_eq t.handle n) + count_turns n ts

-- A handle's flag is set exactly while one turn of it goes on, and no handle has two; a number
-- from `next` on is not in use; the registry names handles that exist.
pub record Guarded (handles : Handles) (sessions : Map Text ℕ) (next : ℕ) (turns : List Turn)
    : Type 0 where
  pub guarded : (n : ℕ) → count_turns n turns ≡ one_if (flag (get n handles))
  pub unused : (n : ℕ) → next ≤ n → get n handles ≡ none
  pub alive :
      (id : Text) (n : ℕ)
      → get id sessions ≡ some n
      → (h : AcpSessionHandle) × (get n handles ≡ some h)

pub get-insert_here :
    (n k : ℕ) (h : AcpSessionHandle) (m : Handles)
    → nat_eq n k ≡ true
    → get k (insert n h m) ≡ some h
get-insert_here n k h m same = get-insert n k h m ∙ rw same refl

get-insert_other :
    (n k : ℕ) (h : AcpSessionHandle) (m : Handles)
    → nat_eq n k ≡ false
    → get k (insert n h m) ≡ get k m
get-insert_other n k h m other = get-insert n k h m ∙ rw other refl

pub count_turns-append :
    (n : ℕ) (ts us : List Turn) → count_turns n (ts ++ us) ≡ count_turns n ts + count_turns n us
count_turns-append n [] us = omega arith
count_turns-append n (t ∷ ts) us = omega (arith, count_turns-append n ts us)

module _ {handles : Handles} {sessions : Map Text ℕ} {next : ℕ} {turns : List Turn}
    (g : Guarded handles sessions next turns) where
  pub in_use : (n : ℕ) (h : AcpSessionHandle) → get n handles ≡ some h → n < next
  in_use n h e = elim (Bool-cases (leb next n)) [
    | inl over ↦ let gone = g.unused n (leb→le next n over) in cc
    | inr under ↦ ground arith
  ]

  count_of :
      (n : ℕ) (a : AcpSessionHandle) (k : ℕ)
      → get n handles ≡ some a
      → nat_eq n k ≡ true
      → count_turns k turns ≡ one_if a.running
  count_of n a k e here =
      let same = (nat_eq_iff n k).0 here in rw (← same) (g.guarded n ∙ ap (λ x. one_if (flag x)) e)

  -- A handle is written: the turns of it agree with its flag, the others are as before.
  pub put_handle :
      (n : ℕ) (h : AcpSessionHandle) (next' : ℕ) (turns' : List Turn)
      → n < next'
      → next ≤ next'
      → ((k : ℕ)
          → count_turns k turns' ≡ (if nat_eq n k then one_if h.running else count_turns k turns))
      → Guarded (insert n h handles) sessions next' turns'
  put_handle n h next' turns' used grows agrees = record {
    guarded = λ k. agree k;
    unused = λ k b. get-insert_other n k h handles (ground arith) ∙ g.unused k (omega arith);
    alive = λ id k e. there k (g.alive id k e);
  }
    where
      agree : (k : ℕ) → count_turns k turns' ≡ one_if (flag (get k (insert n h handles)))
      agree k = elim (Bool-cases (nat_eq n k)) [
        | inl same ↦ agrees k ∙ rw (same, get-insert_here n k h handles same) refl
        | inr other ↦ agrees k ∙ rw (other, get-insert_other n k h handles other) (g.guarded k)
      ]

      there :
          (k : ℕ)
          → (x : AcpSessionHandle) × (get k handles ≡ some x)
          → (x : AcpSessionHandle) × (get k (insert n h handles) ≡ some x)
      there k (x, e) = elim (Bool-cases (nat_eq n k)) [
        | inl same ↦ (h, get-insert_here n k h handles same)
        | inr other ↦ (x, get-insert_other n k h handles other ∙ e)
      ]

  -- A field of a handle other than its flag is written.
  pub update_handle :
      (n : ℕ) (a h : AcpSessionHandle) (next' : ℕ)
      → get n handles ≡ some a
      → h.running ≡ a.running
      → next ≤ next'
      → Guarded (insert n h handles) sessions next' turns
  update_handle n a h next' e same grows =
      let used = in_use n a e in put_handle n h next' turns (omega arith) grows (λ k. kept k)
    where
      kept :
          (k : ℕ)
          → count_turns k turns ≡ (if nat_eq n k then one_if h.running else count_turns k turns)
      kept k = elim (Bool-cases (nat_eq n k)) [
        | inl here ↦ rw (here, same) (count_of n a k e here)
        | inr other ↦ rw other refl
      ]

  -- The flag of a handle is set and a turn of it is added.
  pub add_turn :
      (n : ℕ) (a h : AcpSessionHandle) (t : Turn)
      → get n handles ≡ some a
      → a.running ≡ false
      → h.running ≡ true
      → t.handle ≡ n
      → Guarded (insert n h handles) sessions next (turns ++ t ∷ [])
  add_turn n a h t e idle busy same =
      put_handle n h next (turns ++ t ∷ []) (in_use n a e) (omega arith) (λ k. more k)
    where
      more :
          (k : ℕ)
          → count_turns k (turns ++ t ∷ [])
            ≡ (if nat_eq n k then one_if h.running else count_turns k turns)
      more k = elim (Bool-cases (nat_eq n k)) [
        | inl here ↦
            let none_yet = count_of n a k e here in
            count_turns-append k turns (t ∷ []) ∙ rw (same, here, busy, none_yet, idle) refl
        | inr other ↦ count_turns-append k turns (t ∷ []) ∙ rw (same, other) (omega arith)
      ]

  -- A turn ends and its flag is cleared.
  pub drop_turn :
      (t : Turn) (others : List Turn) (a h : AcpSessionHandle)
      → ((k : ℕ) → count_turns k turns ≡ one_if (nat_eq t.handle k) + count_turns k others)
      → get t.handle handles ≡ some a
      → h.running ≡ false
      → Guarded (insert t.handle h handles) sessions next others
  drop_turn t others a h split e idle =
      put_handle t.handle h next others (in_use t.handle a e) (omega arith) (λ k. less k)
    where
      at_most : (b : Bool) → one_if b ≤ 1
      at_most true = omega arith
      at_most false = omega arith

      less :
          (k : ℕ)
          → count_turns k others
            ≡ (if nat_eq t.handle k then one_if h.running else count_turns k turns)
      less k = elim (Bool-cases (nat_eq t.handle k)) [
        | inl here ↦
            let one = count_of t.handle a k e here in
            let parts = split k in
            rw (here, idle) (omega (arith, at_most a.running, rw here at parts))
        | inr other ↦ let parts = split k in rw other (omega (arith, rw other at parts))
      ]

  -- A turn that goes on has a handle, whose flag is set.
  pub turn_handle :
      (t : Turn) (others : List Turn)
      → ((k : ℕ) → count_turns k turns ≡ one_if (nat_eq t.handle k) + count_turns k others)
      → (a : AcpSessionHandle) × (get t.handle handles ≡ some a)
  turn_handle t others split =
      let counted = split t.handle in
      let own = rw ((nat_eq_iff t.handle t.handle).1 refl) at counted in
      elim (Option-cases (get t.handle handles)) [
        | inl e ↦ let zero_turns = rw e at (g.guarded t.handle) in absurd (omega arith)
        | inr (a, e) ↦ (a, e)
      ]

  -- A new handle, under a new number and an id.
  pub new_session :
      (id : Text) (h : AcpSessionHandle)
      → h.running ≡ false
      → Guarded (insert next h handles) (insert id next sessions) (next + 1) turns
  new_session id h idle =
      let more = put_handle next h (next + 1) turns (omega arith) (omega arith) (λ k. no_turns k) in
      record {
        guarded = more.guarded;
        unused = more.unused;
        alive = λ i n e. named i n e more.alive;
      }
    where
      no_turns :
          (k : ℕ)
          → count_turns k turns ≡ (if nat_eq next k then one_if h.running else count_turns k turns)
      no_turns k = elim (Bool-cases (nat_eq next k)) [
        | inl here ↦
            let same = (nat_eq_iff next k).0 here in
            rw (here, idle) (g.guarded k ∙ rw (g.unused k (omega arith)) refl)
        | inr other ↦ rw other refl
      ]

      named :
          (i : Text) (n : ℕ)
          → get i (insert id next sessions) ≡ some n
          → ((j : Text) (k : ℕ)
              → get j sessions ≡ some k
              → (x : AcpSessionHandle) × (get k (insert next h handles) ≡ some x))
          → (x : AcpSessionHandle) × (get n (insert next h handles) ≡ some x)
      named i n e old = elim (Bool-cases (id == i)) [
        | inl same ↦
            let new : some next ≡ some n = rw (get-insert id i next sessions, same) at e in
            (h, get-insert_here next n h handles ((nat_eq_iff next n).1 (some_same new)))
        | inr other ↦ old i n (rw (get-insert id i next sessions, other) at e)
      ]

  pub remove_session : (id : Text) → Guarded handles (remove id sessions) next turns
  remove_session id = record {
    guarded = g.guarded;
    unused = g.unused;
    alive = λ i n e. named i n e;
  }
    where
      named :
          (i : Text) (n : ℕ)
          → get i (remove id sessions) ≡ some n
          → (x : AcpSessionHandle) × (get n handles ≡ some x)
      named i n e = elim (Bool-cases (id == i)) [
        | inl same ↦ absurd (none_is_not_some (rw (get-remove id i sessions, same) at e))
        | inr other ↦ g.alive i n (rw (get-remove id i sessions, other) at e)
      ]

  -- Turns that are as many for each handle.
  pub same_turns :
      (turns' : List Turn)
      → ((k : ℕ) → count_turns k turns' ≡ count_turns k turns)
      → Guarded handles sessions next turns'
  same_turns turns' same = record {
    guarded = λ k. same k ∙ g.guarded k;
    unused = g.unused;
    alive = g.alive;
  }
