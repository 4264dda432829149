-- ===== src/Memory/Facts.antt =====
-- crates/arcc-core/src/memory.rs: what is known under a key, and how many rows there are.
use arcc.Base.{
  ℕ, ◌≤◌, ◌≡◌, refl, ◌∙◌, inl, inr, Bool, ◌&&◌, List, [], ◌∷◌, Option, none, some, leb, leb→le,
  ◌==◌, ==_iff, list_Eq, if◌then◌else◌, length, keep_if, Bool-cases, arith, All,
}
use arcc.Base.Text.{Text}
use arcc.Memory.{MemoryFact, is_at, is_of, set, place, newest_first, list, delete, clear}

-- What is known under a key of a user.
abbrev pub value_at : Text → Text → List MemoryFact → Option Text
value_at user_id key [] = none
value_at user_id key (f ∷ fs) =
    if is_at user_id key f then some f.value else value_at user_id key fs

abbrev same_place : Text → Text → Text → Text → Bool
same_place user_id key u k = (user_id == u) && (key == k)

value_at-set :
    (clock : ℕ) (user_id key value source u k : Text) (fs : List MemoryFact)
    → value_at u k (set clock user_id key value source fs)
      ≡ (if same_place user_id key u k then some value else value_at u k fs)
unfolding set
value_at-set clock user_id key value source u k [] = refl
value_at-set clock user_id key value source u k (f ∷ fs) = ground (
  arith,
  ==_iff f.user_id user_id,
  ==_iff f.key key,
  ==_iff f.user_id u,
  ==_iff f.key k,
  ==_iff user_id u,
  ==_iff key k,
  value_at-set clock user_id key value source u k fs,
)

value_at-delete :
    (user_id key u k : Text) (fs : List MemoryFact)
    → value_at u k (delete user_id key fs).1
      ≡ (if same_place user_id key u k then none else value_at u k fs)
unfolding delete
value_at-delete user_id key u k [] = ground arith
value_at-delete user_id key u k (f ∷ fs) = ground (
  arith,
  ==_iff f.user_id user_id,
  ==_iff f.key key,
  ==_iff f.user_id u,
  ==_iff f.key k,
  ==_iff user_id u,
  ==_iff key k,
  value_at-delete user_id key u k fs,
)

value_at-clear :
    (user_id u k : Text) (fs : List MemoryFact)
    → value_at u k (clear user_id fs).1 ≡ (if user_id == u then none else value_at u k fs)
unfolding clear
value_at-clear user_id u k [] = ground arith
value_at-clear user_id u k (f ∷ fs) = ground (
  arith,
  ==_iff f.user_id user_id,
  ==_iff f.user_id u,
  ==_iff user_id u,
  value_at-clear user_id u k fs,
)

-- The rows are a map from user and key to a value: a set value is what is known afterwards, a
-- deleted key and the keys of a cleared user are unknown, and no other key is touched.
pub value_at-operations :
    (clock : ℕ) (user_id key value source u k : Text) (fs : List MemoryFact)
    → (value_at u k (set clock user_id key value source fs)
        ≡ (if (user_id == u) && (key == k) then some value else value_at u k fs))
      × (value_at u k (delete user_id key fs).1
          ≡ (if (user_id == u) && (key == k) then none else value_at u k fs))
      × (value_at u k (clear user_id fs).1 ≡ (if user_id == u then none else value_at u k fs))
value_at-operations clock user_id key value source u k fs = (
  value_at-set clock user_id key value source u k fs,
  value_at-delete user_id key u k fs,
  value_at-clear user_id u k fs,
)

-- Each row was updated no earlier than those behind it.
abbrev IsSorted : List MemoryFact → Type 0
IsSorted [] = Unit
IsSorted (f ∷ fs) = All (λ h. h.updated_at ≤ f.updated_at) fs × IsSorted fs

-- How many rows satisfy a test.
abbrev count : (MemoryFact → Bool) → List MemoryFact → ℕ
count p fs = length (keep_if p fs)

count-place :
    (p : MemoryFact → Bool) (f : MemoryFact) (fs : List MemoryFact)
    → count p (place f fs) ≡ count p (f ∷ fs)
unfolding place
count-place p f [] = refl
count-place p f (h ∷ hs) = ground (arith, count-place p f hs)

All-place :
    (n : ℕ) (f : MemoryFact) (fs : List MemoryFact)
    → f.updated_at ≤ n
    → All (λ h. h.updated_at ≤ n) fs
    → All (λ h. h.updated_at ≤ n) (place f fs)
unfolding place
All-place n f [] small all = (small, tt)
All-place n f (h ∷ hs) small all = elim (Bool-cases (leb h.updated_at f.updated_at)) [
  | inl first ↦ rw first (small, all)
  | inr later ↦ rw later (all.0, All-place n f hs small all.1)
]

All-weaken :
    (m n : ℕ) (fs : List MemoryFact)
    → m ≤ n
    → All (λ h. h.updated_at ≤ m) fs
    → All (λ h. h.updated_at ≤ n) fs
All-weaken m n [] le all = tt
All-weaken m n (f ∷ fs) le all = (omega arith, All-weaken m n fs le all.1)

place-IsSorted : (f : MemoryFact) (fs : List MemoryFact) → IsSorted fs → IsSorted (place f fs)
unfolding place
place-IsSorted f [] sorted = (tt, tt)
place-IsSorted f (h ∷ hs) sorted = elim (Bool-cases (leb h.updated_at f.updated_at)) [
  | inl first ↦
      let le = leb→le h.updated_at f.updated_at first in
      rw first ((le, All-weaken h.updated_at f.updated_at hs le sorted.0), sorted)
  | inr later ↦
      rw later (All-place h.updated_at f hs (ground arith) sorted.0, place-IsSorted f hs sorted.1)
]

newest_first-IsSorted :
    (fs : List MemoryFact)
    → IsSorted (newest_first fs)
      × ((p : MemoryFact → Bool) → count p (newest_first fs) ≡ count p fs)
unfolding newest_first
newest_first-IsSorted [] = (tt, λ p. refl)
newest_first-IsSorted (f ∷ fs) =
    let (sorted, same) = newest_first-IsSorted fs in
    (
      place-IsSorted f (newest_first fs) sorted,
      λ p. count-place p f (newest_first fs) ∙ ground (arith, same p),
    )

-- A user's facts are listed latest update first, and they are the user's rows, each as often.
list-IsSorted :
    (user_id : Text) (fs : List MemoryFact)
    → IsSorted (list user_id fs)
      × ((p : MemoryFact → Bool) → count p (list user_id fs) ≡ count p (keep_if (is_of user_id) fs))
unfolding list
list-IsSorted user_id fs = newest_first-IsSorted (keep_if (is_of user_id) fs)
