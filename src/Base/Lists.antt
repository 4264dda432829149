-- ===== src/Base/Lists.antt =====
-- Lists measured by native numbers, Boolean searches, and predicates on all entries.
use Prim.Native.Nat.{ℕ, zero, suc, ◌+◌, ◌-◌}
use mathlib.Core.Path.{◌≡◌, refl, ap, subst}
use mathlib.Core.Bool.{Bool, true, false, ◌||◌}
use mathlib.Core.Logic.{◌⊎◌, inl, inr}
use mathlib.Core.List.{List, [], ◌∷◌, ◌++◌}
use native.Mathlib.Omega.{arith}
use arcc.Base.Tests.{if◌then◌else◌, Bool-cases}

module _ {ℓ} {A : Type ℓ} where
  abbrev pub length : List A → ℕ
  length [] = 0
  length (x ∷ xs) = suc (length xs)

  abbrev pub take : ℕ → List A → List A
  take zero xs = []
  take (suc n) [] = []
  take (suc n) (x ∷ xs) = x ∷ take n xs

  abbrev pub drop : ℕ → List A → List A
  drop zero xs = xs
  drop (suc n) [] = []
  drop (suc n) (x ∷ xs) = drop n xs

  abbrev pub any : (A → Bool) → List A → Bool
  any p [] = false
  any p (x ∷ xs) = p x || any p xs

  abbrev pub keep_if : (A → Bool) → List A → List A
  keep_if p [] = []
  keep_if p (x ∷ xs) = if p x then x ∷ keep_if p xs else keep_if p xs

  pub any-append_left :
      (p : A → Bool) (xs ys : List A) → any p (xs ++ ys) ≡ false → any p xs ≡ false
  any-append_left p [] ys h = refl
  any-append_left p (x ∷ xs) ys h = ground (arith, any-append_left p xs ys)

  pub any-append_false :
      (p : A → Bool) (xs ys : List A)
      → any p xs ≡ false
      → any p ys ≡ false
      → any p (xs ++ ys) ≡ false
  any-append_false p [] ys h k = k
  any-append_false p (x ∷ xs) ys h k = ground (arith, any-append_false p xs ys)

  pub List-cases : (xs : List A) → (xs ≡ []) ⊎ ((x : A) × (r : List A) × (xs ≡ x ∷ r))
  List-cases [] = inl refl
  List-cases (x ∷ xs) = inr (x, xs, refl)

  pub length-append : (xs ys : List A) → length (xs ++ ys) ≡ length xs + length ys
  length-append [] ys = omega arith
  length-append (x ∷ xs) ys = omega (arith, length-append xs ys)

  pub take-append-drop : (n : ℕ) (xs : List A) → take n xs ++ drop n xs ≡ xs
  take-append-drop zero xs = refl
  take-append-drop (suc n) [] = refl
  take-append-drop (suc n) (x ∷ xs) = ap (λ r. x ∷ r) (take-append-drop n xs)

  pub length-drop : (n : ℕ) (xs : List A) → length (drop n xs) ≡ length xs - n
  length-drop zero xs = omega arith
  length-drop (suc n) [] = omega arith
  length-drop (suc n) (x ∷ xs) = omega (arith, length-drop n xs)

  pub keep_if-append :
      (p : A → Bool) (xs ys : List A) → keep_if p (xs ++ ys) ≡ keep_if p xs ++ keep_if p ys
  keep_if-append p [] ys = refl
  keep_if-append p (x ∷ xs) ys = ground (arith, keep_if-append p xs ys)

module _ {ℓ κ} {A : Type ℓ} (P : A → Type κ) where
  abbrev pub All : List A → Type κ
  All [] = Unit
  All (x ∷ xs) = P x × All xs

  pub All-append : (xs ys : List A) → All xs → All ys → All (xs ++ ys)
  All-append [] ys hx hy = hy
  All-append (x ∷ xs) ys hx hy = (hx.0, All-append xs ys hx.1 hy)

module _ {A : Type 0} where
  -- The entry stands in the list.
  abbrev pub Listed : A → List A → Type 0
  Listed a [] = ⊥
  Listed a (x ∷ xs) = (x ≡ a) ⊎ Listed a xs

  pub any-Listed : (p : A → Bool) (a : A) (xs : List A) → Listed a xs → p a ≡ true → any p xs ≡ true
  any-Listed p a [] l h = absurd l
  any-Listed p a (x ∷ xs) (inl e) h = rw (e, h)
  any-Listed p a (x ∷ xs) (inr l) h = elim (Bool-cases (p x)) [
    | inl yes_x ↦ rw yes_x
    | inr no_x ↦ rw no_x (any-Listed p a xs l h)
  ]

  pub any_sound :
      (p : A → Bool) (xs : List A) → any p xs ≡ true → (a : A) × Listed a xs × (p a ≡ true)
  any_sound p [] h = cc
  any_sound p (x ∷ xs) h = elim (Bool-cases (p x)) [
    | inl yes_x ↦ (x, inl refl, yes_x)
    | inr no_x ↦ let (a, l, e) = any_sound p xs (rw no_x at h) in (a, inr l, e)
  ]

  pub append-Listed : (a : A) (xs ys : List A) → Listed a xs → Listed a (xs ++ ys)
  append-Listed a [] ys l = absurd l
  append-Listed a (x ∷ xs) ys (inl e) = inl e
  append-Listed a (x ∷ xs) ys (inr l) = inr (append-Listed a xs ys l)

  pub append-Listed_last : (a : A) (xs : List A) → Listed a (xs ++ a ∷ [])
  append-Listed_last a [] = inl refl
  append-Listed_last a (x ∷ xs) = inr (append-Listed_last a xs)

  pub All-Listed {κ} : (P : A → Type κ) (xs : List A) {a : A} → All P xs → Listed a xs → P a
  All-Listed P [] h l = absurd l
  All-Listed P (x ∷ xs) h (inl e) = subst P e h.0
  All-Listed P (x ∷ xs) h (inr l) = All-Listed P xs h.1 l
