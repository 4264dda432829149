-- ===== src/Feishu/Webhook/Mentions.antt =====
-- crates/arcc-server/src/feishu/webhook.rs, `handle_message_event`: what is taken out of a text.
use arcc.Base.{
  ℕ, zero, suc, ◌-◌, ◌≡◌, ◌≢◌, refl, sym, ap, ◌∙◌, ◌⊎◌, inl, inr, true, false, [], ◌∷◌, ◌++◌,
  Option, none, some, arith, append_assoc, append-nil, length, take, drop, Bool-cases, ◌<◌,
  take-append-drop, length-append, length-drop,
}
use arcc.Base.Text.{Text, codes, is_empty, trim, starts_with, starts_with_iff, Occurs}
use arcc.Model.Json.{Items, nil, cons, get_value, and_str}
use arcc.Feishu.Webhook.{erase, strip_mentions}

-- A key without its last character.
abbrev pub init : Text → Text
init key = take (length key - 1) key

-- A text whose occurrences of a key are cut out, from the left to the right: it is made of pieces with
-- the key between them, and the pieces are what is left. No occurrence of the key begins in a piece.
pub data Erased (key : Text) : Text → Text → Type 0 where
  whole : (s : Text) → (Occurs key s → ⊥) → Erased key s s
  cut :
      (piece s t from : Text)
      → (Occurs key (piece ++ init key) → ⊥)
      → Erased key s t
      → from ≡ piece ++ (key ++ s)
      → Erased key from (piece ++ t)

-- What the loop does with the key of a mention, and then with the rest.
abbrev pub StripsKey : Option Text → Text → (Text → Type 0) → Type 0
StripsKey none s Rest = Rest s
StripsKey (some key) s Rest =
    (u : Text) × (((key ≡ []) × (u ≡ s)) ⊎ ((key ≢ []) × Erased key s u)) × Rest (trim u)

-- A text without the keys of the mentions, one mention after the other, and trimmed after each. The
-- empty key takes nothing out.
abbrev pub Stripped : Items → Text → Text → Type 0
Stripped nil s t = t ≡ s
Stripped (cons m ms) s t = StripsKey (and_str (get_value (codes "key") m)) s (λ u. Stripped ms u t)

false_is_not_true : false ≡ true → ⊥
false_is_not_true f = cc

-- A key that does not stand at the start of a longer text does not begin at a character in front.
free_cons :
    (key : Text) (c : ℕ) (w more : Text)
    → starts_with key (c ∷ (w ++ more)) ≡ false
    → (Occurs key w → ⊥)
    → Occurs key (c ∷ w)
    → ⊥
free_cons key c w more h free ([], after, e) = false_is_not_true (
    sym h
    ∙ (starts_with_iff key (c ∷ (w ++ more))).1
        (after ++ more, ap (λ r. r ++ more) e ∙ append_assoc key after more))
free_cons key c w more h free (b ∷ bs, after, e) = free (bs, after, ap (drop 1) e)

-- Both parts of a key that is cut in front of its last character.
behind_init :
    (key piece s : Text)
    → (piece ++ init key) ++ (drop (length key - 1) key ++ s) ≡ piece ++ (key ++ s)
behind_init key piece s =
    append_assoc piece (init key) (drop (length key - 1) key ++ s)
    ∙ ap (λ r. piece ++ r)
        (sym (append_assoc (init key) (drop (length key - 1) key) s)
          ∙ ap (λ r. r ++ s) (take-append-drop (length key - 1) key))

cons-Erased :
    (key : Text) (c : ℕ) {s t : Text}
    → Erased key s t
    → starts_with key (c ∷ s) ≡ false
    → Erased key (c ∷ s) (c ∷ t)
cons-Erased key c (whole s free) h =
    whole (c ∷ s) (free_cons key c s [] (ap (λ r. starts_with key (c ∷ r)) (append-nil s) ∙ h) free)
cons-Erased key c (cut piece s t from free d e) h =
    cut (c ∷ piece) s t (c ∷ from)
      (free_cons key c (piece ++ init key) (drop (length key - 1) key ++ s)
        (ap (λ r. starts_with key (c ∷ r)) (behind_init key piece s ∙ sym e) ∙ h) free)
      d (ap (λ r. c ∷ r) e)

no_room : (k : ℕ) (ks w : Text) → length w < suc (length ks) → Occurs (k ∷ ks) w → ⊥
no_room k ks w h (before, after, e) =
    omega (
      arith,
      h,
      ap length e,
      length-append before ((k ∷ ks) ++ after),
      length-append (k ∷ ks) after,
    )

take_short :
    (n k : ℕ) (ks : Text) → n < suc (length ks) → length (take n (k ∷ ks)) < suc (length ks)
take_short n k ks h = omega (
  arith,
  h,
  ap length (take-append-drop n (k ∷ ks)),
  length-append (take n (k ∷ ks)) (drop n (k ∷ ks)),
  length-drop n (k ∷ ks),
)

drop_start : (key t : Text) → drop (length key) (key ++ t) ≡ t
drop_start [] t = refl
drop_start (k ∷ ks) t = drop_start ks t

starts_with-split : (key s : Text) → starts_with key s ≡ true → s ≡ key ++ drop (length key) s
starts_with-split key s h =
    let (t, e) = (starts_with_iff key s).0 h in
    e ∙ ap (λ r. key ++ r) (sym (ap (drop (length key)) e ∙ drop_start key t))

erase-Erased :
    (k : ℕ) (ks : Text) (skip : ℕ) (s : Text)
    → Erased (k ∷ ks) (drop skip s) (erase (k ∷ ks) skip s)
unfolding erase is_empty
erase-Erased k ks zero [] = whole [] (no_room k ks [] (omega arith))
erase-Erased k ks (suc n) [] = whole [] (no_room k ks [] (omega arith))
erase-Erased k ks (suc n) (c ∷ s) = erase-Erased k ks n s
erase-Erased k ks zero (c ∷ s) = elim (Bool-cases (starts_with (k ∷ ks) (c ∷ s))) [
  | inl here ↦
      let n = length (k ∷ ks) - 1 in
      let pred : n ≡ length ks = omega arith in
      rw (here, erase)
        (cut [] (drop n s) (erase (k ∷ ks) n s) (c ∷ s)
          (no_room k ks (init (k ∷ ks)) (take_short n k ks (omega arith))) (erase-Erased k ks n s)
          (starts_with-split (k ∷ ks) (c ∷ s) here ∙ ap (λ i. (k ∷ ks) ++ drop i s) (sym pred)))
  | inr later ↦ rw (later, erase) (cons-Erased (k ∷ ks) c (erase-Erased k ks zero s) later)
]

erase_empty : (s : Text) → erase [] 0 s ≡ s
unfolding erase is_empty
erase_empty [] = refl
erase_empty (c ∷ s) = ap (λ r. c ∷ r) (erase_empty s)

erased :
    (key s : Text)
    → ((key ≡ []) × (erase key 0 s ≡ s)) ⊎ ((key ≢ []) × Erased key s (erase key 0 s))
erased [] s = inl (refl, erase_empty s)
erased (k ∷ ks) s = inr ((cc), erase-Erased k ks 0 s)

strips_key :
    (key : Option Text) (ms : Items) (s : Text)
    → ((u : Text) → Stripped ms u (strip_mentions ms u))
    → StripsKey key s (λ u. Stripped ms u (elim key [
      | none ↦ strip_mentions ms s
      | some key ↦ strip_mentions ms (trim (erase key 0 s))
    ]))
strips_key none ms s rest = rest s
strips_key (some key) ms s rest = (erase key 0 s, erased key s, rest (trim (erase key 0 s)))

-- The loop over the mentions takes their keys out.
pub strip_mentions-Stripped : (ms : Items) (s : Text) → Stripped ms s (strip_mentions ms s)
unfolding strip_mentions
strip_mentions-Stripped nil s = refl
strip_mentions-Stripped (cons m ms) s =
    strips_key (and_str (get_value (codes "key") m)) ms s (strip_mentions-Stripped ms)
