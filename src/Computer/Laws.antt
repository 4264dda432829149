-- ===== src/Computer/Laws.antt =====
-- crates/arcc-core/src/computer/input.rs: which combinations of keys are read, and as what.
use arcc.Base.{
  ◌≡◌, refl, sym, ap, ◌∙◌, ◌⊎◌, inl, inr, ◌↔◌, List, [], ◌∷◌, ◌++◌, append-nil, append_assoc,
  Option, none, some, keep_if, Option-cases,
}
use arcc.Base.Text.{Text, codes}
use arcc.Computer.{ComputerError, Result, ok, err, invalid_args, is_none}
use arcc.Computer.Keys.{
  Key, modifier_key, parse_key, take_key, combine, parse_key_combo, split_combo,
}

-- The tokens that name no modifier, and the modifiers that the others name.
unfoldable pub keys_of : List Text → List Text
unfolding is_none
keys_of tokens = keep_if (λ t. is_none (modifier_key t)) tokens

unfoldable pub modifiers_of : List Text → List Key
modifiers_of [] = []
modifiers_of (t ∷ ts) = elim (modifier_key t) [
  | some m ↦ m ∷ modifiers_of ts
  | none ↦ modifiers_of ts
]

Result-cases :
    {A : Type 0} (r : Result A) → ((a : A) × (r ≡ ok a)) ⊎ ((e : ComputerError) × (r ≡ err e))
Result-cases (ok a) = inl (a, refl)
Result-cases (err e) = inr (e, refl)

ok_inj : {a b : List Key × Key} → ok a ≡ ok b → a ≡ b
ok_inj e = cc

err_is_not_ok : {A : Type 0} {a : A} {e : ComputerError} → err e ≡ ok a → ⊥
err_is_not_ok h = cc

cons_is_not_nil : {x : Text} {xs : List Text} → x ∷ xs ≡ [] → ⊥
cons_is_not_nil h = cc

cons_inj : {x y : Text} {xs ys : List Text} → x ∷ xs ≡ y ∷ ys → (x ≡ y) × (xs ≡ ys)
cons_inj h = (cc, cc)

-- One token at a time.
keys_of-modifier :
    (t : Text) (ts : List Text) (m : Key) → modifier_key t ≡ some m → keys_of (t ∷ ts) ≡ keys_of ts
unfolding keys_of
keys_of-modifier t ts m e = rw (e, keys_of, keep_if)

keys_of-key :
    (t : Text) (ts : List Text) → modifier_key t ≡ none → keys_of (t ∷ ts) ≡ t ∷ keys_of ts
unfolding keys_of
keys_of-key t ts e = rw (e, keys_of, keep_if)

modifiers_of-modifier :
    (t : Text) (ts : List Text) (m : Key)
    → modifier_key t ≡ some m
    → modifiers_of (t ∷ ts) ≡ m ∷ modifiers_of ts
unfolding modifiers_of
modifiers_of-modifier t ts m e = rw (e, modifiers_of)

modifiers_of-key :
    (t : Text) (ts : List Text) → modifier_key t ≡ none → modifiers_of (t ∷ ts) ≡ modifiers_of ts
unfolding modifiers_of
modifiers_of-key t ts e = rw (e, modifiers_of)

combine-modifier :
    (combo : Text) (ms : List Key) (k : Option Key) (t : Text) (ts : List Text) (m : Key)
    → modifier_key t ≡ some m
    → combine combo ms k (t ∷ ts) ≡ combine combo (ms ++ (m ∷ [])) k ts
unfolding combine take_key
combine-modifier combo ms (some k) t ts m e = rw (e, combine)
combine-modifier combo ms none t ts m e = rw (e, combine)

combine-key :
    (combo : Text) (ms : List Key) (t : Text) (ts : List Text) (k : Key)
    → modifier_key t ≡ none
    → parse_key t ≡ ok k
    → combine combo ms none (t ∷ ts) ≡ combine combo ms (some k) ts
unfolding combine take_key
combine-key combo ms t ts k e p = rw (e, combine, p, take_key)

combine-unknown :
    (combo : Text) (ms : List Key) (t : Text) (ts : List Text) (e : ComputerError)
    → modifier_key t ≡ none
    → parse_key t ≡ err e
    → combine combo ms none (t ∷ ts) ≡ err e
unfolding combine take_key
combine-unknown combo ms t ts e n p = rw (n, combine, p, take_key)

combine-second_ok :
    (combo : Text) (ms : List Key) (k j : Key) (t : Text) (ts : List Text)
    → modifier_key t ≡ none
    → parse_key t ≡ ok j
    → combine combo ms (some k) (t ∷ ts)
      ≡ err (
          invalid_args
            (codes "key combo '" ++ combo ++ codes "' has more than one non-modifier key"))
unfolding combine take_key
combine-second_ok combo ms k j t ts n p = rw (n, combine, p, take_key)

combine-second :
    (combo : Text) (ms : List Key) (k : Key) (t : Text) (ts : List Text)
    → modifier_key t ≡ none
    → (e : ComputerError) × (combine combo ms (some k) (t ∷ ts) ≡ err e)
unfolding combine take_key
combine-second combo ms k t ts n = elim (Result-cases (parse_key t)) [
  | inl (j, p) ↦ (_, combine-second_ok combo ms k j t ts n p)
  | inr (e, p) ↦ (e, rw (n, combine, p, take_key))
]

-- The rest of a loop that has read its key.
rest_ok :
    (combo : Text) (ms : List Key) (k : Key) (ts : List Text)
    → keys_of ts ≡ []
    → combine combo ms (some k) ts ≡ ok (ms ++ modifiers_of ts, k)
unfolding keys_of modifiers_of combine
rest_ok combo ms k [] h = rw (append-nil ms)
rest_ok combo ms k (t ∷ ts) h = elim (Option-cases (modifier_key t)) [
  | inl n ↦ absurd (cons_is_not_nil (sym (keys_of-key t ts n) ∙ h))
  | inr (m, e) ↦
      combine-modifier combo ms (some k) t ts m e
      ∙ rest_ok combo (ms ++ (m ∷ [])) k ts (sym (keys_of-modifier t ts m e) ∙ h)
      ∙ ap (λ l. ok (l, k))
          (append_assoc ms (m ∷ []) (modifiers_of ts)
            ∙ ap (λ l. ms ++ l) (sym (modifiers_of-modifier t ts m e)))
]

rest_only :
    (combo : Text) (ms : List Key) (k : Key) (ts : List Text) (out : List Key × Key)
    → combine combo ms (some k) ts ≡ ok out
    → keys_of ts ≡ []
unfolding keys_of combine
rest_only combo ms k [] out h = refl
rest_only combo ms k (t ∷ ts) out h = elim (Option-cases (modifier_key t)) [
  | inl n ↦
      let (e, refused) = combine-second combo ms k t ts n in
      absurd (err_is_not_ok (sym refused ∙ h))
  | inr (m, e) ↦
      keys_of-modifier t ts m e
      ∙ rest_only combo (ms ++ (m ∷ [])) k ts out
          (sym (combine-modifier combo ms (some k) t ts m e) ∙ h)
]

-- A loop that has read no key yet.
loop_ok :
    (combo : Text) (ms : List Key) (k : Key) (ts : List Text) (t : Text)
    → keys_of ts ≡ t ∷ []
    → parse_key t ≡ ok k
    → combine combo ms none ts ≡ ok (ms ++ modifiers_of ts, k)
unfolding keys_of
loop_ok combo ms k [] t h p = absurd (cons_is_not_nil (sym h))
loop_ok combo ms k (u ∷ ts) t h p = elim (Option-cases (modifier_key u)) [
  | inl n ↦
      let (same, rest) = cons_inj (sym (keys_of-key u ts n) ∙ h) in
      combine-key combo ms u ts k n (ap parse_key same ∙ p)
      ∙ rest_ok combo ms k ts rest
      ∙ ap (λ l. ok (ms ++ l, k)) (sym (modifiers_of-key u ts n))
  | inr (m, e) ↦
      combine-modifier combo ms none u ts m e
      ∙ loop_ok combo (ms ++ (m ∷ [])) k ts t (sym (keys_of-modifier u ts m e) ∙ h) p
      ∙ ap (λ l. ok (l, k))
          (append_assoc ms (m ∷ []) (modifiers_of ts)
            ∙ ap (λ l. ms ++ l) (sym (modifiers_of-modifier u ts m e)))
]

loop_only :
    (combo : Text) (ms : List Key) (ts : List Text) (out : List Key × Key)
    → combine combo ms none ts ≡ ok out
    → (t : Text) × (k : Key) × (keys_of ts ≡ t ∷ []) × (parse_key t ≡ ok k)
unfolding combine
loop_only combo ms [] out h = absurd (err_is_not_ok h)
loop_only combo ms (u ∷ ts) out h = elim (Option-cases (modifier_key u)) [
  | inl n ↦ elim (Result-cases (parse_key u)) [
    | inl (k, p) ↦ (
      u,
      k,
      keys_of-key u ts n
          ∙ ap (λ l. u ∷ l)
              (rest_only combo ms k ts out (sym (combine-key combo ms u ts k n p) ∙ h)),
      p,
    )
    | inr (e, p) ↦ absurd (err_is_not_ok (sym (combine-unknown combo ms u ts e n p) ∙ h))
  ]
  | inr (m, e) ↦
      let (t, k, one, p) =
        loop_only combo (ms ++ (m ∷ [])) ts out
          (sym (combine-modifier combo ms none u ts m e) ∙ h) in
      (t, k, keys_of-modifier u ts m e ∙ one, p)
]

-- A combination is read as modifiers and a key if and only if exactly one of its tokens names no
-- modifier, that token is a key, namely this one, and the modifiers are those that the other
-- tokens name, in their order.
pub parse_key_combo_iff :
    (combo : Text) (ms : List Key) (k : Key)
    → (parse_key_combo combo ≡ ok (ms, k)) ↔ (
        (t : Text) × (keys_of (split_combo combo) ≡ t ∷ [])
        × (parse_key t ≡ ok k)
        × (ms ≡ modifiers_of (split_combo combo)))
unfolding parse_key_combo
parse_key_combo_iff combo ms k = (to, from)
  where
    to :
        parse_key_combo combo ≡ ok (ms, k)
        → (t : Text) × (keys_of (split_combo combo) ≡ t ∷ [])
          × (parse_key t ≡ ok k)
          × (ms ≡ modifiers_of (split_combo combo))
    to h =
        let (t, j, one, p) = loop_only combo [] (split_combo combo) (ms, k) h in
        let same : (ms, k) ≡ (modifiers_of (split_combo combo), j) =
          ok_inj (sym h ∙ loop_ok combo [] j (split_combo combo) t one p) in
        (t, one, p ∙ ap (λ x. ok x.1) (sym same), ap (λ x. x.0) same)

    from :
        ((t : Text) × (keys_of (split_combo combo) ≡ t ∷ [])
          × (parse_key t ≡ ok k)
          × (ms ≡ modifiers_of (split_combo combo)))
        → parse_key_combo combo ≡ ok (ms, k)
    from (t, one, p, e) =
        loop_ok combo [] k (split_combo combo) t one p ∙ ap (λ l. ok (l, k)) (sym e)
