-- ===== src/Dsml/Holding.antt =====
-- Which ends of the buffer are held back as the beginning of an opening tag.
use mathlib.Core.Bool.{false≢true}
use arcc.Base.{
  ℕ, ◌≡◌, refl, sym, ap, subst, ◌∙◌, ◌↔◌, inl, inr, Bool, true, false, not, ◌&&◌, ◌||◌, [], ◌∷◌,
  ◌++◌, arith, nat_eq, Bool-cases, Option-cases, any, All, Listed, any-Listed, All-Listed,
  any_sound, any-append_left, any-append_false, and_right,
}
use arcc.Base.Text.{
  Text, codes, trim_start, is_whitespace, is_empty, strip_prefix, strip_prefix_sound,
  strip_prefix-append, starts_with, starts_with_iff,
}
use arcc.Dsml.Tags.{marker_forms, tool_call_tags, begins_name, could_be_open_tag_prefix}

abbrev IsSpace : ℕ → Type 0
IsSpace c = is_whitespace c ≡ true

-- The beginning of an opening tag with no attributes: `<` and a part of a marker, or `<`, a
-- marker, whitespace and a part of a name.
pub data PartialTag : Text → Type 0 where
  in_marker : (t u : Text) → Listed (t ++ u) marker_forms → PartialTag (b'<' ∷ t)
  in_name :
      (marker space n u : Text)
      → Listed marker marker_forms
      → All IsSpace space
      → Listed (n ++ u) tool_call_tags
      → PartialTag (b'<' ∷ (marker ++ (space ++ n)))

abbrev ends_tag : ℕ → Bool
ends_tag c = nat_eq c b'>'

marker_has_no_end : (m : Text) → Listed m marker_forms → any ends_tag m ≡ false
marker_has_no_end m l =
    All-Listed (λ m. any ends_tag m ≡ false) marker_forms (refl, (refl, (refl, (refl, tt)))) l

name_has_no_end : (m : Text) → Listed m tool_call_tags → any ends_tag m ≡ false
name_has_no_end m l =
    All-Listed (λ m. any ends_tag m ≡ false) tool_call_tags (refl, (refl, (refl, tt))) l

space_has_no_end : (s : Text) → All IsSpace s → any ends_tag s ≡ false
unfolding is_whitespace
space_has_no_end [] a = refl
space_has_no_end (c ∷ s) a = ground (arith, a.0, space_has_no_end s a.1)

trim_start-append : (space s : Text) → All IsSpace space → trim_start (space ++ s) ≡ trim_start s
unfolding trim_start
trim_start-append [] s a = refl
trim_start-append (c ∷ space) s a = rw a.0 (trim_start-append space s a.1)

abbrev StartsShown : Text → Type 0
StartsShown [] = Unit
StartsShown (c ∷ s) = is_whitespace c ≡ false

trim_start_of_name : (n u : Text) → Listed (n ++ u) tool_call_tags → trim_start n ≡ n
unfolding trim_start is_whitespace
trim_start_of_name [] u l = refl
trim_start_of_name (c ∷ n) u l =
    rw (All-Listed StartsShown tool_call_tags (refl, (refl, (refl, tt))) l)

trim_start_split : (s : Text) → (space : Text) × All IsSpace space × (s ≡ space ++ trim_start s)
unfolding trim_start
trim_start_split [] = ([], tt, refl)
trim_start_split (c ∷ s) = elim (Bool-cases (is_whitespace c)) [
  | inl blank ↦
      let (space, a, e) = trim_start_split s in
      (c ∷ space, (blank, a), rw blank (ap (λ r. c ∷ r) e))
  | inr shown ↦ ([], tt, rw shown)
]

begins_name_of_part :
    (marker space n u : Text)
    → All IsSpace space
    → Listed (n ++ u) tool_call_tags
    → begins_name (marker ++ (space ++ n)) marker ≡ true
unfolding begins_name
begins_name_of_part marker space n u a l =
    let trimmed : trim_start (space ++ n) ≡ n =
      trim_start-append space n a ∙ trim_start_of_name n u l in
    let named =
      any-Listed (starts_with n) (n ++ u) tool_call_tags l
        ((starts_with_iff n (n ++ u)).1 (u, refl)) in
    rw (strip_prefix-append marker (space ++ n), begins_name) (rw trimmed (ground arith))

conditions : {a b : Bool} → a ≡ false → b ≡ true → (not a && b) ≡ true
conditions e f = ground arith

or_left : {a : Bool} (b : Bool) → a ≡ true → (a || b) ≡ true
or_left b e = ground arith

or_right : (a : Bool) {b : Bool} → b ≡ true → (a || b) ≡ true
or_right a e = ground arith

could_be-cons :
    (rest : Text)
    → could_be_open_tag_prefix (b'<' ∷ rest) ≡ (
        not (any ends_tag rest)
        && (any (λ m. starts_with rest m) marker_forms
            || any (λ m. begins_name rest m) marker_forms))
unfolding could_be_open_tag_prefix
could_be-cons rest = refl

could_be_of_PartialTag : {s : Text} → PartialTag s → could_be_open_tag_prefix s ≡ true
could_be_of_PartialTag (in_marker t u l) =
    let plain = any-append_left ends_tag t u (marker_has_no_end (t ++ u) l) in
    let marked =
      any-Listed (λ m. starts_with t m) (t ++ u) marker_forms l
        ((starts_with_iff t (t ++ u)).1 (u, refl)) in
    could_be-cons t ∙ conditions plain (or_left _ marked)
could_be_of_PartialTag (in_name marker space n u m a l) =
    let rest = marker ++ (space ++ n) in
    let plain : any ends_tag rest ≡ false =
      any-append_false ends_tag marker (space ++ n) (marker_has_no_end marker m) (
        any-append_false ends_tag space n (space_has_no_end space a)
          (any-append_left ends_tag n u (name_has_no_end (n ++ u) l))) in
    let named =
      any-Listed (λ m. begins_name rest m) marker marker_forms m
        (begins_name_of_part marker space n u a l) in
    could_be-cons rest ∙ conditions plain (or_right _ named)

begins_with_angle :
    (s : Text) → could_be_open_tag_prefix s ≡ true → (rest : Text) × (s ≡ b'<' ∷ rest)
unfolding could_be_open_tag_prefix
begins_with_angle s h = elim (Option-cases (strip_prefix (b'<' ∷ []) s)) [
  | inl other ↦ absurd (false≢true (rw (other, could_be_open_tag_prefix) at h))
  | inr (rest, opened) ↦ (rest, strip_prefix_sound (b'<' ∷ []) s opened)
]

part_of_name :
    (marker space n : Text)
    → Listed marker marker_forms
    → All IsSpace space
    → (is_empty n || any (λ name. starts_with n name) tool_call_tags) ≡ true
    → PartialTag (b'<' ∷ (marker ++ (space ++ n)))
unfolding is_empty
part_of_name marker space [] l a h = in_name marker space [] (codes "tool_calls") l a (inl refl)
part_of_name marker space (c ∷ n) l a h =
    let (name, k, e) = any_sound (λ name. starts_with (c ∷ n) name) tool_call_tags h in
    let (u, same) = (starts_with_iff (c ∷ n) name).0 e in
    in_name marker space (c ∷ n) u l a (subst (λ t. Listed t tool_call_tags) same k)

part_of_begins_name :
    (marker rest : Text)
    → Listed marker marker_forms
    → begins_name rest marker ≡ true
    → PartialTag (b'<' ∷ rest)
unfolding begins_name
part_of_begins_name marker rest l h = elim (Option-cases (strip_prefix marker rest)) [
  | inl other ↦ absurd (false≢true (rw (other, begins_name) at h))
  | inr (after, stripped) ↦
      let (space, blank, split) = trim_start_split after in
      let whole : rest ≡ marker ++ (space ++ trim_start after) =
        strip_prefix_sound marker rest stripped ∙ ap (λ t. marker ++ t) split in
      subst (λ t. PartialTag (b'<' ∷ t)) (sym whole)
        (part_of_name marker space (trim_start after) l blank (rw (stripped, begins_name) at h))
]

PartialTag-of_rest :
    (rest : Text) → could_be_open_tag_prefix (b'<' ∷ rest) ≡ true → PartialTag (b'<' ∷ rest)
PartialTag-of_rest rest h =
    let tests = and_right (not (any ends_tag rest)) _ (sym (could_be-cons rest) ∙ h) in
    elim (Bool-cases (any (λ m. starts_with rest m) marker_forms)) [
      | inl marked ↦
          let (m, l, e) = any_sound (λ m. starts_with rest m) marker_forms marked in
          let (u, same) = (starts_with_iff rest m).0 e in
          in_marker rest u (subst (λ t. Listed t marker_forms) same l)
      | inr unmarked ↦
          let (m, l, e) = any_sound (λ m. begins_name rest m) marker_forms (rw unmarked at tests) in
          part_of_begins_name m rest l e
    ]

-- An end of the buffer is held back exactly if it is the beginning of an opening tag that has no
-- attributes and no whitespace behind its name.
pub could_be_iff : (s : Text) → (could_be_open_tag_prefix s ≡ true) ↔ PartialTag s
could_be_iff s = (to, λ p. could_be_of_PartialTag p)
  where
    to : could_be_open_tag_prefix s ≡ true → PartialTag s
    to h =
        let (rest, e) = begins_with_angle s h in
        subst PartialTag (sym e)
          (PartialTag-of_rest rest (subst (λ t. could_be_open_tag_prefix t ≡ true) e h))
