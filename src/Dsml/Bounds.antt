-- ===== src/Dsml/Bounds.antt =====
-- Every slice that is taken at a tag lies within the text, and the loops make progress.
use arcc.Base.{
  none_is_not_some, some_same, ℕ, suc, ◌+◌, ◌-◌, ◌≤◌, ◌<◌, ◌≡◌, refl, ap, ◌∙◌, inl, inr, Bool, true,
  false, List, [], ◌∷◌, Option, none, some, arith, nat_eq, Bool-cases, Option-cases, length,
  length-append,
}
use arcc.Base.Text.{Text, trim_start, strip_prefix, strip_prefix_sound, starts_with}
use arcc.Dsml.Tags.{
  find_char, strip_any, strip_marker, marker_forms, open_tail, open_name, match_open_tag_at,
  close_name, match_close_tag_at, match_tag_at, one_further, find_tag,
}

pub length-trim_start : (s : Text) → length (trim_start s) ≤ length s
unfolding trim_start
length-trim_start [] = omega arith
length-trim_start (c ∷ s) = ground (arith, length-trim_start s)

find_char_bound : (x : ℕ) (s : Text) {n : ℕ} → find_char x s ≡ some n → n < length s
unfolding find_char
find_char_bound x [] e = cc
find_char_bound x (c ∷ s) {n} e = elim (Option-cases (find_char x s)) [
  | inl missing ↦ ground arith
  | inr (k, found) ↦ ground (arith, find_char_bound x s found)
]

length-strip_prefix :
    (p s : Text) {rest : Text} → strip_prefix p s ≡ some rest → length s ≡ length p + length rest
length-strip_prefix p s {rest} e = ap length (strip_prefix_sound p s e) ∙ length-append p rest

length_of_starts_with : (c : ℕ) (s : Text) → starts_with (c ∷ []) s ≡ true → 0 < length s
unfolding starts_with
length_of_starts_with c [] e = cc
length_of_starts_with c (d ∷ s) e = omega arith

-- The end of a tag is inside the text behind the name.
open_tail_bound : (after : Text) (n : ℕ) → open_tail after ≡ some n → (0 < n) × (n ≤ length after)
unfolding open_tail
open_tail_bound after n e = elim (Option-cases (find_char b'>' (trim_start after))) [
  | inl missing ↦
      ground (arith, length-trim_start after, length_of_starts_with b'>' (trim_start after))
  | inr (gt, found) ↦ ground (
    arith,
    length-trim_start after,
    length_of_starts_with b'>' (trim_start after),
    find_char_bound b'>' (trim_start after) found,
  )
]

open_name_bound :
    (text rest : Text) (names : List Text) (n : ℕ)
    → length rest ≤ length text
    → open_name text rest names ≡ some n
    → (0 < n) × (n ≤ length text)
unfolding open_name
open_name_bound text rest [] n h e = cc
open_name_bound text rest (name ∷ names) n h e = elim (Option-cases (strip_prefix name rest)) [
  | inl other ↦ open_name_bound text rest names n h (rw (other, open_name) at e)
  | inr (after, named) ↦ elim (Option-cases (open_tail after)) [
    | inl longer ↦ open_name_bound text rest names n h (rw (named, longer, open_name) at e)
    | inr (tail_len, tail) ↦
        let same : some (length text - length after + tail_len) ≡ some n =
          rw (named, tail, open_name) at e in
        let whole = length-strip_prefix name rest named in
        let fits = open_tail_bound after tail_len tail in omega (arith, some_same same)
  ]
]

strip_any_bound :
    (ms : List Text) (text rest : Text) → strip_any ms text ≡ some rest → length rest ≤ length text
unfolding strip_any
strip_any_bound [] text rest e = cc
strip_any_bound (m ∷ ms) text rest e = elim (Option-cases (strip_prefix m text)) [
  | inl other ↦ strip_any_bound ms text rest (rw (other, strip_any) at e)
  | inr (after, stripped) ↦
      ground (arith, rw (stripped, strip_any) at e, length-strip_prefix m text stripped)
]

strip_marker_bound : (text rest : Text) → strip_marker text ≡ some rest → length rest ≤ length text
unfolding strip_marker
strip_marker_bound text rest e = strip_any_bound marker_forms text rest e

close_name_bound :
    (text rest : Text) (names : List Text) (n : ℕ)
    → length rest < length text
    → close_name text rest names ≡ some n
    → (0 < n) × (n ≤ length text)
unfolding close_name
close_name_bound text rest [] n h e = cc
close_name_bound text rest (name ∷ names) n h e = elim (Option-cases (strip_prefix name rest)) [
  | inl other ↦ close_name_bound text rest names n h (rw (other, close_name) at e)
  | inr (after, named) ↦ elim (Option-cases (strip_prefix (b'>' ∷ []) (trim_start after))) [
    | inl longer ↦ close_name_bound text rest names n h (rw (named, longer, close_name) at e)
    | inr (remainder, ended) ↦
        let same : some (length text - length remainder) ≡ some n =
          rw (named, ended, close_name) at e in
        let whole = length-strip_prefix name rest named in
        let end = length-strip_prefix (b'>' ∷ []) (trim_start after) ended in
        omega (arith, some_same same, length-trim_start after)
  ]
]

match_open_tag_at_bound :
    (text : Text) (names : List Text) (n : ℕ)
    → match_open_tag_at text names ≡ some n
    → (0 < n) × (n ≤ length text)
unfolding match_open_tag_at
match_open_tag_at_bound text names n e = elim (Option-cases (strip_prefix (b'<' ∷ []) text)) [
  | inl other ↦ absurd (none_is_not_some (rw (other, match_open_tag_at) at e))
  | inr (inner, opened) ↦ elim (Option-cases (strip_marker inner)) [
    | inl unmarked ↦ absurd (none_is_not_some (rw (opened, unmarked, match_open_tag_at) at e))
    | inr (rest, marked) ↦
        let whole = length-strip_prefix (b'<' ∷ []) text opened in
        let part = strip_marker_bound inner rest marked in
        open_name_bound text (trim_start rest) names n (omega (arith, length-trim_start rest))
          (rw (opened, marked, match_open_tag_at) at e)
  ]
]

match_close_tag_at_bound :
    (text : Text) (names : List Text) (n : ℕ)
    → match_close_tag_at text names ≡ some n
    → (0 < n) × (n ≤ length text)
unfolding match_close_tag_at
match_close_tag_at_bound text names n e =
    elim (Option-cases (strip_prefix (b'<' ∷ b'/' ∷ []) text)) [
      | inl other ↦ absurd (none_is_not_some (rw (other, match_close_tag_at) at e))
      | inr (inner, opened) ↦ elim (Option-cases (strip_marker inner)) [
        | inl unmarked ↦ absurd (none_is_not_some (rw (opened, unmarked, match_close_tag_at) at e))
        | inr (rest, marked) ↦
            let whole = length-strip_prefix (b'<' ∷ b'/' ∷ []) text opened in
            let part = strip_marker_bound inner rest marked in
            close_name_bound text (trim_start rest) names n (omega (arith, length-trim_start rest))
              (rw (opened, marked, match_close_tag_at) at e)
      ]
    ]

match_tag_at_bound :
    (closing : Bool) (text : Text) (names : List Text) (n : ℕ)
    → match_tag_at closing text names ≡ some n
    → (0 < n) × (n ≤ length text)
unfolding match_tag_at
match_tag_at_bound true = match_close_tag_at_bound
match_tag_at_bound false = match_open_tag_at_bound

one_further_bound :
    (s : Text) (o : Option (ℕ × ℕ)) (start stop : ℕ)
    → ((a b : ℕ) → o ≡ some (a, b) → (a < b) × (b ≤ length s))
    → one_further o ≡ some (start, stop)
    → (start < stop) × (stop ≤ suc (length s))
one_further_bound s none start stop ih e = cc
one_further_bound s (some (a, b)) start stop ih e = let fits = ih a b refl in ground arith

-- Wherever a tag is found, it is not empty and lies within the text, so that no slice at its
-- positions is out of range.
pub find_tag_bound :
    (text : Text) (names : List Text) (closing : Bool) (start stop : ℕ)
    → find_tag text names closing ≡ some (start, stop)
    → (start < stop) × (stop ≤ length text)
unfolding find_tag
find_tag_bound [] names closing start stop e = cc
find_tag_bound (c ∷ s) names closing start stop e = elim (Bool-cases (nat_eq c b'<')) [
  | inr other ↦
      one_further_bound s (find_tag s names closing) start stop (find_tag_bound s names closing)
        (rw (other, find_tag) at e)
  | inl angle ↦ elim (Option-cases (match_tag_at closing (c ∷ s) names)) [
    | inl unmatched ↦
        one_further_bound s (find_tag s names closing) start stop (find_tag_bound s names closing)
          (rw (angle, unmatched, find_tag) at e)
    | inr (len, matched) ↦
        let same : ◌≡◌ {A = Option (ℕ × ℕ)} (some (0, len)) (some (start, stop)) =
          rw (angle, matched, find_tag) at e in
        let fits = match_tag_at_bound closing (c ∷ s) names len matched in ground arith
  ]
]
