-- ===== src/Dsml/Missed.antt =====
-- Opening tags that are found whole and are not held back while they arrive.
use arcc.Base.{
  ℕ, ◌≡◌, ◌≢◌, refl, inl, inr, Bool, true, false, ◌&&◌, List, [], ◌∷◌, ◌++◌, none, some, arith,
  Bool-cases, Option-cases, Listed, All-Listed,
}
use arcc.Base.Text.{Text, codes, trim_start, is_whitespace, strip_prefix}
use arcc.Dsml.Tags.{
  bar, tool_call_tags, find_char, strip_marker, open_tail, open_name, match_open_tag_at,
  could_be_open_tag_prefix,
}
use arcc.Dsml.Bounds.{length-trim_start}

find_char_last : (w : Text) → find_char b'>' (trim_start (w ++ b'>' ∷ [])) ≢ none
unfolding find_char trim_start is_whitespace
find_char_last [] = cc
find_char_last (c ∷ w) = elim (Bool-cases (is_whitespace c)) [
  | inl blank ↦ rw blank (find_char_last w)
  | inr shown ↦ rw shown (find_char_later (c ∷ w))
]
  where
    find_char_later : (w : Text) → find_char b'>' (w ++ b'>' ∷ []) ≢ none
    find_char_later [] = cc
    find_char_later (d ∷ w) = ground (arith, find_char_later w)

open_tail_found :
    (c : ℕ) (w : Text) → is_whitespace c ≡ true → open_tail (c ∷ (w ++ b'>' ∷ [])) ≢ none
unfolding open_tail
open_tail_found c w blank = elim (Option-cases (find_char b'>' (trim_start (w ++ b'>' ∷ [])))) [
  | inl missing ↦ absurd (find_char_last w missing)
  | inr (gt, found) ↦ ground (arith, length-trim_start (w ++ b'>' ∷ []))
]

-- An opening tag as the model writes it, with a blank and more behind the name; the `>` is yet to
-- come.
abbrev pub spaced_tag : Text → ℕ → Text → Text
spaced_tag name c w = b'<' ∷ bar ∷ bar ∷ (codes "DSML" ++ (bar ∷ bar ∷ (name ++ (c ∷ w))))

open_name_hit :
    (text rest name after : Text) (names : List Text)
    → strip_prefix name rest ≡ some after
    → open_tail after ≢ none
    → open_name text rest (name ∷ names) ≢ none
unfolding open_name
open_name_hit text rest name after names named tail = elim (Option-cases (open_tail after)) [
  | inl missing ↦ absurd (tail missing)
  | inr (len, found) ↦ rw (named, found, open_name) cc
]

open_name_skip :
    (text rest name : Text) (names : List Text)
    → strip_prefix name rest ≡ none
    → open_name text rest names ≢ none
    → open_name text rest (name ∷ names) ≢ none
unfolding open_name
open_name_skip text rest name names other found = rw (other, open_name) found

match_open_tag_at_name :
    (inner rest : Text) (names : List Text)
    → strip_marker inner ≡ some rest
    → open_name (b'<' ∷ inner) (trim_start rest) names ≢ none
    → match_open_tag_at (b'<' ∷ inner) names ≢ none
unfolding match_open_tag_at
match_open_tag_at_name inner rest names marked found = rw (marked, match_open_tag_at) found

abbrev IsMissed : ℕ → Text → Text → Type 0
IsMissed c w name =
    (could_be_open_tag_prefix (spaced_tag name c w) ≡ false)
    × (match_open_tag_at (spaced_tag name c w ++ b'>' ∷ []) tool_call_tags ≢ none)

and_false : (b : Bool) → (b && false) ≡ false
and_false true = refl
and_false false = refl

module _ (c : ℕ) (w : Text) (blank : is_whitespace c ≡ true) where
  tail_found : open_tail (c ∷ (w ++ b'>' ∷ [])) ≢ none
  tail_found = open_tail_found c w blank

  tool_calls-IsMissed : IsMissed c w (codes "tool_calls")
  unfolding could_be_open_tag_prefix is_whitespace strip_marker
  tool_calls-IsMissed = (
    and_false _,
    match_open_tag_at_name _ _ tool_call_tags refl
        (open_name_hit _ _ (codes "tool_calls") _ _ refl tail_found),
  )

  calls-IsMissed : IsMissed c w (codes "calls")
  unfolding could_be_open_tag_prefix is_whitespace strip_marker
  calls-IsMissed = (
    and_false _,
    match_open_tag_at_name _ _ tool_call_tags refl (
        open_name_skip _ _ (codes "tool_calls") _ refl
          (open_name_hit _ _ (codes "calls") _ _ refl tail_found)),
  )

  function_calls-IsMissed : IsMissed c w (codes "function_calls")
  unfolding could_be_open_tag_prefix is_whitespace strip_marker
  function_calls-IsMissed = (
    and_false _,
    match_open_tag_at_name _ _ tool_call_tags refl (
        open_name_skip _ _ (codes "tool_calls") _ refl (
          open_name_skip _ _ (codes "calls") _ refl
            (open_name_hit _ _ (codes "function_calls") _ _ refl tail_found))),
  )

-- Whatever the name, a tag with a blank and anything more behind its name is recognised once its
-- `>` is there, and is not taken for the beginning of a tag before that.
pub spaced_tag_missed :
    (name : Text) (c : ℕ) (w : Text)
    → Listed name tool_call_tags
    → is_whitespace c ≡ true
    → (could_be_open_tag_prefix (spaced_tag name c w) ≡ false)
      × (match_open_tag_at (spaced_tag name c w ++ b'>' ∷ []) tool_call_tags ≢ none)
spaced_tag_missed name c w l blank =
    All-Listed (IsMissed c w) tool_call_tags
      (
        tool_calls-IsMissed c w blank,
        (calls-IsMissed c w blank, (function_calls-IsMissed c w blank, tt)),
      )
      l
