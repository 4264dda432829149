-- ===== src/Dsml/Tags.antt =====
-- crates/arcc-core/src/model/dsml.rs: the markers, and finding a tag. Positions and lengths count
-- characters; the slices at them are those of the source.
use arcc.Base.{
  ℕ, suc, ◌+◌, ◌-◌, Bool, true, false, not, ◌&&◌, ◌||◌, List, [], ◌∷◌, ◌++◌, Option, none, some,
  ltb, leb, nat_eq, if◌then◌else◌, length, any,
}
use arcc.Base.Text.{Text, codes, trim_start, strip_prefix, starts_with, is_empty, byte_len}

-- U+FF5C, the fullwidth vertical line.
abbrev pub bar : ℕ
bar = 0xff5c

abbrev pub marker_forms : List Text
marker_forms =
    (bar ∷ bar ∷ (codes "DSML" ++ bar ∷ bar ∷ []))
    ∷ (bar ∷ bar ∷ (codes "DSML" ++ bar ∷ []))
    ∷ (bar ∷ (codes "DSML" ++ bar ∷ bar ∷ []))
    ∷ (bar ∷ (codes "DSML" ++ bar ∷ []))
    ∷ []

abbrev pub tool_call_tags : List Text
tool_call_tags = codes "tool_calls" ∷ codes "calls" ∷ codes "function_calls" ∷ []

abbrev pub invoke_tags : List Text
invoke_tags = codes "invoke" ∷ []

abbrev pub parameter_tags : List Text
parameter_tags = codes "parameter" ∷ []

-- `str::find` with a character.
unfoldable pub find_char : ℕ → Text → Option ℕ
find_char x [] = none
find_char x (c ∷ s) =
    if nat_eq c x then some 0 else elim (find_char x s) [ none ↦ none | some n ↦ some (suc n) ]

unfoldable pub strip_any : List Text → Text → Option Text
unfolding strip_prefix
strip_any [] text = none
strip_any (m ∷ ms) text = elim (strip_prefix m text) [
  | none ↦ strip_any ms text
  | some rest ↦ some rest
]

unfoldable pub strip_marker : Text → Option Text
unfolding strip_any
strip_marker text = strip_any marker_forms text

-- What stands after the name of an opening tag: the length of the rest of the tag.
unfoldable pub open_tail : Text → Option ℕ
unfolding trim_start starts_with find_char
open_tail after =
    let trimmed = trim_start after in
    let ws_len = length after - length trimmed in
    if starts_with (b'>' ∷ []) trimmed
    then some (ws_len + 1)
    else (if ltb 0 ws_len
        then elim (find_char b'>' trimmed) [ none ↦ none | some gt ↦ some (ws_len + (gt + 1)) ]
        else none)

-- The loop over the names; `rest` follows the marker in `text`.
unfoldable pub open_name : Text → Text → List Text → Option ℕ
unfolding open_tail strip_prefix
open_name text rest [] = none
open_name text rest (name ∷ names) = elim (strip_prefix name rest) [
  | none ↦ open_name text rest names
  | some after ↦ elim (open_tail after) [
    | none ↦ open_name text rest names
    | some tail_len ↦ some (length text - length after + tail_len)
  ]
]

unfoldable pub match_open_tag_at : Text → List Text → Option ℕ
unfolding strip_prefix strip_marker open_name
match_open_tag_at text names = elim (strip_prefix (b'<' ∷ []) text) [
  | none ↦ none
  | some inner ↦ elim (strip_marker inner) [
    | none ↦ none
    | some rest ↦ open_name text (trim_start rest) names
  ]
]

unfoldable pub close_name : Text → Text → List Text → Option ℕ
unfolding strip_prefix trim_start
close_name text rest [] = none
close_name text rest (name ∷ names) = elim (strip_prefix name rest) [
  | none ↦ close_name text rest names
  | some after ↦ elim (strip_prefix (b'>' ∷ []) (trim_start after)) [
    | none ↦ close_name text rest names
    | some remainder ↦ some (length text - length remainder)
  ]
]

unfoldable pub match_close_tag_at : Text → List Text → Option ℕ
unfolding strip_prefix strip_marker close_name
match_close_tag_at text names = elim (strip_prefix (b'<' ∷ b'/' ∷ []) text) [
  | none ↦ none
  | some inner ↦ elim (strip_marker inner) [
    | none ↦ none
    | some rest ↦ close_name text (trim_start rest) names
  ]
]

unfoldable pub match_tag_at : Bool → Text → List Text → Option ℕ
unfolding match_open_tag_at match_close_tag_at
match_tag_at closing text names =
    if closing then match_close_tag_at text names else match_open_tag_at text names

abbrev pub one_further : Option (ℕ × ℕ) → Option (ℕ × ℕ)
one_further none = none
one_further (some (start, stop)) = some (suc start, suc stop)

-- The first tag: where it starts, and where the text behind it starts.
unfoldable pub find_tag : Text → List Text → Bool → Option (ℕ × ℕ)
unfolding match_tag_at
find_tag [] names closing = none
find_tag (c ∷ s) names closing =
    let later = one_further (find_tag s names closing) in
    if nat_eq c b'<'
    then elim (match_tag_at closing (c ∷ s) names) [ none ↦ later | some len ↦ some (0, len) ]
    else later

unfoldable pub find_open_tag : Text → List Text → Option (ℕ × ℕ)
unfolding find_tag
find_open_tag haystack names = find_tag haystack names false

unfoldable pub find_close_tag : Text → List Text → Option (ℕ × ℕ)
unfolding find_tag
find_close_tag haystack names = find_tag haystack names true

-- Past a marker: optional whitespace, then the beginning of a name.
unfoldable pub begins_name : Text → Text → Bool
unfolding strip_prefix trim_start is_empty starts_with
begins_name rest marker = elim (strip_prefix marker rest) [
  | none ↦ false
  | some after ↦
      is_empty (trim_start after)
      || any (λ name. starts_with (trim_start after) name) tool_call_tags
]

unfoldable pub could_be_open_tag_prefix : Text → Bool
unfolding strip_prefix starts_with begins_name
could_be_open_tag_prefix s = elim (strip_prefix (b'<' ∷ []) s) [
  | none ↦ false
  | some rest ↦
      not (any (λ c. nat_eq c b'>') rest)
      && (any (λ m. starts_with rest m) marker_forms || any (λ m. begins_name rest m) marker_forms)
]

-- The longest end of the buffer, of 64 bytes at most, that may still become an opening tag.
unfoldable pub longest_partial_open_tag_suffix : Text → ℕ
unfolding could_be_open_tag_prefix
longest_partial_open_tag_suffix [] = 0
longest_partial_open_tag_suffix (c ∷ s) =
    if leb (byte_len (c ∷ s)) 64 && could_be_open_tag_prefix (c ∷ s)
    then length (c ∷ s)
    else longest_partial_open_tag_suffix s
