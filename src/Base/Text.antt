-- ===== src/Base/Text.antt =====
-- Text as the list of its code points, and the parts of Rust's `str` that the program calls.
-- A position is counted in characters where the source counts bytes: both name the same cut.
use Prim.Native.Char.{code}
use Prim.Native.String.{String}
use Prim.Native.Nat.{ℕ, ◌+◌}
use mathlib.Core.Path.{◌≡◌, refl, ap}
use mathlib.Core.Bool.{Bool, true, false, ◌&&◌, ◌||◌}
use mathlib.Core.Logic.{◌↔◌, inl, inr}
use mathlib.Core.Option.{Option, none, some}
use mathlib.Core.List.{List, [], ◌∷◌, ◌++◌, reverse}
use native.Mathlib.Omega.{arith}
use arcc.Base.Tests.{ltb, leb, nat_eq, if◌then◌else◌, Bool-cases}

abbrev pub Text : Type 0
Text = List ℕ

abbrev pub codes : String → Text
codes String.[] = []
codes (String.◌∷◌ c s) = code c ∷ codes s

-- `char::is_whitespace`: the Unicode property White_Space.
unfoldable pub is_whitespace : ℕ → Bool
is_whitespace c =
    (leb 9 c && leb c 13)
    || nat_eq c 32
    || nat_eq c 0x85
    || nat_eq c 0xa0
    || nat_eq c 0x1680
    || (leb 0x2000 c && leb c 0x200a)
    || nat_eq c 0x2028
    || nat_eq c 0x2029
    || nat_eq c 0x202f
    || nat_eq c 0x205f
    || nat_eq c 0x3000

unfoldable pub trim_start : Text → Text
trim_start [] = []
trim_start (c ∷ s) = if is_whitespace c then trim_start s else c ∷ s

unfoldable pub trim : Text → Text
unfolding trim_start is_whitespace
trim s = reverse (trim_start (reverse (trim_start s)))

unfoldable pub is_empty : Text → Bool
is_empty [] = true
is_empty (c ∷ s) = false

unfoldable pub strip_prefix : Text → Text → Option Text
strip_prefix [] s = some s
strip_prefix (p ∷ ps) [] = none
strip_prefix (p ∷ ps) (c ∷ s) = if nat_eq p c then strip_prefix ps s else none

-- `s.starts_with(p)`, with the prefix first.
unfoldable pub starts_with : Text → Text → Bool
starts_with [] s = true
starts_with (p ∷ ps) [] = false
starts_with (p ∷ ps) (c ∷ s) = nat_eq p c && starts_with ps s

-- `s.contains(p)`, with the pattern first.
unfoldable pub contains : Text → Text → Bool
unfolding starts_with
contains p [] = starts_with p []
contains p (c ∷ s) = starts_with p (c ∷ s) || contains p s

-- The bytes of one character in UTF-8, and of a text (`str::len`).
abbrev pub utf8_len : ℕ → ℕ
utf8_len c = if ltb c 0x80 then 1 else (if ltb c 0x800 then 2 else (if ltb c 0x10000 then 3 else 4))

abbrev pub byte_len : Text → ℕ
byte_len [] = 0
byte_len (c ∷ s) = utf8_len c + byte_len s

pub strip_prefix_sound : (p s : Text) {rest : Text} → strip_prefix p s ≡ some rest → s ≡ p ++ rest
unfolding strip_prefix
strip_prefix_sound [] s h = ground arith
strip_prefix_sound (p ∷ ps) [] h = cc
strip_prefix_sound (p ∷ ps) (c ∷ s) {rest} h = ground (arith, strip_prefix_sound ps s {rest = rest})

pub strip_prefix-append : (p s : Text) → strip_prefix p (p ++ s) ≡ some s
unfolding strip_prefix
strip_prefix-append [] s = refl
strip_prefix-append (p ∷ ps) s = ground (arith, strip_prefix-append ps s)

pub starts_with_iff : (p s : Text) → (starts_with p s ≡ true) ↔ ((t : Text) × (s ≡ p ++ t))
unfolding starts_with
starts_with_iff p s = (to p s, from p s)
  where
    to : (p s : Text) → starts_with p s ≡ true → (t : Text) × (s ≡ p ++ t)
    to [] s h = (s, refl)
    to (p ∷ ps) [] h = cc
    to (p ∷ ps) (c ∷ s) h = let (t, e) = to ps s (ground arith) in (t, ground arith)

    from : (p s : Text) → ((t : Text) × (s ≡ p ++ t)) → starts_with p s ≡ true
    from [] s h = refl
    from (p ∷ ps) [] (t, e) = cc
    from (p ∷ ps) (c ∷ s) (t, e) = ground (arith, from ps s (t, ground arith))

-- `needle` occurs in `hay`.
abbrev pub Occurs : Text → Text → Type 0
Occurs needle hay = (before : Text) × (after : Text) × (hay ≡ before ++ (needle ++ after))

pub contains_iff : (p s : Text) → (contains p s ≡ true) ↔ Occurs p s
unfolding contains
contains_iff p s = (to s, from s)
  where
    to : (s : Text) → contains p s ≡ true → Occurs p s
    to [] h = let (t, e) = (starts_with_iff p []).0 h in ([], t, e)
    to (c ∷ s) h = elim (Bool-cases (starts_with p (c ∷ s))) [
      | inl here ↦ let (t, e) = (starts_with_iff p (c ∷ s)).0 here in ([], t, e)
      | inr later ↦
          let (before, after, e) = to s (ground arith) in (c ∷ before, after, ap (λ r. c ∷ r) e)
    ]

    from : (s : Text) → Occurs p s → contains p s ≡ true
    from [] ([], after, e) = (starts_with_iff p []).1 (after, e)
    from [] (b ∷ before, after, e) = cc
    from (c ∷ s) ([], after, e) = ground (arith, (starts_with_iff p (c ∷ s)).1 (after, e))
    from (c ∷ s) (b ∷ before, after, e) = ground (arith, from s (before, after, ground arith))

-- `text.lines()`: the parts between line feeds, a last empty part left out, each without a carriage
-- return at its end.
unfoldable pub strip_cr : Text → Text
strip_cr [] = []
strip_cr (c ∷ []) = if nat_eq c 13 then [] else c ∷ []
strip_cr (c ∷ d ∷ s) = c ∷ strip_cr (d ∷ s)

unfoldable pub lines_from : Text → Text → List Text
unfolding strip_cr is_empty
lines_from line [] = if is_empty line then [] else strip_cr line ∷ []
lines_from line (c ∷ s) =
    let rest = lines_from (if nat_eq c 10 then [] else line ++ (c ∷ [])) s in
    if nat_eq c 10 then strip_cr line ∷ rest else rest

unfoldable pub lines : Text → List Text
unfolding lines_from
lines s = lines_from [] s
