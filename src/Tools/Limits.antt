-- ===== src/Tools/Limits.antt =====
-- crates/arcc-core/src/tools.rs: the size of what a command returns.
use arcc.Base.{
  ℕ, ◌+◌, ◌-◌, ◌≤◌, ◌<◌, ◌≡◌, ◌↔◌, refl, ap, subst, ◌⊎◌, inl, inr, false, List, [], ◌∷◌, ◌++◌,
  Option, leb, leb→le, Bool-cases, arith,
}
use arcc.Base.Text.{Text, byte_len, utf8_len}
use arcc.Tools.{CommandOutput, ok, exited, fit, limit, is_over, truncation_note, collect}

byte_len-append : (s t : Text) → byte_len (s ++ t) ≡ byte_len s + byte_len t
byte_len-append [] t = omega arith
byte_len-append (c ∷ s) t = omega (arith, byte_len-append s t)

-- A text that is cut as late as whole characters allow.
abbrev pub IsCut : ℕ → Text → Text → Type 0
IsCut max_bytes s t =
    (byte_len t ≤ max_bytes)
    × ((rest : Text) × (s ≡ t ++ rest)
        × ((c : ℕ) (r : Text) → rest ≡ c ∷ r → max_bytes < byte_len t + utf8_len c))

fit-IsCut : (max_bytes : ℕ) (s : Text) → IsCut max_bytes s (fit max_bytes s)
unfolding fit
fit-IsCut max_bytes [] = (omega arith, ([], refl, λ c r h. cc))
fit-IsCut max_bytes (c ∷ s) = elim (Bool-cases (leb (utf8_len c) max_bytes)) [
  | inl fits ↦
      let (small, (rest, same, tight)) = fit-IsCut (max_bytes - utf8_len c) s in
      let room = leb→le (utf8_len c) max_bytes fits in
      rw fits
        (omega arith, (rest, ap (λ r. c ∷ r) same, λ d r h. let over = tight d r h in omega arith))
  | inr over ↦
      rw over (omega arith, (c ∷ s, refl, λ d r h. let big = first c s over d r h in omega arith))
]
  where
    first :
        (c : ℕ) (s : Text)
        → leb (utf8_len c) max_bytes ≡ false
        → (d : ℕ) (r : Text) → c ∷ s ≡ d ∷ r
        → max_bytes < utf8_len d
    first c s over d r h =
        let same : c ≡ d = cc in subst (λ x. max_bytes < utf8_len x) same (ground arith)

-- A text as it was, or cut with a note at its end.
abbrev pub IsShortened : ℕ → Text → Text → Type 0
IsShortened max_bytes s t =
    ((byte_len s ≤ max_bytes) × (t ≡ s))
    ⊎ ((max_bytes < byte_len s)
        × ((cut : Text) × IsCut max_bytes s cut × (t ≡ cut ++ truncation_note)))

limit-IsShortened : (max_bytes : ℕ) (s : Text) → IsShortened max_bytes s (limit max_bytes s)
unfolding limit
limit-IsShortened max_bytes s = elim (Bool-cases (is_over max_bytes s)) [
  | inl over ↦ rw over (inr (ground arith, (fit max_bytes s, fit-IsCut max_bytes s, refl)))
  | inr under ↦ rw under (inl (ground arith, refl))
]

limit_bounded : (max_bytes : ℕ) (s : Text) → byte_len (limit max_bytes s) ≤ max_bytes + 16
limit_bounded max_bytes s = elim (limit-IsShortened max_bytes s) [
  | inl (small, same) ↦ rw same (omega arith)
  | inr (over, (cut, (small, rest), same)) ↦
      rw same (omega (arith, byte_len-append cut truncation_note))
]

-- What a command returns is, for each stream, the decoded text where it has at most `max_bytes`
-- bytes, and otherwise its longest prefix of whole characters in that many bytes with a note of 16
-- bytes behind it; `truncated` says whether one of them was cut.
pub collect-IsShortened :
    (decode : List ℕ → Text) (timeout_secs max_bytes : ℕ) (out errors : List ℕ) (code : Option ℕ)
    → (o : CommandOutput) × (collect decode timeout_secs max_bytes (exited out errors code) ≡ ok o)
      × IsShortened max_bytes (decode out) o.stdout
      × IsShortened max_bytes (decode errors) o.stderr
      × (byte_len o.stdout ≤ max_bytes + 16)
      × (byte_len o.stderr ≤ max_bytes + 16)
      × ((o.truncated ≡ false)
          ↔ ((byte_len (decode out) ≤ max_bytes) × (byte_len (decode errors) ≤ max_bytes)))
unfolding collect
collect-IsShortened decode timeout_secs max_bytes out errors code = (
  _,
  refl,
  limit-IsShortened max_bytes (decode out),
  limit-IsShortened max_bytes (decode errors),
  limit_bounded max_bytes (decode out),
  limit_bounded max_bytes (decode errors),
  ((λ h. ground arith), (λ h. ground arith)),
)
