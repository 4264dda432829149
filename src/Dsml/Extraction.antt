-- ===== src/Dsml/Extraction.antt =====
-- `extract_tool_calls`: what stays in the text, and that the loops end.
use arcc.Base.{
  ℕ, zero, suc, ◌+◌, ◌-◌, ◌≤◌, ◌<◌, ◌≡◌, refl, sym, ap, ◌∙◌, inl, inr, List, [], ◌∷◌, ◌++◌, Option,
  some, arith, Option-cases, length, take, drop, take-append-drop,
}
use arcc.Base.Text.{Text}
use arcc.Model.Json.{Value}
use arcc.Model.Types.{ToolCall}
use arcc.Dsml.Tags.{tool_call_tags, find_open_tag, find_close_tag}
use arcc.Dsml.Bounds.{find_tag_bound}
use arcc.Dsml.Parse.{slice, left_over, parse_invoke_blocks, extract_from, extract_tool_calls}

pub find_open_tag_bound :
    (text : Text) (names : List Text) (start stop : ℕ)
    → find_open_tag text names ≡ some (start, stop)
    → (start < stop) × (stop ≤ length text)
unfolding find_open_tag
find_open_tag_bound text names start stop e = find_tag_bound text names _ start stop e

pub find_close_tag_bound :
    (text : Text) (names : List Text) (start stop : ℕ)
    → find_close_tag text names ≡ some (start, stop)
    → (start < stop) × (stop ≤ length text)
unfolding find_close_tag
find_close_tag_bound text names start stop e = find_tag_bound text names _ start stop e

drop-nil : (n : ℕ) → drop {A = ℕ} n [] ≡ []
drop-nil zero = refl
drop-nil (suc n) = refl

take-nil : (n : ℕ) → take {A = ℕ} n [] ≡ []
take-nil zero = refl
take-nil (suc n) = refl

pub drop-drop : (m n : ℕ) (s : Text) → drop m (drop n s) ≡ drop (n + m) s
drop-drop m zero s = ap (λ k. drop k s) (omega arith)
drop-drop m (suc n) [] = drop-nil m ∙ sym (drop-nil (suc n + m))
drop-drop m (suc n) (c ∷ s) =
    drop-drop m n s ∙ ap (λ k. drop k (c ∷ s)) (let e : suc (n + m) ≡ suc n + m = omega arith in e)

-- A slice and what follows it.
slice-append-drop :
    (s : Text) (from to : ℕ) → from ≤ to → slice s from to ++ drop to s ≡ drop from s
slice-append-drop s zero to h =
    ap (λ n. take n s ++ drop to s) (let e : to - 0 ≡ to = omega arith in e) ∙ take-append-drop to s
slice-append-drop s (suc from) zero h = absurd (omega arith)
slice-append-drop [] (suc from) (suc to) h = rw take-nil
slice-append-drop (c ∷ s) (suc from) (suc to) h =
    ap (λ n. take n (drop from s) ++ drop to s)
      (let e : suc to - suc from ≡ to - from = omega arith in e)
    ∙ slice-append-drop s from to (omega arith)

append-eq-nil : (xs ys : List ToolCall) → xs ++ ys ≡ [] → (xs ≡ []) × (ys ≡ [])
append-eq-nil [] ys e = (refl, e)
append-eq-nil (x ∷ xs) ys e = cc

module _ (from_str : Text → Option Value) (new_id : ℕ → Text) where
  extract_from-no_calls :
      (fuel drawn : ℕ) (text : Text)
      → (extract_from from_str new_id fuel drawn text).1 ≡ []
      → (extract_from from_str new_id fuel drawn text).0 ≡ text
  unfolding extract_from
  extract_from-no_calls zero drawn text e = refl
  extract_from-no_calls (suc fuel) drawn text e =
      elim (Option-cases (find_open_tag text tool_call_tags)) [
        | inl plain ↦ rw (plain, extract_from)
        | inr ((pos, start), opened) ↦
            elim (Option-cases (find_close_tag (drop start text) tool_call_tags)) [
              | inl unclosed ↦ rw (opened, unclosed, extract_from) (take-append-drop pos text)
              | inr ((close_pos, close_end), closed) ↦
                  let parsed =
                    parse_invoke_blocks from_str new_id drawn (take close_pos (drop start text)) in
                  let stop = start + close_end in
                  let rest =
                    extract_from from_str new_id fuel (drawn + length parsed) (drop stop text) in
                  let none_left : parsed ++ rest.1 ≡ [] = rw (opened, closed, extract_from) at e in
                  let (unparsed, later) = append-eq-nil parsed rest.1 none_left in
                  let kept =
                    extract_from-no_calls fuel (drawn + length parsed) (drop stop text) later in
                  let fits = find_open_tag_bound text tool_call_tags pos start opened in
                  rw (opened, closed, extract_from)
                    (ap
                        (λ p.
                          take pos text
                          ++ (left_over from_str new_id p (slice text pos stop) ++ rest.0))
                        unparsed
                      ∙ (ap (λ r. take pos text ++ (slice text pos stop ++ r)) kept
                          ∙ (ap (λ r. take pos text ++ r)
                                (slice-append-drop text pos stop (omega arith))
                              ∙ take-append-drop pos text)))
            ]
      ]

  -- A text in which no call is recognised comes back unchanged, blocks that are malformed or not
  -- closed included.
  pub extract_tool_calls-no_calls :
      (drawn : ℕ) (content : Text)
      → (extract_tool_calls from_str new_id drawn content).1 ≡ []
      → (extract_tool_calls from_str new_id drawn content).0 ≡ content
  unfolding extract_tool_calls
  extract_tool_calls-no_calls drawn content =
      extract_from-no_calls (suc (length content)) drawn content
