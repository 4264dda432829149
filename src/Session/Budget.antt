-- ===== src/Session/Budget.antt =====
-- `compress`: what it leaves in the context.
use arcc.Base.{
  ℕ, suc, ◌+◌, ◌-◌, ◌≤◌, ◌<◌, ◌≡◌, refl, ap, ◌∙◌, ◌⊎◌, inl, inr, List, [], ◌∷◌, ◌++◌, some, arith,
  ltb, ◌&&◌, Bool-cases, List-cases, length, take, drop,
}
use arcc.Base.Text.{Text, codes}
use arcc.Model.Types.{ChatMessage, ChatResponse, assistant}
use arcc.Model.Provider.{Result, ok, err, ModelError, ModelProvider}
use arcc.Session.{Session, truncate, summarised, compress_prompt, compress}

truncate_bounded :
    (count : Text → ℕ) (limit tokens : ℕ) (ms : List ChatMessage)
    → let r = truncate count limit tokens ms in (r.1 ≤ limit) ⊎ (length r.0 ≤ 2)
unfolding truncate
truncate_bounded count limit tokens [] = inr (omega arith)
truncate_bounded count limit tokens (m ∷ ms) =
    ground (arith, truncate_bounded count limit (tokens - count m.content) ms)

summarised_bounded :
    (count : Text → ℕ) (s : Session) (r : Result ChatResponse)
    → let s' = (summarised count s r).0 in
      (s'.token_count ≤ s'.context_max_tokens) ⊎ (length s'.messages ≤ 2)
unfolding summarised
summarised_bounded count s (ok resp) = inr (omega arith)
summarised_bounded count s (err e) =
    truncate_bounded count s.context_max_tokens s.token_count s.messages

-- After a compression the token count is within the budget, or at most two messages are left.
pub compress_bounded :
    (template : ChatMessage) (flash : ModelProvider) (s : Session)
    → let s' = (compress template flash s).0 in
      (s'.token_count ≤ s'.context_max_tokens) ⊎ (length s'.messages ≤ 2)
unfolding compress
compress_bounded template flash s = elim (List-cases s.messages) [
  | inl e ↦ rw (e, compress) (inr (rw e (omega arith)))
  | inr (m, ms, e) ↦
      rw (e, compress)
        (summarised_bounded flash.count_tokens s (flash.chat (compress_prompt template flash s)))
]

-- The tokens of a list of messages, by their contents.
unfoldable pub total_tokens : (Text → ℕ) → List ChatMessage → ℕ
total_tokens count [] = 0
total_tokens count (m ∷ ms) = count m.content + total_tokens count ms

-- What is left of a list and its count when the first messages are dropped one by one, as long as the
-- count is over the budget and more than two are left, and no longer.
abbrev pub IsTrimmed : (Text → ℕ) → ℕ → ℕ → List ChatMessage → List ChatMessage × ℕ → Type 0
IsTrimmed count limit tokens ms (kept, left) =
    (n : ℕ) × (kept ≡ drop n ms)
    × (left ≡ tokens - total_tokens count (take n ms))
    × ((k : ℕ)
        → k < n
        → (limit < tokens - total_tokens count (take k ms)) × (2 < length (drop k ms)))
    × ((left ≤ limit) ⊎ (length kept ≤ 2))

-- The session behind a compression, by what the model answers to the request for a summary.
abbrev pub IsCompressed : (Text → ℕ) → Result ChatResponse → Session → Session → Type 0
IsCompressed count (ok resp) s s' =
    let note = assistant (codes "[summary] " ++ resp.message.content) in
    (s'.messages ≡ note ∷ [])
    × (s'.token_count ≡ count note.content)
    × (s'.summary ≡ some resp.message.content)
IsCompressed count (err e) s s' =
    IsTrimmed count s.context_max_tokens s.token_count s.messages (s'.messages, s'.token_count)
    × (s'.summary ≡ s.summary)

truncate-suffix :
    (count : Text → ℕ) (limit tokens : ℕ) (ms : List ChatMessage)
    → (n : ℕ) × ((truncate count limit tokens ms).0 ≡ drop n ms)
unfolding truncate
truncate-suffix count limit tokens [] = (0, refl)
truncate-suffix count limit tokens (m ∷ ms) =
    let (n, e) = truncate-suffix count limit (tokens - count m.content) ms in
    elim (Bool-cases (ltb limit tokens && ltb 2 (length (m ∷ ms)))) [
      | inl dropped ↦ (suc n, rw dropped e)
      | inr kept ↦ (0, rw kept)
    ]

-- A failed summary request loses only the oldest messages: what is left is an end of the history,
-- no statement is run, and the summary stays as it was.
pub compress-suffix :
    (template : ChatMessage) (flash : ModelProvider) (s : Session) (e : ModelError)
    → flash.chat (compress_prompt template flash s) ≡ err e
    → let r = compress template flash s in
      (n : ℕ) × (r.0.messages ≡ drop n s.messages) × (r.1 ≡ []) × (r.0.summary ≡ s.summary)
unfolding compress
compress-suffix template flash s e failed = elim (List-cases s.messages) [
  | inl empty ↦ rw (empty, compress) (0, empty, refl, refl)
  | inr (m, ms, full) ↦
      let (n, kept) =
        truncate-suffix flash.count_tokens s.context_max_tokens s.token_count s.messages in
      rw (full, compress) (rw failed (n, kept ∙ ap (drop n) full, refl, refl))
]
