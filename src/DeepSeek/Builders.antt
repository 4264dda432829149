-- ===== src/DeepSeek/Builders.antt =====
-- The pieces of several tool calls that a stream interleaves.
use arcc.Base.{
  ℕ, zero, suc, ◌≡◌, refl, sym, ap, ◌∙◌, inl, inr, List, [], ◌∷◌, ◌++◌, arith, nat_eq, Bool-cases,
  keep_if, append-nil, append_assoc, if◌then◌else◌,
}
use arcc.Base.Text.{Text}
use arcc.Model.Json.{unwrap_or}
use arcc.DeepSeek.Sse.{
  DeepSeekStreamToolCall, ToolCallAccumulator, new_builder, grow, at_index, add_delta, add_deltas,
}

-- The call at an index, empty if none was begun there.
abbrev pub builder_at : ℕ → List ToolCallAccumulator → ToolCallAccumulator
builder_at n [] = new_builder
builder_at zero (b ∷ bs) = b
builder_at (suc n) (b ∷ bs) = builder_at n bs

abbrev pub deltas_at : ℕ → List DeepSeekStreamToolCall → List DeepSeekStreamToolCall
deltas_at n tcs = keep_if (λ tc. nat_eq tc.index n) tcs

abbrev pub pieces : List DeepSeekStreamToolCall → Text
unfolding unwrap_or
pieces [] = []
pieces (tc ∷ tcs) = unwrap_or tc.arguments [] ++ pieces tcs

-- The deltas of one call, taken alone.
abbrev pub gather : List DeepSeekStreamToolCall → ToolCallAccumulator → ToolCallAccumulator
gather [] tb = tb
gather (tc ∷ tcs) tb = gather tcs (add_delta tc tb)

builder_at-update :
    (n k : ℕ) (f : ToolCallAccumulator → ToolCallAccumulator) (bs : List ToolCallAccumulator)
    → builder_at n (at_index k f (grow k bs))
      ≡ (if nat_eq k n then f (builder_at n bs) else builder_at n bs)
unfolding grow at_index
builder_at-update zero zero f [] = refl
builder_at-update (suc n) zero f [] = ground arith
builder_at-update zero zero f (b ∷ bs) = refl
builder_at-update (suc n) zero f (b ∷ bs) = ground arith
builder_at-update zero (suc k) f [] = ground arith
builder_at-update (suc n) (suc k) f [] = ground (arith, builder_at-update n k f [])
builder_at-update zero (suc k) f (b ∷ bs) = ground arith
builder_at-update (suc n) (suc k) f (b ∷ bs) = ground (arith, builder_at-update n k f bs)

gather-arguments :
    (tcs : List DeepSeekStreamToolCall) (tb : ToolCallAccumulator)
    → (gather tcs tb).arguments ≡ tb.arguments ++ pieces tcs
unfolding add_delta
gather-arguments [] tb = sym (append-nil tb.arguments)
gather-arguments (tc ∷ tcs) tb =
    gather-arguments tcs (add_delta tc tb)
    ∙ append_assoc tb.arguments (unwrap_or tc.arguments []) (pieces tcs)

-- The call that is built at an index is what the deltas of that index make alone, in their
-- order, whatever deltas of other calls stand between them; its arguments are their pieces joined.
pub add_deltas-at :
    (n : ℕ) (tcs : List DeepSeekStreamToolCall) (bs : List ToolCallAccumulator)
    → let built = builder_at n (add_deltas tcs bs) in
      let own = deltas_at n tcs in
      (built ≡ gather own (builder_at n bs))
      × (built.arguments ≡ (builder_at n bs).arguments ++ pieces own)
unfolding add_deltas
add_deltas-at n tcs bs =
    let same = alone n tcs bs in
    (same, ap (λ tb. tb.arguments) same ∙ gather-arguments (deltas_at n tcs) (builder_at n bs))
  where
    alone :
        (n : ℕ) (tcs : List DeepSeekStreamToolCall) (bs : List ToolCallAccumulator)
        → builder_at n (add_deltas tcs bs) ≡ gather (deltas_at n tcs) (builder_at n bs)
    alone n [] bs = refl
    alone n (tc ∷ tcs) bs =
        let later = alone n tcs (at_index tc.index (add_delta tc) (grow tc.index bs)) in
        let here = builder_at-update n tc.index (add_delta tc) bs in
        elim (Bool-cases (nat_eq tc.index n)) [
          | inl own ↦ rw own (later ∙ ap (gather (deltas_at n tcs)) (here ∙ rw own refl))
          | inr other ↦ rw other (later ∙ ap (gather (deltas_at n tcs)) (here ∙ rw other refl))
        ]
