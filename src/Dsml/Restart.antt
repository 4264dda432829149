-- ===== src/Dsml/Restart.antt =====
-- crates/arcc-core/src/model/dsml.rs: the recursion of `ingest`, which calls itself for the text behind
-- a block.
use arcc.Base.{
  ℕ, zero, suc, ◌+◌, ◌<◌, ◌≡◌, ap, inl, inr, false, ◌∷◌, ◌++◌, Option, none, arith, Bool-cases,
  Option-cases, List-cases, length, take, drop, length-drop,
}
use arcc.Base.Text.{Text}
use arcc.Model.Json.{Value}
use arcc.Dsml.Tags.{tool_call_tags, find_open_tag, find_close_tag}
use arcc.Dsml.Parse.{extract_tool_calls}
use arcc.Dsml.Extraction.{find_close_tag_bound}
use arcc.Dsml.Stream.{DsmlAccumulator, Ingested, close_block, settle, ingest}

module _ (from_str : Text → Option Value) (new_id : ℕ → Text) where
  -- Two continuations that agree on shorter texts close a block alike.
  close_block-agree :
      (p q : ℕ → DsmlAccumulator → Ingested) (drawn : ℕ) (prefix : Option Text) (buf : Text)
      → ((d : ℕ) (rest : Text)
          → length rest < length buf
          → p d (record { buf = rest; in_dsml = false })
            ≡ q d (record { buf = rest; in_dsml = false }))
      → close_block from_str new_id p drawn prefix buf
        ≡ close_block from_str new_id q drawn prefix buf
  unfolding close_block
  close_block-agree p q drawn prefix buf agree =
      elim (Option-cases (find_close_tag buf tool_call_tags)) [
        | inl unclosed ↦ rw (unclosed, close_block)
        | inr ((start, stop), closed) ↦
            let (before, within) = find_close_tag_bound buf tool_call_tags start stop closed in
            elim (List-cases (drop stop buf)) [
              | inl done ↦ rw (closed, close_block, done)
              | inr (c, suffix, more) ↦
                  let calls = (extract_tool_calls from_str new_id drawn (take stop buf)).1 in
                  let shorter : length (c ∷ suffix) < length buf =
                    omega (arith, ap length more, length-drop stop buf) in
                  rw (closed, close_block, more, agree (drawn + length calls) (c ∷ suffix) shorter)
            ]
      ]

  settle-fuel :
      (f g drawn : ℕ) (acc : DsmlAccumulator)
      → length acc.buf < f
      → length acc.buf < g
      → settle from_str new_id f drawn acc ≡ settle from_str new_id g drawn acc
  unfolding settle
  settle-fuel zero g drawn acc h k = absurd (omega arith)
  settle-fuel (suc f) zero drawn acc h k = absurd (omega arith)
  settle-fuel (suc f) (suc g) drawn acc h k = elim (Bool-cases acc.in_dsml) [
    | inl inside ↦
        rw (inside, settle)
          (close_block-agree (settle from_str new_id f) (settle from_str new_id g) drawn none
            acc.buf
            (λ d rest shorter.
              settle-fuel f g d _ (omega (arith, h, shorter)) (omega (arith, k, shorter))))
    | inr outside ↦ elim (Option-cases (find_open_tag acc.buf tool_call_tags)) [
      | inl plain ↦ rw (outside, settle, plain)
      | inr ((pos, stop), opened) ↦
          rw (outside, settle, opened)
            (close_block-agree (settle from_str new_id f) (settle from_str new_id g) drawn _
              (drop pos acc.buf)
              (λ d rest shorter.
                settle-fuel f g d _ (omega (arith, h, shorter, length-drop pos acc.buf))
                  (omega (arith, k, shorter, length-drop pos acc.buf))))
    ]
  ]

  -- The fuel of `ingest` suffices: with any more of it, the result is the same.
  pub ingest-settle :
      (fuel drawn : ℕ) (acc : DsmlAccumulator) (delta : Text)
      → length (acc.buf ++ delta) < fuel
      → settle from_str new_id fuel drawn (record acc { buf = acc.buf ++ delta })
        ≡ ingest from_str new_id drawn acc delta
  unfolding ingest
  ingest-settle fuel drawn acc delta h =
      settle-fuel fuel (suc (length (acc.buf ++ delta))) drawn
        (record acc { buf = acc.buf ++ delta }) h (omega arith)
