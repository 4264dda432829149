-- ===== src/Dsml/Streaming.antt =====
-- What the streaming accumulator keeps, and what it loses.
use arcc.Base.{
  ℕ, suc, ◌-◌, ◌≤◌, ◌<◌, ◌≡◌, ◌≢◌, refl, ap, inl, inr, true, false, ◌&&◌, [], ◌∷◌, ◌++◌, Option,
  none, some, arith, ltb, leb, Bool-cases, leb→le, and_left, length, drop, take-append-drop,
  length-drop,
}
use arcc.Base.Text.{Text, byte_len}
use arcc.Model.Json.{Value}
use arcc.Dsml.Tags.{
  tool_call_tags, find_open_tag, find_close_tag, could_be_open_tag_prefix,
  longest_partial_open_tag_suffix,
}
use arcc.Dsml.Extraction.{find_open_tag_bound}
use arcc.Dsml.Stream.{DsmlAccumulator, Ingested, close_block, hold_back, settle, ingest}

abbrev pub text_of : Option Text → Text
text_of none = []
text_of (some s) = s

-- The text that a call emits and the text that it keeps.
abbrev pub accounted : Ingested → Text
accounted r = text_of r.emit ++ r.state.buf

-- What is held back is short.
longest_partial_bound :
    (buf : Text)
    → let n = longest_partial_open_tag_suffix buf in
      (n ≤ length buf) × (byte_len (drop (length buf - n) buf) ≤ 64)
unfolding longest_partial_open_tag_suffix
longest_partial_bound [] = omega arith
longest_partial_bound (c ∷ s) =
    elim (Bool-cases (leb (byte_len (c ∷ s)) 64 && could_be_open_tag_prefix (c ∷ s))) [
      | inl held ↦
          let none_over : length (c ∷ s) - length (c ∷ s) ≡ 0 = omega arith in
          let short =
            and_left (leb (byte_len (c ∷ s)) 64) (could_be_open_tag_prefix (c ∷ s)) held in
          rw held (omega arith, rw none_over (leb→le (byte_len (c ∷ s)) 64 short))
      | inr free ↦
          let (fits, short) = longest_partial_bound s in
          let n = longest_partial_open_tag_suffix s in
          let one_more : length (c ∷ s) - n ≡ suc (length s - n) = omega arith in
          rw free (omega arith, rw one_more short)
    ]

hold_back_lem :
    (buf : Text)
    → let r = hold_back buf in
      (accounted r ≡ buf) × (r.calls ≡ []) × (r.state.in_dsml ≡ false) × (byte_len r.state.buf ≤ 64)
unfolding hold_back
hold_back_lem buf =
    let n = longest_partial_open_tag_suffix buf in
    let safe_len = length buf - n in
    let (fits, short) = longest_partial_bound buf in
    elim (Bool-cases (ltb 0 safe_len)) [
      | inl some_safe ↦ rw some_safe (take-append-drop safe_len buf, refl, refl, short)
      | inr none_safe ↦
          let all_held : safe_len ≡ 0 = ground arith in
          rw none_safe (refl, refl, refl, rw all_held at short)
    ]

module _ (from_str : Text → Option Value) (new_id : ℕ → Text) where
  -- While no opening tag is complete, `ingest` loses and changes nothing: what it emits and what
  -- it keeps are the buffered text and the chunk, and it keeps at most 64 bytes.
  pub ingest_plain :
      (drawn : ℕ) (acc : DsmlAccumulator) (delta : Text)
      → acc.in_dsml ≡ false
      → find_open_tag (acc.buf ++ delta) tool_call_tags ≡ none
      → let r = ingest from_str new_id drawn acc delta in
        (accounted r ≡ acc.buf ++ delta)
        × (r.calls ≡ [])
        × (r.state.in_dsml ≡ false)
        × (byte_len r.state.buf ≤ 64)
  unfolding ingest settle
  ingest_plain drawn acc delta outside plain =
      rw (outside, plain, settle) (hold_back_lem (acc.buf ++ delta))

  -- The text in front of a block is lost if the block is opened but not closed in the same call: the
  -- call emits nothing and completes no tool call, and what it keeps begins with the opening tag, so
  -- that the text in front of it is neither emitted nor kept.
  pub ingest_drops_prefix :
      (drawn : ℕ) (acc : DsmlAccumulator) (delta : Text) (pos stop : ℕ)
      → acc.in_dsml ≡ false
      → find_open_tag (acc.buf ++ delta) tool_call_tags ≡ some (pos, stop)
      → find_close_tag (drop pos (acc.buf ++ delta)) tool_call_tags ≡ none
      → 0 < pos
      → let r = ingest from_str new_id drawn acc delta in
        (r.emit ≡ none)
        × (r.calls ≡ [])
        × (r.state.in_dsml ≡ true)
        × (r.state.buf ≡ drop pos (acc.buf ++ delta))
        × (accounted r ≢ acc.buf ++ delta)
  unfolding ingest settle close_block
  ingest_drops_prefix drawn acc delta pos stop outside opened unclosed h =
      let buf = acc.buf ++ delta in
      let fits = find_open_tag_bound buf tool_call_tags pos stop opened in
      rw (outside, opened, settle, unclosed, close_block)
        (refl, refl, refl, refl, λ kept. omega (arith, ap length kept, length-drop pos buf))
