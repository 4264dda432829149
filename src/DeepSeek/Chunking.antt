-- ===== src/DeepSeek/Chunking.antt =====
-- The reader of `chat_stream` does not depend on how the connection cuts the bytes.
use arcc.Base.{
  ℕ, zero, suc, ◌≤◌, ◌<◌, ◌≡◌, refl, sym, ap, ◌∙◌, inl, inr, true, false, ◌&&◌, List, [], ◌∷◌, ◌++◌,
  map, Option, none, some, arith, nat_eq, Bool-cases, Option-cases, length, length-append,
  append_assoc, append-nil,
}
use arcc.Base.Text.{Text}
use arcc.Model.Json.{Value}
use arcc.Model.Provider.{Result, ok}
use arcc.DeepSeek.Sse.{
  DeepSeekStreamChunk, Reader, take_frame, handle_frame, drain, absorb, read_stream,
}

take_frame_shorter :
    (buffer frame rest : List ℕ)
    → take_frame buffer ≡ some (frame, rest)
    → length rest < length buffer
unfolding take_frame
take_frame_shorter [] frame rest h = cc
take_frame_shorter (b ∷ []) frame rest h = cc
take_frame_shorter (b ∷ c ∷ r) frame rest h = elim (Bool-cases (nat_eq b 10 && nat_eq c 10)) [
  | inl cut ↦ ground arith
  | inr on ↦ elim (Option-cases (take_frame (c ∷ r))) [
    | inl e ↦ cc
    | inr ((f, k), e) ↦ let shorter = take_frame_shorter (c ∷ r) f k e in ground arith
  ]
]

-- A frame that is complete stays the first one when more bytes come.
take_frame-append :
    (buffer more frame rest : List ℕ)
    → take_frame buffer ≡ some (frame, rest)
    → take_frame (buffer ++ more) ≡ some (frame, rest ++ more)
unfolding take_frame
take_frame-append [] more frame rest h = cc
take_frame-append (b ∷ []) more frame rest h = cc
take_frame-append (b ∷ c ∷ r) more frame rest h = elim (Bool-cases (nat_eq b 10 && nat_eq c 10)) [
  | inl cut ↦ ground arith
  | inr on ↦ elim (Option-cases (take_frame (c ∷ r))) [
    | inl e ↦ cc
    | inr ((f, k), e) ↦ let longer = take_frame-append (c ∷ r) more f k e in ground arith
  ]
]

module _ (decode : List ℕ → Text) (read_chunk : Text → Option DeepSeekStreamChunk)
    (from_str : Text → Option Value) (new_id : ℕ → Text) where
  abbrev run : ℕ → List ℕ → Reader → List ℕ × Reader
  run = drain decode read_chunk from_str new_id

  drain-none :
      (n : ℕ) (buffer : List ℕ) (r : Reader)
      → take_frame buffer ≡ none
      → run n buffer r ≡ (buffer, r)
  unfolding drain
  drain-none zero buffer r e = refl
  drain-none (suc n) buffer r e = rw (e, drain)

  drain-some :
      (n : ℕ) (buffer frame rest : List ℕ) (r : Reader)
      → take_frame buffer ≡ some (frame, rest)
      → run (suc n) buffer r ≡ run n rest (handle_frame decode read_chunk from_str new_id frame r)
  unfolding drain
  drain-some n buffer frame rest r e = rw (e, drain)

  -- More fuel than there are bytes changes nothing.
  drain_fuel :
      (n m : ℕ) (buffer : List ℕ) (r : Reader)
      → length buffer ≤ n
      → length buffer ≤ m
      → run n buffer r ≡ run m buffer r
  unfolding take_frame drain
  drain_fuel zero zero buffer r h k = refl
  drain_fuel zero (suc m) [] r h k = sym (drain-none (suc m) [] r refl)
  drain_fuel zero (suc m) (b ∷ bs) r h k = absurd (omega arith)
  drain_fuel (suc n) zero [] r h k = drain-none (suc n) [] r refl
  drain_fuel (suc n) zero (b ∷ bs) r h k = absurd (omega arith)
  drain_fuel (suc n) (suc m) buffer r h k = elim (Option-cases (take_frame buffer)) [
    | inl e ↦ drain-none (suc n) buffer r e ∙ sym (drain-none (suc m) buffer r e)
    | inr ((frame, rest), e) ↦
        let shorter = take_frame_shorter buffer frame rest e in
        let same = drain_fuel n m rest _ (omega arith) (omega arith) in
        drain-some n buffer frame rest r e ∙ (same ∙ sym (drain-some m buffer frame rest r e))
  ]

  drain-append :
      (n k m : ℕ) (buffer more : List ℕ) (r : Reader)
      → length buffer ≤ n
      → length ((run n buffer r).0 ++ more) ≤ k
      → length (buffer ++ more) ≤ m
      → run k ((run n buffer r).0 ++ more) (run n buffer r).1 ≡ run m (buffer ++ more) r
  unfolding drain
  drain-append zero k m buffer more r small hk hm = drain_fuel k m (buffer ++ more) r hk hm
  drain-append (suc n) k zero buffer more r small hk hm = elim (Option-cases (take_frame buffer)) [
    | inl e ↦
        let stays = drain-none (suc n) buffer r e in
        rw stays (drain_fuel k zero (buffer ++ more) r (rw stays at hk) hm)
    | inr ((frame, rest), e) ↦
        let shorter = take_frame_shorter buffer frame rest e in
        absurd (omega (arith, length-append buffer more))
  ]
  drain-append (suc n) k (suc m) buffer more r small hk hm =
      elim (Option-cases (take_frame buffer)) [
        | inl e ↦
            let stays = drain-none (suc n) buffer r e in
            rw stays (drain_fuel k (suc m) (buffer ++ more) r (rw stays at hk) hm)
        | inr ((frame, rest), e) ↦
            let shorter = take_frame_shorter buffer frame rest e in
            let first = drain-some n buffer frame rest r e in
            let both =
              drain-some m (buffer ++ more) frame (rest ++ more) r
                (take_frame-append buffer more frame rest e) in
            rw first (
              drain-append n k m rest more (handle_frame decode read_chunk from_str new_id frame r)
                (omega arith) (rw first at hk)
                (omega (arith, length-append buffer more, length-append rest more))
              ∙ sym both)
      ]

  abbrev take_in : List ℕ → List ℕ × Reader → List ℕ × Reader
  take_in = absorb decode read_chunk from_str new_id

  absorb-append :
      (xs ys : List ℕ) (s : List ℕ × Reader) → take_in ys (take_in xs s) ≡ take_in (xs ++ ys) s
  unfolding absorb
  absorb-append xs ys (buffer, r) =
      let all = buffer ++ xs in
      drain-append (length all) _ (length (all ++ ys)) all ys r (omega arith) (omega arith)
        (omega arith)
      ∙ rw (append_assoc buffer xs ys) refl

  -- After each of the chunks but the last one, the end of the stream has not been read.
  abbrev pub StaysOpen : List (List ℕ) → List ℕ × Reader → Type 0
  StaysOpen [] s = Unit
  StaysOpen (c ∷ []) s = Unit
  StaysOpen (c ∷ d ∷ cs) s = ((take_in c s).1.done ≡ false) × StaysOpen (d ∷ cs) (take_in c s)

  abbrev pub concat : List (List ℕ) → List ℕ
  concat [] = []
  concat (c ∷ cs) = c ++ concat cs

  abbrev resume : List (Result (List ℕ)) → List ℕ × Reader → Reader
  unfolding read_stream
  resume rest t = elim t.1.done [
    | true ↦ t.1
    | false ↦ read_stream decode read_chunk from_str new_id rest t
  ]

  -- The reader sends the same whether its bytes come in many chunks or in one, if the end of the
  -- stream is not read before the last chunk; `rest` is what the connection yields after them.
  pub read_stream-concat :
      (c : List ℕ) (cs : List (List ℕ)) (rest : List (Result (List ℕ))) (s : List ℕ × Reader)
      → StaysOpen (c ∷ cs) s
      → read_stream decode read_chunk from_str new_id (map ok (c ∷ cs) ++ rest) s
        ≡ read_stream decode read_chunk from_str new_id (ok (concat (c ∷ cs)) ∷ rest) s
  unfolding read_stream
  read_stream-concat c [] rest s h = rw (append-nil c) refl
  read_stream-concat c (d ∷ cs) rest s h =
      let ih = read_stream-concat d cs rest (take_in c s) h.1 in
      rw (h.0, read_stream) (ih ∙ ap (resume rest) (absorb-append c (d ++ concat cs) s))
