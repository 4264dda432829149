-- ===== src/Dsml/Fuel.antt =====
-- The fuel of the three loops is enough: with more of it they return the same.
use arcc.Base.{
  ℕ, zero, suc, ◌+◌, ◌<◌, ◌≡◌, ap, inl, inr, Option, arith, Option-cases, length, take, drop,
  length-drop,
}
use arcc.Base.Text.{Text, codes}
use arcc.Model.Json.{Value, Fields, end, object}
use arcc.Dsml.Tags.{tool_call_tags, invoke_tags, parameter_tags, find_open_tag, find_close_tag}
use arcc.Dsml.Extraction.{find_open_tag_bound, find_close_tag_bound}
use arcc.Dsml.Parse.{
  slice, extract_attr, parse_parameters_from, parse_parameters, parse_invokes_from,
  parse_invoke_blocks, extract_from, extract_tool_calls,
}

module _ (from_str : Text → Option Value) where
  parse_parameters_from-fuel :
      (f g : ℕ) (text : Text) (map : Fields)
      → length text < f
      → length text < g
      → parse_parameters_from from_str f text map ≡ parse_parameters_from from_str g text map
  unfolding parse_parameters_from
  parse_parameters_from-fuel zero g text map h k = absurd (omega arith)
  parse_parameters_from-fuel (suc f) zero text map h k = absurd (omega arith)
  parse_parameters_from-fuel (suc f) (suc g) text map h k =
      elim (Option-cases (find_open_tag text parameter_tags)) [
        | inl plain ↦ rw (plain, parse_parameters_from)
        | inr ((start, stop), opened) ↦
            let fits = find_open_tag_bound text parameter_tags start stop opened in
            elim (Option-cases (extract_attr (slice text start stop) (codes "name"))) [
              | inl unnamed ↦
                  rw (opened, unnamed, parse_parameters_from)
                    (parse_parameters_from-fuel f g (drop (start + 1) text) map
                      (omega (arith, length-drop (start + 1) text))
                      (omega (arith, length-drop (start + 1) text)))
              | inr (name, named) ↦
                  elim (Option-cases (find_close_tag (drop stop text) parameter_tags)) [
                    | inl unclosed ↦ rw (opened, named, unclosed, parse_parameters_from)
                    | inr ((close_pos, close_end), closed) ↦
                        let left = drop close_end (drop stop text) in
                        let shorter : length left < length text = omega (
                          arith,
                          length-drop close_end (drop stop text),
                          length-drop stop text,
                          find_close_tag_bound (drop stop text) parameter_tags close_pos close_end
                              closed,
                        ) in
                        rw (opened, named, closed, parse_parameters_from)
                          (parse_parameters_from-fuel f g left _ (omega arith) (omega arith))
                  ]
            ]
      ]

  module _ (new_id : ℕ → Text) where
    parse_invokes_from-fuel :
        (f g drawn : ℕ) (text : Text)
        → length text < f
        → length text < g
        → parse_invokes_from from_str new_id f drawn text
          ≡ parse_invokes_from from_str new_id g drawn text
    unfolding parse_invokes_from
    parse_invokes_from-fuel zero g drawn text h k = absurd (omega arith)
    parse_invokes_from-fuel (suc f) zero drawn text h k = absurd (omega arith)
    parse_invokes_from-fuel (suc f) (suc g) drawn text h k =
        elim (Option-cases (find_open_tag text invoke_tags)) [
          | inl plain ↦ rw (plain, parse_invokes_from)
          | inr ((start, stop), opened) ↦
              let fits = find_open_tag_bound text invoke_tags start stop opened in
              elim (Option-cases (extract_attr (slice text start stop) (codes "name"))) [
                | inl unnamed ↦
                    rw (opened, unnamed, parse_invokes_from)
                      (parse_invokes_from-fuel f g drawn (drop (start + 1) text)
                        (omega (arith, length-drop (start + 1) text))
                        (omega (arith, length-drop (start + 1) text)))
                | inr (name, named) ↦
                    elim (Option-cases (find_close_tag (drop stop text) invoke_tags)) [
                      | inl unclosed ↦ rw (opened, named, unclosed, parse_invokes_from)
                      | inr ((close_pos, close_end), closed) ↦
                          let left = drop close_end (drop stop text) in
                          let shorter : length left < length text = omega (
                            arith,
                            length-drop close_end (drop stop text),
                            length-drop stop text,
                            find_close_tag_bound (drop stop text) invoke_tags close_pos close_end
                                closed,
                          ) in
                          let same =
                            parse_invokes_from-fuel f g (suc drawn) left (omega arith)
                              (omega arith) in
                          rw (opened, named, closed, parse_invokes_from) (rw same)
                    ]
              ]
        ]

    extract_from-fuel :
        (f g drawn : ℕ) (text : Text)
        → length text < f
        → length text < g
        → extract_from from_str new_id f drawn text ≡ extract_from from_str new_id g drawn text
    unfolding extract_from
    extract_from-fuel zero g drawn text h k = absurd (omega arith)
    extract_from-fuel (suc f) zero drawn text h k = absurd (omega arith)
    extract_from-fuel (suc f) (suc g) drawn text h k =
        elim (Option-cases (find_open_tag text tool_call_tags)) [
          | inl plain ↦ rw (plain, extract_from)
          | inr ((pos, start), opened) ↦
              let fits = find_open_tag_bound text tool_call_tags pos start opened in
              elim (Option-cases (find_close_tag (drop start text) tool_call_tags)) [
                | inl unclosed ↦ rw (opened, unclosed, extract_from)
                | inr ((close_pos, close_end), closed) ↦
                    let parsed =
                      parse_invoke_blocks from_str new_id drawn
                        (take close_pos (drop start text)) in
                    let left = drop (start + close_end) text in
                    let shorter : length left < length text =
                      omega (arith, length-drop (start + close_end) text) in
                    let same =
                      extract_from-fuel f g (drawn + length parsed) left (omega arith)
                        (omega arith) in
                    rw (opened, closed, extract_from) (rw same)
              ]
        ]

    -- The fuel of the three loops suffices: with any more of it each of them returns what it
    -- returns at the fuel that the code's callers start it with.
    pub loops_have_fuel :
        (fuel drawn : ℕ) (text : Text)
        → length text < fuel
        → (object (parse_parameters_from from_str fuel text end) ≡ parse_parameters from_str text)
          × (parse_invokes_from from_str new_id fuel drawn text
              ≡ parse_invoke_blocks from_str new_id drawn text)
          × (extract_from from_str new_id fuel drawn text
              ≡ extract_tool_calls from_str new_id drawn text)
    unfolding parse_parameters parse_invoke_blocks extract_tool_calls
    loops_have_fuel fuel drawn text h =
        let n = suc (length text) in
        (
          ap object (parse_parameters_from-fuel fuel n text end h (omega arith)),
          parse_invokes_from-fuel fuel n drawn text h (omega arith),
          extract_from-fuel fuel n drawn text h (omega arith),
        )
