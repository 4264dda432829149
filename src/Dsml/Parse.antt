-- ===== src/Dsml/Parse.antt =====
-- crates/arcc-core/src/model/dsml.rs: tool calls out of a finished text. `from_str` is the JSON
-- parser of serde_json, and `new_id n` the n-th id that is drawn: both are arguments. Each loop
-- has one unit of fuel for each character that is left and one more.
use arcc.Base.{
  ℕ, zero, suc, ◌+◌, ◌-◌, Bool, true, false, ◌||◌, List, [], ◌∷◌, ◌++◌, Option, none, some, nat_eq,
  ◌==◌, list_Eq, if◌then◌else◌, length, take, drop,
}
use arcc.Base.Text.{Text, codes, starts_with}
use arcc.Model.Json.{Value, string, object, Fields, end, insert_field}
use arcc.Model.Types.{ToolCall}
use arcc.Dsml.Tags.{
  tool_call_tags, invoke_tags, parameter_tags, find_char, find_open_tag, find_close_tag,
}

-- `text[from..to]`
abbrev pub slice : Text → ℕ → ℕ → Text
slice text from to = take (to - from) (drop from text)

-- `str::find` with a text.
unfoldable pub find_text : Text → Text → Option ℕ
unfolding starts_with
find_text p [] = if starts_with p [] then some 0 else none
find_text p (c ∷ s) =
    let later = find_text p s in
    if starts_with p (c ∷ s) then some 0 else elim later [ none ↦ none | some n ↦ some (suc n) ]

-- The text between a quote and the next one like it.
unfoldable pub quoted : Text → Option Text
unfolding find_char
quoted [] = none
quoted (quote ∷ s) =
    if nat_eq quote b'"' || nat_eq quote b'\''
    then elim (find_char quote s) [ none ↦ none | some stop ↦ some (take stop s) ]
    else none

unfoldable pub extract_attr : Text → Text → Option Text
unfolding find_text quoted
extract_attr tag attr_name =
    let prefix = attr_name ++ codes "=" in
    elim (find_text prefix tag) [ none ↦ none | some pos ↦ quoted (drop (pos + length prefix) tag) ]

abbrev pub is_true : Option Text → Bool
is_true none = false
is_true (some s) = s == codes "true"

module _ (from_str : Text → Option Value) where
  unfoldable pub parse_value : Bool → Text → Value
  parse_value true value_text = string value_text
  parse_value false value_text = elim (from_str value_text) [
    | none ↦ string value_text
    | some value ↦ value
  ]

  unfoldable pub parse_parameters_from : ℕ → Text → Fields → Fields
  unfolding find_open_tag find_close_tag extract_attr parse_value insert_field
  parse_parameters_from zero remaining map = map
  parse_parameters_from (suc fuel) remaining map = elim (find_open_tag remaining parameter_tags) [
    | none ↦ map
    | some (param_start, body_start) ↦
        let open_tag = slice remaining param_start body_start in
        let body = drop body_start remaining in
        elim (extract_attr open_tag (codes "name")) [
          | none ↦ parse_parameters_from fuel (drop (param_start + 1) remaining) map
          | some name ↦ elim (find_close_tag body parameter_tags) [
            | none ↦ map
            | some (close_pos, close_end) ↦
                let is_string = is_true (extract_attr open_tag (codes "string")) in
                parse_parameters_from fuel (drop close_end body)
                  (insert_field name (parse_value is_string (take close_pos body)) map)
          ]
        ]
  ]

  unfoldable pub parse_parameters : Text → Value
  unfolding parse_parameters_from
  parse_parameters body = object (parse_parameters_from (suc (length body)) body end)

  module _ (new_id : ℕ → Text) where
    -- `drawn` ids have been drawn before.
    unfoldable pub parse_invokes_from : ℕ → ℕ → Text → List ToolCall
    unfolding find_open_tag find_close_tag extract_attr parse_parameters
    parse_invokes_from zero drawn remaining = []
    parse_invokes_from (suc fuel) drawn remaining = elim (find_open_tag remaining invoke_tags) [
      | none ↦ []
      | some (invoke_start, body_start) ↦
          let open_tag = slice remaining invoke_start body_start in
          let body = drop body_start remaining in
          elim (extract_attr open_tag (codes "name")) [
            | none ↦ parse_invokes_from fuel drawn (drop (invoke_start + 1) remaining)
            | some name ↦ elim (find_close_tag body invoke_tags) [
              | none ↦ []
              | some (close_pos, close_end) ↦
                  record {
                    id = codes "dsml_" ++ new_id drawn;
                    name = name;
                    arguments = parse_parameters (take close_pos body);
                  }
                  ∷ parse_invokes_from fuel (suc drawn) (drop close_end body)
            ]
          ]
    ]

    unfoldable pub parse_invoke_blocks : ℕ → Text → List ToolCall
    unfolding parse_invokes_from
    parse_invoke_blocks drawn body = parse_invokes_from (suc (length body)) drawn body

    -- The text of a block, kept if nothing could be parsed in it.
    abbrev pub left_over : List ToolCall → Text → Text
    left_over [] block = block
    left_over (c ∷ cs) block = []

    unfoldable pub extract_from : ℕ → ℕ → Text → Text × List ToolCall
    unfolding find_open_tag find_close_tag parse_invoke_blocks
    extract_from zero drawn remaining = (remaining, [])
    extract_from (suc fuel) drawn remaining = elim (find_open_tag remaining tool_call_tags) [
      | none ↦ (remaining, [])
      | some (open_pos, block_start) ↦
          let before = take open_pos remaining in
          let body = drop block_start remaining in
          elim (find_close_tag body tool_call_tags) [
            | none ↦ (before ++ drop open_pos remaining, [])
            | some (close_pos, close_end) ↦
                let block_end = block_start + close_end in
                let parsed = parse_invoke_blocks drawn (take close_pos body) in
                let block = left_over parsed (slice remaining open_pos block_end) in
                let rest = extract_from fuel (drawn + length parsed) (drop block_end remaining) in
                (before ++ (block ++ rest.0), parsed ++ rest.1)
          ]
    ]

    unfoldable pub extract_tool_calls : ℕ → Text → Text × List ToolCall
    unfolding extract_from
    extract_tool_calls drawn content = extract_from (suc (length content)) drawn content
