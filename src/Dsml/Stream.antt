-- ===== src/Dsml/Stream.antt =====
-- crates/arcc-core/src/model/dsml.rs, `DsmlAccumulator`: tool calls out of a stream of chunks.
use arcc.Base.{
  ℕ, zero, suc, ◌+◌, ◌-◌, Bool, true, false, List, [], ◌∷◌, ◌++◌, Option, none, some, ltb,
  if◌then◌else◌, length, take, drop,
}
use arcc.Base.Text.{Text}
use arcc.Model.Json.{Value}
use arcc.Model.Types.{ToolCall}
use arcc.Dsml.Tags.{tool_call_tags, find_open_tag, find_close_tag, longest_partial_open_tag_suffix}
use arcc.Dsml.Parse.{extract_tool_calls}

pub record DsmlAccumulator : Type 0 where
  pub buf : Text
  pub in_dsml : Bool

unfoldable pub new_accumulator : DsmlAccumulator
new_accumulator = record { buf = []; in_dsml = false }

-- The text to emit, the completed tool calls and the new state.
pub record Ingested : Type 0 where
  pub emit : Option Text
  pub calls : List ToolCall
  pub state : DsmlAccumulator

-- `content_parts.join("")`, or `None` if there are no parts; an empty part is not kept.
unfoldable pub join_parts : Option Text → Option Text → Option Text
join_parts none none = none
join_parts none (some []) = none
join_parts none (some (c ∷ s)) = some (c ∷ s)
join_parts (some []) none = none
join_parts (some []) (some []) = none
join_parts (some []) (some (c ∷ s)) = some (c ∷ s)
join_parts (some (b ∷ r)) none = some (b ∷ r)
join_parts (some (b ∷ r)) (some []) = some (b ∷ r)
join_parts (some (b ∷ r)) (some (c ∷ s)) = some ((b ∷ r) ++ (c ∷ s))

-- The text that cannot begin a tag is emitted, the rest is held back.
unfoldable pub hold_back : Text → Ingested
unfolding longest_partial_open_tag_suffix
hold_back buf =
    let safe_len = length buf - longest_partial_open_tag_suffix buf in
    if ltb 0 safe_len
    then record {
      emit = some (take safe_len buf);
      calls = [];
      state = record { buf = drop safe_len buf; in_dsml = false };
    }
    else record { emit = none; calls = []; state = record { buf = buf; in_dsml = false } }

module _ (from_str : Text → Option Value) (new_id : ℕ → Text) where
  -- The part of `ingest` inside a block; `again` is the call that takes the text behind the block.
  unfoldable pub close_block : (ℕ → DsmlAccumulator → Ingested) → ℕ → Option Text → Text → Ingested
  unfolding find_close_tag extract_tool_calls join_parts
  close_block again drawn prefix_content buf = elim (find_close_tag buf tool_call_tags) [
    | none ↦ record { emit = none; calls = []; state = record { buf = buf; in_dsml = true } }
    | some (close_pos, dsml_end) ↦
        let tool_calls = (extract_tool_calls from_str new_id drawn (take dsml_end buf)).1 in
        elim (drop dsml_end buf) [
          | [] ↦ record {
            emit = join_parts prefix_content none;
            calls = tool_calls;
            state = record { buf = []; in_dsml = false };
          }
          | c ∷ suffix ↦
              let more =
                again (drawn + length tool_calls) (record { buf = c ∷ suffix; in_dsml = false }) in
              record {
                emit = join_parts prefix_content more.emit;
                calls = tool_calls ++ more.calls;
                state = more.state;
              }
        ]
  ]

  -- `ingest("")`, with one unit of fuel for each character that is buffered and one more.
  unfoldable pub settle : ℕ → ℕ → DsmlAccumulator → Ingested
  unfolding close_block hold_back find_open_tag
  settle zero drawn acc = record { emit = none; calls = []; state = acc }
  settle (suc fuel) drawn acc = elim acc.in_dsml [
    | true ↦ close_block (settle fuel) drawn none acc.buf
    | false ↦ elim (find_open_tag acc.buf tool_call_tags) [
      | none ↦ hold_back acc.buf
      | some (pos, stop) ↦
          close_block (settle fuel) drawn (if ltb 0 pos then some (take pos acc.buf) else none)
            (drop pos acc.buf)
    ]
  ]

  unfoldable pub ingest : ℕ → DsmlAccumulator → Text → Ingested
  unfolding settle
  ingest drawn acc delta =
      let filled : DsmlAccumulator = record acc { buf = acc.buf ++ delta } in
      settle (suc (length filled.buf)) drawn filled

-- The end of the stream: a block that never closed comes out as text.
unfoldable pub flush : DsmlAccumulator → Option Text × DsmlAccumulator
flush acc = elim acc.buf [
  | [] ↦ (none, acc)
  | c ∷ s ↦ (some (c ∷ s), record { buf = []; in_dsml = false })
]
