-- ===== src/DeepSeek/Sse.antt =====
-- crates/arcc-core/src/model/deepseek.rs, the task of `chat_stream`: bytes of the reply are cut into
-- frames, their lines are read as chunks, and what they hold is sent to the channel `sent`. The
-- parameters decode bytes (`from_utf8_lossy`), read a chunk and a JSON text, and make ids.
use arcc.Base.{
  ℕ, zero, suc, ◌+◌, Bool, true, false, ◌&&◌, List, [], ◌∷◌, ◌++◌, map, Option, none, some, ◌==◌,
  nat_eq, list_Eq, if◌then◌else◌, length,
}
use arcc.Base.Text.{Text, codes, trim, is_empty, strip_prefix, lines}
use arcc.Model.Json.{Value, string, unwrap_or}
use arcc.Model.Types.{ToolCall, Usage, StreamChunk, content, reasoning, tool_call_start, finish}
use arcc.Model.Provider.{Result, ok, err}
use arcc.Dsml.Stream.{DsmlAccumulator, new_accumulator, ingest, flush}

pub record DeepSeekStreamToolCall : Type 0 where
  pub index : ℕ
  pub id : Option Text
  pub name : Option Text
  pub arguments : Option Text

pub record DeepSeekStreamChoice : Type 0 where
  pub content : Option Text
  pub reasoning_content : Option Text
  pub tool_calls : Option (List DeepSeekStreamToolCall)
  pub finish_reason : Option Text

pub record DeepSeekStreamChunk : Type 0 where
  pub choices : List DeepSeekStreamChoice
  pub usage : Option Usage

pub record ToolCallAccumulator : Type 0 where
  pub id : Option Text
  pub name : Option Text
  pub arguments : Text

abbrev pub new_builder : ToolCallAccumulator
new_builder = record { id = none; name = none; arguments = [] }

-- The variables of the task but for `buffer`; `drawn` counts the ids that were made.
pub record Reader : Type 0 where
  pub builders : List ToolCallAccumulator
  pub dsml : DsmlAccumulator
  pub reasoning_dsml : DsmlAccumulator
  pub done : Bool
  pub drawn : ℕ
  pub sent : List (Result StreamChunk)

unfoldable pub new_reader : Reader
unfolding new_accumulator
new_reader = record {
  builders = [];
  dsml = new_accumulator;
  reasoning_dsml = new_accumulator;
  done = false;
  drawn = 0;
  sent = [];
}

abbrev pub send : Result StreamChunk → Reader → Reader
send c r = record r { sent = r.sent ++ (c ∷ []) }

abbrev pub send_all : List StreamChunk → Reader → Reader
send_all cs r = record r { sent = r.sent ++ map ok cs }

-- A text that is there and is not empty.
abbrev pub non_empty : Option Text → Option Text
non_empty none = none
non_empty (some []) = none
non_empty (some (c ∷ s)) = some (c ∷ s)

abbrev pub as_chunk : (Text → StreamChunk) → Option Text → List StreamChunk
as_chunk kind none = []
as_chunk kind (some s) = kind s ∷ []

-- Both accumulators give back what they hold.
unfoldable pub flush_all : Reader → Reader
unfolding flush
flush_all r =
    let text = flush r.dsml in
    let thought = flush r.reasoning_dsml in
    record (send_all (as_chunk content text.0 ++ as_chunk reasoning (non_empty thought.0)) r) {
      dsml = text.1;
      reasoning_dsml = thought.1;
    }

unfoldable pub end_stream : Reader → Reader
unfolding flush_all
end_stream r = record (flush_all r) { done = true }

-- `while tool_builders.len() <= index { push(default) }`
unfoldable pub grow : ℕ → List ToolCallAccumulator → List ToolCallAccumulator
grow zero [] = new_builder ∷ []
grow zero (b ∷ bs) = b ∷ bs
grow (suc n) [] = new_builder ∷ grow n []
grow (suc n) (b ∷ bs) = b ∷ grow n bs

abbrev pub or_keep : Option Text → Option Text → Option Text
or_keep none old = old
or_keep (some s) old = some s

unfoldable pub add_delta : DeepSeekStreamToolCall → ToolCallAccumulator → ToolCallAccumulator
unfolding unwrap_or
add_delta tc tb = record {
  id = or_keep tc.id tb.id;
  name = or_keep tc.name tb.name;
  arguments = tb.arguments ++ unwrap_or tc.arguments [];
}

unfoldable pub at_index : {A : Type 0} → ℕ → (A → A) → List A → List A
at_index n f [] = []
at_index zero f (b ∷ bs) = f b ∷ bs
at_index (suc n) f (b ∷ bs) = b ∷ at_index n f bs

unfoldable pub add_deltas :
    List DeepSeekStreamToolCall → List ToolCallAccumulator → List ToolCallAccumulator
unfolding grow at_index add_delta
add_deltas [] bs = bs
add_deltas (tc ∷ tcs) bs = add_deltas tcs (at_index tc.index (add_delta tc) (grow tc.index bs))

-- The first frame of a buffer, up to the empty line, and what follows it.
unfoldable pub take_frame : List ℕ → Option (List ℕ × List ℕ)
take_frame [] = none
take_frame (b ∷ []) = none
take_frame (b ∷ c ∷ r) =
    if nat_eq b 10 && nat_eq c 10
    then some (b ∷ c ∷ [], r)
    else elim (take_frame (c ∷ r)) [ none ↦ none | some (frame, rest) ↦ some (b ∷ frame, rest) ]

pub data Line : Type 0 where
  skip : Line
  stop : Line
  chunk : DeepSeekStreamChunk → Line

module _ (decode : List ℕ → Text) (read_chunk : Text → Option DeepSeekStreamChunk)
    (from_str : Text → Option Value) (new_id : ℕ → Text) where
  unfoldable pub build : ToolCallAccumulator → ToolCall
  unfolding unwrap_or
  build tb = record {
    id = unwrap_or tb.id [];
    name = unwrap_or tb.name [];
    arguments = unwrap_or (from_str tb.arguments) (string tb.arguments);
  }

  unfoldable pub read_line : Text → Line
  unfolding trim is_empty strip_prefix
  read_line raw =
      let line = trim raw in
      if is_empty line
      then skip
      else (if line == codes "data: [DONE]"
          then stop
          else elim (strip_prefix (codes "data: ") line) [
            | none ↦ skip
            | some json ↦ elim (read_chunk json) [ none ↦ skip | some c ↦ chunk c ]
          ])

  -- The reasoning of a choice: its calls are dropped, its text is sent.
  unfoldable pub add_reasoning : Option Text → Reader → Reader
  unfolding ingest
  add_reasoning none r = r
  add_reasoning (some s) r =
      let got = ingest from_str new_id r.drawn r.reasoning_dsml s in
      record (send_all (as_chunk reasoning (non_empty got.emit)) r) {
        reasoning_dsml = got.state;
        drawn = r.drawn + length got.calls;
      }

  -- The text of a choice: what is left of it is sent, then the calls that were found in it.
  unfoldable pub add_content : Option Text → Reader → Reader
  unfolding ingest
  add_content none r = r
  add_content (some s) r =
      let got = ingest from_str new_id r.drawn r.dsml s in
      record (send_all (as_chunk content (non_empty got.emit) ++ map tool_call_start got.calls) r) {
        dsml = got.state;
        drawn = r.drawn + length got.calls;
      }

  unfoldable pub finish_calls : Reader → Reader
  unfolding flush_all build
  finish_calls r =
      flush_all
        (record (send_all (map (λ tb. tool_call_start (build tb)) r.builders) r) { builders = [] })

  unfoldable pub handle_choice : DeepSeekStreamChoice → Reader → Reader
  unfolding add_reasoning add_content add_deltas finish_calls
  handle_choice c r =
      let thought = add_reasoning (non_empty c.reasoning_content) r in
      let told = add_content (non_empty c.content) thought in
      let built : Reader = record told {
        builders = add_deltas (unwrap_or c.tool_calls []) told.builders;
      } in
      elim c.finish_reason [
        | none ↦ built
        | some reason ↦ if reason == codes "tool_calls" then finish_calls built else built
      ]

  unfoldable pub handle_choices : List DeepSeekStreamChoice → Reader → Reader
  unfolding handle_choice
  handle_choices [] r = r
  handle_choices (c ∷ cs) r = handle_choices cs (handle_choice c r)

  unfoldable pub handle_chunk : DeepSeekStreamChunk → Reader → Reader
  unfolding handle_choices
  handle_chunk c r =
      let r' = handle_choices c.choices r in
      elim c.usage [ none ↦ r' | some usage ↦ send (ok (finish usage)) r' ]

  unfoldable pub handle_lines : List Text → Reader → Reader
  unfolding read_line handle_chunk end_stream
  handle_lines [] r = r
  handle_lines (l ∷ ls) r = elim (read_line l) [
    | skip ↦ handle_lines ls r
    | stop ↦ end_stream r
    | chunk c ↦ handle_lines ls (handle_chunk c r)
  ]

  unfoldable pub handle_frame : List ℕ → Reader → Reader
  unfolding handle_lines lines
  handle_frame frame r = handle_lines (lines (decode frame)) r

  -- The inner loop: the complete frames of the buffer, with one unit of fuel for each byte.
  unfoldable pub drain : ℕ → List ℕ → Reader → List ℕ × Reader
  unfolding take_frame handle_frame
  drain zero buffer r = (buffer, r)
  drain (suc fuel) buffer r = elim (take_frame buffer) [
    | none ↦ (buffer, r)
    | some (frame, rest) ↦ drain fuel rest (handle_frame frame r)
  ]

  unfoldable pub absorb : List ℕ → List ℕ × Reader → List ℕ × Reader
  unfolding drain
  absorb bytes (buffer, r) = drain (length (buffer ++ bytes)) (buffer ++ bytes) r

  -- The outer loop, over what the connection yields: bytes, an error, or the end.
  unfoldable pub read_stream : List (Result (List ℕ)) → List ℕ × Reader → Reader
  unfolding absorb end_stream
  read_stream [] (buffer, r) = end_stream r
  read_stream (err e ∷ events) (buffer, r) = send (err e) r
  read_stream (ok bytes ∷ events) (buffer, r) =
      let next = absorb bytes (buffer, r) in
      elim next.1.done [ true ↦ next.1 | false ↦ read_stream events next ]
