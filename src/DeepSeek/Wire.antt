-- ===== src/DeepSeek/Wire.antt =====
-- Tool calls as they are written into a request and as they are read from a reply.
use arcc.Base.{ℕ, ◌≡◌, refl, ap, List, [], ◌∷◌, map, All, Option, none, some, list_eq, list_Eq}
use arcc.Base.Text.{Text, codes}
use arcc.Model.Json.{
  Value, array, Items, nil, cons, items_of, get_field, get_value, and_get, and_str, as_str,
  unwrap_or,
}
use arcc.Model.Types.{ToolCall}
use arcc.DeepSeek.{DeepSeekToolCallResp, wire_call, convert_calls, native_call, native_calls}

-- The derived reader: each field is there and is a text.
abbrev call_of : Option Text → Option Text → Option Text → Option Text → Option DeepSeekToolCallResp
call_of (some id) (some call_type) (some name) (some arguments) =
    some (record { id = id; name = name; arguments = arguments })
call_of _ _ _ _ = none

unfoldable pub read_call : Value → Option DeepSeekToolCallResp
unfolding and_get and_str
read_call v =
    let function = get_value (codes "function") v in
    call_of (and_str (get_value (codes "id") v)) (and_str (get_value (codes "type") v))
      (and_str (and_get (codes "name") function)) (and_str (and_get (codes "arguments") function))

unfoldable pub read_items : Items → Option (List DeepSeekToolCallResp)
unfolding read_call
read_items nil = some []
read_items (cons v vs) = elim (read_call v) [
  | none ↦ none
  | some c ↦ elim (read_items vs) [ none ↦ none | some cs ↦ some (c ∷ cs) ]
]

unfoldable pub read_calls : Value → Option (List DeepSeekToolCallResp)
unfolding read_items
read_calls (array vs) = read_items vs
read_calls _ = none

read_items-cons :
    (v : Value) (vs : Items) (c : DeepSeekToolCallResp) (cs : List DeepSeekToolCallResp)
    → read_call v ≡ some c
    → read_items vs ≡ some cs
    → read_items (cons v vs) ≡ some (c ∷ cs)
unfolding read_items
read_items-cons v vs c cs h k = rw (h, read_items, k) refl

module _ (to_string : Value → Text) (from_str : Text → Option Value) (new_id : ℕ → Text) where
  abbrev sent_call : ToolCall → DeepSeekToolCallResp
  sent_call tc = record { id = tc.id; name = tc.name; arguments = to_string tc.arguments }

  read_call-wire_call : (tc : ToolCall) → read_call (wire_call to_string tc) ≡ some (sent_call tc)
  unfolding read_call get_value get_field and_get and_str as_str list_eq
  read_call-wire_call tc = refl

  read_items-wire :
      (calls : List ToolCall)
      → read_items (items_of (map (wire_call to_string) calls)) ≡ some (map sent_call calls)
  unfolding read_items
  read_items-wire [] = refl
  read_items-wire (tc ∷ calls) =
      read_items-cons (wire_call to_string tc) (items_of (map (wire_call to_string) calls))
        (sent_call tc) (map sent_call calls) (read_call-wire_call tc) (read_items-wire calls)

  -- The reader of JSON takes back what the writer makes of the arguments.
  abbrev pub IsWritten : ToolCall → Type 0
  IsWritten tc = from_str (to_string tc.arguments) ≡ some tc.arguments

  native_call-sent :
      (calls : List ToolCall)
      → All IsWritten calls
      → map (native_call from_str new_id) (map sent_call calls) ≡ calls
  unfolding unwrap_or
  native_call-sent [] h = refl
  native_call-sent (tc ∷ calls) h = rw h.0 (ap (λ r. tc ∷ r) (native_call-sent calls h.1))

  -- Tool calls that are written into a request are read back from it as they were, if the reader
  -- of JSON takes back what the writer makes of their arguments.
  pub native_calls-convert_calls :
      (calls : List ToolCall)
      → All IsWritten calls
      → (v : Value) × (convert_calls to_string (some calls) ≡ some v)
        × (r : List DeepSeekToolCallResp) × (read_calls v ≡ some r)
        × (native_calls from_str new_id (some r) ≡ some calls)
  unfolding convert_calls read_calls native_calls
  native_calls-convert_calls calls h = (
    array (items_of (map (wire_call to_string) calls)),
    refl,
    map sent_call calls,
    read_items-wire calls,
    ap some (native_call-sent calls h),
  )
