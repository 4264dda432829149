-- ===== src/Acp/Protocol.antt =====
-- crates/arcc-acp/src/protocol.rs: requests and responses of JSON-RPC, and what the agent tells its client.
use Prim.Native.String.{String}
use arcc.Base.{Bool, true, false, [], ◌∷◌, ◌++◌, Option, none, some, ◌==◌, list_Eq, if◌then◌else◌}
use arcc.Base.Text.{Text, codes}
use arcc.Model.Json.{
  Value, null, number, string, object, Items, nil, cons, Fields, get_field, get_value, insert_field,
  and_str, obj, str, ◌:=◌,
}

abbrev pub parse_error : Text
parse_error = codes "-32700"

abbrev pub invalid_request : Text
invalid_request = codes "-32600"

abbrev pub method_not_found : Text
method_not_found = codes "-32601"

abbrev pub invalid_params : Text
invalid_params = codes "-32602"

abbrev pub session_not_found : Text
session_not_found = codes "-32001"

abbrev pub session_busy : Text
session_busy = codes "-32004"

pub record RpcRequest : Type 0 where
  pub jsonrpc : Text
  pub id : Option Value
  pub method : Text
  pub params : Option Value

unfoldable pub is_notification : RpcRequest → Bool
is_notification r = elim r.id [ none ↦ true | some _ ↦ false ]

-- A field of type `Option<Value>`: one that is missing or null is `None`.
unfoldable pub optional_field : Text → Fields → Option Value
unfolding get_field
optional_field k fs = elim (get_field k fs) [
  | none ↦ none
  | some v ↦ elim v [ null ↦ none | other ↦ some other ]
]

-- The derived reader of a request: `jsonrpc` and `method` are there and are texts.
abbrev request_of : Option Text → Option Text → Option Value → Option Value → Option RpcRequest
request_of (some jsonrpc) (some method) id params =
    some (record { jsonrpc = jsonrpc; id = id; method = method; params = params })
request_of _ _ id params = none

unfoldable pub read_request : Fields → Option RpcRequest
unfolding optional_field and_str get_field
read_request fs =
    request_of (and_str (get_field (codes "jsonrpc") fs)) (and_str (get_field (codes "method") fs))
      (optional_field (codes "id") fs) (optional_field (codes "params") fs)

unfoldable pub response_ok : Value → Value → Value
response_ok id result = obj (("jsonrpc" := str "2.0") ∷ ("id" := id) ∷ ("result" := result) ∷ [])

unfoldable pub response_err : Value → Text → Text → Value
response_err id code message = obj (
    ("jsonrpc" := str "2.0")
    ∷ ("id" := id)
    ∷ ("error" := obj (("code" := number code) ∷ ("message" := string message) ∷ []))
    ∷ [])

unfoldable pub notify : Text → Value → Value
notify method params =
    obj (("jsonrpc" := str "2.0") ∷ ("method" := string method) ∷ ("params" := params) ∷ [])

unfoldable pub session_update : Text → Value → Value
unfolding notify
session_update session_id update =
    notify (codes "session/update")
      (obj (("sessionId" := string session_id) ∷ ("update" := update) ∷ []))

-- `update[key] = value` on an object.
abbrev set_field : String → Value → Value → Value
unfolding insert_field
set_field k v (object fs) = object (insert_field (codes k) v fs)
set_field k v other = other

abbrev set_optional : String → Option Text → Value → Value
unfolding set_field
set_optional k none v = v
set_optional k (some t) v = set_field k (string t) v

abbrev text_update : String → Text → Value
text_update kind text = obj (
    ("sessionUpdate" := str kind)
    ∷ ("content" := obj (("type" := str "text") ∷ ("text" := string text) ∷ []))
    ∷ [])

unfoldable pub agent_message_chunk : Option Text → Text → Value
unfolding set_optional
agent_message_chunk message_id text =
    set_optional "messageId" message_id (text_update "agent_message_chunk" text)

unfoldable pub agent_thought_chunk : Option Text → Text → Value
unfolding set_optional
agent_thought_chunk message_id text =
    set_optional "messageId" message_id (text_update "agent_thought_chunk" text)

-- A field that is left out at its default.
abbrev set_unless : String → String → Text → Value → Value
unfolding set_field
set_unless k default t v = if t == codes default then v else set_field k (string t) v

unfoldable pub tool_call_status : Text → Text → Text → Text → Option Text → Value
unfolding set_unless set_optional
tool_call_status tool_call_id title kind status raw_input = set_optional "rawInput" raw_input (
    set_unless "status" "pending" status (
      set_unless "kind" "execute" kind (
        obj (
          ("sessionUpdate" := str "tool_call")
          ∷ ("toolCallId" := string tool_call_id)
          ∷ ("title" := string title)
          ∷ []))))

unfoldable pub tool_call_update : Text → Text → Option Value → Value
unfolding set_field
tool_call_update tool_call_id status raw_output =
    let update = obj (
      ("sessionUpdate" := str "tool_call_update")
      ∷ ("toolCallId" := string tool_call_id)
      ∷ ("status" := string status)
      ∷ []) in
    elim raw_output [ none ↦ update | some r ↦ set_field "rawOutput" r update ]

-- The numbers are given as they are written.
unfoldable pub usage_update : Text → Text → Value
usage_update used size = obj (
    ("sessionUpdate" := str "usage_update")
    ∷ ("used" := number used)
    ∷ ("size" := number size)
    ∷ [])

-- The text of a block `{"type": "text", "text": …}`; another block has none.
unfoldable pub block_text : Value → Text
unfolding and_str get_value
block_text v = elim (and_str (get_value (codes "type") v)) [
  | none ↦ []
  | some kind ↦ elim (and_str (get_value (codes "text") v)) [
    | none ↦ []
    | some text ↦ if kind == codes "text" then text else []
  ]
]

unfoldable pub blocks_text : Items → Text
unfolding block_text
blocks_text nil = []
blocks_text (cons b bs) = block_text b ++ blocks_text bs
