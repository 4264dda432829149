-- ===== src/DeepSeek.antt =====
-- crates/arcc-core/src/model/deepseek.rs: the requests of the DeepSeek client, and what it makes of a
-- whole reply. JSON text is read by `from_str` and written by `to_string`; HTTP is outside.
pub mod Retry
pub mod Sse
pub mod Chunking
pub mod Builders
pub mod Replies
pub mod Wire
mod Tests
use arcc.Base.{
  ℕ, Bool, true, false, not, ◌||◌, List, [], ◌∷◌, ◌++◌, map, ◌⊎◌, inl, inr, Option, none, some,
  ◌==◌, nat_eq, list_Eq, if◌then◌else◌, ◌&&◌, leb,
}
use arcc.Base.Text.{Text, codes}
use arcc.Model.Json.{Value, null, string, obj, arr, str, ◌:=◌, unwrap_or}
use arcc.Model.Types.{
  ChatMessage, ChatRequest, ChatResponse, ImageAttachment, ToolCall, ToolDefinition, Usage,
  user_role,
}
use arcc.Model.Provider.{ModelError, http, api, rate_limited, stream, Result, ok, err}
use arcc.Dsml.Parse.{extract_tool_calls}

pub record ImageUrl : Type 0 where
  pub url : Text
  pub detail : Option Text

pub data ContentPart : Type 0 where
  text : Text → ContentPart
  image : ImageUrl → ContentPart

pub data MessageContent : Type 0 where
  plain : Text → MessageContent
  parts : List ContentPart → MessageContent

pub record DeepSeekMessage : Type 0 where
  pub role : Text
  pub content : MessageContent
  pub tool_calls : Option Value
  pub tool_call_id : Option Text
  pub reasoning_content : Option Text

pub record DeepSeekFunction : Type 0 where
  pub name : Text
  pub description : Text
  pub parameters : Value
  pub strict : Bool

pub record DeepSeekTool : Type 0 where
  pub tool_type : Text
  pub function : DeepSeekFunction

pub record ThinkingConfig : Type 0 where
  pub mode : Text

pub record DeepSeekRequest : Type 0 where
  pub model : Text
  pub messages : List DeepSeekMessage
  pub tools : Option (List DeepSeekTool)
  pub tool_choice : Option Value
  pub temperature : Option ℕ
  pub max_tokens : Option ℕ
  pub stream : Bool
  pub thinking : Option ThinkingConfig
  pub reasoning_effort : Option Text

pub record DeepSeekProvider : Type 0 where
  pub api_base : Text
  pub api_key : Text
  pub model : Text
  pub strict_mode : Bool

-- `trim_end_matches('/')`
unfoldable pub trim_slashes : Text → Text
trim_slashes [] = []
trim_slashes (c ∷ s) = elim (trim_slashes s) [
  | [] ↦ if nat_eq c b'/' then [] else c ∷ []
  | d ∷ r ↦ c ∷ d ∷ r
]

unfoldable pub with_strict_mode : Text → Text → Text → Bool → DeepSeekProvider
unfolding trim_slashes
with_strict_mode api_base api_key model strict_mode = record {
  api_base = trim_slashes api_base;
  api_key = api_key;
  model = model;
  strict_mode = strict_mode;
}

unfoldable pub new_provider : Text → Text → Text → DeepSeekProvider
unfolding with_strict_mode
new_provider api_base api_key model = with_strict_mode api_base api_key model false

unfoldable pub chat_url : DeepSeekProvider → Text
chat_url p =
    p.api_base
    ++ (if p.strict_mode then codes "/beta/v1/chat/completions" else codes "/v1/chat/completions")

abbrev image_part : ImageAttachment → ContentPart
image_part i = image (record {
  url = codes "data:" ++ (i.mime ++ (codes ";base64," ++ i.data_base64));
  detail = some (codes "original");
})

unfoldable pub convert_content : ChatMessage → MessageContent
convert_content m = elim m.images [
  | [] ↦ plain m.content
  | i ∷ images ↦
      if not (m.role == user_role)
      then plain m.content
      else parts (text m.content ∷ map image_part (i ∷ images))
]

module _ (to_string : Value → Text) where
  abbrev wire_call : ToolCall → Value
  wire_call tc = obj (
      ("id" := string tc.id)
      ∷ ("type" := str "function")
      ∷ ("function"
          := obj
              (("name" := string tc.name) ∷ ("arguments" := string (to_string tc.arguments)) ∷ []))
      ∷ [])

  unfoldable pub convert_calls : Option (List ToolCall) → Option Value
  convert_calls none = none
  convert_calls (some calls) = some (arr (map wire_call calls))

  unfoldable pub convert_message : ChatMessage → DeepSeekMessage
  unfolding convert_content convert_calls
  convert_message m = record {
    role = m.role;
    content = convert_content m;
    tool_calls = convert_calls m.tool_calls;
    tool_call_id = m.tool_call_id;
    reasoning_content = m.reasoning_content;
  }

  unfoldable pub convert_messages : List ChatMessage → List DeepSeekMessage
  unfolding convert_message
  convert_messages msgs = map convert_message msgs

unfoldable pub convert_tool : DeepSeekProvider → ToolDefinition → DeepSeekTool
convert_tool p t = record {
  tool_type = codes "function";
  function = record {
    name = t.name;
    description = t.description;
    parameters = t.parameters;
    strict = p.strict_mode || t.strict;
  };
}

unfoldable pub convert_tools : DeepSeekProvider → List ToolDefinition → List DeepSeekTool
unfolding convert_tool
convert_tools p tools = map (convert_tool p) tools

abbrev thinking_of : Option Text → Option ThinkingConfig
thinking_of none = none
thinking_of (some mode) = some (record { mode = mode })

abbrev tools_of : DeepSeekProvider → Option (List ToolDefinition) → Option (List DeepSeekTool)
unfolding convert_tools
tools_of p none = none
tools_of p (some tools) = some (convert_tools p tools)

-- The body of `chat` and of `chat_stream`, which differ in `stream`.
unfoldable pub request_body :
    (Value → Text) → DeepSeekProvider → ChatRequest → Bool → DeepSeekRequest
unfolding convert_messages tools_of
request_body to_string p req streaming = record {
  model = req.model;
  messages = convert_messages to_string req.messages;
  tools = tools_of p req.tools;
  tool_choice = req.tool_choice;
  temperature = req.temperature;
  max_tokens = req.max_tokens;
  stream = streaming;
  thinking = thinking_of req.thinking_mode;
  reasoning_effort = req.reasoning_effort;
}

-- A reply, as it is read from JSON; fields that nothing reads are left out.
pub record DeepSeekToolCallResp : Type 0 where
  pub id : Text
  pub name : Text
  pub arguments : Text

pub record DeepSeekRespMessage : Type 0 where
  pub role : Text
  pub content : Text
  pub reasoning_content : Option Text
  pub tool_calls : Option (List DeepSeekToolCallResp)

pub record DeepSeekResponse : Type 0 where
  pub choices : List DeepSeekRespMessage
  pub usage : Option Usage

module _ (from_str : Text → Option Value) (new_id : ℕ → Text) where
  abbrev native_call : DeepSeekToolCallResp → ToolCall
  native_call tc = record {
    id = tc.id;
    name = tc.name;
    arguments = unwrap_or (from_str tc.arguments) null;
  }

  -- Native calls first, then those that were found in the text.
  unfoldable pub merge_calls : Option (List ToolCall) → List ToolCall → Option (List ToolCall)
  merge_calls calls [] = calls
  merge_calls (some calls) (d ∷ ds) = some (calls ++ (d ∷ ds))
  merge_calls none (d ∷ ds) = some (d ∷ ds)

  unfoldable pub native_calls : Option (List DeepSeekToolCallResp) → Option (List ToolCall)
  unfolding unwrap_or
  native_calls none = none
  native_calls (some calls) = some (map native_call calls)

  unfoldable pub read_choice : DeepSeekRespMessage → Option Usage → ChatResponse
  unfolding merge_calls native_calls extract_tool_calls unwrap_or
  read_choice m usage =
      let found = extract_tool_calls from_str new_id 0 m.content in
      record {
        message = record {
          role = m.role;
          content = found.0;
          images = [];
          tool_calls = merge_calls (native_calls m.tool_calls) found.1;
          tool_call_id = none;
          reasoning_content = m.reasoning_content;
        };
        reasoning_content = m.reasoning_content;
        usage = unwrap_or usage (record { prompt_tokens = 0; completion_tokens = 0 });
      }

  unfoldable pub read_response : DeepSeekResponse → Result ChatResponse
  unfolding read_choice
  read_response r = elim r.choices [
    | [] ↦ err (stream (codes "no choices in response"))
    | m ∷ _ ↦ ok (read_choice m r.usage)
  ]

-- The status of a reply, with the number in its `retry-after`, its text and its reading, or the error of
-- `reqwest`. A text that cannot be read gives an error of `reqwest` too.
pub data HttpReply : Type 0 where
  reply : ℕ → Option ℕ → Text → Text ⊎ DeepSeekResponse → HttpReply
  failed : Text → HttpReply

unfoldable pub status_error : ℕ → Option ℕ → Text → Option ModelError
unfolding unwrap_or
status_error status retry_after body =
    if nat_eq status 429
    then some (rate_limited (unwrap_or retry_after 5))
    else (if leb 200 status && leb status 299 then none else some (api status body))

unfoldable pub read_reply : (Text → Option Value) → (ℕ → Text) → HttpReply → Result ChatResponse
unfolding status_error read_response
read_reply from_str new_id (failed e) = err (http e)
read_reply from_str new_id (reply status retry_after body json) =
    elim (status_error status retry_after body) [
      | some e ↦ err e
      | none ↦ elim json [ inl e ↦ err (http e) | inr r ↦ read_response from_str new_id r ]
    ]
