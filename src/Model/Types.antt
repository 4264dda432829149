-- ===== src/Model/Types.antt =====
-- crates/arcc-core/src/model/types.rs: messages, tool calls and images.
use arcc.Base.{ℕ, Bool, true, false, List, [], Option, none, some}
use arcc.Base.Text.{Text, codes}
use arcc.Model.Json.{Value}

pub record ImageAttachment : Type 0 where
  pub mime : Text
  pub data_base64 : Text
  pub width : ℕ
  pub height : ℕ

pub record ToolCall : Type 0 where
  pub id : Text
  pub name : Text
  pub arguments : Value

pub record ChatMessage : Type 0 where
  pub role : Text
  pub content : Text
  pub images : List ImageAttachment
  pub tool_calls : Option (List ToolCall)
  pub tool_call_id : Option Text
  pub reasoning_content : Option Text

-- The roles of the wire format.
unfoldable pub system_role : Text
system_role = codes "system"

unfoldable pub user_role : Text
user_role = codes "user"

unfoldable pub assistant_role : Text
assistant_role = codes "assistant"

unfoldable pub tool_role : Text
tool_role = codes "tool"

unfoldable pub new_message : Text → Text → ChatMessage
new_message role content = record {
  role = role;
  content = content;
  images = [];
  tool_calls = none;
  tool_call_id = none;
  reasoning_content = none;
}

unfoldable pub with_images : ChatMessage → List ImageAttachment → ChatMessage
with_images m images = record m { images = images }

unfoldable pub has_images : ChatMessage → Bool
has_images m = elim m.images [ [] ↦ false | _ ↦ true ]

unfoldable pub system : Text → ChatMessage
unfolding new_message
system content = new_message system_role content

unfoldable pub user : Text → ChatMessage
unfolding new_message
user content = new_message user_role content

unfoldable pub assistant : Text → ChatMessage
unfolding new_message
assistant content = new_message assistant_role content

-- The answer to one tool call of an earlier assistant message.
unfoldable pub tool_result : Text → Text → ChatMessage
unfolding new_message
tool_result tool_call_id content = record (new_message tool_role content) {
  tool_call_id = some tool_call_id;
}

pub record ToolDefinition : Type 0 where
  pub name : Text
  pub description : Text
  pub parameters : Value
  pub strict : Bool

-- The temperature is in hundredths.
pub record ChatRequest : Type 0 where
  pub model : Text
  pub messages : List ChatMessage
  pub tools : Option (List ToolDefinition)
  pub tool_choice : Option Value
  pub temperature : Option ℕ
  pub max_tokens : Option ℕ
  pub stream : Bool
  pub thinking_mode : Option Text
  pub reasoning_effort : Option Text

pub record Usage : Type 0 where
  pub prompt_tokens : ℕ
  pub completion_tokens : ℕ

pub record ChatResponse : Type 0 where
  pub message : ChatMessage
  pub reasoning_content : Option Text
  pub usage : Usage

pub data StreamChunk : Type 0 where
  content : Text → StreamChunk
  reasoning : Text → StreamChunk
  tool_call_start : ToolCall → StreamChunk
  tool_call_end : Text → Text → StreamChunk
  finish : Usage → StreamChunk
