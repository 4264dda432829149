-- ===== src/DeepSeek/Tests.antt =====
-- The theorems about the DeepSeek client at concrete replies.
use arcc.Base.{
  ℕ, zero, suc, ◌≤◌, ◌<◌, ◌≡◌, refl, List, [], ◌∷◌, ◌++◌, Option, none, some, list_eq, list_Eq, inl,
  inr,
}
use arcc.Base.Text.{Text, codes, is_whitespace}
use arcc.Model.Json.{Value, string, str}
use arcc.Model.Types.{ToolCall, ChatResponse, content}
use arcc.Model.Provider.{rate_limited, Result, ok, err}
use arcc.DeepSeek.{
  DeepSeekToolCallResp, DeepSeekResponse, HttpReply, reply, read_choice, read_response, read_reply,
  convert_calls, native_calls,
}
use arcc.DeepSeek.Retry.{IsRun, with_retry, with_retry-IsRun}
use arcc.DeepSeek.Sse.{DeepSeekStreamChunk, DeepSeekStreamToolCall, Reader, new_reader, read_stream}
use arcc.DeepSeek.Chunking.{read_stream-concat}
use arcc.DeepSeek.Replies.{chat, chat-Answers, Answers, IsRefusal}
use arcc.DeepSeek.Wire.{read_calls, native_calls-convert_calls}

abbrev limited_twice : ℕ → Result ℕ
limited_twice zero = err (rate_limited 5)
limited_twice (suc zero) = err (rate_limited 0)
limited_twice (suc (suc n)) = ok n

with_retry-IsRun_example : IsRun limited_twice 0 (with_retry limited_twice)
with_retry-IsRun_example = with_retry-IsRun limited_twice

-- The waits of the loop: the pause of the server, or the delay where that is longer.
waits_test : (with_retry limited_twice).waits ≡ 5 ∷ 2 ∷ []
unfolding with_retry
waits_test = refl

abbrev no_json : Text → Option Value
no_json _ = none

abbrev one_id : ℕ → Text
one_id _ = codes "call_0"

-- A reader of chunks that takes each text for one piece of content.
abbrev as_content : Text → Option DeepSeekStreamChunk
as_content s = some (record {
  choices =
      record { content = some s; reasoning_content = none; tool_calls = none; finish_reason = none }
      ∷ [];
  usage = none;
})

abbrev start : List ℕ × Reader
start = ([], new_reader)

abbrev frame : Text
frame = codes "data: hi" ++ (10 ∷ 10 ∷ [])

abbrev last_frame : Text
last_frame = codes "data: [DONE]" ++ (10 ∷ 10 ∷ [])

stream_test :
    (read_stream (λ b. b) as_content no_json one_id (ok (frame ++ last_frame) ∷ []) start).sent
    ≡ ok (content (codes "hi")) ∷ []
unfolding read_stream new_reader is_whitespace list_eq
stream_test = refl

read_stream-concat_example :
    read_stream (λ b. b) as_content no_json one_id (ok frame ∷ ok last_frame ∷ []) start
    ≡ read_stream (λ b. b) as_content no_json one_id (ok (frame ++ (last_frame ++ [])) ∷ []) start
unfolding read_stream new_reader is_whitespace list_eq
read_stream-concat_example =
    read_stream-concat (λ b. b) as_content no_json one_id frame (last_frame ∷ []) [] start
      (refl, tt)

abbrev piece : ℕ → Text → DeepSeekStreamToolCall
piece n s = record { index = n; id = none; name = none; arguments = some s }

abbrev good_json : DeepSeekResponse
good_json = record {
  choices =
      record {
        role = codes "assistant";
        content = codes "hi";
        reasoning_content = none;
        tool_calls = none;
      }
      ∷ [];
  usage = none;
}

abbrev replies : ℕ → HttpReply
replies zero = reply 429 none [] (inl [])
replies (suc n) = reply 200 none [] (inr good_json)

abbrev answer : ChatResponse
unfolding read_choice
answer =
    read_choice no_json one_id
      (record {
        role = codes "assistant";
        content = codes "hi";
        reasoning_content = none;
        tool_calls = none;
      })
      none

chat-Answers_example :
    (n : ℕ) × (n ≤ 3)
    × Answers no_json one_id (replies n) answer
    × ((k : ℕ) → k < n → IsRefusal no_json one_id (replies k))
unfolding chat with_retry read_reply read_response read_choice
chat-Answers_example = chat-Answers no_json one_id replies answer refl

-- A writer and a reader of JSON that serve texts.
abbrev quote : Value → Text
quote (string s) = s
quote _ = []

abbrev unquote : Text → Option Value
unquote s = some (string s)

abbrev one_call : List ToolCall
one_call = record { id = codes "a"; name = codes "ls"; arguments = str "{}" } ∷ []

native_calls-convert_calls_example :
    (v : Value) × (convert_calls quote (some one_call) ≡ some v)
    × (r : List DeepSeekToolCallResp) × (read_calls v ≡ some r)
    × (native_calls unquote one_id (some r) ≡ some one_call)
native_calls-convert_calls_example =
    native_calls-convert_calls quote unquote one_id one_call (refl, tt)
