-- ===== src/Model/Provider.antt =====
-- crates/arcc-core/src/model/provider.rs: the interface of a model, and its errors. What a model
-- answers is not determined by the program: they are fields. A stream is
-- the list of the items that it yields.
use arcc.Base.{ℕ, List}
use arcc.Base.Text.{Text}
use arcc.Model.Types.{ChatRequest, ChatResponse, StreamChunk}

-- A wrapped error of `reqwest` or `serde_json` is kept as its text.
pub data ModelError : Type 0 where
  http : Text → ModelError
  api : ℕ → Text → ModelError
  rate_limited : ℕ → ModelError
  stream : Text → ModelError
  serde : Text → ModelError

pub data Result {ℓ} (A : Type ℓ) : Type ℓ where
  ok : A → Result A
  err : ModelError → Result A

pub record ModelProvider : Type 0 where
  pub model_name : Text
  pub chat : ChatRequest → Result ChatResponse
  pub chat_stream : ChatRequest → Result (List (Result StreamChunk))
  pub count_tokens : Text → ℕ
