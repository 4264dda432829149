-- ===== src/Session.antt =====
-- crates/arcc-core/src/session.rs, `Session`: one conversation. A deque is a list, oldest message
-- first. Each operation returns the session and the SQL statements that it runs, in order; a failed
-- statement is logged and changes nothing in memory, so no result of the database is read.
pub mod Sanitize
pub mod ToolOrder
pub mod Kept
pub mod Stable
pub mod Request
pub mod Images
pub mod Budget
pub mod Persistence
pub mod Manager
mod Tests
use arcc.Base.{
  ℕ, ◌+◌, ◌-◌, Bool, true, false, not, ◌&&◌, ◌||◌, List, [], ◌∷◌, ◌++◌, map, Option, none, some,
  suc, ltb, ◌==◌, list_Eq, if◌then◌else◌, length,
}
use arcc.Base.Text.{Text, codes, trim, is_empty, contains}
use arcc.Model.Types.{
  ChatMessage, ChatRequest, ChatResponse, ToolCall, assistant_role, system, user, assistant,
  has_images,
}
use arcc.Model.Provider.{Result, ok, err, ModelProvider}

-- The mutex round the shared connection.
pub data Connection : Type 0 where
  healthy poisoned : Connection

-- The statements of this file, with their parameters; times are left out.
pub data Statement : Type 0 where
  upsert_session : Text → Text → Text → Statement
  update_summary : Text → Text → Statement
  insert_message : Text → Text → Text → Option ℕ → Statement
  touch_session : Text → Statement

pub record Session : Type 0 where
  pub id : Text
  pub name : Text
  pub mode : Text
  pub messages : List ChatMessage
  pub token_count : ℕ
  pub context_max_tokens : ℕ
  pub summary : Option Text
  pub db : Option Connection

unfoldable pub with_db : Session → List Statement → List Statement
with_db s statements = elim s.db [ none ↦ [] | some poisoned ↦ [] | some healthy ↦ statements ]

unfoldable pub persist_new_session : Session → List Statement
unfolding with_db
persist_new_session s = with_db s (upsert_session s.id s.name s.mode ∷ [])

unfoldable pub new_session : Text → Text → Text → ℕ → Option Connection → Session × List Statement
unfolding persist_new_session
new_session id name mode context_max_tokens db =
    let s : Session = record {
      id = id;
      name = name;
      mode = mode;
      messages = [];
      token_count = 0;
      context_max_tokens = context_max_tokens;
      summary = none;
      db = db;
    } in
    (s, persist_new_session s)

unfoldable pub persist_summary : Session → List Statement
unfolding with_db
persist_summary s = elim s.summary [
  | none ↦ []
  | some summary ↦ with_db s (update_summary s.id summary ∷ [])
]

-- The newest message, at the end of the deque.
unfoldable pub back : List ChatMessage → Option ChatMessage
back [] = none
back (m ∷ []) = some m
back (m ∷ n ∷ ms) = back (n ∷ ms)

unfoldable pub persist_message : Session → ℕ → List Statement
unfolding with_db back
persist_message s tokens = elim (back s.messages) [
  | none ↦ []
  | some m ↦
      with_db s (insert_message s.id m.role m.content (some tokens) ∷ touch_session s.id ∷ [])
]

unfoldable pub push_message : Session → ChatMessage → ℕ → Session × List Statement
unfolding persist_message
push_message s m tokens =
    let s' : Session = record s {
      token_count = s.token_count + tokens;
      messages = s.messages ++ m ∷ [];
    } in
    (s', persist_message s' tokens)

unfoldable pub context : Session → List ChatMessage
context s = elim s.summary [
  | none ↦ s.messages
  | some summary ↦ system (codes "[conversation summary] " ++ summary) ∷ s.messages
]

unfoldable pub needs_compression : Session → Bool
needs_compression s = ltb s.context_max_tokens s.token_count

-- `format!("[{}] {}", m.role, m.content)`
abbrev history_line : ChatMessage → Text
history_line m = codes "[" ++ (m.role ++ (codes "] " ++ m.content))

-- `join("\n")`
unfoldable pub join_lines : List Text → Text
join_lines [] = []
join_lines (l ∷ []) = l
join_lines (l ∷ k ∷ ls) = l ++ (10 ∷ join_lines (k ∷ ls))

-- The request of `compress`; the template is the text of prompts/compress.md as a system message.
unfoldable pub compress_prompt : ChatMessage → ModelProvider → Session → ChatRequest
unfolding join_lines
compress_prompt template flash s = record {
  model = flash.model_name;
  messages =
      template
      ∷ user
          (codes "Summarise this conversation:" ++ (10 ∷ join_lines (map history_line s.messages)))
      ∷ [];
  tools = none;
  tool_choice = none;
  temperature = some 30;
  max_tokens = some 1024;
  stream = false;
  thinking_mode = none;
  reasoning_effort = none;
}

-- The fallback loop: drops the oldest messages while the budget is exceeded and over two are left.
unfoldable pub truncate : (Text → ℕ) → ℕ → ℕ → List ChatMessage → List ChatMessage × ℕ
truncate count limit tokens [] = ([], tokens)
truncate count limit tokens (m ∷ ms) =
    let rest = truncate count limit (tokens - count m.content) ms in
    if ltb limit tokens && ltb 2 (length (m ∷ ms)) then rest else (m ∷ ms, tokens)

unfoldable pub compressed : (Text → ℕ) → Session → Text → Session × List Statement
unfolding persist_summary
compressed count s summary_text =
    let note = assistant (codes "[summary] " ++ summary_text) in
    let s' : Session = record s {
      messages = note ∷ [];
      summary = some summary_text;
      token_count = count note.content;
    } in
    (s', persist_summary s')

unfoldable pub truncated : (Text → ℕ) → Session → Session
unfolding truncate
truncated count s =
    let (ms, tokens) = truncate count s.context_max_tokens s.token_count s.messages in
    record s { messages = ms; token_count = tokens }

-- The two outcomes of the summary request.
unfoldable pub summarised : (Text → ℕ) → Session → Result ChatResponse → Session × List Statement
unfolding compressed truncated
summarised count s (ok resp) = compressed count s resp.message.content
summarised count s (err e) = (truncated count s, [])

unfoldable pub compress : ChatMessage → ModelProvider → Session → Session × List Statement
unfolding summarised compress_prompt
compress template flash s = elim s.messages [
  | [] ↦ (s, [])
  | m ∷ ms ↦ summarised flash.count_tokens s (flash.chat (compress_prompt template flash s))
]

unfoldable pub clear_messages : Session → Session
clear_messages s = record s { messages = []; token_count = 0; summary = none }

unfoldable pub reset : Session → Text → Session × List Statement
unfolding persist_new_session
reset s new_id =
    let s' : Session = record s { id = new_id; messages = []; token_count = 0; summary = none } in
    (s', persist_new_session s')

-- Token counts are not known any more, so they are stored as NULL.
unfoldable pub enable_persistence : Session → Connection → Session × List Statement
unfolding persist_new_session with_db
enable_persistence s db = elim s.db [
  | some _ ↦ (s, [])
  | none ↦
      let s' : Session = record s { db = some db } in
      (
        s',
        persist_new_session s'
            ++ with_db s' (
                map (λ m. insert_message s.id m.role m.content none) s.messages
                ++ touch_session s.id ∷ []),
      )
]
