-- ===== src/Memory.antt =====
-- crates/arcc-core/src/memory.rs: facts about the users, in the table `memories`. A statement that fails
-- changes nothing; here all succeed. `clock` is `datetime('now')`, in seconds, and rows of one second
-- are listed in the order of the table; `to_lowercase` is a parameter.
pub mod Facts
pub mod Extracted
mod Tests
use arcc.Base.{
  ℕ, ◌+◌, Bool, true, false, not, ◌&&◌, ◌||◌, List, [], ◌∷◌, ◌++◌, map, Option, none, some, ltb,
  leb, ◌==◌, nat_eq, list_Eq, if◌then◌else◌, length, keep_if, any,
}
use arcc.Base.Text.{Text, codes, trim, is_empty, lines}
use arcc.Model.Types.{ChatMessage, ChatRequest, ChatResponse, user}
use arcc.Model.Provider.{ModelProvider, ModelError, Result, ok, err}

pub record MemoryFact : Type 0 where
  pub user_id : Text
  pub key : Text
  pub value : Text
  pub source : Text
  pub created_at : ℕ
  pub updated_at : ℕ

abbrev pub is_at : Text → Text → MemoryFact → Bool
is_at user_id key f = (f.user_id == user_id) && (f.key == key)

abbrev pub is_of : Text → MemoryFact → Bool
is_of user_id f = f.user_id == user_id

-- `INSERT … ON CONFLICT(user_id, key) DO UPDATE`
unfoldable pub set : ℕ → Text → Text → Text → Text → List MemoryFact → List MemoryFact
set clock user_id key value source [] =
    record {
      user_id = user_id;
      key = key;
      value = value;
      source = source;
      created_at = clock;
      updated_at = clock;
    }
    ∷ []
set clock user_id key value source (f ∷ fs) =
    if is_at user_id key f
    then record f { value = value; source = source; updated_at = clock } ∷ fs
    else f ∷ set clock user_id key value source fs

-- A row before the rows that were updated earlier.
unfoldable pub place : MemoryFact → List MemoryFact → List MemoryFact
place f [] = f ∷ []
place f (h ∷ hs) = if leb h.updated_at f.updated_at then f ∷ h ∷ hs else h ∷ place f hs

unfoldable pub newest_first : List MemoryFact → List MemoryFact
unfolding place
newest_first [] = []
newest_first (f ∷ fs) = place f (newest_first fs)

unfoldable pub list : Text → List MemoryFact → List MemoryFact
unfolding newest_first
list user_id fs = newest_first (keep_if (is_of user_id) fs)

-- Whether a row was deleted, and the rows that stay.
unfoldable pub delete : Text → Text → List MemoryFact → Bool × List MemoryFact
delete user_id key fs = (any (is_at user_id key) fs, keep_if (λ f. not (is_at user_id key f)) fs)

unfoldable pub clear : Text → List MemoryFact → ℕ × List MemoryFact
clear user_id fs = (length (keep_if (is_of user_id) fs), keep_if (λ f. not (is_of user_id f)) fs)

unfoldable pub fact_lines : List MemoryFact → Text
fact_lines [] = []
fact_lines (f ∷ fs) =
    codes "- " ++ (f.key ++ (codes ": " ++ (f.value ++ (codes "\n" ++ fact_lines fs))))

unfoldable pub format_for_context : Text → List MemoryFact → Text
unfolding list fact_lines
format_for_context user_id fs = elim (list user_id fs) [
  | [] ↦ []
  | f ∷ known ↦
      codes "## Known Facts\n\nThe following facts are known about you:\n\n"
      ++ (fact_lines (f ∷ known) ++ codes "\nThese facts were learned from previous conversations.")
]

-- `split_once(':')`
unfoldable pub split_once : ℕ → Text → Option (Text × Text)
split_once sep [] = none
split_once sep (c ∷ s) =
    if nat_eq c sep
    then some ([], s)
    else elim (split_once sep s) [ none ↦ none | some (a, b) ↦ some (c ∷ a, b) ]

abbrev pub dashed : ℕ → ℕ
dashed c = if nat_eq c 32 then 45 else c

abbrev pub if_both : Text → Text → Option (Text × Text)
if_both key value = if is_empty key || is_empty value then none else some (key, value)

-- `templates::memory_extract()` is the argument `template`; the temperature is in hundredths.
unfoldable pub extract_request : ChatMessage → ModelProvider → Text → Text → ChatRequest
extract_request template flash user_msg asst_msg = record {
  model = flash.model_name;
  messages =
      template ∷ user (codes "User: " ++ (user_msg ++ (codes "\n\nAssistant: " ++ asst_msg))) ∷ [];
  tools = none;
  tool_choice = none;
  temperature = some 10;
  max_tokens = some 256;
  stream = false;
  thinking_mode = none;
  reasoning_effort = none;
}

module _ (to_lowercase : Text → Text) where
  -- The key and the value of a line, if it has both.
  unfoldable pub fact_of : Text → Option (Text × Text)
  unfolding split_once trim is_empty
  fact_of line = elim (split_once b':' (trim line)) [
    | none ↦ none
    | some (before, after) ↦ if_both (map dashed (to_lowercase (trim before))) (trim after)
  ]

  unfoldable pub store_lines : ℕ → Text → List Text → List MemoryFact → List MemoryFact
  unfolding fact_of set
  store_lines clock user_id [] fs = fs
  store_lines clock user_id (l ∷ ls) fs = elim (fact_of l) [
    | none ↦ store_lines clock user_id ls fs
    | some (key, value) ↦
        store_lines clock user_id ls (set clock user_id key value (codes "extraction") fs)
  ]

  unfoldable pub store_body : ℕ → Text → Text → List MemoryFact → List MemoryFact
  unfolding store_lines lines
  store_body clock user_id body fs =
      if body == codes "NO_NEW_FACTS" || is_empty body
      then fs
      else store_lines clock user_id (lines body) fs

  -- The error of the model, if any, and the rows.
  unfoldable pub store_reply :
      ℕ → Text → Result ChatResponse → List MemoryFact → Option ModelError × List MemoryFact
  unfolding store_body trim
  store_reply clock user_id (err e) fs = (some e, fs)
  store_reply clock user_id (ok r) fs = (none, store_body clock user_id (trim r.message.content) fs)

  unfoldable pub extract :
      ℕ
      → ChatMessage
      → ModelProvider
      → Text
      → Text
      → Text
      → List MemoryFact
      → Option ModelError × List MemoryFact
  unfolding extract_request store_reply
  extract clock template flash user_id user_msg asst_msg fs =
      store_reply clock user_id (flash.chat (extract_request template flash user_msg asst_msg)) fs
