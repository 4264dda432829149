-- ===== src/Tui.antt =====
-- crates/arcc-tui/src/ui/app.rs: the input line of the terminal interface, as far as keys edit it.
-- Positions count characters, as `character_index` does.
pub mod Editing
pub mod Commands
pub mod Events
pub mod Submit
pub mod Enter
pub mod Handles
pub mod Turns
pub mod Soundness
mod Tests
use arcc.Base.{
  ℕ, zero, suc, ◌+◌, ◌-◌, Bool, true, false, ◌&&◌, ◌||◌, List, [], ◌∷◌, ◌++◌, Option, ltb, leb,
  ◌==◌, list_Eq, if◌then◌else◌, length, take, drop,
}
use arcc.Base.Text.{Text, codes}

-- A question to the user; the number names the channel for the answer.
pub record PromptRequest : Type 0 where
  pub message : Text
  pub hint : Text
  pub response_tx : ℕ

-- The fields of `App` that its events change, but for the metrics. A handle is a flag that says
-- whether it is held; the dashboard is the list of its session ids, and `tree_hashes` are the keys of
-- the registry of trees.
pub record App : Type 0 where
  pub input_buffer : Text
  pub character_index : ℕ
  pub messages : List Text
  pub status : Text
  pub running : Bool
  pub task_handle : Bool
  pub init_handle : Bool
  pub reasoning_content : Text
  pub scroll_offset : ℕ
  pub mouse_capture : Bool
  pub pending_prompt : Option PromptRequest
  pub input_history : List Text
  pub history_index : ℕ
  pub completion_candidates : List Text
  pub completion_index : ℕ
  pub tab_active : Bool
  pub blink : ℕ
  pub show_dashboard : Bool
  pub dashboard : Option (List Text)
  pub dashboard_scroll : ℕ
  pub dashboard_cursor : ℕ
  pub monitor_handle : Bool
  pub tree_hashes : List ℕ
  pub focused_tree : Option ℕ

unfoldable pub idle_status : Text
idle_status = codes "idle"

unfoldable pub thinking_status : Text
thinking_status = codes "thinking"

unfoldable pub streaming_status : Text
streaming_status = codes "streaming"

unfoldable pub executing_status : Text
executing_status = codes "executing"

-- `char::is_control`: the Unicode category Cc.
abbrev pub is_control : ℕ → Bool
is_control c = ltb c 32 || (leb 127 c && ltb c 160)

unfoldable pub insert_char : ℕ → App → App
insert_char ch a = record a {
  input_buffer =
      take a.character_index a.input_buffer ++ ch ∷ drop a.character_index a.input_buffer;
  character_index = suc a.character_index;
}

-- `delete_char` with the cursor at a position.
abbrev pub delete_at : ℕ → App → App
delete_at zero a = a
delete_at (suc n) a = record a {
  input_buffer = take n a.input_buffer ++ drop (suc n) a.input_buffer;
  character_index = n;
}

unfoldable pub delete_char : App → App
delete_char a = delete_at a.character_index a

unfoldable pub can_edit : App → Bool
can_edit a = a.status == idle_status || a.status == thinking_status || a.status == streaming_status

unfoldable pub insert_all : Text → App → App
unfolding insert_char
insert_all [] a = a
insert_all (c ∷ cs) a = insert_all cs (if is_control c then a else insert_char c a)

abbrev move_left : App → App
move_left a = record a { character_index = a.character_index - 1 }

abbrev move_right : App → App
move_right a =
    if ltb a.character_index (length a.input_buffer)
    then record a { character_index = a.character_index + 1 }
    else a

unfoldable pub handle_input : Text → App → App
unfolding insert_all delete_char can_edit
handle_input ch a =
    if ch == (10 ∷ []) || ch == (13 ∷ [])
    then a
    else if ch == (8 ∷ []) || ch == (127 ∷ [])
    then if can_edit a then delete_char a else a
    else if ch == (27 ∷ codes "[D")
    then if can_edit a then move_left a else a
    else if ch == (27 ∷ codes "[C")
    then if can_edit a then move_right a else a
    else if a.status == executing_status
    then a
    else record (insert_all ch a) { tab_active = false }
