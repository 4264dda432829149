-- ===== src/Tui/Enter.antt =====
-- crates/arcc-tui/src/ui/app.rs, the main loop of `run`: what the Enter key does. Parameters: the lower
-- case of a text, whether a provider is found, the stored messages of a session, the digits of a
-- number. The ids of sessions are ASCII.
use arcc.Base.{
  ℕ, Bool, false, not, ◌&&◌, ◌||◌, List, [], ◌∷◌, ◌++◌, Option, none, some, ltb, ◌==◌, list_Eq,
  if◌then◌else◌, length, take,
}
use mathlib.Core.List.{reverse}
use arcc.Base.Text.{Text, codes, is_empty, trim, byte_len}
use arcc.Model.Json.{unwrap_or}
use arcc.Tui.{App, PromptRequest, idle_status}
use arcc.Tui.Events.{clear_input, get_elem?}
use arcc.Tui.Submit.{Submitted, submit}

-- The fields of a stored message that are shown.
pub record StoredMessage : Type 0 where
  pub role : Text
  pub content : Text
  pub token_count : Option ℕ
  pub created_at : Option Text

-- What Enter does: the focused tree goes to its next view, a prompt is answered, the messages of a
-- session are shown, the line is submitted, or nothing.
pub data Entered : Type 0 where
  cycled : ℕ → Entered
  answered : ℕ → Option Text → Entered
  shows : Text → Entered
  submitted : Submitted → Entered
  waits : Entered

unfoldable pub role_emoji : Text → Text
role_emoji role =
    if role == codes "user"
    then codes "🧑 "
    else if role == codes "assistant"
    then codes "🤖 "
    else if role == codes "tool"
    then codes "⚡ "
    else codes "📝 "

unfoldable pub short_id : Text → Text
short_id session_id = if ltb 8 (byte_len session_id) then take 8 session_id else session_id

abbrev blank : App → Bool
blank a = is_empty (trim a.input_buffer)

module _ (digits : ℕ → Text) where
  unfoldable pub stored_lines : List StoredMessage → List Text
  unfolding role_emoji unwrap_or
  stored_lines [] = []
  stored_lines (m ∷ ms) =
      let tokens : Text = elim m.token_count [
        | none ↦ []
        | some t ↦ codes " (" ++ (digits t ++ codes " tok)")
      ] in
      (role_emoji m.role ++ m.content)
      ∷ (codes "  _· " ++ (unwrap_or m.created_at (codes "?") ++ (tokens ++ codes "_")))
      ∷ stored_lines ms

  unfoldable pub session_lines : Text → List StoredMessage → List Text
  unfolding stored_lines short_id
  session_lines session_id msgs =
      (codes "🤖 **Session `"
        ++ (short_id session_id
            ++ (codes "` — last " ++ (digits (length msgs) ++ codes " messages**"))))
      ∷ (stored_lines (reverse msgs) ++ codes "🤖 Press Esc to return to dashboard" ∷ [])

  module _ (session_messages : Text → Option (List StoredMessage)) where
    unfoldable pub show_session : Text → App → App
    unfolding session_lines
    show_session session_id a = record (clear_input a) {
      show_dashboard = false;
      dashboard_cursor = 0;
      dashboard_scroll = 0;
      messages = elim (session_messages session_id) [
        | none ↦ a.messages ++ codes "⚠ Failed to load session messages" ∷ []
        | some msgs ↦ session_lines session_id msgs
      ];
    }

    -- The session of the selected row, if there is such a row.
    unfoldable pub open_row : Option Text → App → Entered × App
    unfolding show_session
    open_row none a = (waits, a)
    open_row (some session_id) a = (shows session_id, show_session session_id a)

    module _ (to_lowercase : Text → Text) (pick : Text → Bool) (finished : Bool) where
      -- Behind the tree and the prompt; `finished` says whether the task of the last turn has ended.
      unfoldable pub enter_line : App → Entered × App
      unfolding open_row submit is_empty trim
      enter_line a =
          if a.show_dashboard && blank a
          then open_row
              (elim a.dashboard [ none ↦ none | some ids ↦ get_elem? ids a.dashboard_cursor ]) a
          else if (a.status == idle_status) && (not a.task_handle || finished)
          then (let s = submit pick a in (submitted s.0, s.1))
          else (waits, a)

      unfoldable pub enter_prompt : Option PromptRequest → App → Entered × App
      unfolding enter_line
      enter_prompt none a = enter_line a
      enter_prompt (some p) a =
          let input = to_lowercase (trim a.input_buffer) in
          (
            answered p.response_tx (if is_empty input then none else some input),
            record (clear_input a) { pending_prompt = none; status = idle_status },
          )

      unfoldable pub enter_tree : Option ℕ → App → Entered × App
      unfolding enter_prompt
      enter_tree none a = enter_prompt a.pending_prompt a
      enter_tree (some hash) a = (cycled hash, clear_input a)

      unfoldable pub enter : App → Entered × App
      unfolding enter_tree
      enter a = enter_tree (if blank a then a.focused_tree else none) a
