-- ===== src/Tui/Tests.antt =====
-- The input line at concrete keys.
use arcc.Base.{ℕ, ◌≡◌, refl, true, false, [], ◌∷◌, none, list_Eq, list_eq, arith}
use arcc.Base.Text.{Text, codes, is_empty, trim, trim_start, is_whitespace, starts_with}
use arcc.Tui.{App, handle_input, can_edit, idle_status, thinking_status, streaming_status}
use arcc.Tui.Editing.{IsPlaced, backspaces, backspaces-handle_input}
use arcc.Tui.Events.{history_prev, dismiss, on_dismiss, handle_event}
use arcc.Tui.Soundness.{HandlesSoundly, handle_event-HandlesSoundly}
use arcc.Tui.Submit.{
  submit, after_input, start_turn, close_dashboard, remember, submit-stale_cursor,
}
use arcc.Tui.Enter.{submitted, enter, enter_tree, enter_prompt, enter_line}
use arcc.Tui.Turns.{
  Loop, after_event, after_enter, Step, event, enters, Steps, here, then_step, IsAlone,
  Steps-IsAlone, is_finished, dismiss-enter,
}

-- The cursor stands behind the second of three characters.
abbrev editing : App
editing = record {
  input_buffer = codes "abc";
  character_index = 2;
  messages = [];
  status = idle_status;
  running = true;
  task_handle = false;
  init_handle = false;
  reasoning_content = [];
  scroll_offset = 0;
  mouse_capture = true;
  pending_prompt = none;
  input_history = codes "ls" ∷ [];
  history_index = 0;
  completion_candidates = [];
  completion_index = 0;
  tab_active = false;
  blink = 0;
  show_dashboard = false;
  dashboard = none;
  dashboard_scroll = 0;
  dashboard_cursor = 0;
  monitor_handle = false;
  tree_hashes = [];
  focused_tree = none;
}

backspaces-handle_input_example :
    ((ch : Text) → IsPlaced (handle_input ch editing))
    × (backspaces 2 (handle_input (codes "xy") editing) ≡ editing)
unfolding can_edit idle_status thinking_status streaming_status list_eq
backspaces-handle_input_example =
    backspaces-handle_input (codes "xy") editing (omega arith) refl (refl, (refl, tt))

handle_event-HandlesSoundly_example : HandlesSoundly (handle_event history_prev editing)
handle_event-HandlesSoundly_example = handle_event-HandlesSoundly history_prev editing (omega arith)

-- The line "abc" is submitted, with the cursor behind its second character.
submit-stale_cursor_example :
    (backspaces 2 (handle_input (codes "xy") (submit (λ _. true) editing).1)).input_buffer
    ≡ codes "xy"
unfolding submit can_edit idle_status thinking_status streaming_status list_eq
submit-stale_cursor_example =
    submit-stale_cursor (λ _. true) editing (codes "xy") 2 refl (refl, (refl, tt)) (omega arith)

-- An interface without a turn, and a press of Enter.
abbrev no_turn : Loop
no_turn = record { app = editing; held = 0; live = []; stopping = []; next = 0 }

abbrev no_digits : ℕ → Text
no_digits n = []

abbrev pressed : Loop → Loop
pressed l = after_enter (enter no_digits (λ _. none) (λ t. t) (λ _. true) true l.app) l

enter-Step : Step no_turn (pressed no_turn)
unfolding enter enter_tree enter_prompt enter_line submit after_input start_turn is_empty trim
    trim_start is_whitespace idle_status thinking_status list_eq starts_with close_dashboard
    remember
enter-Step = enters no_digits (λ _. none) (λ t. t) (λ _. true) _ refl refl

-- The first turn's task is aborted.
abbrev stopped : Loop
stopped = after_event (on_dismiss (pressed no_turn).app) (pressed no_turn)

turn_then_stop : Steps no_turn stopped
unfolding handle_event
turn_then_stop = then_step (then_step here enter-Step) (event dismiss _ refl)

Steps-IsAlone_example : IsAlone stopped
Steps-IsAlone_example = Steps-IsAlone turn_then_stop refl

dismiss-enter_example :
    let m = stopped in
    let s = submit (λ _. true) m.app in
    (m.stopping ≡ 0 ∷ [])
    × (enter no_digits (λ _. none) (λ t. t) (λ _. true) (is_finished m) m.app
        ≡ (submitted s.0, s.1))
unfolding enter enter_tree enter_prompt enter_line submit after_input start_turn is_empty trim
    trim_start is_whitespace idle_status thinking_status list_eq starts_with close_dashboard
    remember
dismiss-enter_example =
    dismiss-enter (pressed no_turn) no_digits (λ _. none) (λ t. t) (λ _. true) refl refl refl refl
      refl refl
