-- ===== src/Tui/Events.antt =====
-- crates/arcc-tui/src/ui/app.rs, `handle_event`: what each event does to the interface. `none` is the
-- panic of an index that is out of range. Logging, the metrics and the terminal are left out.
use arcc.Base.{
  ℕ, zero, suc, ◌+◌, ◌-◌, ◌%◌, Bool, true, false, not, ◌&&◌, List, [], ◌∷◌, ◌++◌, Option, none,
  some, ltb, leb, nat_eq, ◌==◌, list_Eq, if◌then◌else◌, length, min,
}
use arcc.Base.Text.{Text, codes, is_empty, starts_with, strip_prefix, contains}
use arcc.Tui.{
  PromptRequest, App, handle_input, idle_status, thinking_status, streaming_status,
  executing_status,
}
use arcc.Tui.Commands.{complete}

pub data AppEvent : Type 0 where
  input token tool_exec reasoning set_status : Text → AppEvent
  history_prev history_next tab stream_done tick quit prompt_expired dismiss : AppEvent
  resize interactive_command live_metrics : AppEvent
  scroll_up scroll_down : ℕ → AppEvent
  prompt : PromptRequest → AppEvent
  set_mouse_capture : Bool → AppEvent

-- What leaves the interface: a prompt that is answered with nothing, tasks that are aborted, and the
-- background compression of the sessions.
pub data Effect : Type 0 where
  unanswered : ℕ → Effect
  abort_task abort_monitor compress_all : Effect

abbrev pub waiting_status : Text
waiting_status = codes "waiting..."

-- The rows of the dashboard's table that are in view.
abbrev pub body_h : ℕ
body_h = 8

unfoldable pub view_down : ℕ → App → App
view_down cursor a = record a {
  dashboard_cursor = cursor;
  dashboard_scroll =
      if leb (a.dashboard_scroll + body_h) cursor
      then (cursor - body_h) + 1
      else a.dashboard_scroll;
}

unfoldable pub view_up : ℕ → App → App
view_up cursor a = record a {
  dashboard_cursor = cursor;
  dashboard_scroll = if ltb cursor a.dashboard_scroll then cursor else a.dashboard_scroll;
}

abbrev pub session_count : Option (List Text) → ℕ
session_count none = 0
session_count (some ids) = length ids

abbrev pub clear_input : App → App
clear_input a = record a { input_buffer = []; character_index = 0 }

-- `v[idx]`
abbrev pub get_elem? : List Text → ℕ → Option Text
get_elem? [] i = none
get_elem? (x ∷ xs) zero = some x
get_elem? (x ∷ xs) (suc i) = get_elem? xs i

abbrev pub shown : Text → App → App
shown text a = record a { input_buffer = text; character_index = length text }

-- The entry of the history that the index names, counted from the end.
unfoldable pub take_entry : ℕ → Option Text → App → Option App
take_entry index none a = none
take_entry index (some text) a = some (shown text (record a { history_index = index }))

unfoldable pub show_entry : ℕ → App → Option App
unfolding take_entry
show_entry index a = take_entry index (get_elem? a.input_history (length a.input_history - index)) a

unfoldable pub history_back : App → Option App
unfolding show_entry
history_back a =
    if ltb a.history_index (length a.input_history)
    then show_entry (suc a.history_index) a
    else some a

unfoldable pub history_forward : ℕ → App → Option App
unfolding show_entry
history_forward zero a = some a
history_forward (suc zero) a = some (clear_input (record a { history_index = 0 }))
history_forward (suc (suc n)) a = show_entry (suc n) a

-- The tree behind the focused one, the first behind the last.
unfoldable pub next_tree : ℕ → ℕ → List ℕ → ℕ
next_tree first current [] = first
next_tree first current (h ∷ []) = first
next_tree first current (h ∷ k ∷ hs) =
    if nat_eq h current then k else next_tree first current (k ∷ hs)

unfoldable pub cycle_trees : App → App
unfolding next_tree
cycle_trees a = elim a.tree_hashes [
  | [] ↦ record a { tab_active = false }
  | h ∷ hs ↦ elim a.focused_tree [
    | none ↦ record a { focused_tree = some h }
    | some current ↦ record a { focused_tree = some (next_tree h current (h ∷ hs)) }
  ]
]

abbrev pub has_any : List Text → Bool
has_any [] = false
has_any (t ∷ ts) = true

-- The candidates, collected afresh unless a completion is active.
unfoldable pub with_candidates : Text → App → App
unfolding complete
with_candidates cmd_prefix a = if a.tab_active then a else record a {
  completion_candidates = complete cmd_prefix;
  completion_index = 0;
  tab_active = has_any (complete cmd_prefix);
}

unfoldable pub take_candidate : Option Text → App → Option App
take_candidate none a = none
take_candidate (some name) a = some (record (shown (codes "/" ++ (name ++ codes " ")) a) {
  completion_index = (a.completion_index + 1) % length a.completion_candidates;
})

unfoldable pub next_candidate : App → Option App
unfolding take_candidate
next_candidate a =
    if has_any a.completion_candidates
    then take_candidate (get_elem? a.completion_candidates a.completion_index) a
    else some a

unfoldable pub on_tab : App → Option App
unfolding cycle_trees with_candidates next_candidate strip_prefix is_empty
on_tab a =
    if is_empty a.input_buffer
    then some (cycle_trees a)
    else (elim (strip_prefix (codes "/") a.input_buffer) [
      | none ↦ some (record a { tab_active = false })
      | some cmd_prefix ↦ next_candidate (with_candidates cmd_prefix a)
    ])

-- Text behind the last message, which is begun anew unless it has the prefix.
abbrev last_starts : Text → List Text → Bool
last_starts prefix [] = false
last_starts prefix (m ∷ []) = starts_with prefix m
last_starts prefix (m ∷ n ∷ ms) = last_starts prefix (n ∷ ms)

unfoldable pub push_str : Text → List Text → List Text
push_str text [] = []
push_str text (m ∷ []) = (m ++ text) ∷ []
push_str text (m ∷ n ∷ ms) = m ∷ push_str text (n ∷ ms)

unfoldable pub append_to : Text → Text → List Text → List Text
unfolding push_str starts_with
append_to prefix text ms = push_str text (if last_starts prefix ms then ms else ms ++ prefix ∷ [])

-- `pending_prompt.take()`, answered with `None`.
abbrev drop_prompt : Option PromptRequest → List Effect
drop_prompt none = []
drop_prompt (some p) = unanswered p.response_tx ∷ []

unfoldable pub on_stream_done : App → App × List Effect
on_stream_done a =
    let quiet : App = record a {
      status = idle_status;
      blink = 0;
      reasoning_content = [];
      pending_prompt = none;
    } in
    elim a.pending_prompt [
      | none ↦ (quiet, compress_all ∷ [])
      | some p ↦ (clear_input quiet, unanswered p.response_tx ∷ compress_all ∷ [])
    ]

abbrev last_contains : Text → List Text → Bool
last_contains part [] = false
last_contains part (m ∷ []) = contains part m
last_contains part (m ∷ n ∷ ms) = last_contains part (n ∷ ms)

abbrev has_dashboard : Option (List Text) → Bool
has_dashboard none = false
has_dashboard (some ids) = true

unfoldable pub dismiss_top : App → App × List Effect
unfolding contains
dismiss_top a =
    if not (a.status == idle_status)
    then (
      record a {
        task_handle = false;
        status = idle_status;
        messages = a.messages ++ codes "🤖 _(stopped)_" ∷ [];
        blink = 0;
      },
      (if a.task_handle then abort_task ∷ [] else []),
    )
    else if a.show_dashboard
    then (
      record a {
        show_dashboard = false;
        dashboard_scroll = 0;
        dashboard_cursor = 0;
        monitor_handle = false;
      },
      (if a.monitor_handle then abort_monitor ∷ [] else []),
    )
    else if has_dashboard a.dashboard && last_contains (codes "Esc to return") a.messages
    then (record a { show_dashboard = true }, [])
    else (a, [])

unfoldable pub on_dismiss : App → App × List Effect
unfolding dismiss_top
on_dismiss a = elim a.focused_tree [
  | some h ↦ (record a { focused_tree = none }, [])
  | none ↦ dismiss_top a
]

abbrev pub alone : Option App → Option (App × List Effect)
alone none = none
alone (some a) = some (a, [])

unfoldable pub handle_event : AppEvent → App → Option (App × List Effect)
unfolding handle_input view_down view_up history_back history_forward on_tab append_to
handle_event (input ch) a = some (handle_input ch a, [])
handle_event (prompt req) a = some (
  record a {
    messages = a.messages ++ req.message ∷ [];
    pending_prompt = some req;
    status = waiting_status;
  },
  [],
)
handle_event prompt_expired a = some (
  clear_input (record a { pending_prompt = none; status = idle_status }),
  drop_prompt a.pending_prompt,
)
handle_event (scroll_up lines) a = some (
  if a.show_dashboard
      then view_up (a.dashboard_cursor - lines) a
      else record a { scroll_offset = a.scroll_offset + lines },
  [],
)
handle_event (scroll_down lines) a = some (
  if a.show_dashboard
      then view_down (min (a.dashboard_cursor + lines) (session_count a.dashboard - 1)) a
      else record a { scroll_offset = a.scroll_offset - lines },
  [],
)
handle_event (token text) a = some (
  record a {
    messages = append_to (codes "🤖 ") text a.messages;
    status = streaming_status;
    scroll_offset = 0;
  },
  [],
)
handle_event (tool_exec text) a = some (
  record a {
    messages = a.messages ++ (codes "⚡ " ++ text) ∷ [];
    scroll_offset = 0;
    status = executing_status;
  },
  [],
)
handle_event stream_done a = some (on_stream_done a)
handle_event history_prev a =
    if a.show_dashboard
    then some ((if ltb 0 a.dashboard_cursor then view_up (a.dashboard_cursor - 1) a else a), [])
    else alone (history_back a)
handle_event history_next a =
    if a.show_dashboard
    then some (
      (if ltb (a.dashboard_cursor + 1) (session_count a.dashboard)
          then view_down (a.dashboard_cursor + 1) a
          else a),
      [],
    )
    else alone (history_forward a.history_index a)
handle_event tab a = alone (on_tab a)
handle_event (reasoning text) a = some (
  record a {
    reasoning_content = a.reasoning_content ++ text;
    messages = append_to (codes "🧠 ") text a.messages;
    status = thinking_status;
  },
  [],
)
handle_event tick a = some (record a { blink = (a.blink + 1) % 8 }, [])
handle_event resize a = some (a, [])
handle_event quit a = some (record a { running = false }, [])
handle_event live_metrics a = some (a, [])
handle_event dismiss a = some (on_dismiss a)
handle_event interactive_command a = some (a, [])
handle_event (set_mouse_capture enabled) a = some (record a { mouse_capture = enabled }, [])
handle_event (set_status text) a = some (record a { status = text }, [])
