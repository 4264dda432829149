-- ===== src/Tui/Handles.antt =====
-- crates/arcc-tui/src/ui/app.rs: what events and the Enter key do to the handle of a turn's task.
use arcc.Base.{
  ℕ, zero, suc, ◌≡◌, refl, ◌⊎◌, inl, inr, Bool, true, false, not, ◌&&◌, ◌||◌, List, [], ◌∷◌, Option,
  none, some, arith, ltb, ◌==◌, list_Eq, if◌then◌else◌, length, any, Bool-cases, and_right,
  if_either, option_either, subst,
}
use arcc.Base.Text.{Text, is_empty, trim, codes, strip_prefix}
use arcc.Tui.{
  App, PromptRequest, idle_status, handle_input, insert_all, insert_char, delete_char, is_control,
}
use arcc.Tui.Events.{
  AppEvent, Effect, abort_task, handle_event, alone, input, token, tool_exec, reasoning, set_status,
  history_prev, history_next, tab, stream_done, tick, quit, prompt_expired, dismiss, resize,
  interactive_command, live_metrics, scroll_up, scroll_down, prompt, set_mouse_capture, on_tab,
  history_back, history_forward, on_dismiss, on_stream_done, dismiss_top, view_up, view_down,
  next_candidate, take_candidate, cycle_trees, with_candidates, show_entry, take_entry, get_elem?,
  has_any,
}
use arcc.Tui.Submit.{
  Submitted, plan, command, turn, submit, after_input, start_turn, plan_submit, remember,
  close_dashboard,
}
use arcc.Tui.Enter.{
  StoredMessage, Entered, submitted, enter, enter_tree, enter_prompt, enter_line, open_row,
  show_session,
}

-- Whether a submission has started a task.
abbrev starts_task : Submitted → Bool
starts_task (plan task) = true
starts_task (turn p) = true
starts_task _ = false

abbrev pub starts : Entered → Bool
starts (submitted s) = starts_task s
starts _ = false

-- A slash command is carried out by `dispatch_command`.
abbrev pub is_command : Entered → Bool
is_command (submitted (command p)) = true
is_command _ = false

abbrev pub is_abort : Effect → Bool
is_abort abort_task = true
is_abort _ = false

abbrev pub aborts : List Effect → Bool
aborts effects = any is_abort effects

-- The handle of a task is kept, or the task is aborted and the handle dropped.
abbrev pub KeepsTask : Bool → Option (App × List Effect) → Type 0
KeepsTask held none = Unit
KeepsTask held (some (b, effects)) =
    ((aborts effects ≡ false) × (b.task_handle ≡ held))
    ⊎ ((aborts effects ≡ true) × (b.task_handle ≡ false))

abbrev KeepsHandle : Bool → Option App → Type 0
KeepsHandle held none = Unit
KeepsHandle held (some b) = b.task_handle ≡ held

alone-KeepsTask : (held : Bool) (o : Option App) → KeepsHandle held o → KeepsTask held (alone o)
alone-KeepsTask held none k = tt
alone-KeepsTask held (some b) k = inl (refl, k)

take_entry-KeepsHandle :
    (i : ℕ) (o : Option Text) (a : App) → KeepsHandle a.task_handle (take_entry i o a)
unfolding take_entry
take_entry-KeepsHandle i none a = tt
take_entry-KeepsHandle i (some t) a = refl

show_entry-KeepsHandle : (i : ℕ) (a : App) → KeepsHandle a.task_handle (show_entry i a)
unfolding show_entry
show_entry-KeepsHandle i a = take_entry-KeepsHandle i _ a

history_back-KeepsHandle : (a : App) → KeepsHandle a.task_handle (history_back a)
unfolding history_back
history_back-KeepsHandle a =
    if_either (KeepsHandle a.task_handle) (ltb a.history_index (length a.input_history))
      (show_entry-KeepsHandle (suc a.history_index) a) refl

history_forward-KeepsHandle : (n : ℕ) (a : App) → KeepsHandle a.task_handle (history_forward n a)
unfolding history_forward
history_forward-KeepsHandle zero a = refl
history_forward-KeepsHandle (suc zero) a = refl
history_forward-KeepsHandle (suc (suc n)) a = show_entry-KeepsHandle (suc n) a

take_candidate-KeepsHandle :
    (o : Option Text) (a : App) → KeepsHandle a.task_handle (take_candidate o a)
unfolding take_candidate
take_candidate-KeepsHandle none a = tt
take_candidate-KeepsHandle (some t) a = refl

next_candidate-KeepsHandle :
    (a : App) (held : Bool) → a.task_handle ≡ held → KeepsHandle held (next_candidate a)
unfolding next_candidate
next_candidate-KeepsHandle a held e =
    subst (λ h. KeepsHandle h (next_candidate a)) e
      (if_either (KeepsHandle a.task_handle) (has_any a.completion_candidates)
        (take_candidate-KeepsHandle (get_elem? a.completion_candidates a.completion_index) a) refl)

on_tab-KeepsHandle : (a : App) → KeepsHandle a.task_handle (on_tab a)
unfolding on_tab cycle_trees with_candidates
on_tab-KeepsHandle a =
    if_either (KeepsHandle a.task_handle) (is_empty a.input_buffer) (ground arith) (
      option_either (KeepsHandle a.task_handle) (strip_prefix (codes "/") a.input_buffer) refl
        (λ rest. next_candidate-KeepsHandle (with_candidates rest a) a.task_handle (ground arith)))

insert_all-task_handle : (cs : Text) (a : App) → (insert_all cs a).task_handle ≡ a.task_handle
unfolding insert_all insert_char
insert_all-task_handle [] a = refl
insert_all-task_handle (c ∷ cs) a =
    ground (arith, insert_all-task_handle cs (if is_control c then a else insert_char c a))

handle_input-task_handle : (ch : Text) (a : App) → (handle_input ch a).task_handle ≡ a.task_handle
unfolding handle_input delete_char
handle_input-task_handle ch a = ground (arith, insert_all-task_handle ch a)

on_dismiss-KeepsTask : (a : App) → KeepsTask a.task_handle (some (on_dismiss a))
unfolding on_dismiss dismiss_top
on_dismiss-KeepsTask a = ground arith

on_stream_done-KeepsTask : (a : App) → KeepsTask a.task_handle (some (on_stream_done a))
unfolding on_stream_done
on_stream_done-KeepsTask a = ground arith

pub handle_event-KeepsTask : (e : AppEvent) (a : App) → KeepsTask a.task_handle (handle_event e a)
unfolding handle_event view_up view_down
handle_event-KeepsTask (input ch) a = inl (refl, handle_input-task_handle ch a)
handle_event-KeepsTask (prompt req) a = inl (refl, refl)
handle_event-KeepsTask prompt_expired a = ground arith
handle_event-KeepsTask (scroll_up lines) a = ground arith
handle_event-KeepsTask (scroll_down lines) a = ground arith
handle_event-KeepsTask (token text) a = inl (refl, refl)
handle_event-KeepsTask (tool_exec text) a = inl (refl, refl)
handle_event-KeepsTask stream_done a = on_stream_done-KeepsTask a
handle_event-KeepsTask history_prev a =
    if_either (KeepsTask a.task_handle) a.show_dashboard (ground arith)
      (alone-KeepsTask a.task_handle (history_back a) (history_back-KeepsHandle a))
handle_event-KeepsTask history_next a =
    if_either (KeepsTask a.task_handle) a.show_dashboard (ground arith) (
      alone-KeepsTask a.task_handle (history_forward a.history_index a)
        (history_forward-KeepsHandle a.history_index a))
handle_event-KeepsTask tab a = alone-KeepsTask a.task_handle (on_tab a) (on_tab-KeepsHandle a)
handle_event-KeepsTask (reasoning text) a = inl (refl, refl)
handle_event-KeepsTask tick a = inl (refl, refl)
handle_event-KeepsTask resize a = inl (refl, refl)
handle_event-KeepsTask quit a = inl (refl, refl)
handle_event-KeepsTask live_metrics a = inl (refl, refl)
handle_event-KeepsTask dismiss a = on_dismiss-KeepsTask a
handle_event-KeepsTask interactive_command a = inl (refl, refl)
handle_event-KeepsTask (set_mouse_capture enabled) a = inl (refl, refl)
handle_event-KeepsTask (set_status text) a = inl (refl, refl)

-- A task that is started has its handle kept; otherwise the handle is as it was.
abbrev HoldsStarted : Bool → Submitted × App → Type 0
HoldsStarted held (s, b) = b.task_handle ≡ (starts_task s || held)

submit-HoldsStarted : (pick : Text → Bool) (a : App) → HoldsStarted a.task_handle (submit pick a)
unfolding submit after_input start_turn plan_submit remember close_dashboard
submit-HoldsStarted pick a = ground arith

-- A task is started only where none is held, or the one that is held has ended.
abbrev pub StartsAlone : Bool → Bool → Entered × App → Type 0
StartsAlone held finished (e, b) =
    ((starts e ≡ false) × (b.task_handle ≡ held))
    ⊎ ((starts e ≡ true) × (b.task_handle ≡ true) × ((not held || finished) ≡ true))

module _ (digits : ℕ → Text) (session_messages : Text → Option (List StoredMessage))
    (to_lowercase : Text → Text) (pick : Text → Bool) (finished : Bool) where
  submitted-StartsAlone :
      (held : Bool) (r : Submitted × App)
      → HoldsStarted held r
      → (not held || finished) ≡ true
      → StartsAlone held finished (submitted r.0, r.1)
  submitted-StartsAlone held (s, b) h free = elim (Bool-cases (starts_task s)) [
    | inl begun ↦ inr (begun, rw begun at h, free)
    | inr idle ↦ inl (idle, rw idle at h)
  ]

  open_row-StartsAlone :
      (o : Option Text) (a : App)
      → StartsAlone a.task_handle finished (open_row digits session_messages o a)
  unfolding open_row show_session
  open_row-StartsAlone none a = inl (refl, refl)
  open_row-StartsAlone (some t) a = inl (refl, refl)

  enter_line-StartsAlone :
      (a : App)
      → StartsAlone a.task_handle finished
          (enter_line digits session_messages to_lowercase pick finished a)
  unfolding enter_line
  enter_line-StartsAlone a =
      if_either (StartsAlone a.task_handle finished)
        (a.show_dashboard && is_empty (trim a.input_buffer))
        (open_row-StartsAlone
          (elim a.dashboard [ none ↦ none | some ids ↦ get_elem? ids a.dashboard_cursor ]) a)
        (elim (Bool-cases ((a.status == idle_status) && (not a.task_handle || finished))) [
          | inl free ↦ rw free (
              submitted-StartsAlone a.task_handle (submit pick a) (submit-HoldsStarted pick a)
                (and_right (a.status == idle_status) (not a.task_handle || finished) free))
          | inr busy ↦ rw busy (inl (refl, refl))
        ])

  enter_prompt-StartsAlone :
      (p : Option PromptRequest) (a : App)
      → StartsAlone a.task_handle finished
          (enter_prompt digits session_messages to_lowercase pick finished p a)
  unfolding enter_prompt
  enter_prompt-StartsAlone none a = enter_line-StartsAlone a
  enter_prompt-StartsAlone (some p) a = inl (refl, refl)

  enter_tree-StartsAlone :
      (hash : Option ℕ) (a : App)
      → StartsAlone a.task_handle finished
          (enter_tree digits session_messages to_lowercase pick finished hash a)
  unfolding enter_tree
  enter_tree-StartsAlone none a = enter_prompt-StartsAlone a.pending_prompt a
  enter_tree-StartsAlone (some hash) a = inl (refl, refl)

  pub enter-StartsAlone :
      (a : App)
      → StartsAlone a.task_handle finished
          (enter digits session_messages to_lowercase pick finished a)
  unfolding enter
  enter-StartsAlone a = enter_tree-StartsAlone _ a
