-- ===== src/Tui/Soundness.antt =====
-- crates/arcc-tui/src/ui/app.rs: no event makes an index leave its list.
use arcc.Base.{
  ℕ, zero, suc, ◌+◌, ◌-◌, ◌≤◌, ◌<◌, ◌≡◌, refl, sym, subst, ap, inl, inr, List, [], ◌∷◌, Option,
  none, some, arith, ltb, min, list_Eq, if◌then◌else◌, if_either, option_either, length, Bool-cases,
  List-cases,
}
use arcc.Base.Text.{Text, codes, is_empty, strip_prefix}
use arcc.Tui.{App, handle_input, insert_all, insert_char, delete_char, is_control}
use arcc.Tui.Editing.{handle_input-IsPlaced}
use arcc.Tui.Events.{
  AppEvent, input, token, tool_exec, reasoning, set_status, history_prev, history_next, tab,
  stream_done, tick, quit, prompt_expired, dismiss, resize, interactive_command, live_metrics,
  scroll_up, scroll_down, prompt, set_mouse_capture, Effect, view_down, view_up, session_count,
  get_elem?, take_entry, take_candidate, has_any, show_entry, history_back, history_forward,
  cycle_trees, with_candidates, next_candidate, on_tab, on_stream_done, dismiss_top, on_dismiss,
  alone, handle_event,
}

-- The cursor stands in the line, the index of the history in the history, the index of the
-- completion in its candidates if there are any, and the selected row of the dashboard among its
-- rows, and among those in view.
pub record IsSound (a : App) : Type 0 where
  pub placed : a.character_index ≤ length a.input_buffer
  pub in_history : a.history_index ≤ length a.input_history
  pub completing : a.completion_index ≤ length a.completion_candidates - 1
  pub in_rows : a.dashboard_cursor ≤ session_count a.dashboard - 1
  pub in_view_above : a.dashboard_scroll ≤ a.dashboard_cursor
  pub in_view_below : a.dashboard_cursor < a.dashboard_scroll + 8

-- An operation does not panic, and its result is sound.
abbrev Sound : Option App → Type 0
Sound none = ⊥
Sound (some a) = IsSound a

get_elem?-some : (xs : List Text) (i : ℕ) → i < length xs → (x : Text) × (get_elem? xs i ≡ some x)
get_elem?-some [] i h = absurd (omega arith)
get_elem?-some (x ∷ xs) zero h = (x, refl)
get_elem?-some (x ∷ xs) (suc i) h = get_elem?-some xs i (omega arith)

view_down-IsSound :
    (cursor : ℕ) (a : App)
    → a.dashboard_scroll ≤ cursor
    → cursor ≤ session_count a.dashboard - 1
    → IsSound a
    → IsSound (view_down cursor a)
unfolding view_down
view_down-IsSound cursor a h rows s = ground arith

view_up-IsSound :
    (cursor : ℕ) (a : App) → cursor ≤ a.dashboard_cursor → IsSound a → IsSound (view_up cursor a)
unfolding view_up
view_up-IsSound cursor a h s = ground arith

take_entry-Sound :
    (index : ℕ) (entry : Option Text) (a : App) {text : Text}
    → entry ≡ some text
    → index ≤ length a.input_history
    → IsSound a
    → Sound (take_entry index entry a)
unfolding take_entry
take_entry-Sound index none a e high s = cc
take_entry-Sound index (some found) a e high s = ground arith

row_below-IsSound :
    (a : App)
    → IsSound a
    → IsSound (
        if ltb (a.dashboard_cursor + 1) (session_count a.dashboard)
        then view_down (a.dashboard_cursor + 1) a
        else a)
row_below-IsSound a s =
    elim (Bool-cases (ltb (a.dashboard_cursor + 1) (session_count a.dashboard))) [
      | inl more ↦
          subst (λ b. IsSound (if b then view_down (a.dashboard_cursor + 1) a else a)) (sym more)
            (view_down-IsSound (a.dashboard_cursor + 1) a (omega (arith, s.in_view_above))
              (ground arith) s)
      | inr bottom ↦
          subst (λ b. IsSound (if b then view_down (a.dashboard_cursor + 1) a else a)) (sym bottom)
            s
    ]

show_entry-Sound :
    (index : ℕ) (a : App)
    → 1 ≤ index
    → index ≤ length a.input_history
    → IsSound a
    → Sound (show_entry index a)
unfolding show_entry
show_entry-Sound index a low high s =
    let (text, e) = get_elem?-some a.input_history (length a.input_history - index) (omega arith) in
    take_entry-Sound index _ a e high s

history_back-Sound : (a : App) → IsSound a → Sound (history_back a)
unfolding history_back
history_back-Sound a s = elim (Bool-cases (ltb a.history_index (length a.input_history))) [
  | inl more ↦
      subst (λ b. Sound (if b then show_entry (suc a.history_index) a else some a)) (sym more)
        (show_entry-Sound (suc a.history_index) a (omega arith) (ground arith) s)
  | inr oldest ↦
      subst (λ b. Sound (if b then show_entry (suc a.history_index) a else some a)) (sym oldest) s
]

history_forward-Sound :
    (n : ℕ) (a : App) → a.history_index ≡ n → IsSound a → Sound (history_forward n a)
unfolding history_forward
history_forward-Sound zero a e s = s
history_forward-Sound (suc zero) a e s = ground arith
history_forward-Sound (suc (suc n)) a e s =
    show_entry-Sound (suc n) a (omega arith) (omega (arith, s.in_history)) s

cycle_trees-IsSound : (a : App) → IsSound a → IsSound (cycle_trees a)
unfolding cycle_trees
cycle_trees-IsSound a s = ground arith

take_candidate-Sound :
    (candidate : Option Text) (a : App) {name : Text}
    → candidate ≡ some name
    → 1 ≤ length a.completion_candidates
    → IsSound a
    → Sound (take_candidate candidate a)
unfolding take_candidate
take_candidate-Sound none a e some_left s = cc
take_candidate-Sound (some found) a e some_left s = grind arith

next_candidate-Sound : (a : App) → IsSound a → Sound (next_candidate a)
unfolding next_candidate
next_candidate-Sound a s = elim (List-cases a.completion_candidates) [
  | inl empty ↦
      subst
        (λ cs. Sound (
          if has_any cs
          then take_candidate (get_elem? a.completion_candidates a.completion_index) a
          else some a))
        (sym empty) s
  | inr (c, cs, e) ↦
      let (name, found) =
        get_elem?-some a.completion_candidates a.completion_index
          (omega (arith, ap length e, s.completing)) in
      subst
        (λ cs. Sound (
          if has_any cs
          then take_candidate (get_elem? a.completion_candidates a.completion_index) a
          else some a))
        (sym e) (take_candidate-Sound _ a found (omega (arith, ap length e)) s)
]

with_candidates-IsSound :
    (cmd_prefix : Text) (a : App) → IsSound a → IsSound (with_candidates cmd_prefix a)
unfolding with_candidates
with_candidates-IsSound cmd_prefix a s = ground arith

-- What the keys of the input line leave alone.
abbrev SameElsewhere : App → App → Type 0
SameElsewhere a b =
    (a.history_index ≡ b.history_index)
    × (a.input_history ≡ b.input_history)
    × (a.completion_index ≡ b.completion_index)
    × (a.completion_candidates ≡ b.completion_candidates)
    × (a.dashboard_scroll ≡ b.dashboard_scroll)
    × (a.dashboard_cursor ≡ b.dashboard_cursor)
    × (a.dashboard ≡ b.dashboard)

insert_all-SameElsewhere : (cs : Text) (a : App) → SameElsewhere (insert_all cs a) a
unfolding insert_all insert_char
insert_all-SameElsewhere [] a = (refl, refl, refl, refl, refl, refl, refl)
insert_all-SameElsewhere (c ∷ cs) a =
    ground (arith, insert_all-SameElsewhere cs (if is_control c then a else insert_char c a))

handle_input-IsSound : (ch : Text) (a : App) → IsSound a → IsSound (handle_input ch a)
unfolding handle_input delete_char
handle_input-IsSound ch a s =
    ground (arith, handle_input-IsPlaced ch a s.placed, insert_all-SameElsewhere ch a)

on_tab-Sound : (a : App) → IsSound a → Sound (on_tab a)
unfolding on_tab
on_tab-Sound a s = if_either Sound (is_empty a.input_buffer) (cycle_trees-IsSound a s) (
    option_either Sound (strip_prefix (codes "/") a.input_buffer) (ground arith)
      (λ rest. next_candidate-Sound (with_candidates rest a) (with_candidates-IsSound rest a s)))

on_stream_done-IsSound : (a : App) → IsSound a → IsSound (on_stream_done a).0
unfolding on_stream_done
on_stream_done-IsSound a s = ground arith

on_dismiss-IsSound : (a : App) → IsSound a → IsSound (on_dismiss a).0
unfolding on_dismiss dismiss_top
on_dismiss-IsSound a s = ground arith

abbrev pub HandlesSoundly : Option (App × List Effect) → Type 0
HandlesSoundly none = ⊥
HandlesSoundly (some (a, effects)) = IsSound a

alone-HandlesSoundly : (o : Option App) → Sound o → HandlesSoundly (alone o)
alone-HandlesSoundly none h = h
alone-HandlesSoundly (some a) h = h

-- In a sound state no event makes the interface panic, and each leads to a sound state. In such a
-- state the cursor is in the line, the index of the history in the history, the index of the
-- completion in its candidates, and the selected row of the dashboard among its rows and in view.
pub handle_event-HandlesSoundly :
    (e : AppEvent) (a : App) → IsSound a → HandlesSoundly (handle_event e a)
unfolding handle_event
handle_event-HandlesSoundly (input ch) a s = handle_input-IsSound ch a s
handle_event-HandlesSoundly (prompt req) a s = ground arith
handle_event-HandlesSoundly prompt_expired a s = ground arith
handle_event-HandlesSoundly (scroll_up lines) a s =
    if_either IsSound a.show_dashboard
      (view_up-IsSound (a.dashboard_cursor - lines) a (omega arith) s) (ground arith)
handle_event-HandlesSoundly (scroll_down lines) a s =
    if_either IsSound a.show_dashboard
      (view_down-IsSound (min (a.dashboard_cursor + lines) (session_count a.dashboard - 1)) a
        (omega (arith, s.in_rows, s.in_view_above)) (omega arith) s)
      (ground arith)
handle_event-HandlesSoundly (token text) a s = ground arith
handle_event-HandlesSoundly (tool_exec text) a s = ground arith
handle_event-HandlesSoundly stream_done a s = on_stream_done-IsSound a s
handle_event-HandlesSoundly history_prev a s =
    if_either HandlesSoundly a.show_dashboard
      (if_either IsSound (ltb 0 a.dashboard_cursor)
        (view_up-IsSound (a.dashboard_cursor - 1) a (omega arith) s) s)
      (alone-HandlesSoundly (history_back a) (history_back-Sound a s))
handle_event-HandlesSoundly history_next a s =
    if_either HandlesSoundly a.show_dashboard (row_below-IsSound a s) (
      alone-HandlesSoundly (history_forward a.history_index a)
        (history_forward-Sound a.history_index a refl s))
handle_event-HandlesSoundly tab a s = alone-HandlesSoundly (on_tab a) (on_tab-Sound a s)
handle_event-HandlesSoundly (reasoning text) a s = ground arith
handle_event-HandlesSoundly tick a s = ground arith
handle_event-HandlesSoundly resize a s = s
handle_event-HandlesSoundly quit a s = ground arith
handle_event-HandlesSoundly live_metrics a s = s
handle_event-HandlesSoundly dismiss a s = on_dismiss-IsSound a s
handle_event-HandlesSoundly interactive_command a s = s
handle_event-HandlesSoundly (set_mouse_capture enabled) a s = ground arith
handle_event-HandlesSoundly (set_status text) a s = ground arith
