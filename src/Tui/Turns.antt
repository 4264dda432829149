-- ===== src/Tui/Turns.antt =====
-- crates/arcc-tui/src/ui/app.rs, the main loop of `run`: the turns that events, the Enter key and the
-- ends of tasks leave running, in any order. A task that is aborted runs on until its next await.
use arcc.Base.{
  ℕ, suc, ◌≡◌, refl, ◌⊎◌, inl, inr, Bool, true, false, not, List, [], ◌∷◌, ◌++◌, Option, none, some,
  ◌==◌, ◌||◌, refl, ==_refl, sym, nat_eq, nat_eq_iff, list_Eq, if◌then◌else◌, any, keep_if,
  Bool-cases, if_either, subst, ap, ◌∙◌,
}
use arcc.Base.Text.{Text, codes, is_empty, trim}
use arcc.Tui.{App, idle_status}
use arcc.Tui.Submit.{submit}
use arcc.Tui.Events.{AppEvent, Effect, handle_event, alone, on_dismiss, dismiss_top, abort_task}
use arcc.Tui.Enter.{StoredMessage, Entered, submitted, enter, enter_tree, enter_prompt, enter_line}
use arcc.Tui.Handles.{
  starts, is_command, aborts, KeepsTask, StartsAlone, handle_event-KeepsTask, enter-StartsAlone,
}

-- The interface, with the tasks of turns that have not ended: those that are live, and those that
-- were told to stop and have not stopped yet. `held` is the task that the handle is for. Tasks are
-- numbered as they are started.
pub record Loop : Type 0 where
  pub app : App
  pub held : ℕ
  pub live : List ℕ
  pub stopping : List ℕ
  pub next : ℕ

abbrev pub is_live : ℕ → List ℕ → Bool
is_live i live = any (λ j. nat_eq j i) live

abbrev without_task : ℕ → List ℕ → List ℕ
without_task i tasks = keep_if (λ j. not (nat_eq j i)) tasks

abbrev pub end_task : ℕ → Loop → Loop
end_task i l = record l { live = without_task i l.live; stopping = without_task i l.stopping }

-- `abort()`, which does not wait for the task.
abbrev pub stop_task : ℕ → Loop → Loop
stop_task i l = record l {
  live = without_task i l.live;
  stopping = if is_live i l.live then l.stopping ++ i ∷ [] else l.stopping;
}

-- `is_finished()`
abbrev pub is_finished : Loop → Bool
is_finished l = not (is_live l.held l.live || is_live l.held l.stopping)

abbrev pub after_event : App × List Effect → Loop → Loop
after_event (b, effects) l =
    if aborts effects then stop_task l.held (record l { app = b }) else record l { app = b }

abbrev pub after_enter : Entered × App → Loop → Loop
after_enter (e, b) l =
    if starts e
    then record l { app = b; held = l.next; live = l.live ++ l.next ∷ []; next = suc l.next }
    else record l { app = b }

-- An event is handled; Enter is pressed, and not for a slash command; or a task ends.
pub data Step : Loop → Loop → Type 0 where
  event :
      {l : Loop} (e : AppEvent) (r : App × List Effect)
      → handle_event e l.app ≡ some r
      → Step l (after_event r l)
  enters :
      {l : Loop} (digits : ℕ → Text) (session_messages : Text → Option (List StoredMessage))
      (to_lowercase : Text → Text) (pick : Text → Bool) (r : Entered × App)
      → enter digits session_messages to_lowercase pick (is_finished l) l.app ≡ r
      → is_command r.0 ≡ false
      → Step l (after_enter r l)
  ends : {l : Loop} (i : ℕ) → Step l (end_task i l)

pub data Steps : Loop → Loop → Type 0 where
  here : {l : Loop} → Steps l l
  then_step : {l m n : Loop} → Steps l m → Step m n → Steps l n

-- At most the task of the handle is live.
abbrev pub IsAlone : Loop → Type 0
IsAlone l = (l.live ≡ []) ⊎ ((l.live ≡ l.held ∷ []) × (l.app.task_handle ≡ true))

end_task-IsAlone : (i : ℕ) (l : Loop) → IsAlone l → IsAlone (end_task i l)
end_task-IsAlone i l (inl none_live) = inl (rw none_live refl)
end_task-IsAlone i l (inr (one, held)) = rw one (elim (Bool-cases (nat_eq l.held i)) [
  | inl ended ↦ rw ended (inl refl)
  | inr other ↦ rw other (inr (refl, held))
])

stop_held : (l : Loop) → IsAlone l → (stop_task l.held l).live ≡ []
stop_held l (inl none_live) = rw none_live refl
stop_held l (inr (one, held)) = rw (one, (nat_eq_iff l.held l.held).1 refl) refl

after_event-IsAlone :
    (r : App × List Effect) (l : Loop)
    → KeepsTask l.app.task_handle (some r)
    → IsAlone l
    → IsAlone (after_event r l)
after_event-IsAlone (b, effects) l (inl (kept, same)) alone =
    rw kept
      (elim alone [ inl none_live ↦ inl none_live | inr (one, held) ↦ inr (one, same ∙ held) ])
after_event-IsAlone (b, effects) l (inr (dropped, off)) alone = rw dropped (inl (stop_held l alone))

false_is_not_true : false ≡ true → ⊥
false_is_not_true f = cc

after_enter-IsAlone :
    (r : Entered × App) (l : Loop)
    → StartsAlone l.app.task_handle (is_finished l) r
    → IsAlone l
    → IsAlone (after_enter r l)
after_enter-IsAlone (e, b) l (inl (without, same)) alone =
    rw without
      (elim alone [ inl none_live ↦ inl none_live | inr (one, held) ↦ inr (one, same ∙ held) ])
after_enter-IsAlone (e, b) l (inr (begun, on, free)) alone = rw begun (elim alone [
  | inl none_live ↦ inr (ap (λ live. live ++ l.next ∷ []) none_live, on)
  | inr (one, held) ↦
      absurd (false_is_not_true (rw (held, one, (nat_eq_iff l.held l.held).1 refl) at free))
])

Step-IsAlone : {l m : Loop} → Step l m → IsAlone l → IsAlone m
Step-IsAlone {l = l} (event e r h) alone =
    after_event-IsAlone r l (subst (KeepsTask l.app.task_handle) h (handle_event-KeepsTask e l.app))
      alone
Step-IsAlone {l = l} (enters digits session_messages to_lowercase pick r h typed) alone =
    let finished = is_finished l in
    after_enter-IsAlone r l
      (subst (StartsAlone l.app.task_handle finished) h
        (enter-StartsAlone digits session_messages to_lowercase pick finished l.app))
      alone
Step-IsAlone {l = l} (ends i) alone = end_task-IsAlone i l alone

-- Whatever events come, whenever tasks end and Enter is pressed, but for slash commands: from an
-- interface without a live task on, there is at most one turn's task that has neither ended nor been
-- told to stop, and it is the one whose handle is held. A task that was told to stop may still run.
pub Steps-IsAlone : {l m : Loop} → Steps l m → l.live ≡ [] → IsAlone m
Steps-IsAlone here idle = inl idle
Steps-IsAlone (then_step run s) idle = Step-IsAlone s (Steps-IsAlone run idle)

abbrev stopped_app : App → App
stopped_app a = record a {
  task_handle = false;
  status = idle_status;
  messages = a.messages ++ codes "🤖 _(stopped)_" ∷ [];
  blink = 0;
}

dismiss_top_running :
    (a : App)
    → a.task_handle ≡ true
    → (a.status == idle_status) ≡ false
    → dismiss_top a ≡ (stopped_app a, abort_task ∷ [])
unfolding dismiss_top
dismiss_top_running a held busy = rw (busy, dismiss_top, held) refl

dismiss_running :
    (a : App)
    → a.task_handle ≡ true
    → a.focused_tree ≡ none
    → (a.status == idle_status) ≡ false
    → on_dismiss a ≡ (stopped_app a, abort_task ∷ [])
unfolding on_dismiss
dismiss_running a held untree busy =
    (λ i. elim (untree i) as (λ h. App × List Effect) [
      | some h ↦ (record a { focused_tree = none }, [])
      | none ↦ dismiss_top a
    ])
    ∙ dismiss_top_running a held busy

enter_idle :
    (digits : ℕ → Text) (session_messages : Text → Option (List StoredMessage))
    (to_lowercase : Text → Text) (pick : Text → Bool) (finished : Bool) (a : App)
    → a.show_dashboard ≡ false
    → (a.status == idle_status) ≡ true
    → a.task_handle ≡ false
    → enter_line digits session_messages to_lowercase pick finished a
      ≡ (submitted (submit pick a).0, (submit pick a).1)
unfolding enter_line
enter_idle digits session_messages to_lowercase pick finished a plain idle free =
    simp (plain, idle, free)

enter_past :
    (digits : ℕ → Text) (session_messages : Text → Option (List StoredMessage))
    (to_lowercase : Text → Text) (pick : Text → Bool) (finished : Bool) (a : App)
    → a.focused_tree ≡ none
    → a.pending_prompt ≡ none
    → enter digits session_messages to_lowercase pick finished a
      ≡ enter_line digits session_messages to_lowercase pick finished a
unfolding enter enter_tree enter_prompt
enter_past digits session_messages to_lowercase pick finished a untree unasked =
    ap (λ hash. enter_tree digits session_messages to_lowercase pick finished hash a)
      (if_either (λ hash. hash ≡ none) (is_empty (trim a.input_buffer)) untree refl)
    ∙ ap (λ p. enter_prompt digits session_messages to_lowercase pick finished p a) unasked

-- Esc while a turn's task is live and its handle held, no tree is focused, no prompt is pending, no
-- dashboard is shown and the status is not idle: the task is told to stop, and Enter then submits the
-- line all the same, although that task has not ended.
pub dismiss-enter :
    (l : Loop) (digits : ℕ → Text) (session_messages : Text → Option (List StoredMessage))
    (to_lowercase : Text → Text) (pick : Text → Bool)
    → is_live l.held l.live ≡ true
    → l.app.task_handle ≡ true
    → l.app.focused_tree ≡ none
    → l.app.pending_prompt ≡ none
    → (l.app.status == idle_status) ≡ false
    → l.app.show_dashboard ≡ false
    → let m = after_event (on_dismiss l.app) l in
      let s = submit pick m.app in
      (m.stopping ≡ l.stopping ++ l.held ∷ [])
      × (enter digits session_messages to_lowercase pick (is_finished m) m.app
          ≡ (submitted s.0, s.1))
dismiss-enter l digits session_messages to_lowercase pick alive held untree unasked busy plain =
    let dismissed = dismiss_running l.app held untree busy in
    subst
      (λ (r : App × List Effect).
        let m = after_event r l in
        let s = submit pick m.app in
        (m.stopping ≡ l.stopping ++ l.held ∷ [])
        × (enter digits session_messages to_lowercase pick (is_finished m) m.app
            ≡ (submitted s.0, s.1)))
      (sym dismissed)
      (
        rw alive refl,
        enter_past digits session_messages to_lowercase pick _ (stopped_app l.app) untree unasked
            ∙ enter_idle digits session_messages to_lowercase pick _ (stopped_app l.app) plain
                (==_refl idle_status) refl,
      )
