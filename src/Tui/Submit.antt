-- ===== src/Tui/Submit.antt =====
-- crates/arcc-tui/src/ui/app.rs, `submit` and `plan_submit`, up to the start of the turn. What follows
-- is returned: a plan or a prompt whose task is started, a slash command that is not carried out here,
-- or a missing provider. `pick` says whether a provider is found for a text. The statements that
-- record the input and the conversation, and the thinking mode that a plan turns on, are left out.
use arcc.Base.{
  ℕ, zero, suc, ◌+◌, ◌-◌, ◌≤◌, ◌<◌, ◌≡◌, append-nil, append_assoc, subst, length-append, refl, sym,
  ap, ◌∙◌, Bool, true, false, not, ◌&&◌, ◌||◌, [], ◌∷◌, ◌++◌, arith, ◌==◌, list_Eq, if◌then◌else◌,
  length, take, drop, All,
}
use arcc.Base.Text.{Text, codes, is_empty, trim, starts_with, strip_prefix}
use arcc.Model.Json.{unwrap_or}
use arcc.Tui.{
  App, thinking_status, handle_input, insert_all, insert_char, delete_char, delete_at, can_edit,
  is_control,
}
use arcc.Tui.Editing.{
  backspaces, untabbed, can_edit-untabbed, can_edit-insert_char, handle_input-backspace,
  handle_input-printable,
}

pub data Submitted : Type 0 where
  ignored unavailable : Submitted
  plan command turn : Text → Submitted

abbrev pub error_status : Text
error_status = codes "error"

abbrev pub planning_status : Text
planning_status = codes "planning"

unfoldable pub close_dashboard : Text → App → App
close_dashboard prompt a =
    if a.show_dashboard && not (prompt == codes "/dashboard")
    then record a { show_dashboard = false; dashboard_scroll = 0; monitor_handle = false }
    else a

-- The prompt as the last entry of the history.
unfoldable pub remember : Text → App → App
remember prompt a = record a { input_history = a.input_history ++ prompt ∷ []; history_index = 0 }

unfoldable pub start_turn : Bool → Text → App → Submitted × App
start_turn has_provider prompt a =
    let said : App = record a {
      messages = a.messages ++ (codes "🧑 " ++ prompt) ∷ [];
      status = thinking_status;
      scroll_offset = 0;
    } in
    if has_provider then (turn prompt, record said { task_handle = true }) else (
      unavailable,
      record said {
        messages = said.messages ++ codes "🤖 No model provider available." ∷ [];
        status = error_status;
      },
    )

unfoldable pub plan_submit : Bool → Text → App → Submitted × App
plan_submit has_provider task a =
    let said : App = record a {
      init_handle = false;
      messages = a.messages ++ (codes "🧑 /plan " ++ task) ∷ [];
      status = planning_status;
    } in
    if has_provider then (plan task, record said { task_handle = true }) else (
      unavailable,
      record said { messages = said.messages ++ codes "🤖 No model provider available." ∷ [] },
    )

unfoldable pub after_input : (Text → Bool) → Text → App → Submitted × App
unfolding start_turn plan_submit starts_with strip_prefix unwrap_or trim
after_input pick prompt a =
    let task = trim (unwrap_or (strip_prefix (codes "/plan ") prompt) []) in
    if starts_with (codes "/") prompt
    then if starts_with (codes "/plan ") prompt || prompt == codes "/plan"
      then plan_submit (pick task) task a
      else (command prompt, a)
    else start_turn (pick prompt) prompt a

-- The input line is taken, and its cursor stays.
unfoldable pub submit : (Text → Bool) → App → Submitted × App
unfolding after_input close_dashboard remember trim is_empty
submit pick a =
    let prompt = trim a.input_buffer in
    let taken : App = record a { init_handle = false; input_buffer = [] } in
    if is_empty prompt
    then (ignored, taken)
    else after_input pick prompt (remember prompt (close_dashboard prompt taken))

close_dashboard-cursor :
    (prompt : Text) (a : App)
    → ((close_dashboard prompt a).character_index ≡ a.character_index)
      × ((close_dashboard prompt a).input_buffer ≡ a.input_buffer)
unfolding close_dashboard
close_dashboard-cursor prompt a = ground arith

submit-cursor :
    (pick : Text → Bool) (a : App)
    → ((submit pick a).1.character_index ≡ a.character_index)
      × ((submit pick a).1.input_buffer ≡ [])
unfolding submit after_input start_turn plan_submit remember
submit-cursor pick a = ground (
  arith,
  close_dashboard-cursor (trim a.input_buffer)
      (record a { init_handle = false; input_buffer = [] }),
)

-- Behind the end of a text, insertion appends and deletion changes nothing.
take_all : (n : ℕ) (xs : Text) → length xs ≤ n → take n xs ≡ xs
take_all zero [] h = refl
take_all zero (x ∷ xs) h = absurd (omega arith)
take_all (suc n) [] h = refl
take_all (suc n) (x ∷ xs) h = ap (λ r. x ∷ r) (take_all n xs (omega arith))

drop_all : (n : ℕ) (xs : Text) → length xs ≤ n → drop n xs ≡ []
drop_all zero [] h = refl
drop_all zero (x ∷ xs) h = absurd (omega arith)
drop_all (suc n) [] h = refl
drop_all (suc n) (x ∷ xs) h = drop_all n xs (omega arith)

insert_char-behind :
    (c : ℕ) (a : App)
    → length a.input_buffer ≤ a.character_index
    → (insert_char c a).input_buffer ≡ a.input_buffer ++ c ∷ []
unfolding insert_char
insert_char-behind c a h =
    ap (λ t. t ++ c ∷ drop a.character_index a.input_buffer)
      (take_all a.character_index a.input_buffer h)
    ∙ ap (λ d. a.input_buffer ++ c ∷ d) (drop_all a.character_index a.input_buffer h)

insert_char-cursor : (c : ℕ) (a : App) → (insert_char c a).character_index ≡ suc a.character_index
unfolding insert_char
insert_char-cursor c a = refl

delete_at-behind :
    (n : ℕ) (a : App) → length a.input_buffer < n → (delete_at n a).input_buffer ≡ a.input_buffer
delete_at-behind zero a h = refl
delete_at-behind (suc n) a h =
    ap (λ t. t ++ drop (suc n) a.input_buffer) (take_all n a.input_buffer (omega arith))
    ∙ (ap (λ d. a.input_buffer ++ d) (drop_all (suc n) a.input_buffer (omega arith))
        ∙ append-nil a.input_buffer)

delete_at-cursor :
    (n : ℕ) (a : App) → a.character_index ≡ n → (delete_at n a).character_index ≡ n - 1
delete_at-cursor zero a e = omega arith
delete_at-cursor (suc n) a e = omega arith

delete_at-can_edit : (n : ℕ) (a : App) → can_edit (delete_at n a) ≡ can_edit a
unfolding can_edit
delete_at-can_edit zero a = refl
delete_at-can_edit (suc n) a = refl

-- The line with its cursor a number of places behind its end.
record IsBehind (text : Text) (n : ℕ) (a : App) : Type 0 where
  pub holds : a.input_buffer ≡ text
  pub behind : length text + n ≤ a.character_index
  pub editable : can_edit a ≡ true

insert_char-IsBehind :
    (c : ℕ) (text : Text) (n : ℕ) (a : App)
    → IsBehind text n a
    → IsBehind (text ++ c ∷ []) n (insert_char c a)
insert_char-IsBehind c text n a b = record {
  holds =
      insert_char-behind c a (omega (arith, ap length b.holds, b.behind))
      ∙ ap (λ t. t ++ c ∷ []) b.holds;
  behind =
      subst (λ i. length (text ++ c ∷ []) + n ≤ i) (sym (insert_char-cursor c a))
        (omega (arith, length-append text (c ∷ []), b.behind));
  editable = can_edit-insert_char c a ∙ b.editable;
}

insert_all-IsBehind :
    (cs text : Text) (n : ℕ) (a : App)
    → All (λ c. is_control c ≡ false) cs
    → IsBehind text n a
    → IsBehind (text ++ cs) n (insert_all cs a)
unfolding insert_all
insert_all-IsBehind [] text n a h b = subst (λ t. IsBehind t n a) (sym (append-nil text)) b
insert_all-IsBehind (c ∷ cs) text n a (p, h) b =
    subst
      (λ skipped.
        IsBehind (text ++ c ∷ cs) n (insert_all cs (if skipped then a else insert_char c a)))
      (sym p)
      (subst (λ t. IsBehind t n (insert_all cs (insert_char c a))) (append_assoc text (c ∷ []) cs)
        (insert_all-IsBehind cs (text ++ c ∷ []) n (insert_char c a) h
          (insert_char-IsBehind c text n a b)))

untabbed-IsBehind :
    (text : Text) (n : ℕ) (a : App) → IsBehind text n a → IsBehind text n (untabbed a)
untabbed-IsBehind text n a b = record {
  holds = b.holds;
  behind = b.behind;
  editable = can_edit-untabbed a ∙ b.editable;
}

delete_char-IsBehind :
    (n : ℕ) (text : Text) (a : App) → IsBehind text (suc n) a → IsBehind text n (delete_char a)
unfolding delete_char
delete_char-IsBehind n text a b = record {
  holds =
      delete_at-behind a.character_index a (omega (arith, ap length b.holds, b.behind)) ∙ b.holds;
  behind =
      subst (λ i. length text + n ≤ i) (sym (delete_at-cursor a.character_index a refl))
        (omega (arith, b.behind));
  editable = delete_at-can_edit a.character_index a ∙ b.editable;
}

backspaces-IsBehind :
    (k n : ℕ) (text : Text) (a : App) → IsBehind text (k + n) a → IsBehind text n (backspaces k a)
backspaces-IsBehind zero n text a b = subst (λ m. IsBehind text m a) (omega arith) b
backspaces-IsBehind (suc k) n text a b =
    let earlier =
      backspaces-IsBehind k (suc n) text a (subst (λ m. IsBehind text m a) (omega arith) b) in
    subst (IsBehind text n) (sym (handle_input-backspace (backspaces k a) earlier.editable))
      (delete_char-IsBehind n text (backspaces k a) earlier)

-- A submission takes the text of the line and leaves the cursor where it was. A text without control
-- characters that is typed next is therefore not touched by the first backspaces, as many as the
-- position of the cursor before the submission, while the line can be edited.
pub submit-stale_cursor :
    (pick : Text → Bool) (a : App) (text : Text) (k : ℕ)
    → can_edit (submit pick a).1 ≡ true
    → All (λ c. is_control c ≡ false) text
    → k ≤ a.character_index
    → (backspaces k (handle_input text (submit pick a).1)).input_buffer ≡ text
submit-stale_cursor pick a text k e h few =
    let s = (submit pick a).1 in
    let (cursor, empty) = submit-cursor pick a in
    let start : IsBehind [] (k + 0) s = record {
      holds = empty;
      behind = omega (arith, cursor);
      editable = e;
    } in
    let typed = insert_all-IsBehind text [] (k + 0) s h start in
    (backspaces-IsBehind k 0 text (handle_input text s) (
      subst (IsBehind text (k + 0)) (sym (handle_input-printable text s e h))
        (untabbed-IsBehind text (k + 0) (insert_all text s) typed))).holds
