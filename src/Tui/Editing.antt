-- ===== src/Tui/Editing.antt =====
-- What typing and deleting do to the input line.
use arcc.Base.{
  ℕ, zero, suc, ◌≤◌, ◌≡◌, ap, ◌∙◌, refl, Bool, true, false, [], ◌∷◌, ◌++◌, arith, list_Eq, ◌==◌,
  ==_iff, if◌then◌else◌, length, take, drop, All, list_eq,
}
use arcc.Base.Text.{Text}
use arcc.Tui.{
  App, is_control, insert_char, delete_at, delete_char, can_edit, insert_all, handle_input,
  idle_status, thinking_status, streaming_status, executing_status,
}

-- The cursor is not behind the end.
abbrev pub IsPlaced : App → Type 0
IsPlaced a = a.character_index ≤ length a.input_buffer

length-insert : (n : ℕ) (c : ℕ) (xs : Text) → length (take n xs ++ c ∷ drop n xs) ≡ suc (length xs)
length-insert zero c xs = refl
length-insert (suc n) c [] = refl
length-insert (suc n) c (x ∷ xs) = omega (arith, length-insert n c xs)

insert_char-IsPlaced : (ch : ℕ) (a : App) → IsPlaced a → IsPlaced (insert_char ch a)
unfolding insert_char
insert_char-IsPlaced ch a h = omega (arith, length-insert a.character_index ch a.input_buffer)

length-delete : (n : ℕ) (xs : Text) → suc n ≤ length xs → n ≤ length (take n xs ++ drop (suc n) xs)
length-delete zero xs h = omega arith
length-delete (suc n) [] h = omega arith
length-delete (suc n) (x ∷ xs) h = omega (arith, length-delete n xs (omega arith))

delete_at-IsPlaced :
    (n : ℕ) (a : App) → n ≤ length a.input_buffer → IsPlaced a → IsPlaced (delete_at n a)
delete_at-IsPlaced zero a h placed = placed
delete_at-IsPlaced (suc n) a h placed = length-delete n a.input_buffer h

insert_unless-IsPlaced :
    (skipped : Bool) (ch : ℕ) (a : App)
    → IsPlaced a
    → IsPlaced (if skipped then a else insert_char ch a)
insert_unless-IsPlaced true ch a h = h
insert_unless-IsPlaced false ch a h = insert_char-IsPlaced ch a h

insert_all-IsPlaced : (cs : Text) (a : App) → IsPlaced a → IsPlaced (insert_all cs a)
unfolding insert_all
insert_all-IsPlaced [] a h = h
insert_all-IsPlaced (c ∷ cs) a h =
    insert_all-IsPlaced cs (if is_control c then a else insert_char c a)
      (insert_unless-IsPlaced (is_control c) c a h)

delete_char-IsPlaced : (a : App) → IsPlaced a → IsPlaced (delete_char a)
unfolding delete_char
delete_char-IsPlaced a h = delete_at-IsPlaced a.character_index a h h

pub handle_input-IsPlaced : (ch : Text) (a : App) → IsPlaced a → IsPlaced (handle_input ch a)
unfolding handle_input
handle_input-IsPlaced ch a h = ground (arith, delete_char-IsPlaced a h, insert_all-IsPlaced ch a h)

take-insert :
    (n : ℕ) (c : ℕ) (xs : Text)
    → n ≤ length xs
    → take n (take n xs ++ c ∷ drop n xs) ++ drop (suc n) (take n xs ++ c ∷ drop n xs) ≡ xs
take-insert zero c xs h = refl
take-insert (suc n) c [] h = ground arith
take-insert (suc n) c (x ∷ xs) h = ap (λ r. x ∷ r) (take-insert n c xs (omega arith))

delete-insert : (ch : ℕ) (a : App) → IsPlaced a → delete_char (insert_char ch a) ≡ a
unfolding delete_char insert_char
delete-insert ch a h =
    ap (λ b. record a { input_buffer = b }) (take-insert a.character_index ch a.input_buffer h)

abbrev pub backspace : Text
backspace = 8 ∷ []

-- The backspace key, pressed a number of times.
abbrev pub backspaces : ℕ → App → App
backspaces zero a = a
backspaces (suc n) a = handle_input backspace (backspaces n a)

abbrev pub untabbed : App → App
untabbed a = record a { tab_active = false }

not_executing : (a : App) → can_edit a ≡ true → (a.status == executing_status) ≡ false
unfolding can_edit idle_status thinking_status streaming_status executing_status
not_executing a e = ground (
  arith,
  ==_iff a.status idle_status,
  ==_iff a.status thinking_status,
  ==_iff a.status streaming_status,
  ==_iff a.status executing_status,
)

pub handle_input-backspace :
    (a : App) → can_edit a ≡ true → handle_input backspace a ≡ delete_char a
unfolding handle_input list_eq
handle_input-backspace a e = ground (arith, e)

pub handle_input-printable :
    (ch : Text) (a : App)
    → can_edit a ≡ true
    → All (λ c. is_control c ≡ false) ch
    → handle_input ch a ≡ untabbed (insert_all ch a)
unfolding handle_input list_eq
handle_input-printable [] a e h = ground (arith, not_executing a e)
handle_input-printable (c ∷ cs) a e (p, h) = ground (arith, not_executing a e)

untabbed-insert_char :
    (skipped : Bool) (ch : ℕ) (a : App)
    → untabbed (if skipped then a else insert_char ch a)
      ≡ (if skipped then untabbed a else insert_char ch (untabbed a))
unfolding insert_char
untabbed-insert_char true ch a = refl
untabbed-insert_char false ch a = refl

untabbed-insert_all :
    (cs : Text) (a : App) → untabbed (insert_all cs a) ≡ insert_all cs (untabbed a)
unfolding insert_all
untabbed-insert_all [] a = refl
untabbed-insert_all (c ∷ cs) a =
    untabbed-insert_all cs (if is_control c then a else insert_char c a)
    ∙ ap (insert_all cs) (untabbed-insert_char (is_control c) c a)

pub can_edit-insert_char : (ch : ℕ) (a : App) → can_edit (insert_char ch a) ≡ can_edit a
unfolding can_edit insert_char
can_edit-insert_char ch a = refl

pub can_edit-untabbed : (a : App) → can_edit (untabbed a) ≡ can_edit a
unfolding can_edit
can_edit-untabbed a = refl

backspaces-insert_all :
    (cs : Text) (a : App)
    → IsPlaced a
    → can_edit a ≡ true
    → All (λ c. is_control c ≡ false) cs
    → backspaces (length cs) (insert_all cs a) ≡ a
unfolding insert_all
backspaces-insert_all [] a placed e h = refl
backspaces-insert_all (c ∷ cs) a placed e (p, h) =
    let e' = can_edit-insert_char c a ∙ e in
    ap
      (λ skipped.
        backspaces (suc (length cs)) (insert_all cs (if skipped then a else insert_char c a)))
      p
    ∙ ap (handle_input backspace)
        (backspaces-insert_all cs (insert_char c a) (insert_char-IsPlaced c a placed) e' h)
    ∙ handle_input-backspace (insert_char c a) e'
    ∙ delete-insert c a placed

-- Where the cursor is not behind the end, each key of the input line keeps it so. A text without
-- control characters that is typed while the line can be edited, and then erased by as many
-- backspaces, leaves the line, the cursor and the status as they were, and completion inactive.
pub backspaces-handle_input :
    (text : Text) (a : App)
    → IsPlaced a
    → can_edit a ≡ true
    → All (λ c. is_control c ≡ false) text
    → ((ch : Text) → IsPlaced (handle_input ch a))
      × (backspaces (length text) (handle_input text a) ≡ untabbed a)
backspaces-handle_input text a placed e h = (
  (λ ch. handle_input-IsPlaced ch a placed),
  ap (backspaces (length text)) (handle_input-printable text a e h ∙ untabbed-insert_all text a)
      ∙ backspaces-insert_all text (untabbed a) placed (can_edit-untabbed a ∙ e) h,
)
