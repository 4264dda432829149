-- ===== src/Acp/Prompt/Dialogue.antt =====
-- crates/arcc-acp/src/prompt.rs: what one round of a turn adds to the conversation.
use arcc.Base.{
  ℕ, ◌≡◌, refl, sym, ap, ◌∙◌, inl, inr, Bool, false, List, [], ◌∷◌, ◌++◌, Option, none, some,
  append-nil, append_assoc, ◌==◌, list_eq, list_Eq, List-cases,
}
use arcc.Base.Text.{Text, codes}
use arcc.Model.Json.{Value}
use arcc.Model.Types.{
  ChatMessage, content, reasoning, tool_call_start, tool_call_end, finish, ToolCall, assistant_role,
}
use arcc.Model.Provider.{ok, err}
use arcc.Session.{push_message}
use arcc.Acp.{Woken}
use arcc.Acp.Talk.{
  Item, item, cancel_now, Start, started, not_started, cancelled_start, ToolRun, Talk, Setting,
  push, Heard, nothing_heard, Read, complete, broken, cancelled, read_stream,
}
use arcc.Acp.Prompt.{
  keep_reply, assistant_message, Called, answered, stopped, call_tools, Ended, over, again,
  after_reply, after_start,
}
use arcc.Acp.Prompt.Answering.{
  AnswersAll, AnswersFirst, messages, AddsAnswers, call_tools-AddsAnswers,
}

-- What a turn adds behind the user's message. A round adds an assistant message with tool calls, then
-- an answer to each of them, in order. The turn ends with an assistant message without calls, or
-- with nothing more if a stream fails or is cancelled; only a turn that is not complete
-- ends with calls that have answers to the first of them only.
pub data Dialogue (whole : Bool) : List ChatMessage → Type 0 where
  nothing : Dialogue whole []
  final :
      (m : ChatMessage) → m.role ≡ assistant_role → m.tool_calls ≡ none → Dialogue whole (m ∷ [])
  round :
      (m : ChatMessage) (calls : List ToolCall) (answers rest added : List ChatMessage)
      → m.role ≡ assistant_role
      → m.tool_calls ≡ some calls
      → AnswersAll calls answers
      → Dialogue whole rest
      → added ≡ m ∷ (answers ++ rest)
      → Dialogue whole added
  cut :
      (m : ChatMessage) (calls : List ToolCall) (answers : List ChatMessage)
      → whole ≡ false
      → m.role ≡ assistant_role
      → m.tool_calls ≡ some calls
      → AnswersFirst calls answers
      → Dialogue whole (m ∷ answers)

-- A stop reason that is not `cancelled`.
abbrev pub is_whole : Text → Bool
is_whole stop_reason = stop_reason == codes "end_turn"

abbrev pub Adds : Bool → Talk → Talk → Type 0
Adds whole t t' = (ms : List ChatMessage) × Dialogue whole ms × (messages t' ≡ messages t ++ ms)

-- What a round adds.
abbrev pub AddsRound : Talk → Ended → Type 0
AddsRound t (over stop_reason usage t') = Adds (is_whole stop_reason) t t'
AddsRound t (again usage t') =
    (m : ChatMessage) × (calls : List ToolCall) × (answers : List ChatMessage) × (m.role
      ≡ assistant_role)
    × (m.tool_calls ≡ some calls)
    × AnswersAll calls answers
    × (messages t' ≡ messages t ++ m ∷ answers)

module _ (g : Setting) where
  read_messages : Read → List ChatMessage
  read_messages (complete h t) = messages t
  read_messages (broken t) = messages t
  read_messages (cancelled t) = messages t

  read_stream-messages :
      (items : List Item) (h : Heard) (t : Talk)
      → read_messages (read_stream g items h t) ≡ messages t
  unfolding read_messages read_stream
  read_stream-messages [] h t = refl
  read_stream-messages (cancel_now ∷ items) h t = refl
  read_stream-messages (item (err e) ∷ items) h t = refl
  read_stream-messages (item (ok (content s)) ∷ items) h t = read_stream-messages items _ _
  read_stream-messages (item (ok (reasoning s)) ∷ items) h t = read_stream-messages items _ _
  read_stream-messages (item (ok (tool_call_start tc)) ∷ items) h t = read_stream-messages items _ _
  read_stream-messages (item (ok (tool_call_end i s)) ∷ items) h t = read_stream-messages items _ _
  read_stream-messages (item (ok (finish u)) ∷ items) h t = read_stream-messages items _ _

  -- A reply with calls, by what running them comes to.
  after_calls :
      (m : ChatMessage) (calls : List ToolCall) (usage : Option Value) (t kept : Talk) (c : Called)
      → m.role ≡ assistant_role
      → m.tool_calls ≡ some calls
      → messages kept ≡ messages t ++ m ∷ []
      → AddsAnswers g calls kept c
      → AddsRound t
          (elim c [ stopped t' ↦ over (codes "cancelled") usage t' | answered t' ↦ again usage t' ])
  unfolding list_eq
  after_calls m calls usage t kept (stopped t') role has_calls e (ms, first, added) = (
    m ∷ ms,
    cut m calls ms refl role has_calls first,
    added ∙ (ap (λ r. r ++ ms) e ∙ append_assoc (messages t) (m ∷ []) ms),
  )
  after_calls m calls usage t kept (answered t') role has_calls e (ms, all, added) = (
    m,
    calls,
    ms,
    role,
    has_calls,
    all,
    added ∙ (ap (λ r. r ++ ms) e ∙ append_assoc (messages t) (m ∷ []) ms),
  )

  calls_of : List ToolCall → Option (List ToolCall)
  calls_of [] = none
  calls_of (c ∷ cs) = some (c ∷ cs)

  keep_reply-messages :
      (h : Heard) (t : Talk)
      → messages (keep_reply g h t) ≡ messages t ++ assistant_message g h ∷ []
  unfolding keep_reply push push_message
  keep_reply-messages h t = refl

  assistant_message-calls :
      (h : Heard) (calls : List ToolCall)
      → h.calls ≡ calls
      → ((assistant_message g h).role ≡ assistant_role)
        × ((assistant_message g h).tool_calls ≡ calls_of calls)
  unfolding assistant_message calls_of
  assistant_message-calls h [] e = (refl, rw e refl)
  assistant_message-calls h (c ∷ cs) e = (refl, rw e refl)

  after_reply-AddsRound :
      (woken : ℕ → Woken) (run : ℕ → ToolCall → ToolRun) (h : Heard) (usage : Option Value)
      (t : Talk)
      → AddsRound t (after_reply g woken run h usage t)
  unfolding after_reply list_eq calls_of
  after_reply-AddsRound woken run h usage t = elim (List-cases h.calls) [
    | inl e ↦
        let (role, no_calls) = assistant_message-calls h [] e in
        rw (e, after_reply)
          (
            assistant_message g h ∷ [],
            final (assistant_message g h) role no_calls,
            keep_reply-messages h t,
          )
    | inr (c, cs, e) ↦
        let (role, has_calls) = assistant_message-calls h (c ∷ cs) e in
        rw (e, after_reply)
          (after_calls (assistant_message g h) (c ∷ cs) _ t (keep_reply g h t)
            (call_tools g woken run 0 (c ∷ cs) (keep_reply g h t)) role has_calls
            (keep_reply-messages h t)
            (call_tools-AddsAnswers g woken run 0 (c ∷ cs) (keep_reply g h t)))
  ]

  -- A round that stops before its reply adds nothing.
  adds_nothing :
      (stop_reason : Text) (usage : Option Value) (t t' : Talk)
      → messages t' ≡ messages t
      → AddsRound t (over stop_reason usage t')
  adds_nothing stop_reason usage t t' same = ([], nothing, same ∙ sym (append-nil (messages t)))

  -- A round is seen from a talk with the same messages.
  from_here : (t u : Talk) → messages u ≡ messages t → (r : Ended) → AddsRound u r → AddsRound t r
  from_here t u same (over stop_reason usage t') (ms, d, e) = (ms, d, e ∙ ap (λ l. l ++ ms) same)
  from_here t u same (again usage t') (m, calls, answers, role, has_calls, all, e) =
      (m, calls, answers, role, has_calls, all, e ∙ ap (λ l. l ++ m ∷ answers) same)

  after_read :
      (woken : ℕ → Woken) (run : ℕ → ToolCall → ToolRun) (usage : Option Value) (t : Talk)
      (r : Read)
      → read_messages r ≡ messages t
      → AddsRound t (elim r [
        | cancelled t' ↦ over (codes "cancelled") usage t'
        | broken t' ↦ over (codes "end_turn") usage t'
        | complete h t' ↦ after_reply g woken run h usage t'
      ])
  unfolding read_messages
  after_read woken run usage t (cancelled t') same = adds_nothing _ usage t t' same
  after_read woken run usage t (broken t') same = adds_nothing _ usage t t' same
  after_read woken run usage t (complete h t') same =
      from_here t t' same _ (after_reply-AddsRound woken run h usage t')

  pub after_start-AddsRound :
      (woken : ℕ → Woken) (run : ℕ → ToolCall → ToolRun) (start : Start) (usage : Option Value)
      (t : Talk)
      → AddsRound t (after_start g woken run start usage t)
  unfolding after_start
  after_start-AddsRound woken run cancelled_start usage t =
      ([], nothing, sym (append-nil (messages t)))
  after_start-AddsRound woken run (not_started e) usage t =
      ([], nothing, sym (append-nil (messages t)))
  after_start-AddsRound woken run (started items) usage t =
      after_read woken run usage t (read_stream g items nothing_heard t)
        (read_stream-messages items nothing_heard t)
