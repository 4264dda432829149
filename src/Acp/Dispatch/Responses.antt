-- ===== src/Acp/Dispatch/Responses.antt =====
-- crates/arcc-acp/src/lib.rs: what is answered, and what a cancellation reaches.
use arcc.Base.{
  ℕ, ◌≡◌, refl, ap, ◌∙◌, ◌⊎◌, inl, inr, Bool, true, false, ◌&&◌, ◌||◌, [], ◌∷◌, ◌++◌, Option, none,
  some, ◌==◌, nat_Eq, list_Eq, list_eq, Bool-cases, Option-cases,
}
use arcc.Base.Text.{Text, codes, is_empty}
use arcc.Base.Maps.{get}
use arcc.Model.Json.{Value, null, get_value, get_field, unwrap_or}
use arcc.Acp.Protocol.{RpcRequest, is_notification, response_ok, response_err}
use arcc.Acp.Sessions.{
  AcpSessionHandle, Turn, Server, find_session, with_handle, is_running, set_running, set_model,
  cancel, create_session, remove_handle,
}
use arcc.Acp.Requests.{
  Reply, sid, param, prompt_text, turn_of, start_prompt, handle_prompt, handle_close,
  handle_set_mode, handle_config, handle_cancel,
}
use arcc.Acp.Dispatch.{
  Method, initialize, session_new, session_prompt, session_close, session_set_mode,
  session_set_config_option, session_cancel, unknown, read_method, handle_method, handle_request,
}

-- The response to an id.
abbrev pub HasId : Value → Value → Type 0
unfolding get_value
HasId v id = get_value (codes "id") v ≡ some id

-- A response with the id is given and no turn begins.
abbrev pub IsImmediate : Value → Server → Reply → Type 0
unfolding HasId
IsImmediate id s r = (v : Value) × (r.0 ≡ some v) × HasId v id × (r.1.turns ≡ s.turns)

-- A request is answered at once, or a turn is begun that will answer it; not both.
abbrev pub IsAnswered : Value → Server → Reply → Type 0
IsAnswered id s r =
    IsImmediate id s r ⊎ ((t : Turn) × (r.0 ≡ none) × (t.id ≡ id) × (r.1.turns ≡ s.turns ++ t ∷ []))

ok-HasId : (id result : Value) → HasId (response_ok id result) id
unfolding response_ok HasId get_value get_field list_eq
ok-HasId id result = refl

err-HasId : (id : Value) (code message : Text) → HasId (response_err id code message) id
unfolding response_err HasId get_value get_field list_eq
err-HasId id code message = refl

cancel-turns : (n : ℕ) (s : Server) → (cancel n s).turns ≡ s.turns
unfolding cancel
cancel-turns n s = elim (Option-cases (get n s.handles)) [
  | inl e ↦ rw (e, cancel) refl
  | inr (a, e) ↦ rw (e, cancel) refl
]

with_handle-turns :
    (n : ℕ) (f : AcpSessionHandle → AcpSessionHandle) (s : Server)
    → (with_handle n f s).turns ≡ s.turns
unfolding with_handle
with_handle-turns n f s = elim (Option-cases (get n s.handles)) [
  | inl e ↦ rw (e, with_handle) refl
  | inr (a, e) ↦ rw (e, with_handle) refl
]

set_running-turns : (n : ℕ) (b : Bool) (s : Server) → (set_running n b s).turns ≡ s.turns
unfolding set_running
set_running-turns n b s = with_handle-turns n _ s

-- A response is sent and the turns are as before.
at_once :
    (id v : Value) (s s' : Server) → HasId v id → s'.turns ≡ s.turns → IsImmediate id s (some v, s')
unfolding IsImmediate
at_once id v s s' h same = (v, refl, h, same)

start_prompt-IsAnswered :
    (id : Value) (n : ℕ) (req : RpcRequest) (s : Server) → IsAnswered id s (start_prompt id n req s)
unfolding start_prompt
start_prompt-IsAnswered id n req s = elim (Bool-cases (is_running n s)) [
  | inl busy ↦ rw busy (inl (at_once id _ s s (err-HasId id _ _) refl))
  | inr idle ↦ elim (Bool-cases (is_empty (prompt_text req))) [
    | inl empty ↦
        rw (idle, empty)
          (inl (
            at_once id _ s (set_running n false (set_running n true s)) (err-HasId id _ _)
              (set_running-turns n false (set_running n true s) ∙ set_running-turns n true s)))
    | inr text ↦
        rw (idle, text)
          (inr (
            turn_of id n (prompt_text req),
            refl,
            refl,
            ap (λ ts. ts ++ turn_of id n (prompt_text req) ∷ []) (set_running-turns n true s),
          ))
  ]
]

asks : (req : RpcRequest) (id : Value) → req.id ≡ some id → is_notification req ≡ false
unfolding is_notification
asks req id e = rw (e, is_notification) refl

handle_prompt-IsAnswered :
    (id : Value) (req : RpcRequest) (s : Server)
    → req.id ≡ some id
    → IsAnswered id s (handle_prompt id req s)
unfolding handle_prompt
handle_prompt-IsAnswered id req s h = elim (Option-cases (find_session (sid req) s)) [
  | inl gone ↦
      rw (asks req id h, gone, handle_prompt) (inl (at_once id _ s s (err-HasId id _ _) refl))
  | inr (n, here) ↦ rw (asks req id h, here, handle_prompt) (start_prompt-IsAnswered id n req s)
]

remove_handle-turns : (id : Text) (s : Server) → (remove_handle id s).1.turns ≡ s.turns
unfolding remove_handle
remove_handle-turns id s = elim (Option-cases (find_session id s)) [
  | inl gone ↦ rw (gone, remove_handle) refl
  | inr (n, here) ↦ rw (here, remove_handle) (cancel-turns n _)
]

handle_close-IsImmediate :
    (id : Value) (req : RpcRequest) (s : Server) → IsImmediate id s (handle_close id req s)
unfolding handle_close
handle_close-IsImmediate id req s = elim (Option-cases (find_session (sid req) s)) [
  | inl gone ↦ rw (gone, handle_close) (at_once id _ s s (err-HasId id _ _) refl)
  | inr (n, here) ↦
      rw (here, handle_close) (at_once id _ s _ (ok-HasId id _) (remove_handle-turns (sid req) s))
]

handle_set_mode-IsImmediate :
    (id : Value) (req : RpcRequest) (s : Server) → IsImmediate id s (handle_set_mode id req s)
unfolding handle_set_mode
handle_set_mode-IsImmediate id req s = elim (Option-cases (find_session (sid req) s)) [
  | inl gone ↦ rw (gone, handle_set_mode) (at_once id _ s s (err-HasId id _ _) refl)
  | inr (n, here) ↦ elim (Bool-cases (param (codes "mode") req == codes "default")) [
    | inl good ↦ rw (here, handle_set_mode, good) (at_once id _ s s (ok-HasId id _) refl)
    | inr bad ↦ rw (here, handle_set_mode, bad) (at_once id _ s s (err-HasId id _ _) refl)
  ]
]

handle_config-IsImmediate :
    (id : Value) (req : RpcRequest) (s : Server) → IsImmediate id s (handle_config id req s)
unfolding handle_config set_model
handle_config-IsImmediate id req s = elim (Option-cases (find_session (sid req) s)) [
  | inl gone ↦ rw (gone, handle_config) (at_once id _ s s (err-HasId id _ _) refl)
  | inr (n, here) ↦
      let key = param (codes "key") req in
      let value = param (codes "value") req in
      elim (Bool-cases (key == codes "model" && (value == codes "pro" || value == codes "flash"))) [
        | inl good ↦
            rw (here, handle_config, good)
              (at_once id _ s _ (ok-HasId id _) (with_handle-turns n _ s))
        | inr bad ↦ rw (here, handle_config, bad) (at_once id _ s s (err-HasId id _ _) refl)
      ]
]

handle_cancel-IsAnswered :
    (id : Value) (req : RpcRequest) (s : Server)
    → req.id ≡ some id
    → IsAnswered id s (handle_cancel id req s)
unfolding handle_cancel
handle_cancel-IsAnswered id req s h = elim (Option-cases (find_session (sid req) s)) [
  | inl gone ↦ rw (asks req id h, gone, handle_cancel) (inl (at_once id _ s s (ok-HasId id _) refl))
  | inr (n, here) ↦
      rw (asks req id h, here, handle_cancel)
        (inl (at_once id _ s _ (ok-HasId id _) (cancel-turns n s)))
]

id_of : (req : RpcRequest) (id : Value) → req.id ≡ some id → unwrap_or req.id null ≡ id
unfolding unwrap_or
id_of req id e = rw (e, unwrap_or) refl

no_id :
    (req : RpcRequest)
    → req.id ≡ none
    → (is_notification req ≡ true) × (unwrap_or req.id null ≡ null)
unfolding is_notification unwrap_or
no_id req e = (rw (e, is_notification) refl, rw (e, unwrap_or) refl)

-- The methods that stay silent on a notification.
abbrev pub IsSilent : Method → Type 0
IsSilent session_prompt = Unit
IsSilent session_cancel = Unit
IsSilent initialize = ⊥
IsSilent session_new = ⊥
IsSilent session_close = ⊥
IsSilent session_set_mode = ⊥
IsSilent session_set_config_option = ⊥
IsSilent unknown = ⊥

module _ (from_str : Text → Option Value) (new_id : ℕ → Text) (is_dir : Text → Bool)
    (server_dir : Option Text) (version : Text) where
  handle_method-IsAnswered :
      (m : Method) (id : Value) (req : RpcRequest) (s : Server)
      → req.id ≡ some id
      → IsAnswered id s (handle_method from_str new_id is_dir server_dir version m id req s)
  unfolding handle_method create_session
  handle_method-IsAnswered initialize id req s h = inl (at_once id _ s s (ok-HasId id _) refl)
  handle_method-IsAnswered session_new id req s h = inl (_, refl, ok-HasId id _, refl)
  handle_method-IsAnswered session_prompt id req s h = handle_prompt-IsAnswered id req s h
  handle_method-IsAnswered session_close id req s h = inl (handle_close-IsImmediate id req s)
  handle_method-IsAnswered session_set_mode id req s h = inl (handle_set_mode-IsImmediate id req s)
  handle_method-IsAnswered session_set_config_option id req s h =
      inl (handle_config-IsImmediate id req s)
  handle_method-IsAnswered session_cancel id req s h = handle_cancel-IsAnswered id req s h
  handle_method-IsAnswered unknown id req s h = inl (at_once id _ s s (err-HasId id _ _) refl)

  -- A request with an id is either answered at once, with that id and without a new turn, or gets no
  -- response now and begins one turn, which carries that id.
  pub handle_request-IsAnswered :
      (req : RpcRequest) (id : Value) (s : Server)
      → req.id ≡ some id
      → IsAnswered id s (handle_request from_str new_id is_dir server_dir version req s)
  unfolding handle_request
  handle_request-IsAnswered req id s h =
      let same : unwrap_or req.id null ≡ id = id_of req id h in
      elim (Bool-cases (req.jsonrpc == codes "2.0")) [
        | inl good ↦
            rw (asks req id h, good, same)
              (handle_method-IsAnswered (read_method req.method) id req s h)
        | inr bad ↦ rw (asks req id h, bad, same) (inl (at_once id _ s s (err-HasId id _ _) refl))
      ]

  handle_method-notification :
      (m : Method) (req : RpcRequest) (s : Server)
      → is_notification req ≡ true
      → let r = handle_method from_str new_id is_dir server_dir version m null req s in
        (IsSilent m × (r.0 ≡ none))
        ⊎ ((IsSilent m → ⊥) × (v : Value) × (r.0 ≡ some v) × HasId v null)
  unfolding handle_method HasId handle_prompt handle_cancel
  handle_method-notification initialize req s h = inr (λ x. x, _, refl, ok-HasId null _)
  handle_method-notification session_new req s h = inr (λ x. x, _, refl, ok-HasId null _)
  handle_method-notification session_prompt req s h = inl (tt, rw h refl)
  handle_method-notification session_close req s h =
      let (v, e, i, same) = handle_close-IsImmediate null req s in inr (λ x. x, v, e, i)
  handle_method-notification session_set_mode req s h =
      let (v, e, i, same) = handle_set_mode-IsImmediate null req s in inr (λ x. x, v, e, i)
  handle_method-notification session_set_config_option req s h =
      let (v, e, i, same) = handle_config-IsImmediate null req s in inr (λ x. x, v, e, i)
  handle_method-notification session_cancel req s h = inl (tt, rw h refl)
  handle_method-notification unknown req s h = inr (λ x. x, _, refl, err-HasId null _ _)

  -- A message without an id, or whose id is null, is left without a response exactly if its method
  -- is `session/prompt` or `session/cancel`; every other one is answered, under the id null.
  pub handle_request-notification :
      (req : RpcRequest) (s : Server)
      → req.id ≡ none
      → let r = handle_request from_str new_id is_dir server_dir version req s in
        (IsSilent (read_method req.method) × (r.0 ≡ none))
        ⊎ ((IsSilent (read_method req.method) → ⊥) × (v : Value) × (r.0 ≡ some v) × HasId v null)
  unfolding handle_request
  handle_request-notification req s h =
      let (note, id_null) = no_id req h in
      rw (note, id_null) (handle_method-notification (read_method req.method) req s note)
