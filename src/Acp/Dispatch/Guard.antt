-- ===== src/Acp/Dispatch/Guard.antt =====
-- crates/arcc-acp/src/lib.rs: the guard that lets one prompt of a session run at a time.
use arcc.Base.{
  ℕ, ◌≡◌, refl, sym, ap, ◌∙◌, inl, inr, Bool, true, false, Option, none, some, ◌==◌, nat_Eq,
  list_Eq, nat_eq_iff, Bool-cases, Option-cases, arith, not, ◌&&◌, ◌||◌,
}
use arcc.Base.Text.{Text, codes, is_empty, trim}
use arcc.Base.Maps.{get, insert, remove, insert-insert}
use arcc.Model.Json.{
  Value, null, bool, number, string, object, array, Items, nil, cons, Fields, get_field,
}
use arcc.Acp.Protocol.{RpcRequest, is_notification, read_request}
use arcc.Acp.Sessions.{
  AcpSessionHandle, Server, create_session, find_session, with_handle, is_running, set_running,
  set_model, cancel, remove_handle,
}
use arcc.Acp.Requests.{
  Reply, sid, param, prompt_text, start_prompt, handle_prompt, handle_close, handle_set_mode,
  handle_config, handle_cancel,
}
use arcc.Acp.Dispatch.{
  Method, initialize, session_new, session_prompt, session_close, session_set_mode,
  session_set_config_option, session_cancel, unknown, read_method, handle_method, handle_request,
  send_reply, handle_object, handle_single, handle_batch, handle_value, read_line,
}
use arcc.Acp.Dispatch.Parts.{
  Guarded, update_handle, add_turn, new_session, remove_session, get-insert_here,
}

abbrev pub IsGuarded : Server → Type 0
IsGuarded s = Guarded s.handles s.sessions s.next s.turns

cancel-IsGuarded : (n : ℕ) (s : Server) → IsGuarded s → IsGuarded (cancel n s)
unfolding cancel
cancel-IsGuarded n s g = elim (Option-cases (get n s.handles)) [
  | inl e ↦ rw (e, cancel) g
  | inr (a, e) ↦ rw (e, cancel) g
]

set_model-IsGuarded :
    (n : ℕ) (value : Text) (s : Server) → IsGuarded s → IsGuarded (set_model n value s)
unfolding set_model with_handle
set_model-IsGuarded n value s g = elim (Option-cases (get n s.handles)) [
  | inl e ↦ rw (e, with_handle) g
  | inr (a, e) ↦ rw (e, with_handle) (update_handle g n a _ s.next e refl (omega arith))
]

is_running-get :
    (n : ℕ) (s : Server) (a : AcpSessionHandle)
    → get n s.handles ≡ some a
    → is_running n s ≡ a.running
unfolding is_running
is_running-get n s a e = rw (e, is_running) refl

pub set_running-get :
    (n : ℕ) (b : Bool) (s : Server) (a : AcpSessionHandle)
    → get n s.handles ≡ some a
    → set_running n b s ≡ record s { handles = insert n (record a { running = b }) s.handles }
unfolding set_running with_handle
set_running-get n b s a e = rw (e, with_handle) refl

-- The guard that is taken and given back at once.
set_running_twice :
    (n : ℕ) (s : Server) (a : AcpSessionHandle)
    → get n s.handles ≡ some a
    → set_running n false (set_running n true s)
      ≡ record s { handles = insert n (record a { running = false }) s.handles }
set_running_twice n s a e =
    let busy_handle : AcpSessionHandle = record a { running = true } in
    let taken : Server = record s { handles = insert n busy_handle s.handles } in
    ap (set_running n false) (set_running-get n true s a e)
    ∙ (set_running-get n false taken busy_handle
          (get-insert_here n n busy_handle s.handles ((nat_eq_iff n n).1 refl))
        ∙ ap (λ m. record s { handles = m })
            (insert-insert n (record a { running = false }) busy_handle s.handles))

start_prompt-IsGuarded :
    (id : Value) (n : ℕ) (req : RpcRequest) (s : Server) (a : AcpSessionHandle)
    → get n s.handles ≡ some a
    → IsGuarded s
    → IsGuarded (start_prompt id n req s).1
unfolding start_prompt
start_prompt-IsGuarded id n req s a e g =
    let state = is_running-get n s a e in
    elim (Bool-cases a.running) [
      | inl busy ↦ rw (state, busy) g
      | inr idle ↦ elim (Bool-cases (is_empty (prompt_text req))) [
        | inl empty ↦
            rw (state, idle, empty, set_running_twice n s a e)
              (update_handle g n a _ s.next e (sym idle) (omega arith))
        | inr text ↦
            rw (state, idle, text, set_running-get n true s a e)
              (add_turn g n a _ _ e idle refl refl)
      ]
    ]

-- A session that the registry finds has a handle.
found :
    (id : Text) (n : ℕ) (s : Server)
    → IsGuarded s
    → find_session id s ≡ some n
    → (a : AcpSessionHandle) × (get n s.handles ≡ some a)
unfolding find_session
found id n s g e = g.alive id n e

handle_prompt-IsGuarded :
    (id : Value) (req : RpcRequest) (s : Server)
    → IsGuarded s
    → IsGuarded (handle_prompt id req s).1
unfolding handle_prompt
handle_prompt-IsGuarded id req s g = elim (Bool-cases (is_notification req)) [
  | inl note ↦ rw note g
  | inr asks ↦ elim (Option-cases (find_session (sid req) s)) [
    | inl gone ↦ rw (asks, gone, handle_prompt) g
    | inr (n, here) ↦
        let (a, e) = found (sid req) n s g here in
        rw (asks, here, handle_prompt) (start_prompt-IsGuarded id n req s a e g)
  ]
]

remove_handle-IsGuarded : (id : Text) (s : Server) → IsGuarded s → IsGuarded (remove_handle id s).1
unfolding remove_handle
remove_handle-IsGuarded id s g = elim (Option-cases (find_session id s)) [
  | inl gone ↦ rw (gone, remove_handle) g
  | inr (n, here) ↦
      rw (here, remove_handle)
        (cancel-IsGuarded n (record s { sessions = remove id s.sessions }) (remove_session g id))
]

handle_close-IsGuarded :
    (id : Value) (req : RpcRequest) (s : Server) → IsGuarded s → IsGuarded (handle_close id req s).1
unfolding handle_close
handle_close-IsGuarded id req s g = elim (Option-cases (find_session (sid req) s)) [
  | inl gone ↦ rw (gone, handle_close) g
  | inr (n, here) ↦ rw (here, handle_close) (remove_handle-IsGuarded (sid req) s g)
]

handle_set_mode-IsGuarded :
    (id : Value) (req : RpcRequest) (s : Server)
    → IsGuarded s
    → IsGuarded (handle_set_mode id req s).1
unfolding handle_set_mode
handle_set_mode-IsGuarded id req s g = elim (Option-cases (find_session (sid req) s)) [
  | inl gone ↦ rw (gone, handle_set_mode) g
  | inr (n, here) ↦ elim (Bool-cases (param (codes "mode") req == codes "default")) [
    | inl good ↦ rw (here, handle_set_mode, good) g
    | inr bad ↦ rw (here, handle_set_mode, bad) g
  ]
]

handle_config-IsGuarded :
    (id : Value) (req : RpcRequest) (s : Server)
    → IsGuarded s
    → IsGuarded (handle_config id req s).1
unfolding handle_config
handle_config-IsGuarded id req s g = elim (Option-cases (find_session (sid req) s)) [
  | inl gone ↦ rw (gone, handle_config) g
  | inr (n, here) ↦
      let key = param (codes "key") req in
      let value = param (codes "value") req in
      elim (Bool-cases (key == codes "model" && (value == codes "pro" || value == codes "flash"))) [
        | inl good ↦ rw (here, handle_config, good) (set_model-IsGuarded n value s g)
        | inr bad ↦ rw (here, handle_config, bad) g
      ]
]

handle_cancel-IsGuarded :
    (id : Value) (req : RpcRequest) (s : Server)
    → IsGuarded s
    → IsGuarded (handle_cancel id req s).1
unfolding handle_cancel
handle_cancel-IsGuarded id req s g = elim (Option-cases (find_session (sid req) s)) [
  | inl gone ↦ rw (gone, handle_cancel) g
  | inr (n, here) ↦ rw (here, handle_cancel) (cancel-IsGuarded n s g)
]

module _ (from_str : Text → Option Value) (new_id : ℕ → Text) (is_dir : Text → Bool)
    (server_dir : Option Text) (version : Text) where
  handle_method-IsGuarded :
      (m : Method) (id : Value) (req : RpcRequest) (s : Server)
      → IsGuarded s
      → IsGuarded (handle_method from_str new_id is_dir server_dir version m id req s).1
  unfolding handle_method create_session
  handle_method-IsGuarded initialize id req s g = g
  handle_method-IsGuarded session_new id req s g = new_session g (new_id s.next) _ refl
  handle_method-IsGuarded session_prompt id req s g = handle_prompt-IsGuarded id req s g
  handle_method-IsGuarded session_close id req s g = handle_close-IsGuarded id req s g
  handle_method-IsGuarded session_set_mode id req s g = handle_set_mode-IsGuarded id req s g
  handle_method-IsGuarded session_set_config_option id req s g = handle_config-IsGuarded id req s g
  handle_method-IsGuarded session_cancel id req s g = handle_cancel-IsGuarded id req s g
  handle_method-IsGuarded unknown id req s g = g

  handle_request-IsGuarded :
      (req : RpcRequest) (s : Server)
      → IsGuarded s
      → IsGuarded (handle_request from_str new_id is_dir server_dir version req s).1
  unfolding handle_request
  handle_request-IsGuarded req s g =
      elim (Bool-cases (not (is_notification req) && not (req.jsonrpc == codes "2.0"))) [
        | inl bad ↦ rw bad g
        | inr good ↦ rw good (handle_method-IsGuarded (read_method req.method) _ req s g)
      ]

  send_reply-IsGuarded :
      (r : Reply)
      → IsGuarded r.1
      → IsGuarded (send_reply from_str new_id is_dir server_dir version r)
  send_reply-IsGuarded (none, s) g = g
  send_reply-IsGuarded (some r, s) g = g

  handle_object-IsGuarded :
      (fs : Fields) (s : Server)
      → IsGuarded s
      → IsGuarded (handle_object from_str new_id is_dir server_dir version fs s)
  unfolding handle_object
  handle_object-IsGuarded fs s g = elim (Option-cases (get_field (codes "method") fs)) [
    | inl answer ↦ rw (answer, handle_object) g
    | inr (m, asks) ↦ elim (Option-cases (read_request fs)) [
      | inl bad ↦ rw (asks, bad, handle_object) g
      | inr (req, good) ↦
          rw (asks, good, handle_object) (send_reply-IsGuarded _ (handle_request-IsGuarded req s g))
    ]
  ]

  handle_single-IsGuarded :
      (v : Value) (s : Server)
      → IsGuarded s
      → IsGuarded (handle_single from_str new_id is_dir server_dir version v s)
  unfolding handle_single
  handle_single-IsGuarded null s g = g
  handle_single-IsGuarded (bool b) s g = g
  handle_single-IsGuarded (number n) s g = g
  handle_single-IsGuarded (string t) s g = g
  handle_single-IsGuarded (array vs) s g = g
  handle_single-IsGuarded (object fs) s g = handle_object-IsGuarded fs s g

  handle_batch-IsGuarded :
      (vs : Items) (s : Server)
      → IsGuarded s
      → IsGuarded (handle_batch from_str new_id is_dir server_dir version vs s)
  unfolding handle_batch
  handle_batch-IsGuarded nil s g = g
  handle_batch-IsGuarded (cons v vs) s g =
      handle_batch-IsGuarded vs _ (handle_single-IsGuarded v s g)

  handle_value-IsGuarded :
      (v : Value) (s : Server)
      → IsGuarded s
      → IsGuarded (handle_value from_str new_id is_dir server_dir version v s)
  unfolding handle_value
  handle_value-IsGuarded null s g = handle_single-IsGuarded null s g
  handle_value-IsGuarded (bool b) s g = handle_single-IsGuarded (bool b) s g
  handle_value-IsGuarded (number n) s g = handle_single-IsGuarded (number n) s g
  handle_value-IsGuarded (string t) s g = handle_single-IsGuarded (string t) s g
  handle_value-IsGuarded (array vs) s g = handle_batch-IsGuarded vs s g
  handle_value-IsGuarded (object fs) s g = handle_single-IsGuarded (object fs) s g

  pub read_line-IsGuarded :
      (line : Text) (s : Server)
      → IsGuarded s
      → IsGuarded (read_line from_str new_id is_dir server_dir version line s)
  unfolding read_line
  read_line-IsGuarded line s g = elim (Bool-cases (is_empty (trim line))) [
    | inl blank ↦ rw blank g
    | inr text ↦ elim (Option-cases (from_str (trim line))) [
      | inl bad ↦ rw (text, bad, read_line) g
      | inr (v, good) ↦ rw (text, good, read_line) (handle_value-IsGuarded v s g)
    ]
  ]
