-- ===== src/Acp/Dispatch.antt =====
-- crates/arcc-acp/src/lib.rs: what the read loop does with a line, and how a turn begins and ends. The
-- parameters read JSON, make ids, and say what is a directory, where the server runs and its version.
pub mod Parts
pub mod Guard
pub mod Turns
pub mod Cancellation
pub mod Responses
use arcc.Base.{
  ℕ, zero, suc, ◌+◌, Bool, true, false, not, ◌&&◌, ◌||◌, List, [], ◌∷◌, ◌++◌, Option, none, some,
  ◌==◌, nat_Eq, list_Eq, if◌then◌else◌,
}
use arcc.Base.Text.{Text, codes, trim, is_empty}
use arcc.Model.Json.{
  Value, null, bool, number, string, array, object, Items, nil, cons, Fields, get_field, get_value,
  and_get, and_str, insert_field, obj, arr, str, ◌:=◌, unwrap_or,
}
use arcc.Acp.{resolve, cancel_all}
use arcc.Acp.Protocol.{
  parse_error, invalid_request, method_not_found, invalid_params, session_not_found, session_busy,
  RpcRequest, is_notification, read_request, response_ok, response_err, blocks_text,
}
use arcc.Acp.Requests.{
  send, model_config_option, session_new_response, initialize_response, Reply, handle_prompt,
  handle_close, handle_set_mode, handle_config, handle_cancel,
}
use arcc.Acp.Sessions.{
  Turn, Server, create_session, find_session, is_running, set_running, set_model, cancel,
  fresh_cancel_token, remove_handle,
}

pub data Method : Type 0 where
  initialize session_new session_prompt session_close session_set_mode session_set_config_option
        session_cancel unknown :
      Method

unfoldable pub read_method : Text → Method
read_method m =
    if m == codes "initialize"
    then initialize
    else if m == codes "session/new"
    then session_new
    else if m == codes "session/prompt"
    then session_prompt
    else if m == codes "session/close"
    then session_close
    else if m == codes "session/set_mode"
    then session_set_mode
    else if m == codes "session/set_config_option"
    then session_set_config_option
    else if m == codes "session/cancel"
    then session_cancel
    else unknown

module _ (from_str : Text → Option Value) (new_id : ℕ → Text) (is_dir : Text → Bool)
    (server_dir : Option Text) (version : Text) where
  abbrev pub cwd_of : RpcRequest → Text
  unfolding and_get and_str unwrap_or
  cwd_of req =
      let home = unwrap_or server_dir (codes ".") in
      elim (and_str (and_get (codes "cwd") req.params)) [
        | none ↦ home
        | some dir ↦ if is_dir dir then dir else home
      ]

  unfoldable pub handle_method : Method → Value → RpcRequest → Server → Reply
  unfolding initialize_response create_session session_new_response handle_prompt handle_close
      handle_set_mode handle_config handle_cancel
  handle_method initialize id req s = (some (response_ok id (initialize_response version)), s)
  handle_method session_new id req s =
      let session_id = new_id s.next in
      (
        some (response_ok id (session_new_response session_id)),
        create_session session_id (cwd_of req) s,
      )
  handle_method session_prompt id req s = handle_prompt id req s
  handle_method session_close id req s = handle_close id req s
  handle_method session_set_mode id req s = handle_set_mode id req s
  handle_method session_set_config_option id req s = handle_config id req s
  handle_method session_cancel id req s = handle_cancel id req s
  handle_method unknown id req s =
      (some (response_err id method_not_found (codes "method not found: " ++ req.method)), s)

  unfoldable pub handle_request : RpcRequest → Server → Reply
  unfolding handle_method read_method is_notification unwrap_or
  handle_request req s =
      let id = unwrap_or req.id null in
      if not (is_notification req) && not (req.jsonrpc == codes "2.0")
      then (some (response_err id invalid_request (codes "jsonrpc must be \"2.0\"")), s)
      else handle_method (read_method req.method) id req s

  abbrev pub send_reply : Reply → Server
  send_reply (none, s) = s
  send_reply (some r, s) = send r s

  -- An object: a request if it has a method, and an answer of the client if it has none.
  unfoldable pub handle_object : Fields → Server → Server
  unfolding get_field read_request handle_request resolve unwrap_or
  handle_object fs s =
      let id = unwrap_or (get_field (codes "id") fs) null in
      elim (get_field (codes "method") fs) [
        | none ↦ record s { perms = (resolve id (get_field (codes "result") fs) s.perms).1 }
        | some _ ↦ elim (read_request fs) [
          | none ↦ send (response_err id invalid_request (codes "invalid request")) s
          | some req ↦ send_reply (handle_request req s)
        ]
      ]

  unfoldable pub handle_single : Value → Server → Server
  unfolding handle_object
  handle_single (object fs) s = handle_object fs s
  handle_single _ s = send (response_err null invalid_request (codes "invalid request")) s

  unfoldable pub handle_batch : Items → Server → Server
  unfolding handle_single
  handle_batch nil s = s
  handle_batch (cons v vs) s = handle_batch vs (handle_single v s)

  unfoldable pub handle_value : Value → Server → Server
  unfolding handle_batch handle_single
  handle_value v s = elim v [ array batch ↦ handle_batch batch s | other ↦ handle_single other s ]

  unfoldable pub read_line : Text → Server → Server
  unfolding trim is_empty handle_value
  read_line line s =
      let text = trim line in
      if is_empty text then s else elim (from_str text) [
        | none ↦ send (response_err null parse_error (codes "parse error")) s
        | some v ↦ handle_value v s
      ]

-- The end of the input.
unfoldable pub close_input : Server → Server
unfolding cancel_all
close_input s = record s { perms = cancel_all s.perms }

-- The turn at a place of the list, and the other turns.
unfoldable pub take_turn : ℕ → List Turn → Option (Turn × List Turn)
take_turn n [] = none
take_turn zero (t ∷ ts) = some (t, ts)
take_turn (suc n) (t ∷ ts) = elim (take_turn n ts) [ none ↦ none | some (u, us) ↦ some (u, t ∷ us) ]

-- `run_prompt` begins: the turn listens to a token of its own.
unfoldable pub begin_turn : Turn → List Turn → Server → Server
unfolding fresh_cancel_token
begin_turn t others s =
    let fresh = fresh_cancel_token t.handle s in
    record fresh.1 { turns = record t { token = some fresh.0 } ∷ others }

unfoldable pub turn_result : Text → Option Value → Value
unfolding insert_field
turn_result stop_reason none = obj (("stopReason" := string stop_reason) ∷ [])
turn_result stop_reason (some usage) =
    obj (("stopReason" := string stop_reason) ∷ ("usage" := usage) ∷ [])

-- A turn ends: the guard is given back, then the prompt is answered.
unfoldable pub end_turn : Turn → List Turn → Text → Option Value → Server → Server
unfolding set_running turn_result
end_turn t others stop_reason usage s =
    send (response_ok t.id (turn_result stop_reason usage))
      (set_running t.handle false (record s { turns = others }))
