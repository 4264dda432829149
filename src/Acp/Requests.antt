-- ===== src/Acp/Requests.antt =====
-- crates/arcc-acp/src/lib.rs: the payloads of its responses, and the requests that name a session.
use arcc.Base.{
  ℕ, true, false, ◌&&◌, ◌||◌, [], ◌∷◌, ◌++◌, Option, none, some, ◌==◌, nat_Eq, list_Eq,
  if◌then◌else◌,
}
use arcc.Base.Text.{Text, codes, trim, is_empty}
use arcc.Model.Json.{
  Value, bool, number, string, array, and_get, and_str, obj, arr, str, ◌:=◌, unwrap_or,
}
use arcc.Acp.Protocol.{
  invalid_params, session_not_found, session_busy, RpcRequest, is_notification, response_ok,
  response_err, blocks_text,
}
use arcc.Acp.Sessions.{
  Turn, Server, find_session, is_running, set_running, set_model, cancel, remove_handle,
}

abbrev pub send : Value → Server → Server
send v s = record s { out = s.out ++ (v ∷ []) }

-- A text of the parameters, empty if it is not there.
unfoldable pub param : Text → RpcRequest → Text
unfolding and_get and_str unwrap_or
param k req = unwrap_or (and_str (and_get k req.params)) []

unfoldable pub sid : RpcRequest → Text
unfolding param
sid req = param (codes "sessionId") req

abbrev pub not_found : Value → Text → Value
not_found id session_id =
    response_err id session_not_found (codes "session " ++ (session_id ++ codes " not found"))

abbrev model_name : Text → Text → Value
model_name label value = obj (("label" := string label) ∷ ("value" := string value) ∷ [])

unfoldable pub model_config_option : Text → Value
model_config_option current = obj (
    ("key" := str "model")
    ∷ ("name" := str "Model")
    ∷ ("type" := str "select")
    ∷ ("options"
        := arr (
            model_name (codes "DeepSeek-V4-Flash") (codes "flash")
            ∷ model_name (codes "DeepSeek-V4-Pro") (codes "pro")
            ∷ []))
    ∷ ("defaultValue" := string current)
    ∷ [])

abbrev model_entry : Text → Text → Value
model_entry model_id name = obj (("modelId" := string model_id) ∷ ("name" := string name) ∷ [])

unfoldable pub session_new_response : Text → Value
unfolding model_config_option
session_new_response session_id = obj (
    ("sessionId" := string session_id)
    ∷ ("modes" := arr (str "default" ∷ []))
    ∷ ("configOptions" := arr (model_config_option (codes "flash") ∷ []))
    ∷ ("models"
        := obj (
            ("currentModelId" := str "flash")
            ∷ ("availableModels"
                := arr (
                    model_entry (codes "flash") (codes "DeepSeek-V4-Flash")
                    ∷ model_entry (codes "pro") (codes "DeepSeek-V4-Pro")
                    ∷ []))
            ∷ []))
    ∷ [])

unfoldable pub initialize_response : Text → Value
initialize_response version =
    let caps = obj (
      ("loadSession" := bool false)
      ∷ ("promptCapabilities" := obj [])
      ∷ ("sessionCapabilities" := obj (("close" := obj []) ∷ []))
      ∷ []) in
    let info =
      obj (("name" := str "arcc") ∷ ("title" := str "ARCC") ∷ ("version" := string version) ∷ []) in
    obj (
      ("protocolVersion" := number (codes "1"))
      ∷ ("agentCapabilities" := caps)
      ∷ ("agentInfo" := info)
      ∷ ("authMethods" := arr [])
      ∷ ("serverCapabilities" := caps)
      ∷ ("serverInfo" := info)
      ∷ [])

-- The text of the blocks of `prompt`.
unfoldable pub prompt_text : RpcRequest → Text
unfolding and_get blocks_text trim
prompt_text req = elim (and_get (codes "prompt") req.params) [
  | none ↦ []
  | some v ↦ elim v [ array blocks ↦ trim (blocks_text blocks) | _ ↦ [] ]
]

-- A response, or none, and the state.
abbrev pub Reply : Type 0
Reply = Option Value × Server

abbrev pub turn_of : Value → ℕ → Text → Turn
turn_of id n text = record { id = id; handle = n; text = text; token = none }

-- The prompt of a session whose handle is `n`: the guard is taken, and given back if there is no text.
unfoldable pub start_prompt : Value → ℕ → RpcRequest → Server → Reply
unfolding is_running set_running prompt_text is_empty
start_prompt id n req s =
    if is_running n s
    then (
      some (
          response_err id session_busy
            (codes "session " ++ (sid req ++ codes " already has a running prompt"))),
      s,
    )
    else (let taken = set_running n true s in
        if is_empty (prompt_text req)
        then (
          some (
              response_err id invalid_params
                (codes "prompt must contain at least one non-empty text block")),
          set_running n false taken,
        )
        else (none, record taken { turns = taken.turns ++ (turn_of id n (prompt_text req) ∷ []) }))

unfoldable pub handle_prompt : Value → RpcRequest → Server → Reply
unfolding is_notification find_session start_prompt
handle_prompt id req s =
    if is_notification req then (none, s) else elim (find_session (sid req) s) [
      | none ↦ (some (not_found id (sid req)), s)
      | some n ↦ start_prompt id n req s
    ]

unfoldable pub handle_close : Value → RpcRequest → Server → Reply
unfolding remove_handle
handle_close id req s = elim (find_session (sid req) s) [
  | none ↦ (some (not_found id (sid req)), s)
  | some _ ↦ (some (response_ok id (obj [])), (remove_handle (sid req) s).1)
]

unfoldable pub handle_set_mode : Value → RpcRequest → Server → Reply
unfolding find_session
handle_set_mode id req s = elim (find_session (sid req) s) [
  | none ↦ (some (not_found id (sid req)), s)
  | some _ ↦
      if param (codes "mode") req == codes "default"
      then (some (response_ok id (obj [])), s)
      else (some (response_err id invalid_params (codes "only mode \"default\" is supported")), s)
]

unfoldable pub handle_config : Value → RpcRequest → Server → Reply
unfolding find_session set_model
handle_config id req s = elim (find_session (sid req) s) [
  | none ↦ (some (not_found id (sid req)), s)
  | some n ↦
      let key = param (codes "key") req in
      let value = param (codes "value") req in
      if key == codes "model" && (value == codes "pro" || value == codes "flash")
      then (
        some
            (response_ok id (obj (("configOptions" := arr (model_config_option value ∷ [])) ∷ []))),
        set_model n value s,
      )
      else (
        some (
            response_err id invalid_params
              (codes "unsupported config option " ++ (key ++ (codes "=" ++ value)))),
        s,
      )
]

unfoldable pub handle_cancel : Value → RpcRequest → Server → Reply
unfolding find_session cancel is_notification
handle_cancel id req s = (
  (if is_notification req then none else some (response_ok id (obj []))),
  elim (find_session (sid req) s) [ none ↦ s | some n ↦ cancel n s ],
)
