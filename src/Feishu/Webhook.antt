-- ===== src/Feishu/Webhook.antt =====
-- crates/arcc-server/src/feishu/webhook.rs, `handler`: the events that Feishu posts. Reading JSON is a
-- parameter: a payload, a card's action, and the content of a message, which is null if it is none.
-- A panic ends the request without an answer.
pub mod Mentions
pub mod Gate
use arcc.Base.{
  ℕ, zero, suc, ◌-◌, Bool, true, false, not, ◌&&◌, List, [], ◌∷◌, ◌++◌, Option, none, some, ◌==◌,
  list_Eq, if◌then◌else◌, length,
}
use arcc.Base.Text.{Text, codes, is_empty, trim, starts_with}
use arcc.Model.Json.{
  Value, null, array, object, Items, nil, cons, Fields, get_field, get_value, and_get, as_str,
  and_str, unwrap_or,
}
use arcc.ChatQueue.{ChatEvent}
use arcc.Feishu.Post.{is_group, build_approved_card, build_denied_card}

pub record HeaderV2 : Type 0 where
  pub token : Option Text
  pub event_type : Option Text

pub record EventV2 : Type 0 where
  pub schema : Option Text
  pub header : Option HeaderV2
  pub event : Value

pub record CardActionPayload : Type 0 where
  pub value : Option Value
  pub tag : Option Text
  pub message_id : Option Text

pub record WebhookResponse : Type 0 where
  pub code : ℕ
  pub challenge : Option Text
  pub msg : Option Text

pub data ConfirmDecision : Type 0 where
  approved denied : ConfirmDecision

-- What a request sets off: a message for the queue; an audited decision on an operation, with the
-- update of the card's message; or a panic.
pub data Effect : Type 0 where
  nothing : Effect
  enqueue : ChatEvent → Effect
  decide : ConfirmDecision → Text → Option (Text × Value) → Effect
  panic : Effect

-- The result of `serde_json::from_str`.
pub data Read : Type 0 where
  payload : EventV2 → Read
  malformed : Text → Read

-- `replace(key, "")`: the number counts the characters of an occurrence that are still to be left out.
unfoldable pub erase : Text → ℕ → Text → Text
unfolding starts_with is_empty
erase key skip [] = []
erase key (suc skip) (c ∷ s) = erase key skip s
erase key zero (c ∷ s) = elim (not (is_empty key) && starts_with key (c ∷ s)) [
  | true ↦ erase key (length key - 1) s
  | false ↦ c ∷ erase key zero s
]

-- The loop over the mentions.
unfoldable pub strip_mentions : Items → Text → Text
unfolding erase trim and_str get_value
strip_mentions nil text = text
strip_mentions (cons m ms) text = elim (and_str (get_value (codes "key") m)) [
  | none ↦ strip_mentions ms text
  | some key ↦ strip_mentions ms (trim (erase key 0 text))
]

abbrev items_in : Option Value → Items
items_in (some (array items)) = items
items_in _ = nil

abbrev has_items : Items → Bool
has_items nil = false
has_items (cons v vs) = true

abbrev pub or_empty : Option Value → Text
or_empty none = []
or_empty (some v) = unwrap_or (as_str v) []

-- `map[key]` on an object panics if the key is missing.
abbrev at_key : Text → Fields → (Value → Effect) → Effect
at_key key m next = elim (get_field key m) [ none ↦ panic | some v ↦ next v ]

unfoldable pub mentions_of : Value → Items
unfolding get_value and_get
mentions_of event = items_in (and_get (codes "mentions") (get_value (codes "message") event))

unfoldable pub chat_type_of : Value → Text
unfolding get_value and_get and_str
chat_type_of event =
    unwrap_or (and_str (and_get (codes "chat_type") (get_value (codes "message") event)))
      (codes "p2p")

unfoldable pub open_id_of : Value → Text
unfolding get_value and_get and_str
open_id_of event =
    unwrap_or
      (and_str (
        and_get (codes "open_id") (and_get (codes "sender_id") (get_value (codes "sender") event))))
      []

unfoldable pub queue_text : Text → Text → Text → Text → Text → Effect
unfolding is_empty
queue_text chat_id chat_type open_id message_id user_text =
    if is_empty user_text
    then nothing
    else enqueue (record {
      chat_id = chat_id;
      chat_type = chat_type;
      open_id = open_id;
      message_id = message_id;
      user_text = user_text;
    })

module _ (from_content : Text → Value) where
  -- The user's text in the content of a message, without the mentions.
  unfoldable pub user_text_of : Value → Items → Text
  unfolding get_value and_str as_str trim strip_mentions
  user_text_of content mentions = strip_mentions mentions (
      trim (
        or_empty
          (get_value (codes "text") (from_content (unwrap_or (as_str content) (codes "{}"))))))

  unfoldable pub text_message : Text → Text → Value → Fields → Effect
  unfolding mentions_of chat_type_of open_id_of user_text_of queue_text get_field
  text_message chat_id message_id event m =
      if is_group (chat_type_of event) && not (has_items (mentions_of event))
      then nothing
      else at_key (codes "content") m (λ content.
        queue_text chat_id (chat_type_of event) (open_id_of event) message_id
          (user_text_of content (mentions_of event)))

  unfoldable pub message_event : Value → Fields → Effect
  unfolding text_message get_field as_str
  message_event event m = at_key (codes "chat_id") m (λ chat_id.
      at_key (codes "message_id") m (λ message_id. at_key (codes "message_type") m (λ msg_type.
        if unwrap_or (as_str msg_type) [] == codes "text"
        then text_message (unwrap_or (as_str chat_id) []) (unwrap_or (as_str message_id) []) event m
        else nothing)))

  abbrev in_object : Value → Option Value → Effect
  in_object event (some (object m)) = message_event event m
  in_object event _ = nothing

  unfoldable pub handle_message_event : Value → Effect
  unfolding message_event get_value
  handle_message_event event = in_object event (get_value (codes "message") event)

module _ (has_client : Bool) where
  unfoldable pub decided : Text → Text → Text → Effect
  unfolding build_approved_card build_denied_card
  decided action_type operation message_id =
      if action_type == codes "approve"
      then decide approved operation (
          if has_client
          then some (message_id, build_approved_card operation (codes "Approved via Feishu card."))
          else none)
      else decide denied operation (
          if has_client
          then some (message_id, build_denied_card operation (codes "Denied via Feishu card."))
          else none)

  unfoldable pub handle_card_action : CardActionPayload → Effect
  unfolding decided get_value and_str
  handle_card_action action = elim action.value [
    | none ↦ nothing
    | some value ↦ elim action.message_id [
      | none ↦ nothing
      | some message_id ↦
          decided (or_empty (get_value (codes "action") value))
            (unwrap_or (and_str (get_value (codes "operation") value)) (codes "?")) message_id
    ]
  ]

abbrev pub Response : Type 0
Response = Option WebhookResponse × Effect

abbrev respond : ℕ → Option Text → Option Text → Option WebhookResponse
respond code challenge msg = some (record { code = code; challenge = challenge; msg = msg })

abbrev pub no_action : CardActionPayload
no_action = record { value = none; tag = none; message_id = none }

abbrev answer : Effect → Response
answer panic = (none, panic)
answer e = (respond 0 none none, e)

module _ (read : Text → Read) (from_content : Text → Value)
    (read_action : Value → Option CardActionPayload) (expected_token : Text)
    (has_client : Bool) where
  unfoldable pub dispatch : Text → Value → Effect
  unfolding handle_message_event handle_card_action get_value unwrap_or
  dispatch event_type event =
      if event_type == codes "im.message.receive_v1"
      then handle_message_event from_content event
      else if event_type == codes "card.action.trigger"
      then handle_card_action has_client
          (unwrap_or (read_action (unwrap_or (get_value (codes "action") event) null)) no_action)
      else nothing

  unfoldable pub with_header : Option HeaderV2 → Value → Response
  unfolding dispatch is_empty unwrap_or
  with_header none event = (respond 0 none (some (codes "ok")), nothing)
  with_header (some h) event =
      if not (is_empty expected_token) && not (unwrap_or h.token [] == expected_token)
      then (respond 403 none (some (codes "invalid token")), nothing)
      else answer (dispatch (unwrap_or h.event_type []) event)

  unfoldable pub by_challenge : Option Text → EventV2 → Response
  unfolding with_header
  by_challenge (some challenge) p = (respond 0 (some challenge) none, nothing)
  by_challenge none p = with_header p.header p.event

  unfoldable pub by_payload : Read → Response
  unfolding by_challenge get_value and_str
  by_payload (malformed e) = (respond 400 none (some (codes "invalid json: " ++ e)), nothing)
  by_payload (payload p) = by_challenge (and_str (get_value (codes "challenge") p.event)) p

  unfoldable pub handler : Text → Response
  unfolding by_payload
  handler body = by_payload (read body)
