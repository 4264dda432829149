-- ===== src/Feishu/Webhook/Gate.antt =====
-- crates/arcc-server/src/feishu/webhook.rs: what a request must have to set something off.
use arcc.Base.{
  ◌≡◌, ◌≢◌, refl, sym, ◌⊎◌, inl, inr, Bool, false, not, ◌&&◌, [], ◌∷◌, Option, none, some, arith,
  ◌==◌, list_Eq, ==_iff, Bool-cases, if_either, ap, ◌∙◌,
}
use arcc.Base.Text.{Text, codes, is_empty, trim}
use arcc.Model.Json.{
  Value, get_value, and_str, unwrap_or, and_get, nil, Fields, get_field, as_str, null, bool, number,
  string, array, object,
}
use arcc.Feishu.Post.{is_group}
use arcc.Feishu.Webhook.{
  HeaderV2, EventV2, CardActionPayload, Effect, nothing, enqueue, Read, payload, malformed,
  with_header, by_challenge, by_payload, handler, handle_message_event, message_event, text_message,
  queue_text, mentions_of, chat_type_of, open_id_of, user_text_of, at_key, has_items, in_object,
  or_empty, panic,
}
use arcc.Feishu.Webhook.Mentions.{Stripped, strip_mentions-Stripped}

-- The token that is configured, if any.
abbrev pub Trusted : Text → HeaderV2 → Type 0
Trusted expected_token h = (expected_token ≡ []) ⊎ (h.token ≡ some expected_token)

-- A request that sets something off is a payload without a challenge, with a trusted header.
abbrev pub IsAdmitted : Text → Read → Type 0
IsAdmitted expected_token r =
    (p : EventV2) × (h : HeaderV2) × (r ≡ payload p)
    × (and_str (get_value (codes "challenge") p.event) ≡ none)
    × (p.header ≡ some h)
    × Trusted expected_token h

same_token :
    (token : Option Text) (expected_token : Text)
    → expected_token ≢ []
    → not (unwrap_or token [] == expected_token) ≡ false
    → token ≡ some expected_token
unfolding unwrap_or
same_token none expected_token filled e =
    absurd (filled (sym (ground (arith, ==_iff [] expected_token))))
same_token (some t) expected_token filled e = ground (arith, ==_iff t expected_token)

token-Trusted :
    (expected_token : Text) (h : HeaderV2)
    → (not (is_empty expected_token) && not (unwrap_or h.token [] == expected_token)) ≡ false
    → Trusted expected_token h
unfolding is_empty
token-Trusted [] h e = inl refl
token-Trusted (c ∷ cs) h e = inr (same_token h.token (c ∷ cs) (cc) e)

module _ (read : Text → Read) (from_content : Text → Value)
    (read_action : Value → Option CardActionPayload) (expected_token : Text)
    (has_client : Bool) where
  with_header-Trusted :
      (header : Option HeaderV2) (event : Value)
      → ((with_header read from_content read_action expected_token has_client header event).1
          ≡ nothing)
        ⊎ ((h : HeaderV2) × (header ≡ some h) × Trusted expected_token h)
  unfolding with_header
  with_header-Trusted none event = inl refl
  with_header-Trusted (some h) event =
      elim (Bool-cases
        (not (is_empty expected_token) && not (unwrap_or h.token [] == expected_token))) [
          | inl refused ↦ inl (rw refused refl)
          | inr admitted ↦ inr (h, refl, token-Trusted expected_token h admitted)
        ]

  by_challenge-IsAdmitted :
      (challenge : Option Text) (p : EventV2)
      → and_str (get_value (codes "challenge") p.event) ≡ challenge
      → ((by_challenge read from_content read_action expected_token has_client challenge p).1
          ≡ nothing)
        ⊎ IsAdmitted expected_token (payload p)
  unfolding by_challenge
  by_challenge-IsAdmitted (some challenge) p e = inl refl
  by_challenge-IsAdmitted none p e = elim (with_header-Trusted p.header p.event) [
    | inl refused ↦ inl refused
    | inr (h, has, trusted) ↦ inr (p, h, refl, e, has, trusted)
  ]

  by_payload-IsAdmitted :
      (r : Read)
      → ((by_payload read from_content read_action expected_token has_client r).1 ≡ nothing)
        ⊎ IsAdmitted expected_token r
  unfolding by_payload
  by_payload-IsAdmitted (malformed e) = inl refl
  by_payload-IsAdmitted (payload p) = by_challenge-IsAdmitted _ p refl

  -- A request sets nothing off unless its body is a payload with no challenge in its event, and with
  -- a header that carries the configured token; without a configured token any header will do.
  pub handler-IsAdmitted :
      (body : Text)
      → ((handler read from_content read_action expected_token has_client body).1 ≡ nothing)
        ⊎ IsAdmitted expected_token (read body)
  unfolding handler
  handler-IsAdmitted body = by_payload-IsAdmitted (read body)

-- The text in the content of a message, before the mentions are taken out.
abbrev pub raw_text : (Text → Value) → Value → Text
raw_text from_content content =
    trim
      (or_empty (get_value (codes "text") (from_content (unwrap_or (as_str content) (codes "{}")))))

-- What is queued of an event has a text, which is that of the message's content without the mentions;
-- and in a group somebody is mentioned.
abbrev pub IsChat : (Text → Value) → Value → Effect → Type 0
IsChat from_content event (enqueue e) =
    (e.user_text ≢ [])
    × ((e.chat_type ≡ codes "group") → mentions_of event ≢ nil)
    × (content : Value) × (and_get (codes "content") (get_value (codes "message") event)
        ≡ some content)
    × Stripped (mentions_of event) (raw_text from_content content) e.user_text
IsChat from_content event _ = Unit

queue_text-IsChat :
    (from_content : Text → Value) (chat_id open_id message_id user_text : Text)
    (event content : Value)
    → ((chat_type_of event ≡ codes "group") → mentions_of event ≢ nil)
    → and_get (codes "content") (get_value (codes "message") event) ≡ some content
    → Stripped (mentions_of event) (raw_text from_content content) user_text
    → IsChat from_content event
        (queue_text chat_id (chat_type_of event) open_id message_id user_text)
unfolding queue_text is_empty
queue_text-IsChat from_content chat_id open_id message_id [] event content h e s = tt
queue_text-IsChat from_content chat_id open_id message_id (c ∷ cs) event content h e s =
    ((cc), h, content, e, s)

at_key-IsChat :
    (from_content : Text → Value) (event : Value) (key : Text) (m : Fields) (next : Value → Effect)
    → ((v : Value) → get_field key m ≡ some v → IsChat from_content event (next v))
    → IsChat from_content event (at_key key m next)
at_key-IsChat from_content event key m next h = by_field (get_field key m) h
  where
    by_field :
        (field : Option Value)
        → ((v : Value) → field ≡ some v → IsChat from_content event (next v))
        → IsChat from_content event (elim field [ none ↦ panic | some v ↦ next v ])
    by_field none h = tt
    by_field (some v) h = h v refl

mentioned :
    (event : Value)
    → (is_group (chat_type_of event) && not (has_items (mentions_of event))) ≡ false
    → chat_type_of event ≡ codes "group"
    → mentions_of event ≢ nil
mentioned event e g none_mentioned = ground (arith, ==_iff (chat_type_of event) (codes "group"))

module _ (from_content : Text → Value) (event : Value) (m : Fields)
    (is_message : get_value (codes "message") event ≡ some (object m)) where
  text_message-IsChat :
      (chat_id message_id : Text)
      → IsChat from_content event (text_message from_content chat_id message_id event m)
  unfolding text_message user_text_of and_get get_value
  text_message-IsChat chat_id message_id =
      elim (Bool-cases (is_group (chat_type_of event) && not (has_items (mentions_of event)))) [
        | inl ignored ↦ rw ignored tt
        | inr heard ↦ rw heard (
            at_key-IsChat from_content event (codes "content") m _ (λ content found.
              queue_text-IsChat from_content chat_id (open_id_of event) message_id
                (user_text_of from_content content (mentions_of event)) event content
                (mentioned event heard) (ap (and_get (codes "content")) is_message ∙ found)
                (strip_mentions-Stripped (mentions_of event) (raw_text from_content content))))
      ]

  message_event-IsChat : IsChat from_content event (message_event from_content event m)
  unfolding message_event
  message_event-IsChat = at_key-IsChat from_content event (codes "chat_id") m _ (λ chat_id e.
      at_key-IsChat from_content event (codes "message_id") m _ (λ message_id f.
        at_key-IsChat from_content event (codes "message_type") m _ (λ msg_type k.
          if_either (IsChat from_content event) (unwrap_or (as_str msg_type) [] == codes "text")
            (text_message-IsChat _ _) tt)))

module _ (from_content : Text → Value) where
  in_object-IsChat :
      (event : Value) (message : Option Value)
      → get_value (codes "message") event ≡ message
      → IsChat from_content event (in_object from_content event message)
  in_object-IsChat event none e = tt
  in_object-IsChat event (some null) e = tt
  in_object-IsChat event (some (bool b)) e = tt
  in_object-IsChat event (some (number n)) e = tt
  in_object-IsChat event (some (string s)) e = tt
  in_object-IsChat event (some (array vs)) e = tt
  in_object-IsChat event (some (object m)) e = message_event-IsChat from_content event m e

  -- A message that is queued has a text that is not empty, and in a group its event mentions somebody.
  -- The text is that of the message's content, trimmed, out of which the keys of the event's mentions
  -- are cut, one after the other, with each occurrence of a key, from the left to the right, and which
  -- is trimmed after each key.
  pub handle_message_event-IsChat :
      (event : Value) → IsChat from_content event (handle_message_event from_content event)
  unfolding handle_message_event
  handle_message_event-IsChat event = in_object-IsChat event _ refl
