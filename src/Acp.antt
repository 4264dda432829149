-- ===== src/Acp.antt =====
-- crates/arcc-acp/src/permission.rs and prompt.rs: the questions that the agent asks its client before
-- it runs a command. A oneshot channel is a number, and what was sent on it a map.
pub mod Consent
pub mod Protocol
pub mod Sessions
pub mod Requests
pub mod Dispatch
pub mod Talk
pub mod Prompt
mod Tests
use arcc.Base.{
  ◌≡◌, ℕ, Bool, true, false, List, [], ◌∷◌, Option, none, some, ◌==◌, nat_Eq, list_Eq,
  if◌then◌else◌,
}
use arcc.Base.Text.{Text, codes}
use arcc.Base.Maps.{Map, get, insert, remove}
use arcc.Model.Json.{Value, null, get_value, as_str, and_get, and_str}
use arcc.Safety.{Allowlist, Checked, permitted, refused, check}

-- The registry, and the values that have been sent on the channels.
pub record PermRegistry : Type 0 where
  pub pending : Map Text ℕ
  pub sent : Map ℕ Value

unfoldable pub new_registry : PermRegistry
new_registry = record { pending = []; sent = [] }

unfoldable pub register : Text → ℕ → PermRegistry → PermRegistry
unfolding insert
register request_id tx r = record r { pending = insert request_id tx r.pending }

unfoldable pub unwrap_or_null : Option Value → Value
unwrap_or_null none = null
unwrap_or_null (some v) = v

-- The end of `resolve`, by what `remove` has returned.
unfoldable pub deliver : Text → Option ℕ → Option Value → PermRegistry → Bool × PermRegistry
unfolding insert remove unwrap_or_null
deliver request_id none result r = (false, r)
deliver request_id (some tx) result r = (
  true,
  record r {
    pending = remove request_id r.pending;
    sent = insert tx (unwrap_or_null result) r.sent;
  },
)

unfoldable pub resolve_text : Option Text → Option Value → PermRegistry → Bool × PermRegistry
unfolding deliver get
resolve_text none result r = (false, r)
resolve_text (some request_id) result r = deliver request_id (get request_id r.pending) result r

unfoldable pub resolve : Value → Option Value → PermRegistry → Bool × PermRegistry
unfolding resolve_text as_str
resolve id result r = resolve_text (as_str id) result r

unfoldable pub send_null : Map Text ℕ → Map ℕ Value → Map ℕ Value
unfolding insert
send_null [] sent = sent
send_null ((_, tx) ∷ pending) sent = send_null pending (insert tx null sent)

unfoldable pub cancel_all : PermRegistry → PermRegistry
unfolding send_null
cancel_all r = record { pending = []; sent = send_null r.pending r.sent }

pub data PermissionOutcome : Type 0 where
  allowed rejected cancelled : PermissionOutcome

-- What wakes the prompt: a value, a channel whose sender is gone, or the turn's cancellation.
pub data Woken : Type 0 where
  response : Value → Woken
  sender_gone cancelled_turn : Woken

-- `o == Some(text)`.
unfoldable pub is_text : Option Text → Text → Bool
is_text none t = false
is_text (some s) t = s == t

unfoldable pub read_response : Value → PermissionOutcome
unfolding and_get and_str is_text get_value
read_response v =
    let outcome = and_get (codes "outcome") (get_value (codes "outcome") v) in
    if is_text (and_str outcome) (codes "selected")
    then (let option = and_get (codes "optionId") (get_value (codes "outcome") v) in
        if is_text (and_str option) (codes "allow_once") then allowed else rejected)
    else rejected

unfoldable pub outcome_of : Woken → PermissionOutcome
unfolding read_response
outcome_of (response v) = read_response v
outcome_of sender_gone = read_response null
outcome_of cancelled_turn = cancelled

-- What the prompt does with a command of the model: it runs it, refuses it, or ends the turn.
pub data Gate : Type 0 where
  runs refuses aborts : Gate

unfoldable pub gate_for : PermissionOutcome → Gate
gate_for allowed = runs
gate_for rejected = refuses
gate_for cancelled = aborts

-- `check(&command).unwrap_or(false)`
unfoldable pub needs_confirm : Checked → Bool
needs_confirm (permitted b) = b
needs_confirm (refused _) = false

unfoldable pub gate : Bool → Allowlist → Text → Woken → Gate
unfolding check needs_confirm gate_for outcome_of
gate skip_permissions a command woken =
    if skip_permissions
    then runs
    else (if needs_confirm (check a command) then gate_for (outcome_of woken) else runs)
