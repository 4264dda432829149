-- ===== src/Session/Tests.antt =====
-- The theorems about sessions at concrete histories.
use arcc.Base.{
  ◌≡◌, ◌≢◌, refl, ap, ◌==◌, true, false, List, [], ◌∷◌, none, some, All, keep_if, arith, list_Eq,
  list_eq,
}
use arcc.Base.Text.{codes}
use arcc.Base.Maps.{get}
use arcc.Model.Json.{null}
use arcc.Model.Types.{
  ChatMessage, new_message, user, tool_result, assistant_role, tool_role, user_role,
}
use arcc.Model.Provider.{ModelProvider, err, stream}
use arcc.Session.{Session}
use arcc.Session.Sanitize.{sanitize_tool_call_sequence, tool_ids}
use arcc.Session.ToolOrder.{Ordered, sanitize-Ordered, roles_differ}
use arcc.Session.Kept.{is_plain, sanitize-keep_if}
use arcc.Session.Stable.{AllDistinct, sanitize-stable}
use arcc.Session.Request.{prepare_for_request, HasReasoning, prepare_for_request-IsAccepted}
use arcc.Session.Manager.{
  SessionManager, get_or_create, find_by_name, session_count, get_or_create_busy,
}

abbrev calling : ChatMessage
calling = record {
  role = assistant_role;
  content = [];
  images = [];
  tool_calls = some (record { id = codes "a"; name = codes "run"; arguments = null } ∷ []);
  tool_call_id = none;
  reasoning_content = none;
}

abbrev answer : ChatMessage
answer = tool_result (codes "a") (codes "done")

-- A message of the user between a call and its answer.
abbrev interrupted : List ChatMessage
interrupted = user (codes "list") ∷ calling ∷ user (codes "wait") ∷ answer ∷ []

abbrev in_order : List ChatMessage
in_order = user (codes "list") ∷ calling ∷ answer ∷ user (codes "thanks") ∷ []

abbrev session_of : List ChatMessage → Session
session_of ms = record {
  id = codes "s1";
  name = codes "main";
  mode = codes "tui";
  messages = ms;
  token_count = 90;
  context_max_tokens = 50;
  summary = none;
  db = none;
}

-- A model whose requests fail.
abbrev offline : ModelProvider
offline = record {
  model_name = codes "flash";
  chat = λ _. err (stream (codes "offline"));
  chat_stream = λ _. err (stream (codes "offline"));
  count_tokens = λ _. 10;
}

abbrev busy_manager : SessionManager
busy_manager = record {
  sessions = (codes "s1", record { session = session_of interrupted; busy = true }) ∷ [];
  context_max_tokens = 50;
  db = none;
}

sanitize-Ordered_example : Ordered [] (sanitize_tool_call_sequence interrupted)
sanitize-Ordered_example = sanitize-Ordered interrupted

sanitize-keep_if_example :
    keep_if is_plain (sanitize_tool_call_sequence interrupted) ≡ keep_if is_plain interrupted
sanitize-keep_if_example = sanitize-keep_if interrupted

user_is_not_tool : user_role ≢ tool_role
unfolding user_role tool_role list_eq
user_is_not_tool e = false_is_not_true (ap (λ r. r == tool_role) e)
  where
    false_is_not_true : false ≡ true → ⊥
    false_is_not_true f = cc

in_order-Ordered : Ordered [] in_order
unfolding tool_ids user new_message tool_result assistant_role user_role tool_role list_eq
in_order-Ordered = (user_is_not_tool, (roles_differ, (refl, refl, (user_is_not_tool, tt))))

in_order-distinct : All (λ m. AllDistinct (tool_ids m)) in_order
unfolding tool_ids user new_message tool_result assistant_role user_role tool_role list_eq
in_order-distinct = (tt, ((tt, tt), (tt, (tt, tt))))

sanitize-stable_example : sanitize_tool_call_sequence in_order ≡ in_order
sanitize-stable_example = sanitize-stable in_order in_order-Ordered in_order-distinct

prepare_for_request-IsAccepted_example :
    Ordered [] (prepare_for_request (session_of interrupted))
    × All HasReasoning (prepare_for_request (session_of interrupted))
prepare_for_request-IsAccepted_example = prepare_for_request-IsAccepted (session_of interrupted)

get_or_create_busy_example :
    let r = get_or_create (codes "s2") busy_manager (codes "main") (codes "tui") in
    (find_by_name busy_manager (codes "main") ≡ none)
    × (session_count (codes "main") r.0.sessions ≡ 2)
    × (r.1.session.id ≡ codes "s2")
    × (find_by_name r.0 (codes "main") ≡ some r.1)
unfolding get list_eq
get_or_create_busy_example =
    get_or_create_busy (codes "s2") busy_manager (codes "main") (codes "tui") refl
      ((λ same. refl), tt) (omega arith)
