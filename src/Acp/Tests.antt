-- ===== src/Acp/Tests.antt =====
-- The theorems about permissions and the dispatch at concrete messages.
use arcc.Base.{
  ◌≡◌, ◌↔◌, refl, ℕ, Bool, true, false, Option, Listed, arith, [], ◌∷◌, none, some, nat_Eq, list_Eq,
  list_eq, ◌==◌, if◌then◌else◌,
}
use arcc.Base.Text.{Text, codes}
use arcc.Base.Maps.{get}
use arcc.Model.Json.{Value, string, object, end, field, obj, arr, str, ◌:=◌}
use arcc.Safety.{Allowlist, check}
use arcc.Acp.{response, runs, needs_confirm, gate}
use arcc.Session.Manager.{SessionManager, new_manager}
use arcc.Acp.Protocol.{RpcRequest}
use arcc.Acp.Sessions.{AcpSessionHandle, Turn, Server, is_running, cancel}
use arcc.Acp.Requests.{sid}
use arcc.Acp.Dispatch.{handle_request, read_line, begin_turn}
use arcc.Acp.Dispatch.Parts.{count_turns, one_if}
use arcc.Acp.Dispatch.Turns.{new_server, line, start, next, Reach-one_turn}
use arcc.Acp.Dispatch.Responses.{IsAnswered, handle_request-IsAnswered}
use arcc.Acp.Dispatch.Cancellation.{cancel-begin_turn}
use arcc.Acp.Consent.{Consents, gate-Consents}

abbrev careful : Allowlist
careful = record { require_confirm = codes "rm" ∷ []; session_approved = [] }

abbrev consent : Value
consent = object (
    field (codes "outcome")
      (object (
        field (codes "outcome") (string (codes "selected"))
          (field (codes "optionId") (string (codes "allow_once")) end)))
      end)

gate-Consents_example :
    (gate false careful (codes "rm x") (response consent) ≡ runs)
    ↔ ((v : Value) × (response consent ≡ response v) × Consents v)
unfolding needs_confirm check list_eq
gate-Consents_example = gate-Consents careful (codes "rm x") (response consent) refl

-- A reader of two lines: one that makes a session, and one that prompts it.
abbrev new_line : Value
new_line = obj (("jsonrpc" := str "2.0") ∷ ("id" := str "a") ∷ ("method" := str "session/new") ∷ [])

abbrev prompt_line : Value
prompt_line = obj (
    ("jsonrpc" := str "2.0")
    ∷ ("id" := str "b")
    ∷ ("method" := str "session/prompt")
    ∷ ("params"
        := obj (
            ("sessionId" := str "s")
            ∷ ("prompt" := arr (obj (("type" := str "text") ∷ ("text" := str "hi") ∷ []) ∷ []))
            ∷ []))
    ∷ [])

abbrev read_two : Text → Option Value
read_two s = if s == codes "n" then some new_line else some prompt_line

abbrev one_id : ℕ → Text
one_id _ = codes "s"

abbrev no_dir : Text → Bool
no_dir _ = false

abbrev core : SessionManager
unfolding new_manager
core = new_manager 1000

abbrev fresh : Server
unfolding new_server core
fresh = new_server core

abbrev after_new : Server
unfolding read_line fresh
after_new = read_line read_two one_id no_dir none [] (codes "n") fresh

abbrev after_prompt : Server
unfolding read_line after_new
after_prompt = read_line read_two one_id no_dir none [] (codes "p") after_new

Reach-one_turn_example : count_turns 0 after_prompt.turns ≡ one_if (is_running 0 after_prompt)
unfolding fresh after_new after_prompt
Reach-one_turn_example =
    Reach-one_turn read_two one_id no_dir none []
      (next (next start (line (codes "n"))) (line (codes "p"))) 0

prompt_test : count_turns 0 after_prompt.turns ≡ 1
unfolding after_prompt list_eq sid
prompt_test = refl

abbrev ask : RpcRequest
ask = record {
  jsonrpc = codes "2.0";
  id = some (str "b");
  method = codes "session/close";
  params = none;
}

handle_request-IsAnswered_example :
    IsAnswered (str "b") fresh (handle_request read_two one_id no_dir none [] ask fresh)
handle_request-IsAnswered_example =
    handle_request-IsAnswered read_two one_id no_dir none [] ask (str "b") fresh refl

abbrev idle : AcpSessionHandle
idle = record { id = codes "s"; cwd = []; cancel = 3; running = true; model_pref = none }

abbrev asked : Turn
asked = record { id = str "b"; handle = 0; text = codes "hi"; token = none }

abbrev waiting : Server
unfolding fresh
waiting = record fresh { handles = (0, idle) ∷ []; next = 4; turns = asked ∷ [] }

cancel-begin_turn_example :
    let after = cancel 0 (begin_turn asked [] waiting) in
    let before = begin_turn asked [] (cancel 0 waiting) in
    let begun = record asked { token = some 4 } ∷ [] in
    ((after.turns ≡ begun) × Listed 4 after.cancelled)
    × ((before.turns ≡ begun) × (Listed 4 before.cancelled → ⊥))
unfolding waiting fresh get
cancel-begin_turn_example = cancel-begin_turn asked [] waiting idle refl (tt, omega arith)
