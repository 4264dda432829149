-- ===== src/Acp/Dispatch/Turns.antt =====
-- crates/arcc-acp/src/lib.rs: the server as its lines and turns change it, in any order.
use arcc.Base.{
  ℕ, zero, suc, ◌+◌, ◌≡◌, refl, subst, sym, ap, inl, inr, Bool, false, List, [], ◌∷◌, Option, none,
  some, nat_eq, nat_Eq, list_Eq, Option-cases, arith, some_same, none_is_not_some,
}
use arcc.Base.Text.{Text}
use arcc.Base.Maps.{get}
use arcc.Model.Json.{Value}
use arcc.Session.Manager.{SessionManager}
use arcc.Acp.{new_registry}
use arcc.Acp.Sessions.{Turn, Server, with_handle, is_running, fresh_cancel_token}
use arcc.Acp.Dispatch.{read_line, close_input, take_turn, begin_turn, end_turn}
use arcc.Acp.Dispatch.Parts.{one_if, count_turns, update_handle, same_turns, drop_turn, turn_handle}
use arcc.Acp.Dispatch.Guard.{IsGuarded, set_running-get, read_line-IsGuarded}

unfoldable pub new_server : SessionManager → Server
unfolding new_registry
new_server core = record {
  handles = [];
  sessions = [];
  next = 0;
  cancelled = [];
  core = core;
  perms = new_registry;
  turns = [];
  out = [];
}

count_turns-take :
    (i : ℕ) (ts : List Turn) (t : Turn) (others : List Turn)
    → take_turn i ts ≡ some (t, others)
    → (k : ℕ) → count_turns k ts ≡ one_if (nat_eq t.handle k) + count_turns k others
unfolding take_turn
count_turns-take i [] t others h k = absurd (none_is_not_some h)
count_turns-take zero (u ∷ us) t others h k =
    let same = some_same h in
    rw (ap (λ (p : Turn × List Turn). p.0) same, ap (λ (p : Turn × List Turn). p.1) same) refl
count_turns-take (suc i) (u ∷ us) t others h k = elim (Option-cases (take_turn i us)) [
  | inl e ↦ absurd (none_is_not_some (rw (e, take_turn) at h))
  | inr ((v, vs), e) ↦
      let ih = count_turns-take i us v vs e k in
      let same = some_same (rw (e, take_turn) at h) in
      subst
        (λ (p : Turn × List Turn).
          one_if (nat_eq u.handle k) + count_turns k us
          ≡ one_if (nat_eq p.0.handle k) + count_turns k p.1)
        same (omega (arith, ih))
]

begin_turn-IsGuarded :
    (t : Turn) (others : List Turn) (s : Server)
    → ((k : ℕ) → count_turns k s.turns ≡ one_if (nat_eq t.handle k) + count_turns k others)
    → IsGuarded s
    → IsGuarded (begin_turn t others s)
unfolding begin_turn fresh_cancel_token with_handle
begin_turn-IsGuarded t others s split g =
    let (a, e) = turn_handle g t others split in
    let moved =
      update_handle g t.handle a (record a { cancel = s.next }) (s.next + 1) e refl (omega arith) in
    rw (e, with_handle)
      (same_turns moved (record t { token = some s.next } ∷ others) (λ k. sym (split k)))

end_turn-IsGuarded :
    (t : Turn) (others : List Turn) (stop_reason : Text) (usage : Option Value) (s : Server)
    → ((k : ℕ) → count_turns k s.turns ≡ one_if (nat_eq t.handle k) + count_turns k others)
    → IsGuarded s
    → IsGuarded (end_turn t others stop_reason usage s)
unfolding end_turn
end_turn-IsGuarded t others stop_reason usage s split g =
    let (a, e) = turn_handle g t others split in
    rw (set_running-get t.handle false (record s { turns = others }) a e)
      (drop_turn g t others a _ split e refl)

module _ (from_str : Text → Option Value) (new_id : ℕ → Text) (is_dir : Text → Bool)
    (server_dir : Option Text) (version : Text) where
  -- What changes the server: a line of the input, its end, and a turn that begins or ends with any
  -- result.
  pub data Step (s : Server) : Server → Type 0 where
    line : (text : Text) → Step s (read_line from_str new_id is_dir server_dir version text s)
    input_ends : Step s (close_input s)
    begins :
        (i : ℕ) (t : Turn) (others : List Turn)
        → take_turn i s.turns ≡ some (t, others)
        → t.token ≡ none
        → Step s (begin_turn t others s)
    ends :
        (i : ℕ) (t : Turn) (others : List Turn) (stop_reason : Text) (usage : Option Value)
        → take_turn i s.turns ≡ some (t, others)
        → Step s (end_turn t others stop_reason usage s)

  pub data Reach (core : SessionManager) : Server → Type 0 where
    start : Reach core (new_server core)
    next : {s t : Server} → Reach core s → Step s t → Reach core t

  Step-IsGuarded : {s t : Server} → Step s t → IsGuarded s → IsGuarded t
  unfolding close_input
  Step-IsGuarded {s} (line text) g =
      read_line-IsGuarded from_str new_id is_dir server_dir version text s g
  Step-IsGuarded input_ends g = g
  Step-IsGuarded {s} (begins i t others e fresh) g =
      begin_turn-IsGuarded t others s (count_turns-take i s.turns t others e) g
  Step-IsGuarded {s} (ends i t others stop_reason usage e) g =
      end_turn-IsGuarded t others stop_reason usage s (count_turns-take i s.turns t others e) g

  Reach-IsGuarded : {core : SessionManager} {s : Server} → Reach core s → IsGuarded s
  unfolding new_server get
  Reach-IsGuarded start = record {
    guarded = λ n. refl;
    unused = λ n h. refl;
    alive = λ id n h. absurd (none_is_not_some h);
  }
  Reach-IsGuarded (next r step) = Step-IsGuarded step (Reach-IsGuarded r)

  -- After any lines and turns, in any order, a session's `running` flag is set exactly if one turn of
  -- it goes on, and never do two turns of one session go on.
  pub Reach-one_turn :
      {core : SessionManager} {s : Server} (r : Reach core s) (n : ℕ)
      → count_turns n s.turns ≡ one_if (is_running n s)
  unfolding is_running
  Reach-one_turn {core} {s} r n = elim (Option-cases (get n s.handles)) [
    | inl e ↦ rw (e, is_running) (rw e at ((Reach-IsGuarded r).guarded n))
    | inr (a, e) ↦ rw (e, is_running) (rw e at ((Reach-IsGuarded r).guarded n))
  ]
