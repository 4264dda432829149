-- ===== src/Acp/Consent.antt =====
-- crates/arcc-acp/src/permission.rs and prompt.rs: what the client has to say for a command to run.
use arcc.Base.{
  some_same, ◌≡◌, refl, sym, ap, subst, ◌∙◌, ◌↔◌, inl, inr, ℕ, Bool, true, false, [], ◌∷◌, Option,
  none, some, arith, nat_Eq, list_Eq, ◌==◌, ==_iff, ==_refl, if◌then◌else◌, Bool-cases,
}
use arcc.Base.Text.{Text, codes}
use arcc.Base.Maps.{Map, get, insert, remove, get-insert, get-remove}
use arcc.Model.Json.{
  Value, null, bool, number, string, array, object, get_value, as_str, and_get, and_str,
}
use arcc.Safety.{Allowlist, check}
use arcc.Acp.{
  PermRegistry, PermissionOutcome, unwrap_or_null, deliver, resolve, resolve_text, send_null,
  cancel_all, allowed, rejected, cancelled, Woken, response, sender_gone, cancelled_turn, is_text,
  read_response, outcome_of, runs, refuses, gate_for, needs_confirm, gate,
}

-- A response of the shape `{outcome: {outcome: "selected", optionId: "allow_once"}}`.
pub Consents : Value → Type 0
Consents v =
    (o : Value) × (get_value (codes "outcome") v ≡ some o)
    × (get_value (codes "outcome") o ≡ some (string (codes "selected")))
    × (get_value (codes "optionId") o ≡ some (string (codes "allow_once")))

false_is_not_true : false ≡ true → ⊥
false_is_not_true e = cc

both_true :
    (a b : Bool)
    → (if a then (if b then allowed else rejected) else rejected) ≡ allowed
    → (a ≡ true) × (b ≡ true)
both_true true true e = (refl, refl)
both_true true false e = absurd cc
both_true false b e = absurd cc

and_get-some :
    (k : Text) (g : Option Value) (x : Value)
    → and_get k g ≡ some x
    → (o : Value) × (g ≡ some o) × (get_value k o ≡ some x)
unfolding and_get
and_get-some k none x e = absurd cc
and_get-some k (some o) x e = (o, refl, e)

is_text-string : (o : Option Value) (t : Text) → is_text (and_str o) t ≡ true → o ≡ some (string t)
unfolding is_text and_str as_str
is_text-string (some (string s)) t e = ap (λ x. some (string x)) ((==_iff s t).0 e)
is_text-string none t e = absurd (false_is_not_true e)
is_text-string (some null) t e = absurd (false_is_not_true e)
is_text-string (some (bool b)) t e = absurd (false_is_not_true e)
is_text-string (some (number s)) t e = absurd (false_is_not_true e)
is_text-string (some (array xs)) t e = absurd (false_is_not_true e)
is_text-string (some (object fs)) t e = absurd (false_is_not_true e)

string-is_text : (o : Option Value) (t : Text) → o ≡ some (string t) → is_text (and_str o) t ≡ true
unfolding is_text and_str as_str
string-is_text o t e = rw e (==_refl t)

read_response-Consents : (v : Value) → read_response v ≡ allowed → Consents v
unfolding Consents read_response and_get
read_response-Consents v e =
    let answered = get_value (codes "outcome") v in
    let (selected, once) = both_true _ _ e in
    let first = is_text-string (and_get (codes "outcome") answered) (codes "selected") selected in
    let second = is_text-string (and_get (codes "optionId") answered) (codes "allow_once") once in
    let (o, found, chosen) = and_get-some (codes "outcome") answered _ first in
    (o, found, chosen, sym (ap (and_get (codes "optionId")) found) ∙ second)

Consents-read_response : (v : Value) → Consents v → read_response v ≡ allowed
unfolding read_response and_get Consents
Consents-read_response v (o, e, f, g) = rw (e, string-is_text _ _ f, string-is_text _ _ g)

gate_for-runs : (o : PermissionOutcome) → gate_for o ≡ runs → o ≡ allowed
unfolding gate_for
gate_for-runs allowed e = refl
gate_for-runs rejected e = absurd cc
gate_for-runs cancelled e = absurd cc

response_of :
    (w : Woken)
    → gate_for (outcome_of w) ≡ runs
    → (v : Value) × (w ≡ response v) × (read_response v ≡ allowed)
unfolding outcome_of read_response gate_for
response_of (response v) e = (v, refl, gate_for-runs (read_response v) e)
response_of sender_gone e = absurd cc
response_of cancelled_turn e = absurd cc

-- Without the switch that skips permissions, a command that wants a confirmation runs if and only
-- if the client's response selects the option `allow_once`: no other response, a lost channel or a
-- cancelled turn runs it.
pub gate-Consents :
    (a : Allowlist) (command : Text) (w : Woken)
    → needs_confirm (check a command) ≡ true
    → (gate false a command w ≡ runs) ↔ ((v : Value) × (w ≡ response v) × Consents v)
unfolding gate gate_for outcome_of
gate-Consents a command w wanted = rw wanted (to, from)
  where
    to : gate_for (outcome_of w) ≡ runs → (v : Value) × (w ≡ response v) × Consents v
    to e = let (v, same, read) = response_of w e in (v, same, read_response-Consents v read)

    from : ((v : Value) × (w ≡ response v) × Consents v) → gate_for (outcome_of w) ≡ runs
    from (v, same, c) =
        ap (λ x. gate_for (outcome_of x)) same ∙ ap gate_for (Consents-read_response v c)

-- The questions.
get-send_null :
    (j : ℕ) (p : Map Text ℕ) (sent : Map ℕ Value)
    → get j sent ≡ some null
    → get j (send_null p sent) ≡ some null
unfolding send_null
get-send_null j [] sent e = e
get-send_null j ((k, tx) ∷ p) sent e =
    get-send_null j p (insert tx null sent)
      (ground (arith, get-insert tx j null sent, ==_iff tx j, e))

send_null-all :
    (id : Text) (tx : ℕ) (p : Map Text ℕ) (sent : Map ℕ Value)
    → get id p ≡ some tx
    → get tx (send_null p sent) ≡ some null
unfolding send_null get
send_null-all id tx [] sent e = absurd cc
send_null-all id tx ((k, t) ∷ p) sent e = elim (Bool-cases (k == id)) [
  | inl same ↦ get-send_null tx p (insert t null sent) (
      subst (λ u. get u (insert t null sent) ≡ some null) (some_same (rw (same, get) at e))
        (get-insert t t null sent ∙ (rw (==_refl t))))
  | inr other ↦ send_null-all id tx p (insert t null sent) (rw (other, get) at e)
]

resolve-pending :
    (id : Text) (tx : ℕ) (result : Option Value) (r : PermRegistry)
    → get id r.pending ≡ some tx
    → resolve (string id) result r ≡ (
      true,
      record r { pending = remove id r.pending; sent = insert tx (unwrap_or_null result) r.sent },
    )
unfolding resolve resolve_text deliver as_str
resolve-pending id tx result r e = rw e

resolve-absent :
    (id : Text) (result : Option Value) (r : PermRegistry)
    → get id r.pending ≡ none
    → resolve (string id) result r ≡ (false, r)
unfolding resolve resolve_text deliver as_str
resolve-absent id result r e = rw e

-- The client's answer to a question that waits is sent on its channel, a missing result as null; no
-- other channel gets anything and no other question is touched; and a second
-- answer to the same question is not taken.
pub resolve_once :
    (id : Text) (tx : ℕ) (result again : Option Value) (r : PermRegistry)
    → get id r.pending ≡ some tx
    → (let (taken, s) = resolve (string id) result r in
        (taken ≡ true)
        × (get tx s.sent ≡ some (unwrap_or_null result))
        × ((j : ℕ) → (tx == j) ≡ false → get j s.sent ≡ get j r.sent)
        × ((other : Text) → (id == other) ≡ false → get other s.pending ≡ get other r.pending)
        × (resolve (string id) again s ≡ (false, s)))
resolve_once id tx result again r e = subst IsAnswered (sym (resolve-pending id tx result r e)) (
  refl,
  get-insert tx tx _ r.sent ∙ (rw (==_refl tx)),
  (λ j other. get-insert tx j _ r.sent ∙ (rw other)),
  (λ j other. get-remove id j r.pending ∙ (rw other)),
  resolve-absent id again _ (get-remove id id r.pending ∙ (rw (==_refl id))),
)
  where
    IsAnswered : Bool × PermRegistry → Type 0
    IsAnswered (taken, s) =
        (taken ≡ true)
        × (get tx s.sent ≡ some (unwrap_or_null result))
        × ((j : ℕ) → (tx == j) ≡ false → get j s.sent ≡ get j r.sent)
        × ((other : Text) → (id == other) ≡ false → get other s.pending ≡ get other r.pending)
        × (resolve (string id) again s ≡ (false, s))

-- When the input ends, every question that waits is answered with null, and so its command is not
-- run.
pub cancel_all-rejects :
    (id : Text) (tx : ℕ) (r : PermRegistry)
    → get id r.pending ≡ some tx
    → (get tx (cancel_all r).sent ≡ some null)
      × (get id (cancel_all r).pending ≡ none)
      × (gate_for (outcome_of (response null)) ≡ refuses)
unfolding cancel_all get gate_for outcome_of
cancel_all-rejects id tx r e = (send_null-all id tx r.pending r.sent e, refl, refl)
