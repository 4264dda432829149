-- ===== src/Session/Stable.antt =====
-- A history that is already in order is sent as it is.
use arcc.Base.{
  ℕ, zero, suc, ◌+◌, ◌≤◌, ◌<◌, ◌≡◌, ◌≢◌, refl, sym, ap, ◌∙◌, inl, inr, true, false, not, ◌||◌, List,
  [], ◌∷◌, ◌++◌, append_assoc, append-nil, Option, none, some, arith, ltb, ◌==◌, list_Eq, ==_iff,
  ==_refl, List-cases, length, length-append, length-drop, any, take, drop, take-append-drop, All,
}
use arcc.Base.Text.{Text}
use arcc.Base.Maps.{Map, get, insert, remove}
use arcc.Model.Types.{ChatMessage, assistant_role, tool_role}
use arcc.Session.Sanitize.{
  tool_ids, collect, scan, emit, sanitize_from, sanitize_tool_call_sequence,
}
use arcc.Session.ToolOrder.{Ordered, roles_differ}

-- No id twice.
abbrev pub AllDistinct : List Text → Type 0
AllDistinct [] = Unit
AllDistinct (id ∷ ids) = All (λ j. id ≢ j) ids × AllDistinct ids

-- The messages that answer the ids, each under its id.
abbrev answered : List Text → List ChatMessage → Map Text ChatMessage
answered [] ms = []
answered (id ∷ ids) [] = []
answered (id ∷ ids) (m ∷ ms) = (id, m) ∷ answered ids ms

abbrev Fresh : List Text → Map Text ChatMessage → Type 0
Fresh ids results = All (λ id. All (λ r. r.0 ≢ id) results) ids

insert_fresh :
    (id : Text) (m : ChatMessage) (results : Map Text ChatMessage)
    → All (λ r. r.0 ≢ id) results
    → insert id m results ≡ results ++ (id, m) ∷ []
unfolding insert
insert_fresh id m [] f = refl
insert_fresh id m ((j, w) ∷ results) f = ground (arith, ==_iff j id, insert_fresh id m results f.1)

remove_fresh :
    (id : Text) (results : Map Text ChatMessage)
    → All (λ r. r.0 ≢ id) results
    → remove id results ≡ results
unfolding remove
remove_fresh id [] f = refl
remove_fresh id ((j, w) ∷ results) f = ground (arith, ==_iff j id, remove_fresh id results f.1)

fresh-append :
    (id j : Text) (m : ChatMessage) (results : Map Text ChatMessage)
    → id ≢ j
    → All (λ r. r.0 ≢ j) results
    → All (λ (r : Text × ChatMessage). r.0 ≢ j) (results ++ (id, m) ∷ [])
fresh-append id j m [] h f = (h, tt)
fresh-append id j m (r ∷ results) h f = (f.0, fresh-append id j m results h f.1)

Fresh-append :
    (id : Text) (ids : List Text) (m : ChatMessage) (results : Map Text ChatMessage)
    → All (λ j. id ≢ j) ids
    → Fresh ids results
    → Fresh ids (results ++ (id, m) ∷ [])
Fresh-append id [] m results h f = tt
Fresh-append id (j ∷ ids) m results h f =
    (fresh-append id j m results h.0 f.0, Fresh-append id ids m results h.1 f.1)

answered-fresh :
    (id : Text) (ids : List Text) (ms : List ChatMessage)
    → All (λ j. id ≢ j) ids
    → All (λ (r : Text × ChatMessage). r.0 ≢ id) (answered ids ms)
answered-fresh id [] ms h = tt
answered-fresh id (j ∷ ids) [] h = tt
answered-fresh id (j ∷ ids) (m ∷ ms) h = (λ e. h.0 (sym e), answered-fresh id ids ms h.1)

Fresh-nil : (ids : List Text) → Fresh ids []
Fresh-nil [] = tt
Fresh-nil (id ∷ ids) = (tt, Fresh-nil ids)

collect_expected :
    (ids : List Text) (id : Text) (m : ChatMessage) (results : Map Text ChatMessage)
    (o : Option Text)
    → o ≡ some id
    → any (λ expected. expected == id) ids ≡ true
    → All (λ r. r.0 ≢ id) results
    → collect ids m results o ≡ results ++ (id, m) ∷ []
unfolding collect
collect_expected ids id m results none e k f = cc
collect_expected ids id m results (some j) e k f = ground (arith, insert_fresh id m results f)

goes_on :
    (a b : ℕ) (m : ChatMessage)
    → a < b
    → m.role ≡ tool_role
    → (not (ltb a b) || m.role == assistant_role) ≡ false
goes_on a b m h e = ground (arith, ==_iff m.role assistant_role, roles_differ)

-- The scan over messages that are in order collects exactly the answers.
scan_in_order :
    (ids pending : List Text) (results : Map Text ChatMessage) (ms : List ChatMessage)
    → length results + length pending ≡ length ids
    → All (λ id. any (λ expected. expected == id) ids ≡ true) pending
    → Fresh pending results
    → AllDistinct pending
    → Ordered pending ms
    → scan ids results [] ms ≡ record {
      results = results ++ answered pending ms;
      deferred = [];
      rest = drop (length pending) ms;
    }
unfolding scan
scan_in_order ids [] results [] n k f d o = ground (arith, append-nil results)
scan_in_order ids [] results (m ∷ ms) n k f d o = ground (arith, append-nil results)
scan_in_order ids (id ∷ pending) results [] n k f d o = elim o [ ]
scan_in_order ids (id ∷ pending) results (m ∷ ms) n k f d (is_tool, answers, o) =
    let next = results ++ (id, m) ∷ [] in
    rw (goes_on (length results) (length ids) m (omega arith) is_tool) (
      rw ((==_iff m.role tool_role).1 is_tool) (
        rw (collect_expected ids id m results m.tool_call_id answers k.0 f.0) (
          scan_in_order ids pending next ms (omega (arith, length-append results ((id, m) ∷ [])))
            k.1 (Fresh-append id pending m results d.0 f.1) d.1 o
          ∙ ap (λ r. record { results = r; deferred = []; rest = drop (length pending) ms })
              (append_assoc results ((id, m) ∷ []) (answered pending ms)))))

get_head :
    (id : Text) (m : ChatMessage) (results : Map Text ChatMessage)
    → get id ((id, m) ∷ results) ≡ some m
unfolding get
get_head id m results = rw (==_refl id)

remove_head :
    (id : Text) (m : ChatMessage) (results : Map Text ChatMessage)
    → All (λ r. r.0 ≢ id) results
    → remove id ((id, m) ∷ results) ≡ results
unfolding remove
remove_head id m results f = rw (==_refl id) (remove_fresh id results f)

emit-answered :
    (ids : List Text) (ms : List ChatMessage)
    → AllDistinct ids
    → Ordered ids ms
    → emit (answered ids ms) ids ≡ take (length ids) ms
unfolding emit
emit-answered [] ms d o = refl
emit-answered (id ∷ ids) [] d o = elim o [ ]
emit-answered (id ∷ ids) (m ∷ ms) d o =
    rw (get_head id m (answered ids ms), emit)
      (rw (remove_head id m (answered ids ms) (answered-fresh id ids ms d.0))
        (ap (λ r. m ∷ r) (emit-answered ids ms d.1 o.2)))

Ordered-drop :
    (ids : List Text) (ms : List ChatMessage) → Ordered ids ms → Ordered [] (drop (length ids) ms)
Ordered-drop [] ms o = o
Ordered-drop (id ∷ ids) [] o = elim o [ ]
Ordered-drop (id ∷ ids) (m ∷ ms) o = Ordered-drop ids ms o.2

any_mid :
    (before : List Text) (id : Text) (ids : List Text)
    → any (λ expected. expected == id) (before ++ id ∷ ids) ≡ true
any_mid [] id ids = rw (==_refl id)
any_mid (j ∷ before) id ids = ground (arith, any_mid before id ids)

any_within :
    (before ids all : List Text)
    → all ≡ before ++ ids
    → All (λ id. any (λ expected. expected == id) all ≡ true) ids
any_within before [] all e = tt
any_within before (id ∷ ids) all e = (
  rw e (any_mid before id ids),
  any_within (before ++ id ∷ []) ids all (e ∙ sym (append_assoc before (id ∷ []) ids)),
)

All-drop {ℓ κ} : {A : Type ℓ} (P : A → Type κ) (n : ℕ) (xs : List A) → All P xs → All P (drop n xs)
All-drop P zero xs a = a
All-drop P (suc n) [] a = tt
All-drop P (suc n) (x ∷ xs) a = All-drop P n xs a.1

sanitize_from-stable :
    (fuel : ℕ) (msgs : List ChatMessage)
    → length msgs ≤ fuel
    → Ordered [] msgs
    → All (λ m. AllDistinct (tool_ids m)) msgs
    → sanitize_from fuel msgs ≡ msgs
unfolding sanitize_from
sanitize_from-stable zero [] h o d = refl
sanitize_from-stable zero (m ∷ ms) h o d = absurd (omega arith)
sanitize_from-stable (suc fuel) [] h o d = refl
sanitize_from-stable (suc fuel) (m ∷ ms) h o d = elim (List-cases (tool_ids m)) [
  | inl e ↦
      rw (e, sanitize_from)
        (ground (
          arith,
          ==_iff m.role tool_role,
          sanitize_from-stable fuel ms (omega arith) (rw e at o.1) d.1,
        ))
  | inr (id, ids, e) ↦
      let ordered : Ordered (id ∷ ids) ms = rw e at o.1 in
      let distinct : AllDistinct (id ∷ ids) = rw e at d.0 in
      let n = length (id ∷ ids) in
      let found =
        scan_in_order (id ∷ ids) (id ∷ ids) [] ms (omega arith)
          (any_within [] (id ∷ ids) (id ∷ ids) refl) (Fresh-nil (id ∷ ids)) distinct ordered in
      let later : sanitize_from fuel (drop n ms) ≡ drop n ms =
        sanitize_from-stable fuel (drop n ms) (omega (arith, length-drop n ms))
          (Ordered-drop (id ∷ ids) ms ordered)
          (All-drop (λ m. AllDistinct (tool_ids m)) n ms d.1) in
      rw (e, sanitize_from)
        (ap (λ r. m ∷ r)
          (rw found
            (rw (emit-answered (id ∷ ids) ms distinct ordered, later) (take-append-drop n ms))))
]

-- A history that is in order already, with no id twice in one message, is left as it is.
pub sanitize-stable :
    (msgs : List ChatMessage)
    → Ordered [] msgs
    → All (λ m. AllDistinct (tool_ids m)) msgs
    → sanitize_tool_call_sequence msgs ≡ msgs
unfolding sanitize_tool_call_sequence
sanitize-stable msgs = sanitize_from-stable (length msgs) msgs (omega arith)
