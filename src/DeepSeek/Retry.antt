-- ===== src/DeepSeek/Retry.antt =====
-- crates/arcc-core/src/model/deepseek.rs, `with_retry`: repeating a request that is refused for its
-- rate. The results of the attempts are a function of their number, and time is counted in seconds.
use arcc.Base.{
  ℕ, zero, suc, ◌+◌, ◌*◌, ◌≤◌, ◌<◌, ◌≡◌, refl, sym, ap, ◌∙◌, inl, inr, List, [], ◌∷◌, arith, ltb,
  leb, if◌then◌else◌, Bool-cases, length, min, All, subst,
}
use arcc.Model.Provider.{http, api, rate_limited, stream, serde, Result, ok, err}

pub record Retried (A : Type 0) : Type 0 where
  pub result : Result A
  pub waits : List ℕ

abbrev pub max_retries : ℕ
max_retries = 3

unfoldable pub longer : ℕ → ℕ → ℕ
longer a b = if ltb a b then b else a

abbrev waited : {A : Type 0} → ℕ → Retried A → Retried A
waited n r = record r { waits = n ∷ r.waits }

-- One round of the loop, by the attempt's result; `again` is the rest of the loop.
unfoldable pub on_result : {A : Type 0} → Result A → ℕ → ℕ → Retried A → Retried A
unfolding longer
on_result (ok a) attempt delay again = record { result = ok a; waits = [] }
on_result (err (rate_limited retry_after)) attempt delay again =
    if leb max_retries attempt
    then record { result = err (rate_limited retry_after); waits = [] }
    else waited (longer retry_after delay) again
on_result (err (http e)) attempt delay again = record { result = err (http e); waits = [] }
on_result (err (api code message)) attempt delay again = record {
  result = err (api code message);
  waits = [];
}
on_result (err (stream e)) attempt delay again = record { result = err (stream e); waits = [] }
on_result (err (serde e)) attempt delay again = record { result = err (serde e); waits = [] }

-- The loop, with one unit of fuel for each attempt that is left.
unfoldable pub retry_from : {A : Type 0} → (ℕ → Result A) → ℕ → ℕ → ℕ → Retried A
unfolding on_result
retry_from f zero attempt delay = record { result = f attempt; waits = [] }
retry_from f (suc fuel) attempt delay =
    on_result (f attempt) attempt delay (retry_from f fuel (attempt + 1) (min (delay * 2) 30))

unfoldable pub with_retry : {A : Type 0} → (ℕ → Result A) → Retried A
unfolding retry_from
with_retry f = retry_from f (suc max_retries) 0 1

-- A result that is a refusal for the rate.
abbrev pub IsLimited : {A : Type 0} → Result A → Type 0
IsLimited (err (rate_limited secs)) = Unit
IsLimited (ok a) = ⊥
IsLimited (err (http e)) = ⊥
IsLimited (err (api code message)) = ⊥
IsLimited (err (stream e)) = ⊥
IsLimited (err (serde e)) = ⊥

-- A run of the loop from an attempt on: its result is that of its last attempt, all attempts before
-- were refused for their rate, each wait is at least a second, and a refusal for the
-- rate is returned by the fourth attempt only.
pub record IsRun {A : Type 0} (f : ℕ → Result A) (attempt : ℕ) (r : Retried A) : Type 0 where
  pub last : r.result ≡ f (attempt + length r.waits)
  pub few : attempt + length r.waits ≤ max_retries
  pub refused : (k : ℕ) → k < length r.waits → IsLimited (f (attempt + k))
  pub spent : IsLimited r.result → attempt + length r.waits ≡ max_retries
  pub patient : All (λ w. 1 ≤ w) r.waits

-- A run of one attempt.
one_attempt :
    {A : Type 0} (f : ℕ → Result A) (x : Result A) (attempt : ℕ)
    → f attempt ≡ x
    → attempt ≤ max_retries
    → (IsLimited x → attempt ≡ max_retries)
    → IsRun f attempt (record { result = x; waits = [] })
one_attempt f x attempt e small limited = record {
  last = sym e ∙ ap f (omega arith);
  few = omega arith;
  refused = λ k h. absurd (omega arith);
  spent = λ l. let same = limited l in omega arith;
  patient = tt;
}

-- A refused attempt in front of a run.
more_attempts :
    {A : Type 0} (f : ℕ → Result A) (attempt wait : ℕ) (again : Retried A)
    → IsLimited (f attempt)
    → 1 ≤ wait
    → IsRun f (attempt + 1) again
    → IsRun f attempt (waited wait again)
more_attempts f attempt wait again limited w run = record {
  last = run.last ∙ ap f (omega arith);
  few = let n = run.few in omega arith;
  refused = λ k h. shifted k h;
  spent = λ l. let same = run.spent l in omega arith;
  patient = (w, run.patient);
}
  where
    shifted : (k : ℕ) → k < suc (length again.waits) → IsLimited (f (attempt + k))
    shifted zero h = subst (λ n. IsLimited (f n)) (omega arith) limited
    shifted (suc k) h = subst (λ n. IsLimited (f n)) (omega arith) (run.refused k (omega arith))

longer-le : (a b : ℕ) → 1 ≤ b → 1 ≤ longer a b
unfolding longer
longer-le a b h = ground arith

on_result-IsRun :
    {A : Type 0} (f : ℕ → Result A) (x : Result A) (attempt delay : ℕ) (again : Retried A)
    → f attempt ≡ x
    → attempt ≤ max_retries
    → 1 ≤ delay
    → (attempt < max_retries → IsRun f (attempt + 1) again)
    → IsRun f attempt (on_result x attempt delay again)
unfolding on_result
on_result-IsRun f (ok a) attempt delay again e small d rest =
    one_attempt f _ attempt e small (λ l. absurd l)
on_result-IsRun f (err (rate_limited secs)) attempt delay again e small d rest =
    elim (Bool-cases (leb max_retries attempt)) [
      | inl enough ↦ rw enough (one_attempt f _ attempt e small (λ l. ground arith))
      | inr more ↦ rw more (
          more_attempts f attempt (longer secs delay) again (rw e tt) (longer-le secs delay d)
            (rest (ground arith)))
    ]
on_result-IsRun f (err (http x)) attempt delay again e small d rest =
    one_attempt f _ attempt e small (λ l. absurd l)
on_result-IsRun f (err (api code message)) attempt delay again e small d rest =
    one_attempt f _ attempt e small (λ l. absurd l)
on_result-IsRun f (err (stream x)) attempt delay again e small d rest =
    one_attempt f _ attempt e small (λ l. absurd l)
on_result-IsRun f (err (serde x)) attempt delay again e small d rest =
    one_attempt f _ attempt e small (λ l. absurd l)

retry_from-IsRun :
    {A : Type 0} (f : ℕ → Result A) (fuel attempt delay : ℕ)
    → attempt + fuel ≡ suc max_retries
    → attempt ≤ max_retries
    → 1 ≤ delay
    → IsRun f attempt (retry_from f fuel attempt delay)
unfolding retry_from
retry_from-IsRun f zero attempt delay e small d = absurd (omega arith)
retry_from-IsRun f (suc fuel) attempt delay e small d =
    on_result-IsRun f (f attempt) attempt delay _ refl small d (λ more.
      retry_from-IsRun f fuel (attempt + 1) (min (delay * 2) 30) (omega arith) (omega arith)
        (ground arith))

-- The loop of `with_retry` ends after at most four attempts. It returns the result of its last
-- attempt, every attempt before that one was refused for its rate, it waits at least a second
-- before each further attempt, and it returns a refusal for the rate only from the fourth.
pub with_retry-IsRun : {A : Type 0} (f : ℕ → Result A) → IsRun f 0 (with_retry f)
unfolding with_retry
with_retry-IsRun f = retry_from-IsRun f (suc max_retries) 0 1 refl (omega arith) (omega arith)
