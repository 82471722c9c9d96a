-- ===== src/Agent/Retry.antt =====
-- internal/agent/response.go, `retrying`: a model call that fails is tried again. What the attempts
-- give is a function of their number; a time is a number of milliseconds.
use eika.Common.{
  ℕ, zero, suc, ◌+◌, ◌*◌, ◌≤◌, ◌<◌, min, Bool, true, false, ◌||◌, not, List, [], ◌∷◌, length, ltb,
  if◌then◌else◌, Result, ok, err, All, arith, ◌≡◌, refl, sym, subst,
}
use eika.Agent.Stream.{Response}

abbrev pub default_max_retries : ℕ
default_max_retries = 3

abbrev pub default_retry_backoff : ℕ
default_retry_backoff = 500

abbrev pub max_retry_backoff : ℕ
max_retry_backoff = 30000

-- What `provider.Retryable`, `ContextOverflow` and `RetryAfter` say of a failure, and whether the run
-- is cancelled while the failure is waited out.
pub record Failure : Type 0 where
  pub retryable : Bool
  pub overflow : Bool
  pub retry_after : ℕ
  pub cancelled_waiting : Bool

pub data Attempt : Type 0 where
  succeeded : Response → Attempt
  cancelled : Attempt
  failed : Failure → Attempt

pub data CallError : Type 0 where
  call_cancelled : CallError
  call_failed : Failure → CallError

abbrev pub wait_for : ℕ → ℕ → ℕ
wait_for backoff after =
    let wait = min backoff max_retry_backoff in
    if ltb wait after then min after max_retry_backoff else wait

abbrev pub gives_up : Failure → Bool
gives_up f = not f.retryable || f.overflow

-- The loop from the attempt `n` on, with `left` retries left: its result, and how long it waited.
unfoldable pub retrying : (ℕ → Attempt) → ℕ → ℕ → ℕ → Result CallError Response × List ℕ
retrying attempt zero n backoff = elim (attempt n) [
  | succeeded r ↦ (ok r, [])
  | cancelled ↦ (err call_cancelled, [])
  | failed f ↦ (err (call_failed f), [])
]
retrying attempt (suc left) n backoff =
    let rest = retrying attempt left (suc n) (backoff * 2) in
    elim (attempt n) [
      | succeeded r ↦ (ok r, [])
      | cancelled ↦ (err call_cancelled, [])
      | failed f ↦
          if gives_up f
          then (err (call_failed f), [])
          else if f.cancelled_waiting
          then (err call_cancelled, wait_for backoff f.retry_after ∷ [])
          else (rest.0, wait_for backoff f.retry_after ∷ rest.1)
    ]

-- An attempt that is tried again.
abbrev pub IsRetried : Attempt → Type 0
IsRetried (succeeded r) = ⊥
IsRetried cancelled = ⊥
IsRetried (failed f) = (f.retryable ≡ true) × (f.overflow ≡ false)

-- What the loop does with at most `left` retries from the attempt `n` on.
pub record IsRetrying (attempt : ℕ → Attempt) (left n : ℕ)
    (out : Result CallError Response × List ℕ) : Type 0 where
  pub bounded : length out.1 ≤ left
  pub waits : All (λ w. w ≤ max_retry_backoff) out.1
  pub retried : (k : ℕ) → k < length out.1 → IsRetried (attempt (n + k))
  pub success : (r : Response) → out.0 ≡ ok r → attempt (n + length out.1) ≡ succeeded r

wait_for-le : (backoff after : ℕ) → wait_for backoff after ≤ max_retry_backoff
wait_for-le backoff after = ground arith

-- The loop ends at the attempt `n`.
ends_here :
    (attempt : ℕ → Attempt) (left n : ℕ) (x : Result CallError Response)
    → ((r : Response) → x ≡ ok r → attempt n ≡ succeeded r)
    → IsRetrying attempt left n (x, [])
ends_here attempt left n x h = record {
  bounded = omega arith;
  waits = tt;
  retried = λ k l. ground arith;
  success = λ r e. subst (λ k. attempt k ≡ succeeded r) {x = n} (omega arith) (h r e);
}

-- The loop waits once, and is cancelled meanwhile or goes on.
waits_once :
    (attempt : ℕ → Attempt) (left n : ℕ) (f : Failure)
    → attempt n ≡ failed f
    → IsRetried (failed f)
    → (w : ℕ) → w ≤ max_retry_backoff
    → IsRetrying attempt (suc left) n (err call_cancelled, w ∷ [])
waits_once attempt left n f e h w l = record {
  bounded = omega arith;
  waits = (l, tt);
  retried = λ k m.
      subst (λ i. IsRetried (attempt i)) {x = n} (omega (arith, m)) (subst IsRetried (sym e) h);
  success = λ r x. cc x;
}

retries :
    (attempt : ℕ → Attempt) (left n : ℕ) (f : Failure) (out : Result CallError Response × List ℕ)
    → attempt n ≡ failed f
    → IsRetried (failed f)
    → (w : ℕ) → w ≤ max_retry_backoff
    → IsRetrying attempt left (suc n) out
    → IsRetrying attempt (suc left) n (out.0, w ∷ out.1)
retries attempt left n f out e h w l k = record {
  bounded = omega (arith, k.bounded);
  waits = (l, k.waits);
  retried = λ i m. retried i m;
  success = λ r x.
      subst (λ j. attempt j ≡ succeeded r) {x = suc n + length out.1} (omega arith) (k.success r x);
}
  where
    retried : (i : ℕ) → i < suc (length out.1) → IsRetried (attempt (n + i))
    retried zero m =
        subst (λ j. IsRetried (attempt j)) {x = n} (omega arith) (subst IsRetried (sym e) h)
    retried (suc i) m =
        subst (λ j. IsRetried (attempt j)) {x = suc n + i} (omega arith) (k.retried i (omega arith))

not_given_up : (f : Failure) → gives_up f ≡ false → IsRetried (failed f)
not_given_up f h = (ground arith, ground arith)

-- A call is tried at most once more than there are retries, it never waits longer than the bound, it
-- goes on only after failures that may be retried and are no overflow, and the response that it
-- returns is the one of its last attempt.
pub retrying-IsRetrying :
    (attempt : ℕ → Attempt) (left n backoff : ℕ)
    → IsRetrying attempt left n (retrying attempt left n backoff)
unfolding retrying
retrying-IsRetrying attempt zero n backoff = step (attempt n) refl
  where
    step :
        (x : Attempt)
        → attempt n ≡ x
        → IsRetrying attempt 0 n (elim x as (λ _. Result CallError Response × List ℕ) [
          | succeeded r ↦ (ok r, [])
          | cancelled ↦ (err call_cancelled, [])
          | failed f ↦ (err (call_failed f), [])
        ])
    step (succeeded r) e = ends_here attempt 0 n (ok r) (λ q h. cc (e, h))
    step cancelled e = ends_here attempt 0 n (err call_cancelled) (λ q h. cc h)
    step (failed f) e = ends_here attempt 0 n (err (call_failed f)) (λ q h. cc h)
retrying-IsRetrying attempt (suc left) n backoff =
    step (attempt n) refl (retrying-IsRetrying attempt left (suc n) (backoff * 2))
  where
    rest : Result CallError Response × List ℕ
    rest = retrying attempt left (suc n) (backoff * 2)

    fails :
        (f : Failure) (a b : Bool)
        → gives_up f ≡ a
        → attempt n ≡ failed f
        → IsRetrying attempt left (suc n) rest
        → IsRetrying attempt (suc left) n (
            if a
            then (err (call_failed f), [])
            else if b
            then (err call_cancelled, wait_for backoff f.retry_after ∷ [])
            else (rest.0, wait_for backoff f.retry_after ∷ rest.1))
    fails f true b g e k = ends_here attempt (suc left) n (err (call_failed f)) (λ q h. cc h)
    fails f false true g e k =
        waits_once attempt left n f e (not_given_up f g) (wait_for backoff f.retry_after)
          (wait_for-le backoff f.retry_after)
    fails f false false g e k =
        retries attempt left n f rest e (not_given_up f g) (wait_for backoff f.retry_after)
          (wait_for-le backoff f.retry_after) k

    step :
        (x : Attempt)
        → attempt n ≡ x
        → IsRetrying attempt left (suc n) rest
        → IsRetrying attempt (suc left) n (elim x as (λ _. Result CallError Response × List ℕ) [
          | succeeded r ↦ (ok r, [])
          | cancelled ↦ (err call_cancelled, [])
          | failed f ↦
              if gives_up f
              then (err (call_failed f), [])
              else if f.cancelled_waiting
              then (err call_cancelled, wait_for backoff f.retry_after ∷ [])
              else (rest.0, wait_for backoff f.retry_after ∷ rest.1)
        ])
    step (succeeded r) e k = ends_here attempt (suc left) n (ok r) (λ q h. cc (e, h))
    step cancelled e k = ends_here attempt (suc left) n (err call_cancelled) (λ q h. cc h)
    step (failed f) e k = fails f (gives_up f) f.cancelled_waiting refl e k
