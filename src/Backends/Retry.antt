-- ===== src/Backends/Retry.antt =====
-- `resilientExecutor` of backends/sql/resilience.ts, without its timer: a call that exceeds the timeout
-- is a call that throws. An operation changes a state `S`, and throws an `E`. The times are whole
-- milliseconds and the factor a whole number.
pub mod Attempts
use Prim.Native.Char.{code}
use object_repository.Base.{
  ℕ, zero, suc, ◌+◌, ◌-◌, ◌*◌, ◌^◌, min, String, Bool, true, false, not, ◌&&◌, ◌||◌, Option, none,
  some, List, [], ◌∷◌, Result, ok, err, leb, ltb, eqb, if◌then◌else◌,
}

-- `ResilienceOptions`
pub record Options (E : Type 0) : Type 0 where
  pub retries : ℕ
  pub backoff_ms : ℕ
  pub backoff_factor : ℕ
  pub max_backoff_ms : ℕ
  pub is_retryable : E → Bool

-- What a call with retries did: the state, the waits before the retries in order, and the outcome.
pub record Run (S E A : Type 0) : Type 0 where
  pub state : S
  pub waits : List ℕ
  pub outcome : Result E A

abbrev pub after_wait : {S E A : Type 0} → ℕ → Run S E A → Run S E A
after_wait delay r = record r { waits = delay ∷ r.waits }

module _ {E : Type 0} (options : Options E) where
  -- the wait before the retry after the `n`-th failure, counted from 0
  abbrev pub delay_after : ℕ → ℕ
  delay_after n = min (options.backoff_ms * options.backoff_factor ^ n) options.max_backoff_ms

  module _ {S A : Type 0} (operation : S → S × Result E A) where
    -- What follows an attempt: `more` goes on if the attempts are not used up.
    abbrev pub settle : Option (S → Run S E A) → ℕ → S × Result E A → Run S E A
    settle more failures (s, ok a) = record { state = s; waits = []; outcome = ok a }
    settle none failures (s, err e) = record { state = s; waits = []; outcome = err e }
    settle (some more) failures (s, err e) =
        let later = more s in
        if options.is_retryable e
        then after_wait (delay_after failures) later
        else record { state = s; waits = []; outcome = err e }

    -- the loop of `withRetry` with `left` retries left, after some failures
    unfoldable pub retry_loop : ℕ → ℕ → S → Run S E A
    retry_loop zero failures s = settle none failures (operation s)
    retry_loop (suc left) failures s =
        settle (some (retry_loop left (suc failures))) failures (operation s)

    -- `withRetry`
    unfoldable pub with_retry : S → Run S E A
    unfolding retry_loop
    with_retry s = retry_loop options.retries 0 s
