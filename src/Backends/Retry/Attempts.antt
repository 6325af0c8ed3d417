-- ===== src/Backends/Retry/Attempts.antt =====
-- How often a call is tried, and what comes of it.
use mathlib.Core.Path.{subst}
use object_repository.Base.{
  ℕ, zero, suc, ◌≤◌, ◌≡◌, refl, sym, ap, true, false, none, some, List, ◌∷◌, arith, All, length,
  Result, ok, err, Bool-cases, inl, inr, ◌⊎◌,
}
use object_repository.Backends.Retry.{
  Options, Run, settle, retry_loop, with_retry, delay_after, after_wait,
}

-- Why a run ended: it succeeded, no retry helps against its error, or all retries were spent.
abbrev pub Ended : {E A : Type 0} → Options E → ℕ → List ℕ → Result E A → Type 0
Ended options left waits (ok a) = Unit
Ended options left waits (err e) = (options.is_retryable e ≡ false) ⊎ (length waits ≡ left)

-- What is known of a run with `left` retries.
abbrev pub IsSound : {S E A : Type 0} → Options E → ℕ → Run S E A → Type 0
IsSound options left r =
    (length r.waits ≤ left)
    × All (λ w. w ≤ options.max_backoff_ms) r.waits
    × Ended options left r.waits r.outcome

-- A call that throws retryable errors `n` times and then succeeds.
pub data Recovers {E S A : Type 0} (options : Options E) (operation : S → S × Result E A)
    : ℕ → S → S → A → Type 0 where
  now : (s t : S) (a : A) → operation s ≡ (t, ok a) → Recovers options operation zero s t a
  then_ :
      (n : ℕ) (s u t : S) (a : A) (e : E)
      → operation s ≡ (u, err e)
      → options.is_retryable e ≡ true
      → Recovers options operation n u t a
      → Recovers options operation (suc n) s t a

module _ {E S A : Type 0} (options : Options E) (operation : S → S × Result E A) where
  after_wait-IsSound :
      (left delay : ℕ) (r : Run S E A)
      → delay ≤ options.max_backoff_ms
      → IsSound options left r
      → IsSound options (suc left) (after_wait delay r)
  after_wait-IsSound left delay r d (short, bounded, ended) =
      (omega arith, (d, bounded), once_more r.outcome ended)
    where
      once_more :
          (x : Result E A)
          → Ended options left r.waits x
          → Ended options (suc left) (delay ∷ r.waits) x
      once_more (ok a) h = tt
      once_more (err e) (inl final) = inl final
      once_more (err e) (inr spent) = inr (omega arith)

  settle-IsSound :
      (left failures : ℕ) (more : S → Run S E A) (r : S × Result E A)
      → ((s : S) → IsSound options left (more s))
      → IsSound options (suc left) (settle options operation (some more) failures r)
  settle-IsSound left failures more (s, ok a) h = (omega arith, tt, tt)
  settle-IsSound left failures more (s, err e) h = elim (Bool-cases (options.is_retryable e)) [
    | inl again ↦
        rw again
          (after_wait-IsSound left (delay_after options failures) (more s) (omega arith) (h s))
    | inr final ↦ rw final (omega arith, tt, inl final)
  ]

  last-IsSound :
      (failures : ℕ) (r : S × Result E A)
      → IsSound options 0 (settle options operation none failures r)
  last-IsSound failures (s, ok a) = (omega arith, tt, tt)
  last-IsSound failures (s, err e) = (omega arith, tt, inr refl)

  retry_loop-IsSound :
      (left failures : ℕ) (s : S)
      → IsSound options left (retry_loop options operation left failures s)
  unfolding retry_loop
  retry_loop-IsSound zero failures s = last-IsSound failures (operation s)
  retry_loop-IsSound (suc left) failures s =
      settle-IsSound left failures (retry_loop options operation left (suc failures)) (operation s)
        (retry_loop-IsSound left (suc failures))

  -- A run that ends in a state with a value, after `n` waits.
  abbrev EndsIn : S → A → ℕ → Run S E A → Type 0
  EndsIn t a n r = (r.state ≡ t) × (r.outcome ≡ ok a) × (length r.waits ≡ n)

  settle-again :
      (n failures : ℕ) (more : S → Run S E A) (t u : S) (a : A) (e : E)
      → options.is_retryable e ≡ true
      → EndsIn t a n (more u)
      → EndsIn t a (suc n) (settle options operation (some more) failures (u, err e))
  settle-again n failures more t u a e again (state, outcome, waits) =
      rw again (state, outcome, omega arith)

  retry_loop-recovers :
      (n left failures : ℕ) (s t : S) (a : A)
      → Recovers options operation n s t a
      → n ≤ left
      → EndsIn t a n (retry_loop options operation left failures s)
  unfolding retry_loop
  retry_loop-recovers zero zero failures s t a (now _ _ _ e) k =
      subst (EndsIn t a zero) (sym (ap (settle options operation none failures) e))
        (refl, refl, refl)
  retry_loop-recovers zero (suc left) failures s t a (now _ _ _ e) k =
      let more = retry_loop options operation left (suc failures) in
      subst (EndsIn t a zero) (sym (ap (settle options operation (some more) failures) e))
        (refl, refl, refl)
  retry_loop-recovers (suc n) zero failures s t a h k =
      let impossible : ⊥ = omega arith in elim impossible [ ]
  retry_loop-recovers (suc n) (suc left) failures s t a (then_ _ _ u _ _ e failed again h) k =
      let more = retry_loop options operation left (suc failures) in
      subst (EndsIn t a (suc n)) (sym (ap (settle options operation (some more) failures) failed)) (
        settle-again n failures more t u a e again
          (retry_loop-recovers n left (suc failures) u t a h (omega arith)))

  -- Whatever the operation does, a call with retries ends: it waits at most `retries` times, never
  -- longer than the bound, and throws only an error that is not retryable, or after all retries.
  pub with_retry-IsSound :
      (s : S) → IsSound options options.retries (with_retry options operation s)
  unfolding with_retry
  with_retry-IsSound s = retry_loop-IsSound options.retries 0 s

  -- An operation that throws retryable errors no more often than there are retries, and then succeeds,
  -- succeeds with retries: with its value and its state, after one wait for each error.
  pub with_retry-recovers :
      (n : ℕ) (s t : S) (a : A)
      → Recovers options operation n s t a
      → n ≤ options.retries
      → let r = with_retry options operation s in
        (r.state ≡ t) × (r.outcome ≡ ok a) × (length r.waits ≡ n)
  unfolding with_retry
  with_retry-recovers n s t a h k = retry_loop-recovers n options.retries 0 s t a h k
