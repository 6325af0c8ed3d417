-- ===== src/Transport/Command/Guards.antt =====
-- What the guards of a command ensure.
use mathlib.Core.Path.{subst}
use object_repository.Base.{
  String, ◌≡◌, refl, ◌∙◌, ap, false, Option, none, some, List, [], ◌∷◌, ◌++◌, Result, ok, err, ◌⊎◌,
  inl, inr,
}
use object_repository.Json.{Value}
use object_repository.Transport.Command.{
  Identity, Context, Thrown, command_error, Middleware, Command, run_guards, after_guard, augmented,
  denial, validate, run_command, require_role, has_role, guarded, handled, invalid, printed,
  role_denial, role_error, answered,
}

-- Evidence that a thrown value is a `CommandError`.
pub data IsCommandError : Thrown → Type 0 where
  is_command_error : (code message : String) → IsCommandError (command_error code message)

denial-IsCommandError : (e : Thrown) → IsCommandError (denial e)
denial-IsCommandError (command_error code message) = is_command_error code message
denial-IsCommandError (Thrown.validation_error message) = is_command_error "FORBIDDEN" message
denial-IsCommandError (Thrown.other message text) = is_command_error "FORBIDDEN" message

err-injective :
    {S A : Type 0}
    → (s t : S) (d e : Thrown) → Path (S × Result Thrown A) (s, err d) (t, err e)
    → d ≡ e
err-injective s t d e h = cc

module _ {N S : Type 0} where
  after_guard-IsCommandError :
      (next : Context N → S → S × Result Thrown (Context N)) (ctx : Context N)
      (r : S × Result Thrown (Option (Context N))) (t : S) (e : Thrown)
      → ((c : Context N) (u : S) → next c u ≡ (t, err e) → IsCommandError e)
      → after_guard next ctx r ≡ (t, err e)
      → IsCommandError e
  after_guard-IsCommandError next ctx (u, err d) t e later h =
      subst IsCommandError (thrown d e u t h) (denial-IsCommandError d)
    where
      thrown :
          (d e : Thrown) (u t : S)
          → Path (S × Result Thrown (Context N)) (u, err (denial d)) (t, err e)
          → denial d ≡ e
      thrown d e u t h = cc
  after_guard-IsCommandError next ctx (u, ok answer) t e later h = later (augmented ctx answer) u h

  run_guards-IsCommandError :
      (guards : List (Middleware N S)) (input : Value N) (ctx : Context N) (s t : S) (e : Thrown)
      → run_guards guards input ctx s ≡ (t, err e)
      → IsCommandError e
  unfolding run_guards
  run_guards-IsCommandError [] input ctx s t e h = cc
  run_guards-IsCommandError (guard ∷ guards) input ctx s t e h =
      after_guard-IsCommandError (run_guards guards input) ctx (guard input ctx s) t e
        (λ c u. run_guards-IsCommandError guards input c u t e) h

  after_guard-next :
      (first then_ : Context N → S → S × Result Thrown (Context N)) (ctx : Context N)
      (r : S × Result Thrown (Option (Context N))) (t : S) (next : Context N)
      (x : S × Result Thrown (Context N))
      → ((c : Context N) (u : S) → first c u ≡ (t, ok next) → then_ c u ≡ x)
      → after_guard first ctx r ≡ (t, ok next)
      → after_guard then_ ctx r ≡ x
  after_guard-next first then_ ctx (u, err d) t next x later h = cc
  after_guard-next first then_ ctx (u, ok answer) t next x later h =
      later (augmented ctx answer) u h

  -- A chain whose first part passes goes on with the context and the state that it leaves.
  run_guards-append :
      (before after : List (Middleware N S)) (input : Value N) (ctx next : Context N) (s t : S)
      → run_guards before input ctx s ≡ (t, ok next)
      → run_guards (before ++ after) input ctx s ≡ run_guards after input next t
  unfolding run_guards
  run_guards-append [] after input ctx next s t h = passed ctx next s t h
    where
      passed :
          (ctx next : Context N) (s t : S)
          → Path (S × Result Thrown (Context N)) (s, ok ctx) (t, ok next)
          → run_guards after input ctx s ≡ run_guards after input next t
      passed ctx next s t h = cc
  run_guards-append (guard ∷ before) after input ctx next s t h =
      after_guard-next (run_guards before input) (run_guards (before ++ after) input) ctx
        (guard input ctx s) t next (run_guards after input next t)
        (λ c u. run_guards-append before after input c next u t) h

  run_command-after :
      (command : Command N S) (input : Value N) (ctx : Context N) (s t : S) (checked : Value N)
      → validate command input s ≡ (t, ok checked)
      → run_command command input ctx s
        ≡ handled command checked (run_guards command.guards checked ctx t)
  unfolding run_command
  run_command-after command input ctx s t checked v = ap (guarded command ctx) v

  run_guards-refused :
      (guard : Middleware N S) (guards : List (Middleware N S)) (input : Value N) (ctx : Context N)
      (s : S) (e : Thrown)
      → IsCommandError e
      → guard input ctx s ≡ (s, err e)
      → run_guards (guard ∷ guards) input ctx s ≡ (s, err e)
  unfolding run_guards
  run_guards-refused guard guards input ctx s e (is_command_error code message) h =
      ap (after_guard (run_guards guards input) ctx) h

  require_role-refuses :
      (roles : List String) (input : Value N) (ctx : Context N) (s : S)
      → has_role roles ctx.identity ≡ false
      → (e : Thrown) × (require_role roles input ctx s ≡ (s, err e)) × IsCommandError e
  unfolding require_role
  require_role-refuses roles input ctx s h = by_identity ctx.identity h
    where
      by_identity :
          (who : Option Identity)
          → has_role roles who ≡ false
          → (e : Thrown) × (Path
              (S × Result Thrown (Option (Context N)))
              (answered s (role_denial roles who))
              (s, err e))
            × IsCommandError e
      by_identity none h = (_, refl, is_command_error _ _)
      by_identity (some who) h = (role_error roles, rw h refl, is_command_error _ _)

  -- A command whose guards include `requireRole(...roles)`, after guards that pass, is denied with a
  -- `CommandError` when the context that they leave has no identity with one of the roles. Its handler
  -- does not run: the state is the one that the guards before left.
  pub require_role_denies :
      (command : Command N S) (roles : List String) (before after : List (Middleware N S))
      (input : Value N) (checked : Value N) (ctx seen : Context N) (s t u : S)
      → command.guards ≡ before ++ require_role roles ∷ after
      → validate command input s ≡ (t, ok checked)
      → run_guards before checked ctx t ≡ (u, ok seen)
      → has_role roles seen.identity ≡ false
      → (e : Thrown) × (run_command command input ctx s ≡ (u, err e)) × IsCommandError e
  require_role_denies command roles before after input checked ctx seen s t u g v p r =
      let (e, refused, typed) = require_role-refuses roles checked seen u r in
      (
        e,
        run_command-after command input ctx s t checked v
            ∙ ap (handled command checked) (
                ap (λ gs. run_guards gs checked ctx t) g
                ∙ (run_guards-append before (require_role roles ∷ after) checked ctx seen t u p
                    ∙ run_guards-refused (require_role roles) after checked seen u e typed
                        refused)),
        typed,
      )

module _ {S : Type 0} where
  -- A result that stops a command: it throws a `CommandError`.
  abbrev pub IsStopped : {A : Type 0} → S × Result Thrown A → Type 0
  IsStopped {A} r =
      (t : S) × (e : Thrown) × Path (S × Result Thrown A) r (t, err e) × IsCommandError e

module _ {N S : Type 0} where
  -- What a schema makes of an input: itself if there is none.
  abbrev pub Accepts :
      Option (Value N → S → S × Result Thrown (Value N)) → Value N → S → S → Value N → Type 0
  Accepts none input s t checked = (t ≡ s) × (checked ≡ input)
  Accepts (some schema) input s t checked =
      Path (S × Result Thrown (Value N)) (schema input s) (t, ok checked)

-- Guards that let an input pass, one after the other: each sees the context that the one before gave, or
-- the same if it gave none.
pub data Passes {N S : Type 0} (input : Value N)
    : List (Middleware N S) → Context N → S → Context N → S → Type 0 where
  all_passed : (ctx : Context N) (s : S) → Passes input [] ctx s ctx s
  guard_passed :
      (guard : Middleware N S) (guards : List (Middleware N S)) (ctx seen : Context N) (s t u : S)
      (given : Option (Context N))
      → guard input ctx s ≡ (t, ok given)
      → Passes input guards (augmented ctx given) t seen u
      → Passes input (guard ∷ guards) ctx s seen u

module _ {N S : Type 0} where
  abbrev Checks : Command N S → Value N → S → S × Result Thrown (Value N) → Type 0
  Checks command input s r =
      IsStopped r
      ⊎ ((t : S) × (checked : Value N) × Path (S × Result Thrown (Value N)) r (t, ok checked)
          × Accepts command.input input s t checked)

  validate-Checks :
      (command : Command N S) (input : Value N) (s : S)
      → Checks command input s (validate command input s)
  unfolding validate
  validate-Checks command input s = by_schema command.input
    where
      Answered :
          Option (Value N → S → S × Result Thrown (Value N)) → S × Result Thrown (Value N) → Type 0
      Answered schema r =
          IsStopped r
          ⊎ ((t : S) × (checked : Value N) × Path (S × Result Thrown (Value N)) r (t, ok checked)
              × Accepts schema input s t checked)

      by_answer :
          (schema : Value N → S → S × Result Thrown (Value N)) (r : S × Result Thrown (Value N))
          → schema input s ≡ r
          → IsStopped (invalid r)
            ⊎ ((t : S) × (checked : Value N) × Path
                  (S × Result Thrown (Value N))
                  (invalid r)
                  (t, ok checked)
                × Accepts (some schema) input s t checked)
      by_answer schema (t, err e) h = inl (t, _, refl, is_command_error "INVALID_INPUT" (printed e))
      by_answer schema (t, ok v) h = inr (t, v, refl, h)

      by_schema :
          (schema : Option (Value N → S → S × Result Thrown (Value N)))
          → Answered schema (elim schema as (λ x. S × Result Thrown (Value N)) [
            | none ↦ (s, ok input)
            | some check ↦ invalid (check input s)
          ])
      by_schema none = inr (s, input, refl, (refl, refl))
      by_schema (some check) = by_answer check (check input s) refl

  abbrev Guards :
      List (Middleware N S) → Value N → Context N → S → S × Result Thrown (Context N) → Type 0
  Guards guards input ctx s r =
      IsStopped r
      ⊎ ((u : S) × (seen : Context N) × Path (S × Result Thrown (Context N)) r (u, ok seen)
          × Passes input guards ctx s seen u)

  guard-Guards :
      (guard : Middleware N S) (guards : List (Middleware N S)) (input : Value N) (ctx : Context N)
      (s : S) (r : S × Result Thrown (Option (Context N)))
      → ((c : Context N) (u : S) → Guards guards input c u (run_guards guards input c u))
      → guard input ctx s ≡ r
      → Guards (guard ∷ guards) input ctx s (after_guard (run_guards guards input) ctx r)
  guard-Guards guard guards input ctx s (t, err e) rest h =
      inl (t, denial e, refl, denial-IsCommandError e)
  guard-Guards guard guards input ctx s (t, ok given) rest h = elim (rest (augmented ctx given) t) [
    | inl stopped ↦ inl stopped
    | inr (u, seen, e, p) ↦
        inr (u, seen, e, Passes.guard_passed guard guards ctx seen s t u given h p)
  ]

  run_guards-Guards :
      (guards : List (Middleware N S)) (input : Value N) (ctx : Context N) (s : S)
      → Guards guards input ctx s (run_guards guards input ctx s)
  unfolding run_guards
  run_guards-Guards [] input ctx s = inr (s, ctx, refl, Passes.all_passed ctx s)
  run_guards-Guards (guard ∷ guards) input ctx s =
      guard-Guards guard guards input ctx s (guard input ctx s) (run_guards-Guards guards input)
        refl

  -- A command stops with a `CommandError`, or its result is what its handler returns or throws: given the
  -- input that its schema made of the one sent, or that one if it has no schema, and the context and
  -- the state that its guards left, all of which let that input pass.
  pub run_command_errors :
      (command : Command N S) (input : Value N) (ctx : Context N) (s : S)
      → IsStopped (run_command command input ctx s)
        ⊎ ((checked : Value N) × (seen : Context N) × (t : S) × (u : S) × Accepts command.input
              input s t checked
            × Passes checked command.guards ctx t seen u
            × (run_command command input ctx s ≡ command.handler checked seen u))
  unfolding run_command
  run_command_errors command input ctx s = elim (validate-Checks command input s) [
    | inl (t, e, stops, typed) ↦ inl (t, e, ap (guarded command ctx) stops, typed)
    | inr (t, checked, passes, accepted) ↦
        let go = ap (guarded command ctx) passes in
        elim (run_guards-Guards command.guards checked ctx t) [
          | inl (u, e, stops, typed) ↦ inl (u, e, go ∙ ap (handled command checked) stops, typed)
          | inr (u, seen, kept, passed) ↦
              inr (checked, seen, t, u, accepted, passed, go ∙ ap (handled command checked) kept)
        ]
  ]
