-- ===== src/Backends/Policy.antt =====
-- backends/decorators/PolicyBackend.ts over the backend that it wraps, an interface. The decorator has
-- no state of its own: each method is the wrapped one after the rewriting or the gate. The hatches
-- `raw`, `migrate` and `rollback` forward and are left out.
pub mod RowSecurity
use object_repository.Base.{
  ℕ, String, Bool, true, false, Option, none, some, List, [], ◌∷◌, length, Result, ok, err,
  if◌then◌else◌,
}
use object_repository.Json.{JsonObject}
use object_repository.Json.Number.{Number}
use object_repository.Expressions.Plan.{QueryPlan, ExpressionNode}
use object_repository.Expressions.Dates.{Calendar}
use object_repository.Expressions.Nodes.{Expression, Expressions, matches}
use object_repository.Expressions.Wire.{serialize, parse}
use object_repository.Backends.Contract.{ChangeEvent}

-- The contract that a decorator wraps, over a state `S` and a context `C`.
pub record Backend (N S C : Type 0) : Type 0 where
  pub query : S → QueryPlan N → C → List (JsonObject N)
  pub query_uuids : S → QueryPlan N → C → List String
  pub count : Option (S → QueryPlan N → C → ℕ)
  pub save : S → String → JsonObject N → C → Option (List String) → S
  pub remove : S → String → JsonObject N → C → S

-- `AccessPolicy`
pub record AccessPolicy (N C : Type 0) : Type 0 where
  pub read : Option (String → C → Option (Expression N))
  pub write : Option (String → JsonObject N → C → Bool)

-- `PolicyError`, with the model of the denied write
pub record PolicyError : Type 0 where
  pub model : String

abbrev pub and_two : {N : Type 0} → Expression N → Expression N → Expression N
and_two a b = Expression.and (Expressions.cons a (Expressions.cons b Expressions.nil))

-- the filter that the rewritten plan carries
unfoldable pub restricted : {N : Type 0} → ExpressionNode N → Expression N → ExpressionNode N
unfolding serialize parse
restricted ExpressionNode.all extra = serialize extra
restricted node extra = serialize (and_two (parse node) extra)

module _ {N C : Type 0} (policy : AccessPolicy N C) where
  -- `this.policy.read?.(model, ctx) ?? null`
  abbrev pub read_filter : String → C → Option (Expression N)
  read_filter model ctx = elim policy.read [ none ↦ none | some read ↦ read model ctx ]

  unfoldable pub rewrite : QueryPlan N → C → QueryPlan N
  unfolding restricted
  rewrite plan ctx = elim (read_filter plan.model ctx) [
    | none ↦ plan
    | some extra ↦ record plan { condition = restricted plan.condition extra }
  ]

  -- whether `authorizeWrite` lets the write through
  abbrev pub may_write : String → JsonObject N → C → Bool
  may_write model body ctx = elim policy.write [ none ↦ true | some write ↦ write model body ctx ]

  module _ {S : Type 0} (inner : Backend N S C) where
    unfoldable pub query : S → QueryPlan N → C → List (JsonObject N)
    query s plan ctx = inner.query s (rewrite plan ctx) ctx

    unfoldable pub query_uuids : S → QueryPlan N → C → List String
    query_uuids s plan ctx = inner.query_uuids s (rewrite plan ctx) ctx

    unfoldable pub count : S → QueryPlan N → C → ℕ
    count s plan ctx = elim inner.count [
      | none ↦ length (inner.query s (rewrite plan ctx) ctx)
      | some native ↦ native s (rewrite plan ctx) ctx
    ]

    unfoldable pub save :
        S → String → JsonObject N → C → Option (List String) → Result PolicyError S
    save s model body ctx dirty =
        if may_write model body ctx
        then ok (inner.save s model body ctx dirty)
        else err (record { model = model })

    unfoldable pub remove : S → String → JsonObject N → C → Result PolicyError S
    remove s model body ctx =
        if may_write model body ctx
        then ok (inner.remove s model body ctx)
        else err (record { model = model })

module _ {N C : Type 0} ⦃o : Number N⦄ ⦃c : Calendar N⦄ (policy : AccessPolicy N C) where
  -- the events that `changes` forwards to a listener of a context
  unfoldable pub forwards : ChangeEvent N → C → Bool
  forwards (ChangeEvent.saved model uuid body) ctx = elim (read_filter policy model ctx) [
    | none ↦ true
    | some filter ↦ matches filter body
  ]
  forwards (ChangeEvent.removed model uuid) ctx = elim (read_filter policy model ctx) [
    | none ↦ true
    | some filter ↦ false
  ]
