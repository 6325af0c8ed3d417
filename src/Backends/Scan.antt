-- ===== src/Backends/Scan.antt =====
-- backends/util/scan.ts: filter, then order, then page. A plan is run from its serialized filter.
pub mod Ordered
pub mod Paged
use object_repository.Base.{
  ℕ, ◌-◌, Bool, true, false, Option, none, some, List, [], ◌∷◌, filter, take, drop, if◌then◌else◌,
}
use object_repository.Base.Sort.{Sign, negative, zero, positive, flip, then_by, sort}
use object_repository.Json.{Value, is_nullish, JsonObject}
use object_repository.Json.Number.{Number}
use object_repository.Json.Equality.{eq_value}
use object_repository.Json.Text.{less}
use object_repository.Expressions.Path.{get_path}
use object_repository.Expressions.Plan.{SortKey, Paging, QueryPlan}
use object_repository.Expressions.Dates.{Calendar}
use object_repository.Expressions.Nodes.{matches}
use object_repository.Expressions.Wire.{parse}

module _ {N : Type 0} where
  -- `records.slice(paging.start, paging.end)`
  unfoldable pub apply_paging : List (JsonObject N) → Paging → List (JsonObject N)
  apply_paging records paging = elim paging.stop [
    | none ↦ drop paging.start records
    | some stop ↦ take (stop - paging.start) (drop paging.start records)
  ]

module _ {N : Type 0} ⦃o : Number N⦄ where
  -- `a === b` where both sides may be `undefined`
  abbrev same_value : Option (Value N) → Option (Value N) → Bool
  same_value none none = true
  same_value none (some w) = false
  same_value (some v) none = false
  same_value (some v) (some w) = eq_value (some v) w

  abbrev less_value : Option (Value N) → Option (Value N) → Bool
  less_value (some v) (some w) = less v w
  less_value _ _ = false

  unfoldable pub compare_values : Option (Value N) → Option (Value N) → Sign
  unfolding less
  compare_values a b =
      if same_value a b
      then zero
      else if is_nullish a
      then negative
      else if is_nullish b
      then positive
      else if less_value a b
      then negative
      else positive

  -- the comparison function of `applyOrder`: the first key on which two records differ
  unfoldable pub compare_records : List SortKey → JsonObject N → JsonObject N → Sign
  unfolding compare_values
  compare_records [] a b = zero
  compare_records (key ∷ keys) a b =
      let cmp = compare_values (get_path a key.property) (get_path b key.property) in
      then_by (if key.descending then flip cmp else cmp) (compare_records keys a b)

  unfoldable pub apply_order : List (JsonObject N) → List SortKey → List (JsonObject N)
  apply_order records [] = records
  apply_order records (key ∷ keys) = sort (compare_records (key ∷ keys)) records

module _ {N : Type 0} ⦃o : Number N⦄ ⦃c : Calendar N⦄ where
  unfoldable pub scan : List (JsonObject N) → QueryPlan N → List (JsonObject N)
  unfolding apply_order apply_paging
  scan records plan =
      let filtered = filter (matches (parse plan.condition)) records in
      apply_paging (apply_order filtered plan.order) plan.paging
