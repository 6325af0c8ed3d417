-- ===== src/Repository/Live/Relevance.antt =====
-- What the live filter hides, and what a change that wakes nobody leaves as it was
-- (repository/Repository.ts).
use object_repository.Base.{
  String, ◌≡◌, refl, Bool, true, false, ◌&&◌, Option, none, some, List, [], ◌∷◌, ◌++◌, filter,
  filter-append, arith,
}
use object_repository.Json.{Value, JsonObject, is_nullish}
use object_repository.Json.Number.{Number}
use object_repository.Expressions.Dates.{Calendar}
use object_repository.Expressions.Nodes.{Expression, matches, match_is_null}
use object_repository.Expressions.Path.{get_path}
use object_repository.Expressions.Plan.{ExpressionNode, QueryPlan}
use object_repository.Expressions.Wire.{parse}
use object_repository.Backends.Scan.{scan}
use object_repository.Repository.Live.{live_where, change_affects, matched}

module _ {N : Type 0} ⦃o : Number N⦄ ⦃c : Calendar N⦄ where
  has_no_marker :
      (kept : Bool) (v : Option (Value N))
      → kept && (match_is_null v false && true) ≡ kept && is_nullish v
  unfolding match_is_null
  has_no_marker kept v = ground arith

  marker_only : (v : Option (Value N)) → match_is_null v false ≡ true && is_nullish v
  unfolding match_is_null
  marker_only v = ground arith

  -- A read of a model with soft delete keeps exactly the records that its own filter keeps and that have
  -- no marker, and one that includes the deleted records keeps all that its filter keeps.
  pub live_where-matches :
      (marker : String) (condition : ExpressionNode N) (r : JsonObject N)
      → (matches (parse (live_where (some marker) condition false)) r
          ≡ (matches (parse condition) r && is_nullish (get_path r marker)))
        × (matches (parse (live_where (some marker) condition true)) r
            ≡ matches (parse condition) r)
  unfolding live_where parse matches match_is_null
  live_where-matches marker ExpressionNode.all r = (marker_only (get_path r marker), refl)
  live_where-matches marker condition r = (has_no_marker _ (get_path r marker), refl)

  abbrev pub present : Option (JsonObject N) → List (JsonObject N)
  present none = []
  present (some r) = r ∷ []

  unmatched :
      (matcher : Expression N) (r : Option (JsonObject N))
      → matched matcher r ≡ false
      → filter (matches matcher) (present r) ≡ []
  unfolding matched
  unmatched matcher none h = refl
  unmatched matcher (some r) h = rw h refl

  unaffected :
      (matcher : Expression N) (above below : List (JsonObject N))
      (previous next : Option (JsonObject N))
      → change_affects (some matcher) previous next ≡ false
      → filter (matches matcher) (above ++ (present previous ++ below))
        ≡ filter (matches matcher) (above ++ (present next ++ below))
  unfolding change_affects
  unaffected matcher above below previous next h =
      rw
        (
          filter-append (matches matcher) above (present previous ++ below),
          filter-append (matches matcher) above (present next ++ below),
          filter-append (matches matcher) (present previous) below,
          filter-append (matches matcher) (present next) below,
          unmatched matcher previous (ground arith),
          unmatched matcher next (ground arith),
        )
        refl

  -- A change that does not wake a live query leaves the query's result as it was, its order and its
  -- page too: wherever the record stands among the rows, and whether the change adds it, replaces it or
  -- removes it, if what the test takes for the record before the change is what was stored.
  pub unaffected-scan :
      (plan : QueryPlan N) (above below : List (JsonObject N))
      (previous next : Option (JsonObject N))
      → change_affects (some (parse plan.condition)) previous next ≡ false
      → scan (above ++ (present previous ++ below)) plan
        ≡ scan (above ++ (present next ++ below)) plan
  unfolding scan
  unaffected-scan plan above below previous next h =
      rw (unaffected (parse plan.condition) above below previous next h) refl
