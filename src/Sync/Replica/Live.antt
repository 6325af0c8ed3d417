-- ===== src/Sync/Replica/Live.antt =====
-- Reads of a replica: tombstones are invisible.
use object_repository.Base.{
  ◌≡◌, refl, ◌∙◌, sym, Bool, true, false, ◌&&◌, List, arith, All, All-weaken, All-of,
}
use object_repository.Json.{JsonObject}
use object_repository.Json.Number.{Number}
use object_repository.Expressions.Compare.{compare_json}
use object_repository.Expressions.Path.{get_path, has_dot}
use object_repository.Expressions.Plan.{QueryPlan}
use object_repository.Expressions.Dates.{Calendar}
use object_repository.Expressions.Nodes.{matches}
use object_repository.Expressions.Wire.{parse}
use object_repository.Backends.Scan.{scan}
use object_repository.Backends.Scan.Paged.{scan-All}
use object_repository.Backends.Policy.RowSecurity.{matches-restricted}
use object_repository.Sync.Replica.{live, is_tombstone, exclude_tombstones}

both_sides : (a b : Bool) → a && b ≡ true → (a ≡ true) × (b ≡ true)
both_sides a b e = ground (arith)

module _ {N : Type 0} ⦃o : Number N⦄ ⦃c : Calendar N⦄ where
  matches-live : (r : JsonObject N) → matches live r ≡ true → is_tombstone r ≡ false
  unfolding matches is_tombstone compare_json get_path has_dot
  matches-live r h = ground (arith)

  -- A read of a replica over a scanning local backend returns no tombstone, and only records that match
  -- the filter of the plan.
  pub exclude_tombstones-live :
      (records : List (JsonObject N)) (plan : QueryPlan N)
      → All
          (λ r. (matches (parse plan.condition) r ≡ true) × (is_tombstone r ≡ false))
          (scan records (exclude_tombstones plan))
  unfolding exclude_tombstones
  exclude_tombstones-live records plan =
      All-weaken
        (λ r h.
          let (own, alive) =
            both_sides (matches (parse plan.condition) r) (matches live r)
              (sym (matches-restricted plan.condition live r) ∙ h.1) in
          (own, matches-live r alive))
        (scan records (exclude_tombstones plan))
        (scan-All (λ r. r ≡ r) records (exclude_tombstones plan) (All-of (λ r. refl) records))
