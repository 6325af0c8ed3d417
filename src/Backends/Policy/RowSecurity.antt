-- ===== src/Backends/Policy/RowSecurity.antt =====
-- Row-level security: what a context can read through a policy.
use object_repository.Base.{
  ◌≡◌, refl, ◌∙◌, sym, Bool, true, ◌&&◌, some, List, arith, All, All-weaken, All-of,
}
use object_repository.Json.{JsonObject}
use object_repository.Json.Number.{Number}
use object_repository.Expressions.Plan.{QueryPlan, ExpressionNode}
use object_repository.Expressions.Dates.{Calendar}
use object_repository.Expressions.Nodes.{Expression, matches}
use object_repository.Expressions.Wire.{serialize, parse}
use object_repository.Expressions.Wire.RoundTrip.{parse-serialize}
use object_repository.Backends.Scan.{scan}
use object_repository.Backends.Scan.Paged.{scan-All}
use object_repository.Backends.Policy.{AccessPolicy, and_two, read_filter, restricted, rewrite}

both_swapped : (a b : Bool) → a && b ≡ true → (b ≡ true) × (a ≡ true)
both_swapped a b e = ground (arith)

module _ {N : Type 0} ⦃o : Number N⦄ ⦃c : Calendar N⦄ where
  matches-and_two :
      (a b : Expression N) (r : JsonObject N)
      → matches (and_two a b) r ≡ (matches a r && matches b r)
  unfolding matches
  matches-and_two a b r = ground (arith)

  matches-reparsed :
      (a : Expression N) (r : JsonObject N) → matches (parse (serialize a)) r ≡ matches a r
  matches-reparsed a r = rw (parse-serialize a) refl

  -- The filter of a rewritten plan matches exactly the records that match the plan's own filter and the
  -- policy's, whatever the plan's filter is.
  pub matches-restricted :
      (node : ExpressionNode N) (extra : Expression N) (r : JsonObject N)
      → matches (parse (restricted node extra)) r ≡ (matches (parse node) r && matches extra r)
  unfolding restricted matches parse
  matches-restricted ExpressionNode.all extra r = matches-reparsed extra r
  matches-restricted node extra r =
      matches-reparsed (and_two (parse node) extra) r ∙ matches-and_two (parse node) extra r

  scan-restricted :
      (plan : QueryPlan N) (extra : Expression N) (records : List (JsonObject N))
      → All
          (λ r. (matches extra r ≡ true) × (matches (parse plan.condition) r ≡ true))
          (scan records (record plan { condition = restricted plan.condition extra }))
  scan-restricted plan extra records =
      let narrowed = record plan { condition = restricted plan.condition extra } in
      All-weaken
        (λ r h.
          both_swapped (matches (parse plan.condition) r) (matches extra r)
            (sym (matches-restricted plan.condition extra r) ∙ h.1))
        (scan records narrowed)
        (scan-All (λ r. r ≡ r) records narrowed (All-of (λ r. refl) records))

module _ {N C : Type 0} ⦃o : Number N⦄ ⦃c : Calendar N⦄ (policy : AccessPolicy N C) where
  -- Through a policy with a read filter for the model, a scanning backend returns only records that
  -- match that filter and the filter of the plan, whatever the order, the page and the stored records.
  pub scan-rewrite :
      (plan : QueryPlan N) (ctx : C) (extra : Expression N) (records : List (JsonObject N))
      → read_filter policy plan.model ctx ≡ some extra
      → All
          (λ r. (matches extra r ≡ true) × (matches (parse plan.condition) r ≡ true))
          (scan records (rewrite policy plan ctx))
  unfolding rewrite
  scan-rewrite plan ctx extra records e = rw (e, rewrite) (scan-restricted plan extra records)
