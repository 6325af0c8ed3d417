-- ===== src/Backends/Scan/Paged.antt =====
-- What a scan returns (`scan` and `applyPaging` of backends/util/scan.ts).
use object_repository.Base.{
  ℕ, ◌-◌, ◌≤◌, ◌≡◌, true, Option, none, some, List, [], ◌∷◌, ◌++◌, arith, All, All-take, All-drop,
  filter-All, take-append-drop_from, filter, drop, length, length-take,
}
use object_repository.Base.Sort.Laws.{All-sort}
use object_repository.Json.{JsonObject}
use object_repository.Json.Number.{Number}
use object_repository.Expressions.Plan.{SortKey, Paging, QueryPlan}
use object_repository.Expressions.Dates.{Calendar}
use object_repository.Expressions.Nodes.{matches}
use object_repository.Expressions.Wire.{parse}
use object_repository.Backends.Scan.{scan, apply_paging, apply_order, compare_records}

module _ {N : Type 0} (P : JsonObject N → Type 0) where
  pub All-apply_paging :
      (rs : List (JsonObject N)) (paging : Paging) → All P rs → All P (apply_paging rs paging)
  unfolding apply_paging
  All-apply_paging rs paging h = by_end paging.stop
    where
      by_end : (e : Option ℕ) → All P (apply_paging rs (record { start = paging.start; stop = e }))
      by_end none = All-drop P paging.start rs h
      by_end (some stop) =
          All-take P (stop - paging.start) (drop paging.start rs) (All-drop P paging.start rs h)

module _ {N : Type 0} ⦃o : Number N⦄ (P : JsonObject N → Type 0) where
  pub All-apply_order :
      (order : List SortKey) (rs : List (JsonObject N)) → All P rs → All P (apply_order rs order)
  unfolding apply_order
  All-apply_order [] rs h = h
  All-apply_order (key ∷ keys) rs h = All-sort (compare_records (key ∷ keys)) P rs h

module _ {N : Type 0} ⦃o : Number N⦄ ⦃c : Calendar N⦄ where
  -- Every record that a scan returns satisfies the filter of the plan, and whatever all the stored
  -- records satisfy.
  pub scan-All :
      (P : JsonObject N → Type 0) (records : List (JsonObject N)) (plan : QueryPlan N)
      → All P records
      → All (λ r. P r × (matches (parse plan.condition) r ≡ true)) (scan records plan)
  unfolding scan
  scan-All P records plan h =
      let Both = λ (r : JsonObject N). P r × (matches (parse plan.condition) r ≡ true) in
      let kept = filter (matches (parse plan.condition)) records in
      All-apply_paging Both (apply_order kept plan.order) plan.paging (
        All-apply_order Both plan.order kept
          (filter-All P (matches (parse plan.condition)) records h))

  -- A scan with an end returns no more records than lie between the offsets, and the records up to
  -- an offset in the page, followed by those from it on, are the whole page.
  pub scan-pages :
      (records : List (JsonObject N)) (plan : QueryPlan N) (start mid : ℕ)
      → start ≤ mid
      → let page = λ (p : Paging). scan records (record plan { paging = p }) in
        (page (record { start = start; stop = some mid })
            ++ page (record { start = mid; stop = none })
          ≡ page (record { start = start; stop = none }))
        × (length (page (record { start = start; stop = some mid })) ≤ mid - start)
  unfolding scan
  scan-pages records plan start mid h =
      let ordered = apply_order (filter (matches (parse plan.condition)) records) plan.order in
      (
        take-append-drop_from start mid ordered h,
        omega (arith, length-take (mid - start) (drop start ordered)),
      )
