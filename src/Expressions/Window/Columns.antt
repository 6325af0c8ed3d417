-- ===== src/Expressions/Window/Columns.antt =====
-- What a window leaves of the rows that it ranks (expressions/windowReduce.ts).
use object_repository.Base.{
  ℕ, suc, String, ◌≡◌, refl, ◌≢◌, List, [], ◌∷◌, map, All, All-append, Bool, true, false, eqb,
  if◌then◌else◌, none,
}
use object_repository.Base.Dict.{get, put, get-put_ne, values}
use object_repository.Json.{num, JsonObject}
use object_repository.Json.Number.{Number}
use object_repository.Expressions.Plan.{SortKey, WindowFn, WindowPlan}
use object_repository.Expressions.Dates.{Calendar}
use object_repository.Expressions.Window.{
  Row, Place, Assigned, places, number_of_kind, assign, assign_all, assign_partitions, indexed,
  with_columns, order_comparator, partitions_of, compute_window,
}
use mathlib.Core.List.{foldl}
use object_repository.Base.Sort.{sort}
use object_repository.Expressions.Wire.{parse_value}

module _ (f : String) where
  IsElsewhere : Assigned → Type 0
  IsElsewhere a = a.name ≢ f

  named-IsElsewhere :
      (fn : WindowFn) (ps : List Place)
      → fn.name ≢ f
      → All IsElsewhere (
          map
            (λ p. record { index = p.index; name = fn.name; value = number_of_kind fn.kind p })
            ps)
  unfolding IsElsewhere
  named-IsElsewhere fn [] h = tt
  named-IsElsewhere fn (p ∷ ps) h = (h, named-IsElsewhere fn ps h)

  module _ {N : Type 0} ⦃o : Number N⦄ ⦃c : Calendar N⦄ where
    assign_all-IsElsewhere :
        (fns : List WindowFn) (order : List SortKey) (ordered : List (Row N))
        → All (λ fn. fn.name ≢ f) fns
        → All IsElsewhere (assign_all fns order ordered)
    unfolding assign
    assign_all-IsElsewhere [] order ordered h = tt
    assign_all-IsElsewhere (fn ∷ fns) order ordered h =
        All-append IsElsewhere (assign fn order ordered) (assign_all fns order ordered)
          (named-IsElsewhere fn (places order none 0 0 0 ordered) h.0)
          (assign_all-IsElsewhere fns order ordered h.1)

    assign_partitions-IsElsewhere :
        (plan : WindowPlan N) (partitions : List (List (Row N)))
        → All (λ fn. fn.name ≢ f) plan.functions
        → All IsElsewhere (assign_partitions plan partitions)
    assign_partitions-IsElsewhere plan [] h = tt
    assign_partitions-IsElsewhere plan (p ∷ ps) h =
        All-append IsElsewhere
          (assign_all plan.functions plan.order (sort (order_comparator plan.order) p))
          (assign_partitions plan ps)
          (assign_all-IsElsewhere plan.functions plan.order (sort (order_comparator plan.order) p)
            h)
          (assign_partitions-IsElsewhere plan ps h)

    abbrev column : ℕ → JsonObject N → Assigned → JsonObject N
    column n body a = if eqb a.index n then put body a.name (num (o.of_ℕ a.value)) else body

    get-column :
        (n : ℕ) (body : JsonObject N) (a : Assigned)
        → IsElsewhere a
        → get (column n body a) f ≡ get body f
    unfolding IsElsewhere
    get-column n body a h = by_index (eqb a.index n)
      where
        by_index :
            (b : Bool)
            → get (if b then put body a.name (num (o.of_ℕ a.value)) else body) f ≡ get body f
        by_index true = get-put_ne body a.name f (num (o.of_ℕ a.value)) h
        by_index false = refl

    get-foldl-column :
        (n : ℕ) (body : JsonObject N) (given : List Assigned)
        → All IsElsewhere given
        → get (foldl (column n) body given) f ≡ get body f
    get-foldl-column n body [] h = refl
    get-foldl-column n body (a ∷ given) h =
        rw (get-foldl-column n (column n body a) given h.1) (get-column n body a h.0)

    get-columns :
        (n : ℕ) (rs : List (JsonObject N)) (given : List Assigned)
        → All IsElsewhere given
        → map (λ (r : JsonObject N). get r f) (map (λ row. with_columns row given) (indexed n rs))
          ≡ map (λ (r : JsonObject N). get r f) rs
    get-columns n [] given h = refl
    get-columns n (r ∷ rs) given h =
        rw (get-foldl-column n r given h, get-columns (suc n) rs given h) refl

    -- A window returns the rows in the order of the input, each with what it had under every field
    -- that no function of the plan is named after.
    pub compute_window-keeps :
        (plan : WindowPlan N) (records : List (JsonObject N))
        → All (λ fn. fn.name ≢ f) plan.functions
        → map (λ (r : JsonObject N). get r f) (compute_window plan records)
          ≡ map (λ (r : JsonObject N). get r f) records
    unfolding compute_window
    compute_window-keeps plan records h = get-columns 0 records _ (
        assign_partitions-IsElsewhere plan
          (values (partitions_of (map parse_value plan.partition_by) (indexed 0 records))) h)
