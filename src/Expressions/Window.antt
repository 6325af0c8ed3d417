-- ===== src/Expressions/Window.antt =====
-- expressions/windowReduce.ts: ranking over a filtered row set. The rows are distinct objects there;
-- here a row is told from the others by its position in the input.
pub mod Ranks
pub mod Columns
use mathlib.Core.List.{foldl}
use object_repository.Base.{
  ℕ, suc, ◌+◌, String, Bool, true, false, not, Option, none, some, List, [], ◌∷◌, ◌++◌, map, every,
  or_else, eqb, if◌then◌else◌,
}
use object_repository.Base.Dict.{Dict, get, put, values}
use object_repository.Base.Sort.{Sign, negative, zero, positive, flip, then_by, sort}
use object_repository.Json.{Value, num, is_nullish, type_of, JsonObject}
use object_repository.Json.Number.{Number}
use object_repository.Json.Text.{less}
use object_repository.Expressions.Compare.{same_tag}
use object_repository.Expressions.Plan.{
  SortKey, WindowFn, WindowFnKind, WindowPlan, row_number, rank, dense_rank,
}
use object_repository.Expressions.Dates.{Calendar}
use object_repository.Expressions.Values.{ValueExpr}
use object_repository.Expressions.Wire.{parse_value}
use object_repository.Expressions.Aggregate.{hash_of}

-- a row of the input with its position
pub record Row (N : Type 0) : Type 0 where
  pub index : ℕ
  pub body : JsonObject N

-- the three numbers that the loop of `assign` has for a row
pub record Place : Type 0 where
  pub index : ℕ
  pub row_number : ℕ
  pub rank : ℕ
  pub dense : ℕ

abbrev pub number_of_kind : WindowFnKind → Place → ℕ
number_of_kind WindowFnKind.row_number p = p.row_number
number_of_kind WindowFnKind.rank p = p.rank
number_of_kind WindowFnKind.dense_rank p = p.dense

-- what one function gives to a row
pub record Assigned : Type 0 where
  pub index : ℕ
  pub name : String
  pub value : ℕ

abbrev pub is_zero : Sign → Bool
is_zero zero = true
is_zero _ = false

module _ {N : Type 0} ⦃o : Number N⦄ where
  abbrev pub compare_present : Option (Value N) → Option (Value N) → Sign
  compare_present (some v) (some w) =
      if less v w then negative else if less w v then positive else zero
  compare_present _ _ = zero

  -- `compareForRank`
  unfoldable pub compare_for_rank : Option (Value N) → Option (Value N) → Sign
  unfolding less
  compare_for_rank a b =
      if is_nullish a
      then if is_nullish b then zero else negative
      else if is_nullish b
      then positive
      else if not (same_tag (type_of a) (type_of b))
      then zero
      else compare_present a b

  -- `orderComparator`
  unfoldable pub order_comparator : List SortKey → Row N → Row N → Sign
  unfolding compare_for_rank get
  order_comparator [] a b = zero
  order_comparator (key ∷ keys) a b =
      let cmp = compare_for_rank (get a.body key.property) (get b.body key.property) in
      then_by (if key.descending then flip cmp else cmp) (order_comparator keys a b)

  unfoldable pub peers : List SortKey → Row N → Row N → Bool
  unfolding compare_for_rank get
  peers order a b =
      every (λ key. is_zero (compare_for_rank (get a.body key.property) (get b.body key.property)))
        order

  abbrev pub is_new_group : List SortKey → Option (Row N) → Row N → Bool
  is_new_group order none row = true
  is_new_group order (some previous) row = not (peers order previous row)

  -- the loop of `assign`, from a row on
  unfoldable pub places : List SortKey → Option (Row N) → ℕ → ℕ → ℕ → List (Row N) → List Place
  unfolding peers
  places order previous i ranked dense [] = []
  places order previous i ranked dense (row ∷ rows) =
      let is_new = is_new_group order previous row in
      let dense_now = if is_new then suc dense else dense in
      let rank_now = if is_new then suc i else ranked in
      record { index = row.index; row_number = suc i; rank = rank_now; dense = dense_now }
      ∷ places order (some row) (suc i) rank_now dense_now rows

  unfoldable pub assign : WindowFn → List SortKey → List (Row N) → List Assigned
  unfolding places
  assign fn order ordered =
      map (λ p. record { index = p.index; name = fn.name; value = number_of_kind fn.kind p })
        (places order none 0 0 0 ordered)

module _ {N : Type 0} ⦃o : Number N⦄ ⦃c : Calendar N⦄ where
  abbrev pub indexed : ℕ → List (JsonObject N) → List (Row N)
  indexed n [] = []
  indexed n (r ∷ rs) = record { index = n; body = r } ∷ indexed (suc n) rs

  abbrev pub add_to_partition :
      List (ValueExpr N) → Dict (List (Row N)) → Row N → Dict (List (Row N))
  add_to_partition exprs partitions row =
      let hash = hash_of exprs row.body in
      put partitions hash (or_else (get partitions hash) [] ++ row ∷ [])

  unfoldable pub partitions_of : List (ValueExpr N) → List (Row N) → Dict (List (Row N))
  unfolding hash_of get put
  partitions_of exprs rows = foldl (add_to_partition exprs) [] rows

  -- what all functions give to the rows of a partition
  abbrev pub assign_all : List WindowFn → List SortKey → List (Row N) → List Assigned
  assign_all [] order ordered = []
  assign_all (fn ∷ fns) order ordered = assign fn order ordered ++ assign_all fns order ordered

  abbrev pub assign_partitions : WindowPlan N → List (List (Row N)) → List Assigned
  assign_partitions plan [] = []
  assign_partitions plan (partition ∷ rest) =
      assign_all plan.functions plan.order (sort (order_comparator plan.order) partition)
      ++ assign_partitions plan rest

  -- the row with the window columns that it was given
  abbrev pub with_columns : Row N → List Assigned → JsonObject N
  with_columns row given =
      foldl
        (λ body a. if eqb a.index row.index then put body a.name (num (o.of_ℕ a.value)) else body)
        row.body given

  unfoldable pub compute_window : WindowPlan N → List (JsonObject N) → List (JsonObject N)
  unfolding assign partitions_of parse_value sort order_comparator put
  compute_window plan records =
      let rows = indexed 0 records in
      let given =
        assign_partitions plan (values (partitions_of (map parse_value plan.partition_by) rows)) in
      map (λ row. with_columns row given) rows
