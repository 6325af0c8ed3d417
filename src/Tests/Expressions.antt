-- ===== src/Tests/Expressions.antt =====
-- Expressions, plans and aggregates at concrete inputs.
use object_repository.Base.{false, List, map, ◌≡◌, refl, true, some, [], ◌∷◌, filter, ◌==◌}
use object_repository.Base.Dict.{get, put}
use object_repository.Base.Int.{ℤ, pos}
use object_repository.Json.{Value, null, num, str}
use object_repository.Json.Number.{int_number}
use object_repository.Expressions.Path.{get_path}
use object_repository.Expressions.Compare.{ge, le, eq, ne, gt, lt, compare_json}
use object_repository.Expressions.Compare.Order.{compare_nullish}
use object_repository.Expressions.Values.{ValueExpr, evaluate}
use object_repository.Expressions.Nodes.{Expression}
use object_repository.Expressions.Wire.{serialize, parse}
use object_repository.Expressions.Wire.RoundTrip.{wire_round_trip}
use object_repository.Expressions.Aggregate.{bucket_rows, hash_of}
use object_repository.Expressions.Aggregate.Groups.{rows_of, bucket_rows-filter}
use object_repository.Backends.Memory.{pick_fields}
use object_repository.Repository.Projection.{Selection, Choice, needed_fields}
use object_repository.Repository.Projection.Pushdown.{IsWalked, Computes, needed_fields-suffice}
use object_repository.Expressions.Plan.{WindowFnKind, WindowPlan, ExpressionNode}
use object_repository.Expressions.Window.{Row, compute_window}
use object_repository.Tests.Samples.{ada, bob, adults, still, by_age}

town : get_path ada "home.town" ≡ some (str "york")
unfolding get_path
town = refl

abbrev nothing : Value ℤ
nothing = null

compare_nullish_example :
    (compare_json (some nothing) eq nothing ≡ true)
    × (compare_json (some nothing) ne nothing ≡ false)
    × (compare_json (some nothing) ge nothing ≡ true)
    × (compare_json (some nothing) le nothing ≡ true)
    × (compare_json (some nothing) gt nothing ≡ false)
    × (compare_json (some nothing) lt nothing ≡ false)
compare_nullish_example = compare_nullish (some nothing) nothing refl

abbrev has_age : Expression ℤ
has_age = Expression.exists "age" true

wire_round_trip_example :
    (parse (serialize has_age) ≡ has_age) × (serialize (parse adults) ≡ adults)
wire_round_trip_example = wire_round_trip has_age adults

bucket_rows-filter_example :
    rows_of (get (bucket_rows (ValueExpr.field "name" ∷ []) (ada ∷ bob ∷ ada ∷ [])) "[\"ada\"]")
    ≡ filter (λ r. hash_of (ValueExpr.field "name" ∷ []) r == "[\"ada\"]") (ada ∷ bob ∷ ada ∷ [])
bucket_rows-filter_example =
    bucket_rows-filter (ValueExpr.field "name" ∷ []) (ada ∷ bob ∷ ada ∷ []) "[\"ada\"]"

grouped :
    rows_of (get (bucket_rows (ValueExpr.field "name" ∷ []) (ada ∷ bob ∷ ada ∷ [])) "[\"ada\"]")
    ≡ ada ∷ ada ∷ []
unfolding bucket_rows hash_of get put
grouped = refl

abbrev doubled : ValueExpr ℤ
doubled = ValueExpr.neg (ValueExpr.field "age")

abbrev shown : Selection ℤ
shown =
    Selection.entry "name" Choice.whole
      (Selection.entry "minus" (Choice.computed doubled) Selection.done)

needed_fields-suffice_example :
    evaluate doubled (pick_fields ada (needed_fields shown)) ≡ evaluate doubled ada
needed_fields-suffice_example =
    needed_fields-suffice shown doubled ada
      (Computes.later "name" Choice.whole _ (Computes.here "minus" Selection.done))
      (IsWalked.neg (IsWalked.field "age"))

abbrev by_age_rows : List (Row ℤ)
by_age_rows = record { index = 1; body = bob } ∷ record { index = 0; body = ada } ∷ []

abbrev age_ranks : WindowPlan ℤ
age_ranks = record {
  model = "person";
  condition = ExpressionNode.all;
  partition_by = [];
  order = by_age;
  functions =
      record { name = "place"; kind = WindowFnKind.row_number }
      ∷ record { name = "tie"; kind = WindowFnKind.dense_rank }
      ∷ [];
}

-- The younger one is first, and the rows stay in the order of the input.
ranked :
    map (λ r. get r "place") (compute_window age_ranks (ada ∷ bob ∷ bob ∷ []))
    ≡ some (num (pos 3)) ∷ some (num (pos 1)) ∷ some (num (pos 2)) ∷ []
unfolding compute_window get
ranked = refl

tied :
    map (λ r. get r "tie") (compute_window age_ranks (ada ∷ bob ∷ bob ∷ []))
    ≡ some (num (pos 2)) ∷ some (num (pos 1)) ∷ some (num (pos 1)) ∷ []
unfolding compute_window get
tied = refl
