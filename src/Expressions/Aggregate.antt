-- ===== src/Expressions/Aggregate.antt =====
-- expressions/aggregateReduce.ts. A reduction other than `count` without a value throws on the first
-- row: the result is none.
pub mod Groups
use Prim.Native.String.{◌++◌ as ◌+++◌}
use mathlib.Core.List.{foldl}
use object_repository.Base.{
  ℕ, String, Bool, true, false, Option, none, some, List, [], ◌∷◌, ◌++◌, map, length, if◌then◌else◌,
}
use object_repository.Base.Dict.{Dict, get, put, values}
use object_repository.Base.Names.{distinct}
use object_repository.Json.{Value, null, num, bool, str, arr, obj, JsonObject}
use object_repository.Json.Number.{Number}
use object_repository.Json.Text.{to_text}
use object_repository.Json.Stringify.{stringify, stringify_list}
use object_repository.Expressions.Plan.{
  ValueNode, AggregateOp, AggregateStage, AggregatePlan, count, count_distinct, sum, avg,
}
use object_repository.Expressions.Dates.{Calendar}
use object_repository.Expressions.Values.{ValueExpr, evaluate}
use object_repository.Expressions.Wire.{parse_value}

-- `AggregateResultRow`
pub record AggregateRow (N : Type 0) : Type 0 where
  pub key : List (Value N)
  pub values : Dict N

-- the rows of one key
pub record Bucket (N : Type 0) : Type 0 where
  pub key : List (Value N)
  pub rows : List (JsonObject N)

module _ {N : Type 0} ⦃o : Number N⦄ where
  -- the finite number that a value is, if it is one, before the others
  abbrev pub onto_finite : Value N → List N → List N
  onto_finite (num n) ns = if o.is_finite n then n ∷ ns else ns
  onto_finite v ns = ns

  -- what a present value adds to the set of `countDistinct`
  abbrev pub onto_distinct : Value N → List String → List String
  onto_distinct null ks = ks
  onto_distinct (arr vs) ks = stringify (arr vs) ∷ ks
  onto_distinct (obj fs) ks = stringify (obj fs) ∷ ks
  onto_distinct (bool b) ks = ("boolean:" +++ to_text {N = N} (bool b)) ∷ ks
  onto_distinct (num n) ks = ("number:" +++ to_text (num n)) ∷ ks
  onto_distinct (str s) ks = ("string:" +++ to_text {N = N} (str s)) ∷ ks

  abbrev pub smaller : N → N → N
  smaller a b = if o.lt b a then b else a

  abbrev pub larger : N → N → N
  larger a b = if o.lt a b then b else a

  abbrev pub total : List N → N
  total ns = foldl o.add (o.of_ℕ 0) ns

  -- the switch over the operators that reduce numbers, of which there are some
  unfoldable pub reduce_numbers : AggregateOp → N → List N → N
  reduce_numbers sum n ns = total (n ∷ ns)
  reduce_numbers avg n ns = o.div (total (n ∷ ns)) (o.of_ℕ (length (n ∷ ns)))
  reduce_numbers AggregateOp.min n ns = foldl smaller n ns
  reduce_numbers AggregateOp.max n ns = foldl larger n ns
  reduce_numbers count n ns = o.of_ℕ (length (n ∷ ns))
  reduce_numbers count_distinct n ns = o.of_ℕ (length (n ∷ ns))

  -- an empty group reduces to 0
  abbrev pub reduce_present : AggregateOp → List N → N
  reduce_present op [] = o.of_ℕ 0
  reduce_present op (n ∷ ns) = reduce_numbers op n ns

module _ {N : Type 0} ⦃o : Number N⦄ ⦃c : Calendar N⦄ where
  -- `numericValues`
  unfoldable pub numeric_values : List (JsonObject N) → ValueExpr N → List N
  unfolding evaluate
  numeric_values [] e = []
  numeric_values (r ∷ rs) e = onto_finite (evaluate e r) (numeric_values rs e)

  unfoldable pub distinct_keys : List (JsonObject N) → ValueExpr N → List String
  unfolding evaluate stringify to_text
  distinct_keys [] e = []
  distinct_keys (r ∷ rs) e = onto_distinct (evaluate e r) (distinct_keys rs e)

  abbrev reduce_by : AggregateOp → ValueExpr N → List (JsonObject N) → N
  reduce_by count_distinct e rs = o.of_ℕ (length (distinct (distinct_keys rs e)))
  reduce_by op e rs = reduce_present op (numeric_values rs e)

  abbrev without_value : List (JsonObject N) → Option N
  without_value [] = some (o.of_ℕ 0)
  without_value (r ∷ rs) = none

  -- `reduceWithExpr`
  unfoldable pub reduce_with_expr :
      AggregateOp → Option (ValueExpr N) → List (JsonObject N) → Option N
  unfolding reduce_numbers numeric_values distinct_keys
  reduce_with_expr count e rs = some (o.of_ℕ (length rs))
  reduce_with_expr op none rs = without_value rs
  reduce_with_expr op (some e) rs = some (reduce_by op e rs)

  abbrev add_value : String → Option N → Option (Dict N) → Option (Dict N)
  add_value name (some n) (some d) = some (put d name n)
  add_value name (some n) none = none
  add_value name none d = none

  abbrev value_of : AggregateStage N → Option (ValueExpr N)
  value_of stage = elim stage.value [ none ↦ none | some node ↦ some (parse_value node) ]

  -- `reduce`: the stages in order, a later one of the same name in place of an earlier
  unfoldable pub reduce_stages : List (AggregateStage N) → List (JsonObject N) → Option (Dict N)
  unfolding reduce_with_expr put parse_value
  reduce_stages stages rs =
      foldl (λ d stage. add_value stage.name (reduce_with_expr stage.op (value_of stage) rs) d)
        (some []) stages

  unfoldable pub key_of : List (ValueExpr N) → JsonObject N → List (Value N)
  unfolding evaluate
  key_of [] r = []
  key_of (e ∷ es) r = evaluate e r ∷ key_of es r

  unfoldable pub hash_of : List (ValueExpr N) → JsonObject N → String
  unfolding key_of stringify_list
  hash_of es r = stringify_list (key_of es r)

  abbrev pub with_row : List (ValueExpr N) → JsonObject N → Option (Bucket N) → Bucket N
  with_row es r none = record { key = key_of es r; rows = r ∷ [] }
  with_row es r (some bucket) = record bucket { rows = bucket.rows ++ r ∷ [] }

  abbrev pub add_row : List (ValueExpr N) → Dict (Bucket N) → JsonObject N → Dict (Bucket N)
  add_row es buckets r =
      let hash = hash_of es r in put buckets hash (with_row es r (get buckets hash))

  unfoldable pub bucket_rows : List (ValueExpr N) → List (JsonObject N) → Dict (Bucket N)
  bucket_rows es rs = foldl (add_row es) [] rs

  abbrev row_of : List (Value N) → Option (Dict N) → Option (AggregateRow N)
  row_of key none = none
  row_of key (some d) = some (record { key = key; values = d })

  abbrev onto_row :
      Option (AggregateRow N) → Option (List (AggregateRow N)) → Option (List (AggregateRow N))
  onto_row (some r) (some rs) = some (r ∷ rs)
  onto_row (some r) none = none
  onto_row none rs = none

  abbrev reduce_buckets : List (AggregateStage N) → List (Bucket N) → Option (List (AggregateRow N))
  reduce_buckets stages [] = some []
  reduce_buckets stages (b ∷ bs) =
      onto_row (row_of b.key (reduce_stages stages b.rows)) (reduce_buckets stages bs)

  abbrev reduce_groups :
      List (ValueExpr N)
      → List (AggregateStage N)
      → List (JsonObject N)
      → Option (List (AggregateRow N))
  reduce_groups [] stages rs = onto_row (row_of [] (reduce_stages stages rs)) (some [])
  reduce_groups (e ∷ es) stages rs = reduce_buckets stages (values (bucket_rows (e ∷ es) rs))

  -- `reduceAggregatePlan`
  unfoldable pub reduce_plan :
      AggregatePlan N → List (JsonObject N) → Option (List (AggregateRow N))
  unfolding reduce_stages bucket_rows parse_value
  reduce_plan plan rs = reduce_groups (map parse_value plan.group_by) plan.aggregates rs
