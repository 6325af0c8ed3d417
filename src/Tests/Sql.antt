-- ===== src/Tests/Sql.antt =====
-- The SQL backends and the copy between backends at concrete inputs.
use mathlib.Core.List.{Perm}
use object_repository.Base.{
  concat, filter, String, ◌≡◌, ◌≤◌, refl, true, false, Option, none, some, [], ◌∷◌, ◌++◌, List, All,
  length, map, arith, ◌==◌, if◌then◌else◌,
}
use object_repository.Base.Dict.{get}
use object_repository.Base.Int.{ℤ, pos}
use object_repository.Base.Sort.{sort}
use object_repository.Base.Text.{units_lt}
use object_repository.Json.{Value, num, str, bool, obj, fields, JsonObject}
use object_repository.Json.Number.{int_number}
use object_repository.Json.Stringify.{stringify}
use object_repository.Expressions.Plan.{
  ValueNode, ValueNodes, AggregatePlan, AggregateOp, WindowPlan, WindowFnKind,
}
use object_repository.Expressions.Nodes.{matches}
use object_repository.Expressions.Wire.{parse}
use object_repository.Backends.Contract.{Change, uuid_of}
use object_repository.Backends.Scan.{scan}
use object_repository.Backends.Scan.Ordered.{KeyKind}
use object_repository.Backends.Copy.{copy_loop, written}
use object_repository.Backends.Copy.Complete.{IsBatch, copy_loop_complete}
use object_repository.Backends.Sql.Dialect.{FieldSpec}
use object_repository.Backends.Sql.Servers.{postgres, mysql}
use object_repository.Backends.Sql.Engines.{postgres-IsDialect, mysql-IsDialect}
use object_repository.Backends.Sql.Compile.Bound.{Compiles}
use object_repository.Backends.Sql.Compile.Where.{Columns, compile_where}
use object_repository.Backends.Sql.Compile.WhereBound.{where-Compiles}
use object_repository.Backends.Sql.Compile.Select.{compile_aggregate, compile_window}
use object_repository.Backends.Sql.Compile.SelectBound.{IsBoundAggregate, aggregate-IsBound}
use object_repository.Backends.Sql.Compile.WindowBound.{IsRepeated, window-IsRepeated}
use object_repository.Backends.Sql.Reads.{SqlBackend}
use object_repository.Backends.Sql.Rows.{decode_row, cells}
use object_repository.Backends.Sql.Rows.RoundTrip.{decode_row-cells}
use object_repository.Backends.Sql.Writes.{changes_of, writes_of, max_batch_rows}
use object_repository.Backends.Sql.Writes.Complete.{writes_of-perm}
use object_repository.Expressions.Path.{get_path, has_dot}
use object_repository.Repository.Collection.{key_value}
use object_repository.Backends.Scan.{compare_records}
use object_repository.Repository.Collection.Ties.{cmp, Has, HasDistinctUuids}
use object_repository.Repository.Collection.Keyset.{Keyed}
use object_repository.Tests.Samples.{still, ada, bob, adults}

abbrev columns : Columns
columns = some (("age", "integer") ∷ [])

where-Compiles_example : Compiles (compile_where postgres columns adults)
where-Compiles_example = where-Compiles postgres postgres-IsDialect (λ n. refl) columns adults

abbrev age_or_zero : ValueNode ℤ
age_or_zero = ValueNode.coalesce (
    ValueNodes.cons (ValueNode.field "age")
      (ValueNodes.cons (ValueNode.lit (num (pos 0))) ValueNodes.nil))

-- a key that has a parameter
abbrev name_or_unknown : ValueNode ℤ
name_or_unknown = ValueNode.coalesce (
    ValueNodes.cons (ValueNode.field "name")
      (ValueNodes.cons (ValueNode.lit (str "unknown")) ValueNodes.nil))

abbrev count_by_age : AggregatePlan ℤ
count_by_age = record {
  model = "person";
  condition = adults;
  group_by = name_or_unknown ∷ [];
  aggregates = record { name = "total"; op = AggregateOp.sum; value = some age_or_zero } ∷ [];
}

aggregate-IsBound_example : IsBoundAggregate (compile_aggregate mysql count_by_age)
aggregate-IsBound_example = aggregate-IsBound mysql mysql-IsDialect (λ n. refl) count_by_age

abbrev two_ranks : WindowPlan ℤ
two_ranks = record {
  model = "person";
  condition = adults;
  partition_by = name_or_unknown ∷ [];
  order = record { property = "age"; descending = false } ∷ [];
  functions =
      record { name = "place"; kind = WindowFnKind.rank }
      ∷ record { name = "row"; kind = WindowFnKind.row_number }
      ∷ [];
}

window-IsRepeated_example :
    IsRepeated two_ranks.functions (compile_window postgres two_ranks columns)
window-IsRepeated_example =
    window-IsRepeated postgres postgres-IsDialect (λ n. refl) two_ranks columns

abbrev store : SqlBackend
store = record {
  dialect = postgres;
  schemas = ("person", record { name = "age"; kind = "integer" } ∷ []) ∷ [];
}

abbrev saved_ada : Change ℤ
saved_ada = record { model = "person"; body = ada; dirty = some ("age" ∷ []) }

abbrev removed_bob : Change ℤ
removed_bob = record { model = "person"; body = bob; dirty = none }

writes_of-perm_example :
    Perm
      (concat (map changes_of (writes_of store (saved_ada ∷ []) (removed_bob ∷ []))))
      ((saved_ada ∷ []) ++ (removed_bob ∷ []))
    × All
        (λ w. length (changes_of w) ≤ max_batch_rows)
        (writes_of store (saved_ada ∷ []) (removed_bob ∷ []))
writes_of-perm_example = writes_of-perm store (saved_ada ∷ []) (removed_bob ∷ [])

abbrev person_fields : List FieldSpec
person_fields =
    record { name = "age"; kind = "integer" } ∷ record { name = "active"; kind = "boolean" } ∷ []

abbrev eve : JsonObject ℤ
eve = ("uuid", str "u3") ∷ ("age", num (pos 41)) ∷ ("active", bool true) ∷ ("nick", str "e") ∷ []

abbrev nick : Value ℤ
nick = obj (fields (("nick", str "e") ∷ []))

-- A host that reads one text.
abbrev read_nick : String → Option (Value ℤ)
unfolding stringify
read_nick text = if text == stringify nick then some nick else none

decode_row-cells_example :
    (got : JsonObject ℤ) × (decode_row read_nick person_fields (cells mysql person_fields eve)
      ≡ some got)
    × ((k : String) → get got k ≡ get eve k)
unfolding get stringify
decode_row-cells_example =
    decode_row-cells read_nick mysql refl person_fields eve "u3" refl (refl, (refl, tt)) refl refl
      (tt, (tt, tt)) (refl, tt) refl

abbrev texts_only : String → KeyKind
texts_only p = KeyKind.texts

abbrev two_texts : All (Has texts_only []) (bob ∷ ada ∷ [])
unfolding get_path has_dot get uuid_of key_value
two_texts = (((Keyed.of_text "u2", refl), tt), (((Keyed.of_text "u1", refl), tt), tt))

abbrev two_uuids : HasDistinctUuids (bob ∷ ada ∷ [])
unfolding get uuid_of
two_uuids = ((refl, tt), (tt, tt))

copy_loop_complete_example :
    (batches : List (List (JsonObject ℤ))) × (copy_loop 3
        (scan (bob ∷ ada ∷ []))
        some
        "person"
        adults
        1
        none
      ≡ some batches)
    × (concat batches
        ≡ written some
            (sort (cmp texts_only []) (filter (matches (parse adults)) (bob ∷ ada ∷ []))))
    × All (IsBatch 1) batches
unfolding matches sort compare_records parse units_lt
copy_loop_complete_example =
    copy_loop_complete texts_only (bob ∷ ada ∷ []) some "person" adults 0 two_texts two_uuids 3
      (omega arith)
