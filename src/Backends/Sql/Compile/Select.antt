-- ===== src/Backends/Sql/Compile/Select.antt =====
-- `compileAggregate` and `compileWindow` of backends/sql/compile.ts. A result is as in the parent;
-- an aggregate that wants a value and has none throws there on reading it.
use object_repository.Base.{
  ℕ, suc, String, not, Option, none, some, List, [], ◌∷◌, ◌++◌, if◌then◌else◌, Result, ok, err,
  ◌>>=◌,
}
use object_repository.Base.Text.Decimal.{decimal}
use object_repository.Json.{Value}
use object_repository.Json.Number.{Number}
use object_repository.Expressions.Plan.{
  AggregateOp, count, count_distinct, sum, avg, min, max, AggregateStage, AggregatePlan, SortKey,
  WindowFn, WindowFnKind, WindowPlan, ValueNode,
}
use object_repository.Backends.Sql.Fragment.{SqlFrag, cat, join, sqls, params_of}
use object_repository.Backends.Sql.Dialect.{Dialect, is_ident}
use object_repository.Backends.Sql.Compile.{Compiled, Collected, compile_value}
use object_repository.Backends.Sql.Compile.Where.{Columns, is_declared}

-- `AggregateSql`
pub record AggregateSql (N : Type 0) : Type 0 where
  pub columns : String
  pub group_by : String
  pub params : List (Value N)
  pub group_params : List (Value N)

pub record WindowSql (N : Type 0) : Type 0 where
  pub columns : String
  pub params : List (Value N)

-- `AGG`
abbrev pub function_of : AggregateOp → String
function_of sum = "SUM"
function_of avg = "AVG"
function_of min = "MIN"
function_of max = "MAX"
function_of count = ""
function_of count_distinct = ""

abbrev pub group_columns : ℕ → List String → List String
group_columns i [] = []
group_columns i (s ∷ ss) = cat (s ∷ " AS g" ∷ decimal i ∷ []) ∷ group_columns (suc i) ss

abbrev pub group_clause : List String → String
group_clause [] = ""
group_clause (s ∷ ss) = cat (" GROUP BY " ∷ join ", " (s ∷ ss) ∷ [])

-- `WINDOW_FN`
abbrev pub window_fn : WindowFnKind → String
window_fn WindowFnKind.row_number = "ROW_NUMBER()"
window_fn WindowFnKind.rank = "RANK()"
window_fn WindowFnKind.dense_rank = "DENSE_RANK()"

abbrev pub window_columns : ℕ → String → List WindowFn → List String
window_columns i over [] = []
window_columns i over (fn ∷ fns) =
    cat (window_fn fn.kind ∷ " " ∷ over ∷ " AS w" ∷ decimal i ∷ [])
    ∷ window_columns (suc i) over fns

abbrev pub clause : String → List String → String
clause word [] = ""
clause word (s ∷ ss) = cat (word ∷ join ", " (s ∷ ss) ∷ [])

abbrev pub gap : List String → List String → String
gap [] ss = ""
gap (s ∷ ss) [] = ""
gap (s ∷ ss) (t ∷ ts) = " "

abbrev pub over_clause : List String → List String → String
over_clause partition order = cat (
    "OVER ("
    ∷ clause "PARTITION BY " partition
    ∷ gap partition order
    ∷ clause "ORDER BY " order
    ∷ ")"
    ∷ [])

module _ {N : Type 0} where
  abbrev pub aggregate_column : ℕ → AggregateOp → SqlFrag N → SqlFrag N
  aggregate_column i count_distinct v = record {
    sql = cat ("COUNT(DISTINCT " ∷ v.sql ∷ ") AS a" ∷ decimal i ∷ []);
    params = v.params;
  }
  aggregate_column i op v = record {
    sql = cat ("COALESCE(" ∷ function_of op ∷ "(" ∷ v.sql ∷ "), 0) AS a" ∷ decimal i ∷ []);
    params = v.params;
  }

  -- the loops end at the first part that is not pushed down
  abbrev pub in_turn : Compiled N → (SqlFrag N → SqlFrag N) → Collected N → Collected N
  in_turn (err e) f rest = err e
  in_turn (ok none) f rest = ok none
  in_turn (ok (some g)) f (err e) = err e
  in_turn (ok (some g)) f (ok none) = ok none
  in_turn (ok (some g)) f (ok (some gs)) = ok (some (f g ∷ gs))

  abbrev pub selected : List (SqlFrag N) → List (SqlFrag N) → AggregateSql N
  selected groups aggregates = record {
    columns = join ", " (group_columns 0 (sqls groups) ++ sqls aggregates);
    group_by = group_clause (sqls groups);
    params = params_of groups ++ params_of aggregates;
    group_params = params_of groups;
  }

module _ {N : Type 0} ⦃o : Number N⦄ (d : Dialect) where
  unfoldable abbrev pub compile_in_turn : List (ValueNode N) → Collected N
  unfolding compile_value
  compile_in_turn [] = ok (some [])
  compile_in_turn (node ∷ nodes) = in_turn (compile_value d node) (λ g. g) (compile_in_turn nodes)

  unfoldable abbrev pub stage_value : Option (ValueNode N) → Compiled N
  unfolding compile_value
  stage_value none = err "value"
  stage_value (some node) = compile_value d node

  abbrev pub count_column : ℕ → Compiled N
  count_column i = ok (some (record { sql = cat ("COUNT(*) AS a" ∷ decimal i ∷ []); params = [] }))

  unfoldable abbrev pub compile_stage :
      ℕ → AggregateOp → Option (ValueNode N) → Collected N → Collected N
  unfolding stage_value
  compile_stage i count value rest = in_turn (count_column i) (λ g. g) rest
  compile_stage i op value rest = in_turn (stage_value value) (aggregate_column i op) rest

  unfoldable abbrev pub compile_stages : ℕ → List (AggregateStage N) → Collected N
  unfolding compile_stage
  compile_stages i [] = ok (some [])
  compile_stages i (stage ∷ stages) =
      compile_stage i stage.op stage.value (compile_stages (suc i) stages)

  abbrev pub with_groups : Collected N → Collected N → Result String (Option (AggregateSql N))
  with_groups (err e) aggregates = err e
  with_groups (ok none) aggregates = ok none
  with_groups (ok (some gs)) (err e) = err e
  with_groups (ok (some gs)) (ok none) = ok none
  with_groups (ok (some gs)) (ok (some as_)) = ok (some (selected gs as_))

  -- `compileAggregate`
  unfoldable pub compile_aggregate : AggregatePlan N → Result String (Option (AggregateSql N))
  unfolding compile_in_turn compile_stages
  compile_aggregate plan =
      with_groups (compile_in_turn plan.group_by) (compile_stages 0 plan.aggregates)

  abbrev pub order_part : SortKey → String → SqlFrag N
  order_part key c = record {
    sql =
        cat (
          c ∷ " " ∷ (if key.descending then "DESC" else "ASC") ∷ d.nulls_order key.descending ∷ []);
    params = [];
  }

  unfoldable abbrev pub column_part : Columns → SortKey → Compiled N
  unfolding is_ident
  column_part columns key =
      if not (is_ident key.property)
      then ok none
      else if not (is_declared columns key.property)
      then ok none
      else (d.column key.property >>= λ c. ok (some (order_part key c)))

  unfoldable abbrev pub order_parts : Columns → List SortKey → Collected N
  unfolding column_part
  order_parts columns [] = ok (some [])
  order_parts columns (key ∷ keys) =
      in_turn (column_part columns key) (λ g. g) (order_parts columns keys)

  abbrev pub windowed : List WindowFn → List (SqlFrag N) → List (SqlFrag N) → WindowSql N
  windowed fns partition order = record {
    columns = join ", " (window_columns 0 (over_clause (sqls partition) (sqls order)) fns);
    params = params_of partition;
  }

  abbrev pub with_parts :
      List WindowFn → Collected N → Collected N → Result String (Option (WindowSql N))
  with_parts fns (err e) order = err e
  with_parts fns (ok none) order = ok none
  with_parts fns (ok (some ps)) (err e) = err e
  with_parts fns (ok (some ps)) (ok none) = ok none
  with_parts fns (ok (some ps)) (ok (some os)) = ok (some (windowed fns ps os))

  -- `compileWindow`
  unfoldable pub compile_window : WindowPlan N → Columns → Result String (Option (WindowSql N))
  unfolding compile_in_turn order_parts
  compile_window plan columns =
      with_parts plan.functions (compile_in_turn plan.partition_by) (order_parts columns plan.order)
