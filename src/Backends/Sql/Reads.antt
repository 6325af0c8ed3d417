-- ===== src/Backends/Sql/Reads.antt =====
-- The reads of backends/sql/SqlBackend.ts over an injected executor, after the tables have been
-- provisioned.
use object_repository.Base.{
  ◌-◌, String, Bool, not, ◌||◌, Option, none, some, List, [], ◌∷◌, ◌++◌, map, filter, every, length,
  ◌==◌, or_else, if◌then◌else◌, Result, ok, err, ◌>>=◌,
}
use object_repository.Base.Dict.{Dict, get}
use object_repository.Json.{Value, JsonObject}
use object_repository.Json.Number.{Number}
use object_repository.Json.Text.{to_number}
use object_repository.Expressions.Plan.{
  SortKey, Paging, ExpressionNode, QueryPlan, AggregatePlan, WindowPlan,
}
use object_repository.Expressions.Dates.{Calendar}
use object_repository.Backends.Scan.{scan}
use object_repository.Backends.Sql.Fragment.{SqlFrag, cat, join}
use object_repository.Backends.Sql.Dialect.{Dialect, FieldSpec, is_ident}
use object_repository.Backends.Sql.Compile.{Compiled}
use object_repository.Backends.Sql.Compile.Where.{compile_where}
use object_repository.Backends.Sql.Compile.Select.{
  AggregateSql, WindowSql, compile_aggregate, compile_window,
}
use object_repository.Backends.Sql.Rows.{column_types, decode_row, coerce}

pub record Statement (N : Type 0) : Type 0 where
  pub sql : String
  pub params : List (Value N)

-- what a call throws: a name that the dialect refused, a row that could not be read, a missing value
-- of an aggregate, or what the driver threw
pub data SqlError (E : Type 0) : Type 0 where
  refused : String → SqlError E
  unreadable : SqlError E
  driver : E → SqlError E

-- `SqlExecutor.run`, with the state of the database
pub record Executor (N S E : Type 0) : Type 0 where
  pub run : Statement N → S → S × Result E (List (Dict (Value N)))

-- `SqlBackend`: the dialect and the fields of the registered models
pub record SqlBackend : Type 0 where
  pub dialect : Dialect
  pub schemas : Dict (List FieldSpec)

unfoldable pub fields_of : SqlBackend → String → List FieldSpec
unfolding get
fields_of b model = or_else (get b.schemas model) []

-- `TOP.test(k.property)`, or the uuid
abbrev pub is_order_ok : List SortKey → Bool
unfolding is_ident
is_order_ok order = every (λ k. k.property == "uuid" || is_ident k.property) order

abbrev order_keys : Dialect → List SortKey → Result String (List String)
order_keys d [] = ok []
order_keys d (k ∷ ks) = do
  c ← d.column k.property
  rest ← order_keys d ks
  ok (
      cat (c ∷ " " ∷ (if k.descending then "DESC" else "ASC") ∷ d.nulls_order k.descending ∷ [])
      ∷ rest)

-- `orderClause`
unfoldable pub order_clause : Dialect → List SortKey → Result String String
order_clause d [] = ok ""
order_clause d (k ∷ ks) = do
  keys ← order_keys d (k ∷ ks)
  ok (cat (" ORDER BY " ∷ join ", " keys ∷ []))

-- `pagingClause`. (An end before the start, which makes the limit negative and throws, is left out.)
abbrev pub paging_clause : Dialect → Paging → String
paging_clause d paging = elim paging.stop [
  | none ↦ d.paging none paging.start
  | some stop ↦ d.paging (some (stop - paging.start)) paging.start
]

module _ {N : Type 0} where
  -- `project`
  abbrev pub kept_members : JsonObject N → List String → JsonObject N
  unfolding get
  kept_members r [] = []
  kept_members r (f ∷ fs) = elim (get r f) [
    | none ↦ kept_members r fs
    | some v ↦ (f, v) ∷ kept_members r fs
  ]

  unfoldable pub project_rows : List (JsonObject N) → Option (List String) → List (JsonObject N)
  unfolding kept_members
  project_rows records none = records
  project_rows records (some fields) =
      map (λ r. kept_members r ("uuid" ∷ filter (λ f. not (f == "uuid")) fields)) records

  abbrev pub statement : String → List (Value N) → Statement N
  statement sql params = record { sql = sql; params = params }

module _ {N : Type 0} ⦃o : Number N⦄ (b : SqlBackend) where
  -- the filter, if the model is registered
  abbrev pub compile_known : String → ExpressionNode N → Compiled N
  unfolding compile_where column_types get
  compile_known model condition = elim (get b.schemas model) [
    | none ↦ ok none
    | some fs ↦ compile_where b.dialect (some (column_types fs)) condition
  ]

  abbrev pub select_all : String → Result String (Statement N)
  select_all model = do t ← b.dialect.ref model; ok (statement (cat ("SELECT * FROM " ∷ t ∷ [])) [])

  -- the text of a pushed-down query, before its placeholders are numbered
  abbrev pub query_text : QueryPlan N → SqlFrag N → Result String String
  unfolding order_clause
  query_text plan w = do
    t ← b.dialect.ref plan.model
    order ← order_clause b.dialect plan.order
    ok (
        cat (
          "SELECT * FROM "
          ∷ t
          ∷ " WHERE "
          ∷ w.sql
          ∷ order
          ∷ paging_clause b.dialect plan.paging
          ∷ []))

  -- the statement of a query that is pushed down, none for the scan
  unfoldable pub query_statement : QueryPlan N → Result String (Option (Statement N))
  unfolding compile_known is_order_ok query_text coerce
  query_statement plan = do
    compiled ← compile_known plan.model plan.condition
    elim compiled [
      | none ↦ ok none
      | some w ↦
          if is_order_ok plan.order
          then (do
            sql ← query_text plan w
            ok (some (statement (b.dialect.finalize sql) (coerce w.params))))
          else ok none
    ]

  unfoldable pub count_statement : String → ExpressionNode N → Result String (Option (Statement N))
  unfolding compile_known coerce
  count_statement model condition = do
    compiled ← compile_known model condition
    elim compiled [
      | none ↦ ok none
      | some w ↦ (do
        t ← b.dialect.ref model
        ok (
            some (
              statement
                (b.dialect.finalize
                  (cat ("SELECT COUNT(*) AS n FROM " ∷ t ∷ " WHERE " ∷ w.sql ∷ [])))
                (coerce w.params))))
    ]

  abbrev compile_known_aggregate : AggregatePlan N → Result String (Option (AggregateSql N))
  unfolding compile_aggregate get
  compile_known_aggregate plan = elim (get b.schemas plan.model) [
    | none ↦ ok none
    | some fs ↦ compile_aggregate b.dialect plan
  ]

  abbrev aggregate_from :
      AggregatePlan N
      → Option (SqlFrag N)
      → Option (AggregateSql N)
      → Result String (Option (Statement N))
  unfolding coerce
  aggregate_from plan none agg = ok none
  aggregate_from plan (some w) none = ok none
  aggregate_from plan (some w) (some agg) = do
    t ← b.dialect.ref plan.model
    ok (
        some (
          statement
            (b.dialect.finalize (
              cat ("SELECT " ∷ agg.columns ∷ " FROM " ∷ t ∷ " WHERE " ∷ w.sql ∷ agg.group_by ∷ [])))
            (coerce (agg.params ++ (w.params ++ agg.group_params)))))

  unfoldable pub aggregate_statement : AggregatePlan N → Result String (Option (Statement N))
  unfolding compile_known compile_known_aggregate aggregate_from
  aggregate_statement plan = do
    w ← compile_known plan.model plan.condition
    agg ← compile_known_aggregate plan
    aggregate_from plan w agg

  abbrev window_from :
      WindowPlan N
      → Option (SqlFrag N)
      → Option (WindowSql N)
      → Result String (Option (Statement N))
  unfolding coerce
  window_from plan none win = ok none
  window_from plan (some w) none = ok none
  window_from plan (some w) (some win) = do
    t ← b.dialect.ref plan.model
    ok (
        some (
          statement
            (b.dialect.finalize
              (cat ("SELECT *, " ∷ win.columns ∷ " FROM " ∷ t ∷ " WHERE " ∷ w.sql ∷ [])))
            (coerce (win.params ++ w.params))))

  abbrev window_known :
      WindowPlan N → Option (List FieldSpec) → Result String (Option (Statement N))
  unfolding compile_where compile_window column_types window_from
  window_known plan none = ok none
  window_known plan (some fs) = do
    w ← compile_where b.dialect (some (column_types fs)) plan.condition
    win ← compile_window b.dialect plan (some (column_types fs))
    window_from plan w win

  unfoldable pub window_statement : WindowPlan N → Result String (Option (Statement N))
  unfolding window_known get
  window_statement plan = window_known plan (get b.schemas plan.model)

module _ {N S E : Type 0} ⦃o : Number N⦄ ⦃cal : Calendar N⦄ (b : SqlBackend) (exec : Executor N S E)
    (parse_json : String → Option (Value N)) where
  abbrev pub decode_all : List FieldSpec → List (Dict (Value N)) → Option (List (JsonObject N))
  unfolding decode_row
  decode_all fs [] = some []
  decode_all fs (row ∷ rows) = elim (decode_row parse_json fs row) [
    | none ↦ none
    | some r ↦ elim (decode_all fs rows) [ none ↦ none | some rs ↦ some (r ∷ rs) ]
  ]

  abbrev decoded : Option (List (JsonObject N)) → S → S × Result (SqlError E) (List (JsonObject N))
  decoded none s = (s, err unreadable)
  decoded (some rs) s = (s, ok rs)

  abbrev decode_answer :
      List FieldSpec
      → S × Result E (List (Dict (Value N)))
      → S × Result (SqlError E) (List (JsonObject N))
  unfolding decode_all
  decode_answer fs (s, err e) = (s, err (driver e))
  decode_answer fs (s, ok rows) = decoded (decode_all fs rows) s

  -- the decoded rows of a statement
  abbrev pub read_rows : String → Statement N → S → S × Result (SqlError E) (List (JsonObject N))
  unfolding decode_answer fields_of
  read_rows model st s = decode_answer (fields_of b model) (exec.run st s)

  -- the whole table
  abbrev pub fetch_all : String → S → S × Result (SqlError E) (List (JsonObject N))
  unfolding read_rows
  fetch_all model s = elim (select_all b model) [
    | err name ↦ (s, err (refused name))
    | ok st ↦ read_rows model st s
  ]

  abbrev pub then_map :
      {A B : Type 0} → (A → B) → S × Result (SqlError E) A → S × Result (SqlError E) B
  then_map f (s, err e) = (s, err e)
  then_map f (s, ok a) = (s, ok (f a))

  -- `query`: pushed down, or the whole plan run in memory over all rows
  unfoldable pub query_rows : QueryPlan N → S → S × Result (SqlError E) (List (JsonObject N))
  unfolding query_statement fetch_all read_rows project_rows scan
  query_rows plan s = elim (query_statement b plan) [
    | err name ↦ (s, err (refused name))
    | ok (some st) ↦ then_map (λ rs. project_rows rs plan.project) (read_rows plan.model st s)
    | ok none ↦ then_map (λ rs. project_rows (scan rs plan) plan.project) (fetch_all plan.model s)
  ]

  abbrev pub count_in : List (Dict (Value N)) → N
  unfolding get to_number
  count_in [] = o.of_ℕ 0
  count_in (row ∷ rows) = elim (get row "n") [ none ↦ o.of_text "undefined" | some v ↦ to_number v ]

  abbrev count_answer : S × Result E (List (Dict (Value N))) → S × Result (SqlError E) N
  unfolding count_in
  count_answer (s, err e) = (s, err (driver e))
  count_answer (s, ok rows) = (s, ok (count_in rows))

  abbrev pub unpaged : String → ExpressionNode N → QueryPlan N
  unpaged model condition = record {
    model = model;
    condition = condition;
    order = [];
    paging = record { start = 0; stop = none };
    project = none;
  }

  -- `count`
  unfoldable pub count_rows : QueryPlan N → S → S × Result (SqlError E) N
  unfolding count_statement fetch_all count_answer scan
  count_rows plan s = elim (count_statement b plan.model plan.condition) [
    | err name ↦ (s, err (refused name))
    | ok (some st) ↦ count_answer (exec.run st s)
    | ok none ↦
        then_map (λ rs. o.of_ℕ (length (scan rs (unpaged plan.model plan.condition))))
          (fetch_all plan.model s)
  ]
