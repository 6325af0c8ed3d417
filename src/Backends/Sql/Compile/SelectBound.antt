-- ===== src/Backends/Sql/Compile/SelectBound.antt =====
-- Compiled aggregates and windows bind what they hold a place for (backends/sql/compile.ts).
use object_repository.Base.{
  ℕ, zero, suc, ◌+◌, ◌*◌, ◌/◌, ◌%◌, String, ◌≡◌, refl, Option, none, some, List, [], ◌∷◌, ◌++◌,
  arith, length, length-append, All, Bool-cases, inl, inr, ltb, Result, ok, err,
}
use object_repository.Base.Text.Decimal.{digit, decimal, decimal_on}
use object_repository.Json.Number.{Number}
use object_repository.Expressions.Plan.{
  AggregateOp, count, count_distinct, sum, avg, min, max, AggregateStage, AggregatePlan, WindowFn,
  WindowFnKind, ValueNode,
}
use object_repository.Backends.Sql.Fragment.{
  SqlFrag, holes, holes-append, join, total_holes, holes-cat, holes-join, sqls, params_of,
}
use object_repository.Backends.Sql.Fragment.Bound.{IsBound, total_holes-IsBound}
use object_repository.Backends.Sql.Dialect.{Dialect}
use object_repository.Backends.Sql.Compile.{Compiled, Collected, compile_value}
use object_repository.Backends.Sql.Compile.Bound.{IsDialect, Compiles, value-Compiles}
use object_repository.Backends.Sql.Compile.Select.{
  AggregateSql, function_of, group_columns, group_clause, window_fn, window_columns, clause, gap,
  over_clause, aggregate_column, in_turn, selected, compile_in_turn, stage_value, count_column,
  compile_stage, compile_stages, with_groups, compile_aggregate,
}

holes-digit : (n : ℕ) → holes (String.◌∷◌ (digit n) String.[]) ≡ 0
holes-digit zero = refl
holes-digit (suc zero) = refl
holes-digit (suc (suc zero)) = refl
holes-digit (suc (suc (suc zero))) = refl
holes-digit (suc (suc (suc (suc zero)))) = refl
holes-digit (suc (suc (suc (suc (suc zero))))) = refl
holes-digit (suc (suc (suc (suc (suc (suc zero)))))) = refl
holes-digit (suc (suc (suc (suc (suc (suc (suc zero))))))) = refl
holes-digit (suc (suc (suc (suc (suc (suc (suc (suc zero)))))))) = refl
holes-digit (suc (suc (suc (suc (suc (suc (suc (suc (suc n))))))))) = refl

holes-decimal_on : (fuel n : ℕ) → holes (decimal_on fuel n) ≡ 0
unfolding decimal_on
holes-decimal_on zero n = holes-digit n
holes-decimal_on (suc fuel) n = elim (Bool-cases (ltb n 10)) [
  | inl small ↦ rw small (holes-digit n)
  | inr large ↦ rw large (
      omega (
        arith,
        holes-append (decimal_on fuel (n / 10)) (String.◌∷◌ (digit (n % 10)) String.[]),
        holes-decimal_on fuel (n / 10),
        holes-digit (n % 10),
      ))
]

holes-group_columns : (i : ℕ) (ss : List String) → total_holes (group_columns i ss) ≡ total_holes ss
holes-group_columns i [] = refl
holes-group_columns i (s ∷ ss) = omega (
  arith,
  holes-cat (s ∷ " AS g" ∷ decimal i ∷ []),
  holes-decimal_on i i,
  holes-group_columns (suc i) ss,
)

holes-group_clause : (ss : List String) → holes (group_clause ss) ≡ total_holes ss
holes-group_clause [] = refl
holes-group_clause (s ∷ ss) =
    omega (arith, holes-cat (" GROUP BY " ∷ join ", " (s ∷ ss) ∷ []), holes-join ", " (s ∷ ss))

total_holes-append :
    (ss ts : List String) → total_holes (ss ++ ts) ≡ total_holes ss + total_holes ts
total_holes-append [] ts = omega arith
total_holes-append (s ∷ ss) ts = omega (arith, total_holes-append ss ts)

holes-clause :
    (word : String) (ss : List String) → holes word ≡ 0 → holes (clause word ss) ≡ total_holes ss
holes-clause word [] h = refl
holes-clause word (s ∷ ss) h =
    omega (arith, holes-cat (word ∷ join ", " (s ∷ ss) ∷ []), holes-join ", " (s ∷ ss))

holes-gap : (ss ts : List String) → holes (gap ss ts) ≡ 0
holes-gap [] ts = refl
holes-gap (s ∷ ss) [] = refl
holes-gap (s ∷ ss) (t ∷ ts) = refl

pub holes-over_clause :
    (partition order : List String)
    → holes (over_clause partition order) ≡ total_holes partition + total_holes order
holes-over_clause partition order = omega (
  arith,
  holes-cat (
      "OVER ("
      ∷ clause "PARTITION BY " partition
      ∷ gap partition order
      ∷ clause "ORDER BY " order
      ∷ ")"
      ∷ []),
  holes-clause "PARTITION BY " partition,
  holes-clause "ORDER BY " order,
  holes-gap partition order,
)

holes-window_fn : (kind : WindowFnKind) → holes (window_fn kind) ≡ 0
holes-window_fn WindowFnKind.row_number = refl
holes-window_fn WindowFnKind.rank = refl
holes-window_fn WindowFnKind.dense_rank = refl

holes-function_of : (op : AggregateOp) → holes (function_of op) ≡ 0
holes-function_of sum = refl
holes-function_of avg = refl
holes-function_of min = refl
holes-function_of max = refl
holes-function_of count = refl
holes-function_of count_distinct = refl

pub holes-window_columns :
    (i : ℕ) (over : String) (fns : List WindowFn)
    → total_holes (window_columns i over fns) ≡ length fns * holes over
holes-window_columns i over [] = omega arith
holes-window_columns i over (fn ∷ fns) = grind (
  arith,
  holes-cat (window_fn fn.kind ∷ " " ∷ over ∷ " AS w" ∷ decimal i ∷ []),
  holes-decimal_on i i,
  holes-window_fn fn.kind,
  holes-window_columns (suc i) over fns,
)

module _ {N : Type 0} where
  aggregate_column-IsBound :
      (i : ℕ) (op : AggregateOp) (v : SqlFrag N) → IsBound v → IsBound (aggregate_column i op v)
  aggregate_column-IsBound i count_distinct v h = omega (
    arith,
    holes-cat ("COUNT(DISTINCT " ∷ v.sql ∷ ") AS a" ∷ decimal i ∷ []),
    holes-decimal_on i i,
  )
  aggregate_column-IsBound i op v h = omega (
    arith,
    holes-cat ("COALESCE(" ∷ function_of op ∷ "(" ∷ v.sql ∷ "), 0) AS a" ∷ decimal i ∷ []),
    holes-decimal_on i i,
    holes-function_of op,
  )

  -- What a missing value throws is allowed for.
  abbrev pub EachBound : Collected N → Type 0
  EachBound (err e) = Unit
  EachBound (ok none) = Unit
  EachBound (ok (some fs)) = All IsBound fs

  abbrev pub IsBoundAggregate : Result String (Option (AggregateSql N)) → Type 0
  IsBoundAggregate (err e) = Unit
  IsBoundAggregate (ok none) = Unit
  IsBoundAggregate (ok (some q)) =
      (holes q.columns ≡ length q.params) × (holes q.group_by ≡ length q.group_params)

  abbrev FragBound : Compiled N → Type 0
  FragBound (err e) = Unit
  FragBound (ok none) = Unit
  FragBound (ok (some f)) = IsBound f

  Compiles-FragBound : (f : Compiled N) → Compiles f → FragBound f
  Compiles-FragBound (err e) h = tt
  Compiles-FragBound (ok none) h = tt
  Compiles-FragBound (ok (some f)) h = h

  in_turn-EachBound :
      (f : Compiled N) (g : SqlFrag N → SqlFrag N) (rest : Collected N)
      → ((v : SqlFrag N) → IsBound v → IsBound (g v))
      → FragBound f
      → EachBound rest
      → EachBound (in_turn f g rest)
  in_turn-EachBound (err e) g rest keep h k = tt
  in_turn-EachBound (ok none) g rest keep h k = tt
  in_turn-EachBound (ok (some f)) g (err e) keep h k = tt
  in_turn-EachBound (ok (some f)) g (ok none) keep h k = tt
  in_turn-EachBound (ok (some f)) g (ok (some fs)) keep h k = (keep f h, k)

module _ {N : Type 0} ⦃o : Number N⦄ (d : Dialect) (laws : IsDialect d)
    (plain : (n : N) → holes (o.to_text n) ≡ 0) where
  pub in_turn-bound : (nodes : List (ValueNode N)) → EachBound (compile_in_turn d nodes)
  unfolding compile_in_turn
  in_turn-bound [] = tt
  in_turn-bound (node ∷ nodes) =
      in_turn-EachBound (compile_value d node) (λ g. g) (compile_in_turn d nodes) (λ v h. h)
        (Compiles-FragBound (compile_value d node) (value-Compiles d laws plain node))
        (in_turn-bound nodes)

  stage_value-FragBound : (value : Option (ValueNode N)) → FragBound (stage_value d value)
  unfolding stage_value
  stage_value-FragBound none = tt
  stage_value-FragBound (some node) =
      Compiles-FragBound (compile_value d node) (value-Compiles d laws plain node)

  compile_stage-EachBound :
      (i : ℕ) (op : AggregateOp) (value : Option (ValueNode N)) (rest : Collected N)
      → EachBound rest
      → EachBound (compile_stage d i op value rest)
  unfolding compile_stage
  compile_stage-EachBound i count value rest h =
      in_turn-EachBound (count_column d i) (λ g. g) rest (λ v k. k)
        (omega (arith, holes-cat ("COUNT(*) AS a" ∷ decimal i ∷ []), holes-decimal_on i i)) h
  compile_stage-EachBound i op value rest h =
      in_turn-EachBound (stage_value d value) (aggregate_column i op) rest
        (aggregate_column-IsBound i op) (stage_value-FragBound value) h

  compile_stages-EachBound :
      (i : ℕ) (stages : List (AggregateStage N)) → EachBound (compile_stages d i stages)
  unfolding compile_stages
  compile_stages-EachBound i [] = tt
  compile_stages-EachBound i (stage ∷ stages) =
      compile_stage-EachBound i stage.op stage.value (compile_stages d (suc i) stages)
        (compile_stages-EachBound (suc i) stages)

  selected-IsBound :
      (gs as_ : List (SqlFrag N))
      → All IsBound gs
      → All IsBound as_
      → IsBoundAggregate (ok (some (selected gs as_)))
  selected-IsBound gs as_ h k = (
    omega (
      arith,
      holes-join ", " (group_columns 0 (sqls gs) ++ sqls as_),
      total_holes-append (group_columns 0 (sqls gs)) (sqls as_),
      holes-group_columns 0 (sqls gs),
      total_holes-IsBound gs h,
      total_holes-IsBound as_ k,
      length-append (params_of gs) (params_of as_),
    ),
    omega (arith, holes-group_clause (sqls gs), total_holes-IsBound gs h),
  )

  with_groups-IsBound :
      (gs as_ : Collected N)
      → EachBound gs
      → EachBound as_
      → IsBoundAggregate (with_groups d gs as_)
  with_groups-IsBound (err e) as_ h k = tt
  with_groups-IsBound (ok none) as_ h k = tt
  with_groups-IsBound (ok (some gs)) (err e) h k = tt
  with_groups-IsBound (ok (some gs)) (ok none) h k = tt
  with_groups-IsBound (ok (some gs)) (ok (some as_)) h k = selected-IsBound gs as_ h k

  -- An aggregate that is pushed down has as many placeholders in its columns as parameters, and in
  -- its GROUP BY as many as group parameters.
  pub aggregate-IsBound : (plan : AggregatePlan N) → IsBoundAggregate (compile_aggregate d plan)
  unfolding compile_aggregate
  aggregate-IsBound plan =
      with_groups-IsBound (compile_in_turn d plan.group_by) (compile_stages d 0 plan.aggregates)
        (in_turn-bound plan.group_by) (compile_stages-EachBound 0 plan.aggregates)
