-- ===== src/Backends/Sql/Compile/WindowBound.antt =====
-- How often a pushed-down window repeats its partition (backends/sql/compile.ts).
use object_repository.Base.{
  ◌*◌, String, ◌≡◌, refl, ap, ◌∙◌, Bool, true, false, not, Option, none, some, List, [], ◌∷◌, arith,
  length, All, Bool-cases, inl, inr, if◌then◌else◌, Result, ok, err,
}
use object_repository.Json.Number.{Number}
use object_repository.Expressions.Plan.{SortKey, WindowFn, WindowPlan}
use object_repository.Backends.Sql.Fragment.{
  SqlFrag, holes, cat, total_holes, holes-cat, holes-join, sqls, params_of,
}
use object_repository.Backends.Sql.Fragment.Bound.{total_holes-IsBound}
use object_repository.Backends.Sql.Dialect.{Dialect, is_ident}
use object_repository.Backends.Sql.Compile.{Compiled, Collected}
use object_repository.Backends.Sql.Compile.Bound.{IsDialect}
use object_repository.Backends.Sql.Compile.Where.{Columns, is_declared}
use object_repository.Backends.Sql.Compile.Select.{
  WindowSql, window_columns, over_clause, in_turn, compile_in_turn, order_part, column_part,
  order_parts, with_parts, compile_window,
}
use object_repository.Backends.Sql.Compile.SelectBound.{
  EachBound, in_turn-bound, holes-over_clause, holes-window_columns,
}

module _ {N : Type 0} where
  abbrev pub IsPlain : SqlFrag N → Type 0
  IsPlain f = holes f.sql ≡ 0

  abbrev EachPlain : Collected N → Type 0
  EachPlain (err e) = Unit
  EachPlain (ok none) = Unit
  EachPlain (ok (some fs)) = All IsPlain fs

  total_holes-IsPlain : (fs : List (SqlFrag N)) → All IsPlain fs → total_holes (sqls fs) ≡ 0
  total_holes-IsPlain [] h = refl
  total_holes-IsPlain (f ∷ fs) h = omega (arith, total_holes-IsPlain fs h.1)

  abbrev pub IsRepeated : List WindowFn → Result String (Option (WindowSql N)) → Type 0
  IsRepeated fns (err e) = Unit
  IsRepeated fns (ok none) = Unit
  IsRepeated fns (ok (some q)) = holes q.columns ≡ length fns * length q.params

module _ {N : Type 0} ⦃o : Number N⦄ (d : Dialect) (laws : IsDialect d)
    (plain : (n : N) → holes (o.to_text n) ≡ 0) where
  order_part-IsPlain :
      (key : SortKey) (c : String) → holes c ≡ 0 → IsPlain {N = N} (order_part d key c)
  order_part-IsPlain key c h = by_direction key.descending
    where
      by_direction :
          (b : Bool)
          → holes
              (cat (c ∷ " " ∷ (if b then "DESC" else "ASC") ∷ d.nulls_order key.descending ∷ []))
            ≡ 0
      by_direction true = omega (
        arith,
        holes-cat (c ∷ " " ∷ "DESC" ∷ d.nulls_order key.descending ∷ []),
        laws.nulls_plain key.descending,
      )
      by_direction false = omega (
        arith,
        holes-cat (c ∷ " " ∷ "ASC" ∷ d.nulls_order key.descending ∷ []),
        laws.nulls_plain key.descending,
      )

  abbrev PlainFrag : Compiled N → Type 0
  PlainFrag (err e) = Unit
  PlainFrag (ok none) = Unit
  PlainFrag (ok (some f)) = IsPlain f

  column_part-plain : (columns : Columns) (key : SortKey) → PlainFrag (column_part d columns key)
  unfolding column_part
  column_part-plain columns key = elim (Bool-cases (is_ident key.property)) [
    | inr other ↦ rw (other, PlainFrag) tt
    | inl named ↦
        let (c, e, h) = laws.column_ok key.property named in
        rw (named, e, PlainFrag) (declared (is_declared columns key.property) c h)
  ]
    where
      declared :
          (b : Bool) (c : String)
          → holes c ≡ 0
          → PlainFrag (if not b then ok none else ok (some (order_part d key c)))
      declared true c h = order_part-IsPlain key c h
      declared false c h = tt

  in_turn-plain :
      (f : Compiled N) (rest : Collected N)
      → PlainFrag f
      → EachPlain rest
      → EachPlain (in_turn f (λ g. g) rest)
  in_turn-plain (err e) rest h k = tt
  in_turn-plain (ok none) rest h k = tt
  in_turn-plain (ok (some f)) (err e) h k = tt
  in_turn-plain (ok (some f)) (ok none) h k = tt
  in_turn-plain (ok (some f)) (ok (some fs)) h k = (h, k)

  order_parts-plain :
      (columns : Columns) (keys : List SortKey) → EachPlain {N = N} (order_parts d columns keys)
  unfolding order_parts
  order_parts-plain columns [] = tt
  order_parts-plain columns (key ∷ keys) =
      in_turn-plain (column_part d columns key) (order_parts d columns keys)
        (column_part-plain columns key) (order_parts-plain columns keys)

  with_parts-IsRepeated :
      (fns : List WindowFn) (ps os : Collected N)
      → EachBound ps
      → EachPlain os
      → IsRepeated fns (with_parts d fns ps os)
  with_parts-IsRepeated fns (err e) os h k = tt
  with_parts-IsRepeated fns (ok none) os h k = tt
  with_parts-IsRepeated fns (ok (some ps)) (err e) h k = tt
  with_parts-IsRepeated fns (ok (some ps)) (ok none) h k = tt
  with_parts-IsRepeated fns (ok (some ps)) (ok (some os)) h k =
      let over = over_clause (sqls ps) (sqls os) in
      let counted : holes over ≡ length (params_of ps) = omega (
        arith,
        holes-over_clause (sqls ps) (sqls os),
        total_holes-IsBound ps h,
        total_holes-IsPlain os k,
      ) in
      holes-join ", " (window_columns 0 over fns) refl
      ∙ holes-window_columns 0 over fns
      ∙ ap (λ n. length fns * n) counted

  -- A window that is pushed down has the placeholders of its partition once for each of its
  -- functions, but the parameters once: the two agree for one function, or a partition without
  -- parameters, and for two functions there are too few parameters.
  pub window-IsRepeated :
      (plan : WindowPlan N) (columns : Columns)
      → IsRepeated plan.functions (compile_window d plan columns)
  unfolding compile_window
  window-IsRepeated plan columns =
      with_parts-IsRepeated plan.functions (compile_in_turn d plan.partition_by)
        (order_parts d columns plan.order) (in_turn-bound d laws plain plan.partition_by)
        (order_parts-plain columns plan.order)
