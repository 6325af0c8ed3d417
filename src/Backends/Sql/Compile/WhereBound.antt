-- ===== src/Backends/Sql/Compile/WhereBound.antt =====
-- Compiled filters bind what they hold a place for (backends/sql/compile.ts).
use object_repository.Base.{
  String, ◌≡◌, refl, Bool, true, false, not, ◌&&◌, ◌||◌, Option, none, some, List, [], ◌∷◌, arith,
  if◌then◌else◌, ok, ◌>>=◌, every,
}
use object_repository.Json.{Value, str}
use object_repository.Json.Number.{Number}
use object_repository.Json.Stringify.{stringify}
use object_repository.Expressions.Compare.{Comparator}
use object_repository.Expressions.Plan.{ExpressionNode, ExpressionNodes}
use object_repository.Backends.Sql.Fragment.{holes, cat, join, holes-cat, holes-join}
use object_repository.Backends.Sql.Dialect.{Dialect, is_ident}
use object_repository.Backends.Sql.Compile.{comparator_text, pushed, compared, compile_value}
use object_repository.Backends.Sql.Compile.Bound.{
  IsDialect, Compiles, CompileAll, collect-Compiles, with_all-Compiles, with_frag-Compiles,
  with_both-Compiles, holes-comparator_text, compared-Compiles, connected-Compiles, value-Compiles,
}
use object_repository.Backends.Sql.Compile.Where.{
  Columns, JsonSource, json_source, is_scalar, is_number, is_string, is_equality, is_inequality,
  marks, compare_json_column, compare_column, compile_compare, in_json_column, in_column, in_at,
  compare_at, compile_in, compile_where, compile_wheres,
}
use object_repository.Backends.Sql.Compile.LeafBound.{
  HasIdents, json_source-HasIdents, guarded, column-Compiles, extract-Compiles, text_match-Compiles,
  is_null-Compiles, between-Compiles, total_holes-marks, length-map,
}

module _ {N : Type 0} ⦃o : Number N⦄ (d : Dialect) (laws : IsDialect d) where
  compare_json_column-Compiles :
      (source : JsonSource) (op : Comparator) (value : Value N)
      → HasIdents source
      → Compiles (compare_json_column d source op value)
  compare_json_column-Compiles source op value named =
      guarded (not (is_equality op) || not (is_scalar value)) _ (λ plain.
        extract-Compiles d laws source _ named
          (λ c h. omega (arith, holes-cat (c ∷ " = " ∷ d.json_value ∷ []), laws.json_value_hole)))

  compare_column-Compiles :
      (property : String) (op : Comparator) (value : Value N)
      → Compiles (compare_column d property op value)
  compare_column-Compiles property op value =
      guarded (not (is_ident property)) _
        (λ named. by_value (is_number value || is_string value) (ground arith))
    where
      placed :
          (b : Bool) (c : String)
          → holes c ≡ 0
          → Compiles (
              if b
              then pushed
                  (cat ("(" ∷ c ∷ " " ∷ comparator_text op ∷ " ? OR " ∷ c ∷ " IS NULL)" ∷ []))
                  (value ∷ [])
              else pushed (cat (c ∷ " " ∷ comparator_text op ∷ " ?" ∷ [])) (value ∷ []))
      placed true c h = omega (
        arith,
        holes-cat ("(" ∷ c ∷ " " ∷ comparator_text op ∷ " ? OR " ∷ c ∷ " IS NULL)" ∷ []),
        holes-comparator_text op,
      )
      placed false c h =
          omega
            (arith, holes-cat (c ∷ " " ∷ comparator_text op ∷ " ?" ∷ []), holes-comparator_text op)

      by_value :
          (b : Bool)
          → is_ident property ≡ true
          → Compiles (
              if b
              then (d.column property >>= λ c.
                  if is_inequality op
                  then pushed
                      (cat ("(" ∷ c ∷ " " ∷ comparator_text op ∷ " ? OR " ∷ c ∷ " IS NULL)" ∷ []))
                      (value ∷ [])
                  else pushed (cat (c ∷ " " ∷ comparator_text op ∷ " ?" ∷ [])) (value ∷ []))
              else ok none)
      by_value true named = column-Compiles d laws property _ named (placed (is_inequality op))
      by_value false named = tt

  compare-Compiles :
      (columns : Columns) (property : String) (op : Comparator) (value : Value N)
      → Compiles (compile_compare d columns property op value)
  unfolding compile_compare
  compare-Compiles columns property op value = at_source (json_source property columns) refl
    where
      at_source :
          (s : Option JsonSource)
          → json_source property columns ≡ s
          → Compiles (compare_at d property op value s)
      at_source none e = compare_column-Compiles property op value
      at_source (some source) e =
          compare_json_column-Compiles source op value
            (json_source-HasIdents property columns source e)

  in_json_column-Compiles :
      (source : JsonSource) (negated : Bool) (vs : List (Value N))
      → HasIdents source
      → Compiles (in_json_column d source negated vs)
  in_json_column-Compiles source true [] named = tt
  in_json_column-Compiles source false [] named = refl
  in_json_column-Compiles source negated (v ∷ vs) named =
      guarded (negated || not (every is_scalar (v ∷ vs))) _ (λ plain.
        extract-Compiles d laws source _ named (λ c h. omega (
          arith,
          holes-cat (c ∷ " IN (" ∷ join ", " (marks d.json_value (v ∷ vs)) ∷ ")" ∷ []),
          holes-join ", " (marks d.json_value (v ∷ vs)),
          total_holes-marks d.json_value 0 (v ∷ vs) laws.json_value_hole,
          length-map (λ w. str (stringify w)) (v ∷ vs),
        )))

  in_column-Compiles :
      (property : String) (negated : Bool) (vs : List (Value N))
      → is_ident property ≡ true
      → Compiles (in_column d property negated vs)
  in_column-Compiles property true [] named = refl
  in_column-Compiles property false [] named = refl
  in_column-Compiles property negated (v ∷ vs) named =
      guarded (not (every is_number (v ∷ vs)) && not (every is_string (v ∷ vs))) _
        (λ uniform. column-Compiles d laws property _ named (placed negated))
    where
      placed :
          (b : Bool) (c : String)
          → holes c ≡ 0
          → let listed = join ", " (marks "?" (v ∷ vs)) in
            Compiles (
              if b
              then pushed
                  (cat ("(" ∷ c ∷ " IS NULL OR " ∷ c ∷ " NOT IN (" ∷ listed ∷ "))" ∷ []))
                  (v ∷ vs)
              else pushed (cat (c ∷ " IN (" ∷ listed ∷ ")" ∷ [])) (v ∷ vs))
      placed true c h =
          let listed = join ", " (marks "?" (v ∷ vs)) in
          omega (
            arith,
            holes-cat ("(" ∷ c ∷ " IS NULL OR " ∷ c ∷ " NOT IN (" ∷ listed ∷ "))" ∷ []),
            holes-join ", " (marks "?" (v ∷ vs)),
            total_holes-marks "?" 0 (v ∷ vs),
          )
      placed false c h =
          let listed = join ", " (marks "?" (v ∷ vs)) in
          omega (
            arith,
            holes-cat (c ∷ " IN (" ∷ listed ∷ ")" ∷ []),
            holes-join ", " (marks "?" (v ∷ vs)),
            total_holes-marks "?" 0 (v ∷ vs),
          )

  in-Compiles :
      (columns : Columns) (property : String) (negated : Bool) (vs : List (Value N))
      → Compiles (compile_in d columns property negated vs)
  unfolding compile_in
  in-Compiles columns property negated vs = at_source (json_source property columns) refl
    where
      at_source :
          (s : Option JsonSource)
          → json_source property columns ≡ s
          → Compiles (in_at d property negated vs s)
      at_source none e =
          guarded (not (is_ident property)) _
            (λ named. in_column-Compiles property negated vs (ground arith))
      at_source (some source) e =
          in_json_column-Compiles source negated vs
            (json_source-HasIdents property columns source e)

module _ {N : Type 0} ⦃o : Number N⦄ (d : Dialect) (laws : IsDialect d)
    (plain : (n : N) → holes (o.to_text n) ≡ 0) (columns : Columns) where
  mutual
    unfolding compile_where

    compile_where-Compiles : (e : ExpressionNode N) → Compiles (compile_where d columns e)
    compile_where-Compiles ExpressionNode.all = refl
    compile_where-Compiles (ExpressionNode.and es) =
        with_all-Compiles (compile_wheres d columns es) _ (compile_wheres-Compiles es)
          (λ fs h. connected-Compiles "1=1" " AND " fs refl refl h)
    compile_where-Compiles (ExpressionNode.or es) =
        with_all-Compiles (compile_wheres d columns es) _ (compile_wheres-Compiles es)
          (λ fs h. connected-Compiles "0=1" " OR " fs refl refl h)
    compile_where-Compiles (ExpressionNode.not e) =
        with_frag-Compiles (compile_where d columns e) _ (compile_where-Compiles e)
          (λ f h. omega (arith, holes-cat ("NOT (" ∷ f.sql ∷ ")" ∷ [])))
    compile_where-Compiles (ExpressionNode.compare property op value) =
        compare-Compiles d laws columns property op value
    compile_where-Compiles (ExpressionNode.in_list property vs) =
        in-Compiles d laws columns property false vs
    compile_where-Compiles (ExpressionNode.nin property vs) =
        in-Compiles d laws columns property true vs
    compile_where-Compiles (ExpressionNode.between property lower upper) =
        between-Compiles d laws property lower upper
    compile_where-Compiles (ExpressionNode.is_null property negated) =
        is_null-Compiles d laws N columns property negated
    compile_where-Compiles (ExpressionNode.textmatch property value mode case_insensitive) =
        text_match-Compiles d laws N columns property value mode case_insensitive
    compile_where-Compiles (ExpressionNode.expr left op right) =
        with_both-Compiles (compile_value d left) (compile_value d right) (compared op)
          (value-Compiles d laws plain left) (value-Compiles d laws plain right)
          (compared-Compiles op)
    compile_where-Compiles (ExpressionNode.contains property value) = tt
    compile_where-Compiles (ExpressionNode.exists property should_exist) = tt
    compile_where-Compiles (ExpressionNode.size property n) = tt
    compile_where-Compiles (ExpressionNode.any property e) = tt

    compile_wheres-Compiles : (es : ExpressionNodes N) → CompileAll (compile_wheres d columns es)
    compile_wheres-Compiles ExpressionNodes.nil = tt
    compile_wheres-Compiles (ExpressionNodes.cons e es) =
        collect-Compiles (compile_where d columns e) (compile_wheres d columns es)
          (compile_where-Compiles e) (compile_wheres-Compiles es)

  -- Every filter compiles without a throw, whatever its property names are, for a dialect that
  -- keeps placeholders apart and numbers whose texts hold no `?`; and if it is pushed down, its SQL
  -- has exactly as many placeholders as parameters.
  pub where-Compiles : (e : ExpressionNode N) → Compiles (compile_where d columns e)
  where-Compiles e = compile_where-Compiles e
