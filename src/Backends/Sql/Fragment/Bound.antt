-- ===== src/Backends/Sql/Fragment/Bound.antt =====
-- The shared SQL operators bind what they hold a place for (backends/sql/valueSql.ts).
use object_repository.Base.{
  String, ◌≡◌, refl, ◌∙◌, List, [], ◌∷◌, ◌++◌, map, arith, length, length-append, All,
}
use object_repository.Expressions.Plan.{ArithOp, add, sub, mul, div, rem}
use object_repository.Backends.Sql.Fragment.{
  SqlFrag, holes, cat, join, total_holes, holes-cat, holes-join, sqls, params_of, zero, op_text,
  operator_chain, arith_fragment, neg_fragment, concat_fragment, coalesce_fragment,
}

-- A fragment has a parameter for each placeholder.
abbrev pub IsBound : {N : Type 0} → SqlFrag N → Type 0
IsBound f = holes f.sql ≡ length f.params

-- A function on texts that keeps the placeholders, and one that strings texts together.
abbrev pub Keeps : (String → String) → Type 0
Keeps f = (s : String) → holes (f s) ≡ holes s

abbrev pub Strings : (List String → String) → Type 0
Strings f = (ss : List String) → holes (f ss) ≡ total_holes ss

holes-op_text : (op : ArithOp) → holes (op_text op) ≡ 0
holes-op_text add = refl
holes-op_text sub = refl
holes-op_text mul = refl
holes-op_text div = refl
holes-op_text rem = refl

module _ {N : Type 0} where
  holes-zero : (f : SqlFrag N) → holes (zero f) ≡ holes f.sql
  holes-zero f = holes-cat ("COALESCE(" ∷ f.sql ∷ ", 0)" ∷ []) ∙ omega arith

  pub total_holes-IsBound :
      (fs : List (SqlFrag N)) → All IsBound fs → total_holes (sqls fs) ≡ length (params_of fs)
  total_holes-IsBound [] h = refl
  total_holes-IsBound (f ∷ fs) h =
      omega (arith, h.0, total_holes-IsBound fs h.1, length-append f.params (params_of fs))

  total_holes-zero : (fs : List (SqlFrag N)) → total_holes (map zero fs) ≡ total_holes (sqls fs)
  total_holes-zero [] = refl
  total_holes-zero (f ∷ fs) = omega (arith, holes-zero f, total_holes-zero fs)

  operator_chain-IsBound :
      (op : ArithOp) (fs : List (SqlFrag N)) → All IsBound fs → IsBound (operator_chain op fs)
  operator_chain-IsBound op fs h = omega (
    arith,
    holes-cat ("(" ∷ join (op_text op) (map zero fs) ∷ ")" ∷ []),
    holes-join (op_text op) (map zero fs) (holes-op_text op),
    total_holes-zero fs,
    total_holes-IsBound fs h,
  )

  division-IsBound :
      (truncate : String → String) (a b : SqlFrag N)
      → IsBound a
      → IsBound b
      → IsBound (arith_fragment truncate div (a ∷ b ∷ []))
  unfolding arith_fragment
  division-IsBound truncate a b ha hb = omega (
    arith,
    holes-cat (
        "(CASE WHEN "
        ∷ zero b
        ∷ " = 0 THEN 0 ELSE ("
        ∷ zero a
        ∷ " * 1.0 / "
        ∷ zero b
        ∷ ") END)"
        ∷ []),
    holes-zero a,
    holes-zero b,
    length-append b.params (a.params ++ b.params),
    length-append a.params b.params,
  )

  remainder-IsBound :
      (truncate : String → String) (a b : SqlFrag N)
      → Keeps truncate
      → IsBound a
      → IsBound b
      → IsBound (arith_fragment truncate rem (a ∷ b ∷ []))
  unfolding arith_fragment
  remainder-IsBound truncate a b keeps ha hb =
      let quotient = cat (zero a ∷ " * 1.0 / " ∷ zero b ∷ []) in
      omega (
        arith,
        holes-cat (
            "(CASE WHEN "
            ∷ zero b
            ∷ " = 0 THEN 0 ELSE ("
            ∷ zero a
            ∷ " - "
            ∷ zero b
            ∷ " * "
            ∷ truncate quotient
            ∷ ") END)"
            ∷ []),
        keeps quotient,
        holes-cat (zero a ∷ " * 1.0 / " ∷ zero b ∷ []),
        holes-zero a,
        holes-zero b,
        length-append b.params (a.params ++ (b.params ++ (a.params ++ b.params))),
        length-append a.params (b.params ++ (a.params ++ b.params)),
        length-append b.params (a.params ++ b.params),
        length-append a.params b.params,
      )

  -- Every operator chain of arithmetic, with the repeated operands of the guarded division and
  -- remainder, has a parameter for each placeholder if its operands have.
  pub arith_fragment-IsBound :
      (truncate : String → String) (op : ArithOp) (fs : List (SqlFrag N))
      → Keeps truncate
      → All IsBound fs
      → IsBound (arith_fragment truncate op fs)
  unfolding arith_fragment
  arith_fragment-IsBound truncate div (a ∷ b ∷ []) keeps h = division-IsBound truncate a b h.0 h.1.0
  arith_fragment-IsBound truncate rem (a ∷ b ∷ []) keeps h =
      remainder-IsBound truncate a b keeps h.0 h.1.0
  arith_fragment-IsBound truncate op fs keeps h = operator_chain-IsBound op fs h

  pub neg_fragment-IsBound : (f : SqlFrag N) → IsBound f → IsBound (neg_fragment f)
  unfolding neg_fragment
  neg_fragment-IsBound f h = omega (arith, holes-cat ("(-COALESCE(" ∷ f.sql ∷ ", 0))" ∷ []))

  total_holes-coalesced :
      (fs : List (SqlFrag N))
      → total_holes (map (λ part. cat ("COALESCE(" ∷ part.sql ∷ ", '')" ∷ [])) fs)
        ≡ total_holes (sqls fs)
  total_holes-coalesced [] = refl
  total_holes-coalesced (f ∷ fs) =
      omega (arith, holes-cat ("COALESCE(" ∷ f.sql ∷ ", '')" ∷ []), total_holes-coalesced fs)

  pub concat_fragment-IsBound :
      (join_texts : List String → String) (fs : List (SqlFrag N))
      → Strings join_texts
      → All IsBound fs
      → IsBound (concat_fragment join_texts fs)
  unfolding concat_fragment
  concat_fragment-IsBound join_texts fs strings h = omega (
    arith,
    strings (map (λ part. cat ("COALESCE(" ∷ part.sql ∷ ", '')" ∷ [])) fs),
    total_holes-coalesced fs,
    total_holes-IsBound fs h,
  )

  pub coalesce_fragment-IsBound :
      (fs : List (SqlFrag N)) → All IsBound fs → IsBound (coalesce_fragment fs)
  unfolding coalesce_fragment
  coalesce_fragment-IsBound fs h = omega (
    arith,
    holes-cat ("COALESCE(" ∷ join ", " (sqls fs) ∷ ")" ∷ []),
    holes-join ", " (sqls fs),
    total_holes-IsBound fs h,
  )
