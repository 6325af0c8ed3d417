-- ===== src/Backends/Sql/Compile/Bound.antt =====
-- Compiled value expressions bind what they hold a place for (backends/sql/compile.ts).
use object_repository.Base.{
  suc, String, ◌≡◌, refl, Bool, true, false, not, ◌&&◌, none, some, List, [], ◌∷◌, ◌++◌, arith,
  length-append, All, Bool-cases, inl, inr, ok, err, every,
}
use object_repository.Json.{Value, null, bool, num, str, arr, obj}
use object_repository.Json.Number.{Number}
use object_repository.Expressions.Compare.{Comparator, eq, ne, gt, lt, ge, le}
use object_repository.Expressions.Plan.{ArithOp, ValueNode, ValueNodes, NodeBranches}
use object_repository.Backends.Sql.Fragment.{
  SqlFrag, holes, join, holes-cat, holes-join, sqls, params_of,
}
use object_repository.Backends.Sql.Fragment.Bound.{
  IsBound, Keeps, Strings, total_holes-IsBound, arith_fragment-IsBound, neg_fragment-IsBound,
  concat_fragment-IsBound, coalesce_fragment-IsBound,
}
use object_repository.Backends.Sql.Dialect.{Dialect, is_ident}
use object_repository.Backends.Sql.Compile.{
  comparator_text, Compiled, Collected, collect, with_all, with_frag, with_both, compared,
  connected, three_of, is_quotient, is_binary, arith_of, branch_of, switch_of, literal, column_of,
  compile_value, compile_values, compile_branches,
}

-- What the compiler relies on in a dialect.
pub record IsDialect (d : Dialect) : Type 0 where
  pub column_ok :
      (name : String) → is_ident name ≡ true → (c : String) × (d.column name ≡ ok c) × (holes c ≡ 0)
  pub extract_ok :
      (name : String) (path : List String)
      → is_ident name ≡ true
      → every is_ident path ≡ true
      → (c : String) × (d.json_extract name path ≡ ok c) × (holes c ≡ 0)
  pub json_value_hole : holes d.json_value ≡ 1
  pub concat_strings : Strings d.concat
  pub like_hole : (c : String) → holes (d.like_match c) ≡ suc (holes c)
  pub truncate_keeps : Keeps d.truncate
  pub nulls_plain : (descending : Bool) → holes (d.nulls_order descending) ≡ 0

pub holes-comparator_text : (op : Comparator) → holes (comparator_text op) ≡ 0
holes-comparator_text eq = refl
holes-comparator_text ne = refl
holes-comparator_text gt = refl
holes-comparator_text lt = refl
holes-comparator_text ge = refl
holes-comparator_text le = refl

module _ {N : Type 0} where
  -- A compilation does not throw, and a fragment that it gives has its parameters.
  abbrev pub Compiles : Compiled N → Type 0
  Compiles (err e) = ⊥
  Compiles (ok none) = Unit
  Compiles (ok (some f)) = IsBound f

  abbrev pub CompileAll : Collected N → Type 0
  CompileAll (err e) = ⊥
  CompileAll (ok none) = Unit
  CompileAll (ok (some fs)) = All IsBound fs

  pub collect-Compiles :
      (f : Compiled N) (fs : Collected N) → Compiles f → CompileAll fs → CompileAll (collect f fs)
  collect-Compiles (err e) fs h k = h
  collect-Compiles (ok f) (err e) h k = k
  collect-Compiles (ok none) (ok fs) h k = tt
  collect-Compiles (ok (some f)) (ok none) h k = tt
  collect-Compiles (ok (some f)) (ok (some fs)) h k = (h, k)

  pub with_all-Compiles :
      (fs : Collected N) (k : List (SqlFrag N) → Compiled N)
      → CompileAll fs
      → ((gs : List (SqlFrag N)) → All IsBound gs → Compiles (k gs))
      → Compiles (with_all fs k)
  with_all-Compiles (err e) k h step = h
  with_all-Compiles (ok none) k h step = tt
  with_all-Compiles (ok (some fs)) k h step = step fs h

  pub with_frag-Compiles :
      (f : Compiled N) (k : SqlFrag N → Compiled N)
      → Compiles f
      → ((g : SqlFrag N) → IsBound g → Compiles (k g))
      → Compiles (with_frag f k)
  with_frag-Compiles (err e) k h step = h
  with_frag-Compiles (ok none) k h step = tt
  with_frag-Compiles (ok (some f)) k h step = step f h

  pub with_both-Compiles :
      (l r : Compiled N) (k : SqlFrag N → SqlFrag N → Compiled N)
      → Compiles l
      → Compiles r
      → ((f g : SqlFrag N) → IsBound f → IsBound g → Compiles (k f g))
      → Compiles (with_both l r k)
  with_both-Compiles (err e) r k h h' step = h
  with_both-Compiles (ok l) (err e) k h h' step = h'
  with_both-Compiles (ok none) (ok r) k h h' step = tt
  with_both-Compiles (ok (some l)) (ok none) k h h' step = tt
  with_both-Compiles (ok (some l)) (ok (some r)) k h h' step = step l r h h'

  pub compared-Compiles :
      (op : Comparator) (f g : SqlFrag N) → IsBound f → IsBound g → Compiles (compared op f g)
  compared-Compiles op f g h k = omega (
    arith,
    holes-cat ("(" ∷ f.sql ∷ " " ∷ comparator_text op ∷ " " ∷ g.sql ∷ ")" ∷ []),
    holes-comparator_text op,
    length-append f.params g.params,
  )

  pub connected-Compiles :
      (none_of separator : String) (fs : List (SqlFrag N))
      → holes none_of ≡ 0
      → holes separator ≡ 0
      → All IsBound fs
      → Compiles (connected none_of separator fs)
  connected-Compiles none_of separator [] plain apart h = plain
  connected-Compiles none_of separator (f ∷ fs) plain apart h = omega (
    arith,
    holes-cat ("(" ∷ join separator (sqls (f ∷ fs)) ∷ ")" ∷ []),
    holes-join separator (sqls (f ∷ fs)) apart,
    total_holes-IsBound (f ∷ fs) h,
  )

  three_of-Compiles : (fs : List (SqlFrag N)) → All IsBound fs → Compiles (three_of fs)
  three_of-Compiles [] h = tt
  three_of-Compiles (t ∷ []) h = tt
  three_of-Compiles (t ∷ a ∷ []) h = tt
  three_of-Compiles (t ∷ a ∷ b ∷ []) h = omega (
    arith,
    holes-cat ("CASE WHEN " ∷ t.sql ∷ " THEN " ∷ a.sql ∷ " ELSE " ∷ b.sql ∷ " END" ∷ []),
    length-append t.params (a.params ++ b.params),
    length-append a.params b.params,
  )
  three_of-Compiles (t ∷ a ∷ b ∷ c ∷ fs) h = tt

  arith_of-Compiles :
      (truncate : String → String) (op : ArithOp) (fs : List (SqlFrag N))
      → Keeps truncate
      → All IsBound fs
      → Compiles (arith_of truncate op fs)
  arith_of-Compiles truncate op fs keeps h =
      elim (Bool-cases (is_quotient op && not (is_binary fs))) [
        | inl long ↦ rw long tt
        | inr plain ↦ rw plain (arith_fragment-IsBound truncate op fs keeps h)
      ]

  branch_of-Compiles :
      (w t : Compiled N) (rest : Collected N)
      → Compiles w
      → Compiles t
      → CompileAll rest
      → CompileAll (branch_of w t rest)
  branch_of-Compiles (err e) t rest h k l = h
  branch_of-Compiles (ok w) (err e) rest h k l = k
  branch_of-Compiles (ok none) (ok t) rest h k l = tt
  branch_of-Compiles (ok (some w)) (ok none) rest h k l = tt
  branch_of-Compiles (ok (some w)) (ok (some t)) (err e) h k l = l
  branch_of-Compiles (ok (some w)) (ok (some t)) (ok none) h k l = tt
  branch_of-Compiles (ok (some w)) (ok (some t)) (ok (some fs)) h k l = (
    omega (
      arith,
      holes-cat ("WHEN " ∷ w.sql ∷ " THEN " ∷ t.sql ∷ []),
      length-append w.params t.params,
    ),
    l,
  )

  switch_of-Compiles :
      (whens : List (SqlFrag N)) (f : SqlFrag N)
      → All IsBound whens
      → IsBound f
      → Compiles (switch_of whens f)
  switch_of-Compiles whens f h k = omega (
    arith,
    holes-cat ("CASE " ∷ join " " (sqls whens) ∷ " ELSE " ∷ f.sql ∷ " END" ∷ []),
    holes-join " " (sqls whens),
    total_holes-IsBound whens h,
    length-append (params_of whens) f.params,
  )

module _ {N : Type 0} ⦃o : Number N⦄ (d : Dialect) (laws : IsDialect d)
    (plain : (n : N) → holes (o.to_text n) ≡ 0) where
  column_of-Compiles : (path : String) → Compiles {N = N} (column_of d path)
  column_of-Compiles path = elim (Bool-cases (is_ident path)) [
    | inl named ↦ let (c, e, h) = laws.column_ok path named in rw (named, e) h
    | inr other ↦ rw other tt
  ]

  literal-Compiles : (v : Value N) → Compiles (literal v)
  literal-Compiles null = refl
  literal-Compiles (bool true) = refl
  literal-Compiles (bool false) = refl
  literal-Compiles (num n) = plain n
  literal-Compiles (str s) = refl
  literal-Compiles (arr vs) = refl
  literal-Compiles (obj fs) = refl

  mutual
    unfolding compile_value

    compile_value-Compiles : (node : ValueNode N) → Compiles (compile_value d node)
    compile_value-Compiles (ValueNode.field path) = column_of-Compiles path
    compile_value-Compiles (ValueNode.lit v) = literal-Compiles v
    compile_value-Compiles (ValueNode.arith op first rest) =
        with_all-Compiles (collect (compile_value d first) (compile_values d rest))
          (arith_of d.truncate op)
          (collect-Compiles (compile_value d first) (compile_values d rest)
            (compile_value-Compiles first) (compile_values-Compiles rest))
          (λ fs h. arith_of-Compiles d.truncate op fs laws.truncate_keeps h)
    compile_value-Compiles (ValueNode.neg operand) =
        with_frag-Compiles (compile_value d operand) _ (compile_value-Compiles operand)
          neg_fragment-IsBound
    compile_value-Compiles (ValueNode.concat operands) =
        with_all-Compiles (compile_values d operands) _ (compile_values-Compiles operands)
          (λ fs h. concat_fragment-IsBound d.concat fs laws.concat_strings h)
    compile_value-Compiles (ValueNode.coalesce operands) =
        with_all-Compiles (compile_values d operands) _ (compile_values-Compiles operands)
          coalesce_fragment-IsBound
    compile_value-Compiles (ValueNode.vcompare op left right) =
        with_both-Compiles (compile_value d left) (compile_value d right) (compared op)
          (compile_value-Compiles left) (compile_value-Compiles right) (compared-Compiles op)
    compile_value-Compiles (ValueNode.vand operands) =
        with_all-Compiles (compile_values d operands) _ (compile_values-Compiles operands)
          (λ fs h. connected-Compiles "TRUE" " AND " fs refl refl h)
    compile_value-Compiles (ValueNode.vor operands) =
        with_all-Compiles (compile_values d operands) _ (compile_values-Compiles operands)
          (λ fs h. connected-Compiles "FALSE" " OR " fs refl refl h)
    compile_value-Compiles (ValueNode.vnot operand) =
        with_frag-Compiles (compile_value d operand) _ (compile_value-Compiles operand)
          (λ f h. omega (arith, holes-cat ("(NOT " ∷ f.sql ∷ ")" ∷ [])))
    compile_value-Compiles (ValueNode.cond test then_value otherwise) =
        with_all-Compiles _ three_of
          (collect-Compiles (compile_value d test) _ (compile_value-Compiles test) (
            collect-Compiles (compile_value d then_value) _ (compile_value-Compiles then_value) (
              collect-Compiles (compile_value d otherwise) (ok (some []))
                (compile_value-Compiles otherwise) tt)))
          three_of-Compiles
    compile_value-Compiles (ValueNode.switch branches otherwise) =
        with_all-Compiles (compile_branches d branches) _ (compile_branches-Compiles branches)
          (λ whens h.
            with_frag-Compiles (compile_value d otherwise) (switch_of whens)
              (compile_value-Compiles otherwise) (λ f k. switch_of-Compiles whens f h k))
    compile_value-Compiles (ValueNode.datepart part operand timezone) = tt
    compile_value-Compiles (ValueNode.datestring format operand timezone) = tt

    compile_values-Compiles : (nodes : ValueNodes N) → CompileAll (compile_values d nodes)
    compile_values-Compiles ValueNodes.nil = tt
    compile_values-Compiles (ValueNodes.cons node nodes) =
        collect-Compiles (compile_value d node) (compile_values d nodes)
          (compile_value-Compiles node) (compile_values-Compiles nodes)

    compile_branches-Compiles : (bs : NodeBranches N) → CompileAll (compile_branches d bs)
    compile_branches-Compiles NodeBranches.done = tt
    compile_branches-Compiles (NodeBranches.branch w t bs) =
        branch_of-Compiles (compile_value d w) (compile_value d t) (compile_branches d bs)
          (compile_value-Compiles w) (compile_value-Compiles t) (compile_branches-Compiles bs)

  -- A value expression compiles without a throw, and its fragment has a parameter for each
  -- placeholder.
  pub value-Compiles : (node : ValueNode N) → Compiles (compile_value d node)
  value-Compiles node = compile_value-Compiles node
