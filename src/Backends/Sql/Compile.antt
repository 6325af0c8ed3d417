-- ===== src/Backends/Sql/Compile.antt =====
-- backends/sql/compile.ts: filters and value expressions as SQL texts with placeholders. A result is
-- a fragment, or none where the code answers `null` for a node that it does not push down, or the
-- name that the dialect refused as an identifier by a throw.
pub mod Bound
pub mod Where
pub mod Select
pub mod LeafBound
pub mod WhereBound
pub mod SelectBound
pub mod WindowBound
use object_repository.Base.{
  ℕ, String, Bool, true, false, not, ◌&&◌, ◌||◌, Option, none, some, List, [], ◌∷◌, ◌++◌, map, eqb,
  if◌then◌else◌, Result, ok, err, ◌>>=◌,
}
use object_repository.Json.{Value, null, bool, num, str, arr, obj}
use object_repository.Json.Number.{Number}
use object_repository.Expressions.Compare.{Comparator, eq, ne, gt, lt, ge, le}
use object_repository.Expressions.Plan.{
  ArithOp, ValueNode, ValueNodes, NodeBranches, add, sub, mul, div, rem,
}
use object_repository.Backends.Sql.Fragment.{
  SqlFrag, cat, join, sqls, params_of, arith_fragment, neg_fragment, concat_fragment,
  coalesce_fragment,
}
use object_repository.Backends.Sql.Dialect.{Dialect, is_ident}

-- `OP`
abbrev pub comparator_text : Comparator → String
comparator_text eq = "="
comparator_text ne = "<>"
comparator_text gt = ">"
comparator_text lt = "<"
comparator_text ge = ">="
comparator_text le = "<="

abbrev pub is_quotient : ArithOp → Bool
is_quotient div = true
is_quotient rem = true
is_quotient op = false

abbrev pub Compiled : Type 0 → Type 0
Compiled N = Result String (Option (SqlFrag N))

abbrev pub Collected : Type 0 → Type 0
Collected N = Result String (Option (List (SqlFrag N)))

module _ {N : Type 0} where
  abbrev pub pushed : String → List (Value N) → Compiled N
  pushed sql params = ok (some (record { sql = sql; params = params }))

  -- a fragment in front of others, all of which are computed before a missing one is noticed
  abbrev pub collect : Compiled N → Collected N → Collected N
  collect (err e) rest = err e
  collect (ok f) (err e) = err e
  collect (ok none) (ok fs) = ok none
  collect (ok (some f)) (ok none) = ok none
  collect (ok (some f)) (ok (some fs)) = ok (some (f ∷ fs))

  abbrev pub with_all : Collected N → (List (SqlFrag N) → Compiled N) → Compiled N
  with_all (err e) k = err e
  with_all (ok none) k = ok none
  with_all (ok (some fs)) k = k fs

  abbrev pub with_frag : Compiled N → (SqlFrag N → Compiled N) → Compiled N
  with_frag (err e) k = err e
  with_frag (ok none) k = ok none
  with_frag (ok (some f)) k = k f

  abbrev pub with_both : Compiled N → Compiled N → (SqlFrag N → SqlFrag N → Compiled N) → Compiled N
  with_both (err e) r k = err e
  with_both (ok l) (err e) k = err e
  with_both (ok none) (ok r) k = ok none
  with_both (ok (some l)) (ok none) k = ok none
  with_both (ok (some l)) (ok (some r)) k = k l r

  abbrev pub compared : Comparator → SqlFrag N → SqlFrag N → Compiled N
  compared op l r =
      pushed (cat ("(" ∷ l.sql ∷ " " ∷ comparator_text op ∷ " " ∷ r.sql ∷ ")" ∷ []))
        (l.params ++ r.params)

  -- several conditions under one connective, none of them as a constant
  abbrev pub connected : String → String → List (SqlFrag N) → Compiled N
  connected none_of separator [] = pushed none_of []
  connected none_of separator (f ∷ fs) =
      pushed (cat ("(" ∷ join separator (sqls (f ∷ fs)) ∷ ")" ∷ [])) (params_of (f ∷ fs))

  abbrev pub case_of : SqlFrag N → SqlFrag N → SqlFrag N → Compiled N
  case_of test then_value otherwise =
      pushed
        (cat (
          "CASE WHEN " ∷ test.sql ∷ " THEN " ∷ then_value.sql ∷ " ELSE " ∷ otherwise.sql ∷ " END"
          ∷ []))
        (test.params ++ (then_value.params ++ otherwise.params))

  abbrev pub three_of : List (SqlFrag N) → Compiled N
  three_of (t ∷ a ∷ b ∷ []) = case_of t a b
  three_of fs = ok none

  abbrev pub with_three : Compiled N → Compiled N → Compiled N → Compiled N
  with_three t a b = with_all (collect t (collect a (collect b (ok (some []))))) three_of

  abbrev pub is_binary : List (SqlFrag N) → Bool
  is_binary (a ∷ b ∷ []) = true
  is_binary fs = false

  abbrev pub arith_of : (String → String) → ArithOp → List (SqlFrag N) → Compiled N
  arith_of truncate op parts =
      if is_quotient op && not (is_binary parts)
      then ok none
      else ok (some (arith_fragment truncate op parts))

  -- a `WHEN` of a switch, in front of the later ones
  abbrev pub when_of : SqlFrag N → SqlFrag N → Collected N → Collected N
  when_of w t (err e) = err e
  when_of w t (ok none) = ok none
  when_of w t (ok (some fs)) = ok (
      some (
        record {
          sql = cat ("WHEN " ∷ w.sql ∷ " THEN " ∷ t.sql ∷ []);
          params = w.params ++ t.params;
        }
        ∷ fs))

  -- the early return of the loop over the branches
  abbrev pub branch_of : Compiled N → Compiled N → Collected N → Collected N
  branch_of (err e) t rest = err e
  branch_of (ok w) (err e) rest = err e
  branch_of (ok none) (ok t) rest = ok none
  branch_of (ok (some w)) (ok none) rest = ok none
  branch_of (ok (some w)) (ok (some t)) rest = when_of w t rest

  abbrev pub switch_of : List (SqlFrag N) → SqlFrag N → Compiled N
  switch_of whens otherwise =
      pushed (cat ("CASE " ∷ join " " (sqls whens) ∷ " ELSE " ∷ otherwise.sql ∷ " END" ∷ []))
        (params_of whens ++ otherwise.params)

module _ {N : Type 0} ⦃o : Number N⦄ where
  abbrev pub literal : Value N → Compiled N
  literal (num n) = pushed (o.to_text n) []
  literal (bool true) = pushed "TRUE" []
  literal (bool false) = pushed "FALSE" []
  literal null = pushed "NULL" []
  literal v = pushed "?" (v ∷ [])

module _ {N : Type 0} ⦃o : Number N⦄ (d : Dialect) where
  -- a column whose name passes the test
  abbrev pub column_of : String → Compiled N
  column_of path = if is_ident path then (d.column path >>= λ c. pushed c []) else ok none

  unfoldable mutual
    unfolding arith_fragment neg_fragment concat_fragment coalesce_fragment is_ident

    -- `compileValue`
    pub compile_value : ValueNode N → Compiled N
    compile_value (ValueNode.field path) = column_of path
    compile_value (ValueNode.lit v) = literal v
    compile_value (ValueNode.arith op first rest) =
        with_all (collect (compile_value first) (compile_values rest)) (arith_of d.truncate op)
    compile_value (ValueNode.neg operand) =
        with_frag (compile_value operand) (λ i. ok (some (neg_fragment i)))
    compile_value (ValueNode.concat operands) =
        with_all (compile_values operands) (λ ps. ok (some (concat_fragment d.concat ps)))
    compile_value (ValueNode.coalesce operands) =
        with_all (compile_values operands) (λ ps. ok (some (coalesce_fragment ps)))
    compile_value (ValueNode.vcompare op left right) =
        with_both (compile_value left) (compile_value right) (compared op)
    compile_value (ValueNode.vand operands) =
        with_all (compile_values operands) (connected "TRUE" " AND ")
    compile_value (ValueNode.vor operands) =
        with_all (compile_values operands) (connected "FALSE" " OR ")
    compile_value (ValueNode.vnot operand) =
        with_frag (compile_value operand) (λ i. pushed (cat ("(NOT " ∷ i.sql ∷ ")" ∷ [])) i.params)
    compile_value (ValueNode.cond test then_value otherwise) =
        with_three (compile_value test) (compile_value then_value) (compile_value otherwise)
    compile_value (ValueNode.switch branches otherwise) =
        with_all (compile_branches branches)
          (λ whens. with_frag (compile_value otherwise) (switch_of whens))
    compile_value (ValueNode.datepart part operand timezone) = ok none
    compile_value (ValueNode.datestring format operand timezone) = ok none

    pub compile_values : ValueNodes N → Collected N
    compile_values ValueNodes.nil = ok (some [])
    compile_values (ValueNodes.cons node nodes) =
        collect (compile_value node) (compile_values nodes)

    pub compile_branches : NodeBranches N → Collected N
    compile_branches NodeBranches.done = ok (some [])
    compile_branches (NodeBranches.branch when_node then_node branches) =
        branch_of (compile_value when_node) (compile_value then_node) (compile_branches branches)
