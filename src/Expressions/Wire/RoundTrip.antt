-- ===== src/Expressions/Wire/RoundTrip.antt =====
-- `parse` and `serialize` are inverse to one another.
use object_repository.Base.{◌≡◌, refl}
use object_repository.Expressions.Plan.{
  ValueNode, ValueNodes, NodeBranches, ExpressionNode, ExpressionNodes,
}
use object_repository.Expressions.Values.{ValueExpr, ValueExprs, Branches}
use object_repository.Expressions.Nodes.{Expression, Expressions}
use object_repository.Expressions.Wire.{
  serialize, serialize_all, serialize_value, serialize_values, serialize_branches, parse, parse_all,
  parse_value, parse_values, parse_branches,
}

module _ {N : Type 0} where
  mutual
    unfolding serialize_value parse_value

    pub parse-serialize_value : (e : ValueExpr N) → parse_value (serialize_value e) ≡ e
    parse-serialize_value (ValueExpr.field path) = refl
    parse-serialize_value (ValueExpr.lit v) = refl
    parse-serialize_value (ValueExpr.arith op e es) =
        cc (parse-serialize_value e, parse-serialize_values es)
    parse-serialize_value (ValueExpr.neg e) = cc (parse-serialize_value e)
    parse-serialize_value (ValueExpr.concat es) = cc (parse-serialize_values es)
    parse-serialize_value (ValueExpr.coalesce es) = cc (parse-serialize_values es)
    parse-serialize_value (ValueExpr.vcompare op left right) =
        cc (parse-serialize_value left, parse-serialize_value right)
    parse-serialize_value (ValueExpr.vand es) = cc (parse-serialize_values es)
    parse-serialize_value (ValueExpr.vor es) = cc (parse-serialize_values es)
    parse-serialize_value (ValueExpr.vnot e) = cc (parse-serialize_value e)
    parse-serialize_value (ValueExpr.cond test value otherwise) =
        cc
          (parse-serialize_value test, parse-serialize_value value, parse-serialize_value otherwise)
    parse-serialize_value (ValueExpr.switch branches otherwise) =
        cc (parse-serialize_branches branches, parse-serialize_value otherwise)
    parse-serialize_value (ValueExpr.datepart part e timezone) = cc (parse-serialize_value e)
    parse-serialize_value (ValueExpr.datestring format e timezone) = cc (parse-serialize_value e)

    pub parse-serialize_values : (es : ValueExprs N) → parse_values (serialize_values es) ≡ es
    parse-serialize_values ValueExprs.nil = refl
    parse-serialize_values (ValueExprs.cons e es) =
        cc (parse-serialize_value e, parse-serialize_values es)

    pub parse-serialize_branches : (bs : Branches N) → parse_branches (serialize_branches bs) ≡ bs
    parse-serialize_branches Branches.done = refl
    parse-serialize_branches (Branches.branch test value rest) =
        cc (parse-serialize_value test, parse-serialize_value value, parse-serialize_branches rest)

  mutual
    unfolding serialize parse

    parse-serialize_lem : (e : Expression N) → parse (serialize e) ≡ e
    parse-serialize_lem Expression.all = refl
    parse-serialize_lem (Expression.compare property comparator value) = refl
    parse-serialize_lem (Expression.in_list property vs) = refl
    parse-serialize_lem (Expression.nin property vs) = refl
    parse-serialize_lem (Expression.contains property value) = refl
    parse-serialize_lem (Expression.between property lower_end upper_end) = refl
    parse-serialize_lem (Expression.exists property should_exist) = refl
    parse-serialize_lem (Expression.is_null property negated) = refl
    parse-serialize_lem (Expression.size property n) = refl
    parse-serialize_lem (Expression.textmatch property value mode fold) = refl
    parse-serialize_lem (Expression.expr left comparator right) =
        cc (parse-serialize_value left, parse-serialize_value right)
    parse-serialize_lem (Expression.any property predicate) = cc (parse-serialize_lem predicate)
    parse-serialize_lem (Expression.not e) = cc (parse-serialize_lem e)
    parse-serialize_lem (Expression.and es) = cc (parse-serialize_all es)
    parse-serialize_lem (Expression.or es) = cc (parse-serialize_all es)

    parse-serialize_all : (es : Expressions N) → parse_all (serialize_all es) ≡ es
    parse-serialize_all Expressions.nil = refl
    parse-serialize_all (Expressions.cons e es) = cc (parse-serialize_lem e, parse-serialize_all es)

  mutual
    unfolding serialize_value parse_value

    pub serialize-parse_value : (e : ValueNode N) → serialize_value (parse_value e) ≡ e
    serialize-parse_value (ValueNode.field path) = refl
    serialize-parse_value (ValueNode.lit v) = refl
    serialize-parse_value (ValueNode.arith op e es) =
        cc (serialize-parse_value e, serialize-parse_values es)
    serialize-parse_value (ValueNode.neg e) = cc (serialize-parse_value e)
    serialize-parse_value (ValueNode.concat es) = cc (serialize-parse_values es)
    serialize-parse_value (ValueNode.coalesce es) = cc (serialize-parse_values es)
    serialize-parse_value (ValueNode.vcompare op left right) =
        cc (serialize-parse_value left, serialize-parse_value right)
    serialize-parse_value (ValueNode.vand es) = cc (serialize-parse_values es)
    serialize-parse_value (ValueNode.vor es) = cc (serialize-parse_values es)
    serialize-parse_value (ValueNode.vnot e) = cc (serialize-parse_value e)
    serialize-parse_value (ValueNode.cond test value otherwise) =
        cc
          (serialize-parse_value test, serialize-parse_value value, serialize-parse_value otherwise)
    serialize-parse_value (ValueNode.switch branches otherwise) =
        cc (serialize-parse_branches branches, serialize-parse_value otherwise)
    serialize-parse_value (ValueNode.datepart part e timezone) = cc (serialize-parse_value e)
    serialize-parse_value (ValueNode.datestring format e timezone) = cc (serialize-parse_value e)

    pub serialize-parse_values : (es : ValueNodes N) → serialize_values (parse_values es) ≡ es
    serialize-parse_values ValueNodes.nil = refl
    serialize-parse_values (ValueNodes.cons e es) =
        cc (serialize-parse_value e, serialize-parse_values es)

    pub serialize-parse_branches :
        (bs : NodeBranches N) → serialize_branches (parse_branches bs) ≡ bs
    serialize-parse_branches NodeBranches.done = refl
    serialize-parse_branches (NodeBranches.branch test value rest) =
        cc (serialize-parse_value test, serialize-parse_value value, serialize-parse_branches rest)

  mutual
    unfolding serialize parse

    serialize-parse_lem : (e : ExpressionNode N) → serialize (parse e) ≡ e
    serialize-parse_lem ExpressionNode.all = refl
    serialize-parse_lem (ExpressionNode.compare property comparator value) = refl
    serialize-parse_lem (ExpressionNode.in_list property vs) = refl
    serialize-parse_lem (ExpressionNode.nin property vs) = refl
    serialize-parse_lem (ExpressionNode.contains property value) = refl
    serialize-parse_lem (ExpressionNode.between property lower_end upper_end) = refl
    serialize-parse_lem (ExpressionNode.exists property should_exist) = refl
    serialize-parse_lem (ExpressionNode.is_null property negated) = refl
    serialize-parse_lem (ExpressionNode.size property n) = refl
    serialize-parse_lem (ExpressionNode.textmatch property value mode fold) = refl
    serialize-parse_lem (ExpressionNode.expr left comparator right) =
        cc (serialize-parse_value left, serialize-parse_value right)
    serialize-parse_lem (ExpressionNode.any property predicate) = cc (serialize-parse_lem predicate)
    serialize-parse_lem (ExpressionNode.not e) = cc (serialize-parse_lem e)
    serialize-parse_lem (ExpressionNode.and es) = cc (serialize-parse_all es)
    serialize-parse_lem (ExpressionNode.or es) = cc (serialize-parse_all es)

    serialize-parse_all : (es : ExpressionNodes N) → serialize_all (parse_all es) ≡ es
    serialize-parse_all ExpressionNodes.nil = refl
    serialize-parse_all (ExpressionNodes.cons e es) =
        cc (serialize-parse_lem e, serialize-parse_all es)

  -- A filter that is serialized and parsed again is the same filter, and so is a node that is parsed
  -- and serialized again.
  pub wire_round_trip :
      (e : Expression N) (n : ExpressionNode N)
      → (parse (serialize e) ≡ e) × (serialize (parse n) ≡ n)
  wire_round_trip e n = (parse-serialize_lem e, serialize-parse_lem n)

  pub parse-serialize : (e : Expression N) → parse (serialize e) ≡ e
  parse-serialize e = parse-serialize_lem e
