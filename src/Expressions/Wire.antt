-- ===== src/Expressions/Wire.antt =====
-- `serialize` of expressions/nodes.ts and expressions/values.ts, and `parse` and `parseValue` of
-- expressions/parse.ts and expressions/values.ts: the two directions of the wire form.
pub mod RoundTrip
use object_repository.Base.{String}
use object_repository.Expressions.Plan.{
  ValueNode, ValueNodes, NodeBranches, ExpressionNode, ExpressionNodes,
}
use object_repository.Expressions.Values.{ValueExpr, ValueExprs, Branches}
use object_repository.Expressions.Nodes.{Expression, Expressions}

module _ {N : Type 0} where
  unfoldable mutual
    pub serialize_value : ValueExpr N → ValueNode N
    serialize_value (ValueExpr.field path) = ValueNode.field path
    serialize_value (ValueExpr.lit v) = ValueNode.lit v
    serialize_value (ValueExpr.arith op e es) =
        ValueNode.arith op (serialize_value e) (serialize_values es)
    serialize_value (ValueExpr.neg e) = ValueNode.neg (serialize_value e)
    serialize_value (ValueExpr.concat es) = ValueNode.concat (serialize_values es)
    serialize_value (ValueExpr.coalesce es) = ValueNode.coalesce (serialize_values es)
    serialize_value (ValueExpr.vcompare op left right) =
        ValueNode.vcompare op (serialize_value left) (serialize_value right)
    serialize_value (ValueExpr.vand es) = ValueNode.vand (serialize_values es)
    serialize_value (ValueExpr.vor es) = ValueNode.vor (serialize_values es)
    serialize_value (ValueExpr.vnot e) = ValueNode.vnot (serialize_value e)
    serialize_value (ValueExpr.cond test value otherwise) =
        ValueNode.cond (serialize_value test) (serialize_value value) (serialize_value otherwise)
    serialize_value (ValueExpr.switch branches otherwise) =
        ValueNode.switch (serialize_branches branches) (serialize_value otherwise)
    serialize_value (ValueExpr.datepart part e timezone) =
        ValueNode.datepart part (serialize_value e) timezone
    serialize_value (ValueExpr.datestring format e timezone) =
        ValueNode.datestring format (serialize_value e) timezone

    pub serialize_values : ValueExprs N → ValueNodes N
    serialize_values ValueExprs.nil = ValueNodes.nil
    serialize_values (ValueExprs.cons e es) =
        ValueNodes.cons (serialize_value e) (serialize_values es)

    pub serialize_branches : Branches N → NodeBranches N
    serialize_branches Branches.done = NodeBranches.done
    serialize_branches (Branches.branch test value rest) =
        NodeBranches.branch (serialize_value test) (serialize_value value) (serialize_branches rest)

  unfoldable mutual
    unfolding serialize_value

    pub serialize : Expression N → ExpressionNode N
    serialize Expression.all = ExpressionNode.all
    serialize (Expression.compare property comparator value) =
        ExpressionNode.compare property comparator value
    serialize (Expression.in_list property vs) = ExpressionNode.in_list property vs
    serialize (Expression.nin property vs) = ExpressionNode.nin property vs
    serialize (Expression.contains property value) = ExpressionNode.contains property value
    serialize (Expression.between property lower_end upper_end) =
        ExpressionNode.between property lower_end upper_end
    serialize (Expression.exists property should_exist) =
        ExpressionNode.exists property should_exist
    serialize (Expression.is_null property negated) = ExpressionNode.is_null property negated
    serialize (Expression.size property n) = ExpressionNode.size property n
    serialize (Expression.textmatch property value mode fold) =
        ExpressionNode.textmatch property value mode fold
    serialize (Expression.expr left comparator right) =
        ExpressionNode.expr (serialize_value left) comparator (serialize_value right)
    serialize (Expression.any property predicate) =
        ExpressionNode.any property (serialize predicate)
    serialize (Expression.not e) = ExpressionNode.not (serialize e)
    serialize (Expression.and es) = ExpressionNode.and (serialize_all es)
    serialize (Expression.or es) = ExpressionNode.or (serialize_all es)

    pub serialize_all : Expressions N → ExpressionNodes N
    serialize_all Expressions.nil = ExpressionNodes.nil
    serialize_all (Expressions.cons e es) = ExpressionNodes.cons (serialize e) (serialize_all es)

  unfoldable mutual
    pub parse_value : ValueNode N → ValueExpr N
    parse_value (ValueNode.field path) = ValueExpr.field path
    parse_value (ValueNode.lit v) = ValueExpr.lit v
    parse_value (ValueNode.arith op e es) = ValueExpr.arith op (parse_value e) (parse_values es)
    parse_value (ValueNode.neg e) = ValueExpr.neg (parse_value e)
    parse_value (ValueNode.concat es) = ValueExpr.concat (parse_values es)
    parse_value (ValueNode.coalesce es) = ValueExpr.coalesce (parse_values es)
    parse_value (ValueNode.vcompare op left right) =
        ValueExpr.vcompare op (parse_value left) (parse_value right)
    parse_value (ValueNode.vand es) = ValueExpr.vand (parse_values es)
    parse_value (ValueNode.vor es) = ValueExpr.vor (parse_values es)
    parse_value (ValueNode.vnot e) = ValueExpr.vnot (parse_value e)
    parse_value (ValueNode.cond test value otherwise) =
        ValueExpr.cond (parse_value test) (parse_value value) (parse_value otherwise)
    parse_value (ValueNode.switch branches otherwise) =
        ValueExpr.switch (parse_branches branches) (parse_value otherwise)
    parse_value (ValueNode.datepart part e timezone) =
        ValueExpr.datepart part (parse_value e) timezone
    parse_value (ValueNode.datestring format e timezone) =
        ValueExpr.datestring format (parse_value e) timezone

    pub parse_values : ValueNodes N → ValueExprs N
    parse_values ValueNodes.nil = ValueExprs.nil
    parse_values (ValueNodes.cons e es) = ValueExprs.cons (parse_value e) (parse_values es)

    pub parse_branches : NodeBranches N → Branches N
    parse_branches NodeBranches.done = Branches.done
    parse_branches (NodeBranches.branch test value rest) =
        Branches.branch (parse_value test) (parse_value value) (parse_branches rest)

  unfoldable mutual
    unfolding parse_value

    pub parse : ExpressionNode N → Expression N
    parse ExpressionNode.all = Expression.all
    parse (ExpressionNode.compare property comparator value) =
        Expression.compare property comparator value
    parse (ExpressionNode.in_list property vs) = Expression.in_list property vs
    parse (ExpressionNode.nin property vs) = Expression.nin property vs
    parse (ExpressionNode.contains property value) = Expression.contains property value
    parse (ExpressionNode.between property lower_end upper_end) =
        Expression.between property lower_end upper_end
    parse (ExpressionNode.exists property should_exist) = Expression.exists property should_exist
    parse (ExpressionNode.is_null property negated) = Expression.is_null property negated
    parse (ExpressionNode.size property n) = Expression.size property n
    parse (ExpressionNode.textmatch property value mode fold) =
        Expression.textmatch property value mode fold
    parse (ExpressionNode.expr left comparator right) =
        Expression.expr (parse_value left) comparator (parse_value right)
    parse (ExpressionNode.any property predicate) = Expression.any property (parse predicate)
    parse (ExpressionNode.not e) = Expression.not (parse e)
    parse (ExpressionNode.and es) = Expression.and (parse_all es)
    parse (ExpressionNode.or es) = Expression.or (parse_all es)

    pub parse_all : ExpressionNodes N → Expressions N
    parse_all ExpressionNodes.nil = Expressions.nil
    parse_all (ExpressionNodes.cons e es) = Expressions.cons (parse e) (parse_all es)
