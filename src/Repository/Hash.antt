-- ===== src/Repository/Hash.antt =====
-- `planHash` of repository/Repository.ts: the JSON text of a plan's filter, order and page. A filter is
-- written as its classes serialize it, in their order of members; a member that is undefined is
-- left out.
use object_repository.Base.{ℕ, String, Option, none, some, [], ◌∷◌, map}
use object_repository.Json.{Value, bool, num, str, arr, obj, items, Items, fields, JsonObject}
use object_repository.Json.Number.{Number}
use object_repository.Json.Stringify.{stringify}
use object_repository.Expressions.Compare.{Comparator}
use object_repository.Expressions.Plan.{
  ArithOp, DatePart, TextMode, ValueNode, ValueNodes, NodeBranches, ExpressionNode, ExpressionNodes,
  SortKey, Paging, QueryPlan,
}

abbrev comparator_name : Comparator → String
comparator_name Comparator.eq = "="
comparator_name Comparator.ne = "!="
comparator_name Comparator.gt = ">"
comparator_name Comparator.lt = "<"
comparator_name Comparator.ge = ">="
comparator_name Comparator.le = "<="

abbrev arith_name : ArithOp → String
arith_name ArithOp.add = "+"
arith_name ArithOp.sub = "-"
arith_name ArithOp.mul = "*"
arith_name ArithOp.div = "/"
arith_name ArithOp.rem = "%"

abbrev part_name : DatePart → String
part_name DatePart.year = "year"
part_name DatePart.month = "month"
part_name DatePart.day_of_month = "dayOfMonth"
part_name DatePart.day_of_week = "dayOfWeek"
part_name DatePart.hour = "hour"
part_name DatePart.minute = "minute"
part_name DatePart.second = "second"

abbrev mode_name : TextMode → String
mode_name TextMode.prefix = "prefix"
mode_name TextMode.suffix = "suffix"
mode_name TextMode.substring = "substring"

module _ {N : Type 0} where
  -- an object with a `type` and other members
  abbrev tagged : String → JsonObject N → Value N
  tagged tag members = obj (fields (("type", str tag) ∷ members))

  abbrev timezone_member : Option String → JsonObject N
  timezone_member none = []
  timezone_member (some zone) = ("timezone", str zone) ∷ []

  unfoldable mutual
    pub value_json : ValueNode N → Value N
    value_json (ValueNode.field path) = tagged "field" (("path", str path) ∷ [])
    value_json (ValueNode.lit v) = tagged "lit" (("value", v) ∷ [])
    value_json (ValueNode.arith op first rest) = tagged "arith" (
        ("op", str (arith_name op))
        ∷ ("operands", arr (Items.cons (value_json first) (value_items rest)))
        ∷ [])
    value_json (ValueNode.neg v) = tagged "neg" (("operand", value_json v) ∷ [])
    value_json (ValueNode.concat vs) = tagged "concat" (("operands", arr (value_items vs)) ∷ [])
    value_json (ValueNode.coalesce vs) = tagged "coalesce" (("operands", arr (value_items vs)) ∷ [])
    value_json (ValueNode.vcompare op v w) =
        tagged "vcompare"
          (("op", str (comparator_name op)) ∷ ("left", value_json v) ∷ ("right", value_json w) ∷ [])
    value_json (ValueNode.vand vs) = tagged "vand" (("operands", arr (value_items vs)) ∷ [])
    value_json (ValueNode.vor vs) = tagged "vor" (("operands", arr (value_items vs)) ∷ [])
    value_json (ValueNode.vnot v) = tagged "vnot" (("operand", value_json v) ∷ [])
    value_json (ValueNode.cond test v w) =
        tagged "cond"
          (("test", value_json test) ∷ ("then", value_json v) ∷ ("otherwise", value_json w) ∷ [])
    value_json (ValueNode.switch branches otherwise) =
        tagged "switch"
          (("branches", arr (branch_items branches)) ∷ ("otherwise", value_json otherwise) ∷ [])
    value_json (ValueNode.datepart part v zone) =
        tagged "datepart"
          (("part", str (part_name part)) ∷ ("operand", value_json v) ∷ timezone_member zone)
    value_json (ValueNode.datestring format v zone) =
        tagged "datestring"
          (("format", str format) ∷ ("operand", value_json v) ∷ timezone_member zone)

    pub value_items : ValueNodes N → Items N
    value_items ValueNodes.nil = Items.nil
    value_items (ValueNodes.cons v vs) = Items.cons (value_json v) (value_items vs)

    pub branch_items : NodeBranches N → Items N
    branch_items NodeBranches.done = Items.nil
    branch_items (NodeBranches.branch test v rest) =
        Items.cons (obj (fields (("when", value_json test) ∷ ("then", value_json v) ∷ [])))
          (branch_items rest)

  unfoldable mutual
    unfolding value_json

    pub node_json : ExpressionNode N → Value N
    node_json ExpressionNode.all = tagged "all" []
    node_json (ExpressionNode.compare p c v) =
        tagged "compare"
          (("property", str p) ∷ ("comparator", str (comparator_name c)) ∷ ("value", v) ∷ [])
    node_json (ExpressionNode.in_list p vs) =
        tagged "in" (("property", str p) ∷ ("values", arr (items vs)) ∷ [])
    node_json (ExpressionNode.nin p vs) =
        tagged "nin" (("property", str p) ∷ ("values", arr (items vs)) ∷ [])
    node_json (ExpressionNode.contains p v) =
        tagged "contains" (("property", str p) ∷ ("value", v) ∷ [])
    node_json (ExpressionNode.between p v w) =
        tagged "between" (("property", str p) ∷ ("lowerEnd", v) ∷ ("upperEnd", w) ∷ [])
    node_json (ExpressionNode.exists p b) =
        tagged "exists" (("property", str p) ∷ ("shouldExist", bool b) ∷ [])
    node_json (ExpressionNode.is_null p b) =
        tagged "isNull" (("property", str p) ∷ ("negated", bool b) ∷ [])
    node_json (ExpressionNode.size p n) =
        tagged "size" (("property", str p) ∷ ("length", num n) ∷ [])
    node_json (ExpressionNode.textmatch p s mode insensitive) = tagged "textmatch" (
        ("property", str p)
        ∷ ("value", str s)
        ∷ ("mode", str (mode_name mode))
        ∷ ("caseInsensitive", bool insensitive)
        ∷ [])
    node_json (ExpressionNode.expr v c w) = tagged "expr" (
        ("left", value_json v)
        ∷ ("comparator", str (comparator_name c))
        ∷ ("right", value_json w)
        ∷ [])
    node_json (ExpressionNode.any p e) =
        tagged "any" (("property", str p) ∷ ("predicate", node_json e) ∷ [])
    node_json (ExpressionNode.not e) = tagged "not" (("expression", node_json e) ∷ [])
    node_json (ExpressionNode.and es) = tagged "and" (("expressions", arr (node_items es)) ∷ [])
    node_json (ExpressionNode.or es) = tagged "or" (("expressions", arr (node_items es)) ∷ [])

    pub node_items : ExpressionNodes N → Items N
    node_items ExpressionNodes.nil = Items.nil
    node_items (ExpressionNodes.cons e es) = Items.cons (node_json e) (node_items es)

abbrev key_json : {N : Type 0} → SortKey → Value N
key_json key =
    obj (fields (("property", str key.property) ∷ ("descending", bool key.descending) ∷ []))

module _ {N : Type 0} ⦃o : Number N⦄ where
  abbrev stop_member : Option ℕ → JsonObject N
  stop_member none = []
  stop_member (some stop) = ("end", num (o.of_ℕ stop)) ∷ []

  abbrev paging_json : Paging → Value N
  paging_json paging = obj (fields (("start", num (o.of_ℕ paging.start)) ∷ stop_member paging.stop))

  -- `planHash(plan)`
  unfoldable pub plan_hash : QueryPlan N → String
  unfolding node_json stringify
  plan_hash plan = stringify (
      obj (
        fields (
          ("where", node_json plan.condition)
          ∷ ("order", arr (items (map key_json plan.order)))
          ∷ ("paging", paging_json plan.paging)
          ∷ [])))
