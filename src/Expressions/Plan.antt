-- ===== src/Expressions/Plan.antt =====
-- core/QueryPlan.ts and the plan types of core/types.ts: what crosses a transport. A list of nodes
-- inside a node is a type of its own. `arith` has at least one operand (`reduce` throws on none).
use object_repository.Base.{ℕ, String, Bool, Option, List}
use object_repository.Json.{Value}
use object_repository.Expressions.Compare.{Comparator}

pub data ArithOp : Type 0 where
  add sub mul div rem : ArithOp

pub data DatePart : Type 0 where
  year month day_of_month day_of_week hour minute second : DatePart

pub data TextMode : Type 0 where
  prefix suffix substring : TextMode

mutual
  pub data ValueNode (N : Type 0) : Type 0 where
    field : String → ValueNode N
    lit : Value N → ValueNode N
    arith : ArithOp → ValueNode N → ValueNodes N → ValueNode N
    neg : ValueNode N → ValueNode N
    concat : ValueNodes N → ValueNode N
    coalesce : ValueNodes N → ValueNode N
    vcompare : Comparator → ValueNode N → ValueNode N → ValueNode N
    vand : ValueNodes N → ValueNode N
    vor : ValueNodes N → ValueNode N
    vnot : ValueNode N → ValueNode N
    cond : ValueNode N → ValueNode N → ValueNode N → ValueNode N
    switch : NodeBranches N → ValueNode N → ValueNode N
    datepart : DatePart → ValueNode N → Option String → ValueNode N
    datestring : String → ValueNode N → Option String → ValueNode N

  pub data ValueNodes (N : Type 0) : Type 0 where
    nil : ValueNodes N
    cons : ValueNode N → ValueNodes N → ValueNodes N

  pub data NodeBranches (N : Type 0) : Type 0 where
    done : NodeBranches N
    branch : ValueNode N → ValueNode N → NodeBranches N → NodeBranches N

mutual
  pub data ExpressionNode (N : Type 0) : Type 0 where
    all : ExpressionNode N
    compare : String → Comparator → Value N → ExpressionNode N
    in_list : String → List (Value N) → ExpressionNode N
    nin : String → List (Value N) → ExpressionNode N
    contains : String → Value N → ExpressionNode N
    between : String → Value N → Value N → ExpressionNode N
    exists : String → Bool → ExpressionNode N
    is_null : String → Bool → ExpressionNode N
    size : String → N → ExpressionNode N
    textmatch : String → String → TextMode → Bool → ExpressionNode N
    expr : ValueNode N → Comparator → ValueNode N → ExpressionNode N
    any : String → ExpressionNode N → ExpressionNode N
    not : ExpressionNode N → ExpressionNode N
    and : ExpressionNodes N → ExpressionNode N
    or : ExpressionNodes N → ExpressionNode N

  pub data ExpressionNodes (N : Type 0) : Type 0 where
    nil : ExpressionNodes N
    cons : ExpressionNode N → ExpressionNodes N → ExpressionNodes N

pub record SortKey : Type 0 where
  pub property : String
  pub descending : Bool

-- `start` inclusive, `stop` exclusive, with no `stop` to the end. (Negative offsets are left out.)
pub record Paging : Type 0 where
  pub start : ℕ
  pub stop : Option ℕ

pub record QueryPlan (N : Type 0) : Type 0 where
  pub model : String
  pub condition : ExpressionNode N
  pub order : List SortKey
  pub paging : Paging
  pub project : Option (List String)

pub data AggregateOp : Type 0 where
  count count_distinct sum avg min max : AggregateOp

pub record AggregateStage (N : Type 0) : Type 0 where
  pub name : String
  pub op : AggregateOp
  pub value : Option (ValueNode N)

pub record AggregatePlan (N : Type 0) : Type 0 where
  pub model : String
  pub condition : ExpressionNode N
  pub group_by : List (ValueNode N)
  pub aggregates : List (AggregateStage N)

pub data WindowFnKind : Type 0 where
  row_number rank dense_rank : WindowFnKind

pub record WindowFn : Type 0 where
  pub name : String
  pub kind : WindowFnKind

pub record WindowPlan (N : Type 0) : Type 0 where
  pub model : String
  pub condition : ExpressionNode N
  pub partition_by : List (ValueNode N)
  pub order : List SortKey
  pub functions : List WindowFn
