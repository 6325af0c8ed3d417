-- ===== src/Repository/Projection.antt =====
-- `valueFieldPaths` and `neededFields` of repository/projection.ts: what a projection has a backend load.
pub mod Pushdown
use mathlib.Core.List.{foldl}
use object_repository.Base.{String, List, [], ◌∷◌, ◌++◌}
use object_repository.Base.Names.{add}
use object_repository.Expressions.Path.{split_dot}
use object_repository.Expressions.Plan.{ValueNode, ValueNodes}
use object_repository.Expressions.Values.{ValueExpr}
use object_repository.Expressions.Wire.{serialize_value}

mutual
  -- `Selection`: the entries of the object in order
  pub data Selection (N : Type 0) : Type 0 where
    done : Selection N
    entry : String → Choice N → Selection N → Selection N

  pub data Choice (N : Type 0) : Type 0 where
    whole : Choice N
    computed : ValueExpr N → Choice N
    nested : Selection N → Choice N

abbrev pub first_of : List String → String
first_of [] = ""
first_of (w ∷ ws) = w

-- `path.split(".")[0]`
abbrev pub top_field : String → String
top_field path = first_of (split_dot path)

module _ {N : Type 0} where
  unfoldable mutual
    -- `walk`: the paths that a node adds
    pub walk_node : ValueNode N → List String
    walk_node (ValueNode.field path) = path ∷ []
    walk_node (ValueNode.arith op e es) = walk_node e ++ walk_nodes es
    walk_node (ValueNode.concat es) = walk_nodes es
    walk_node (ValueNode.coalesce es) = walk_nodes es
    walk_node (ValueNode.neg e) = walk_node e
    walk_node _ = []

    pub walk_nodes : ValueNodes N → List String
    walk_nodes ValueNodes.nil = []
    walk_nodes (ValueNodes.cons e es) = walk_node e ++ walk_nodes es

  -- `valueFieldPaths`
  unfoldable pub value_field_paths : ValueExpr N → List String
  unfolding walk_node serialize_value
  value_field_paths e = walk_node (serialize_value e)

  abbrev pub add_fields : List String → String → Choice N → List String
  add_fields fields name (Choice.computed e) =
      foldl (λ fs path. add fs (top_field path)) fields (value_field_paths e)
  add_fields fields name Choice.whole = add fields name
  add_fields fields name (Choice.nested selection) = add fields name

  abbrev pub collect : List String → Selection N → List String
  collect fields Selection.done = fields
  collect fields (Selection.entry name choice rest) = collect (add_fields fields name choice) rest

  -- `neededFields`
  unfoldable pub needed_fields : Selection N → List String
  unfolding value_field_paths split_dot
  needed_fields selection = collect [] selection
