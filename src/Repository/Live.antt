-- ===== src/Repository/Live.antt =====
-- repository/Repository.ts: the filter that hides soft-deleted records from every read, and the test that
-- decides which live queries a change wakes.
pub mod Relevance
use object_repository.Base.{String, Bool, true, false, ◌&&◌, ◌||◌, Option, none, some}
use object_repository.Json.{JsonObject}
use object_repository.Json.Number.{Number}
use object_repository.Expressions.Dates.{Calendar}
use object_repository.Expressions.Nodes.{Expression, matches}
use object_repository.Expressions.Plan.{ExpressionNode, ExpressionNodes}

module _ {N : Type 0} where
  abbrev both : ExpressionNode N → ExpressionNode N → ExpressionNode N
  both ExpressionNode.all live = live
  both condition live =
      ExpressionNode.and
        (ExpressionNodes.cons condition (ExpressionNodes.cons live ExpressionNodes.nil))

  -- `liveWhere`: the field of the marker is none where the model has no soft delete.
  unfoldable pub live_where : Option String → ExpressionNode N → Bool → ExpressionNode N
  live_where none condition include_deleted = condition
  live_where (some marker) condition true = condition
  live_where (some marker) condition false = both condition (ExpressionNode.is_null marker false)

module _ {N : Type 0} ⦃o : Number N⦄ ⦃c : Calendar N⦄ where
  abbrev pub matched : Expression N → Option (JsonObject N) → Bool
  unfolding matches
  matched matcher none = false
  matched matcher (some r) = matches matcher r

  -- `changeAffects(matcher, previous, next)`
  unfoldable pub change_affects :
      Option (Expression N) → Option (JsonObject N) → Option (JsonObject N) → Bool
  unfolding matched
  change_affects none previous next = true
  change_affects (some matcher) previous next = matched matcher next || matched matcher previous
