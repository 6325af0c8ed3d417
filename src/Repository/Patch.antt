-- ===== src/Repository/Patch.antt =====
-- repository/patch.ts: the field mutations of a patch, applied to a record in memory.
pub mod Fields
pub mod Replay
use object_repository.Base.{
  String, Bool, true, false, not, ◌||◌, Option, none, some, List, [], ◌∷◌, ◌++◌, filter, some_elem,
  ◌==◌, if◌then◌else◌,
}
use object_repository.Base.Dict.{Dict, get, put, remove}
use object_repository.Json.{Value, null, bool, num, str, arr, obj, items, elems, JsonObject}
use object_repository.Json.Number.{Number}
use object_repository.Json.Equality.{strict_eq}
use object_repository.Json.Stringify.{stringify}
use object_repository.Json.Text.{to_number}
use object_repository.Expressions.Dates.{Calendar}
use object_repository.Expressions.Plan.{ValueNode}
use object_repository.Expressions.Values.{evaluate}
use object_repository.Expressions.Wire.{parse_value}

-- `PatchOp` of core/Backend.ts
pub data PatchOp (N : Type 0) : Type 0 where
  set : Value N → PatchOp N
  set_expr : ValueNode N → PatchOp N
  unset : PatchOp N
  inc : N → PatchOp N
  mul : N → PatchOp N
  push : List (Value N) → PatchOp N
  add_to_set : List (Value N) → PatchOp N
  pull : List (Value N) → PatchOp N

module _ {N : Type 0} ⦃o : Number N⦄ where
  -- `sameValue`: `JSON.stringify(undefined)` is no text.
  unfoldable pub same_value : Option (Value N) → Option (Value N) → Bool
  unfolding strict_eq stringify
  same_value none none = true
  same_value none (some w) = false
  same_value (some v) none = false
  same_value (some v) (some w) = strict_eq v w || stringify v == stringify w

  -- `asArray`
  abbrev pub as_array : Option (Value N) → List (Value N)
  as_array (some (arr vs)) = elems vs
  as_array v = []

  -- `toNumber`
  unfoldable pub to_finite_number : Option (Value N) → N
  unfolding to_number
  to_finite_number none = o.of_ℕ 0
  to_finite_number (some v) = if o.is_finite (to_number v) then to_number v else o.of_ℕ 0

  abbrev pub has : List (Value N) → Value N → Bool
  has vs v = some_elem (λ e. same_value (some e) (some v)) vs

  abbrev pub add_missing : List (Value N) → Value N → List (Value N)
  add_missing next v = if has next v then next else next ++ v ∷ []

  -- the loop of `addToSet`
  unfoldable pub add_all : List (Value N) → List (Value N) → List (Value N)
  add_all next [] = next
  add_all next (v ∷ vs) = add_all (add_missing next v) vs

  -- `op.values.some((value) => sameValue(e, value))`
  abbrev pub is_pulled : List (Value N) → Value N → Bool
  is_pulled vs e = some_elem (λ v. same_value (some e) (some v)) vs

module _ {N : Type 0} ⦃o : Number N⦄ ⦃c : Calendar N⦄ where
  -- one step of the loop of `applyPatch`
  unfoldable pub apply_op : JsonObject N → JsonObject N → String → PatchOp N → JsonObject N
  unfolding put remove get to_finite_number add_all evaluate parse_value
  apply_op before r field (PatchOp.set v) = put r field v
  apply_op before r field (PatchOp.set_expr e) = put r field (evaluate (parse_value e) before)
  apply_op before r field PatchOp.unset = remove r field
  apply_op before r field (PatchOp.inc by) =
      put r field (num (o.add (to_finite_number (get before field)) by))
  apply_op before r field (PatchOp.mul by) =
      put r field (num (o.mul (to_finite_number (get before field)) by))
  apply_op before r field (PatchOp.push vs) =
      put r field (arr (items (as_array (get before field) ++ vs)))
  apply_op before r field (PatchOp.add_to_set vs) =
      put r field (arr (items (add_all (as_array (get before field)) vs)))
  apply_op before r field (PatchOp.pull vs) =
      put r field (arr (items (filter (λ e. not (is_pulled vs e)) (as_array (get before field)))))

  unfoldable pub apply_ops : JsonObject N → JsonObject N → Dict (PatchOp N) → JsonObject N
  unfolding apply_op
  apply_ops before r [] = r
  apply_ops before r ((field, op) ∷ ops) = apply_ops before (apply_op before r field op) ops

  -- `applyPatch`
  unfoldable pub apply_patch : JsonObject N → Dict (PatchOp N) → JsonObject N
  unfolding apply_ops
  apply_patch r ops = apply_ops r r ops
