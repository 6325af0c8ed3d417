-- ===== src/Repository/Patch/Fields.antt =====
-- What a patch leaves in each field of a record (repository/patch.ts).
use object_repository.Base.{
  String, ◌≡◌, refl, ◌∙◌, true, false, not, Option, none, some, [], ◌∷◌, ◌++◌, filter, arith,
  eq_iff, eq_refl, ◌==◌, if◌then◌else◌,
}
use object_repository.Base.Dict.{Dict, get, keys, get-put, get-remove}
use object_repository.Base.Names.{member, get-absent}
use object_repository.Json.{Value, arr, num, items, JsonObject}
use object_repository.Json.Number.{Number}
use object_repository.Json.Stringify.{stringify}
use object_repository.Expressions.Dates.{Calendar}
use object_repository.Expressions.Values.{evaluate}
use object_repository.Expressions.Wire.{parse_value}
use object_repository.Repository.Patch.{
  PatchOp, same_value, as_array, to_finite_number, add_all, is_pulled, apply_op, apply_ops,
  apply_patch,
}

-- The ops of a patch are one for each field.
abbrev pub IsSpec : {N : Type 0} → Dict (PatchOp N) → Type 0
IsSpec [] = Unit
IsSpec ((field, op) ∷ ops) = (member field (keys ops) ≡ false) × IsSpec ops

pub same_value_refl : {N : Type 0} ⦃o : Number N⦄ (v : Option (Value N)) → same_value v v ≡ true
unfolding same_value
same_value_refl none = refl
same_value_refl (some v) = ground (arith, eq_refl (stringify v))

module _ {N : Type 0} ⦃o : Number N⦄ ⦃c : Calendar N⦄ where
  -- The value of a field that an op makes of a record: none where it removes the field.
  abbrev pub patched : JsonObject N → String → PatchOp N → Option (Value N)
  patched r field (PatchOp.set v) = some v
  patched r field (PatchOp.set_expr e) = some (evaluate (parse_value e) r)
  patched r field PatchOp.unset = none
  patched r field (PatchOp.inc by) = some (num (o.add (to_finite_number (get r field)) by))
  patched r field (PatchOp.mul by) = some (num (o.mul (to_finite_number (get r field)) by))
  patched r field (PatchOp.push vs) = some (arr (items (as_array (get r field) ++ vs)))
  patched r field (PatchOp.add_to_set vs) = some (arr (items (add_all (as_array (get r field)) vs)))
  patched r field (PatchOp.pull vs) =
      some (arr (items (filter (λ e. not (is_pulled vs e)) (as_array (get r field)))))

  get-apply_op :
      (before r : JsonObject N) (field : String) (op : PatchOp N) (k : String)
      → get (apply_op before r field op) k
        ≡ (if field == k then patched before field op else get r k)
  unfolding apply_op
  get-apply_op before r field (PatchOp.set v) k = get-put r field k v
  get-apply_op before r field (PatchOp.set_expr e) k = get-put r field k _
  get-apply_op before r field PatchOp.unset k = get-remove r field k
  get-apply_op before r field (PatchOp.inc by) k = get-put r field k _
  get-apply_op before r field (PatchOp.mul by) k = get-put r field k _
  get-apply_op before r field (PatchOp.push vs) k = get-put r field k _
  get-apply_op before r field (PatchOp.add_to_set vs) k = get-put r field k _
  get-apply_op before r field (PatchOp.pull vs) k = get-put r field k _

  abbrev pub patched_or :
      JsonObject N → JsonObject N → String → Option (PatchOp N) → Option (Value N)
  patched_or before r k none = get r k
  patched_or before r k (some op) = patched before k op

  get-apply_ops :
      (before r : JsonObject N) (ops : Dict (PatchOp N)) (k : String)
      → IsSpec ops
      → get (apply_ops before r ops) k ≡ patched_or before r k (get ops k)
  unfolding apply_ops get
  get-apply_ops before r [] k h = refl
  get-apply_ops before r ((field, op) ∷ ops) k h = ground (
    arith,
    get-apply_ops before (apply_op before r field op) ops k h.1,
    get-apply_op before r field op k,
    eq_iff field k,
    get-absent ops field h.0,
  )

  -- Every field of a patched record depends only on the record before the patch and on the field's own
  -- op, so neither the order of the ops nor what the other ops wrote matters, and a field without an op
  -- keeps its value: if the patch has one op for each field that it names.
  pub get-apply_patch :
      (r : JsonObject N) (ops : Dict (PatchOp N)) (k : String)
      → IsSpec ops
      → get (apply_patch r ops) k ≡ elim (get ops k) [ none ↦ get r k | some op ↦ patched r k op ]
  unfolding apply_patch
  get-apply_patch r ops k h = get-apply_ops r r ops k h ∙ by_op (get ops k)
    where
      by_op :
          (op : Option (PatchOp N))
          → patched_or r r k op ≡ elim op [ none ↦ get r k | some op ↦ patched r k op ]
      by_op none = refl
      by_op (some op) = refl
