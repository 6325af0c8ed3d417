-- ===== src/Expressions/Compare.antt =====
-- `compareJson` and `relate` of expressions/nodes.ts, on which filters and value expressions agree.
pub mod Order
use object_repository.Base.{
  ◌≡◌, ◌≢◌, refl, Bool, true, false, ◌||◌, Option, none, some, String, arith, if◌then◌else◌,
}
use object_repository.Base.{not as invert}
use object_repository.Json.{
  Value, null, bool, num, str, arr, obj, is_nullish, type_of, TypeTag, undefined, boolean, number,
  string, object,
}
use object_repository.Json.Number.{Number}
use object_repository.Json.Equality.{strict_eq, eq_value}
use object_repository.Json.Text.{less}

-- "=", "!=", ">", "<", ">=", "<="
pub data Comparator : Type 0 where
  eq ne gt lt ge le : Comparator

-- the result of `relate`: NaN, -1, 0 or 1
pub data Relation : Type 0 where
  unordered below same above : Relation

abbrev pub is_above : Relation → Bool
is_above above = true
is_above _ = false

abbrev pub is_below : Relation → Bool
is_below below = true
is_below _ = false

abbrev pub same_tag : TypeTag → TypeTag → Bool
same_tag undefined undefined = true
same_tag boolean boolean = true
same_tag number number = true
same_tag string string = true
same_tag object object = true
same_tag _ _ = false

module _ {N : Type 0} ⦃o : Number N⦄ where
  -- the tests of `relate` once both sides are present and of one type
  abbrev order : Value N → Value N → Relation
  order v w = if strict_eq v w then same else if less v w then below else above

  unfoldable pub relate : Option (Value N) → Value N → Relation
  unfolding strict_eq
  relate none w = unordered
  relate (some v) w =
      if is_nullish (some v) || is_nullish (some w)
      then unordered
      else if invert (same_tag (type_of (some v)) (type_of (some w)))
      then unordered
      else order v w

  unfoldable pub compare_json : Option (Value N) → Comparator → Value N → Bool
  unfolding relate
  compare_json left eq right = eq_value left right
  compare_json left ne right = invert (eq_value left right)
  compare_json left gt right = is_above (relate left right)
  compare_json left lt right = is_below (relate left right)
  compare_json left ge right = eq_value left right || is_above (relate left right)
  compare_json left le right = eq_value left right || is_below (relate left right)
