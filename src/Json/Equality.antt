-- ===== src/Json/Equality.antt =====
-- `===` on JSON values.
use object_repository.Base.{Bool, true, false, ◌==◌, Option, none, some}
use object_repository.Json.{Value, null, bool, num, str}
use object_repository.Json.Number.{Number}

abbrev pub bool_eq : Bool → Bool → Bool
bool_eq true b = b
bool_eq false true = false
bool_eq false false = true

module _ {N : Type 0} ⦃o : Number N⦄ where
  -- `===`. Arrays and objects are compared by identity: the two sides of a comparison come from
  -- different documents, so two of them are never one object.
  unfoldable pub strict_eq : Value N → Value N → Bool
  strict_eq null null = true
  strict_eq (bool a) (bool b) = bool_eq a b
  strict_eq (num a) (num b) = o.eq a b
  strict_eq (str a) (str b) = a == b
  strict_eq _ _ = false

  -- `===` where the left side may be `undefined`
  abbrev pub eq_value : Option (Value N) → Value N → Bool
  eq_value none w = false
  eq_value (some v) w = strict_eq v w
