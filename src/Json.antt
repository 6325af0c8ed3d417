-- ===== src/Json.antt =====
-- core/types.ts: `JsonValue` and `JsonObject`. A number is a value of a type `N` with the operations
-- of `Json/Number.antt`. A value that may be `undefined` is an `Option`.
pub mod Number
pub mod Equality
pub mod Text
pub mod Stringify
use object_repository.Base.{String, Bool, List, [], ◌∷◌, ◌≡◌, refl, ap, Option, none, some}
use object_repository.Base.Dict.{Dict}

mutual
  pub data Value (N : Type 0) : Type 0 where
    null : Value N
    bool : Bool → Value N
    num : N → Value N
    str : String → Value N
    arr : Items N → Value N
    obj : Fields N → Value N

  pub data Items (N : Type 0) : Type 0 where
    nil : Items N
    cons : Value N → Items N → Items N

  pub data Fields (N : Type 0) : Type 0 where
    end : Fields N
    field : String → Value N → Fields N → Fields N

abbrev pub JsonObject : Type 0 → Type 0
JsonObject N = Dict (Value N)

module _ {N : Type 0} where
  abbrev pub elems : Items N → List (Value N)
  elems nil = []
  elems (cons v vs) = v ∷ elems vs

  abbrev pub items : List (Value N) → Items N
  items [] = nil
  items (v ∷ vs) = cons v (items vs)

  abbrev pub entries : Fields N → JsonObject N
  entries end = []
  entries (field k v fs) = (k, v) ∷ entries fs

  abbrev pub fields : JsonObject N → Fields N
  fields [] = end
  fields ((k, v) ∷ d) = field k v (fields d)

  pub elems-items : (vs : List (Value N)) → elems (items vs) ≡ vs
  elems-items [] = refl
  elems-items (v ∷ vs) = ap (◌∷◌ v) (elems-items vs)

  pub entries-fields : (d : JsonObject N) → entries (fields d) ≡ d
  entries-fields [] = refl
  entries-fields ((k, v) ∷ d) = ap (◌∷◌ (k, v)) (entries-fields d)

  -- `value === null || value === undefined`
  abbrev pub is_nullish : Option (Value N) → Bool
  is_nullish none = Bool.true
  is_nullish (some null) = Bool.true
  is_nullish (some _) = Bool.false

  -- `value ?? null`
  abbrev pub or_null : Option (Value N) → Value N
  or_null none = null
  or_null (some v) = v

-- `typeof`
pub data TypeTag : Type 0 where
  undefined boolean number string object : TypeTag

abbrev pub type_of : {N : Type 0} → Option (Value N) → TypeTag
type_of none = undefined
type_of (some null) = object
type_of (some (bool b)) = boolean
type_of (some (num n)) = number
type_of (some (str s)) = string
type_of (some (arr vs)) = object
type_of (some (obj fs)) = object
