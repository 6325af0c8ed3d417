-- ===== src/Expressions/Path.antt =====
-- expressions/path.ts
use Prim.Native.Char.{Char, code}
use object_repository.Base.{
  ℕ, String, ◌≡◌, refl, ap, Bool, false, ◌||◌, Option, none, some, List, [], ◌∷◌, arith, eqb,
  if◌then◌else◌, Bool-cases, inl, inr,
}
use object_repository.Base.Dict.{get}
use object_repository.Json.{Value, obj, fields, entries, entries-fields, JsonObject}

abbrev dot : ℕ
dot = b'.'

-- `path.includes(".")`
unfoldable pub has_dot : String → Bool
has_dot String.[] = false
has_dot (String.◌∷◌ c s) = eqb (code c) dot || has_dot s

abbrev onto_first : Char → List String → List String
onto_first c [] = String.◌∷◌ c String.[] ∷ []
onto_first c (w ∷ ws) = String.◌∷◌ c w ∷ ws

-- `path.split(".")`
unfoldable pub split_dot : String → List String
split_dot String.[] = "" ∷ []
split_dot (String.◌∷◌ c s) =
    let rest = split_dot s in if eqb (code c) dot then "" ∷ rest else onto_first c rest

split_dot-plain : (path : String) → has_dot path ≡ false → split_dot path ≡ path ∷ []
unfolding has_dot split_dot
split_dot-plain String.[] h = refl
split_dot-plain (String.◌∷◌ c s) h =
    ground (arith, ap (onto_first c) (split_dot-plain s (ground arith)))

module _ {N : Type 0} where
  -- the loop over the keys: only an object that is no array has members
  unfoldable pub walk : Option (Value N) → List String → Option (Value N)
  walk current [] = current
  walk (some (obj fs)) (k ∷ ks) = walk (get (entries fs) k) ks
  walk _ (k ∷ ks) = none

  unfoldable pub get_path : JsonObject N → String → Option (Value N)
  unfolding has_dot split_dot walk get
  get_path r path =
      if has_dot path then walk (some (obj (fields r))) (split_dot path) else get r path

  -- The direct read of a path without dots is what the walk over its parts gives: for every path,
  -- `get_path` reads along the parts between the dots.
  pub get_path-eq-walk :
      (r : JsonObject N) (path : String)
      → get_path r path ≡ walk (some (obj (fields r))) (split_dot path)
  unfolding get_path
  get_path-eq-walk r path = elim (Bool-cases (has_dot path)) [
    | inl dotted ↦ rw dotted
    | inr plain ↦ rw (plain, split_dot-plain path plain, entries-fields)
  ]
