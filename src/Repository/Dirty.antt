-- ===== src/Repository/Dirty.antt =====
-- `computeDirty` of repository/Repository.ts: the fields of a record that a save writes. The baseline
-- is the last form of the record that the store is known to hold.
pub mod Suffices
use object_repository.Base.{
  String, Bool, not, ◌&&◌, Option, none, some, List, [], ◌∷◌, ◌++◌, filter, ◌==◌,
}
use object_repository.Base.Dict.{get, keys}
use object_repository.Base.Names.{distinct}
use object_repository.Json.{JsonObject}
use object_repository.Json.Number.{Number}
use object_repository.Repository.Patch.{same_value}

abbrev pub some_nonempty : List String → Option (List String)
some_nonempty [] = none
some_nonempty (k ∷ ks) = some (k ∷ ks)

module _ {N : Type 0} ⦃o : Number N⦄ where
  abbrev pub is_dirty : JsonObject N → JsonObject N → String → Bool
  is_dirty baseline r key = not (key == "uuid") && not (same_value (get baseline key) (get r key))

  abbrev pub dirty_keys : JsonObject N → JsonObject N → List String
  dirty_keys baseline r = filter (is_dirty baseline r) (distinct (keys baseline ++ keys r))

  -- `computeDirty`
  unfoldable pub compute_dirty : Option (JsonObject N) → JsonObject N → Option (List String)
  compute_dirty none r = none
  compute_dirty (some baseline) r = some_nonempty (dirty_keys baseline r)
