-- ===== src/Backends/Memory/Index.antt =====
-- The unique indexes of backends/memory/InMemoryBackend.ts: the check of a batch against them, and
-- their upkeep.
use object_repository.Base.{
  String, Bool, true, false, ◌&&◌, ◌||◌, Option, none, some, List, [], ◌∷◌, ◌++◌, map, filter,
  some_elem, or_else, ◌==◌, if◌then◌else◌,
}
use object_repository.Base.{not as invert}
use object_repository.Base.Dict.{Dict, get, put, remove}
use object_repository.Json.{JsonObject}
use object_repository.Json.Number.{Number}
use object_repository.Backends.Contract.{Change, uuid_of}
use object_repository.Backends.Unique.{UniqueConstraintError, unique_key}

-- A key set with its map from keys to the uuids that own them.
pub record UniqueIndex : Type 0 where
  pub fields : List String
  pub owners : Dict String

abbrev pub Rows : Type 0 → Type 0
Rows N = Dict (JsonObject N)

abbrev pub is_owned_by : Option String → String → Bool
is_owned_by none uuid = false
is_owned_by (some owner) uuid = owner == uuid

-- the owner of a key is another record, which the batch does not rewrite or remove
abbrev pub conflicts_with : Option String → String → List String → Bool
conflicts_with none uuid freed = false
conflicts_with (some owner) uuid freed =
    invert (owner == uuid) && invert (some_elem (λ u. u == owner) freed)

-- An index is changed only where the model has one.
unfoldable pub update_index :
    Dict (List UniqueIndex) → String → (UniqueIndex → UniqueIndex) → Dict (List UniqueIndex)
unfolding get put
update_index unique model f = elim (get unique model) [
  | none ↦ unique
  | some ixs ↦ put unique model (map f ixs)
]

module _ {N : Type 0} ⦃o : Number N⦄ where
  -- the index of one key set over stored rows
  unfoldable pub index_rows : List String → Dict String → Rows N → Dict String
  index_rows fields owners [] = owners
  index_rows fields owners ((uuid, r) ∷ rest) = elim (unique_key r fields) [
    | none ↦ index_rows fields owners rest
    | some key ↦ index_rows fields (put owners key uuid) rest
  ]

  unfoldable pub build_index : List String → Rows N → UniqueIndex
  build_index fields stored = record { fields = fields; owners = index_rows fields [] stored }

  -- the innermost loop of `checkUnique`: whether it throws
  unfoldable pub check_changes :
      List String → Dict String → List String → Dict String → List (Change N) → Bool
  check_changes fields stored freed seen [] = false
  check_changes fields stored freed seen (c ∷ cs) = elim (unique_key c.body fields) [
    | none ↦ check_changes fields stored freed seen cs
    | some key ↦
        let rest = check_changes fields stored freed (put seen key (uuid_of c.body)) cs in
        if conflicts_with (get stored key) (uuid_of c.body) freed
          || conflicts_with (get seen key) (uuid_of c.body) []
        then true
        else rest
  ]

  unfoldable pub check_key_sets :
      String → List String → List (Change N) → List UniqueIndex → Option UniqueConstraintError
  check_key_sets model freed changes [] = none
  check_key_sets model freed changes (ix ∷ rest) =
      let later = check_key_sets model freed changes rest in
      if check_changes ix.fields ix.owners freed [] changes
      then some (record { model = model; fields = ix.fields })
      else later

  abbrev pub of_model : String → List (Change N) → List (Change N)
  of_model model = filter (λ c. c.model == model)

  abbrev pub uuids : List (Change N) → List String
  uuids = map (λ c. uuid_of c.body)

  -- the outer loop, over the models in the order in which the batch first names them
  unfoldable pub check_models :
      Dict (List UniqueIndex)
      → List (Change N)
      → List (Change N)
      → List String
      → Option UniqueConstraintError
  check_models unique saved removed [] = none
  check_models unique saved removed (model ∷ models) =
      let changes = of_model model saved in
      let freed = uuids changes ++ uuids (of_model model removed) in
      let later = check_models unique saved removed models in
      elim (check_key_sets model freed changes (or_else (get unique model) [])) [
        | none ↦ later
        | some e ↦ some e
      ]

  -- the keys of `byModel`
  unfoldable pub models_of : List (Change N) → List String
  models_of [] = []
  models_of (c ∷ cs) = c.model ∷ filter (λ m. invert (m == c.model)) (models_of cs)

  unfoldable pub check_unique :
      Dict (List UniqueIndex) → List (Change N) → List (Change N) → Option UniqueConstraintError
  check_unique unique saved removed = check_models unique saved removed (models_of saved)

  -- what `removeFromUniqueIndex` does to one key set: the stored key goes, if it is still ours
  unfoldable pub drop_owner : Option (JsonObject N) → String → UniqueIndex → UniqueIndex
  drop_owner none uuid ix = ix
  drop_owner (some old) uuid ix = elim (unique_key old ix.fields) [
    | none ↦ ix
    | some key ↦
        if is_owned_by (get ix.owners key) uuid
        then record ix { owners = remove ix.owners key }
        else ix
  ]

  -- what `addToUniqueIndex` does to one key set
  unfoldable pub add_owner : JsonObject N → UniqueIndex → UniqueIndex
  add_owner r ix = elim (unique_key r ix.fields) [
    | none ↦ ix
    | some key ↦ record ix { owners = put ix.owners key (uuid_of r) }
  ]
