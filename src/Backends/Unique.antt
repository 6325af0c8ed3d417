-- ===== src/Backends/Unique.antt =====
-- backends/util/unique.ts
use object_repository.Base.{
  String, Bool, true, false, ◌&&◌, Option, none, some, List, [], ◌∷◌, map, filter, ◌==◌, is_some,
  ltb, length, if◌then◌else◌,
}
use object_repository.Base.{not as invert}
use object_repository.Base.Dict.{Dict, get, put}
use object_repository.Json.{Value, null, JsonObject}
use object_repository.Json.Number.{Number}
use object_repository.Json.Stringify.{stringify_list}
use object_repository.Backends.Contract.{Change, IndexSpec, uuid_of}

-- `UniqueConstraintError`
pub record UniqueConstraintError : Type 0 where
  pub model : String
  pub fields : List String

module _ {N : Type 0} where
  abbrev enforced : IndexSpec N → Bool
  enforced i =
      i.unique && invert i.text && invert (is_some i.ttl_seconds) && ltb 0 (length i.fields)

  unfoldable pub unique_key_sets : List (IndexSpec N) → List (List String)
  unique_key_sets indexes = map (λ i. map (λ f. f.path) i.fields) (filter enforced indexes)

  -- the values of the fields, unless one is null or absent
  unfoldable pub key_values : JsonObject N → List String → Option (List (Value N))
  unfolding get
  key_values r [] = some []
  key_values r (f ∷ fs) = elim (get r f) [
    | none ↦ none
    | some null ↦ none
    | some v ↦ elim (key_values r fs) [ none ↦ none | some vs ↦ some (v ∷ vs) ]
  ]

module _ {N : Type 0} ⦃o : Number N⦄ where
  unfoldable pub unique_key : JsonObject N → List String → Option String
  unfolding key_values stringify_list
  unique_key r fields = elim (key_values r fields) [
    | none ↦ none
    | some vs ↦ some (stringify_list vs)
  ]

  -- the loop of `sameBatchConflict` over the changes: whether two uuids share a key
  unfoldable pub batch_conflict : List String → Dict String → List (Change N) → Bool
  unfolding unique_key get put uuid_of
  batch_conflict fields seen [] = false
  batch_conflict fields seen (c ∷ cs) = elim (unique_key c.body fields) [
    | none ↦ batch_conflict fields seen cs
    | some key ↦ elim (get seen key) [
      | none ↦ batch_conflict fields (put seen key (uuid_of c.body)) cs
      | some owner ↦
          let rest = batch_conflict fields (put seen key (uuid_of c.body)) cs in
          if owner == uuid_of c.body then rest else true
    ]
  ]

  unfoldable pub same_batch_conflict : List (Change N) → List (List String) → Option (List String)
  unfolding batch_conflict
  same_batch_conflict changes [] = none
  same_batch_conflict changes (fields ∷ rest) =
      let later = same_batch_conflict changes rest in
      if batch_conflict fields [] changes then some fields else later
