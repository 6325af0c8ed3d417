-- ===== src/Sync/Merge.antt =====
-- `maxOf` and `mergeByField` of sync/SyncBackend.ts. The field versions that a record carries are
-- texts, as `SyncBackend` writes them; other values under `_fieldVersions` are left out.
pub mod Loop
pub mod Convergence
use mathlib.Core.List.{foldl}
use object_repository.Base.{
  String, Bool, true, false, not, ◌&&◌, ◌||◌, Option, none, some, List, [], ◌∷◌, ◌++◌, map, filter,
  ◌==◌, if◌then◌else◌,
}
use object_repository.Base.Text.{text_lt}
use object_repository.Base.Dict.{Dict, get, put, keys, values}
use object_repository.Base.Names.{distinct}
use object_repository.Base.Fill.{put_present}
use object_repository.Json.{Value, str, obj, JsonObject, Fields, fields, entries}
use object_repository.Json.Number.{Number}
use object_repository.Json.Text.{to_text}

-- `RESERVED`
abbrev pub is_reserved : String → Bool
is_reserved k = k == "_version" || k == "_deleted" || k == "_fieldVersions"

abbrev pub max_step : Option String → String → Option String
max_step none v = some v
max_step (some max) v = if text_lt max v then some v else some max

-- `maxOf`
unfoldable pub max_of : Dict String → Option String
max_of versions = foldl max_step none (values versions)

-- `versions[field] ?? ""`
abbrev pub version_at : Dict String → String → String
version_at versions field = elim (get versions field) [ none ↦ "" | some v ↦ v ]

module _ {N : Type 0} where
  abbrev pub to_json : Dict String → Value N
  to_json versions = obj (fields (map (λ e. (e.0, str e.1)) versions))

  abbrev pub text_entries : Fields N → Dict String
  text_entries Fields.end = []
  text_entries (Fields.field k (str v) rest) = (k, v) ∷ text_entries rest
  text_entries (Fields.field k _ rest) = text_entries rest

  abbrev pub of_json : Option (Value N) → Option (Dict String)
  of_json (some (obj fs)) = some (text_entries fs)
  of_json _ = none

  -- `record[FIELD_VERSIONS_FIELD]`
  unfoldable pub field_versions_of : JsonObject N → Option (Dict String)
  unfolding get
  field_versions_of r = of_json (get r "_fieldVersions")

-- what the loop of `mergeByField` builds
pub record Merged (N : Type 0) : Type 0 where
  pub body : JsonObject N
  pub versions : Dict String
  pub changed : Bool

abbrev pub put_nonempty : Dict String → String → String → Dict String
put_nonempty d k String.[] = d
put_nonempty d k v = put d k v

module _ {N : Type 0} (local : JsonObject N) (local_versions : Dict String)
    (incoming : JsonObject N) (incoming_versions : Dict String) where
  -- the data fields of both sides
  abbrev pub data_fields : List String
  data_fields = distinct (filter (λ k. not (is_reserved k)) (keys local ++ keys incoming))

  abbrev pub takes_incoming : String → Bool
  takes_incoming field =
      text_lt (version_at local_versions field) (version_at incoming_versions field)

  abbrev pub merge_step : Merged N → String → Merged N
  merge_step acc field =
      let take = takes_incoming field in
      record {
        body = put_present acc.body field (if take then get incoming field else get local field);
        versions =
            put_nonempty acc.versions field (
              if take then version_at incoming_versions field else version_at local_versions field);
        changed = acc.changed || take;
      }

  unfoldable pub merge_loop : Merged N
  merge_loop = foldl merge_step (record { body = []; versions = []; changed = false }) data_fields

module _ {N : Type 0} ⦃o : Number N⦄ where
  -- `String(local[VERSION_FIELD] ?? "")`
  abbrev pub own_version : JsonObject N → String
  own_version r = elim (get r "_version") [ none ↦ "" | some Value.null ↦ "" | some v ↦ to_text v ]

  abbrev pub sealed : JsonObject N → Merged N → JsonObject N
  sealed local merged =
      put (put merged.body "_fieldVersions" (to_json merged.versions)) "_version"
        (str (elim (max_of merged.versions) [ none ↦ own_version local | some v ↦ v ]))

  -- `mergeByField`
  unfoldable pub merge_by_field :
      JsonObject N → Dict String → JsonObject N → Dict String → Option (JsonObject N)
  unfolding merge_loop
  merge_by_field local local_versions incoming incoming_versions =
      let merged = merge_loop local local_versions incoming incoming_versions in
      if merged.changed then some (sealed local merged) else none
