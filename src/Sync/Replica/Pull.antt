-- ===== src/Sync/Replica/Pull.antt =====
-- `pull` of sync/SyncBackend.ts.
use mathlib.Core.List.{foldl}
use object_repository.Base.{
  String, Bool, true, false, Option, none, some, List, [], ◌∷◌, or_else, Result, ok, err,
}
use object_repository.Base.Dict.{Dict, get, put}
use object_repository.Base.Names.{add}
use object_repository.Json.{JsonObject}
use object_repository.Json.Number.{Number}
use object_repository.Backends.Contract.{uuid_of}
use object_repository.Sync.Contract.{SyncChange, SyncPullResult}
use object_repository.Sync.Replica.{Local, Remote, Settings, Replica, find_by_uuids, apply_incoming}

-- the key of a record among the loaded ones: the model and the uuid with a NUL between them
abbrev pub record_key : String → String → String
record_key model uuid = Prim.Native.String.◌++◌ model (String.◌∷◌ "\0" uuid)

module _ {N : Type 0} where
  -- the uuids of the changes, by model
  abbrev add_change : Dict (List String) → SyncChange N → Dict (List String)
  add_change d change = put d change.model (add (or_else (get d change.model) []) change.uuid)

module _ {N S C E : Type 0} ⦃o : Number N⦄ (local : Local N S C E) where
  abbrev keep_row : String → Dict (JsonObject N) → JsonObject N → Dict (JsonObject N)
  keep_row model d row = put d (record_key model (uuid_of row)) row

  -- the rows of each model in turn, up to the first read that throws
  abbrev load_models :
      S → C → Dict (JsonObject N) → Dict (List String) → Result E (Dict (JsonObject N))
  load_models s ctx d [] = ok d
  load_models s ctx d ((model, uuids) ∷ models) = elim (find_by_uuids local s model uuids ctx) [
    | err e ↦ err e
    | ok rows ↦ load_models s ctx (foldl (keep_row model) d rows) models
  ]

  -- `loadLocalRecords`
  unfoldable pub load_local_records : S → List (SyncChange N) → C → Result E (Dict (JsonObject N))
  unfolding get put uuid_of
  load_local_records s changes ctx = load_models s ctx [] (foldl add_change [] changes)

module _ {N S R C E : Type 0} ⦃o : Number N⦄ (settings : Settings N) (local : Local N S C E) where
  abbrev or_applied : Bool → Replica S R × Bool → Replica S R × Bool
  or_applied true (r, applied) = (r, true)
  or_applied false (r, applied) = (r, applied)

  -- the loop over the changes: the replica, and whether a change applied
  unfoldable pub apply_all :
      Dict (JsonObject N) → List (SyncChange N) → Replica S R → C → Replica S R × Bool
  unfolding apply_incoming get
  apply_all records [] r ctx = (r, false)
  apply_all records (change ∷ changes) r ctx =
      let (next, applied) =
        apply_incoming settings local r change (get records (record_key change.model change.uuid))
          ctx in
      or_applied applied (apply_all records changes next ctx)

  -- the flush of the applied changes, and the error that it throws
  abbrev pub flushed : C → Replica S R × Bool → Replica S R × Option E
  flushed ctx (r, false) = (r, none)
  flushed ctx (r, true) =
      let (s, failed) = local.persist r.local ctx in (record r { local = s }, failed)

  abbrev pub at_cursor : String → Replica S R × Bool → Replica S R × Bool
  at_cursor cursor (r, applied) = (record r { cursor = some cursor }, applied)

  -- the rest of `pull` after the local records were read: a read that throws leaves all as it was
  abbrev pub loaded :
      Replica S R → C → SyncPullResult N → Result E (Dict (JsonObject N)) → Replica S R × Option E
  loaded r ctx answer (err e) = (r, some e)
  loaded r ctx answer (ok records) =
      flushed ctx (at_cursor answer.cursor (apply_all records answer.changes r ctx))

  abbrev pub pulled : Replica S R → C → Result E (SyncPullResult N) → Replica S R × Option E
  pulled r ctx (err e) = (r, some e)
  pulled r ctx (ok answer) =
      loaded r ctx answer (load_local_records local r.local answer.changes ctx)

  -- `pull`: the replica after it, and what it throws
  unfoldable pub pull : Remote N R E → Replica S R → C → Replica S R × Option E
  unfolding apply_all load_local_records
  pull remote r ctx = pulled r ctx (remote.pull r.remote r.cursor)
