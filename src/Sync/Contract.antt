-- ===== src/Sync/Contract.antt =====
-- core/SyncTarget.ts: the data that crosses the sync contract.
use object_repository.Base.{String, Option, List}
use object_repository.Base.Dict.{Dict}
use object_repository.Json.{JsonObject}

pub data ChangeKind : Type 0 where
  saved removed : ChangeKind

-- `SyncChange`
pub record SyncChange (N : Type 0) : Type 0 where
  pub model : String
  pub uuid : String
  pub kind : ChangeKind
  pub body : Option (JsonObject N)
  pub version : String
  pub field_versions : Option (Dict String)

-- `SyncPullResult`
pub record SyncPullResult (N : Type 0) : Type 0 where
  pub changes : List (SyncChange N)
  pub cursor : String

-- `SyncPushResult`
pub record SyncPushResult (N : Type 0) : Type 0 where
  pub acknowledged : List String
  pub conflicts : List (SyncChange N)
