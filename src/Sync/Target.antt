-- ===== src/Sync/Target.antt =====
-- sync/InMemorySyncTarget.ts: the state is the log. A field `record` is `body` here.
pub mod Log
use mathlib.Core.List.{foldl}
use object_repository.Base.{
  ℕ, String, Bool, true, false, ◌&&◌, Option, none, some, List, [], ◌∷◌, ◌++◌, length, drop, ◌==◌,
  if◌then◌else◌,
}
use object_repository.Base.Text.{units, text_lt}
use object_repository.Base.Text.Decimal.{decimal, number_of}
use object_repository.Sync.Contract.{SyncChange, SyncPullResult, SyncPushResult}

-- `cursor ? Number(cursor) : 0`. A cursor that is not a number is `NaN`, which `slice` takes for 0.
abbrev pub offset_of : Option String → ℕ
offset_of none = 0
offset_of (some cursor) = elim (number_of (units cursor)) [ none ↦ 0 | some n ↦ n ]

-- What one change of a push does: it is appended and acknowledged, or the newer change of the server
-- is reported.
pub data Pushed (N : Type 0) : Type 0 where
  acknowledged : Pushed N
  conflict : SyncChange N → Pushed N

module _ {N : Type 0} where
  unfoldable pub pull : List (SyncChange N) → Option String → SyncPullResult N
  pull log cursor = record { changes = drop (offset_of cursor) log; cursor = decimal (length log) }

  abbrev pub is_of : String → String → SyncChange N → Bool
  is_of model uuid change = change.model == model && change.uuid == uuid

  abbrev pub is_newer : SyncChange N → Option (SyncChange N) → Bool
  is_newer change none = true
  is_newer change (some current) = text_lt current.version change.version

  abbrev pub latest_step :
      String → String → Option (SyncChange N) → SyncChange N → Option (SyncChange N)
  latest_step model uuid result change =
      if is_of model uuid change && is_newer change result then some change else result

  -- `latest(model, uuid)`
  unfoldable pub latest : List (SyncChange N) → String → String → Option (SyncChange N)
  latest log model uuid = foldl (latest_step model uuid) none log

  abbrev pub settle : SyncChange N → Option (SyncChange N) → Pushed N
  settle change none = acknowledged
  settle change (some current) =
      if text_lt current.version change.version then acknowledged else conflict current

  unfoldable pub push_one : List (SyncChange N) → SyncChange N → Pushed N
  unfolding latest
  push_one log change = elim change.field_versions [
    | some versions ↦ acknowledged
    | none ↦ settle change (latest log change.model change.uuid)
  ]

  abbrev pub append_if : List (SyncChange N) → SyncChange N → Pushed N → List (SyncChange N)
  append_if log change acknowledged = log ++ change ∷ []
  append_if log change (conflict current) = log

  abbrev pub report : SyncChange N → Pushed N → SyncPushResult N → SyncPushResult N
  report change acknowledged rest = record rest { acknowledged = change.uuid ∷ rest.acknowledged }
  report change (conflict current) rest = record rest { conflicts = current ∷ rest.conflicts }

  -- `push(changes)`: the log after it and the answer
  unfoldable pub push :
      List (SyncChange N) → List (SyncChange N) → List (SyncChange N) × SyncPushResult N
  unfolding push_one
  push log [] = (log, record { acknowledged = []; conflicts = [] })
  push log (change ∷ changes) =
      let done = push_one log change in
      let rest = push (append_if log change done) changes in (rest.0, report change done rest.1)
