-- ===== src/Sync/Replica/Causality.antt =====
-- The versions and the cursor of a replica.
use object_repository.Base.{◌≡◌, refl, ◌∙◌, ap, Bool, true, false, some, Result, ok, err}
use object_repository.Base.Dict.{Dict}
use object_repository.Json.{JsonObject}
use object_repository.Json.Number.{Number}
use object_repository.Sync.Contract.{SyncPullResult}
use object_repository.Sync.Clock.{Clock}
use object_repository.Sync.Replica.{Local, Remote, Settings, Replica}
use object_repository.Sync.Replica.Pull.{
  load_local_records, apply_all, at_cursor, flushed, loaded, pulled, pull,
}

module _ {N S R C E : Type 0} ⦃o : Number N⦄ (settings : Settings N) (local : Local N S C E) where
  flushed-cursor :
      (ctx : C) (x : Replica S R × Bool) → (flushed settings local ctx x).0.cursor ≡ x.0.cursor
  flushed-cursor ctx (r, true) = refl
  flushed-cursor ctx (r, false) = refl

  loaded-cursor :
      (r : Replica S R) (ctx : C) (answer : SyncPullResult N)
      (records : Result E (Dict (JsonObject N)))
      → (loaded settings local r ctx answer records).0.cursor
        ≡ elim records [ err e ↦ r.cursor | ok found ↦ some answer.cursor ]
  loaded-cursor r ctx answer (err e) = refl
  loaded-cursor r ctx answer (ok found) =
      flushed-cursor ctx (
        at_cursor settings local answer.cursor
          (apply_all settings local found answer.changes r ctx))

  -- Over a local backend whose saves and removes queue a write and do not throw: once the remote has
  -- answered a pull, the replica's cursor is the one of the answer, also when the flush of the applied
  -- changes throws, so a pull that fails there never asks for these changes again; but when a read of
  -- the local records throws, the cursor stays.
  pub pull_moves_cursor :
      (remote : Remote N R E) (r : Replica S R) (ctx : C) (answer : SyncPullResult N)
      → remote.pull r.remote r.cursor ≡ ok answer
      → (pull settings local remote r ctx).0.cursor
        ≡ elim (load_local_records local r.local answer.changes ctx) [
          | err e ↦ r.cursor
          | ok found ↦ some answer.cursor
        ]
  unfolding pull
  pull_moves_cursor remote r ctx answer e =
      ap (λ x. (pulled settings local r ctx x).0.cursor) e
      ∙ loaded-cursor r ctx answer (load_local_records local r.local answer.changes ctx)
