-- ===== src/Backends/Memory/Flushed.antt =====
-- What a flush of the reference backend leaves in the store.
use mathlib.Core.List.{foldl}
use object_repository.Base.{
  ℕ, String, ◌≡◌, refl, ◌∙◌, Option, none, some, List, [], ◌∷◌, arith, ◌==◌, ok, if◌then◌else◌,
}
use object_repository.Base.Dict.{get, get-put, get-remove}
use object_repository.Json.{JsonObject}
use object_repository.Json.Number.{Number}
use object_repository.Backends.Contract.{Change, uuid_of}
use object_repository.Backends.Memory.Index.{Rows, of_model, uuids, check_unique}
use object_repository.Backends.Memory.{Memory, rows, flush, persist, stamp, events}
use object_repository.Backends.Memory.KeySet.{has, put_row, remove_row}
use object_repository.Backends.Memory.Models.{rows_after}

module _ {N : Type 0} ⦃o : Number N⦄ where
  -- The body of the last of the changes that names a uuid, else what was there before.
  abbrev pub last_body : String → Option (JsonObject N) → List (Change N) → Option (JsonObject N)
  last_body u before [] = before
  last_body u before (c ∷ cs) = last_body u (if uuid_of c.body == u then some c.body else before) cs

  get-put_rows :
      (cs : List (Change N)) (stored : Rows N) (u : String)
      → get (foldl put_row stored cs) u ≡ last_body u (get stored u) cs
  get-put_rows [] stored u = refl
  get-put_rows (c ∷ cs) stored u =
      rw (← get-put stored (uuid_of c.body) u c.body) (get-put_rows cs (put_row stored c) u)

  get-remove_rows :
      (ds : List (Change N)) (stored : Rows N) (u : String)
      → get (foldl remove_row stored ds) u ≡ (if has u (uuids ds) then none else get stored u)
  get-remove_rows [] stored u = refl
  get-remove_rows (d ∷ ds) stored u =
      ground
        (arith, get-remove_rows ds (remove_row stored d) u, get-remove stored (uuid_of d.body) u)

  -- A flush whose batch passes the check stores, for every model and uuid: nothing if the batch
  -- removes it, else the last body that the batch saves under it, else what was stored before. It
  -- empties both queues and reports the saved and the removed changes.
  pub persist-stores :
      (mint : ℕ → String) (s : Memory N) (m u : String)
      → check_unique s.unique (stamp mint s.minted s.save_queue).0 s.remove_queue ≡ none
      → let saved = (stamp mint s.minted s.save_queue).0 in
        let after = (persist mint s).0 in
        (get (rows after.store m) u ≡ (
          if has u (uuids (of_model m s.remove_queue))
          then none
          else last_body u (get (rows s.store m) u) (of_model m saved)))
        × (after.save_queue ≡ [])
        × (after.remove_queue ≡ [])
        × ((persist mint s).1
            ≡ ok (record { saved = saved; removed = s.remove_queue }, events saved s.remove_queue))
  unfolding persist flush
  persist-stores mint s m u passes =
      let saved = (stamp mint s.minted s.save_queue).0 in
      rw (passes, persist)
        (
          rw (rows_after s.store m saved s.remove_queue) (
              get-remove_rows (of_model m s.remove_queue)
                (foldl put_row (rows s.store m) (of_model m saved)) u
              ∙ rw (get-put_rows (of_model m saved) (rows s.store m) u) refl),
          refl,
          refl,
          refl,
        )
