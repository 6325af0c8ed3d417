-- ===== src/Backends/Memory.antt =====
-- backends/memory/InMemoryBackend.ts: the reference backend. `mint` is `generateUuid`, the n-th text
-- that it returns. The change feed is the list of events that a flush emits. The maps `uniqueKeys`
-- and `uniqueIndex`, which are always set together, are one map from a model to its key sets, each
-- with the owners of its keys.
pub mod Index
pub mod KeySet
pub mod Models
pub mod Uniqueness
pub mod Superseded
pub mod Flushed
pub mod Refused
use mathlib.Core.List.{foldl}
use object_repository.Base.{
  ℕ, suc, String, Bool, true, false, ◌&&◌, ◌||◌, Option, none, some, List, [], ◌∷◌, ◌++◌, map,
  filter, some_elem, or_else, ◌==◌, is_some, Result, ok, err, if◌then◌else◌,
}
use object_repository.Base.{not as invert}
use object_repository.Base.Dict.{Dict, get, put, remove, values}
use object_repository.Json.{Value, str, JsonObject}
use object_repository.Json.Number.{Number}
use object_repository.Expressions.Plan.{QueryPlan}
use object_repository.Expressions.Dates.{Calendar}
use object_repository.Backends.Contract.{
  Change, PersistResult, ChangeEvent, IndexSpec, uuid_of, has_uuid,
}
use object_repository.Backends.Contract
use object_repository.Backends.Unique.{UniqueConstraintError, unique_key_sets, unique_key}
use object_repository.Backends.Scan.{scan}
use Index.{UniqueIndex, Rows, update_index, build_index, check_unique, drop_owner, add_owner}

pub record Memory (N : Type 0) : Type 0 where
  pub store : Dict (Rows N)
  pub unique : Dict (List UniqueIndex)
  pub save_queue : List (Change N)
  pub remove_queue : List (Change N)
  pub minted : ℕ

abbrev pub empty : {N : Type 0} → Memory N
empty = record { store = []; unique = []; save_queue = []; remove_queue = []; minted = 0 }

module _ {N : Type 0} where
  -- `modelStore(model)`
  abbrev pub rows : Dict (Rows N) → String → Rows N
  rows store model = or_else (get store model) []

  unfoldable pub save : Memory N → String → JsonObject N → Option (List String) → Memory N
  save s model body dirty = record s {
    save_queue = s.save_queue ++ record { model = model; body = body; dirty = dirty } ∷ [];
  }

  unfoldable pub remove_record : Memory N → String → JsonObject N → Memory N
  remove_record s model body = record s {
    remove_queue = s.remove_queue ++ record { model = model; body = body; dirty = none } ∷ [];
  }

  unfoldable pub discard_pending : Memory N → Memory N
  discard_pending s = record s { save_queue = []; remove_queue = [] }

  -- the uuids that `persist` gives to records that have none
  unfoldable pub stamp : (ℕ → String) → ℕ → List (Change N) → List (Change N) × ℕ
  unfolding has_uuid put
  stamp mint n [] = ([], n)
  stamp mint n (c ∷ cs) =
      let (stamped, m) = stamp mint (if has_uuid c.body then n else suc n) cs in
      (
        (if has_uuid c.body then c else record c { body = put c.body "uuid" (str (mint n)) })
            ∷ stamped,
        m,
      )

  -- `pickFields`
  unfoldable pub pick_fields : JsonObject N → List String → JsonObject N
  unfolding get put
  pick_fields r fields = foldl (λ picked f. pick picked f (get r f)) [] ("uuid" ∷ fields)
    where
      pick : JsonObject N → String → Option (Value N) → JsonObject N
      pick picked f none = picked
      pick picked f (some v) = put picked f v

module _ {N : Type 0} ⦃o : Number N⦄ where
  unfoldable pub register_model : Memory N → String → List (IndexSpec N) → Memory N
  register_model s model indexes = record s {
    unique =
        put s.unique model
          (map (λ fields. build_index fields (rows s.store model)) (unique_key_sets indexes));
  }

  unfoldable pub remove_from_unique_index :
      Dict (Rows N) → Dict (List UniqueIndex) → Change N → Dict (List UniqueIndex)
  remove_from_unique_index store unique c =
      update_index unique c.model
        (drop_owner (get (rows store c.model) (uuid_of c.body)) (uuid_of c.body))

  unfoldable pub add_to_unique_index : Dict (List UniqueIndex) → Change N → Dict (List UniqueIndex)
  add_to_unique_index unique c = update_index unique c.model (add_owner c.body)

  unfoldable pub store_row : Dict (Rows N) → Change N → Dict (Rows N)
  store_row store c = put store c.model (put (rows store c.model) (uuid_of c.body) c.body)

  unfoldable pub delete_row : Dict (Rows N) → Change N → Dict (Rows N)
  delete_row store c = put store c.model (remove (rows store c.model) (uuid_of c.body))

  unfoldable pub events : List (Change N) → List (Change N) → List (ChangeEvent N)
  events saved removed =
      map (λ c. ChangeEvent.saved c.model (uuid_of c.body) c.body) saved
      ++ map (λ c. ChangeEvent.removed c.model (uuid_of c.body)) removed

  -- the writes of `persist`, once the batch is checked
  unfoldable pub flush : Memory N → List (Change N) → List (Change N) → Memory N
  flush s saved removed =
      let dropped = foldl (remove_from_unique_index s.store) s.unique (saved ++ removed) in
      record s {
        store = foldl delete_row (foldl store_row s.store saved) removed;
        unique = foldl add_to_unique_index dropped saved;
      }

  -- The queues are emptied before the batch is checked. The result holds the events too.
  unfoldable pub persist :
      (ℕ → String)
      → Memory N
      → Memory N × Result UniqueConstraintError (PersistResult N × List (ChangeEvent N))
  persist mint s =
      let (saved, minted) = stamp mint s.minted s.save_queue in
      let removed = s.remove_queue in
      let cleared = record s { save_queue = []; remove_queue = []; minted = minted } in
      elim (check_unique s.unique saved removed) [
        | some e ↦ (cleared, err e)
        | none ↦ (
          flush cleared saved removed,
          ok (record { saved = saved; removed = removed }, events saved removed),
        )
      ]

module _ {N : Type 0} ⦃o : Number N⦄ ⦃c : Calendar N⦄ where
  abbrev projected : Option (List String) → JsonObject N → JsonObject N
  projected none r = r
  projected (some fields) r = pick_fields r fields

  unfoldable pub query : Memory N → QueryPlan N → List (JsonObject N)
  query s plan = map (projected plan.project) (scan (values (rows s.store plan.model)) plan)

  unfoldable pub query_uuids : Memory N → QueryPlan N → List String
  query_uuids s plan = map uuid_of (query s plan)
