-- ===== src/Backends/Sql/Writes.antt =====
-- The flush of backends/sql/SqlBackend.ts: its statements, and their run in a transaction. The
-- optional check before the writes (`uniquePreCheck`) is off, as it is by default.
pub mod Complete
use mathlib.Core.List.{foldl}
use object_repository.Base.{
  concat, ℕ, zero, suc, String, Bool, true, false, not, ◌&&◌, ◌||◌, Option, none, some, List, [],
  ◌∷◌, ◌++◌, map, filter, length, take, drop, ◌==◌, or_else, if◌then◌else◌, Result, ok, err, ◌>>=◌,
}
use object_repository.Base.Text.{text_lt}
use object_repository.Base.Names.{member, distinct}
use object_repository.Base.Sort.{Sign, negative, positive, sort}
use object_repository.Base.Sort
use object_repository.Base.Dict.{Dict, get, put, values}
use object_repository.Json.{Value, str, JsonObject}
use object_repository.Json.Number.{Number}
use object_repository.Backends.Contract.{Change, PersistResult, ChangeEvent, uuid_of}
use object_repository.Backends.Memory.{stamp, events}
use object_repository.Backends.Sql.Fragment.{join}
use object_repository.Backends.Sql.Dialect.{Dialect, FieldSpec, overflow_column}
use object_repository.Backends.Sql.Rows.{names_of, columns_of, encode_row}
use object_repository.Backends.Sql.Reads.{
  Statement, statement, SqlError, refused, driver, Executor, SqlBackend, fields_of,
}

-- `MAX_BATCH_ROWS`
abbrev pub max_batch_rows : ℕ
max_batch_rows = 500

module _ {A : Type 0} where
  -- `chunked` with fuel for the number of chunks
  unfoldable pub chunk_on : ℕ → ℕ → List A → List (List A)
  chunk_on zero size items = []
  chunk_on (suc fuel) size [] = []
  chunk_on (suc fuel) size (x ∷ xs) = take size (x ∷ xs) ∷ chunk_on fuel size (drop size (x ∷ xs))

  -- `chunked`: there are no more chunks than items
  unfoldable pub chunked : List A → ℕ → List (List A)
  unfolding chunk_on
  chunked items size = chunk_on (length items) size items

  -- a `Map` from a key to the elements that have it
  abbrev pub add_to : (A → String) → Dict (List A) → A → Dict (List A)
  add_to key groups x = put groups (key x) (or_else (get groups (key x)) [] ++ x ∷ [])

  unfoldable pub group_by : (A → String) → List A → Dict (List A)
  unfolding get put
  group_by key xs = foldl (add_to key) [] xs

abbrev pub signature_of : Option (List String) → String
signature_of none = "*"
signature_of (some columns) = join "," columns

abbrev pub text_order : String → String → Sign
text_order s t = if text_lt s t then negative else if text_lt t s then positive else Sort.Sign.zero

module _ {N : Type 0} where
  -- `groupByModel`
  unfoldable pub group_by_model : List (Change N) → Dict (List (Change N))
  unfolding group_by
  group_by_model changes = group_by (λ c. c.model) changes

  -- the columns that a change touches, none for all of them
  abbrev pub dirty_columns : List FieldSpec → Change N → Option (List String)
  unfolding sort
  dirty_columns fs c = elim c.dirty [
    | none ↦ none
    | some dirty ↦ some (
        sort text_order
          (distinct (map (λ f. if member f (names_of fs) then f else overflow_column) dirty)))
  ]

  -- `bucketByDirtyColumns`: the columns of a bucket are those of its first change
  abbrev pub signature : List FieldSpec → Change N → String
  unfolding dirty_columns
  signature fs c = signature_of (dirty_columns fs c)

  unfoldable pub bucket_by_dirty_columns : List FieldSpec → List (Change N) → List (List (Change N))
  unfolding group_by signature
  bucket_by_dirty_columns fs changes = values (group_by (signature fs) changes)

  abbrev pub columns_of_bucket : List FieldSpec → List (Change N) → Option (List String)
  unfolding dirty_columns
  columns_of_bucket fs [] = none
  columns_of_bucket fs (c ∷ cs) = dirty_columns fs c

-- One statement of a flush.
pub data Write (N : Type 0) : Type 0 where
  upsert : String → Option (List String) → List (Change N) → Write N
  delete : String → List (Change N) → Write N

module _ {N : Type 0} where
  abbrev pub changes_of : Write N → List (Change N)
  changes_of (upsert model updated changes) = changes
  changes_of (delete model changes) = changes

  abbrev pub upserts_of_bucket : String → List FieldSpec → List (Change N) → List (Write N)
  unfolding chunked
  upserts_of_bucket model fs bucket =
      map (upsert model (columns_of_bucket fs bucket)) (chunked bucket max_batch_rows)

  abbrev pub upserts_of_buckets : String → List FieldSpec → List (List (Change N)) → List (Write N)
  unfolding upserts_of_bucket
  upserts_of_buckets model fs [] = []
  upserts_of_buckets model fs (bucket ∷ buckets) =
      upserts_of_bucket model fs bucket ++ upserts_of_buckets model fs buckets

  abbrev pub upserts_of_groups : SqlBackend → Dict (List (Change N)) → List (Write N)
  unfolding upserts_of_buckets bucket_by_dirty_columns fields_of
  upserts_of_groups b [] = []
  upserts_of_groups b ((model, changes) ∷ groups) =
      upserts_of_buckets model (fields_of b model)
        (bucket_by_dirty_columns (fields_of b model) changes)
      ++ upserts_of_groups b groups

  abbrev pub deletes_of_groups : Dict (List (Change N)) → List (Write N)
  unfolding chunked
  deletes_of_groups [] = []
  deletes_of_groups ((model, changes) ∷ groups) =
      map (delete model) (chunked changes max_batch_rows) ++ deletes_of_groups groups

  -- the statements of a flush, in order
  unfoldable pub writes_of : SqlBackend → List (Change N) → List (Change N) → List (Write N)
  unfolding upserts_of_groups deletes_of_groups group_by_model
  writes_of b saved removed =
      upserts_of_groups b (group_by_model saved) ++ deletes_of_groups (group_by_model removed)

module _ {N : Type 0} ⦃o : Number N⦄ (b : SqlBackend) where
  abbrev pub rows_params : List FieldSpec → List (Change N) → List (Value N)
  unfolding encode_row
  rows_params fs [] = []
  rows_params fs (c ∷ cs) = encode_row b.dialect fs c.body ++ rows_params fs cs

  unfoldable pub statement_of : Write N → Result String (Statement N)
  unfolding rows_params fields_of uuid_of
  statement_of (upsert model updated changes) =
      b.dialect.upsert_many model (columns_of (fields_of b model)) (length changes) updated
      >>= λ sql. ok (statement sql (rows_params (fields_of b model) changes))
  statement_of (delete model changes) = b.dialect.delete_many model (length changes) >>= λ sql.
      ok (statement sql (map (λ c. str (uuid_of c.body)) changes))

-- the backend with its queues
pub record Session (N S : Type 0) : Type 0 where
  pub database : S
  pub save_queue : List (Change N)
  pub remove_queue : List (Change N)
  pub minted : ℕ

abbrev pub ended : {S E A : Type 0} → S × Result E A → S × Option (SqlError E)
ended (t, err e) = (t, some (driver e))
ended (t, ok rows) = (t, none)

module _ {N S E : Type 0} ⦃o : Number N⦄ (b : SqlBackend) (exec : Executor N S E) where
  abbrev pub run_statement : Result String (Statement N) → S → S × Option (SqlError E)
  run_statement (err name) s = (s, some (refused name))
  run_statement (ok st) s = ended (exec.run st s)

  abbrev pub and_then :
      S × Option (SqlError E) → (S → S × Option (SqlError E)) → S × Option (SqlError E)
  and_then (s, some e) rest = (s, some e)
  and_then (s, none) rest = rest s

  -- up to the first statement that throws
  unfoldable pub run_writes : List (Write N) → S → S × Option (SqlError E)
  unfolding statement_of
  run_writes [] s = (s, none)
  run_writes (w ∷ ws) s = and_then (run_statement (statement_of b w) s) (run_writes ws)

  -- `exec.transaction(writes)`, which rolls back what throws, or the writes alone
  abbrev pub in_transaction : Bool → S → S × Option (SqlError E) → S × Option (SqlError E)
  in_transaction true before (after, some e) = (before, some e)
  in_transaction isolated before done = done

  abbrev pub answer_of :
      List (Change N)
      → List (Change N)
      → Option (SqlError E)
      → Result (SqlError E) (PersistResult N × List (ChangeEvent N))
  unfolding events
  answer_of saved removed (some e) = err e
  answer_of saved removed none =
      ok (record { saved = saved; removed = removed }, events saved removed)

  -- `persist`, once the tables are provisioned; `isolated` if the executor has transactions
  unfoldable pub persist_session :
      (ℕ → String)
      → Bool
      → Session N S
      → Session N S × Result (SqlError E) (PersistResult N × List (ChangeEvent N))
  unfolding stamp writes_of run_writes
  persist_session mint isolated s =
      let (saved, minted) = stamp mint s.minted s.save_queue in
      let removed = s.remove_queue in
      let done =
        in_transaction isolated s.database (run_writes (writes_of b saved removed) s.database) in
      (
        record { database = done.0; save_queue = []; remove_queue = []; minted = minted },
        answer_of saved removed done.1,
      )
