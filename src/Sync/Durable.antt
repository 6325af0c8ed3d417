-- ===== src/Sync/Durable.antt =====
-- sync/BackendSyncTarget.ts: the changelog as rows of a store. The store keeps the rows in the order in
-- which they were appended; a read of the repository gives the persisted rows only, so the rows that a
-- push has queued are seen when it has persisted them. A store that fails is left out.
pub mod Latest
pub mod Numbered
pub mod Batch
pub mod Refines
use object_repository.Base.{
  ℕ, suc, ◌+◌, String, Bool, true, false, ◌&&◌, Option, none, some, List, [], ◌∷◌, ◌++◌, map,
  filter, ltb, eqb, ◌==◌, if◌then◌else◌,
}
use object_repository.Base.Dict.{Dict}
use object_repository.Base.Sort.{Sign, negative, zero, positive, flip, then_by, sort}
use object_repository.Base.Text.{units, text_lt}
use object_repository.Base.Text.Decimal.{decimal, number_of}
use object_repository.Json.{JsonObject}
use object_repository.Sync.Contract.{ChangeKind, SyncChange, SyncPullResult, SyncPushResult}

-- `ChangeRow`
pub record ChangeRow (N : Type 0) : Type 0 where
  pub uuid : String
  pub seq : ℕ
  pub src_model : String
  pub src_uuid : String
  pub kind : ChangeKind
  pub body : Option (JsonObject N)
  pub version : String
  pub field_versions : Option (Dict String)

-- The persisted rows, the queue of the repository, and the counter, none before `ensureReady`.
pub record DurableTarget (N : Type 0) : Type 0 where
  pub stored : List (ChangeRow N)
  pub queued : List (ChangeRow N)
  pub seq : Option ℕ

-- What one change does: it is appended, or the newer row of the store is reported.
pub data Settled (N : Type 0) : Type 0 where
  appended : Settled N
  refused : ChangeRow N → Settled N

abbrev pub compare_numbers : ℕ → ℕ → Sign
compare_numbers a b = if eqb a b then zero else if ltb a b then negative else positive

abbrev pub compare_texts : String → String → Sign
compare_texts a b = if a == b then zero else if text_lt a b then negative else positive

abbrev pub first_of : {A : Type 0} → List A → Option A
first_of [] = none
first_of (x ∷ xs) = some x

module _ {N : Type 0} where
  abbrev pub to_change : ChangeRow N → SyncChange N
  to_change row = record {
    model = row.src_model;
    uuid = row.src_uuid;
    kind = row.kind;
    body = row.body;
    version = row.version;
    field_versions = row.field_versions;
  }

  -- the orders `sort("seq")`, and `sort("seq", true)` and `sort("version", true)` with the tiebreaker
  -- that `page` adds
  abbrev pub by_seq : ChangeRow N → ChangeRow N → Sign
  by_seq a b = compare_numbers a.seq b.seq

  abbrev pub by_last_seq : ChangeRow N → ChangeRow N → Sign
  by_last_seq a b = then_by (flip (compare_numbers a.seq b.seq)) (compare_texts a.uuid b.uuid)

  abbrev pub by_last_version : ChangeRow N → ChangeRow N → Sign
  by_last_version a b =
      then_by (flip (compare_texts a.version b.version)) (compare_texts a.uuid b.uuid)

  abbrev pub seq_of : Option (ChangeRow N) → ℕ
  seq_of none = 0
  seq_of (some row) = row.seq

  -- The number that `ensureReady` leaves in the counter.
  abbrev pub last_seq : List (ChangeRow N) → ℕ
  unfolding sort
  last_seq stored = seq_of (first_of (sort by_last_seq stored))

  -- `ensureReady`
  unfoldable pub ensure_ready : DurableTarget N → ℕ
  unfolding last_seq
  ensure_ready s = elim s.seq [ none ↦ last_seq s.stored | some n ↦ n ]

  abbrev pub next_cursor : ℕ → List (ChangeRow N) → ℕ
  next_cursor from [] = from
  next_cursor from (row ∷ []) = row.seq
  next_cursor from (row ∷ next ∷ rows) = next_cursor from (next ∷ rows)

  abbrev pub rows_after : List (ChangeRow N) → ℕ → List (ChangeRow N)
  unfolding sort
  rows_after stored from = sort by_seq (filter (λ row. ltb from row.seq) stored)

  abbrev pub pulled : List (ChangeRow N) → ℕ → SyncPullResult N
  unfolding rows_after
  pulled stored from =
      let rows = rows_after stored from in
      record { changes = map to_change rows; cursor = decimal (next_cursor from rows) }

  -- `pull(cursor)`: the target after it and the answer. No `seq` is greater than a cursor that is `NaN`.
  unfoldable pub pull : DurableTarget N → Option String → DurableTarget N × SyncPullResult N
  unfolding pulled ensure_ready
  pull s cursor = (
    record s { seq = some (ensure_ready s) },
    elim cursor [
      | none ↦ pulled s.stored 0
      | some text ↦ elim (number_of (units text)) [
        | none ↦ record { changes = []; cursor = "NaN" }
        | some from ↦ pulled s.stored from
      ]
    ],
  )

  abbrev pub is_row_of : String → String → ChangeRow N → Bool
  is_row_of model uuid row = row.src_model == model && row.src_uuid == uuid

  -- `latest(model, uuid)`
  unfoldable pub latest_row : List (ChangeRow N) → String → String → Option (ChangeRow N)
  unfolding sort
  latest_row stored model uuid =
      first_of (sort by_last_version (filter (is_row_of model uuid) stored))

  -- `append(change)`: the row with the sequence number that the counter has after `++`
  abbrev pub row_of : ℕ → SyncChange N → ChangeRow N
  row_of seq change = record {
    uuid = decimal seq;
    seq = seq;
    src_model = change.model;
    src_uuid = change.uuid;
    kind = change.kind;
    body = change.body;
    version = change.version;
    field_versions = change.field_versions;
  }

  abbrev pub settle_row : SyncChange N → Option (ChangeRow N) → Settled N
  settle_row change none = Settled.appended
  settle_row change (some current) =
      if text_lt current.version change.version then Settled.appended else Settled.refused current

  unfoldable pub settled : List (ChangeRow N) → SyncChange N → Settled N
  unfolding latest_row
  settled stored change = elim change.field_versions [
    | some versions ↦ Settled.appended
    | none ↦ settle_row change (latest_row stored change.model change.uuid)
  ]

  abbrev pub queue_row : Settled N → SyncChange N → ℕ → List (ChangeRow N) → List (ChangeRow N)
  queue_row Settled.appended change seq queued = queued ++ row_of (suc seq) change ∷ []
  queue_row (Settled.refused current) change seq queued = queued

  abbrev pub seq_after : Settled N → ℕ → ℕ
  seq_after Settled.appended seq = suc seq
  seq_after (Settled.refused current) seq = seq

  abbrev pub answer : Settled N → SyncChange N → SyncPushResult N → SyncPushResult N
  answer Settled.appended change rest = record rest {
    acknowledged = change.uuid ∷ rest.acknowledged;
  }
  answer (Settled.refused current) change rest = record rest {
    conflicts = to_change current ∷ rest.conflicts;
  }

  -- The loop of `applyPush`: what it queues, the counter after it, and the answer.
  unfoldable pub push_rows :
      List (ChangeRow N)
      → List (SyncChange N)
      → ℕ
      → List (ChangeRow N)
      → List (ChangeRow N) × ℕ × SyncPushResult N
  unfolding settled
  push_rows stored [] seq queued = (queued, seq, record { acknowledged = []; conflicts = [] })
  push_rows stored (change ∷ changes) seq queued =
      let done = settled stored change in
      let rest = push_rows stored changes (seq_after done seq) (queue_row done change seq queued) in
      (rest.0, rest.1, answer done change rest.2)

  -- `push(changes)`, the pushes one after another: the loop, and `persist`
  unfoldable pub push : DurableTarget N → List (SyncChange N) → DurableTarget N × SyncPushResult N
  unfolding push_rows ensure_ready
  push s changes =
      let done = push_rows s.stored changes (ensure_ready s) s.queued in
      (record { stored = s.stored ++ done.0; queued = []; seq = some done.1 }, done.2)
