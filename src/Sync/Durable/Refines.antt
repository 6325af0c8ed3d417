-- ===== src/Sync/Durable/Refines.antt =====
-- The durable target answers as the one in memory does (sync/BackendSyncTarget.ts).
use mathlib.Core.Path.{subst}
use mathlib.Core.List.{append-nil}
use object_repository.Base.{
  ℕ, suc, ◌≤◌, ◌≡◌, refl, ◌∙◌, sym, ap, Option, none, some, List, [], ◌∷◌, map, arith, length, drop,
  length-append, zero, All-of,
}
use object_repository.Base.Text.Decimal.{decimal, read-decimal}
use object_repository.Sync.Contract.{SyncChange}
use object_repository.Sync.Target
use object_repository.Sync.Target.{
  latest, is_of, Pushed, acknowledged, conflict, settle, push_one, append_if, report,
}
use object_repository.Sync.Target.Log.{offset_of-decimal}
use object_repository.Sync.Durable
use object_repository.Sync.Durable.Numbered.{
  IsNumbered, IsNumbered-append, last_seq-length, push_rows-IsNumbered, rows_after-drop,
  next_cursor-drop,
}
use object_repository.Sync.Durable.{
  last_seq, pulled, ChangeRow, DurableTarget, to_change, first_of, by_last_seq, by_seq, seq_of,
  ensure_ready, latest_row, row_of, Settled, settle_row, settled, queue_row, seq_after, answer,
  push_rows,
}
use object_repository.Sync.Durable.Batch.{HasApartChanges, Same, push_rows-Same}

abbrev pub IsCounter : ℕ → Option ℕ → Type 0
IsCounter n none = Unit
IsCounter n (some m) = m ≡ n

module _ {N : Type 0} where
  -- A target at rest: nothing is queued, the rows are numbered by their positions, and the counter, if it
  -- was read, is the number of rows.
  abbrev pub IsAtRest : DurableTarget N → Type 0
  IsAtRest s = (s.queued ≡ []) × IsNumbered 0 s.stored × IsCounter (length s.stored) s.seq

  ensure_ready-length : (s : DurableTarget N) → IsAtRest s → ensure_ready s ≡ length s.stored
  unfolding ensure_ready
  ensure_ready-length s (q, numbered, counter) = by_counter s.seq counter
    where
      by_counter :
          (seq : Option ℕ)
          → IsCounter (length s.stored) seq
          → (elim seq as (λ x. ℕ) [ none ↦ last_seq s.stored | some n ↦ n ]) ≡ length s.stored
      by_counter none h = last_seq-length s.stored numbered
      by_counter (some n) h = h

  map-drop :
      (n : ℕ) (rows : List (ChangeRow N))
      → map to_change (drop n rows) ≡ drop n (map to_change rows)
  map-drop zero rows = refl
  map-drop (suc n) [] = refl
  map-drop (suc n) (r ∷ rows) = map-drop n rows

  length-map : (rows : List (ChangeRow N)) → length (map to_change rows) ≡ length rows
  length-map [] = refl
  length-map (r ∷ rows) = omega (arith, length-map rows)

  pulled-eq-pull :
      (rows : List (ChangeRow N)) (from : ℕ)
      → IsNumbered 0 rows
      → from ≤ length rows
      → pulled rows from ≡ record {
        changes = drop from (map to_change rows);
        cursor = decimal (length (map to_change rows));
      }
  unfolding pulled
  pulled-eq-pull rows from h le =
      rw
        (
          rows_after-drop rows from h,
          next_cursor-drop rows from h le,
          map-drop from rows,
          length-map rows,
        )
        refl

  pull-from :
      (log : List (SyncChange N)) (from : ℕ)
      → Target.pull log (some (decimal from))
        ≡ record { changes = drop from log; cursor = decimal (length log) }
  unfolding Target.pull
  pull-from log from =
      ap (λ n. record { changes = drop n log; cursor = decimal (length log) })
        (offset_of-decimal from)

  pull_first :
      (log : List (SyncChange N))
      → record { changes = log; cursor = decimal (length log) } ≡ Target.pull log none
  unfolding Target.pull
  pull_first log = refl

  push-Same :
      (s : DurableTarget N) (changes : List (SyncChange N))
      → s.queued ≡ []
      → HasApartChanges changes
      → let after = Durable.push s changes in
        Same (map to_change after.0.stored, after.1) (Target.push (map to_change s.stored) changes)
  unfolding Durable.push
  push-Same s changes q apart =
      push_rows-Same s.stored changes (ensure_ready s) s.queued (map to_change s.stored)
        (rw (q, append-nil s.stored) refl) apart (rw q (All-of (λ c. ground arith) changes))

  push-IsAtRest :
      (s : DurableTarget N) (changes : List (SyncChange N))
      → IsAtRest s
      → IsAtRest (Durable.push s changes).0
  unfolding Durable.push
  push-IsAtRest s changes (q, numbered, counter) =
      let done = push_rows s.stored changes (ensure_ready s) s.queued in
      let (rows, last) =
        push_rows-IsNumbered (length s.stored) s.stored changes (ensure_ready s) s.queued (rw q tt)
          (rw q (ensure_ready-length s (q, numbered, counter) ∙ omega arith)) in
      (
        refl,
        IsNumbered-append 0 s.stored done.0 numbered
            (subst (λ n. IsNumbered n done.0) (omega arith) rows),
        last ∙ sym (length-append s.stored done.0),
      )

  -- A durable target at rest refines the target in memory. A push of a batch in which no whole-record change
  -- follows another change of the same record leaves the same log, acknowledges the same changes and
  -- reports conflicts of the same records and versions, and the target is at rest again. A pull from
  -- a cursor up to the length of the log, or the first one, gives the same changes and the same cursor,
  -- and leaves it at rest.
  pub durable_refines :
      (s : DurableTarget N) (changes : List (SyncChange N)) (from : ℕ)
      → IsAtRest s
      → HasApartChanges changes
      → from ≤ length s.stored
      → let log = map to_change s.stored in
        let after = Durable.push s changes in
        Same (map to_change after.0.stored, after.1) (Target.push log changes)
        × IsAtRest after.0
        × ((Durable.pull s none).1 ≡ Target.pull log none)
        × ((Durable.pull s (some (decimal from))).1 ≡ Target.pull log (some (decimal from)))
        × IsAtRest (Durable.pull s none).0
  unfolding Durable.pull
  durable_refines s changes from rest apart le = (
    push-Same s changes rest.0 apart,
    push-IsAtRest s changes rest,
    pulled-eq-pull s.stored 0 rest.1 (omega arith) ∙ pull_first (map to_change s.stored),
    rw (Durable.pull, read-decimal from) (pulled-eq-pull s.stored from rest.1 le)
        ∙ sym (pull-from (map to_change s.stored) from),
    (rest.0, rest.1, ensure_ready-length s rest),
  )
