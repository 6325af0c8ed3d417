-- ===== src/Sync/Durable/Numbered.antt =====
-- The sequence numbers of the durable changelog (sync/BackendSyncTarget.ts) are the positions in it.
use mathlib.Core.Path.{subst}
use object_repository.Base.{
  ℕ, zero, suc, max, ◌⊎◌, ◌+◌, ◌-◌, ◌≤◌, ◌<◌, ◌≡◌, refl, ◌∙◌, sym, ap, true, false, List, [], ◌∷◌,
  ◌++◌, filter, arith, length, drop, ltb, length-append, length-drop, Bool-cases, inl, inr,
}
use object_repository.Base.Sort.{sort, insert_sorted}
use object_repository.Sync.Contract.{SyncChange}
use object_repository.Sync.Durable.{
  ChangeRow, first_of, by_last_seq, by_seq, seq_of, last_seq, row_of, Settled, settled, queue_row,
  seq_after, push_rows, rows_after, next_cursor,
}

none_left : (from k seq : ℕ) → seq ≡ suc k → ltb from seq ≡ true → from - suc k ≡ 0
none_left from k seq e h = ground arith

none_before : (from k seq : ℕ) → seq ≡ suc k → ltb from seq ≡ true → from - k ≡ 0
none_before from k seq e h = ground arith

one_more : (from k seq : ℕ) → seq ≡ suc k → ltb from seq ≡ false → from - k ≡ suc (from - suc k)
one_more from k seq e h = ground arith

module _ {N : Type 0} where
  -- The rows are numbered from the one after `k`.
  abbrev pub IsNumbered : ℕ → List (ChangeRow N) → Type 0
  IsNumbered k [] = Unit
  IsNumbered k (r ∷ rows) = (r.seq ≡ suc k) × IsNumbered (suc k) rows

  abbrev pub end_of : ℕ → List (ChangeRow N) → ℕ
  end_of k [] = 0
  end_of k (r ∷ rows) = suc k + length rows

  pub IsNumbered-append :
      (k : ℕ) (a b : List (ChangeRow N))
      → IsNumbered k a
      → IsNumbered (k + length a) b
      → IsNumbered k (a ++ b)
  IsNumbered-append k [] b h i = subst (λ n. IsNumbered n b) (omega arith) i
  IsNumbered-append k (r ∷ a) b h i =
      (h.0, IsNumbered-append (suc k) a b h.1 (subst (λ n. IsNumbered n b) (omega arith) i))

  insert_sorted-seq :
      (x : ChangeRow N) (ys : List (ChangeRow N))
      → (ys ≡ []) ⊎ (x.seq < seq_of (first_of ys))
      → seq_of (first_of (insert_sorted by_last_seq x ys)) ≡ max x.seq (seq_of (first_of ys))
  unfolding insert_sorted
  insert_sorted-seq x [] h = omega arith
  insert_sorted-seq x (y ∷ ys) (inl e) = cc
  insert_sorted-seq x (y ∷ ys) (inr h) = ground arith

  sort-seq :
      (k : ℕ) (rows : List (ChangeRow N))
      → IsNumbered k rows
      → seq_of (first_of (sort by_last_seq rows)) ≡ end_of k rows
  unfolding sort
  sort-seq k [] h = refl
  sort-seq k (r ∷ []) h = omega (arith, h.0)
  sort-seq k (r ∷ s ∷ rows) h =
      let rest = sort-seq (suc k) (s ∷ rows) h.1 in
      insert_sorted-seq r (sort by_last_seq (s ∷ rows)) (inr (omega (arith, rest, h.0)))
      ∙ omega (arith, rest, h.0)

  pub last_seq-length :
      (rows : List (ChangeRow N)) → IsNumbered 0 rows → last_seq rows ≡ length rows
  unfolding last_seq sort
  last_seq-length rows h = sort-seq 0 rows h ∙ end_of-length rows
    where
      end_of-length : (rows : List (ChangeRow N)) → end_of 0 rows ≡ length rows
      end_of-length [] = refl
      end_of-length (r ∷ rows) = omega arith

  queue_row-IsNumbered :
      (k : ℕ) (done : Settled N) (c : SyncChange N) (queued : List (ChangeRow N)) (seq : ℕ)
      → IsNumbered k queued
      → seq ≡ k + length queued
      → IsNumbered k (queue_row done c seq queued)
        × (seq_after done seq ≡ k + length (queue_row done c seq queued))
  queue_row-IsNumbered k Settled.appended c queued seq h e = (
    IsNumbered-append k queued (row_of (suc seq) c ∷ []) h (omega (arith, e), tt),
    omega (arith, length-append queued (row_of (suc seq) c ∷ [])),
  )
  queue_row-IsNumbered k (Settled.refused row) c queued seq h e = (h, e)

  pub push_rows-IsNumbered :
      (k : ℕ) (stored : List (ChangeRow N)) (changes : List (SyncChange N)) (seq : ℕ)
      (queued : List (ChangeRow N))
      → IsNumbered k queued
      → seq ≡ k + length queued
      → let done = push_rows stored changes seq queued in
        IsNumbered k done.0 × (done.1 ≡ k + length done.0)
  unfolding push_rows
  push_rows-IsNumbered k stored [] seq queued h e = (h, e)
  push_rows-IsNumbered k stored (c ∷ cs) seq queued h e =
      let done = settled stored c in
      let step = queue_row-IsNumbered k done c queued seq h e in
      push_rows-IsNumbered k stored cs (seq_after done seq) (queue_row done c seq queued) step.0
        step.1

  drop_nil : (n : ℕ) → drop {A = ChangeRow N} n [] ≡ []
  drop_nil zero = refl
  drop_nil (suc n) = refl

  filter-drop :
      (k from : ℕ) (rows : List (ChangeRow N))
      → IsNumbered k rows
      → filter (λ row. ltb from row.seq) rows ≡ drop (from - k) rows
  filter-drop k from [] h = sym (drop_nil (from - k))
  filter-drop k from (r ∷ rows) h = elim (Bool-cases (ltb from r.seq)) [
    | inl later ↦
        rw (later, filter-drop (suc k) from rows h.1)
          (ap (λ n. r ∷ drop n rows) (none_left from k r.seq h.0 later)
            ∙ ap (λ n. drop n (r ∷ rows)) (sym (none_before from k r.seq h.0 later)))
    | inr earlier ↦
        rw (earlier, filter-drop (suc k) from rows h.1)
          (ap (λ n. drop n (r ∷ rows)) (sym (one_more from k r.seq h.0 earlier)))
  ]

  drop-IsNumbered :
      (n k : ℕ) (rows : List (ChangeRow N)) → IsNumbered k rows → IsNumbered (n + k) (drop n rows)
  drop-IsNumbered zero k rows h = subst (λ m. IsNumbered m rows) (omega arith) h
  drop-IsNumbered (suc n) k [] h = tt
  drop-IsNumbered (suc n) k (r ∷ rows) h =
      subst (λ m. IsNumbered m (drop n rows)) (omega arith) (drop-IsNumbered n (suc k) rows h.1)

  sort-IsNumbered :
      (k : ℕ) (rows : List (ChangeRow N)) → IsNumbered k rows → sort by_seq rows ≡ rows
  unfolding sort insert_sorted
  sort-IsNumbered k [] h = refl
  sort-IsNumbered k (r ∷ []) h = refl
  sort-IsNumbered k (r ∷ s ∷ rows) h =
      ap (insert_sorted by_seq r) (sort-IsNumbered (suc k) (s ∷ rows) h.1) ∙ ground arith

  next_cursor-length :
      (k from : ℕ) (rows : List (ChangeRow N))
      → IsNumbered k rows
      → next_cursor from rows ≡ elim rows [ [] ↦ from | r ∷ rest ↦ suc k + length rest ]
  next_cursor-length k from [] h = refl
  next_cursor-length k from (r ∷ []) h = omega (arith, h.0)
  next_cursor-length k from (r ∷ s ∷ rows) h =
      next_cursor-length (suc k) from (s ∷ rows) h.1 ∙ omega arith

  -- What a pull reads from a numbered log after a position in it.
  pub rows_after-drop :
      (rows : List (ChangeRow N)) (from : ℕ)
      → IsNumbered 0 rows
      → rows_after rows from ≡ drop from rows
  unfolding rows_after sort
  rows_after-drop rows from h =
      ap (sort by_seq) (filter-drop 0 from rows h ∙ ap (λ n. drop n rows) (omega arith))
      ∙ sort-IsNumbered (from + 0) (drop from rows) (drop-IsNumbered from 0 rows h)

  -- the cursor after a pull from a position in a numbered log
  pub next_cursor-drop :
      (rows : List (ChangeRow N)) (from : ℕ)
      → IsNumbered 0 rows
      → from ≤ length rows
      → next_cursor from (drop from rows) ≡ length rows
  next_cursor-drop rows from h le =
      next_cursor-length (from + 0) from (drop from rows) (drop-IsNumbered from 0 rows h)
      ∙ by_rest (drop from rows) (length-drop from rows)
    where
      by_rest :
          (rest : List (ChangeRow N))
          → length rest ≡ length rows - from
          → (elim rest [ [] ↦ from | r ∷ more ↦ suc (from + 0) + length more ]) ≡ length rows
      by_rest [] e = omega (arith, e, le)
      by_rest (r ∷ more) e = omega (arith, e, le)
