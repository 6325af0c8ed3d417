-- ===== src/Backends/Sql/Writes/Complete.antt =====
-- What the statements of a flush write (backends/sql/SqlBackend.ts).
use mathlib.Core.List.{foldl, Perm, perm_middle, append_assoc, append-nil}
use mathlib.Core.List.Perm
use object_repository.Base.{
  concat, ℕ, zero, suc, ◌≤◌, ◌<◌, String, ◌≡◌, refl, ap, ◌∙◌, sym, Option, List, [], ◌∷◌, ◌++◌, map,
  arith, length, take, drop, length-take, length-drop, take-append-drop, All, All-append,
  Bool-cases, inl, inr, ◌==◌, or_else,
}
use object_repository.Base.Dict.{Dict, get, put, values}
use object_repository.Backends.Contract.{Change}
use object_repository.Backends.Sql.Dialect.{FieldSpec}
use object_repository.Backends.Sql.Reads.{SqlBackend, fields_of}
use object_repository.Backends.Sql.Writes.{
  chunk_on, chunked, add_to, group_by, group_by_model, signature, bucket_by_dirty_columns,
  columns_of_bucket, Write, upsert, delete, changes_of, upserts_of_bucket, upserts_of_buckets,
  upserts_of_groups, deletes_of_groups, writes_of, max_batch_rows,
}

module _ {A : Type 0} where
  concat-append : (xss yss : List (List A)) → concat (xss ++ yss) ≡ concat xss ++ concat yss
  concat-append [] yss = refl
  concat-append (xs ∷ xss) yss =
      ap (◌++◌ xs) (concat-append xss yss) ∙ sym (append_assoc xs (concat xss) (concat yss))

  -- With fuel for every item, the chunks hold all items in their order.
  concat-chunk_on :
      (fuel size : ℕ) (xs : List A)
      → 0 < size
      → length xs ≤ fuel
      → concat (chunk_on fuel size xs) ≡ xs
  unfolding chunk_on
  concat-chunk_on zero size [] h k = refl
  concat-chunk_on zero size (x ∷ xs) h k = absurd (omega arith)
  concat-chunk_on (suc fuel) size [] h k = refl
  concat-chunk_on (suc fuel) size (x ∷ xs) h k =
      ap (◌++◌ (take size (x ∷ xs))) (
        concat-chunk_on fuel size (drop size (x ∷ xs)) h (omega (arith, length-drop size (x ∷ xs))))
      ∙ take-append-drop size (x ∷ xs)

  chunk_on_bounded :
      (fuel size : ℕ) (xs : List A) → All (λ c. length c ≤ size) (chunk_on fuel size xs)
  unfolding chunk_on
  chunk_on_bounded zero size xs = tt
  chunk_on_bounded (suc fuel) size [] = tt
  chunk_on_bounded (suc fuel) size (x ∷ xs) =
      (omega (arith, length-take size (x ∷ xs)), chunk_on_bounded fuel size (drop size (x ∷ xs)))

  -- Adding to a group adds to all that the groups hold.
  concat-add_to-perm :
      (d : Dict (List A)) (k : String) (x : A)
      → Perm (concat (values (put d k (or_else (get d k) [] ++ x ∷ [])))) (x ∷ concat (values d))
  unfolding get put
  concat-add_to-perm [] k x = Perm.refl (x ∷ [])
  concat-add_to-perm ((j, ys) ∷ d) k x = elim (Bool-cases (j == k)) [
    | inl same ↦
        rw (same, append_assoc ys (x ∷ []) (concat (values d))) (perm_middle ys (concat (values d)))
    | inr other ↦ rw other (
        Perm.trans (Perm.append_left ys (concat-add_to-perm d k x))
          (perm_middle ys (concat (values d))))
  ]

  concat-foldl_add-perm :
      (key : A → String) (d : Dict (List A)) (xs : List A)
      → Perm (concat (values (foldl (add_to key) d xs))) (concat (values d) ++ xs)
  concat-foldl_add-perm key d [] =
      rw (append-nil (concat (values d))) (Perm.refl (concat (values d)))
  concat-foldl_add-perm key d (x ∷ xs) =
      Perm.trans (concat-foldl_add-perm key (add_to key d x) xs) (
        Perm.trans (Perm.append_right xs (concat-add_to-perm d (key x) x))
          (Perm.symm (perm_middle (concat (values d)) xs)))

  -- The groups hold each element once.
  pub concat-group_by-perm :
      (key : A → String) (xs : List A) → Perm (concat (values (group_by key xs))) xs
  unfolding group_by
  concat-group_by-perm key xs = concat-foldl_add-perm key [] xs

module _ {N : Type 0} where
  abbrev pub written : List (Write N) → List (Change N)
  written ws = concat (map changes_of ws)

  abbrev pub IsSmall : Write N → Type 0
  IsSmall w = length (changes_of w) ≤ max_batch_rows

  written-append : (ws vs : List (Write N)) → written (ws ++ vs) ≡ written ws ++ written vs
  written-append [] vs = refl
  written-append (w ∷ ws) vs =
      ap (◌++◌ (changes_of w)) (written-append ws vs)
      ∙ sym (append_assoc (changes_of w) (written ws) (written vs))

  written-upserts :
      (model : String) (updated : Option (List String)) (chunks : List (List (Change N)))
      → written (map (upsert model updated) chunks) ≡ concat chunks
  written-upserts model updated [] = refl
  written-upserts model updated (c ∷ cs) = ap (◌++◌ c) (written-upserts model updated cs)

  written-deletes :
      (model : String) (chunks : List (List (Change N)))
      → written (map (delete model) chunks) ≡ concat chunks
  written-deletes model [] = refl
  written-deletes model (c ∷ cs) = ap (◌++◌ c) (written-deletes model cs)

  chunks_of : (changes : List (Change N)) → concat (chunked changes max_batch_rows) ≡ changes
  unfolding chunked
  chunks_of changes =
      concat-chunk_on (length changes) max_batch_rows changes (omega arith) (omega arith)

  written-bucket :
      (model : String) (fs : List FieldSpec) (bucket : List (Change N))
      → written (upserts_of_bucket model fs bucket) ≡ bucket
  unfolding upserts_of_bucket
  written-bucket model fs bucket =
      written-upserts model (columns_of_bucket fs bucket) (chunked bucket max_batch_rows)
      ∙ chunks_of bucket

  written-buckets :
      (model : String) (fs : List FieldSpec) (buckets : List (List (Change N)))
      → written (upserts_of_buckets model fs buckets) ≡ concat buckets
  unfolding upserts_of_buckets
  written-buckets model fs [] = refl
  written-buckets model fs (bucket ∷ buckets) =
      rw
        (
          written-append (upserts_of_bucket model fs bucket) (upserts_of_buckets model fs buckets),
          written-bucket model fs bucket,
          written-buckets model fs buckets,
        )
        refl

  bucketed-perm :
      (fs : List FieldSpec) (changes : List (Change N))
      → Perm (concat (bucket_by_dirty_columns fs changes)) changes
  unfolding bucket_by_dirty_columns
  bucketed-perm fs changes = concat-group_by-perm (signature fs) changes

  written-groups-perm :
      (b : SqlBackend) (groups : Dict (List (Change N)))
      → Perm (written (upserts_of_groups b groups)) (concat (values groups))
  unfolding upserts_of_groups
  written-groups-perm b [] = Perm.refl []
  written-groups-perm b ((model, changes) ∷ groups) =
      let fs = fields_of b model in
      let buckets = bucket_by_dirty_columns fs changes in
      rw
        (
          written-append (upserts_of_buckets model fs buckets) (upserts_of_groups b groups),
          written-buckets model fs buckets,
        )
        (Perm.append (bucketed-perm fs changes) (written-groups-perm b groups))

  written-delete_groups :
      (groups : Dict (List (Change N)))
      → written (deletes_of_groups groups) ≡ concat (values groups)
  unfolding deletes_of_groups
  written-delete_groups [] = refl
  written-delete_groups ((model, changes) ∷ groups) =
      rw
        (
          written-append (map (delete model) (chunked changes max_batch_rows))
              (deletes_of_groups groups),
          written-deletes model (chunked changes max_batch_rows),
          chunks_of changes,
          written-delete_groups groups,
        )
        refl

  grouped-perm :
      (changes : List (Change N)) → Perm (concat (values (group_by_model changes))) changes
  unfolding group_by_model
  grouped-perm changes = concat-group_by-perm (λ c. c.model) changes

  map-IsSmall :
      (f : List (Change N) → Write N) (chunks : List (List (Change N)))
      → ((c : List (Change N)) → changes_of (f c) ≡ c)
      → All (λ c. length c ≤ max_batch_rows) chunks
      → All IsSmall (map f chunks)
  map-IsSmall f [] same h = tt
  map-IsSmall f (c ∷ cs) same h = (rw (same c) h.0, map-IsSmall f cs same h.1)

  chunked_bounded :
      (changes : List (Change N))
      → All (λ c. length c ≤ max_batch_rows) (chunked changes max_batch_rows)
  unfolding chunked
  chunked_bounded changes = chunk_on_bounded (length changes) max_batch_rows changes

  buckets-IsSmall :
      (model : String) (fs : List FieldSpec) (buckets : List (List (Change N)))
      → All IsSmall (upserts_of_buckets model fs buckets)
  unfolding upserts_of_buckets upserts_of_bucket
  buckets-IsSmall model fs [] = tt
  buckets-IsSmall model fs (bucket ∷ buckets) =
      All-append IsSmall (upserts_of_bucket model fs bucket) (upserts_of_buckets model fs buckets)
        (map-IsSmall (upsert model (columns_of_bucket fs bucket)) (chunked bucket max_batch_rows)
          (λ c. refl) (chunked_bounded bucket))
        (buckets-IsSmall model fs buckets)

  upserts-IsSmall :
      (b : SqlBackend) (groups : Dict (List (Change N))) → All IsSmall (upserts_of_groups b groups)
  unfolding upserts_of_groups
  upserts-IsSmall b [] = tt
  upserts-IsSmall b ((model, changes) ∷ groups) =
      let fs = fields_of b model in
      All-append IsSmall (upserts_of_buckets model fs (bucket_by_dirty_columns fs changes))
        (upserts_of_groups b groups) (buckets-IsSmall model fs (bucket_by_dirty_columns fs changes))
        (upserts-IsSmall b groups)

  deletes-IsSmall : (groups : Dict (List (Change N))) → All IsSmall (deletes_of_groups groups)
  unfolding deletes_of_groups
  deletes-IsSmall [] = tt
  deletes-IsSmall ((model, changes) ∷ groups) =
      All-append IsSmall (map (delete model) (chunked changes max_batch_rows))
        (deletes_of_groups groups)
        (map-IsSmall (delete model) (chunked changes max_batch_rows) (λ c. refl)
          (chunked_bounded changes))
        (deletes-IsSmall groups)

  -- The statements of a flush write each queued save and remove once, whatever the models, the dirty
  -- columns and the number of changes are, and each has at most 500 of them.
  pub writes_of-perm :
      (b : SqlBackend) (saved removed : List (Change N))
      → Perm (concat (map changes_of (writes_of b saved removed))) (saved ++ removed)
        × All (λ w. length (changes_of w) ≤ max_batch_rows) (writes_of b saved removed)
  unfolding writes_of
  writes_of-perm b saved removed =
      let upserts = upserts_of_groups b (group_by_model saved) in
      let deletes = deletes_of_groups (group_by_model removed) in
      (
        rw (written-append upserts deletes, written-delete_groups (group_by_model removed))
            (Perm.append
              (Perm.trans (written-groups-perm b (group_by_model saved)) (grouped-perm saved))
              (grouped-perm removed)),
        All-append IsSmall upserts deletes (upserts-IsSmall b (group_by_model saved))
            (deletes-IsSmall (group_by_model removed)),
      )
