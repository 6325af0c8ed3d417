-- ===== src/Backends/Memory/Models.antt =====
-- A flush works on each model by itself: the store and the indexes of one model after it.
use mathlib.Core.List.{foldl, map-map, map-id}
use object_repository.Base.{
  String, ◌≡◌, refl, sym, ◌∙◌, ap, Option, none, some, List, [], ◌∷◌, map, arith, ◌==◌, eq_iff,
  Bool-cases, Option-cases, inl, inr, if◌then◌else◌,
}
use object_repository.Base.Dict.{Dict, get, put, remove, get-put}
use object_repository.Json.Number.{Number}
use object_repository.Backends.Contract.{Change, uuid_of}
use object_repository.Backends.Memory.Index.{
  UniqueIndex, Rows, of_model, drop_owner, add_owner, update_index,
}
use object_repository.Backends.Memory.{
  rows, store_row, delete_row, remove_from_unique_index, add_to_unique_index,
}
use object_repository.Backends.Memory.KeySet.{put_row, remove_row}

abbrev pub map_index :
    (UniqueIndex → UniqueIndex) → Option (List UniqueIndex) → Option (List UniqueIndex)
map_index f none = none
map_index f (some ixs) = some (map f ixs)

get-update_index :
    (unique : Dict (List UniqueIndex)) (model m : String) (f : UniqueIndex → UniqueIndex)
    → get (update_index unique model f) m
      ≡ (if model == m then map_index f (get unique m) else get unique m)
unfolding update_index
get-update_index unique model m f = elim (Option-cases (get unique model)) [
  | inl absent ↦ ground (arith, eq_iff model m)
  | inr (ixs, found) ↦ ground (arith, eq_iff model m, get-put unique model m (map f ixs))
]

module _ {N : Type 0} ⦃o : Number N⦄ where
  rows-store_row :
      (store : Dict (Rows N)) (c : Change N) (m : String)
      → rows (store_row store c) m
        ≡ (if c.model == m then put_row (rows store m) c else rows store m)
  unfolding store_row
  rows-store_row store c m = ground (
    arith,
    eq_iff c.model m,
    get-put store c.model m (put (rows store c.model) (uuid_of c.body) c.body),
  )

  rows-delete_row :
      (store : Dict (Rows N)) (c : Change N) (m : String)
      → rows (delete_row store c) m
        ≡ (if c.model == m then remove_row (rows store m) c else rows store m)
  unfolding delete_row
  rows-delete_row store c m = ground (
    arith,
    eq_iff c.model m,
    get-put store c.model m (remove (rows store c.model) (uuid_of c.body)),
  )

  -- the fold of a step that works on one model's part at a time
  fold_of_model {ℓ κ} :
      {S : Type ℓ} {T : Type κ} (view : S → T) (step : S → Change N → S) (part : T → Change N → T)
      (m : String)
      → ((s : S) (c : Change N)
          → view (step s c) ≡ (if c.model == m then part (view s) c else view s))
      → (s : S) (cs : List (Change N))
      → view (foldl step s cs) ≡ foldl part (view s) (of_model m cs)
  fold_of_model view step part m one s [] = refl
  fold_of_model view step part m one s (c ∷ cs) = elim (Bool-cases (c.model == m)) [
    | inl same ↦ rw same (
        fold_of_model view step part m one (step s c) cs
        ∙ ap (λ t. foldl part t (of_model m cs)) (rw same at (one s c)))
    | inr other ↦ rw other (
        fold_of_model view step part m one (step s c) cs
        ∙ ap (λ t. foldl part t (of_model m cs)) (rw other at (one s c)))
  ]

  map_index_fold :
      (step : UniqueIndex → Change N → UniqueIndex) (cs : List (Change N))
      (found : Option (List UniqueIndex))
      → foldl (λ t c. map_index (λ ix. step ix c) t) found cs
        ≡ map_index (λ ix. foldl step ix cs) found
  map_index_fold step [] none = refl
  map_index_fold step [] (some ixs) = ap some (sym (map-id ixs))
  map_index_fold step (c ∷ cs) none = map_index_fold step cs none
  map_index_fold step (c ∷ cs) (some ixs) =
      map_index_fold step cs (some (map (λ ix. step ix c) ixs))
      ∙ ap some (map-map (λ ix. foldl step ix cs) (λ ix. step ix c) ixs)

  -- the step of `removeFromUniqueIndex` on one key set, given the stored rows
  abbrev pub drop_step : Rows N → UniqueIndex → Change N → UniqueIndex
  drop_step stored ix c = drop_owner (get stored (uuid_of c.body)) (uuid_of c.body) ix

  abbrev pub add_step : UniqueIndex → Change N → UniqueIndex
  add_step ix c = add_owner c.body ix

  get-remove_from_unique_index :
      (store : Dict (Rows N)) (m : String) (unique : Dict (List UniqueIndex)) (c : Change N)
      → get (remove_from_unique_index store unique c) m ≡ (
          if c.model == m
          then map_index (λ ix. drop_step (rows store m) ix c) (get unique m)
          else get unique m)
  unfolding remove_from_unique_index
  get-remove_from_unique_index store m unique c = elim (Bool-cases (c.model == m)) [
    | inl same ↦
        let e : c.model ≡ m = (eq_iff c.model m).0 same in
        get-update_index unique c.model m (λ ix. drop_step (rows store c.model) ix c)
        ∙ rw same (ap (λ k. map_index (λ ix. drop_step (rows store k) ix c) (get unique m)) e)
    | inr other ↦
        get-update_index unique c.model m (λ ix. drop_step (rows store c.model) ix c)
        ∙ rw other refl
  ]

  get-add_to_unique_index :
      (m : String) (unique : Dict (List UniqueIndex)) (c : Change N)
      → get (add_to_unique_index unique c) m
        ≡ (if c.model == m then map_index (λ ix. add_step ix c) (get unique m) else get unique m)
  unfolding add_to_unique_index
  get-add_to_unique_index m unique c = get-update_index unique c.model m (λ ix. add_step ix c)

  pub rows_after :
      (store : Dict (Rows N)) (m : String) (cs ds : List (Change N))
      → rows (foldl delete_row (foldl store_row store cs) ds) m
        ≡ foldl remove_row (foldl put_row (rows store m) (of_model m cs)) (of_model m ds)
  rows_after store m cs ds =
      fold_of_model (λ s. rows s m) delete_row remove_row m (λ s c. rows-delete_row s c m)
        (foldl store_row store cs) ds
      ∙ ap (λ t. foldl remove_row t (of_model m ds))
          (fold_of_model (λ s. rows s m) store_row put_row m (λ s c. rows-store_row s c m) store cs)

  pub unique_after :
      (store : Dict (Rows N)) (unique : Dict (List UniqueIndex)) (m : String)
      (touched cs : List (Change N))
      → get (foldl add_to_unique_index (foldl (remove_from_unique_index store) unique touched) cs) m
        ≡ map_index
            (λ ix.
              foldl add_step
                (foldl (drop_step (rows store m)) ix (of_model m touched))
                (of_model m cs))
            (get unique m)
  unique_after store unique m touched cs =
      fold_of_model (λ u. get u m) add_to_unique_index (λ t c. map_index (λ ix. add_step ix c) t) m
        (get-add_to_unique_index m) (foldl (remove_from_unique_index store) unique touched) cs
      ∙ map_index_fold add_step (of_model m cs)
          (get (foldl (remove_from_unique_index store) unique touched) m)
      ∙ ap (map_index (λ ix. foldl add_step ix (of_model m cs))) (
          fold_of_model (λ u. get u m) (remove_from_unique_index store)
            (λ t c. map_index (λ ix. drop_step (rows store m) ix c) t) m
            (get-remove_from_unique_index store m) unique touched
          ∙ map_index_fold (drop_step (rows store m)) (of_model m touched) (get unique m))
      ∙ map_index_twice (get unique m)
    where
      map_index_twice :
          (found : Option (List UniqueIndex))
          → map_index
              (λ ix. foldl add_step ix (of_model m cs))
              (map_index (λ ix. foldl (drop_step (rows store m)) ix (of_model m touched)) found)
            ≡ map_index
                (λ ix.
                  foldl add_step
                    (foldl (drop_step (rows store m)) ix (of_model m touched))
                    (of_model m cs))
                found
      map_index_twice none = refl
      map_index_twice (some ixs) = ap some (
          map-map (λ ix. foldl add_step ix (of_model m cs))
            (λ ix. foldl (drop_step (rows store m)) ix (of_model m touched)) ixs)
