-- ===== src/Backends/Memory/Uniqueness.antt =====
-- No sequence of operations stores two rows of a model with one unique key.
use mathlib.Core.Path.{subst}
use mathlib.Core.List.{foldl}
use object_repository.Base.{
  ℕ, String, ◌≡◌, refl, sym, ◌∙◌, true, false, Option, none, some, List, [], ◌∷◌, ◌++◌, map, filter,
  arith, or_else, ◌==◌, eq_iff, Bool-cases, Option-cases, inl, inr, All, Occurs, filter-append,
}
use object_repository.Base.{not as invert}
use object_repository.Base.Dict.{Dict, get, get-put, get-empty}
use object_repository.Json.{JsonObject}
use object_repository.Json.Number.{Number}
use object_repository.Backends.Contract.{Change, IndexSpec}
use object_repository.Backends.Unique.{unique_key, unique_key_sets}
use object_repository.Backends.Memory.Index.{
  UniqueIndex, Rows, of_model, uuids, check_changes, check_key_sets, check_models, check_unique,
  models_of, build_index,
}
use object_repository.Backends.Memory.{
  Memory, empty, rows, save, remove_record, discard_pending, register_model, flush, persist, stamp,
}
use object_repository.Backends.Memory.KeySet.{
  has, put_row, remove_row, Owned, flush-Owned, fields-add_owner, fields-drop_owners,
}
use object_repository.Backends.Memory.Models.{
  rows_after, unique_after, map_index, add_step, drop_step,
}

has-filter :
    (m k : String) (xs : List String)
    → (m == k) ≡ false
    → has m (filter (λ x. invert (x == k)) xs) ≡ has m xs
has-filter m k [] h = refl
has-filter m k (x ∷ xs) h = ground (arith, has-filter m k xs h, eq_iff x k, eq_iff x m, eq_iff m k)

module _ {N : Type 0} ⦃o : Number N⦄ where
  of_model-nil :
      (m : String) (cs : List (Change N)) → has m (models_of cs) ≡ false → of_model m cs ≡ []
  unfolding models_of
  of_model-nil m [] h = refl
  of_model-nil m (c ∷ cs) h = ground (
    arith,
    eq_iff c.model m,
    eq_iff m c.model,
    has-filter m c.model (models_of cs),
    of_model-nil m cs,
  )

  -- what the check of one key set establishes
  abbrev Passes : List String → List (Change N) → UniqueIndex → Type 0
  Passes freed changes ix = check_changes ix.fields ix.owners freed [] changes ≡ false

  check_key_sets-All :
      (model : String) (freed : List String) (changes : List (Change N)) (ixs : List UniqueIndex)
      → check_key_sets model freed changes ixs ≡ none
      → All (Passes freed changes) ixs
  unfolding check_key_sets
  check_key_sets-All model freed changes [] h = tt
  check_key_sets-All model freed changes (ix ∷ ixs) h =
      elim (Bool-cases (check_changes ix.fields ix.owners freed [] changes)) [
        | inl fails ↦ absurd (ground arith)
        | inr passes ↦
            (passes, check_key_sets-All model freed changes ixs (rw (passes, check_key_sets) at h))
      ]

  no_changes-Passes :
      (freed : List String) (changes : List (Change N)) (ixs : List UniqueIndex)
      → changes ≡ []
      → All (Passes freed changes) ixs
  unfolding check_changes
  no_changes-Passes freed changes [] e = tt
  no_changes-Passes freed changes (ix ∷ ixs) e = (rw e refl, no_changes-Passes freed changes ixs e)

  check_models-All :
      (unique : Dict (List UniqueIndex)) (saved removed : List (Change N)) (models : List String)
      (m : String)
      → check_models unique saved removed models ≡ none
      → has m models ≡ true
      → All
          (Passes (uuids (of_model m saved) ++ uuids (of_model m removed)) (of_model m saved))
          (or_else (get unique m) [])
  unfolding check_models
  check_models-All unique saved removed [] m h member = cc
  check_models-All unique saved removed (k ∷ models) m h member =
      let changes = of_model k saved in
      let freed = uuids changes ++ uuids (of_model k removed) in
      elim (Option-cases (check_key_sets k freed changes (or_else (get unique k) []))) [
        | inr (e, fails) ↦ absurd (ground arith)
        | inl passes ↦ elim (Bool-cases (k == m)) [
          | inl same ↦
              rw (← (eq_iff k m).0 same)
                (check_key_sets-All k freed changes (or_else (get unique k) []) passes)
          | inr other ↦
              check_models-All unique saved removed models m (rw (passes, check_models) at h)
                (ground arith)
        ]
      ]

  check_unique-All :
      (unique : Dict (List UniqueIndex)) (saved removed : List (Change N)) (m : String)
      → check_unique unique saved removed ≡ none
      → All
          (Passes (uuids (of_model m saved) ++ uuids (of_model m removed)) (of_model m saved))
          (or_else (get unique m) [])
  unfolding check_unique
  check_unique-All unique saved removed m h = elim (Bool-cases (has m (models_of saved))) [
    | inl named ↦ check_models-All unique saved removed (models_of saved) m h named
    | inr unnamed ↦
        no_changes-Passes (uuids (of_model m saved) ++ uuids (of_model m removed))
          (of_model m saved) (or_else (get unique m) []) (of_model-nil m saved unnamed)
  ]

  -- Every index of a model knows the owner of every key of the stored rows.
  pub record IsIndexed (s : Memory N) : Type 0 where
    pub at_model :
        (m : String)
        → All (λ ix. Owned ix.fields ix.owners (rows s.store m)) (or_else (get s.unique m) [])

  fields-add_owners :
      (cs : List (Change N)) (ix : UniqueIndex) → (foldl add_step ix cs).fields ≡ ix.fields
  fields-add_owners [] ix = refl
  fields-add_owners (c ∷ cs) ix = fields-add_owners cs (add_step ix c) ∙ fields-add_owner c.body ix

  abbrev after : Rows N → List (Change N) → List (Change N) → Rows N
  after stored cs ds = foldl remove_row (foldl put_row stored cs) ds

  flushed :
      (stored : Rows N) (cs ds : List (Change N)) (touched : List (Change N))
      → touched ≡ cs ++ ds
      → (ixs : List UniqueIndex) → All (Passes (uuids cs ++ uuids ds) cs) ixs
      → All (λ ix. Owned ix.fields ix.owners stored) ixs
      → All
          (λ ix. Owned ix.fields ix.owners (after stored cs ds))
          (map (λ ix. foldl add_step (foldl (drop_step stored) ix touched) cs) ixs)
  flushed stored cs ds touched e [] p h = tt
  flushed stored cs ds touched e (ix ∷ ixs) p h =
      let dropped = foldl (drop_step stored) ix (cs ++ ds) in
      let same_fields = fields-add_owners cs dropped ∙ fields-drop_owners stored (cs ++ ds) ix in
      (
        rw e (
            subst (λ f. Owned f (foldl add_step dropped cs).owners (after stored cs ds))
              (sym same_fields) (flush-Owned ix stored cs ds p.0 h.0)),
        flushed stored cs ds touched e ixs p.1 h.1,
      )

  flushed_at :
      (stored : Rows N) (cs ds touched : List (Change N)) (found : Option (List UniqueIndex))
      → touched ≡ cs ++ ds
      → All (Passes (uuids cs ++ uuids ds) cs) (or_else found [])
      → All (λ ix. Owned ix.fields ix.owners stored) (or_else found [])
      → All
          (λ ix. Owned ix.fields ix.owners (after stored cs ds))
          (or_else
            (map_index (λ ix. foldl add_step (foldl (drop_step stored) ix touched) cs) found)
            [])
  flushed_at stored cs ds touched none e p h = tt
  flushed_at stored cs ds touched (some ixs) e p h = flushed stored cs ds touched e ixs p h

  flush-IsIndexed :
      (s : Memory N) (saved removed : List (Change N))
      → check_unique s.unique saved removed ≡ none
      → IsIndexed s
      → IsIndexed (flush s saved removed)
  unfolding flush
  flush-IsIndexed s saved removed h i = record {
    at_model = λ m.
        rw
          (
            unique_after s.store s.unique m (saved ++ removed) saved,
            rows_after s.store m saved removed,
          )
          (flushed_at (rows s.store m) (of_model m saved) (of_model m removed)
            (of_model m (saved ++ removed)) (get s.unique m)
            (filter-append (λ (c : Change N). c.model == m) saved removed)
            (check_unique-All s.unique saved removed m h) (i.at_model m));
  }

  persist-IsIndexed :
      (mint : ℕ → String) (s : Memory N) → IsIndexed s → IsIndexed (persist mint s).0
  unfolding persist
  persist-IsIndexed mint s i =
      let (saved, minted) = stamp mint s.minted s.save_queue in
      let cleared = record s { save_queue = []; remove_queue = []; minted = minted } in
      let kept : IsIndexed cleared = record { at_model = i.at_model } in
      elim (Option-cases (check_unique s.unique saved s.remove_queue)) [
        | inr (e, fails) ↦ rw (fails, persist) kept
        | inl passes ↦
            rw (passes, persist) (flush-IsIndexed cleared saved s.remove_queue passes kept)
      ]

  built-Owned :
      (key_sets : List (List String)) (stored : Rows N)
      → stored ≡ []
      → All
          (λ ix. Owned ix.fields ix.owners stored)
          (map (λ fields. build_index fields stored) key_sets)
  built-Owned [] stored e = tt
  built-Owned (fields ∷ rest) stored e = (
    (λ u r key found k. cc (rw e at found, get-empty {V = JsonObject N} u)),
    built-Owned rest stored e,
  )

  register_model-IsIndexed :
      (s : Memory N) (m : String) (indexes : List (IndexSpec N))
      → rows s.store m ≡ []
      → IsIndexed s
      → IsIndexed (register_model s m indexes)
  unfolding register_model
  register_model-IsIndexed s m indexes e i = record {
    at_model = λ k. rw get-put (elim (Bool-cases (m == k)) [
      | inl same ↦
          rw (same, ← (eq_iff m k).0 same)
            (built-Owned (unique_key_sets indexes) (rows s.store m) e)
      | inr other ↦ rw other (i.at_model k)
    ]);
  }

-- One operation of a client. A model is registered while it has no rows.
pub data Step {N : Type 0} ⦃o : Number N⦄ (mint : ℕ → String) (s : Memory N)
    : Memory N → Type 0 where
  register :
      (m : String) (indexes : List (IndexSpec N))
      → rows s.store m ≡ []
      → Step mint s (register_model s m indexes)
  saves :
      (m : String) (body : JsonObject N) (dirty : Option (List String))
      → Step mint s (save s m body dirty)
  removes : (m : String) (body : JsonObject N) → Step mint s (remove_record s m body)
  discards : Step mint s (discard_pending s)
  persists : Step mint s (persist mint s).0

pub data Reach {N : Type 0} ⦃o : Number N⦄ (mint : ℕ → String) : Memory N → Type 0 where
  start : Reach mint empty
  next : {s t : Memory N} → Reach mint s → Step mint s t → Reach mint t

module _ {N : Type 0} ⦃o : Number N⦄ (mint : ℕ → String) where
  Step-IsIndexed : {s t : Memory N} → Step mint s t → IsIndexed s → IsIndexed t
  unfolding save remove_record discard_pending
  Step-IsIndexed {s} (register m indexes e) i = register_model-IsIndexed s m indexes e i
  Step-IsIndexed (saves m body dirty) i = record { at_model = i.at_model }
  Step-IsIndexed (removes m body) i = record { at_model = i.at_model }
  Step-IsIndexed discards i = record { at_model = i.at_model }
  Step-IsIndexed {s} persists i = persist-IsIndexed mint s i

  pub Reach-IsIndexed : {s : Memory N} → Reach mint s → IsIndexed s
  Reach-IsIndexed start = record { at_model = λ m. unfold get in tt }
  Reach-IsIndexed (next r st) = Step-IsIndexed st (Reach-IsIndexed r)

  -- Two stored rows of a model that agree on the key of one of its unique key sets have one uuid.
  abbrev HaveDistinctKeys : Rows N → UniqueIndex → Type 0
  HaveDistinctKeys stored ix =
      (u v : String) (r q : JsonObject N) (key : String)
      → get stored u ≡ some r
      → get stored v ≡ some q
      → unique_key r ix.fields ≡ some key
      → unique_key q ix.fields ≡ some key
      → u ≡ v

  distinct_of_owned :
      (stored : Rows N) (ixs : List UniqueIndex)
      → All (λ ix. Owned ix.fields ix.owners stored) ixs
      → All (HaveDistinctKeys stored) ixs
  distinct_of_owned stored [] h = tt
  distinct_of_owned stored (ix ∷ ixs) h = (
    (λ u v r q key p q' k k'. cc (h.0 u r key p k, h.0 v q key q' k')),
    distinct_of_owned stored ixs h.1,
  )

  distinct_at :
      (stored : Rows N) (ixs : List UniqueIndex) (ix : UniqueIndex)
      → Occurs ix ixs
      → All (HaveDistinctKeys stored) ixs
      → HaveDistinctKeys stored ix
  distinct_at stored [] ix o h = elim o [ ]
  distinct_at stored (_ ∷ ixs) ix Occurs.here h = h.0
  distinct_at stored (_ ∷ ixs) ix (Occurs.later o) h = distinct_at stored ixs ix o h.1

  -- Whatever a client does, from the empty backend on, by registering models that have no rows yet,
  -- saving, removing, discarding and persisting: if two stored rows of a model have the same key of one
  -- of its unique key sets, they are stored under the same uuid.
  pub Reach-distinct_keys :
      {s : Memory N} (m : String) (ix : UniqueIndex) (u v : String) (r q : JsonObject N)
      (key : String)
      → Reach mint s
      → Occurs ix (or_else (get s.unique m) [])
      → get (rows s.store m) u ≡ some r
      → get (rows s.store m) v ≡ some q
      → unique_key r ix.fields ≡ some key
      → unique_key q ix.fields ≡ some key
      → u ≡ v
  Reach-distinct_keys {s} m ix u v r q key reached of_m =
      distinct_at (rows s.store m) (or_else (get s.unique m) []) ix of_m
        (distinct_of_owned (rows s.store m) (or_else (get s.unique m) [])
          ((Reach-IsIndexed reached).at_model m))
        u v r q key
