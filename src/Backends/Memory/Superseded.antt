-- ===== src/Backends/Memory/Superseded.antt =====
-- A unique key that a later save of the same batch replaces.
use mathlib.Core.List.{foldl}
use object_repository.Base.{
  ℕ, String, ◌≡◌, ◌≢◌, refl, ◌∙◌, ap, true, Option, none, some, List, [], ◌∷◌, ◌++◌, arith, eq_iff,
  eq_refl, or_else, err,
}
use object_repository.Base.Dict.{Dict, get, put, get-put, get-empty}
use object_repository.Json.{JsonObject}
use object_repository.Json.Number.{Number}
use object_repository.Backends.Contract.{Change, uuid_of, has_uuid}
use object_repository.Backends.Unique.{UniqueConstraintError, unique_key}
use object_repository.Backends.Memory.Index.{
  UniqueIndex, of_model, uuids, check_unique, check_models, models_of, check_key_sets,
  check_changes, add_owner, drop_owner,
}
use object_repository.Backends.Memory.{Memory, rows, persist, save, stamp, discard_pending}
use object_repository.Backends.Memory.Flushed.{last_body, persist-stores}
use object_repository.Backends.Memory.Refused.{index_after, get-unique_persist, fields-index_after}
use object_repository.Backends.Memory.Models.{map_index, add_step, drop_step}

abbrev first_error :
    Option UniqueConstraintError → Option UniqueConstraintError → Option UniqueConstraintError
first_error later found = elim found [ none ↦ later | some e ↦ some e ]

module _ {N : Type 0} ⦃o : Number N⦄ where
  -- Three saves of a model without a hint on the fields that changed.
  abbrev pub saving : String → JsonObject N → Change N
  saving m body = record { model = m; body = body; dirty = none }

  stamp_named :
      (mint : ℕ → String) (n : ℕ) (m : String) (a b : JsonObject N)
      → has_uuid a ≡ true
      → has_uuid b ≡ true
      → (stamp mint n (saving m a ∷ saving m b ∷ [])).0 ≡ saving m a ∷ saving m b ∷ []
  unfolding stamp
  stamp_named mint n m a b h k = rw (h, k) refl

  of_model_same :
      (m : String) (a b : JsonObject N)
      → of_model m (saving m a ∷ saving m b ∷ []) ≡ saving m a ∷ saving m b ∷ []
  of_model_same m a b = rw (eq_refl m) refl

  of_model_one : (m : String) (a : JsonObject N) → of_model m (saving m a ∷ []) ≡ saving m a ∷ []
  of_model_one m a = rw (eq_refl m) refl

  stamp_one :
      (mint : ℕ → String) (n : ℕ) (m : String) (a : JsonObject N)
      → has_uuid a ≡ true
      → (stamp mint n (saving m a ∷ [])).0 ≡ saving m a ∷ []
  unfolding stamp
  stamp_one mint n m a h = rw h refl

  key_sets_refuse :
      (m : String) (ix : UniqueIndex) (body : JsonObject N) (key owner : String)
      → unique_key body ix.fields ≡ some key
      → get ix.owners key ≡ some owner
      → uuid_of body ≢ owner
      → check_key_sets m (uuid_of body ∷ []) (saving m body ∷ []) (ix ∷ [])
        ≡ some (record { model = m; fields = ix.fields })
  unfolding check_key_sets check_changes
  key_sets_refuse m ix body key owner keyed owned differ = ground (
    arith,
    owned,
    get-empty {V = String} key,
    eq_iff owner (uuid_of body),
    eq_iff (uuid_of body) owner,
  )

  models_refuse :
      (unique : Dict (List UniqueIndex)) (saved removed : List (Change N)) (m : String)
      (models : List String) (e : UniqueConstraintError)
      → check_key_sets m
          (uuids (of_model m saved) ++ uuids (of_model m removed))
          (of_model m saved)
          (or_else (get unique m) [])
        ≡ some e
      → check_models unique saved removed (m ∷ models) ≡ some e
  unfolding check_models
  models_refuse unique saved removed m models e h =
      ap (first_error (check_models unique saved removed models)) h

  -- A check of one record against the one key set of its model.
  check_single :
      (unique : Dict (List UniqueIndex)) (m : String) (ix : UniqueIndex) (body : JsonObject N)
      (key owner : String)
      → get unique m ≡ some (ix ∷ [])
      → unique_key body ix.fields ≡ some key
      → get ix.owners key ≡ some owner
      → uuid_of body ≢ owner
      → check_unique unique (saving m body ∷ []) []
        ≡ some (record { model = m; fields = ix.fields })
  unfolding check_unique models_of
  check_single unique m ix body key owner found keyed owned differ =
      models_refuse unique (saving m body ∷ []) [] m _ (record { model = m; fields = ix.fields })
        (ap (λ cs. check_key_sets m (uuids cs ++ []) cs (or_else (get unique m) []))
            (of_model_one m body)
          ∙ (ap (λ g. check_key_sets m (uuid_of body ∷ []) (saving m body ∷ []) (or_else g []))
                found
              ∙ key_sets_refuse m ix body key owner keyed owned differ))

  last_of_two :
      (m : String) (before : Option (JsonObject N)) (first second : JsonObject N)
      → last_body (uuid_of second) before (of_model m (saving m first ∷ saving m second ∷ []))
        ≡ some second
  last_of_two m before first second =
      rw (of_model_same m first second, eq_refl (uuid_of second)) refl

  -- the queue of a client that saves two bodies
  abbrev pub two_saves : Memory N → String → JsonObject N → JsonObject N → Memory N
  two_saves s m first second = save (save (discard_pending s) m first none) m second none

  index_after-two_saves :
      (mint : ℕ → String) (s : Memory N) (m : String) (ix : UniqueIndex)
      (first second : JsonObject N)
      → has_uuid first ≡ true
      → has_uuid second ≡ true
      → uuid_of first ≡ uuid_of second
      → get (rows s.store m) (uuid_of second) ≡ none
      → index_after mint (two_saves s m first second) m ix ≡ add_owner second (add_owner first ix)
  unfolding save discard_pending drop_owner
  index_after-two_saves mint s m ix first second h k same absent =
      let stored = rows s.store m in
      let over : List (Change N) → List (Change N) → UniqueIndex =
        λ cs ds. foldl add_step (foldl (drop_step stored) ix ds) cs in
      let none_stored : get stored (uuid_of first) ≡ none = ap (get stored) same ∙ absent in
      ap (λ cs. over (of_model m cs) (of_model m (cs ++ [])))
        (stamp_named mint s.minted m first second h k)
      ∙ (ap (λ cs. over cs cs) (of_model_same m first second)
          ∙ (ap
                (λ old. add_owner second (
                  add_owner first (
                    drop_owner (get stored (uuid_of second)) (uuid_of second)
                      (drop_owner old (uuid_of first) ix))))
                none_stored
              ∙ ap (λ old. add_owner second (add_owner first (drop_owner old (uuid_of second) ix)))
                  absent))

  owned-two_saves :
      (ix : UniqueIndex) (first second : JsonObject N) (key new : String)
      → uuid_of first ≡ uuid_of second
      → unique_key first ix.fields ≡ some key
      → unique_key second ix.fields ≡ some new
      → key ≢ new
      → get (add_owner second (add_owner first ix)).owners key ≡ some (uuid_of second)
  unfolding add_owner
  owned-two_saves ix first second key new same k1 k2 ne = ground (
    arith,
    get-put ix.owners key key (uuid_of first),
    eq_refl key,
    eq_iff new key,
    get-put (put ix.owners key (uuid_of first)) new key (uuid_of second),
  )

  persist_refused :
      (mint : ℕ → String) (s : Memory N) (e : UniqueConstraintError)
      → check_unique s.unique (stamp mint s.minted s.save_queue).0 s.remove_queue ≡ some e
      → (persist mint s).1 ≡ err e
  unfolding persist
  persist_refused mint s e fails = rw (fails, persist) refl

  refused_next :
      (mint : ℕ → String) (t : Memory N) (m : String) (ix : UniqueIndex) (other : JsonObject N)
      (key owner : String)
      → t.save_queue ≡ []
      → t.remove_queue ≡ []
      → has_uuid other ≡ true
      → get t.unique m ≡ some (ix ∷ [])
      → unique_key other ix.fields ≡ some key
      → get ix.owners key ≡ some owner
      → uuid_of other ≢ owner
      → (persist mint (save t m other none)).1 ≡ err (record { model = m; fields = ix.fields })
  unfolding save
  refused_next mint t m ix other key owner e f h found keyed owned differ =
      persist_refused mint (save t m other none) (record { model = m; fields = ix.fields })
        (ap
            (λ q.
              check_unique t.unique (stamp mint t.minted (q ++ saving m other ∷ [])).0
                t.remove_queue)
            e
          ∙ (ap (λ q. check_unique t.unique q t.remove_queue) (stamp_one mint t.minted m other h)
              ∙ (ap (check_unique t.unique (saving m other ∷ [])) f
                  ∙ check_single t.unique m ix other key owner found keyed owned differ)))

  -- If one batch saves a record that is not stored twice, with two keys of the only key set of its model,
  -- and the batch is not refused, then afterwards the store holds the second body, and yet a flush
  -- that saves another record with the first key is refused.
  pub superseded_key_is_refused :
      (mint : ℕ → String) (s : Memory N) (m : String) (ix : UniqueIndex)
      (first second other : JsonObject N) (key new : String)
      → get s.unique m ≡ some (ix ∷ [])
      → has_uuid first ≡ true
      → has_uuid second ≡ true
      → has_uuid other ≡ true
      → uuid_of first ≡ uuid_of second
      → get (rows s.store m) (uuid_of second) ≡ none
      → unique_key first ix.fields ≡ some key
      → unique_key second ix.fields ≡ some new
      → key ≢ new
      → unique_key other ix.fields ≡ some key
      → uuid_of other ≢ uuid_of second
      → check_unique s.unique (saving m first ∷ saving m second ∷ []) [] ≡ none
      → let after = (persist mint (two_saves s m first second)).0 in
        (get (rows after.store m) (uuid_of second) ≡ some second)
        × ((persist mint (save after m other none)).1
            ≡ err (record { model = m; fields = ix.fields }))
  unfolding save discard_pending
  superseded_key_is_refused mint s m ix first second other key new found h1 h2 h3 same absent k1 k2
        ne k3 differ passes =
      let q = two_saves s m first second in
      let stamped = stamp_named mint s.minted m first second h1 h2 in
      let passed : check_unique s.unique (stamp mint s.minted q.save_queue).0 [] ≡ none =
        ap (λ cs. check_unique s.unique cs []) stamped ∙ passes in
      let done = persist-stores mint q m (uuid_of second) passed in
      let last = index_after-two_saves mint s m ix first second h1 h2 same absent in
      let kept = fields-index_after mint q m ix in
      (
        done.0
            ∙ (ap
                  (λ cs.
                    last_body (uuid_of second) (get (rows s.store m) (uuid_of second))
                      (of_model m cs))
                  stamped
                ∙ last_of_two m (get (rows s.store m) (uuid_of second)) first second),
        refused_next mint (persist mint q).0 m (index_after mint q m ix) other key (uuid_of second)
              done.1 done.2 h3
              (get-unique_persist mint q m passed ∙ ap (map_index (index_after mint q m)) found)
              (rw kept k3)
              (ap (λ i. get i.owners key) last
                ∙ owned-two_saves ix first second key new same k1 k2 ne)
              differ
            ∙ ap (λ fs. err (record { model = m; fields = fs })) kept,
      )
