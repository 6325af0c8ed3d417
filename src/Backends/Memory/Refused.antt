-- ===== src/Backends/Memory/Refused.antt =====
-- When a flush of the reference backend refuses its batch.
use mathlib.Core.List.{foldl}
use object_repository.Base.{
  ℕ, String, ◌≡◌, refl, ◌∙◌, Option, none, List, [], ◌∷◌, ◌++◌, if◌then◌else◌,
}
use object_repository.Base.Dict.{get}
use object_repository.Json.{JsonObject}
use object_repository.Json.Number.{Number}
use object_repository.Backends.Contract.{Change}
use object_repository.Backends.Memory.Index.{UniqueIndex, Rows, of_model, uuids, check_unique}
use object_repository.Backends.Memory.{Memory, rows, flush, persist, stamp}
use object_repository.Backends.Memory.KeySet.{has, fields-add_owner, fields-drop_owner}
use object_repository.Backends.Memory.Models.{unique_after, map_index, add_step, drop_step}
use object_repository.Backends.Memory.Flushed.{last_body}

module _ {N : Type 0} ⦃o : Number N⦄ where
  fields-add_steps :
      (cs : List (Change N)) (ix : UniqueIndex) → (foldl add_step ix cs).fields ≡ ix.fields
  fields-add_steps [] ix = refl
  fields-add_steps (c ∷ cs) ix = fields-add_steps cs (add_step ix c) ∙ fields-add_owner c.body ix

  fields-drop_steps :
      (stored : Rows N) (cs : List (Change N)) (ix : UniqueIndex)
      → (foldl (drop_step stored) ix cs).fields ≡ ix.fields
  fields-drop_steps stored [] ix = refl
  fields-drop_steps stored (c ∷ cs) ix =
      fields-drop_steps stored cs (drop_step stored ix c) ∙ fields-drop_owner _ _ ix

  -- What a flush is asked to leave under a uuid of a model: nothing if the batch removes it, else the
  -- last body that it saves under it, else what is stored.
  abbrev pub asked : (ℕ → String) → Memory N → String → String → Option (JsonObject N)
  asked mint s m u =
      if has u (uuids (of_model m s.remove_queue))
      then none
      else last_body u (get (rows s.store m) u) (of_model m (stamp mint s.minted s.save_queue).0)

  -- the index that a key set has after a flush
  abbrev pub index_after : (ℕ → String) → Memory N → String → UniqueIndex → UniqueIndex
  index_after mint s m ix =
      let saved = (stamp mint s.minted s.save_queue).0 in
      foldl add_step (foldl (drop_step (rows s.store m)) ix (of_model m (saved ++ s.remove_queue)))
        (of_model m saved)

  pub get-unique_persist :
      (mint : ℕ → String) (s : Memory N) (m : String)
      → check_unique s.unique (stamp mint s.minted s.save_queue).0 s.remove_queue ≡ none
      → get (persist mint s).0.unique m ≡ map_index (index_after mint s m) (get s.unique m)
  unfolding persist flush
  get-unique_persist mint s m passes =
      let saved = (stamp mint s.minted s.save_queue).0 in
      rw (passes, persist) (unique_after s.store s.unique m (saved ++ s.remove_queue) saved)

  pub fields-index_after :
      (mint : ℕ → String) (s : Memory N) (m : String) (ix : UniqueIndex)
      → (index_after mint s m ix).fields ≡ ix.fields
  fields-index_after mint s m ix =
      let saved = (stamp mint s.minted s.save_queue).0 in
      let touched = of_model m (saved ++ s.remove_queue) in
      fields-add_steps (of_model m saved) (foldl (drop_step (rows s.store m)) ix touched)
      ∙ fields-drop_steps (rows s.store m) touched ix
