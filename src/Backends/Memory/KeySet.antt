-- ===== src/Backends/Memory/KeySet.antt =====
-- One key set of one model through a flush: after a batch that passes the check, the index knows the
-- owner of every stored key.
use mathlib.Core.List.{foldl, map-append}
use object_repository.Base.{
  String, ◌≡◌, refl, ◌∙◌, Bool, false, ◌||◌, Option, none, some, List, [], ◌∷◌, ◌++◌, arith, ◌⊎◌,
  inl, inr, some_elem, ◌==◌, eq_iff, Option-cases,
}
use object_repository.Base.Dict.{Dict, get, put, remove, get-put, get-remove}
use object_repository.Json.{JsonObject}
use object_repository.Json.Number.{Number}
use object_repository.Backends.Contract.{Change, uuid_of}
use object_repository.Backends.Unique.{unique_key}
use object_repository.Backends.Memory.Index.{
  UniqueIndex, Rows, check_changes, conflicts_with, drop_owner, add_owner, uuids,
}

abbrev pub has : String → List String → Bool
has u = some_elem (λ v. v == u)

has-append : (u : String) (xs ys : List String) → has u (xs ++ ys) ≡ (has u xs || has u ys)
has-append u [] ys = refl
has-append u (x ∷ xs) ys = ground (arith, has-append u xs ys)

module _ {N : Type 0} ⦃o : Number N⦄ where
  abbrev pub put_row : Rows N → Change N → Rows N
  put_row rows c = put rows (uuid_of c.body) c.body

  abbrev pub remove_row : Rows N → Change N → Rows N
  remove_row rows c = remove rows (uuid_of c.body)

  -- Every key of a stored row is in the index, as its own.
  abbrev pub Owned : List String → Dict String → Rows N → Type 0
  Owned fields owners rows =
      (u : String) (r : JsonObject N) (key : String)
      → get rows u ≡ some r
      → unique_key r fields ≡ some key
      → get owners key ≡ some u

  -- `stored` is the index before the flush; the rows of `pending` may miss from `owners`.
  abbrev Tracked :
      List String
      → Dict String
      → List String
      → List String
      → Dict String
      → Dict String
      → Rows N
      → Type 0
  Tracked fields stored freed pending seen owners rows =
      (u : String) (r : JsonObject N) (key : String)
      → get rows u ≡ some r
      → unique_key r fields ≡ some key
      → has u pending ≡ false
      → (get owners key ≡ some u)
        × (((get stored key ≡ some u) × (has u freed ≡ false)) ⊎ (get seen key ≡ some u))

  pub fields-add_owner : (r : JsonObject N) (ix : UniqueIndex) → (add_owner r ix).fields ≡ ix.fields
  unfolding add_owner
  fields-add_owner r ix = ground arith

  pub fields-drop_owner :
      (old : Option (JsonObject N)) (u : String) (ix : UniqueIndex)
      → (drop_owner old u ix).fields ≡ ix.fields
  unfolding drop_owner
  fields-drop_owner old u ix = ground arith

  -- one step: a change that passes its check is stored and added
  module _ (fields : List String) (stored : Dict String) (freed : List String) (ix : UniqueIndex)
      (c : Change N) (seen : Dict String) (rows : Rows N) (rest : List String)
      (same_fields : ix.fields ≡ fields)
      (tracked : Tracked fields stored freed (uuid_of c.body ∷ rest) seen ix.owners rows) where
    step_null :
        unique_key c.body fields ≡ none
        → Tracked fields stored freed rest seen (add_owner c.body ix).owners (put_row rows c)
    unfolding add_owner
    step_null null u r key found k out =
        ground (
          arith,
          get-put rows (uuid_of c.body) u c.body,
          eq_iff (uuid_of c.body) u,
          tracked u r key,
        )

    step_key :
        (new : String)
        → unique_key c.body fields ≡ some new
        → conflicts_with (get stored new) (uuid_of c.body) freed ≡ false
        → conflicts_with (get seen new) (uuid_of c.body) [] ≡ false
        → Tracked fields stored freed rest
            (put seen new (uuid_of c.body))
            (add_owner c.body ix).owners
            (put_row rows c)
    unfolding add_owner
    step_key new k ok_stored ok_seen u r key found k' out = ground (
      arith,
      get-put rows (uuid_of c.body) u c.body,
      eq_iff (uuid_of c.body) u,
      get-put ix.owners new key (uuid_of c.body),
      get-put seen new key (uuid_of c.body),
      eq_iff new key,
      eq_iff u (uuid_of c.body),
      tracked u r key,
    )

  -- all the changes of the batch
  Tracked-changes :
      (fields : List String) (stored : Dict String) (freed : List String) (ix : UniqueIndex)
      (seen : Dict String) (rows : Rows N) (cs : List (Change N)) (rest : List String)
      → ix.fields ≡ fields
      → check_changes fields stored freed seen cs ≡ false
      → Tracked fields stored freed (uuids cs ++ rest) seen ix.owners rows
      → (seen' : Dict String) × Tracked fields stored freed rest seen'
          (foldl (λ i c. add_owner c.body i) ix cs).owners
          (foldl put_row rows cs)
  unfolding check_changes
  Tracked-changes fields stored freed ix seen rows [] rest e h t = (seen, t)
  Tracked-changes fields stored freed ix seen rows (c ∷ cs) rest e h t =
      elim (Option-cases (unique_key c.body fields)) [
        | inl null ↦
            Tracked-changes fields stored freed (add_owner c.body ix) seen (put_row rows c) cs rest
              (fields-add_owner c.body ix ∙ e) (rw (null, check_changes) at h)
              (step_null fields stored freed ix c seen rows (uuids cs ++ rest) e t null)
        | inr (new, key) ↦
            Tracked-changes fields stored freed (add_owner c.body ix)
              (put seen new (uuid_of c.body)) (put_row rows c) cs rest
              (fields-add_owner c.body ix ∙ e) (ground arith)
              (step_key fields stored freed ix c seen rows (uuids cs ++ rest) e t new key
                (ground arith) (ground arith))
      ]

  get-drop_owner :
      (old : Option (JsonObject N)) (w u key : String) (ix : UniqueIndex)
      → get ix.owners key ≡ some u
      → (w == u) ≡ false
      → get (drop_owner old w ix).owners key ≡ some u
  unfolding drop_owner
  get-drop_owner none w u key ix e h = e
  get-drop_owner (some old) w u key ix e h = elim (Option-cases (unique_key old ix.fields)) [
    | inl null ↦ rw (null, drop_owner) e
    | inr (k, found) ↦
        ground (arith, get-remove ix.owners k key, eq_iff k key, eq_iff w u, eq_iff u w)
  ]

  -- Dropping the old keys of other uuids keeps an owner.
  get-drop_owners :
      (rows : Rows N) (cs : List (Change N)) (ix : UniqueIndex) (u key : String)
      → get ix.owners key ≡ some u
      → has u (uuids cs) ≡ false
      → get
          (foldl (λ i c. drop_owner (get rows (uuid_of c.body)) (uuid_of c.body) i) ix cs).owners
          key
        ≡ some u
  get-drop_owners rows [] ix u key e h = e
  get-drop_owners rows (c ∷ cs) ix u key e h =
      get-drop_owners rows cs (drop_owner (get rows (uuid_of c.body)) (uuid_of c.body) ix) u key
        (get-drop_owner (get rows (uuid_of c.body)) (uuid_of c.body) u key ix e (ground arith))
        (ground arith)

  pub fields-drop_owners :
      (rows : Rows N) (cs : List (Change N)) (ix : UniqueIndex)
      → (foldl (λ i c. drop_owner (get rows (uuid_of c.body)) (uuid_of c.body) i) ix cs).fields
        ≡ ix.fields
  fields-drop_owners rows [] ix = refl
  fields-drop_owners rows (c ∷ cs) ix =
      fields-drop_owners rows cs (drop_owner (get rows (uuid_of c.body)) (uuid_of c.body) ix)
      ∙ fields-drop_owner (get rows (uuid_of c.body)) (uuid_of c.body) ix

  get-remove_rows :
      (cs : List (Change N)) (rows : Rows N) (u : String) (r : JsonObject N)
      → get (foldl remove_row rows cs) u ≡ some r
      → (get rows u ≡ some r) × (has u (uuids cs) ≡ false)
  get-remove_rows [] rows u r h = (h, refl)
  get-remove_rows (c ∷ cs) rows u r h =
      ground
        (arith, get-remove_rows cs (remove_row rows c) u r h, get-remove rows (uuid_of c.body) u)

  -- A batch that passes the check of a key set keeps its index complete.
  pub flush-Owned :
      (ix : UniqueIndex) (rows : Rows N) (cs ds : List (Change N))
      → check_changes ix.fields ix.owners (uuids cs ++ uuids ds) [] cs ≡ false
      → Owned ix.fields ix.owners rows
      → let dropped =
          foldl (λ i c. drop_owner (get rows (uuid_of c.body)) (uuid_of c.body) i) ix (cs ++ ds) in
        Owned ix.fields
          (foldl (λ i c. add_owner c.body i) dropped cs).owners
          (foldl remove_row (foldl put_row rows cs) ds)
  flush-Owned ix rows cs ds ok owned =
      let drop = λ (i : UniqueIndex) (c : Change N).
        drop_owner (get rows (uuid_of c.body)) (uuid_of c.body) i in
      let (seen, tracked) =
        Tracked-changes ix.fields ix.owners (uuids cs ++ uuids ds) (foldl drop ix (cs ++ ds)) []
          rows cs (uuids ds) (fields-drop_owners rows (cs ++ ds) ix) ok
          λ u r key found k out. (
            get-drop_owners rows (cs ++ ds) ix u key (owned u r key found k)
                (rw (map-append (λ (c : Change N). uuid_of c.body) cs ds) out),
            inl (owned u r key found k, out),
          ) in
      λ u r key found k.
        let (stored, out) = get-remove_rows ds (foldl put_row rows cs) u r found in
        (tracked u r key stored k out).0
