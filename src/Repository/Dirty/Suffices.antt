-- ===== src/Repository/Dirty/Suffices.antt =====
-- A write of the changed fields makes the store hold the record (repository/Repository.ts).
use object_repository.Base.{
  String, ◌≡◌, refl, ◌∙◌, Bool, true, false, not, Option, none, some, List, [], ◌∷◌, ◌++◌, arith,
  ◌==◌, eq_iff, if◌then◌else◌, or_else,
}
use object_repository.Base.Dict.{get, put, remove, keys, get-put, get-remove}
use object_repository.Base.Names.{
  member, distinct, member-distinct, member-append, member-filter, get-absent,
}
use object_repository.Json.{Value, JsonObject}
use object_repository.Json.Number.{Number}
use object_repository.Repository.Patch.{same_value}
use object_repository.Repository.Patch.Fields.{same_value_refl}
use object_repository.Repository.Dirty.{some_nonempty, is_dirty, dirty_keys, compute_dirty}

some_nonempty-or_else : (ks : List String) → or_else (some_nonempty ks) [] ≡ ks
some_nonempty-or_else [] = refl
some_nonempty-or_else (k ∷ ks) = refl

module _ {N : Type 0} where
  abbrev write_field : JsonObject N → String → Option (Value N) → JsonObject N
  write_field held k none = remove held k
  write_field held k (some v) = put held k v

  -- What a store holds once it has taken the named fields of a record.
  abbrev pub write_fields : JsonObject N → JsonObject N → List String → JsonObject N
  write_fields held r [] = held
  write_fields held r (k ∷ ks) = write_field (write_fields held r ks) k (get r k)

  get-write_field :
      (held : JsonObject N) (k j : String) (v : Option (Value N))
      → get (write_field held k v) j ≡ (if k == j then v else get held j)
  get-write_field held k j none = get-remove held k j
  get-write_field held k j (some v) = get-put held k j v

  get-write_fields :
      (held r : JsonObject N) (ks : List String) (j : String)
      → get (write_fields held r ks) j ≡ (if member j ks then get r j else get held j)
  get-write_fields held r [] j = refl
  get-write_fields held r (k ∷ ks) j = ground (
    arith,
    get-write_field (write_fields held r ks) k j (get r k),
    get-write_fields held r ks j,
    eq_iff k j,
  )

module _ {N : Type 0} ⦃o : Number N⦄ where
  clean-absent :
      (baseline r : JsonObject N) (k : String)
      → member k (keys baseline) ≡ false
      → member k (keys r) ≡ false
      → is_dirty baseline r k ≡ false
  clean-absent baseline r k h i =
      rw (get-absent baseline k h, get-absent r k i, same_value_refl none) (ground arith)

  member-dirty_keys :
      (baseline r : JsonObject N) (k : String)
      → member k (dirty_keys baseline r) ≡ is_dirty baseline r k
  member-dirty_keys baseline r k =
      member-filter k (is_dirty baseline r) (distinct (keys baseline ++ keys r))
      ∙ rw (member-distinct k (keys baseline ++ keys r), member-append k (keys baseline) (keys r))
          (ground (arith, clean-absent baseline r k))

  -- A store that holds the baseline of a record and takes the fields that a save calls dirty holds, in
  -- every field but the uuid, the same value as the record, and a field that is not called dirty has
  -- the same value in both already.
  pub compute_dirty-suffices :
      (baseline r : JsonObject N) (k : String)
      → (k == "uuid") ≡ false
      → let dirty = or_else (compute_dirty (some baseline) r) [] in
        (same_value (get (write_fields baseline r dirty) k) (get r k) ≡ true)
        × (member k dirty ≡ not (same_value (get baseline k) (get r k)))
  unfolding compute_dirty
  compute_dirty-suffices baseline r k named =
      rw
        (
          some_nonempty-or_else (dirty_keys baseline r),
          get-write_fields baseline r (dirty_keys baseline r) k,
          member-dirty_keys baseline r k,
          named,
        )
        (by_same (same_value (get baseline k) (get r k)) refl)
    where
      by_same :
          (b : Bool)
          → same_value (get baseline k) (get r k) ≡ b
          → (same_value (if not b then get r k else get baseline k) (get r k) ≡ true)
            × (not b ≡ not b)
      by_same true e = (e, refl)
      by_same false e = (same_value_refl (get r k), refl)
