-- ===== src/Repository/Collection/Ties.antt =====
-- The ordering of a keyset traversal puts no two records level (repository/QueryCollection.ts): the
-- tiebreaker is the uuid.
use mathlib.Core.Path.{subst}
use object_repository.Base.{
  String, ◌≡◌, true, false, some, List, [], ◌∷◌, arith, All, All-split, ◌==◌, Bool-cases, inl, inr,
}
use object_repository.Base.Sort.{Sign}
use object_repository.Base.Sort.Laws.{IsPreorder, IsPreorder-weaken}
use object_repository.Json.{str, JsonObject}
use object_repository.Json.Number.{Number}
use object_repository.Json.Equality.{strict_eq}
use object_repository.Expressions.Path.{get_path}
use object_repository.Expressions.Plan.{SortKey}
use object_repository.Backends.Contract.{uuid_of}
use object_repository.Backends.Scan.{compare_records, compare_values}
use object_repository.Backends.Scan.Ordered.{KeyKind, compare_records-IsPreorder}
use object_repository.Repository.Collection.{effective_keys, key_value}
use object_repository.Repository.Collection.Keyset.{HasKeys, HasKeys-HasKinds}
use object_repository.Repository.Collection.Sorted.{is_zero, HasNoTies}

zero_texts :
    (N : Type 0) ⦃o : Number N⦄ (s t : String)
    → is_zero (compare_values {N = N} (some (str s)) (some (str t))) ≡ true
    → s == t ≡ true
unfolding compare_values strict_eq
zero_texts N s t h = ground arith

module _ {N : Type 0} ⦃o : Number N⦄ where
  abbrev pub HasDistinctUuids : List (JsonObject N) → Type 0
  HasDistinctUuids [] = Unit
  HasDistinctUuids (r ∷ rs) = All (λ s. uuid_of r == uuid_of s ≡ false) rs × HasDistinctUuids rs

  zero_uuid :
      (order : List SortKey) (a b : JsonObject N)
      → is_zero (compare_records (effective_keys order) a b) ≡ true
      → is_zero (compare_values (get_path a "uuid") (get_path b "uuid")) ≡ true
  unfolding compare_records
  zero_uuid [] a b h = ground arith
  zero_uuid (key ∷ order) a b h = zero_uuid order a b (ground arith)

  module _ (kind : String → KeyKind) (order : List SortKey) where
    abbrev pub Has : JsonObject N → Type 0
    Has r = HasKeys kind (effective_keys order) r

    abbrev pub cmp : JsonObject N → JsonObject N → Sign
    cmp = compare_records (effective_keys order)

    pub ordered : IsPreorder Has cmp
    ordered =
        IsPreorder-weaken (λ r h. HasKeys-HasKinds kind (effective_keys order) r h)
          (compare_records-IsPreorder kind (effective_keys order))

    Has-uuid : (r : JsonObject N) → Has r → get_path r "uuid" ≡ some (str (uuid_of r))
    unfolding key_value
    Has-uuid r h = (All-split _ order _ h).1.0.1

    no_tie :
        (a b : JsonObject N)
        → Has a
        → Has b
        → uuid_of a == uuid_of b ≡ false
        → is_zero (cmp a b) ≡ false
    no_tie a b h k different = elim (Bool-cases (is_zero (cmp a b))) [
      | inl tie ↦ absurd (
          ground (
            arith,
            different,
            zero_texts N (uuid_of a) (uuid_of b) (
                subst (λ v. is_zero (compare_values v (some (str (uuid_of b)))) ≡ true)
                  (Has-uuid a h)
                  (subst (λ v. is_zero (compare_values (get_path a "uuid") v) ≡ true) (Has-uuid b k)
                    (zero_uuid order a b tie))),
          ))
      | inr apart ↦ apart
    ]

    pub no_ties :
        (rs : List (JsonObject N)) → All Has rs → HasDistinctUuids rs → HasNoTies cmp Has ordered rs
    no_ties [] h d = tt
    no_ties (r ∷ rs) h d = (apart rs h.0 h.1 d.0, no_ties rs h.1 d.1)
      where
        apart :
            (rs : List (JsonObject N))
            → Has r
            → All Has rs
            → All (λ s. uuid_of r == uuid_of s ≡ false) rs
            → All (λ s. is_zero (cmp r s) ≡ false) rs
        apart [] hr h d = tt
        apart (s ∷ rs) hr h d = (no_tie r s hr h.0 d.0, apart rs hr h.1 d.1)
