-- ===== src/Backends/Scan/Ordered.antt =====
-- The order of a scan's result (`applyOrder` of backends/util/scan.ts).
use mathlib.Core.List.{Perm}
use mathlib.Core.List.Perm
use object_repository.Base.{
  ◌≡◌, refl, true, false, Option, some, List, [], ◌∷◌, String, arith, eq_iff, All,
}
use object_repository.Base.Text.Order.{text_lt_total, text_lt_irrefl, text_lt_asymm, text_lt_trans}
use object_repository.Base.Sort.{flip, is_positive}
use object_repository.Base.Sort.Laws.{
  IsPreorder, IsSorted, sort-perm, sort-IsSorted, IsPreorder-then_by, IsPreorder-directed,
  IsPreorder-weaken, IsPreorder-zero,
}
use object_repository.Json.{Value, null, num, str, JsonObject}
use object_repository.Json.Number.{Number}
use object_repository.Json.Equality.{strict_eq}
use object_repository.Expressions.Path.{get_path}
use object_repository.Expressions.Plan.{SortKey}
use object_repository.Backends.Scan.{compare_values, compare_records, apply_order}

-- What the values at a sort key are, apart from nulls.
pub data KeyKind : Type 0 where
  texts numbers : KeyKind

module _ {N : Type 0} ⦃o : Number N⦄ where
  -- a null, or a text, or a finite number
  pub data OfKind : KeyKind → Option (Value N) → Type 0 where
    a_null : {k : KeyKind} → OfKind k (some null)
    a_text : (s : String) → OfKind texts (some (str s))
    a_number : (n : N) → o.is_finite n ≡ true → OfKind numbers (some (num n))

  compare_values_flipped :
      {k : KeyKind} {a b : Option (Value N)}
      → OfKind k a
      → OfKind k b
      → compare_values b a ≡ flip (compare_values a b)
  unfolding compare_values strict_eq
  compare_values_flipped a_null a_null = refl
  compare_values_flipped a_null (a_text t) = refl
  compare_values_flipped a_null (a_number n h) = refl
  compare_values_flipped (a_text s) a_null = refl
  compare_values_flipped (a_number n h) a_null = refl
  compare_values_flipped (a_text s) (a_text t) = ground (
    arith,
    eq_iff s t,
    eq_iff t s,
    text_lt_asymm s t,
    text_lt_asymm t s,
    text_lt_total s t,
    text_lt_irrefl s t,
  )
  compare_values_flipped (a_number a p) (a_number b q) = ground (
    arith,
    o.eq_sym a b,
    o.eq_sym b a,
    o.lt_total a b p q,
    o.lt_trans a b a,
    o.lt_irrefl a a,
    o.eq_refl a p,
    o.lt_irrefl a b,
  )

  compare_values_trans :
      {k : KeyKind} {a b c : Option (Value N)}
      → OfKind k a
      → OfKind k b
      → OfKind k c
      → is_positive (compare_values a b) ≡ false
      → is_positive (compare_values b c) ≡ false
      → is_positive (compare_values a c) ≡ false
  unfolding compare_values strict_eq
  compare_values_trans a_null p a_null h k = refl
  compare_values_trans a_null p (a_text t) h k = refl
  compare_values_trans a_null p (a_number n f) h k = refl
  compare_values_trans (a_text s) a_null q h k = cc
  compare_values_trans (a_number a f) a_null q h k = cc
  compare_values_trans p (a_text t) a_null h k = cc
  compare_values_trans p (a_number a f) a_null h k = cc
  compare_values_trans (a_text s) (a_text t) (a_text u) h k =
      ground (arith, eq_iff s t, eq_iff t u, eq_iff s u, text_lt_trans s t u)
  compare_values_trans (a_number a p) (a_number b q) (a_number c r) h k =
      ground (arith, o.eq_trans a b c, o.lt_trans a b c, o.lt_eq_trans a b c, o.eq_lt_trans a b c)

  -- The values of a record at the sort keys are of the kinds that `kind` gives to them.
  abbrev pub HasKinds : (String → KeyKind) → List SortKey → JsonObject N → Type 0
  HasKinds kind order r = All (λ key. OfKind (kind key.property) (get_path r key.property)) order

  key-IsPreorder :
      (kind : String → KeyKind) (key : SortKey) (keys : List SortKey)
      → IsPreorder
          (HasKinds kind (key ∷ keys))
          (λ a b. compare_values (get_path a key.property) (get_path b key.property))
  key-IsPreorder kind key keys = record {
    flipped = λ x y p q. compare_values_flipped p.0 q.0;
    trans = λ x y z p q r h k. compare_values_trans p.0 q.0 r.0 h k;
  }

  pub compare_records-IsPreorder :
      (kind : String → KeyKind) (order : List SortKey)
      → IsPreorder (HasKinds kind order) (compare_records order)
  unfolding compare_records
  compare_records-IsPreorder kind [] = IsPreorder-zero
  compare_records-IsPreorder kind (key ∷ keys) =
      IsPreorder-then_by (IsPreorder-directed key.descending (key-IsPreorder kind key keys))
        (IsPreorder-weaken (λ r h. h.1) (compare_records-IsPreorder kind keys))

  unordered-IsSorted : (rs : List (JsonObject N)) → IsSorted (compare_records []) rs
  unfolding compare_records
  unordered-IsSorted [] = tt
  unordered-IsSorted (r ∷ rs) = (all_zero rs, unordered-IsSorted rs)
    where
      all_zero : (rs : List (JsonObject N)) → All (λ b. false ≡ false) rs
      all_zero [] = tt
      all_zero (b ∷ rs) = (refl, all_zero rs)

  -- If at every sort key the records hold nulls and texts only, or nulls and finite numbers only,
  -- then ordering returns a permutation of the records in which each record is followed only by
  -- records that do not compare before it. (A missing value is not allowed for a null.)
  pub apply_order-IsSorted :
      (kind : String → KeyKind) (order : List SortKey) (records : List (JsonObject N))
      → All (HasKinds kind order) records
      → Perm (apply_order records order) records
        × IsSorted (compare_records order) (apply_order records order)
  unfolding apply_order
  apply_order-IsSorted kind [] records h = (Perm.refl records, unordered-IsSorted records)
  apply_order-IsSorted kind (key ∷ keys) records h = (
    sort-perm (compare_records (key ∷ keys)) records,
    sort-IsSorted (compare_records (key ∷ keys)) (HasKinds kind (key ∷ keys))
        (compare_records-IsPreorder kind (key ∷ keys)) records h,
  )
