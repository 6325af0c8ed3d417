-- ===== src/Repository/Collection/Keyset.antt =====
-- The filter of a keyset page is the order of the query (`keysetAfter` of repository/QueryCollection.ts).
use mathlib.Core.Path.{subst}
use object_repository.Base.{
  String, ◌≡◌, refl, ◌∙◌, sym, Bool, true, false, ◌&&◌, ◌||◌, Option, some, List, [], ◌∷◌, map,
  arith, All, if◌then◌else◌,
}
use object_repository.Base.Sort.{Sign, negative, zero, positive, flip, is_positive, then_by}
use object_repository.Json.{Value, num, str, JsonObject}
use object_repository.Json.Number.{Number}
use object_repository.Json.Equality.{strict_eq}
use object_repository.Expressions.Compare.{Comparator, compare_json}
use object_repository.Expressions.Dates.{Calendar}
use object_repository.Expressions.Nodes.{matches}
use object_repository.Expressions.Path.{get_path}
use object_repository.Expressions.Plan.{SortKey}
use object_repository.Backends.Scan.{compare_values, compare_records}
use object_repository.Backends.Scan.Ordered.{KeyKind, texts, numbers, OfKind, HasKinds}
use object_repository.Repository.Collection.Sorted.{is_zero}
use object_repository.Repository.Collection.{keyset_after, key_value}

then_by-positive :
    (first rest : Sign) (descending : Bool)
    → is_positive (then_by (if descending then flip first else first) rest)
      ≡ is_positive (if descending then flip first else first)
        || (is_zero first && is_positive rest)
then_by-positive first rest descending = ground arith

then_by-zero : (s : Sign) → is_positive (then_by s zero) ≡ is_positive s
then_by-zero negative = refl
then_by-zero zero = refl
then_by-zero positive = refl

module _ {N : Type 0} ⦃o : Number N⦄ where
  -- a text, or a finite number
  pub data Keyed : KeyKind → Option (Value N) → Type 0 where
    of_text : (s : String) → Keyed texts (some (str s))
    of_number : (n : N) → o.is_finite n ≡ true → Keyed numbers (some (num n))

  Keyed-OfKind : {k : KeyKind} {v : Option (Value N)} → Keyed k v → OfKind k v
  Keyed-OfKind (of_text s) = OfKind.a_text s
  Keyed-OfKind (of_number n h) = OfKind.a_number n h

  -- The record has a text or a finite number at each key, which is the value that a cursor takes.
  abbrev pub HasKeys : (String → KeyKind) → List SortKey → JsonObject N → Type 0
  HasKeys kind keys r =
      All
        (λ key.
          Keyed (kind key.property) (get_path r key.property)
          × (get_path r key.property ≡ some (key_value r key.property)))
        keys

  pub HasKeys-HasKinds :
      (kind : String → KeyKind) (keys : List SortKey) (r : JsonObject N)
      → HasKeys kind keys r
      → HasKinds kind keys r
  HasKeys-HasKinds kind [] r h = tt
  HasKeys-HasKinds kind (key ∷ keys) r h = (Keyed-OfKind h.0.0, HasKeys-HasKinds kind keys r h.1)

  -- the comparators on two values of a kind
  strict-positive :
      {k : KeyKind} {a : Option (Value N)} (w : Value N) (descending : Bool)
      → Keyed k a
      → Keyed k (some w)
      → let cmp = compare_values a (some w) in
        compare_json a (if descending then Comparator.lt else Comparator.gt) w
        ≡ is_positive (if descending then flip cmp else cmp)
  unfolding compare_json compare_values strict_eq
  strict-positive w true (of_text s) (of_text t) = ground arith
  strict-positive w false (of_text s) (of_text t) = ground arith
  strict-positive w true (of_number s h) (of_number t k) = ground arith
  strict-positive w false (of_number s h) (of_number t k) = ground arith

  equal-zero :
      {k : KeyKind} {a : Option (Value N)} (w : Value N)
      → Keyed k a
      → Keyed k (some w)
      → compare_json a Comparator.eq w ≡ is_zero (compare_values a (some w))
  unfolding compare_json compare_values strict_eq
  equal-zero w (of_text s) (of_text t) = ground arith
  equal-zero w (of_number s h) (of_number t k) = ground arith

module _ {N : Type 0} ⦃o : Number N⦄ ⦃c : Calendar N⦄ where
  -- The filter that a cursor adds to a query keeps exactly the records that the query's order puts strictly
  -- after the record that the cursor was taken from: if both have a text or a finite number at every
  -- key, of the same kind in both.
  pub keyset_after-order :
      (kind : String → KeyKind) (key : SortKey) (keys : List SortKey) (r last : JsonObject N)
      → HasKeys kind (key ∷ keys) r
      → HasKeys kind (key ∷ keys) last
      → matches (keyset_after (key ∷ keys) (map (λ k. key_value last k.property) (key ∷ keys))) r
        ≡ is_positive (compare_records (key ∷ keys) r last)
  unfolding keyset_after matches compare_records
  keyset_after-order kind key [] r last h k =
      let w = key_value last key.property in
      rw k.0.1 (
        strict-positive w key.descending h.0.0 (subst (Keyed (kind key.property)) k.0.1 k.0.0)
        ∙ sym (then_by-zero _))
  keyset_after-order kind key (next ∷ keys) r last h k =
      let w = key_value last key.property in
      let present = subst (Keyed (kind key.property)) k.0.1 k.0.0 in
      rw
        (
          k.0.1,
          then_by-positive (compare_values (get_path r key.property) (some w))
              (compare_records (next ∷ keys) r last) key.descending,
        )
        (either_of (strict-positive w key.descending h.0.0 present) (equal-zero w h.0.0 present)
          (keyset_after-order kind next keys r last h.1 k.1))
    where
      either_of :
          {a b x y u v : Bool}
          → a ≡ x
          → b ≡ y
          → u ≡ v
          → a || (b && (u && true) || false) ≡ x || (y && v)
      either_of p q s = ground (arith, p, q, s)
