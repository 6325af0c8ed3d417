-- ===== src/Expressions/Compare/Order.antt =====
-- The comparators of expressions/nodes.ts are consistent with one another.
use object_repository.Base.{◌≡◌, Bool, true, false, ◌||◌, Option, none, some, arith, ◌⊎◌, eq_iff}
use object_repository.Base.{not as invert}
use object_repository.Base.Text.Order.{text_lt_total, text_lt_irrefl, text_lt_asymm}
use object_repository.Json.{Value, null, bool, num, str, arr, obj, is_nullish, type_of}
use object_repository.Json.Number.{Number}
use object_repository.Json.Text.{less}
use object_repository.Expressions.Compare.{
  Comparator, eq, ne, gt, lt, ge, le, compare_json, same_tag,
}

module _ {N : Type 0} ⦃o : Number N⦄ where
  -- Two finite numbers, or two texts.
  abbrev pub Comparable : Value N → Value N → Type 0
  Comparable (num a) (num b) = (o.is_finite a ≡ true) × (o.is_finite b ≡ true)
  Comparable (str s) (str t) = Unit
  Comparable _ _ = ⊥

  -- On two finite numbers or two texts, `>` is `<` with the sides swapped, `>=` is the negation of
  -- `<`, and `<=` is the negation of `>`.
  pub compare_consistent :
      (v w : Value N)
      → Comparable v w
      → (compare_json (some v) gt w ≡ compare_json (some w) lt v)
        × (compare_json (some v) ge w ≡ invert (compare_json (some v) lt w))
        × (compare_json (some v) le w ≡ invert (compare_json (some v) gt w))
  unfolding compare_json less
  compare_consistent (num a) (num b) h = ground (
    arith,
    o.eq_sym a b,
    o.eq_sym b a,
    o.lt_irrefl a b,
    o.lt_irrefl b a,
    o.lt_irrefl a a,
    o.lt_trans a b a,
    o.eq_refl a h.0,
    o.lt_total a b h.0 h.1,
  )
  compare_consistent (str s) (str t) h = ground (
    arith,
    eq_iff s t,
    eq_iff t s,
    text_lt_irrefl s t,
    text_lt_irrefl t s,
    text_lt_asymm s t,
    text_lt_total s t,
  )
  compare_consistent _ _ h = absurd h

  -- `>` and `<` hold only between two values that are present, not null and of one type.
  pub relate_needs_values :
      (left : Option (Value N)) (c : Comparator) (right : Value N)
      → (c ≡ gt) ⊎ (c ≡ lt)
      → compare_json left c right ≡ true
      → (is_nullish left ≡ false)
        × (is_nullish (some right) ≡ false)
        × (same_tag (type_of left) (type_of (some right)) ≡ true)
  unfolding compare_json
  relate_needs_values none c right k h = ground arith
  relate_needs_values (some v) c right k h = ground arith

  abbrev pub both_null : Option (Value N) → Value N → Bool
  both_null (some null) null = true
  both_null _ _ = false

  -- If the left side is absent or null, or the right side is null, then `=`, `>=` and `<=` hold just of
  -- two nulls, `!=` of all others, and `>` and `<` of none.
  pub compare_nullish :
      (left : Option (Value N)) (right : Value N)
      → (is_nullish left || is_nullish (some right)) ≡ true
      → let equal = both_null left right in
        (compare_json left eq right ≡ equal)
        × (compare_json left ne right ≡ invert equal)
        × (compare_json left ge right ≡ equal)
        × (compare_json left le right ≡ equal)
        × (compare_json left gt right ≡ false)
        × (compare_json left lt right ≡ false)
  unfolding compare_json
  compare_nullish none right h = ground arith
  compare_nullish (some null) null h = ground arith
  compare_nullish (some null) (bool b) h = ground arith
  compare_nullish (some null) (num n) h = ground arith
  compare_nullish (some null) (str t) h = ground arith
  compare_nullish (some null) (arr vs) h = ground arith
  compare_nullish (some null) (obj fs) h = ground arith
  compare_nullish (some (bool b)) null h = ground arith
  compare_nullish (some (num n)) null h = ground arith
  compare_nullish (some (str t)) null h = ground arith
  compare_nullish (some (arr vs)) null h = ground arith
  compare_nullish (some (obj fs)) null h = ground arith
  compare_nullish (some (bool b)) _ h = ground arith
  compare_nullish (some (num n)) _ h = ground arith
  compare_nullish (some (str t)) _ h = ground arith
  compare_nullish (some (arr vs)) _ h = ground arith
  compare_nullish (some (obj fs)) _ h = ground arith
