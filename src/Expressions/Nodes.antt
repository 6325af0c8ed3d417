-- ===== src/Expressions/Nodes.antt =====
-- expressions/nodes.ts: the filter AST and `match`, the reference semantics of every backend. The
-- methods `compile` only dispatch to a visitor and `hash` is a cache key; both are left out.
use Prim.Native.Nat.{ℕ, ◌+◌}
use object_repository.Base.{
  String, Bool, true, false, ◌&&◌, ◌||◌, Option, none, some, List, [], ◌∷◌, map, length, some_elem,
  leb, if◌then◌else◌,
}
use object_repository.Base.{not as invert}
use object_repository.Base.Text.{units, starts_with, ends_with, includes}
use object_repository.Json.{num, Value, str, arr, obj, elems, entries, is_nullish, JsonObject}
use object_repository.Json.Number.{Number}
use object_repository.Json.Equality.{eq_value, strict_eq, bool_eq}
use object_repository.Expressions.Path.{get_path}
use object_repository.Expressions.Compare.{Comparator, compare_json, relate, is_above, is_below}
use object_repository.Expressions.Plan.{TextMode, prefix, suffix, substring}
use object_repository.Expressions.Dates.{Calendar}
use object_repository.Expressions.Values.{ValueExpr, evaluate}

mutual
  pub data Expression (N : Type 0) : Type 0 where
    all : Expression N
    compare : String → Comparator → Value N → Expression N
    in_list : String → List (Value N) → Expression N
    nin : String → List (Value N) → Expression N
    contains : String → Value N → Expression N
    between : String → Value N → Value N → Expression N
    exists : String → Bool → Expression N
    is_null : String → Bool → Expression N
    size : String → N → Expression N
    textmatch : String → String → TextMode → Bool → Expression N
    expr : ValueExpr N → Comparator → ValueExpr N → Expression N
    any : String → Expression N → Expression N
    not : Expression N → Expression N
    and : Expressions N → Expression N
    or : Expressions N → Expression N

  pub data Expressions (N : Type 0) : Type 0 where
    nil : Expressions N
    cons : Expression N → Expressions N → Expressions N

-- `asciiLower`, on code units
unfoldable pub ascii_lower : List ℕ → List ℕ
ascii_lower = map (λ c. if leb b'A' c && leb c b'Z' then c + 32 else c)

unfoldable pub match_mode : TextMode → List ℕ → List ℕ → Bool
unfolding starts_with ends_with includes
match_mode prefix haystack needle = starts_with haystack needle
match_mode suffix haystack needle = ends_with haystack needle
match_mode substring haystack needle = includes haystack needle

module _ {N : Type 0} where
  -- the array at a path, if there is one
  abbrev pub as_array : Option (Value N) → Option (List (Value N))
  as_array (some (arr vs)) = some (elems vs)
  as_array _ = none

  abbrev pub as_string : Option (Value N) → Option String
  as_string (some (str s)) = some s
  as_string _ = none

  -- An element that is an object is matched as it is, any other as the field `value`.
  unfoldable pub as_record : Value N → JsonObject N
  as_record (obj fs) = entries fs
  as_record v = ("value", v) ∷ []

  abbrev pub present : Option (Value N) → Bool
  present none = false
  present (some v) = true

module _ {N : Type 0} ⦃o : Number N⦄ where
  -- what `includes` tests: `===`, and NaN, which is not `===` itself, is found too
  unfoldable pub same_value_zero : Option (Value N) → Value N → Bool
  unfolding strict_eq
  same_value_zero (some (num a)) (num b) = o.eq a b || (invert (o.eq a a) && invert (o.eq b b))
  same_value_zero v w = eq_value v w

  -- `values.includes(value)`
  unfoldable pub includes_value : List (Value N) → Option (Value N) → Bool
  unfolding same_value_zero
  includes_value vs v = some_elem (same_value_zero v) vs

  unfoldable pub match_contains : Option (Value N) → Value N → Bool
  unfolding includes_value
  match_contains v value = elim (as_array v) [
    | none ↦ false
    | some vs ↦ includes_value vs (some value)
  ]

  unfoldable pub match_between : Option (Value N) → Value N → Value N → Bool
  unfolding relate strict_eq
  match_between v lower_end upper_end =
      (eq_value v lower_end || is_above (relate v lower_end))
      && (eq_value v upper_end || is_below (relate v upper_end))

  unfoldable pub match_exists : Option (Value N) → Bool → Bool
  match_exists v should_exist = bool_eq (present v) should_exist

  unfoldable pub match_is_null : Option (Value N) → Bool → Bool
  match_is_null v negated = invert (bool_eq (is_nullish v) negated)

  unfoldable pub match_size : Option (Value N) → N → Bool
  match_size v n = elim (as_array v) [ none ↦ false | some vs ↦ o.eq (o.of_ℕ (length vs)) n ]

  unfoldable pub match_text : Option (Value N) → String → TextMode → Bool → Bool
  unfolding match_mode ascii_lower
  match_text v value mode fold = elim (as_string v) [
    | none ↦ false
    | some s ↦
        if fold
        then match_mode mode (ascii_lower (units s)) (ascii_lower (units value))
        else match_mode mode (units s) (units value)
  ]

module _ {N : Type 0} ⦃o : Number N⦄ ⦃c : Calendar N⦄ where
  unfoldable mutual
    unfolding get_path compare_json evaluate includes_value match_contains match_between
        match_exists match_is_null match_size match_text as_record

    pub matches : Expression N → JsonObject N → Bool
    matches all r = true
    matches (compare property comparator value) r =
        compare_json (get_path r property) comparator value
    matches (in_list property values) r = includes_value values (get_path r property)
    matches (nin property values) r = invert (includes_value values (get_path r property))
    matches (contains property value) r = match_contains (get_path r property) value
    matches (between property lower_end upper_end) r =
        match_between (get_path r property) lower_end upper_end
    matches (exists property should_exist) r = match_exists (get_path r property) should_exist
    matches (is_null property negated) r = match_is_null (get_path r property) negated
    matches (size property n) r = match_size (get_path r property) n
    matches (textmatch property value mode fold) r =
        match_text (get_path r property) value mode fold
    matches (expr left comparator right) r =
        compare_json (some (evaluate left r)) comparator (evaluate right r)
    matches (any property predicate) r = elim (as_array (get_path r property)) [
      | none ↦ false
      | some vs ↦ some_elem (λ v. matches predicate (as_record v)) vs
    ]
    matches (not e) r = invert (matches e r)
    matches (and es) r = matches_all es r
    matches (or es) r = matches_any es r

    pub matches_all : Expressions N → JsonObject N → Bool
    matches_all nil r = true
    matches_all (cons e es) r = matches e r && matches_all es r

    pub matches_any : Expressions N → JsonObject N → Bool
    matches_any nil r = false
    matches_any (cons e es) r = matches e r || matches_any es r
