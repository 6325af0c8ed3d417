-- ===== src/Expressions/Values.antt =====
-- expressions/values.ts: the value expressions and their evaluation over a record. Instances that
-- hold a `Date` are left out: a stored date is a number.
use Prim.Native.String.{◌++◌}
use object_repository.Base.{
  String, Bool, true, false, Option, none, some, List, [], ◌∷◌, every, some_elem, if◌then◌else◌,
}
use object_repository.Base.{not as invert}
use object_repository.Json.{Value, null, bool, num, str, or_null, JsonObject}
use object_repository.Json.Number.{Number}
use object_repository.Json.Text.{to_text, to_number}
use object_repository.Expressions.Path.{get_path}
use object_repository.Expressions.Compare.{Comparator, compare_json}
use object_repository.Expressions.Plan.{ArithOp, add, sub, mul, div, rem, DatePart}
use object_repository.Expressions.Dates.{Calendar, zoned_fields, part_of, format_date}

mutual
  pub data ValueExpr (N : Type 0) : Type 0 where
    field : String → ValueExpr N
    lit : Value N → ValueExpr N
    arith : ArithOp → ValueExpr N → ValueExprs N → ValueExpr N
    neg : ValueExpr N → ValueExpr N
    concat : ValueExprs N → ValueExpr N
    coalesce : ValueExprs N → ValueExpr N
    vcompare : Comparator → ValueExpr N → ValueExpr N → ValueExpr N
    vand : ValueExprs N → ValueExpr N
    vor : ValueExprs N → ValueExpr N
    vnot : ValueExpr N → ValueExpr N
    cond : ValueExpr N → ValueExpr N → ValueExpr N → ValueExpr N
    switch : Branches N → ValueExpr N → ValueExpr N
    datepart : DatePart → ValueExpr N → Option String → ValueExpr N
    datestring : String → ValueExpr N → Option String → ValueExpr N

  pub data ValueExprs (N : Type 0) : Type 0 where
    nil : ValueExprs N
    cons : ValueExpr N → ValueExprs N → ValueExprs N

  pub data Branches (N : Type 0) : Type 0 where
    done : Branches N
    branch : ValueExpr N → ValueExpr N → Branches N → Branches N

module _ {N : Type 0} ⦃o : Number N⦄ where
  -- `Number(value)` if that is finite, 0 otherwise
  unfoldable pub to_finite : Value N → N
  unfolding to_number
  to_finite v = let n = to_number v in if o.is_finite n then n else o.of_ℕ 0

  unfoldable pub apply_arith : ArithOp → N → N → N
  apply_arith add a b = o.add a b
  apply_arith sub a b = o.sub a b
  apply_arith mul a b = o.mul a b
  apply_arith div a b = if o.eq b (o.of_ℕ 0) then o.of_ℕ 0 else o.div a b
  apply_arith rem a b = if o.eq b (o.of_ℕ 0) then o.of_ℕ 0 else o.rem a b

  -- the `reduce` of an arithmetic node over its other operands
  unfoldable pub reduce_arith : ArithOp → N → List (Value N) → N
  unfolding apply_arith to_finite
  reduce_arith op acc [] = acc
  reduce_arith op acc (v ∷ vs) = reduce_arith op (apply_arith op acc (to_finite v)) vs

  -- everything but false, null and 0
  unfoldable pub truthy : Value N → Bool
  truthy null = false
  truthy (bool b) = b
  truthy (num n) = invert (o.eq n (o.of_ℕ 0))
  truthy v = true

  -- the texts of the operands, null as the empty text, joined
  unfoldable pub concat_texts : List (Value N) → String
  unfolding to_text
  concat_texts [] = ""
  concat_texts (null ∷ vs) = concat_texts vs
  concat_texts (v ∷ vs) = to_text v ++ concat_texts vs

  unfoldable pub first_present : List (Value N) → Value N
  first_present [] = null
  first_present (null ∷ vs) = first_present vs
  first_present (v ∷ vs) = v

module _ {N : Type 0} ⦃o : Number N⦄ ⦃c : Calendar N⦄ where
  -- the milliseconds of a value, if it is present and finite
  unfoldable pub instant : Value N → Option N
  unfolding to_number
  instant null = none
  instant v = let ms = to_number v in if o.is_finite ms then some ms else none

  unfoldable pub date_part : DatePart → Option String → Value N → Value N
  unfolding instant zoned_fields
  date_part part zone v = elim (instant v) [
    | none ↦ null
    | some ms ↦ num (part_of part (zoned_fields ms zone))
  ]

  unfoldable pub date_to_string : String → Option String → Value N → Value N
  unfolding instant zoned_fields format_date
  date_to_string format zone v = elim (instant v) [
    | none ↦ null
    | some ms ↦ str (format_date (zoned_fields ms zone) format)
  ]

  unfoldable mutual
    unfolding get_path to_finite reduce_arith truthy concat_texts first_present date_part
        date_to_string compare_json

    pub evaluate : ValueExpr N → JsonObject N → Value N
    evaluate (ValueExpr.field path) r = or_null (get_path r path)
    evaluate (lit v) r = v
    evaluate (arith op e es) r =
        num (reduce_arith op (to_finite (evaluate e r)) (evaluate_all es r))
    evaluate (neg e) r = num (o.neg (to_finite (evaluate e r)))
    evaluate (concat es) r = str (concat_texts (evaluate_all es r))
    evaluate (coalesce es) r = first_present (evaluate_all es r)
    evaluate (vcompare op left right) r =
        bool (compare_json (some (evaluate left r)) op (evaluate right r))
    evaluate (vand es) r = bool (every truthy (evaluate_all es r))
    evaluate (vor es) r = bool (some_elem truthy (evaluate_all es r))
    evaluate (vnot e) r = bool (invert (truthy (evaluate e r)))
    evaluate (cond test then_ otherwise) r =
        let yes_value = evaluate then_ r in
        let no_value = evaluate otherwise r in
        if truthy (evaluate test r) then yes_value else no_value
    evaluate (switch branches otherwise) r = evaluate_branches branches (evaluate otherwise r) r
    evaluate (datepart part e zone) r = date_part part zone (evaluate e r)
    evaluate (datestring format e zone) r = date_to_string format zone (evaluate e r)

    pub evaluate_all : ValueExprs N → JsonObject N → List (Value N)
    evaluate_all nil r = []
    evaluate_all (cons e es) r = evaluate e r ∷ evaluate_all es r

    -- the value of the first branch whose test is truthy
    pub evaluate_branches : Branches N → Value N → JsonObject N → Value N
    evaluate_branches done otherwise r = otherwise
    evaluate_branches (branch test value rest) otherwise r =
        let this = evaluate value r in
        let later = evaluate_branches rest otherwise r in
        if truthy (evaluate test r) then this else later
