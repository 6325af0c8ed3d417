-- ===== src/Backends/Sql/Fragment.antt =====
-- SQL texts with their bound parameters, and the operators that every SQL compiler shares:
-- backends/sql/valueSql.ts.
pub mod Bound
use Prim.Native.Char.{Char, code}
use Prim.Native.String.{◌++◌ as ◌+++◌}
use text.Mathlib.TextLemmas.{nil-append, cons-append}
use object_repository.Base.{
  ℕ, suc, ◌+◌, String, ◌≡◌, refl, List, [], ◌∷◌, ◌++◌, map, arith, length, length-append, eqb,
  if◌then◌else◌,
}
use object_repository.Json.{Value}
use object_repository.Expressions.Plan.{ArithOp, add, sub, mul, div, rem}

-- `SqlFrag`, `SqlFragment`
pub record SqlFrag (N : Type 0) : Type 0 where
  pub sql : String
  pub params : List (Value N)

-- The placeholders of a text.
abbrev pub holes : String → ℕ
holes String.[] = 0
holes (String.◌∷◌ c s) = (if eqb (code c) b'?' then 1 else 0) + holes s

pub holes-append : (s t : String) → holes (s +++ t) ≡ holes s + holes t
holes-append String.[] t = rw (nil-append t) (omega arith)
holes-append (String.◌∷◌ c s) t = rw (cons-append c s t, holes-append s t) (omega arith)

-- a template literal, as the texts that it strings together
abbrev pub cat : List String → String
cat [] = ""
cat (s ∷ ss) = s +++ cat ss

-- `ss.join(separator)`
abbrev pub join : String → List String → String
join separator [] = ""
join separator (s ∷ []) = s
join separator (s ∷ t ∷ ss) = s +++ separator +++ join separator (t ∷ ss)

abbrev pub total_holes : List String → ℕ
total_holes [] = 0
total_holes (s ∷ ss) = holes s + total_holes ss

pub holes-cat : (ss : List String) → holes (cat ss) ≡ total_holes ss
holes-cat [] = refl
holes-cat (s ∷ ss) = omega (arith, holes-append s (cat ss), holes-cat ss)

pub holes-join :
    (separator : String) (ss : List String)
    → holes separator ≡ 0
    → holes (join separator ss) ≡ total_holes ss
holes-join separator [] h = refl
holes-join separator (s ∷ []) h = omega arith
holes-join separator (s ∷ t ∷ ss) h = omega (
  arith,
  holes-append s (separator +++ join separator (t ∷ ss)),
  holes-append separator (join separator (t ∷ ss)),
  holes-join separator (t ∷ ss) h,
)

abbrev pub op_text : ArithOp → String
op_text add = " + "
op_text sub = " - "
op_text mul = " * "
op_text div = " / "
op_text rem = " % "

module _ {N : Type 0} where
  abbrev pub sqls : List (SqlFrag N) → List String
  sqls fs = map (λ f. f.sql) fs

  -- `parts.flatMap((part) => part.params)`
  abbrev pub params_of : List (SqlFrag N) → List (Value N)
  params_of [] = []
  params_of (f ∷ fs) = f.params ++ params_of fs

  abbrev pub zero : SqlFrag N → String
  zero part = cat ("COALESCE(" ∷ part.sql ∷ ", 0)" ∷ [])

  abbrev pub operator_chain : ArithOp → List (SqlFrag N) → SqlFrag N
  operator_chain op parts = record {
    sql = cat ("(" ∷ join (op_text op) (map zero parts) ∷ ")" ∷ []);
    params = params_of parts;
  }

  -- `arithFragment`
  unfoldable pub arith_fragment : (String → String) → ArithOp → List (SqlFrag N) → SqlFrag N
  arith_fragment truncate div (a ∷ b ∷ []) = record {
    sql = cat (
        "(CASE WHEN "
        ∷ zero b
        ∷ " = 0 THEN 0 ELSE ("
        ∷ zero a
        ∷ " * 1.0 / "
        ∷ zero b
        ∷ ") END)"
        ∷ []);
    params = b.params ++ (a.params ++ b.params);
  }
  arith_fragment truncate rem (a ∷ b ∷ []) = record {
    sql = cat (
        "(CASE WHEN "
        ∷ zero b
        ∷ " = 0 THEN 0 ELSE ("
        ∷ zero a
        ∷ " - "
        ∷ zero b
        ∷ " * "
        ∷ truncate (cat (zero a ∷ " * 1.0 / " ∷ zero b ∷ []))
        ∷ ") END)"
        ∷ []);
    params = b.params ++ (a.params ++ (b.params ++ (a.params ++ b.params)));
  }
  arith_fragment truncate op parts = operator_chain op parts

  -- `negFragment`
  unfoldable pub neg_fragment : SqlFrag N → SqlFrag N
  neg_fragment inner = record {
    sql = cat ("(-COALESCE(" ∷ inner.sql ∷ ", 0))" ∷ []);
    params = inner.params;
  }

  -- `concatFragment`
  unfoldable pub concat_fragment : (List String → String) → List (SqlFrag N) → SqlFrag N
  concat_fragment join_texts parts = record {
    sql = join_texts (map (λ part. cat ("COALESCE(" ∷ part.sql ∷ ", '')" ∷ [])) parts);
    params = params_of parts;
  }

  -- `coalesceFragment`
  unfoldable pub coalesce_fragment : List (SqlFrag N) → SqlFrag N
  coalesce_fragment parts = record {
    sql = cat ("COALESCE(" ∷ join ", " (sqls parts) ∷ ")" ∷ []);
    params = params_of parts;
  }
