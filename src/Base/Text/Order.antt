-- ===== src/Base/Text/Order.antt =====
-- `<` on texts is a strict total order: the code units of a text determine it.
use Prim.Native.Nat.{ℕ, ◌<◌}
use Prim.Native.Char.{Char, char, code, IsScalar}
use Prim.Native.String.{String}
use mathlib.Core.Path.{◌≡◌, refl, ap, ap₂}
use mathlib.Core.Logic.{◌⊎◌}
use mathlib.Core.Bool.{true, false}
use mathlib.Core.List.{List, [], ◌++◌}
use native.Mathlib.Omega.{arith}
use text.Mathlib.Text.{◌==◌}
use text.Mathlib.TextEquality.{eq_iff, Char-path}
use object_repository.Base.Text.{
  units, char_units, text_lt, units_lt_irrefl, units_lt_negtrans, units_lt_trans, units_lt_asymm,
  units_lt_total,
}

-- A scalar value is no surrogate.
abbrev IsChar : ℕ → Type 0
IsChar n = (n < 0xd800) ⊎ ((0xdfff < n) × (n < 0x110000))

IsScalar-IsChar : (n : ℕ) → IsScalar n → IsChar n
IsScalar-IsChar n h = ground arith

code-IsChar : (c : Char) → IsChar (code c)
code-IsChar (char n h) = IsScalar-IsChar n h

char_units-injective :
    (a b : ℕ) (xs ys : List ℕ)
    → IsChar a
    → IsChar b
    → char_units a ++ xs ≡ char_units b ++ ys
    → (a ≡ b) × (xs ≡ ys)
char_units-injective a b xs ys p q e = ground arith

char_units-ne-nil : (a : ℕ) (xs : List ℕ) → char_units a ++ xs ≡ [] → ⊥
char_units-ne-nil a xs e = ground arith

pub units-injective : (s t : String) → units s ≡ units t → s ≡ t
units-injective String.[] String.[] e = refl
units-injective String.[] (String.◌∷◌ d t) e = absurd (char_units-ne-nil (code d) (units t) (cc))
units-injective (String.◌∷◌ c s) String.[] e = absurd (char_units-ne-nil (code c) (units s) (cc))
units-injective (String.◌∷◌ c s) (String.◌∷◌ d t) e =
    let (same_code, same_rest) =
      char_units-injective (code c) (code d) (units s) (units t) (code-IsChar c) (code-IsChar d)
        e in
    ap₂ String.◌∷◌ (Char-path c d same_code) (units-injective s t same_rest)

pub text_lt_total : (s t : String) → text_lt s t ≡ false → text_lt t s ≡ false → (s == t) ≡ true
text_lt_total s t h k =
    (eq_iff s t).1 (units-injective s t (units_lt_total (units s) (units t) h k))

pub text_lt_irrefl : (s t : String) → (s == t) ≡ true → text_lt s t ≡ false
text_lt_irrefl s t h = rw (ap units ((eq_iff s t).0 h)) (units_lt_irrefl (units t))

pub text_lt_asymm : (s t : String) → text_lt s t ≡ true → text_lt t s ≡ false
text_lt_asymm s t h = units_lt_asymm (units s) (units t) h

pub text_lt_trans : (s t u : String) → text_lt s t ≡ true → text_lt t u ≡ true → text_lt s u ≡ true
text_lt_trans s t u h k = units_lt_trans (units s) (units t) (units u) h k

pub text_lt_negtrans :
    (s t u : String) → text_lt s t ≡ false → text_lt t u ≡ false → text_lt s u ≡ false
text_lt_negtrans s t u h k = units_lt_negtrans (units s) (units t) (units u) h k
