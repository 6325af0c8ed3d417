-- ===== src/Base/Text.antt =====
-- Texts as JavaScript sees them: sequences of UTF-16 code units. An antt text is a list of Unicode
-- scalar values, so texts with unpaired surrogates are left out.
pub mod Order
pub mod Decimal
use Prim.Native.Nat.{ℕ, ◌+◌, ◌-◌, ◌/◌, ◌%◌}
use Prim.Native.Char.{code}
use Prim.Native.String.{String}
use mathlib.Core.Path.{◌≡◌, refl}
use mathlib.Core.Bool.{Bool, true, false, ◌&&◌, ◌||◌}
use mathlib.Core.List.{List, [], ◌∷◌, ◌++◌, reverse}
use native.Mathlib.Omega.{arith}
use object_repository.Base.Tests.{ltb, eqb, if◌then◌else◌}

-- The code units of one character.
abbrev pub char_units : ℕ → List ℕ
char_units c =
    if ltb c 0x10000
    then c ∷ []
    else (0xd800 + (c - 0x10000) / 0x400) ∷ (0xdc00 + (c - 0x10000) % 0x400) ∷ []

abbrev pub units : String → List ℕ
units String.[] = []
units (String.◌∷◌ c s) = char_units (code c) ++ units s

-- `<` on texts: by the first code unit that differs, a proper prefix first.
unfoldable pub units_lt : List ℕ → List ℕ → Bool
units_lt xs [] = false
units_lt [] (y ∷ ys) = true
units_lt (x ∷ xs) (y ∷ ys) =
    let rest = units_lt xs ys in if ltb x y then true else if ltb y x then false else rest

unfoldable pub units_eq : List ℕ → List ℕ → Bool
units_eq [] [] = true
units_eq [] (y ∷ ys) = false
units_eq (x ∷ xs) [] = false
units_eq (x ∷ xs) (y ∷ ys) = eqb x y && units_eq xs ys

-- `starts_with xs ys`: `xs` begins with `ys`.
unfoldable pub starts_with : List ℕ → List ℕ → Bool
starts_with xs [] = true
starts_with [] (y ∷ ys) = false
starts_with (x ∷ xs) (y ∷ ys) = eqb x y && starts_with xs ys

unfoldable pub includes : List ℕ → List ℕ → Bool
unfolding starts_with
includes [] ys = starts_with [] ys
includes (x ∷ xs) ys = starts_with (x ∷ xs) ys || includes xs ys

unfoldable pub ends_with : List ℕ → List ℕ → Bool
unfolding starts_with
ends_with xs ys = starts_with (reverse xs) (reverse ys)

pub units_lt_irrefl : (xs : List ℕ) → units_lt xs xs ≡ false
unfolding units_lt
units_lt_irrefl [] = refl
units_lt_irrefl (x ∷ xs) = ground (arith, units_lt_irrefl xs)

pub units_lt_trans :
    (xs ys zs : List ℕ) → units_lt xs ys ≡ true → units_lt ys zs ≡ true → units_lt xs zs ≡ true
unfolding units_lt
units_lt_trans xs ys [] h k = cc
units_lt_trans xs [] (z ∷ zs) h k = cc
units_lt_trans [] (y ∷ ys) (z ∷ zs) h k = refl
units_lt_trans (x ∷ xs) (y ∷ ys) (z ∷ zs) h k = ground (arith, units_lt_trans xs ys zs)

pub units_lt_asymm : (xs ys : List ℕ) → units_lt xs ys ≡ true → units_lt ys xs ≡ false
unfolding units_lt
units_lt_asymm xs [] h = cc
units_lt_asymm [] (y ∷ ys) h = refl
units_lt_asymm (x ∷ xs) (y ∷ ys) h = ground (arith, units_lt_asymm xs ys)

pub units_lt_total : (xs ys : List ℕ) → units_lt xs ys ≡ false → units_lt ys xs ≡ false → xs ≡ ys
unfolding units_lt
units_lt_total [] [] h k = refl
units_lt_total [] (y ∷ ys) h k = cc
units_lt_total (x ∷ xs) [] h k = cc
units_lt_total (x ∷ xs) (y ∷ ys) h k = ground (arith, units_lt_total xs ys)

pub units_lt_negtrans :
    (xs ys zs : List ℕ) → units_lt xs ys ≡ false → units_lt ys zs ≡ false → units_lt xs zs ≡ false
unfolding units_lt
units_lt_negtrans xs ys [] h k = refl
units_lt_negtrans xs [] (z ∷ zs) h k = cc
units_lt_negtrans [] (y ∷ ys) (z ∷ zs) h k = cc
units_lt_negtrans (x ∷ xs) (y ∷ ys) (z ∷ zs) h k = ground (arith, units_lt_negtrans xs ys zs)

-- `<` on two texts
abbrev pub text_lt : String → String → Bool
text_lt s t = units_lt (units s) (units t)
