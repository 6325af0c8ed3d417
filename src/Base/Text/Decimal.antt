-- ===== src/Base/Text/Decimal.antt =====
-- Decimal texts: `n.toString()`, `s.padStart(w, "0")` and `Number(s)` on digits. `Number` also reads
-- signs, fractions, exponents and white space, and those texts are left out here.
use Prim.Native.Nat.{ℕ, zero, suc, ◌+◌, ◌-◌, ◌*◌, ◌/◌, ◌%◌, ◌^◌, ◌≤◌, ◌<◌}
use Prim.Native.Char.{Char, code}
use Prim.Native.String.{String}
use Prim.Native.String as NS
use mathlib.Core.Path.{◌≡◌, refl, sym, ap, ◌∙◌}
use mathlib.Core.Bool.{true, ◌&&◌}
use mathlib.Core.Option.{Option, none, some}
use mathlib.Core.Logic.{inl, inr}
use mathlib.Core.List.{List, [], ◌∷◌, ◌++◌, append_assoc}
use native.Mathlib.Omega.{arith}
use text.Mathlib.TextLemmas.{nil-append, cons-append}
use object_repository.Base.Tests.{ltb, leb, if◌then◌else◌, Bool-cases}
use object_repository.Base.Lists.{length, length-append}
use object_repository.Base.Text.{units, char_units, units_lt}

abbrev pub digit : ℕ → Char
digit zero = "0"
digit (suc zero) = "1"
digit (suc (suc zero)) = "2"
digit (suc (suc (suc zero))) = "3"
digit (suc (suc (suc (suc zero)))) = "4"
digit (suc (suc (suc (suc (suc zero))))) = "5"
digit (suc (suc (suc (suc (suc (suc zero)))))) = "6"
digit (suc (suc (suc (suc (suc (suc (suc zero))))))) = "7"
digit (suc (suc (suc (suc (suc (suc (suc (suc zero)))))))) = "8"
digit _ = "9"

unfoldable pub decimal_on : ℕ → ℕ → String
decimal_on zero n = String.◌∷◌ (digit n) String.[]
decimal_on (suc fuel) n =
    let front = decimal_on fuel (n / 10) in
    if ltb n 10
    then String.◌∷◌ (digit n) String.[]
    else NS.◌++◌ front (String.◌∷◌ (digit (n % 10)) String.[])

-- `n.toString()`: a number has fewer digits than its value, so it is fuel enough.
abbrev pub decimal : ℕ → String
decimal n = decimal_on n n

-- `n` zeros before `s`
abbrev zeros : ℕ → String → String
zeros ℕ.zero s = s
zeros (suc n) s = String.◌∷◌ "0" (zeros n s)

-- `s.padStart(width, "0")`
unfoldable pub pad_start : ℕ → String → String
pad_start width s = zeros (width - length (units s)) s

unfoldable pub read_from : ℕ → List ℕ → Option ℕ
read_from acc [] = some acc
read_from acc (c ∷ cs) =
    let rest = read_from (acc * 10 + (c - 48)) cs in if leb 48 c && leb c 57 then rest else none

-- `Number(s)` where `s` has only digits, none else
abbrev pub number_of : List ℕ → Option ℕ
number_of cs = read_from 0 cs

-- The `w` last digits of a number.
abbrev pub fixed : ℕ → ℕ → List ℕ
fixed zero n = []
fixed (suc w) n = fixed w (n / 10) ++ (48 + n % 10) ∷ []

pub length-fixed : (w n : ℕ) → length (fixed w n) ≡ w
length-fixed zero n = refl
length-fixed (suc w) n =
    length-append (fixed w (n / 10)) ((48 + n % 10) ∷ []) ∙ omega (arith, length-fixed w (n / 10))

pub units-append : (s t : String) → units (NS.◌++◌ s t) ≡ units s ++ units t
units-append String.[] t = rw (nil-append t) refl
units-append (String.◌∷◌ c s) t =
    rw (cons-append c s t, units-append s t)
      (sym (append_assoc (char_units (code c)) (units s) (units t)))

code-digit : (n : ℕ) → n < 10 → code (digit n) ≡ 48 + n
code-digit zero h = refl
code-digit (suc zero) h = refl
code-digit (suc (suc zero)) h = refl
code-digit (suc (suc (suc zero))) h = refl
code-digit (suc (suc (suc (suc zero)))) h = refl
code-digit (suc (suc (suc (suc (suc zero))))) h = refl
code-digit (suc (suc (suc (suc (suc (suc zero)))))) h = refl
code-digit (suc (suc (suc (suc (suc (suc (suc zero))))))) h = refl
code-digit (suc (suc (suc (suc (suc (suc (suc (suc zero)))))))) h = refl
code-digit (suc (suc (suc (suc (suc (suc (suc (suc (suc zero))))))))) h = refl
code-digit (suc (suc (suc (suc (suc (suc (suc (suc (suc (suc n)))))))))) h = omega arith

units-digit : (n : ℕ) → n < 10 → units (String.◌∷◌ (digit n) String.[]) ≡ (48 + n) ∷ []
units-digit n h = rw (code-digit n h) (ground arith)

abbrev zero_units : ℕ → List ℕ
zero_units zero = []
zero_units (suc k) = 48 ∷ zero_units k

units-zeros : (k : ℕ) (s : String) → units (zeros k s) ≡ zero_units k ++ units s
units-zeros zero s = refl
units-zeros (suc k) s = rw (units-zeros k s) refl

zero_units_snoc : (k : ℕ) → zero_units k ++ 48 ∷ [] ≡ 48 ∷ zero_units k
zero_units_snoc zero = refl
zero_units_snoc (suc k) = rw (zero_units_snoc k) refl

fixed-zero : (w : ℕ) → fixed w 0 ≡ zero_units w
fixed-zero zero = refl
fixed-zero (suc w) = rw (fixed-zero w) (zero_units_snoc w)

div_ten_bound : (w n : ℕ) → n < 10 ^ suc w → n / 10 < 10 ^ w
div_ten_bound w n h = omega arith

last_digit :
    (w n front back : ℕ)
    → front ≡ 0
    → back ≡ n
    → fixed w 0 ++ (48 + n) ∷ [] ≡ fixed w front ++ (48 + back) ∷ []
last_digit w n front back e f = cc

one_digit :
    (w n : ℕ)
    → n < 10
    → zero_units (suc w - length (units (String.◌∷◌ (digit n) String.[])))
        ++ units (String.◌∷◌ (digit n) String.[])
      ≡ fixed (suc w) n
one_digit w n h = rw (units-digit n h) (
    ap (λ k. zero_units k ++ (48 + n) ∷ []) (omega arith)
    ∙ (ap (λ xs. xs ++ (48 + n) ∷ []) (sym (fixed-zero w))
        ∙ last_digit w n (n / 10) (n % 10) (omega arith) (omega arith)))

with_digit :
    (w : ℕ) (s : String) (d : ℕ) (xs : List ℕ)
    → d < 10
    → zero_units (suc w - length (units s)) ++ units s ≡ xs
    → zero_units (suc (suc w) - length (units (NS.◌++◌ s (String.◌∷◌ (digit d) String.[]))))
        ++ units (NS.◌++◌ s (String.◌∷◌ (digit d) String.[]))
      ≡ xs ++ (48 + d) ∷ []
with_digit w s d xs h e =
    rw (units-append s (String.◌∷◌ (digit d) String.[]), units-digit d h)
      (ap (λ k. zero_units k ++ (units s ++ (48 + d) ∷ []))
          (omega (arith, length-append (units s) ((48 + d) ∷ [])))
        ∙ (sym (append_assoc (zero_units (suc w - length (units s))) (units s) ((48 + d) ∷ []))
            ∙ ap (λ ys. ys ++ (48 + d) ∷ []) e))

below_ten : (n : ℕ) → n < 10 → ltb n 10 ≡ true
below_ten n h = ground arith

padded_units :
    (w fuel n : ℕ)
    → n < 10 ^ suc w
    → n ≤ fuel
    → zero_units (suc w - length (units (decimal_on fuel n))) ++ units (decimal_on fuel n)
      ≡ fixed (suc w) n
unfolding decimal_on
padded_units w zero n h k = one_digit w n (omega arith)
padded_units zero (suc fuel) n h k = rw (below_ten n h) (one_digit zero n (omega arith))
padded_units (suc w) (suc fuel) n h k = elim (Bool-cases (ltb n 10)) [
  | inl small ↦ rw small (one_digit (suc w) n (ground arith))
  | inr large ↦ rw large (
      with_digit w (decimal_on fuel (n / 10)) (n % 10) (fixed (suc w) (n / 10)) (omega arith)
        (padded_units w fuel (n / 10) (omega arith) (ground arith)))
]

-- A number that has at most `w` digits, padded to `w`, is its `w` last digits.
pub units-pad_start :
    (w n : ℕ) → n < 10 ^ suc w → units (pad_start (suc w) (decimal n)) ≡ fixed (suc w) n
unfolding pad_start
units-pad_start w n h =
    units-zeros (suc w - length (units (decimal n))) (decimal n)
    ∙ padded_units w n n h (omega arith)

units_lt-append_left :
    (xs ys us vs : List ℕ)
    → length xs ≡ length ys
    → units_lt xs ys ≡ true
    → units_lt (xs ++ us) (ys ++ vs) ≡ true
unfolding units_lt
units_lt-append_left [] [] us vs e h = cc
units_lt-append_left [] (y ∷ ys) us vs e h = cc
units_lt-append_left (x ∷ xs) [] us vs e h = cc
units_lt-append_left (x ∷ xs) (y ∷ ys) us vs e h = ground (arith, units_lt-append_left xs ys us vs)

pub units_lt-append_right : (xs us vs : List ℕ) → units_lt (xs ++ us) (xs ++ vs) ≡ units_lt us vs
unfolding units_lt
units_lt-append_right [] us vs = refl
units_lt-append_right (x ∷ xs) us vs = ground (arith, units_lt-append_right xs us vs)

same_front :
    (w front back a b : ℕ) (us vs : List ℕ)
    → front ≡ back
    → a < b
    → units_lt (fixed w front ++ (48 + a) ∷ us) (fixed w back ++ (48 + b) ∷ vs) ≡ true
unfolding units_lt
same_front w front back a b us vs e h =
    rw e (units_lt-append_right (fixed w back) ((48 + a) ∷ us) ((48 + b) ∷ vs) ∙ ground arith)

-- Fixed-width texts are in the order of their numbers, whatever follows them.
pub units_lt-fixed :
    (w a b : ℕ) (us vs : List ℕ)
    → a < b
    → b < 10 ^ w
    → units_lt (fixed w a ++ us) (fixed w b ++ vs) ≡ true
units_lt-fixed zero a b us vs h k = ground arith
units_lt-fixed (suc w) a b us vs h k =
    rw (append_assoc (fixed w (a / 10)) ((48 + a % 10) ∷ []) us) (
      rw (append_assoc (fixed w (b / 10)) ((48 + b % 10) ∷ []) vs)
        (elim (Bool-cases (ltb (a / 10) (b / 10))) [
          | inl smaller ↦
              units_lt-fixed w (a / 10) (b / 10) _ _ (ground arith) (div_ten_bound w b k)
          | inr same ↦
              same_front w (a / 10) (b / 10) (a % 10) (b % 10) us vs (ground arith) (ground arith)
        ]))

read_from-snoc :
    (cs : List ℕ) (acc v d : ℕ)
    → d < 10
    → read_from acc cs ≡ some v
    → read_from acc (cs ++ (48 + d) ∷ []) ≡ some (v * 10 + d)
unfolding read_from
read_from-snoc [] acc v d h e = ground arith
read_from-snoc (c ∷ cs) acc v d h e = ground (arith, read_from-snoc cs (acc * 10 + (c - 48)) v d h)

pub read-fixed : (w n : ℕ) → n < 10 ^ w → number_of (fixed w n) ≡ some n
unfolding read_from
read-fixed zero n h = ap some (omega arith)
read-fixed (suc w) n h =
    read_from-snoc (fixed w (n / 10)) 0 (n / 10) (n % 10) (omega arith)
      (read-fixed w (n / 10) (div_ten_bound w n h))
    ∙ ap some (omega arith)

read_from-zeros : (k : ℕ) (cs : List ℕ) → number_of (zero_units k ++ cs) ≡ number_of cs
unfolding read_from
read_from-zeros zero cs = refl
read_from-zeros (suc k) cs = read_from-zeros k cs

power_bound : (n : ℕ) → n < 10 ^ suc n
power_bound zero = omega arith
power_bound (suc n) = omega (arith, power_bound n)

-- Reading a printed number gives the number back.
pub read-decimal : (n : ℕ) → number_of (units (decimal n)) ≡ some n
read-decimal n =
    sym (read_from-zeros (suc n - length (units (decimal n))) (units (decimal n)))
    ∙ (ap number_of (padded_units n n n (power_bound n) (omega arith))
        ∙ read-fixed (suc n) n (power_bound n))
