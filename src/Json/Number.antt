-- ===== src/Json/Number.antt =====
-- JavaScript's numbers as an interface: a type with the operators that the program uses, and the
-- laws of IEEE comparison. `is_finite` is false of NaN and the infinities, and no law speaks of
-- the results of arithmetic.
use object_repository.Base.{ℕ, String, ◌≡◌, refl, Bool, true, false, arith}
use object_repository.Base.Int.{ℤ, pos, ◌+ℤ◌, ◌-ℤ◌, ◌*ℤ◌, ltb_ℤ, eqb_ℤ}

pub record Number (N : Type 0) : Type 0 where
  pub eq : N → N → Bool
  pub lt : N → N → Bool
  pub is_finite : N → Bool
  pub of_ℕ : ℕ → N
  pub neg : N → N
  pub add : N → N → N
  pub sub : N → N → N
  pub mul : N → N → N
  pub div : N → N → N
  pub rem : N → N → N
  -- `String(n)` and `Number(s)`
  pub to_text : N → String
  pub of_text : String → N
  pub of_ℕ_finite : (n : ℕ) → is_finite (of_ℕ n) ≡ true
  pub eq_refl : (a : N) → is_finite a ≡ true → eq a a ≡ true
  pub eq_sym : (a b : N) → eq a b ≡ true → eq b a ≡ true
  pub eq_trans : (a b c : N) → eq a b ≡ true → eq b c ≡ true → eq a c ≡ true
  pub lt_irrefl : (a b : N) → eq a b ≡ true → lt a b ≡ false
  pub lt_trans : (a b c : N) → lt a b ≡ true → lt b c ≡ true → lt a c ≡ true
  pub lt_eq_trans : (a b c : N) → lt a b ≡ true → eq b c ≡ true → lt a c ≡ true
  pub eq_lt_trans : (a b c : N) → eq a b ≡ true → lt b c ≡ true → lt a c ≡ true
  pub lt_total :
      (a b : N)
      → is_finite a ≡ true
      → is_finite b ≡ true
      → lt a b ≡ false
      → lt b a ≡ false
      → eq a b ≡ true

-- The integers, for concrete inputs: division is not used on them, and texts are not read.
pub int_eq_refl : (a : ℤ) → eqb_ℤ a a ≡ true
int_eq_refl a = ground arith

pub int_eq_sym : (a b : ℤ) → eqb_ℤ a b ≡ true → eqb_ℤ b a ≡ true
int_eq_sym a b h = ground arith

pub int_eq_trans : (a b c : ℤ) → eqb_ℤ a b ≡ true → eqb_ℤ b c ≡ true → eqb_ℤ a c ≡ true
int_eq_trans a b c h k = ground arith

pub int_lt_irrefl : (a b : ℤ) → eqb_ℤ a b ≡ true → ltb_ℤ a b ≡ false
int_lt_irrefl a b h = ground arith

pub int_lt_trans : (a b c : ℤ) → ltb_ℤ a b ≡ true → ltb_ℤ b c ≡ true → ltb_ℤ a c ≡ true
int_lt_trans a b c h k = ground arith

pub int_lt_eq_trans : (a b c : ℤ) → ltb_ℤ a b ≡ true → eqb_ℤ b c ≡ true → ltb_ℤ a c ≡ true
int_lt_eq_trans a b c h k = ground arith

pub int_eq_lt_trans : (a b c : ℤ) → eqb_ℤ a b ≡ true → ltb_ℤ b c ≡ true → ltb_ℤ a c ≡ true
int_eq_lt_trans a b c h k = ground arith

pub int_lt_total : (a b : ℤ) → ltb_ℤ a b ≡ false → ltb_ℤ b a ≡ false → eqb_ℤ a b ≡ true
int_lt_total a b h k = ground arith

instance abbrev pub int_number : Number ℤ
int_number = record {
  eq = eqb_ℤ;
  lt = ltb_ℤ;
  is_finite = λ a. true;
  of_ℕ = pos;
  neg = λ a. pos 0 -ℤ a;
  add = ◌+ℤ◌;
  sub = ◌-ℤ◌;
  mul = ◌*ℤ◌;
  div = λ a b. a;
  rem = λ a b. a;
  to_text = λ a. "";
  of_text = λ s. pos 0;
  of_ℕ_finite = λ n. refl;
  eq_refl = λ a h. int_eq_refl a;
  eq_sym = int_eq_sym;
  eq_trans = int_eq_trans;
  lt_irrefl = int_lt_irrefl;
  lt_trans = int_lt_trans;
  lt_eq_trans = int_lt_eq_trans;
  eq_lt_trans = int_eq_lt_trans;
  lt_total = λ a b h k. int_lt_total a b;
}
