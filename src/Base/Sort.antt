-- ===== src/Base/Sort.antt =====
-- `Array.prototype.sort` with a comparison function: stable, so equal elements keep their order.
pub mod Laws
use object_repository.Base.{Bool, true, false, List, [], ◌∷◌, if◌then◌else◌}

-- the sign of what a comparison function returns
pub data Sign : Type 0 where
  negative zero positive : Sign

abbrev pub flip : Sign → Sign
flip negative = positive
flip zero = zero
flip positive = negative

abbrev pub is_positive : Sign → Bool
is_positive positive = true
is_positive _ = false

-- the first comparison that decides
abbrev pub then_by : Sign → Sign → Sign
then_by zero s = s
then_by negative s = negative
then_by positive s = positive

module _ {ℓ} {A : Type ℓ} (cmp : A → A → Sign) where
  unfoldable pub insert_sorted : A → List A → List A
  insert_sorted x [] = x ∷ []
  insert_sorted x (y ∷ ys) =
      let rest = insert_sorted x ys in if is_positive (cmp x y) then y ∷ rest else x ∷ y ∷ ys

  unfoldable pub sort : List A → List A
  unfolding insert_sorted
  sort [] = []
  sort (x ∷ xs) = insert_sorted x (sort xs)
