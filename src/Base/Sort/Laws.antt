-- ===== src/Base/Sort/Laws.antt =====
-- Sorting permutes, and orders every pair when the comparison is a total preorder on the elements.
use mathlib.Core.List.{Perm}
use mathlib.Core.List.Perm
use object_repository.Base.{
  ◌≡◌, refl, Bool, true, false, List, [], ◌∷◌, arith, inl, inr, Bool-cases, All, if◌then◌else◌,
}
use object_repository.Base.Sort.{Sign, zero, flip, is_positive, then_by, insert_sorted, sort}

-- The elements that satisfy `P` are totally preordered by `cmp`.
pub record IsPreorder {ℓ} {A : Type ℓ} (P : A → Type 0) (cmp : A → A → Sign) : Type ℓ where
  pub flipped : (x y : A) → P x → P y → cmp y x ≡ flip (cmp x y)
  pub trans :
      (x y z : A)
      → P x
      → P y
      → P z
      → is_positive (cmp x y) ≡ false
      → is_positive (cmp y z) ≡ false
      → is_positive (cmp x z) ≡ false

module _ {ℓ} {A : Type ℓ} (cmp : A → A → Sign) where
  -- Every element is followed only by elements that do not come before it.
  abbrev pub IsSorted : List A → Type ℓ
  IsSorted [] = Unit
  IsSorted (x ∷ xs) = All (λ y. is_positive (cmp x y) ≡ false) xs × IsSorted xs

  insert_sorted-perm : (x : A) (ys : List A) → Perm (insert_sorted cmp x ys) (x ∷ ys)
  unfolding insert_sorted
  insert_sorted-perm x [] = Perm.refl (x ∷ [])
  insert_sorted-perm x (y ∷ ys) = elim (Bool-cases (is_positive (cmp x y))) [
    | inl after ↦ rw after (Perm.trans (Perm.cons y (insert_sorted-perm x ys)) (Perm.swap x y ys))
    | inr before ↦ rw before (Perm.refl (x ∷ y ∷ ys))
  ]

  pub sort-perm : (xs : List A) → Perm (sort cmp xs) xs
  unfolding sort
  sort-perm [] = Perm.refl []
  sort-perm (x ∷ xs) = Perm.trans (insert_sorted-perm x (sort cmp xs)) (Perm.cons x (sort-perm xs))

module _ {ℓ κ} {A : Type ℓ} (cmp : A → A → Sign) (P : A → Type κ) where
  pub All-insert_sorted : (x : A) (ys : List A) → P x → All P ys → All P (insert_sorted cmp x ys)
  unfolding insert_sorted
  All-insert_sorted x [] p h = (p, tt)
  All-insert_sorted x (y ∷ ys) p h = elim (Bool-cases (is_positive (cmp x y))) [
    | inl after ↦ rw after (h.0, All-insert_sorted x ys p h.1)
    | inr before ↦ rw before (p, h)
  ]

  pub All-sort : (xs : List A) → All P xs → All P (sort cmp xs)
  unfolding sort
  All-sort [] h = tt
  All-sort (x ∷ xs) h = All-insert_sorted x (sort cmp xs) h.0 (All-sort xs h.1)

module _ {ℓ} {A : Type ℓ} (cmp : A → A → Sign) (P : A → Type 0) (ord : IsPreorder P cmp) where
  pub le_all :
      (x y : A) (zs : List A)
      → P x
      → P y
      → All P zs
      → is_positive (cmp x y) ≡ false
      → All (λ z. is_positive (cmp y z) ≡ false) zs
      → All (λ z. is_positive (cmp x z) ≡ false) zs
  le_all x y [] px py ps h k = tt
  le_all x y (z ∷ zs) px py ps h k =
      (ord.trans x y z px py ps.0 h k.0, le_all x y zs px py ps.1 h k.1)

  le_flipped : (x y : A) → P x → P y → is_positive (cmp x y) ≡ true → is_positive (cmp y x) ≡ false
  le_flipped x y px py h = ground (arith, ord.flipped x y px py)

  insert_sorted-IsSorted :
      (x : A) (ys : List A)
      → P x
      → All P ys
      → IsSorted cmp ys
      → IsSorted cmp (insert_sorted cmp x ys)
  unfolding insert_sorted
  insert_sorted-IsSorted x [] px ps s = (tt, tt)
  insert_sorted-IsSorted x (y ∷ ys) px ps s = elim (Bool-cases (is_positive (cmp x y))) [
    | inl after ↦ rw after (
      All-insert_sorted cmp (λ z. is_positive (cmp y z) ≡ false) x ys (le_flipped x y px ps.0 after)
          s.0,
      insert_sorted-IsSorted x ys px ps.1 s.1,
    )
    | inr before ↦ rw before ((before, le_all x y ys px ps.0 ps.1 before s.0), s)
  ]

  pub sort-IsSorted : (xs : List A) → All P xs → IsSorted cmp (sort cmp xs)
  unfolding sort
  sort-IsSorted [] ps = tt
  sort-IsSorted (x ∷ xs) ps =
      insert_sorted-IsSorted x (sort cmp xs) ps.0 (All-sort cmp P xs ps.1) (sort-IsSorted xs ps.1)

-- Ties of one total preorder are broken by another.
module _ {ℓ} {A : Type ℓ} {P : A → Type 0} {c d : A → A → Sign} where
  pub IsPreorder-then_by :
      IsPreorder P c → IsPreorder P d → IsPreorder P (λ x y. then_by (c x y) (d x y))
  IsPreorder-then_by h k = record {
    flipped = λ x y px py. ground (arith, h.flipped x y px py, k.flipped x y px py);
    trans = λ x y z px py pz p q. ground (
      arith,
      h.flipped x y px py,
      h.flipped y z py pz,
      h.flipped x z px pz,
      h.trans x y z px py pz,
      h.trans z x y pz px py,
      h.trans y z x py pz px,
      k.trans x y z px py pz,
    );
  }

module _ {ℓ} {A : Type ℓ} {P : A → Type 0} {c : A → A → Sign} where
  pub IsPreorder-flip : IsPreorder P c → IsPreorder P (λ x y. flip (c x y))
  IsPreorder-flip h = record {
    flipped = λ x y px py. ground (arith, h.flipped x y px py);
    trans = λ x y z px py pz p q. ground (
      arith,
      h.flipped x y px py,
      h.flipped y z py pz,
      h.flipped x z px pz,
      h.trans z y x pz py px,
    );
  }

  pub IsPreorder-directed :
      (b : Bool) → IsPreorder P c → IsPreorder P (λ x y. if b then flip (c x y) else c x y)
  IsPreorder-directed true h = IsPreorder-flip h
  IsPreorder-directed false h = h

  pub IsPreorder-weaken : {Q : A → Type 0} → ((x : A) → Q x → P x) → IsPreorder P c → IsPreorder Q c
  IsPreorder-weaken sub h = record {
    flipped = λ x y p q. h.flipped x y (sub x p) (sub y q);
    trans = λ x y z p q r. h.trans x y z (sub x p) (sub y q) (sub z r);
  }

pub IsPreorder-zero {ℓ} : {A : Type ℓ} {P : A → Type 0} → IsPreorder P (λ (x y : A). zero)
IsPreorder-zero = record { flipped = λ x y p q. refl; trans = λ x y z p q r h k. refl }
