-- ===== src/Repository/Collection/Sorted.antt =====
-- Sorting and filtering, and the part of a sorted list after an element: what the pages of
-- repository/QueryCollection.ts rest on.
use object_repository.Base.{
  ◌≡◌, refl, ◌∙◌, sym, ap, Bool, true, false, List, [], ◌∷◌, ◌++◌, filter, arith, All, All-filter,
  All-split, Bool-cases, inl, inr,
}
use object_repository.Base.Sort.{Sign, zero, is_positive, insert_sorted, sort}
use object_repository.Base.Sort.Laws.{
  IsPreorder, IsSorted, All-sort, All-insert_sorted, le_all, sort-IsSorted,
}

abbrev pub is_zero : Sign → Bool
is_zero zero = true
is_zero s = false

module _ {A : Type 0} where
  pub filter-cong :
      (p q : A → Bool) (xs : List A) → All (λ x. p x ≡ q x) xs → filter p xs ≡ filter q xs
  filter-cong p q [] h = refl
  filter-cong p q (x ∷ xs) h = ground (arith, h.0, filter-cong p q xs h.1)

module _ {A : Type 0} (cmp : A → A → Sign) (q : A → Bool) where
  insert_sorted-front :
      (x : A) (ys : List A)
      → All (λ y. is_positive (cmp x y) ≡ false) ys
      → insert_sorted cmp x ys ≡ x ∷ ys
  unfolding insert_sorted
  insert_sorted-front x [] h = refl
  insert_sorted-front x (y ∷ ys) h = rw h.0 refl

  filter-insert_dropped :
      (x : A) (ys : List A) → q x ≡ false → filter q (insert_sorted cmp x ys) ≡ filter q ys
  unfolding insert_sorted
  filter-insert_dropped x [] h = rw h refl
  filter-insert_dropped x (y ∷ ys) h = elim (Bool-cases (is_positive (cmp x y))) [
    | inl after ↦ rw (after, filter-insert_dropped x ys h) refl
    | inr before ↦ rw (before, h) refl
  ]

module _ {A : Type 0} (cmp : A → A → Sign) (P : A → Type 0) (ord : IsPreorder P cmp) where
  filter-insert_kept :
      (q : A → Bool) (x : A) (ys : List A)
      → q x ≡ true
      → P x
      → All P ys
      → IsSorted cmp ys
      → filter q (insert_sorted cmp x ys) ≡ insert_sorted cmp x (filter q ys)
  unfolding insert_sorted
  filter-insert_kept q x [] h px ps s = rw h refl
  filter-insert_kept q x (y ∷ ys) h px ps s = elim (Bool-cases (is_positive (cmp x y))) [
    | inl after ↦ elim (Bool-cases (q y)) [
      | inl kept ↦
          rw (after, kept, after) (ap (λ l. y ∷ l) (filter-insert_kept q x ys h px ps.1 s.1))
      | inr dropped ↦ rw (after, dropped) (filter-insert_kept q x ys h px ps.1 s.1)
    ]
    | inr before ↦
        rw (before, h)
          (sym (
            insert_sorted-front cmp q x (filter q (y ∷ ys)) (
              All-filter (λ z. is_positive (cmp x z) ≡ false) q (y ∷ ys)
                (before, le_all cmp P ord x y ys px ps.0 ps.1 before s.0))))
  ]

  -- Filtering what was sorted is sorting what was filtered.
  pub filter-sort :
      (q : A → Bool) (xs : List A) → All P xs → filter q (sort cmp xs) ≡ sort cmp (filter q xs)
  unfolding sort
  filter-sort q [] ps = refl
  filter-sort q (x ∷ xs) ps = elim (Bool-cases (q x)) [
    | inl kept ↦
        filter-insert_kept q x (sort cmp xs) kept ps.0 (All-sort cmp P xs ps.1)
          (sort-IsSorted cmp P ord xs ps.1)
        ∙ rw (kept, sort) (ap (insert_sorted cmp x) (filter-sort q xs ps.1))
    | inr dropped ↦
        filter-insert_dropped cmp q x (sort cmp xs) dropped ∙ rw dropped (filter-sort q xs ps.1)
  ]

  -- Every element is followed only by elements that it comes before.
  abbrev pub IsStrict : List A → Type 0
  IsStrict [] = Unit
  IsStrict (x ∷ xs) = All (λ y. is_positive (cmp y x) ≡ true) xs × IsStrict xs

  -- No two elements tie.
  abbrev pub HasNoTies : List A → Type 0
  HasNoTies [] = Unit
  HasNoTies (x ∷ xs) = All (λ y. is_zero (cmp x y) ≡ false) xs × HasNoTies xs

  strictly_above :
      (x : A) (zs : List A)
      → P x
      → All P zs
      → All (λ z. is_positive (cmp x z) ≡ false) zs
      → All (λ z. is_zero (cmp x z) ≡ false) zs
      → All (λ z. is_positive (cmp z x) ≡ true) zs
  strictly_above x [] px ps h ties = tt
  strictly_above x (z ∷ zs) px ps h ties =
      (ground (arith, ord.flipped x z px ps.0, h.0, ties.0), strictly_above x zs px ps.1 h.1 ties.1)

  insert_sorted-IsStrict :
      (x : A) (ys : List A)
      → P x
      → All P ys
      → All (λ y. is_zero (cmp x y) ≡ false) ys
      → IsSorted cmp ys
      → IsStrict ys
      → IsStrict (insert_sorted cmp x ys)
  unfolding insert_sorted
  insert_sorted-IsStrict x [] px ps ties sorted s = (tt, tt)
  insert_sorted-IsStrict x (y ∷ ys) px ps ties sorted s =
      elim (Bool-cases (is_positive (cmp x y))) [
        | inl after ↦ rw after (
          All-insert_sorted cmp (λ z. is_positive (cmp z y) ≡ true) x ys after s.0,
          insert_sorted-IsStrict x ys px ps.1 ties.1 sorted.1 s.1,
        )
        | inr before ↦ rw before (
          strictly_above x (y ∷ ys) px ps
              (before, le_all cmp P ord x y ys px ps.0 ps.1 before sorted.0) ties,
          s,
        )
      ]

  pub sort-IsStrict : (xs : List A) → All P xs → HasNoTies xs → IsStrict (sort cmp xs)
  unfolding sort
  sort-IsStrict [] ps ties = tt
  sort-IsStrict (x ∷ xs) ps ties =
      insert_sorted-IsStrict x (sort cmp xs) ps.0 (All-sort cmp P xs ps.1)
        (All-sort cmp (λ y. is_zero (cmp x y) ≡ false) xs ties.0) (sort-IsSorted cmp P ord xs ps.1)
        (sort-IsStrict xs ps.1 ties.1)

  pub HasNoTies-filter : (q : A → Bool) (xs : List A) → HasNoTies xs → HasNoTies (filter q xs)
  HasNoTies-filter q [] h = tt
  HasNoTies-filter q (x ∷ xs) h = elim (Bool-cases (q x)) [
    | inl kept ↦
        rw kept (All-filter (λ y. is_zero (cmp x y) ≡ false) q xs h.0, HasNoTies-filter q xs h.1)
    | inr dropped ↦ rw dropped (HasNoTies-filter q xs h.1)
  ]

  filter_whole :
      (last : A) (ys : List A)
      → All (λ y. is_positive (cmp y last) ≡ true) ys
      → filter (λ y. is_positive (cmp y last)) ys ≡ ys
  filter_whole last [] h = refl
  filter_whole last (y ∷ ys) h = rw h.0 (ap (λ l. y ∷ l) (filter_whole last ys h.1))

  before_last :
      (x last : A) (xs ys : List A)
      → P x
      → P last
      → All (λ y. is_positive (cmp y x) ≡ true) (xs ++ last ∷ ys)
      → is_positive (cmp x last) ≡ false
  before_last x last xs ys px pl h =
      let found = (All-split (λ y. is_positive (cmp y x) ≡ true) xs (last ∷ ys) h).1.0 in
      ground (arith, ord.flipped last x pl px, found)

  not_after_itself : (x : A) → P x → is_positive (cmp x x) ≡ false
  not_after_itself x px = ground (arith, ord.flipped x x px px)

  -- Of a strictly sorted list, the elements after one of them are those that stand behind it.
  pub filter_after :
      (xs ys : List A) (last : A)
      → All P (xs ++ last ∷ ys)
      → IsStrict (xs ++ last ∷ ys)
      → filter (λ y. is_positive (cmp y last)) (xs ++ last ∷ ys) ≡ ys
  filter_after [] ys last ps s = rw (not_after_itself last ps.0) (filter_whole last ys s.0)
  filter_after (x ∷ xs) ys last ps s =
      rw (before_last x last xs ys ps.0 (All-split P xs (last ∷ ys) ps.1).1.0 s.0)
        (filter_after xs ys last ps.1 s.1)
