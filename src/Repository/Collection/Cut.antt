-- ===== src/Repository/Collection/Cut.antt =====
-- What a page takes of the records that are left (`page` of repository/QueryCollection.ts).
use object_repository.Base.{
  ℕ, zero, suc, ◌≤◌, ◌<◌, ◌≡◌, refl, ap, true, false, none, some, List, [], ◌∷◌, ◌++◌, arith,
  length, take, last?, ltb, length-take,
}
use object_repository.Json.{JsonObject}
use object_repository.Json.Number.{Number}
use object_repository.Expressions.Plan.{SortKey}
use object_repository.Repository.Collection.{page_of, cursor_of}

module _ {A : Type 0} where
  pub take_whole : (n : ℕ) (xs : List A) → length xs ≤ n → take n xs ≡ xs
  take_whole zero [] h = refl
  take_whole zero (x ∷ xs) h = absurd (omega (arith, h))
  take_whole (suc n) [] h = refl
  take_whole (suc n) (x ∷ xs) h = ap (λ l. x ∷ l) (take_whole n xs (omega (arith, h)))

  take-take : (n : ℕ) (xs : List A) → take n (take (suc n) xs) ≡ take n xs
  take-take zero xs = refl
  take-take (suc n) [] = refl
  take-take (suc n) (x ∷ xs) = ap (λ l. x ∷ l) (take-take n xs)

  last_of : (x : A) (xs : List A) → (ys : List A) × (l : A) × (x ∷ xs ≡ ys ++ l ∷ [])
  last_of x [] = ([], x, refl)
  last_of x (y ∷ xs) = let (ys, l, e) = last_of y xs in (x ∷ ys, l, ap (λ t. x ∷ t) e)

  pub last?-snoc : (xs : List A) (l : A) → last? (xs ++ l ∷ []) ≡ some l
  last?-snoc [] l = refl
  last?-snoc (x ∷ []) l = refl
  last?-snoc (x ∷ y ∷ xs) l = last?-snoc (y ∷ xs) l

  pub take_last :
      (n : ℕ) (xs : List A)
      → n < length xs
      → (ys : List A) × (l : A) × (take (suc n) xs ≡ ys ++ l ∷ [])
  take_last n [] h = absurd (omega (arith, h))
  take_last n (x ∷ xs) h = last_of x (take n xs)

module _ {N : Type 0} ⦃o : Number N⦄ where
  -- the last page of what is left
  pub page_of-last :
      (keys : List SortKey) (n : ℕ) (xs : List (JsonObject N))
      → ltb n (length xs) ≡ false
      → page_of keys n (take (suc n) xs)
        ≡ record { items = xs; next_cursor = none; has_more = false }
  unfolding page_of
  page_of-last keys n xs h = rw (take_whole (suc n) xs (ground arith), h) refl

  -- a page that more follow, and its last record
  pub page_of-more :
      (keys : List SortKey) (n : ℕ) (xs ys : List (JsonObject N)) (l : JsonObject N)
      → ltb n (length xs) ≡ true
      → take n xs ≡ ys ++ l ∷ []
      → page_of keys n (take (suc n) xs)
        ≡ record { items = ys ++ l ∷ []; next_cursor = some (cursor_of keys l); has_more = true }
  unfolding page_of
  page_of-more keys n xs ys l h e =
      rw (fetched_more n xs h, take-take n xs, e, last?-snoc ys l) refl
    where
      fetched_more :
          (n : ℕ) (xs : List (JsonObject N))
          → ltb n (length xs) ≡ true
          → ltb n (length (take (suc n) xs)) ≡ true
      fetched_more n xs h = ground (arith, length-take (suc n) xs, h)
