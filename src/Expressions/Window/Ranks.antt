-- ===== src/Expressions/Window/Ranks.antt =====
-- How the three ranks of a window relate (expressions/windowReduce.ts).
use object_repository.Base.{
  ℕ, suc, ◌≤◌, ◌≡◌, refl, ◌⊎◌, inl, inr, Bool, true, false, Option, none, some, List, [], ◌∷◌,
  arith, All, if◌then◌else◌,
}
use object_repository.Json.Number.{Number}
use object_repository.Expressions.Plan.{SortKey}
use object_repository.Expressions.Window.{Row, Place, is_new_group, places}

pub IsRanked : Place → Type 0
IsRanked p = (1 ≤ p.dense) × (p.dense ≤ p.rank) × (p.rank ≤ p.row_number)

-- The numbers of the next row keep their order, whether or not a new group starts.
ranks_step :
    (is_new : Bool) (i ranked dense : ℕ)
    → (is_new ≡ true) ⊎ (1 ≤ dense)
    → dense ≤ ranked
    → ranked ≤ i
    → let dense_now = if is_new then suc dense else dense in
      let rank_now = if is_new then suc i else ranked in
      (1 ≤ dense_now) × (dense_now ≤ rank_now) × (rank_now ≤ suc i)
ranks_step true i ranked dense started below within = (omega arith, omega arith, omega arith)
ranks_step false i ranked dense (inl e) below within = ground arith
ranks_step false i ranked dense (inr h) below within = (h, below, omega arith)

module _ {N : Type 0} ⦃o : Number N⦄ (order : List SortKey) where
  places-IsRanked_from :
      (previous : Option (Row N)) (i ranked dense : ℕ) (rows : List (Row N))
      → ((row : Row N) → (is_new_group order previous row ≡ true) ⊎ (1 ≤ dense))
      → dense ≤ ranked
      → ranked ≤ i
      → All IsRanked (places order previous i ranked dense rows)
  unfolding places IsRanked
  places-IsRanked_from previous i ranked dense [] started below within = tt
  places-IsRanked_from previous i ranked dense (row ∷ rows) started below within =
      let now =
        ranks_step (is_new_group order previous row) i ranked dense (started row) below within in
      (now, places-IsRanked_from (some row) (suc i) _ _ rows (λ r. inr now.0) now.1 now.2)

  -- In an ordered partition each row has a dense rank of at least 1, a rank that is not below it,
  -- and a row number that is not below the rank.
  pub places-IsRanked : (ordered : List (Row N)) → All IsRanked (places order none 0 0 0 ordered)
  places-IsRanked ordered =
      places-IsRanked_from none 0 0 0 ordered (λ r. inl refl) (omega arith) (omega arith)
