-- ===== src/Backends/Copy/Complete.antt =====
-- What a copy writes (backends/util/copy.ts).
use mathlib.Core.Path.{subst}
use mathlib.Core.List.{append_assoc, append-nil}
use object_repository.Base.{
  concat, ℕ, zero, suc, ◌-◌, ◌≤◌, ◌<◌, String, ◌≡◌, refl, ◌∙◌, sym, ap, true, false, ◌&&◌, Option,
  none, some, List, [], ◌∷◌, ◌++◌, filter, arith, All, All-of, length, take, drop, ltb,
  take-append-drop, length-take, length-drop, Bool-cases, inl, inr,
}
use object_repository.Base.Sort.{sort}
use object_repository.Json.{JsonObject}
use object_repository.Json.Number.{Number}
use object_repository.Expressions.Dates.{Calendar}
use object_repository.Expressions.Nodes.{Expression, Expressions, matches}
use object_repository.Expressions.Plan.{ExpressionNode}
use object_repository.Expressions.Wire.{parse, serialize}
use object_repository.Expressions.Wire.RoundTrip.{parse-serialize}
use object_repository.Backends.Contract.{uuid_of}
use object_repository.Backends.Scan.{scan, apply_order, apply_paging}
use object_repository.Backends.Scan.Ordered.{KeyKind}
use object_repository.Backends.Copy.{
  copy_plan, past, written, keep_one, flush, last_uuid, page_step, copy_loop,
}
use object_repository.Repository.Collection.{narrowed, keyset_after, key_value}
use object_repository.Repository.Collection.Sorted.{filter-cong}
use object_repository.Repository.Collection.Ties.{HasDistinctUuids, Has, cmp}
use object_repository.Repository.Collection.Cut.{take_last, take_whole, last?-snoc}
use object_repository.Repository.Collection.Walk.{and_true, seek, seek-rest, narrowed-matches}

module _ {N : Type 0} where
  keep_one-append :
      (r : Option (JsonObject N)) (a b : List (JsonObject N))
      → keep_one r (a ++ b) ≡ keep_one r a ++ b
  keep_one-append none a b = refl
  keep_one-append (some r) a b = refl

  written-append :
      (transform : JsonObject N → Option (JsonObject N)) (a b : List (JsonObject N))
      → written transform (a ++ b) ≡ written transform a ++ written transform b
  unfolding written
  written-append transform [] b = refl
  written-append transform (r ∷ a) b =
      ap (keep_one (transform r)) (written-append transform a b)
      ∙ keep_one-append (transform r) (written transform a) (written transform b)

  concat-flush :
      (rs : List (JsonObject N)) (batches : List (List (JsonObject N)))
      → concat (flush rs batches) ≡ rs ++ concat batches
  concat-flush [] batches = refl
  concat-flush (r ∷ rs) batches = refl

  length-keep_one :
      (r : Option (JsonObject N)) (rest : List (JsonObject N))
      → length (keep_one r rest) ≤ suc (length rest)
  length-keep_one none rest = omega arith
  length-keep_one (some r) rest = omega arith

  length-written :
      (transform : JsonObject N → Option (JsonObject N)) (rows : List (JsonObject N))
      → length (written transform rows) ≤ length rows
  unfolding written
  length-written transform [] = omega arith
  length-written transform (r ∷ rows) =
      omega (
        arith,
        length-keep_one (transform r) (written transform rows),
        length-written transform rows,
      )

  -- A batch that is flushed has a record, and no more than a page.
  abbrev pub IsBatch : ℕ → List (JsonObject N) → Type 0
  IsBatch batch rs = (0 < length rs) × (length rs ≤ batch)

  All-flush :
      (batch : ℕ) (rs : List (JsonObject N)) (batches : List (List (JsonObject N)))
      → length rs ≤ batch
      → All (IsBatch batch) batches
      → All (IsBatch batch) (flush rs batches)
  All-flush batch [] batches le h = h
  All-flush batch (r ∷ rs) batches le h = ((omega arith, le), h)

lt_ltb : (a b : ℕ) → a < b → ltb a b ≡ true
lt_ltb a b h = ground arith

ltb_lt : (a b : ℕ) → ltb a b ≡ true → a < b
ltb_lt a b h = ground arith

not_short : (a b : ℕ) → a ≡ b → ltb a b ≡ false
not_short a b h = ground arith

not_ltb : (a n : ℕ) → ltb a (suc n) ≡ false → n < a
not_ltb a n h = ground arith

none_skipped : (n : ℕ) → suc n - 0 ≡ suc n
none_skipped n = omega arith

module _ {N : Type 0} ⦃o : Number N⦄ where
  last_uuid-snoc :
      (page ys : List (JsonObject N)) (l : JsonObject N)
      → page ≡ ys ++ l ∷ []
      → last_uuid page ≡ some (uuid_of l)
  unfolding last_uuid
  last_uuid-snoc page ys l h = rw (h, last_uuid, last?-snoc ys l) refl

module _ {N : Type 0} ⦃o : Number N⦄ ⦃c : Calendar N⦄ where
  both-matches :
      (e more : Expression N) (r : JsonObject N)
      → matches (Expression.and (Expressions.cons e (Expressions.cons more Expressions.nil))) r
        ≡ matches e r && matches more r
  unfolding matches
  both-matches e more r = and_true (matches e r) (matches more r)

  both-narrowed :
      (e more : Expression N) (r : JsonObject N)
      → matches
          (parse (
            serialize
              (Expression.and (Expressions.cons e (Expressions.cons more Expressions.nil)))))
          r
        ≡ matches (narrowed e more) r
  both-narrowed e more r =
      ap (λ x. matches x r)
        (parse-serialize
          (Expression.and (Expressions.cons e (Expressions.cons more Expressions.nil))))
      ∙ (both-matches e more r ∙ sym (narrowed-matches e more r))

module _ {N : Type 0} ⦃o : Number N⦄ ⦃c : Calendar N⦄ (kind : String → KeyKind)
    (rows : List (JsonObject N)) (transform : JsonObject N → Option (JsonObject N)) (model : String)
    (base : ExpressionNode N) (n : ℕ) (has : All (Has kind []) rows)
    (distinct : HasDistinctUuids rows) where
  abbrev from : ExpressionNode N → List (JsonObject N)
  from condition = sort (cmp kind []) (filter (matches (parse condition)) rows)

  scan-copy :
      (after : Option String)
      → scan rows (copy_plan model base (suc n) after) ≡ take (suc n) (from (past base after))
  unfolding scan copy_plan apply_order apply_paging
  scan-copy after = ap (λ k. take k (from (past base after))) (none_skipped n)

  from-past :
      (last : JsonObject N)
      → from (past base (some (uuid_of last)))
        ≡ sort (cmp kind []) (filter (matches (narrowed (parse base) (seek kind [] last))) rows)
  unfolding past keyset_after matches uuid_of key_value
  from-past last = ap (sort (cmp kind [])) (
      filter-cong (matches (parse (past base (some (uuid_of last)))))
        (matches (narrowed (parse base) (seek kind [] last))) rows
        (All-of (λ r. both-narrowed (parse base) (seek kind [] last) r) rows))

  abbrev copied : ℕ → Option String → Option (List (List (JsonObject N)))
  copied fuel after = copy_loop fuel (scan rows) transform model base (suc n) after

  copied-step :
      (fuel : ℕ) (after : Option String) (page : List (JsonObject N))
      → scan rows (copy_plan model base (suc n) after) ≡ page
      → copied (suc fuel) after ≡ page_step transform (suc n) page (copied fuel (last_uuid page))
  unfolding copy_loop
  copied-step fuel after page h =
      ap (λ p. page_step transform (suc n) p (copied fuel (last_uuid p))) h

  -- What a copy from a place on has to give: the batches of the records that are left.
  abbrev IsCopy : List (JsonObject N) → Option (List (List (JsonObject N))) → Type 0
  IsCopy left result =
      (batches : List (List (JsonObject N))) × (result ≡ some batches)
      × (concat batches ≡ written transform left)
      × All (IsBatch (suc n)) batches

  IsCopy-last :
      (page : List (JsonObject N)) (rest : Option (List (List (JsonObject N))))
      → length page < suc n
      → IsCopy page (page_step transform (suc n) page rest)
  unfolding page_step written
  IsCopy-last [] rest short = ([], refl, refl, tt)
  IsCopy-last (row ∷ more) rest short =
      let written_rows = written transform (row ∷ more) in
      (
        flush written_rows [],
        rw (lt_ltb (length (row ∷ more)) (suc n) short) refl,
        concat-flush written_rows [] ∙ append-nil written_rows,
        All-flush (suc n) written_rows []
            (omega (arith, length-written transform (row ∷ more), short)) tt,
      )

  IsCopy-more :
      (page left : List (JsonObject N)) (rest : Option (List (List (JsonObject N))))
      → length page ≡ suc n
      → IsCopy left rest
      → IsCopy (page ++ left) (page_step transform (suc n) page rest)
  unfolding page_step
  IsCopy-more [] left rest full h = absurd (omega (arith, full))
  IsCopy-more (row ∷ more) left rest full (batches, e, same, all) =
      let written_rows = written transform (row ∷ more) in
      (
        flush written_rows batches,
        rw (not_short (length (row ∷ more)) (suc n) full, e) refl,
        concat-flush written_rows batches
            ∙ (ap (λ t. written_rows ++ t) same ∙ sym (written-append transform (row ∷ more) left)),
        All-flush (suc n) written_rows batches
            (omega (arith, length-written transform (row ∷ more), full)) all,
      )

  copied-IsCopy :
      (fuel : ℕ) (before left : List (JsonObject N)) (after : Option String)
      → from (past base after) ≡ left
      → from base ≡ before ++ left
      → length left < fuel
      → IsCopy left (copied fuel after)
  copied-IsCopy zero before left after e whole enough = absurd (omega (arith, enough))
  copied-IsCopy (suc fuel) before left after e whole enough =
      let page_is = scan-copy after ∙ ap (take (suc n)) e in
      elim (Bool-cases (ltb (length left) (suc n))) [
        | inl short ↦
            let less = ltb_lt (length left) (suc n) short in
            let page_whole = page_is ∙ take_whole (suc n) left (omega (arith, less)) in
            subst (IsCopy left) (sym (copied-step fuel after left page_whole))
              (IsCopy-last left (copied fuel (last_uuid left)) less)
        | inr long ↦
            let (ys, l, cut) = take_last n left (not_ltb (length left) n long) in
            let page = take (suc n) left in
            let rest = drop (suc n) left in
            let behind = whole ∙ ap (λ t. before ++ t) (sym (take-append-drop (suc n) left)) in
            let at_last =
              behind
              ∙ (ap (λ t. before ++ (t ++ rest)) cut
                  ∙ (ap (λ t. before ++ t) (append_assoc ys (l ∷ []) rest)
                      ∙ sym (append_assoc before ys (l ∷ rest)))) in
            let below =
              copied-IsCopy fuel (before ++ page) rest (some (uuid_of l))
                (from-past l
                  ∙ seek-rest kind [] (parse base) rows (before ++ ys) rest l has distinct at_last)
                (behind ∙ sym (append_assoc before page rest))
                (omega (arith, length-drop (suc n) left, enough, not_ltb (length left) n long)) in
            let joined =
              IsCopy-more page rest (copied fuel (last_uuid page))
                (length-take (suc n) left ∙ omega (arith, not_ltb (length left) n long))
                (subst (λ u. IsCopy rest (copied fuel u)) (sym (last_uuid-snoc page ys l cut))
                  below) in
            subst (IsCopy left) (sym (copied-step fuel after page page_is)) (
              subst
                (λ t. IsCopy t (page_step transform (suc n) page (copied fuel (last_uuid page))))
                (take-append-drop (suc n) left) joined)
      ]

  -- A copy of a model writes what its transform makes of every record that its filter keeps, each once and
  -- in the order of the uuids, in batches that are not empty and no larger than a page, whatever the
  -- size of a page is (above 0), and one page more than there are records is enough: if the records have
  -- distinct texts as their uuids.
  pub copy_loop_complete :
      (fuel : ℕ)
      → let whole = sort (cmp kind []) (filter (matches (parse base)) rows) in
        length whole < fuel
        → (batches : List (List (JsonObject N))) × (copy_loop fuel
              (scan rows)
              transform
              model
              base
              (suc n)
              none
            ≡ some batches)
          × (concat batches ≡ written transform whole)
          × All (IsBatch (suc n)) batches
  unfolding past
  copy_loop_complete fuel enough = copied-IsCopy fuel [] (from base) none refl refl enough
