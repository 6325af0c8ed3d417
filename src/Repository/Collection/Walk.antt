-- ===== src/Repository/Collection/Walk.antt =====
-- The pages of a keyset traversal, one after another (`page` of repository/QueryCollection.ts).
use mathlib.Core.Path.{subst}
use mathlib.Core.List.{append_assoc}
use object_repository.Base.{
  ℕ, zero, suc, ◌+◌, ◌-◌, ◌<◌, String, ◌≡◌, refl, ◌∙◌, sym, ap, Bool, true, false, ◌&&◌, Option,
  none, some, List, [], ◌∷◌, ◌++◌, map, filter, arith, All, All-filter, All-split, All-weaken,
  filter-filter, length, take, drop, ltb, eqb, eq_refl, take-append-drop, Bool-cases, inl, inr,
  length-drop,
}
use object_repository.Base.Sort.{is_positive, sort}
use object_repository.Base.Sort.Laws.{All-sort}
use object_repository.Json.{JsonObject}
use object_repository.Json.Number.{Number}
use object_repository.Expressions.Dates.{Calendar}
use object_repository.Expressions.Nodes.{Expression, matches}
use object_repository.Expressions.Plan.{SortKey, QueryPlan}
use object_repository.Expressions.Wire.RoundTrip.{parse-serialize}
use object_repository.Backends.Scan.{scan, apply_order, apply_paging, compare_records}
use object_repository.Backends.Scan.Ordered.{KeyKind}
use object_repository.Repository.Collection.{
  QueryCollection, Cursor, signature, page, page_of, seek_plan, seek_condition, cursor_of,
  effective_keys, keyset_after, key_value, narrowed,
}
use object_repository.Repository.Collection.Cut.{take_last, page_of-last, page_of-more}
use object_repository.Repository.Collection.Ties.{HasDistinctUuids, Has, cmp, ordered, no_ties}
use object_repository.Repository.Collection.Keyset.{HasKeys, keyset_after-order}
use object_repository.Repository.Collection.Sorted.{
  filter-cong, filter-sort, filter_after, IsStrict, sort-IsStrict, HasNoTies-filter,
}

module _ {N : Type 0} ⦃o : Number N⦄ where
  -- the loop of a client that reads page after page, none where a page throws or the fuel is used up
  unfoldable pub all_pages :
      ℕ
      → String
      → (QueryPlan N → List (JsonObject N))
      → QueryCollection N
      → ℕ
      → Option (Cursor N)
      → Option (List (JsonObject N))
  unfolding page
  all_pages zero model run q limit after = none
  all_pages (suc fuel) model run q limit after = elim (page model run q limit after) [
    | none ↦ none
    | some first ↦ elim first.next_cursor [
      | none ↦ some first.items
      | some cursor ↦ elim (all_pages fuel model run q limit (some cursor)) [
        | none ↦ none
        | some rest ↦ some (first.items ++ rest)
      ]
    ]
  ]

pub and_true : (a b : Bool) → a && (b && true) ≡ a && b
and_true a b = ground arith

module _ {N : Type 0} ⦃o : Number N⦄ ⦃c : Calendar N⦄ where
  apply_order-keys :
      (rs : List (JsonObject N)) (order : List SortKey)
      → apply_order rs (effective_keys order) ≡ sort (compare_records (effective_keys order)) rs
  unfolding apply_order
  apply_order-keys rs [] = refl
  apply_order-keys rs (key ∷ order) = refl

  scan-seek :
      (rows : List (JsonObject N)) (model : String) (condition : Expression N)
      (order : List SortKey) (limit : ℕ)
      → scan rows (seek_plan model condition (effective_keys order) limit)
        ≡ take
            (suc limit)
            (sort (compare_records (effective_keys order)) (filter (matches condition) rows))
  unfolding scan seek_plan apply_paging
  scan-seek rows model condition order limit =
      rw (parse-serialize condition, apply_order-keys (filter (matches condition) rows) order)
        (ap
          (λ n.
            take n
              (sort (compare_records (effective_keys order)) (filter (matches condition) rows)))
          (one_more limit))
    where
      one_more : (n : ℕ) → n + 1 - 0 ≡ suc n
      one_more n = omega arith

  pub narrowed-matches :
      (e more : Expression N) (r : JsonObject N)
      → matches (narrowed e more) r ≡ matches e r && matches more r
  unfolding matches
  narrowed-matches Expression.all more r = refl
  narrowed-matches e more r = and_true _ (matches more r)

  module _ (kind : String → KeyKind) (order : List SortKey) where
    abbrev pub seek : JsonObject N → Expression N
    seek last =
        keyset_after (effective_keys order)
          (map (λ k. key_value last k.property) (effective_keys order))

    seek-matches :
        (order : List SortKey) (r last : JsonObject N)
        → HasKeys kind (effective_keys order) r
        → HasKeys kind (effective_keys order) last
        → matches
            (keyset_after
              (effective_keys order)
              (map (λ k. key_value last k.property) (effective_keys order)))
            r
          ≡ is_positive (compare_records (effective_keys order) r last)
    seek-matches [] r last h k = keyset_after-order kind _ [] r last h k
    seek-matches (key ∷ order) r last h k = keyset_after-order kind key _ r last h k

    -- The records that a page after a record takes from: those behind it in the whole order.
    pub seek-rest :
        (e : Expression N) (rows xs ys : List (JsonObject N)) (last : JsonObject N)
        → All (Has kind order) rows
        → HasDistinctUuids rows
        → sort (cmp kind order) (filter (matches e) rows) ≡ xs ++ last ∷ ys
        → sort (cmp kind order) (filter (matches (narrowed e (seek last))) rows) ≡ ys
    seek-rest e rows xs ys last has distinct whole =
        let kept = filter (matches e) rows in
        let kept_has = All-filter (Has kind order) (matches e) rows has in
        let all_has =
          subst (All (Has kind order)) whole
            (All-sort (cmp kind order) (Has kind order) kept kept_has) in
        let last_has = (All-split (Has kind order) xs (last ∷ ys) all_has).1.0 in
        let strict = subst (IsStrict (cmp kind order) (Has kind order) (ordered kind order)) whole (
          sort-IsStrict (cmp kind order) (Has kind order) (ordered kind order) kept kept_has (
            HasNoTies-filter (cmp kind order) (Has kind order) (ordered kind order) (matches e) rows
              (no_ties kind order rows has distinct))) in
        ap (sort (cmp kind order)) (
          filter-cong (matches (narrowed e (seek last)))
            (λ r. matches e r && is_positive (cmp kind order r last)) rows
            (All-weaken
              (λ r h.
                narrowed-matches e (seek last) r
                ∙ ap (λ b. matches e r && b) (seek-matches order r last h last_has))
              rows has)
          ∙ filter-filter (matches e) (λ r. is_positive (cmp kind order r last)) rows)
        ∙ (sym (
              filter-sort (cmp kind order) (Has kind order) (ordered kind order)
                (λ r. is_positive (cmp kind order r last)) kept kept_has)
            ∙ (ap (filter (λ r. is_positive (cmp kind order r last))) whole
                ∙ filter_after (cmp kind order) (Has kind order) (ordered kind order) xs ys last
                    all_has strict))

module _ {N : Type 0} ⦃o : Number N⦄ where
  all_pages-last :
      (fuel : ℕ) (model : String) (run : QueryPlan N → List (JsonObject N)) (q : QueryCollection N)
      (limit : ℕ) (after : Option (Cursor N)) (items : List (JsonObject N))
      → page model run q limit after
        ≡ some (record { items = items; next_cursor = none; has_more = false })
      → all_pages (suc fuel) model run q limit after ≡ some items
  unfolding all_pages
  all_pages-last fuel model run q limit after items h = rw (all_pages, h) refl

  all_pages-more :
      (fuel : ℕ) (model : String) (run : QueryPlan N → List (JsonObject N)) (q : QueryCollection N)
      (limit : ℕ) (after : Option (Cursor N)) (items rest : List (JsonObject N)) (cursor : Cursor N)
      → page model run q limit after
        ≡ some (record { items = items; next_cursor = some cursor; has_more = true })
      → all_pages fuel model run q limit (some cursor) ≡ some rest
      → all_pages (suc fuel) model run q limit after ≡ some (items ++ rest)
  unfolding all_pages
  all_pages-more fuel model run q limit after items rest cursor h k = rw (all_pages, h, k) refl

  seek_condition-own :
      (e : Expression N) (order : List SortKey) (last : JsonObject N)
      → seek_condition e (effective_keys order) (some (cursor_of (effective_keys order) last))
        ≡ some (
            narrowed e (
              keyset_after
                (effective_keys order)
                (map (λ k. key_value last k.property) (effective_keys order))))
  unfolding seek_condition cursor_of
  seek_condition-own e order last = rw (eq_refl (signature (effective_keys order))) refl

ltb_lt : (a b : ℕ) → ltb a b ≡ true → a < b
ltb_lt a b h = ground arith

not_zero : (n : ℕ) → eqb (suc n) 0 ≡ false
not_zero n = ground arith

module _ {N : Type 0} ⦃o : Number N⦄ ⦃c : Calendar N⦄ (kind : String → KeyKind)
    (rows : List (JsonObject N)) (model : String) (q : QueryCollection N) (n : ℕ)
    (has : All (Has kind q.order) rows) (distinct : HasDistinctUuids rows) where
  abbrev from : Expression N → List (JsonObject N)
  from condition = sort (cmp kind q.order) (filter (matches condition) rows)

  page-from :
      (after : Option (Cursor N)) (condition : Expression N)
      → seek_condition q.expression (effective_keys q.order) after ≡ some condition
      → page model (scan rows) q (suc n) after
        ≡ some (page_of (effective_keys q.order) (suc n) (take (suc (suc n)) (from condition)))
  unfolding page
  page-from after condition h =
      rw (not_zero n, h)
        (ap (λ l. some (page_of (effective_keys q.order) (suc n) l))
          (scan-seek rows model condition q.order (suc n)))

  all_pages-from :
      (fuel : ℕ) (before left : List (JsonObject N)) (after : Option (Cursor N))
      (condition : Expression N)
      → seek_condition q.expression (effective_keys q.order) after ≡ some condition
      → from condition ≡ left
      → from q.expression ≡ before ++ left
      → length left < fuel
      → all_pages fuel model (scan rows) q (suc n) after ≡ some left
  all_pages-from zero before left after condition h e whole enough = absurd (omega (arith, enough))
  all_pages-from (suc fuel) before left after condition h e whole enough =
      let keys = effective_keys q.order in
      let here =
        page-from after condition h
        ∙ ap (λ l. some (page_of keys (suc n) (take (suc (suc n)) l))) e in
      elim (Bool-cases (ltb (suc n) (length left))) [
        | inr short ↦
            all_pages-last fuel model (scan rows) q (suc n) after left
              (here ∙ ap some (page_of-last keys (suc n) left short))
        | inl long ↦
            let (ys, l, cut) = take_last n left (ground (arith, long)) in
            let rest = drop (suc n) left in
            let split = sym (ap (λ t. t ++ rest) cut) ∙ take-append-drop (suc n) left in
            let behind = whole ∙ ap (λ t. before ++ t) (sym split) in
            let next = some (cursor_of keys l) in
            all_pages-more fuel model (scan rows) q (suc n) after (ys ++ l ∷ []) rest
              (cursor_of keys l) (here ∙ ap some (page_of-more keys (suc n) left ys l long cut))
              (all_pages-from fuel (before ++ (ys ++ l ∷ [])) rest next
                (narrowed q.expression (seek kind q.order l))
                (seek_condition-own q.expression q.order l)
                (seek-rest kind q.order q.expression rows (before ++ ys) rest l has distinct (
                  behind
                  ∙ (ap (λ t. before ++ t) (append_assoc ys (l ∷ []) rest)
                      ∙ sym (append_assoc before ys (l ∷ rest)))))
                (behind ∙ sym (append_assoc before (ys ++ l ∷ []) rest))
                (omega
                  (arith, length-drop (suc n) left, enough, ltb_lt (suc n) (length left) long)))
            ∙ ap some split
      ]

  -- Reading page after page from the first gives all the records that the query keeps, each once and in
  -- the query's order, whatever the limit is (above 0), and one page more than there are records is
  -- enough: if the uuids are distinct and every record has, at each sort key and as its uuid, a text
  -- or a finite number, of one kind for each key.
  pub all_pages_complete :
      (fuel : ℕ)
      → let whole = apply_order (filter (matches q.expression) rows) (effective_keys q.order) in
        length whole < fuel → all_pages fuel model (scan rows) q (suc n) none ≡ some whole
  unfolding seek_condition
  all_pages_complete fuel enough =
      let same = apply_order-keys (filter (matches q.expression) rows) q.order in
      all_pages-from fuel [] (from q.expression) none q.expression refl refl refl
        (subst (λ l. length l < fuel) same enough)
      ∙ ap some (sym same)
