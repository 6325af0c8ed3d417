-- ===== src/Sync/Durable/Latest.antt =====
-- The row that the durable target compares a change with, and the one that the reference compares it
-- with, hold the same versions.
use mathlib.Core.List.{foldl}
use object_repository.Base.{
  String, ◌≡◌, refl, ◌∙◌, Bool, true, false, not, ◌&&◌, ◌||◌, Option, none, some, List, [], ◌∷◌,
  map, filter, arith, some_elem, eq_iff, Bool-cases, inl, inr,
}
use object_repository.Base.Sort.{sort, insert_sorted, is_positive}
use object_repository.Base.Text.{text_lt}
use object_repository.Base.Text.Order.{text_lt_trans, text_lt_negtrans, text_lt_total}
use object_repository.Sync.Contract.{SyncChange}
use object_repository.Sync.Target.{latest, latest_step, is_of}
use object_repository.Sync.Target.Log.{holds_at}
use object_repository.Sync.Durable.{
  ChangeRow, to_change, first_of, by_last_version, is_row_of, latest_row,
}

module _ {N : Type 0} where
  -- a change of the record that is not older than the version
  abbrev pub covers : String → String → String → SyncChange N → Bool
  covers m u v c = is_of m u c && not (text_lt c.version v)

  step_covers :
      (m u v : String) (r : Option (SyncChange N)) (c : SyncChange N)
      → holds_at (latest_step m u r c) v ≡ holds_at r v || covers m u v c
  step_covers m u v none c = ground arith
  step_covers m u v (some d) c = ground (
    arith,
    text_lt_negtrans d.version c.version v,
    text_lt_trans d.version c.version v,
    text_lt_negtrans c.version d.version v,
  )

  foldl-covers :
      (m u v : String) (log : List (SyncChange N)) (r : Option (SyncChange N))
      → holds_at (foldl (latest_step m u) r log) v ≡ holds_at r v || some_elem (covers m u v) log
  foldl-covers m u v [] r = ground arith
  foldl-covers m u v (c ∷ log) r =
      ground (arith, foldl-covers m u v log (latest_step m u r c), step_covers m u v r c)

  pub latest-covers :
      (m u v : String) (log : List (SyncChange N))
      → holds_at (latest log m u) v ≡ some_elem (covers m u v) log
  unfolding latest
  latest-covers m u v log = foldl-covers m u v log none

  abbrev pub row_holds_at : Option (ChangeRow N) → String → Bool
  row_holds_at none v = false
  row_holds_at (some row) v = not (text_lt row.version v)

  abbrev at_least : String → ChangeRow N → Bool
  at_least v row = not (text_lt row.version v)

  insert_sorted-first :
      (v : String) (x : ChangeRow N) (ys : List (ChangeRow N))
      → row_holds_at (first_of (insert_sorted by_last_version x ys)) v
        ≡ at_least v x || row_holds_at (first_of ys) v
  unfolding insert_sorted
  insert_sorted-first v x [] = ground arith
  insert_sorted-first v x (y ∷ ys) = ground (
    arith,
    text_lt_negtrans x.version y.version v,
    text_lt_trans x.version y.version v,
    text_lt_negtrans y.version x.version v,
    eq_iff x.version y.version,
    text_lt_total x.version y.version,
  )

  sort-first :
      (v : String) (rows : List (ChangeRow N))
      → row_holds_at (first_of (sort by_last_version rows)) v ≡ some_elem (at_least v) rows
  unfolding sort
  sort-first v [] = refl
  sort-first v (x ∷ rows) =
      ground (arith, insert_sorted-first v x (sort by_last_version rows), sort-first v rows)

  filter-covers :
      (m u v : String) (rows : List (ChangeRow N))
      → some_elem (at_least v) (filter (is_row_of m u) rows)
        ≡ some_elem (covers m u v) (map to_change rows)
  filter-covers m u v [] = refl
  filter-covers m u v (r ∷ rows) = ground (arith, filter-covers m u v rows)

  pub latest_row-covers :
      (m u v : String) (rows : List (ChangeRow N))
      → row_holds_at (latest_row rows m u) v ≡ some_elem (covers m u v) (map to_change rows)
  unfolding latest_row
  latest_row-covers m u v rows =
      sort-first v (filter (is_row_of m u) rows) ∙ filter-covers m u v rows

  abbrev pub IsOf : String → String → Option (SyncChange N) → Type 0
  IsOf m u none = Unit
  IsOf m u (some c) = is_of m u c ≡ true

  IsOf-step :
      (m u : String) (r : Option (SyncChange N)) (c : SyncChange N)
      → IsOf m u r
      → IsOf m u (latest_step m u r c)
  IsOf-step m u none c h = elim (Bool-cases (is_of m u c)) [
    | inl of_it ↦ rw of_it of_it
    | inr other ↦ rw other tt
  ]
  IsOf-step m u (some d) c h = elim (Bool-cases (is_of m u c && text_lt d.version c.version)) [
    | inl newer ↦ rw newer (ground arith)
    | inr older ↦ rw older h
  ]

  foldl-IsOf :
      (m u : String) (log : List (SyncChange N)) (r : Option (SyncChange N))
      → IsOf m u r
      → IsOf m u (foldl (latest_step m u) r log)
  foldl-IsOf m u [] r h = h
  foldl-IsOf m u (c ∷ log) r h = foldl-IsOf m u log (latest_step m u r c) (IsOf-step m u r c h)

  pub latest-IsOf : (m u : String) (log : List (SyncChange N)) → IsOf m u (latest log m u)
  unfolding latest
  latest-IsOf m u log = foldl-IsOf m u log none tt

  abbrev pub IsRowOf : String → String → Option (ChangeRow N) → Type 0
  IsRowOf m u none = Unit
  IsRowOf m u (some row) = is_row_of m u row ≡ true

  insert_sorted-IsRowOf :
      (m u : String) (x : ChangeRow N) (ys : List (ChangeRow N))
      → is_row_of m u x ≡ true
      → IsRowOf m u (first_of ys)
      → IsRowOf m u (first_of (insert_sorted by_last_version x ys))
  unfolding insert_sorted
  insert_sorted-IsRowOf m u x [] h k = h
  insert_sorted-IsRowOf m u x (y ∷ ys) h k = elim (Bool-cases (is_positive (by_last_version x y))) [
    | inl after ↦ rw after k
    | inr before ↦ rw before h
  ]

  sort-IsRowOf :
      (m u : String) (rows : List (ChangeRow N))
      → IsRowOf m u (first_of (sort by_last_version (filter (is_row_of m u) rows)))
  unfolding sort
  sort-IsRowOf m u [] = tt
  sort-IsRowOf m u (x ∷ rows) = elim (Bool-cases (is_row_of m u x)) [
    | inl of_it ↦
        rw (of_it, sort)
          (insert_sorted-IsRowOf m u x (sort by_last_version (filter (is_row_of m u) rows)) of_it
            (sort-IsRowOf m u rows))
    | inr other ↦ rw other (sort-IsRowOf m u rows)
  ]

  pub latest_row-IsRowOf :
      (m u : String) (rows : List (ChangeRow N)) → IsRowOf m u (latest_row rows m u)
  unfolding latest_row
  latest_row-IsRowOf m u rows = sort-IsRowOf m u rows
