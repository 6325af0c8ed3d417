-- ===== src/Expressions/Aggregate/Groups.antt =====
-- What the reference reduction groups and reduces.
use mathlib.Core.Path.{subst}
use mathlib.Core.List.{foldl, append-nil, append_assoc}
use object_repository.Base.{
  String, ◌≡◌, refl, ◌∙◌, sym, ap, Bool, true, false, Option, none, some, List, [], ◌∷◌, ◌++◌,
  arith, All, filter, ◌==◌, eq_iff, Bool-cases, ◌⊎◌, inl, inr, Occurs, if◌then◌else◌,
}
use object_repository.Base.Dict.{Dict, get, get-put}
use object_repository.Json.{Value, JsonObject}
use object_repository.Json.Number.{Number}
use object_repository.Expressions.Plan.{AggregateOp}
use object_repository.Expressions.Dates.{Calendar}
use object_repository.Expressions.Values.{ValueExpr, evaluate}
use object_repository.Expressions.Aggregate.{
  Bucket, hash_of, with_row, add_row, bucket_rows, smaller, reduce_present, numeric_values,
  reduce_with_expr, reduce_numbers, onto_finite,
}

module _ {N : Type 0} ⦃o : Number N⦄ ⦃c : Calendar N⦄ where
  abbrev pub rows_of : Option (Bucket N) → List (JsonObject N)
  rows_of none = []
  rows_of (some bucket) = bucket.rows

  rows_of-with_row :
      (es : List (ValueExpr N)) (r : JsonObject N) (b : Option (Bucket N))
      → rows_of (some (with_row es r b)) ≡ rows_of b ++ r ∷ []
  rows_of-with_row es r none = refl
  rows_of-with_row es r (some bucket) = refl

  rows_of-add_row :
      (es : List (ValueExpr N)) (buckets : Dict (Bucket N)) (r : JsonObject N) (h : String)
      → rows_of (get (add_row es buckets r) h)
        ≡ rows_of (get buckets h) ++ (if hash_of es r == h then r ∷ [] else [])
  rows_of-add_row es buckets r h =
      ap rows_of (get-put buckets (hash_of es r) h (with_row es r (get buckets (hash_of es r))))
      ∙ by_hash (hash_of es r) (hash_of es r == h) (λ e. (eq_iff (hash_of es r) h).0 e)
    where
      by_hash :
          (k : String) (same : Bool)
          → (same ≡ true → k ≡ h)
          → rows_of (if same then some (with_row es r (get buckets k)) else get buckets h)
            ≡ rows_of (get buckets h) ++ (if same then r ∷ [] else [])
      by_hash k true e =
          rows_of-with_row es r (get buckets k)
          ∙ ap (λ j. rows_of (get buckets j) ++ r ∷ []) (e refl)
      by_hash k false e = sym (append-nil (rows_of (get buckets h)))

  rows_of-foldl :
      (es : List (ValueExpr N)) (buckets : Dict (Bucket N)) (rs : List (JsonObject N)) (h : String)
      → rows_of (get (foldl (add_row es) buckets rs) h)
        ≡ rows_of (get buckets h) ++ filter (λ r. hash_of es r == h) rs
  rows_of-foldl es buckets [] h = sym (append-nil (rows_of (get buckets h)))
  rows_of-foldl es buckets (r ∷ rs) h =
      let later = filter (λ x. hash_of es x == h) rs in
      rows_of-foldl es (add_row es buckets r) rs h
      ∙ (ap (λ xs. xs ++ later) (rows_of-add_row es buckets r h)
          ∙ (append_assoc (rows_of (get buckets h)) (if hash_of es r == h then r ∷ [] else []) later
              ∙ ap (λ xs. rows_of (get buckets h) ++ xs) (onto (hash_of es r == h) later)))
    where
      onto :
          (same : Bool) (later : List (JsonObject N))
          → (if same then r ∷ [] else []) ++ later ≡ (if same then r ∷ later else later)
      onto true later = refl
      onto false later = refl

  -- The bucket of a hash holds exactly the rows whose keys have that hash, in the order of the input.
  pub bucket_rows-filter :
      (es : List (ValueExpr N)) (rs : List (JsonObject N)) (h : String)
      → rows_of (get (bucket_rows es rs) h) ≡ filter (λ r. hash_of es r == h) rs
  unfolding bucket_rows get
  bucket_rows-filter es rs h = rows_of-foldl es [] rs h

module _ {N : Type 0} ⦃o : Number N⦄ where
  abbrev pub IsFinite : N → Type 0
  IsFinite n = o.is_finite n ≡ true

  -- `m` is no greater than the numbers of a list.
  abbrev pub IsLeast : N → List N → Type 0
  IsLeast m ns = All (λ n. o.lt n m ≡ false) ns

  smaller-least : (a n x : N) → IsFinite n → o.lt x a ≡ false → o.lt x (smaller a n) ≡ false
  smaller-least a n x f h = ground (arith, o.lt_trans x n a)

  foldl-smaller :
      (a : N) (ns : List N)
      → All IsFinite ns
      → All (λ n. o.lt n (foldl smaller a ns) ≡ false) ns
        × ((x : N) → o.lt x a ≡ false → o.lt x (foldl smaller a ns) ≡ false)
  foldl-smaller a [] f = (tt, λ x h. h)
  foldl-smaller a (n ∷ ns) f =
      let (least, kept) = foldl-smaller (smaller a n) ns f.1 in
      ((kept n (own a n f.0), least), λ x h. kept x (smaller-least a n x f.0 h))
    where
      own : (a n : N) → IsFinite n → o.lt n (smaller a n) ≡ false
      own a n f = ground (arith, o.eq_refl n f, o.lt_irrefl n n)

  foldl-smaller-Occurs :
      (a : N) (ns : List N) → (foldl smaller a ns ≡ a) ⊎ Occurs (foldl smaller a ns) ns
  foldl-smaller-Occurs a [] = inl refl
  foldl-smaller-Occurs a (n ∷ ns) =
      pick (o.lt n a) (foldl smaller (smaller a n) ns) (foldl-smaller-Occurs (smaller a n) ns)
    where
      pick :
          (b : Bool) (m : N)
          → (m ≡ (if b then n else a)) ⊎ Occurs m ns
          → (m ≡ a) ⊎ Occurs m (n ∷ ns)
      pick true m (inl e) = inr (subst (λ x. Occurs x (n ∷ ns)) (sym e) Occurs.here)
      pick false m (inl e) = inl e
      pick b m (inr h) = inr (Occurs.later h)

  reduce_min-IsLeast :
      (ns : List N)
      → All IsFinite ns
      → IsLeast (reduce_present AggregateOp.min ns) ns
        × ((ns ≡ []) ⊎ Occurs (reduce_present AggregateOp.min ns) ns)
  unfolding reduce_numbers
  reduce_min-IsLeast [] f = (tt, inl refl)
  reduce_min-IsLeast (n ∷ ns) f = (
    ((foldl-smaller n ns f.1).1 n (o.lt_irrefl n n (o.eq_refl n f.0)), (foldl-smaller n ns f.1).0),
    inr (from_fold (foldl smaller n ns) (foldl-smaller-Occurs n ns)),
  )
    where
      from_fold : (m : N) → (m ≡ n) ⊎ Occurs m ns → Occurs m (n ∷ ns)
      from_fold m (inl e) = subst (λ x. Occurs x (n ∷ ns)) (sym e) Occurs.here
      from_fold m (inr h) = Occurs.later h

module _ {N : Type 0} ⦃o : Number N⦄ ⦃c : Calendar N⦄ where
  onto_finite-IsFinite :
      (v : Value N) (ns : List N) → All IsFinite ns → All IsFinite (onto_finite v ns)
  onto_finite-IsFinite (Value.num n) ns f = elim (Bool-cases (o.is_finite n)) [
    | inl finite ↦ rw finite (finite, f)
    | inr wild ↦ rw wild f
  ]
  onto_finite-IsFinite v ns f = f

  numeric_values-IsFinite :
      (rs : List (JsonObject N)) (e : ValueExpr N) → All IsFinite (numeric_values rs e)
  unfolding numeric_values
  numeric_values-IsFinite [] e = tt
  numeric_values-IsFinite (r ∷ rs) e =
      onto_finite-IsFinite (evaluate e r) (numeric_values rs e) (numeric_values-IsFinite rs e)

  -- The `min` of an expression over rows is a number that no finite number which the expression has on a
  -- row is less than, and it is one of these, or there are none.
  pub reduce_with_expr-IsLeast :
      (e : ValueExpr N) (rs : List (JsonObject N))
      → (m : N) × (reduce_with_expr AggregateOp.min (some e) rs ≡ some m)
        × IsLeast m (numeric_values rs e)
        × ((numeric_values rs e ≡ []) ⊎ Occurs m (numeric_values rs e))
  unfolding reduce_with_expr
  reduce_with_expr-IsLeast e rs =
      let (least, occurs) =
        reduce_min-IsLeast (numeric_values rs e) (numeric_values-IsFinite rs e) in
      (reduce_present AggregateOp.min (numeric_values rs e), refl, least, occurs)
