-- ===== src/Repository/Patch/Replay.antt =====
-- A patch that is applied again (repository/patch.ts).
use mathlib.Core.Path.{subst}
use object_repository.Base.{
  String, ◌≡◌, refl, ◌∙◌, sym, ap, Bool, true, false, not, ◌||◌, Option, some, List, [], ◌∷◌, ◌++◌,
  filter, every, arith, ◌==◌, Option-cases, Bool-cases, inl, inr, if◌then◌else◌,
}
use object_repository.Base.Dict.{Dict, get}
use object_repository.Json.{Value, arr, items, elems-items, JsonObject}
use object_repository.Json.Number.{Number}
use object_repository.Expressions.Dates.{Calendar}
use object_repository.Repository.Patch.{
  PatchOp, as_array, has, add_missing, add_all, is_pulled, apply_patch,
}
use object_repository.Repository.Patch.Fields.{same_value_refl, IsSpec, patched, get-apply_patch}

-- An op that gives the same whether it is applied once or again.
abbrev pub is_replayable : {N : Type 0} → PatchOp N → Bool
is_replayable (PatchOp.set v) = true
is_replayable PatchOp.unset = true
is_replayable (PatchOp.add_to_set vs) = true
is_replayable (PatchOp.pull vs) = true
is_replayable op = false

module _ {N : Type 0} ⦃o : Number N⦄ where
  has-append : (xs ys : List (Value N)) (v : Value N) → has (xs ++ ys) v ≡ has xs v || has ys v
  has-append [] ys v = ground arith
  has-append (x ∷ xs) ys v = ground (arith, has-append xs ys v)

  add_missing-has :
      (xs : List (Value N)) (v w : Value N) → has xs w ≡ true → has (add_missing xs v) w ≡ true
  add_missing-has xs v w h = elim (Bool-cases (has xs v)) [
    | inl there ↦ rw there h
    | inr missing ↦ rw (missing, has-append xs (v ∷ []) w, h) refl
  ]

  add_missing-has_self : (xs : List (Value N)) (v : Value N) → has (add_missing xs v) v ≡ true
  add_missing-has_self xs v = elim (Bool-cases (has xs v)) [
    | inl there ↦ rw there there
    | inr missing ↦ rw (missing, has-append xs (v ∷ []) v, missing, same_value_refl (some v)) refl
  ]

  add_all-has :
      (xs vs : List (Value N)) (w : Value N) → has xs w ≡ true → has (add_all xs vs) w ≡ true
  unfolding add_all
  add_all-has xs [] w h = h
  add_all-has xs (v ∷ vs) w h = add_all-has (add_missing xs v) vs w (add_missing-has xs v w h)

  add_all-idle : (xs vs : List (Value N)) → every (has xs) vs ≡ true → add_all xs vs ≡ xs
  unfolding add_all
  add_all-idle xs [] h = refl
  add_all-idle xs (v ∷ vs) h = elim (Bool-cases (has xs v)) [
    | inl there ↦ rw there (add_all-idle xs vs (ground (arith, there)))
    | inr missing ↦ absurd (ground (arith, missing))
  ]

  add_all-has_all : (xs vs : List (Value N)) → every (has (add_all xs vs)) vs ≡ true
  unfolding add_all
  add_all-has_all xs [] = refl
  add_all-has_all xs (v ∷ vs) =
      rw (add_all-has (add_missing xs v) vs v (add_missing-has_self xs v))
        (add_all-has_all (add_missing xs v) vs)

  add_all-again : (xs vs : List (Value N)) → add_all (add_all xs vs) vs ≡ add_all xs vs
  add_all-again xs vs = add_all-idle (add_all xs vs) vs (add_all-has_all xs vs)

  filter-again : (p : Value N → Bool) (xs : List (Value N)) → filter p (filter p xs) ≡ filter p xs
  filter-again p [] = refl
  filter-again p (x ∷ xs) = elim (Bool-cases (p x)) [
    | inl kept ↦ rw (kept, kept) (ap (λ l. x ∷ l) (filter-again p xs))
    | inr dropped ↦ rw dropped (filter-again p xs)
  ]

module _ {N : Type 0} ⦃o : Number N⦄ ⦃c : Calendar N⦄ where
  patched-again :
      (r s : JsonObject N) (k : String) (op : PatchOp N)
      → is_replayable op ≡ true
      → get s k ≡ patched r k op
      → patched s k op ≡ patched r k op
  patched-again r s k (PatchOp.set v) h e = refl
  patched-again r s k PatchOp.unset h e = refl
  patched-again r s k (PatchOp.add_to_set vs) h e =
      rw (e, elems-items (add_all (as_array (get r k)) vs))
        (ap (λ l. some (arr (items l))) (add_all-again (as_array (get r k)) vs))
  patched-again r s k (PatchOp.pull vs) h e =
      rw (e, elems-items (filter (λ x. not (is_pulled vs x)) (as_array (get r k))))
        (ap (λ l. some (arr (items l)))
          (filter-again (λ x. not (is_pulled vs x)) (as_array (get r k))))
  patched-again r s k (PatchOp.set_expr x) h e = cc
  patched-again r s k (PatchOp.inc by) h e = cc
  patched-again r s k (PatchOp.mul by) h e = cc
  patched-again r s k (PatchOp.push vs) h e = cc

  replayable-get :
      (ops : Dict (PatchOp N)) (k : String) (op : PatchOp N)
      → every (λ e. is_replayable e.1) ops ≡ true
      → get ops k ≡ some op
      → is_replayable op ≡ true
  unfolding get
  replayable-get [] k op h e = cc
  replayable-get ((field, first) ∷ ops) k op h e = elim (Bool-cases (field == k)) [
    | inl here ↦ subst (λ x. is_replayable x ≡ true) (found (get ops k) here e) (ground arith)
    | inr there ↦
        replayable-get ops k op (ground arith)
          (subst (λ b. (if b then some first else get ops k) ≡ some op) there e)
  ]
    where
      found :
          (rest : Option (PatchOp N))
          → field == k ≡ true
          → (if field == k then some first else rest) ≡ some op
          → first ≡ op
      found rest here e = ground (arith, here, e)

  -- Applying a patch again that only sets and removes fields, adds to sets and pulls from arrays
  -- leaves every field of the record as the first application left it.
  pub apply_patch-again :
      (r : JsonObject N) (ops : Dict (PatchOp N)) (k : String)
      → IsSpec ops
      → every (λ e. is_replayable e.1) ops ≡ true
      → get (apply_patch (apply_patch r ops) ops) k ≡ get (apply_patch r ops) k
  apply_patch-again r ops k spec h =
      let once = get-apply_patch r ops k spec in
      get-apply_patch (apply_patch r ops) ops k spec ∙ elim (Option-cases (get ops k)) [
        | inl absent ↦ rw absent refl
        | inr (op, e) ↦ rw e (
            patched-again r (apply_patch r ops) k op (replayable-get ops k op h e)
              (once ∙ rw e refl)
            ∙ sym (once ∙ rw e refl))
      ]
