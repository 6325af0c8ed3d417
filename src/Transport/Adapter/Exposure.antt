-- ===== src/Transport/Adapter/Exposure.antt =====
-- What a client can reach and read through the adapter, and what a batch that fails leaves.
use object_repository.Base.{
  ℕ, zero, suc, ◌+◌, ◌-◌, min, String, ◌≡◌, refl, ◌∙◌, ap, sym, true, false, Option, none, some,
  List, [], ◌∷◌, ◌++◌, arith, filter, take, drop, Result, ok, err, inl, inr, All, Bool-cases,
  Occurs,
}
use object_repository.Json.{JsonObject}
use object_repository.Json.Number.{Number}
use object_repository.Expressions.Plan.{QueryPlan, AggregatePlan}
use object_repository.Expressions.Dates.{Calendar}
use object_repository.Backends.Contract.{Change}
use object_repository.Backends.Scan.{scan, apply_paging, apply_order}
use object_repository.Expressions.Nodes.{matches}
use object_repository.Expressions.Wire.{parse}
use object_repository.Transport.Command.{Context, Thrown}
use object_repository.Transport.Adapter.{
  Store, Adapter, Request, model_allowed, clamp, page_end, forbidden, first_forbidden, go_on,
  write_all, persist_batch, after_saves, handle, safe_error,
}

-- A request that reads or writes a model.
pub data Touches {N : Type 0} (model : String) : Request N → Type 0 where
  by_query : (plan : QueryPlan N) → plan.model ≡ model → Touches model (Request.query plan)
  by_query_uuids :
      (plan : QueryPlan N) → plan.model ≡ model → Touches model (Request.query_uuids plan)
  by_aggregate :
      (plan : AggregatePlan N) → plan.model ≡ model → Touches model (Request.aggregate plan)
  by_persist :
      (saves removes : List (Change N)) (c : Change N)
      → c.model ≡ model
      → Occurs c (saves ++ removes)
      → Touches model (Request.persist saves removes)

first_forbidden-some :
    {N : Type 0} (allowed : Option (List String)) (cs : List (Change N)) (c : Change N)
    → Occurs c cs
    → model_allowed allowed c.model ≡ false
    → (m : String) × (first_forbidden allowed cs ≡ some m)
first_forbidden-some allowed [] c h f = elim h [ ]
first_forbidden-some allowed (y ∷ ys) c Occurs.here f = (c.model, rw f refl)
first_forbidden-some allowed (y ∷ ys) c (Occurs.later h) f =
    let rest = first_forbidden-some allowed ys c h f in
    elim (Bool-cases (model_allowed allowed y.model)) [
      | inl exposed ↦ (rest.0, rw exposed (rest.1))
      | inr hidden ↦ (y.model, rw hidden refl)
    ]

module _ {N S : Type 0} ⦃o : Number N⦄ ⦃c : Calendar N⦄ (store : Store N S) where
  -- A request that touches a model which is reserved, or not in the allow-list, is refused with
  -- `FORBIDDEN_MODEL` and leaves the backend as it was: also a batch in which only one write does.
  pub handle_refuses_models :
      (adapter : Adapter N S) (s : S) (request : Request N) (ctx : Context N) (model : String)
      → model_allowed adapter.allowed_models model ≡ false
      → Touches model request
      → (m : String) × (handle store adapter s request ctx ≡ (s, forbidden m))
  unfolding handle
  handle_refuses_models adapter s request ctx model f (by_query plan e) =
      (plan.model, rw (ap (model_allowed adapter.allowed_models) e ∙ f) refl)
  handle_refuses_models adapter s request ctx model f (by_query_uuids plan e) =
      (plan.model, rw (ap (model_allowed adapter.allowed_models) e ∙ f) refl)
  handle_refuses_models adapter s request ctx model f (by_aggregate plan e) =
      (plan.model, rw (ap (model_allowed adapter.allowed_models) e ∙ f) refl)
  handle_refuses_models adapter s request ctx model f (by_persist saves removes change e h) =
      let first =
        first_forbidden-some adapter.allowed_models (saves ++ removes) change h
          (ap (model_allowed adapter.allowed_models) e ∙ f) in
      (first.0, rw (first.1, handle) refl)

  all_exposed :
      (allowed : Option (List String)) (cs : List (Change N))
      → All (λ c. model_allowed allowed c.model ≡ true) cs
      → first_forbidden allowed cs ≡ none
  all_exposed allowed [] h = refl
  all_exposed allowed (c ∷ cs) h = rw h.0 (all_exposed allowed cs h.1)

  go_on-fails :
      (first second : S → S × Option Thrown) (s t : S) (e : Thrown) (r : Result Thrown S)
      → ((u : S) → first u ≡ (t, none) → second u ≡ (t, some e))
      → go_on first s r ≡ (t, none)
      → go_on second s r ≡ (t, some e)
  go_on-fails first second s t e (ok u) later h = later u h
  go_on-fails first second s t e (err d) later h = cc

  write_all-fails :
      (write : S → String → JsonObject N → Result Thrown S) (before after : List (Change N))
      (c : Change N) (s t : S) (e : Thrown)
      → write_all write before s ≡ (t, none)
      → write t c.model c.body ≡ err e
      → write_all write (before ++ c ∷ after) s ≡ (t, some e)
  unfolding write_all
  write_all-fails write [] after c s t e h f =
      ap (go_on (write_all write after) s) (ap (λ u. write u c.model c.body) (same s t h) ∙ f)
      ∙ ap (λ u. (u, some e)) (same s t h)
    where
      same : (s t : S) → Path (S × Option Thrown) (s, none) (t, none) → s ≡ t
      same s t h = cc
  write_all-fails write (b ∷ before) after c s t e h f =
      go_on-fails (write_all write before) (write_all write (before ++ c ∷ after)) s t e
        (write s b.model b.body) (λ u k. write_all-fails write before after c u t e k f) h

  persist_batch-fails :
      (s t : S) (before after : List (Change N)) (c : Change N) (removes : List (Change N))
      (ctx : Context N) (e : Thrown)
      → write_all (λ u m r. store.save u m r ctx) (before ++ c ∷ after) s ≡ (t, some e)
      → persist_batch store s (before ++ c ∷ after) removes ctx ≡ (t, safe_error "BACKEND_ERROR" e)
  unfolding persist_batch
  persist_batch-fails s t before after c removes ctx e h = ap (after_saves store removes ctx) h

  -- A batch of which one save throws is answered with an error, but the saves before it stay with the
  -- backend: the adapter undoes nothing.
  pub handle_keeps_earlier_saves :
      (adapter : Adapter N S) (s t : S) (before after : List (Change N)) (c : Change N)
      (removes : List (Change N)) (ctx : Context N) (e : Thrown)
      → All
          (λ w. model_allowed adapter.allowed_models w.model ≡ true)
          ((before ++ c ∷ after) ++ removes)
      → write_all (λ u m r. store.save u m r ctx) before s ≡ (t, none)
      → store.save t c.model c.body ctx ≡ err e
      → handle store adapter s (Request.persist (before ++ c ∷ after) removes) ctx
        ≡ (t, safe_error "BACKEND_ERROR" e)
  unfolding handle
  handle_keeps_earlier_saves adapter s t before after c removes ctx e h w f =
      rw (all_exposed adapter.allowed_models ((before ++ c ∷ after) ++ removes) h, handle)
        (persist_batch-fails s t before after c removes ctx e
          (write_all-fails (λ u m r. store.save u m r ctx) before after c s t e w f))

take-nil : {A : Type 0} → (n : ℕ) → take {A = A} n [] ≡ []
take-nil zero = refl
take-nil (suc n) = refl

take_same : {A : Type 0} → (m n : ℕ) (xs : List A) → m ≡ n → take m xs ≡ take n xs
take_same m n xs e = ap (λ k. take k xs) e

take-take : {A : Type 0} → (m n : ℕ) (xs : List A) → take m (take n xs) ≡ take (min m n) xs
take-take zero n xs = take_same 0 (min 0 n) xs (omega arith)
take-take (suc m) zero xs = take_same 0 (min (suc m) 0) xs (omega arith)
take-take (suc m) (suc n) [] = sym (take-nil (min (suc m) (suc n)))
take-take (suc m) (suc n) (x ∷ xs) =
    ap (λ ys. x ∷ ys) (take-take m n xs)
    ∙ take_same (suc (min m n)) (min (suc m) (suc n)) (x ∷ xs) (omega arith)

clamped_page :
    {A : Type 0}
    → (stop : Option ℕ) (start size : ℕ) (xs : List A)
    → take (page_end stop (start + size) - start) xs
      ≡ take size (elim stop [ none ↦ xs | some end ↦ take (end - start) xs ])
clamped_page none start size xs = take_same (start + size - start) size xs (omega arith)
clamped_page (some end) start size xs =
    take_same (min end (start + size) - start) (min size (end - start)) xs (omega arith)
    ∙ sym (take-take size (end - start) xs)

module _ {N : Type 0} ⦃o : Number N⦄ ⦃c : Calendar N⦄ where
  -- A scan of a clamped plan returns the first `size` of the records that a scan of the plan returns.
  pub scan-clamp :
      (records : List (JsonObject N)) (plan : QueryPlan N) (size : ℕ)
      → scan records (clamp (some size) plan) ≡ take size (scan records plan)
  unfolding scan apply_paging clamp
  scan-clamp records plan size = clamped_page plan.paging.stop plan.paging.start size (
      drop plan.paging.start
        (apply_order (filter (matches (parse plan.condition)) records) plan.order))
