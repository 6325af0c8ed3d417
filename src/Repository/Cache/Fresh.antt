-- ===== src/Repository/Cache/Fresh.antt =====
-- A repository's reads are those of the backend, cached or not (repository/Repository.ts).
use object_repository.Base.{String, ◌≡◌, Bool, Option, none, some, List, [], map, if◌then◌else◌}
use object_repository.Base.Dict.{Dict, get}
use object_repository.Json.{JsonObject}
use object_repository.Json.Number.{Number}
use object_repository.Expressions.Plan.{QueryPlan}
use object_repository.Backends.Contract.{ChangeEvent}
use object_repository.Repository.Hash.{plan_hash}
use object_repository.Repository.Cache.{QueryCache, Source, on_event, run_query, effective}

-- the model of an event
abbrev pub model_of : {N : Type 0} → ChangeEvent N → String
model_of (ChangeEvent.saved model uuid r) = model
model_of (ChangeEvent.removed model uuid) = model

-- the plan that a read asks the backend
abbrev pub asked :
    {N : Type 0} {I : Type 0} ⦃o : Number N⦄ → Source N I → QueryPlan N → Bool → QueryPlan N
asked source plan include_deleted =
    let live = effective source plan include_deleted in
    let pre = source.preprocess live.condition in
    if pre.1 then record live { condition = pre.0 } else live

-- A store `S` that answers plans; what an instance shows once it was refreshed with a row is a matter of
-- the row alone; and plans of one model that ask for whole records and have one hash have one answer.
module _ {N : Type 0} {I : Type 0} {S : Type 0} {V : Type 0} ⦃o : Number N⦄ (source : Source N I)
    (query : S → QueryPlan N → List (JsonObject N)) (view : I → V) (shown : JsonObject N → V)
    (keeps : (row : JsonObject N) (i : Option I) → view (source.refresh row i) ≡ shown row)
    (hashed : (s : S) (p q : QueryPlan N)
      → p.model ≡ q.model
      → p.project ≡ q.project
      → plan_hash p ≡ plan_hash q
      → query s p ≡ query s q) where
  abbrev views : List I → List V
  views found = map view found

  abbrev pub rows_views : List (JsonObject N) → List V
  rows_views rows = map shown rows

  -- A plan of the repository's model, for whole records.
  abbrev pub IsOwn : QueryPlan N → Type 0
  IsOwn plan = (plan.model ≡ source.name) × (plan.project ≡ none)

  -- What a backend and the repository do: a read; a change of the store that the feed reports; and an
  -- event of another model.
  pub data Step : S × QueryCache N I → S × QueryCache N I → Type 0 where
    read :
        {s : S} {cache after : QueryCache N I} (plan : QueryPlan N) (include_deleted : Bool)
        (found : List I)
        → IsOwn plan
        → run_query source (query s) cache plan include_deleted ≡ some (after, found)
        → Step (s, cache) (s, after)
    change :
        {s t : S} {cache : QueryCache N I} (event : ChangeEvent N)
        → model_of event ≡ source.name
        → Step (s, cache) (t, on_event source.name source.marker cache event)
    other :
        {s : S} {cache : QueryCache N I} (event : ChangeEvent N)
        → Step (s, cache) (s, on_event source.name source.marker cache event)

  abbrev empty_cache : QueryCache N I
  empty_cache = record { instances = []; results = []; baseline = [] }

  pub data Reach : S × QueryCache N I → Type 0 where
    start : (s : S) → Reach (s, empty_cache)
    step : {a b : S × QueryCache N I} → Reach a → Step a b → Reach b

  abbrev pub IsFresh : S → Dict (List I) → Type 0
  IsFresh s results =
      (plan : QueryPlan N) (found : List I)
      → IsOwn plan
      → get results (plan_hash plan) ≡ some found
      → views found ≡ rows_views (query s plan)

  -- What a read gives, and what it leaves, where the cached results are fresh.
  abbrev IsRead : S → QueryPlan N → QueryCache N I × List I → Type 0
  IsRead s plan done = (views done.1 ≡ rows_views (query s plan)) × IsFresh s done.0.results
