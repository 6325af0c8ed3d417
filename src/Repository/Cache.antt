-- ===== src/Repository/Cache.antt =====
-- repository/QueryCache.ts, and what repository/Repository.ts does with it: the handler of the change
-- feed, `materialize` and `runQuery`. An instance is a value of a type `I` here, so a cached result
-- does not follow a later mutation of a shared instance. `query` is the backend's, `preprocess` tells
-- whether a filter reaches a relation and what it is rewritten to, and `refresh` decodes a row over
-- the instance that the identity map holds. A read is one step: no event arrives while it waits for
-- the backend.
pub mod Fresh
use object_repository.Base.{
  String, Bool, true, false, not, Option, none, some, List, [], ◌∷◌, map, filter, some_elem, ◌==◌,
  if◌then◌else◌,
}
use object_repository.Base.Dict.{Dict, get, put, remove}
use object_repository.Base.Names.{member}
use object_repository.Json.{JsonObject, is_nullish}
use object_repository.Json.Number.{Number}
use object_repository.Expressions.Dates.{Calendar}
use object_repository.Expressions.Nodes.{Expression}
use object_repository.Expressions.Plan.{ExpressionNode, QueryPlan, SortKey}
use object_repository.Backends.Contract.{ChangeEvent, uuid_of}
use object_repository.Repository.Hash.{plan_hash}
use object_repository.Repository.Live.{live_where, change_affects}

-- `QueryCache`: the identity map, the results by the hash of their plan, and the write baseline
pub record QueryCache (N : Type 0) (I : Type 0) : Type 0 where
  pub instances : Dict I
  pub results : Dict (List I)
  pub baseline : Dict (JsonObject N)

-- What a listener of `subscribeChanges` keeps: no filter, or the parsed one.
abbrev pub Listener : Type 0 → Type 0
Listener N = Option (Expression N)

-- `marker` is the field of `softDelete`.
abbrev pub is_marked : {N : Type 0} → Option String → JsonObject N → Bool
unfolding get
is_marked none r = false
is_marked (some marker) r = not (is_nullish (get r marker))

module _ {N I : Type 0} where
  abbrev pub invalidate_results : QueryCache N I → QueryCache N I
  invalidate_results cache = record cache { results = [] }

  abbrev pub forget : QueryCache N I → String → QueryCache N I
  unfolding remove
  forget cache uuid = record cache {
    instances = remove cache.instances uuid;
    baseline = remove cache.baseline uuid;
  }

  abbrev pub learn : Option String → QueryCache N I → String → JsonObject N → QueryCache N I
  unfolding put remove is_marked
  learn marker cache uuid r = record cache {
    instances = if is_marked marker r then remove cache.instances uuid else cache.instances;
    baseline = put cache.baseline uuid r;
  }

  -- the handler that the constructor gives to `backend.changes`: the cache after it
  unfoldable pub on_event : String → Option String → QueryCache N I → ChangeEvent N → QueryCache N I
  unfolding forget learn
  on_event name marker cache (ChangeEvent.saved model uuid r) =
      if model == name then learn marker (invalidate_results cache) uuid r else cache
  on_event name marker cache (ChangeEvent.removed model uuid) =
      if model == name then forget (invalidate_results cache) uuid else cache

  -- `execute`, the relations aside: the rows are materialized in their order
  unfoldable pub materialize :
      ⦃o : Number N⦄
      → (JsonObject N → Option I → I)
      → QueryCache N I
      → JsonObject N
      → QueryCache N I × I
  unfolding get put uuid_of
  materialize refresh cache row =
      let instance_of = refresh row (get cache.instances (uuid_of row)) in
      (
        record cache {
          instances = put cache.instances (uuid_of row) instance_of;
          baseline = put cache.baseline (uuid_of row) row;
        },
        instance_of,
      )

  unfoldable pub materialize_all :
      ⦃o : Number N⦄
      → (JsonObject N → Option I → I)
      → QueryCache N I
      → List (JsonObject N)
      → QueryCache N I × List I
  unfolding materialize
  materialize_all refresh cache [] = (cache, [])
  materialize_all refresh cache (row ∷ rows) =
      let first = materialize refresh cache row in
      let rest = materialize_all refresh first.0 rows in (rest.0, first.1 ∷ rest.1)

module _ {N : Type 0} {I : Type 0} ⦃o : Number N⦄ ⦃c : Calendar N⦄ where
  -- the listeners that the handler notifies
  unfoldable pub woken :
      String → QueryCache N I → ChangeEvent N → List (Listener N) → List (Listener N)
  unfolding change_affects get
  woken name cache (ChangeEvent.saved model uuid r) listeners =
      if model == name
      then filter (λ l. change_affects l (get cache.baseline uuid) (some r)) listeners
      else []
  woken name cache (ChangeEvent.removed model uuid) listeners =
      if model == name
      then filter (λ l. change_affects l (get cache.baseline uuid) none) listeners
      else []

-- `guardOrder`
abbrev pub sorts_by_computed : List String → List SortKey → Bool
sorts_by_computed computed order = some_elem (λ key. member key.property computed) order

-- what a repository is made with, and the functions that it calls
pub record Source (N : Type 0) (I : Type 0) : Type 0 where
  pub name : String
  pub marker : Option String
  pub computed : List String
  pub preprocess : ExpressionNode N → ExpressionNode N × Bool
  pub refresh : JsonObject N → Option I → I

module _ {N : Type 0} {I : Type 0} ⦃o : Number N⦄ where
  abbrev pub effective : Source N I → QueryPlan N → Bool → QueryPlan N
  unfolding live_where
  effective source plan include_deleted = record plan {
    condition = live_where source.marker plan.condition include_deleted;
  }

  abbrev pub keep_result : QueryCache N I → String → List I → QueryCache N I
  unfolding put
  keep_result cache key found = record cache { results = put cache.results key found }

  abbrev pub run_plain :
      Source N I
      → (QueryPlan N → List (JsonObject N))
      → QueryCache N I
      → QueryPlan N
      → QueryCache N I × List I
  unfolding materialize_all keep_result get
  run_plain source query cache plan = elim (get cache.results (plan_hash plan)) [
    | some found ↦ (cache, found)
    | none ↦
        let done = materialize_all source.refresh cache (query plan) in
        (keep_result done.0 (plan_hash plan) done.1, done.1)
  ]

  abbrev pub run_live :
      Source N I
      → (QueryPlan N → List (JsonObject N))
      → QueryCache N I
      → QueryPlan N
      → QueryCache N I × List I
  unfolding run_plain materialize_all
  run_live source query cache plan =
      let pre = source.preprocess plan.condition in
      if pre.1
      then materialize_all source.refresh cache (query (record plan { condition = pre.0 }))
      else run_plain source query cache plan

  -- `runQuery`: none where it throws
  unfoldable pub run_query :
      Source N I
      → (QueryPlan N → List (JsonObject N))
      → QueryCache N I
      → QueryPlan N
      → Bool
      → Option (QueryCache N I × List I)
  unfolding run_live effective
  run_query source query cache plan include_deleted =
      if sorts_by_computed source.computed plan.order
      then none
      else some (run_live source query cache (effective source plan include_deleted))
