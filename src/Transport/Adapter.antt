-- ===== src/Transport/Adapter.antt =====
-- transport/BackendAdapter.ts: the server side of the wire over a backend, an interface. A backend has
-- a state `S`; what it throws comes as an error. The parameters of a request are those of the types
-- that the code casts them to. `feed` is what the change feed has shown to a context so far.
pub mod Exposure
use Prim.Native.Char.{code}
use Prim.Native.String.{◌++◌ as ◌+++◌}
use object_repository.Base.{
  ℕ, ◌+◌, min, String, Bool, true, false, Option, none, some, List, [], ◌∷◌, ◌++◌, Result, ok, err,
  length, drop, ◌==◌, eqb, if◌then◌else◌,
}
use object_repository.Base.{not as invert}
use object_repository.Base.Dict.{Dict}
use object_repository.Base.Names.{member}
use object_repository.Json.{Value, JsonObject}
use object_repository.Json.Number.{Number}
use object_repository.Expressions.Plan.{Paging, QueryPlan, AggregatePlan}
use object_repository.Expressions.Dates.{Calendar}
use object_repository.Expressions.Aggregate.{AggregateRow, reduce_plan}
use object_repository.Backends.Contract.{Change, ChangeEvent, PersistResult}
use object_repository.Transport.Command.{
  Context, Thrown, command_error, validation_error, Command, execute_command,
}

-- The wrapped backend.
pub record Store (N S : Type 0) : Type 0 where
  pub query : S → QueryPlan N → Context N → Result Thrown (List (JsonObject N))
  pub query_uuids : S → QueryPlan N → Context N → Result Thrown (List String)
  pub aggregate : Option (S → AggregatePlan N → Context N → Result Thrown (List (AggregateRow N)))
  pub save : S → String → JsonObject N → Context N → Result Thrown S
  pub remove : S → String → JsonObject N → Context N → Result Thrown S
  pub persist : S → Context N → S × Result Thrown (PersistResult N)
  pub feed : S → Context N → List (ChangeEvent N)

-- `BackendAdapter`, less the backend
pub record Adapter (N S : Type 0) : Type 0 where
  pub fingerprint : Option String
  pub commands : Option (Dict (Command N S))
  pub allowed_models : Option (List String)
  pub max_page_size : Option ℕ

-- `WireRequest`
pub data Request (N : Type 0) : Type 0 where
  handshake : String → Request N
  query query_uuids : QueryPlan N → Request N
  aggregate : AggregatePlan N → Request N
  persist : List (Change N) → List (Change N) → Request N
  command : Value N → Value N → Request N
  unsupported : String → Request N

-- the `result` of a `WireResponse`
pub data Payload (N : Type 0) : Type 0 where
  accepted : Option String → Payload N
  records : List (JsonObject N) → Payload N
  uuids : List String → Payload N
  summary : List (AggregateRow N) → Payload N
  persisted : PersistResult N → Payload N
  reply : Value N → List (ChangeEvent N) → Payload N

-- `WireError`
pub record WireError : Type 0 where
  pub code : String
  pub message : String

-- `WireResponse`
abbrev pub Response : Type 0 → Type 0
Response N = Result WireError (Payload N)

abbrev pub failure : {N : Type 0} → String → String → Response N
failure code message = err (record { code = code; message = message })

-- `safeError`
abbrev pub safe_error : {N : Type 0} → String → Thrown → Response N
safe_error code (validation_error message) = failure code message
safe_error code e = failure code "An internal error occurred."

-- `model.startsWith("_")`
abbrev starts_with_underscore : String → Bool
starts_with_underscore String.[] = false
starts_with_underscore (String.◌∷◌ c s) = eqb (code c) b'_'

-- `modelAllowed`
unfoldable pub model_allowed : Option (List String) → String → Bool
model_allowed allowed model =
    if starts_with_underscore model
    then false
    else elim allowed [ none ↦ true | some models ↦ member model models ]

abbrev pub page_end : Option ℕ → ℕ → ℕ
page_end none cap = cap
page_end (some stop) cap = min stop cap

-- `clamp`
unfoldable pub clamp : {N : Type 0} → Option ℕ → QueryPlan N → QueryPlan N
clamp max_page_size plan = elim max_page_size [
  | none ↦ plan
  | some size ↦ record plan {
    paging = record {
      start = plan.paging.start;
      stop = some (page_end plan.paging.stop (plan.paging.start + size));
    };
  }
]

abbrev pub forbidden : {N : Type 0} → String → Response N
forbidden model = failure "FORBIDDEN_MODEL" ("Model \"" +++ (model +++ "\" is not exposed."))

-- the first of the changes whose model is not exposed
abbrev pub first_forbidden : {N : Type 0} → Option (List String) → List (Change N) → Option String
first_forbidden allowed [] = none
first_forbidden allowed (c ∷ cs) =
    let later = first_forbidden allowed cs in
    if model_allowed allowed c.model then later else some c.model

abbrev pub answer : {N A : Type 0} → (A → Payload N) → Result Thrown A → Response N
answer f (ok a) = ok (f a)
answer f (err e) = safe_error "BACKEND_ERROR" e

-- the loop over the saves, or the removes, up to the first that throws
abbrev pub go_on : {S : Type 0} → (S → S × Option Thrown) → S → Result Thrown S → S × Option Thrown
go_on next s (err e) = (s, some e)
go_on next s (ok t) = next t

unfoldable pub write_all :
    {N S : Type 0}
    → (S → String → JsonObject N → Result Thrown S)
    → List (Change N)
    → S
    → S × Option Thrown
write_all write [] s = (s, none)
write_all write (c ∷ cs) s = go_on (write_all write cs) s (write s c.model c.body)

module _ {N S : Type 0} (store : Store N S) where
  abbrev persist_answer : S × Result Thrown (PersistResult N) → S × Response N
  persist_answer (s, r) = (s, answer Payload.persisted r)

  abbrev pub after_removes : Context N → S × Option Thrown → S × Response N
  after_removes ctx (s, some e) = (s, safe_error "BACKEND_ERROR" e)
  after_removes ctx (s, none) = persist_answer (store.persist s ctx)

  abbrev pub after_saves : List (Change N) → Context N → S × Option Thrown → S × Response N
  after_saves removes ctx (s, some e) = (s, safe_error "BACKEND_ERROR" e)
  after_saves removes ctx (s, none) =
      after_removes ctx (write_all (λ t m r. store.remove t m r ctx) removes s)

  -- the writes of a `persist` message whose models are exposed
  unfoldable pub persist_batch : S → List (Change N) → List (Change N) → Context N → S × Response N
  unfolding write_all
  persist_batch s saves removes ctx =
      after_saves removes ctx (write_all (λ t m r. store.save t m r ctx) saves s)

  abbrev replied : Context N → List (ChangeEvent N) → S × Result Thrown (Value N) → S × Response N
  replied ctx before (s, ok v) = (s, ok (Payload.reply v (drop (length before) (store.feed s ctx))))
  replied ctx before (s, err (command_error code message)) = (s, failure code message)
  replied ctx before (s, err e) = (s, safe_error "COMMAND_ERROR" e)

  -- `command`
  unfoldable pub run :
      ⦃o : Number N⦄
      → Option (Dict (Command N S))
      → S
      → Value N
      → Value N
      → Context N
      → S × Response N
  unfolding execute_command
  run none s name input ctx =
      (s, failure "UNSUPPORTED_METHOD" "This adapter has no commands registered.")
  run (some commands) s name input ctx =
      replied ctx (store.feed s ctx) (execute_command commands name input ctx s)

  abbrev handshake_answer : Option String → String → Response N
  handshake_answer none theirs = ok (Payload.accepted none)
  handshake_answer (some ours) theirs =
      if theirs == ours
      then ok (Payload.accepted (some ours))
      else failure "SCHEMA_MISMATCH"
          ("Client schema " +++ (theirs +++ (" does not match server schema " +++ (ours +++ "."))))

  abbrev reduced :
      ⦃o : Number N⦄ ⦃c : Calendar N⦄
      → AggregatePlan N
      → Result Thrown (List (JsonObject N))
      → Response N
  reduced plan (err e) = safe_error "BACKEND_ERROR" e
  reduced plan (ok rows) = elim (reduce_plan plan rows) [
    | some groups ↦ ok (Payload.summary groups)
    | none ↦ failure "BACKEND_ERROR" "An internal error occurred."
  ]

  -- the summary of the rows of a model: by the store if it reduces natively
  unfoldable pub summarize :
      ⦃o : Number N⦄ ⦃c : Calendar N⦄ → S → AggregatePlan N → Context N → Response N
  unfolding reduce_plan
  summarize s plan ctx = elim store.aggregate [
    | some native ↦ answer Payload.summary (native s plan ctx)
    | none ↦ reduced plan (
        store.query s
          (record {
            model = plan.model;
            condition = plan.condition;
            order = [];
            paging = record { start = 0; stop = none };
            project = none;
          })
          ctx)
  ]

  -- `handle`
  unfoldable pub handle :
      ⦃o : Number N⦄ ⦃c : Calendar N⦄ → Adapter N S → S → Request N → Context N → S × Response N
  unfolding model_allowed clamp persist_batch run summarize
  handle adapter s (Request.handshake theirs) ctx = (s, handshake_answer adapter.fingerprint theirs)
  handle adapter s (Request.query plan) ctx = (
    s,
    if model_allowed adapter.allowed_models plan.model
        then answer Payload.records (store.query s (clamp adapter.max_page_size plan) ctx)
        else forbidden plan.model,
  )
  handle adapter s (Request.query_uuids plan) ctx = (
    s,
    if model_allowed adapter.allowed_models plan.model
        then answer Payload.uuids (store.query_uuids s (clamp adapter.max_page_size plan) ctx)
        else forbidden plan.model,
  )
  handle adapter s (Request.aggregate plan) ctx = (
    s,
    if model_allowed adapter.allowed_models plan.model
        then summarize s plan ctx
        else forbidden plan.model,
  )
  handle adapter s (Request.persist saves removes) ctx =
      elim (first_forbidden adapter.allowed_models (saves ++ removes)) [
        | some model ↦ (s, forbidden model)
        | none ↦ persist_batch s saves removes ctx
      ]
  handle adapter s (Request.command name input) ctx = run adapter.commands s name input ctx
  handle adapter s (Request.unsupported method) ctx =
      (s, failure "UNSUPPORTED_METHOD" ("Adapter cannot handle \"" +++ (method +++ "\"")))
