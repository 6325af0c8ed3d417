-- ===== src/Backends/Contract.antt =====
-- core/Backend.ts: the data that crosses the `Backend` contract.
use object_repository.Base.{ℕ, String, Bool, Option, List}
use object_repository.Base.Dict.{get}
use object_repository.Json.{str, JsonObject}
use object_repository.Json.Number.{Number}
use object_repository.Json.Text.{to_text}
use object_repository.Base.{none, some}
use object_repository.Expressions.Plan.{ExpressionNode}

-- `PersistedChange`: a queued or persisted write
pub record Change (N : Type 0) : Type 0 where
  pub model : String
  pub body : JsonObject N
  pub dirty : Option (List String)

pub record PersistResult (N : Type 0) : Type 0 where
  pub saved : List (Change N)
  pub removed : List (Change N)

-- `ChangeEvent`: `kind` is "saved" with the record, or "removed"
pub data ChangeEvent (N : Type 0) : Type 0 where
  saved : String → String → JsonObject N → ChangeEvent N
  removed : String → String → ChangeEvent N

pub record IndexField : Type 0 where
  pub path : String
  pub descending : Bool

pub record IndexSpec (N : Type 0) : Type 0 where
  pub name : String
  pub fields : List IndexField
  pub unique : Bool
  pub sparse : Bool
  pub ttl_seconds : Option ℕ
  pub text : Bool
  pub condition : Option (ExpressionNode N)

-- `String(record.uuid)`
unfoldable pub uuid_of : {N : Type 0} ⦃o : Number N⦄ → JsonObject N → String
unfolding get to_text
uuid_of r = elim (get r "uuid") [ none ↦ "undefined" | some v ↦ to_text v ]

abbrev nonempty : String → Bool
nonempty String.[] = Bool.false
nonempty _ = Bool.true

-- `typeof record.uuid === "string" && record.uuid.length > 0`
unfoldable pub has_uuid : {N : Type 0} → JsonObject N → Bool
unfolding get
has_uuid r = elim (get r "uuid") [ some (str s) ↦ nonempty s | _ ↦ Bool.false ]
