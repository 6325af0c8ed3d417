-- ===== src/Transport/Command.antt =====
-- The server side of transport/command.ts. A server has a state `S`: a validator, a middleware and a
-- handler may change it, and what they throw comes with the state they leave. Commands are called on
-- JSON values.
pub mod Guards
use Prim.Native.String.{◌++◌}
use object_repository.Base.{
  String, Bool, true, false, Option, none, some, List, [], ◌∷◌, Result, ok, err, some_elem,
  if◌then◌else◌,
}
use object_repository.Base.Dict.{Dict, get}
use object_repository.Base.Names.{member}
use object_repository.Json.{Value, str, JsonObject}
use object_repository.Json.Number.{Number}
use object_repository.Json.Stringify.{stringify}

-- `Identity` and `Context` of core/types.ts
pub record Identity : Type 0 where
  pub id : String
  pub roles : Option (List String)

pub record Context (N : Type 0) : Type 0 where
  pub identity : Option Identity
  pub request_id : Option String
  pub scope : Option (JsonObject N)

-- What can be thrown: a `CommandError`, a `ValidationError`, or another value, with `error.message`
-- and `String(error)`.
pub data Thrown : Type 0 where
  command_error : String → String → Thrown
  validation_error : String → Thrown
  other : String → String → Thrown

abbrev pub message_of : Thrown → String
message_of (command_error code message) = message
message_of (validation_error message) = message
message_of (other message printed) = message

-- `error instanceof ValidationError ? error.message : String(error)`
abbrev pub printed : Thrown → String
printed (command_error code message) = "CommandError: " ++ message
printed (validation_error message) = message
printed (other message text) = text

module _ (N S : Type 0) where
  -- `CommandMiddleware`: it denies, or returns nothing or a context
  abbrev pub Middleware : Type 0
  Middleware = Value N → Context N → S → S × Result Thrown (Option (Context N))

  -- `Command`
  pub record Command : Type 0 where
    pub input : Option (Value N → S → S × Result Thrown (Value N))
    pub guards : List Middleware
    pub handler : Value N → Context N → S → S × Result Thrown (Value N)

abbrev pub denial : Thrown → Thrown
denial (command_error code message) = command_error code message
denial e = command_error "FORBIDDEN" (message_of e)

abbrev unknown : {N : Type 0} ⦃o : Number N⦄ → Value N → Thrown
unknown name = command_error "UNKNOWN_COMMAND" ("No command named " ++ (stringify name ++ "."))

abbrev unauthenticated : Thrown
unauthenticated = command_error "UNAUTHENTICATED" "This command requires authentication."

abbrev pub held : Identity → List String
held who = elim who.roles [ none ↦ [] | some roles ↦ roles ]

-- the texts joined by `", "`
abbrev joined : List String → String
joined [] = ""
joined (role ∷ []) = role
joined (role ∷ next ∷ roles) = role ++ (", " ++ joined (next ∷ roles))

abbrev pub has_role : List String → Option Identity → Bool
has_role roles none = false
has_role roles (some who) = some_elem (λ role. member role (held who)) roles

abbrev pub augmented : {N : Type 0} → Context N → Option (Context N) → Context N
augmented ctx none = ctx
augmented ctx (some next) = next

abbrev pub role_error : List String → Thrown
role_error roles =
    command_error "FORBIDDEN" ("This command requires one of the roles: " ++ (joined roles ++ "."))

-- what `requireRole` throws, if it throws
abbrev pub role_denial : List String → Option Identity → Option Thrown
role_denial roles none = some unauthenticated
role_denial roles (some who) = if has_role roles (some who) then none else some (role_error roles)

module _ {N S : Type 0} where
  abbrev pub after_guard :
      (Context N → S → S × Result Thrown (Context N))
      → Context N
      → S × Result Thrown (Option (Context N))
      → S × Result Thrown (Context N)
  after_guard next ctx (s, err e) = (s, err (denial e))
  after_guard next ctx (s, ok answer) = next (augmented ctx answer) s

  -- the middleware chain: the context that the handler gets
  unfoldable pub run_guards :
      List (Middleware N S) → Value N → Context N → S → S × Result Thrown (Context N)
  run_guards [] input ctx s = (s, ok ctx)
  run_guards (guard ∷ guards) input ctx s =
      after_guard (run_guards guards input) ctx (guard input ctx s)

  abbrev pub invalid : S × Result Thrown (Value N) → S × Result Thrown (Value N)
  invalid (s, err e) = (s, err (command_error "INVALID_INPUT" (printed e)))
  invalid (s, ok v) = (s, ok v)

  -- the input that the guards and the handler get
  unfoldable pub validate : Command N S → Value N → S → S × Result Thrown (Value N)
  validate command input s = elim command.input [
    | none ↦ (s, ok input)
    | some schema ↦ invalid (schema input s)
  ]

  abbrev pub handled :
      Command N S → Value N → S × Result Thrown (Context N) → S × Result Thrown (Value N)
  handled command input (s, err e) = (s, err e)
  handled command input (s, ok ctx) = command.handler input ctx s

  abbrev pub guarded :
      Command N S → Context N → S × Result Thrown (Value N) → S × Result Thrown (Value N)
  guarded command ctx (s, err e) = (s, err e)
  guarded command ctx (s, ok input) = handled command input (run_guards command.guards input ctx s)

  unfoldable pub run_command : Command N S → Value N → Context N → S → S × Result Thrown (Value N)
  unfolding validate run_guards
  run_command command input ctx s = guarded command ctx (validate command input s)

  abbrev named : Dict (Command N S) → Value N → Option (Command N S)
  named commands (str name) = get commands name
  named commands _ = none

  -- `executeCommand`
  unfoldable pub execute_command :
      ⦃o : Number N⦄
      → Dict (Command N S)
      → Value N
      → Value N
      → Context N
      → S
      → S × Result Thrown (Value N)
  unfolding run_command stringify get
  execute_command commands name input ctx s = elim (named commands name) [
    | none ↦ (s, err (unknown name))
    | some command ↦ run_command command input ctx s
  ]

  -- `requireIdentity`
  unfoldable pub require_identity : Middleware N S
  require_identity input ctx s = elim ctx.identity [
    | none ↦ (s, err unauthenticated)
    | some who ↦ (s, ok none)
  ]

  abbrev pub answered : S → Option Thrown → S × Result Thrown (Option (Context N))
  answered s none = (s, ok none)
  answered s (some e) = (s, err e)

  -- `requireRole(...roles)`
  unfoldable pub require_role : List String → Middleware N S
  require_role roles input ctx s = answered s (role_denial roles ctx.identity)
