-- ===== src/Tests/Transport.antt =====
-- Commands and the adapter at concrete inputs. The state of the server counts what was done.
use object_repository.Base.{
  ℕ, suc, String, ◌≡◌, refl, none, some, [], ◌∷◌, Result, ok, err, ◌⊎◌, eqb, if◌then◌else◌,
}
use object_repository.Base.Int.{ℤ}
use object_repository.Json.{Value, null, str}
use object_repository.Json.Number.{int_number}
use object_repository.Backends.Contract.{Change}
use object_repository.Transport.Command.{
  Context, Thrown, Middleware, Command, run_command, require_role,
}
use object_repository.Transport.Command.Guards.{IsStopped, Accepts, Passes, run_command_errors}
use object_repository.Transport.Adapter.{
  Store, Adapter, Request, handle, safe_error, model_allowed, write_all,
}
use object_repository.Transport.Adapter.Exposure.{handle_keeps_earlier_saves}
use object_repository.Tests.Samples.{ada, still}

abbrev reader : Context ℤ
reader = record {
  identity = some (record { id = "u1"; roles = some ("reader" ∷ []) });
  request_id = none;
  scope = none;
}

abbrev audit : Middleware ℤ ℕ
audit input ctx s = (suc s, ok none)

abbrev wipe : Command ℤ ℕ
wipe = record {
  input = none;
  guards = audit ∷ require_role ("admin" ∷ []) ∷ audit ∷ [];
  handler = λ input ctx s. (0, ok null);
}

-- A command whose schema makes a text of any input, and whose guard gives another context.
abbrev checked_text : Value ℤ → ℕ → ℕ × Result Thrown (Value ℤ)
checked_text input s = (suc s, ok (str "checked"))

abbrev as_reader : Middleware ℤ ℕ
as_reader input ctx s = (suc s, ok (some reader))

abbrev guarded_command : Command ℤ ℕ
guarded_command = record {
  input = some checked_text;
  guards = as_reader ∷ [];
  handler = λ input ctx s. (s, ok input);
}

run_command_errors_example :
    IsStopped (run_command guarded_command null reader 3)
    ⊎ ((checked : Value ℤ) × (seen : Context ℤ) × (t : ℕ) × (u : ℕ) × Accepts
          (some checked_text)
          null
          3
          t
          checked
        × Passes checked (as_reader ∷ []) reader t seen u
        × (run_command guarded_command null reader 3 ≡ guarded_command.handler checked seen u))
run_command_errors_example = run_command_errors guarded_command null reader 3

-- A store that counts its saves and has room for one.
abbrev full : Thrown
full = Thrown.other "full" "Error: full"

abbrev counted : ℕ → Result Thrown ℕ
counted s = if eqb s 0 then ok 1 else err full

abbrev store : Store ℤ ℕ
store = record {
  query = λ s plan ctx. ok (ada ∷ []);
  query_uuids = λ s plan ctx. ok ("u1" ∷ []);
  aggregate = none;
  save = λ s model body ctx. counted s;
  remove = λ s model body ctx. ok s;
  persist = λ s ctx. (s, ok (record { saved = []; removed = [] }));
  feed = λ s ctx. [];
}

abbrev adapter : Adapter ℤ ℕ
adapter = record {
  fingerprint = none;
  commands = none;
  allowed_models = some ("person" ∷ []);
  max_page_size = some 1;
}

abbrev write_of : String → Change ℤ
write_of model = record { model = model; body = ada; dirty = none }

abbrev batch : Request ℤ
batch = Request.persist (write_of "person" ∷ write_of "_outbox" ∷ []) []

handle_keeps_earlier_saves_example :
    handle store adapter 0 (Request.persist (write_of "person" ∷ write_of "person" ∷ []) []) reader
    ≡ (1, safe_error "BACKEND_ERROR" full)
unfolding write_all model_allowed
handle_keeps_earlier_saves_example =
    handle_keeps_earlier_saves store adapter 0 1 (write_of "person" ∷ []) [] (write_of "person") []
      reader full (refl, (refl, tt)) refl refl
