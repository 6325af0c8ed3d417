-- ===== src/Tests/Backends.antt =====
-- Backends at concrete inputs.
use mathlib.Core.List.{Perm}
use object_repository.Base.{
  ℕ, String, ◌≡◌, refl, true, false, none, some, List, [], ◌∷◌, All, arith, length, Result, ok, err,
  Occurs, if◌then◌else◌,
}
use object_repository.Base.Dict.{get, put, remove}
use object_repository.Base.Sort.Laws.{IsSorted}
use object_repository.Base.Int.{ℤ, pos}
use object_repository.Json.{str, JsonObject}
use object_repository.Json.Number.{int_number}
use object_repository.Json.Text.{to_text}
use object_repository.Expressions.Path.{get_path}
use object_repository.Expressions.Compare.{Comparator}
use object_repository.Expressions.Nodes.{Expression, matches}
use object_repository.Expressions.Wire.{parse}
use object_repository.Backends.Contract.{Change, IndexSpec, uuid_of, has_uuid}
use object_repository.Backends.Unique.{
  UniqueConstraintError, unique_key, unique_key_sets, key_values,
}
use object_repository.Json.Stringify.{stringify, stringify_list, quoted, escape, escape_char}
use object_repository.Backends.Scan.{scan, apply_order, compare_records}
use object_repository.Backends.Scan.Ordered.{KeyKind, OfKind, apply_order-IsSorted}
use object_repository.Backends.Memory.{
  Memory, empty, rows, save, persist, register_model, stamp, events, flush, store_row, delete_row,
  remove_from_unique_index, add_to_unique_index, discard_pending,
}
use object_repository.Backends.Memory.Index.{
  UniqueIndex, check_unique, of_model, uuids, check_changes, add_owner, check_models,
  check_key_sets, models_of, update_index, drop_owner, build_index, index_rows,
}
use object_repository.Backends.Memory.KeySet.{has}
use object_repository.Backends.Memory.Flushed.{last_body, persist-stores}
use object_repository.Backends.Memory.Uniqueness.{Reach, Step, Reach-distinct_keys}
use object_repository.Backends.Memory.Superseded.{superseded_key_is_refused, two_saves}
use object_repository.Backends.Policy.{AccessPolicy, rewrite}
use object_repository.Backends.Policy.RowSecurity.{scan-rewrite}
use object_repository.Backends.Retry.{Options, with_retry}
use object_repository.Backends.Retry.Attempts.{Recovers, with_retry-recovers}
use object_repository.Tests.Samples.{differ, ada, bob, by_age, all_adults, still}

abbrev two : List (JsonObject ℤ)
two = ada ∷ bob ∷ []

abbrev numeric : String → KeyKind
numeric property = KeyKind.numbers

apply_order-IsSorted_example :
    Perm (apply_order two by_age) two × IsSorted (compare_records by_age) (apply_order two by_age)
unfolding get_path get
apply_order-IsSorted_example =
    apply_order-IsSorted numeric by_age two
      ((OfKind.a_number (pos 36) refl, tt), ((OfKind.a_number (pos 20) refl, tt), tt))

abbrev extra : Expression ℤ
extra = Expression.compare "name" Comparator.eq (str "ada")

abbrev only_ada : AccessPolicy ℤ ℕ
only_ada = record { read = some (λ model ctx. some extra); write = none }

scan-rewrite_example :
    All
      (λ r. (matches extra r ≡ true) × (matches (parse all_adults.condition) r ≡ true))
      (scan two (rewrite only_ada all_adults 0))
scan-rewrite_example = scan-rewrite only_ada all_adults 0 extra two refl

-- An operation on a countdown, which throws until it is over.
abbrev countdown : ℕ → ℕ × Result String ℕ
countdown ℕ.zero = (0, ok 7)
countdown (ℕ.suc n) = (n, err "busy")

abbrev patient : Options String
patient = record {
  retries = 3;
  backoff_ms = 50;
  backoff_factor = 2;
  max_backoff_ms = 2000;
  is_retryable = λ e. true;
}

with_retry-recovers_example :
    let r = with_retry patient countdown 1 in
    (r.state ≡ 0) × (r.outcome ≡ ok 7) × (length r.waits ≡ 1)
with_retry-recovers_example =
    with_retry-recovers patient countdown 1 1 0 7
      (Recovers.then_ 0 1 0 0 7 "busy" refl refl (Recovers.now 0 0 7 refl)) (omega arith)

abbrev mint : ℕ → String
mint n = "fresh"

abbrev by_name : IndexSpec ℤ
by_name = record {
  name = "by_name";
  fields = record { path = "name"; descending = false } ∷ [];
  unique = true;
  sparse = false;
  ttl_seconds = none;
  text = false;
  condition = none;
}

abbrev registered : Memory ℤ
registered = register_model empty "person" (by_name ∷ [])

abbrev one_queued : Memory ℤ
one_queued = save registered "person" ada none

persist-stores_example :
    let saved = (stamp mint one_queued.minted one_queued.save_queue).0 in
    let after = (persist mint one_queued).0 in
    (get (rows after.store "person") "u1" ≡ (
      if has "u1" (uuids (of_model "person" one_queued.remove_queue))
      then none
      else last_body "u1" (get (rows one_queued.store "person") "u1") (of_model "person" saved)))
    × (after.save_queue ≡ [])
    × (after.remove_queue ≡ [])
    × ((persist mint one_queued).1
        ≡ ok (
          record { saved = saved; removed = one_queued.remove_queue },
          events saved one_queued.remove_queue,
        ))
unfolding save register_model persist flush store_row delete_row remove_from_unique_index
    add_to_unique_index events stamp has_uuid check_unique check_models check_key_sets check_changes
    models_of update_index drop_owner add_owner build_index index_rows unique_key_sets unique_key
    key_values stringify_list stringify quoted escape escape_char uuid_of to_text get put remove
persist-stores_example = persist-stores mint one_queued "person" "u1" refl

-- Two records with one name in one batch.
abbrev clash : Memory ℤ
clash = save one_queued "person" (("uuid", str "u9") ∷ ("name", str "ada") ∷ []) none

abbrev name_taken : UniqueConstraintError
name_taken = record { model = "person"; fields = "name" ∷ [] }

abbrev flushed : Memory ℤ
flushed = (persist mint one_queued).0

abbrev name_index : UniqueIndex
name_index = record { fields = "name" ∷ []; owners = ("[\"ada\"]", "u1") ∷ [] }

Reach-distinct_keys_example : Path String "u1" "u1"
unfolding save register_model persist flush store_row delete_row remove_from_unique_index
    add_to_unique_index events stamp has_uuid check_unique check_models check_key_sets check_changes
    models_of update_index drop_owner add_owner build_index index_rows unique_key_sets unique_key
    key_values stringify_list stringify quoted escape escape_char uuid_of to_text get put remove
Reach-distinct_keys_example =
    Reach-distinct_keys mint "person" name_index "u1" "u1" ada ada "[\"ada\"]"
      (Reach.next
        (Reach.next (Reach.next Reach.start (Step.register "person" (by_name ∷ []) refl))
          (Step.saves "person" ada none))
        Step.persists)
      Occurs.here refl refl refl refl

abbrev named : String → String → Change ℤ
named uuid name = record {
  model = "person";
  body = ("uuid", str uuid) ∷ ("name", str name) ∷ [];
  dirty = none;
}

abbrev saved_body : String → String → JsonObject ℤ
saved_body uuid name = ("uuid", str uuid) ∷ ("name", str name) ∷ []

superseded_key_is_refused_example :
    let after =
      (persist mint
        (two_saves registered "person" (saved_body "u1" "ada") (saved_body "u1" "eve"))).0 in
    (get (rows after.store "person") "u1" ≡ some (saved_body "u1" "eve"))
    × ((persist mint (save after "person" (saved_body "u2" "ada") none)).1 ≡ err name_taken)
unfolding save discard_pending register_model persist flush store_row delete_row
    remove_from_unique_index add_to_unique_index events stamp has_uuid check_unique check_models
    check_key_sets check_changes models_of update_index drop_owner add_owner build_index index_rows
    unique_key_sets unique_key key_values stringify_list stringify quoted escape escape_char uuid_of
    to_text get put remove
superseded_key_is_refused_example =
    superseded_key_is_refused mint registered "person" (build_index {N = ℤ} ("name" ∷ []) [])
      (saved_body "u1" "ada") (saved_body "u1" "eve") (saved_body "u2" "ada") "[\"ada\"]"
      "[\"eve\"]" refl refl refl refl refl refl refl refl (differ "[\"ada\"]" "[\"eve\"]" refl) refl
      (differ "u2" "u1" refl) refl
