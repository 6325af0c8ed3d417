-- ===== src/Tests/Repository.antt =====
-- The repository layer and the durable sync target at concrete inputs.
use object_repository.Base.{
  Option, ◌==◌, if◌then◌else◌, String, ◌≡◌, refl, true, false, not, ◌&&◌, none, some, [], ◌∷◌, ◌++◌,
  List, All, map, filter, arith, or_else,
}
use object_repository.Base.Dict.{Dict, get, put, get-put_self}
use object_repository.Base.Int.{ℤ, pos}
use object_repository.Base.Names.{member}
use object_repository.Base.Sort.{sort}
use object_repository.Base.Text.{units_lt}
use object_repository.Base.Text.Decimal.{decimal}
use object_repository.Json.{Value, null, num, str, JsonObject, is_nullish}
use object_repository.Json.Number.{int_number}
use object_repository.Json.Text.{less}
use object_repository.Expressions.Path.{get_path, has_dot}
use object_repository.Expressions.Plan.{QueryPlan}
use object_repository.Expressions.Nodes.{Expression, matches}
use object_repository.Expressions.Wire.{parse}
use object_repository.Backends.Contract.{ChangeEvent, uuid_of}
use object_repository.Backends.Scan.{scan, apply_order, compare_records}
use object_repository.Backends.Scan.Ordered.{KeyKind}
use object_repository.Repository.Patch.{PatchOp, same_value, apply_patch}
use object_repository.Repository.Patch.Fields.{patched, get-apply_patch}
use object_repository.Repository.Patch.Replay.{apply_patch-again}
use object_repository.Repository.Dirty.{compute_dirty}
use object_repository.Repository.Dirty.Suffices.{write_fields, compute_dirty-suffices}
use object_repository.Repository.Live.{live_where, change_affects}
use object_repository.Repository.Live.Relevance.{live_where-matches, unaffected-scan, present}
use object_repository.Repository.Hash.{plan_hash}
use object_repository.Repository.Cache.{QueryCache, Source, run_query, on_event}
use object_repository.Repository.Cache.Fresh.{Step, Reach}
use object_repository.Repository.Collection.{QueryCollection, key_value, effective_keys}
use object_repository.Repository.Collection.Keyset.{Keyed}
use object_repository.Repository.Collection.Ties.{Has, HasDistinctUuids}
use object_repository.Repository.Collection.Walk.{all_pages, all_pages_complete}
use object_repository.Sync.Contract.{ChangeKind, SyncChange}
use object_repository.Sync.Target
use object_repository.Sync.Durable
use object_repository.Sync.Durable.{DurableTarget, to_change}
use object_repository.Sync.Durable.Batch.{Same}
use object_repository.Sync.Durable.Refines.{IsAtRest, durable_refines}
use object_repository.Tests.Samples.{still, ada, bob, adults, all_adults}

abbrev older : Dict (PatchOp ℤ)
older = ("age", PatchOp.inc (pos 1)) ∷ ("name", PatchOp.unset) ∷ []

get-apply_patch_example :
    get (apply_patch ada older) "age"
    ≡ elim (get older "age") [ none ↦ get ada "age" | some op ↦ patched ada "age" op ]
get-apply_patch_example = get-apply_patch ada older "age" (refl, (refl, tt))

abbrev tagged : Dict (PatchOp ℤ)
tagged = ("tags", PatchOp.add_to_set (str "new" ∷ [])) ∷ ("name", PatchOp.set (str "eve")) ∷ []

apply_patch-again_example :
    get (apply_patch (apply_patch ada tagged) tagged) "tags" ≡ get (apply_patch ada tagged) "tags"
apply_patch-again_example = apply_patch-again ada tagged "tags" (refl, (refl, tt)) refl

compute_dirty-suffices_example :
    let dirty = or_else (compute_dirty (some ada) bob) [] in
    (same_value (get (write_fields ada bob dirty) "age") (get bob "age") ≡ true)
    × (member "age" dirty ≡ not (same_value (get ada "age") (get bob "age")))
compute_dirty-suffices_example = compute_dirty-suffices ada bob "age" refl

live_where-matches_example :
    (matches (parse (live_where (some "deletedAt") adults false)) ada
      ≡ (matches (parse adults) ada && is_nullish (get_path ada "deletedAt")))
    × (matches (parse (live_where (some "deletedAt") adults true)) ada ≡ matches (parse adults) ada)
live_where-matches_example = live_where-matches "deletedAt" adults ada

abbrev child : JsonObject ℤ
child = ("uuid", str "u9") ∷ ("age", num (pos 9)) ∷ []

abbrev teen : JsonObject ℤ
teen = ("uuid", str "u9") ∷ ("age", num (pos 13)) ∷ []

unaffected-scan_example :
    scan ((ada ∷ []) ++ (present (some child) ++ (bob ∷ []))) all_adults
    ≡ scan ((ada ∷ []) ++ (present (some teen) ++ (bob ∷ []))) all_adults
unfolding change_affects matches parse get_path has_dot get less
unaffected-scan_example =
    unaffected-scan all_adults (ada ∷ []) (bob ∷ []) (some child) (some teen) refl

-- An instance is the record of what was decoded: the uuid, and the name as it stands in the row.
abbrev refreshed : JsonObject ℤ → Option (JsonObject ℤ) → JsonObject ℤ
unfolding put get uuid_of
refreshed row instance_of =
    put (or_else instance_of (("uuid", str (uuid_of row)) ∷ [])) "name"
      (or_else (get row "name") null)

abbrev people : Source ℤ (JsonObject ℤ)
people = record {
  name = "person";
  marker = none;
  computed = [];
  preprocess = λ condition. (condition, false);
  refresh = refreshed;
}

-- the store answers one plan
abbrev answers : List (JsonObject ℤ) → QueryPlan ℤ → List (JsonObject ℤ)
answers rows plan = if plan_hash plan == plan_hash all_adults then rows else []

answers-hash :
    (rows : List (JsonObject ℤ)) (p q : QueryPlan ℤ)
    → p.model ≡ q.model
    → p.project ≡ q.project
    → plan_hash p ≡ plan_hash q
    → answers rows p ≡ answers rows q
answers-hash rows p q m j e = rw e refl

abbrev name_of : JsonObject ℤ → Option (Value ℤ)
unfolding get
name_of instance_of = get instance_of "name"

abbrev name_in : JsonObject ℤ → Option (Value ℤ)
unfolding get
name_in row = some (or_else (get row "name") null)

refreshed-name :
    (row : JsonObject ℤ) (i : Option (JsonObject ℤ)) → name_of (refreshed row i) ≡ name_in row
unfolding name_of get name_in refreshed put
refreshed-name row i =
    get-put_self (or_else i (("uuid", str (uuid_of row)) ∷ [])) "name"
      (or_else (get row "name") null)

abbrev nothing_cached : QueryCache ℤ (JsonObject ℤ)
nothing_cached = record { instances = []; results = []; baseline = [] }

abbrev seen : String → JsonObject ℤ
seen name = ("uuid", str "u1") ∷ ("name", str name) ∷ []

abbrev cached : String → JsonObject ℤ → QueryCache ℤ (JsonObject ℤ)
unfolding plan_hash
cached name row = record {
  instances = ("u1", seen name) ∷ [];
  results = (plan_hash all_adults, seen name ∷ []) ∷ [];
  baseline = ("u1", row) ∷ [];
}

abbrev renamed : JsonObject ℤ
renamed = ("uuid", str "u1") ∷ ("name", str "eve") ∷ []

abbrev renamed_saved : QueryCache ℤ (JsonObject ℤ)
unfolding on_event cached
renamed_saved = on_event "person" none (cached "ada" ada) (ChangeEvent.saved "person" "u1" renamed)

-- A first read, and then another name of the record.
abbrev after_rename :
    Reach people answers name_of name_in refreshed-name answers-hash (renamed ∷ [], renamed_saved)
unfolding run_query renamed_saved cached plan_hash put get uuid_of refreshed
after_rename =
    Reach.step
      (Reach.step (Reach.start (ada ∷ []))
        (Step.read {after = cached "ada" ada} all_adults false (seen "ada" ∷ []) (refl, refl) refl))
      (Step.change (ChangeEvent.saved "person" "u1" renamed) refl)

abbrev both_texts : String → KeyKind
both_texts p = KeyKind.texts

abbrev by_name : QueryCollection ℤ
by_name = record {
  expression = Expression.all;
  order = record { property = "name"; descending = true } ∷ [];
  paging = record { start = 0; stop = none };
  include_deleted = false;
}

abbrev has_names : All (Has both_texts by_name.order) (ada ∷ bob ∷ [])
unfolding get_path has_dot get uuid_of key_value
has_names = (
  ((Keyed.of_text "ada", refl), ((Keyed.of_text "u1", refl), tt)),
  (((Keyed.of_text "bob", refl), ((Keyed.of_text "u2", refl), tt)), tt),
)

abbrev two_uuids : HasDistinctUuids (ada ∷ bob ∷ [])
unfolding get uuid_of
two_uuids = ((refl, tt), (tt, tt))

all_pages_complete_example :
    all_pages 3 "person" (scan (ada ∷ bob ∷ [])) by_name 1 none
    ≡ some (
        apply_order
          (filter (matches by_name.expression) (ada ∷ bob ∷ []))
          (effective_keys by_name.order))
unfolding apply_order sort compare_records matches units_lt
all_pages_complete_example =
    all_pages_complete both_texts (ada ∷ bob ∷ []) "person" by_name 0 has_names two_uuids 3
      (omega arith)

abbrev ada_first : SyncChange ℤ
ada_first = record {
  model = "person";
  uuid = "u1";
  kind = ChangeKind.saved;
  body = some ada;
  version = "1";
  field_versions = none;
}

abbrev ada_again : SyncChange ℤ
ada_again = record ada_first { version = "0" }

abbrev started : DurableTarget ℤ
started = record { stored = []; queued = []; seq = none }

abbrev holding : DurableTarget ℤ
unfolding Durable.push
holding = (Durable.push started (ada_first ∷ [])).0

abbrev holding-IsAtRest : IsAtRest holding
unfolding holding
holding-IsAtRest = (refl, (refl, tt), refl)

durable_refines_example :
    let log = map to_change holding.stored in
    let after = Durable.push holding (ada_again ∷ []) in
    Same (map to_change after.0.stored, after.1) (Target.push log (ada_again ∷ []))
    × IsAtRest after.0
    × ((Durable.pull holding none).1 ≡ Target.pull log none)
    × ((Durable.pull holding (some (decimal 1))).1 ≡ Target.pull log (some (decimal 1)))
    × IsAtRest (Durable.pull holding none).0
unfolding holding
durable_refines_example =
    durable_refines holding (ada_again ∷ []) 1 holding-IsAtRest (tt, tt) (omega arith)
