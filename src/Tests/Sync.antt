-- ===== src/Tests/Sync.antt =====
-- The clock, the server and the replicas at concrete inputs.
use object_repository.Base.{
  List, err, ℕ, String, ◌≡◌, refl, Bool, true, false, Option, none, some, [], ◌∷◌, ◌++◌, All, arith,
  ok, if◌then◌else◌, ◌==◌, eq_iff,
}
use object_repository.Base.Text.{text_lt, units_lt}
use object_repository.Base.Text.Decimal.{pad_start, decimal_on, read_from}
use object_repository.Base.Dict.{Dict, get, put}
use object_repository.Base.Int.{ℤ}
use object_repository.Json.{Value, str, JsonObject}
use object_repository.Json.Number.{int_number}
use object_repository.Expressions.Nodes.{matches}
use object_repository.Expressions.Wire.{parse}
use object_repository.Backends.Scan.{scan}
use object_repository.Sync.Contract.{ChangeKind, SyncChange, SyncPullResult}
use object_repository.Sync.Clock.{Clock, format, parse as parse_stamp, now, update, advance}
use object_repository.Sync.Clock.Causal.{
  Fits, Event, receives, receives_malformed, happen, parse-format, stamps_increase,
  stamps_follow_received,
}
use object_repository.Sync.Target.{pull, push}
use object_repository.Sync.Target.Log.{
  pull_continues, push_replayed, push_field_level_grows, field_level,
}
use object_repository.Sync.Merge.{
  merge_by_field, merge_loop, field_versions_of, version_at, to_json, max_of,
}
use object_repository.Sync.Merge.Convergence.{
  merged_record, merge_keeps_winners, merge_converges, merge_settles,
}
use object_repository.Sync.Replica.{
  Local, Remote, Settings, Replica, last_write_wins, exclude_tombstones, is_tombstone,
}
use object_repository.Sync.Replica.Live.{exclude_tombstones-live}
use object_repository.Sync.Replica.Causality.{pull_moves_cursor}
use object_repository.Sync.Replica.Pull as Pulling
use object_repository.Tests.Samples.{ada, bob, all_adults, still}

abbrev clock : Clock
clock = record { last_physical = 5; counter = 0; node_id = "a" }

small : Fits 5 1
small = record { physical_fits = omega arith; counter_fits = omega arith }

parse-format_example : parse_stamp (format 5 1 "node:x") ≡ (some 5, some 1)
parse-format_example = parse-format 5 1 "node:x" small

stamp : format 5 1 "a" ≡ "000000000000005:000001:a"
unfolding format pad_start decimal_on
stamp = refl

-- A stamp and a text that is no stamp are received.
abbrev between : List Event
between = receives 3 5 1 "b" small ∷ receives_malformed 3 "later" refl ∷ []

-- The host's clock stands still at 3.
stamps_increase_example : text_lt (now 3 clock).1 (now 3 (happen between (now 3 clock).0)).1 ≡ true
unfolding now happen update advance format read_from pad_start decimal_on
stamps_increase_example =
    stamps_increase clock 3 3 between
      (record { physical_fits = omega arith; counter_fits = omega arith })
      (record { physical_fits = omega arith; counter_fits = omega arith })

stamps_follow_received_example :
    let received = format 9 4 "b" in
    text_lt received (now 3 (happen [] (update 3 received clock))).1 ≡ true
unfolding now happen update format read_from pad_start decimal_on
stamps_follow_received_example =
    stamps_follow_received clock 9 4 "b" 3 3 []
      (record { physical_fits = omega arith; counter_fits = omega arith })
      (record { physical_fits = omega arith; counter_fits = omega arith })

abbrev edit : String → SyncChange ℤ
edit version = record {
  model = "person";
  uuid = "u1";
  kind = ChangeKind.saved;
  body = some ada;
  version = version;
  field_versions = none;
}

abbrev field_edit : SyncChange ℤ
field_edit = record (edit "1") { field_versions = some (("name", "1") ∷ []) }

pull_continues_example :
    let after = (push (edit "1" ∷ []) (edit "2" ∷ [])).0 in
    (edit "1" ∷ [] ++ (pull after (some (pull (edit "1" ∷ []) none).cursor)).changes ≡ after)
    × ((pull (edit "1" ∷ []) none).changes ≡ edit "1" ∷ [])
pull_continues_example = pull_continues (edit "1" ∷ []) (edit "2" ∷ []) none

push_replayed_example :
    let after = (push [] (edit "1" ∷ edit "2" ∷ [])).0 in
    (push after (edit "1" ∷ edit "2" ∷ [])).0 ≡ after
push_replayed_example = push_replayed [] (edit "1" ∷ edit "2" ∷ []) (refl, (refl, tt))

push_field_level_grows_example :
    let after = (push [] (edit "1" ∷ field_edit ∷ [])).0 in
    (push after (edit "1" ∷ field_edit ∷ [])).0 ≡ after ++ field_level (edit "1" ∷ field_edit ∷ [])
push_field_level_grows_example = push_field_level_grows [] (edit "1" ∷ field_edit ∷ [])

abbrev named : String → JsonObject ℤ
named name = ("name", str name) ∷ []

abbrev versions : String → Dict String
versions version = ("name", version) ∷ []

merge_keeps_winners_example :
    get (merged_record (named "ada") (versions "1") (named "eve") (versions "2")) "name" ≡ (
      if text_lt (version_at (versions "1") "name") (version_at (versions "2") "name")
      then get (named "eve") "name"
      else get (named "ada") "name")
merge_keeps_winners_example =
    merge_keeps_winners (named "ada") (versions "1") (named "eve") (versions "2") "name" refl

two-ne-one : (Path String "2" "1") → ⊥
two-ne-one e = ground (arith, eq_iff "2" "1", e)

abbrev found : {V : Type 0} → Bool → V → Option V
found b v = if b then some v else none

abbrev or_empty : Option String → String
or_empty none = ""
or_empty (some v) = v

-- No version is shared but by absent fields.
apart :
    (f : String)
    → version_at (versions "2") f ≡ version_at (versions "1") f
    → get (named "ada") f ≡ get (named "eve") f
unfolding get
apart f = by_key ("name" == f)
  where
    by_key :
        (b : Bool)
        → or_empty (found b "2") ≡ or_empty (found b "1")
        → Path (Option (Value ℤ)) (found b (str "ada")) (found b (str "eve"))
    by_key true e = absurd (two-ne-one e)
    by_key false e = refl

merge_converges_example :
    get (merged_record (named "ada") (versions "2") (named "eve") (versions "1")) "name"
    ≡ get (merged_record (named "eve") (versions "1") (named "ada") (versions "2")) "name"
merge_converges_example =
    merge_converges (named "ada") (versions "2") (named "eve") (versions "1") apart "name" refl

abbrev merged : JsonObject ℤ
merged =
    ("name", str "eve") ∷ ("_fieldVersions", to_json (versions "2")) ∷ ("_version", str "2") ∷ []

merge_settles_example :
    (field_versions_of merged
      ≡ some (merge_loop (named "ada") (versions "1") (named "eve") (versions "2")).versions)
    × (merge_by_field merged
          (merge_loop (named "ada") (versions "1") (named "eve") (versions "2")).versions
          (named "eve")
          (versions "2")
        ≡ none)
unfolding merge_by_field merge_loop max_of get put units_lt
merge_settles_example =
    merge_settles (named "ada") (versions "1") (named "eve") (versions "2") merged refl

exclude_tombstones-live_example :
    All
      (λ r. (matches (parse all_adults.condition) r ≡ true) × (is_tombstone r ≡ false))
      (scan (ada ∷ bob ∷ []) (exclude_tombstones all_adults))
exclude_tombstones-live_example = exclude_tombstones-live (ada ∷ bob ∷ []) all_adults

-- A local backend that keeps nothing and whose flush fails.
abbrev broken : Local ℤ ℕ ℕ String
broken = record {
  query = λ s plan ctx. ok [];
  save = λ s model body ctx dirty. s;
  remove = λ s model body ctx. s;
  persist = λ s ctx. (s, some "disk full");
}

abbrev settings : Settings ℤ
settings = record {
  field_level = false;
  conflict = last_write_wins;
  time = λ n. 3;
  mint = λ n. "fresh";
}

abbrev replica : Replica ℕ ℕ
replica = record {
  local = 0;
  remote = 0;
  clock = clock;
  uses = 0;
  minted = 0;
  field_versions = [];
  cursor = none;
}

abbrev answer : SyncPullResult ℤ
answer = record { changes = edit "1" ∷ []; cursor = "1" }

abbrev server : Remote ℤ ℕ String
server = record {
  pull = λ s cursor. ok answer;
  push = λ s changes. (s, ok (record { acknowledged = []; conflicts = [] }));
}

pull_moves_cursor_example :
    (Pulling.pull settings broken server replica 0).0.cursor
    ≡ elim (Pulling.load_local_records broken replica.local answer.changes 0) [
      | err e ↦ replica.cursor
      | ok found ↦ some answer.cursor
    ]
pull_moves_cursor_example = pull_moves_cursor settings broken server replica 0 answer refl

abbrev remote_edit : SyncChange ℤ
remote_edit = edit (format 9 4 "b")
