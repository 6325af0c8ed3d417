-- ===== src/Sync/Replica.antt =====
-- sync/SyncBackend.ts: an offline-first replica over a local backend and a remote sync target, both
-- interfaces. `time` is what the host's clock answers at each use of the hybrid clock, and `mint` is
-- `generateUuid`. What the local backend or the remote throws is an `E`. The push of the outbox, the
-- change feed and `registerModel` are left out.
pub mod Pull
pub mod Live
pub mod Causality
use mathlib.Core.List.{foldl}
use object_repository.Base.{
  ℕ, suc, String, Bool, true, false, not, ◌&&◌, Option, none, some, List, [], ◌∷◌, ◌++◌, map,
  filter, or_else, Result, ok, err, if◌then◌else◌,
}
use object_repository.Base.Text.{text_lt}
use object_repository.Base.Dict.{Dict, get, put, keys}
use object_repository.Base.Names.{distinct}
use object_repository.Json.{Value, bool, str, obj, fields, entries, Fields, JsonObject}
use object_repository.Json.Number.{Number}
use object_repository.Json.Equality.{eq_value}
use object_repository.Expressions.Compare.{Comparator, ne, eq}
use object_repository.Expressions.Plan.{QueryPlan, ExpressionNode}
use object_repository.Expressions.Nodes.{Expression}
use object_repository.Expressions.Wire.{serialize}
use object_repository.Backends.Contract.{uuid_of, has_uuid}
use object_repository.Backends.Policy.{restricted}
use object_repository.Sync.Contract.{
  ChangeKind, saved, removed, SyncChange, SyncPullResult, SyncPushResult,
}
use object_repository.Sync.Clock.{Clock, now, update}
use object_repository.Sync.Merge.{
  is_reserved, max_of, to_json, field_versions_of, own_version, merge_by_field,
}

-- the local backend: a read may throw, `save` and `remove` only queue, and `persist` may throw
pub record Local (N S C E : Type 0) : Type 0 where
  pub query : S → QueryPlan N → C → Result E (List (JsonObject N))
  pub save : S → String → JsonObject N → C → Option (List String) → S
  pub remove : S → String → JsonObject N → C → S
  pub persist : S → C → S × Option E

-- `SyncTarget`, with a state
pub record Remote (N R E : Type 0) : Type 0 where
  pub pull : R → Option String → Result E (SyncPullResult N)
  pub push : R → List (SyncChange N) → R × Result E (SyncPushResult N)

-- What a `ConflictPolicy` returns: one of the two changes, or another object, which the code takes for
-- the local one.
pub data Verdict : Type 0 where
  keeps_local takes_remote : Verdict

-- `SyncBackendOptions`, and the host
pub record Settings (N : Type 0) : Type 0 where
  pub field_level : Bool
  pub conflict : SyncChange N → SyncChange N → Verdict
  pub time : ℕ → ℕ
  pub mint : ℕ → String

-- `SyncBackend`: its fields, and the states of what it works on
pub record Replica (S R : Type 0) : Type 0 where
  pub local : S
  pub remote : R
  pub clock : Clock
  pub uses : ℕ
  pub minted : ℕ
  pub field_versions : Dict (Dict String)
  pub cursor : Option String

-- `lastWriteWins`
unfoldable pub last_write_wins : {N : Type 0} → SyncChange N → SyncChange N → Verdict
last_write_wins local remote =
    if text_lt local.version remote.version then Verdict.takes_remote else Verdict.keeps_local

-- the key of a record in the cache of field versions
abbrev pub key_of : String → String → String
key_of model uuid = Prim.Native.String.◌++◌ model (String.◌∷◌ " " uuid)

abbrev pub live : {N : Type 0} → Expression N
live = Expression.compare "_deleted" ne (bool true)

-- `excludeTombstones`
unfoldable pub exclude_tombstones : {N : Type 0} → QueryPlan N → QueryPlan N
unfolding restricted
exclude_tombstones plan = record plan { condition = restricted plan.condition live }

abbrev pub kind_text : ChangeKind → String
kind_text saved = "saved"
kind_text removed = "removed"

-- the two sides of a merge by fields, with their versions
pub record Sides (N : Type 0) : Type 0 where
  pub local : JsonObject N
  pub local_versions : Dict String
  pub incoming : JsonObject N
  pub incoming_versions : Dict String

abbrev widened : List String → Option (List String) → Option (List String)
widened extra none = none
widened extra (some dirty) = some (dirty ++ extra)

-- the field versions after a save that stamps them
abbrev pub stamp_fields :
    {N : Type 0} → Option (Dict String) → JsonObject N → Option (List String) → String → Dict String
stamp_fields none body dirty version =
    foldl (λ fv f. put fv f version) [] (filter (λ k. not (is_reserved k)) (keys body))
stamp_fields (some prior) body dirty version =
    foldl (λ fv f. put fv f version) prior (or_else dirty [])

module _ {N : Type 0} where
  -- a change as the JSON object that the outbox stores
  abbrev pub change_json : SyncChange N → JsonObject N
  change_json change =
      (("model", str change.model)
        ∷ ("uuid", str change.uuid)
        ∷ ("kind", str (kind_text change.kind))
        ∷ [])
      ++ (elim change.body [ none ↦ [] | some body ↦ ("record", obj (fields body)) ∷ [] ])
      ++ (("version", str change.version) ∷ [])
      ++ (elim change.field_versions [
        | none ↦ []
        | some versions ↦ ("fieldVersions", to_json versions) ∷ []
      ])

  -- `local[TOMBSTONE_FIELD] === true`
  unfoldable pub is_tombstone : ⦃o : Number N⦄ → JsonObject N → Bool
  is_tombstone r = eq_value (get r "_deleted") (bool true)

module _ {N : Type 0} ⦃o : Number N⦄ where
  -- the sides of a merge by fields, where `applyIncoming` merges
  abbrev pub sides_of : Bool → SyncChange N → Option (JsonObject N) → Option (Sides N)
  sides_of false incoming stored = none
  sides_of true incoming none = none
  sides_of true incoming (some stored) = elim incoming.kind [
    | removed ↦ none
    | saved ↦ sides_with stored incoming.body incoming.field_versions (field_versions_of stored)
  ]
    where
      sides_with :
          JsonObject N
          → Option (JsonObject N)
          → Option (Dict String)
          → Option (Dict String)
          → Option (Sides N)
      sides_with stored (some body) (some iv) (some lv) =
          if is_tombstone stored
          then none
          else some (record {
            local = stored;
            local_versions = lv;
            incoming = body;
            incoming_versions = iv;
          })
      sides_with stored body iv lv = none

module _ {N : Type 0} ⦃o : Number N⦄ (settings : Settings N) where
  -- whether the local record, if there is one, gives way to a change
  abbrev pub gives_way : SyncChange N → Option (JsonObject N) → Bool
  gives_way incoming none = true
  gives_way incoming (some stored) =
      elim (settings.conflict
        (record {
          model = incoming.model;
          uuid = incoming.uuid;
          kind = saved;
          body = some stored;
          version = own_version stored;
          field_versions = none;
        })
        incoming) [ Verdict.takes_remote ↦ true | Verdict.keeps_local ↦ false ]

module _ {N S C E : Type 0} (local : Local N S C E) where
  -- the local records of a model whose uuid is in a list
  abbrev pub find_by_uuids : S → String → List String → C → Result E (List (JsonObject N))
  find_by_uuids s model uuids ctx =
      local.query s
        (record {
          model = model;
          condition = serialize (Expression.in_list "uuid" (map str uuids));
          order = [];
          paging = record { start = 0; stop = none };
          project = none;
        })
        ctx

module _ {N S R C E : Type 0} ⦃o : Number N⦄ (settings : Settings N) (local : Local N S C E) where
  -- `hlc.now()`
  unfoldable pub tick : Replica S R → Replica S R × String
  unfolding now
  tick r =
      let (clock, stamp) = now (settings.time r.uses) r.clock in
      (record r { clock = clock; uses = suc r.uses }, stamp)

  -- `hlc.update(version)`
  unfoldable pub hear : Replica S R → String → Replica S R
  unfolding update
  hear r version = record r {
    clock = update (settings.time r.uses) version r.clock;
    uses = suc r.uses;
  }

  -- `enqueue`
  unfoldable pub enqueue : Replica S R → SyncChange N → C → Replica S R
  enqueue r change ctx = record r {
    minted = suc r.minted;
    local =
        local.save r.local "_outbox"
          (("uuid", str (settings.mint r.minted))
            ∷ ("change", obj (fields (change_json change)))
            ∷ [])
          ctx none;
  }

  abbrev with_uuid : Replica S R → JsonObject N → Replica S R × JsonObject N
  with_uuid r body =
      if has_uuid body
      then (r, body)
      else (record r { minted = suc r.minted }, put body "uuid" (str (settings.mint r.minted)))

  abbrev save_fields :
      Replica S R → String → JsonObject N → C → Option (List String) → String → Replica S R
  save_fields r model body ctx dirty version =
      let uuid = uuid_of body in
      let fv = stamp_fields (get r.field_versions (key_of model uuid)) body dirty version in
      let greatest = or_else (max_of fv) version in
      let stamped = put (put body "_version" (str greatest)) "_fieldVersions" (to_json fv) in
      enqueue
        (record r {
          field_versions = put r.field_versions (key_of model uuid) fv;
          local =
              local.save r.local model stamped ctx
                (widened ("_version" ∷ "_fieldVersions" ∷ []) dirty);
        })
        (record {
          model = model;
          uuid = uuid;
          kind = saved;
          body = some stamped;
          version = greatest;
          field_versions = some fv;
        })
        ctx

  abbrev save_whole :
      Replica S R → String → JsonObject N → C → Option (List String) → String → Replica S R
  save_whole r model body ctx dirty version =
      let stamped = put body "_version" (str version) in
      enqueue
        (record r {
          local = local.save r.local model stamped ctx (widened ("_version" ∷ []) dirty);
        })
        (record {
          model = model;
          uuid = uuid_of body;
          kind = saved;
          body = some stamped;
          version = version;
          field_versions = none;
        })
        ctx

  -- `save`
  unfoldable pub save : Replica S R → String → JsonObject N → C → Option (List String) → Replica S R
  unfolding tick enqueue has_uuid put
  save r model body ctx dirty =
      let (named, record_) = with_uuid r body in
      let (ticked, version) = tick named in
      if settings.field_level
      then save_fields ticked model record_ ctx dirty version
      else save_whole ticked model record_ ctx dirty version

  -- `remove`: a tombstone is saved
  unfoldable pub remove : Replica S R → String → JsonObject N → C → Replica S R
  unfolding tick enqueue
  remove r model body ctx =
      let (ticked, version) = tick r in
      let tombstone =
        ("uuid", str (uuid_of body)) ∷ ("_version", str version) ∷ ("_deleted", bool true) ∷ [] in
      enqueue (record ticked { local = local.save ticked.local model tombstone ctx none })
        (record {
          model = model;
          uuid = uuid_of body;
          kind = removed;
          body = some tombstone;
          version = version;
          field_versions = none;
        })
        ctx

  -- what a change that wins does, by its record and its kind
  abbrev pub adopt :
      Replica S R → SyncChange N → C → Option (JsonObject N) → ChangeKind → Replica S R
  adopt r incoming ctx (some body) kind = record r {
    local = local.save r.local incoming.model body ctx none;
    field_versions = elim (if settings.field_level then incoming.field_versions else none) [
      | none ↦ r.field_versions
      | some fv ↦ put r.field_versions (key_of incoming.model incoming.uuid) fv
    ];
  }
  adopt r incoming ctx none saved = r
  adopt r incoming ctx none removed = record r {
    local = local.remove r.local incoming.model (("uuid", str incoming.uuid) ∷ []) ctx;
  }

  abbrev pub merge_in : Replica S R → SyncChange N → C → Option (JsonObject N) → Replica S R × Bool
  merge_in r incoming ctx none = (r, false)
  merge_in r incoming ctx (some merged) = (
    record r {
      field_versions =
          put r.field_versions (key_of incoming.model incoming.uuid)
            (or_else (field_versions_of merged) []);
      local = local.save r.local incoming.model merged ctx none;
    },
    true,
  )

  -- what a change does, by the sides of a merge by fields and by the conflict policy
  abbrev pub apply_heard :
      Replica S R → SyncChange N → C → Option (Sides N) → Bool → Replica S R × Bool
  apply_heard r incoming ctx (some sides) wins =
      merge_in r incoming ctx
        (merge_by_field sides.local sides.local_versions sides.incoming sides.incoming_versions)
  apply_heard r incoming ctx none true = (adopt r incoming ctx incoming.body incoming.kind, true)
  apply_heard r incoming ctx none false = (r, false)

  -- `applyIncoming`: the replica, and whether the change applied
  unfoldable pub apply_incoming :
      Replica S R → SyncChange N → Option (JsonObject N) → C → Replica S R × Bool
  unfolding hear merge_by_field field_versions_of is_tombstone
  apply_incoming r incoming stored ctx =
      apply_heard (hear r incoming.version) incoming ctx
        (sides_of settings.field_level incoming stored) (gives_way settings incoming stored)
