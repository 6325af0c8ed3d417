-- ===== src/Backends/Sql/Migrate.antt =====
-- backends/sql/migrate.ts: the statements that a migration records, and the loops that apply the
-- migrations of a list and roll them back. What `up` and `down` do is the list of the builder's calls;
-- the engine is a function that gives its next state and the rows of a statement, or none where it
-- refuses it. The tracking table is a part of that state like any other. A throw is none here.
pub mod Tracking
pub mod Again
use mathlib.Core.List.{reverse}
use object_repository.Base.{
  ℕ, String, Bool, true, false, not, ◌||◌, Option, none, some, ◌==◌, List, [], ◌∷◌, ◌++◌, map,
  filter, zero, suc, Result, ok, err, ◌>>=◌, if◌then◌else◌,
}
use object_repository.Base.Dict.{Dict, get}
use object_repository.Base.Names.{member}
use object_repository.Json.{Value, num, str}
use object_repository.Json.Number.{Number}
use object_repository.Json.Text.{to_text}
use object_repository.Backends.Sql.Fragment.{cat}
use object_repository.Backends.Sql.Dialect.{Dialect, FieldSpec}
use object_repository.Backends.Sql.Reads.{Statement}

-- a call of the `SchemaBuilder`
pub data SchemaOp (N : Type 0) : Type 0 where
  create_table : String → List FieldSpec → SchemaOp N
  drop_table : String → SchemaOp N
  add_column : String → String → String → SchemaOp N
  drop_column : String → String → SchemaOp N
  rename_column : String → String → String → SchemaOp N
  alter_column_type : String → String → String → SchemaOp N
  create_index : String → String → List String → Bool → Option (Dict String) → SchemaOp N
  drop_index : String → String → SchemaOp N
  sql : String → List (Value N) → SchemaOp N

-- `Migration`
pub record Migration (N : Type 0) : Type 0 where
  pub name : String
  pub up : List (SchemaOp N)
  pub down : Option (List (SchemaOp N))

-- `MigrationReport`
pub record MigrationReport : Type 0 where
  pub applied : List String
  pub skipped : List String

-- `assertUniqueNames`
unfoldable pub has_duplicates : List String → Bool
has_duplicates [] = false
has_duplicates (name ∷ names) = member name names || has_duplicates names

module _ {N : Type 0} where
  -- `ddl(sql)`
  abbrev pub ddl : Dialect → Result String String → Result String (Statement N)
  ddl d (err e) = err e
  ddl d (ok text) = ok (record { sql = d.finalize text; params = [] })

  -- the methods of the `Recorder`
  unfoldable pub record_op : Dialect → SchemaOp N → Result String (Statement N)
  record_op d (SchemaOp.create_table model fields) = ddl d (d.create_table model fields)
  record_op d (SchemaOp.drop_table model) = ddl d (d.drop_table model)
  record_op d (SchemaOp.add_column model name kind) =
      ddl d (d.add_column model name (d.column_type kind))
  record_op d (SchemaOp.drop_column model name) = ddl d (d.drop_column model name)
  record_op d (SchemaOp.rename_column model old new) = ddl d (d.rename_column model old new)
  record_op d (SchemaOp.alter_column_type model name kind) =
      ddl d (d.alter_column_type model name (d.column_type kind))
  record_op d (SchemaOp.create_index model name columns unique types) =
      ddl d (d.create_index model name columns unique types)
  record_op d (SchemaOp.drop_index model name) = ddl d (d.drop_index model name)
  record_op d (SchemaOp.sql text params) = ok (record { sql = text; params = params })

  abbrev add_statement :
      Result String (Statement N)
      → Result String (List (Statement N))
      → Result String (List (Statement N))
  add_statement (err e) rest = err e
  add_statement (ok s) (err e) = err e
  add_statement (ok s) (ok rest) = ok (s ∷ rest)

  -- `recorder.statements` after the calls, or the error of the first one that threw
  unfoldable pub record_all : Dialect → List (SchemaOp N) → Result String (List (Statement N))
  unfolding record_op
  record_all d [] = ok []
  record_all d (op ∷ ops) = let rest = record_all d ops in add_statement (record_op d op) rest

abbrev pub skip : String → Option MigrationReport → Option MigrationReport
skip name none = none
skip name (some report) = some (record report { skipped = name ∷ report.skipped })

abbrev pub apply : String → Option MigrationReport → Option MigrationReport
apply name none = none
apply name (some report) = some (record report { applied = name ∷ report.applied })

abbrev pub nothing_done : MigrationReport
nothing_done = record { applied = []; skipped = [] }

abbrev pub migrations_table : String
migrations_table = "_object_repository_migrations"

abbrev pub is_empty : {A : Type 0} → List A → Bool
is_empty [] = true
is_empty (x ∷ xs) = false

-- the engine: its next state and the rows, and whether it has transactions
pub record Engine (N : Type 0) (S : Type 0) : Type 0 where
  pub run : S → Statement N → Option (S × List (Dict (Value N)))
  pub transactional : Bool

module _ {N : Type 0} (d : Dialect) where
  -- `columnsQuery(MIGRATIONS_TABLE)`
  unfoldable pub probe : Result String (Statement N)
  probe = do
    query ← d.columns_query migrations_table
    ok (record { sql = query.0; params = map str query.1 })

  -- `trackingDdl`
  unfoldable pub tracking_ddl : Result String (Statement N)
  tracking_ddl = do
    table ← d.ref migrations_table
    name ← d.column "name"
    applied_at ← d.column "applied_at"
    ok (record {
      sql = cat (
          "CREATE TABLE IF NOT EXISTS "
          ∷ table
          ∷ " ("
          ∷ name
          ∷ " "
          ∷ d.column_type "uuid"
          ∷ " PRIMARY KEY, "
          ∷ applied_at
          ∷ " "
          ∷ d.column_type "integer"
          ∷ ")"
          ∷ []);
      params = [];
    })

  unfoldable pub select_names : Result String (Statement N)
  select_names = do
    name ← d.column "name"
    table ← d.ref migrations_table
    ok (record { sql = cat ("SELECT " ∷ name ∷ " AS name FROM " ∷ table ∷ []); params = [] })

  -- the statements that track and untrack a migration
  unfoldable pub insert_name : String → N → Result String (Statement N)
  insert_name migration at = do
    table ← d.ref migrations_table
    name ← d.column "name"
    applied_at ← d.column "applied_at"
    ok (record {
      sql =
          d.finalize (
            cat
              ("INSERT INTO " ∷ table ∷ " (" ∷ name ∷ ", " ∷ applied_at ∷ ") VALUES (?, ?)" ∷ []));
      params = str migration ∷ num at ∷ [];
    })

  unfoldable pub delete_name : String → Result String (Statement N)
  delete_name migration = do
    table ← d.ref migrations_table
    name ← d.column "name"
    ok (record {
      sql = d.finalize (cat ("DELETE FROM " ∷ table ∷ " WHERE " ∷ name ∷ " = ?" ∷ []));
      params = str migration ∷ [];
    })

module _ {N : Type 0} {S : Type 0} where
  abbrev pub run_built :
      Engine N S → S → Result String (Statement N) → Option (S × List (Dict (Value N)))
  run_built engine s (err e) = none
  run_built engine s (ok statement) = engine.run s statement

  -- the statements in order: the state after them, and whether all were run
  unfoldable pub run_all : Engine N S → S → List (Statement N) → S × Bool
  run_all engine s [] = (s, true)
  run_all engine s (statement ∷ statements) = elim (engine.run s statement) [
    | none ↦ (s, false)
    | some next ↦ run_all engine next.0 statements
  ]

  -- a transaction that fails leaves the state as it was
  abbrev pub settled : Engine N S → S → S × Bool → S × Bool
  settled engine before (s, true) = (s, true)
  settled engine before (s, false) = (if engine.transactional then before else s, false)

  -- `runAtomically`, where recording the statements has not thrown
  unfoldable pub run_atomically :
      Engine N S → S → Result String (List (Statement N)) → Result String (Statement N) → S × Bool
  unfolding run_all
  run_atomically engine s (err e) track = (s, false)
  run_atomically engine s (ok statements) (err e) = (s, false)
  run_atomically engine s (ok statements) (ok track) =
      settled engine s (run_all engine s (statements ++ track ∷ []))

module _ {N : Type 0} ⦃o : Number N⦄ where
  -- `String(r.name)`
  unfoldable pub name_in : Dict (Value N) → String
  unfolding get to_text
  name_in row = elim (get row "name") [ none ↦ "undefined" | some v ↦ to_text v ]

module _ {N : Type 0} {S : Type 0} ⦃o : Number N⦄ (d : Dialect) (engine : Engine N S) where
  abbrev pub names_read : S → Option (S × List (Dict (Value N))) → S × Option (List String)
  names_read s none = (s, none)
  names_read s (some (t, rows)) = (t, some (map name_in rows))

  abbrev pub read_names : S → S × Option (List String)
  unfolding select_names
  read_names s = names_read s (run_built engine s (select_names d))

  abbrev pub created : S → Option (S × List (Dict (Value N))) → S × Option (List String)
  created s none = (s, none)
  created s (some (t, rows)) = read_names t

  abbrev pub probed : S → Option (S × List (Dict (Value N))) → S × Option (List String)
  unfolding tracking_ddl
  probed s none = (s, none)
  probed s (some (t, rows)) =
      if is_empty rows then created t (run_built engine t (tracking_ddl d)) else read_names t

  -- `appliedNames`: the state after it, and the names, none where it threw
  unfoldable pub applied_names : S → S × Option (List String)
  unfolding probed probe
  applied_names s = probed s (run_built engine s (probe d))

  -- the loop of `runMigrations`, where `now` is the time at which a migration is applied: the state
  -- after it, and the report, none where it threw
  unfoldable pub migrate_loop :
      (String → N) → List String → S → List (Migration N) → S × Option MigrationReport
  unfolding run_atomically record_all insert_name
  migrate_loop now done s [] = (s, some nothing_done)
  migrate_loop now done s (m ∷ ms) =
      let skipped = migrate_loop now done s ms in
      let step = run_atomically engine s (record_all d m.up) (insert_name d m.name (now m.name)) in
      let rest = migrate_loop now done step.0 ms in
      if member m.name done
      then (skipped.0, skip m.name skipped.1)
      else if step.1
      then (rest.0, apply m.name rest.1)
      else (step.0, none)

  abbrev pub migrated :
      (String → N) → List (Migration N) → S × Option (List String) → S × Option MigrationReport
  unfolding migrate_loop
  migrated now ms (s, none) = (s, none)
  migrated now ms (s, some done) = migrate_loop now done s ms

  -- `runMigrations`
  unfoldable pub run_migrations : (String → N) → S → List (Migration N) → S × Option MigrationReport
  unfolding migrated applied_names
  run_migrations now s ms =
      if has_duplicates (map (λ m. m.name) ms) then (s, none) else migrated now ms (applied_names s)

  -- the loop of `rollbackMigrations`, with the number of rollbacks that are left
  unfoldable pub rollback_loop : ℕ → S → List (Migration N) → S × Option MigrationReport
  unfolding run_atomically record_all delete_name
  rollback_loop left s [] = (s, some nothing_done)
  rollback_loop zero s (m ∷ ms) = (s, some nothing_done)
  rollback_loop (suc left) s (m ∷ ms) = elim m.down [
    | none ↦ let rest = rollback_loop (suc left) s ms in (rest.0, skip m.name rest.1)
    | some down ↦
        let step = run_atomically engine s (record_all d down) (delete_name d m.name) in
        let rest = rollback_loop left step.0 ms in
        if step.1 then (rest.0, apply m.name rest.1) else (step.0, none)
  ]

  abbrev rolled_back :
      ℕ → List (Migration N) → S × Option (List String) → S × Option MigrationReport
  unfolding rollback_loop
  rolled_back count ms (s, none) = (s, none)
  rolled_back count ms (s, some done) =
      rollback_loop count s (filter (λ m. member m.name done) (reverse ms))

  -- `rollbackMigrations`
  unfoldable pub rollback_migrations : S → List (Migration N) → ℕ → S × Option MigrationReport
  unfolding rolled_back applied_names
  rollback_migrations s ms count =
      if has_duplicates (map (λ m. m.name) ms)
      then (s, none)
      else rolled_back count ms (applied_names s)
