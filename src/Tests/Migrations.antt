-- ===== src/Tests/Migrations.antt =====
-- Migrations at concrete inputs.
use object_repository.Base.{
  String, ◌≡◌, refl, ◌∙◌, sym, ap, true, not, Option, none, some, [], ◌∷◌, ◌++◌, List, All, map,
  or_else, is_some, ◌==◌, Result, ok, err, if◌then◌else◌,
}
use object_repository.Base.Dict.{Dict, get}
use object_repository.Base.Int.{ℤ, pos}
use object_repository.Base.Names.{member}
use object_repository.Base.Text.Decimal.{decimal_on}
use object_repository.Json.{Value, str}
use object_repository.Json.Number.{int_number}
use object_repository.Json.Text.{to_text}
use object_repository.Backends.Sql.Dialect.{ident, is_ident}
use object_repository.Backends.Sql.Servers.{postgres}
use object_repository.Backends.Sql.Reads.{Statement}
use object_repository.Backends.Sql.Migrate.{
  Migration, Engine, SchemaOp, run_built, run_migrations, has_duplicates, record_all, probe,
  tracking_ddl, select_names, insert_name, name_in, is_empty,
}
use object_repository.Backends.Sql.Migrate.Tracking.{IsTracking}
use object_repository.Backends.Sql.Migrate.Again.{SpareNames, run_migrations-again}

abbrev add_age : Migration ℤ
add_age = record {
  name = "add-age";
  up = SchemaOp.add_column "person" "age" "integer" ∷ [];
  down = none;
}

-- A database that keeps the tracked names, if it has the table, and takes any other statement.
abbrev sql_of : Result String (Statement ℤ) → String
sql_of (err e) = ""
sql_of (ok statement) = statement.sql

abbrev name_row : String → Dict (Value ℤ)
name_row name = ("name", str name) ∷ []

abbrev probe_rows : Option (List String) → List (Dict (Value ℤ))
probe_rows none = []
probe_rows (some found) = name_row "name" ∷ []

abbrev selected : Option (List String) → Option (Option (List String) × List (Dict (Value ℤ)))
selected none = none
selected (some found) = some (some found, map name_row found)

abbrev inserted :
    Option (List String) → List (Value ℤ) → Option (Option (List String) × List (Dict (Value ℤ)))
inserted (some found) (str name ∷ rest) = some (some (found ++ name ∷ []), [])
inserted found params = none

abbrev answer_to :
    Option (List String) → Statement ℤ → Option (Option (List String) × List (Dict (Value ℤ)))
unfolding probe tracking_ddl select_names insert_name postgres ident is_ident
answer_to s statement =
    if statement.sql == sql_of (probe postgres)
    then some (s, probe_rows s)
    else if statement.sql == sql_of (tracking_ddl postgres)
    then some (some (or_else s []), [])
    else if statement.sql == sql_of (select_names postgres)
    then selected s
    else if statement.sql == sql_of (insert_name postgres "" (pos 0))
    then inserted s statement.params
    else some (s, [])

abbrev named_store : Engine ℤ (Option (List String))
unfolding answer_to
named_store = record { run = answer_to; transactional = true }

map-name_in : (found : List String) → map name_in (map name_row found) ≡ found
unfolding name_in get to_text
map-name_in [] = refl
map-name_in (name ∷ found) = ap (λ xs. name ∷ xs) (map-name_in found)

state_after :
    (s t : Option (List String)) (rows found : List (Dict (Value ℤ)))
    → Path
        (Option (Option (List String) × List (Dict (Value ℤ))))
        (some (s, rows))
        (some (t, found))
    → s ≡ t
state_after s t rows found h = cc

named_store_probes :
    (s : Option (List String))
    → (rows : List (Dict (Value ℤ))) × (run_built named_store s (probe postgres) ≡ some (s, rows))
      × (is_empty rows ≡ not (is_some s))
unfolding named_store probe tracking_ddl select_names insert_name postgres ident is_ident
named_store_probes none = ([], refl, refl)
named_store_probes (some found) = (name_row "name" ∷ [], refl, refl)

named_store_creates :
    (s t : Option (List String)) (rows : List (Dict (Value ℤ)))
    → s ≡ none
    → run_built named_store s (tracking_ddl postgres) ≡ some (t, rows)
    → t ≡ some []
unfolding named_store probe tracking_ddl select_names insert_name postgres ident is_ident
named_store_creates none t rows e h = cc
named_store_creates (some found) t rows e h = cc

named_store_selects :
    (s : Option (List String)) (found : List String)
    → s ≡ some found
    → (rows : List (Dict (Value ℤ))) × (run_built named_store s (select_names postgres)
        ≡ some (s, rows))
      × (map name_in rows ≡ found)
unfolding named_store probe tracking_ddl select_names insert_name postgres ident is_ident
named_store_selects none found e = cc
named_store_selects (some held) found e =
    (map name_row held, refl, map-name_in held ∙ ap (λ r. or_else r []) e)

named_store_inserts :
    (s t : Option (List String)) (rows : List (Dict (Value ℤ))) (name : String) (at : ℤ)
    (found : List String)
    → s ≡ some found
    → run_built named_store s (insert_name postgres name at) ≡ some (t, rows)
    → t ≡ some (found ++ name ∷ [])
unfolding named_store probe tracking_ddl select_names insert_name postgres ident is_ident decimal_on
named_store_inserts none t rows name at found e h = cc
named_store_inserts (some held) t rows name at found e h =
    sym (state_after (some (held ++ name ∷ [])) t [] rows h)
    ∙ ap (λ r. some (or_else r [] ++ name ∷ [])) e

named_store-IsTracking : IsTracking postgres named_store (λ s. s)
named_store-IsTracking = record {
  probes = named_store_probes;
  creates = named_store_creates;
  selects = named_store_selects;
  inserts = named_store_inserts;
}

abbrev never : String → ℤ
never name = pos 0

spared : SpareNames postgres named_store never (λ s. s) (add_age ∷ [])
unfolding named_store probe tracking_ddl select_names insert_name postgres ident is_ident record_all
    decimal_on
spared = (((λ s t rows h. sym (state_after s t [] rows h)), tt), tt)

run_migrations-again_example :
    let after = (run_migrations postgres named_store never none (add_age ∷ [])).0 in
    (found : List String) × (after ≡ some found)
    × All (λ m. member m.name found ≡ true) (add_age ∷ [])
    × (run_migrations postgres named_store never after (add_age ∷ [])
        ≡ (after, some (record { applied = []; skipped = "add-age" ∷ [] })))
unfolding run_migrations named_store probe tracking_ddl select_names insert_name postgres ident
    is_ident has_duplicates decimal_on
run_migrations-again_example =
    run_migrations-again postgres named_store never (λ s. s) named_store-IsTracking none
      (add_age ∷ []) spared refl
