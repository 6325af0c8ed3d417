-- ===== src/Backends/Sql/Servers.antt =====
-- The dialects of Postgres and of MySQL (backends/sql/dialect.ts).
use Prim.Native.Char.{code}
use object_repository.Base.{
  ℕ, suc, ◌+◌, String, Bool, not, Option, none, some, List, [], ◌∷◌, filter, eqb, ◌==◌,
  if◌then◌else◌, Result, ok, ◌>>=◌,
}
use object_repository.Base.Dict.{get}
use object_repository.Base.Text.Decimal.{decimal}
use object_repository.Backends.Sql.Fragment.{cat, join}
use object_repository.Backends.Sql.Dialect.{
  ident, idents, quoted, quoted_all, Dialect, pg_types, mysql_types, type_in, column_defs,
  mysql_index_columns,
}

-- `$n`, `$n+1`, … in place of the placeholders
unfoldable pub number_holes : ℕ → String → String
number_holes n String.[] = ""
number_holes n (String.◌∷◌ c s) =
    let hole = cat ("$" ∷ decimal n ∷ number_holes (suc n) s ∷ []) in
    let kept = String.◌∷◌ c (number_holes n s) in if eqb (code c) b'?' then hole else kept

-- `count` texts `$n`, `$n+1`, …
abbrev pub numbered : ℕ → ℕ → List String
numbered ℕ.zero n = []
numbered (suc count) n = cat ("$" ∷ decimal n ∷ []) ∷ numbered count (suc n)

abbrev pub repeated : ℕ → String → List String
repeated ℕ.zero s = []
repeated (suc count) s = s ∷ repeated count s

abbrev count_of : List String → ℕ
count_of [] = 0
count_of (x ∷ xs) = suc (count_of xs)

-- the tuples of `upsertMany` on Postgres, numbered on through the rows
abbrev numbered_tuples : ℕ → ℕ → ℕ → List String
numbered_tuples ℕ.zero width n = []
numbered_tuples (suc count) width n =
    cat ("(" ∷ join ", " (numbered width n) ∷ ")" ∷ []) ∷ numbered_tuples count width (n + width)

abbrev set_columns : List String → Option (List String) → List String
set_columns columns (some updated) = updated
set_columns columns none = filter (λ c. not (c == "uuid")) columns

abbrev pg_sets : List String → Result String (List String)
pg_sets [] = ok []
pg_sets (c ∷ cs) = do
  i ← ident c
  rest ← pg_sets cs
  ok (cat ("\"" ∷ i ∷ "\" = excluded.\"" ∷ i ∷ "\"" ∷ []) ∷ rest)

abbrev mysql_sets : List String → Result String (List String)
mysql_sets [] = ok []
mysql_sets (c ∷ cs) = do
  i ← ident c
  rest ← mysql_sets cs
  ok (cat ("`" ∷ i ∷ "` = VALUES(`" ∷ i ∷ "`)" ∷ []) ∷ rest)

abbrev unique_word : Bool → String
unique_word unique = if unique then "UNIQUE " else ""

abbrev offset_of : Option ℕ → ℕ → String
offset_of none offset = if eqb offset 0 then "" else cat (" OFFSET " ∷ decimal offset ∷ [])
offset_of (some limit) offset = cat (" LIMIT " ∷ decimal limit ∷ " OFFSET " ∷ decimal offset ∷ [])

abbrev mysql_offset_of : Option ℕ → ℕ → String
mysql_offset_of none offset =
    if eqb offset 0 then "" else cat (" LIMIT 18446744073709551615 OFFSET " ∷ decimal offset ∷ [])
mysql_offset_of (some limit) offset =
    cat (" LIMIT " ∷ decimal limit ∷ " OFFSET " ∷ decimal offset ∷ [])

-- `postgresDialect`
unfoldable pub postgres : Dialect
unfolding ident column_defs number_holes get
postgres = record {
  name = "postgres";
  column = quoted "\"";
  json_extract = λ column path. do
    c ← quoted "\"" column
    is ← idents path
    ok (cat ("(" ∷ c ∷ "::jsonb #> '{" ∷ join "," is ∷ "}')" ∷ []));
  json_value = "?::jsonb";
  column_type = type_in pg_types "text";
  concat = λ parts. cat ("(" ∷ join " || " parts ∷ ")" ∷ []);
  like_match = λ column. cat (column ∷ " LIKE ?" ∷ []);
  finalize = number_holes 1;
  ref = quoted "\"";
  create_table = λ m fs. do
    t ← quoted "\"" m
    cols ← column_defs fs pg_types "text" "\""
    ok (cat ("CREATE TABLE IF NOT EXISTS " ∷ t ∷ " (" ∷ cols ∷ ")" ∷ []));
  create_index = λ m name cols unique types. do
    i ← quoted "\"" name
    t ← quoted "\"" m
    cs ← quoted_all "\"" cols
    ok (
        cat (
          "CREATE "
          ∷ unique_word unique
          ∷ "INDEX IF NOT EXISTS "
          ∷ i
          ∷ " ON "
          ∷ t
          ∷ " ("
          ∷ join ", " cs
          ∷ ")"
          ∷ []));
  drop_index = λ m name. (do i ← quoted "\"" name; ok (cat ("DROP INDEX IF EXISTS " ∷ i ∷ [])));
  columns_query = λ m. do
    t ← ident m
    ok ("SELECT column_name FROM information_schema.columns WHERE table_name = $1", t ∷ []);
  add_column = λ m name kind. do
    t ← quoted "\"" m
    c ← quoted "\"" name
    ok (cat ("ALTER TABLE " ∷ t ∷ " ADD COLUMN " ∷ c ∷ " " ∷ kind ∷ []));
  drop_table = λ m. (do t ← quoted "\"" m; ok (cat ("DROP TABLE IF EXISTS " ∷ t ∷ [])));
  drop_column = λ m name. do
    t ← quoted "\"" m
    c ← quoted "\"" name
    ok (cat ("ALTER TABLE " ∷ t ∷ " DROP COLUMN " ∷ c ∷ []));
  rename_column = λ m from to. do
    t ← quoted "\"" m
    c ← quoted "\"" from
    d ← quoted "\"" to
    ok (cat ("ALTER TABLE " ∷ t ∷ " RENAME COLUMN " ∷ c ∷ " TO " ∷ d ∷ []));
  alter_column_type = λ m name kind. do
    t ← quoted "\"" m
    c ← quoted "\"" name
    ok (cat ("ALTER TABLE " ∷ t ∷ " ALTER COLUMN " ∷ c ∷ " TYPE " ∷ kind ∷ []));
  upsert_many = λ m columns rows updated. do
    cols ← quoted_all "\"" columns
    sets ← pg_sets (set_columns columns updated)
    t ← quoted "\"" m
    ok (
        cat (
          "INSERT INTO "
          ∷ t
          ∷ " ("
          ∷ join ", " cols
          ∷ ") VALUES "
          ∷ join ", " (numbered_tuples rows (count_of columns) 1)
          ∷ " ON CONFLICT (uuid) DO UPDATE SET "
          ∷ join ", " sets
          ∷ []));
  delete_by_uuid = λ m. do
    t ← quoted "\"" m
    ok (cat ("DELETE FROM " ∷ t ∷ " WHERE uuid = $1" ∷ []));
  delete_many = λ m count. do
    t ← quoted "\"" m
    ok (cat ("DELETE FROM " ∷ t ∷ " WHERE uuid IN (" ∷ join ", " (numbered count 1) ∷ ")" ∷ []));
  paging = offset_of;
  truncate = λ sql. cat ("trunc(" ∷ sql ∷ ")" ∷ []);
  nulls_order = λ descending. if descending then " NULLS LAST" else " NULLS FIRST";
}

-- `mysqlDialect`
unfoldable pub mysql : Dialect
unfolding ident column_defs mysql_index_columns get
mysql = record {
  name = "mysql";
  column = quoted "`";
  json_extract = λ column path. do
    c ← quoted "`" column
    is ← idents path
    ok (cat ("JSON_EXTRACT(" ∷ c ∷ ", '$." ∷ join "." is ∷ "')" ∷ []));
  json_value = "CAST(? AS JSON)";
  column_type = type_in mysql_types "longtext";
  concat = λ parts. cat ("CONCAT(" ∷ join ", " parts ∷ ")" ∷ []);
  like_match = λ column. cat (column ∷ " LIKE BINARY ?" ∷ []);
  finalize = λ sql. sql;
  ref = quoted "`";
  create_table = λ m fs. do
    t ← quoted "`" m
    cols ← column_defs fs mysql_types "longtext" "`"
    ok (cat ("CREATE TABLE IF NOT EXISTS " ∷ t ∷ " (" ∷ cols ∷ ") COLLATE=utf8mb4_bin" ∷ []));
  create_index = λ m name cols unique types. do
    i ← quoted "`" name
    t ← quoted "`" m
    cs ← mysql_index_columns cols types
    ok (cat ("CREATE " ∷ unique_word unique ∷ "INDEX " ∷ i ∷ " ON " ∷ t ∷ " (" ∷ cs ∷ ")" ∷ []));
  drop_index = λ m name. do
    i ← quoted "`" name
    t ← quoted "`" m
    ok (cat ("DROP INDEX " ∷ i ∷ " ON " ∷ t ∷ []));
  columns_query = λ m. do
    t ← ident m
    ok (
        (
          "SELECT column_name AS column_name FROM information_schema.columns WHERE table_name = ? AND table_schema = DATABASE()",
          t ∷ [],
        ));
  add_column = λ m name kind. do
    t ← quoted "`" m
    c ← quoted "`" name
    ok (cat ("ALTER TABLE " ∷ t ∷ " ADD COLUMN " ∷ c ∷ " " ∷ kind ∷ []));
  drop_table = λ m. (do t ← quoted "`" m; ok (cat ("DROP TABLE IF EXISTS " ∷ t ∷ [])));
  drop_column = λ m name. do
    t ← quoted "`" m
    c ← quoted "`" name
    ok (cat ("ALTER TABLE " ∷ t ∷ " DROP COLUMN " ∷ c ∷ []));
  rename_column = λ m from to. do
    t ← quoted "`" m
    c ← quoted "`" from
    d ← quoted "`" to
    ok (cat ("ALTER TABLE " ∷ t ∷ " RENAME COLUMN " ∷ c ∷ " TO " ∷ d ∷ []));
  alter_column_type = λ m name kind. do
    t ← quoted "`" m
    c ← quoted "`" name
    ok (cat ("ALTER TABLE " ∷ t ∷ " MODIFY COLUMN " ∷ c ∷ " " ∷ kind ∷ []));
  upsert_many = λ m columns rows updated. do
    cols ← quoted_all "`" columns
    sets ← mysql_sets (set_columns columns updated)
    t ← quoted "`" m
    ok (
        cat (
          "INSERT INTO "
          ∷ t
          ∷ " ("
          ∷ join ", " cols
          ∷ ") VALUES "
          ∷ join ", "
              (repeated rows (cat ("(" ∷ join ", " (repeated (count_of columns) "?") ∷ ")" ∷ [])))
          ∷ " ON DUPLICATE KEY UPDATE "
          ∷ join ", " sets
          ∷ []));
  delete_by_uuid = λ m. do
    t ← quoted "`" m
    ok (cat ("DELETE FROM " ∷ t ∷ " WHERE uuid = ?" ∷ []));
  delete_many = λ m count. do
    t ← quoted "`" m
    ok (cat ("DELETE FROM " ∷ t ∷ " WHERE uuid IN (" ∷ join ", " (repeated count "?") ∷ ")" ∷ []));
  paging = mysql_offset_of;
  truncate = λ sql. cat ("truncate(" ∷ sql ∷ ", 0)" ∷ []);
  nulls_order = λ descending. "";
}
