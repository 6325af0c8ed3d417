-- ===== src/Backends/Sql/Dialect.antt =====
-- backends/sql/dialect.ts: the engine's part of the SQL texts. An identifier that is refused throws:
-- the error is the name. The bounds of a page are natural numbers here, which `pageBound` accepts.
use Prim.Native.Char.{code}
use object_repository.Base.{
  ℕ, String, Bool, true, false, ◌&&◌, ◌||◌, Option, none, some, List, [], ◌∷◌, ◌++◌, eqb, leb,
  or_else, if◌then◌else◌, Result, ok, err, ◌>>=◌,
}
use object_repository.Base.Dict.{Dict, get}
use object_repository.Base.Names.{member}
use object_repository.Backends.Sql.Fragment.{cat, join}

-- `FieldSpec`
pub record FieldSpec : Type 0 where
  pub name : String
  pub kind : String

abbrev pub is_letter : ℕ → Bool
is_letter c = (leb b'A' c && leb c b'Z') || (leb b'a' c && leb c b'z') || eqb c b'_'

abbrev pub is_word : ℕ → Bool
is_word c = is_letter c || (leb b'0' c && leb c b'9')

abbrev pub all_word : String → Bool
all_word String.[] = true
all_word (String.◌∷◌ c s) = is_word (code c) && all_word s

-- `IDENT.test(name)` and `TOP.test(name)`: one regular expression
unfoldable pub is_ident : String → Bool
is_ident String.[] = false
is_ident (String.◌∷◌ c s) = is_letter (code c) && all_word s

unfoldable pub ident : String → Result String String
ident name = if is_ident name then ok name else err name

abbrev pub idents : List String → Result String (List String)
idents [] = ok []
idents (n ∷ ns) = do i ← ident n; is ← idents ns; ok (i ∷ is)

-- an identifier between two quotes of the engine
abbrev pub quoted : String → String → Result String String
quoted q name = do i ← ident name; ok (cat (q ∷ i ∷ q ∷ []))

abbrev pub quoted_all : String → List String → Result String (List String)
quoted_all q [] = ok []
quoted_all q (n ∷ ns) = do i ← quoted q n; is ← quoted_all q ns; ok (i ∷ is)

-- `SqlDialect`
pub record Dialect : Type 0 where
  pub name : String
  pub column : String → Result String String
  pub json_extract : String → List String → Result String String
  pub json_value : String
  pub column_type : String → String
  pub concat : List String → String
  pub like_match : String → String
  pub finalize : String → String
  pub ref : String → Result String String
  pub create_table : String → List FieldSpec → Result String String
  pub create_index :
      String → String → List String → Bool → Option (Dict String) → Result String String
  pub drop_index : String → String → Result String String
  pub columns_query : String → Result String (String × List String)
  pub add_column : String → String → String → Result String String
  pub drop_table : String → Result String String
  pub drop_column : String → String → Result String String
  pub rename_column : String → String → String → Result String String
  pub alter_column_type : String → String → String → Result String String
  pub upsert_many : String → List String → ℕ → Option (List String) → Result String String
  pub delete_by_uuid : String → Result String String
  pub delete_many : String → ℕ → Result String String
  pub paging : Option ℕ → ℕ → String
  pub truncate : String → String
  pub nulls_order : Bool → String

abbrev pub pg_types : Dict String
pg_types =
    ("uuid", "text")
    ∷ ("text", "text")
    ∷ ("integer", "bigint")
    ∷ ("float", "double precision")
    ∷ ("boolean", "boolean")
    ∷ ("date", "bigint")
    ∷ ("json", "text")
    ∷ ("array", "text")
    ∷ ("embedded", "text")
    ∷ ("scalar", "text")
    ∷ []

abbrev pub mysql_types : Dict String
mysql_types =
    ("uuid", "varchar(64)")
    ∷ ("text", "text")
    ∷ ("integer", "bigint")
    ∷ ("float", "double")
    ∷ ("boolean", "tinyint(1)")
    ∷ ("date", "bigint")
    ∷ ("json", "longtext")
    ∷ ("array", "longtext")
    ∷ ("embedded", "longtext")
    ∷ ("scalar", "longtext")
    ∷ []

abbrev pub overflow_column : String
overflow_column = "_extra"

abbrev pub type_in : Dict String → String → String → String
type_in types scalar kind = or_else (get types kind) scalar

-- `columnDefs`
abbrev field_defs : List FieldSpec → Dict String → String → String → Result String (List String)
field_defs [] types scalar q = ok []
field_defs (f ∷ fs) types scalar q = do
  c ← quoted q f.name
  cs ← field_defs fs types scalar q
  ok (cat (c ∷ " " ∷ type_in types scalar f.kind ∷ []) ∷ cs)

unfoldable pub column_defs : List FieldSpec → Dict String → String → String → Result String String
unfolding get ident
column_defs fields types scalar q = do
  cs ← field_defs fields types scalar q
  ok (
      join ", " (
        cat (q ∷ "uuid" ∷ q ∷ " " ∷ type_in types scalar "uuid" ∷ " PRIMARY KEY" ∷ [])
        ∷ (cs ++ cat (q ∷ overflow_column ∷ q ∷ " " ∷ type_in types scalar "json" ∷ []) ∷ [])))

-- `MYSQL_PREFIXED_TYPES` and `mysqlIndexColumns`
abbrev prefix_of : Option (Dict String) → String → String
prefix_of none c = ""
prefix_of (some types) c =
    if member (or_else (get types c) "") ("text" ∷ "json" ∷ "array" ∷ "embedded" ∷ "scalar" ∷ [])
    then "(255)"
    else ""

abbrev index_columns : List String → Option (Dict String) → Result String (List String)
index_columns [] types = ok []
index_columns (c ∷ cs) types = do
  i ← quoted "`" c
  is ← index_columns cs types
  ok (cat (i ∷ prefix_of types c ∷ []) ∷ is)

unfoldable pub mysql_index_columns : List String → Option (Dict String) → Result String String
unfolding get ident
mysql_index_columns columns types = do is ← index_columns columns types; ok (join ", " is)
