-- ===== src/Backends/Sql/Engines.antt =====
-- Both dialects of backends/sql/dialect.ts keep what the compiler relies on.
use Prim.Native.Char.{code}
use object_repository.Base.{
  String, ◌≡◌, refl, Bool, true, false, List, [], ◌∷◌, arith, every, both, Result, ok,
}
use object_repository.Backends.Sql.Fragment.{holes, cat, join, total_holes, holes-cat, holes-join}
use object_repository.Backends.Sql.Dialect.{
  is_ident, is_word, is_letter, all_word, ident, idents, quoted,
}
use object_repository.Backends.Sql.Servers.{postgres, mysql}
use object_repository.Backends.Sql.Compile.Bound.{IsDialect}

holes-all_word : (s : String) → all_word s ≡ true → holes s ≡ 0
holes-all_word String.[] h = refl
holes-all_word (String.◌∷◌ c s) h =
    let (w, ws) = both (is_word (code c)) (all_word s) h in ground (arith, holes-all_word s ws)

holes-ident : (s : String) → is_ident s ≡ true → holes s ≡ 0
unfolding is_ident
holes-ident String.[] h = refl
holes-ident (String.◌∷◌ c s) h =
    let (w, ws) = both (is_letter (code c)) (all_word s) h in ground (arith, holes-all_word s ws)

abbrev Plain : Result String String → Type 0
Plain r = (c : String) × (r ≡ ok c) × (holes c ≡ 0)

quoted-ident :
    (q name : String) → is_ident name ≡ true → quoted q name ≡ ok (cat (q ∷ name ∷ q ∷ []))
unfolding ident
quoted-ident q name h = rw h refl

quoted-Plain : (q name : String) → holes q ≡ 0 → is_ident name ≡ true → Plain (quoted q name)
quoted-Plain q name k h = (
  cat (q ∷ name ∷ q ∷ []),
  quoted-ident q name h,
  omega (arith, holes-cat (q ∷ name ∷ q ∷ []), holes-ident name h),
)

idents-ok : (path : List String) → every is_ident path ≡ true → idents path ≡ ok path
unfolding ident
idents-ok [] h = refl
idents-ok (n ∷ ns) h =
    let (named, rest) = both (is_ident n) (every is_ident ns) h in
    rw (named, idents-ok ns rest) refl

total_holes-idents : (path : List String) → every is_ident path ≡ true → total_holes path ≡ 0
total_holes-idents [] h = refl
total_holes-idents (n ∷ ns) h =
    let (named, rest) = both (is_ident n) (every is_ident ns) h in
    omega (arith, holes-ident n named, total_holes-idents ns rest)

postgres_extract :
    (name : String) (path : List String)
    → is_ident name ≡ true
    → every is_ident path ≡ true
    → Plain (postgres.json_extract name path)
unfolding postgres
postgres_extract name path h k =
    let c = cat ("\"" ∷ name ∷ "\"" ∷ []) in
    (
      cat ("(" ∷ c ∷ "::jsonb #> '{" ∷ join "," path ∷ "}')" ∷ []),
      rw (quoted-ident "\"" name h, idents-ok path k) refl,
      omega (
        arith,
        holes-cat ("(" ∷ c ∷ "::jsonb #> '{" ∷ join "," path ∷ "}')" ∷ []),
        holes-cat ("\"" ∷ name ∷ "\"" ∷ []),
        holes-ident name h,
        holes-join "," path,
        total_holes-idents path k,
      ),
    )

mysql_extract :
    (name : String) (path : List String)
    → is_ident name ≡ true
    → every is_ident path ≡ true
    → Plain (mysql.json_extract name path)
unfolding mysql
mysql_extract name path h k =
    let c = cat ("`" ∷ name ∷ "`" ∷ []) in
    (
      cat ("JSON_EXTRACT(" ∷ c ∷ ", '$." ∷ join "." path ∷ "')" ∷ []),
      rw (quoted-ident "`" name h, idents-ok path k) refl,
      omega (
        arith,
        holes-cat ("JSON_EXTRACT(" ∷ c ∷ ", '$." ∷ join "." path ∷ "')" ∷ []),
        holes-cat ("`" ∷ name ∷ "`" ∷ []),
        holes-ident name h,
        holes-join "." path,
        total_holes-idents path k,
      ),
    )

postgres_nulls : (descending : Bool) → holes (postgres.nulls_order descending) ≡ 0
unfolding postgres
postgres_nulls true = refl
postgres_nulls false = refl

pub postgres-IsDialect : IsDialect postgres
unfolding postgres
postgres-IsDialect = record {
  column_ok = λ name h. quoted-Plain "\"" name refl h;
  extract_ok = postgres_extract;
  json_value_hole = refl;
  concat_strings =
      λ ss. omega (arith, holes-cat ("(" ∷ join " || " ss ∷ ")" ∷ []), holes-join " || " ss);
  like_hole = λ c. omega (arith, holes-cat (c ∷ " LIKE ?" ∷ []));
  truncate_keeps = λ s. omega (arith, holes-cat ("trunc(" ∷ s ∷ ")" ∷ []));
  nulls_plain = postgres_nulls;
}

pub mysql-IsDialect : IsDialect mysql
unfolding mysql
mysql-IsDialect = record {
  column_ok = λ name h. quoted-Plain "`" name refl h;
  extract_ok = mysql_extract;
  json_value_hole = refl;
  concat_strings =
      λ ss. omega (arith, holes-cat ("CONCAT(" ∷ join ", " ss ∷ ")" ∷ []), holes-join ", " ss);
  like_hole = λ c. omega (arith, holes-cat (c ∷ " LIKE BINARY ?" ∷ []));
  truncate_keeps = λ s. omega (arith, holes-cat ("truncate(" ∷ s ∷ ", 0)" ∷ []));
  nulls_plain = λ descending. refl;
}
