-- ===== src/Backends/Sql/Compile/Where.antt =====
-- `compileWhere` of backends/sql/compile.ts.
use Prim.Native.Char.{code}
use object_repository.Base.{
  ℕ, String, Bool, true, false, not, ◌&&◌, ◌||◌, Option, none, some, List, [], ◌∷◌, map, eqb, every,
  ◌==◌, is_some, if◌then◌else◌, ok, ◌>>=◌,
}
use object_repository.Base.Dict.{Dict, get}
use object_repository.Json.{Value, bool, num, str}
use object_repository.Json.Number.{Number}
use object_repository.Json.Stringify.{stringify}
use object_repository.Expressions.Path.{split_dot}
use object_repository.Expressions.Compare.{Comparator, eq, ne}
use object_repository.Expressions.Plan.{
  TextMode, prefix, suffix, substring, ExpressionNode, ExpressionNodes,
}
use object_repository.Backends.Sql.Fragment.{cat, join}
use object_repository.Backends.Sql.Dialect.{Dialect, is_ident, overflow_column}
use object_repository.Backends.Sql.Compile.{
  comparator_text, Compiled, Collected, pushed, collect, with_all, with_frag, with_both, compared,
  connected, compile_value,
}

-- the model's columns with their stored types, if they are known
abbrev pub Columns : Type 0
Columns = Option (Dict String)

abbrev pub kind_of : Columns → String → Option String
unfolding get
kind_of none name = none
kind_of (some columns) name = get columns name

-- a JSON value in a column
pub record JsonSource : Type 0 where
  pub column : String
  pub path : List String

abbrev pub source_at : Option String → String → List String → Option JsonSource
source_at (some kind) head rest =
    if kind == "embedded" then some (record { column = head; path = rest }) else none
source_at none head rest = some (record { column = overflow_column; path = head ∷ rest })

unfoldable abbrev pub source_of : Dict String → List String → Option JsonSource
unfolding get
source_of columns [] = none
source_of columns (head ∷ rest) =
    if head == "uuid" then none else source_at (get columns head) head rest

-- `jsonSource`
unfoldable pub json_source : String → Columns → Option JsonSource
unfolding split_dot is_ident get
json_source property none = none
json_source property (some columns) =
    if every is_ident (split_dot property) then source_of columns (split_dot property) else none

-- `LIKE_META.test(value)`
abbrev is_meta : ℕ → Bool
is_meta c = eqb c b'%' || eqb c b'_' || eqb c 92

unfoldable pub has_meta : String → Bool
has_meta String.[] = false
has_meta (String.◌∷◌ c s) = is_meta (code c) || has_meta s

abbrev pub pattern_of : TextMode → String → String
pattern_of prefix value = cat (value ∷ "%" ∷ [])
pattern_of suffix value = cat ("%" ∷ value ∷ [])
pattern_of substring value = cat ("%" ∷ value ∷ "%" ∷ [])

abbrev pub is_text_kind : Option String → Bool
is_text_kind none = false
is_text_kind (some kind) = kind == "text"

abbrev pub is_declared : Columns → String → Bool
unfolding get
is_declared none property = true
is_declared (some columns) property = property == "uuid" || is_some (get columns property)

abbrev pub is_equality : Comparator → Bool
is_equality eq = true
is_equality op = false

abbrev pub is_inequality : Comparator → Bool
is_inequality ne = true
is_inequality op = false

module _ {N : Type 0} where
  abbrev pub is_scalar : Value N → Bool
  is_scalar (str s) = true
  is_scalar (num n) = true
  is_scalar (bool b) = true
  is_scalar v = false

  abbrev pub is_number : Value N → Bool
  is_number (num n) = true
  is_number v = false

  abbrev pub is_string : Value N → Bool
  is_string (str s) = true
  is_string v = false

  abbrev pub is_bounds : Value N → Value N → Bool
  is_bounds lower upper = is_number lower && is_number upper

  abbrev pub marks : String → List (Value N) → List String
  marks mark values = map (λ v. mark) values

module _ {N : Type 0} (d : Dialect) where
  abbrev pub compile_between : String → Value N → Value N → Compiled N
  compile_between property lower upper =
      if not (is_bounds lower upper) || not (is_ident property)
      then ok none
      else (d.column property >>= λ c.
          pushed (cat (c ∷ " BETWEEN ? AND ?" ∷ [])) (lower ∷ upper ∷ []))

module _ {N : Type 0} (d : Dialect) (columns : Columns) where
  -- `compileTextMatch`
  unfoldable pub compile_text_match : String → String → TextMode → Bool → Compiled N
  unfolding is_ident has_meta
  compile_text_match property value mode case_insensitive =
      if case_insensitive
        || not (is_ident property)
        || not (is_text_kind (kind_of columns property))
      then ok none
      else if has_meta value
      then ok none
      else (d.column property >>= λ c. pushed (d.like_match c) (str (pattern_of mode value) ∷ []))

  -- `compileIsNull`
  unfoldable pub compile_is_null : String → Bool → Compiled N
  unfolding is_ident
  compile_is_null property negated =
      if not (is_ident property)
      then ok none
      else if not (is_declared columns property)
      then ok none
      else (d.column property >>= λ c.
          pushed (cat (c ∷ " IS " ∷ (if negated then "NOT NULL" else "NULL") ∷ [])) [])

module _ {N : Type 0} ⦃o : Number N⦄ (d : Dialect) where
  abbrev pub compare_json_column : JsonSource → Comparator → Value N → Compiled N
  compare_json_column source op value =
      if not (is_equality op) || not (is_scalar value)
      then ok none
      else (d.json_extract source.column source.path >>= λ e.
          pushed (cat (e ∷ " = " ∷ d.json_value ∷ [])) (str (stringify value) ∷ []))

  abbrev pub compare_column : String → Comparator → Value N → Compiled N
  compare_column property op value =
      if not (is_ident property)
      then ok none
      else if is_number value || is_string value
      then (d.column property >>= λ c.
          if is_inequality op
          then pushed (cat ("(" ∷ c ∷ " " ∷ comparator_text op ∷ " ? OR " ∷ c ∷ " IS NULL)" ∷ []))
              (value ∷ [])
          else pushed (cat (c ∷ " " ∷ comparator_text op ∷ " ?" ∷ [])) (value ∷ []))
      else ok none

  abbrev pub compare_at : String → Comparator → Value N → Option JsonSource → Compiled N
  compare_at property op value (some source) = compare_json_column source op value
  compare_at property op value none = compare_column property op value

  abbrev pub in_json_column : JsonSource → Bool → List (Value N) → Compiled N
  in_json_column source negated [] = if negated then ok none else pushed "0=1" []
  in_json_column source negated (v ∷ vs) =
      if negated || not (every is_scalar (v ∷ vs))
      then ok none
      else (d.json_extract source.column source.path >>= λ e.
          pushed (cat (e ∷ " IN (" ∷ join ", " (marks d.json_value (v ∷ vs)) ∷ ")" ∷ []))
            (map (λ w. str (stringify w)) (v ∷ vs)))

  abbrev pub in_column : String → Bool → List (Value N) → Compiled N
  in_column property negated [] = pushed (if negated then "1=1" else "0=1") []
  in_column property negated (v ∷ vs) =
      if not (every is_number (v ∷ vs)) && not (every is_string (v ∷ vs))
      then ok none
      else (d.column property >>= λ c.
          let listed = join ", " (marks "?" (v ∷ vs)) in
          if negated
          then pushed (cat ("(" ∷ c ∷ " IS NULL OR " ∷ c ∷ " NOT IN (" ∷ listed ∷ "))" ∷ []))
              (v ∷ vs)
          else pushed (cat (c ∷ " IN (" ∷ listed ∷ ")" ∷ [])) (v ∷ vs))

  abbrev pub in_at : String → Bool → List (Value N) → Option JsonSource → Compiled N
  in_at property negated values (some source) = in_json_column source negated values
  in_at property negated values none =
      if not (is_ident property) then ok none else in_column property negated values

module _ {N : Type 0} ⦃o : Number N⦄ (d : Dialect) (columns : Columns) where
  -- `compileCompare`
  unfoldable pub compile_compare : String → Comparator → Value N → Compiled N
  unfolding json_source is_ident stringify
  compile_compare property op value = compare_at d property op value (json_source property columns)

  -- `compileIn`; `negated` for "nin"
  unfoldable pub compile_in : String → Bool → List (Value N) → Compiled N
  unfolding json_source is_ident stringify
  compile_in property negated values =
      in_at d property negated values (json_source property columns)

  unfoldable mutual
    unfolding compile_text_match compile_is_null compile_compare compile_in compile_value is_ident

    -- `compileWhere`
    pub compile_where : ExpressionNode N → Compiled N
    compile_where ExpressionNode.all = pushed "1=1" []
    compile_where (ExpressionNode.and es) = with_all (compile_wheres es) (connected "1=1" " AND ")
    compile_where (ExpressionNode.or es) = with_all (compile_wheres es) (connected "0=1" " OR ")
    compile_where (ExpressionNode.not e) =
        with_frag (compile_where e) (λ i. pushed (cat ("NOT (" ∷ i.sql ∷ ")" ∷ [])) i.params)
    compile_where (ExpressionNode.compare property op value) = compile_compare property op value
    compile_where (ExpressionNode.in_list property values) = compile_in property false values
    compile_where (ExpressionNode.nin property values) = compile_in property true values
    compile_where (ExpressionNode.between property lower upper) =
        compile_between d property lower upper
    compile_where (ExpressionNode.is_null property negated) =
        compile_is_null d columns property negated
    compile_where (ExpressionNode.textmatch property value mode case_insensitive) =
        compile_text_match d columns property value mode case_insensitive
    compile_where (ExpressionNode.expr left op right) =
        with_both (compile_value d left) (compile_value d right) (compared op)
    compile_where (ExpressionNode.contains property value) = ok none
    compile_where (ExpressionNode.exists property should_exist) = ok none
    compile_where (ExpressionNode.size property n) = ok none
    compile_where (ExpressionNode.any property e) = ok none

    pub compile_wheres : ExpressionNodes N → Collected N
    compile_wheres ExpressionNodes.nil = ok (some [])
    compile_wheres (ExpressionNodes.cons e es) = collect (compile_where e) (compile_wheres es)
