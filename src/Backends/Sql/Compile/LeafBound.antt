-- ===== src/Backends/Sql/Compile/LeafBound.antt =====
-- What compiled text matches, null tests and bounds hold a place for, and which columns and JSON
-- sources they name (backends/sql/compile.ts).
use mathlib.Core.Path.{subst}
use object_repository.Base.{
  both, ℕ, String, ◌≡◌, refl, Bool, true, false, not, ◌||◌, Option, none, some, List, [], ◌∷◌, map,
  arith, length, Bool-cases, inl, inr, if◌then◌else◌, ok, ◌>>=◌, every, ◌==◌,
}
use object_repository.Base.Dict.{Dict, get}
use object_repository.Json.{Value}
use object_repository.Expressions.Path.{split_dot}
use object_repository.Expressions.Plan.{TextMode}
use object_repository.Backends.Sql.Fragment.{holes, cat, total_holes, holes-cat}
use object_repository.Backends.Sql.Dialect.{Dialect, is_ident, overflow_column}
use object_repository.Backends.Sql.Compile.{Compiled}
use object_repository.Backends.Sql.Compile.Bound.{IsDialect, Compiles}
use object_repository.Backends.Sql.Compile.Where.{
  Columns, JsonSource, source_at, source_of, json_source, kind_of, has_meta, is_text_kind,
  is_declared, is_bounds, marks, compile_text_match, compile_is_null, compile_between,
}

abbrev pub HasIdents : JsonSource → Type 0
HasIdents source = (is_ident source.column ≡ true) × (every is_ident source.path ≡ true)

unwrapped : (a b : JsonSource) → Option.some a ≡ some b → HasIdents a → HasIdents b
unwrapped a b e h = let p : a ≡ b = cc in subst HasIdents p h

source_at-HasIdents :
    (kind : Option String) (head : String) (rest : List String) (source : JsonSource)
    → is_ident head ≡ true
    → every is_ident rest ≡ true
    → source_at kind head rest ≡ some source
    → HasIdents source
unfolding is_ident
source_at-HasIdents none head rest source h k e =
    unwrapped (record { column = overflow_column; path = head ∷ rest }) source e (refl, rw h k)
source_at-HasIdents (some kind) head rest source h k e = by_kind (kind == "embedded") e
  where
    by_kind :
        (b : Bool)
        → (if b then some (record { column = head; path = rest }) else none) ≡ some source
        → HasIdents source
    by_kind true e = unwrapped (record { column = head; path = rest }) source e (h, k)
    by_kind false e = absurd (ground arith)

source_of-HasIdents :
    (columns : Dict String) (segments : List String) (source : JsonSource)
    → every is_ident segments ≡ true
    → source_of columns segments ≡ some source
    → HasIdents source
unfolding source_of
source_of-HasIdents columns [] source h e = absurd (ground arith)
source_of-HasIdents columns (head ∷ rest) source h e = by_head (head == "uuid") e
  where
    by_head :
        (b : Bool)
        → (if b then none else source_at (get columns head) head rest) ≡ some source
        → HasIdents source
    by_head true e = absurd (ground arith)
    by_head false e =
        let named = both (is_ident head) (every is_ident rest) h in
        source_at-HasIdents (get columns head) head rest source named.0 named.1 e

pub json_source-HasIdents :
    (property : String) (columns : Columns) (source : JsonSource)
    → json_source property columns ≡ some source
    → HasIdents source
unfolding json_source
json_source-HasIdents property none source e = absurd (ground arith)
json_source-HasIdents property (some columns) source e =
    elim (Bool-cases (every is_ident (split_dot property))) [
      | inl named ↦ source_of-HasIdents columns (split_dot property) source named (ground arith)
      | inr other ↦ absurd (ground arith)
    ]

-- Behind a guard.
pub guarded :
    {N : Type 0} (b : Bool) (r : Compiled N)
    → (b ≡ false → Compiles r)
    → Compiles (if b then ok none else r)
guarded true r step = tt
guarded false r step = step refl

module _ (d : Dialect) (laws : IsDialect d) where
  pub column-Compiles :
      {N : Type 0} (property : String) (k : String → Compiled N)
      → is_ident property ≡ true
      → ((c : String) → holes c ≡ 0 → Compiles (k c))
      → Compiles (d.column property >>= k)
  column-Compiles property k named step =
      let (c, e, h) = laws.column_ok property named in rw e (step c h)

  pub extract-Compiles :
      {N : Type 0} (source : JsonSource) (k : String → Compiled N)
      → HasIdents source
      → ((c : String) → holes c ≡ 0 → Compiles (k c))
      → Compiles (d.json_extract source.column source.path >>= k)
  extract-Compiles source k named step =
      let (c, e, h) = laws.extract_ok source.column source.path named.0 named.1 in rw e (step c h)

  pub text_match-Compiles :
      (N : Type 0) (columns : Columns) (property value : String) (mode : TextMode)
      (case_insensitive : Bool)
      → Compiles {N = N} (compile_text_match d columns property value mode case_insensitive)
  unfolding compile_text_match
  text_match-Compiles N columns property value mode case_insensitive =
      guarded
        (case_insensitive
          || not (is_ident property)
          || not (is_text_kind (kind_of columns property)))
        _
        (λ open_. guarded (has_meta value) _ (λ plain.
          column-Compiles property _ (ground arith) (λ c h. omega (arith, laws.like_hole c))))

  pub is_null-Compiles :
      (N : Type 0) (columns : Columns) (property : String) (negated : Bool)
      → Compiles {N = N} (compile_is_null d columns property negated)
  unfolding compile_is_null
  is_null-Compiles N columns property negated = guarded (not (is_ident property)) _ (λ named.
      guarded (not (is_declared columns property)) _
        (λ declared. column-Compiles property _ (ground arith) (by_word negated)))
    where
      by_word :
          (b : Bool) (c : String)
          → holes c ≡ 0
          → holes (cat (c ∷ " IS " ∷ (if b then "NOT NULL" else "NULL") ∷ [])) ≡ 0
      by_word true c h = omega (arith, holes-cat (c ∷ " IS " ∷ "NOT NULL" ∷ []))
      by_word false c h = omega (arith, holes-cat (c ∷ " IS " ∷ "NULL" ∷ []))

  pub between-Compiles :
      {N : Type 0} (property : String) (lower upper : Value N)
      → Compiles (compile_between d property lower upper)
  between-Compiles property lower upper =
      guarded (not (is_bounds lower upper) || not (is_ident property)) _ (λ named.
        column-Compiles property _ (ground arith)
          (λ c h. omega (arith, holes-cat (c ∷ " BETWEEN ? AND ?" ∷ []))))

module _ {N : Type 0} where
  pub total_holes-marks :
      (mark : String) (n : ℕ) (vs : List (Value N))
      → holes mark ≡ 1
      → total_holes (marks mark vs) ≡ length vs
  total_holes-marks mark n [] h = refl
  total_holes-marks mark n (v ∷ vs) h = omega (arith, total_holes-marks mark n vs h)

  pub length-map : (f : Value N → Value N) (vs : List (Value N)) → length (map f vs) ≡ length vs
  length-map f [] = refl
  length-map f (v ∷ vs) = omega (arith, length-map f vs)
