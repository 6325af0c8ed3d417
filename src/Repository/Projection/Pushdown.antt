-- ===== src/Repository/Projection/Pushdown.antt =====
-- Whether the fields that a projection loads are enough to compute it.
use mathlib.Core.List.{foldl}
use Prim.Native.Char.{code}
use object_repository.Base.{
  eqb, String, ◌≡◌, refl, ◌∙◌, ap, sym, Bool, true, false, ◌||◌, some, List, [], ◌∷◌, arith, All,
  All-split, All-weaken, ◌==◌, eq_refl, if◌then◌else◌,
}
use object_repository.Base.Dict.{get, get-empty}
use object_repository.Base.Names.{member, add, member-add}
use object_repository.Base.Fill.{fill, fill-none, get-foldl-put_present}
use object_repository.Json.{Value, JsonObject, obj, fields, entries-fields, or_null}
use object_repository.Json.Number.{Number}
use object_repository.Expressions.Path.{get_path, walk, split_dot, get_path-eq-walk}
use object_repository.Expressions.Plan.{ArithOp}
use object_repository.Expressions.Dates.{Calendar}
use object_repository.Expressions.Values.{
  ValueExpr, ValueExprs, evaluate, evaluate_all, to_finite, concat_texts, first_present,
}
use object_repository.Expressions.Wire.{serialize_value, serialize_values}
use object_repository.Backends.Memory.{pick_fields}
use object_repository.Repository.Projection.{
  Selection, Choice, walk_node, walk_nodes, value_field_paths, top_field, first_of, add_fields,
  collect, needed_fields,
}

mutual
  -- The expressions whose nodes `valueFieldPaths` walks: no comparison, condition or date.
  pub data IsWalked {N : Type 0} : ValueExpr N → Type 0 where
    field : (path : String) → IsWalked (ValueExpr.field path)
    lit : (v : Value N) → IsWalked (ValueExpr.lit v)
    arith_of :
        (op : ArithOp) {e : ValueExpr N} {es : ValueExprs N}
        → IsWalked e
        → AreWalked es
        → IsWalked (ValueExpr.arith op e es)
    neg : {e : ValueExpr N} → IsWalked e → IsWalked (ValueExpr.neg e)
    concat : {es : ValueExprs N} → AreWalked es → IsWalked (ValueExpr.concat es)
    coalesce : {es : ValueExprs N} → AreWalked es → IsWalked (ValueExpr.coalesce es)

  pub data AreWalked {N : Type 0} : ValueExprs N → Type 0 where
    nil : AreWalked ValueExprs.nil
    cons :
        {e : ValueExpr N} {es : ValueExprs N}
        → IsWalked e
        → AreWalked es
        → AreWalked (ValueExprs.cons e es)

module _ {N : Type 0} ⦃o : Number N⦄ ⦃c : Calendar N⦄ (r s : JsonObject N) where
  -- Two records agree on a path.
  abbrev Agree : String → Type 0
  Agree path = get_path r path ≡ get_path s path

  mutual
    unfolding walk_node serialize_value evaluate

    evaluate-Agree :
        (e : ValueExpr N)
        → IsWalked e
        → All Agree (walk_node (serialize_value e))
        → evaluate e r ≡ evaluate e s
    evaluate-Agree (ValueExpr.field path) (IsWalked.field _) h = ap or_null h.0
    evaluate-Agree (ValueExpr.lit v) (IsWalked.lit _) h = refl
    evaluate-Agree (ValueExpr.arith op e es) (IsWalked.arith_of _ w ws) h =
        let (first, others) =
          All-split Agree (walk_node (serialize_value e)) (walk_nodes (serialize_values es)) h in
        cc (evaluate-Agree e w first, evaluate_all-Agree es ws others)
    evaluate-Agree (ValueExpr.neg e) (IsWalked.neg w) h =
        ap (λ v. Value.num (o.neg (to_finite v))) (evaluate-Agree e w h)
    evaluate-Agree (ValueExpr.concat es) (IsWalked.concat ws) h =
        ap (λ vs. Value.str (concat_texts vs)) (evaluate_all-Agree es ws h)
    evaluate-Agree (ValueExpr.coalesce es) (IsWalked.coalesce ws) h =
        ap first_present (evaluate_all-Agree es ws h)
    evaluate-Agree (ValueExpr.vcompare _ _ _) w h = elim w [ ]
    evaluate-Agree (ValueExpr.vand _) w h = elim w [ ]
    evaluate-Agree (ValueExpr.vor _) w h = elim w [ ]
    evaluate-Agree (ValueExpr.vnot _) w h = elim w [ ]
    evaluate-Agree (ValueExpr.cond _ _ _) w h = elim w [ ]
    evaluate-Agree (ValueExpr.switch _ _) w h = elim w [ ]
    evaluate-Agree (ValueExpr.datepart _ _ _) w h = elim w [ ]
    evaluate-Agree (ValueExpr.datestring _ _ _) w h = elim w [ ]

    evaluate_all-Agree :
        (es : ValueExprs N)
        → AreWalked es
        → All Agree (walk_nodes (serialize_values es))
        → evaluate_all es r ≡ evaluate_all es s
    evaluate_all-Agree ValueExprs.nil AreWalked.nil h = refl
    evaluate_all-Agree (ValueExprs.cons e es) (AreWalked.cons w ws) h =
        let (first, others) =
          All-split Agree (walk_node (serialize_value e)) (walk_nodes (serialize_values es)) h in
        cc (evaluate-Agree e w first, evaluate_all-Agree es ws others)

split_dot-cons :
    (path : String) → (first : String) × (rest : List String) × (split_dot path ≡ first ∷ rest)
unfolding split_dot
split_dot-cons String.[] = ("", [], refl)
split_dot-cons (String.◌∷◌ c s) = by_char (eqb (code c) b'.') (split_dot s)
  where
    by_char :
        (is_dot : Bool) (ws : List String)
        → (first : String) × (rest : List String) × ((if is_dot
              then "" ∷ ws
              else (elim ws [ [] ↦ String.◌∷◌ c String.[] ∷ [] | w ∷ vs ↦ String.◌∷◌ c w ∷ vs ]))
            ≡ first ∷ rest)
    by_char true ws = ("", ws, refl)
    by_char false [] = (_, _, refl)
    by_char false (w ∷ vs) = (_, _, refl)

module _ {N : Type 0} where
  -- What a record keeps of the fields that are picked.
  get-pick_fields :
      (r : JsonObject N) (names : List String) (k : String)
      → member k names ≡ true
      → get (pick_fields r names) k ≡ get r k
  unfolding pick_fields
  get-pick_fields r names k h =
      get-foldl-put_present r [] ("uuid" ∷ names) k
      ∙ (ap (λ m. if m then fill (get r k) (get [] k) else get [] k)
            (among ("uuid" == k) (member k names) h)
          ∙ (ap (fill (get r k)) (get-empty k) ∙ fill-none (get r k)))
    where
      among : (a b : Bool) → b ≡ true → (a || b) ≡ true
      among a b e = ground arith

  get_path-top :
      (r s : JsonObject N) (path : String)
      → get r (top_field path) ≡ get s (top_field path)
      → get_path r path ≡ get_path s path
  unfolding walk
  get_path-top r s path h =
      let (first, rest, split) = split_dot-cons path in
      get_path-eq-walk r path
      ∙ (walked first rest (split_dot path) split h ∙ sym (get_path-eq-walk s path))
    where
      walked :
          (first : String) (rest ws : List String)
          → ws ≡ first ∷ rest
          → get r (first_of ws) ≡ get s (first_of ws)
          → walk (some (obj (fields r))) ws ≡ walk (some (obj (fields s))) ws
      walked first rest [] e h = cc
      walked first rest (w ∷ ws) e h =
          ap (λ v. walk v ws)
            (ap (λ d. get d w) (entries-fields r)
              ∙ (h ∙ sym (ap (λ d. get d w) (entries-fields s))))

-- A selection that computes a field by an expression.
pub data Computes {N : Type 0} (e : ValueExpr N) : Selection N → Type 0 where
  here :
      (name : String) (rest : Selection N)
      → Computes e (Selection.entry name (Choice.computed e) rest)
  later :
      (name : String) (choice : Choice N) (rest : Selection N)
      → Computes e rest
      → Computes e (Selection.entry name choice rest)

abbrev add_tops : List String → List String → List String
add_tops = foldl (λ fs path. add fs (top_field path))

add_tops-keeps :
    (fs paths : List String) (k : String) → member k fs ≡ true → member k (add_tops fs paths) ≡ true
add_tops-keeps fs [] k h = h
add_tops-keeps fs (p ∷ ps) k h =
    add_tops-keeps (add fs (top_field p)) ps k (ground (arith, member-add k (top_field p) fs))

add_tops-adds :
    (fs paths : List String) → All (λ p. member (top_field p) (add_tops fs paths) ≡ true) paths
add_tops-adds fs [] = tt
add_tops-adds fs (p ∷ ps) = (
  add_tops-keeps (add fs (top_field p)) ps (top_field p)
      (ground (arith, member-add (top_field p) (top_field p) fs, eq_refl (top_field p))),
  add_tops-adds (add fs (top_field p)) ps,
)

module _ {N : Type 0} where
  add_fields-keeps :
      (fs : List String) (name : String) (choice : Choice N) (k : String)
      → member k fs ≡ true
      → member k (add_fields fs name choice) ≡ true
  add_fields-keeps fs name Choice.whole k h = ground (arith, member-add k name fs)
  add_fields-keeps fs name (Choice.nested selection) k h = ground (arith, member-add k name fs)
  add_fields-keeps fs name (Choice.computed e) k h = add_tops-keeps fs (value_field_paths e) k h

  collect-keeps :
      (fs : List String) (selection : Selection N) (k : String)
      → member k fs ≡ true
      → member k (collect fs selection) ≡ true
  collect-keeps fs Selection.done k h = h
  collect-keeps fs (Selection.entry name choice rest) k h =
      collect-keeps (add_fields fs name choice) rest k (add_fields-keeps fs name choice k h)

  collect-Computes :
      (e : ValueExpr N) (fs : List String) (selection : Selection N)
      → Computes e selection
      → All (λ p. member (top_field p) (collect fs selection) ≡ true) (value_field_paths e)
  collect-Computes e fs selection (Computes.here name rest) =
      All-weaken (λ p h. collect-keeps (add_tops fs (value_field_paths e)) rest (top_field p) h)
        (value_field_paths e) (add_tops-adds fs (value_field_paths e))
  collect-Computes e fs selection (Computes.later name choice rest c) =
      collect-Computes e (add_fields fs name choice) rest c

module _ {N : Type 0} ⦃o : Number N⦄ ⦃c : Calendar N⦄ where
  -- A computed field of a selection has the same value on the row that a backend returns for the
  -- needed fields as on the whole record, if its expression has no comparison, condition or date.
  pub needed_fields-suffice :
      (selection : Selection N) (e : ValueExpr N) (r : JsonObject N)
      → Computes e selection
      → IsWalked e
      → evaluate e (pick_fields r (needed_fields selection)) ≡ evaluate e r
  unfolding needed_fields value_field_paths
  needed_fields-suffice selection e r within w =
      let picked = pick_fields r (needed_fields selection) in
      evaluate-Agree picked r e w (
        All-weaken
          (λ path h.
            get_path-top picked r path
              (get-pick_fields r (needed_fields selection) (top_field path) h))
          (value_field_paths e) (collect-Computes e [] selection within))
