-- ===== src/Repository/Collection.antt =====
-- repository/QueryCollection.ts: the builder of query plans and the pages of a keyset traversal. The
-- records are in their stored form, so that `encodeKey` is the identity, and the cursor is the value
-- whose JSON text the source hands out.
pub mod Keyset
pub mod Sorted
pub mod Ties
pub mod Cut
pub mod Walk
use object_repository.Base.{
  ℕ, suc, ◌+◌, String, Bool, true, false, Option, none, some, List, [], ◌∷◌, ◌++◌, map, length,
  take, last?, ltb, eqb, ◌==◌, if◌then◌else◌,
}
use Prim.Native.String as NS
use object_repository.Base.Dict.{get}
use object_repository.Json.{Value, null, str, or_null, JsonObject}
use object_repository.Json.Number.{Number}
use object_repository.Expressions.Compare.{Comparator}
use object_repository.Expressions.Nodes.{Expression, Expressions}
use object_repository.Expressions.Plan.{ExpressionNode, SortKey, Paging, QueryPlan}
use object_repository.Expressions.Wire.{serialize}
use object_repository.Backends.Contract.{uuid_of}

-- the fields of `QueryCollection`, `source` aside
pub record QueryCollection (N : Type 0) : Type 0 where
  pub expression : Expression N
  pub order : List SortKey
  pub paging : Paging
  pub include_deleted : Bool

pub record Cursor (N : Type 0) : Type 0 where
  pub ordering : String
  pub bounds : List (Value N)

-- `Page`
pub record Page (N : Type 0) : Type 0 where
  pub items : List (JsonObject N)
  pub next_cursor : Option (Cursor N)
  pub has_more : Bool

abbrev pub direction : Bool → String
direction true = "desc"
direction false = "asc"

abbrev pub sign_key : SortKey → String
sign_key key = NS.◌++◌ key.property (NS.◌++◌ ":" (direction key.descending))

-- the signature of an ordering
unfoldable pub signature : List SortKey → String
signature [] = ""
signature (key ∷ []) = sign_key key
signature (key ∷ next ∷ keys) = NS.◌++◌ (sign_key key) (NS.◌++◌ "," (signature (next ∷ keys)))

-- the declared keys and the tiebreaker
abbrev pub effective_keys : List SortKey → List SortKey
effective_keys order = order ++ record { property = "uuid"; descending = false } ∷ []

abbrev pub ends_before : Option ℕ → ℕ → Bool
ends_before none start = false
ends_before (some stop) start = ltb stop start

module _ {N : Type 0} where
  abbrev pub both : Expression N → Expression N → Expression N
  both a b = Expression.and (Expressions.cons a (Expressions.cons b Expressions.nil))

  abbrev pub either : Expression N → Expression N → Expression N
  either a b = Expression.or (Expressions.cons a (Expressions.cons b Expressions.nil))

  -- `where.serialize().type === "all" ? more : and(where, more)`
  abbrev pub narrowed : Expression N → Expression N → Expression N
  narrowed Expression.all more = more
  narrowed condition more = both condition more

  -- `filter(expression)`
  unfoldable pub filter_by : QueryCollection N → Expression N → QueryCollection N
  filter_by q e = record q { expression = narrowed q.expression e }

  -- `includeDeleted()`
  unfoldable pub with_deleted : QueryCollection N → QueryCollection N
  with_deleted q = record q { include_deleted = true }

  -- `sort(property, descending)`
  unfoldable pub sort_by : QueryCollection N → String → Bool → QueryCollection N
  sort_by q property descending = record q {
    order = q.order ++ record { property = property; descending = descending } ∷ [];
  }

  -- `slice(start, end)`: none where it throws
  unfoldable pub slice : QueryCollection N → ℕ → Option ℕ → Option (QueryCollection N)
  slice q start stop =
      if ends_before stop start
      then none
      else some (record q { paging = record { start = start; stop = stop } })

  -- `toPlan()`
  unfoldable pub to_plan : String → QueryCollection N → QueryPlan N
  unfolding serialize
  to_plan model q = record {
    model = model;
    condition = serialize q.expression;
    order = q.order;
    paging = q.paging;
    project = none;
  }

  abbrev pub strictly_after : SortKey → Value N → Expression N
  strictly_after key bound =
      Expression.compare key.property (if key.descending then Comparator.lt else Comparator.gt)
        bound

  abbrev pub first_bound : List (Value N) → Value N
  first_bound [] = null
  first_bound (v ∷ vs) = v

  abbrev pub more_bounds : List (Value N) → List (Value N)
  more_bounds [] = []
  more_bounds (v ∷ vs) = vs

  -- `keysetAfter`: there is always a key
  unfoldable pub keyset_after : List SortKey → List (Value N) → Expression N
  keyset_after [] bounds = Expression.all
  keyset_after (key ∷ []) bounds = strictly_after key (first_bound bounds)
  keyset_after (key ∷ next ∷ keys) bounds = either (strictly_after key (first_bound bounds)) (
      both (Expression.compare key.property Comparator.eq (first_bound bounds))
        (keyset_after (next ∷ keys) (more_bounds bounds)))

module _ {N : Type 0} ⦃o : Number N⦄ where
  -- `keyValue`, as it comes back from the cursor's JSON
  unfoldable pub key_value : JsonObject N → String → Value N
  unfolding get uuid_of
  key_value r property = if property == "uuid" then str (uuid_of r) else or_null (get r property)

  abbrev pub cursor_of : List SortKey → JsonObject N → Cursor N
  unfolding key_value signature
  cursor_of keys r = record {
    ordering = signature keys;
    bounds = map (λ key. key_value r key.property) keys;
  }

  abbrev pub next_of : List SortKey → Bool → Option (JsonObject N) → Option (Cursor N)
  unfolding cursor_of
  next_of keys true (some r) = some (cursor_of keys r)
  next_of keys more last = none

  -- the page of what was fetched with one record more than the limit
  unfoldable pub page_of : List SortKey → ℕ → List (JsonObject N) → Page N
  unfolding next_of
  page_of keys limit fetched =
      let has_more = ltb limit (length fetched) in
      let items = if has_more then take limit fetched else fetched in
      record {
        items = items;
        next_cursor = next_of keys has_more (last? items);
        has_more = has_more;
      }

  abbrev pub seek_plan : String → Expression N → List SortKey → ℕ → QueryPlan N
  unfolding serialize
  seek_plan model condition keys limit = record {
    model = model;
    condition = serialize condition;
    order = keys;
    paging = record { start = 0; stop = some (limit + 1) };
    project = none;
  }

  -- the condition of a page, none where the cursor is of another ordering
  abbrev pub seek_condition :
      Expression N → List SortKey → Option (Cursor N) → Option (Expression N)
  unfolding keyset_after signature
  seek_condition condition keys none = some condition
  seek_condition condition keys (some cursor) =
      if cursor.ordering == signature keys
      then some (narrowed condition (keyset_after keys cursor.bounds))
      else none

  -- `page({ limit, after })`: none where it throws
  unfoldable pub page :
      String
      → (QueryPlan N → List (JsonObject N))
      → QueryCollection N
      → ℕ
      → Option (Cursor N)
      → Option (Page N)
  unfolding seek_condition seek_plan page_of
  page model run q limit after =
      let keys = effective_keys q.order in
      if eqb limit 0 then none else elim (seek_condition q.expression keys after) [
        | none ↦ none
        | some condition ↦ some (page_of keys limit (run (seek_plan model condition keys limit)))
      ]
