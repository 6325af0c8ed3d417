-- ===== src/Backends/Copy.antt =====
-- `copyBackend` of backends/util/copy.ts for one model: the batches that are saved and persisted, in
-- their order. The source is a function that answers plans; the target, the progress hook and the sums
-- over the models are left out.
pub mod Complete
use object_repository.Base.{
  ℕ, zero, suc, String, Bool, true, false, Option, none, some, List, [], ◌∷◌, length, last?, ltb,
  if◌then◌else◌,
}
use object_repository.Json.{str, JsonObject}
use object_repository.Json.Number.{Number}
use object_repository.Expressions.Compare.{Comparator}
use object_repository.Expressions.Nodes.{Expression, Expressions}
use object_repository.Expressions.Plan.{ExpressionNode, QueryPlan}
use object_repository.Expressions.Wire.{parse, serialize}
use object_repository.Backends.Contract.{uuid_of}

module _ {N : Type 0} where
  -- the filter of the next page: `and(parse(baseWhere), gt("uuid", after))`
  abbrev pub past : ExpressionNode N → Option String → ExpressionNode N
  unfolding parse serialize
  past base none = base
  past base (some after) = serialize (
      Expression.and (
        Expressions.cons (parse base)
          (Expressions.cons (Expression.compare "uuid" Comparator.gt (str after)) Expressions.nil)))

  unfoldable pub copy_plan : String → ExpressionNode N → ℕ → Option String → QueryPlan N
  unfolding past
  copy_plan model base batch after = record {
    model = model;
    condition = past base after;
    order = record { property = "uuid"; descending = false } ∷ [];
    paging = record { start = 0; stop = some batch };
    project = none;
  }

  abbrev pub keep_one : Option (JsonObject N) → List (JsonObject N) → List (JsonObject N)
  keep_one none rest = rest
  keep_one (some r) rest = r ∷ rest

  -- the records of a page that are written
  unfoldable pub written :
      (JsonObject N → Option (JsonObject N)) → List (JsonObject N) → List (JsonObject N)
  written transform [] = []
  written transform (row ∷ rows) = keep_one (transform row) (written transform rows)

  -- a batch is flushed if it has a record
  abbrev pub flush : List (JsonObject N) → List (List (JsonObject N)) → List (List (JsonObject N))
  flush [] batches = batches
  flush (r ∷ rs) batches = (r ∷ rs) ∷ batches

  abbrev pub flushed :
      List (JsonObject N)
      → Option (List (List (JsonObject N)))
      → Option (List (List (JsonObject N)))
  flushed rs none = none
  flushed rs (some batches) = some (flush rs batches)

  -- the rest of the loop after a page that was read: an empty page ends it, and so does a short one
  abbrev pub page_step :
      (JsonObject N → Option (JsonObject N))
      → ℕ
      → List (JsonObject N)
      → Option (List (List (JsonObject N)))
      → Option (List (List (JsonObject N)))
  unfolding written
  page_step transform batch [] rest = some []
  page_step transform batch (row ∷ more) rest =
      flushed (written transform (row ∷ more))
        (if ltb (length (row ∷ more)) batch then some [] else rest)

module _ {N : Type 0} ⦃o : Number N⦄ where
  abbrev pub last_uuid : List (JsonObject N) → Option String
  unfolding uuid_of
  last_uuid rows = elim (last? rows) [ none ↦ none | some r ↦ some (uuid_of r) ]

  -- the loop over the pages: none where the fuel is used up
  unfoldable pub copy_loop :
      ℕ
      → (QueryPlan N → List (JsonObject N))
      → (JsonObject N → Option (JsonObject N))
      → String
      → ExpressionNode N
      → ℕ
      → Option String
      → Option (List (List (JsonObject N)))
  unfolding copy_plan page_step last_uuid
  copy_loop zero query transform model base batch after = none
  copy_loop (suc fuel) query transform model base batch after =
      let rows = query (copy_plan model base batch after) in
      let rest = copy_loop fuel query transform model base batch (last_uuid rows) in
      page_step transform batch rows rest
