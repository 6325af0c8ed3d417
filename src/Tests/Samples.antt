-- ===== src/Tests/Samples.antt =====
-- Records, plans and hosts that the tests share.
use object_repository.Base.{String, ◌≡◌, ◌≢◌, ◌==◌, eq_iff, arith, false, Bool, none, List, [], ◌∷◌}
use object_repository.Base.Int.{ℤ, pos}
use object_repository.Json.{num, str, obj, JsonObject, fields}
use object_repository.Expressions.Compare.{Comparator}
use object_repository.Expressions.Plan.{ExpressionNode, SortKey, QueryPlan}
use object_repository.Expressions.Dates.{Calendar, ZonedFields}

abbrev epoch : ZonedFields ℤ
epoch = record {
  year = pos 1970;
  month = pos 1;
  day_of_month = pos 1;
  day_of_week = pos 4;
  hour = pos 0;
  minute = pos 0;
  second = pos 0;
}

-- A host that takes every instant for the epoch.
instance abbrev pub still : Calendar ℤ
still = record { utc = λ ms. epoch; zoned = λ name ms. epoch }

abbrev pub ada : JsonObject ℤ
ada =
    ("uuid", str "u1")
    ∷ ("name", str "ada")
    ∷ ("age", num (pos 36))
    ∷ ("home", obj (fields (("town", str "york") ∷ [])))
    ∷ []

abbrev pub bob : JsonObject ℤ
bob = ("uuid", str "u2") ∷ ("name", str "bob") ∷ ("age", num (pos 20)) ∷ []

abbrev pub adults : ExpressionNode ℤ
adults = ExpressionNode.compare "age" Comparator.ge (num (pos 18))

abbrev pub by_age : List SortKey
by_age = record { property = "age"; descending = Bool.false } ∷ []

abbrev pub all_adults : QueryPlan ℤ
all_adults = record {
  model = "person";
  condition = adults;
  order = by_age;
  paging = record { start = 0; stop = none };
  project = none;
}

-- two texts that the test tells apart
pub differ : (s t : String) → (s == t) ≡ false → s ≢ t
differ s t h = ground (arith, eq_iff s t)
