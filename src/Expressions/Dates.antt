-- ===== src/Expressions/Dates.antt =====
-- `zonedFields`, `formatDate` and `pad2` of expressions/values.ts. What `Date` and `Intl` answer is
-- the calendar of the host, an interface.
use Prim.Native.Char.{Char, code}
use Prim.Native.String.{◌++◌}
use object_repository.Base.{String, Option, none, some, eqb, ◌==◌, if◌then◌else◌}
use object_repository.Base.Text.Decimal.{pad_start}
use object_repository.Json.Number.{Number}
use object_repository.Expressions.Plan.{
  DatePart, year, month, day_of_month, day_of_week, hour, minute, second,
}

-- `ZonedFields`
pub record ZonedFields (N : Type 0) : Type 0 where
  pub year : N
  pub month : N
  pub day_of_month : N
  pub day_of_week : N
  pub hour : N
  pub minute : N
  pub second : N

-- The wall clock of an instant in UTC, and in a named time zone.
pub record Calendar (N : Type 0) : Type 0 where
  pub utc : N → ZonedFields N
  pub zoned : String → N → ZonedFields N

module _ {N : Type 0} ⦃c : Calendar N⦄ where
  -- an absent or empty time zone is UTC
  unfoldable pub zoned_fields : N → Option String → ZonedFields N
  zoned_fields ms none = c.utc ms
  zoned_fields ms (some zone) = if zone == "" then c.utc ms else c.zoned zone ms

abbrev pub part_of : {N : Type 0} → DatePart → ZonedFields N → N
part_of year f = f.year
part_of month f = f.month
part_of day_of_month f = f.day_of_month
part_of day_of_week f = f.day_of_week
part_of hour f = f.hour
part_of minute f = f.minute
part_of second f = f.second

abbrev spliced : Option String → String → String → String
spliced none tail plain = plain
spliced (some text) tail plain = text ++ tail

module _ {N : Type 0} ⦃o : Number N⦄ where
  -- the token after a `%`, if it is one of `%YmdHMS`
  unfoldable pub token : ZonedFields N → Char → Option String
  unfolding pad_start
  token f ch =
      if eqb (code ch) b'%'
      then some "%"
      else if eqb (code ch) b'Y'
      then some (pad_start 4 (o.to_text f.year))
      else if eqb (code ch) b'm'
      then some (pad_start 2 (o.to_text f.month))
      else if eqb (code ch) b'd'
      then some (pad_start 2 (o.to_text f.day_of_month))
      else if eqb (code ch) b'H'
      then some (pad_start 2 (o.to_text f.hour))
      else if eqb (code ch) b'M'
      then some (pad_start 2 (o.to_text f.minute))
      else if eqb (code ch) b'S'
      then some (pad_start 2 (o.to_text f.second))
      else none

  -- `format.replace(/%[%YmdHMS]/g, …)`, from left to right
  unfoldable pub format_date : ZonedFields N → String → String
  unfolding token
  format_date f String.[] = String.[]
  format_date f (String.◌∷◌ c String.[]) = String.◌∷◌ c String.[]
  format_date f (String.◌∷◌ c (String.◌∷◌ d s)) =
      let tail = format_date f s in
      let plain = String.◌∷◌ c (format_date f (String.◌∷◌ d s)) in
      if eqb (code c) b'%' then spliced (token f d) tail plain else plain
