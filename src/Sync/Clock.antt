-- ===== src/Sync/Clock.antt =====
-- sync/hlc.ts. The clock's fields and the two parts of a stamp are whole numbers; the time that
-- `Date.now()` answers is an argument.
pub mod Causal
use Prim.Native.String.{◌++◌}
use object_repository.Base.{
  ℕ, suc, ◌+◌, String, Option, none, some, List, [], ◌∷◌, max, ltb, eqb, ◌&&◌, if◌then◌else◌,
}
use object_repository.Base.Text.{units}
use object_repository.Base.Text.Decimal.{decimal, pad_start, number_of}

-- `HybridLogicalClock`
pub record Clock : Type 0 where
  pub last_physical : ℕ
  pub counter : ℕ
  pub node_id : String

abbrev pub physical_width : ℕ
physical_width = 15

abbrev pub counter_width : ℕ
counter_width = 6

unfoldable pub format : ℕ → ℕ → String → String
format physical counter node_id =
    pad_start physical_width (decimal physical)
    ++ String.◌∷◌ ":" (pad_start counter_width (decimal counter) ++ String.◌∷◌ ":" node_id)

-- The text up to the first colon, and what follows the colon if there is one.
abbrev pub before_colon : List ℕ → List ℕ
before_colon [] = []
before_colon (c ∷ cs) = if eqb c 58 then [] else c ∷ before_colon cs

abbrev pub after_colon : List ℕ → Option (List ℕ)
after_colon [] = none
after_colon (c ∷ cs) = if eqb c 58 then some cs else after_colon cs

-- `timestamp.split(":")` and `Number` of its two first parts, none where the part is absent or not a
-- number. It agrees with the code on parts of digits, empty parts, absent ones and those that
-- `Number` does not read; a sign, a fraction, an exponent or blanks, which `Number` reads too, are
-- outside of the model, whose readings are natural numbers.
unfoldable pub parse : String → Option ℕ × Option ℕ
parse timestamp = (
  number_of (before_colon (units timestamp)),
  elim (after_colon (units timestamp)) [ none ↦ none | some rest ↦ number_of (before_colon rest) ],
)

-- the clock after `now()` at a time, and the stamp
unfoldable pub now : ℕ → Clock → Clock × String
unfolding format
now physical c =
    let after =
      if ltb c.last_physical physical
      then record c { last_physical = physical; counter = 0 }
      else record c { counter = c.counter + 1 } in
    (after, format after.last_physical after.counter after.node_id)

-- the clock after a finite stamp of another replica
unfoldable pub advance : ℕ → ℕ → ℕ → Clock → Clock
advance physical remote_physical remote_counter c =
    let latest = max physical (max c.last_physical remote_physical) in
    record c {
      last_physical = latest;
      counter =
          if eqb latest c.last_physical && eqb latest remote_physical
          then max c.counter remote_counter + 1
          else if eqb latest c.last_physical
          then c.counter + 1
          else if eqb latest remote_physical
          then remote_counter + 1
          else 0;
    }

unfoldable pub advance_if : ℕ → Option ℕ × Option ℕ → Clock → Clock
unfolding advance
advance_if physical (some remote_physical, some remote_counter) c =
    advance physical remote_physical remote_counter c
advance_if physical (some remote_physical, none) c = c
advance_if physical (none, k) c = c

-- `update(remote)` at a time: a stamp that is not two numbers is ignored
unfoldable pub update : ℕ → String → Clock → Clock
unfolding parse advance_if
update physical remote c = advance_if physical (parse remote) c
