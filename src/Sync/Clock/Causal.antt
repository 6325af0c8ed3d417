-- ===== src/Sync/Clock/Causal.antt =====
-- The order of the stamps that a clock issues.
use object_repository.Base.{
  ℕ, zero, suc, ◌+◌, ◌^◌, ◌<◌, ◌/◌, ◌%◌, All-append, String, ◌≡◌, refl, ◌∙◌, ap, Bool, true, false,
  ◌&&◌, ◌||◌, Option, none, some, List, [], ◌∷◌, ◌++◌, arith, ltb, eqb, Bool-cases, inl, inr, All,
}
use object_repository.Base.Text.{units, text_lt, units_lt}
use object_repository.Base.Text.Decimal.{
  decimal, pad_start, fixed, units-pad_start, units-append, units_lt-fixed, units_lt-append_right,
  read-fixed,
}
use object_repository.Sync.Clock.{
  Clock, format, parse, now, update, advance, advance_if, before_colon, after_colon,
}

-- A clock reading that its text has room for.
pub record Fits (physical counter : ℕ) : Type 0 where
  pub physical_fits : physical < 10 ^ 15
  pub counter_fits : counter < 10 ^ 6

units-format :
    (p k : ℕ) (node_id : String)
    → Fits p k
    → units (format p k node_id) ≡ fixed 15 p ++ 58 ∷ (fixed 6 k ++ 58 ∷ units node_id)
unfolding format
units-format p k node_id h =
    rw
      (
        units-append (pad_start 15 (decimal p)) (
            String.◌∷◌ ":"
              (Prim.Native.String.◌++◌ (pad_start 6 (decimal k)) (String.◌∷◌ ":" node_id))),
        units-append (pad_start 6 (decimal k)) (String.◌∷◌ ":" node_id),
        units-pad_start 14 p h.physical_fits,
        units-pad_start 5 k h.counter_fits,
      )
      refl

abbrev IsPlain : ℕ → Type 0
IsPlain c = eqb c 58 ≡ false

digit-IsPlain : (d : ℕ) → d < 10 → IsPlain (48 + d)
digit-IsPlain d h = ground arith

fixed-IsPlain : (w n : ℕ) → All IsPlain (fixed w n)
fixed-IsPlain zero n = tt
fixed-IsPlain (suc w) n =
    All-append IsPlain (fixed w (n / 10)) ((48 + n % 10) ∷ []) (fixed-IsPlain w (n / 10))
      (digit-IsPlain (n % 10) (omega arith), tt)

before_colon-append : (cs rest : List ℕ) → All IsPlain cs → before_colon (cs ++ 58 ∷ rest) ≡ cs
before_colon-append [] rest h = refl
before_colon-append (c ∷ cs) rest h = rw h.0 (ap (λ xs. c ∷ xs) (before_colon-append cs rest h.1))

after_colon-append : (cs rest : List ℕ) → All IsPlain cs → after_colon (cs ++ 58 ∷ rest) ≡ some rest
after_colon-append [] rest h = refl
after_colon-append (c ∷ cs) rest h = rw h.0 (after_colon-append cs rest h.1)

-- Parsing a stamp whose parts fit their widths gives the parts back, whatever the node id is.
pub parse-format :
    (p k : ℕ) (node_id : String) → Fits p k → parse (format p k node_id) ≡ (some p, some k)
unfolding parse
parse-format p k node_id h =
    let tail = fixed 6 k ++ 58 ∷ units node_id in
    rw
      (
        units-format p k node_id h,
        before_colon-append (fixed 15 p) tail (fixed-IsPlain 15 p),
        after_colon-append (fixed 15 p) tail (fixed-IsPlain 15 p),
        before_colon-append (fixed 6 k) (units node_id) (fixed-IsPlain 6 k),
        read-fixed 15 p h.physical_fits,
        read-fixed 6 k h.counter_fits,
      )
      refl

-- Whether a reading is before another: an earlier time, or the same time and a smaller counter.
abbrev pub before : ℕ → ℕ → ℕ → ℕ → Bool
before p k q l = ltb p q || (eqb p q && ltb k l)

same_time :
    (p k q l : ℕ) (us vs : List ℕ)
    → p ≡ q
    → k < l
    → l < 10 ^ 6
    → units_lt
        (fixed 15 p ++ 58 ∷ (fixed 6 k ++ 58 ∷ us))
        (fixed 15 q ++ 58 ∷ (fixed 6 l ++ 58 ∷ vs))
      ≡ true
unfolding units_lt
same_time p k q l us vs e h fits = rw e (
    units_lt-append_right (fixed 15 q) (58 ∷ (fixed 6 k ++ 58 ∷ us)) (58 ∷ (fixed 6 l ++ 58 ∷ vs))
    ∙ units_lt-fixed 6 k l (58 ∷ us) (58 ∷ vs) h fits)

text_lt-format :
    (p k q l : ℕ) (n m : String)
    → Fits p k
    → Fits q l
    → before p k q l ≡ true
    → text_lt (format p k n) (format q l m) ≡ true
text_lt-format p k q l n m h g lt =
    rw (units-format p k n h, units-format q l m g)
      (elim (Bool-cases (ltb p q)) [
        | inl earlier ↦ units_lt-fixed 15 p q _ _ (ground arith) g.physical_fits
        | inr same ↦
            same_time p k q l (units n) (units m) (ground arith) (ground arith) g.counter_fits
      ])

-- What happens to a clock: it is read, it receives a stamp whose parts fit, or it receives a text
-- without a colon, which has no counter, at a time.
pub data Event : Type 0 where
  reads : ℕ → Event
  receives : ℕ → (p k : ℕ) → String → Fits p k → Event
  receives_malformed : ℕ → (remote : String) → after_colon (units remote) ≡ none → Event

unfoldable pub happen : List Event → Clock → Clock
unfolding now update
happen [] c = c
happen (reads t ∷ es) c = happen es (now t c).0
happen (receives t p k node_id h ∷ es) c = happen es (update t (format p k node_id) c)
happen (receives_malformed t remote h ∷ es) c = happen es (update t remote c)

-- A clock at least as late as another.
abbrev at_least : Clock → Clock → Bool
at_least c d =
    before c.last_physical c.counter d.last_physical d.counter
    || (eqb c.last_physical d.last_physical && eqb c.counter d.counter)

now-later :
    (t : ℕ) (c : Clock)
    → let d = (now t c).0 in before c.last_physical c.counter d.last_physical d.counter ≡ true
unfolding now
now-later t c = ground arith

advance-later :
    (t p k : ℕ) (c : Clock)
    → let d = advance t p k c in
      (before c.last_physical c.counter d.last_physical d.counter ≡ true)
      × (before p k d.last_physical d.counter ≡ true)
unfolding advance
advance-later t p k c = ground arith

before-at_least :
    (c d : Clock)
    → before c.last_physical c.counter d.last_physical d.counter ≡ true
    → at_least c d ≡ true
before-at_least c d h = ground arith

advance_if-at_least :
    (t : ℕ) (parts : Option ℕ × Option ℕ) (c : Clock) → at_least c (advance_if t parts c) ≡ true
unfolding advance_if
advance_if-at_least t (some p, some k) c = ground (arith, (advance-later t p k c).0)
advance_if-at_least t (some p, none) c = ground arith
advance_if-at_least t (none, k) c = ground arith

at_least_trans : (c d e : Clock) → at_least c d ≡ true → at_least d e ≡ true → at_least c e ≡ true
at_least_trans c d e h k = ground arith

update-at_least : (t : ℕ) (remote : String) (c : Clock) → at_least c (update t remote c) ≡ true
unfolding update
update-at_least t remote c = advance_if-at_least t (parse remote) c

happen-at_least : (es : List Event) (c : Clock) → at_least c (happen es c) ≡ true
unfolding happen
happen-at_least [] c = ground arith
happen-at_least (reads t ∷ es) c =
    at_least_trans c (now t c).0 (happen es (now t c).0)
      (before-at_least c (now t c).0 (now-later t c)) (happen-at_least es (now t c).0)
happen-at_least (receives t p k node_id h ∷ es) c =
    let d = update t (format p k node_id) c in
    at_least_trans c d (happen es d) (update-at_least t (format p k node_id) c)
      (happen-at_least es d)
happen-at_least (receives_malformed t remote h ∷ es) c =
    let d = update t remote c in
    at_least_trans c d (happen es d) (update-at_least t remote c) (happen-at_least es d)

passes :
    (p k : ℕ) (c d e : Clock)
    → ltb c.last_physical p ≡ false
    → (eqb p c.last_physical && ltb c.counter k) ≡ false
    → at_least c d ≡ true
    → before d.last_physical d.counter e.last_physical e.counter ≡ true
    → before p k e.last_physical e.counter ≡ true
passes p k c d e h g later last = ground arith

-- Reading the clock after `es` passes every reading that the clock had passed before.
now-passes :
    (p k : ℕ) (c : Clock) (es : List Event) (t : ℕ)
    → ltb c.last_physical p ≡ false
    → (eqb p c.last_physical && ltb c.counter k) ≡ false
    → let d = (now t (happen es c)).0 in before p k d.last_physical d.counter ≡ true
now-passes p k c es t h g =
    passes p k c (happen es c) (now t (happen es c)).0 h g (happen-at_least es c)
      (now-later t (happen es c))

stamp-now :
    (t : ℕ) (c : Clock)
    → (now t c).1 ≡ format (now t c).0.last_physical (now t c).0.counter (now t c).0.node_id
unfolding now
stamp-now t c = refl

received-passes :
    (c : Clock) (p k t later : ℕ) (es : List Event)
    → let d = (now later (happen es (advance_if t (some p, some k) c))).0 in
      before p k d.last_physical d.counter ≡ true
unfolding advance_if
received-passes c p k t later es =
    now-passes p k (advance t p k c) es later (ground (arith, (advance-later t p k c).1))
      (ground (arith, (advance-later t p k c).1))

-- Each stamp that a clock issues is greater, as a text, than every stamp it issued before: whatever
-- times the host answers, also if they go back, and whatever stamps and texts without a colon are received in
-- between, as long as the two readings and the parts of the received stamps fit the width of their
-- texts.
pub stamps_increase :
    (c : Clock) (t later : ℕ) (es : List Event)
    → let first = now t c in
      let second = now later (happen es first.0) in
      Fits first.0.last_physical first.0.counter
      → Fits second.0.last_physical second.0.counter
      → text_lt first.1 second.1 ≡ true
stamps_increase c t later es h g =
    let first = (now t c).0 in
    let second = (now later (happen es first)).0 in
    rw (stamp-now t c, stamp-now later (happen es first))
      (text_lt-format first.last_physical first.counter second.last_physical second.counter
        first.node_id second.node_id h g
        (now-passes first.last_physical first.counter first es later (ground arith) (ground arith)))

-- A stamp that a clock issues after it received a stamp of another replica is greater than that stamp
-- as a text, whatever times the host answers and however often it is read or receives a stamp, or a
-- text without a colon, in between, as long as the two readings and the parts of the received
-- stamps fit the width of their texts.
pub stamps_follow_received :
    (c : Clock) (p k : ℕ) (node_id : String) (t later : ℕ) (es : List Event)
    → let received = format p k node_id in
      let issued = now later (happen es (update t received c)) in
      Fits p k → Fits issued.0.last_physical issued.0.counter → text_lt received issued.1 ≡ true
unfolding update
stamps_follow_received c p k node_id t later es h g =
    let received = format p k node_id in
    let second = (now later (happen es (update t received c))).0 in
    rw (stamp-now later (happen es (update t received c))) (
      text_lt-format p k second.last_physical second.counter node_id second.node_id h g
        (rw (parse-format p k node_id h, update) (received-passes c p k t later es)))
