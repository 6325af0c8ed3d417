-- ===== src/Sync/Target/Log.antt =====
-- What the changelog server keeps and answers.
use mathlib.Core.List.{append-nil, foldl-append, append_assoc}
use object_repository.Base.{
  ℕ, String, ◌≡◌, refl, ◌∙◌, sym, ap, Bool, true, false, not, Option, none, some, List, [], ◌∷◌,
  ◌++◌, arith, length, drop, drop-append, eq_refl, Bool-cases, inl, inr, All, is_some, filter,
}
use object_repository.Base.Dict.{Dict}
use object_repository.Base.Text.{text_lt}
use object_repository.Base.Text.Order.{text_lt_irrefl, text_lt_trans}
use object_repository.Base.Text.Decimal.{decimal, read-decimal}
use object_repository.Sync.Contract.{SyncChange}
use object_repository.Sync.Target.{
  pull, latest, latest_step, push_one, push, append_if, Pushed, acknowledged, conflict, settle,
  offset_of,
}

pub offset_of-decimal : (n : ℕ) → offset_of (some (decimal n)) ≡ n
offset_of-decimal n = ap (λ r. elim r [ none ↦ 0 | some k ↦ k ]) (read-decimal n)

module _ {N : Type 0} where
  -- The changes of a push that the server appends.
  abbrev pub appended : List (SyncChange N) → List (SyncChange N) → List (SyncChange N)
  appended log [] = []
  appended log (change ∷ changes) =
      let rest = appended (append_if log change (push_one log change)) changes in
      append_if [] change (push_one log change) ++ rest

  push-append :
      (log changes : List (SyncChange N)) → (push log changes).0 ≡ log ++ appended log changes
  unfolding push
  push-append log [] = sym (append-nil log)
  push-append log (change ∷ changes) =
      push-append (append_if log change (push_one log change)) changes
      ∙ by_outcome log change (push_one log change)
          (appended (append_if log change (push_one log change)) changes)
    where
      by_outcome :
          (log : List (SyncChange N)) (change : SyncChange N) (done : Pushed N)
          (rest : List (SyncChange N))
          → append_if log change done ++ rest ≡ log ++ (append_if [] change done ++ rest)
      by_outcome log change acknowledged rest = append_assoc log (change ∷ []) rest
      by_outcome log change (conflict current) rest = refl

  -- A replica that pulls, and pulls again with the cursor it got after others have pushed, gets exactly
  -- the changes that were appended in between: with the old log they are the new log. A first pull has
  -- the whole log.
  pub pull_continues :
      (log changes : List (SyncChange N)) (cursor : Option String)
      → let after = (push log changes).0 in
        (log ++ (pull after (some (pull log cursor).cursor)).changes ≡ after)
        × ((pull log none).changes ≡ log)
  unfolding pull
  pull_continues log changes cursor = (
    ap (λ k. log ++ drop k (push log changes).0) (offset_of-decimal (length log))
        ∙ rw (push-append log changes)
            (ap (λ more. log ++ more) (drop-append log (appended log changes))),
    refl,
  )

  -- Whether the server holds a change that is at least as new as a version.
  abbrev pub holds_at : Option (SyncChange N) → String → Bool
  holds_at none v = false
  holds_at (some c) v = not (text_lt c.version v)

  abbrev pub holds : List (SyncChange N) → SyncChange N → Bool
  holds log c = holds_at (latest log c.model c.uuid) c.version

  latest-append :
      (log : List (SyncChange N)) (c : SyncChange N) (m u : String)
      → latest (log ++ c ∷ []) m u ≡ latest_step m u (latest log m u) c
  unfolding latest
  latest-append log c m u = foldl-append (latest_step m u) none log (c ∷ [])

  holds_at-step :
      (m u v : String) (r : Option (SyncChange N)) (c : SyncChange N)
      → holds_at r v ≡ true
      → holds_at (latest_step m u r c) v ≡ true
  holds_at-step m u v none c h = cc
  holds_at-step m u v (some d) c h = ground (arith, text_lt_trans d.version c.version v)

  holds_at-own :
      (r : Option (SyncChange N)) (c : SyncChange N)
      → holds_at (latest_step c.model c.uuid r c) c.version ≡ true
  holds_at-own none c = ground (
    arith,
    eq_refl c.model,
    eq_refl c.uuid,
    text_lt_irrefl c.version c.version,
    eq_refl c.version,
  )
  holds_at-own (some d) c = ground (
    arith,
    eq_refl c.model,
    eq_refl c.uuid,
    text_lt_irrefl c.version c.version,
    eq_refl c.version,
  )

  append_if-holds_at :
      (log : List (SyncChange N)) (c : SyncChange N) (done : Pushed N) (m u v : String)
      → holds_at (latest log m u) v ≡ true
      → holds_at (latest (append_if log c done) m u) v ≡ true
  append_if-holds_at log c acknowledged m u v h =
      rw (latest-append log c m u) (holds_at-step m u v (latest log m u) c h)
  append_if-holds_at log c (conflict d) m u v h = h

  -- A push never makes the server hold an older change: where it held one at least as new as a version,
  -- it still does, whatever is pushed.
  pub push-holds_at :
      (log changes : List (SyncChange N)) (m u v : String)
      → holds_at (latest log m u) v ≡ true
      → holds_at (latest (push log changes).0 m u) v ≡ true
  unfolding push
  push-holds_at log [] m u v h = h
  push-holds_at log (c ∷ changes) m u v h =
      push-holds_at (append_if log c (push_one log c)) changes m u v
        (append_if-holds_at log c (push_one log c) m u v h)

  push_one-holds :
      (log : List (SyncChange N)) (c : SyncChange N)
      → holds (append_if log c (push_one log c)) c ≡ true
  unfolding push_one
  push_one-holds log c = by_versions c.field_versions
    where
      appended_holds : holds (log ++ c ∷ []) c ≡ true
      appended_holds =
          rw (latest-append log c c.model c.uuid) (holds_at-own (latest log c.model c.uuid) c)

      settled :
          (r : Option (SyncChange N))
          → r ≡ latest log c.model c.uuid
          → holds (append_if log c (settle c r)) c ≡ true
      settled none e = appended_holds
      settled (some d) e = elim (Bool-cases (text_lt d.version c.version)) [
        | inl newer ↦ rw newer appended_holds
        | inr older ↦ rw (older, sym e) (rw older refl)
      ]

      by_versions :
          (versions : Option (Dict String))
          → holds
              (append_if log c (elim versions [
                | some v ↦ acknowledged
                | none ↦ settle c (latest log c.model c.uuid)
              ]))
              c
            ≡ true
      by_versions (some v) = appended_holds
      by_versions none = settled (latest log c.model c.uuid) refl

  -- After a push the server holds, for each of the pushed changes, a change of the same record that is
  -- not older.
  pub push-holds :
      (log changes : List (SyncChange N)) → All (λ c. holds (push log changes).0 c ≡ true) changes
  unfolding push
  push-holds log [] = tt
  push-holds log (c ∷ changes) =
      let next = append_if log c (push_one log c) in
      (
        push-holds_at next changes c.model c.uuid c.version (push_one-holds log c),
        push-holds next changes,
      )

  abbrev outcome : List (SyncChange N) → SyncChange N → Option (Dict String) → Pushed N
  outcome log c versions = elim versions [
    | some v ↦ acknowledged
    | none ↦ settle c (latest log c.model c.uuid)
  ]

  push_one-whole :
      (log : List (SyncChange N)) (c : SyncChange N)
      → c.field_versions ≡ none
      → push_one log c ≡ settle c (latest log c.model c.uuid)
  unfolding push_one
  push_one-whole log c e = ap (outcome log c) e

  push_one-field_level :
      (log : List (SyncChange N)) (c : SyncChange N)
      → is_some c.field_versions ≡ true
      → push_one log c ≡ acknowledged
  unfolding push_one
  push_one-field_level log c h = by_versions c.field_versions h
    where
      by_versions :
          (versions : Option (Dict String))
          → is_some versions ≡ true
          → outcome log c versions ≡ acknowledged
      by_versions none h = cc
      by_versions (some v) h = refl

  -- A change without field versions that the server holds is not appended again.
  append_if-again :
      (log : List (SyncChange N)) (c : SyncChange N)
      → c.field_versions ≡ none
      → holds log c ≡ true
      → append_if log c (push_one log c) ≡ log
  append_if-again log c e h =
      ap (append_if log c) (push_one-whole log c e) ∙ by_latest (latest log c.model c.uuid) h
    where
      by_latest :
          (r : Option (SyncChange N))
          → holds_at r c.version ≡ true
          → append_if log c (settle c r) ≡ log
      by_latest none h = cc
      by_latest (some d) h = rw (older (text_lt d.version c.version) h) refl
        where
          older : (b : Bool) → not b ≡ true → b ≡ false
          older b k = ground (arith)

  push-again :
      (log changes : List (SyncChange N))
      → All (λ c. c.field_versions ≡ none) changes
      → All (λ c. holds log c ≡ true) changes
      → (push log changes).0 ≡ log
  unfolding push
  push-again log [] e h = refl
  push-again log (c ∷ changes) e h =
      rw (append_if-again log c e.0 h.0) (push-again log changes e.1 h.1)

  -- Replaying a push of whole-record changes leaves the log as it was.
  pub push_replayed :
      (log changes : List (SyncChange N))
      → All (λ c. c.field_versions ≡ none) changes
      → let after = (push log changes).0 in (push after changes).0 ≡ after
  push_replayed log changes e = push-again (push log changes).0 changes e (push-holds log changes)

  -- the changes that carry field versions
  abbrev pub field_level : List (SyncChange N) → List (SyncChange N)
  field_level = filter (λ c. is_some c.field_versions)

  push-held :
      (log changes : List (SyncChange N))
      → All (λ c. holds log c ≡ true) changes
      → (push log changes).0 ≡ log ++ field_level changes
  unfolding push
  push-held log [] h = sym (append-nil log)
  push-held log (c ∷ changes) h = elim (Bool-cases (is_some c.field_versions)) [
    | inr whole ↦ rw whole (
        rw (append_if-again log c (no_versions c.field_versions whole) h.0)
          (push-held log changes h.1))
    | inl fielded ↦ rw fielded (
        ap (λ done. (push (append_if log c done) changes).0) (push_one-field_level log c fielded)
        ∙ (push-held (log ++ c ∷ []) changes (still_held changes h.1)
            ∙ append_assoc log (c ∷ []) (field_level changes)))
  ]
    where
      no_versions : (versions : Option (Dict String)) → is_some versions ≡ false → versions ≡ none
      no_versions none e = refl
      no_versions (some v) e = cc

      still_held :
          (cs : List (SyncChange N))
          → All (λ d. holds log d ≡ true) cs
          → All (λ d. holds (log ++ c ∷ []) d ≡ true) cs
      still_held [] k = tt
      still_held (d ∷ ds) k =
          (append_if-holds_at log c acknowledged d.model d.uuid d.version k.0, still_held ds k.1)

  -- Replaying a push appends its field-level changes once more, all of them and in their order, and
  -- none of its whole-record changes.
  pub push_field_level_grows :
      (log changes : List (SyncChange N))
      → let after = (push log changes).0 in (push after changes).0 ≡ after ++ field_level changes
  push_field_level_grows log changes =
      push-held (push log changes).0 changes (push-holds log changes)
