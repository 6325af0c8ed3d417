-- ===== src/Backends/Sql/Migrate/Tracking.antt =====
-- What the tracking table holds after the statements of backends/sql/migrate.ts.
use mathlib.Core.Path.{subst}
use object_repository.Base.{
  String, is_some, ◌≡◌, refl, ◌∙◌, sym, ap, Bool, true, false, not, Option, none, some, List, [],
  ◌∷◌, ◌++◌, map, All, Result, ok, err,
}
use object_repository.Base.Dict.{Dict}
use object_repository.Json.{Value}
use object_repository.Json.Number.{Number}
use object_repository.Backends.Sql.Dialect.{Dialect}
use object_repository.Backends.Sql.Reads.{Statement}
use object_repository.Backends.Sql.Migrate.{
  Engine, run_all, run_built, run_atomically, settled, is_empty, probe, tracking_ddl, select_names,
  insert_name, name_in, applied_names, probed, created, read_names, names_read,
}

-- What a database does with the statements on the tracking table, where `tracked` tells the names in
-- the table, none where it has none: the two reads change nothing and answer, creating it makes it
-- empty, and an insert that is not refused puts a name behind the others.
pub record IsTracking {N : Type 0} {S : Type 0} ⦃o : Number N⦄ (d : Dialect) (engine : Engine N S)
    (tracked : S → Option (List String)) : Type 0 where
  pub probes :
      (s : S)
      → (rows : List (Dict (Value N))) × (run_built engine s (probe d) ≡ some (s, rows))
        × (is_empty rows ≡ not (is_some (tracked s)))
  pub creates :
      (s t : S) (rows : List (Dict (Value N)))
      → tracked s ≡ none
      → run_built engine s (tracking_ddl d) ≡ some (t, rows)
      → tracked t ≡ some []
  pub selects :
      (s : S) (found : List String)
      → tracked s ≡ some found
      → (rows : List (Dict (Value N))) × (run_built engine s (select_names d) ≡ some (s, rows))
        × (map name_in rows ≡ found)
  pub inserts :
      (s t : S) (rows : List (Dict (Value N))) (name : String) (at : N) (found : List String)
      → tracked s ≡ some found
      → run_built engine s (insert_name d name at) ≡ some (t, rows)
      → tracked t ≡ some (found ++ name ∷ [])

module _ {N : Type 0} {S : Type 0} (engine : Engine N S) (tracked : S → Option (List String)) where
  -- A statement that leaves the tracked names as they are, and migrations whose statements all do.
  abbrev pub Spares : Statement N → Type 0
  Spares statement =
      (s t : S) (rows : List (Dict (Value N)))
      → engine.run s statement ≡ some (t, rows)
      → tracked t ≡ tracked s

  abbrev pub SpareAll : Result String (List (Statement N)) → Type 0
  SpareAll (err e) = Unit
  SpareAll (ok statements) = All Spares statements

  -- A statement that puts a name behind the tracked ones.
  abbrev pub Puts : String → Result String (Statement N) → Type 0
  Puts name track =
      (s t : S) (rows : List (Dict (Value N))) (found : List String)
      → tracked s ≡ some found
      → run_built engine s track ≡ some (t, rows)
      → tracked t ≡ some (found ++ name ∷ [])

  after_answer :
      (name : String) (track : Statement N) (statements : List (Statement N)) (s : S)
      (found : List String) (r : Option (S × List (Dict (Value N))))
      → ((t : S)
          → tracked t ≡ some found
          → (run_all engine t (statements ++ track ∷ [])).1 ≡ true
          → tracked (run_all engine t (statements ++ track ∷ [])).0 ≡ some (found ++ name ∷ []))
      → ((t : S) (rows : List (Dict (Value N))) → r ≡ some (t, rows) → tracked t ≡ some found)
      → (elim r as (λ x. S × Bool) [
        | none ↦ (s, false)
        | some next ↦ run_all engine next.0 (statements ++ track ∷ [])
      ]).1
        ≡ true
      → tracked
          (elim r as (λ x. S × Bool) [
            | none ↦ (s, false)
            | some next ↦ run_all engine next.0 (statements ++ track ∷ [])
          ]).0
        ≡ some (found ++ name ∷ [])
  after_answer name track statements s found none rest spared ran = cc
  after_answer name track statements s found (some (t, rows)) rest spared ran =
      rest t (spared t rows refl) ran

  run_all-tracked :
      (name : String) (track : Statement N) (statements : List (Statement N)) (s : S)
      (found : List String)
      → Puts name (ok track)
      → All Spares statements
      → tracked s ≡ some found
      → (run_all engine s (statements ++ track ∷ [])).1 ≡ true
      → tracked (run_all engine s (statements ++ track ∷ [])).0 ≡ some (found ++ name ∷ [])
  unfolding run_all
  run_all-tracked name track [] s found puts spares e ran = by_answer (engine.run s track) refl ran
    where
      by_answer :
          (r : Option (S × List (Dict (Value N))))
          → engine.run s track ≡ r
          → (elim r as (λ x. S × Bool) [ none ↦ (s, false) | some next ↦ (next.0, true) ]).1 ≡ true
          → tracked (elim r as (λ x. S × Bool) [ none ↦ (s, false) | some next ↦ (next.0, true) ]).0
            ≡ some (found ++ name ∷ [])
      by_answer none h k = cc
      by_answer (some (t, rows)) h k = puts s t rows found e h
  run_all-tracked name track (statement ∷ statements) s found puts spares e ran =
      after_answer name track statements s found (engine.run s statement)
        (λ t k. run_all-tracked name track statements t found puts spares.1 k)
        (λ t rows h. spares.0 s t rows h ∙ e) ran

  pub run_atomically-tracked :
      (name : String) (statements : Result String (List (Statement N)))
      (track : Result String (Statement N)) (s : S) (found : List String)
      → Puts name track
      → SpareAll statements
      → tracked s ≡ some found
      → (run_atomically engine s statements track).1 ≡ true
      → tracked (run_atomically engine s statements track).0 ≡ some (found ++ name ∷ [])
  unfolding run_atomically
  run_atomically-tracked name (err e) track s found puts spares k ran = cc
  run_atomically-tracked name (ok statements) (err e) s found puts spares k ran = cc
  run_atomically-tracked name (ok statements) (ok track) s found puts spares k ran =
      by_run (run_all engine s (statements ++ track ∷ []))
        (run_all-tracked name track statements s found puts spares k) ran
    where
      by_run :
          (r : S × Bool)
          → (r.1 ≡ true → tracked r.0 ≡ some (found ++ name ∷ []))
          → (settled engine s r).1 ≡ true
          → tracked (settled engine s r).0 ≡ some (found ++ name ∷ [])
      by_run (t, true) h ran = h refl
      by_run (t, false) h ran = cc

module _ {N : Type 0} {S : Type 0} ⦃o : Number N⦄ (d : Dialect) (engine : Engine N S)
    (tracked : S → Option (List String)) (laws : IsTracking d engine tracked) where
  pub read_names-tracked :
      (s : S) (found : List String)
      → tracked s ≡ some found
      → read_names d engine s ≡ (s, some found)
  unfolding read_names
  read_names-tracked s found e =
      let (rows, answers, same) = laws.selects s found e in
      ap (names_read d engine s) answers ∙ ap (λ xs. (s, some xs)) same

  pub applied_names-tracked :
      (s : S) (found : List String)
      → tracked s ≡ some found
      → applied_names d engine s ≡ (s, some found)
  unfolding applied_names probed
  applied_names-tracked s found e =
      let (rows, answers, there) = laws.probes s in
      ap (probed d engine s) answers ∙ (rw (there, e) refl ∙ read_names-tracked s found e)

  applied_names-absent :
      (s : S)
      → tracked s ≡ none
      → applied_names d engine s ≡ created d engine s (run_built engine s (tracking_ddl d))
  unfolding applied_names probed
  applied_names-absent s e =
      let (rows, answers, there) = laws.probes s in
      ap (probed d engine s) answers ∙ rw (there, e) refl

  -- The names that `appliedNames` answers are the tracked ones.
  abbrev pub Applied : S × Option (List String) → Type 0
  Applied (t, none) = Unit
  Applied (t, some done) = tracked t ≡ some done

  created-Applied :
      (s : S) (r : Option (S × List (Dict (Value N))))
      → tracked s ≡ none
      → run_built engine s (tracking_ddl d) ≡ r
      → Applied (created d engine s r)
  created-Applied s none e h = tt
  created-Applied s (some (t, rows)) e h =
      let made = laws.creates s t rows e h in
      subst Applied (sym (read_names-tracked t [] made)) made

  pub applied_names-Applied : (s : S) → Applied (applied_names d engine s)
  applied_names-Applied s = by_tracked (tracked s) refl
    where
      by_tracked : (r : Option (List String)) → tracked s ≡ r → Applied (applied_names d engine s)
      by_tracked (some found) e = subst Applied (sym (applied_names-tracked s found e)) e
      by_tracked none e =
          subst Applied (sym (applied_names-absent s e))
            (created-Applied s (run_built engine s (tracking_ddl d)) e refl)
