-- ===== src/Backends/Sql/Migrate/Again.antt =====
-- What a run of migrations leaves (backends/sql/migrate.ts).
use mathlib.Core.Path.{subst}
use object_repository.Base.{
  String, is_some, eq_iff, ◌≡◌, refl, ◌∙◌, sym, ap, Bool, true, false, ◌||◌, Option, none, some,
  List, [], ◌∷◌, ◌++◌, map, arith, All, eq_refl, Bool-cases, inl, inr,
}
use object_repository.Base.Names.{member, member-append}
use object_repository.Json.Number.{Number}
use object_repository.Backends.Sql.Dialect.{Dialect}
use object_repository.Backends.Sql.Migrate.{
  Migration, MigrationReport, Engine, record_all, run_atomically, skip, apply, nothing_done,
  migrate_loop, run_migrations, has_duplicates, insert_name, applied_names, migrated,
}
use object_repository.Backends.Sql.Migrate.Tracking.{
  IsTracking, SpareAll, run_atomically-tracked, Applied, applied_names-tracked,
  applied_names-Applied,
}

is_some-skip : (name : String) (r : Option MigrationReport) → is_some (skip name r) ≡ is_some r
is_some-skip name none = refl
is_some-skip name (some report) = refl

is_some-apply : (name : String) (r : Option MigrationReport) → is_some (apply name r) ≡ is_some r
is_some-apply name none = refl
is_some-apply name (some report) = refl

abbrev pub names : {N : Type 0} → List (Migration N) → List String
names ms = map (λ m. m.name) ms

module _ {N : Type 0} {S : Type 0} ⦃o : Number N⦄ (d : Dialect) (engine : Engine N S)
    (now : String → N) (tracked : S → Option (List String)) where
  -- Migrations whose statements all leave the tracked names as they are.
  abbrev pub SpareNames : List (Migration N) → Type 0
  SpareNames ms = All (λ m. SpareAll engine tracked (record_all d m.up)) ms

  loop_end :
      (done : List String) (s : S) → migrate_loop d engine now done s [] ≡ (s, some nothing_done)
  unfolding migrate_loop
  loop_end done s = refl

  loop_skip :
      (done : List String) (s : S) (m : Migration N) (ms : List (Migration N))
      → member m.name done ≡ true
      → migrate_loop d engine now done s (m ∷ ms) ≡ (
        (migrate_loop d engine now done s ms).0,
        skip m.name (migrate_loop d engine now done s ms).1,
      )
  unfolding migrate_loop
  loop_skip done s m ms named = rw named refl

  abbrev step_of : S → Migration N → S × Bool
  step_of s m = run_atomically engine s (record_all d m.up) (insert_name d m.name (now m.name))

  loop_apply :
      (done : List String) (s : S) (m : Migration N) (ms : List (Migration N))
      → member m.name done ≡ false
      → (step_of s m).1 ≡ true
      → migrate_loop d engine now done s (m ∷ ms) ≡ (
        (migrate_loop d engine now done (step_of s m).0 ms).0,
        apply m.name (migrate_loop d engine now done (step_of s m).0 ms).1,
      )
  unfolding migrate_loop
  loop_apply done s m ms unnamed ran = rw (unnamed, ran) refl

  loop_throw :
      (done : List String) (s : S) (m : Migration N) (ms : List (Migration N))
      → member m.name done ≡ false
      → (step_of s m).1 ≡ false
      → migrate_loop d engine now done s (m ∷ ms) ≡ ((step_of s m).0, none)
  unfolding migrate_loop
  loop_throw done s m ms unnamed threw = rw (unnamed, threw) refl

  -- A run that does not throw ends with the names tracked that were, and those of the migrations.
  abbrev Ends : List String → List (Migration N) → S × Option MigrationReport → Type 0
  Ends found ms r =
      is_some r.1 ≡ true
      → (last : List String) × (tracked r.0 ≡ some last)
        × ((k : String) → member k found || member k (names ms) ≡ true → member k last ≡ true)

  module _ (laws : IsTracking d engine tracked) where
    migrate_loop-Ends :
        (done : List String) (ms : List (Migration N)) (s : S) (found : List String)
        → tracked s ≡ some found
        → SpareNames ms
        → ((j : String) → member j done ≡ true → member j found ≡ true)
        → Ends found ms (migrate_loop d engine now done s ms)
    migrate_loop-Ends done [] s found e spares covered =
        subst (Ends found []) (sym (loop_end done s))
          (λ h. (found, e, λ k there. ground (arith, there)))
    migrate_loop-Ends done (m ∷ ms) s found e spares covered =
        elim (Bool-cases (member m.name done)) [
          | inl named ↦ subst (Ends found (m ∷ ms)) (sym (loop_skip done s m ms named)) (λ h.
              let (last, at, there) =
                migrate_loop-Ends done ms s found e spares.1 covered
                  (sym (is_some-skip m.name (migrate_loop d engine now done s ms).1) ∙ h) in
              (
                last,
                at,
                λ k known. there k (ground (arith, known, covered m.name named, eq_iff m.name k)),
              ))
          | inr unnamed ↦ elim (Bool-cases (step_of s m).1) [
            | inr threw ↦
                subst (Ends found (m ∷ ms)) (sym (loop_throw done s m ms unnamed threw)) (λ h. cc)
            | inl ran ↦
                let next =
                  run_atomically-tracked engine tracked m.name (record_all d m.up)
                    (insert_name d m.name (now m.name)) s found
                    (λ a b rows known before h.
                      laws.inserts a b rows m.name (now m.name) known before h)
                    spares.0 e ran in
                subst (Ends found (m ∷ ms)) (sym (loop_apply done s m ms unnamed ran)) (λ h.
                  let (last, at, there) =
                    migrate_loop-Ends done ms (step_of s m).0 (found ++ m.name ∷ []) next spares.1
                      (λ j in_done.
                        rw (member-append j found (m.name ∷ []), covered j in_done) refl)
                      (sym (
                          is_some-apply m.name
                            (migrate_loop d engine now done (step_of s m).0 ms).1)
                        ∙ h) in
                  (
                    last,
                    at,
                    λ k known. there k (ground (arith, known, member-append k found (m.name ∷ []))),
                  ))
          ]
        ]

    loop_idle :
        (found : List String) (s : S) (ms : List (Migration N))
        → All (λ m. member m.name found ≡ true) ms
        → migrate_loop d engine now found s ms
          ≡ (s, some (record { applied = []; skipped = names ms }))
    loop_idle found s [] h = loop_end found s
    loop_idle found s (m ∷ ms) h =
        loop_skip found s m ms h.0 ∙ ap (λ r. (r.0, skip m.name r.1)) (loop_idle found s ms h.1)

    all_in :
        (found : List String) (ms : List (Migration N))
        → ((k : String) → member k (names ms) ≡ true → member k found ≡ true)
        → All (λ m. member m.name found ≡ true) ms
    all_in found [] h = tt
    all_in found (m ∷ ms) h = (
      h m.name (ground (arith, eq_refl m.name)),
      all_in found ms (λ k there. h k (ground (arith, there))),
    )

    migrated_idle :
        (found : List String) (s : S) (ms : List (Migration N))
        → All (λ m. member m.name found ≡ true) ms
        → migrated d engine now ms (s, some found)
          ≡ (s, some (record { applied = []; skipped = names ms }))
    unfolding migrated
    migrated_idle found s ms h = loop_idle found s ms h

    run_distinct :
        (s : S) (ms : List (Migration N))
        → has_duplicates (names ms) ≡ false
        → run_migrations d engine now s ms ≡ migrated d engine now ms (applied_names d engine s)
    unfolding run_migrations
    run_distinct s ms h = rw h refl

    run_throws :
        (s : S) (ms : List (Migration N))
        → has_duplicates (names ms) ≡ true
        → is_some (run_migrations d engine now s ms).1 ≡ false
    unfolding run_migrations
    run_throws s ms h = rw h refl

    migrated-Ends :
        (ms : List (Migration N)) (r : S × Option (List String))
        → SpareNames ms
        → Applied d engine tracked laws r
        → Ends [] ms (migrated d engine now ms r)
    unfolding migrated
    migrated-Ends ms (s, none) spares e = λ h. cc
    migrated-Ends ms (s, some done) spares e = λ h.
        let (last, at, there) = migrate_loop-Ends done ms s done e spares (λ j known. known) h in
        (last, at, λ k known. there k (ground (arith, known)))

    -- After a run that does not throw every migration of the list is tracked, and a second run of the
    -- list changes nothing and reports all of them as skipped: on a database that treats the tracking
    -- table as databases do, if the statements of the migrations leave the names in it as they are.
    pub run_migrations-again :
        (s : S) (ms : List (Migration N))
        → SpareNames ms
        → is_some (run_migrations d engine now s ms).1 ≡ true
        → let after = (run_migrations d engine now s ms).0 in
          (found : List String) × (tracked after ≡ some found)
          × All (λ m. member m.name found ≡ true) ms
          × (run_migrations d engine now after ms
              ≡ (after, some (record { applied = []; skipped = names ms })))
    run_migrations-again s ms spares h = elim (Bool-cases (has_duplicates (names ms))) [
      | inl duplicates ↦ absurd (ground (arith, h, run_throws s ms duplicates))
      | inr distinct ↦
          let after = (run_migrations d engine now s ms).0 in
          let (found, at, there) =
            subst (Ends [] ms) (sym (run_distinct s ms distinct))
              (migrated-Ends ms (applied_names d engine s) spares
                (applied_names-Applied d engine tracked laws s))
              h in
          let all = all_in found ms (λ k known. there k (ground (arith, known))) in
          (
            found,
            at,
            all,
            run_distinct after ms distinct
                ∙ (ap (migrated d engine now ms)
                      (applied_names-tracked d engine tracked laws after found at)
                    ∙ migrated_idle found after ms all),
          )
    ]
