-- ===== src/Sync/Durable/Batch.antt =====
-- A pushed batch in the durable target and in the one in memory, where the rows of the store are those
-- of the log (sync/BackendSyncTarget.ts).
use mathlib.Core.Path.{ap₂, subst}
use object_repository.Base.{
  ℕ, suc, String, ◌≡◌, refl, ◌∙◌, sym, ap, true, false, not, ◌&&◌, ◌||◌, Option, none, some, List,
  [], ◌∷◌, ◌++◌, map, arith, some_elem, eq_iff, eq_refl, Bool-cases, inl, inr, ◌==◌, All, is_some,
}
use object_repository.Base.Dict.{Dict}
use object_repository.Base.Text.{text_lt}
use object_repository.Base.Text.Order.{text_lt_irrefl, text_lt_total}
use object_repository.Sync.Contract.{SyncChange, SyncPushResult}
use object_repository.Sync.Target
use object_repository.Sync.Target.{
  latest, is_of, Pushed, acknowledged, conflict, settle, push_one, append_if, report,
}
use object_repository.Sync.Target.Log.{holds_at}
use object_repository.Sync.Durable.{
  ChangeRow, to_change, latest_row, row_of, Settled, settle_row, settled, queue_row, seq_after,
  answer, push_rows,
}
use object_repository.Sync.Durable.Latest.{
  covers, latest-covers, latest_row-covers, row_holds_at, IsOf, IsRowOf, latest-IsOf,
  latest_row-IsRowOf,
}

same_version : (v w : String) → ((x : String) → not (text_lt v x) ≡ not (text_lt w x)) → v ≡ w
same_version v w h = (eq_iff v w).0 (
    text_lt_total v w (ground (arith, h w, text_lt_irrefl w w (eq_refl w)))
      (ground (arith, h v, text_lt_irrefl v v (eq_refl v))))

same_tag :
    (m u a b c d v : String)
    → (a == m && b == u) ≡ true
    → (c == m && d == u) ≡ true
    → Path (String × String × String) (a, b, v) (c, d, v)
same_tag m u a b c d v h k =
    rw
      (
        (eq_iff a m).0 (ground arith),
        (eq_iff b u).0 (ground arith),
        (eq_iff c m).0 (ground arith),
        (eq_iff d u).0 (ground arith),
      )
      refl

module _ {N : Type 0} where
  -- what a conflict is known by: its record and its version
  abbrev pub tag : SyncChange N → String × String × String
  tag c = (c.model, c.uuid, c.version)

  -- Of one record, a batch holds no change after which a whole-record change follows.
  abbrev pub IsApart : SyncChange N → SyncChange N → Type 0
  IsApart c d = is_some d.field_versions || not (is_of d.model d.uuid c) ≡ true

  abbrev pub HasApartChanges : List (SyncChange N) → Type 0
  HasApartChanges [] = Unit
  HasApartChanges (c ∷ cs) = All (IsApart c) cs × HasApartChanges cs

  abbrev Agree : Settled N → Pushed N → Type 0
  Agree Settled.appended acknowledged = Unit
  Agree (Settled.refused row) (conflict c) = tag (to_change row) ≡ tag c
  Agree Settled.appended (conflict c) = ⊥
  Agree (Settled.refused row) acknowledged = ⊥

  settle-Agree :
      (c : SyncChange N) (m u : String) (r : Option (ChangeRow N)) (s : Option (SyncChange N))
      → ((v : String) → row_holds_at r v ≡ holds_at s v)
      → IsRowOf m u r
      → IsOf m u s
      → Agree (settle_row c r) (settle c s)
  settle-Agree c m u none none h a b = tt
  settle-Agree c m u none (some d) h a b =
      absurd (ground (arith, h d.version, text_lt_irrefl d.version d.version (eq_refl d.version)))
  settle-Agree c m u (some row) none h a b =
      absurd (
        ground (arith, h row.version, text_lt_irrefl row.version row.version (eq_refl row.version)))
  settle-Agree c m u (some row) (some d) h a b =
      let same = same_version row.version d.version h in
      elim (Bool-cases (text_lt d.version c.version)) [
        | inl newer ↦ rw (same, newer) tt
        | inr older ↦
            rw (same, older) (same_tag m u row.src_model row.src_uuid d.model d.uuid d.version a b)
      ]

  covers_free :
      (m u v : String) (xs : List (SyncChange N))
      → some_elem (is_of m u) xs ≡ false
      → some_elem (covers m u v) xs ≡ false
  covers_free m u v [] h = refl
  covers_free m u v (x ∷ xs) h = ground (arith, covers_free m u v xs)

  covers_stored :
      (m u v : String) (stored queued : List (ChangeRow N))
      → some_elem (is_of m u) (map to_change queued) ≡ false
      → some_elem (covers m u v) (map to_change stored)
        ≡ some_elem (covers m u v) (map to_change (stored ++ queued))
  covers_stored m u v [] queued h = sym (covers_free m u v (map to_change queued) h)
  covers_stored m u v (r ∷ stored) queued h =
      ap (λ b. covers m u v (to_change r) || b) (covers_stored m u v stored queued h)

  abbrev IsFree : List (ChangeRow N) → SyncChange N → Type 0
  IsFree queued c =
      is_some c.field_versions || not (some_elem (is_of c.model c.uuid) (map to_change queued))
      ≡ true

  settled-Agree :
      (stored queued : List (ChangeRow N)) (c : SyncChange N)
      → IsFree queued c
      → Agree (settled stored c) (push_one (map to_change (stored ++ queued)) c)
  unfolding settled push_one
  settled-Agree stored queued c = by_versions c.field_versions
    where
      by_versions :
          (versions : Option (Dict String))
          → is_some versions || not (some_elem (is_of c.model c.uuid) (map to_change queued)) ≡ true
          → Agree
              (elim versions [
                | some v ↦ Settled.appended
                | none ↦ settle_row c (latest_row stored c.model c.uuid)
              ])
              (elim versions [
                | some v ↦ acknowledged
                | none ↦ settle c (latest (map to_change (stored ++ queued)) c.model c.uuid)
              ])
      by_versions (some v) h = tt
      by_versions none h =
          settle-Agree c c.model c.uuid (latest_row stored c.model c.uuid)
            (latest (map to_change (stored ++ queued)) c.model c.uuid)
            (λ v.
              latest_row-covers c.model c.uuid v stored
              ∙ (covers_stored c.model c.uuid v stored queued (ground (arith))
                  ∙ sym (latest-covers c.model c.uuid v (map to_change (stored ++ queued)))))
            (latest_row-IsRowOf c.model c.uuid stored)
            (latest-IsOf c.model c.uuid (map to_change (stored ++ queued)))

  some_elem-queued :
      (m u : String) (queued : List (ChangeRow N)) (row : ChangeRow N)
      → some_elem (is_of m u) (map to_change (queued ++ row ∷ []))
        ≡ some_elem (is_of m u) (map to_change queued) || is_of m u (to_change row)
  some_elem-queued m u [] row = ground arith
  some_elem-queued m u (r ∷ queued) row = ground (arith, some_elem-queued m u queued row)

  IsFree-queued :
      (queued : List (ChangeRow N)) (c : SyncChange N) (seq : ℕ) (cs : List (SyncChange N))
      → All (IsFree queued) cs
      → All (IsApart c) cs
      → All (IsFree (queued ++ row_of seq c ∷ [])) cs
  IsFree-queued queued c seq [] a b = tt
  IsFree-queued queued c seq (d ∷ cs) a b = (
    ground (arith, some_elem-queued d.model d.uuid queued (row_of seq c), a.0, b.0),
    IsFree-queued queued c seq cs a.1 b.1,
  )

  map_snoc :
      (stored queued : List (ChangeRow N)) (row : ChangeRow N)
      → map to_change (stored ++ (queued ++ row ∷ []))
        ≡ map to_change (stored ++ queued) ++ to_change row ∷ []
  map_snoc [] [] row = refl
  map_snoc [] (q ∷ queued) row = ap (λ l. to_change q ∷ l) (map_snoc [] queued row)
  map_snoc (s ∷ stored) queued row = ap (λ l. to_change s ∷ l) (map_snoc stored queued row)

  -- The same log, the same acknowledged changes, and conflicts of the same records and versions.
  abbrev pub Same :
      List (SyncChange N) × SyncPushResult N → List (SyncChange N) × SyncPushResult N → Type 0
  Same a b =
      (a.0 ≡ b.0)
      × (a.1.acknowledged ≡ b.1.acknowledged)
      × (map tag a.1.conflicts ≡ map tag b.1.conflicts)

  Same-answer :
      (c : SyncChange N) (done : Settled N) (other : Pushed N) (log : List (SyncChange N))
      (mine : SyncPushResult N) (theirs : List (SyncChange N) × SyncPushResult N)
      → Agree done other
      → Same (log, mine) theirs
      → Same (log, answer done c mine) (theirs.0, report c other theirs.1)
  Same-answer c Settled.appended acknowledged log mine theirs a h =
      (h.0, ap (λ l. c.uuid ∷ l) h.1, h.2)
  Same-answer c (Settled.refused row) (conflict d) log mine theirs a h =
      (h.0, h.1, ap₂ (λ t l. t ∷ l) a h.2)
  Same-answer c Settled.appended (conflict d) log mine theirs a h = absurd a
  Same-answer c (Settled.refused row) acknowledged log mine theirs a h = absurd a

  Queue-step :
      (stored queued : List (ChangeRow N)) (c : SyncChange N) (seq : ℕ) (cs : List (SyncChange N))
      (done : Settled N) (other : Pushed N)
      → Agree done other
      → All (IsFree queued) cs
      → All (IsApart c) cs
      → (map to_change (stored ++ queue_row done c seq queued)
          ≡ append_if (map to_change (stored ++ queued)) c other)
        × All (IsFree (queue_row done c seq queued)) cs
  Queue-step stored queued c seq cs Settled.appended acknowledged a free apart =
      (map_snoc stored queued (row_of (suc seq) c), IsFree-queued queued c (suc seq) cs free apart)
  Queue-step stored queued c seq cs (Settled.refused row) (conflict d) a free apart = (refl, free)
  Queue-step stored queued c seq cs Settled.appended (conflict d) a free apart = absurd a
  Queue-step stored queued c seq cs (Settled.refused row) acknowledged a free apart = absurd a

  pub push_rows-Same :
      (stored : List (ChangeRow N)) (changes : List (SyncChange N)) (seq : ℕ)
      (queued : List (ChangeRow N)) (log : List (SyncChange N))
      → map to_change (stored ++ queued) ≡ log
      → HasApartChanges changes
      → All (IsFree queued) changes
      → let done = push_rows stored changes seq queued in
        Same (map to_change (stored ++ done.0), done.2) (Target.push log changes)
  unfolding push_rows Target.push
  push_rows-Same stored [] seq queued log e apart free = (e, refl, refl)
  push_rows-Same stored (c ∷ cs) seq queued log e apart free =
      let done = settled stored c in
      let other = push_one log c in
      let agree = subst (λ l. Agree done (push_one l c)) e (settled-Agree stored queued c free.0) in
      let step = Queue-step stored queued c seq cs done other agree free.1 apart.0 in
      Same-answer c done other _ _ (Target.push (append_if log c other) cs) agree (
        push_rows-Same stored cs (seq_after done seq) (queue_row done c seq queued)
          (append_if log c other) (step.0 ∙ ap (λ l. append_if l c other) e) apart.1 step.1)
