-- ===== src/Sync/Merge/Convergence.antt =====
-- What `mergeByField` of sync/SyncBackend.ts keeps of the two sides.
use mathlib.Core.Path.{subst}
use object_repository.Base.{
  String, ◌≡◌, refl, ◌∙◌, sym, ap, Bool, true, false, ◌||◌, Option, none, some, [], ◌∷◌, eq_iff,
  eq_refl, arith, if◌then◌else◌, Bool-cases, inl, inr, or_else, map,
}
use object_repository.Base.Text.{text_lt}
use object_repository.Base.Text.Order.{text_lt_irrefl, text_lt_asymm, text_lt_total}
use object_repository.Base.Dict.{Dict, get, put, keys, get-put, get-put_self}
use object_repository.Base.Names.{member, absent-get, some_elem-none}
use object_repository.Json.{str, fields, JsonObject}
use object_repository.Json.Number.{Number}
use object_repository.Sync.Merge.{
  Merged, is_reserved, version_at, merge_loop, merge_by_field, to_json, text_entries, of_json,
  max_of, own_version, sealed, field_versions_of,
}
use object_repository.Sync.Merge.Loop.{
  takes, names, member-names, names-absent, merge_loop-body, merge_loop-versions,
  merge_loop-changed, kept_value,
}

-- Choosing the greater of two versions gives the same whichever side is called local.
either :
    {V : Type 0}
    → (v w : String) (x y : V) → (v ≡ w → x ≡ y)
    → (if text_lt v w then y else x) ≡ (if text_lt w v then x else y)
either v w x y same = ground (arith, text_lt_asymm v w, text_lt_total v w, eq_iff v w, same)

get-sealed :
    {N : Type 0} ⦃o : Number N⦄
    → (r : JsonObject N) (m : Merged N) (f : String) → is_reserved f ≡ false
    → get (sealed r m) f ≡ get m.body f
get-sealed r m f h =
    let inner = put m.body "_fieldVersions" (to_json m.versions) in
    let version = str (elim (max_of m.versions) [ none ↦ own_version r | some v ↦ v ]) in
    get-put inner "_version" f version
    ∙ ground (
      arith,
      get-put m.body "_fieldVersions" f (to_json m.versions),
      eq_iff f "_version",
      eq_iff "_version" f,
      eq_iff f "_fieldVersions",
      eq_iff "_fieldVersions" f,
    )

text_entries-fields :
    (N : Type 0) (d : Dict String) → text_entries {N = N} (fields (map (λ e. (e.0, str e.1)) d)) ≡ d
text_entries-fields N [] = refl
text_entries-fields N ((k, v) ∷ d) = ap (λ r. (k, v) ∷ r) (text_entries-fields N d)

sealed_versions :
    {N : Type 0} ⦃o : Number N⦄ (r : JsonObject N) (m : Merged N)
    → field_versions_of (sealed r m) ≡ some m.versions
unfolding field_versions_of
sealed_versions {N = N} r m =
    let version = str (elim (max_of m.versions) [ none ↦ own_version r | some v ↦ v ]) in
    ap of_json (
      get-put (put m.body "_fieldVersions" (to_json m.versions)) "_version" "_fieldVersions" version
      ∙ get-put_self m.body "_fieldVersions" (to_json m.versions))
    ∙ ap some (text_entries-fields N m.versions)

not_less : (v w : String) → text_lt (if text_lt v w then w else v) w ≡ false
not_less v w = ground (arith, text_lt_irrefl w w, eq_refl w)

-- A data field of the merged record or of the incoming one is a data field of the two sides.
still_named :
    {N : Type 0} ⦃o : Number N⦄ (l : JsonObject N) (lv : Dict String) (i : JsonObject N)
    (iv : Dict String) (f : String)
    → is_reserved f ≡ false
    → (member f (keys (sealed l (merge_loop l lv i iv))) || member f (keys i)) ≡ true
    → member f (names l lv i iv) ≡ true
still_named l lv i iv f h m = elim (Bool-cases (member f (names l lv i iv))) [
  | inl present ↦ present
  | inr absent ↦
      let gone = names-absent l lv i iv f h absent in
      let loop = merge_loop l lv i iv in
      let nowhere = absent-get i f gone.1 in
      let nor = absent-get (sealed l loop) f (
        get-sealed l loop f h
        ∙ (merge_loop-body l lv i iv f h ∙ none_either (takes l lv i iv f) gone.1 gone.0)) in
      ground (arith, nowhere, nor)
]
  where
    none_either :
        {V : Type 0}
        → {x y : Option V} (b : Bool) → x ≡ none
        → y ≡ none
        → (if b then x else y) ≡ none
    none_either true e g = e
    none_either false e g = g

-- No data field of the merged record has a version below the incoming one.
dominated :
    {N : Type 0} ⦃o : Number N⦄
    → (l : JsonObject N) (lv : Dict String) (i : JsonObject N) (iv : Dict String) (f : String)
    → let loop = merge_loop l lv i iv in
      member f (names (sealed l loop) loop.versions i iv) ≡ true
      → takes (sealed l loop) loop.versions i iv f ≡ false
dominated l lv i iv f m =
    let loop = merge_loop l lv i iv in
    let shared = member-names (sealed l loop) loop.versions i iv f in
    ap (λ v. text_lt v (version_at iv f))
      (merge_loop-versions l lv i iv f
        (still_named l lv i iv f (ground (arith, shared)) (ground (arith, shared))))
    ∙ not_less (version_at lv f) (version_at iv f)

module _ {N : Type 0} ⦃o : Number N⦄ where
  -- The record that a replica has after it merged an incoming one: a merge without changes keeps it.
  abbrev pub merged_record : JsonObject N → Dict String → JsonObject N → Dict String → JsonObject N
  merged_record local local_versions incoming incoming_versions =
      or_else (merge_by_field local local_versions incoming incoming_versions) local

  -- After a merge each data field has the value of the incoming side where that side's version of the
  -- field is greater, and the local value where it is not; a field that the winner lacks is absent.
  pub merge_keeps_winners :
      (l : JsonObject N) (lv : Dict String) (i : JsonObject N) (iv : Dict String) (f : String)
      → is_reserved f ≡ false
      → get (merged_record l lv i iv) f
        ≡ (if text_lt (version_at lv f) (version_at iv f) then get i f else get l f)
  unfolding merge_by_field
  merge_keeps_winners l lv i iv f h =
      let loop = merge_loop l lv i iv in
      elim (Bool-cases loop.changed) [
        | inl changed ↦ rw changed (get-sealed l loop f h ∙ merge_loop-body l lv i iv f h)
        | inr kept ↦ rw kept (kept_value l lv i iv f h kept)
      ]

  -- Two replicas that merge one another's record agree on every data field, if records whose versions of
  -- a field are equal have the same value there.
  pub merge_converges :
      (a : JsonObject N) (av : Dict String) (b : JsonObject N) (bv : Dict String)
      → ((f : String) → version_at av f ≡ version_at bv f → get a f ≡ get b f)
      → (f : String) → is_reserved f ≡ false
      → get (merged_record a av b bv) f ≡ get (merged_record b bv a av) f
  merge_converges a av b bv same f h =
      merge_keeps_winners a av b bv f h
      ∙ (either (version_at av f) (version_at bv f) (get a f) (get b f) (same f)
          ∙ sym (merge_keeps_winners b bv a av f h))

  sealed-settled :
      (l : JsonObject N) (lv : Dict String) (i : JsonObject N) (iv : Dict String)
      → let loop = merge_loop l lv i iv in
        (field_versions_of (sealed l loop) ≡ some loop.versions)
        × (merge_by_field (sealed l loop) loop.versions i iv ≡ none)
  unfolding merge_by_field
  sealed-settled l lv i iv =
      let loop = merge_loop l lv i iv in
      (
        sealed_versions l loop,
        rw
            (merge_loop-changed (sealed l loop) loop.versions i iv
              ∙ some_elem-none (takes (sealed l loop) loop.versions i iv)
                  (names (sealed l loop) loop.versions i iv) (dominated l lv i iv))
            refl,
      )

  changed_record : (b : Bool) (x m : JsonObject N) → (if b then some x else none) ≡ some m → x ≡ m
  changed_record true x m e = cc
  changed_record false x m e = cc

  merge_by_field-changed :
      (l : JsonObject N) (lv : Dict String) (i : JsonObject N) (iv : Dict String) (m : JsonObject N)
      → merge_by_field l lv i iv ≡ some m
      → sealed l (merge_loop l lv i iv) ≡ m
  unfolding merge_by_field
  merge_by_field-changed l lv i iv m e =
      changed_record (merge_loop l lv i iv).changed (sealed l (merge_loop l lv i iv)) m e

  -- A merge that changed the record carries the merged versions, and merging the same incoming record
  -- again changes nothing.
  pub merge_settles :
      (l : JsonObject N) (lv : Dict String) (i : JsonObject N) (iv : Dict String) (m : JsonObject N)
      → merge_by_field l lv i iv ≡ some m
      → let versions = (merge_loop l lv i iv).versions in
        (field_versions_of m ≡ some versions) × (merge_by_field m versions i iv ≡ none)
  merge_settles l lv i iv m e =
      let versions = (merge_loop l lv i iv).versions in
      subst (λ r. (field_versions_of r ≡ some versions) × (merge_by_field r versions i iv ≡ none))
        (merge_by_field-changed l lv i iv m e) (sealed-settled l lv i iv)
