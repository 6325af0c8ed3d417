-- ===== src/Sync/Merge/Loop.antt =====
-- What the loop of `mergeByField` in sync/SyncBackend.ts builds.
use mathlib.Core.List.{foldl}
use object_repository.Base.{
  String, ◌≡◌, refl, ◌∙◌, sym, ap, Bool, true, false, not, ◌&&◌, ◌||◌, Option, none, some, List, [],
  ◌∷◌, ◌++◌, filter, ◌==◌, eq_iff, arith, if◌then◌else◌, Bool-cases, inl, inr, some_elem,
}
use object_repository.Base.Dict.{Dict, get, keys, get-put}
use object_repository.Base.Names.{
  member, member-distinct, member-filter, member-append, get-absent, some_elem-member,
}
use object_repository.Base.Fill.{fill, fill_again, get-put_present}
use object_repository.Json.{Value, JsonObject}
use object_repository.Sync.Merge.{
  Merged, is_reserved, version_at, put_nonempty, data_fields, takes_incoming, merge_step,
  merge_loop,
}

abbrev fill_text : String → String → String
fill_text String.[] g = g
fill_text v g = v

fill_text_again :
    (same again : Bool) (w v g : String)
    → (same ≡ true → w ≡ v)
    → (let next = if same then fill_text w g else g in if again then fill_text v next else next)
      ≡ (if same || again then fill_text v g else g)
fill_text_again false again w v g e = refl
fill_text_again true false w v g e = ap (λ x. fill_text x g) (e refl)
fill_text_again true true w v g e = rw (e refl) (twice v g)
  where
    twice : (v g : String) → fill_text v (fill_text v g) ≡ fill_text v g
    twice String.[] g = refl
    twice (String.◌∷◌ c v) g = refl

version_at-put_nonempty :
    (d : Dict String) (k j v : String)
    → version_at (put_nonempty d k v) j
      ≡ (if k == j then fill_text v (version_at d j) else version_at d j)
version_at-put_nonempty d k j String.[] = ground arith
version_at-put_nonempty d k j (String.◌∷◌ c v) =
    ap text_of (get-put d k j (String.◌∷◌ c v)) ∙ choose (k == j)
  where
    text_of : Option String → String
    text_of r = elim r [ none ↦ "" | some w ↦ w ]

    choose :
        (same : Bool)
        → text_of (if same then some (String.◌∷◌ c v) else get d j)
          ≡ (if same then String.◌∷◌ c v else version_at d j)
    choose true = refl
    choose false = refl

module _ {N : Type 0} (local : JsonObject N) (local_versions : Dict String)
    (incoming : JsonObject N) (incoming_versions : Dict String) where
  abbrev pub takes : String → Bool
  takes = takes_incoming local local_versions incoming incoming_versions

  -- The value and the version of the side that wins a field.
  abbrev pub winner : String → Option (Value N)
  winner f = if takes f then get incoming f else get local f

  abbrev pub winner_version : String → String
  winner_version f = if takes f then version_at incoming_versions f else version_at local_versions f

  abbrev loop : Merged N → List String → Merged N
  loop = foldl (merge_step local local_versions incoming incoming_versions)

  loop-body :
      (acc : Merged N) (fs : List String) (f : String)
      → get (loop acc fs).body f
        ≡ (if member f fs then fill (winner f) (get acc.body f) else get acc.body f)
  loop-body acc [] f = refl
  loop-body acc (j ∷ fs) f =
      let next = merge_step local local_versions incoming incoming_versions acc j in
      loop-body next fs f
      ∙ (ap (λ g. if member f fs then fill (winner f) g else g)
            (get-put_present acc.body j f (winner j))
          ∙ fill_again (j == f) (member f fs) (winner j) (winner f) (get acc.body f)
              (λ e. ap winner ((eq_iff j f).0 e)))

  loop-versions :
      (acc : Merged N) (fs : List String) (f : String)
      → version_at (loop acc fs).versions f ≡ (
          if member f fs
          then fill_text (winner_version f) (version_at acc.versions f)
          else version_at acc.versions f)
  loop-versions acc [] f = refl
  loop-versions acc (j ∷ fs) f =
      let next = merge_step local local_versions incoming incoming_versions acc j in
      loop-versions next fs f
      ∙ (ap (λ g. if member f fs then fill_text (winner_version f) g else g)
            (version_at-put_nonempty acc.versions j f (winner_version j))
          ∙ fill_text_again (j == f) (member f fs) (winner_version j) (winner_version f)
              (version_at acc.versions f) (λ e. ap winner_version ((eq_iff j f).0 e)))

  loop-changed :
      (acc : Merged N) (fs : List String)
      → (loop acc fs).changed ≡ (acc.changed || some_elem takes fs)
  loop-changed acc [] = ground arith
  loop-changed acc (j ∷ fs) =
      loop-changed (merge_step local local_versions incoming incoming_versions acc j) fs
      ∙ ground arith

  abbrev pub names : List String
  names = data_fields local local_versions incoming incoming_versions

  pub member-names :
      (f : String)
      → member f names
        ≡ ((member f (keys local) || member f (keys incoming)) && not (is_reserved f))
  member-names f =
      member-distinct f (filter (λ k. not (is_reserved k)) (keys local ++ keys incoming))
      ∙ (member-filter f (λ k. not (is_reserved k)) (keys local ++ keys incoming)
          ∙ ap (λ b. b && not (is_reserved f)) (member-append f (keys local) (keys incoming)))

  pub names-absent :
      (f : String)
      → is_reserved f ≡ false
      → member f names ≡ false
      → (get local f ≡ none) × (get incoming f ≡ none)
  names-absent f h m = (
    get-absent local f (ground (arith, member-names f)),
    get-absent incoming f (ground (arith, member-names f)),
  )

  -- What the loop has for a data field: the value of the winner, and its version.
  pub merge_loop-body :
      (f : String)
      → is_reserved f ≡ false
      → get (merge_loop local local_versions incoming incoming_versions).body f ≡ winner f
  unfolding merge_loop get
  merge_loop-body f h =
      loop-body (record { body = []; versions = []; changed = false }) names f
      ∙ by_member (member f names) (λ e. names-absent f h e)
    where
      absent :
          (take : Bool)
          → get local f ≡ none
          → get incoming f ≡ none
          → none ≡ (if take then get incoming f else get local f)
      absent true e g = sym g
      absent false e g = sym e

      by_member :
          (m : Bool)
          → (m ≡ false → (get local f ≡ none) × (get incoming f ≡ none))
          → (if m then fill (winner f) none else none) ≡ winner f
      by_member true h = plain (winner f)
        where
          plain : (r : Option (Value N)) → fill r none ≡ r
          plain none = refl
          plain (some v) = refl
      by_member false h = absent (takes f) (h refl).0 (h refl).1

  pub merge_loop-versions :
      (f : String)
      → member f names ≡ true
      → version_at (merge_loop local local_versions incoming incoming_versions).versions f
        ≡ winner_version f
  unfolding merge_loop get
  merge_loop-versions f h =
      loop-versions (record { body = []; versions = []; changed = false }) names f
      ∙ (ap (λ m. if m then fill_text (winner_version f) "" else "") h ∙ plain (winner_version f))
    where
      plain : (v : String) → fill_text v "" ≡ v
      plain String.[] = refl
      plain (String.◌∷◌ c v) = refl

  pub merge_loop-changed :
      (merge_loop local local_versions incoming incoming_versions).changed ≡ some_elem takes names
  unfolding merge_loop
  merge_loop-changed = loop-changed (record { body = []; versions = []; changed = false }) names

module _ {N : Type 0} (l : JsonObject N) (lv : Dict String) (i : JsonObject N)
    (iv : Dict String) where
  -- The value of the winner where the merge changed nothing.
  pub kept_value :
      (f : String)
      → is_reserved f ≡ false
      → (merge_loop l lv i iv).changed ≡ false
      → get l f ≡ winner l lv i iv f
  kept_value f h e = elim (Bool-cases (member f (names l lv i iv))) [
    | inl present ↦ choose (takes l lv i iv f) (λ t. cc (
        some_elem-member (takes l lv i iv) (names l lv i iv) f
          (sym (merge_loop-changed l lv i iv) ∙ e) present))
    | inr absent ↦
        choose (takes l lv i iv f)
          (λ t. (names-absent l lv i iv f h absent).0 ∙ sym (names-absent l lv i iv f h absent).1)
  ]
    where
      choose :
          (take : Bool)
          → (take ≡ true → get l f ≡ get i f)
          → get l f ≡ (if take then get i f else get l f)
      choose true g = g refl
      choose false g = refl
