-- ===== src/Base/Fill.antt =====
-- Loops that write an entry of a map where there is a value for it.
use Prim.Native.String.{String}
use mathlib.Core.Path.{◌≡◌, refl, ◌∙◌, ap}
use mathlib.Core.Bool.{Bool, true, false, ◌||◌}
use mathlib.Core.Option.{Option, none, some}
use mathlib.Core.List.{List, [], ◌∷◌, foldl}
use native.Mathlib.Omega.{arith}
use text.Mathlib.Text.{◌==◌}
use text.Mathlib.TextEquality.{eq_iff}
use object_repository.Base.Tests.{if◌then◌else◌}
use object_repository.Base.Dict.{Dict, get, put, get-put}
use object_repository.Base.Names.{member}

abbrev pub put_present : {V : Type 0} → Dict V → String → Option V → Dict V
put_present d k none = d
put_present d k (some v) = put d k v

-- The first value that is there.
abbrev pub fill : {V : Type 0} → Option V → Option V → Option V
fill none g = g
fill (some v) g = some v

pub fill-none : {V : Type 0} → (v : Option V) → fill v none ≡ v
fill-none none = refl
fill-none (some v) = refl

-- One more step of a loop that fills the entry of a key, whether or not the key comes again.
pub fill_again :
    {V : Type 0}
    → (same again : Bool) (w v g : Option V) → (same ≡ true → w ≡ v)
    → (let next = if same then fill w g else g in if again then fill v next else next)
      ≡ (if same || again then fill v g else g)
fill_again false again w v g e = refl
fill_again true false w v g e = ap (λ x. fill x g) (e refl)
fill_again true true w v g e = rw (e refl) (twice v g)
  where
    twice : {V : Type 0} → (v g : Option V) → fill v (fill v g) ≡ fill v g
    twice none g = refl
    twice (some v) g = refl

pub get-put_present :
    {V : Type 0}
    → (d : Dict V) (k j : String) (v : Option V)
    → get (put_present d k v) j ≡ (if k == j then fill v (get d j) else get d j)
get-put_present d k j none = ground (arith)
get-put_present d k j (some v) = get-put d k j v

-- A loop that copies the entries of a map for the keys of a list.
pub get-foldl-put_present :
    {V : Type 0}
    → (source d : Dict V) (ks : List String) (k : String)
    → get (foldl (λ picked j. put_present picked j (get source j)) d ks) k
      ≡ (if member k ks then fill (get source k) (get d k) else get d k)
get-foldl-put_present source d [] k = refl
get-foldl-put_present source d (j ∷ ks) k =
    get-foldl-put_present source (put_present d j (get source j)) ks k
    ∙ (ap (λ g. if member k ks then fill (get source k) g else g)
          (get-put_present d j k (get source j))
        ∙ fill_again (j == k) (member k ks) (get source j) (get source k) (get d k)
            (λ e. ap (get source) ((eq_iff j k).0 e)))
