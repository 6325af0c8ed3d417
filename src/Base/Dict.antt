-- ===== src/Base/Dict.antt =====
-- A JavaScript object or `Map` with text keys, as its entries in insertion order: `put` keeps the
-- place of a key that is there and appends a new one. (Object keys that spell array indices, which
-- JavaScript lists first, and the names of `Object.prototype` are left out.)
use mathlib.Core.Path.{◌≡◌, refl}
use mathlib.Core.Logic.{◌≢◌}
use mathlib.Core.Option.{Option, none, some}
use mathlib.Core.List.{List, [], ◌∷◌, map}
use native.Mathlib.Omega.{arith}
use Prim.Native.String.{String}
use text.Mathlib.Text.{◌==◌}
use text.Mathlib.TextEquality.{eq_iff}
use text.Mathlib.TextPositions.{eq_refl}
use object_repository.Base.Tests.{if◌then◌else◌}

abbrev pub Dict {ℓ} : Type ℓ → Type ℓ
Dict V = List (String × V)

module _ {ℓ} {V : Type ℓ} where
  unfoldable pub get : Dict V → String → Option V
  get [] k = none
  get ((j, v) ∷ d) k = if j == k then some v else get d k

  unfoldable pub put : Dict V → String → V → Dict V
  put [] k v = (k, v) ∷ []
  put ((j, w) ∷ d) k v = if j == k then (j, v) ∷ d else (j, w) ∷ put d k v

  unfoldable pub remove : Dict V → String → Dict V
  remove [] k = []
  remove ((j, w) ∷ d) k = let rest = remove d k in if j == k then rest else (j, w) ∷ rest

  abbrev pub keys : Dict V → List String
  keys d = map (λ e. e.0) d

  abbrev pub values : Dict V → List V
  values d = map (λ e. e.1) d

  pub get-put :
      (d : Dict V) (k j : String) (v : V) → get (put d k v) j ≡ (if k == j then some v else get d j)
  unfolding get put
  get-put [] k j v = refl
  get-put ((i, w) ∷ d) k j v = ground (arith, get-put d k j v, eq_iff i k, eq_iff i j, eq_iff k j)

  pub get-remove :
      (d : Dict V) (k j : String) → get (remove d k) j ≡ (if k == j then none else get d j)
  unfolding get remove
  get-remove [] k j = ground arith
  get-remove ((i, w) ∷ d) k j = ground (arith, get-remove d k j, eq_iff i k, eq_iff i j, eq_iff k j)

  pub get-empty : (k : String) → get [] k ≡ none
  unfolding get
  get-empty k = refl

  pub get-put_self : (d : Dict V) (k : String) (v : V) → get (put d k v) k ≡ some v
  get-put_self d k v = simp (get-put, eq_refl)

  pub get-put_ne : (d : Dict V) (k j : String) (v : V) → k ≢ j → get (put d k v) j ≡ get d j
  get-put_ne d k j v h = ground (arith, get-put d k j v, eq_iff k j)

pub ruleset dict_laws = (get-put, get-remove, get-empty)
