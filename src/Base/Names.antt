-- ===== src/Base/Names.antt =====
-- Lists and sets of texts: a JavaScript `Set` of texts is the list of its members in insertion order.
use Prim.Native.String.{String}
use mathlib.Core.Path.{◌≡◌, refl, ◌∙◌}
use mathlib.Core.Bool.{Bool, true, false, ◌&&◌, ◌||◌}
use mathlib.Core.Logic.{inl, inr}
use mathlib.Core.Option.{none}
use mathlib.Core.List.{List, [], ◌∷◌, ◌++◌, foldl}
use native.Mathlib.Omega.{arith}
use text.Mathlib.Text.{◌==◌}
use text.Mathlib.TextEquality.{eq_iff}
use text.Mathlib.TextPositions.{eq_refl}
use object_repository.Base.Tests.{Bool-cases, if◌then◌else◌}
use object_repository.Base.Lists.{filter, some_elem}
use object_repository.Base.Dict.{Dict, get, keys}

abbrev pub member : String → List String → Bool
member k [] = false
member k (j ∷ js) = j == k || member k js

-- `set.add(k)`
abbrev pub add : List String → String → List String
add ks k = if member k ks then ks else ks ++ k ∷ []

-- `new Set(ks)`
abbrev pub distinct : List String → List String
distinct ks = foldl add [] ks

pub member-append :
    (k : String) (xs ys : List String) → member k (xs ++ ys) ≡ (member k xs || member k ys)
member-append k [] ys = refl
member-append k (x ∷ xs) ys = ground (arith, member-append k xs ys)

pub member-add : (k j : String) (ks : List String) → member k (add ks j) ≡ (member k ks || j == k)
member-add k j ks = ground (arith, member-append k ks (j ∷ []), eq_iff j k)

member-foldl_add :
    (k : String) (seen ks : List String)
    → member k (foldl add seen ks) ≡ (member k seen || member k ks)
member-foldl_add k seen [] = ground arith
member-foldl_add k seen (j ∷ ks) =
    member-foldl_add k (add seen j) ks ∙ ground (arith, member-add k j seen)

pub member-distinct : (k : String) (ks : List String) → member k (distinct ks) ≡ member k ks
member-distinct k ks = member-foldl_add k [] ks

pub member-filter :
    (k : String) (p : String → Bool) (ks : List String)
    → member k (filter p ks) ≡ (member k ks && p k)
member-filter k p [] = refl
member-filter k p (j ∷ ks) = elim (Bool-cases (p j)) [
  | inl kept ↦ rw kept (ground (arith, member-filter k p ks, eq_iff j k))
  | inr dropped ↦ rw dropped (ground (arith, member-filter k p ks, eq_iff j k))
]

pub get-absent :
    {V : Type 0} → (d : Dict V) (k : String) → member k (keys d) ≡ false → get d k ≡ none
unfolding get
get-absent [] k h = refl
get-absent ((j, v) ∷ d) k h = ground (arith, get-absent d k)

pub absent-get :
    {V : Type 0} → (d : Dict V) (k : String) → get d k ≡ none → member k (keys d) ≡ false
unfolding get
absent-get [] k h = refl
absent-get ((j, v) ∷ d) k h = ground (arith, absent-get d k)

pub some_elem-member :
    (p : String → Bool) (ks : List String) (k : String)
    → some_elem p ks ≡ false
    → member k ks ≡ true
    → p k ≡ false
some_elem-member p [] k h m = cc
some_elem-member p (j ∷ ks) k h m = ground (arith, some_elem-member p ks k, eq_iff j k)

pub some_elem-none :
    (p : String → Bool) (ks : List String)
    → ((k : String) → member k ks ≡ true → p k ≡ false)
    → some_elem p ks ≡ false
some_elem-none p [] h = refl
some_elem-none p (j ∷ ks) h =
    rw (h j (ground (arith, eq_refl j))) (some_elem-none p ks (λ k m. h k (ground (arith))))
