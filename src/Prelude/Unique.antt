-- ===== src/Prelude/Unique.antt =====
-- Lists of keys without repeats, as the `seen` maps of a loop find them.
use Prim.Native.String.{String}
use mathlib.Core.Path.{◌≡◌, refl}
use mathlib.Core.Bool.{Bool, true, not, ◌&&◌}
use mathlib.Core.List.{List, [], ◌∷◌}
use native.Mathlib.Omega.{arith}
use text.Mathlib.TextEquality.{eq_iff}
use code_watch.Prelude.Strings.{contains}

-- No key occurs twice.
unfoldable pub unique : List String → Bool
unfolding contains
unique [] = true
unique (k ∷ ks) = not (contains k ks) && unique ks

-- No key is one of those seen.
abbrev pub fresh : List String → List String → Bool
unfolding contains
fresh seen [] = true
fresh seen (k ∷ ks) = not (contains k seen) && fresh seen ks

-- What a loop finds that keeps the keys it has seen.
abbrev pub unique_after : List String → List String → Bool
unfolding contains
unique_after seen [] = true
unique_after seen (k ∷ ks) = not (contains k seen) && unique_after (k ∷ seen) ks

abbrev pub all {ℓ} : {A : Type ℓ} → (A → Bool) → List A → Bool
all p [] = true
all p (x ∷ xs) = p x && all p xs

fresh-cons :
    (k : String) (seen ks : List String)
    → fresh (k ∷ seen) ks ≡ (not (contains k ks) && fresh seen ks)
unfolding contains
fresh-cons k seen [] = refl
fresh-cons k seen (j ∷ ks) = ground (arith, fresh-cons k seen ks, eq_iff j k, eq_iff k j)

pub unique_after-split :
    (seen ks : List String) → unique_after seen ks ≡ (fresh seen ks && unique ks)
unfolding contains unique
unique_after-split seen [] = refl
unique_after-split seen (k ∷ ks) =
    ground (arith, unique_after-split (k ∷ seen) ks, fresh-cons k seen ks)

fresh-empty : (ks : List String) → fresh [] ks ≡ true
unfolding contains
fresh-empty [] = refl
fresh-empty (k ∷ ks) = fresh-empty ks

pub unique_after-empty : (ks : List String) → unique_after [] ks ≡ unique ks
unique_after-empty ks = ground (arith, unique_after-split [] ks, fresh-empty ks)
