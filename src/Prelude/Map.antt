-- ===== src/Prelude/Map.antt =====
-- Go's `map[string]V` as an association list, one entry for each key. A program that ranges over
-- a map meets the entries in some order; here it is the order of insertion.
use Prim.Native.String.{String}
use mathlib.Core.Path.{◌≡◌, refl}
use mathlib.Core.Bool.{Bool, not, ◌&&◌, ◌||◌}
use mathlib.Core.Option.{Option, none, some}
use mathlib.Core.List.{List, [], ◌∷◌}
use native.Mathlib.Omega.{arith}
use text.Mathlib.TextEquality.{eq_iff}
use code_watch.Prelude.Tests.{if◌then◌else◌, is_some}
use code_watch.Prelude.Strings.{str_eq, contains}

abbrev pub Map {ℓ} : Type ℓ → Type ℓ
Map V = List (String × V)

module _ {ℓ} {V : Type ℓ} where
  -- `v, ok := m[k]`
  unfoldable pub get : Map V → String → Option V
  get [] k = none
  get ((j, v) ∷ m) k = if str_eq j k then some v else get m k

  -- `m[k] = v`
  unfoldable pub put : Map V → String → V → Map V
  put [] k v = (k, v) ∷ []
  put ((j, w) ∷ m) k v = if str_eq j k then (k, v) ∷ m else (j, w) ∷ put m k v

  -- `delete(m, k)`
  unfoldable pub delete : Map V → String → Map V
  delete [] k = []
  delete ((j, w) ∷ m) k = let rest = delete m k in if str_eq j k then rest else (j, w) ∷ rest

  unfoldable pub keys : Map V → List String
  keys [] = []
  keys ((j, w) ∷ m) = j ∷ keys m

  -- `_, ok := m[k]`
  abbrev pub has : Map V → String → Bool
  has m k = is_some (get m k)

  pub get-put :
      (m : Map V) (k j : String) (v : V)
      → get (put m k v) j ≡ (if str_eq k j then some v else get m j)
  unfolding get put
  get-put [] k j v = refl
  get-put ((i, w) ∷ m) k j v = ground (arith, eq_iff k j, eq_iff i k, eq_iff i j, get-put m k j v)

  pub get-delete :
      (m : Map V) (k j : String) → get (delete m k) j ≡ (if str_eq k j then none else get m j)
  unfolding get delete
  get-delete [] k j = ground arith
  get-delete ((i, w) ∷ m) k j = ground (arith, get-delete m k j, eq_iff i k, eq_iff i j, eq_iff k j)

  pub delete_of_none : (m : Map V) (k : String) → get m k ≡ none → delete m k ≡ m
  unfolding get delete
  delete_of_none [] k h = refl
  delete_of_none ((j, w) ∷ m) k h = ground (arith, delete_of_none m k)

  pub contains-keys : (m : Map V) (k : String) → contains k (keys m) ≡ has m k
  unfolding contains keys get
  contains-keys [] k = refl
  contains-keys ((j, w) ∷ m) k = ground (arith, contains-keys m k, eq_iff j k, eq_iff k j)

pub get-empty {ℓ} : {V : Type ℓ} (k : String) → get {V = V} [] k ≡ none
unfolding get
get-empty k = refl

module _ {ℓ} {V : Type ℓ} where
  -- `m[k]` of a map of maps, where a missing key reads as the nil map
  abbrev pub inner : Map (Map V) → String → Map V
  inner m k = elim (get m k) [ none ↦ [] | some row ↦ row ]

  -- `_, ok := m[a][b]`
  abbrev pub cell : Map (Map V) → String → String → Bool
  cell m a b = has (inner m a) b

  pub cell-put :
      (m : Map (Map V)) (a b c d : String) (v : V)
      → cell (put m a (put (inner m a) b v)) c d ≡ ((str_eq a c && str_eq b d) || cell m c d)
  unfolding get
  cell-put m a b c d v = ground (
    arith,
    get-put m a c (put (inner m a) b v),
    get-put (inner m a) b d v,
    eq_iff a c,
    eq_iff b d,
  )

  pub cell-delete :
      (m : Map (Map V)) (a b c d : String)
      → cell (put m a (delete (inner m a) b)) c d ≡ (not (str_eq a c && str_eq b d) && cell m c d)
  unfolding get
  cell-delete m a b c d = ground (
    arith,
    get-put m a c (delete (inner m a) b),
    get-delete (inner m a) b d,
    eq_iff a c,
    eq_iff b d,
  )

  -- A new empty row changes no cell but those of its row.
  pub cell-put_empty :
      (m : Map (Map V)) (a c d : String) → cell (put m a []) c d ≡ (not (str_eq a c) && cell m c d)
  unfolding get
  cell-put_empty m a c d = ground (arith, get-put m a c [], eq_iff a c)

  pub cell-delete_row :
      (m : Map (Map V)) (a c d : String) → cell (delete m a) c d ≡ (not (str_eq a c) && cell m c d)
  unfolding get
  cell-delete_row m a c d = ground (arith, get-delete m a c, eq_iff a c)

pub ruleset map_laws = (get-empty, get-put, get-delete)
