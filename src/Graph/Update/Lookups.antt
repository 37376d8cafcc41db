-- ===== src/Graph/Update/Lookups.antt =====
-- Lookups in the file cache of internal/engine/graph/graph.go after a cache operation.
use code_watch.Prelude.{ℕ, String, true, ◌≡◌, ◌⊎◌, some, [], ◌∷◌, arith, str_eq, eq_iff, init}
use code_watch.Prelude.Map
use code_watch.Prelude.Map.{Map}
use code_watch.Cache.Recency.{touch, store}

pub get-touch : {V : Type 0} (k j : String) (m : Map V) → Map.get (touch k m) j ≡ Map.get m j
unfolding touch Map.get
get-touch k j m = ground (arith, Map.get-delete m k j, eq_iff k j)

pub get-init :
    {V : Type 0} (j : String) (m : Map V) (x : V)
    → Map.get (init m) j ≡ some x
    → Map.get m j ≡ some x
unfolding Map.get
get-init j [] x h = h
get-init j ((k, v) ∷ []) x h = cc
get-init j ((k, v) ∷ (k', v') ∷ m) x h = ground (arith, get-init j ((k', v') ∷ m) x)

pub get-store :
    {V : Type 0} (n : ℕ) (k j : String) (v x : V) (m : Map V)
    → Map.get (store n k v m) j ≡ some x
    → (str_eq k j ≡ true) × (x ≡ v) ⊎ (Map.get m j ≡ some x)
unfolding store Map.get
get-store n k j v x m h = ground (arith, Map.get-delete m k j, get-init j m x, eq_iff k j)
