-- ===== src/Cache/Recency.antt =====
-- What internal/engine/graph/lru.go promises: a list of entries, most recently used first, with
-- no index and no addresses.
use code_watch.Prelude.{ℕ, String, none, some, ◌∷◌, leb, if◌then◌else◌, length, init}
use code_watch.Prelude.Map
use code_watch.Prelude.Map.{Map}

module _ {ℓ} {V : Type ℓ} where
  -- A hit moves the entry to the front.
  unfoldable pub touch : String → Map V → Map V
  touch k m = elim (Map.get m k) [ none ↦ m | some v ↦ (k, v) ∷ Map.delete m k ]

  -- A known key is moved to the front with its new value; a new one takes the place of the last
  -- entry if the cache is full.
  unfoldable pub store : ℕ → String → V → Map V → Map V
  store capacity k v m = elim (Map.get m k) [
    | some w ↦ (k, v) ∷ Map.delete m k
    | none ↦ (k, v) ∷ (if leb capacity (length m) then init m else m)
  ]
