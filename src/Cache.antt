-- ===== src/Cache.antt =====
-- internal/engine/graph/lru.go: the bounded cache. `Element` is an element of `container/list`
-- with the `lruEntry` it holds, named by its address `id`; `items` maps a key to that address.
-- The mutex makes each method one step, so a method is a function on the state.
pub mod Chain
pub mod Recency
pub mod Invariant
pub mod Refine
pub mod Resize
pub mod Examples
use mathlib.Core.Option
use code_watch.Prelude.{
  ℕ, zero, suc, ◌+◌, ◌*◌, ◌/◌, String, Option, none, some, List, [], ◌∷◌, Bool, ltb, leb, ◌==◌,
  if◌then◌else◌, length, last?,
}
use code_watch.Prelude.Map
use code_watch.Prelude.Map.{Map}

pub record Element {ℓ} (V : Type ℓ) : Type ℓ where
  pub id : ℕ
  pub key : String
  pub value : V

pub record Lru {ℓ} (V : Type ℓ) : Type ℓ where
  pub capacity : ℕ
  pub items : Map ℕ
  -- front = most recently used
  pub order : List (Element V)
  -- the address of the next element that is allocated
  pub fresh : ℕ

-- `if capacity <= 0 { capacity = 1 }`
unfoldable pub at_least_one : ℕ → ℕ
at_least_one n = if n == 0 then 1 else n

-- `Len() * percentage / 100`, the percentage cut to 100
unfoldable pub prune_target : ℕ → ℕ → ℕ
prune_target percentage n = n * (if ltb 100 percentage then 100 else percentage) / 100

module _ {ℓ} {V : Type ℓ} where
  -- `container/list`: the element at an address, and the list without it
  unfoldable pub find_el : ℕ → List (Element V) → Option (Element V)
  find_el i [] = none
  find_el i (e ∷ l) = if e.id == i then some e else find_el i l

  unfoldable pub remove_el : ℕ → List (Element V) → List (Element V)
  remove_el i [] = []
  remove_el i (e ∷ l) = if e.id == i then l else e ∷ remove_el i l

  unfoldable pub move_to_front : ℕ → List (Element V) → List (Element V)
  move_to_front i l = elim (find_el i l) [ none ↦ l | some e ↦ e ∷ remove_el i l ]

  -- `el.Value.(*lruEntry[K, V]).value = value`
  unfoldable pub set_value : ℕ → V → List (Element V) → List (Element V)
  set_value i v [] = []
  set_value i v (e ∷ l) = if e.id == i then record e { value = v } ∷ l else e ∷ set_value i v l

  -- The read of `el.Value.value` at an address.
  unfoldable pub value_at : ℕ → List (Element V) → Option V
  value_at i l = Option.map (λ e. e.value) (find_el i l)

  -- `NewLRUCache`
  unfoldable pub new_lru : ℕ → Lru V
  unfolding at_least_one
  new_lru capacity = record { capacity = at_least_one capacity; items = []; order = []; fresh = 0 }

  unfoldable pub get : String → Lru V → Option V × Lru V
  get k c = elim (Map.get c.items k) [
    | none ↦ (none, c)
    | some i ↦ (value_at i c.order, record c { order = move_to_front i c.order })
  ]

  unfoldable pub peek : String → Lru V → Option V
  peek k c = elim (Map.get c.items k) [ none ↦ none | some i ↦ value_at i c.order ]

  -- `evictLeastRecentLocked`
  unfoldable pub evict_least_recent : Lru V → Lru V
  evict_least_recent c = elim (last? c.order) [
    | none ↦ c
    | some b ↦ record c { items = Map.delete c.items b.key; order = remove_el b.id c.order }
  ]

  -- The tail of `Put`: a new element at the front, and its address in `items`.
  unfoldable pub push : String → V → Lru V → Lru V
  push k v c = record c {
    items = Map.put c.items k c.fresh;
    order = record { id = c.fresh; key = k; value = v } ∷ c.order;
    fresh = c.fresh + 1;
  }

  unfoldable pub put : String → V → Lru V → Lru V
  put k v c = elim (Map.get c.items k) [
    | some i ↦ record c { order = set_value i v (move_to_front i c.order) }
    | none ↦ push k v (if leb c.capacity (length c.order) then evict_least_recent c else c)
  ]

  unfoldable pub evict : String → Lru V → Lru V
  evict k c = elim (Map.get c.items k) [
    | none ↦ c
    | some i ↦ record c { items = Map.delete c.items k; order = remove_el i c.order }
  ]

  unfoldable pub cache_keys : Lru V → List String
  cache_keys c = Map.keys c.items

  unfoldable pub len : Lru V → ℕ
  len c = length c.order

  unfoldable pub clear : Lru V → Lru V
  clear c = record c { items = []; order = [] }

  -- The counted loop of `Prune`, and the bounded rounds of the loop of `SetCapacity`.
  unfoldable pub evict_times : ℕ → Lru V → Lru V
  evict_times zero c = c
  evict_times (suc n) c = evict_times n (evict_least_recent c)

  -- `for c.order.Len() > c.capacity`, on fuel.
  unfoldable pub shrink : ℕ → Lru V → Lru V
  shrink zero c = c
  shrink (suc fuel) c =
      let rest = shrink fuel (evict_least_recent c) in
      if ltb c.capacity (length c.order) then rest else c

  unfoldable pub set_capacity : ℕ → Lru V → Lru V
  unfolding shrink at_least_one
  set_capacity capacity c =
      let c' = record c { capacity = at_least_one capacity } in shrink (length c.order) c'

  unfoldable pub prune : ℕ → Lru V → ℕ × Lru V
  unfolding prune_target evict_times
  prune percentage c = if percentage == 0 then (0, c) else (
    prune_target percentage (length c.order),
    evict_times (prune_target percentage (length c.order)) c,
  )
