-- ===== src/Cache/Examples.antt =====
-- Runs of the cache, and the theorems at them.
use code_watch.Prelude.{◌+◌, ◌*◌, ◌/◌, ◌≤◌, ◌-◌, length, ℕ, ◌-◌, ◌≡◌, refl, [], ◌∷◌, length, take}
use code_watch.Prelude.Map
use code_watch.Cache.Chain.{entries}
use code_watch.Cache.{
  push, move_to_front, evict_least_recent, find_el, remove_el, value_at, set_value, Lru, new_lru,
  get, put, evict, prune, set_capacity, at_least_one,
}
use code_watch.Cache.Recency.{touch, store}
use code_watch.Cache.Invariant.{view, IsValid, new_lru-IsValid}
use code_watch.Cache.Refine.{get_refines, put_refines, evict_refines}
use code_watch.Cache.Resize.{prune_refines, set_capacity_refines}

abbrev two : Lru ℕ
two = put "b" 2 (put "a" 1 (new_lru 2))

two-IsValid : IsValid two
two-IsValid = (put_refines "b" 2 _ (put_refines "a" 1 _ (new_lru-IsValid 2)).1).1

-- "a" is touched, so "b" is the one that makes room for "c".
evicts_least_recent : view (put "c" 3 (get "a" two).1) ≡ ("c", 3) ∷ ("a", 1) ∷ []
unfolding get put new_lru push move_to_front evict_least_recent find_el remove_el value_at set_value
    at_least_one entries Map.get Map.put Map.delete
evicts_least_recent = refl

get_refines_example :
    ((get "a" two).0 ≡ Map.get (view two) "a")
    × (view (get "a" two).1 ≡ touch "a" (view two))
    × IsValid (get "a" two).1
get_refines_example = get_refines "a" two two-IsValid

put_refines_example :
    (view (put "c" 3 two) ≡ store two.capacity "c" 3 (view two)) × IsValid (put "c" 3 two)
put_refines_example = put_refines "c" 3 two two-IsValid

evict_refines_example : (view (evict "a" two) ≡ Map.delete (view two) "a") × IsValid (evict "a" two)
evict_refines_example = evict_refines "a" two two-IsValid

prune_refines_example :
    ((prune 50 two).0 + length (view (prune 50 two).1) ≡ length (view two))
    × (50 ≤ 100 → (prune 50 two).0 ≡ length (view two) * 50 / 100)
    × (100 ≤ 50 → (prune 50 two).0 ≡ length (view two))
    × (view (prune 50 two).1 ≡ take (length (view two) - (prune 50 two).0) (view two))
    × IsValid (prune 50 two).1
prune_refines_example = prune_refines 50 two two-IsValid

set_capacity_refines_example :
    ((set_capacity 0 two).capacity ≡ at_least_one 0)
    × (view (set_capacity 0 two) ≡ take (at_least_one 0) (view two))
    × IsValid (set_capacity 0 two)
set_capacity_refines_example = set_capacity_refines 0 two two-IsValid
