-- ===== src/Cache/Refine.antt =====
-- internal/engine/graph/lru.go: each method next to the operation of `Recency` that it is to implement.
use mathlib.Core.Option
use code_watch.Prelude.{
  ◌-◌, String, ◌≡◌, refl, ap, sym, ◌∙◌, inl, inr, none, some, ◌∷◌, arith, leb, if◌then◌else◌,
  length, init, last?, Bool-cases, Option-cases,
}
use code_watch.Prelude.Map
use code_watch.Prelude.Map.{Map}
use code_watch.Cache.{Lru, remove_el, value_at, get, peek, put, push, evict, evict_least_recent}
use code_watch.Cache.Recency.{touch, store}
use code_watch.Cache.Invariant.{
  view, IsValid, known, unknown, at_address, moved-eq, moved-IsValid, get-miss, get-hit, touch-view,
  entries-moved, dropped-IsValid, put-hit, written-IsValid, push-IsValid,
}
use code_watch.Cache.Chain.{
  find_key, entries, length-entries, get-entries, key_of_find_key, entries-remove_el,
  find_key_of_last?, entries-remove_last, last?-cases, find_key-remove_el-none, length-init,
}

module _ {ℓ} {V : Type ℓ} where
  -- On a valid cache `Get` returns what the recency list holds and moves a hit to its front, and the
  -- cache stays valid.
  pub get_refines :
      (k : String) (c : Lru V)
      → IsValid c
      → ((get k c).0 ≡ Map.get (view c) k)
        × (view (get k c).1 ≡ touch k (view c))
        × IsValid (get k c).1
  get_refines k c v = elim (Option-cases (find_key k c.order)) [
    | inl miss ↦ rw (get-miss c k v miss) (
      sym (get-entries k c.order ∙ ap (Option.map (λ d. d.value)) miss),
      sym (touch-view c k none miss),
      v,
    )
    | inr (e, hit) ↦ rw (get-hit c k e v hit) (
      sym (get-entries k c.order ∙ ap (Option.map (λ d. d.value)) hit),
      entries-moved c k e v hit ∙ sym (touch-view c k (some e) hit),
      moved-IsValid c k e v hit,
    )
  ]

  -- `Peek` reads the same value.
  pub peek_refines : (k : String) (c : Lru V) → IsValid c → peek k c ≡ Map.get (view c) k
  unfolding peek value_at
  peek_refines k c v = elim (Option-cases (find_key k c.order)) [
    | inl miss ↦
        rw (unknown c k v miss, peek)
          (sym (get-entries k c.order ∙ ap (Option.map (λ d. d.value)) miss))
    | inr (e, hit) ↦
        rw (known c k e v hit, peek) (ground (arith, at_address c k e v hit, get-entries k c.order))
  ]

  -- On a valid cache `Evict` removes exactly its key's entry from the recency list, and the cache
  -- stays valid.
  pub evict_refines :
      (k : String) (c : Lru V)
      → IsValid c
      → (view (evict k c) ≡ Map.delete (view c) k) × IsValid (evict k c)
  unfolding evict
  evict_refines k c v = elim (Option-cases (find_key k c.order)) [
    | inl miss ↦
        rw (unknown c k v miss, evict)
          (
            sym (
                Map.delete_of_none (view c) k
                  (get-entries k c.order ∙ ap (Option.map (λ d. d.value)) miss)),
            v,
          )
    | inr (e, hit) ↦
        rw (known c k e v hit, evict)
          (entries-remove_el c.fresh k c.order e v.distinct hit, dropped-IsValid c k e v hit)
  ]

  -- The least recently used entry is the last one.
  pub evict_least_recent_refines :
      (c : Lru V)
      → IsValid c
      → (view (evict_least_recent c) ≡ init (view c)) × IsValid (evict_least_recent c)
  unfolding evict_least_recent entries
  evict_least_recent_refines c v = elim (last?-cases c.order) [
    | inl empty ↦
        let none_last : last? c.order ≡ none = ap last? empty in
        rw (none_last, evict_least_recent) (ground (arith, empty), v)
    | inr (b, last) ↦
        let found = find_key_of_last? c.fresh c.order b v.distinct last in
        rw (last, evict_least_recent)
          (entries-remove_last c.fresh c.order b v.distinct last, dropped-IsValid c b.key b v found)
  ]

  pub length-evict_least_recent :
      (c : Lru V) → IsValid c → length (evict_least_recent c).order ≡ length c.order - 1
  length-evict_least_recent c v = omega (
    arith,
    length-entries (evict_least_recent c).order,
    ap length (evict_least_recent_refines c v).0,
    length-init (view c),
    length-entries c.order,
  )

  pub capacity-evict_least_recent : (c : Lru V) → (evict_least_recent c).capacity ≡ c.capacity
  unfolding evict_least_recent
  capacity-evict_least_recent c = ground arith

  miss-evict_least_recent :
      (c : Lru V) (k : String)
      → find_key k c.order ≡ none
      → find_key k (evict_least_recent c).order ≡ none
  unfolding evict_least_recent
  miss-evict_least_recent c k miss = elim (last?-cases c.order) [
    | inl empty ↦ rw (ap last? empty, evict_least_recent) miss
    | inr (b, last) ↦ rw (last, evict_least_recent) (find_key-remove_el-none b.id k c.order miss)
  ]

  abbrev room_made : Lru V → Lru V
  room_made c = if leb c.capacity (length c.order) then evict_least_recent c else c

  put-miss :
      (c : Lru V) (k : String) (w : V)
      → IsValid c
      → find_key k c.order ≡ none
      → put k w c ≡ push k w (room_made c)
  unfolding put
  put-miss c k w v miss = rw (unknown c k v miss, put)

  store-miss :
      (c : Lru V) (k : String) (w : V)
      → find_key k c.order ≡ none
      → store c.capacity k w (view c)
        ≡ (k, w) ∷ (if leb c.capacity (length c.order) then init (view c) else view c)
  unfolding store
  store-miss c k w miss = ground (arith, get-entries k c.order, length-entries c.order)

  view-push : (c : Lru V) (k : String) (w : V) → view (push k w c) ≡ (k, w) ∷ view c
  unfolding push entries
  view-push c k w = refl

  -- On a valid cache `Put` does what `store` says of the recency list, evicting the last entry if
  -- a new key meets a full cache, and the cache stays valid.
  pub put_refines :
      (k : String) (w : V) (c : Lru V)
      → IsValid c
      → (view (put k w c) ≡ store c.capacity k w (view c)) × IsValid (put k w c)
  unfolding store entries
  put_refines k w c v = elim (Option-cases (find_key k c.order)) [
    | inr (e, hit) ↦ rw (put-hit c k w e v hit) (
      ground (
        arith,
        get-entries k c.order,
        key_of_find_key k c.order e hit,
        entries-remove_el c.fresh k c.order e v.distinct hit,
      ),
      written-IsValid c e (remove_el e.id c.order) w
          (rw (moved-eq c k e v hit) at (moved-IsValid c k e v hit)),
    )
    | inl miss ↦ elim (Bool-cases (leb c.capacity (length c.order))) [
      | inl full ↦
          let (last_out, v') = evict_least_recent_refines c v in
          rw (put-miss c k w v miss, store-miss c k w miss, full)
            (
              view-push (evict_least_recent c) k w ∙ ap (◌∷◌ (k, w)) last_out,
              push-IsValid (evict_least_recent c) k w v'
                  (omega (
                    arith,
                    v.positive,
                    v.bounded,
                    length-evict_least_recent c v,
                    capacity-evict_least_recent c,
                  ))
                  (miss-evict_least_recent c k miss),
            )
      | inr room ↦
          rw (put-miss c k w v miss, store-miss c k w miss, room)
            (view-push c k w, push-IsValid c k w v (ground arith) miss)
    ]
  ]
