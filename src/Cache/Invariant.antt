-- ===== src/Cache/Invariant.antt =====
-- The invariant of internal/engine/graph/lru.go, and the states that the methods lead to.
use mathlib.Core.Option
use code_watch.Prelude.{
  ℕ, ◌+◌, ◌<◌, ◌≤◌, String, ◌≡◌, refl, ap, sym, ◌∙◌, Option, none, some, List, ◌∷◌, arith, eq_iff,
  length,
}
use code_watch.Prelude.Map
use code_watch.Prelude.Map.{Map}
use code_watch.Cache.{
  Element, Lru, find_el, remove_el, move_to_front, set_value, value_at, get, put, push, new_lru,
}
use code_watch.Cache.Recency.{touch}
use code_watch.Cache.Chain.{
  find_key, id_of, entries, Distinct, get-entries, key_of_find_key, find_el_of_find_key,
  find_el-bound, remove_el-Distinct, find_key-remove_el, entries-remove_el, find_key-move_to_front,
  find_el_self_remove, length-remove_el, Distinct-mono, find_el-fresh,
}

abbrev pub view {ℓ} : {V : Type ℓ} → Lru V → Map V
view c = entries c.order

-- The index and the element list agree, and the capacity is respected.
pub record IsValid {ℓ} {V : Type ℓ} (c : Lru V) : Type ℓ where
  pub positive : 0 < c.capacity
  pub bounded : length c.order ≤ c.capacity
  pub distinct : Distinct c.fresh c.order
  pub indexed : (k : String) → Map.get c.items k ≡ id_of k c.order

module _ {ℓ} {V : Type ℓ} where
  pub new_lru-IsValid : (capacity : ℕ) → IsValid (new_lru {V = V} capacity)
  unfolding new_lru find_key Map.get
  new_lru-IsValid capacity = record {
    positive = ground arith;
    bounded = ground arith;
    distinct = tt;
    indexed = λ k. refl;
  }

  -- The element of a key that the index knows.
  module _ (c : Lru V) (k : String) (e : Element V) (v : IsValid c)
      (h : find_key k c.order ≡ some e) where
    abbrev pub moved : List (Element V)
    moved = move_to_front e.id c.order

    pub at_address : find_el e.id c.order ≡ some e
    at_address = find_el_of_find_key c.fresh k c.order e v.distinct h

    pub moved-eq : moved ≡ e ∷ remove_el e.id c.order
    unfolding move_to_front
    moved-eq = ground (arith, at_address)

    hidden : find_key e.key (remove_el e.id c.order) ≡ none
    hidden =
        find_key-remove_el c.fresh k e.key c.order e v.distinct h
        ∙ ground (arith, key_of_find_key k c.order e h, eq_iff k e.key)

    moved-Distinct : Distinct c.fresh moved
    moved-Distinct = rw moved-eq (
      find_el-bound c.fresh e.id c.order e v.distinct at_address,
      find_el_self_remove c.fresh k c.order e v.distinct h,
      hidden,
      remove_el-Distinct c.fresh e.id c.order v.distinct,
    )

    length-moved : length moved ≡ length c.order
    length-moved = rw moved-eq (sym (length-remove_el e.id c.order e at_address))

    pub entries-moved : entries moved ≡ (k, e.value) ∷ Map.delete (view c) k
    unfolding entries
    entries-moved = rw moved-eq (
        ground (
          arith,
          entries-remove_el c.fresh k c.order e v.distinct h,
          key_of_find_key k c.order e h,
        ))

  pub known :
      (c : Lru V) (k : String) (e : Element V)
      → IsValid c
      → find_key k c.order ≡ some e
      → Map.get c.items k ≡ some e.id
  known c k e v h = v.indexed k ∙ ap (Option.map (λ d. d.id)) h

  pub unknown :
      (c : Lru V) (k : String) → IsValid c → find_key k c.order ≡ none → Map.get c.items k ≡ none
  unknown c k v h = v.indexed k ∙ ap (Option.map (λ d. d.id)) h

  pub moved-IsValid :
      (c : Lru V) (k : String) (e : Element V)
      → IsValid c
      → find_key k c.order ≡ some e
      → IsValid (record c { order = move_to_front e.id c.order })
  moved-IsValid c k e v h = record {
    positive = v.positive;
    bounded = rw (length-moved c k e v h) v.bounded;
    distinct = moved-Distinct c k e v h;
    indexed = λ j. v.indexed j ∙ sym (find_key-move_to_front c.fresh k j c.order e v.distinct h);
  }

  pub get-miss :
      (c : Lru V) (k : String) → IsValid c → find_key k c.order ≡ none → get k c ≡ (none, c)
  unfolding get
  get-miss c k v h = rw (unknown c k v h, get)

  pub get-hit :
      (c : Lru V) (k : String) (e : Element V)
      → IsValid c
      → find_key k c.order ≡ some e
      → get k c ≡ (some e.value, record c { order = move_to_front e.id c.order })
  unfolding get value_at
  get-hit c k e v h = rw (known c k e v h, get) (ground (arith, at_address c k e v h))

  pub touch-view :
      (c : Lru V) (k : String) (o : Option (Element V))
      → find_key k c.order ≡ o
      → touch k (view c) ≡ elim o [ none ↦ view c | some e ↦ (k, e.value) ∷ Map.delete (view c) k ]
  unfolding touch
  touch-view c k none h = ground (arith, get-entries k c.order)
  touch-view c k (some e) h = ground (arith, get-entries k c.order)

  pub dropped-IsValid :
      (c : Lru V) (k : String) (e : Element V)
      → IsValid c
      → find_key k c.order ≡ some e
      → IsValid (record c { items = Map.delete c.items k; order = remove_el e.id c.order })
  dropped-IsValid c k e v h = record {
    positive = v.positive;
    bounded = omega (arith, v.bounded, length-remove_el e.id c.order e (at_address c k e v h));
    distinct = remove_el-Distinct c.fresh e.id c.order v.distinct;
    indexed = λ j. ground (
      arith,
      v.indexed j,
      Map.get-delete c.items k j,
      find_key-remove_el c.fresh k j c.order e v.distinct h,
    );
  }

  set_value_front :
      (e : Element V) (l : List (Element V)) (w : V)
      → set_value e.id w (e ∷ l) ≡ record e { value = w } ∷ l
  unfolding set_value
  set_value_front e l w = ground arith

  -- The state after `Put` of a key that is known.
  pub put-hit :
      (c : Lru V) (k : String) (w : V) (e : Element V)
      → IsValid c
      → find_key k c.order ≡ some e
      → put k w c ≡ record c { order = record e { value = w } ∷ remove_el e.id c.order }
  unfolding put
  put-hit c k w e v h =
      rw (known c k e v h, put, moved-eq c k e v h)
        (rw (set_value_front e (remove_el e.id c.order) w))

  pub written-IsValid :
      (c : Lru V) (e : Element V) (l : List (Element V)) (w : V)
      → IsValid (record c { order = e ∷ l })
      → IsValid (record c { order = record e { value = w } ∷ l })
  unfolding find_key
  written-IsValid c e l w v = record {
    positive = v.positive;
    bounded = v.bounded;
    distinct = v.distinct;
    indexed = λ j. ground (arith, v.indexed j);
  }

  pub push-IsValid :
      (c : Lru V) (k : String) (w : V)
      → IsValid c
      → length c.order < c.capacity
      → find_key k c.order ≡ none
      → IsValid (push k w c)
  unfolding push
  push-IsValid c k w v room miss = record {
    positive = v.positive;
    bounded = omega arith;
    distinct = (
      omega arith,
      find_el-fresh c.fresh c.order v.distinct,
      miss,
      Distinct-mono c.fresh (c.fresh + 1) c.order (omega arith) v.distinct,
    );
    indexed = λ j. unfold find_key in ground (arith, v.indexed j, Map.get-put c.items k j c.fresh);
  }
