-- ===== src/Cache/Chain.antt =====
-- Lemmas on the element list of internal/engine/graph/lru.go: with distinct addresses and keys,
-- an element that is found by its key is the one at its address.
use mathlib.Core.Option
use code_watch.Prelude.{
  ℕ, ◌-◌, ◌<◌, ◌≤◌, suc, String, ◌≡◌, refl, ap, ◌⊎◌, inl, inr, Option, none, some, List, [], ◌∷◌,
  arith, ◌==◌, str_eq, eq_iff, if◌then◌else◌, length, init, last?, Bool-cases, Option-cases,
  str_eq_refl,
}
use code_watch.Prelude.Map
use code_watch.Prelude.Map.{Map}
use code_watch.Cache.{Element, find_el, remove_el, move_to_front}

module _ {ℓ} {V : Type ℓ} where
  unfoldable pub find_key : String → List (Element V) → Option (Element V)
  find_key k [] = none
  find_key k (e ∷ l) = if str_eq e.key k then some e else find_key k l

  abbrev pub id_of : String → List (Element V) → Option ℕ
  id_of k l = Option.map (λ e. e.id) (find_key k l)

  -- The entries of the list, as the abstract cache holds them.
  unfoldable pub entries : List (Element V) → Map V
  entries [] = []
  entries (e ∷ l) = (e.key, e.value) ∷ entries l

  -- No two elements share an address or a key, and every address is below `n`.
  abbrev pub Distinct : ℕ → List (Element V) → Type ℓ
  Distinct n [] = Unit
  Distinct n (e ∷ l) =
      (e.id < n) × (find_el e.id l ≡ none) × (find_key e.key l ≡ none) × Distinct n l

  pub length-entries : (l : List (Element V)) → length (entries l) ≡ length l
  unfolding entries
  length-entries [] = refl
  length-entries (e ∷ l) = ap suc (length-entries l)

  pub get-entries :
      (k : String) (l : List (Element V))
      → Map.get (entries l) k ≡ Option.map (λ e. e.value) (find_key k l)
  unfolding entries find_key Map.get
  get-entries k [] = refl
  get-entries k (e ∷ l) = ground (arith, get-entries k l)

  -- What is found by a key has that key.
  pub key_of_find_key :
      (k : String) (l : List (Element V)) (e : Element V) → find_key k l ≡ some e → e.key ≡ k
  unfolding find_key
  key_of_find_key k [] e h = cc
  key_of_find_key k (d ∷ l) e h = ground (arith, key_of_find_key k l e, eq_iff d.key k)

  pub id_of_find_el :
      (i : ℕ) (l : List (Element V)) (e : Element V) → find_el i l ≡ some e → e.id ≡ i
  unfolding find_el
  id_of_find_el i [] e h = cc
  id_of_find_el i (d ∷ l) e h = ground (arith, id_of_find_el i l e)

  pub find_el_of_find_key :
      (n : ℕ) (k : String) (l : List (Element V)) (e : Element V)
      → Distinct n l
      → find_key k l ≡ some e
      → find_el e.id l ≡ some e
  unfolding find_key find_el
  find_el_of_find_key n k [] e d h = cc
  find_el_of_find_key n k (x ∷ l) e d h =
      ground (arith, find_el_of_find_key n k l e, eq_iff x.key k)

  pub find_el-bound :
      (n i : ℕ) (l : List (Element V)) (e : Element V)
      → Distinct n l
      → find_el i l ≡ some e
      → e.id < n
  unfolding find_el
  find_el-bound n i [] e d h = cc
  find_el-bound n i (x ∷ l) e d h = ground (arith, find_el-bound n i l e)

  pub find_el-remove_el :
      (i j : ℕ) (l : List (Element V)) → find_el j l ≡ none → find_el j (remove_el i l) ≡ none
  unfolding find_el remove_el
  find_el-remove_el i j [] h = refl
  find_el-remove_el i j (x ∷ l) h = ground (arith, find_el-remove_el i j l)

  pub find_key-remove_el-none :
      (i : ℕ) (k : String) (l : List (Element V))
      → find_key k l ≡ none
      → find_key k (remove_el i l) ≡ none
  unfolding find_key remove_el
  find_key-remove_el-none i k [] h = refl
  find_key-remove_el-none i k (x ∷ l) h = ground (arith, find_key-remove_el-none i k l)

  pub remove_el-Distinct :
      (n i : ℕ) (l : List (Element V)) → Distinct n l → Distinct n (remove_el i l)
  unfolding remove_el
  remove_el-Distinct n i [] d = d
  remove_el-Distinct n i (x ∷ l) d = elim (Bool-cases (x.id == i)) [
    | inl hit ↦ rw hit d.3
    | inr miss ↦ rw miss (
      d.0,
      find_el-remove_el i x.id l d.1,
      find_key-remove_el-none i x.key l d.2,
      remove_el-Distinct n i l d.3,
    )
  ]

  -- Taking out the element of the key `k` hides `k` and no other key.
  pub find_key-remove_el :
      (n : ℕ) (k j : String) (l : List (Element V)) (e : Element V)
      → Distinct n l
      → find_key k l ≡ some e
      → find_key j (remove_el e.id l) ≡ (if str_eq k j then none else find_key j l)
  unfolding find_key remove_el
  find_key-remove_el n k j [] e d h = cc
  find_key-remove_el n k j (x ∷ l) e d h = ground (
    arith,
    find_key-remove_el n k j l e,
    find_el_of_find_key n k l e,
    eq_iff x.key k,
    eq_iff x.key j,
    eq_iff k j,
  )

  pub entries-remove_el :
      (n : ℕ) (k : String) (l : List (Element V)) (e : Element V)
      → Distinct n l
      → find_key k l ≡ some e
      → entries (remove_el e.id l) ≡ Map.delete (entries l) k
  unfolding find_key remove_el entries Map.delete
  entries-remove_el n k [] e d h = cc
  entries-remove_el n k (x ∷ l) e d h = ground (
    arith,
    entries-remove_el n k l e,
    find_el_of_find_key n k l e,
    get-entries k l,
    Map.delete_of_none (entries l) k,
    eq_iff x.key k,
  )

  -- Moving the element of a key to the front is `touch` on the entries, and keeps the keys' map.
  pub find_key-move_to_front :
      (n : ℕ) (k j : String) (l : List (Element V)) (e : Element V)
      → Distinct n l
      → find_key k l ≡ some e
      → id_of j (move_to_front e.id l) ≡ id_of j l
  unfolding move_to_front find_key
  find_key-move_to_front n k j l e d h = ground (
    arith,
    find_el_of_find_key n k l e d h,
    find_key-remove_el n k j l e d h,
    key_of_find_key k l e h,
    eq_iff k j,
  )

  pub find_el_self_remove :
      (n : ℕ) (k : String) (l : List (Element V)) (e : Element V)
      → Distinct n l
      → find_key k l ≡ some e
      → find_el e.id (remove_el e.id l) ≡ none
  unfolding find_key find_el remove_el
  find_el_self_remove n k [] e d h = cc
  find_el_self_remove n k (x ∷ l) e d h =
      ground (arith, find_el_self_remove n k l e, find_el_of_find_key n k l e)

  pub length-remove_el :
      (i : ℕ) (l : List (Element V)) (e : Element V)
      → find_el i l ≡ some e
      → length l ≡ suc (length (remove_el i l))
  unfolding find_el remove_el
  length-remove_el i [] e h = cc
  length-remove_el i (x ∷ l) e h = ground (arith, length-remove_el i l e)

  pub find_key_of_last? :
      (n : ℕ) (l : List (Element V)) (b : Element V)
      → Distinct n l
      → last? l ≡ some b
      → find_key b.key l ≡ some b
  unfolding find_key
  find_key_of_last? n [] b d h = cc
  find_key_of_last? n (x ∷ []) b d h = ground (arith, str_eq_refl x.key)
  find_key_of_last? n (x ∷ y ∷ l) b d h =
      ground (arith, find_key_of_last? n (y ∷ l) b, eq_iff x.key b.key)

  -- Without its last element the list holds the entries but the last.
  pub entries-remove_last :
      (n : ℕ) (l : List (Element V)) (b : Element V)
      → Distinct n l
      → last? l ≡ some b
      → entries (remove_el b.id l) ≡ init (entries l)
  unfolding find_el find_key remove_el entries
  entries-remove_last n [] b d h = cc
  entries-remove_last n (x ∷ []) b d h = ground arith
  entries-remove_last n (x ∷ y ∷ l) b d h = elim (Bool-cases (x.id == b.id)) [
    | inl same ↦ absurd (
        ground
          (arith, find_el_of_find_key n b.key (y ∷ l) b d.3 (find_key_of_last? n (y ∷ l) b d.3 h)))
    | inr other ↦ rw other (ap (◌∷◌ (x.key, x.value)) (entries-remove_last n (y ∷ l) b d.3 h))
  ]

  pub last?-cases : (l : List (Element V)) → (l ≡ []) ⊎ ((b : Element V) × (last? l ≡ some b))
  last?-cases [] = inl refl
  last?-cases (x ∷ []) = inr (x, refl)
  last?-cases (x ∷ y ∷ l) = elim (last?-cases (y ∷ l)) [
    | inl empty ↦ inr (x, cc)
    | inr found ↦ inr found
  ]

  pub Distinct-mono : (n m : ℕ) (l : List (Element V)) → n ≤ m → Distinct n l → Distinct m l
  Distinct-mono n m [] h d = d
  Distinct-mono n m (x ∷ l) h d = (omega arith, d.1, d.2, Distinct-mono n m l h d.3)

  pub find_el-fresh : (n : ℕ) (l : List (Element V)) → Distinct n l → find_el n l ≡ none
  find_el-fresh n l d = elim (Option-cases (find_el n l)) [
    | inl e ↦ e
    | inr (e, found) ↦
        absurd (omega (arith, id_of_find_el n l e found, find_el-bound n n l e d found))
  ]

pub length-init {ℓ} : {A : Type ℓ} (xs : List A) → length (init xs) ≡ length xs - 1
length-init [] = refl
length-init (x ∷ []) = refl
length-init (x ∷ y ∷ xs) = omega (arith, length-init (y ∷ xs))
