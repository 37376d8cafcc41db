-- ===== src/Cache/Resize.antt =====
-- internal/engine/graph/lru.go: `Prune` and `SetCapacity`, next to the recency list.
use code_watch.Prelude.{
  ℕ, zero, suc, ◌+◌, ◌-◌, ◌*◌, ◌/◌, ◌≤◌, ◌≡◌, refl, ap, sym, ◌∙◌, inl, inr, false, List, [], ◌∷◌,
  arith, ◌==◌, ltb, length, init, take, Bool-cases, if◌then◌else◌,
}
use code_watch.Cache.{
  Lru, evict_least_recent, evict_times, prune_target, prune, shrink, set_capacity, at_least_one,
}
use code_watch.Cache.Chain.{entries, length-entries, length-init}
use code_watch.Cache.Invariant.{view, IsValid}
use code_watch.Cache.Refine.{evict_least_recent_refines, length-evict_least_recent}

take_all {ℓ} : {A : Type ℓ} (n : ℕ) (xs : List A) → length xs ≤ n → take n xs ≡ xs
take_all n [] h = refl
take_all zero (x ∷ xs) h = absurd (omega arith)
take_all (suc n) (x ∷ xs) h = ap (◌∷◌ x) (take_all n xs (omega arith))

take-init {ℓ} :
    {A : Type ℓ} (n : ℕ) (xs : List A) → suc n ≤ length xs → take n (init xs) ≡ take n xs
take-init n [] h = refl
take-init zero (x ∷ []) h = refl
take-init (suc n) (x ∷ []) h = absurd (omega arith)
take-init zero (x ∷ y ∷ xs) h = refl
take-init (suc n) (x ∷ y ∷ xs) h = ap (◌∷◌ x) (take-init n (y ∷ xs) (omega arith))

take_none {ℓ} : {A : Type ℓ} (xs : List A) → take 0 xs ≡ []
take_none [] = refl
take_none (x ∷ xs) = refl

take-init_step {ℓ} :
    {A : Type ℓ} (n : ℕ) (xs : List A)
    → take (length (init xs) - n) (init xs) ≡ take (length xs - suc n) xs
take-init_step n [] = refl
take-init_step n (x ∷ xs) = rw (length-init (x ∷ xs)) (
    let same : suc (length xs) - 1 - n ≡ length xs - n = omega arith in
    rw same
      (take-init (length xs - n) (x ∷ xs) (omega arith) ∙ ap (λ m. take m (x ∷ xs)) (omega arith)))

take-sub {ℓ} :
    {A : Type ℓ} (n : ℕ) (xs : List A) → take (length xs - (length xs - n)) xs ≡ take n xs
take-sub n xs = elim (Bool-cases (ltb n (length xs))) [
  | inl some_go ↦ ap (λ m. take m xs) (ground arith)
  | inr all_stay ↦ take_all _ xs (ground arith) ∙ sym (take_all n xs (ground arith))
]

length-take_some {ℓ} : {A : Type ℓ} (n : ℕ) (xs : List A) → n ≤ length xs → length (take n xs) ≡ n
length-take_some n [] h = omega (arith, h)
length-take_some zero (x ∷ xs) h = refl
length-take_some (suc n) (x ∷ xs) h = ap suc (length-take_some n xs (omega (arith, h)))

prune_target_share :
    (percentage n : ℕ) → percentage ≤ 100 → prune_target percentage n ≡ n * percentage / 100
unfolding prune_target
prune_target_share percentage n h = ground (arith, h)

prune_target_all : (percentage n : ℕ) → 100 ≤ percentage → prune_target percentage n ≡ n
unfolding prune_target
prune_target_all percentage n h =
    let cut : (if ltb 100 percentage then 100 else percentage) ≡ 100 = ground (arith, h) in
    ap (λ k. n * k / 100) cut ∙ omega arith

share_bounded : (n k : ℕ) → k ≤ 100 → n * k / 100 ≤ n
share_bounded n k h =
    let whole : k + (100 - k) ≡ 100 = omega (arith, h) in
    let split : n * k + n * (100 - k) ≡ n * 100 = grind (arith, ap (λ x. n * x) whole) in
    omega (arith, split)

prune_target_bounded : (percentage n : ℕ) → prune_target percentage n ≤ n
unfolding prune_target
prune_target_bounded percentage n =
    share_bounded n (if ltb 100 percentage then 100 else percentage) (ground arith)

module _ {ℓ} {V : Type ℓ} where
  -- Each round of the loop drops the last entry.
  evict_times_refines :
      (n : ℕ) (c : Lru V)
      → IsValid c
      → (view (evict_times n c) ≡ take (length (view c) - n) (view c)) × IsValid (evict_times n c)
  unfolding evict_times
  evict_times_refines zero c v = (sym (take_all _ (view c) (omega arith)), v)
  evict_times_refines (suc n) c v =
      let (last_out, v') = evict_least_recent_refines c v in
      let (kept, v'') = evict_times_refines n (evict_least_recent c) v' in
      (kept ∙ ap (λ m. take (length m - n) m) last_out ∙ take-init_step n (view c), v'')

  prune_by_target :
      (percentage : ℕ) (c : Lru V)
      → IsValid c
      → ((prune percentage c).0 ≡ prune_target percentage (length (view c)))
        × (view (prune percentage c).1
            ≡ take (length (view c) - prune_target percentage (length (view c))) (view c))
        × IsValid (prune percentage c).1
  unfolding prune_target prune entries
  prune_by_target zero c v = (omega arith, sym (take_all _ (view c) (omega arith)), v)
  prune_by_target (suc p) c v =
      let (kept, v') = evict_times_refines (prune_target (suc p) (length c.order)) c v in
      let asked : (suc p == 0) ≡ false = ground arith in
      rw (asked, prune)
        (
          ap (prune_target (suc p)) (sym (length-entries c.order)),
          kept
              ∙ ap (λ m. take (length (view c) - prune_target (suc p) m) (view c))
                  (sym (length-entries c.order)),
          v',
        )

  -- On a valid cache `Prune` reports as many entries as it removes. That is the percentage of the
  -- entries rounded down, or all of them from 100 on. What it keeps are the most recently used
  -- entries, and the cache stays valid.
  pub prune_refines :
      (percentage : ℕ) (c : Lru V)
      → IsValid c
      → ((prune percentage c).0 + length (view (prune percentage c).1) ≡ length (view c))
        × (percentage ≤ 100 → (prune percentage c).0 ≡ length (view c) * percentage / 100)
        × (100 ≤ percentage → (prune percentage c).0 ≡ length (view c))
        × (view (prune percentage c).1 ≡ take (length (view c) - (prune percentage c).0) (view c))
        × IsValid (prune percentage c).1
  prune_refines percentage c v =
      let (reports, kept, v') = prune_by_target percentage c v in
      let n = length (view c) in
      let most = prune_target_bounded percentage n in
      (
        omega (
          arith,
          reports,
          most,
          ap length kept,
          length-take_some (n - prune_target percentage n) (view c) (omega arith),
        ),
        λ few. reports ∙ prune_target_share percentage n few,
        λ many. reports ∙ prune_target_all percentage n many,
        kept ∙ ap (λ k. take (n - k) (view c)) (sym reports),
        v',
      )

  evict_least_recent-capacity :
      (n : ℕ) (c : Lru V)
      → evict_least_recent (record c { capacity = n })
        ≡ record (evict_least_recent c) { capacity = n }
  unfolding evict_least_recent
  evict_least_recent-capacity n c = ground arith

  -- With fuel for every entry the loop of `SetCapacity` ends by its test.
  shrink-eq :
      (fuel n : ℕ) (c : Lru V)
      → IsValid c
      → length c.order ≤ fuel
      → shrink fuel (record c { capacity = n })
        ≡ record (evict_times (length c.order - n) c) { capacity = n }
  unfolding shrink evict_times
  shrink-eq zero n c v h =
      let none_over : length c.order - n ≡ 0 = omega arith in rw (none_over, evict_times)
  shrink-eq (suc fuel) n c v h = elim (Bool-cases (ltb n (length c.order))) [
    | inr fits ↦
        let none_over : length c.order - n ≡ 0 = ground arith in
        rw (fits, shrink, none_over, evict_times)
    | inl over ↦
        let c' = evict_least_recent c in
        let v' = (evict_least_recent_refines c v).1 in
        let shorter = length-evict_least_recent c v in
        let one_more : length c.order - n ≡ suc (length c'.order - n) = ground (arith, shorter) in
        rw (over, shrink, one_more, evict_times, evict_least_recent-capacity)
          (shrink-eq fuel n c' v' (omega (arith, shorter)))
  ]

  length-evict_times :
      (n : ℕ) (c : Lru V) → IsValid c → length (evict_times n c).order ≡ length c.order - n
  unfolding evict_times
  length-evict_times zero c v = omega arith
  length-evict_times (suc n) c v = omega (
    arith,
    length-evict_times n (evict_least_recent c) (evict_least_recent_refines c v).1,
    length-evict_least_recent c v,
  )

  -- On a valid cache `SetCapacity` makes the argument the capacity, or 1 for 0, keeps the most
  -- recently used entries that fit, and the cache is valid under the new capacity. One round for
  -- each entry is enough for its loop.
  pub set_capacity_refines :
      (n : ℕ) (c : Lru V)
      → IsValid c
      → ((set_capacity n c).capacity ≡ at_least_one n)
        × (view (set_capacity n c) ≡ take (at_least_one n) (view c))
        × IsValid (set_capacity n c)
  unfolding set_capacity
  set_capacity_refines n c v =
      let (kept, v') = evict_times_refines (length c.order - at_least_one n) c v in
      rw (shrink-eq (length c.order) (at_least_one n) c v (omega arith)) (
        refl,
        kept
            ∙ ap (λ m. take (length (view c) - (m - at_least_one n)) (view c))
                (sym (length-entries c.order))
            ∙ take-sub (at_least_one n) (view c),
        record {
          positive = unfold at_least_one in ground arith;
          bounded = omega (arith, length-evict_times (length c.order - at_least_one n) c v);
          distinct = v'.distinct;
          indexed = v'.indexed;
        },
      )
