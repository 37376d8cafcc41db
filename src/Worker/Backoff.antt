-- ===== src/Worker/Backoff.antt =====
-- internal/core/app/write_worker.go: the delay before a retry.
use Prim.Native.Nat.pow
use code_watch.Prelude.{
  ℕ, zero, suc, ◌-◌, ◌*◌, ◌^◌, ◌+◌, ◌%◌, ◌≤◌, ◌<◌, ◌≡◌, refl, ap, Bool, ◌∙◌, arith, ltb, leb,
  if◌then◌else◌, inl, inr, Bool-cases,
}
use code_watch.Worker.{
  WriteQueueConfig, base_delay, max_delay, twice, at_most, doubled, backoff_delay,
}

abbrev pub smaller : ℕ → ℕ → ℕ
smaller a b = if ltb a b then a else b

shift : (n d : ℕ) → d * 2 * 2 ^ n ≡ d * 2 ^ suc n
shift n d = grind (arith, pow.suc 2 n)

grows : (n d : ℕ) → d ≤ d * 2 ^ n
grows zero d = grind (arith, pow.zero 2)
grows (suc n) d = omega (arith, shift n d, grows n (d * 2))

-- Below 2 ^ 62 nanoseconds a doubling does not wrap.
twice_small : (d : ℕ) → d < 4611686018427387904 → twice d ≡ d * 2
twice_small d h = omega (arith, h)

shifted :
    (a : ℕ)
    → a < 9223372036854775808
    → (a + 9223372036854775808) % 18446744073709551616 ≡ a + 9223372036854775808
shifted a h = omega (arith, h)

leb-shift : (a b c : ℕ) → leb (a + c) (b + c) ≡ leb a b
leb-shift a b c = ground arith

at_most_small :
    (a b : ℕ) → a < 9223372036854775808 → b < 9223372036854775808 → at_most a b ≡ leb a b
at_most_small a b h k =
    ap (λ x. leb x ((b + 9223372036854775808) % 18446744073709551616)) (shifted a h)
    ∙ ap (λ y. leb (a + 9223372036854775808) y) (shifted b k)
    ∙ leb-shift a b 9223372036854775808

doubled_round :
    (n delay most : ℕ) (reached : Bool)
    → twice delay ≡ delay * 2
    → at_most most (delay * 2) ≡ reached
    → doubled (suc n) delay most ≡ (if reached then most else doubled n (delay * 2) most)
unfolding doubled
doubled_round n delay most reached next same = rw (next, same) refl

doubled_lem :
    (n delay most : ℕ)
    → delay < 4611686018427387904
    → most ≤ 4611686018427387904
    → doubled n delay most ≡ smaller most (delay * 2 ^ n)
unfolding doubled
doubled_lem zero delay most d m =
    let same : at_most delay most ≡ leb delay most =
      at_most_small delay most (omega (arith, d)) (omega (arith, m)) in
    rw same (ground (arith, pow.zero 2))
doubled_lem (suc n) delay most d m =
    let next = twice_small delay d in
    let same : at_most most (delay * 2) ≡ leb most (delay * 2) =
      at_most_small most (delay * 2) (omega (arith, m)) (omega (arith, d)) in
    elim (Bool-cases (leb most (delay * 2))) [
      | inl e ↦
          rw (doubled_round n delay most (leb most (delay * 2)) next same, e)
            (ground (arith, grows n (delay * 2), shift n delay, e))
      | inr e ↦
          rw (doubled_round n delay most (leb most (delay * 2)) next same, e)
            (doubled_lem n (delay * 2) most (ground (arith, e, m)) m
              ∙ ap (smaller most) (shift n delay))
    ]

-- The delay before attempt `attempts` (0 counts as 1) is the base delay, doubled for each attempt
-- but the first, or the configured maximum where that is smaller: however many attempts there are,
-- the doubling does not wrap where both delays are below 2 ^ 62 nanoseconds.
pub backoff_delay_doubles :
    (cfg : WriteQueueConfig) (attempts : ℕ)
    → base_delay cfg < 4611686018427387904
    → max_delay cfg < 4611686018427387904
    → backoff_delay cfg attempts ≡ smaller (max_delay cfg) (base_delay cfg * 2 ^ (attempts - 1))
unfolding backoff_delay
backoff_delay_doubles cfg attempts b m =
    let rounds : (if ltb attempts 1 then 1 else attempts) - 1 ≡ attempts - 1 = ground arith in
    doubled_lem ((if ltb attempts 1 then 1 else attempts) - 1) (base_delay cfg) (max_delay cfg) b
      (omega (arith, m))
    ∙ ap (λ k. smaller (max_delay cfg) (base_delay cfg * 2 ^ k)) rounds
