-- ===== src/Graph/Hotspots/Correct.antt =====
-- internal/engine/graph/metrics.go: what `TopComplexity` keeps, and what it leaves out.
use mathlib.Core.List.{Perm, append-nil}
use mathlib.Core.List.Perm
use code_watch.Prelude.{
  ℕ, zero, suc, ◌≤◌, true, false, ◌≡◌, refl, ap, ◌∙◌, inl, inr, List, [], ◌∷◌, ◌++◌, length, take,
  drop, ltb, leb, ◌==◌, if◌then◌else◌, arith, All, Bool-cases, map, select,
}
use code_watch.Prelude.Int.{ℤ, pos, negsuc}
use mathlib.Core.Path.{subst}
use code_watch.Graph.Hotspots.Listed.{all_definitions, counts, spot, hotspots_lem}
use code_watch.Graph.{Graph}
use code_watch.Graph.Hotspots.{
  ComplexityHotspot, outranks, insert_hotspot, sort_hotspots, hotspots, first_ones, top_complexity,
}

-- No one scores above an earlier one.
abbrev pub Descending : List ComplexityHotspot → Type 0
Descending [] = Unit
Descending (h ∷ hs) = All (λ x. x.score ≤ h.score) hs × Descending hs

outranks-true : (a b : ComplexityHotspot) → outranks a b ≡ true → b.score ≤ a.score
unfolding outranks
outranks-true a b h = ground (arith, h)

outranks-false : (a b : ComplexityHotspot) → outranks a b ≡ false → a.score ≤ b.score
unfolding outranks
outranks-false a b h = ground (arith, h)

All-below :
    (m n : ℕ) (hs : List ComplexityHotspot)
    → m ≤ n
    → All (λ x. x.score ≤ m) hs
    → All (λ x. x.score ≤ n) hs
All-below m n [] b a = tt
All-below m n (h ∷ hs) b (p, a) = (omega (arith, b, p), All-below m n hs b a)

All-insert_hotspot :
    (n : ℕ) (h : ComplexityHotspot) (hs : List ComplexityHotspot)
    → h.score ≤ n
    → All (λ x. x.score ≤ n) hs
    → All (λ x. x.score ≤ n) (insert_hotspot h hs)
unfolding insert_hotspot
All-insert_hotspot n h [] b a = (b, tt)
All-insert_hotspot n h (x ∷ xs) b (p, a) = elim (Bool-cases (outranks x h)) [
  | inl later ↦ rw (later, insert_hotspot) (p, All-insert_hotspot n h xs b a)
  | inr first ↦ rw (first, insert_hotspot) (b, (p, a))
]

insert_hotspot-Descending :
    (h : ComplexityHotspot) (hs : List ComplexityHotspot)
    → Descending hs
    → Descending (insert_hotspot h hs)
unfolding insert_hotspot
insert_hotspot-Descending h [] d = (tt, tt)
insert_hotspot-Descending h (x ∷ xs) (a, d) = elim (Bool-cases (outranks x h)) [
  | inl later ↦
      rw (later, insert_hotspot)
        (
          All-insert_hotspot x.score h xs (outranks-true x h later) a,
          insert_hotspot-Descending h xs d,
        )
  | inr first ↦
      let b = outranks-false x h first in
      rw (first, insert_hotspot) ((b, All-below x.score h.score xs b a), (a, d))
]

sort_hotspots-Descending : (hs : List ComplexityHotspot) → Descending (sort_hotspots hs)
unfolding sort_hotspots
sort_hotspots-Descending [] = tt
sort_hotspots-Descending (h ∷ hs) =
    insert_hotspot-Descending h (sort_hotspots hs) (sort_hotspots-Descending hs)

Perm-insert_hotspot :
    (h : ComplexityHotspot) (hs : List ComplexityHotspot) → Perm (insert_hotspot h hs) (h ∷ hs)
unfolding insert_hotspot
Perm-insert_hotspot h [] = Perm.rfl
Perm-insert_hotspot h (x ∷ xs) = elim (Bool-cases (outranks x h)) [
  | inl later ↦
      rw (later, insert_hotspot)
        (Perm.trans (Perm.cons x (Perm-insert_hotspot h xs)) (Perm.swap h x xs))
  | inr first ↦ rw (first, insert_hotspot) Perm.rfl
]

Perm-sort_hotspots : (hs : List ComplexityHotspot) → Perm (sort_hotspots hs) hs
unfolding sort_hotspots
Perm-sort_hotspots [] = Perm.rfl
Perm-sort_hotspots (h ∷ hs) =
    Perm.trans (Perm-insert_hotspot h (sort_hotspots hs)) (Perm.cons h (Perm-sort_hotspots hs))

take-drop : (n : ℕ) (hs : List ComplexityHotspot) → take n hs ++ drop n hs ≡ hs
take-drop n [] = refl
take-drop zero (h ∷ hs) = refl
take-drop (suc n) (h ∷ hs) = ap (◌∷◌ h) (take-drop n hs)

length-take : (n : ℕ) (hs : List ComplexityHotspot) → n ≤ length hs → length (take n hs) ≡ n
length-take n [] b = omega (arith, b)
length-take zero (h ∷ hs) b = refl
length-take (suc n) (h ∷ hs) b = ap suc (length-take n hs (omega (arith, b)))

-- How many of `len` are asked for.
abbrev pub asked : ℤ → ℕ → ℕ
asked (negsuc n) len = 0
asked (pos n) len = if leb n len then n else len

-- The kept ones with those left out are all, and no one that is left out scores above a kept one.
abbrev pub IsTop : ℤ → List ComplexityHotspot → List ComplexityHotspot → Type 0
IsTop n all kept =
    (rest : List ComplexityHotspot) × Perm (kept ++ rest) all
    × Descending (kept ++ rest)
    × (length kept ≡ asked n (length all))

length-insert_hotspot :
    (h : ComplexityHotspot) (hs : List ComplexityHotspot)
    → length (insert_hotspot h hs) ≡ suc (length hs)
unfolding insert_hotspot
length-insert_hotspot h [] = refl
length-insert_hotspot h (x ∷ xs) = ground (arith, length-insert_hotspot h xs)

length-sort_hotspots : (hs : List ComplexityHotspot) → length (sort_hotspots hs) ≡ length hs
unfolding sort_hotspots
length-sort_hotspots [] = refl
length-sort_hotspots (h ∷ hs) =
    length-insert_hotspot h (sort_hotspots hs) ∙ ap suc (length-sort_hotspots hs)

split_first :
    (n : ℕ) (hs : List ComplexityHotspot)
    → (rest : List ComplexityHotspot) × (first_ones n hs ++ rest ≡ hs)
      × (length (first_ones n hs) ≡ asked (pos n) (length hs))
split_first n hs = elim (Bool-cases (ltb n (length hs))) [
  | inl cut ↦ rw cut (drop n hs, take-drop n hs, ground (arith, cut, length-take n hs))
  | inr short ↦ rw short ([], append-nil hs, ground (arith, short))
]

split_top :
    (n : ℕ) (hs : List ComplexityHotspot)
    → (rest : List ComplexityHotspot) × ((if n == 0 then [] else first_ones n hs) ++ rest ≡ hs)
      × (length (if n == 0 then [] else first_ones n hs) ≡ asked (pos n) (length hs))
split_top n hs = elim (Bool-cases (n == 0)) [
  | inl none_asked ↦ rw none_asked (hs, refl, ground (arith, none_asked))
  | inr some_asked ↦ rw some_asked (split_first n hs)
]

-- From a list in order, up to `n`.
sorted-IsTop :
    (n : ℤ) (all sorted kept : List ComplexityHotspot)
    → Perm sorted all
    → Descending sorted
    → length sorted ≡ length all
    → (rest : List ComplexityHotspot) × (kept ++ rest ≡ sorted)
      × (length kept ≡ asked n (length sorted))
    → IsTop n all kept
sorted-IsTop n all sorted kept p d l (rest, e, size) = (rest, rw e p, rw e d, size ∙ ap (asked n) l)

hotspots-IsTop : (n : ℤ) (g : Graph) → IsTop n (hotspots g.definitions) (top_complexity n g)
unfolding top_complexity
hotspots-IsTop (negsuc n) g =
    let all = hotspots g.definitions in
    sorted-IsTop (negsuc n) all (sort_hotspots all) [] (Perm-sort_hotspots all)
      (sort_hotspots-Descending all) (length-sort_hotspots all) (sort_hotspots all, refl, refl)
hotspots-IsTop (pos n) g =
    let all = hotspots g.definitions in
    sorted-IsTop (pos n) all (sort_hotspots all) (top_complexity (pos n) g) (Perm-sort_hotspots all)
      (sort_hotspots-Descending all) (length-sort_hotspots all) (split_top n (sort_hotspots all))

-- `TopComplexity` returns hotspots in descending order of score: each of a function or method with
-- at least one line, at its own score or, without one, at the weighted counts or 1. If it leaves
-- some out, no one of them scores above one that it returns. It returns none for a limit below 1,
-- and otherwise as many as the limit or all.
pub top_complexity-IsTop :
    (n : ℤ) (g : Graph)
    → IsTop n (map spot (select counts (all_definitions g.definitions))) (top_complexity n g)
top_complexity-IsTop n g =
    subst (λ all. IsTop n all (top_complexity n g)) (hotspots_lem g.definitions)
      (hotspots-IsTop n g)
