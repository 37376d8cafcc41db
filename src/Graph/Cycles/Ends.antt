-- ===== src/Graph/Cycles/Ends.antt =====
-- internal/engine/graph/detect.go: the work that the search has left.
use code_watch.Prelude.{
  ℕ, suc, ◌+◌, ◌≤◌, String, Bool, true, false, ◌≡◌, ap, inl, inr, List, [], ◌∷◌, arith, contains,
  eq_iff, if◌then◌else◌, length, String-cases,
}
use code_watch.Prelude.Map
use code_watch.Prelude.Map.{Map}
use code_watch.Graph.Cycles.{Frame, marked}
use code_watch.Graph.Cycles.{rounds}
use code_watch.Graph.Cycles.Stack.{marked-put}

-- The rounds for the frames.
abbrev pub left : List Frame → ℕ
left [] = 0
left (f ∷ fs) = suc (length f.pending) + left fs

module _ (next : String → List String) where
  -- The rounds for the modules not seen yet.
  abbrev pub unseen : Map Bool → List String → ℕ
  unseen visited [] = 0
  unseen visited (m ∷ ms) =
      (if marked visited m then 0 else suc (length (next m))) + unseen visited ms

  unseen-put-le :
      (n : String) (visited : Map Bool) (ms : List String)
      → unseen (Map.put visited n true) ms ≤ unseen visited ms
  unseen-put-le n visited [] = omega arith
  unseen-put-le n visited (m ∷ ms) =
      ground (arith, unseen-put-le n visited ms, marked-put visited n m true)

  pub unseen-put :
      (n : String) (visited : Map Bool) (ms : List String)
      → contains n ms ≡ true
      → marked visited n ≡ false
      → unseen (Map.put visited n true) ms + suc (length (next n)) ≤ unseen visited ms
  unfolding contains
  unseen-put n visited [] h new = cc
  unseen-put n visited (m ∷ ms) h new = elim (String-cases n m) [
    | inl e ↦ ground (
      arith,
      eq_iff n m,
      marked-put visited n m true,
      unseen-put-le n visited ms,
      ap (λ k. length (next k)) e,
      ap (marked visited) e,
    )
    | inr ne ↦ ground (arith, unseen-put n visited ms, marked-put visited n m true)
  ]

  pub unseen-le-rounds :
      (visited : Map Bool) (ms : List String) → unseen visited ms ≤ rounds next ms
  unfolding rounds
  unseen-le-rounds visited [] = omega arith
  unseen-le-rounds visited (m ∷ ms) = ground (arith, unseen-le-rounds visited ms)
