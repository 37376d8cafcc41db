-- ===== src/Graph/Cycles/Walks.antt =====
-- Walks and cycles over a neighbour function, for internal/engine/graph/detect.go.
use mathlib.Core.Path.{subst}
use code_watch.Prelude.{
  ℕ, ◌<◌, ◌≤◌, String, true, false, ◌≡◌, refl, ap, inl, inr, List, [], ◌∷◌, ◌++◌, arith, str_eq,
  contains, eq_iff, if◌then◌else◌, length, String-cases,
}
use code_watch.Graph.Cycles.{drop_until}

-- The last vertex of a walk from `x` through `xs`.
abbrev pub end_of : String → List String → String
end_of x [] = x
end_of x (y ∷ ys) = end_of y ys

pub end_of-concat : (x n : String) (xs : List String) → end_of x (xs ++ n ∷ []) ≡ n
end_of-concat x n [] = refl
end_of-concat x n (y ∷ ys) = end_of-concat y n ys

module _ (next : String → List String) where
  -- Each vertex is a neighbour of the one before.
  abbrev pub IsWalk : String → List String → Type 0
  IsWalk x [] = Unit
  IsWalk x (y ∷ ys) = (contains y (next x) ≡ true) × IsWalk y ys

  -- A walk that its first vertex closes.
  abbrev pub IsCycle : List String → Type 0
  IsCycle [] = ⊥
  IsCycle (x ∷ xs) = IsWalk x xs × (contains x (next (end_of x xs)) ≡ true)

  pub IsWalk-concat :
      (x n : String) (xs : List String)
      → IsWalk x xs
      → contains n (next (end_of x xs)) ≡ true
      → IsWalk x (xs ++ n ∷ [])
  IsWalk-concat x n [] w h = (h, tt)
  IsWalk-concat x n (y ∷ ys) w h = (w.0, IsWalk-concat y n ys w.1 h)

  -- The part of a walk from the first visit of `m` on is a walk to the same end.
  pub drop_until-IsWalk :
      (m x : String) (xs : List String)
      → IsWalk x xs
      → contains m (x ∷ xs) ≡ true
      → (ys : List String) × (drop_until m (x ∷ xs) ≡ m ∷ ys)
        × IsWalk m ys
        × (end_of m ys ≡ end_of x xs)
  unfolding drop_until contains
  drop_until-IsWalk m x [] w h =
      ([], ground (arith, eq_iff m x, eq_iff x m), tt, ground (arith, eq_iff m x))
  drop_until-IsWalk m x (y ∷ ys) w h = elim (String-cases x m) [
    | inl e ↦ (y ∷ ys, ground (arith, eq_iff x m), subst (λ z. IsWalk z (y ∷ ys)) e w, refl)
    | inr ne ↦
        let (zs, same, walk, ends) =
          drop_until-IsWalk m y ys w.1 (ground (arith, eq_iff m x, eq_iff x m)) in
        (zs, rw (ne, drop_until) same, walk, ends)
  ]

  -- An order in which every vertex stands before its neighbours.
  abbrev pub Topo : List String → Type 0
  Topo [] = Unit
  Topo (x ∷ xs) =
      ((y : String) → contains y (next x) ≡ true → contains y xs ≡ true)
      × (contains x xs ≡ false)
      × Topo xs

  -- How many vertices stand behind `x`.
  abbrev rank : String → List String → ℕ
  rank x [] = 0
  rank x (y ∷ ys) = if str_eq x y then length ys else rank x ys

  rank-lt : (x : String) (xs : List String) → contains x xs ≡ true → rank x xs < length xs
  unfolding contains
  rank-lt x [] h = cc
  rank-lt x (y ∷ ys) h = ground (arith, rank-lt x ys)

  -- An edge leads to a lower rank.
  rank-edge :
      (x y : String) (order : List String)
      → Topo order
      → contains x order ≡ true
      → contains y (next x) ≡ true
      → (contains y order ≡ true) × (rank y order < rank x order)
  unfolding contains
  rank-edge x y [] t h e = cc
  rank-edge x y (z ∷ zs) t h e = ground (
    arith,
    rank-edge x y zs t.2,
    t.0 y,
    rank-lt y zs,
    eq_iff x z,
    eq_iff y z,
    ap next {x = x} {y = z},
  )

  rank-walk :
      (x : String) (xs : List String) (order : List String)
      → Topo order
      → contains x order ≡ true
      → IsWalk x xs
      → (contains (end_of x xs) order ≡ true) × (rank (end_of x xs) order ≤ rank x order)
  rank-walk x [] order t h w = (h, omega arith)
  rank-walk x (y ∷ ys) order t h w =
      let (h', lower) = rank-edge x y order t h w.0 in
      let (h'', le) = rank-walk y ys order t h' w.1 in (h'', omega arith)

  -- No cycle starts at a vertex of such an order.
  pub Topo-acyclic :
      (x : String) (xs order : List String)
      → Topo order
      → contains x order ≡ true
      → ¬ IsCycle (x ∷ xs)
  Topo-acyclic x xs order t h (w, e) =
      let (h', le) = rank-walk x xs order t h w in
      omega (arith, (rank-edge (end_of x xs) x order t h' e).1)
