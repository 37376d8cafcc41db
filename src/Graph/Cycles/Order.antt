-- ===== src/Graph/Cycles/Order.antt =====
-- internal/engine/graph/detect.go: the order of the finished modules while no cycle is reported.
use code_watch.Prelude.{
  String, true, false, not, ◌&&◌, ◌||◌, ◌≡◌, List, [], ◌∷◌, ◌++◌, arith, str_eq, contains, eq_iff,
  str_eq_refl,
}
use code_watch.Graph.Cycles.{Frame, Search, marked, enter, leave}
use code_watch.Graph.Cycles.Walks.{Topo}
use code_watch.Graph.Cycles.Stack.{spine, marked-put, IsSearch, once, contains-concat}

module _ (next : String → List String) where
  -- The neighbours of a module below the top are finished, pending, or the one above it.
  abbrev pub SettledBelow : List String → String → List Frame → Type 0
  SettledBelow order child [] = Unit
  SettledBelow order child (g ∷ fs) =
      ((y : String)
        → contains y (next g.name) ≡ true
        → (contains y g.pending || contains y order || str_eq y child) ≡ true)
      × SettledBelow order g.name fs

  abbrev pub SettledTop : List String → Frame → Type 0
  SettledTop order f =
      (y : String)
      → contains y (next f.name) ≡ true
      → (contains y f.pending || contains y order) ≡ true

  abbrev pub Settled : List String → List Frame → Type 0
  Settled order [] = Unit
  Settled order (f ∷ fs) = SettledTop order f × SettledBelow order f.name fs

  -- The finished modules are those seen and off the stack.
  abbrev pub Ordered : List Frame → Search → Type 0
  Ordered st s =
      (order : List String) × Topo next order
      × ((x : String) → contains x order ≡ (marked s.visited x && not (contains x (spine st))))
      × Settled order st

  SettledBelow-mono :
      (m child : String) (order : List String) (fs : List Frame)
      → SettledBelow order child fs
      → SettledBelow (m ∷ order) child fs
  unfolding contains
  SettledBelow-mono m child order [] h = tt
  SettledBelow-mono m child order (g ∷ fs) h =
      (λ y e. ground (arith, h.0 y e), SettledBelow-mono m g.name order fs h.1)

  -- When the top is left its child frame, which is finished now, is the one above the new top.
  Settled-pop :
      (m : String) (order : List String) (fs : List Frame)
      → SettledBelow order m fs
      → Settled (m ∷ order) fs
  unfolding contains
  Settled-pop m order [] h = tt
  Settled-pop m order (g ∷ fs) h =
      (λ y e. ground (arith, h.0 y e), SettledBelow-mono m g.name order fs h.1)

  pub leave-Ordered :
      (m : String) (rest : List Frame) (s : Search)
      → IsSearch next (record { name = m; pending = [] } ∷ rest) s
      → Ordered (record { name = m; pending = [] } ∷ rest) s
      → Ordered rest (leave next m rest s)
  unfolding leave contains
  leave-Ordered m rest s h (order, topo, finished, (top, below)) =
      let f : Frame = record { name = m; pending = [] } in
      (
        m ∷ order,
        (
          λ y e. top y e,
          ground (arith, finished m, contains-concat m m (spine rest), str_eq_refl m),
          topo,
        ),
        λ x. ground (
          arith,
          finished x,
          contains-concat x m (spine rest),
          once next f rest h.stack,
          eq_iff x m,
          h.seen x,
        ),
        Settled-pop m order rest below,
      )

  -- A neighbour that is finished already needs no visit.
  pub skip-Ordered :
      (m n : String) (ns : List String) (rest : List Frame) (s : Search)
      → marked s.visited n ≡ true
      → contains n (spine (record { name = m; pending = ns } ∷ rest)) ≡ false
      → Ordered (record { name = m; pending = n ∷ ns } ∷ rest) s
      → Ordered (record { name = m; pending = ns } ∷ rest) s
  unfolding contains
  skip-Ordered m n ns rest s old off (order, topo, finished, (top, below)) =
      (order, topo, finished, (λ y e. ground (arith, top y e, finished n, eq_iff y n), below))

  pub enter-Ordered :
      (m n : String) (ns : List String) (rest : List Frame) (s : Search)
      → marked s.visited n ≡ false
      → Ordered (record { name = m; pending = n ∷ ns } ∷ rest) s
      → Ordered
          (record { name = n; pending = next n } ∷ record { name = m; pending = ns } ∷ rest)
          (enter next n (record s { stack = record { name = m; pending = ns } ∷ rest }))
  unfolding enter contains
  enter-Ordered m n ns rest s new (order, topo, finished, (top, below)) = (
    order,
    topo,
    λ x. ground (
      arith,
      finished x,
      marked-put s.visited n x true,
      contains-concat x n (spine rest ++ m ∷ []),
      eq_iff n x,
      eq_iff x n,
    ),
    (λ y e. ground (arith, e), (λ y e. ground (arith, top y e, eq_iff y n), below)),
  )

  -- The first module of a search.
  pub first-Ordered :
      (n : String) (s : Search)
      → marked s.visited n ≡ false
      → Ordered [] s
      → Ordered (record { name = n; pending = next n } ∷ []) (enter next n s)
  unfolding enter contains
  first-Ordered n s new (order, topo, finished, _) = (
    order,
    topo,
    λ x. ground (arith, finished x, marked-put s.visited n x true, eq_iff n x, eq_iff x n),
    (λ y e. ground (arith, e), tt),
  )
