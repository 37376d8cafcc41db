-- ===== src/Graph/Chain/Correct.antt =====
-- internal/engine/graph/detect.go: the chains that `FindImportChain` finds.
use code_watch.Prelude.{
  suc, ◌+◌, ◌≤◌, String, true, false, ◌≡◌, refl, inl, inr, Option, none, some, List, [], ◌∷◌,
  length, arith, str_eq, eq_iff, contains, Bool-cases,
}
use code_watch.Prelude.Map
use code_watch.Prelude.Map.{Map}
use code_watch.Graph.{Graph}
use code_watch.Graph.Neighbors.{sorted_neighbors, contains-sorted_neighbors}
use code_watch.Graph.Cycles.Walks.{IsWalk, end_of}
use code_watch.Graph.Impact.Reach.{unseen, unseen-length}
use code_watch.Graph.Chain.{hunt, chain_of, find_import_chain}
use code_watch.Graph.Chain.Ends.{hunt-Ends, chain_of-Ends, start-IsHunt}

-- A chain of imports between modules of the graph, from its first module on.
abbrev pub IsChain : Graph → String → String → List String → Type 0
IsChain g from to path =
    (Map.has g.modules from ≡ true)
    × (Map.has g.modules to ≡ true)
    × ((ys : List String) × (path ≡ from ∷ ys)
        × IsWalk (sorted_neighbors g) from ys
        × (end_of from ys ≡ to))

-- What a search should answer: a chain, or that there is none.
abbrev pub IsAnswer : Graph → String → String → Option (Option (List String)) → Type 0
IsAnswer g from to none = ⊥
IsAnswer g from to (some none) = ¬ ((path : List String) × IsChain g from to path)
IsAnswer g from to (some (some path)) = IsChain g from to path

hunt_fuel :
    (us : List String) (from : String)
    → length (from ∷ []) + unseen us (from ∷ []) ≤ suc (length us)
hunt_fuel us from = omega (arith, unseen-length us (from ∷ []))

found_chain :
    (g : Graph) (from to : String)
    → Map.has g.modules from ≡ true
    → Map.has g.modules to ≡ true
    → str_eq from to ≡ false
    → IsAnswer g from to (
        chain_of from to (
          hunt
            (sorted_neighbors g)
            to
            (suc (suc (length (Map.keys g.modules))))
            (record { queue = from ∷ []; visited = from ∷ []; prev = [] })))
found_chain g from to hf ht other =
    let next = sorted_neighbors g in
    let us = Map.keys g.modules in
    let into : (m n : String) → contains n (next m) ≡ true → contains n us ≡ true =
      λ m n s. ground (arith, s, contains-sorted_neighbors g m n, Map.contains-keys g.modules n) in
    let ends =
      hunt-Ends next from to us into (suc (length us))
        (record { queue = from ∷ []; visited = from ∷ []; prev = [] })
        (start-IsHunt next from to other) (hunt_fuel us from) in
    elim (chain_of-Ends next from to _ ends) [
      | inl (e, far) ↦ rw e (λ c. far c.1.2.0 c.1.2.2 c.1.2.3)
      | inr (ys, e, walk, last) ↦ rw e (hf, ht, (ys, refl, walk, last))
    ]

-- `FindImportChain` ends. The path that it gives is a chain of imports from `from` to `to` between
-- modules of the graph, and it gives no path only if there is no such chain: one of the two is not
-- a module, or no walk along the imports leads from the one to the other.
pub find_import_chain-IsAnswer :
    (g : Graph) (from to : String) → IsAnswer g from to (find_import_chain g from to)
unfolding find_import_chain
find_import_chain-IsAnswer g from to = elim (Bool-cases (Map.has g.modules from)) [
  | inr e ↦ rw (e, find_import_chain) (λ c. ground (arith, e, c.1.0))
  | inl hf ↦ elim (Bool-cases (Map.has g.modules to)) [
    | inr e ↦ rw (hf, e, find_import_chain) (λ c. ground (arith, e, c.1.1))
    | inl ht ↦ elim (Bool-cases (str_eq from to)) [
      | inl same ↦
          rw (hf, ht, same, find_import_chain) (hf, ht, ([], refl, tt, (eq_iff from to).0 same))
      | inr other ↦ rw (hf, ht, other, find_import_chain) (found_chain g from to hf ht other)
    ]
  ]
]
