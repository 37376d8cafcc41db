-- ===== src/Graph/Cycles/Runs.antt =====
-- internal/engine/graph/detect.go: whole searches, and the loop over the modules.
use code_watch.Prelude.{
  ℕ, zero, suc, ◌≤◌, String, true, false, ◌≡◌, refl, inl, inr, some, List, [], ◌∷◌, arith, str_eq,
  contains, eq_iff, if◌then◌else◌, Bool-cases,
}
use code_watch.Graph.Cycles.{Frame, Search, marked, enter, visit, search, explore}
use code_watch.Graph.Cycles.{rounds}
use code_watch.Graph.Cycles.Stack.{marked-put}
use code_watch.Graph.Cycles.Stack.{marked-put, IsSearch, enter-IsSearch}
use code_watch.Graph.Cycles.Ends.{unseen-put, unseen-le-rounds}
use code_watch.Graph.Cycles.Order.{first-Ordered}
use code_watch.Graph.Cycles.{rounds}
use code_watch.Graph.Cycles.Steps

module _ (next : String → List String) (nodes : List String)
    (closed : (a b : String) → contains b (next a) ≡ true → contains b nodes ≡ true) where
  abbrev Inv : List Frame → Search → Type 0
  Inv = Steps.Inv next nodes closed

  abbrev work : List Frame → Search → ℕ
  work = Steps.work next nodes closed

  abbrev Grows : Search → Search → Type 0
  Grows = Steps.Grows next nodes closed

  search_ends :
      (fuel : ℕ) (st : List Frame) (s : Search)
      → work st s ≤ fuel
      → Inv st s
      → (t : Search) × (search next fuel s ≡ some t) × Inv [] t × Grows s t
  unfolding search
  search_ends zero [] s le h = (s, ground (arith, h.search.top), h, λ x e. e)
  search_ends zero (f ∷ rest) s le h = absurd (omega arith)
  search_ends (suc fuel) [] s le h = (s, ground (arith, h.search.top), h, λ x e. e)
  search_ends (suc fuel) (f ∷ rest) s le h =
      let (st, h', less, grows) = Steps.visit_step next nodes closed f.name f.pending rest s h in
      let (t, e, done, grows') =
        search_ends fuel st (visit next f.name f.pending rest s) (omega arith) h' in
      (t, rw (h.search.top, search) e, done, λ x e. grows' x (grows x e))

  -- The start of a search from a module that was not seen.
  abbrev pub begin : String → Search → Search
  begin m s = enter next m (record s { stack = []; path = [] })

  begin-Inv :
      (m : String) (s : Search)
      → marked s.visited m ≡ false
      → Inv [] s
      → Inv (record { name = m; pending = next m } ∷ []) (begin m s)
  unfolding enter
  begin-Inv m s new h =
      let idle : IsSearch next [] (record s { stack = []; path = [] }) = record {
        top = refl;
        stack = tt;
        path = refl;
        on = h.search.on;
        seen = h.search.seen;
        cycles = h.search.cycles;
      } in
      record {
        search = enter-IsSearch next m [] (record s { stack = []; path = [] }) new (λ y e. e) idle;
        ordered = λ e. first-Ordered next m (record s { stack = []; path = [] }) new (h.ordered e);
      }

  begin_ends :
      (m : String) (s : Search)
      → contains m nodes ≡ true
      → marked s.visited m ≡ false
      → Inv [] s
      → (t : Search) × (search next (rounds next nodes) (begin m s) ≡ some t)
        × Inv [] t
        × Grows s t
        × (marked t.visited m ≡ true)
  begin_ends m s here new h =
      let fits : work (record { name = m; pending = next m } ∷ []) (begin m s) ≤ rounds next nodes =
        unfold enter in
        omega (
          arith,
          unseen-put next m s.visited nodes here new,
          unseen-le-rounds next s.visited nodes,
        ) in
      let (t, e, done, grows) =
        search_ends (rounds next nodes) _ (begin m s) fits (begin-Inv m s new h) in
      let put : (x : String)
          → marked (begin m s).visited x ≡ (if str_eq m x then true else marked s.visited x) =
        λ x. unfold enter in marked-put s.visited m x true in
      (
        t,
        e,
        done,
        λ x old. grows x (ground (arith, put x, old)),
        grows m (ground (arith, put m, eq_iff m m)),
      )

  pub explore_ends :
      (ms : List String) (s : Search)
      → ((m : String) → contains m ms ≡ true → contains m nodes ≡ true)
      → Inv [] s
      → (t : Search) × (explore next (rounds next nodes) ms s ≡ some t)
        × Inv [] t
        × Grows s t
        × ((m : String) → contains m ms ≡ true → marked t.visited m ≡ true)
  unfolding explore contains
  explore_ends [] s all h = (s, refl, h, λ x e. e, λ m e. cc)
  explore_ends (m ∷ ms) s all h =
      let tail : (x : String) → contains x ms ≡ true → contains x nodes ≡ true =
        λ x e. all x (ground (arith, e)) in
      elim (Bool-cases (marked s.visited m)) [
        | inl old ↦
            let (t, e, done, grows, seen) = explore_ends ms s tail h in
            (
              t,
              rw (old, explore) e,
              done,
              grows,
              λ x e. ground (arith, e, seen x, grows m old, eq_iff x m),
            )
        | inr new ↦
            let (t₁, e₁, h₁, grows₁, seen₁) =
              begin_ends m s (all m (ground (arith, eq_iff m m))) new h in
            let (t₂, e₂, h₂, grows₂, seen₂) = explore_ends ms t₁ tail h₁ in
            (
              t₂,
              rw (new, explore) (rw e₁ e₂),
              h₂,
              λ x e. grows₂ x (grows₁ x e),
              λ x e. ground (arith, e, seen₂ x, grows₂ m seen₁, eq_iff x m),
            )
      ]
