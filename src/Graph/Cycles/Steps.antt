-- ===== src/Graph/Cycles/Steps.antt =====
-- internal/engine/graph/detect.go: one round of the search, its invariant and its work.
use code_watch.Prelude.{
  ℕ, suc, ◌+◌, ◌≤◌, String, true, false, ◌≡◌, refl, sym, ◌∙◌, inl, inr, List, [], ◌∷◌, ◌++◌, arith,
  contains, eq_iff, Bool-cases,
}
use code_watch.Graph.Cycles.{Frame, Search, marked, enter, follow, leave, visit}
use code_watch.Graph.Cycles.Stack.{marked-put}
use code_watch.Graph.Cycles.Stack.{
  marked-put, IsSearch, top-IsFrame, leave-IsSearch, taken-IsSearch, enter-IsSearch, closes,
  unseen_off, All-report,
}
use code_watch.Graph.Cycles.Order.{Ordered, leave-Ordered, skip-Ordered, enter-Ordered}
use code_watch.Graph.Cycles.Ends.{unseen, left, unseen-put}

module _ (next : String → List String) (nodes : List String)
    (closed : (a b : String) → contains b (next a) ≡ true → contains b nodes ≡ true) where
  abbrev pub work : List Frame → Search → ℕ
  work st s = unseen next s.visited nodes + left st

  pub record Inv (st : List Frame) (s : Search) : Type 0 where
    pub search : IsSearch next st s
    pub ordered : s.cycles ≡ [] → Ordered next st s

  abbrev pub Grows : Search → Search → Type 0
  Grows s t = (x : String) → marked s.visited x ≡ true → marked t.visited x ≡ true

  -- A round keeps the invariant, forgets no visit, and takes from the work left.
  abbrev pub Progress : ℕ → Search → Search → Type 0
  Progress before s t = (st : List Frame) × Inv st t × (suc (work st t) ≤ before) × Grows s t

  concat-ne-nil : {A : Type 0} (xs : List A) (x : A) → ¬ (xs ++ x ∷ [] ≡ [])
  concat-ne-nil [] x h = cc
  concat-ne-nil (y ∷ xs) x h = cc

  leave_step :
      (m : String) (rest : List Frame) (s : Search)
      → Inv (record { name = m; pending = [] } ∷ rest) s
      → Progress (work (record { name = m; pending = [] } ∷ rest) s) s (visit next m [] rest s)
  unfolding visit leave
  leave_step m rest s h = (
    rest,
    record {
      search = leave-IsSearch next m [] rest s h.search;
      ordered = λ e. leave-Ordered next m rest s h.search (h.ordered e);
    },
    omega arith,
    λ x e. e,
  )

  module _ (m n : String) (ns : List String) (rest : List Frame) (s : Search)
      (h : Inv (record { name = m; pending = n ∷ ns } ∷ rest) s) where
    abbrev taken : Search
    taken = record s { stack = record { name = m; pending = ns } ∷ rest }

    taken-is : IsSearch next (record { name = m; pending = ns } ∷ rest) taken
    taken-is = taken-IsSearch next m n ns rest s h.search

    edge : contains n (next m) ≡ true
    unfolding contains
    edge =
        top-IsFrame next (record { name = m; pending = n ∷ ns }) rest h.search.stack n
          (ground (arith, eq_iff n n))

    abbrev before : ℕ
    before = work (record { name = m; pending = n ∷ ns } ∷ rest) s

    close_step : marked s.on_stack n ≡ true → Progress before s (follow next n taken)
    unfolding follow
    close_step on =
        let (c, e, cycle) = closes next m n ns rest taken edge taken-is on in
        rw (on, follow)
          (
            record { name = m; pending = ns } ∷ rest,
            record {
              search = record {
                top = refl;
                stack = taken-is.stack;
                path = taken-is.path;
                on = taken-is.on;
                seen = taken-is.seen;
                cycles = rw e (All-report next c s.cycles cycle taken-is.cycles);
              };
              ordered = λ none_yet. absurd (concat-ne-nil s.cycles c (sym e ∙ none_yet));
            },
            omega arith,
            λ x e. e,
          )

    skip_step :
        marked s.on_stack n ≡ false
        → marked s.visited n ≡ true
        → Progress before s (follow next n taken)
    unfolding follow
    skip_step off old =
        rw (off, follow)
          (rw old (
            record { name = m; pending = ns } ∷ rest,
            record {
              search = taken-is;
              ordered = λ e.
                  skip-Ordered next m n ns rest s old (sym (h.search.on n) ∙ off) (h.ordered e);
            },
            omega arith,
            λ x e. e,
          ))

    enter_step :
        marked s.on_stack n ≡ false
        → marked s.visited n ≡ false
        → Progress before s (follow next n taken)
    unfolding follow
    enter_step off new =
        let st : List Frame = record { name = m; pending = ns } ∷ rest in
        rw (off, follow)
          (rw new (
            record { name = n; pending = next n } ∷ st,
            record {
              search =
                  enter-IsSearch next n st taken new
                    (λ y e. e, edge, unseen_off next n st taken new taken-is, taken-is.stack)
                    taken-is;
              ordered = λ e. enter-Ordered next m n ns rest s new (h.ordered e);
            },
            unfold enter in omega (arith, unseen-put next n s.visited nodes (closed m n edge) new),
            λ x e. unfold enter in ground (arith, marked-put s.visited n x true, e),
          ))

    follow_step : Progress before s (follow next n taken)
    follow_step = elim (Bool-cases (marked s.on_stack n)) [
      | inl on ↦ close_step on
      | inr off ↦ elim (Bool-cases (marked s.visited n)) [
        | inl old ↦ skip_step off old
        | inr new ↦ enter_step off new
      ]
    ]

  pub visit_step :
      (m : String) (ps : List String) (rest : List Frame) (s : Search)
      → Inv (record { name = m; pending = ps } ∷ rest) s
      → Progress (work (record { name = m; pending = ps } ∷ rest) s) s (visit next m ps rest s)
  unfolding visit
  visit_step m [] rest s h = leave_step m rest s h
  visit_step m (n ∷ ns) rest s h = follow_step m n ns rest s h
