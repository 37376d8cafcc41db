-- ===== src/Graph/Chain/Ends.antt =====
-- internal/engine/graph/detect.go: what the search of `FindImportChain` ends in.
use mathlib.Core.Path.{subst}
use code_watch.Prelude.{
  ℕ, zero, suc, ◌+◌, ◌≤◌, String, true, false, ◌&&◌, ◌≡◌, refl, ap, sym, ◌∙◌, inl, inr, ◌⊎◌, Option,
  none, some, List, [], ◌∷◌, length, length-append, arith, str_eq, eq_iff, contains, Bool-cases,
  str_eq_refl, List-cases, ◌≢◌,
}
use code_watch.Prelude.Map
use code_watch.Prelude.Map.{Map}
use code_watch.Graph.Cycles.Walks.{IsWalk, end_of}
use code_watch.Graph.Impact.Reach.{unseen, unseen-new}
use code_watch.Graph.Chain.{Hunt, marked, look, hunt, chain_of}
use code_watch.Graph.Chain.Notes.{second, nothing_waits, in_queue, here_first, after_pop}
use code_watch.Graph.Chain.Search.{
  Traced, path_back-IsWalk, IsHunt, Traced-marked, skip-IsHunt, mark-IsHunt, done-IsHunt, at_start,
}

module _ (next : String → List String) (from to : String) where
  -- What a look at the neighbours of `curr` ends in: `to` with its notes, or the search after.
  abbrev IsLooked : List String → ℕ → Map String ⊎ Hunt → Type 0
  IsLooked us size (inl prev) = (k : ℕ) × (k ≤ length prev) × Traced next from to prev k to
  IsLooked us size (inr h) =
      IsHunt next from to "" [] h × (length h.queue + unseen us h.visited ≤ size)

  pub look-IsLooked :
      (us : List String) (size : ℕ) (curr : String) (ms : List String) (h : Hunt)
      → IsHunt next from to curr ms h
      → contains curr h.visited ≡ true
      → ((n : String) → contains n ms ≡ true → (contains n (next curr) && contains n us) ≡ true)
      → length h.queue + unseen us h.visited ≤ size
      → IsLooked us size (look to curr ms h)
  unfolding look contains
  look-IsLooked us size curr [] h i c into b = (done-IsHunt next from to curr h i, b)
  look-IsLooked us size curr (n ∷ ms) h i c into b = elim (Bool-cases (contains n h.visited)) [
    | inl seen ↦
        rw (seen, look)
          (look-IsLooked us size curr ms h (skip-IsHunt next from to curr n ms h i seen) c
            (λ x e. into x (ground (arith, e))) b)
    | inr new ↦
        let there = into n (ground (arith, str_eq_refl n)) in
        elim (Bool-cases (str_eq n to)) [
          | inl met ↦
              let (k, l, t) =
                Traced-marked next from to curr n ms h i c (ground (arith, there)) new in
              rw (new, met, look)
                (
                  k,
                  l,
                  subst (λ z. Traced next from to (Map.put h.prev n curr) k z) ((eq_iff n to).0 met)
                      t,
                )
          | inr other ↦
              rw (new, other, look)
                (look-IsLooked us size curr ms (marked curr n h)
                  (mark-IsHunt next from to curr n ms h i c (ground (arith, there)) new other)
                  (ground (arith, c)) (λ x e. into x (ground (arith, e)))
                  (omega (
                    arith,
                    length-append h.queue (n ∷ []),
                    unseen-new n us h.visited
                        (second (contains n (next curr)) (contains n us) there) new,
                    b,
                  )))
        ]
  ]

  -- From a marked module every walk stays on marked ones, once the queue is empty.
  pub walk-marked :
      (h : Hunt)
      → IsHunt next from to "" [] h
      → h.queue ≡ []
      → (x : String) (ys : List String) → contains x h.visited ≡ true
      → IsWalk next x ys
      → contains (end_of x ys) h.visited ≡ true
  unfolding contains
  walk-marked h i e x [] v w = v
  walk-marked h i e x (y ∷ ys) v w =
      walk-marked h i e y ys
        (nothing_waits x h.queue (contains y h.visited) (str_eq x "") e (i.closed x y v w.0)) w.1

  -- What the search ends in: notes that lead from `to` back to the start, or no walk to `to`.
  abbrev pub Ends : Option (Option (Map String)) → Type 0
  Ends none = ⊥
  Ends (some none) = (ys : List String) → IsWalk next from ys → end_of from ys ≢ to
  Ends (some (some prev)) = (k : ℕ) × (k ≤ length prev) × Traced next from to prev k to

  pub unreached : (h : Hunt) → IsHunt next from to "" [] h → h.queue ≡ [] → Ends (some none)
  unreached h i e ys w last = absurd (
      ground (
        arith,
        i.missing,
        ap (λ z. contains z h.visited) last,
        walk-marked h i e from ys i.started w,
      ))

  pub popped :
      (curr : String) (queue : List String) (h : Hunt)
      → IsHunt next from to "" [] h
      → h.queue ≡ curr ∷ queue
      → IsHunt next from to curr (next curr) (record h { queue = queue })
  unfolding contains
  popped curr queue h i e = record {
    traced = i.traced;
    noted = i.noted;
    started = i.started;
    waits = λ n v. i.waits n (in_queue n curr queue h.queue e v);
    closed = λ m x v s.
        after_pop m curr queue h.queue e (contains x h.visited) (contains x (next curr))
          (i.closed m x v s) (λ same. sym (ap (λ z. contains x (next z)) same) ∙ s);
    missing = i.missing;
  }

  pub after_look :
      (us : List String) (fuel size : ℕ) (r : Map String ⊎ Hunt)
      → IsLooked us size r
      → size ≤ fuel
      → ((h : Hunt)
          → IsHunt next from to "" [] h
          → length h.queue + unseen us h.visited ≤ fuel
          → Ends (hunt next to (suc fuel) h))
      → Ends (elim r [ inl prev ↦ some (some prev) | inr h ↦ hunt next to (suc fuel) h ])
  after_look us fuel size (inl prev) l b ih = l
  after_look us fuel size (inr h) l b ih = ih h l.0 (omega (arith, l.1, b))

  pub hunt-Ends :
      (us : List String)
      → ((m n : String) → contains n (next m) ≡ true → contains n us ≡ true)
      → (fuel : ℕ) (h : Hunt) → IsHunt next from to "" [] h
      → length h.queue + unseen us h.visited ≤ fuel
      → Ends (hunt next to (suc fuel) h)
  unfolding hunt
  hunt-Ends us into zero h i b = elim (List-cases h.queue) [
    | inl e ↦ rw (e, hunt) (unreached h i e)
    | inr (curr, queue, e) ↦ absurd (omega (arith, b, ap length e))
  ]
  hunt-Ends us into (suc fuel) h i b = elim (List-cases h.queue) [
    | inl e ↦ rw (e, hunt) (unreached h i e)
    | inr (curr, queue, e) ↦
        let rest : Hunt = record h { queue = queue } in
        rw (e, hunt)
          (after_look us fuel fuel (look to curr (next curr) rest)
            (look-IsLooked us fuel curr (next curr) rest (popped curr queue h i e)
              (i.waits curr (here_first curr queue h.queue e))
              (λ n s. ground (arith, s, into curr n s)) (omega (arith, b, ap length e)))
            (omega arith) (hunt-Ends us into fuel))
  ]

  pub chain_of-Ends :
      (r : Option (Option (Map String)))
      → Ends r
      → chain_of from to r ≡ some none
          × ((ys : List String) → IsWalk next from ys → end_of from ys ≢ to)
        ⊎ (ys : List String) × (chain_of from to r ≡ some (some (from ∷ ys)))
          × IsWalk next from ys
          × (end_of from ys ≡ to)
  unfolding chain_of
  chain_of-Ends none e = absurd e
  chain_of-Ends (some none) e = inl (refl, e)
  chain_of-Ends (some (some prev)) (k, b, t) =
      let (ys, found, walk, ends) =
        path_back-IsWalk next from to prev (length prev) k to [] b t tt in
      inr (ys, ap some found, walk, ends)

  pub start-IsHunt :
      str_eq from to ≡ false
      → IsHunt next from to "" [] (record { queue = from ∷ []; visited = from ∷ []; prev = [] })
  unfolding contains Map.get
  start-IsHunt other = record {
    traced = λ n v. (
      0,
      omega arith,
      subst (Traced next from to [] 0) (ground (arith, v, eq_iff n from)) at_start,
    );
    noted = λ n v. ground (arith, v);
    started = ground (arith, str_eq_refl from);
    waits = λ n v. v;
    closed = λ m n v s. ground (arith, v);
    missing = ground (arith, other, eq_iff to from, eq_iff from to);
  }
