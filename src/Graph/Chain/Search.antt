-- ===== src/Graph/Chain/Search.antt =====
-- internal/engine/graph/detect.go: what the search of `FindImportChain` keeps.
use mathlib.Core.Path.{subst}
use code_watch.Prelude.{
  ℕ, zero, suc, ◌≤◌, String, true, false, ◌&&◌, ◌||◌, ◌≡◌, refl, ap, sym, inl, inr, none, some,
  List, [], ◌∷◌, ◌++◌, length, arith, str_eq, eq_iff, contains, contains-append, Option-cases,
  String-cases, is_some, str_eq_refl,
}
use code_watch.Prelude.Map
use code_watch.Prelude.Map.{Map}
use code_watch.Graph.Cycles.Walks.{IsWalk, end_of}
use code_watch.Graph.Chain.{Hunt, marked, path_back}
use code_watch.Graph.Chain.Notes.{length-put, kept, note, contains-last, onward, skipped}

module _ (next : String → List String) (from to : String) where
  -- `prev` leads from `n` back to the start in `k` steps.
  pub data Traced (prev : Map String) : ℕ → String → Type 0 where
    at_start : Traced prev 0 from
    after :
        {k : ℕ} {n p : String}
        → Map.get prev n ≡ some p
        → str_eq n from ≡ false
        → contains n (next p) ≡ true
        → Traced prev k p
        → Traced prev (suc k) n

  pub Traced-put :
      (prev : Map String) (m c : String) (k : ℕ) (n : String)
      → Map.get prev m ≡ none
      → Traced prev k n
      → Traced (Map.put prev m c) k n
  Traced-put prev m c zero n h at_start = at_start
  Traced-put prev m c (suc k) n h (after {p = p} e o s t) =
      after (kept prev m c n p h e) o s (Traced-put prev m c k p h t)

  -- The path that the notes give is a walk from the start.
  pub path_back-IsWalk :
      (prev : Map String) (fuel k : ℕ) (n : String) (path : List String)
      → k ≤ fuel
      → Traced prev k n
      → IsWalk next n path
      → (ys : List String) × (path_back (suc fuel) from prev n path ≡ some (from ∷ ys))
        × IsWalk next from ys
        × (end_of from ys ≡ end_of n path)
  unfolding path_back
  path_back-IsWalk prev fuel zero n path b at_start w = (path, rw (str_eq_refl from) refl, w, refl)
  path_back-IsWalk prev (suc fuel) (suc k) n path b (after {p = p} e o s t) w =
      let (ys, found, walk, ends) =
        path_back-IsWalk prev fuel k p (n ∷ path) (omega (arith, b)) t (s, w) in
      (ys, rw (o, e, path_back) found, walk, ends)
  path_back-IsWalk prev zero (suc k) n path b t w = absurd (omega (arith, b))

  pub not_start :
      (n : String) (visited : List String)
      → contains from visited ≡ true
      → contains n visited ≡ false
      → str_eq n from ≡ false
  not_start n visited s e = elim (String-cases n from) [
    | inl same ↦ absurd (ground (arith, e, ap (λ z. contains z visited) same, s))
    | inr other ↦ other
  ]

  -- What the search keeps, while the neighbours `ms` of `curr` are still to be looked at.
  pub record IsHunt (curr : String) (ms : List String) (h : Hunt) : Type 0 where
    pub traced :
        (n : String)
        → contains n h.visited ≡ true
        → (k : ℕ) × (k ≤ length h.prev) × Traced h.prev k n
    pub noted : (n : String) → Map.has h.prev n ≡ true → contains n h.visited ≡ true
    pub started : contains from h.visited ≡ true
    pub waits : (n : String) → contains n h.queue ≡ true → contains n h.visited ≡ true
    pub closed :
        (m n : String)
        → contains m h.visited ≡ true
        → contains n (next m) ≡ true
        → (contains n h.visited || (contains m h.queue || (str_eq m curr && contains n ms))) ≡ true
    pub missing : contains to h.visited ≡ false

  -- A module that is not marked has no note.
  pub unnoted :
      {curr : String} {ms : List String} {h : Hunt} (n : String)
      → IsHunt curr ms h
      → contains n h.visited ≡ false
      → Map.get h.prev n ≡ none
  unnoted {h = h} n i e = elim (Option-cases (Map.get h.prev n)) [
    | inl free ↦ free
    | inr (p, found) ↦ absurd (ground (arith, e, i.noted n (ap is_some found)))
  ]

  pub Traced-marked :
      (curr n : String) (ms : List String) (h : Hunt)
      → IsHunt curr (n ∷ ms) h
      → contains curr h.visited ≡ true
      → contains n (next curr) ≡ true
      → contains n h.visited ≡ false
      → (k : ℕ) × (k ≤ length (Map.put h.prev n curr)) × Traced (Map.put h.prev n curr) k n
  Traced-marked curr n ms h i c e new =
      let (k, b, t) = i.traced curr c in
      let free = unnoted n i new in
      (
        suc k,
        omega (arith, b, length-put h.prev n curr free),
        after (note n curr h.prev) (not_start n h.visited i.started new) e
            (Traced-put h.prev n curr k curr free t),
      )

  pub skip-IsHunt :
      (curr n : String) (ms : List String) (h : Hunt)
      → IsHunt curr (n ∷ ms) h
      → contains n h.visited ≡ true
      → IsHunt curr ms h
  unfolding contains
  skip-IsHunt curr n ms h i e = record {
    traced = i.traced;
    noted = i.noted;
    started = i.started;
    waits = i.waits;
    closed = λ m x v s.
        skipped (contains x h.visited) (contains m h.queue) (str_eq m curr) (contains x ms) x n
          h.visited (i.closed m x v s) e refl;
    missing = i.missing;
  }

  pub mark-IsHunt :
      (curr n : String) (ms : List String) (h : Hunt)
      → IsHunt curr (n ∷ ms) h
      → contains curr h.visited ≡ true
      → contains n (next curr) ≡ true
      → contains n h.visited ≡ false
      → str_eq n to ≡ false
      → IsHunt curr ms (marked curr n h)
  unfolding contains
  mark-IsHunt curr n ms h i c e new other = record {
    traced = λ x v. elim (String-cases x n) [
      | inl same ↦
          let (k, b, t) = Traced-marked curr n ms h i c e new in
          (k, b, subst (λ z. Traced (Map.put h.prev n curr) k z) (sym same) t)
      | inr older ↦
          let (k, b, t) = i.traced x (ground (arith, v, older)) in
          let free = unnoted n i new in
          (k, omega (arith, b, length-put h.prev n curr free), Traced-put h.prev n curr k x free t)
    ];
    noted =
        λ x v. ground (arith, v, Map.get-put h.prev n x curr, eq_iff x n, eq_iff n x, i.noted x);
    started = ground (arith, i.started);
    waits = λ x v. ground (arith, v, contains-append x h.queue (n ∷ []), i.waits x);
    closed = λ m x v s.
        onward (str_eq x n) (contains x h.visited) (contains m h.queue)
          (contains m (h.queue ++ n ∷ [])) (str_eq m n) (str_eq m curr) (contains x ms)
          (contains m h.visited) v (contains-last m n h.queue) (λ old. i.closed m x old s);
    missing = ground (arith, i.missing, other, eq_iff to n, eq_iff n to);
  }

  pub done-IsHunt : (curr : String) (h : Hunt) → IsHunt curr [] h → IsHunt "" [] h
  unfolding contains
  done-IsHunt curr h i = record {
    traced = i.traced;
    noted = i.noted;
    started = i.started;
    waits = i.waits;
    closed = λ m x v s. ground (arith, i.closed m x v s);
    missing = i.missing;
  }
