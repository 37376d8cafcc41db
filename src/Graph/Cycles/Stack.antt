-- ===== src/Graph/Cycles/Stack.antt =====
-- internal/engine/graph/detect.go: the invariant of the search on its stack and its reports.
use code_watch.Prelude.{
  String, Bool, true, false, ◌||◌, ◌≡◌, refl, sym, ap, ◌∙◌, List, [], ◌∷◌, ◌++◌, arith, str_eq,
  contains, contains-append, eq_iff, if◌then◌else◌, init, All,
}
use code_watch.Prelude.Map
use code_watch.Prelude.Map.{Map}
use code_watch.Graph.Cycles.{Frame, Search, marked, drop_until, report, enter, leave}
use code_watch.Graph.Cycles.Walks.{
  end_of, end_of-concat, IsWalk, IsCycle, IsWalk-concat, drop_until-IsWalk,
}

-- The modules of the stack, the start first.
abbrev pub spine : List Frame → List String
spine [] = []
spine (f ∷ fs) = spine fs ++ f.name ∷ []

pub marked-put :
    (m : Map Bool) (k j : String) (b : Bool)
    → marked (Map.put m k b) j ≡ (if str_eq k j then b else marked m j)
marked-put m k j b = ground (arith, Map.get-put m k j b)

init-concat {ℓ} : {A : Type ℓ} (xs : List A) (x : A) → init (xs ++ x ∷ []) ≡ xs
init-concat [] x = refl
init-concat (y ∷ []) x = refl
init-concat (y ∷ z ∷ xs) x = ap (◌∷◌ y) (init-concat (z ∷ xs) x)

pub contains-concat :
    (k x : String) (xs : List String) → contains k (xs ++ x ∷ []) ≡ (contains k xs || str_eq k x)
unfolding contains
contains-concat k x xs = contains-append k xs (x ∷ []) ∙ ground arith

module _ (next : String → List String) where
  abbrev pub IsFrame : Frame → Type 0
  IsFrame f = (y : String) → contains y f.pending ≡ true → contains y (next f.name) ≡ true

  -- Frames hold neighbours, each frame is a neighbour of the one below, and no module has two.
  abbrev pub IsStack : List Frame → Type 0
  IsStack [] = Unit
  IsStack (f ∷ []) = IsFrame f
  IsStack (f ∷ g ∷ fs) =
      IsFrame f
      × (contains f.name (next g.name) ≡ true)
      × (contains f.name (spine (g ∷ fs)) ≡ false)
      × IsStack (g ∷ fs)

  -- `st` is the stack of `s`.
  pub record IsSearch (st : List Frame) (s : Search) : Type 0 where
    pub top : s.stack ≡ st
    pub stack : IsStack st
    pub path : s.path ≡ spine st
    pub on : (x : String) → marked s.on_stack x ≡ contains x (spine st)
    pub seen : (x : String) → contains x (spine st) ≡ true → marked s.visited x ≡ true
    pub cycles : All (IsCycle next) s.cycles

  -- The stack is a walk to its top.
  spine-IsWalk :
      (f : Frame) (fs : List Frame)
      → IsStack (f ∷ fs)
      → (x : String) × (xs : List String) × (spine (f ∷ fs) ≡ x ∷ xs)
        × IsWalk next x xs
        × (end_of x xs ≡ f.name)
  spine-IsWalk f [] h = (f.name, [], refl, tt, refl)
  spine-IsWalk f (g ∷ fs) h =
      let (x, xs, e, w, top) = spine-IsWalk g fs h.3 in
      (
        x,
        xs ++ f.name ∷ [],
        ap (λ l. l ++ f.name ∷ []) e,
        IsWalk-concat next x f.name xs w (rw top h.1),
        end_of-concat x f.name xs,
      )

  IsStack-tail : (f : Frame) (fs : List Frame) → IsStack (f ∷ fs) → IsStack fs
  IsStack-tail f [] h = tt
  IsStack-tail f (g ∷ fs) h = h.3

  pub once : (f : Frame) (fs : List Frame) → IsStack (f ∷ fs) → contains f.name (spine fs) ≡ false
  unfolding contains
  once f [] h = refl
  once f (g ∷ fs) h = h.2

  pub top-IsFrame : (f : Frame) (fs : List Frame) → IsStack (f ∷ fs) → IsFrame f
  top-IsFrame f [] h = h
  top-IsFrame f (g ∷ fs) h = h.0

  -- The top frame with one neighbour taken.
  taken-IsStack :
      (m n : String) (ns : List String) (fs : List Frame)
      → IsStack (record { name = m; pending = n ∷ ns } ∷ fs)
      → IsStack (record { name = m; pending = ns } ∷ fs)
  unfolding contains
  taken-IsStack m n ns [] h = λ y e. h y (ground arith)
  taken-IsStack m n ns (g ∷ fs) h = (λ y e. h.0 y (ground arith), h.1, h.2, h.3)

  pub leave-IsSearch :
      (m : String) (ns : List String) (rest : List Frame) (s : Search)
      → IsSearch (record { name = m; pending = ns } ∷ rest) s
      → IsSearch rest (leave next m rest s)
  unfolding leave
  leave-IsSearch m ns rest s h =
      let f : Frame = record { name = m; pending = ns } in
      record {
        top = refl;
        stack = IsStack-tail f rest h.stack;
        path = ap init h.path ∙ init-concat (spine rest) m;
        on = λ x. ground (
          arith,
          marked-put s.on_stack m x false,
          h.on x,
          contains-concat x m (spine rest),
          once f rest h.stack,
          eq_iff m x,
          eq_iff x m,
        );
        seen = λ x e. h.seen x (ground (arith, contains-concat x m (spine rest)));
        cycles = h.cycles;
      }

  pub taken-IsSearch :
      (m n : String) (ns : List String) (rest : List Frame) (s : Search)
      → IsSearch (record { name = m; pending = n ∷ ns } ∷ rest) s
      → IsSearch
          (record { name = m; pending = ns } ∷ rest)
          (record s { stack = record { name = m; pending = ns } ∷ rest })
  taken-IsSearch m n ns rest s h = record {
    top = refl;
    stack = taken-IsStack m n ns rest h.stack;
    path = h.path;
    on = h.on;
    seen = h.seen;
    cycles = h.cycles;
  }

  -- Entering a module that was never seen, as the first one or from the top of the stack.
  pub enter-IsSearch :
      (n : String) (st : List Frame) (s : Search)
      → marked s.visited n ≡ false
      → IsStack (record { name = n; pending = next n } ∷ st)
      → IsSearch st s
      → IsSearch (record { name = n; pending = next n } ∷ st) (enter next n s)
  unfolding enter
  enter-IsSearch n st s new stacked h = record {
    top = ap (◌∷◌ (record { name = n; pending = next n })) h.top;
    stack = stacked;
    path = ap (λ p. p ++ n ∷ []) h.path;
    on = λ x. ground (
      arith,
      marked-put s.on_stack n x true,
      h.on x,
      contains-concat x n (spine st),
      eq_iff n x,
      eq_iff x n,
    );
    seen = λ x e. ground (
      arith,
      marked-put s.visited n x true,
      h.seen x,
      contains-concat x n (spine st),
      eq_iff n x,
      eq_iff x n,
    );
    cycles = h.cycles;
  }

  pub unseen_off :
      (n : String) (st : List Frame) (s : Search)
      → marked s.visited n ≡ false
      → IsSearch st s
      → contains n (spine st) ≡ false
  unseen_off n st s new h = ground (arith, h.seen n)

  pub All-report :
      (c : List String) (cs : List (List String))
      → IsCycle next c
      → All (IsCycle next) cs
      → All (IsCycle next) (cs ++ c ∷ [])
  All-report c [] h all = (h, tt)
  All-report c (d ∷ cs) h all = (all.0, All-report c cs h all.1)

  -- A neighbour of the top that is on the stack closes a cycle, which is reported.
  pub closes :
      (m n : String) (ns : List String) (rest : List Frame) (s : Search)
      → contains n (next m) ≡ true
      → IsSearch (record { name = m; pending = ns } ∷ rest) s
      → marked s.on_stack n ≡ true
      → (c : List String) × (report (drop_until n s.path) s.cycles ≡ s.cycles ++ c ∷ [])
        × IsCycle next c
  unfolding report
  closes m n ns rest s edge h on =
      let f : Frame = record { name = m; pending = ns } in
      let (x, xs, e, w, top) = spine-IsWalk f rest h.stack in
      let (ys, cut, w', top') =
        drop_until-IsWalk next n x xs w (ap (contains n) (sym e) ∙ sym (h.on n) ∙ on) in
      (n ∷ ys, rw (h.path, e, cut, report), (w', rw (top' ∙ top) edge))
