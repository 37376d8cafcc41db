-- ===== src/Graph/Impact/Reach.antt =====
-- internal/engine/graph/impact.go, internal/engine/graph/detect.go: what the shared search sees.
use code_watch.Prelude.{
  ℕ, zero, suc, ◌+◌, ◌≤◌, String, Bool, true, false, ◌&&◌, ◌||◌, ◌≡◌, ap, inl, inr, ◌⊎◌, some, List,
  [], ◌∷◌, ◌++◌, arith, str_eq, contains, contains-append, eq_iff, if◌then◌else◌, length,
  length-append, Bool-cases, List-cases,
}
use code_watch.Graph.Impact.{Wave, meet_all, spread}

-- How many of the names are not seen.
abbrev pub unseen : List String → List String → ℕ
unseen [] seen = 0
unseen (u ∷ us) seen = (if contains u seen then 0 else 1) + unseen us seen

pub unseen-length : (us seen : List String) → unseen us seen ≤ length us
unseen-length [] seen = omega arith
unseen-length (u ∷ us) seen = ground (arith, unseen-length us seen)

unseen_mono : (m : String) (us seen : List String) → unseen us (m ∷ seen) ≤ unseen us seen
unfolding contains
unseen_mono m [] seen = omega arith
unseen_mono m (u ∷ us) seen = ground (arith, unseen_mono m us seen)

pub unseen-new :
    (m : String) (us seen : List String)
    → contains m us ≡ true
    → contains m seen ≡ false
    → unseen us (m ∷ seen) + 1 ≤ unseen us seen
unfolding contains
unseen-new m [] seen h k = cc
unseen-new m (u ∷ us) seen h k =
    ground (arith, unseen_mono m us seen, unseen-new m us seen, eq_iff m u, eq_iff u m)

module _ (importers : String → List String) (admit : String → Bool) (starts : List String) where
  -- The modules on a chain of importers from the starts, each but the last a start or admitted.
  pub data Reach : String → Type 0 where
    start : {m : String} → contains m starts ≡ true → Reach m
    through :
        {m n : String}
        → Reach m
        → (contains m starts || admit m) ≡ true
        → contains n (importers m) ≡ true
        → Reach n

  module _ (gain : String → List String → List String) (gives : String → String → Bool)
      (gain_lem : (m f : String) (found : List String)
        → contains f (gain m found) ≡ (contains f found || gives m f))
      (first : List String) where
    -- The invariant inside the inner loop: the module `h` has the importers `ms` left.
    pub record IsWave (h : String) (ms : List String) (w : Wave) : Type 0 where
      pub sound : (m : String) → contains m w.seen ≡ true → Reach m
      pub begun : (m : String) → contains m starts ≡ true → contains m w.seen ≡ true
      pub waits :
          (m : String)
          → contains m w.queue ≡ true
          → (contains m w.seen && (contains m starts || admit m)) ≡ true
      pub closed :
          (m n : String)
          → contains m w.seen ≡ true
          → (contains m starts || admit m) ≡ true
          → contains n (importers m) ≡ true
          → (contains m w.queue || contains n w.seen || (str_eq m h && contains n ms)) ≡ true
      pub next : (n : String) → contains n ms ≡ true → Reach n
      pub keeps : (f : String) → contains f first ≡ true → contains f w.found ≡ true
      pub gained :
          (m f : String)
          → contains m w.seen ≡ true
          → contains m starts ≡ false
          → gives m f ≡ true
          → contains f w.found ≡ true
      pub source :
          (f : String)
          → contains f w.found ≡ true
          → (contains f first ≡ true)
            ⊎ ((m : String) × (contains m w.seen ≡ true)
                × (contains m starts ≡ false)
                × (gives m f ≡ true))

    met : Wave → String → Wave
    met w m = record {
      queue = if admit m then w.queue ++ m ∷ [] else w.queue;
      seen = m ∷ w.seen;
      found = gain m w.found;
    }

    skip-IsWave :
        (h m : String) (ms : List String) (w : Wave)
        → contains m w.seen ≡ true
        → IsWave h (m ∷ ms) w
        → IsWave h ms w
    unfolding contains
    skip-IsWave h m ms w old i = record {
      sound = i.sound;
      begun = i.begun;
      waits = i.waits;
      closed = λ a n. λ p q r. ground (arith, i.closed a n p q r, eq_iff n m);
      next = λ n p. i.next n (ground arith);
      keeps = i.keeps;
      gained = i.gained;
      source = i.source;
    }

    met-IsWave :
        (h m : String) (ms : List String) (w : Wave)
        → contains m w.seen ≡ false
        → IsWave h (m ∷ ms) w
        → IsWave h ms (met w m)
    unfolding contains met
    met-IsWave h m ms w new i = record {
      sound = λ a p. elim (Bool-cases (str_eq a m)) [
        | inl e ↦ i.next a (ground arith)
        | inr ne ↦ i.sound a (ground arith)
      ];
      begun = λ a p. ground (arith, i.begun a p);
      waits = λ a p. ground (
        arith,
        i.waits a,
        contains-append a w.queue (m ∷ []),
        eq_iff a m,
        ap admit {x = a} {y = m},
      );
      closed = λ a n p q r. ground (
        arith,
        i.closed a n,
        i.begun a,
        contains-append a w.queue (m ∷ []),
        eq_iff a m,
        eq_iff n m,
        ap admit {x = a} {y = m},
        i.begun m,
      );
      next = λ n p. i.next n (ground arith);
      keeps = λ f p. ground (arith, i.keeps f p, gain_lem m f w.found);
      gained = λ a f p q r. ground (
        arith,
        i.gained a f,
        gain_lem m f w.found,
        eq_iff a m,
        ap (λ z. gives z f) {x = a} {y = m},
      );
      source = λ f p. elim (Bool-cases (contains f w.found)) [
        | inl e ↦ elim (i.source f e) [
          | inl a ↦ inl a
          | inr (a, s, ns, g) ↦ inr (a, ground arith, ns, g)
        ]
        | inr ne ↦ inr (
          m,
          ground (arith, eq_iff m m),
          ground (arith, i.begun m),
          ground (arith, gain_lem m f w.found),
        )
      ];
    }

    meet_all-IsWave :
        (h : String) (ms : List String) (w : Wave)
        → IsWave h ms w
        → IsWave h [] (meet_all importers admit gain w ms)
    unfolding meet_all met
    meet_all-IsWave h [] w i = i
    meet_all-IsWave h (m ∷ ms) w i = elim (Bool-cases (contains m w.seen)) [
      | inl old ↦ rw (old, meet_all) (meet_all-IsWave h ms w (skip-IsWave h m ms w old i))
      | inr new ↦ rw (new, meet_all) (meet_all-IsWave h ms (met w m) (met-IsWave h m ms w new i))
    ]

    pop-IsWave :
        (h : String) (rest : List String) (w : Wave)
        → w.queue ≡ h ∷ rest
        → IsWave "" [] w
        → IsWave h (importers h) (record w { queue = rest })
    unfolding contains
    pop-IsWave h rest w e i =
        let at : (a : String) → contains a w.queue ≡ (str_eq a h || contains a rest) =
          λ a. ap (contains a) e in
        record {
          sound = i.sound;
          begun = i.begun;
          waits = λ a p. ground (arith, i.waits a, at a);
          closed = λ a n p q r.
              ground (arith, i.closed a n p q r, at a, eq_iff a h, ap importers {x = a} {y = h});
          next = λ n p.
              through (i.sound h (ground (arith, i.waits h, at h, eq_iff h h)))
                (ground (arith, i.waits h, at h, eq_iff h h)) p;
          keeps = i.keeps;
          gained = i.gained;
          source = i.source;
        }

    done-IsWave : (h : String) (w : Wave) → IsWave h [] w → IsWave "" [] w
    unfolding contains
    done-IsWave h w i = record {
      sound = i.sound;
      begun = i.begun;
      waits = i.waits;
      closed = λ a n p q r. ground (arith, i.closed a n p q r);
      next = i.next;
      keeps = i.keeps;
      gained = i.gained;
      source = i.source;
    }

    meet_all-measure :
        (us ms : List String) (w : Wave)
        → ((n : String) → contains n ms ≡ true → contains n us ≡ true)
        → length (meet_all importers admit gain w ms).queue
            + unseen us (meet_all importers admit gain w ms).seen
          ≤ length w.queue + unseen us w.seen
    unfolding meet_all contains met
    meet_all-measure us [] w h = omega arith
    meet_all-measure us (m ∷ ms) w h = elim (Bool-cases (contains m w.seen)) [
      | inl old ↦ rw (old, meet_all) (meet_all-measure us ms w (λ n p. h n (ground arith)))
      | inr new ↦
          rw (new, meet_all)
            (ground (
              arith,
              meet_all-measure us ms (met w m) (λ n p. h n (ground arith)),
              unseen-new m us w.seen,
              h m (ground (arith, eq_iff m m)),
              length-append w.queue (m ∷ []),
            ))
    ]

    -- With a round for each module that waits or may still be seen, the search ends, and has seen
    -- exactly what the starts reach.
    pub spread-IsWave :
        (us : List String)
        → ((m n : String) → contains n (importers m) ≡ true → contains n us ≡ true)
        → (fuel : ℕ) (w : Wave) → length w.queue + unseen us w.seen ≤ fuel
        → IsWave "" [] w
        → (w' : Wave) × (spread importers admit gain fuel w ≡ some w')
          × IsWave "" [] w'
          × (w'.queue ≡ [])
    unfolding spread
    spread-IsWave us covers zero w h i = elim (List-cases w.queue) [
      | inl e ↦ (w, simp (e, spread), i, e)
      | inr (m, rest, e) ↦ absurd (ground (arith, ap length e))
    ]
    spread-IsWave us covers (suc fuel) w h i = elim (List-cases w.queue) [
      | inl e ↦ (w, simp (e, spread), i, e)
      | inr (m, rest, e) ↦
          let popped : Wave = record w { queue = rest } in
          let w₁ = meet_all importers admit gain popped (importers m) in
          let (w', out, good, empty) =
            spread-IsWave us covers fuel w₁
              (omega (arith, meet_all-measure us (importers m) popped (covers m), ap length e))
              (done-IsWave m w₁
                (meet_all-IsWave m (importers m) popped (pop-IsWave m rest w e i))) in
          (w', simp (e, spread) out, good, empty)
    ]

    -- The state in which a search starts.
    pub begin-IsWave : IsWave "" [] (record { queue = starts; seen = starts; found = first })
    unfolding contains
    begin-IsWave = record {
      sound = λ m h. start h;
      begun = λ m h. h;
      waits = λ m h. ground arith;
      closed = λ m n h a e. ground arith;
      next = λ n h. cc;
      keeps = λ f h. h;
      gained = λ m f h k l. cc;
      source = λ f h. inl h;
    }

    pub Reach-seen :
        (w : Wave)
        → IsWave "" [] w
        → w.queue ≡ []
        → {m : String} → Reach m
        → contains m w.seen ≡ true
    unfolding contains
    Reach-seen w i e (start {m = m} h) = i.begun m h
    Reach-seen w i e (through {m = m} {n = n} r a h) =
        ground (arith, i.closed m n (Reach-seen w i e r) a h, ap (contains m) e)
