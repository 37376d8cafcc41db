-- ===== src/Layers/Best.antt =====
-- internal/engine/graph/architecture.go: the layer that `layerFor` chooses.
use mathlib.Core.Path.{subst}
use code_watch.Prelude.{
  ℕ, ◌≤◌, ◌<◌, ◌≡◌, refl, ap, sym, ◌∙◌, inl, inr, ◌⊎◌, String, Bool, true, false, ◌&&◌,
  if◌then◌else◌, List, [], ◌∷◌, arith, ltb, All, Bool-cases, List-cases,
}
use Prim.Native.String.{len}
use code_watch.Graph.{ModuleInfo}
use code_watch.Layers.Paths.{PathText, normalize}
use code_watch.Layers.{
  LayerMatcher, LayerRuleEngine, Candidate, ranks_before, insert_candidate, sort_candidates,
  top_layer, best_score, CompiledPattern, match_pattern, candidates, sample_path, layer_for,
}

-- A list that is empty, or whose first candidate scores highest.
abbrev TopScores : List Candidate → Type 0
TopScores [] = Unit
TopScores (c ∷ cs) = All (λ d. d.score ≤ c.score) cs

All-insert :
    (b : ℕ) (c : Candidate) (cs : List Candidate)
    → c.score ≤ b
    → All (λ d. d.score ≤ b) cs
    → All (λ d. d.score ≤ b) (insert_candidate c cs)
unfolding insert_candidate
All-insert b c [] h a = (h, tt)
All-insert b c (d ∷ ds) h a = elim (Bool-cases (ranks_before d c)) [
  | inl e ↦ rw (e, insert_candidate) (a.0, All-insert b c ds h a.1)
  | inr e ↦ rw (e, insert_candidate) (h, a)
]

ranks_score : (a b : Candidate) → ranks_before a b ≡ true → b.score ≤ a.score
unfolding ranks_before
ranks_score a b h = ground arith

unranked_score : (a b : Candidate) → ranks_before a b ≡ false → a.score ≤ b.score
unfolding ranks_before
unranked_score a b h = ground arith

All-weaken :
    (a b : ℕ) (cs : List Candidate) → a ≤ b → All (λ d. d.score ≤ a) cs → All (λ d. d.score ≤ b) cs
All-weaken a b [] h k = tt
All-weaken a b (c ∷ cs) h k = (omega (arith, k.0), All-weaken a b cs h k.1)

insert-TopScores :
    (c : Candidate) (cs : List Candidate) → TopScores cs → TopScores (insert_candidate c cs)
unfolding insert_candidate
insert-TopScores c [] t = tt
insert-TopScores c (d ∷ ds) t = elim (Bool-cases (ranks_before d c)) [
  | inl e ↦ rw (e, insert_candidate) (All-insert d.score c ds (ranks_score d c e) t)
  | inr e ↦
      rw (e, insert_candidate)
        (unranked_score d c e, All-weaken d.score c.score ds (unranked_score d c e) t)
]

sort-TopScores : (cs : List Candidate) → TopScores (sort_candidates cs)
unfolding sort_candidates
sort-TopScores [] = tt
sort-TopScores (c ∷ cs) = insert-TopScores c (sort_candidates cs) (sort-TopScores cs)

-- Some element of the list.
abbrev pub Any {ℓ} : {A : Type ℓ} → (A → Type 0) → List A → Type 0
Any P [] = ⊥
Any P (x ∷ xs) = P x ⊎ Any P xs

-- A round of the loop over the patterns.
abbrev longer : ℕ → Bool → ℕ → ℕ
longer b hit n = if hit then (if ltb b n then n else b) else b

longer_most : (b : ℕ) (hit : Bool) (n : ℕ) → b ≤ longer b hit n
longer_most b hit n = ground arith

longer_hit : (b : ℕ) (hit : Bool) (n : ℕ) → hit ≡ true → n ≤ longer b hit n
longer_hit b hit n h = ground (arith, h)

longer-cases :
    (b : ℕ) (hit : Bool) (n : ℕ) → (longer b hit n ≡ b) ⊎ ((hit ≡ true) × (longer b hit n ≡ n))
longer-cases b hit n = elim (Bool-cases (hit && ltb b n)) [
  | inl e ↦ inr (ground (arith, e), ground (arith, e))
  | inr e ↦ inl (ground (arith, e))
]

module _ (P : Candidate → Type 0) where
  Any-insert :
      (c : Candidate) (cs : List Candidate) → Any P (insert_candidate c cs) → P c ⊎ Any P cs
  unfolding insert_candidate
  Any-insert c [] h = h
  Any-insert c (d ∷ ds) h = elim (Bool-cases (ranks_before d c)) [
    | inr e ↦ rw (e, insert_candidate) at h
    | inl e ↦ elim (rw (e, insert_candidate) at h) [
      | inl a ↦ inr (inl a)
      | inr a ↦ elim (Any-insert c ds a) [ inl x ↦ inl x | inr x ↦ inr (inr x) ]
    ]
  ]

  Any-sort : (cs : List Candidate) → Any P (sort_candidates cs) → Any P cs
  unfolding sort_candidates
  Any-sort [] h = h
  Any-sort (c ∷ cs) h = elim (Any-insert c (sort_candidates cs) h) [
    | inl a ↦ inl a
    | inr a ↦ inr (Any-sort cs a)
  ]

  All-of_insert :
      (c : Candidate) (cs : List Candidate) → All P (insert_candidate c cs) → P c × All P cs
  unfolding insert_candidate
  All-of_insert c [] h = h
  All-of_insert c (d ∷ ds) h = elim (Bool-cases (ranks_before d c)) [
    | inr e ↦ rw (e, insert_candidate) at h
    | inl e ↦
        let h' = rw (e, insert_candidate) at h in
        let (a, b) = All-of_insert c ds h'.1 in (a, (h'.0, b))
  ]

  All-of_sort : (cs : List Candidate) → All P (sort_candidates cs) → All P cs
  unfolding sort_candidates
  All-of_sort [] h = h
  All-of_sort (c ∷ cs) h =
      let (a, b) = All-of_insert c (sort_candidates cs) h in (a, All-of_sort cs b)

module _ (text : PathText) (m path : String) where
  -- No matching pattern is longer than `n`.
  abbrev pub IsWithin : ℕ → List CompiledPattern → Type 0
  IsWithin n ps = All (λ p. match_pattern text p m path ≡ true → len p.raw ≤ n) ps

  -- A matching pattern has length `n`.
  abbrev pub HasLength : ℕ → List CompiledPattern → Type 0
  HasLength n ps = Any (λ p. (match_pattern text p m path ≡ true) × (len p.raw ≡ n)) ps

  -- The loop over the patterns finds the longest matching one, if it is longer than `b`.
  best_score-IsWithin :
      (b : ℕ) (ps : List CompiledPattern)
      → (b ≤ best_score text b m path ps) × IsWithin (best_score text b m path ps) ps
  unfolding best_score
  best_score-IsWithin b [] = (omega arith, tt)
  best_score-IsWithin b (p ∷ ps) =
      let b' = longer b (match_pattern text p m path) (len p.raw) in
      let (most, rest) = best_score-IsWithin b' ps in
      (
        omega (arith, longer_most b (match_pattern text p m path) (len p.raw), most),
        (
          λ hit. omega (arith, longer_hit b (match_pattern text p m path) (len p.raw) hit, most),
          rest,
        ),
      )

  best_score-HasLength :
      (b : ℕ) (ps : List CompiledPattern)
      → (best_score text b m path ps ≡ b) ⊎ HasLength (best_score text b m path ps) ps
  unfolding best_score
  best_score-HasLength b [] = inl refl
  best_score-HasLength b (p ∷ ps) =
      let b' = longer b (match_pattern text p m path) (len p.raw) in
      elim (best_score-HasLength b' ps) [
        | inr later ↦ inr (inr later)
        | inl same ↦ elim (longer-cases b (match_pattern text p m path) (len p.raw)) [
          | inl kept ↦ inl (same ∙ kept)
          | inr (hit, is_len) ↦ inr (inl (hit, sym is_len ∙ sym same))
        ]
      ]

  -- The length of a layer's longest matching pattern, or 0.
  abbrev score : LayerMatcher → ℕ
  score l = best_score text 0 m path l.patterns

  All-scores :
      (b : ℕ) (ls : List LayerMatcher)
      → All (λ d. d.score ≤ b) (candidates text m path ls)
      → All (λ l. score l ≤ b) ls
  unfolding candidates
  All-scores b [] h = tt
  All-scores b (l ∷ ls) h = elim (Bool-cases (ltb 0 (score l))) [
    | inl e ↦ let h' = rw (e, candidates) at h in (h'.0, All-scores b ls h'.1)
    | inr e ↦ (ground arith, All-scores b ls (rw (e, candidates) at h))
  ]

  Any-scores :
      (c : Candidate) (ls : List LayerMatcher)
      → Any (λ d. d ≡ c) (candidates text m path ls)
      → Any (λ l. (c.layer ≡ l.name) × (score l ≡ c.score) × (0 < score l)) ls
  unfolding candidates
  Any-scores c [] h = h
  Any-scores c (l ∷ ls) h = elim (Bool-cases (ltb 0 (score l))) [
    | inl e ↦ elim (rw (e, candidates) at h) [
      | inl same ↦ inl (sym (ap (λ d. d.layer) same), ap (λ d. d.score) same, ground arith)
      | inr a ↦ inr (Any-scores c ls a)
    ]
    | inr e ↦ inr (Any-scores c ls (rw (e, candidates) at h))
  ]

-- `layerFor` returns "" if no pattern of positive length matches, and otherwise the name of a layer
-- with a matching pattern than which no matching pattern of any layer is longer.
abbrev pub IsBest : PathText → LayerRuleEngine → String → ModuleInfo → String → Type 0
IsBest text e m info out =
    ((out ≡ "")
      × All (λ l. IsWithin text (normalize text m) (sample_path text info) 0 l.patterns) e.layers)
    ⊎ ((n : ℕ) × (0 < n)
        × Any
            (λ l.
              (out ≡ l.name)
              × HasLength text (normalize text m) (sample_path text info) n l.patterns)
            e.layers
        × All (λ l. IsWithin text (normalize text m) (sample_path text info) n l.patterns) e.layers)

Any-map :
    {P Q : LayerMatcher → Type 0} (ls : List LayerMatcher)
    → ((l : LayerMatcher) → P l → Q l)
    → Any P ls
    → Any Q ls
Any-map [] f h = h
Any-map (l ∷ ls) f (inl h) = inl (f l h)
Any-map (l ∷ ls) f (inr h) = inr (Any-map ls f h)

All-map :
    {P Q : LayerMatcher → Type 0} (ls : List LayerMatcher)
    → ((l : LayerMatcher) → P l → Q l)
    → All P ls
    → All Q ls
All-map [] f h = tt
All-map (l ∷ ls) f (h, hs) = (f l h, All-map ls f hs)

All-weaker :
    (text : PathText) (m path : String) (a b : ℕ) (ps : List CompiledPattern)
    → a ≤ b
    → IsWithin text m path a ps
    → IsWithin text m path b ps
All-weaker text m path a b [] h w = tt
All-weaker text m path a b (p ∷ ps) h (w, ws) =
    (λ hit. omega (arith, w hit, h), All-weaker text m path a b ps h ws)

scored :
    (text : PathText) (m path : String) (l : LayerMatcher) (n : ℕ)
    → score text m path l ≡ n
    → 0 < score text m path l
    → HasLength text m path n l.patterns
scored text m path l n same above = elim (best_score-HasLength text m path 0 l.patterns) [
  | inl nothing ↦ absurd (omega (arith, nothing, above))
  | inr has ↦ subst (λ k. HasLength text m path k l.patterns) same has
]

positive :
    (c : Candidate) (ls : List LayerMatcher) (points : LayerMatcher → ℕ)
    → Any (λ l. (c.layer ≡ l.name) × (points l ≡ c.score) × (0 < points l)) ls
    → 0 < c.score
positive c [] points h = absurd h
positive c (l ∷ ls) points (inl (name, same, above)) = omega (arith, same, above)
positive c (l ∷ ls) points (inr later) = positive c ls points later

-- A bound on the scores is one on the matching patterns.
scores-IsWithin :
    (text : PathText) (m path : String) (n : ℕ) (ls : List LayerMatcher)
    → All (λ l. score text m path l ≤ n) ls
    → All (λ l. IsWithin text m path n l.patterns) ls
scores-IsWithin text m path n ls h =
    All-map ls
      (λ l bound.
        All-weaker text m path (score text m path l) n l.patterns bound
          (best_score-IsWithin text m path 0 l.patterns).1)
      h

-- The layer that `layerFor` gives a module: "" if no layer has a matching pattern of positive
-- length, and otherwise the name of a layer with a matching pattern such that no matching pattern
-- of any layer is longer.
pub layer_for-IsBest :
    (text : PathText) (e : LayerRuleEngine) (m : String) (info : ModuleInfo)
    → IsBest text e m info (layer_for text e m info)
unfolding layer_for top_layer
layer_for-IsBest text e m info =
    let m' = normalize text m in
    let path = sample_path text info in
    let cs = candidates text m' path e.layers in
    let top = sort-TopScores cs in
    elim (List-cases (sort_candidates cs)) [
      | inl none_match ↦ inl (
        ap top_layer none_match,
        scores-IsWithin text m' path 0 e.layers (
            All-scores text m' path 0 e.layers (
              All-of_sort (λ d. d.score ≤ 0) cs
                (subst (All (λ d. d.score ≤ 0)) (sym none_match) tt))),
      )
      | inr (c, rest, first) ↦
          let most : All (λ d. d.score ≤ c.score) (sort_candidates cs) =
            subst (All (λ d. d.score ≤ c.score)) (sym first)
              (omega arith, subst TopScores first top) in
          let best =
            All-scores text m' path c.score e.layers
              (All-of_sort (λ d. d.score ≤ c.score) cs most) in
          let here : Any (λ d. d ≡ c) cs =
            Any-sort (λ d. d ≡ c) cs (subst (Any (λ d. d ≡ c)) (sym first) (inl refl)) in
          let found = Any-scores text m' path c e.layers here in
          inr (
            c.score,
            positive c e.layers (λ l. score text m' path l) found,
            Any-map e.layers
                (λ l h. (ap top_layer first ∙ h.0, scored text m' path l c.score h.1 h.2)) found,
            scores-IsWithin text m' path c.score e.layers best,
          )
    ]
