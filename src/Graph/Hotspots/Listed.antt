-- ===== src/Graph/Hotspots/Listed.antt =====
-- internal/engine/graph/metrics.go: which definitions are hotspots, and at which score.
use code_watch.Prelude.{
  ℕ, zero, suc, ◌+◌, ◌*◌, ◌/◌, String, Bool, true, false, not, ◌&&◌, ◌≡◌, refl, ap, sym, ◌∙◌, inl,
  inr, List, [], ◌∷◌, ◌++◌, map, ltb, ◌==◌, if◌then◌else◌, arith, Bool-cases, select,
}
use code_watch.Prelude.Map.{Map}
use code_watch.Model.{Definition, DefinitionKind}
use code_watch.Graph.Hotspots.{
  ComplexityHotspot, is_callable, weighted, hotspot_score, hotspot, hotspots_in, hotspots,
}

-- Each definition of the graph, with its module.
abbrev pub named_in : String → Map Definition → List (String × Definition)
named_in m [] = []
named_in m ((name, d) ∷ ds) = (m, d) ∷ named_in m ds

abbrev pub all_definitions : Map (Map Definition) → List (String × Definition)
all_definitions [] = []
all_definitions ((m, ds) ∷ rest) = named_in m ds ++ all_definitions rest

-- A function or a method with at least one line.
abbrev counts_as : DefinitionKind → ℕ → Bool
counts_as DefinitionKind.function n = ltb 0 n
counts_as DefinitionKind.method n = ltb 0 n
counts_as _ n = false

abbrev pub counts : String × Definition → Bool
counts (m, d) = counts_as d.kind d.loc

abbrev greater : ℕ → ℕ → ℕ
greater a b = if ltb a b then b else a

-- A definition's own score, or else the larger of 1 and twice its branches and its nesting, its
-- parameters and a tenth of its lines.
abbrev pub score_of : Definition → ℕ
score_of d = elim d.complexity_score [
  | zero ↦ greater 1 (2 * d.branch_count + 2 * d.nesting_depth + d.parameter_count + d.loc / 10)
  | suc n ↦ suc n
]

-- The hotspot of a definition.
abbrev pub spot : String × Definition → ComplexityHotspot
spot (m, d) = record {
  module_name = m;
  file = d.location.file;
  definition = d.name;
  kind = d.kind;
  score = score_of d;
  branches = d.branch_count;
  parameters = d.parameter_count;
  nesting = d.nesting_depth;
  loc = d.loc;
}

own_or_weighted :
    (own w : ℕ)
    → (if not (own == 0) then own else if w == 0 then 1 else w)
      ≡ elim own [ zero ↦ greater 1 w | suc n ↦ suc n ]
own_or_weighted zero w = ground arith
own_or_weighted (suc n) w = ground arith

hotspot_score_lem : (d : Definition) → hotspot_score d ≡ score_of d
unfolding hotspot_score
hotspot_score_lem d =
    let weights : weighted d
        ≡ 2 * d.branch_count + 2 * d.nesting_depth + d.parameter_count + d.loc / 10 =
      omega arith in
    own_or_weighted d.complexity_score (weighted d)
    ∙ ap (λ w. elim d.complexity_score [ zero ↦ greater 1 w | suc n ↦ suc n ]) weights

hotspot-spot : (m : String) (d : Definition) → hotspot m d ≡ spot (m, d)
unfolding hotspot
hotspot-spot m d =
    ap
      (λ k. record {
        module_name = m;
        file = d.location.file;
        definition = d.name;
        kind = d.kind;
        score = k;
        branches = d.branch_count;
        parameters = d.parameter_count;
        nesting = d.nesting_depth;
        loc = d.loc;
      })
      (hotspot_score_lem d)

counted : (k : DefinitionKind) (n : ℕ) → (is_callable k && not (n == 0)) ≡ counts_as k n
counted DefinitionKind.function n = ground arith
counted DefinitionKind.method n = ground arith
counted DefinitionKind.class n = refl
counted DefinitionKind.variable n = refl
counted DefinitionKind.constant n = refl
counted DefinitionKind.type n = refl
counted DefinitionKind.interface n = refl

-- One round of the inner loop.
kept_round :
    (callable empty counts_it : Bool) (h h' : ComplexityHotspot)
    (rest rest' : List ComplexityHotspot)
    → (callable && not empty) ≡ counts_it
    → h ≡ h'
    → rest ≡ rest'
    → (if not callable then rest else if empty then rest else h ∷ rest)
      ≡ (if counts_it then h' ∷ rest' else rest')
kept_round true false counts_it h h' rest rest' c e k =
    rw (sym c) (ap (λ x. x ∷ rest) e ∙ ap (λ xs. h' ∷ xs) k)
kept_round true true counts_it h h' rest rest' c e k = rw (sym c) k
kept_round false empty counts_it h h' rest rest' c e k = rw (sym c) k

map-select-if :
    (c : Bool) (x : String × Definition) (xs : List (String × Definition))
    → map spot (if c then x ∷ xs else xs) ≡ (if c then spot x ∷ map spot xs else map spot xs)
map-select-if true x xs = refl
map-select-if false x xs = refl

hotspots_in_lem :
    (m : String) (ds : Map Definition) → hotspots_in m ds ≡ map spot (select counts (named_in m ds))
unfolding hotspots_in
hotspots_in_lem m [] = refl
hotspots_in_lem m ((name, d) ∷ ds) =
    kept_round (is_callable d.kind) (d.loc == 0) (counts (m, d)) (hotspot m d) (spot (m, d))
      (hotspots_in m ds) (map spot (select counts (named_in m ds))) (counted d.kind d.loc)
      (hotspot-spot m d) (hotspots_in_lem m ds)
    ∙ sym (map-select-if (counts (m, d)) (m, d) (select counts (named_in m ds)))

map-select-append :
    (xs ys : List (String × Definition))
    → map spot (select counts (xs ++ ys))
      ≡ map spot (select counts xs) ++ map spot (select counts ys)
map-select-append [] ys = refl
map-select-append (x ∷ xs) ys = elim (Bool-cases (counts x)) [
  | inl e ↦ rw e (ap (λ zs. spot x ∷ zs) (map-select-append xs ys))
  | inr e ↦ rw e (map-select-append xs ys)
]

pub hotspots_lem :
    (defs : Map (Map Definition)) → hotspots defs ≡ map spot (select counts (all_definitions defs))
unfolding hotspots
hotspots_lem [] = refl
hotspots_lem ((m, ds) ∷ rest) =
    ap (λ xs. xs ++ hotspots rest) (hotspots_in_lem m ds)
    ∙ ap (λ ys. map spot (select counts (named_in m ds)) ++ ys) (hotspots_lem rest)
    ∙ sym (map-select-append (named_in m ds) (all_definitions rest))
