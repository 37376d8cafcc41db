-- ===== src/Packages/Correct.antt =====
-- internal/engine/architecture/evaluator.go: what `Evaluate` reports, and the imports and the file
-- counts that a rule refuses.
use code_watch.Prelude.{
  ℕ, String, Bool, true, false, not, ◌&&◌, ◌||◌, ◌≡◌, refl, ap, ◌∙◌, Option, none, some, List, [],
  ◌∷◌, ◌++◌, arith, if◌then◌else◌, str_eq, eq_iff, contains, sort_strings, contains-sort_strings,
  is_some, length, select,
}
use code_watch.Prelude.Int.{ℤ, pos, lessℤ}
use code_watch.Prelude.Map
use code_watch.Prelude.Map.{Map}
use code_watch.Text.{GoText}
use code_watch.Graph.{Graph, ModuleInfo}
use code_watch.Graph.Links.{ImportEdge, has_edge}
use code_watch.Layers.Paths.{PathText}
use code_watch.Layers.{CompiledPattern}
use code_watch.Config.Sections.{is_empty}
use code_watch.Packages.Counts.{is_kept, count_files-length}
use code_watch.Packages.{
  Rule, Violation, file_count, denied_import, match_patterns, matches_module, allows_import,
  count_files, check_count, check_imports, check_rule, check_rules, EvaluationResult,
  evaluate_module, evaluate_modules, evaluate,
}

abbrev pub found : (Violation → Bool) → List Violation → Bool
found hit [] = false
found hit (v ∷ vs) = hit v || found hit vs

-- A refused import from `a` to `b`.
abbrev pub is_denied : String → String → Violation → Bool
is_denied a b (file_count r m limit n) = false
is_denied a b (denied_import r m target edge) = str_eq m a && str_eq target b

-- A file count of `a` above a limit.
abbrev pub is_counted : String → Violation → Bool
is_counted a (file_count r m limit n) = str_eq m a
is_counted a (denied_import r m target edge) = false

found-append :
    (hit : Violation → Bool) (vs ws : List Violation)
    → found hit (vs ++ ws) ≡ (found hit vs || found hit ws)
found-append hit [] ws = refl
found-append hit (v ∷ vs) ws = ground (arith, found-append hit vs ws)

found-if :
    (c : Bool) (hit : Violation → Bool) (vs : List Violation)
    → found hit (if c then vs else []) ≡ (c && found hit vs)
found-if true hit vs = refl
found-if false hit vs = refl

str_eq_sym : (s t : String) → str_eq s t ≡ str_eq t s
str_eq_sym s t = ground (arith, eq_iff s t, eq_iff t s)

-- What one target adds, given the tests of the loop.
denied-head :
    (rule m target a b : String) (rest : List Violation) (inside allowed : Bool)
    (o : Option ImportEdge)
    → found (is_denied a b) (
        if not inside
        then rest
        else if allowed
        then rest
        else elim o [ none ↦ rest | some edge ↦ denied_import rule m target edge ∷ rest ])
      ≡ ((is_some o && (inside && not allowed) && (str_eq m a && str_eq target b))
          || found (is_denied a b) rest)
denied-head rule m target a b rest false allowed none = refl
denied-head rule m target a b rest false allowed (some edge) = refl
denied-head rule m target a b rest true true none = refl
denied-head rule m target a b rest true true (some edge) = refl
denied-head rule m target a b rest true false none = refl
denied-head rule m target a b rest true false (some edge) = refl

counted-head :
    (rule m target a : String) (rest : List Violation) (inside allowed : Bool)
    (o : Option ImportEdge)
    → found (is_counted a) (
        if not inside
        then rest
        else if allowed
        then rest
        else elim o [ none ↦ rest | some edge ↦ denied_import rule m target edge ∷ rest ])
      ≡ found (is_counted a) rest
counted-head rule m target a rest false allowed o = refl
counted-head rule m target a rest true true o = refl
counted-head rule m target a rest true false none = refl
counted-head rule m target a rest true false (some edge) = refl

joins :
    (here from_is to_is is_to b_in there rest : Bool)
    → (to_is ≡ true → here ≡ there)
    → is_to ≡ to_is
    → rest ≡ (from_is && (b_in && there))
    → ((here && (from_is && to_is)) || rest) ≡ (from_is && ((is_to || b_in) && there))
joins here from_is to_is is_to b_in there rest h k e = ground (arith, h, k, e)

either_rule :
    (from_is hits edge inside refused more found_here rest : Bool)
    → found_here ≡ (from_is && (edge && (inside && refused)))
    → rest ≡ (from_is && (edge && (inside && more)))
    → ((hits && found_here) || rest)
      ≡ (from_is && (edge && (inside && ((hits && refused) || more))))
either_rule from_is hits edge inside refused more found_here rest h k = ground (arith, h, k)

later :
    (m_is is_m listed here there rest : Bool)
    → (m_is ≡ true → here ≡ there)
    → is_m ≡ m_is
    → rest ≡ (listed && there)
    → ((m_is && here) || rest) ≡ ((is_m || listed) && there)
later m_is is_m listed here there rest h k e = ground (arith, h, k, e)

once : (listed known more : Bool) → listed ≡ known → (listed && (known && more)) ≡ (known && more)
once listed known more h = ground (arith, h)

either_count :
    (from_is hits over more found_here rest : Bool)
    → found_here ≡ (from_is && over)
    → rest ≡ (from_is && more)
    → ((hits && found_here) || rest) ≡ (from_is && ((hits && over) || more))
either_count from_is hits over more found_here rest h k = ground (arith, h, k)

only_imports :
    (c m_is listed edge inside allowed counted imports : Bool)
    → counted ≡ false
    → imports ≡ (m_is && (listed && (edge && (inside && not allowed))))
    → listed ≡ edge
    → (c ≡ false → allowed ≡ true)
    → (counted || (c && imports)) ≡ (m_is && (edge && (inside && not allowed)))
only_imports c m_is listed edge inside allowed counted imports h k e f = ground (arith, h, k, e, f)

only_counts :
    (c counted imports over : Bool)
    → counted ≡ over
    → imports ≡ false
    → (counted || (c && imports)) ≡ over
only_counts c counted imports over h k = ground (arith, h, k)

both_empty : (a b : Bool) → (not a || not b) ≡ false → (a ≡ true) × (b ≡ true)
both_empty a b h = ground (arith, h)

found_count :
    (over : Bool) (rule m a b : String) (most : ℤ) (n : ℕ)
    → (found (is_denied a b) (if over then file_count rule m most n ∷ [] else []) ≡ false)
      × (found (is_counted a) (if over then file_count rule m most n ∷ [] else [])
          ≡ (str_eq m a && over))
found_count true rule m a b most n = (refl, ground arith)
found_count false rule m a b most n = (refl, ground arith)

module _ (text : GoText) (paths : PathText) (base : String → String) where
  -- A denied pattern matches the target, or there are allowed patterns and none of them does.
  abbrev pub refused_by : Rule → String → Bool
  refused_by r b =
      match_patterns text paths base r.import_deny b ""
      || (not (is_empty r.import_allow) && not (match_patterns text paths base r.import_allow b ""))

  -- A rule that the module matches refuses the import of `b`.
  abbrev pub denied_by : List Rule → String → String → Bool
  denied_by [] a b = false
  denied_by (r ∷ rs) a b =
      (match_patterns text paths base r.modules a "" && refused_by r b) || denied_by rs a b

  refused : (r : Rule) (b : String) → not (allows_import text paths base r b) ≡ refused_by r b
  unfolding allows_import
  refused r b = ground arith

  abbrev pub too_many : Rule → ModuleInfo → Bool
  too_many r info =
      lessℤ (pos 0) r.max_files
      && lessℤ r.max_files (pos (length (select (is_kept text paths base r) info.files)))

  -- A rule that the module matches has a limit that its files exceed.
  abbrev pub over_limit : List Rule → String → ModuleInfo → Bool
  over_limit [] a info = false
  over_limit (r ∷ rs) a info =
      (match_patterns text paths base r.modules a "" && too_many r info) || over_limit rs a info

  found-check_count :
      (r : Rule) (m : String) (info : ModuleInfo) (a b : String)
      → (found (is_denied a b) (check_count text paths base r m info) ≡ false)
        × (found (is_counted a) (check_count text paths base r m info)
            ≡ (str_eq m a && too_many r info))
  unfolding check_count
  found-check_count r m info a b =
      let n = count_files text paths base info r in
      let (no_denied, counted) =
        found_count (lessℤ (pos 0) r.max_files && lessℤ r.max_files (pos n)) r.name m a b
          r.max_files n in
      (
        no_denied,
        counted
            ∙ ap (λ k. str_eq m a && (lessℤ (pos 0) r.max_files && lessℤ r.max_files (pos k)))
                (count_files-length text paths base r info),
      )

  denied-check_imports :
      (r : Rule) (modules : Map ModuleInfo) (m : String) (row : Map ImportEdge)
      (targets : List String) (a b : String)
      → found (is_denied a b) (check_imports text paths base r modules m row targets) ≡ (
          str_eq m a
          && (contains b targets
              && (Map.has row b && (Map.has modules b && not (allows_import text paths base r b)))))
  unfolding check_imports contains
  denied-check_imports r modules m row [] a b = ground arith
  denied-check_imports r modules m row (t ∷ ts) a b =
      denied-head r.name m t a b (check_imports text paths base r modules m row ts)
        (Map.has modules t) (allows_import text paths base r t) (Map.get row t)
      ∙ joins (Map.has row t && (Map.has modules t && not (allows_import text paths base r t)))
          (str_eq m a) (str_eq t b) (str_eq b t) (contains b ts)
          (Map.has row b && (Map.has modules b && not (allows_import text paths base r b)))
          (found (is_denied a b) (check_imports text paths base r modules m row ts))
          (λ e.
            ap
              (λ z. Map.has row z && (Map.has modules z && not (allows_import text paths base r z)))
              ((eq_iff t b).0 e))
          (str_eq_sym b t) (denied-check_imports r modules m row ts a b)

  counted-check_imports :
      (r : Rule) (modules : Map ModuleInfo) (m : String) (row : Map ImportEdge)
      (targets : List String) (a : String)
      → found (is_counted a) (check_imports text paths base r modules m row targets) ≡ false
  unfolding check_imports
  counted-check_imports r modules m row [] a = refl
  counted-check_imports r modules m row (t ∷ ts) a =
      counted-head r.name m t a (check_imports text paths base r modules m row ts)
        (Map.has modules t) (allows_import text paths base r t) (Map.get row t)
      ∙ counted-check_imports r modules m row ts a

  match_patterns-empty :
      (ps : List CompiledPattern) (m : String)
      → is_empty ps ≡ true
      → match_patterns text paths base ps m "" ≡ false
  unfolding match_patterns
  match_patterns-empty [] m h = refl
  match_patterns-empty (p ∷ ps) m h = absurd (ground (arith, h))

  -- A rule without patterns for imports refuses none.
  allows_import-free :
      (r : Rule) (b : String)
      → (not (is_empty r.import_allow) || not (is_empty r.import_deny)) ≡ false
      → allows_import text paths base r b ≡ true
  unfolding allows_import
  allows_import-free r b h =
      let (no_allow, no_deny) = both_empty (is_empty r.import_allow) (is_empty r.import_deny) h in
      simp (match_patterns-empty r.import_deny b no_deny, no_allow, allows_import)

  found-check_rule :
      (modules : Map ModuleInfo) (imports : Map (Map ImportEdge)) (m : String) (info : ModuleInfo)
      (r : Rule) (a b : String)
      → (found (is_denied a b) (check_rule text paths base modules imports m info r) ≡ (
          str_eq m a
          && (Map.cell imports m b
              && (Map.has modules b && not (allows_import text paths base r b)))))
        × (found (is_counted a) (check_rule text paths base modules imports m info r)
            ≡ (str_eq m a && too_many r info))
  unfolding check_rule
  found-check_rule modules imports m info r a b =
      let row = Map.inner imports m in
      let targets = sort_strings (Map.keys row) in
      let some_patterns = not (is_empty r.import_allow) || not (is_empty r.import_deny) in
      let counts = check_count text paths base r m info in
      let refused = check_imports text paths base r modules m row targets in
      let (no_denied, counted) = found-check_count r m info a b in
      let listed : contains b targets ≡ Map.has row b =
        contains-sort_strings b (Map.keys row) ∙ Map.contains-keys row b in
      (
        found-append (is_denied a b) counts (if some_patterns then refused else [])
            ∙ ap (λ x. found (is_denied a b) counts || x)
                (found-if some_patterns (is_denied a b) refused)
            ∙ only_imports some_patterns (str_eq m a) (contains b targets) (Map.has row b)
                (Map.has modules b) (allows_import text paths base r b)
                (found (is_denied a b) counts) (found (is_denied a b) refused) no_denied
                (denied-check_imports r modules m row targets a b) listed (allows_import-free r b),
        found-append (is_counted a) counts (if some_patterns then refused else [])
            ∙ ap (λ x. found (is_counted a) counts || x)
                (found-if some_patterns (is_counted a) refused)
            ∙ only_counts some_patterns (found (is_counted a) counts) (found (is_counted a) refused)
                (str_eq m a && too_many r info) counted
                (counted-check_imports r modules m row targets a),
      )

  found-if_append :
      (c : Bool) (hit : Violation → Bool) (vs ws : List Violation)
      → found hit (if c then vs ++ ws else ws) ≡ ((c && found hit vs) || found hit ws)
  found-if_append true hit vs ws = found-append hit vs ws
  found-if_append false hit vs ws = refl

  found-check_rules :
      (modules : Map ModuleInfo) (imports : Map (Map ImportEdge)) (m : String) (info : ModuleInfo)
      (rs : List Rule) (a b : String)
      → (found (is_denied a b) (check_rules text paths base modules imports m info rs)
          ≡ (str_eq m a && (Map.cell imports m b && (Map.has modules b && denied_by rs m b))))
        × (found (is_counted a) (check_rules text paths base modules imports m info rs)
            ≡ (str_eq m a && over_limit rs m info))
  unfolding check_rules matches_module
  found-check_rules modules imports m info [] a b = (ground arith, ground arith)
  found-check_rules modules imports m info (r ∷ rs) a b =
      let (denied, counted) = found-check_rule modules imports m info r a b in
      let (others, more) = found-check_rules modules imports m info rs a b in
      let here = check_rule text paths base modules imports m info r in
      let rest = check_rules text paths base modules imports m info rs in
      let hits = matches_module text paths base r m in
      (
        found-if_append hits (is_denied a b) here rest
            ∙ either_rule (str_eq m a) hits (Map.cell imports m b) (Map.has modules b)
                (not (allows_import text paths base r b)) (denied_by rs m b)
                (found (is_denied a b) here) (found (is_denied a b) rest) denied others
            ∙ ap
                (λ x.
                  str_eq m a
                  && (Map.cell imports m b
                      && (Map.has modules b && ((hits && x) || denied_by rs m b))))
                (refused r b),
        found-if_append hits (is_counted a) here rest
            ∙ either_count (str_eq m a) hits (too_many r info) (over_limit rs m info)
                (found (is_counted a) here) (found (is_counted a) rest) counted more,
      )

  -- The tests on a module of the graph.
  abbrev pub over_limit_of : List Rule → String → Option ModuleInfo → Bool
  over_limit_of rs a none = false
  over_limit_of rs a (some info) = over_limit rs a info

  no_rules : (a : String) (o : Option ModuleInfo) → false ≡ over_limit_of [] a o
  no_rules a none = refl
  no_rules a (some info) = refl

  of_known :
      (rs : List Rule) (a : String) (o : Option ModuleInfo)
      → (is_some o && over_limit_of rs a o) ≡ over_limit_of rs a o
  of_known rs a none = refl
  of_known rs a (some info) = refl

  found-evaluate_module :
      (modules : Map ModuleInfo) (imports : Map (Map ImportEdge)) (rs : List Rule) (m : String)
      (o : Option ModuleInfo) (rest : EvaluationResult) (a b : String)
      → (found
            (is_denied a b)
            (evaluate_module text paths base modules imports rs m o rest).violations
          ≡ ((str_eq m a
                && (is_some o && (Map.cell imports m b && (Map.has modules b && denied_by rs m b))))
              || found (is_denied a b) rest.violations))
        × (found
              (is_counted a)
              (evaluate_module text paths base modules imports rs m o rest).violations
            ≡ ((str_eq m a && over_limit_of rs m o) || found (is_counted a) rest.violations))
  unfolding evaluate_module
  found-evaluate_module modules imports rs m none rest a b = (ground arith, ground arith)
  found-evaluate_module modules imports rs m (some info) rest a b =
      let (denied, counted) = found-check_rules modules imports m info rs a b in
      let here = check_rules text paths base modules imports m info rs in
      (
        found-append (is_denied a b) here rest.violations
            ∙ ap (λ x. x || found (is_denied a b) rest.violations) denied,
        found-append (is_counted a) here rest.violations
            ∙ ap (λ x. x || found (is_counted a) rest.violations) counted,
      )

  found-evaluate_modules :
      (modules : Map ModuleInfo) (imports : Map (Map ImportEdge)) (rs : List Rule)
      (ms : List String) (a b : String)
      → (found (is_denied a b) (evaluate_modules text paths base modules imports rs ms).violations
          ≡ (contains a ms
              && (Map.has modules a
                  && (Map.cell imports a b && (Map.has modules b && denied_by rs a b)))))
        × (found (is_counted a) (evaluate_modules text paths base modules imports rs ms).violations
            ≡ (contains a ms && over_limit_of rs a (Map.get modules a)))
  unfolding evaluate_modules contains
  found-evaluate_modules modules imports rs [] a b = (refl, refl)
  found-evaluate_modules modules imports rs (m ∷ ms) a b =
      let rest = evaluate_modules text paths base modules imports rs ms in
      let (denied, counted) =
        found-evaluate_module modules imports rs m (Map.get modules m) rest a b in
      let (others, more) = found-evaluate_modules modules imports rs ms a b in
      (
        denied
            ∙ later (str_eq m a) (str_eq a m) (contains a ms)
                (Map.has modules m
                  && (Map.cell imports m b && (Map.has modules b && denied_by rs m b)))
                (Map.has modules a
                  && (Map.cell imports a b && (Map.has modules b && denied_by rs a b)))
                (found (is_denied a b) rest.violations)
                (λ e.
                  ap
                    (λ z.
                      Map.has modules z
                      && (Map.cell imports z b && (Map.has modules b && denied_by rs z b)))
                    ((eq_iff m a).0 e))
                (str_eq_sym a m) others,
        counted
            ∙ later (str_eq m a) (str_eq a m) (contains a ms)
                (over_limit_of rs m (Map.get modules m)) (over_limit_of rs a (Map.get modules a))
                (found (is_counted a) rest.violations)
                (λ e. ap (λ z. over_limit_of rs z (Map.get modules z)) ((eq_iff m a).0 e))
                (str_eq_sym a m) more,
      )

  -- `Evaluate` reports an import from one module to another exactly if the graph has both modules
  -- and the import, and a rule whose patterns match the importing module has a denied pattern that
  -- matches the target, or has allowed patterns of which none matches it; it reports the file count
  -- of a module exactly if the graph has the module and a rule that matches it has a limit above 0
  -- which is exceeded by the number of the module's files that are not excluded, as a test or by a
  -- pattern. A module is matched by its name alone, with no path.
  pub found-evaluate :
      (rs : List Rule) (g : Graph) (a b : String)
      → (found (is_denied a b) (evaluate text paths base rs g).violations ≡ (
          Map.has g.modules a
          && (has_edge g.links a b && (Map.has g.modules b && denied_by rs a b))))
        × (found (is_counted a) (evaluate text paths base rs g).violations
            ≡ over_limit_of rs a (Map.get g.modules a))
  unfolding evaluate
  found-evaluate [] g a b = (ground arith, no_rules a (Map.get g.modules a))
  found-evaluate (r ∷ rs) g a b =
      let ms = sort_strings (Map.keys g.modules) in
      let (denied, counted) = found-evaluate_modules g.modules g.links.imports (r ∷ rs) ms a b in
      let listed : contains a ms ≡ Map.has g.modules a =
        contains-sort_strings a (Map.keys g.modules) ∙ Map.contains-keys g.modules a in
      (
        denied
            ∙ once (contains a ms) (Map.has g.modules a)
                (has_edge g.links a b && (Map.has g.modules b && denied_by (r ∷ rs) a b)) listed,
        counted
            ∙ ap (λ x. x && over_limit_of (r ∷ rs) a (Map.get g.modules a)) listed
            ∙ of_known (r ∷ rs) a (Map.get g.modules a),
      )
