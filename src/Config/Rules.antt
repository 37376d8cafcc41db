-- ===== src/Config/Rules.antt =====
-- internal/core/app/helpers/utils.go: the model of the layer rules and the package rules that a
-- configuration gives, and the layer rules' engine that runs on a checked configuration.
use code_watch.Prelude.{
  String, Bool, true, false, not, ◌&&◌, ◌||◌, Option, none, some, List, [], ◌∷◌, if◌then◌else◌,
  str_eq, contains, arith, ◌≡◌, refl, sym, ◌∙◌, ap, inl, inr, ◌⊎◌, Bool-cases, All, eq_iff,
  str_eq_refl,
}
use code_watch.Prelude.Int.{ℤ}
use code_watch.Prelude.Map
use code_watch.Prelude.Map.{Map}
use code_watch.Text.{GoText, GoPath, blank}
use code_watch.Layers.{
  ArchitectureLayer, ArchitectureRule, ArchitectureModel, RuleSet, new_layer_rule_engine, add_rule,
  add_rules,
}
use code_watch.Layers.Paths.{PathText}
use code_watch.Config.Types.{
  Architecture, LayerEntry, RuleEntry, Fault, empty_value, duplicate, not_one_of, unknown, missing,
}
use code_watch.Config.Loops.{accepted, or_else}
use code_watch.Config.Sections.{is_empty}
use code_watch.Config.Architecture.{
  inferred_kind, checked_kind, written_kind, for_layers, check_allowed, check_layer_rule,
  check_package_rule, check_rules, validate_architecture, layer_names, no_owners, check_layers,
  has_layer_rules,
}

abbrev pub known : List String → List String → Bool
known [] layers = true
known (to ∷ tos) layers = contains to layers && known tos layers

-- `ports.ArchitectureRule`, all of the package kind
pub record PackageRule : Type 0 where
  pub name : String
  pub modules : List String
  pub max_files : ℤ
  pub imports_allow : List String
  pub imports_deny : List String
  pub exclude_tests : Bool
  pub exclude_files : List String

unfoldable pub model_layers : List LayerEntry → List ArchitectureLayer
model_layers [] = []
model_layers (l ∷ ls) = record { name = l.name; paths = l.paths } ∷ model_layers ls

module _ (text : GoText) where
  unfoldable pub layer_rules : List RuleEntry → List ArchitectureRule
  layer_rules [] = []
  layer_rules (r ∷ rs) =
      let rest = layer_rules rs in
      if for_layers (inferred_kind text r)
      then record { name = r.name; from = r.from; allow = r.allow } ∷ rest
      else rest

  unfoldable pub architecture_model_from_config : Architecture → ArchitectureModel
  unfolding model_layers layer_rules
  architecture_model_from_config arch = record {
    enabled = arch.enabled;
    layers = model_layers arch.layers;
    rules = layer_rules arch.rules;
  }

  unfoldable pub architecture_rules_from_config : List RuleEntry → List PackageRule
  architecture_rules_from_config [] = []
  architecture_rules_from_config (r ∷ rs) =
      let rest = architecture_rules_from_config rs in
      if str_eq (inferred_kind text r) "package"
      then record {
        name = r.name;
        modules = r.modules;
        max_files = r.max_files;
        imports_allow = r.imports_allow;
        imports_deny = r.imports_deny;
        exclude_tests = r.exclude_tests;
        exclude_files = r.exclude_files;
      }
        ∷ rest
      else rest

  -- A layer rule names known layers only, and the engine finds it at the layer it is for.
  abbrev pub IsEnforced : Map RuleSet → List String → RuleEntry → Type 0
  IsEnforced rules layers r =
      for_layers (inferred_kind text r) ≡ true
      → (contains r.from layers ≡ true)
        × (known r.allow layers ≡ true)
        × (Map.get rules r.from ≡ some (record { name = r.name; allow = r.allow }))

rule_cases :
    (b c k q : Bool) (f g h : Fault) (l after_layer p after_package : Option Fault)
    → accepted (
        if b
        then some f
        else if c
        then some g
        else if k
        then or_else l after_layer
        else if q
        then or_else p after_package
        else some h)
      ≡ true
    → ((k ≡ true) × (accepted l ≡ true) × (accepted after_layer ≡ true))
      ⊎ ((k ≡ false) × (accepted after_package ≡ true))
rule_cases b c k q f g h l al p ap' e = ground (arith, e)

both_accepted :
    (a b : Bool) (f : Fault) (c d : Option Fault)
    → a ≡ true
    → (if not a then none else if b then some f else or_else c d) ≡ none
    → accepted d ≡ true
both_accepted a b f c d on h = ground (arith, on, h)

layer_cases :
    (b c d : Bool) (f g h : Fault) (o : Option Fault)
    → accepted (if not b then some f else if c then some g else if d then some h else o) ≡ true
    → (b ≡ true) × (c ≡ false) × (accepted o ≡ true)
layer_cases b c d f g h o e = ground (arith, e)

apart_from :
    (k from : String) (b : Bool)
    → (str_eq k from || b) ≡ false
    → (str_eq from k ≡ false) × (b ≡ false)
apart_from k from b h = ground (arith, h, eq_iff k from, eq_iff from k)

apart :
    (k from : String) (froms : List String)
    → contains k froms ≡ true
    → contains from froms ≡ false
    → str_eq k from ≡ false
apart k from froms h e = ground (arith, h, e, eq_iff k from)

inferred_checked :
    (w f m : Bool) (kind : String)
    → for_layers (if w && f then "layer" else if w && m then "package" else kind) ≡ true
    → for_layers (if w && f then "layer" else kind) ≡ true
inferred_checked true true m kind h = refl
inferred_checked true false true kind h = absurd (ground (arith, h))
inferred_checked true false false kind h = h
inferred_checked false f m kind h = h

module _ (text : GoText) where
  for_layers-checked_kind :
      (r : RuleEntry)
      → for_layers (inferred_kind text r) ≡ true
      → for_layers (checked_kind text r) ≡ true
  for_layers-checked_kind r =
      inferred_checked (str_eq (written_kind text r) "")
        (not (str_eq r.from "") || not (is_empty r.allow)) (not (is_empty r.modules))
        (written_kind text r)

  abbrev froms_of : List ArchitectureRule → List String
  froms_of [] = []
  froms_of (r ∷ rs) = r.from ∷ froms_of rs

  -- What an accepted list of rules says of its first and of the others.
  check_rules-first :
      (layers names froms : List String) (r : RuleEntry) (rs : List RuleEntry)
      → accepted (check_rules text layers names froms (r ∷ rs)) ≡ true
      → (after : List String) × (accepted (check_rules text layers (r.name ∷ names) after rs)
          ≡ true)
        × ((k : String) → contains k froms ≡ true → contains k after ≡ true)
        × (for_layers (checked_kind text r) ≡ true
            → (accepted (check_layer_rule text layers froms r) ≡ true)
              × (contains r.from after ≡ true))
  unfolding check_rules contains
  check_rules-first layers names froms r rs h =
      elim (rule_cases (blank text r.name) (contains r.name names)
        (for_layers (checked_kind text r)) (str_eq (checked_kind text r) "package")
        (empty_value "rule name") (duplicate "architecture rule name" r.name) (not_one_of "kind")
        (check_layer_rule text layers froms r)
        (check_rules text layers (r.name ∷ names) (r.from ∷ froms) rs) (check_package_rule text r)
        (check_rules text layers (r.name ∷ names) froms rs) h) [
          | inl (k, l, a) ↦ (
            r.from ∷ froms,
            a,
            λ j e. ground (arith, e),
            λ e. (l, ground (arith, str_eq_refl r.from)),
          )
          | inr (k, b) ↦ (froms, b, λ j e. e, λ e. absurd (ground (arith, e, k)))
        ]

  check_layer_rule-says :
      (layers froms : List String) (r : RuleEntry)
      → accepted (check_layer_rule text layers froms r) ≡ true
      → (contains r.from layers ≡ true)
        × (contains r.from froms ≡ false)
        × (accepted (check_allowed text layers [] r.allow) ≡ true)
  unfolding check_layer_rule
  check_layer_rule-says layers froms r h =
      layer_cases (contains r.from layers) (contains r.from froms) (is_empty r.allow)
        (unknown "from layer" r.from) (duplicate "rules of the architecture layer" r.from)
        (missing "allowed layer") (check_allowed text layers [] r.allow) h

  -- A layer that already has a rule gets no other.
  check_rules-others :
      (layers names froms : List String) (rs : List RuleEntry) (k : String)
      → accepted (check_rules text layers names froms rs) ≡ true
      → contains k froms ≡ true
      → contains k (froms_of (layer_rules text rs)) ≡ false
  unfolding layer_rules contains
  check_rules-others layers names froms [] k h e = refl
  check_rules-others layers names froms (r ∷ rs) k h e =
      let (after, rest, keeps, head) = check_rules-first layers names froms r rs h in
      let others = check_rules-others layers (r.name ∷ names) after rs k rest (keeps k e) in
      elim (Bool-cases (for_layers (inferred_kind text r))) [
        | inl layer ↦
            let (ok, into) = head (for_layers-checked_kind r layer) in
            let (a, once, c) = check_layer_rule-says layers froms r ok in
            rw (layer, layer_rules, contains, apart k r.from froms e once) others
        | inr other ↦ rw (other, layer_rules) others
      ]

  check_allowed-says :
      (layers seen tos : List String)
      → accepted (check_allowed text layers seen tos) ≡ true
      → known tos layers ≡ true
  unfolding check_allowed
  check_allowed-says layers seen [] h = refl
  check_allowed-says layers seen (to ∷ tos) h =
      ground (arith, check_allowed-says layers (to ∷ seen) tos, h)

  -- No later rule replaces the one that is found at `k`.
  get-add_rules :
      (m : Map RuleSet) (rs : List ArchitectureRule) (k : String)
      → contains k (froms_of rs) ≡ false
      → Map.get (add_rules m rs) k ≡ Map.get m k
  unfolding add_rules add_rule contains
  get-add_rules m [] k h = refl
  get-add_rules m (r ∷ rs) k h =
      let (other, others) = apart_from k r.from (contains k (froms_of rs)) h in
      get-add_rules (add_rule m r) rs k others
      ∙ Map.get-put m r.from k (record { name = r.name; allow = r.allow })
      ∙ (rw other refl)

  layer_rules-kept :
      (r : RuleEntry) (rs : List RuleEntry)
      → for_layers (inferred_kind text r) ≡ true
      → layer_rules text (r ∷ rs)
        ≡ record { name = r.name; from = r.from; allow = r.allow } ∷ layer_rules text rs
  unfolding layer_rules
  layer_rules-kept r rs e = rw e refl

  layer_rules-dropped :
      (r : RuleEntry) (rs : List RuleEntry)
      → for_layers (inferred_kind text r) ≡ false
      → layer_rules text (r ∷ rs) ≡ layer_rules text rs
  unfolding layer_rules
  layer_rules-dropped r rs e = rw e refl

  rules_kept :
      (layers names froms : List String) (m rules : Map RuleSet) (rs : List RuleEntry)
      → accepted (check_rules text layers names froms rs) ≡ true
      → add_rules m (layer_rules text rs) ≡ rules
      → All (IsEnforced text rules layers) rs
  unfolding add_rules add_rule
  rules_kept layers names froms m rules [] h e = tt
  rules_kept layers names froms m rules (r ∷ rs) h e =
      let (after, rest, keeps, head) = check_rules-first layers names froms r rs h in
      let rule : RuleSet = record { name = r.name; allow = r.allow } in
      elim (Bool-cases (for_layers (inferred_kind text r))) [
        | inl layer ↦
            let (ok, into) = head (for_layers-checked_kind r layer) in
            let (a, once, allowed) = check_layer_rule-says layers froms r ok in
            let same : add_rules (Map.put m r.from rule) (layer_rules text rs) ≡ rules =
              sym (ap (add_rules m) (layer_rules-kept r rs layer)) ∙ e in
            (
              λ k. (
                a,
                check_allowed-says layers [] r.allow allowed,
                sym (ap (λ n. Map.get n r.from) same)
                    ∙ get-add_rules (Map.put m r.from rule) (layer_rules text rs) r.from
                        (check_rules-others layers (r.name ∷ names) after rs r.from rest into)
                    ∙ Map.get-put m r.from r.from rule
                    ∙ (rw (str_eq_refl r.from) refl),
              ),
              rules_kept layers (r.name ∷ names) after (Map.put m r.from rule) rules rs rest same,
            )
        | inr other ↦ (
          λ k. absurd (ground (arith, k, other)),
          rules_kept layers (r.name ∷ names) after m rules rs rest
              (sym (ap (add_rules m) (layer_rules-dropped r rs other)) ∙ e),
        )
      ]

  -- Where a configuration is accepted that has the layer rules in use, every rule that the engine
  -- built from it is for layers is for a declared layer and allows declared layers only, and the
  -- engine finds that rule, under its name and with its allowed layers, at the layer it is for: no
  -- rule is lost to another one.
  pub validate_architecture-keeps :
      (path : GoPath) (globs : PathText) (arch : Architecture)
      → arch.enabled ≡ true
      → validate_architecture text path arch ≡ none
      → All
          (IsEnforced text
            (new_layer_rule_engine globs (architecture_model_from_config text arch)).rules
            (layer_names arch.layers))
          arch.rules
  unfolding new_layer_rule_engine architecture_model_from_config validate_architecture
  validate_architecture-keeps path globs arch on h =
      rules_kept (layer_names arch.layers) [] [] []
        (new_layer_rule_engine globs (architecture_model_from_config text arch)).rules arch.rules
        (both_accepted arch.enabled (has_layer_rules text arch.rules && is_empty arch.layers)
          (missing "layer") (check_layers text path [] no_owners arch.layers)
          (check_rules text (layer_names arch.layers) [] [] arch.rules) on h)
        refl
