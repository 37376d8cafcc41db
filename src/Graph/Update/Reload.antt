-- ===== src/Graph/Update/Reload.antt =====
-- internal/engine/graph/graph.go: the loop of `removeFileLocked` over the remaining files.
use code_watch.Prelude.{
  String, true, ◌≡◌, refl, ◌∙◌, sym, ap, inl, inr, some, List, [], ◌∷◌, Option-cases,
}
use code_watch.Prelude.Map
use code_watch.Prelude.Map.{Map}
use code_watch.Model.{File}
use code_watch.Cache
use code_watch.Cache.{Lru}
use code_watch.Cache.Invariant.{view, IsValid}
use code_watch.Cache.Refine.{get_refines}
use code_watch.Graph.Symbols.{add_definitions}
use code_watch.Graph.Links.{Links}
use code_watch.Graph.Links.Stale.{Stale, link_all-Stale, link_all_total}
use code_watch.Graph.Update.{Rebuild, rebuild_file, rebuild_files}
use code_watch.Graph.Update.Lookups.{get-touch}

-- What the loop keeps: the cached files, the rows of `imports`, and a pair that is transposed but
-- for old importers.
pub record Kept (r r' : Rebuild) : Type 0 where
  pub valid : IsValid r'.cache
  pub files : (p : String) → Map.get (view r'.cache) p ≡ Map.get (view r.cache) p
  pub rows : (n : String) → Map.has r'.links.imports n ≡ Map.has r.links.imports n
  pub stale : (m : String) (old : List String) → Stale m old r.links → Stale m old r'.links

-- The module of each cached file has a row.
abbrev pub Rooted : Lru File → Links → Type 0
Rooted c l =
    (p : String) (f : File) → Map.get (view c) p ≡ some f → Map.has l.imports f.module_name ≡ true

Kept-trans : {r s t : Rebuild} → Kept r s → Kept s t → Kept r t
Kept-trans h k = record {
  valid = k.valid;
  files = λ p. k.files p ∙ h.files p;
  rows = λ n. k.rows n ∙ h.rows n;
  stale = λ m old st. k.stale m old (h.stale m old st);
}

rebuild_file_total :
    (r : Rebuild) (p : String)
    → IsValid r.cache
    → Rooted r.cache r.links
    → (r' : Rebuild) × (rebuild_file r p ≡ some r') × Kept r r'
unfolding rebuild_file
rebuild_file_total r p v rooted =
    let (found, moved, v') = get_refines p r.cache v in
    let cache = (Cache.get p r.cache).1 in
    let same : (q : String) → Map.get (view cache) q ≡ Map.get (view r.cache) q =
      λ q. ap (λ m. Map.get m q) moved ∙ get-touch p q (view r.cache) in
    elim (Option-cases (Cache.get p r.cache).0) [
      | inl miss ↦ (
        record r { cache = cache },
        rw (miss, rebuild_file),
        record { valid = v'; files = same; rows = λ n. refl; stale = λ m old st. st },
      )
      | inr (f, hit) ↦
          let (l, e, rows) = link_all_total f r.links f.imports (rooted p f (sym found ∙ hit)) in
          (
            record { cache = cache; symbols = add_definitions r.symbols f.definitions; links = l },
            rw (hit, rebuild_file) (rw e),
            record {
              valid = v';
              files = same;
              rows = rows;
              stale = λ m old st. link_all-Stale m old f r.links l f.imports st e;
            },
          )
    ]

Rooted-Kept : {r r' : Rebuild} → Kept r r' → Rooted r.cache r.links → Rooted r'.cache r'.links
Rooted-Kept k rooted p f h = k.rows f.module_name ∙ rooted p f (sym (k.files p) ∙ h)

-- From a valid cache whose files have rows the loop returns.
pub rebuild_files_total :
    (r : Rebuild) (ps : List String)
    → IsValid r.cache
    → Rooted r.cache r.links
    → (r' : Rebuild) × (rebuild_files r ps ≡ some r') × Kept r r'
unfolding rebuild_files
rebuild_files_total r [] v rooted =
    (r, refl, record { valid = v; files = λ p. refl; rows = λ n. refl; stale = λ m old st. st })
rebuild_files_total r (p ∷ ps) v rooted =
    let (r₁, e₁, k₁) = rebuild_file_total r p v rooted in
    let (r₂, e₂, k₂) = rebuild_files_total r₁ ps k₁.valid (Rooted-Kept k₁ rooted) in
    (r₂, rw (e₁, rebuild_files) e₂, Kept-trans k₁ k₂)
