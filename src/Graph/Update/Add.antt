-- ===== src/Graph/Update/Add.antt =====
-- internal/engine/graph/graph.go: `AddFile` on a well-formed graph, and runs of changes.
use code_watch.Prelude.{
  ℕ, String, ◌&&◌, ◌||◌, ◌≡◌, refl, ◌∙◌, sym, ap, inl, inr, Option, some, List, [], ◌∷◌, ◌>>=◌,
  arith, str_eq, contains, contains-append, eq_iff, Option-cases, str_eq_refl,
}
use code_watch.Prelude.Map
use code_watch.Prelude.Map.{Map}
use code_watch.Model.{File}
use code_watch.Cache
use code_watch.Cache.{Lru, new_lru}
use code_watch.Cache.Chain.{entries}
use code_watch.Cache.Invariant.{view, new_lru-IsValid}
use code_watch.Cache.Refine.{get_refines, put_refines}
use code_watch.Graph.{new_graph, Graph}
use code_watch.Graph.Links.{Links, ensure_row}
use code_watch.Graph.Links.Mirror.{Mirror}
use code_watch.Graph.Links.Stale.{
  link_all-Mirror, ensure_row-Mirror, has-ensure_row, link_all_total,
}
use code_watch.Graph.Update.{
  remove_file, module_of, list_path, insert_file, add_file, joined, symbols_with, registered,
}
use code_watch.Graph.Update.Lookups.{get-store}
use code_watch.Graph.Update.Remove.{remove_file_total}
use code_watch.Graph.Update.Lookups.{get-touch}
use code_watch.Graph.Update.Well.{listed, IsWell}

contains-list_path :
    (p q : String) (ps : List String) → contains q (list_path p ps) ≡ (str_eq p q || contains q ps)
unfolding list_path contains
contains-list_path p q ps = ground (arith, contains-append q ps (p ∷ []), eq_iff p q, eq_iff q p)

-- The lists after the new file has joined its module.
listed-registered :
    (f : File) (g : Graph) (l : Links) (q m : String)
    → listed (registered f g l) q m ≡ ((str_eq f.module_name m && str_eq f.path q) || listed g q m)
unfolding registered joined module_of contains
listed-registered f g l q m = ground (
  arith,
  Map.get-put g.modules f.module_name m (joined f (symbols_with f g) (module_of f.module_name g)),
  contains-list_path f.path q (module_of f.module_name g).files,
  eq_iff f.module_name m,
)

registered-IsWell :
    (f : File) (g : Graph) (l : Links)
    → IsWell g
    → Mirror l
    → ((n : String) → Map.has l.imports n ≡ (str_eq f.module_name n || Map.has g.links.imports n))
    → IsWell (registered f g l)
unfolding registered
registered-IsWell f g l w mirror rows =
    let (stored, v) = put_refines f.path f g.file_cache w.cache in
    record {
      cache = v;
      lists = λ q h e. ground (
        arith,
        get-store g.file_cache.capacity f.path q f h (view g.file_cache)
            (sym (ap (λ m. Map.get m q) stored) ∙ e),
        w.lists q h,
        listed-registered f g l q h.module_name,
        str_eq_refl f.module_name,
        ap (λ (x : File). x.module_name) {x = h} {y = f},
      );
      rows = λ n h. ground (
        arith,
        h,
        rows n,
        w.rows n,
        Map.get-put g.modules f.module_name n
            (joined f (symbols_with f g) (module_of f.module_name g)),
      );
      mirror = mirror;
    }

insert_file_total :
    (f : File) (g : Graph) → IsWell g → (g' : Graph) × (insert_file f g ≡ some g') × IsWell g'
unfolding insert_file
insert_file_total f g w =
    let m = f.module_name in
    let (l, e, rows) =
      link_all_total f (ensure_row m g.links) f.imports
        (has-ensure_row m m g.links ∙ ground (arith, str_eq_refl m)) in
    (
      registered f g l,
      rw e,
      registered-IsWell f g l w
          (link_all-Mirror f (ensure_row m g.links) l f.imports
            (ensure_row-Mirror m g.links w.mirror) e)
          (λ n. rows n ∙ has-ensure_row m n g.links),
    )

pub touched-IsWell :
    (p : String) (g : Graph)
    → IsWell g
    → IsWell (record g { file_cache = (Cache.get p g.file_cache).1 })
touched-IsWell p g w =
    let (found, moved, v) = get_refines p g.file_cache w.cache in
    record {
      cache = v;
      lists = λ q f h.
          w.lists q f (sym (ap (λ m. Map.get m q) moved ∙ get-touch p q (view g.file_cache)) ∙ h);
      rows = w.rows;
      mirror = w.mirror;
    }

-- On a well-formed graph `AddFile` does not panic, and the graph stays well formed: afterwards too `importedBy` is the
-- transpose of `imports`, and the file list of its module has each cached file.
pub add_file_total :
    (f : File) (g : Graph) → IsWell g → (g' : Graph) × (add_file f g ≡ some g') × IsWell g'
unfolding add_file
add_file_total f g w =
    let g₁ : Graph = record g { file_cache = (Cache.get f.path g.file_cache).1 } in
    let w₁ = touched-IsWell f.path g w in
    elim (Option-cases (Cache.get f.path g.file_cache).0) [
      | inl miss ↦ let (g₂, e, w₂) = insert_file_total f g₁ w₁ in (g₂, rw (miss, add_file) e, w₂)
      | inr (old, hit) ↦
          let (g₂, e₂, w₂) = remove_file_total f.path g₁ w₁ in
          let (g₃, e₃, w₃) = insert_file_total f g₂ w₂ in (g₃, rw (hit, add_file) (rw e₂ e₃), w₃)
    ]

pub new_graph-IsWell : (capacity : ℕ) → IsWell (new_graph capacity)
unfolding new_graph new_lru Map.get entries
new_graph-IsWell capacity = record {
  cache = unfold new_lru in new_lru-IsValid capacity;
  lists = λ p f h. cc;
  rows = λ m h. cc;
  mirror = λ a b. refl;
}

-- A caller's sequence of `AddFile` and `RemoveFile`.
pub data Change : Type 0 where
  add : File → Change
  remove : String → Change

abbrev pub apply : Change → Graph → Option Graph
apply (add f) g = add_file f g
apply (remove p) g = remove_file p g

unfoldable pub run : List Change → Graph → Option Graph
run [] g = some g
run (c ∷ cs) g = apply c g >>= run cs

apply_total : (c : Change) (g : Graph) → IsWell g → (g' : Graph) × (apply c g ≡ some g') × IsWell g'
apply_total (add f) g w = add_file_total f g w
apply_total (remove p) g w = remove_file_total p g w

run_from :
    (cs : List Change) (g : Graph) → IsWell g → (g' : Graph) × (run cs g ≡ some g') × IsWell g'
unfolding run
run_from [] g w = (g, refl, w)
run_from (c ∷ cs) g w =
    let (g₁, e₁, w₁) = apply_total c g w in
    let (g₂, e₂, w₂) = run_from cs g₁ w₁ in (g₂, rw e₁ e₂, w₂)

-- From a new graph of any capacity, whatever files are added and removed and in whatever order, no
-- call panics, and at the end the graph is well formed.
pub run_total :
    (capacity : ℕ) (changes : List Change)
    → (g : Graph) × (run changes (new_graph capacity) ≡ some g) × IsWell g
run_total capacity changes = run_from changes (new_graph capacity) (new_graph-IsWell capacity)
