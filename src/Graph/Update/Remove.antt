-- ===== src/Graph/Update/Remove.antt =====
-- internal/engine/graph/graph.go: `RemoveFile` on a well-formed graph.
use code_watch.Prelude.{
  String, true, false, ◌≡◌, refl, ◌∙◌, sym, ap, inl, inr, some, List, [], ◌∷◌, arith, str_eq,
  contains, eq_iff, Option-cases, List-cases,
}
use code_watch.Prelude.Map
use code_watch.Prelude.Map.{Map}
use code_watch.Model.{File}
use code_watch.Cache.Invariant.{view, IsValid}
use code_watch.Cache.Refine.{evict_refines}
use code_watch.Graph.{Graph, ModuleInfo}
use code_watch.Graph.Links.{drop_importers}
use code_watch.Graph.Links.Mirror.{Mirror}
use code_watch.Graph.Links.Stale.{
  reset, reset-Stale, drop_stale-Mirror, imports-drop_importers, imports-drop_stale,
  without_row-Mirror,
}
use code_watch.Graph.Update.{
  Rebuild, remove_path, emptied, rebuilt, rebuild_module, drop_module, detach, forget, remove_file,
}
use code_watch.Graph.Update.Reload.{Kept, Rooted, rebuild_files_total}
use code_watch.Graph.Update.Well.{cached, listed, IsWell}

-- The same, but for the path that is being removed: its cached file is not on the list any more.
record IsWellBut (p : String) (g : Graph) : Type 0 where
  cache : IsValid g.file_cache
  lists :
      (q : String) (f : File)
      → str_eq p q ≡ false
      → cached g q ≡ some f
      → listed g q f.module_name ≡ true
  rows : (m : String) → Map.has g.modules m ≡ true → Map.has g.links.imports m ≡ true
  mirror : Mirror g.links

IsWell-forget : (p : String) (g : Graph) → IsWellBut p g → IsWell (forget p g)
unfolding forget
IsWell-forget p g w =
    let (gone, v) = evict_refines p g.file_cache w.cache in
    record {
      cache = v;
      lists = λ q f h. ground (
        arith,
        w.lists q f,
        h,
        ap (λ m. Map.get m q) gone,
        Map.get-delete (view g.file_cache) p q,
      );
      rows = w.rows;
      mirror = w.mirror;
    }

contains-remove_path :
    (p q : String) (ps : List String)
    → str_eq p q ≡ false
    → contains q (remove_path p ps) ≡ contains q ps
unfolding remove_path contains
contains-remove_path p q [] h = refl
contains-remove_path p q (x ∷ ps) h =
    ground (arith, contains-remove_path p q ps h, eq_iff x p, eq_iff q x, eq_iff p q)

drop_module-IsWellBut :
    (p m : String) (info : ModuleInfo) (g : Graph)
    → Map.get g.modules m ≡ some info
    → remove_path p info.files ≡ []
    → IsWell g
    → IsWellBut p (drop_module m g)
unfolding drop_module contains
drop_module-IsWellBut p m info g here empty w = record {
  cache = w.cache;
  lists = λ q f ne h. ground (
    arith,
    w.lists q f h,
    here,
    Map.get-delete g.modules m f.module_name,
    contains-remove_path p q info.files ne,
    ap (contains q) empty,
    eq_iff m f.module_name,
  );
  rows = λ n h.
      let same = imports-drop_importers m g.links (Map.keys (Map.inner g.links.imports m)) in
      ground (
        arith,
        same,
        Map.get-delete g.modules m n,
        Map.get-delete (drop_importers m g.links (Map.keys (Map.inner g.links.imports m))).imports m
            n,
        w.rows n,
      );
  mirror = without_row-Mirror m g.links w.mirror;
}

rooted : (m : String) (g : Graph) → IsWell g → Rooted g.file_cache (reset m g.links)
rooted m g w q f h =
    ground
      (arith, w.lists q f h, w.rows f.module_name, Map.get-put g.links.imports m f.module_name [])

rebuilt-IsWellBut :
    (p m : String) (info : ModuleInfo) (files : List String) (g : Graph) (r : Rebuild)
    → Map.get g.modules m ≡ some info
    → remove_path p info.files ≡ files
    → IsWell g
    → Kept (emptied m g) r
    → IsWellBut p (rebuilt m (record info { files = files }) g r)
unfolding rebuilt emptied
rebuilt-IsWellBut p m info files g r here left w k =
    let old = Map.keys (Map.inner g.links.imports m) in
    let new : ModuleInfo = record info { files = files; exports = r.symbols.exports } in
    record {
      cache = k.valid;
      lists = λ q f ne h. ground (
        arith,
        w.lists q f (sym (k.files q) ∙ h),
        here,
        Map.get-put g.modules m f.module_name new,
        contains-remove_path p q info.files ne,
        ap (contains q) left,
        eq_iff m f.module_name,
      );
      rows = λ n h. ground (
        arith,
        imports-drop_stale m r.links old,
        k.rows n,
        h,
        Map.get-put g.modules m n new,
        Map.get-put g.links.imports m n [],
        w.rows n,
      );
      mirror = drop_stale-Mirror m old r.links (k.stale m old (reset-Stale m g.links w.mirror));
    }

detach_total :
    (p m : String) (info : ModuleInfo) (g : Graph)
    → Map.get g.modules m ≡ some info
    → IsWell g
    → (g' : Graph) × (detach p m info g ≡ some g') × IsWellBut p g'
unfolding detach rebuild_module
detach_total p m info g here w = elim (List-cases (remove_path p info.files)) [
  | inl empty ↦ (drop_module m g, rw (empty, detach), drop_module-IsWellBut p m info g here empty w)
  | inr (q, qs, left) ↦
      let (r, e, k) =
        rebuild_files_total (emptied m g) (q ∷ qs) w.cache (unfold emptied in rooted m g w) in
      (
        rebuilt m (record info { files = q ∷ qs }) g r,
        rw (left, detach) (rw e),
        rebuilt-IsWellBut p m info (q ∷ qs) g r here left w k,
      )
]

IsWell-But : (p : String) (g : Graph) → IsWell g → IsWellBut p g
IsWell-But p g w = record {
  cache = w.cache;
  lists = λ q f ne h. w.lists q f h;
  rows = w.rows;
  mirror = w.mirror;
}

-- On a well-formed graph `RemoveFile` does not panic, and the graph stays well formed: afterwards too `importedBy` is the
-- transpose of `imports`, and the file list of its module has each cached file.
pub remove_file_total :
    (p : String) (g : Graph) → IsWell g → (g' : Graph) × (remove_file p g ≡ some g') × IsWell g'
unfolding remove_file
remove_file_total p g w = elim (Option-cases (Map.get g.file_to_module p)) [
  | inl unknown ↦ (g, rw (unknown, remove_file), w)
  | inr (m, known) ↦ elim (Option-cases (Map.get g.modules m)) [
    | inl missing ↦
        (forget p g, rw (known, remove_file) (rw missing), IsWell-forget p g (IsWell-But p g w))
    | inr (info, here) ↦
        let (g', e, w') = detach_total p m info g here w in
        (forget p g', rw (known, remove_file) (rw here (rw e)), IsWell-forget p g' w')
  ]
]
