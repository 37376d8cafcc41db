-- ===== src/Graph/Files/RoundTrip.antt =====
-- internal/engine/graph/graph.go: a file that is added, read back and removed.
use code_watch.Prelude.{
  ℕ, String, ◌≡◌, refl, ◌∙◌, sym, ap, inl, inr, Option, none, some, ◌>>=◌, arith, Option-cases,
  str_eq_refl,
}
use code_watch.Prelude.Map
use code_watch.Prelude.Map.{Map}
use code_watch.Model.{File}
use code_watch.Cache
use code_watch.Cache.{Lru}
use code_watch.Cache.Recency.{store}
use code_watch.Cache.Invariant.{view, IsValid}
use code_watch.Cache.Refine.{get_refines, put_refines}
use code_watch.Graph.{Graph}
use code_watch.Graph.Links.{Links, ensure_row}
use code_watch.Graph.Links.Stale.{has-ensure_row, link_all_total}
use code_watch.Graph.Update.{remove_file, detach, forget, insert_file, add_file, registered}
use code_watch.Graph.Update.Remove.{remove_file_total}
use code_watch.Graph.Update.Add.{touched-IsWell, add_file_total}
use code_watch.Graph.Update.Well.{IsWell}
use code_watch.Graph.Files.{get_file, reload}

insert_file-registered :
    (f : File) (g : Graph)
    → IsWell g
    → (links : Links) × (insert_file f g ≡ some (registered f g links))
unfolding insert_file
insert_file-registered f g w =
    let m = f.module_name in
    let (l, e, rows) =
      link_all_total f (ensure_row m g.links) f.imports
        (has-ensure_row m m g.links ∙ ground (arith, str_eq_refl m)) in
    (l, rw e)

add_file-registered :
    (f : File) (g : Graph)
    → IsWell g
    → (before : Graph) × (links : Links) × IsWell before
      × (add_file f g ≡ some (registered f before links))
unfolding add_file
add_file-registered f g w =
    let g₁ : Graph = record g { file_cache = (Cache.get f.path g.file_cache).1 } in
    let w₁ = touched-IsWell f.path g w in
    elim (Option-cases (Cache.get f.path g.file_cache).0) [
      | inl miss ↦ let (l, e) = insert_file-registered f g₁ w₁ in (g₁, l, w₁, rw (miss, add_file) e)
      | inr (old, hit) ↦
          let (g₂, e₂, w₂) = remove_file_total f.path g₁ w₁ in
          let (l, e₃) = insert_file-registered f g₂ w₂ in (g₂, l, w₂, rw (hit, add_file) (rw e₂ e₃))
    ]

get_same-store :
    {V : Type 0} (n : ℕ) (k : String) (v : V) (m : Map V) → Map.get (store n k v m) k ≡ some v
unfolding store Map.get
get_same-store n k v m = elim (Option-cases (Map.get m k)) [
  | inl missing ↦ simp (missing, store, str_eq_refl k)
  | inr (w, e) ↦ simp (e, store, str_eq_refl k)
]

get-put_cache :
    (p : String) (f : File) (c : Lru File) → IsValid c → (Cache.get p (Cache.put p f c)).0 ≡ some f
get-put_cache p f c v =
    let (stored, v') = put_refines p f c v in
    let (found, moved, v'') = get_refines p (Cache.put p f c) v' in
    found ∙ ap (λ m. Map.get m p) stored ∙ get_same-store c.capacity p f (view c)

get_file-hit :
    (loader : Option (String → Option File)) (p : String) (f : File) (g : Graph)
    → (Cache.get p g.file_cache).0 ≡ some f
    → (get_file loader p g).0 ≡ some f
unfolding get_file
get_file-hit loader p f g e = simp (e, get_file)

gone : (p : String) (c : Lru File) → Map.get (Map.delete c.items p) p ≡ none
gone p c = ground (arith, Map.get-delete c.items p p, str_eq_refl p)

get-evict : (p : String) (c : Lru File) → (Cache.get p (Cache.evict p c)).0 ≡ none
unfolding Cache.get Cache.evict
get-evict p c = elim (Option-cases (Map.get c.items p)) [
  | inl missing ↦ simp (missing, Cache.evict, Cache.get)
  | inr (i, e) ↦ simp (e, gone p c, Cache.evict, Cache.get)
]

bind-some :
    (o : Option Graph) (f : Graph → Graph) (y : Graph)
    → (o >>= λ x. some (f x)) ≡ some y
    → (x : Graph) × (y ≡ f x)
bind-some none f y h = absurd (ground (arith, h))
bind-some (some x) f y h = (x, ground (arith, h))

remove_file-known :
    (p m : String) (g : Graph)
    → Map.get g.file_to_module p ≡ some m
    → remove_file p g ≡ (
        elim (Map.get g.modules m) [ none ↦ some g | some info ↦ detach p m info g ] >>= λ x.
        some (forget p x))
unfolding remove_file
remove_file-known p m g e = rw (e, remove_file) refl

file_to_module-registered :
    (f : File) (g : Graph) (links : Links)
    → Map.get (registered f g links).file_to_module f.path ≡ some f.module_name
unfolding registered
file_to_module-registered f g links =
    ground (arith, Map.get-put g.file_to_module f.path f.path f.module_name, str_eq_refl f.path)

cached-registered :
    (f : File) (g : Graph) (links : Links)
    → IsWell g
    → (Cache.get f.path (registered f g links).file_cache).0 ≡ some f
unfolding registered
cached-registered f g links w = get-put_cache f.path f g.file_cache w.cache

get_file-forget : (p : String) (g : Graph) → (get_file none p (forget p g)).0 ≡ none
unfolding get_file forget reload
get_file-forget p g = simp (get-evict p g.file_cache, get_file)

file_to_module-forget : (p : String) (g : Graph) → Map.get (forget p g).file_to_module p ≡ none
unfolding forget
file_to_module-forget p g = ground (arith, Map.get-delete g.file_to_module p p, str_eq_refl p)

-- A file that `AddFile` has put in a well-formed graph is read back by `GetFile` as it was added,
-- with its module on record; and after `RemoveFile` of its path a graph without a loader has
-- neither the file nor its module. Neither change panics.
pub get_file-add_file :
    (loader : Option (String → Option File)) (f : File) (g : Graph)
    → IsWell g
    → (g' : Graph) × (add_file f g ≡ some g')
      × ((get_file loader f.path g').0 ≡ some f)
      × (Map.get g'.file_to_module f.path ≡ some f.module_name)
      × (g'' : Graph) × (remove_file f.path g' ≡ some g'')
      × ((get_file none f.path g'').0 ≡ none)
      × (Map.get g''.file_to_module f.path ≡ none)
get_file-add_file loader f g w =
    let (g', e, w') = add_file_total f g w in
    let (before, links, old, e') = add_file-registered f g w in
    let same : g' ≡ registered f before links = ground (arith, e, e') in
    let (g'', r, w'') = remove_file_total f.path g' w' in
    let module_known : Map.get g'.file_to_module f.path ≡ some f.module_name =
      ap (λ h. Map.get h.file_to_module f.path) same ∙ file_to_module-registered f before links in
    let (rest, gone) =
      bind-some
        (elim (Map.get g'.modules f.module_name) [
          | none ↦ some g'
          | some info ↦ detach f.path f.module_name info g'
        ])
        (forget f.path) g'' (sym (remove_file-known f.path f.module_name g' module_known) ∙ r) in
    (
      g',
      e,
      ap (λ h. (get_file loader f.path h).0) same
          ∙ get_file-hit loader f.path f (registered f before links)
              (cached-registered f before links old),
      module_known,
      g'',
      r,
      ap (λ h. (get_file none f.path h).0) gone ∙ get_file-forget f.path rest,
      ap (λ h. Map.get h.file_to_module f.path) gone ∙ file_to_module-forget f.path rest,
    )
