-- ===== src/Graph/Chain/Notes.antt =====
-- internal/engine/graph/detect.go: facts on the notes and the queue of `FindImportChain`.
use code_watch.Prelude.{
  suc, String, Bool, true, false, ◌&&◌, ◌||◌, ◌≡◌, refl, ap, ◌∙◌, inl, inr, none, some, List, [],
  ◌∷◌, ◌++◌, length, arith, str_eq, eq_iff, contains, contains-append, Bool-cases, String-cases,
  str_eq_refl,
}
use code_watch.Prelude.Map
use code_watch.Prelude.Map.{Map}

pub length-put :
    (m : Map String) (k v : String) → Map.get m k ≡ none → length (Map.put m k v) ≡ suc (length m)
unfolding Map.put Map.get
length-put [] k v h = refl
length-put ((j, w) ∷ m) k v h = elim (Bool-cases (str_eq j k)) [
  | inl e ↦ absurd (ground (arith, h, e))
  | inr e ↦ rw e (ap suc (length-put m k v (ground (arith, h, e))))
]

pub kept :
    (prev : Map String) (m c n p : String)
    → Map.get prev m ≡ none
    → Map.get prev n ≡ some p
    → Map.get (Map.put prev m c) n ≡ some p
kept prev m c n p h e = elim (String-cases m n) [
  | inl same ↦ absurd (ground (arith, h, e, ap (Map.get prev) same))
  | inr other ↦ Map.get-put prev m n c ∙ (rw other e)
]

pub note : (n c : String) (prev : Map String) → Map.get (Map.put prev n c) n ≡ some c
note n c prev = Map.get-put prev n n c ∙ (rw (str_eq_refl n) refl)

pub contains-last :
    (m n : String) (queue : List String)
    → contains m (queue ++ n ∷ []) ≡ (contains m queue || str_eq m n)
unfolding contains
contains-last m n queue = ground (arith, contains-append m queue (n ∷ []))

pub onward :
    (x_n seen waiting waits_now m_n here later old : Bool)
    → (m_n || old) ≡ true
    → waits_now ≡ (waiting || m_n)
    → (old ≡ true → (seen || (waiting || (here && (x_n || later)))) ≡ true)
    → ((x_n || seen) || (waits_now || (here && later))) ≡ true
onward x_n seen waiting waits_now m_n here later old v w h = ground (arith, v, w, h)

pub second : (a b : Bool) → (a && b) ≡ true → b ≡ true
second a b h = ground (arith, h)

pub nothing_waits :
    (x : String) (queue : List String) (seen here : Bool)
    → queue ≡ []
    → (seen || (contains x queue || (here && false))) ≡ true
    → seen ≡ true
unfolding contains
nothing_waits x queue seen here e h = ground (arith, h, ap (contains x) e)

pub in_queue :
    (n curr : String) (rest queue : List String)
    → queue ≡ curr ∷ rest
    → contains n rest ≡ true
    → contains n queue ≡ true
unfolding contains
in_queue n curr rest queue e h = ground (arith, ap (contains n) e, h)

pub here_first :
    (n : String) (rest queue : List String) → queue ≡ n ∷ rest → contains n queue ≡ true
unfolding contains
here_first n rest queue e = ground (arith, ap (contains n) e, str_eq_refl n)

pub after_pop :
    (m curr : String) (rest queue : List String)
    → queue ≡ curr ∷ rest
    → (seen next_to : Bool) → (seen || (contains m queue || (str_eq m "" && false))) ≡ true
    → (m ≡ curr → next_to ≡ true)
    → (seen || (contains m rest || (str_eq m curr && next_to))) ≡ true
unfolding contains
after_pop m curr rest queue e seen next_to h k =
    ground (arith, ap (contains m) e, h, k, eq_iff m curr)

pub skipped :
    (seen waiting here later : Bool) (x n : String) (visited : List String)
    → (seen || (waiting || (here && (str_eq x n || later)))) ≡ true
    → contains n visited ≡ true
    → seen ≡ contains x visited
    → (seen || (waiting || (here && later))) ≡ true
skipped seen waiting here later x n visited h e k = elim (String-cases x n) [
  | inl same ↦ ground (arith, h, k ∙ ap (λ z. contains z visited) same ∙ e)
  | inr other ↦ ground (arith, h, other)
]
