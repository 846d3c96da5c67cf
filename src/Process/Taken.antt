-- ===== src/Process/Taken.antt =====
-- The layer that a round of `process_dag` makes, before the layers of the later rounds.
use dag_scheduler.Base.{
  subst, length-append, if◌then◌else◌, ◌||◌, false, Bool, Bool-cases, inl, inr, ◌<◌, ℕ, zero, suc,
  ◌≤◌, ◌≡◌, refl, sym, ap, ◌∙◌, true, false, not, List, [], ◌∷◌, ◌++◌, length, map, contains,
  contains-keep_if, IsDistinct-keep_if, arith, Option,
}
use dag_scheduler.Externals.{Externals}
use dag_scheduler.Task.{Task}
use dag_scheduler.Vertex.{Vertex, has_incomming_edges, clone_vertex}
use dag_scheduler.Dag.{Dag}
use dag_scheduler.Sort.{dag_vertices_with_no_incomming_edges}
use dag_scheduler.Process.Layers.{IsKeyed}
use dag_scheduler.Process.Rounds.{IsTidy, AreRoots, Round}
use dag_scheduler.Process.Counts.{contains-uuids, uuids-contains}
use dag_scheduler.Dag.Degrees.{Arc, indegree_pos, in_edges_eq_zero, in_edges}
use dag_scheduler.Dag.Valid.{Arc-target}

-- The tasks of the layers, in their order.
abbrev pub tasks : List (List Vertex) → List (Option Task)
tasks [] = []
tasks (layer ∷ layers) = map (λ (v : Vertex). v.task) layer ++ tasks layers

-- No layer is empty.
abbrev pub AreFull : List (List Vertex) → Type 0
AreFull [] = Unit
AreFull (layer ∷ layers) = (1 ≤ length layer) × AreFull layers

-- The UUIDs of a layer, whether a UUID is in a layer, and the index of the first layer that has it.
abbrev pub layer_uuids : List Vertex → List ℕ
layer_uuids layer = map (λ (v : Vertex). v.uuid) layer

abbrev pub in_layers : List (List Vertex) → ℕ → Bool
in_layers [] x = false
in_layers (layer ∷ layers) x = contains (layer_uuids layer) x || in_layers layers x

abbrev pub layer_of : List (List Vertex) → ℕ → ℕ
layer_of [] x = 0
layer_of (layer ∷ layers) x =
    let rest = suc (layer_of layers x) in if contains (layer_uuids layer) x then 0 else rest

-- All vertices of a layer.
abbrev pub AreAll : (Vertex → Type 0) → List Vertex → Type 0
AreAll P [] = Unit
AreAll P (v ∷ vs) = P v × AreAll P vs

-- The vertex is what `copy` gives for a vertex of the graph.
abbrev pub IsCopy : Dag → (ℕ → Vertex) → Vertex → Type 0
IsCopy g copy v = (a : ℕ) × (contains g.graph a ≡ true) × (v ≡ copy a)

abbrev pub AreCopies : Dag → (ℕ → Vertex) → List (List Vertex) → Type 0
AreCopies g copy [] = Unit
AreCopies g copy (layer ∷ layers) = AreAll (IsCopy g copy) layer × AreCopies g copy layers

AreAll-map :
    (P Q : Vertex → Type 0)
    → ((v : Vertex) → P v → Q v)
    → (vs : List Vertex) → AreAll P vs
    → AreAll Q vs
AreAll-map P Q f [] all = tt
AreAll-map P Q f (v ∷ vs) all = (f v all.0, AreAll-map P Q f vs all.1)

pub AreCopies-map :
    (g h : Dag) (c d : ℕ → Vertex)
    → ((v : Vertex) → IsCopy g c v → IsCopy h d v)
    → (layers : List (List Vertex)) → AreCopies g c layers
    → AreCopies h d layers
AreCopies-map g h c d f [] all = tt
AreCopies-map g h c d f (layer ∷ layers) all =
    (AreAll-map (IsCopy g c) (IsCopy h d) f layer all.0, AreCopies-map g h c d f layers all.1)

pub length-map : {A B : Type 0} (f : A → B) (xs : List A) → length (map f xs) ≡ length xs
length-map f [] = refl
length-map f (x ∷ xs) = ap suc (length-map f xs)

module _ ⦃env : Externals⦄ where
  abbrev pub roots_of : Dag → List ℕ
  roots_of g = dag_vertices_with_no_incomming_edges g

  pub roots_of-AreRoots : (g : Dag) → IsKeyed g → AreRoots g (roots_of g)
  unfolding dag_vertices_with_no_incomming_edges has_incomming_edges
  roots_of-AreRoots g k = record {
    distinct = IsDistinct-keep_if (λ a. not (has_incomming_edges (g.cell a))) g.graph k.distinct;
    inside = λ b m.
        ground (arith, m, contains-keep_if (λ a. not (has_incomming_edges (g.cell a))) g.graph b);
    free = λ b m.
        ground (arith, m, contains-keep_if (λ a. not (has_incomming_edges (g.cell a))) g.graph b);
  }

  -- A graph with ranked edges has a root.
  pub some_root :
      (rank : ℕ → ℕ) (g : Dag)
      → IsTidy rank g
      → roots_of g ≡ []
      → (n v : ℕ) → rank v < n
      → ¬ (contains g.graph v ≡ true)
  unfolding dag_vertices_with_no_incomming_edges has_incomming_edges
  some_root rank g tidy none_free zero v below there = omega (arith, below)
  some_root rank g tidy none_free (suc n) v below there =
      let kept = contains-keep_if (λ a. not (has_incomming_edges (g.cell a))) g.graph v in
      let gone : contains (roots_of g) v ≡ false = ap (λ l. contains l v) none_free in
      let (u, arc) =
        indegree_pos g v (ground (arith, kept, gone, there, tidy.linked.counted v there)) in
      some_root rank g tidy none_free n u (omega (arith, below, tidy.ranked u v arc)) arc.0

  pub taken_length :
      (rank : ℕ → ℕ) (g : Dag) (roots : List ℕ) (t : Round rank g roots)
      → length t.taken ≡ length roots
  taken_length rank g roots t =
      sym (length-map (λ (v : Vertex). v.uuid) t.taken)
      ∙ ap length t.taken_uuids
      ∙ length-map (λ a. (g.cell a).uuid) roots

  -- The layer of the round has the UUIDs of the roots, and no others.
  taken_root :
      (rank : ℕ → ℕ) (g : Dag) (roots : List ℕ) (t : Round rank g roots) (b : ℕ)
      → contains roots b ≡ true
      → contains (layer_uuids t.taken) (g.cell b).uuid ≡ true
  taken_root rank g roots t b m =
      ap (λ l. contains l (g.cell b).uuid) t.taken_uuids ∙ contains-uuids g roots b m

  not_taken :
      (rank : ℕ → ℕ) (g : Dag) (roots : List ℕ) (t : Round rank g roots)
      → IsKeyed g
      → AreRoots g roots
      → (b : ℕ) → contains g.graph b ≡ true
      → contains roots b ≡ false
      → contains (layer_uuids t.taken) (g.cell b).uuid ≡ false
  not_taken rank g roots t k r b there n =
      elim (Bool-cases (contains (layer_uuids t.taken) (g.cell b).uuid)) [
        | inl y ↦
            let (a, m, e) =
              uuids-contains g roots (g.cell b).uuid
                (sym (ap (λ l. contains l (g.cell b).uuid) t.taken_uuids) ∙ y) in
            let one : a ≡ b = k.keyed a b (r.inside a m) there e in
            absurd (ground (arith, ap (contains roots) one, m, n))
        | inr f ↦ f
      ]

  -- The copies of the roots, and of the vertices that the round left.
  copies-AreCopies :
      (g : Dag) (roots : List ℕ)
      → ((b : ℕ) → contains roots b ≡ true → contains g.graph b ≡ true)
      → AreAll (IsCopy g (λ a. clone_vertex (g.cell a))) (map (λ a. clone_vertex (g.cell a)) roots)
  copies-AreCopies g [] inside = tt
  copies-AreCopies g (a ∷ roots) inside = (
    (a, inside a (ground arith), refl),
    copies-AreCopies g roots (λ b m. inside b (ground (arith, m))),
  )

  pub taken-AreCopies :
      (rank : ℕ → ℕ) (g : Dag) (roots : List ℕ) (t : Round rank g roots)
      (layers : List (List Vertex))
      → AreRoots g roots
      → AreCopies t.after (λ a. clone_vertex (t.after.cell a)) layers
      → AreCopies g (λ a. clone_vertex (g.cell a)) (t.taken ∷ layers)
  taken-AreCopies rank g roots t layers r copied = (
    subst (AreAll (IsCopy g (λ a. clone_vertex (g.cell a)))) (sym t.taken_copies)
        (copies-AreCopies g roots r.inside),
    AreCopies-map t.after g (λ a. clone_vertex (t.after.cell a)) (λ a. clone_vertex (g.cell a))
        (λ v (a, there, e). (a, t.inside a there, e ∙ t.same_copies a)) layers copied,
  )

  pub taken_count :
      (rank : ℕ → ℕ) (g : Dag) (roots : List ℕ) (t : Round rank g roots)
      (layers : List (List Vertex))
      → length (tasks layers) ≤ length t.after.graph
      → length (tasks (t.taken ∷ layers)) ≤ length g.graph
  taken_count rank g roots t layers count = omega (
    arith,
    length-append (map (λ (v : Vertex). v.task) t.taken) (tasks layers),
    length-map (λ (v : Vertex). v.task) t.taken,
    taken_length rank g roots t,
    t.shorter_by,
    count,
  )

  pub taken_all :
      (rank : ℕ → ℕ) (g : Dag) (roots : List ℕ) (t : Round rank g roots)
      (layers : List (List Vertex))
      → ((b : ℕ) → contains t.after.graph b ≡ true → in_layers layers (t.after.cell b).uuid ≡ true)
      → (b : ℕ) → contains g.graph b ≡ true
      → in_layers (t.taken ∷ layers) (g.cell b).uuid ≡ true
  taken_all rank g roots t layers all b there = elim (Bool-cases (contains roots b)) [
    | inl m ↦ ground (arith, taken_root rank g roots t b m)
    | inr n ↦ ground (arith, all b (t.left b there n).0, ap (in_layers layers) (t.same_uuids b))
  ]

  pub taken_ordered :
      (rank : ℕ → ℕ) (g : Dag) (roots : List ℕ) (t : Round rank g roots)
      (layers : List (List Vertex))
      → IsTidy rank g
      → AreRoots g roots
      → ((u v : ℕ)
          → Arc t.after u v
          → layer_of layers (t.after.cell u).uuid < layer_of layers (t.after.cell v).uuid)
      → (u v : ℕ) → Arc g u v
      → layer_of (t.taken ∷ layers) (g.cell u).uuid < layer_of (t.taken ∷ layers) (g.cell v).uuid
  taken_ordered rank g roots t layers tidy r ordered u v arc =
      let v_there = Arc-target g u v tidy.linked arc in
      let v_late : contains roots v ≡ false = elim (Bool-cases (contains roots v)) [
        | inl m ↦ absurd (
            omega (
              arith,
              arc.1,
              in_edges_eq_zero g u v arc.0 (sym (tidy.linked.counted v v_there) ∙ r.free v m),
            ))
        | inr n ↦ n
      ] in
      let v_behind = not_taken rank g roots t tidy.keyed r v v_there v_late in
      elim (Bool-cases (contains roots u)) [
        | inl m ↦ ground (arith, v_behind, taken_root rank g roots t u m)
        | inr n ↦
            let (u_left, edges) = t.left u arc.0 n in
            let later = ordered u v (u_left, omega (arith, arc.1, ap (in_edges v) edges)) in
            ground (
              arith,
              v_behind,
              not_taken rank g roots t tidy.keyed r u arc.0 n,
              later,
              ap (layer_of layers) (t.same_uuids u),
              ap (layer_of layers) (t.same_uuids v),
            )
      ]
