-- ===== src/Print/Depth.antt =====
-- The stream operator of a vertex, which follows the edges: the depth of its calls.
use native.Mathlib.Decide.{dec_lt}
use dag_scheduler.Base.{
  subst, sym, ◌∷◌, [], out_of_fuel, length, position, position-lt, inl, inr, ◌⊎◌, ℕ, zero, suc, ◌+◌,
  ◌<◌, ◌≤◌, ◌≡◌, ◌∙◌, refl, ap, arith, String, true, List, [], ◌∷◌, Option, none, some, Outcome, ok,
  ◌>>=◌, contains,
}
use dag_scheduler.Externals.{Externals}
use dag_scheduler.Vertex.{Edge}
use dag_scheduler.Dag.{Dag, lock}
use dag_scheduler.Dag.Degrees.{hits, in_edges, AreLinks, IsRanked, Arc, hits_pos}
use dag_scheduler.Dag.Valid.{IsLinked, Arc-target}
use dag_scheduler.Sort.Correct.{dag_topological_sort_decides, dag_topological_sort_sorts}
use dag_scheduler.Process.Counts.{length_le}
use dag_scheduler.Print.{edge_text, edges_text, vertex_text, vertices_text}

-- The writing of a text ends.
abbrev pub Writes : Outcome String → Type 0
Writes r = (text : String) × (r ≡ ok text)

pub bind-Writes :
    (r : Outcome String) (f : String → Outcome String)
    → Writes r
    → ((t : String) → Writes (f t))
    → Writes (r >>= f)
bind-Writes r f (t, e) rest =
    let (t', e') = rest t in (t', ap (λ (x : Outcome String). x >>= f) e ∙ e')

module _ ⦃env : Externals⦄ (g : Dag) where
  target-lock : (b : ℕ) → contains g.graph b ≡ true → lock g (some b) ≡ some b
  unfolding lock
  target-lock b there = rw there refl

  edge-Writes :
      (vertex : ℕ → Outcome String) (e : Edge) (b : ℕ)
      → e.connection ≡ some b
      → contains g.graph b ≡ true
      → Writes (vertex b)
      → Writes (edge_text vertex g e)
  unfolding edge_text
  edge-Writes vertex e b leads there (t, written) =
      let at = ap (lock g) leads ∙ target-lock b there in
      let shown = λ (c : Option ℕ). elim c as (λ d. Outcome String) [
        | none ↦ ok "nullptr"
        | some a ↦ vertex a
      ] in
      bind-Writes (shown (lock g e.connection)) _ (t, ap shown at ∙ written) (λ target. (_, refl))

  -- Edges of which each target is written.
  edges-Writes :
      (vertex : ℕ → Outcome String) (es : List Edge)
      → AreLinks g.graph es
      → ((b : ℕ) → contains g.graph b ≡ true → 0 < in_edges b es → Writes (vertex b))
      → Writes (edges_text vertex g es)
  unfolding edges_text
  edges-Writes vertex [] links targets = ("", refl)
  edges-Writes vertex (e ∷ es) ((b, leads, there), links) targets =
      let hit : hits b e.connection ≡ 1 = ap (hits b) leads ∙ ground arith in
      bind-Writes (edge_text vertex g e) _
        (edge-Writes vertex e b leads there (targets b there (omega (arith, hit))))
        (λ t.
          bind-Writes (edges_text vertex g es) _
            (edges-Writes vertex es links
              (λ c c_there some_edge. targets c c_there (omega (arith, some_edge))))
            (λ ts. (_, refl)))

  module _ (rank : ℕ → ℕ) (ranked : IsRanked rank g) (bound : ℕ)
      (links : (u : ℕ) → contains g.graph u ≡ true → AreLinks g.graph (g.cell u).edges)
      (below : (u : ℕ) → contains g.graph u ≡ true → rank u < bound) where
    pub vertex-Writes :
        (n a : ℕ) → contains g.graph a ≡ true → bound ≤ n + rank a → Writes (vertex_text n g a)
    unfolding vertex_text
    vertex-Writes zero a there enough = absurd (omega (arith, enough, below a there))
    vertex-Writes (suc n) a there enough =
        bind-Writes (edges_text (λ b. vertex_text n g b) g (g.cell a).edges) _
          (edges-Writes (λ b. vertex_text n g b) (g.cell a).edges (links a there)
            (λ b b_there some_edge.
              vertex-Writes n b b_there (omega (arith, enough, ranked a b (there, some_edge)))))
          (λ edges. (_, refl))

    pub vertices-Writes :
        (n : ℕ) (l : List ℕ)
        → ((a : ℕ) → contains l a ≡ true → contains g.graph a ≡ true)
        → bound ≤ n
        → Writes (vertices_text n g l)
    unfolding vertices_text
    vertices-Writes n [] inside enough = ("", refl)
    vertices-Writes n (a ∷ l) inside enough =
        bind-Writes (vertex_text n g a) _
          (vertex-Writes n a (inside a (ground arith)) (omega (arith, enough)))
          (λ t.
            bind-Writes (vertices_text n g l) _
              (vertices-Writes n l (λ b m. inside b (ground (arith, m))) enough) (λ ts. (_, refl)))

module _ ⦃env : Externals⦄ (g : Dag) (linked : IsLinked g) where
  -- Ranks below the number of vertices, by the places in the sorted list.
  few_ranks :
      (rank : ℕ → ℕ)
      → IsRanked rank g
      → (place : ℕ → ℕ) × IsRanked place g
        × ((u : ℕ) → contains g.graph u ≡ true → place u < length g.graph)
  few_ranks rank ranked =
      let (g', failed, vs, ends, decides) = dag_topological_sort_decides g linked in
      let good = ends ∙ ap (λ f. ok (g', f, vs)) (decides.1 (rank, ranked)) in
      let (sorted, same, t) = dag_topological_sort_sorts g g' vs linked good in
      (
        position sorted,
        t.ordered,
        λ u there. omega (
          arith,
          position-lt sorted u ((t.complete u).1 there),
          length_le sorted g.graph t.distinct (λ a. (t.complete a).0),
        ),
      )

  -- With no cycle, a depth of the number of vertices is enough.
  pub vertex_text-Writes :
      (rank : ℕ → ℕ) (a : ℕ)
      → IsRanked rank g
      → contains g.graph a ≡ true
      → Writes (vertex_text (length g.graph) g a)
  vertex_text-Writes rank a ranked there =
      let (place, placed, below) = few_ranks rank ranked in
      vertex-Writes g place placed (length g.graph) linked.links below (length g.graph) a there
        (omega arith)

-- The text is written, or the calls go deeper.
abbrev pub Goes : Outcome String → Type 0
Goes r = Writes r ⊎ (r ≡ out_of_fuel)

bind-Goes :
    (r : Outcome String) (f : String → Outcome String)
    → Goes r
    → ((t : String) → Goes (f t))
    → Goes (r >>= f)
bind-Goes r f (inr deep) rest = inr (ap (λ x. x >>= f) deep)
bind-Goes r f (inl (t, e)) rest = subst Goes (sym (ap (λ x. x >>= f) e)) (rest t)

pub bind_deep :
    (r : Outcome String) (f : String → Outcome String)
    → Goes r
    → ((t : String) → f t ≡ out_of_fuel)
    → (r >>= f) ≡ out_of_fuel
bind_deep r f (inr deep) rest = ap (λ x. x >>= f) deep
bind_deep r f (inl (t, e)) rest = ap (λ x. x >>= f) e ∙ rest t

module _ ⦃env : Externals⦄ (g : Dag) where
  abbrev shown : (ℕ → Outcome String) → Option ℕ → Outcome String
  shown vertex c = elim c as (λ d. Outcome String) [ none ↦ ok "nullptr" | some a ↦ vertex a ]

  shown-Goes :
      (vertex : ℕ → Outcome String) (c : Option ℕ)
      → ((b : ℕ) → Goes (vertex b))
      → Goes (shown vertex c)
  shown-Goes vertex none all = inl ("nullptr", refl)
  shown-Goes vertex (some a) all = all a

  edge-Goes :
      (vertex : ℕ → Outcome String) (e : Edge)
      → ((b : ℕ) → Goes (vertex b))
      → Goes (edge_text vertex g e)
  unfolding edge_text
  edge-Goes vertex e all =
      bind-Goes (shown vertex (lock g e.connection)) _ (shown-Goes vertex (lock g e.connection) all)
        (λ t. inl (_, refl))

  edges-Goes :
      (vertex : ℕ → Outcome String) (es : List Edge)
      → ((b : ℕ) → Goes (vertex b))
      → Goes (edges_text vertex g es)
  unfolding edges_text
  edges-Goes vertex [] all = inl ("", refl)
  edges-Goes vertex (e ∷ es) all =
      bind-Goes (edge_text vertex g e) _ (edge-Goes vertex e all)
        (λ t. bind-Goes (edges_text vertex g es) _ (edges-Goes vertex es all) (λ ts. inl (_, refl)))

  pub vertex_text-Goes : (n a : ℕ) → Goes (vertex_text n g a)
  unfolding vertex_text
  vertex_text-Goes zero a = inr refl
  vertex_text-Goes (suc n) a =
      bind-Goes (edges_text (λ b. vertex_text n g b) g (g.cell a).edges) _
        (edges-Goes (λ b. vertex_text n g b) (g.cell a).edges (vertex_text-Goes n))
        (λ t. inl (_, refl))

  -- One of the edges leads to a vertex that goes deeper.
  edges_deep :
      (vertex : ℕ → Outcome String) (es : List Edge) (v : ℕ)
      → ((b : ℕ) → Goes (vertex b))
      → contains g.graph v ≡ true
      → 0 < in_edges v es
      → vertex v ≡ out_of_fuel
      → edges_text vertex g es ≡ out_of_fuel
  unfolding edges_text edge_text
  edges_deep vertex [] v all there leads deep = absurd (omega (arith, leads))
  edges_deep vertex (e ∷ es) v all there leads deep = elim (dec_lt 0 (hits v e.connection)) [
    | yes hit ↦
        let at = ap (lock g) (hits_pos v e.connection hit) ∙ target-lock g v there in
        rw (ap (shown vertex) at ∙ deep) refl
    | no miss ↦
        bind_deep (edge_text vertex g e) _ (edge-Goes vertex e all)
          (λ t. rw (edges_deep vertex es v all there (omega (arith, leads, miss)) deep) refl)
  ]

  -- Each of the vertices has an edge to one of them.
  abbrev pub IsEndless : (ℕ → Type 0) → Type 0
  IsEndless P = (u : ℕ) → P u → (v : ℕ) × Arc g u v × P v

  -- From such a vertex no depth is enough.
  pub vertex_text_endless :
      (P : ℕ → Type 0) (n u : ℕ) → IsLinked g → IsEndless P → P u → vertex_text n g u ≡ out_of_fuel
  unfolding vertex_text
  vertex_text_endless P zero u linked endless p = refl
  vertex_text_endless P (suc n) u linked endless p =
      let (v, arc, q) = endless u p in
      rw
        (edges_deep (λ b. vertex_text n g b) (g.cell u).edges v (vertex_text-Goes n)
          (Arc-target g u v linked arc) arc.1 (vertex_text_endless P n v linked endless q))
        refl
