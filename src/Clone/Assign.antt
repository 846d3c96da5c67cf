-- ===== src/Clone/Assign.antt =====
-- lib/dag.cxx: the copy assignment of a DAG.
use dag_scheduler.Base.{
  ℕ, ◌<◌, ◌≡◌, ◌≢◌, ◌∙◌, refl, ap, arith, List, [], ◌∷◌, ◌++◌, none, some, Outcome, ok, fault,
  ◌>>=◌, Bool-cases, inl, inr,
}
use dag_scheduler.Externals.{Externals}
use dag_scheduler.Uuid.{uuid_eq, uuid_eq_iff}
use dag_scheduler.Vertex.{Vertex, clone_vertex}
use dag_scheduler.Dag.{Dag, add_vertex, contains_vertex}
use dag_scheduler.Dag.Members.{Contents}
use dag_scheduler.Clone.{copy_vertices, connect_copies, clone_connections}

-- The DAG `rhs` on the heap of `g`.
abbrev pub on_heap : Dag → Contents → Dag
on_heap g rhs = record g { graph = rhs.graph; title = rhs.title; json_config = rhs.json_config }

module _ ⦃env : Externals⦄ where
  -- The vertices are added to those that are there, and the loop runs over all of them.
  unfoldable pub assign : Dag → Contents → Outcome Dag
  unfolding copy_vertices connect_copies
  assign g rhs =
      let copied = copy_vertices (on_heap g rhs) g rhs.graph in
      connect_copies (on_heap g rhs) copied rhs.graph copied.graph >>= λ h. elim rhs.json_config [
        | none ↦ fault
        | some text ↦ elim h.json_config [
          | none ↦ fault
          | some old ↦ ok (record h { title = rhs.title; json_config = some text })
        ]
      ]

  -- A DAG that begins with the vertex at `a`, which is as in `g`.
  abbrev StartsWith : Dag → ℕ → Dag → Type 0
  StartsWith g a h =
      (a < h.next_addr) × (h.cell a ≡ g.cell a) × ((rest : List ℕ) × (h.graph ≡ a ∷ rest))

  add_vertex-StartsWith :
      (g h : Dag) (a : ℕ) (v : Vertex) → StartsWith g a h → StartsWith g a (add_vertex h v).0
  unfolding add_vertex
  add_vertex-StartsWith g h a v (below, same, (rest, begins)) =
      elim (Bool-cases (contains_vertex h v)) [
        | inl old ↦ rw old (below, same, (rest, begins))
        | inr new ↦ rw new (
          omega (arith, below),
          ground (arith, same, below),
          (rest ++ h.next_addr ∷ [], ap (λ l. l ++ h.next_addr ∷ []) begins),
        )
      ]

  copy_vertices-StartsWith :
      (o g h : Dag) (a : ℕ) (l : List ℕ) → StartsWith g a h → StartsWith g a (copy_vertices o h l)
  unfolding copy_vertices
  copy_vertices-StartsWith o g h a [] s = s
  copy_vertices-StartsWith o g h a (b ∷ l) s =
      copy_vertices-StartsWith o g (add_vertex h (clone_vertex (o.cell b))).0 a l
        (add_vertex-StartsWith g h a (clone_vertex (o.cell b)) s)

  -- The vertices of the other DAG are none, or begin with another UUID.
  abbrev pub Mismatches : Dag → ℕ → List ℕ → Type 0
  Mismatches g a [] = Unit
  Mismatches g a (b ∷ l) = (g.cell b).uuid ≢ (g.cell a).uuid

  connect_copies_fault :
      (g h : Dag) (rhs : Contents) (a : ℕ) (rest l : List ℕ)
      → h.cell a ≡ g.cell a
      → Mismatches g a l
      → connect_copies (on_heap g rhs) h l (a ∷ rest) ≡ fault
  unfolding connect_copies clone_connections
  connect_copies_fault g h rhs a rest [] same m = refl
  connect_copies_fault g h rhs a rest (b ∷ l) same m =
      elim (Bool-cases (uuid_eq (g.cell b).uuid (h.cell a).uuid)) [
        | inl e ↦ absurd (
            m (
              (uuid_eq_iff (g.cell b).uuid (h.cell a).uuid).0 e ∙ ap (λ (v : Vertex). v.uuid) same))
        | inr e ↦ rw e refl
      ]

  -- `operator=` on a DAG that has a vertex does not clear it: the copies are added behind the vertex,
  -- and the assertion in `clone_connections` fails, or the index is out of range, unless the other DAG
  -- begins with a vertex of the same UUID.
  pub assign_faults :
      (g : Dag) (rhs : Contents) (a : ℕ) (rest : List ℕ)
      → g.graph ≡ a ∷ rest
      → a < g.next_addr
      → Mismatches g a rhs.graph
      → assign g rhs ≡ fault
  unfolding assign
  assign_faults g rhs a rest begins below m =
      let o = on_heap g rhs in
      let (lt, same, (more, all)) =
        copy_vertices-StartsWith o g g a rhs.graph (below, refl, (rest, begins)) in
      let copied = copy_vertices o g rhs.graph in
      let stuck =
        ap (connect_copies o copied rhs.graph) all
        ∙ connect_copies_fault g copied rhs a more rhs.graph same m in
      rw stuck refl
