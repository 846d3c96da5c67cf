-- ===== src/Sort.antt =====
-- lib/dag_algorithms.cxx: the topological sort.
pub mod Step
pub mod Visit
pub mod Loop
pub mod Correct
use dag_scheduler.Base.{
  ℕ, zero, suc, ◌+◌, Bool, not, List, [], ◌∷◌, ◌++◌, none, some, ◌==◌, if◌then◌else◌, length, map,
  get_elem?, keep_if, Outcome, ok, fault, out_of_fuel, ◌>>=◌,
}
use dag_scheduler.Externals.{Externals}
use dag_scheduler.Vertex.{Edge, Vertex, has_incomming_edges, clone_vertex}
use dag_scheduler.Dag.{Dag, lock, connect_to, put_edge, vertex_count, edge_count}

unfoldable pub dag_vertices_with_no_incomming_edges : Dag → List ℕ
dag_vertices_with_no_incomming_edges g = keep_if (λ a. not (has_incomming_edges (g.cell a))) g.graph

-- One call of the lambda that `curr->visit_all_edges` is given, for the edge at place `j` of the
-- vertex at `c`.
unfoldable pub visit_edge : ℕ → ℕ → Edge → Dag → List ℕ → Outcome (Dag × List ℕ)
unfolding connect_to put_edge
visit_edge c j e g q = elim (lock g e.connection) [
  | none ↦ fault
  | some m ↦
      let (released, e') = connect_to g e none in
      let g' = put_edge released c j e' in
      ok (g', if has_incomming_edges (g'.cell m) then q else q ++ m ∷ [])
]

-- The edges from place `j` on; the vector has `n` more, and no call changes its length.
unfoldable pub visit_edges : ℕ → ℕ → ℕ → Dag → List ℕ → Outcome (Dag × List ℕ)
visit_edges c zero j g q = ok (g, q)
visit_edges c (suc n) j g q = elim (get_elem? (g.cell c).edges j) [
  | none ↦ ok (g, q)
  | some e ↦ visit_edge c j e g q >>= λ (g', q'). visit_edges c n (suc j) g' q'
]

-- The `while` loop over the queue `q`; `sorted` is `L`.
unfoldable pub sort_loop : ℕ → Dag → List ℕ → List ℕ → Outcome (Dag × List ℕ)
sort_loop fuel g [] sorted = ok (g, sorted)
sort_loop zero g (c ∷ q) sorted = out_of_fuel
sort_loop (suc fuel) g (c ∷ q) sorted =
    visit_edges c (length (g.cell c).edges) 0 g q >>= λ (g', q').
    sort_loop fuel g' q' (sorted ++ c ∷ [])

-- Each pop is of a vertex that started in the queue or was pushed for an edge.
unfoldable pub sort_addresses : Dag → Outcome (Dag × List ℕ)
unfolding sort_loop
sort_addresses g =
    let q = dag_vertices_with_no_incomming_edges g in
    sort_loop (vertex_count g + edge_count g) g q []

module _ ⦃env : Externals⦄ where
  -- The new state of `g`, the result, which is true on a failure, and `sorted_vertices`.
  unfoldable pub dag_topological_sort : Dag → Outcome (Dag × Bool × List Vertex)
  unfolding sort_addresses
  dag_topological_sort g = sort_addresses g >>= λ (g', sorted).
      ok (g', not (length sorted == vertex_count g'), map (λ a. clone_vertex (g'.cell a)) sorted)
