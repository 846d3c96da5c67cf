-- ===== src/Tests/Dangling.antt =====
-- A witness for the theorem on removals that leave an edge behind.
use dag_scheduler.Base.{ℕ, ◌≡◌, ◌∙◌, refl, ap, arith, true, some, fault, contains, inr}
use dag_scheduler.Uuid.{uuid_eq, is_initialized, as_string}
use dag_scheduler.Vertex.{Vertex, make_vertex}
use dag_scheduler.Dag.{
  Dag, make_dag, add_vertex, contains_vertex, connect_vertex, edge_count, find_vertex,
}
use dag_scheduler.Dag.Degrees.{Arc}
use dag_scheduler.Dag.Grow.{Grows}
use dag_scheduler.Dag.Link.{connect_vertex_lem}
use dag_scheduler.Remove.{remove_vertex_by_uuid}
use dag_scheduler.Remove.Dangling.{removal_faults}
use dag_scheduler.Clone.{clone}
use dag_scheduler.Connect.{connect}
use dag_scheduler.Tests.{sample, pair}
use dag_scheduler.Tests.Graphs.{pair-IsSound}

-- The pair with an edge from the first vertex to the second.
abbrev linked : Dag
linked = (connect_vertex pair 0 1).0

linked-Grows : Grows pair linked (λ u v. (u ≡ 0) × (v ≡ 1)) 1
unfolding add_vertex make_dag make_vertex contains_vertex uuid_eq is_initialized as_string
    edge_count
linked-Grows = (connect_vertex_lem pair 0 1 pair-IsSound.valid refl refl (omega arith)).0

second_there : contains linked.graph 1 ≡ true
unfolding add_vertex make_dag make_vertex contains_vertex uuid_eq is_initialized as_string
second_there = ap (λ l. contains l 1) linked-Grows.same_graph ∙ refl

linked-Arc : Arc linked 0 1
linked-Arc = (linked-Grows.arcs 0 1).1 (inr (refl, refl))

removes_second :
    (clone (remove_vertex_by_uuid linked (linked.cell 1).uuid).0 ≡ fault)
    × ((v1 v2 : Vertex) (x y : ℕ)
        → find_vertex (remove_vertex_by_uuid linked (linked.cell 1).uuid).0 v1 ≡ some x
        → find_vertex (remove_vertex_by_uuid linked (linked.cell 1).uuid).0 v2 ≡ some y
        → connect (remove_vertex_by_uuid linked (linked.cell 1).uuid).0 v1 v2 ≡ fault)
removes_second =
    removal_faults linked 1 0 linked-Grows.valid second_there linked-Arc (λ e. omega (arith, e))
