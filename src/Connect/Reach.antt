-- ===== src/Connect/Reach.antt =====
-- The states of a DAG that its users can reach, and why they have no cycle.
use dag_scheduler.Base.{map, ℕ, ◌+◌, ◌<◌, ◌≡◌, ◌∙◌, refl, ap, Bool, false, ok, String, List, []}
use dag_scheduler.Externals.{Externals}
use dag_scheduler.Vertex.{clone_vertex, Vertex, size_mod}
use dag_scheduler.Dag.{Dag, make_dag, reset, add_vertex, edge_count}
use dag_scheduler.Dag.Keys.{IsRanked-of_IsAcyclic}
use dag_scheduler.Sort.{dag_topological_sort}
use dag_scheduler.Sort.Correct.{
  dag_topological_sort_sorts, IsTopological, dag_topological_sort_decides,
}
use dag_scheduler.Clone.{clone}
use dag_scheduler.Connect.{connect}
use dag_scheduler.Connect.{add_and_connect, connect_all_by_label}
use dag_scheduler.Connect.All.{IsSound-of_ok, pairs, connect_all_by_label-IsSound}
use dag_scheduler.Connect.Added.{add_and_connect-IsSound}
use dag_scheduler.Connect.Keeps.{add_vertex-IsSound, empty-IsSound, clone-IsSound, connect-IsSound}
use dag_scheduler.Connect.Joins.{IsSound}

module _ ⦃env : Externals⦄ where
  -- The DAGs that a program makes with the constructors, `add_vertex`, `connect`,
  -- `connect_all_by_label`, `add_and_connect`, `reset` and `clone`. A vertex comes as its
  -- constructors make it, and there is room for the new edges.
  pub data Reached : Dag → Type 0 where
    made : (title json : String) → Reached (make_dag title json)
    added :
        (g : Dag) (v : Vertex)
        → Reached g
        → v.edges ≡ []
        → v.incomming ≡ 0
        → Reached (add_vertex g v).0
    connected :
        (g g' : Dag) (v1 v2 : Vertex) (r : Bool)
        → Reached g
        → edge_count g + 1 < size_mod
        → connect g v1 v2 ≡ ok (g', r)
        → Reached g'
    all_connected :
        (g g' : Dag) (l1 l2 : String) (r : Bool)
        → Reached g
        → edge_count g + pairs g l1 l2 < size_mod
        → connect_all_by_label g l1 l2 ≡ ok (g', r)
        → Reached g'
    both_added :
        (g g' : Dag) (v1 v2 : Vertex) (r : Bool)
        → Reached g
        → v1.edges ≡ []
        → v1.incomming ≡ 0
        → v2.edges ≡ []
        → v2.incomming ≡ 0
        → edge_count g + 1 < size_mod
        → add_and_connect g v1 v2 ≡ ok (g', r)
        → Reached g'
    cleared : (g : Dag) → Reached g → Reached (reset g)
    copied : (g h : Dag) → Reached g → clone g ≡ ok h → Reached h

  -- Each DAG that can be reached is valid, has a document and has no cycle.
  pub Reached-IsSound : (g : Dag) → Reached g → IsSound g
  unfolding make_dag reset
  Reached-IsSound g (made title json) = empty-IsSound (make_dag title json) json refl refl
  Reached-IsSound g (added h v r no_edges no_incomming) =
      add_vertex-IsSound h v (Reached-IsSound h r) no_edges no_incomming
  Reached-IsSound g (connected h g' v1 v2 b r room ends) =
      let kept = connect-IsSound h v1 v2 (Reached-IsSound h r) room in
      IsSound-of_ok h g' 1 b (connect h v1 v2) kept ends
  Reached-IsSound g (all_connected h g' l1 l2 b r room ends) =
      let kept = connect_all_by_label-IsSound h l1 l2 (Reached-IsSound h r) room in
      IsSound-of_ok h g' (pairs h l1 l2) b (connect_all_by_label h l1 l2) kept ends
  Reached-IsSound g (both_added h g' v1 v2 b r e1 i1 e2 i2 room ends) =
      let kept = add_and_connect-IsSound h v1 v2 (Reached-IsSound h r) e1 i1 e2 i2 room in
      IsSound-of_ok h g' 1 b (add_and_connect h v1 v2) kept ends
  Reached-IsSound g (cleared h r) =
      let sound = Reached-IsSound h r in
      empty-IsSound (reset h) sound.document.0 refl sound.document.1
  Reached-IsSound g (copied h g' r ends) = clone-IsSound h g' (Reached-IsSound h r) ends

  -- `dag_topological_sort` succeeds on every DAG that can be reached, and gives each vertex once,
  -- behind the vertices with an edge to it.
  pub Reached_sorts :
      (g : Dag)
      → Reached g
      → (g' : Dag) × (vs : List Vertex) × (dag_topological_sort g ≡ ok (g', false, vs))
        × ((sorted : List ℕ) × (vs ≡ map (λ a. clone_vertex (g.cell a)) sorted)
            × IsTopological g sorted)
  Reached_sorts g reached =
      let sound = Reached-IsSound g reached in
      let linked = sound.valid.linked in
      let (g', failed, vs, ends, decides) = dag_topological_sort_decides g linked in
      let good =
        ends ∙ ap (λ f. ok (g', f, vs)) (decides.1 (IsRanked-of_IsAcyclic g sound.acyclic)) in
      (g', vs, good, dag_topological_sort_sorts g g' vs linked good)
