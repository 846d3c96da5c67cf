-- ===== src/Process.antt =====
-- lib/dag_algorithms.cxx: `process_dag`, which queues the tasks of a DAG layer by layer.
pub mod Layers
pub mod Counts
pub mod Cut
pub mod Linked
pub mod Rounds
pub mod Taken
pub mod Loop
pub mod Ends
use dag_scheduler.Base.{
  ℕ, zero, suc, ◌+◌, Bool, true, false, not, ◌&&◌, List, [], ◌∷◌, ◌++◌, ◌==◌, if◌then◌else◌, length,
  map, Outcome, ok, fault, out_of_fuel, ◌>>=◌,
}
use dag_scheduler.Externals.{Externals}
use dag_scheduler.Vertex.{Vertex, clone_vertex, vertex_eq}
use dag_scheduler.Dag.{Dag, vertex_count}
use dag_scheduler.Remove.{remove_where}
use dag_scheduler.Sort.{dag_vertices_with_no_incomming_edges, dag_topological_sort}
use dag_scheduler.Clone.{clone}
use dag_scheduler.Scheduler.{Scheduler, queue_task}

-- The loop over `vertices_to_process` that queues their tasks.
unfoldable pub queue_all : Scheduler → List Vertex → Scheduler
unfolding queue_task
queue_all s [] = s
queue_all s (v ∷ vs) = queue_all (queue_task s v.task) vs

module _ ⦃env : Externals⦄ where
  -- The removal of `*v` compares with the vertex on the heap.
  unfoldable pub remove_root : Dag → ℕ → Dag × Bool
  unfolding remove_where
  remove_root g a = remove_where (λ h o. vertex_eq (h.cell o) (h.cell a)) g

  -- Each root is copied to `vertices_to_process`, and the assertion wants it removed.
  unfoldable pub take_roots : Dag → List ℕ → Outcome (Dag × List Vertex)
  unfolding remove_root
  take_roots g [] = ok (g, [])
  take_roots g (a ∷ rest) =
      let (g', removed) = remove_root g a in
      let later = take_roots g' rest >>= λ (g'', vs). ok (g'', clone_vertex (g.cell a) ∷ vs) in
      if removed then later else fault

  -- The `while` loop, with the roots of the graph, `out` and the scheduler.
  unfoldable pub process_roots :
      ℕ → Dag → List ℕ → List (List Vertex) → Scheduler → Outcome (List (List Vertex) × Scheduler)
  unfolding take_roots queue_all
  process_roots fuel g [] out s = ok (out, s)
  process_roots zero g (a ∷ roots) out s = out_of_fuel
  process_roots (suc fuel) g (a ∷ roots) out s =
      take_roots g (a ∷ roots) >>= λ (g', vertices_to_process).
      process_roots fuel g' (dag_vertices_with_no_incomming_edges g')
        (out ++ map clone_vertex vertices_to_process ∷ []) (queue_all s vertices_to_process)

  -- `same_size` is the second half of the condition. A round of the loop removes a vertex.
  unfoldable pub process_sorted :
      Dag
      → Bool
      → Bool
      → List (List Vertex)
      → Scheduler
      → Outcome (Bool × List (List Vertex) × Scheduler)
  unfolding process_roots
  process_sorted g_clone ret same_size out s =
      let roots = dag_vertices_with_no_incomming_edges g_clone in
      let processed = process_roots (vertex_count g_clone) g_clone roots [] s in
      if ret && same_size
      then (processed >>= λ (out', s'). ok (ret, out', s'))
      else ok (ret, out, s)

  -- The result, `out` and the scheduler; `g` draws UUIDs for its two copies.
  unfoldable pub process_dag :
      Dag → List (List Vertex) → Scheduler → Outcome (Bool × List (List Vertex) × Scheduler)
  unfolding process_sorted
  process_dag g out s = clone g >>= λ g_clone.
      clone (record g { draws = g_clone.draws }) >>= λ g_check.
      dag_topological_sort g_check >>= λ (_, failed, check).
      process_sorted g_clone (not failed) (length check == vertex_count g_clone) out s
