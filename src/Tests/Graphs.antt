-- ===== src/Tests/Graphs.antt =====
-- Witnesses for the theorems on DAGs.
use dag_scheduler.Base.{
  keep_if, not, ℕ, ◌+◌, ◌<◌, ◌≡◌, ◌⊎◌, ◌↔◌, refl, Bool, true, false, none, some, contains, ok,
  fault, map, List, arith,
}
use dag_scheduler.Uuid.{is_initialized, as_string, uuid_eq, uuid_eq_iff, null_uuid}
use dag_scheduler.Vertex.{Vertex, make_vertex, clone_vertex, size_mod}
use dag_scheduler.Dag.{
  contains_vertex, Dag, make_dag, add_vertex, edge_count, find_vertex_by_uuid,
  find_all_verticies_with_label,
}
use dag_scheduler.Dag.Degrees.{IsRanked}
use dag_scheduler.Dag.Keys.{IsAcyclic, Has}
use dag_scheduler.Dag.Find.{find_vertex_by_uuid_complete}
use dag_scheduler.Sort.{dag_topological_sort}
use dag_scheduler.Sort.Correct.{
  IsTopological, dag_topological_sort_decides, dag_topological_sort_sorts,
}
use dag_scheduler.Clone.{clone}
use dag_scheduler.Clone.Correct.{IsClone, clone_lem}
use dag_scheduler.Connect.{connect, connection_would_make_cyclic}
use dag_scheduler.Connect.Cycles.{WithArc, connection_would_make_cyclic_decides}
use dag_scheduler.Connect.All.{pairs}
use dag_scheduler.Remove.{remove_vertex_by_uuid}
use dag_scheduler.Remove.Kept.{is_id, any_of, remove_vertex_by_uuid_lem}
use dag_scheduler.Connect.Joins.{IsRefused, IsJoined, IsSound, connect_cases}
use dag_scheduler.Connect.Missing.{connection_would_make_cyclic_faults}
use dag_scheduler.Connect.Reach.{Reached-IsSound, Reached_sorts}
use dag_scheduler.Tests.{sample, pair, pair-Reached}

pub pair-IsSound : IsSound pair
pair-IsSound = Reached-IsSound pair pair-Reached

first_there : contains pair.graph 0 ≡ true
unfolding add_vertex make_dag make_vertex contains_vertex uuid_eq is_initialized as_string
first_there = refl

second_there : contains pair.graph 1 ≡ true
unfolding add_vertex make_dag make_vertex contains_vertex uuid_eq is_initialized as_string
second_there = refl

pub pair_document : pair.json_config ≡ some "null"
unfolding add_vertex make_dag make_vertex contains_vertex uuid_eq is_initialized as_string
pair_document = refl

pair_room : edge_count pair + 1 < size_mod
unfolding add_vertex make_dag make_vertex contains_vertex uuid_eq is_initialized as_string
    edge_count
pair_room = omega arith

-- A DAG that was made with two calls of `add_vertex`.
sorts_pair :
    (g' : Dag) × (vs : List Vertex) × (dag_topological_sort pair ≡ ok (g', false, vs))
    × ((sorted : List ℕ) × (vs ≡ map (λ a. clone_vertex (pair.cell a)) sorted)
        × IsTopological pair sorted)
sorts_pair = Reached_sorts pair pair-Reached

IsSound-pair : IsSound pair
IsSound-pair = Reached-IsSound pair pair-Reached

decides_pair :
    (g' : Dag) × (failed : Bool) × (vs : List Vertex) × (dag_topological_sort pair
      ≡ ok (g', failed, vs))
    × ((failed ≡ false) ↔ ((rank : ℕ → ℕ) × IsRanked rank pair))
decides_pair = dag_topological_sort_decides pair pair-IsSound.valid.linked

sorted_pair :
    (sorted : List ℕ) × (sorts_pair.1 ≡ map (λ a. clone_vertex (pair.cell a)) sorted)
    × IsTopological pair sorted
sorted_pair =
    dag_topological_sort_sorts pair sorts_pair.0 sorts_pair.1 pair-IsSound.valid.linked sorts_pair.2

cases_pair :
    (IsAcyclic (WithArc pair (pair.cell 0).uuid (pair.cell 1).uuid)
      × ((g' : Dag) × (connect pair (pair.cell 0) (pair.cell 1) ≡ ok (g', true))
          × IsJoined pair 0 1 g'))
    ⊎ ((¬ IsAcyclic (WithArc pair (pair.cell 0).uuid (pair.cell 1).uuid))
        × IsRefused pair 0 1 (connect pair (pair.cell 0) (pair.cell 1)))
cases_pair =
    connect_cases pair "null" pair-IsSound.valid pair_document 0 1 first_there second_there
      pair_room

-- An edge from a vertex to itself.
cyclic_pair :
    (draws : ℕ) × (cyclic : Bool) × (connection_would_make_cyclic pair (pair.cell 0) (pair.cell 0)
      ≡ ok (record pair { draws = draws }, cyclic))
    × ((cyclic ≡ false) ↔ IsAcyclic (WithArc pair (pair.cell 0).uuid (pair.cell 0).uuid))
cyclic_pair =
    connection_would_make_cyclic_decides pair "null" pair-IsSound.valid pair_document 0 0
      first_there first_there pair_room

clone-pair : (h : Dag) × (clone pair ≡ ok h) × IsClone pair h
clone-pair = clone_lem pair pair-IsSound.valid "null" pair_document

uuids_differ : (uuid_eq 7 8 ≡ true) ↔ (◌≡◌ {A = ℕ} 7 8)
uuids_differ = uuid_eq_iff 7 8

third_missing : find_vertex_by_uuid pair 3 ≡ none
unfolding add_vertex make_dag make_vertex contains_vertex uuid_eq is_initialized as_string
    find_vertex_by_uuid
third_missing = refl

null_missing : find_vertex_by_uuid pair null_uuid ≡ none
unfolding add_vertex make_dag make_vertex contains_vertex uuid_eq is_initialized as_string
    find_vertex_by_uuid
null_missing = refl

no_third : ¬ Has pair 3
no_third (a, m, e) = find_vertex_by_uuid_complete pair 3 third_missing a m e

no_null : ¬ Has pair null_uuid
no_null (a, m, e) = find_vertex_by_uuid_complete pair null_uuid null_missing a m e

faults_pair :
    connection_would_make_cyclic pair (make_vertex "C" none 3) (make_vertex "B" none 2) ≡ fault
unfolding make_vertex
faults_pair =
    connection_would_make_cyclic_faults pair "null" (make_vertex "C" none 3)
      (make_vertex "B" none 2) pair-IsSound.valid pair_document no_third no_null (omega arith)
      (omega arith)

pair_room_for_all : edge_count pair + pairs pair "A" "B" < size_mod
unfolding add_vertex make_dag make_vertex contains_vertex uuid_eq is_initialized as_string
    edge_count find_all_verticies_with_label
pair_room_for_all = omega arith

removed_pair :
    ((remove_vertex_by_uuid pair 1).0.graph ≡ keep_if (λ b. not (is_id 1 pair b)) pair.graph)
    × ((remove_vertex_by_uuid pair 1).1 ≡ any_of (is_id 1 pair) pair.graph)
removed_pair = remove_vertex_by_uuid_lem 1 pair
