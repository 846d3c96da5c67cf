-- ===== src/Vertex/Members.antt =====
-- lib/dag_vertex.cxx and lib/dag_edge.cxx: the moves, the assignments and the comparison of edges.
use dag_scheduler.Base.{
  ℕ, suc, ◌+◌, Bool, true, false, ◌&&◌, List, [], ◌∷◌, none, some, Outcome, ok, fault, str_eq,
  get_elem?, if◌then◌else◌, ◌==◌,
}
use dag_scheduler.Externals.{Externals}
use dag_scheduler.Uuid.{null_uuid, as_string}
use dag_scheduler.Task.{clone_task}
use dag_scheduler.Vertex.{EdgeStatus, Edge, Vertex, moved_from, clone_vertex, add_incomming_edge}
use dag_scheduler.Dag.{Dag, lock, set_vertex, push_edge}
use dag_scheduler.Clone.{Connection}

abbrev pub edge_status_eq : EdgeStatus → EdgeStatus → Bool
edge_status_eq EdgeStatus.initialized EdgeStatus.initialized = true
edge_status_eq EdgeStatus.traversed EdgeStatus.traversed = true
edge_status_eq EdgeStatus.non_traverable EdgeStatus.non_traverable = true
edge_status_eq _ _ = false

-- The move constructor and the move assignment: the new edge, and what is left of the other.
unfoldable pub move_edge : Edge → Edge × Edge
move_edge other =
    (other, record { uuid = null_uuid; status = EdgeStatus.non_traverable; connection = none })

-- The copy assignment does not tell the vertex that the edge led to.
unfoldable pub assign_edge : Edge → Edge → Edge
assign_edge self rhs = record { uuid = rhs.uuid; status = rhs.status; connection = none }

unfoldable pub move_vertex : Vertex → Vertex × Vertex
unfolding moved_from
move_vertex other = (other, moved_from)

unfoldable pub get_edge_at : Vertex → ℕ → Outcome Edge
get_edge_at v i = elim (get_elem? v.edges i) [ none ↦ fault | some e ↦ ok e ]

module _ ⦃env : Externals⦄ where
  -- The copy assignment keeps the edges of the vertex, and its task if the other has none.
  unfoldable pub assign_vertex : Vertex → Vertex → Vertex
  assign_vertex self rhs = record self {
    uuid = rhs.uuid;
    status = rhs.status;
    label = rhs.label;
    incomming = 0;
    task = elim rhs.task [ none ↦ self.task | some t ↦ some (clone_task t) ];
  }

  -- `operator==` of edges; `use_count` gives the owners of an object.
  unfoldable pub edge_eq : (ℕ → ℕ) → Dag → Edge → Edge → Bool
  unfolding lock
  edge_eq use_count g lhs rhs =
      let same =
        str_eq (as_string lhs.uuid) (as_string rhs.uuid) && edge_status_eq lhs.status rhs.status in
      elim (lock g lhs.connection) [
        | none ↦ elim (lock g rhs.connection) [ none ↦ same | some b ↦ false ]
        | some a ↦ elim (lock g rhs.connection) [
          | none ↦ false
          | some b ↦
              let owners =
                λ (x : ℕ). use_count x + (if x == a then 1 else 0) + (if x == b then 1 else 0) in
              same && owners a == owners b
        ]
      ]

  -- `restablish_connections` of the vertex at `c`: new vertices, which the result owns, with an edge to
  -- each.
  unfoldable pub restablish_connections : Dag → ℕ → List Connection → Dag × List ℕ
  unfolding set_vertex push_edge add_incomming_edge clone_vertex
  restablish_connections g c [] = (g, [])
  restablish_connections g c (connection ∷ rest) =
      let other = g.next_addr in
      let made =
        set_vertex (record g { next_addr = suc other }) other
          (add_incomming_edge (clone_vertex (clone_vertex connection.vertex))) in
      let (g', ret) =
        restablish_connections
          (push_edge made c (record connection.edge { connection = some other })) c rest in
      (g', other ∷ ret)
