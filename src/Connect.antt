-- ===== src/Connect.antt =====
-- lib/dag.cxx: the edges that a DAG lets in, and the questions about its edges.
pub mod Cycles
pub mod Joins
pub mod Keeps
pub mod Reach
pub mod Labels
pub mod Missing
pub mod Joined
pub mod All
pub mod Added
use Prim.Native.String.{◌++◌}
use dag_scheduler.Base.{
  length, Option, ℕ, String, Bool, true, false, not, ◌&&◌, List, [], ◌∷◌, none, some, if◌then◌else◌,
  contains, Outcome, ok, throws, fault, ◌>>=◌, ◌==◌,
}
use dag_scheduler.Externals.{Externals}
use dag_scheduler.Vertex.{Edge, Vertex, clone_vertex}
use dag_scheduler.Dag.{
  Dag, lock, find_vertex, find_vertex_by_uuid, find_all_verticies_with_label,
  contains_vertex_by_label, add_vertex, connect_vertex,
}
use dag_scheduler.Sort.{dag_topological_sort}
use dag_scheduler.Clone.{clone}
use dag_scheduler.Print.{vertex_text}

module _ ⦃env : Externals⦄ where
  -- The end of `connection_would_make_cyclic`, with what the two searches in the copy found. The copy
  -- is freed; the UUIDs that were drawn for it are gone.
  unfoldable pub try_found : Dag → Dag → Option ℕ → Option ℕ → Outcome (Dag × Bool)
  unfolding connect_vertex dag_topological_sort
  try_found g c2 none v2_found = fault
  try_found g c2 (some a) none = fault
  try_found g c2 (some a) (some b) =
      dag_topological_sort (connect_vertex c2 a b).0 >>= λ (c3, failed, _).
      ok (record g { draws = c3.draws }, failed)

  unfoldable pub try_connection : Dag → Dag → Vertex → Vertex → Outcome (Dag × Bool)
  unfolding add_vertex find_vertex try_found
  try_connection g graph_clone v1 v2 =
      let (c1, v1_clone, _) = add_vertex graph_clone (clone_vertex v1) in
      let (c2, v2_clone, _) = add_vertex c1 (clone_vertex v2) in
      try_found g c2 (find_vertex c2 v1_clone) (find_vertex c2 v2_clone)

  unfoldable pub connection_would_make_cyclic : Dag → Vertex → Vertex → Outcome (Dag × Bool)
  unfolding clone try_connection
  connection_would_make_cyclic g v1 v2 =
      clone g >>= λ graph_clone. try_connection g graph_clone v1 v2

  unfoldable pub connection_would_make_cyclic_by_uuid : Dag → ℕ → ℕ → Outcome (Dag × Bool)
  unfolding connection_would_make_cyclic
  connection_would_make_cyclic_by_uuid g u1 u2 = elim (find_vertex_by_uuid g u1) [
    | none ↦ fault
    | some a ↦ elim (find_vertex_by_uuid g u2) [
      | none ↦ fault
      | some b ↦ connection_would_make_cyclic g (g.cell a) (g.cell b)
    ]
  ]

  -- The inner loop of `connection_would_make_cyclic_by_label`, for the vertex at `v`: the result is
  -- `ret`, which is true on the way in, and stays true if the loop is not left early.
  unfoldable pub none_cyclic : Dag → ℕ → List ℕ → Outcome (Dag × Bool)
  unfolding connection_would_make_cyclic
  none_cyclic g v [] = ok (g, true)
  none_cyclic g v (u ∷ us) =
      connection_would_make_cyclic g (g.cell v) (g.cell u) >>= λ (g', cyclic).
      let rest = none_cyclic g' v us in if cyclic then ok (g', false) else rest

  unfoldable pub none_cyclic_from : Dag → List ℕ → List ℕ → Outcome (Dag × Bool)
  unfolding none_cyclic
  none_cyclic_from g [] us = ok (g, true)
  none_cyclic_from g (v ∷ vs) us = none_cyclic g v us >>= λ (g', good).
      let rest = none_cyclic_from g' vs us in if good then rest else ok (g', false)

  unfoldable pub connection_would_make_cyclic_by_label :
      Dag → String → String → Outcome (Dag × Bool)
  unfolding none_cyclic_from
  connection_would_make_cyclic_by_label g l1 l2 =
      none_cyclic_from g (find_all_verticies_with_label g l1) (find_all_verticies_with_label g l2)

  -- The text of the exception. A vertex is written with those that its edges lead to, and so on: if
  -- this ends, then at a depth of the number of vertices.
  unfoldable pub error_str : Dag → ℕ → ℕ → Outcome String
  unfolding vertex_text
  error_str g a b = vertex_text (length g.graph) g a >>= λ first.
      vertex_text (length g.graph) g b >>= λ second.
      ok ("Connecting \n" ++ first ++ "\nto \n" ++ second ++ "\nwould cause a cycle.")

  -- The body of `connect`, with what the two searches found. The vertices are looked up again in
  -- `graph_`. The exception is thrown once its text is written.
  unfoldable pub connect_ends : Dag → Option ℕ → Option ℕ → Outcome (Dag × Bool)
  unfolding connection_would_make_cyclic error_str
  connect_ends g none v2_tmp = ok (g, false)
  connect_ends g (some a) none = ok (g, false)
  connect_ends g (some a) (some b) =
      let tried = connection_would_make_cyclic g (g.cell a) (g.cell b) >>= λ (g', cyclic).
      let connected = (connect_vertex g' a b).0 in
      let refused = error_str g' a b >>= λ text. throws in
      if cyclic then refused else ok (connected, true) in
      if contains g.graph a && contains g.graph b then tried else ok (g, false)

  unfoldable pub connect : Dag → Vertex → Vertex → Outcome (Dag × Bool)
  unfolding connect_ends
  connect g v1 v2 = connect_ends g (find_vertex g v1) (find_vertex g v2)

  unfoldable pub connect_by_uuid : Dag → ℕ → ℕ → Outcome (Dag × Bool)
  unfolding connect
  connect_by_uuid g u1 u2 = elim (find_vertex_by_uuid g u1) [
    | none ↦ fault
    | some a ↦ elim (find_vertex_by_uuid g u2) [
      | none ↦ fault
      | some b ↦ connect g (g.cell a) (g.cell b)
    ]
  ]

  -- The inner loop of `connect_all_by_label`; `ret` is the result so far.
  unfoldable pub connect_to_all : Dag → Bool → ℕ → List ℕ → Outcome (Dag × Bool)
  unfolding connect
  connect_to_all g ret v [] = ok (g, ret)
  connect_to_all g ret v (u ∷ us) = connect g (g.cell v) (g.cell u) >>= λ (g', connected).
      connect_to_all g' (ret && connected) v us

  unfoldable pub connect_all : Dag → Bool → List ℕ → List ℕ → Outcome (Dag × Bool)
  unfolding connect_to_all
  connect_all g ret [] us = ok (g, ret)
  connect_all g ret (v ∷ vs) us =
      connect_to_all g ret v us >>= λ (g', ret'). connect_all g' ret' vs us

  unfoldable pub connect_all_by_label : Dag → String → String → Outcome (Dag × Bool)
  unfolding connect_all
  connect_all_by_label g l1 l2 =
      connect_all g true (find_all_verticies_with_label g l1) (find_all_verticies_with_label g l2)

  unfoldable pub add_and_connect : Dag → Vertex → Vertex → Outcome (Dag × Bool)
  unfolding connect
  add_and_connect g v1 v2 =
      let (g1, _, _) = add_vertex g v1 in
      let (g2, _, _) = add_vertex g1 v2 in
      elim (find_vertex g2 (clone_vertex v1)) [
        | none ↦ fault
        | some a ↦ elim (find_vertex g2 (clone_vertex v2)) [
          | none ↦ fault
          | some b ↦ connect g2 (g2.cell a) (g2.cell b)
        ]
      ]

  -- The visitor that `are_connected` gives to `visit_all_edges`, with `b` the address of `v2`.
  unfoldable pub leads_to : Dag → ℕ → Bool → List Edge → Outcome Bool
  unfolding lock
  leads_to g b ret [] = ok ret
  leads_to g b ret (e ∷ es) = elim (lock g e.connection) [
    | none ↦ fault
    | some c ↦ leads_to g b (if c == b then true else ret) es
  ]

  unfoldable pub are_connected : Dag → Vertex → Vertex → Outcome Bool
  unfolding leads_to
  are_connected g v1 v2 = elim (find_vertex g v2) [
    | none ↦ fault
    | some b ↦ elim (find_vertex g v1) [
      | none ↦ fault
      | some a ↦ leads_to g b false (g.cell a).edges
    ]
  ]

  unfoldable pub are_connected_by_uuid : Dag → ℕ → ℕ → Outcome Bool
  unfolding are_connected
  are_connected_by_uuid g u1 u2 = elim (find_vertex_by_uuid g u1) [
    | none ↦ fault
    | some a ↦ elim (find_vertex_by_uuid g u2) [
      | none ↦ fault
      | some b ↦ are_connected g (g.cell a) (g.cell b)
    ]
  ]

  -- The inner loop of `all_are_connected_by_label`.
  unfoldable pub connected_to_all : Dag → Bool → ℕ → List ℕ → Outcome Bool
  unfolding are_connected
  connected_to_all g ret v [] = ok ret
  connected_to_all g ret v (u ∷ us) =
      are_connected g (g.cell v) (g.cell u) >>= λ r. connected_to_all g (ret && r) v us

  unfoldable pub all_connected : Dag → Bool → List ℕ → List ℕ → Outcome Bool
  unfolding connected_to_all
  all_connected g ret [] us = ok ret
  all_connected g ret (v ∷ vs) us = connected_to_all g ret v us >>= λ r. all_connected g r vs us

  unfoldable pub all_are_connected_by_label : Dag → String → String → Outcome Bool
  unfolding all_connected contains_vertex_by_label
  all_are_connected_by_label g l1 l2 =
      all_connected g (contains_vertex_by_label g l1 && contains_vertex_by_label g l2)
        (find_all_verticies_with_label g l1) (find_all_verticies_with_label g l2)
