-- ===== src/Clone.antt =====
-- The copy constructor of DAG in lib/dag.cxx, with `clone_all_connections` of lib/dag_vertex.cxx.
pub mod Copy
pub mod Edges
pub mod Pairs
pub mod Correct
pub mod Assign
pub mod Assigned
pub mod Dangling
use dag_scheduler.Base.{◌>>=◌, if◌then◌else◌, List, Outcome, ℕ, [], ◌∷◌, none, some, ok, fault}
use dag_scheduler.Externals.{Externals}
use dag_scheduler.Uuid.{uuid_eq}
use dag_scheduler.Vertex.{Edge, Vertex, clone_vertex}
use dag_scheduler.Dag.{Dag, lock, add_vertex, find_vertex, connect_vertex}

-- `DAGEdge::clone`: the copy is not connected.
unfoldable pub clone_edge : Edge → Edge
clone_edge e = record e { connection = none }

-- `DAGVertex_connection`
pub record Connection : Type 0 where
  pub edge : Edge
  pub vertex : Vertex

module _ ⦃env : Externals⦄ where
  unfoldable pub clone_all_connections : Dag → List Edge → Outcome (List Connection)
  unfolding lock
  clone_all_connections o [] = ok []
  clone_all_connections o (e ∷ es) =
      let rest = clone_all_connections o es in
      elim (lock o e.connection) [
        | none ↦ fault
        | some a ↦ rest >>= λ cs.
            ok (record { edge = clone_edge e; vertex = clone_vertex (o.cell a) } ∷ cs)
      ]

  -- The loop of `clone_connections`.
  unfoldable pub connect_found : ℕ → Dag → List Connection → Outcome Dag
  connect_found to g [] = ok g
  connect_found to g (c ∷ cs) = elim (find_vertex g c.vertex) [
    | none ↦ fault
    | some b ↦ connect_found to (connect_vertex g to b).0 cs
  ]

  -- `from` is a vertex of `o` and `to` one of `g`.
  unfoldable pub clone_connections : Dag → ℕ → Dag → ℕ → Outcome Dag
  unfolding clone_all_connections connect_found
  clone_connections o from g to =
      if uuid_eq (o.cell from).uuid (g.cell to).uuid
      then clone_all_connections o (o.cell from).edges >>= connect_found to g
      else fault

  unfoldable pub copy_vertices : Dag → Dag → List ℕ → Dag
  copy_vertices o g [] = g
  copy_vertices o g (a ∷ rest) = copy_vertices o (add_vertex g (clone_vertex (o.cell a))).0 rest

  unfoldable pub connect_copies : Dag → Dag → List ℕ → List ℕ → Outcome Dag
  unfolding clone_connections
  connect_copies o g froms [] = ok g
  connect_copies o g [] (to ∷ tos) = fault
  connect_copies o g (from ∷ froms) (to ∷ tos) =
      clone_connections o from g to >>= λ g'. connect_copies o g' froms tos

  -- The new objects stand on the heap of `o`, at new addresses.
  unfoldable pub clone : Dag → Outcome Dag
  unfolding copy_vertices connect_copies
  clone o =
      let empty = record o { graph = []; title = ""; json_config = some "null" } in
      let copied = copy_vertices o empty o.graph in
      connect_copies o copied o.graph copied.graph >>= λ g. elim o.json_config [
        | none ↦ fault
        | some text ↦ ok (record g { title = o.title; json_config = some text })
      ]
