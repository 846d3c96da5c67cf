-- ===== src/Dag.antt =====
-- lib/dag.cxx, and the members of lib/dag_edge.cxx and lib/dag_vertex.cxx that follow a pointer: the
-- objects of one DAG on a heap.
pub mod Degrees
pub mod Valid
pub mod Find
pub mod Grow
pub mod Seek
pub mod Link
pub mod Append
pub mod Keys
pub mod Add
pub mod Members
pub mod Compare
use dag_scheduler.Base.{
  ℕ, suc, String, Bool, true, false, ◌||◌, List, [], ◌∷◌, ◌++◌, Option, none, some, ◌==◌,
  if◌then◌else◌, length, contains, set, str_eq, sum_over, keep_if,
}
use dag_scheduler.Externals.{Externals}
use dag_scheduler.Uuid.{uuid_eq}
use dag_scheduler.Vertex.{
  Edge, Vertex, make_edge, moved_from, add_incomming_edge, sub_incomming_edge, vertex_eq,
}

-- `graph` is `graph_`, the addresses in the vector of shared_ptrs. It owns the vertices, so a weak_ptr
-- is expired when its address is not there. `cell` gives the object at an address; `next_addr` is the
-- next address of the allocator, and `draws` counts the calls of `uuid_generate`. A JSON document is
-- the text that the Writer gives for it.
pub record Dag : Type 0 where
  pub graph : List ℕ
  pub cell : ℕ → Vertex
  pub next_addr : ℕ
  pub draws : ℕ
  pub title : String
  pub json_config : Option String

unfoldable pub set_vertex : Dag → ℕ → Vertex → Dag
set_vertex g a v = record g { cell = λ b. if a == b then v else g.cell b }

-- `weak_ptr::lock`; the pointer is expired if the result is `none`.
unfoldable pub lock : Dag → Option ℕ → Option ℕ
lock g none = none
lock g (some a) = if contains g.graph a then some a else none

unfoldable pub decrement : Dag → Option ℕ → Dag
unfolding set_vertex
decrement g none = g
decrement g (some a) = set_vertex g a (sub_incomming_edge (g.cell a))

unfoldable pub increment : Dag → Option ℕ → Dag
unfolding set_vertex
increment g none = g
increment g (some a) = set_vertex g a (add_incomming_edge (g.cell a))

-- `DAGEdge::connect_to`: the vertex that the edge leaves loses an incoming edge, and the new one, if
-- it is not null, gains one. The edge is returned, for its owner to store.
unfoldable pub connect_to : Dag → Edge → Option ℕ → Dag × Edge
unfolding decrement increment lock
connect_to g e v =
    let released = decrement g (lock g e.connection) in
    (increment released (lock released v), record e { connection = v })

-- Writes an edge back to its place in `edges_`.
unfoldable pub put_edge : Dag → ℕ → ℕ → Edge → Dag
unfolding set_vertex
put_edge g c j e = let v = g.cell c in set_vertex g c (record v { edges = set v.edges j e })

-- `edges_.push_back`
unfoldable pub push_edge : Dag → ℕ → Edge → Dag
unfolding set_vertex
push_edge g c e = let v = g.cell c in set_vertex g c (record v { edges = v.edges ++ e ∷ [] })

unfoldable pub vertex_count : Dag → ℕ
vertex_count g = length g.graph

unfoldable pub edge_count : Dag → ℕ
edge_count g = sum_over (λ a. length (g.cell a).edges) g.graph

module _ ⦃env : Externals⦄ where
  unfoldable pub is_a_connection_to : Dag → Edge → Vertex → Bool
  unfolding lock
  is_a_connection_to g e v = elim (lock g e.connection) [
    | none ↦ false
    | some a ↦ vertex_eq v (g.cell a)
  ]

  unfoldable pub contains_connection_to : Dag → List Edge → Vertex → Bool
  unfolding is_a_connection_to
  contains_connection_to g [] v = false
  contains_connection_to g (e ∷ es) v = is_a_connection_to g e v || contains_connection_to g es v

  -- `DAGVertex::connect` on the vertex at `c`, with the shared_ptr at `other`.
  unfoldable pub connect_vertex : Dag → ℕ → ℕ → Dag × Bool
  unfolding connect_to push_edge make_edge
  connect_vertex g c other =
      if contains_connection_to g (g.cell c).edges (g.cell other)
      then (g, false)
      else let drawn = record g { draws = suc g.draws } in
        let (g', e) = connect_to drawn (make_edge (env.generate g.draws)) (some other) in
        (push_edge g' c e, true)

  -- The first address of the list whose vertex has the UUID.
  unfoldable pub find_in : Dag → ℕ → List ℕ → Option ℕ
  find_in g u [] = none
  find_in g u (a ∷ rest) = if uuid_eq u (g.cell a).uuid then some a else find_in g u rest

  unfoldable pub find_vertex_by_uuid : Dag → ℕ → Option ℕ
  unfolding find_in
  find_vertex_by_uuid g u = find_in g u g.graph

  unfoldable pub find_vertex : Dag → Vertex → Option ℕ
  unfolding find_vertex_by_uuid
  find_vertex g v = find_vertex_by_uuid g v.uuid

  unfoldable pub contains_vertex : Dag → Vertex → Bool
  unfolding find_vertex
  contains_vertex g v = elim (find_vertex g v) [ none ↦ false | some a ↦ true ]

  unfoldable pub contains_vertex_by_uuid : Dag → ℕ → Bool
  unfolding find_vertex_by_uuid
  contains_vertex_by_uuid g u = elim (find_vertex_by_uuid g u) [ none ↦ false | some a ↦ true ]

  -- The result says what is left of the argument: an rvalue that is moved from if it was added.
  unfoldable pub add_vertex : Dag → Vertex → Dag × Vertex × Bool
  unfolding set_vertex moved_from
  add_vertex g v = if contains_vertex g v then (g, v, false) else (
    record g {
      graph = g.graph ++ g.next_addr ∷ [];
      cell = λ b. if g.next_addr == b then v else g.cell b;
      next_addr = suc g.next_addr;
    },
    moved_from,
    true,
  )

unfoldable pub find_all_verticies_with_label : Dag → String → List ℕ
find_all_verticies_with_label g l = keep_if (λ a. str_eq (g.cell a).label l) g.graph

unfoldable pub contains_vertex_by_label : Dag → String → Bool
unfolding find_all_verticies_with_label
contains_vertex_by_label g l = elim (find_all_verticies_with_label g l) [ [] ↦ false | _ ↦ true ]

-- The constructors: no vertices, and the title and the document of the argument, the empty title and
-- a null document where it has none.
unfoldable pub make_dag : String → String → Dag
unfolding moved_from
make_dag title json = record {
  graph = [];
  cell = λ _. moved_from;
  next_addr = 0;
  draws = 0;
  title = title;
  json_config = some json;
}

unfoldable pub reset : Dag → Dag
reset g = record g { graph = [] }
