-- ===== src/Dag/Valid.antt =====
-- The invariant of the graph of a DAG.
use dag_scheduler.Base.{[], ap, ◌∷◌, arith, List, ℕ, ◌<◌, ◌≡◌, true, contains, IsDistinct}
use dag_scheduler.Vertex.{Edge, size_mod}
use dag_scheduler.Dag.{Dag, edge_count}
use dag_scheduler.Dag.Degrees.{hits, in_edges, Arc, indegree, AreLinks}

-- Each vertex is owned once, each edge leads to a vertex of the graph, the counters of incoming edges
-- are right, and the edges are fewer than a size_t can count.
pub record IsLinked (g : Dag) : Type 0 where
  pub distinct : IsDistinct g.graph
  pub links : (u : ℕ) → contains g.graph u ≡ true → AreLinks g.graph (g.cell u).edges
  pub counted : (v : ℕ) → contains g.graph v ≡ true → (g.cell v).incomming ≡ indegree g v
  pub small : edge_count g < size_mod

-- Besides, no two vertices have one UUID, and the allocator gives new addresses.
pub record IsValid (g : Dag) : Type 0 where
  pub linked : IsLinked g
  pub keyed :
      (a b : ℕ)
      → contains g.graph a ≡ true
      → contains g.graph b ≡ true
      → (g.cell a).uuid ≡ (g.cell b).uuid
      → a ≡ b
  pub fresh : (a : ℕ) → contains g.graph a ≡ true → a < g.next_addr

AreLinks-target :
    (graph : List ℕ) (es : List Edge) (v : ℕ)
    → AreLinks graph es
    → 0 < in_edges v es
    → contains graph v ≡ true
AreLinks-target graph [] v links h = absurd (omega arith)
AreLinks-target graph (e ∷ es) v (link, links) h =
    let (b, leads, there) = link in
    ground (
      arith,
      leads,
      there,
      AreLinks-target graph es v links,
      ap (contains graph) {x = b} {y = v},
      ap (hits v) leads,
    )

pub Arc-target : (g : Dag) (u v : ℕ) → IsLinked g → Arc g u v → contains g.graph v ≡ true
Arc-target g u v valid arc = AreLinks-target g.graph (g.cell u).edges v (valid.links u arc.0) arc.1
