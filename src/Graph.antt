-- ===== src/Graph.antt =====
-- What a DAG of lib/dag.cxx promises its users: a set of UUIDs with a relation that has no cycle,
-- without addresses, counters, weak pointers and copies.
pub mod Removes
pub mod Adds
pub mod Connects
pub mod Drops
pub mod Refines
use dag_scheduler.Base.{
  ℕ, ◌≡◌, ◌⊎◌, Bool, true, false, not, ◌&&◌, ◌||◌, ◌==◌, List, [], ◌∷◌, Outcome, ok, throws, fault,
  out_of_fuel, ◌>>=◌,
}
use dag_scheduler.Externals.{Externals}
use dag_scheduler.Vertex.{Vertex}
use dag_scheduler.Dag.{Dag, add_vertex, reset}
use dag_scheduler.Dag.Keys.{IsAcyclic}
use dag_scheduler.Connect.{connect}
use dag_scheduler.Remove.{remove_vertex_by_uuid}

pub record Graph : Type 0 where
  pub has : ℕ → Bool
  pub arc : ℕ → ℕ → Bool

abbrev pub empty_graph : Graph
empty_graph = record { has = λ x. false; arc = λ x y. false }

abbrev pub insert : Graph → ℕ → Graph
insert G x = record G { has = λ y. G.has y || y == x }

abbrev pub join : Graph → ℕ → ℕ → Graph
join G x y = record G { arc = λ z w. G.arc z w || z == x && w == y }

abbrev pub without : Graph → ℕ → Graph
without G x = record { has = λ y. G.has y && not (y == x); arc = λ y z. G.arc y z && not (y == x) }

abbrev pub Edges : Graph → ℕ → ℕ → Type 0
Edges G x y = G.arc x y ≡ true

-- The calls of a user: `add_vertex`, `connect`, `remove_vertex_by_uuid` and `reset`.
pub data Call : Type 0 where
  adds : Vertex → Call
  connects : Vertex → Vertex → Call
  removes : ℕ → Call
  resets : Call

-- What a call does to the graph and what it returns, `true` for `reset`, which returns nothing.
abbrev pub Promises : Graph → Call → Outcome (Graph × Bool) → Type 0
Promises G (adds v) r = r ≡ ok (insert G v.uuid, not (G.has v.uuid))
Promises G (connects v w) r =
    (((G.has v.uuid && G.has w.uuid) ≡ false) × (r ≡ ok (G, false)))
    ⊎ (((G.has v.uuid && G.has w.uuid) ≡ true)
        × IsAcyclic (Edges (join G v.uuid w.uuid))
        × (r ≡ ok (join G v.uuid w.uuid, true)))
    ⊎ (((G.has v.uuid && G.has w.uuid) ≡ true)
        × (¬ IsAcyclic (Edges (join G v.uuid w.uuid)))
        × (r ≡ throws))
Promises G (removes id) r = r ≡ ok (without G id, G.has id)
Promises G resets r = r ≡ ok (empty_graph, true)

-- A run of calls ends at its end, or at the first call that throws.
abbrev pub Behaves : Graph → List Call → Outcome (Graph × List Bool) → Type 0
Behaves G [] r = r ≡ ok (G, [])
Behaves G (c ∷ cs) r =
    (Promises G c throws × (r ≡ throws))
    ⊎ ((G' : Graph) × (b : Bool) × (rest : Outcome (Graph × List Bool)) × Promises G c (ok (G', b))
        × Behaves G' cs rest
        × (r ≡ ◌>>=◌ {B = Graph × List Bool} rest (λ (H, bs). ok (H, b ∷ bs))))

-- A vertex comes as its constructors make it, and a vertex is removed when no edge leads to it.
abbrev pub Fits : Graph → Call → Type 0
Fits G (adds v) = (v.edges ≡ []) × (v.incomming ≡ 0)
Fits G (connects v w) = Unit
Fits G (removes id) = (x : ℕ) → G.arc x id ≡ false
Fits G resets = Unit

abbrev pub AllFit : Graph → List Call → Type 0
AllFit G [] = Unit
AllFit G (c ∷ cs) = Fits G c × ((G' : Graph) (b : Bool) → Promises G c (ok (G', b)) → AllFit G' cs)

module _ ⦃env : Externals⦄ where
  unfoldable pub call : Dag → Call → Outcome (Dag × Bool)
  call g (adds v) = let (g', moved, ret) = add_vertex g v in ok (g', ret)
  call g (connects v w) = connect g v w
  call g (removes id) = ok (remove_vertex_by_uuid g id)
  call g resets = ok (reset g, true)

  unfoldable pub call_all : Dag → List Call → Outcome (Dag × List Bool)
  unfolding call
  call_all g [] = ok (g, [])
  call_all g (c ∷ cs) = call g c >>= λ (g', b). call_all g' cs >>= λ (g'', bs). ok (g'', b ∷ bs)
