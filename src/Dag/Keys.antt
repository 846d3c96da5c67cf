-- ===== src/Dag/Keys.antt =====
-- A DAG seen from outside: which UUIDs it has, and between which of them there is an edge. Addresses
-- do not show.
use dag_scheduler.Base.{Option, none, some, ap, arith, refl, ◌<◌, List, ℕ, ◌≡◌, true, contains}
use dag_scheduler.Externals.{Externals}
use dag_scheduler.Dag.{Dag, find_vertex_by_uuid}
use dag_scheduler.Dag.Degrees.{in_edges, IsRanked}
use dag_scheduler.Dag.Valid.{IsValid, Arc-target}
use dag_scheduler.Dag.Find.{find_vertex_by_uuid_self}

abbrev pub Has : Dag → ℕ → Type 0
Has g x = (a : ℕ) × (contains g.graph a ≡ true) × ((g.cell a).uuid ≡ x)

-- An edge from one of the vertices of the list.
abbrev pub KeyArcFrom : Dag → List ℕ → ℕ → ℕ → Type 0
KeyArcFrom g l x y =
    (a : ℕ) × (c : ℕ) × (contains l a ≡ true)
    × (0 < in_edges c (g.cell a).edges)
    × ((g.cell a).uuid ≡ x)
    × ((g.cell c).uuid ≡ y)

abbrev pub KeyArc : Dag → ℕ → ℕ → Type 0
KeyArc g = KeyArcFrom g g.graph

-- `rank` grows along each pair of the relation: the relation has no cycle.
abbrev pub Ranks : (ℕ → ℕ) → (ℕ → ℕ → Type 0) → Type 0
Ranks rank R = (x y : ℕ) → R x y → rank x < rank y

abbrev pub IsAcyclic : (ℕ → ℕ → Type 0) → Type 0
IsAcyclic R = (rank : ℕ → ℕ) × Ranks rank R

abbrev rank_at : (ℕ → ℕ) → Option ℕ → ℕ
rank_at rank none = 0
rank_at rank (some a) = rank a

module _ ⦃env : Externals⦄ (g : Dag) (valid : IsValid g) where
  -- A ranking of the addresses is as good as one of the UUIDs.
  pub IsAcyclic_of_IsRanked : (rank : ℕ → ℕ) → IsRanked rank g → IsAcyclic (KeyArc g)
  IsAcyclic_of_IsRanked rank ranked = (rank_of, λ x y arc. grows x y arc)
    where
      rank_of : ℕ → ℕ
      rank_of x = rank_at rank (find_vertex_by_uuid g x)

      rank_found : (a : ℕ) → contains g.graph a ≡ true → rank_of (g.cell a).uuid ≡ rank a
      rank_found a m = ap (rank_at rank) (find_vertex_by_uuid_self g a valid m)

      grows : (x y : ℕ) → KeyArc g x y → rank_of x < rank_of y
      grows x y (a, c, m, some_edge, from, to) =
          let c_there = Arc-target g a c valid.linked (m, some_edge) in
          omega (
            arith,
            ap rank_of from,
            ap rank_of to,
            rank_found a m,
            rank_found c c_there,
            ranked a c (m, some_edge),
          )

pub IsRanked-of_IsAcyclic : (g : Dag) → IsAcyclic (KeyArc g) → (rank : ℕ → ℕ) × IsRanked rank g
IsRanked-of_IsAcyclic g (rank, ranks) = (
  λ a. rank (g.cell a).uuid,
  λ u v arc. ranks (g.cell u).uuid (g.cell v).uuid (u, v, arc.0, arc.1, refl, refl),
)

pub IsAcyclic_of_iff :
    (R S : ℕ → ℕ → Type 0) → ((x y : ℕ) → R x y → S x y) → IsAcyclic S → IsAcyclic R
IsAcyclic_of_iff R S implies (rank, ranks) = (rank, λ x y r. ranks x y (implies x y r))
