-- ===== src/Dag/Grow.antt =====
-- A DAG that gains edges.
use dag_scheduler.Base.{◌∙◌, refl, inl, inr, arith, ◌+◌, ◌≤◌, ◌⊎◌, ◌↔◌, ℕ, ◌≡◌}
use dag_scheduler.Vertex.{payload}
use dag_scheduler.Dag.{Dag, edge_count}
use dag_scheduler.Dag.Degrees.{Arc}
use dag_scheduler.Dag.Valid.{IsValid}

-- A state in which edges were added, `new u v` those from `u` to `v`, and nothing else changed.
pub record Grows (g g' : Dag) (new : ℕ → ℕ → Type 0) (n : ℕ) : Type 0 where
  pub valid : IsValid g'
  pub same_graph : g'.graph ≡ g.graph
  pub same_payload : (u : ℕ) → payload (g'.cell u) ≡ payload (g.cell u)
  pub arcs : (u v : ℕ) → Arc g' u v ↔ (Arc g u v ⊎ new u v)
  pub count : edge_count g' ≤ edge_count g + n

module _ (g : Dag) where
  pub Grows-refl : IsValid g → Grows g g (λ u v. ⊥) 0
  Grows-refl valid = record {
    valid = valid;
    same_graph = refl;
    same_payload = λ u. refl;
    arcs = λ u v. (inl, λ s. elim s [ inl a ↦ a | inr b ↦ absurd b ]);
    count = omega arith;
  }

pub Grows-trans :
    (g h k : Dag) (new more : ℕ → ℕ → Type 0) (n m : ℕ)
    → Grows g h new n
    → Grows h k more m
    → Grows g k (λ u v. new u v ⊎ more u v) (n + m)
Grows-trans g h k new more n m first second = record {
  valid = second.valid;
  same_graph = second.same_graph ∙ first.same_graph;
  same_payload = λ u. second.same_payload u ∙ first.same_payload u;
  arcs = λ u v. grind (arith, first.arcs u v, second.arcs u v);
  count = omega (arith, first.count, second.count);
}

-- The same edges, described otherwise.
pub Grows-map :
    (g h : Dag) (new more : ℕ → ℕ → Type 0) (n m : ℕ)
    → ((u v : ℕ) → new u v ↔ more u v)
    → n ≤ m
    → Grows g h new n
    → Grows g h more m
Grows-map g h new more n m same le first = record {
  valid = first.valid;
  same_graph = first.same_graph;
  same_payload = first.same_payload;
  arcs = λ u v. grind (arith, first.arcs u v, same u v);
  count = omega (arith, first.count);
}
