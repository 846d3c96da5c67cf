-- ===== src/Tests/Refining.antt =====
-- A witness for the theorem on the graph that a DAG stands for.
use dag_scheduler.Base.{
  ℕ, ◌≡◌, refl, ap, ◌∙◌, Bool, false, List, [], ◌∷◌, none, Outcome, ok, inl, inr, arith,
  ok-injective,
}
use dag_scheduler.Vertex.{Vertex, make_vertex}
use dag_scheduler.Dag.{make_dag}
use dag_scheduler.Graph.{
  Graph, empty_graph, Call, adds, connects, removes, Promises, Behaves, AllFit, call_all,
}
use dag_scheduler.Graph.Refines.{Ends, call_all-Ends}
use dag_scheduler.Tests.{sample}

abbrev a : Vertex
a = make_vertex "A" none 1

abbrev b : Vertex
b = make_vertex "B" none 2

abbrev calls : List Call
calls = adds a ∷ adds b ∷ connects a b ∷ adds a ∷ removes 1 ∷ []

same_graph :
    {G H : Graph} {c d : Bool} → ◌≡◌ {A = Outcome (Graph × Bool)} (ok (G, c)) (ok (H, d)) → G ≡ H
same_graph e = ap (λ (p : Graph × Bool). p.0) (ok-injective e)

no_arcs_to_1 :
    (G G' : Graph) (d : Bool)
    → ((x : ℕ) → G.arc x 1 ≡ false)
    → Promises G (connects a b) (ok (G', d))
    → (x : ℕ) → G'.arc x 1 ≡ false
unfolding make_vertex
no_arcs_to_1 G G' d free (inl (missing, e)) x =
    ap (λ (H : Graph). H.arc x 1) (same_graph e) ∙ free x
no_arcs_to_1 G G' d free (inr (inl (both, acyclic, e))) x =
    ap (λ (H : Graph). H.arc x 1) (same_graph e) ∙ ground (arith, free x)
no_arcs_to_1 G G' d free (inr (inr (both, bad, e))) x = cc

calls-AllFit : AllFit empty_graph calls
unfolding make_vertex
calls-AllFit = (
  (refl, refl),
  λ G1 b1 p1. (
    (refl, refl),
    λ G2 b2 p2. (
      tt,
      λ G3 b3 p3. (
        (refl, refl),
        λ G4 b4 p4. (
          λ x.
              ap (λ (H : Graph). H.arc x 1) (same_graph p4)
              ∙ no_arcs_to_1 G2 G3 b3
                  (λ y.
                    ap (λ (H : Graph). H.arc y 1) (same_graph p2)
                    ∙ ap (λ (H : Graph). H.arc y 1) (same_graph p1))
                  p3 x,
          λ G5 b5 p5. tt,
        ),
      ),
    ),
  ),
)

refines_calls :
    (r : Outcome (Graph × List Bool)) × Behaves empty_graph calls r
    × Ends r (call_all (make_dag "test" "null") calls)
refines_calls = call_all-Ends "test" "null" calls calls-AllFit (omega arith)
