-- ===== src/Process/Linked.antt =====
-- The graph after the removal of a root in `process_dag`: its edges and counters.
use dag_scheduler.Base.{
  ◌⊎◌, ℕ, ◌+◌, ◌≡◌, refl, sym, ap, subst, ◌∙◌, true, false, not, List, [], ◌∷◌, ◌==◌, length,
  contains, IsDistinct, keep_if, contains-keep_if, IsDistinct-keep_if, sum_over, sum_over_eq,
  le-sum_over, arith, Bool-cases, inl, inr, some,
}
use dag_scheduler.Vertex.{Edge}
use dag_scheduler.Dag.{Dag, edge_count}
use dag_scheduler.Dag.Degrees.{
  hits, in_edges, indegree, AreLinks, IsRanked, in_edges_eq_zero, indegree-le-edge_count,
}
use dag_scheduler.Dag.Valid.{IsLinked}
use dag_scheduler.Remove.{cut_vertex}
use dag_scheduler.Process.Cut.{cut_vertex_other, sum_over-others}

-- Without the address `a`, which no edge of the list leads to.
AreLinks-others :
    (graph graph' : List ℕ) (es : List Edge) (a : ℕ)
    → ((b : ℕ) → contains graph b ≡ true → (b == a) ≡ false → contains graph' b ≡ true)
    → AreLinks graph es
    → in_edges a es ≡ 0
    → AreLinks graph' es
AreLinks-others graph graph' [] a others links none_to_a = tt
AreLinks-others graph graph' (e ∷ es) a others ((b, leads, there), links) none_to_a = (
  (b, leads, others b there (differs (Bool-cases (b == a)))),
  AreLinks-others graph graph' es a others links (omega (arith, none_to_a)),
)
  where
    hit : hits a e.connection ≡ hits a (some b)
    hit = ap (hits a) leads

    differs : ((b == a) ≡ true) ⊎ ((b == a) ≡ false) → (b == a) ≡ false
    differs (inl y) = absurd (omega (arith, none_to_a, hit, one_hit y))
      where
        one_hit : (b == a) ≡ true → hits a (some b) ≡ 1
        one_hit y = rw y refl
    differs (inr n) = n

module _ (g g' : Dag) (a : ℕ) (linked : IsLinked g) (there : contains g.graph a ≡ true)
    (root : (g.cell a).incomming ≡ 0) (graph_left : g'.graph ≡ keep_if (λ b. not (b == a)) g.graph)
    (cells : g'.cell ≡ (cut_vertex g a).cell) where
  in_old : (v : ℕ) → contains g'.graph v ≡ true → (contains g.graph v ≡ true) × ((v == a) ≡ false)
  in_old v m =
      ground (
        arith,
        ap (λ l. contains l v) graph_left,
        contains-keep_if (λ b. not (b == a)) g.graph v,
        m,
      )

  in_new : (v : ℕ) → contains g.graph v ≡ true → (v == a) ≡ false → contains g'.graph v ≡ true
  in_new v m n =
      ap (λ l. contains l v) graph_left
      ∙ contains-keep_if (λ b. not (b == a)) g.graph v
      ∙ ground (arith, m, n)

  no_edges_to : (u : ℕ) → contains g.graph u ≡ true → in_edges a (g.cell u).edges ≡ 0
  no_edges_to u m = in_edges_eq_zero g u a m (sym (linked.counted a there) ∙ root)

  pub other :
      (v : ℕ)
      → contains g.graph v ≡ true
      → (v == a) ≡ false
      → ((g'.cell v).edges ≡ (g.cell v).edges)
        × ((g'.cell v).incomming + in_edges v (g.cell a).edges ≡ (g.cell v).incomming)
  unfolding indegree
  other v m n =
      let below = le-sum_over (λ u. in_edges v (g.cell u).edges) a g.graph there in
      let (edges, incomming) =
        cut_vertex_other g a v (ground (arith, n)) (linked.links a there)
          (omega (arith, below, linked.counted v m))
          (omega (arith, linked.counted v m, indegree-le-edge_count g v, linked.small)) in
      (
        ap (λ c. (c v).edges) cells ∙ edges,
        ap (λ c. (c v).incomming + in_edges v (g.cell a).edges) cells ∙ incomming,
      )

  -- A sum over the edges of the vertices.
  pub sum_left :
      (f : List Edge → ℕ)
      → sum_over (λ u. f (g'.cell u).edges) g'.graph + f (g.cell a).edges
        ≡ sum_over (λ u. f (g.cell u).edges) g.graph
  sum_left f = omega (
    arith,
    ap (sum_over (λ u. f (g'.cell u).edges)) graph_left,
    sum_over_eq (λ u. f (g'.cell u).edges) (λ u. f (g.cell u).edges)
        (keep_if (λ b. not (b == a)) g.graph)
        (λ u m.
          let (old, n) = in_old u (ap (λ l. contains l u) graph_left ∙ m) in
          ap f (other u old n).0),
    sum_over-others (λ u. f (g.cell u).edges) g.graph a linked.distinct there,
  )

  pub left-IsLinked : IsLinked g'
  unfolding indegree edge_count
  left-IsLinked = record {
    distinct =
        subst IsDistinct (sym graph_left)
          (IsDistinct-keep_if (λ b. not (b == a)) g.graph linked.distinct);
    links = λ u m.
        let (old, n) = in_old u m in
        subst (AreLinks g'.graph) (sym (other u old n).0) (
          AreLinks-others g.graph g'.graph (g.cell u).edges a in_new (linked.links u old)
            (no_edges_to u old));
    counted = λ v m.
        let (old, n) = in_old v m in
        omega (arith, (other v old n).1, linked.counted v old, sum_left (in_edges v));
    small = omega (arith, sum_left length, linked.small);
  }

  pub left-IsRanked : (rank : ℕ → ℕ) → IsRanked rank g → IsRanked rank g'
  left-IsRanked rank ranked u v (m, some_edge) =
      let (old, n) = in_old u m in
      ranked u v (old, omega (arith, some_edge, ap (in_edges v) (other u old n).0))

  pub left_root :
      (b : ℕ) → contains g'.graph b ≡ true → (g.cell b).incomming ≡ 0 → (g'.cell b).incomming ≡ 0
  left_root b m z = let (old, n) = in_old b m in omega (arith, (other b old n).1, z)
