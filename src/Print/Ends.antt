-- ===== src/Print/Ends.antt =====
-- The stream operator of a DAG, which follows the edges.
use dag_scheduler.Base.{ℕ, suc, ◌≤◌, refl, arith, sum_over, le-sum_over}
use dag_scheduler.Externals.{Externals}
use dag_scheduler.Dag.{Dag}
use dag_scheduler.Dag.Keys.{IsRanked-of_IsAcyclic}
use dag_scheduler.Connect.Joins.{IsSound}
use dag_scheduler.Print.Depth.{Writes, bind-Writes, vertices-Writes}
use dag_scheduler.Print.{vertices_text, dag_text}

module _ ⦃env : Externals⦄ where
  -- The stream operator of a DAG writes each vertex with the vertices that its edges lead to, and so
  -- on. On a valid DAG with no cycle it ends: some depth of the calls is enough, and each greater one.
  pub dag_text-Writes :
      (g : Dag) → IsSound g → (depth : ℕ) × ((n : ℕ) → depth ≤ n → Writes (dag_text n g))
  unfolding dag_text
  dag_text-Writes g sound =
      let (rank, ranked) = IsRanked-of_IsAcyclic g sound.acyclic in
      let bound = suc (sum_over rank g.graph) in
      (
        bound,
        λ n enough.
            bind-Writes (vertices_text n g g.graph) _
              (vertices-Writes g rank ranked bound sound.valid.linked.links
                (λ u there. omega (arith, le-sum_over rank u g.graph there)) n g.graph (λ a m. m)
                enough)
              (λ t. (_, refl)),
      )
