-- ===== src/Sort/Visit.antt =====
-- `curr->visit_all_edges` in the topological sort: all edges of one vertex.
use dag_scheduler.Base.{
  length-append, refl, ◌∙◌, get_elem?, ap, sym, subst, get_elem?-middle, arith, [], ok,
}
use mathlib.Core.List.{append_assoc}
use dag_scheduler.Base.{
  suc, some, length, ◌∷◌, true, ◌++◌, contains, Outcome, IsDistinct, ◌≢◌, List, ℕ, ok, ◌≡◌,
}
use dag_scheduler.Vertex.{payload, Edge}
use dag_scheduler.Dag.{Dag}
use dag_scheduler.Dag.Degrees.{in_edges, AreLinks, in_edges-append}
use dag_scheduler.Sort.{visit_edges}
use dag_scheduler.Sort.Step.{payload-visited, IsSorting, visited, queued, cut, visit_edge_lem}
use dag_scheduler.Sort.Step

-- What the visit of `c` in the state `g` does: `c` has no connected edge left, and the edges of the
-- other vertices are as they were.
pub record IsVisited (graph placed : List ℕ) (c : ℕ) (g g' : Dag) (q' : List ℕ) : Type 0 where
  pub sorting : IsSorting graph placed g' q'
  pub own : (v : ℕ) → in_edges v (g'.cell c).edges ≡ 0
  pub others : (u : ℕ) → u ≢ c → (g'.cell u).edges ≡ (g.cell u).edges
  pub same_payload : (u : ℕ) → payload (g'.cell u) ≡ payload (g.cell u)

abbrev pub Visits : List ℕ → List ℕ → ℕ → Dag → Outcome (Dag × List ℕ) → Type 0
Visits graph placed c g r =
    (g' : Dag) × (q' : List ℕ) × (r ≡ ok (g', q')) × IsVisited graph placed c g g' q'

visit_edges-suc :
    (c n : ℕ) (done : List Edge) (e : Edge) (es : List Edge) (m : ℕ) (g : Dag) (q : List ℕ)
    → (g.cell c).edges ≡ done ++ e ∷ es
    → e.connection ≡ some m
    → contains g.graph m ≡ true
    → visit_edges c (suc n) (length done) g q
      ≡ visit_edges c n
          (suc (length done))
          (visited c (length done) e m g)
          (queued m (visited c (length done) e m g) q)
unfolding visit_edges
visit_edges-suc c n done e es m g q at_c leads there = ground (
  arith,
  visit_edge_lem c (length done) e m g q leads there,
  get_elem?-middle done e es,
  ap (λ xs. get_elem? xs (length done)) at_c,
)

length_done : (done : List Edge) (e : Edge) → suc (length done) ≡ length (done ++ cut e ∷ [])
length_done done e = omega (arith, length-append done (cut e ∷ []))

module _ (graph placed : List ℕ) (nodup : IsDistinct graph) (c : ℕ)
    (c_there : contains graph c ≡ true) where
  visit_from :
      (es done : List Edge) (g : Dag) (q : List ℕ)
      → IsSorting graph placed g q
      → (g.cell c).edges ≡ done ++ es
      → AreLinks graph es
      → ((v : ℕ) → in_edges v done ≡ 0)
      → Visits graph placed c g (visit_edges c (length es) (length done) g q)
  unfolding visit_edges
  visit_from [] done g q inv at_c links zeros = (
    g,
    q,
    refl,
    record {
      sorting = inv;
      own = λ v. rw at_c (omega (arith, in_edges-append v done [], zeros v));
      others = λ u h. refl;
      same_payload = λ u. refl;
    },
  )
  visit_from (e ∷ es) done g q inv at_c (link, links) zeros =
      let (m, leads, m_there) = link in
      let there = subst (λ l. contains l m ≡ true) (sym inv.same) m_there in
      let g1 = visited c (length done) e m g in
      let q1 = queued m g1 q in
      let at_c1 =
        Step.after_edges_self graph placed c done e es m g q inv nodup c_there m_there at_c leads in
      let inv1 =
        Step.after-IsSorting graph placed c done e es m g q inv nodup c_there m_there at_c leads in
      let (g', q', ends, all) =
        visit_from es (done ++ cut e ∷ []) g1 q1 inv1
          (at_c1 ∙ sym (append_assoc done (cut e ∷ []) es)) links
          (λ v. omega (arith, in_edges-append v done (cut e ∷ []), zeros v)) in
      (
        g',
        q',
        visit_edges-suc c (length es) done e es m g q at_c leads there
            ∙ ap (λ j. visit_edges c (length es) j g1 q1) (length_done done e)
            ∙ ends,
        record {
          sorting = all.sorting;
          own = all.own;
          same_payload = λ u. all.same_payload u ∙ payload-visited c (length done) e m g u;
          others = λ u h.
              all.others u h
              ∙ Step.after_edges_other graph placed c done e es m g q inv nodup c_there m_there at_c
                  leads u h;
        },
      )

  -- All edges of `c` are visited, with no fault.
  pub visit_edges_lem :
      (g : Dag) (q : List ℕ)
      → IsSorting graph placed g q
      → AreLinks graph (g.cell c).edges
      → Visits graph placed c g (visit_edges c (length (g.cell c).edges) 0 g q)
  visit_edges_lem g q inv links = visit_from (g.cell c).edges [] g q inv refl links (λ v. refl)
