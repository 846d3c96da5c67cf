-- ===== src/Sort/Step.antt =====
-- One edge of the topological sort: it is cut, its target loses an incoming edge, and is queued when
-- that was the last one.
use mathlib.Core.List.{append_assoc}
use dag_scheduler.Base.{
  ◌&&◌, ◌∙◌, Bool-cases, ltb, not, ℕ, ◌+◌, ◌<◌, ◌≡◌, refl, sym, ap, subst, ◌≢◌, ◌↔◌, inl, inr, true,
  false, ◌||◌, List, [], ◌∷◌, ◌++◌, none, some, ◌==◌, if◌then◌else◌, length, set, contains,
  sum_over_change, IsDistinct, IsDistinct-concat, contains-append, arith, ok,
}
use dag_scheduler.Vertex.{payload, Edge, size_mod, sub_incomming_edge, has_incomming_edges}
use dag_scheduler.Dag.{Dag, decrement, put_edge}
use dag_scheduler.Dag.Degrees.{hits, in_edges, indegree, in_edges-set, set-middle}
use dag_scheduler.Sort.{visit_edge}

-- `placed` is what has left the queue `q`, the vertex that is visited included: together they are
-- the vertices with no incoming edge left, each once.
pub record IsSorting (graph placed : List ℕ) (g : Dag) (q : List ℕ) : Type 0 where
  pub same : g.graph ≡ graph
  pub counted : (v : ℕ) → contains graph v ≡ true → (g.cell v).incomming ≡ indegree g v
  pub small : (v : ℕ) → contains graph v ≡ true → indegree g v < size_mod
  pub free :
      (v : ℕ) → contains graph v ≡ true → (contains (placed ++ q) v ≡ true) ↔ (indegree g v ≡ 0)
  pub distinct : IsDistinct (placed ++ q)
  pub members : (v : ℕ) → contains (placed ++ q) v ≡ true → contains graph v ≡ true

abbrev pub cut : Edge → Edge
cut e = record e { connection = none }

-- The state after the edge `e` at place `j` of `c`, which led to `m`.
abbrev pub visited : ℕ → ℕ → Edge → ℕ → Dag → Dag
visited c j e m g = put_edge (decrement g (some m)) c j (cut e)

abbrev pub queued : ℕ → Dag → List ℕ → List ℕ
queued m g q = if has_incomming_edges (g.cell m) then q else q ++ m ∷ []

module _ (c j : ℕ) (e : Edge) (m : ℕ) (g : Dag) (q : List ℕ) (leads : e.connection ≡ some m)
    (there : contains g.graph m ≡ true) where
  pub visit_edge_lem : visit_edge c j e g q ≡ ok (visited c j e m g, queued m (visited c j e m g) q)
  unfolding visit_edge
  visit_edge_lem = ground arith

pub visited_edges :
    (c j : ℕ) (e : Edge) (m : ℕ) (g : Dag) (u : ℕ)
    → ((visited c j e m g).cell u).edges
      ≡ (if c == u then set (g.cell c).edges j (cut e) else (g.cell u).edges)
unfolding put_edge decrement sub_incomming_edge
visited_edges c j e m g u = ground arith

pub visited_incomming :
    (c j : ℕ) (e : Edge) (m : ℕ) (g : Dag) (u : ℕ)
    → ((visited c j e m g).cell u).incomming
      ≡ (if m == u then (sub_incomming_edge (g.cell u)).incomming else (g.cell u).incomming)
unfolding put_edge decrement sub_incomming_edge
visited_incomming c j e m g u = ground arith

pub payload-visited :
    (c j : ℕ) (e : Edge) (m : ℕ) (g : Dag) (u : ℕ)
    → payload ((visited c j e m g).cell u) ≡ payload (g.cell u)
unfolding put_edge decrement sub_incomming_edge
payload-visited c j e m g u = ground arith

visited_graph : (c j : ℕ) (e : Edge) (m : ℕ) (g : Dag) → (visited c j e m g).graph ≡ g.graph
unfolding put_edge decrement
visited_graph c j e m g = refl

module _ (graph placed : List ℕ) (c : ℕ) (done : List Edge) (e : Edge) (es : List Edge) (m : ℕ)
    (g : Dag) (q : List ℕ) (inv : IsSorting graph placed g q) (nodup : IsDistinct graph)
    (c_there : contains graph c ≡ true) (m_there : contains graph m ≡ true)
    (at_c : (g.cell c).edges ≡ done ++ e ∷ es) (leads : e.connection ≡ some m) where
  abbrev after : Dag
  after = visited c (length done) e m g

  pub after_edges_self : (after.cell c).edges ≡ done ++ cut e ∷ es
  after_edges_self =
      ground (arith, visited_edges c (length done) e m g c, set-middle done e (cut e) es)

  pub after_edges_other : (u : ℕ) → u ≢ c → (after.cell u).edges ≡ (g.cell u).edges
  after_edges_other u h = ground (arith, visited_edges c (length done) e m g u)

  in_edges_after :
      (v : ℕ) → in_edges v (after.cell c).edges + hits v (some m) ≡ in_edges v (g.cell c).edges
  in_edges_after v =
      rw (after_edges_self, at_c)
        (omega (arith, ap (hits v) leads, in_edges-set v done e (cut e) es))

  indegree-after : (v : ℕ) → indegree after v + hits v (some m) ≡ indegree g v
  unfolding indegree put_edge decrement
  indegree-after v = omega (
    arith,
    in_edges_after v,
    sum_over_change (λ u. in_edges v (after.cell u).edges) (λ u. in_edges v (g.cell u).edges) c
        g.graph (subst IsDistinct (sym inv.same) nodup)
        (subst (λ l. contains l c ≡ true) (sym inv.same) c_there)
        (λ b ne. ap (in_edges v) (after_edges_other b ne)),
  )

  counted_after : (v : ℕ) → contains graph v ≡ true → (after.cell v).incomming ≡ indegree after v
  unfolding sub_incomming_edge
  counted_after v h = ground (
    arith,
    visited_incomming c (length done) e m g v,
    indegree-after v,
    inv.counted v,
    inv.small v,
  )

  -- The target had an incoming edge, so it has not been queued before.
  fresh : contains (placed ++ q) m ≡ false
  fresh = ground (arith, inv.free m, indegree-after m)

  last_edge : has_incomming_edges (after.cell m) ≡ ltb 0 (indegree after m)
  unfolding has_incomming_edges
  last_edge = ap (ltb 0) (counted_after m m_there)

  contains-after :
      (v : ℕ)
      → contains (placed ++ queued m after q) v
        ≡ (contains (placed ++ q) v || (not (ltb 0 (indegree after m)) && m == v))
  contains-after v = ground (
    arith,
    last_edge,
    contains-append placed q v,
    contains-append placed (q ++ m ∷ []) v,
    contains-append q (m ∷ []) v,
  )

  free_after :
      (v : ℕ)
      → contains graph v ≡ true
      → (contains (placed ++ queued m after q) v ≡ true) ↔ (indegree after v ≡ 0)
  free_after v h = ground (
    arith,
    contains-after v,
    indegree-after v,
    inv.free v,
    fresh,
    ap (indegree after) {x = m} {y = v},
  )

  IsDistinct-after : IsDistinct (placed ++ queued m after q)
  IsDistinct-after = elim (Bool-cases (has_incomming_edges (after.cell m))) [
    | inl more ↦ rw more inv.distinct
    | inr last ↦
        rw (last, ← append_assoc placed q (m ∷ []))
          (IsDistinct-concat (placed ++ q) m inv.distinct fresh)
  ]

  members_after : (v : ℕ) → contains (placed ++ queued m after q) v ≡ true → contains graph v ≡ true
  members_after v h =
      ground (arith, contains-after v, inv.members v, m_there, ap (contains graph) {x = m} {y = v})

  pub after-IsSorting : IsSorting graph placed after (queued m after q)
  after-IsSorting = record {
    same = visited_graph c (length done) e m g ∙ inv.same;
    counted = counted_after;
    small = λ v h. omega (arith, indegree-after v, inv.small v h);
    free = free_after;
    distinct = IsDistinct-after;
    members = members_after;
  }
