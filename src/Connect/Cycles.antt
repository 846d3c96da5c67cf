-- ===== src/Connect/Cycles.antt =====
-- `connection_would_make_cyclic`: whether one more edge would close a cycle.
use dag_scheduler.Base.{
  ℕ, ◌+◌, ◌<◌, ◌≡◌, ◌∙◌, ◌⊎◌, ◌↔◌, refl, sym, ap, arith, Bool, true, false, contains, some, inl,
  inr, ok, String, ◌>>=◌,
}
use dag_scheduler.Externals.{Externals}
use dag_scheduler.Vertex.{Vertex, clone_vertex, size_mod}
use dag_scheduler.Dag.{
  Dag, find_vertex, find_vertex_by_uuid, connect_vertex, edge_count, add_vertex,
}
use dag_scheduler.Dag.Degrees.{IsRanked}
use dag_scheduler.Dag.Valid.{IsValid}
use dag_scheduler.Dag.Find.{find_vertex_by_uuid_self}
use dag_scheduler.Dag.Add.{add_vertex_old}
use dag_scheduler.Dag.Grow.{Grows}
use dag_scheduler.Dag.Keys.{
  KeyArc, IsAcyclic, IsAcyclic_of_iff, IsAcyclic_of_IsRanked, IsRanked-of_IsAcyclic,
}
use dag_scheduler.Dag.Link.{connect_vertex_lem}
use dag_scheduler.Sort.{dag_topological_sort}
use dag_scheduler.Sort.Correct.{dag_topological_sort_decides}
use dag_scheduler.Clone.{clone}
use dag_scheduler.Clone.Correct.{IsClone, clone_lem}
use dag_scheduler.Connect.{try_connection, try_found, connection_would_make_cyclic}

-- The edges of the graph and one from `x` to `y`.
abbrev pub WithArc : Dag → ℕ → ℕ → ℕ → ℕ → Type 0
WithArc g x y z w = KeyArc g z w ⊎ (z ≡ x) × (w ≡ y)

module _ ⦃env : Externals⦄ where
  -- Edges that grow by one pair of addresses grow by the pair of their UUIDs.
  pub KeyArc-Grows :
      (g k : Dag) (a b : ℕ) (n : ℕ)
      → IsValid g
      → contains g.graph a ≡ true
      → contains g.graph b ≡ true
      → Grows g k (λ u v. (u ≡ a) × (v ≡ b)) n
      → (x y : ℕ) → KeyArc k x y ↔ WithArc g (g.cell a).uuid (g.cell b).uuid x y
  KeyArc-Grows g k a b n valid a_there b_there grows x y = (there, back)
    where
      k_uuid : (u : ℕ) → (k.cell u).uuid ≡ (g.cell u).uuid
      k_uuid u = ap (λ (v : Vertex). v.uuid) (grows.same_payload u)

      there : KeyArc k x y → WithArc g (g.cell a).uuid (g.cell b).uuid x y
      there (u, v, m, p, eu, ev) = elim ((grows.arcs u v).0 (m, p)) [
        | inl (n, q) ↦ inl (u, v, n, q, sym (k_uuid u) ∙ eu, sym (k_uuid v) ∙ ev)
        | inr (e, f) ↦ inr (
          sym eu ∙ k_uuid u ∙ ap (λ z. (g.cell z).uuid) e,
          sym ev ∙ k_uuid v ∙ ap (λ z. (g.cell z).uuid) f,
        )
      ]

      back : WithArc g (g.cell a).uuid (g.cell b).uuid x y → KeyArc k x y
      back (inl (u, v, m, p, eu, ev)) =
          let arc = (grows.arcs u v).1 (inl (m, p)) in
          (u, v, arc.0, arc.1, k_uuid u ∙ eu, k_uuid v ∙ ev)
      back (inr (e, f)) =
          let arc = (grows.arcs a b).1 (inr (refl, refl)) in
          (a, b, arc.0, arc.1, k_uuid a ∙ sym e, k_uuid b ∙ sym f)

  kept :
      (h : Dag) (v : Vertex) (c : ℕ)
      → find_vertex_by_uuid h v.uuid ≡ some c
      → add_vertex h (clone_vertex v) ≡ (h, clone_vertex v, false)
  unfolding find_vertex clone_vertex
  kept h v c found = add_vertex_old h (clone_vertex v) c found

  seen :
      (h : Dag) (v : Vertex) (c : ℕ)
      → find_vertex_by_uuid h v.uuid ≡ some c
      → find_vertex h (clone_vertex v) ≡ some c
  unfolding find_vertex clone_vertex
  seen h v c found = found

  -- What is run on the copy `h`, in which the two vertices are at `a'` and `b'`.
  on_copy :
      (g h : Dag) (v1 v2 : Vertex) (a' b' : ℕ)
      → clone g ≡ ok h
      → find_vertex_by_uuid h v1.uuid ≡ some a'
      → find_vertex_by_uuid h v2.uuid ≡ some b'
      → connection_would_make_cyclic g v1 v2 ≡ (
          dag_topological_sort (connect_vertex h a' b').0 >>= λ (c3, failed, _).
          ok (record g { draws = c3.draws }, failed))
  unfolding connection_would_make_cyclic try_connection try_found
  on_copy g h v1 v2 a' b' cloned found1 found2 =
      ap (λ r. r >>= λ c. try_connection g c v1 v2) cloned
      ∙ ap
          (λ (r1 : Dag × Vertex × Bool).
            let r2 = add_vertex r1.0 (clone_vertex v2) in
            try_found g r2.0 (find_vertex r2.0 r1.1) (find_vertex r2.0 r2.1))
          (kept h v1 a' found1)
      ∙ ap
          (λ (r2 : Dag × Vertex × Bool).
            try_found g r2.0 (find_vertex r2.0 (clone_vertex v1)) (find_vertex r2.0 r2.1))
          (kept h v2 b' found2)
      ∙ ap (λ x. try_found g h x (find_vertex h (clone_vertex v2))) (seen h v1 a' found1)
      ∙ ap (try_found g h (some a')) (seen h v2 b' found2)

  module _ (g : Dag) (text : String) (valid : IsValid g) (has : g.json_config ≡ some text) (a b : ℕ)
      (a_there : contains g.graph a ≡ true) (b_there : contains g.graph b ≡ true)
      (room : edge_count g + 1 < size_mod) where
    Decides : Bool → Type 0
    Decides cyclic = (cyclic ≡ false) ↔ IsAcyclic (WithArc g (g.cell a).uuid (g.cell b).uuid)

    decided :
        (h k : Dag) (a' b' : ℕ) (cyclic : Bool)
        → IsClone g h
        → contains h.graph a' ≡ true
        → contains h.graph b' ≡ true
        → (h.cell a').uuid ≡ (g.cell a).uuid
        → (h.cell b').uuid ≡ (g.cell b).uuid
        → Grows h k (λ u v. (u ≡ a') × (v ≡ b')) 1
        → (cyclic ≡ false) ↔ ((rank : ℕ → ℕ) × IsRanked rank k)
        → Decides cyclic
    unfolding Decides
    decided h k a' b' cyclic c a'_there b'_there ea eb grows sorts = (
      λ e.
          let (rank, ranked) = sorts.0 e in
          IsAcyclic_of_iff _ _ (λ x y. (same_arcs x y).1)
            (IsAcyclic_of_IsRanked k grows.valid rank ranked),
      λ acyclic.
          sorts.1
            (IsRanked-of_IsAcyclic k (IsAcyclic_of_iff _ _ (λ x y. (same_arcs x y).0) acyclic)),
    )
      where
        same_arcs : (x y : ℕ) → KeyArc k x y ↔ WithArc g (g.cell a).uuid (g.cell b).uuid x y
        same_arcs x y = grind (
          arith,
          KeyArc-Grows h k a' b' 1 c.valid a'_there b'_there grows x y,
          c.arcs x y,
          ea,
          eb,
        )

    -- `connection_would_make_cyclic` returns for two vertices of a valid DAG that has a document and
    -- room for one more edge, changes only the number
    -- of UUIDs drawn, and its result is false exactly if the edges of the DAG with one from the first
    -- vertex to the second have no cycle.
    pub connection_would_make_cyclic_decides :
        (draws : ℕ) × (cyclic : Bool) × (connection_would_make_cyclic g (g.cell a) (g.cell b)
          ≡ ok (record g { draws = draws }, cyclic))
        × ((cyclic ≡ false) ↔ IsAcyclic (WithArc g (g.cell a).uuid (g.cell b).uuid))
    unfolding Decides clone_vertex
    connection_would_make_cyclic_decides =
        let (h, cloned, c) = clone_lem g valid text has in
        let (a', a'_there, same_a) = c.copies a a_there in
        let (b', b'_there, same_b) = c.copies b b_there in
        let ea : (h.cell a').uuid ≡ (g.cell a).uuid = ap (λ (v : Vertex). v.uuid) same_a in
        let eb : (h.cell b').uuid ≡ (g.cell b).uuid = ap (λ (v : Vertex). v.uuid) same_b in
        let grows =
          (connect_vertex_lem h a' b' c.valid a'_there b'_there (omega (arith, c.count))).0 in
        let (k, failed, vs, returns, sorts) =
          dag_topological_sort_decides (connect_vertex h a' b').0 grows.valid.linked in
        (
          k.draws,
          failed,
          on_copy g h (g.cell a) (g.cell b) a' b' cloned
                (ap (find_vertex_by_uuid h) (sym ea)
                  ∙ find_vertex_by_uuid_self h a' c.valid a'_there)
                (ap (find_vertex_by_uuid h) (sym eb)
                  ∙ find_vertex_by_uuid_self h b' c.valid b'_there)
              ∙ ap (λ r. r >>= λ (c3, cyclic, _). ok (record g { draws = c3.draws }, cyclic))
                  returns,
          decided h (connect_vertex h a' b').0 a' b' failed c a'_there b'_there ea eb grows sorts,
        )
