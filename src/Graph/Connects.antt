-- ===== src/Graph/Connects.antt =====
-- `connect` on a DAG and on the graph that it stands for.
use dag_scheduler.Base.{
  subst, ◌≤◌, ℕ, ◌+◌, ◌<◌, ◌≡◌, ◌∙◌, ◌↔◌, refl, sym, ap, arith, true, false, ◌&&◌, ◌==◌, contains,
  some, inl, inr, ok, throws, Option-cases,
}
use dag_scheduler.Externals.{Externals}
use dag_scheduler.Vertex.{Vertex, size_mod}
use dag_scheduler.Dag.{Dag, find_vertex, edge_count}
use dag_scheduler.Dag.Find.{find_vertex_by_uuid_sound}
use dag_scheduler.Dag.Keys.{IsAcyclic, IsAcyclic_of_iff}
use dag_scheduler.Connect.{connect}
use dag_scheduler.Connect.Cycles.{WithArc, KeyArc-Grows}
use dag_scheduler.Connect.Joins.{IsJoined, connect_cases}
use dag_scheduler.Connect.Keeps.{
  found_there, connect_self, connect_missing1, connect_missing2, joined-IsSound,
}
use dag_scheduler.Graph.{Graph, join, Edges, connects, Promises}
use dag_scheduler.Graph.Adds.{Models, either, same_pair, found_has, missing}

module _ ⦃env : Externals⦄ (G : Graph) (g : Dag) (m : Models G g) where
  -- The edges of the graph with one more are those of the DAG with one more.
  joined_arcs : (x y z w : ℕ) → Edges (join G x y) z w ↔ WithArc g x y z w
  joined_arcs x y z w = (
    λ e. elim ((either (G.arc z w) (z == x && w == y)).0 e) [
      | inl old ↦ inl ((m.arcs z w).0 old)
      | inr new ↦ inr ((same_pair z w x y).0 new)
    ],
    λ s. elim s [
      | inl old ↦ (either (G.arc z w) (z == x && w == y)).1 (inl ((m.arcs z w).1 old))
      | inr new ↦ (either (G.arc z w) (z == x && w == y)).1 (inr ((same_pair z w x y).1 new))
    ],
  )

  same_uuid : (v : Vertex) (a : ℕ) → find_vertex g v ≡ some a → (g.cell a).uuid ≡ v.uuid
  unfolding find_vertex
  same_uuid v a found = (find_vertex_by_uuid_sound g v.uuid a found).1

  joined-Models :
      (g' : Dag) (a b : ℕ)
      → contains g.graph a ≡ true
      → contains g.graph b ≡ true
      → IsJoined g a b g'
      → IsAcyclic (WithArc g (g.cell a).uuid (g.cell b).uuid)
      → Models (join G (g.cell a).uuid (g.cell b).uuid) g'
  joined-Models g' a b a_there b_there j acyclic = record {
    sound = joined-IsSound g g' a b m.sound a_there b_there j acyclic;
    has = λ x. (
      λ e.
          let (c, there, same) = (m.has x).0 e in
          (c, ap (λ l. contains l c) j.grows.same_graph ∙ there, uuids c ∙ same),
      λ (c, there, same).
          (m.has x).1
            (c, ap (λ l. contains l c) (sym j.grows.same_graph) ∙ there, sym (uuids c) ∙ same),
    );
    arcs = λ x y.
        let edges = joined_arcs (g.cell a).uuid (g.cell b).uuid x y in
        let grown = KeyArc-Grows g g' a b 1 m.sound.valid a_there b_there j.grows x y in
        (λ e. grown.1 (edges.0 e), λ e. edges.1 (grown.0 e));
  }
    where
      uuids : (c : ℕ) → (g'.cell c).uuid ≡ (g.cell c).uuid
      uuids c = ap (λ (v : Vertex). v.uuid) (j.grows.same_payload c)

  -- What `connect` may end in, beside the promise.
  pub data Connected (v w : Vertex) : Type 0 where
    refused :
        Promises G (connects v w) (ok (G, false)) → connect g v w ≡ ok (g, false) → Connected v w
    cyclic : Promises G (connects v w) throws → connect g v w ≡ throws → Connected v w
    joined :
        (g' : Dag)
        → Promises G (connects v w) (ok (join G v.uuid w.uuid, true))
        → connect g v w ≡ ok (g', true)
        → Models (join G v.uuid w.uuid) g'
        → edge_count g' ≤ edge_count g + 1
        → Connected v w

  both_there :
      (v w : Vertex) (a b : ℕ)
      → find_vertex g v ≡ some a
      → find_vertex g w ≡ some b
      → edge_count g + 1 < size_mod
      → Connected v w
  both_there v w a b f1 f2 room =
      let (text, has) = m.sound.document in
      let a_there = found_there g v a f1 in
      let b_there = found_there g w b f2 in
      let self = connect_self g v w a b m.sound.valid f1 f2 in
      let both : (G.has v.uuid && G.has w.uuid) ≡ true =
        ground (arith, found_has G g m v a f1, found_has G g m w b f2) in
      let ua = (g.cell a).uuid in
      let ub = (g.cell b).uuid in
      let named : join G ua ub ≡ join G v.uuid w.uuid =
        ap (λ x. join G x ub) (same_uuid v a f1) ∙ ap (join G v.uuid) (same_uuid w b f2) in
      elim (connect_cases g text m.sound.valid has a b a_there b_there room) [
        | inl (acyclic, (g', ends, j)) ↦
            joined g'
              (inr (
                inl (
                  both,
                  subst (λ H. IsAcyclic (Edges H)) named
                      (IsAcyclic_of_iff _ _ (λ x y. (joined_arcs ua ub x y).0) acyclic),
                  refl,
                )))
              (self ∙ ends)
              (subst (λ H. Models H g') named (joined-Models g' a b a_there b_there j acyclic))
              j.grows.count
        | inr (bad, refusal) ↦
            cyclic
              (inr (
                inr (
                  both,
                  λ acyclic. bad (
                      IsAcyclic_of_iff _ _ (λ x y. (joined_arcs ua ub x y).1)
                        (subst (λ H. IsAcyclic (Edges H)) (sym named) acyclic)),
                  refl,
                )))
              (self ∙ refusal.thrown m.sound.acyclic)
      ]

  pub connects-Connected : (v w : Vertex) → edge_count g + 1 < size_mod → Connected v w
  connects-Connected v w room = elim (Option-cases (find_vertex g v)) [
    | inl f1 ↦ refused (inl (ground (arith, missing G g m v f1), refl)) (connect_missing1 g v w f1)
    | inr (a, f1) ↦ elim (Option-cases (find_vertex g w)) [
      | inl f2 ↦
          refused (inl (ground (arith, missing G g m w f2), refl)) (connect_missing2 g v w a f1 f2)
      | inr (b, f2) ↦ both_there v w a b f1 f2 room
    ]
  ]
