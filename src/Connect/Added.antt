-- ===== src/Connect/Added.antt =====
-- `add_and_connect`.
use dag_scheduler.Base.{
  ℕ, ◌+◌, ◌<◌, ◌≡◌, ◌∙◌, sym, ap, arith, true, contains, some, none, inl, inr, fault, [], Option,
}
use dag_scheduler.Externals.{Externals}
use dag_scheduler.Vertex.{Vertex, clone_vertex, size_mod}
use dag_scheduler.Dag.{Dag, edge_count, add_vertex, find_vertex, find_vertex_by_uuid}
use dag_scheduler.Dag.Valid.{IsValid}
use dag_scheduler.Dag.Find.{find_vertex_by_uuid_sound, find_vertex_by_uuid_self}
use dag_scheduler.Dag.Add.{add_vertex_lem}
use dag_scheduler.Connect.{connect, add_and_connect}
use dag_scheduler.Connect.Joins.{IsSound}
use dag_scheduler.Connect.Keeps.{connect-IsSound, add_vertex-IsSound}
use dag_scheduler.Connect.All.{KeepsSound}

module _ ⦃env : Externals⦄ where
  -- A vertex that was added is found under the UUID of a clone of it.
  added_found :
      (g : Dag) (v : Vertex)
      → IsValid g
      → v.edges ≡ []
      → v.incomming ≡ 0
      → (a : ℕ) × (contains (add_vertex g v).0.graph a ≡ true)
        × (((add_vertex g v).0.cell a).uuid ≡ v.uuid)
  added_found g v valid no_edges no_incomming =
      let (a, found, same) = (add_vertex_lem g v valid no_edges no_incomming).found in
      let here = find_vertex_by_uuid_sound (add_vertex g v).0 v.uuid a found in (a, here.0, here.1)

  find_clone :
      (g : Dag) (v : Vertex) (a : ℕ)
      → IsValid g
      → contains g.graph a ≡ true
      → (g.cell a).uuid ≡ v.uuid
      → find_vertex g (clone_vertex v) ≡ some a
  unfolding find_vertex clone_vertex
  find_clone g v a valid there same =
      ap (find_vertex_by_uuid g) (sym same) ∙ find_vertex_by_uuid_self g a valid there

  -- `add_and_connect` with two vertices that have no edges and no incoming edges, on a valid DAG with
  -- a document and no cycle, throws or returns such a DAG with at most one more edge: the vertices
  -- are found after they were added. There is room for one more edge.
  pub add_and_connect-IsSound :
      (g : Dag) (v1 v2 : Vertex)
      → IsSound g
      → v1.edges ≡ []
      → v1.incomming ≡ 0
      → v2.edges ≡ []
      → v2.incomming ≡ 0
      → edge_count g + 1 < size_mod
      → KeepsSound g 1 (add_and_connect g v1 v2)
  unfolding add_and_connect
  add_and_connect-IsSound g v1 v2 sound e1 i1 e2 i2 room =
      let g1 = (add_vertex g v1).0 in
      let g2 = (add_vertex g1 v2).0 in
      let sound1 = add_vertex-IsSound g v1 sound e1 i1 in
      let sound2 = add_vertex-IsSound g1 v2 sound1 e2 i2 in
      let first = add_vertex_lem g v1 sound.valid e1 i1 in
      let second = add_vertex_lem g1 v2 sound1.valid e2 i2 in
      let (a, a_there, a_same) = added_found g v1 sound.valid e1 i1 in
      let (b, b_there, b_same) = added_found g1 v2 sound1.valid e2 i2 in
      let (a_kept, a_cell) = second.kept a a_there in
      let found_a =
        find_clone g2 v1 a sound2.valid a_kept (ap (λ (v : Vertex). v.uuid) a_cell ∙ a_same) in
      let found_b = find_clone g2 v2 b sound2.valid b_there b_same in
      let calls : add_and_connect g v1 v2 ≡ connect g2 (g2.cell a) (g2.cell b) =
        ap
          (λ (x : Option ℕ). elim x [
            | none ↦ fault
            | some c ↦ elim (find_vertex g2 (clone_vertex v2)) [
              | none ↦ fault
              | some d ↦ connect g2 (g2.cell c) (g2.cell d)
            ]
          ])
          found_a
        ∙ ap
            (λ (x : Option ℕ). elim x [
              | none ↦ fault
              | some d ↦ connect g2 (g2.cell a) (g2.cell d)
            ])
            found_b in
      elim (connect-IsSound g2 (g2.cell a) (g2.cell b) sound2
        (omega (arith, first.same_count, second.same_count, room))) [
          | inl thrown ↦ inl (calls ∙ thrown)
          | inr (g', r, ends, sound', count) ↦ inr (
            g',
            r,
            calls ∙ ends,
            sound',
            omega (arith, count, first.same_count, second.same_count),
          )
        ]
