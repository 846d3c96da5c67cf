-- ===== src/Connect/Missing.antt =====
-- `connection_would_make_cyclic` for a vertex that the DAG does not have.
use dag_scheduler.Base.{
  ℕ, ◌≡◌, ◌≢◌, ◌∙◌, refl, sym, ap, Bool, some, none, inl, inr, fault, String, ◌>>=◌, Option-cases,
  [],
}
use dag_scheduler.Externals.{Externals}
use dag_scheduler.Uuid.{null_uuid}
use dag_scheduler.Vertex.{Vertex, clone_vertex, moved_from}
use dag_scheduler.Dag.{Dag, find_vertex, find_vertex_by_uuid, add_vertex}
use dag_scheduler.Dag.Valid.{IsValid}
use dag_scheduler.Dag.Keys.{Has}
use dag_scheduler.Dag.Find.{find_vertex_by_uuid_sound}
use dag_scheduler.Dag.Add.{add_vertex_new, add_vertex_lem}
use dag_scheduler.Clone.Correct.{clone_lem}
use dag_scheduler.Connect.{connection_would_make_cyclic, try_connection, try_found}

module _ ⦃env : Externals⦄ where
  absent : (g : Dag) (u : ℕ) → (¬ Has g u) → find_vertex_by_uuid g u ≡ none
  absent g u missing = elim (Option-cases (find_vertex_by_uuid g u)) [
    | inl e ↦ e
    | inr (a, found) ↦
        let (there, same) = find_vertex_by_uuid_sound g u a found in
        absurd (missing (a, there, same))
  ]

  -- No vertex with the UUID is there after a vertex with another was added.
  still_absent :
      (g : Dag) (v : Vertex) (u : ℕ)
      → IsValid g
      → v.edges ≡ []
      → v.incomming ≡ 0
      → v.uuid ≢ u
      → (¬ Has g u)
      → ¬ Has (add_vertex g v).0 u
  still_absent g v u valid no_edges no_incomming other missing (a, there, same) =
      let r = add_vertex_lem g v valid no_edges no_incomming in
      elim (r.only a there) [
        | inl old ↦ missing (a, old, ap (λ (w : Vertex). w.uuid) (sym (r.kept a old).1) ∙ same)
        | inr e ↦ other (ap (λ (w : Vertex). w.uuid) (sym e) ∙ same)
      ]

  not_found : (h : Dag) (v : Vertex) → (¬ Has h v.uuid) → find_vertex h (clone_vertex v) ≡ none
  unfolding find_vertex clone_vertex
  not_found h v missing = absent h v.uuid missing

  look_up :
      (c2 : Dag) (w : Vertex) → w ≡ moved_from → find_vertex c2 w ≡ find_vertex_by_uuid c2 null_uuid
  unfolding find_vertex moved_from
  look_up c2 w e = ap (λ (x : Vertex). find_vertex_by_uuid c2 x.uuid) e

  -- If the first vertex is not in the DAG, `connection_would_make_cyclic` dereferences a null pointer:
  -- `add_vertex` moves from the copy that is then looked up. The DAG is valid and has a document, and
  -- no UUID of a vertex is null.
  pub connection_would_make_cyclic_faults :
      (g : Dag) (text : String) (v1 v2 : Vertex)
      → IsValid g
      → g.json_config ≡ some text
      → (¬ Has g v1.uuid)
      → (¬ Has g null_uuid)
      → v1.uuid ≢ null_uuid
      → v2.uuid ≢ null_uuid
      → connection_would_make_cyclic g v1 v2 ≡ fault
  unfolding connection_would_make_cyclic try_connection try_found clone_vertex
  connection_would_make_cyclic_faults g text v1 v2 valid has missing keyed proper1 proper2 =
      let (h, cloned, c) = clone_lem g valid text has in
      let added =
        add_vertex_new h (clone_vertex v1) (not_found h v1 (λ x. missing (c.only v1.uuid x))) in
      let first = add_vertex_lem h (clone_vertex v1) c.valid refl refl in
      let c2 = (add_vertex (add_vertex h (clone_vertex v1)).0 (clone_vertex v2)).0 in
      let lost : find_vertex_by_uuid c2 null_uuid ≡ none = absent c2 null_uuid (
        still_absent (add_vertex h (clone_vertex v1)).0 (clone_vertex v2) null_uuid
          first.valid_after refl refl proper2
          (still_absent h (clone_vertex v1) null_uuid c.valid refl refl proper1
            (λ x. keyed (c.only null_uuid x)))) in
      ap (λ r. r >>= λ h'. try_connection g h' v1 v2) cloned
      ∙ ap
          (λ x.
            try_found g c2 x
              (find_vertex c2 (add_vertex (add_vertex h (clone_vertex v1)).0 (clone_vertex v2)).1))
          (look_up c2 (add_vertex h (clone_vertex v1)).1
              (ap (λ (r : Dag × Vertex × Bool). r.1) added)
            ∙ lost)
