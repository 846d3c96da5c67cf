-- ===== src/Remove/Dangling.antt =====
-- The removal of a vertex that an edge leads to, and the copy constructor after it.
use mathlib.Core.Bool.{false≢true}
use dag_scheduler.Base.{
  ℕ, ◌<◌, ◌≤◌, ◌≡◌, ◌≢◌, ◌∙◌, refl, sym, ap, subst, arith, true, false, not, ◌&&◌, [], ◌==◌, some,
  fault, contains, length, keep_if, contains-keep_if, IsDistinct-keep_if, IsDistinct, Bool-cases,
  inl, inr,
}
use dag_scheduler.Externals.{Externals}
use dag_scheduler.Uuid.{uuid_eq, uuid_eq_iff}
use dag_scheduler.Vertex.{Vertex, payload, clone_vertex, clone_vertex-payload}
use dag_scheduler.Dag.{Dag, edge_count, find_vertex}
use dag_scheduler.Dag.Degrees.{in_edges, Arc}
use dag_scheduler.Dag.Valid.{IsValid}
use dag_scheduler.Dag.Find.{find_vertex_by_uuid_sound}
use dag_scheduler.Remove.{cut_vertex, remove_vertex_by_uuid}
use dag_scheduler.Remove.Kept.{is_id, remove_vertex_by_uuid_lem}
use dag_scheduler.Remove.Payloads.{payload-cut_vertex}
use dag_scheduler.Remove.Cells.{remove_where_cells}
use dag_scheduler.Process.Cut.{release_edges}
use dag_scheduler.Graph.Removes.{is_id-Follows}
use dag_scheduler.Clone.{copy_vertices, clone}
use dag_scheduler.Clone.Copy.{copy_vertices_lem}
use dag_scheduler.Clone.Dangling.{connect_copies_dangling, copy_vertices_cong, length-ArePairs}
use dag_scheduler.Connect.{connect, connect_ends, connection_would_make_cyclic}

edges-cut_vertex :
    (g : Dag) (a b : ℕ) → (a == b) ≡ false → ((cut_vertex g a).cell b).edges ≡ (g.cell b).edges
unfolding cut_vertex
edges-cut_vertex g a b n = rw n (release_edges (g.cell a).edges g b)

module _ ⦃env : Externals⦄ (g : Dag) (a b : ℕ) (valid : IsValid g)
    (there : contains g.graph a ≡ true) (arc : Arc g b a) (apart : b ≢ a) where
  left : Dag
  left = (remove_vertex_by_uuid g (g.cell a).uuid).0

  left_graph : left.graph ≡ keep_if (λ x. not (is_id (g.cell a).uuid g x)) g.graph
  unfolding left
  left_graph = (remove_vertex_by_uuid_lem (g.cell a).uuid g).0

  left_cells : left.cell ≡ (cut_vertex g a).cell
  unfolding left remove_vertex_by_uuid
  left_cells =
      remove_where_cells g (λ h o. uuid_eq (h.cell o).uuid (g.cell a).uuid) a
        (is_id-Follows g (g.cell a).uuid a valid there refl) valid.linked.distinct there

  contains-left :
      (x : ℕ) → contains left.graph x ≡ (contains g.graph x && not (is_id (g.cell a).uuid g x))
  contains-left x =
      ap (λ l. contains l x) left_graph
      ∙ contains-keep_if (λ x. not (is_id (g.cell a).uuid g x)) g.graph x

  gone : contains left.graph a ≡ false
  gone =
      let same = (uuid_eq_iff (g.cell a).uuid (g.cell a).uuid).1 refl in
      ground (arith, contains-left a, same)

  stays : contains left.graph b ≡ true
  stays = elim (Bool-cases (is_id (g.cell a).uuid g b)) [
    | inl same ↦
        absurd (
          apart
            (valid.keyed b a arc.0 there ((uuid_eq_iff (g.cell b).uuid (g.cell a).uuid).0 same)))
    | inr other ↦ ground (arith, contains-left b, other, arc.0)
  ]

  leads : 0 < in_edges a (left.cell b).edges
  leads =
      let kept : (left.cell b).edges ≡ (g.cell b).edges =
        ap (λ (c : ℕ → Vertex). (c b).edges) left_cells
        ∙ edges-cut_vertex g a b (ground (arith, apart)) in
      subst (λ es. 0 < in_edges a es) (sym kept) arc.1

  same_copies : (x : ℕ) → clone_vertex (left.cell x) ≡ clone_vertex (g.cell x)
  same_copies x =
      clone_vertex-payload (left.cell x) (g.cell x)
        (ap (λ (c : ℕ → Vertex). payload (c x)) left_cells ∙ payload-cut_vertex g a x)

  empty : Dag
  empty = record left { graph = []; title = ""; json_config = some "null" }

  empty-IsValid : IsValid empty
  unfolding empty edge_count
  empty-IsValid = record {
    linked = record {
      distinct = tt;
      links = λ u m. absurd (false≢true m);
      counted = λ u m. absurd (false≢true m);
      small = omega arith;
    };
    keyed = λ a b m. absurd (false≢true m);
    fresh = λ a m. absurd (false≢true m);
  }

  copied_long : length left.graph ≤ length (copy_vertices left empty left.graph).graph
  unfolding empty
  copied_long =
      let (bs, r) =
        copy_vertices_lem g valid left.graph empty empty-IsValid (λ x m. absurd (false≢true m))
          (λ x m. ground (arith, contains-left x, m))
          (subst IsDistinct (sym left_graph) (
            IsDistinct-keep_if (λ x. not (is_id (g.cell a).uuid g x)) g.graph
              valid.linked.distinct))
          (λ x m y n. absurd (false≢true n)) in
      let as_made = copy_vertices_cong left g empty left.graph same_copies in
      omega (
        arith,
        length-ArePairs g (copy_vertices g empty left.graph) left.graph bs r.pairs,
        ap length r.graph,
        ap (λ (h : Dag). length h.graph) as_made,
      )

  clone_left : clone left ≡ fault
  unfolding clone empty
  clone_left =
      let stuck =
        connect_copies_dangling left a b gone leads (copy_vertices left empty left.graph) left.graph
          (copy_vertices left empty left.graph).graph stays copied_long in
      rw stuck refl

  connect_left :
      (x y : ℕ)
      → contains left.graph x ≡ true
      → contains left.graph y ≡ true
      → connect_ends left (some x) (some y) ≡ fault
  unfolding connect_ends connection_would_make_cyclic
  connect_left x y m n = rw (m, n, clone_left) refl

  -- After the removal of a vertex of a valid DAG that an edge of another vertex leads to, the copy
  -- constructor dereferences a null pointer, since the weak pointer of the edge has expired; and so
  -- does `connect` for any two vertices that it finds, since it copies the DAG.
  pub removal_faults :
      (clone (remove_vertex_by_uuid g (g.cell a).uuid).0 ≡ fault)
      × ((v1 v2 : Vertex) (x y : ℕ)
          → find_vertex (remove_vertex_by_uuid g (g.cell a).uuid).0 v1 ≡ some x
          → find_vertex (remove_vertex_by_uuid g (g.cell a).uuid).0 v2 ≡ some y
          → connect (remove_vertex_by_uuid g (g.cell a).uuid).0 v1 v2 ≡ fault)
  unfolding left connect find_vertex
  removal_faults = (
    clone_left,
    λ v1 v2 x y e1 e2.
        let found1 = find_vertex_by_uuid_sound left v1.uuid x e1 in
        let found2 = find_vertex_by_uuid_sound left v2.uuid y e2 in
        ap (λ o. connect_ends left o (find_vertex left v2)) e1
        ∙ ap (connect_ends left (some x)) e2
        ∙ connect_left x y found1.0 found2.0,
  )
