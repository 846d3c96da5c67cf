-- ===== src/Graph/Removes.antt =====
-- `remove_vertex_by_uuid` on a vertex that no edge leads to.
use dag_scheduler.Base.{
  ℕ, ◌<◌, ◌≤◌, ◌≡◌, ◌↔◌, ◌∙◌, refl, sym, ap, subst, arith, Bool, true, false, not, List, [], ◌∷◌,
  ◌==◌, contains, length, if◌then◌else◌, keep_if, contains-keep_if, Bool-cases, inl, inr, Option,
  none, some,
}
use dag_scheduler.Externals.{Externals}
use dag_scheduler.Uuid.{uuid_eq, uuid_eq_iff}
use dag_scheduler.Vertex.{Edge}
use dag_scheduler.Dag.{Dag, lock, decrement, edge_count}
use dag_scheduler.Dag.Degrees.{in_edges}
use dag_scheduler.Dag.Valid.{IsValid}
use dag_scheduler.Dag.Keys.{Has, KeyArc, IsAcyclic_of_iff}
use dag_scheduler.Connect.Joins.{IsSound}
use dag_scheduler.Remove.{
  remove_vertex_by_uuid, remove_where, release, cut_vertex, Removal, drop_vertex, keep_vertex,
  owners, remove_if,
}
use dag_scheduler.Remove.Kept.{Follows, remove_where_lem}
use dag_scheduler.Remove.Cells.{remove_where_cells}
use dag_scheduler.Process.Layers.{any_of-contains}
use dag_scheduler.Process.Linked.{left-IsLinked, sum_left, other}

-- What a removal leaves alone.
abbrev pub Same : Dag → Dag → Type 0
Same g h =
    (h.next_addr ≡ g.next_addr)
    × (h.json_config ≡ g.json_config)
    × (h.draws ≡ g.draws)
    × (h.title ≡ g.title)

decrement-Same : (g : Dag) (v : Option ℕ) → Same g (decrement g v)
unfolding decrement
decrement-Same g none = (refl, refl, refl, refl)
decrement-Same g (some a) = (refl, refl, refl, refl)

release-Same : (es : List Edge) (g : Dag) → Same g (release g es)
unfolding release
release-Same [] g = (refl, refl, refl, refl)
release-Same (e ∷ es) g =
    let first = decrement-Same g (lock g e.connection) in
    let rest = release-Same es (decrement g (lock g e.connection)) in
    (rest.0 ∙ first.0, rest.1 ∙ first.1, rest.2 ∙ first.2, rest.3 ∙ first.3)

one-Same :
    (r : Removal) (a : ℕ) (b : Bool)
    → Same r.dag (if b then drop_vertex r a else keep_vertex r a).dag
unfolding drop_vertex keep_vertex cut_vertex
one-Same r a true = release-Same (r.dag.cell a).edges r.dag
one-Same r a false = (refl, refl, refl, refl)

remove_if-Same :
    (found : Dag → ℕ → Bool) (rest : List ℕ) (r : Removal) → Same r.dag (remove_if found rest r).dag
unfolding remove_if
remove_if-Same found [] r = (refl, refl, refl, refl)
remove_if-Same found (a ∷ rest) r =
    let here = record r { dag = owners r (a ∷ rest) } in
    let first = one-Same here a (found here.dag a) in
    let later =
      remove_if-Same found rest
        (if found here.dag a then drop_vertex here a else keep_vertex here a) in
    (later.0 ∙ first.0, later.1 ∙ first.1, later.2 ∙ first.2, later.3 ∙ first.3)

pub remove_where-Same : (found : Dag → ℕ → Bool) (g : Dag) → Same g (remove_where found g).0
unfolding remove_where
remove_where-Same found g =
    remove_if-Same found g.graph (record { kept = []; slots = []; dag = g; ret = false })

module _ ⦃env : Externals⦄ where
  pub is_id-Follows :
      (g : Dag) (id a : ℕ)
      → IsValid g
      → contains g.graph a ≡ true
      → (g.cell a).uuid ≡ id
      → Follows g (λ h o. uuid_eq (h.cell o).uuid id) (λ b. b == a) g.graph
  is_id-Follows g id a valid there e h o same m = elim (Bool-cases (o == a)) [
    | inl y ↦
        let one : o ≡ a = ground arith in
        (uuid_eq_iff (h.cell o).uuid id).1 (same o ∙ ap (λ x. (g.cell x).uuid) one ∙ e) ∙ sym y
    | inr n ↦ elim (Bool-cases (uuid_eq (h.cell o).uuid id)) [
      | inl y ↦
          let one : o ≡ a =
            valid.keyed o a m there (sym (same o) ∙ (uuid_eq_iff (h.cell o).uuid id).0 y ∙ sym e) in
          absurd (ground (arith, one, n))
      | inr z ↦ z ∙ sym n
    ]
  ]

  -- The graph without the vertex at `a` and the edges that leave it.
  pub record IsWithout (g : Dag) (a : ℕ) (g' : Dag) : Type 0 where
    pub sound : IsSound g'
    pub has : (x : ℕ) → Has g' x ↔ (Has g x × ¬ (x ≡ (g.cell a).uuid))
    pub arcs : (x y : ℕ) → KeyArc g' x y ↔ (KeyArc g x y × ¬ (x ≡ (g.cell a).uuid))
    pub count : edge_count g' ≤ edge_count g

  module _ (g g' : Dag) (a : ℕ) (sound : IsSound g) (there : contains g.graph a ≡ true)
      (root : (g.cell a).incomming ≡ 0)
      (graph_left : g'.graph ≡ keep_if (λ b. not (b == a)) g.graph)
      (cells : g'.cell ≡ (cut_vertex g a).cell)
      (uuids : (b : ℕ) → (g'.cell b).uuid ≡ (g.cell b).uuid) where
    in_old : (v : ℕ) → contains g'.graph v ≡ true → (contains g.graph v ≡ true) × ((v == a) ≡ false)
    in_old v m = ground (
      arith,
      ap (λ l. contains l v) graph_left,
      contains-keep_if (λ b. not (b == a)) g.graph v,
      m,
    )

    in_new : (v : ℕ) → contains g.graph v ≡ true → (v == a) ≡ false → contains g'.graph v ≡ true
    in_new v m n =
        ap (λ l. contains l v) graph_left
        ∙ contains-keep_if (λ b. not (b == a)) g.graph v
        ∙ ground (arith, m, n)

    differs :
        (v : ℕ)
        → contains g.graph v ≡ true
        → (v == a) ≡ false
        → ¬ ((g.cell v).uuid ≡ (g.cell a).uuid)
    differs v m n e = let one = sound.valid.keyed v a m there e in absurd (ground (arith, one, n))

    differs_back : (v x : ℕ) → (g.cell v).uuid ≡ x → (¬ (x ≡ (g.cell a).uuid)) → (v == a) ≡ false
    differs_back v x e n = elim (Bool-cases (v == a)) [
      | inl y ↦ let one : v ≡ a = ground arith in absurd (n (sym e ∙ ap (λ z. (g.cell z).uuid) one))
      | inr z ↦ z
    ]

    same_edges :
        (v : ℕ)
        → contains g.graph v ≡ true
        → (v == a) ≡ false
        → (g'.cell v).edges ≡ (g.cell v).edges
    same_edges v m n = (other g g' a sound.valid.linked there root graph_left cells v m n).0

    left_vertices : (x : ℕ) → Has g' x ↔ (Has g x × ¬ (x ≡ (g.cell a).uuid))
    left_vertices x = (
      λ (b, m, e).
          let (old, n) = in_old b m in
          let e' = sym (uuids b) ∙ e in ((b, old, e'), λ same. differs b old n (e' ∙ same)),
      λ ((b, m, e), n). (b, in_new b m (differs_back b x e n), uuids b ∙ e),
    )

    left_arcs : (x y : ℕ) → KeyArc g' x y ↔ (KeyArc g x y × ¬ (x ≡ (g.cell a).uuid))
    left_arcs x y = (
      λ (u, v, m, p, eu, ev).
          let (old, n) = in_old u m in
          let eu' = sym (uuids u) ∙ eu in
          (
            (
              u,
              v,
              old,
              subst (λ es. 0 < in_edges v es) (same_edges u old n) p,
              eu',
              sym (uuids v) ∙ ev,
            ),
            λ same. differs u old n (eu' ∙ same),
          ),
      λ ((u, v, m, p, eu, ev), d).
          let n = differs_back u x eu d in
          (
            u,
            v,
            in_new u m n,
            subst (λ es. 0 < in_edges v es) (sym (same_edges u m n)) p,
            uuids u ∙ eu,
            uuids v ∙ ev,
          ),
    )

    left-IsWithout : Same g g' → IsWithout g a g'
    unfolding edge_count
    left-IsWithout same = record {
      sound = record {
        valid = record {
          linked = left-IsLinked g g' a sound.valid.linked there root graph_left cells;
          keyed = λ b c mb mc e.
              sound.valid.keyed b c (in_old b mb).0 (in_old c mc).0 (sym (uuids b) ∙ e ∙ uuids c);
          fresh = λ b m. omega (arith, sound.valid.fresh b (in_old b m).0, same.0);
        };
        acyclic = IsAcyclic_of_iff _ _ (λ x y arc. ((left_arcs x y).0 arc).0) sound.acyclic;
        document = (sound.document.0, same.1 ∙ sound.document.1);
      };
      has = left_vertices;
      arcs = left_arcs;
      count = omega (arith, sum_left g g' a sound.valid.linked there root graph_left cells length);
    }

  -- `remove_vertex_by_uuid` on a vertex that no edge leads to, in a valid DAG with a document and no
  -- cycle, returns true and takes the vertex and the edges that leave it from the graph; the DAG
  -- stays valid.
  pub remove_root_by_uuid :
      (g : Dag) (a : ℕ)
      → IsSound g
      → contains g.graph a ≡ true
      → (g.cell a).incomming ≡ 0
      → ((remove_vertex_by_uuid g (g.cell a).uuid).1 ≡ true)
        × IsWithout g a (remove_vertex_by_uuid g (g.cell a).uuid).0
  unfolding remove_vertex_by_uuid
  remove_root_by_uuid g a sound there root =
      let id = (g.cell a).uuid in
      let found = λ (h : Dag) (o : ℕ). uuid_eq (h.cell o).uuid id in
      let follows = is_id-Follows g id a sound.valid there refl in
      let (kept, ret, uuids) = remove_where_lem g found (λ b. b == a) follows in
      (
        ret ∙ any_of-contains (λ b. b == a) g.graph a there (ground arith),
        left-IsWithout g (remove_where found g).0 a sound there root kept
            (remove_where_cells g found a follows sound.valid.linked.distinct there) uuids
            (remove_where-Same found g),
      )
