-- ===== src/Connect/Keeps.antt =====
-- The operations that keep a DAG valid and free of cycles.
use mathlib.Core.Bool.{false≢true}
use dag_scheduler.Base.{
  ◌≤◌, length, sum_over, IsDistinct, ℕ, ◌+◌, ◌<◌, ◌≡◌, ◌∙◌, ◌⊎◌, sym, ap, subst, arith, Bool, true,
  false, contains, some, none, inl, inr, ok, throws, String, [], Option-cases, ok-injective,
}
use dag_scheduler.Externals.{Externals}
use dag_scheduler.Vertex.{Vertex, size_mod}
use dag_scheduler.Dag.{Dag, find_vertex, add_vertex, edge_count}
use dag_scheduler.Dag.Degrees.{in_edges, indegree}
use dag_scheduler.Dag.Valid.{IsValid, Arc-target}
use dag_scheduler.Dag.Find.{find_vertex_by_uuid_sound, find_vertex_by_uuid_self}
use dag_scheduler.Dag.Add.{add_vertex_lem}
use dag_scheduler.Dag.Keys.{KeyArc, IsAcyclic, IsAcyclic_of_iff}
use dag_scheduler.Clone.{clone}
use dag_scheduler.Clone.Correct.{clone_lem}
use dag_scheduler.Connect.{connect, connect_ends}
use dag_scheduler.Connect.Cycles.{WithArc, KeyArc-Grows}
use dag_scheduler.Connect.Joins.{IsSound, IsJoined, connect_cases}

module _ ⦃env : Externals⦄ where
  pub found_there :
      (g : Dag) (v : Vertex) (a : ℕ) → find_vertex g v ≡ some a → contains g.graph a ≡ true
  unfolding find_vertex
  found_there g v a found = (find_vertex_by_uuid_sound g v.uuid a found).0

  found_self :
      (g : Dag) (a : ℕ) → IsValid g → contains g.graph a ≡ true → find_vertex g (g.cell a) ≡ some a
  unfolding find_vertex
  found_self g a valid there = find_vertex_by_uuid_self g a valid there

  -- `connect` looks its arguments up by their UUIDs.
  pub connect_self :
      (g : Dag) (v1 v2 : Vertex) (a b : ℕ)
      → IsValid g
      → find_vertex g v1 ≡ some a
      → find_vertex g v2 ≡ some b
      → connect g v1 v2 ≡ connect g (g.cell a) (g.cell b)
  unfolding connect
  connect_self g v1 v2 a b valid f1 f2 =
      ap (λ x. connect_ends g x (find_vertex g v2))
        (f1 ∙ sym (found_self g a valid (found_there g v1 a f1)))
      ∙ ap (connect_ends g (find_vertex g (g.cell a)))
          (f2 ∙ sym (found_self g b valid (found_there g v2 b f2)))

  pub connect_missing1 :
      (g : Dag) (v1 v2 : Vertex) → find_vertex g v1 ≡ none → connect g v1 v2 ≡ ok (g, false)
  unfolding connect connect_ends
  connect_missing1 g v1 v2 f1 = ap (λ x. connect_ends g x (find_vertex g v2)) f1

  pub connect_missing2 :
      (g : Dag) (v1 v2 : Vertex) (a : ℕ)
      → find_vertex g v1 ≡ some a
      → find_vertex g v2 ≡ none
      → connect g v1 v2 ≡ ok (g, false)
  unfolding connect connect_ends
  connect_missing2 g v1 v2 a f1 f2 =
      ap (λ x. connect_ends g x (find_vertex g v2)) f1 ∙ ap (connect_ends g (some a)) f2

  pub joined-IsSound :
      (g g' : Dag) (a b : ℕ)
      → IsSound g
      → contains g.graph a ≡ true
      → contains g.graph b ≡ true
      → IsJoined g a b g'
      → IsAcyclic (WithArc g (g.cell a).uuid (g.cell b).uuid)
      → IsSound g'
  joined-IsSound g g' a b sound a_there b_there j acyclic = record {
    valid = j.grows.valid;
    acyclic =
        IsAcyclic_of_iff _ _
          (λ x y. (KeyArc-Grows g g' a b 1 sound.valid a_there b_there j.grows x y).0) acyclic;
    document = (sound.document.0, j.document ∙ sound.document.1);
  }

  -- What a call of `connect` may end in.
  abbrev pub Connects : Dag → Vertex → Vertex → Type 0
  Connects g v1 v2 =
      (connect g v1 v2 ≡ throws)
      ⊎ ((g' : Dag) × (r : Bool) × (connect g v1 v2 ≡ ok (g', r))
          × IsSound g'
          × (edge_count g' ≤ edge_count g + 1))

  -- From a valid DAG with no cycle and with a document, `connect` of any two vertices, also of ones
  -- that the DAG does not have, throws or returns a DAG that is valid, has a document and no
  -- cycle, and at most one more edge. There is room for one more edge.
  pub connect-IsSound :
      (g : Dag) (v1 v2 : Vertex) → IsSound g → edge_count g + 1 < size_mod → Connects g v1 v2
  connect-IsSound g v1 v2 sound room = elim (Option-cases (find_vertex g v1)) [
    | inl f1 ↦ inr (g, false, connect_missing1 g v1 v2 f1, sound, omega arith)
    | inr (a, f1) ↦ elim (Option-cases (find_vertex g v2)) [
      | inl f2 ↦ inr (g, false, connect_missing2 g v1 v2 a f1 f2, sound, omega arith)
      | inr (b, f2) ↦
          let (text, has) = sound.document in
          let self = connect_self g v1 v2 a b sound.valid f1 f2 in
          let a_there = found_there g v1 a f1 in
          let b_there = found_there g v2 b f2 in
          elim (connect_cases g text sound.valid has a b a_there b_there room) [
            | inl (acyclic, (g', ends, j)) ↦ inr (
              g',
              true,
              self ∙ ends,
              joined-IsSound g g' a b sound a_there b_there j acyclic,
              j.grows.count,
            )
            | inr (bad, refused) ↦ inl (self ∙ refused.thrown sound.acyclic)
          ]
    ]
  ]

  -- A vertex with no edges brings none.
  pub add_vertex_arcs :
      (g : Dag) (v : Vertex)
      → IsSound g
      → v.edges ≡ []
      → v.incomming ≡ 0
      → (x y : ℕ) → KeyArc (add_vertex g v).0 x y
      → KeyArc g x y
  add_vertex_arcs g v sound no_edges no_incomming x y (a, c, m, p, ex, ey) =
      let r = add_vertex_lem g v sound.valid no_edges no_incomming in
      elim (r.only a m) [
        | inl old ↦
            let p_old : 0 < in_edges c (g.cell a).edges =
              subst (λ (w : Vertex). 0 < in_edges c w.edges) (r.kept a old).1 p in
            let c_there = Arc-target g a c sound.valid.linked (old, p_old) in
            (
              a,
              c,
              old,
              p_old,
              ap (λ (w : Vertex). w.uuid) (sym (r.kept a old).1) ∙ ex,
              ap (λ (w : Vertex). w.uuid) (sym (r.kept c c_there).1) ∙ ey,
            )
        | inr e ↦ absurd (
            omega
              (arith, subst (λ (w : Vertex). 0 < in_edges c w.edges) e p, ap (in_edges c) no_edges))
      ]

  pub add_vertex-IsSound :
      (g : Dag) (v : Vertex)
      → IsSound g
      → v.edges ≡ []
      → v.incomming ≡ 0
      → IsSound (add_vertex g v).0
  add_vertex-IsSound g v sound no_edges no_incomming =
      let r = add_vertex_lem g v sound.valid no_edges no_incomming in
      record {
        valid = r.valid_after;
        acyclic =
            IsAcyclic_of_iff _ _ (add_vertex_arcs g v sound no_edges no_incomming) sound.acyclic;
        document = (sound.document.0, r.same_document ∙ sound.document.1);
      }

  -- An empty DAG.
  pub empty-IsSound :
      (g : Dag) (text : String) → g.graph ≡ [] → g.json_config ≡ some text → IsSound g
  unfolding indegree edge_count
  empty-IsSound g text bare has = record {
    valid = record {
      linked = record {
        distinct = subst IsDistinct (sym bare) tt;
        links = λ u m. absurd (nothing u m);
        counted = λ u m. absurd (nothing u m);
        small = omega (arith, ap (sum_over (λ a. length (g.cell a).edges)) bare);
      };
      keyed = λ a b m. absurd (nothing a m);
      fresh = λ a m. absurd (nothing a m);
    };
    acyclic = ((λ x. x), λ x y arc. absurd (nothing arc.0 arc.2));
    document = (text, has);
  }
    where
      nothing : (u : ℕ) → ¬ contains g.graph u ≡ true
      nothing u m = false≢true (sym (ap (λ l. contains l u) bare) ∙ m)

  pub clone-IsSound : (g h : Dag) → IsSound g → clone g ≡ ok h → IsSound h
  clone-IsSound g h sound ends =
      let (text, has) = sound.document in
      let (h1, made, c) = clone_lem g sound.valid text has in
      subst IsSound (ok-injective (sym made ∙ ends)) (record {
        valid = c.valid;
        acyclic = IsAcyclic_of_iff _ _ (λ x y. (c.arcs x y).0) sound.acyclic;
        document = (text, c.json_config ∙ has);
      })
