-- ===== src/Graph/Adds.antt =====
-- The graph that a DAG stands for, and `add_vertex` on the two.
use mathlib.Core.Bool.{false≢true}
use dag_scheduler.Base.{
  ℕ, ◌<◌, ◌≡◌, ◌∙◌, ◌⊎◌, ◌↔◌, refl, sym, ap, subst, arith, Bool, true, false, not, ◌&&◌, ◌||◌, ◌==◌,
  none, some, inl, inr, ==_iff, [],
}
use dag_scheduler.Externals.{Externals}
use dag_scheduler.Vertex.{Vertex}
use dag_scheduler.Dag.{Dag, add_vertex, find_vertex}
use dag_scheduler.Dag.Degrees.{in_edges}
use dag_scheduler.Dag.Valid.{Arc-target}
use dag_scheduler.Dag.Add.{add_vertex_lem}
use dag_scheduler.Dag.Find.{find_vertex_by_uuid_sound, find_vertex_by_uuid_complete}
use dag_scheduler.Dag.Keys.{Has, KeyArc}
use dag_scheduler.Connect.Joins.{IsSound}
use dag_scheduler.Connect.Keeps.{add_vertex-IsSound, add_vertex_arcs}
use dag_scheduler.Graph.{Graph, insert}

-- The graph that the DAG stands for.
pub record Models (G : Graph) (g : Dag) : Type 0 where
  pub sound : IsSound g
  pub has : (x : ℕ) → (G.has x ≡ true) ↔ Has g x
  pub arcs : (x y : ℕ) → (G.arc x y ≡ true) ↔ KeyArc g x y

pub either : (a b : Bool) → ((a || b) ≡ true) ↔ ((a ≡ true) ⊎ (b ≡ true))
either true b = (λ e. inl refl, λ s. refl)
either false b = (λ e. inr e, λ s. elim s [ inl e ↦ absurd (false≢true e) | inr e ↦ e ])

pub same_pair : (z w x y : ℕ) → ((z == x && w == y) ≡ true) ↔ ((z ≡ x) × (w ≡ y))
same_pair z w x y = ground (arith, ==_iff z x, ==_iff w y)

decided : (a b : Bool) → ((a ≡ true) → (b ≡ false)) → ((a ≡ false) → (b ≡ true)) → b ≡ not a
decided true b t f = t refl
decided false b t f = f refl

pub not_true : (b : Bool) → (¬ b ≡ true) → b ≡ false
not_true true n = absurd (n refl)
not_true false n = refl

module _ ⦃env : Externals⦄ (G : Graph) (g : Dag) (m : Models G g) where
  pub found_has : (v : Vertex) (a : ℕ) → find_vertex g v ≡ some a → G.has v.uuid ≡ true
  unfolding find_vertex
  found_has v a found =
      let (there, same) = find_vertex_by_uuid_sound g v.uuid a found in
      (m.has v.uuid).1 (a, there, same)

  pub missing : (v : Vertex) → find_vertex g v ≡ none → G.has v.uuid ≡ false
  unfolding find_vertex
  missing v lost = not_true (G.has v.uuid) (λ e.
      let (a, there, same) = (m.has v.uuid).0 e in
      find_vertex_by_uuid_complete g v.uuid lost a there same)

  module _ (v : Vertex) (no_edges : v.edges ≡ []) (no_incomming : v.incomming ≡ 0) where
    added_has : (y : ℕ) → ((G.has y || y == v.uuid) ≡ true) ↔ Has (add_vertex g v).0 y
    added_has y =
        let r = add_vertex_lem g v m.sound.valid no_edges no_incomming in
        (
          λ e. elim ((either (G.has y) (y == v.uuid)).0 e) [
            | inl old ↦
                let (a, there, same) = (m.has y).0 old in
                (a, (r.kept a there).0, ap (λ (w : Vertex). w.uuid) (r.kept a there).1 ∙ same)
            | inr new ↦
                let (there, same) =
                  find_vertex_by_uuid_sound (add_vertex g v).0 v.uuid r.found.0 r.found.1 in
                (r.found.0, there, same ∙ sym ((==_iff y v.uuid).0 new))
          ],
          λ (a, there, same). elim (r.only a there) [
            | inl old ↦ (either (G.has y) (y == v.uuid)).1 (
                inl
                  ((m.has y).1 (a, old, ap (λ (w : Vertex). w.uuid) (sym (r.kept a old).1) ∙ same)))
            | inr e ↦
                (either (G.has y) (y == v.uuid)).1
                  (inr ((==_iff y v.uuid).1 (sym same ∙ ap (λ (w : Vertex). w.uuid) e)))
          ],
        )

    added_arcs : (x y : ℕ) → (G.arc x y ≡ true) ↔ KeyArc (add_vertex g v).0 x y
    added_arcs x y =
        let r = add_vertex_lem g v m.sound.valid no_edges no_incomming in
        (
          λ e.
              let (a, c, there, p, from, to) = (m.arcs x y).0 e in
              let c_there = Arc-target g a c m.sound.valid.linked (there, p) in
              (
                a,
                c,
                (r.kept a there).0,
                subst (λ (w : Vertex). 0 < in_edges c w.edges) (sym (r.kept a there).1) p,
                ap (λ (w : Vertex). w.uuid) (r.kept a there).1 ∙ from,
                ap (λ (w : Vertex). w.uuid) (r.kept c c_there).1 ∙ to,
              ),
          λ arc. (m.arcs x y).1 (add_vertex_arcs g v m.sound no_edges no_incomming x y arc),
        )

    pub adds-Models : Models (insert G v.uuid) (add_vertex g v).0
    adds-Models = record {
      sound = add_vertex-IsSound g v m.sound no_edges no_incomming;
      has = added_has;
      arcs = added_arcs;
    }

    pub adds_returns : (add_vertex g v).2 ≡ not (G.has v.uuid)
    adds_returns =
        let r = add_vertex_lem g v m.sound.valid no_edges no_incomming in
        decided (G.has v.uuid) (add_vertex g v).2
          (λ old.
            let (a, there, same) = (m.has v.uuid).0 old in
            not_true (add_vertex g v).2 (λ t. r.returned.0 t a there same))
          (λ new.
            r.returned.1 (λ a there same. false≢true (sym new ∙ (m.has v.uuid).1 (a, there, same))))
