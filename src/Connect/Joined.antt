-- ===== src/Connect/Joined.antt =====
-- `are_connected`.
use mathlib.Core.Bool.{false≢true}
use dag_scheduler.Base.{
  fault, ◌⊎◌, ℕ, ◌<◌, ◌≡◌, ◌∙◌, ◌↔◌, refl, ap, arith, Bool, true, false, contains, some, none, ok,
  List, [], ◌∷◌, ◌==◌, if◌then◌else◌, inl, inr, Option,
}
use dag_scheduler.Externals.{Externals}
use dag_scheduler.Vertex.{Edge}
use dag_scheduler.Dag.{Dag, lock, find_vertex, find_vertex_by_uuid}
use dag_scheduler.Dag.Degrees.{in_edges, hits, Arc, AreLinks}
use dag_scheduler.Dag.Valid.{IsValid}
use dag_scheduler.Dag.Find.{find_vertex_by_uuid_self}
use dag_scheduler.Connect.{leads_to, are_connected}

module _ ⦃env : Externals⦄ where
  lock_link :
      (g : Dag) (c : Option ℕ) (a : ℕ) → c ≡ some a → contains g.graph a ≡ true → lock g c ≡ some a
  unfolding lock
  lock_link g c a leads there = ap (lock g) leads ∙ rw there refl

  -- The visitor finds an edge to `b`, or keeps what it had.
  leads_to_lem :
      (g : Dag) (b : ℕ) (es : List Edge) (ret : Bool)
      → AreLinks g.graph es
      → (r : Bool) × (leads_to g b ret es ≡ ok r)
        × ((r ≡ true) ↔ ((ret ≡ true) ⊎ (0 < in_edges b es)))
  unfolding leads_to
  leads_to_lem g b [] ret links =
      (ret, refl, (inl, λ s. elim s [ inl e ↦ e | inr p ↦ absurd (omega arith) ]))
  leads_to_lem g b (e ∷ es) ret ((a, leads, there), links) =
      let (r, ends, iff) = leads_to_lem g b es (if a == b then true else ret) links in
      (
        r,
        ap
              (λ (o : Option ℕ). elim o [
                | none ↦ fault
                | some c ↦ leads_to g b (if c == b then true else ret) es
              ])
              (lock_link g e.connection a leads there)
            ∙ ends,
        ground (arith, iff, ap (hits b) leads),
      )

  -- `are_connected` on two vertices of a valid DAG returns whether there is an edge from the first to
  -- the second.
  pub are_connected_lem :
      (g : Dag) (a b : ℕ)
      → IsValid g
      → contains g.graph a ≡ true
      → contains g.graph b ≡ true
      → (r : Bool) × (are_connected g (g.cell a) (g.cell b) ≡ ok r) × ((r ≡ true) ↔ Arc g a b)
  unfolding are_connected find_vertex
  are_connected_lem g a b valid a_there b_there =
      let (r, ends, iff) = leads_to_lem g b (g.cell a).edges false (valid.linked.links a a_there) in
      (
        r,
        ap
              (λ (x : Option ℕ). elim x [
                | none ↦ fault
                | some d ↦ elim (find_vertex_by_uuid g (g.cell a).uuid) [
                  | none ↦ fault
                  | some c ↦ leads_to g d false (g.cell c).edges
                ]
              ])
              (find_vertex_by_uuid_self g b valid b_there)
            ∙ ap
                (λ (x : Option ℕ). elim x [
                  | none ↦ fault
                  | some c ↦ leads_to g b false (g.cell c).edges
                ])
                (find_vertex_by_uuid_self g a valid a_there)
            ∙ ends,
        (
          λ e. elim (iff.0 e) [ inl f ↦ absurd (false≢true f) | inr p ↦ (a_there, p) ],
          λ arc. iff.1 (inr arc.1),
        ),
      )
