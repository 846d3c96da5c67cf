-- ===== src/Dag/Seek.antt =====
-- The test whether a vertex has an edge to another one.
use mathlib.Core.Bool.{false≢true}
use native.Mathlib.Decide.{dec_lt}
use dag_scheduler.Base.{
  inl, inr, Bool-cases, ap, Option-cases, ◌∷◌, arith, ◌<◌, true, some, contains, List, ℕ, [], ◌≡◌,
}
use dag_scheduler.Externals.{Externals}
use dag_scheduler.Vertex.{Edge, vertex_eq, vertex_eq_self, vertex_eq_uuid}
use dag_scheduler.Dag.{Dag, contains_connection_to, is_a_connection_to}
use dag_scheduler.Dag.Degrees.{hits_self, hits_pos, in_edges, hits}
use dag_scheduler.Dag.Valid.{IsValid}

module _ ⦃env : Externals⦄ where
  is_a_connection_complete :
      (g : Dag) (o : ℕ) (e : Edge)
      → contains g.graph o ≡ true
      → e.connection ≡ some o
      → is_a_connection_to g e (g.cell o) ≡ true
  unfolding is_a_connection_to
  is_a_connection_complete g o e there leads = ground (arith, vertex_eq_self (g.cell o))

  is_a_connection_hits :
      (g : Dag) (o : ℕ) (e : Edge)
      → IsValid g
      → contains g.graph o ≡ true
      → is_a_connection_to g e (g.cell o) ≡ true
      → 0 < hits o e.connection
  unfolding is_a_connection_to
  is_a_connection_hits g o e valid there h = elim (Option-cases e.connection) [
    | inl null ↦ absurd (ground arith)
    | inr (a, leads) ↦
        let a_there : contains g.graph a ≡ true = ground arith in
        let equal : vertex_eq (g.cell o) (g.cell a) ≡ true = ground arith in
        let same = valid.keyed o a there a_there (vertex_eq_uuid (g.cell o) (g.cell a) equal) in
        omega (arith, ap (hits o) leads, ap (λ b. hits o (some b)) same, hits_self o)
  ]

  pub contains_connection_sound :
      (g : Dag) (o : ℕ) (es : List Edge)
      → IsValid g
      → contains g.graph o ≡ true
      → contains_connection_to g es (g.cell o) ≡ true
      → 0 < in_edges o es
  unfolding contains_connection_to
  contains_connection_sound g o [] valid there h = absurd (false≢true h)
  contains_connection_sound g o (e ∷ es) valid there h =
      elim (Bool-cases (is_a_connection_to g e (g.cell o))) [
        | inl here ↦ omega (arith, is_a_connection_hits g o e valid there here)
        | inr other ↦ omega (arith, contains_connection_sound g o es valid there (ground arith))
      ]

  pub contains_connection_complete :
      (g : Dag) (o : ℕ) (es : List Edge)
      → contains g.graph o ≡ true
      → 0 < in_edges o es
      → contains_connection_to g es (g.cell o) ≡ true
  unfolding contains_connection_to
  contains_connection_complete g o [] there h = absurd (omega arith)
  contains_connection_complete g o (e ∷ es) there h = elim (dec_lt 0 (hits o e.connection)) [
    | yes p ↦
        let here = is_a_connection_complete g o e there (hits_pos o e.connection p) in ground arith
    | no n ↦ let later = contains_connection_complete g o es there (omega arith) in ground (arith)
  ]
