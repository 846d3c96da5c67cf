-- ===== src/Dag/Find.antt =====
-- The search for a vertex by its UUID.
use mathlib.Core.Bool.{false≢true}
use dag_scheduler.Base.{
  refl, arith, ap, ==_iff, ◌∙◌, ◌==◌, inr, inl, Bool-cases, sym, subst, Option-cases, ◌≢◌, true,
  Option, ◌∷◌, contains, List, false, none, some, ℕ, [], ◌≡◌,
}
use dag_scheduler.Externals.{Externals}
use dag_scheduler.Uuid.{uuid_eq, uuid_eq_iff}
use dag_scheduler.Dag.{Dag, find_in, find_vertex_by_uuid}
use dag_scheduler.Dag.Valid.{IsValid}

module _ ⦃env : Externals⦄ (g : Dag) (u : ℕ) where
  abbrev Finds : List ℕ → Option ℕ → Type 0
  Finds l none = (a : ℕ) → contains l a ≡ true → (g.cell a).uuid ≢ u
  Finds l (some a) = (contains l a ≡ true) × ((g.cell a).uuid ≡ u)

  Finds-cons :
      (x : ℕ) (l : List ℕ) (o : Option ℕ) → (g.cell x).uuid ≢ u → Finds l o → Finds (x ∷ l) o
  Finds-cons x l none ne h = λ a m same. elim (Bool-cases (x == a)) [
    | inl e ↦ ne (subst (λ b. (g.cell b).uuid ≡ u) (sym ((==_iff x a).0 e)) same)
    | inr e ↦ h a (ground arith) same
  ]
  Finds-cons x l (some a) ne h = (ground arith, h.1)

  differs : (x : ℕ) → uuid_eq u (g.cell x).uuid ≡ false → (g.cell x).uuid ≢ u
  differs x e same = absurd (false≢true (sym e ∙ (uuid_eq_iff u (g.cell x).uuid).1 (sym same)))

  find_in-Finds : (l : List ℕ) → Finds l (find_in g u l)
  unfolding find_in
  find_in-Finds [] = λ a m. absurd (false≢true m)
  find_in-Finds (x ∷ l) = elim (Bool-cases (uuid_eq u (g.cell x).uuid)) [
    | inl e ↦ rw e (ground arith, sym ((uuid_eq_iff u (g.cell x).uuid).0 e))
    | inr e ↦ rw e (Finds-cons x l (find_in g u l) (differs x e) (find_in-Finds l))
  ]

  -- The vertex that is found is one of the graph with that UUID, and nothing is found only if there
  -- is none.
  pub find_vertex_by_uuid-Finds : Finds g.graph (find_vertex_by_uuid g u)
  unfolding find_vertex_by_uuid
  find_vertex_by_uuid-Finds = find_in-Finds g.graph

module _ ⦃env : Externals⦄ (g : Dag) where
  pub find_vertex_by_uuid_sound :
      (u a : ℕ)
      → find_vertex_by_uuid g u ≡ some a
      → (contains g.graph a ≡ true) × ((g.cell a).uuid ≡ u)
  find_vertex_by_uuid_sound u a h = subst (Finds g u g.graph) h (find_vertex_by_uuid-Finds g u)

  pub find_vertex_by_uuid_complete :
      (u : ℕ)
      → find_vertex_by_uuid g u ≡ none
      → (a : ℕ) → contains g.graph a ≡ true
      → (g.cell a).uuid ≢ u
  find_vertex_by_uuid_complete u h = subst (Finds g u g.graph) h (find_vertex_by_uuid-Finds g u)

  -- In a valid graph a vertex is found by its UUID.
  pub find_vertex_by_uuid_self :
      (a : ℕ)
      → IsValid g
      → contains g.graph a ≡ true
      → find_vertex_by_uuid g (g.cell a).uuid ≡ some a
  find_vertex_by_uuid_self a valid there =
      elim (Option-cases (find_vertex_by_uuid g (g.cell a).uuid)) [
        | inl h ↦ absurd (find_vertex_by_uuid_complete (g.cell a).uuid h a there refl)
        | inr (b, h) ↦
            let (b_there, same) = find_vertex_by_uuid_sound (g.cell a).uuid b h in
            h ∙ ap some (valid.keyed b a b_there there same)
      ]
