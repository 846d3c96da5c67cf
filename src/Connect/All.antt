-- ===== src/Connect/All.antt =====
-- `connect_all_by_label`: each vertex with one label to each with another.
use dag_scheduler.Base.{
  sym, subst, ok-injective, ℕ, ◌+◌, ◌*◌, ◌<◌, ◌≤◌, ◌≡◌, ◌∙◌, ◌⊎◌, refl, ap, arith, Bool, true, inl,
  inr, ok, throws, String, List, [], ◌∷◌, length, Outcome, ◌>>=◌, ◌&&◌,
}
use dag_scheduler.Externals.{Externals}
use dag_scheduler.Vertex.{size_mod}
use dag_scheduler.Dag.{Dag, edge_count, find_all_verticies_with_label}
use dag_scheduler.Connect.{connect_to_all, connect_all, connect_all_by_label}
use dag_scheduler.Connect.Joins.{IsSound}
use dag_scheduler.Connect.Keeps.{connect-IsSound}

-- A call that throws, or returns a sound DAG with at most `n` more edges.
abbrev pub KeepsSound : Dag → ℕ → Outcome (Dag × Bool) → Type 0
KeepsSound g n o =
    (o ≡ throws)
    ⊎ ((g' : Dag) × (r : Bool) × (o ≡ ok (g', r)) × IsSound g' × (edge_count g' ≤ edge_count g + n))

ok_ne_throws : {g : Dag} {r : Bool} → ¬ (◌≡◌ {A = Outcome (Dag × Bool)} (ok (g, r)) throws)
ok_ne_throws h = cc

pub IsSound-of_ok :
    (g g' : Dag) (n : ℕ) (r : Bool) (o : Outcome (Dag × Bool))
    → KeepsSound g n o
    → o ≡ ok (g', r)
    → IsSound g'
IsSound-of_ok g g' n r o (inl thrown) ends = absurd (ok_ne_throws (sym ends ∙ thrown))
IsSound-of_ok g g' n r o (inr (k, c, returned, sound, count)) ends =
    subst IsSound (ap (λ (p : Dag × Bool). p.0) (ok-injective (sym returned ∙ ends))) sound

-- The pairs of a vertex with the one label and a vertex with the other.
abbrev pub pairs : Dag → String → String → ℕ
pairs g l1 l2 =
    length (find_all_verticies_with_label g l1) * length (find_all_verticies_with_label g l2)

module _ ⦃env : Externals⦄ where
  connect_to_all-IsSound :
      (us : List ℕ) (g : Dag) (ret : Bool) (v : ℕ)
      → IsSound g
      → edge_count g + length us < size_mod
      → KeepsSound g (length us) (connect_to_all g ret v us)
  unfolding connect_to_all
  connect_to_all-IsSound [] g ret v sound room = inr (g, ret, refl, sound, omega arith)
  connect_to_all-IsSound (u ∷ us) g ret v sound room =
      elim (connect-IsSound g (g.cell v) (g.cell u) sound (omega (arith, room))) [
        | inl thrown ↦ inl (ap (next ret) thrown)
        | inr (g', r, ends, sound', count) ↦
            elim (connect_to_all-IsSound us g' (ret && r) v sound' (omega (arith, room, count))) [
              | inl thrown ↦ inl (ap (next ret) ends ∙ thrown)
              | inr (k, s, rest, sound_k, count_k) ↦
                  inr (k, s, ap (next ret) ends ∙ rest, sound_k, omega (arith, count, count_k))
            ]
      ]
    where
      next : Bool → Outcome (Dag × Bool) → Outcome (Dag × Bool)
      next ret o = o >>= λ (g', connected). connect_to_all g' (ret && connected) v us

  connect_all-IsSound :
      (vs us : List ℕ) (g : Dag) (ret : Bool)
      → IsSound g
      → edge_count g + length vs * length us < size_mod
      → KeepsSound g (length vs * length us) (connect_all g ret vs us)
  unfolding connect_all
  connect_all-IsSound [] us g ret sound room = inr (g, ret, refl, sound, omega arith)
  connect_all-IsSound (v ∷ vs) us g ret sound room =
      elim (connect_to_all-IsSound us g ret v sound (omega (arith, room))) [
        | inl thrown ↦ inl (ap next thrown)
        | inr (g', r, ends, sound', count) ↦
            elim (connect_all-IsSound vs us g' r sound' (omega (arith, room, count))) [
              | inl thrown ↦ inl (ap next ends ∙ thrown)
              | inr (k, s, rest, sound_k, count_k) ↦
                  inr (k, s, ap next ends ∙ rest, sound_k, omega (arith, count, count_k))
            ]
      ]
    where
      next : Outcome (Dag × Bool) → Outcome (Dag × Bool)
      next o = o >>= λ (g', ret'). connect_all g' ret' vs us

  -- `connect_all_by_label` on a valid DAG with a document and no cycle throws, or returns such a DAG
  -- with at most one more edge for each pair of vertices with the two labels. There is room for them.
  pub connect_all_by_label-IsSound :
      (g : Dag) (l1 l2 : String)
      → IsSound g
      → edge_count g + pairs g l1 l2 < size_mod
      → KeepsSound g (pairs g l1 l2) (connect_all_by_label g l1 l2)
  unfolding connect_all_by_label
  connect_all_by_label-IsSound g l1 l2 sound room =
      connect_all-IsSound (find_all_verticies_with_label g l1) (find_all_verticies_with_label g l2)
        g true sound room
