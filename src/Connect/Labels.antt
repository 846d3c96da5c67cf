-- ===== src/Connect/Labels.antt =====
-- `connection_would_make_cyclic_by_label`, whose result is true when no edge would close a cycle.
use mathlib.Core.Bool.{false≢true}
use dag_scheduler.Base.{
  contains-keep_if, str_eq, ℕ, ◌+◌, ◌<◌, ◌≡◌, ◌∙◌, ◌↔◌, refl, sym, ap, subst, arith, Bool, true,
  false, contains, some, inl, inr, ok, String, List, [], ◌∷◌, ◌>>=◌, if◌then◌else◌, Bool-cases,
  Outcome, ◌==◌,
}
use dag_scheduler.Externals.{Externals}
use dag_scheduler.Vertex.{size_mod}
use dag_scheduler.Dag.{Dag, edge_count, find_all_verticies_with_label}
use dag_scheduler.Dag.Valid.{IsValid}
use dag_scheduler.Dag.Keys.{IsAcyclic}
use dag_scheduler.Connect.{
  connection_would_make_cyclic, none_cyclic, none_cyclic_from,
  connection_would_make_cyclic_by_label,
}
use dag_scheduler.Connect.Cycles.{WithArc, connection_would_make_cyclic_decides}
use dag_scheduler.Connect.Joins.{redrawn-IsValid}

-- An edge from the vertex at `v` to the one at `u` would close no cycle.
abbrev pub Admits : Dag → ℕ → ℕ → Type 0
Admits g v u = IsAcyclic (WithArc g (g.cell v).uuid (g.cell u).uuid)

abbrev AdmitsAll : Dag → ℕ → List ℕ → Type 0
AdmitsAll g v us = (u : ℕ) → contains us u ≡ true → Admits g v u

AdmitsAll-cons :
    (g : Dag) (v u : ℕ) (us : List ℕ) → Admits g v u → AdmitsAll g v us → AdmitsAll g v (u ∷ us)
AdmitsAll-cons g v u us first rest w m = elim (Bool-cases (u == w)) [
  | inl e ↦ let same : u ≡ w = ground arith in subst (Admits g v) same first
  | inr e ↦ rest w (ground arith)
]

module _ ⦃env : Externals⦄ (text : String) where
  none_cyclic_lem :
      (us : List ℕ) (g : Dag) (v : ℕ)
      → IsValid g
      → g.json_config ≡ some text
      → edge_count g + 1 < size_mod
      → contains g.graph v ≡ true
      → ((u : ℕ) → contains us u ≡ true → contains g.graph u ≡ true)
      → (d : ℕ) × (r : Bool) × (none_cyclic g v us ≡ ok (record g { draws = d }, r))
        × ((r ≡ true) ↔ AdmitsAll g v us)
  unfolding none_cyclic edge_count
  none_cyclic_lem [] g v valid has room there within =
      (g.draws, true, refl, (λ e u m. absurd (false≢true m), λ all. refl))
  none_cyclic_lem (u ∷ us) g v valid has room there within =
      let (d, cyclic, ends, decides) =
        connection_would_make_cyclic_decides g text valid has v u there (within u (ground arith))
          room in
      let (d', r, rest, all) =
        none_cyclic_lem us (record g { draws = d }) v (redrawn-IsValid g d valid) has room there
          (λ w m. within w (ground arith)) in
      elim (Bool-cases cyclic) [
        | inl e ↦ (
          d,
          false,
          branch d cyclic ends ∙ ap (next d) e,
          (
            λ f. absurd (false≢true f),
            λ admits. absurd (false≢true (sym (decides.1 (admits u (ground arith))) ∙ e)),
          ),
        )
        | inr e ↦ (
          d',
          r,
          branch d cyclic ends ∙ ap (next d) e ∙ rest,
          (
            λ f. AdmitsAll-cons g v u us (decides.0 e) (all.0 f),
            λ admits. all.1 (λ w m. admits w (ground arith)),
          ),
        )
      ]
    where
      next : ℕ → Bool → Outcome (Dag × Bool)
      next d c =
          if c
          then ok (record g { draws = d }, false)
          else none_cyclic (record g { draws = d }) v us

      branch :
          (d : ℕ) (cyclic : Bool)
          → connection_would_make_cyclic g (g.cell v) (g.cell u)
            ≡ ok (record g { draws = d }, cyclic)
          → none_cyclic g v (u ∷ us) ≡ next d cyclic
      branch d cyclic ends =
          ap
            (λ (r : Outcome (Dag × Bool)).
              r >>= λ (g', c). if c then ok (g', false) else none_cyclic g' v us)
            ends

  none_cyclic_from_lem :
      (vs us : List ℕ) (g : Dag)
      → IsValid g
      → g.json_config ≡ some text
      → edge_count g + 1 < size_mod
      → ((v : ℕ) → contains vs v ≡ true → contains g.graph v ≡ true)
      → ((u : ℕ) → contains us u ≡ true → contains g.graph u ≡ true)
      → (d : ℕ) × (r : Bool) × (none_cyclic_from g vs us ≡ ok (record g { draws = d }, r))
        × ((r ≡ true) ↔ ((v : ℕ) → contains vs v ≡ true → AdmitsAll g v us))
  unfolding none_cyclic_from edge_count
  none_cyclic_from_lem [] us g valid has room there within =
      (g.draws, true, refl, (λ e v m. absurd (false≢true m), λ all. refl))
  none_cyclic_from_lem (v ∷ vs) us g valid has room there within =
      let (d, good, ends, decides) =
        none_cyclic_lem us g v valid has room (there v (ground arith)) within in
      let (d', r, rest, all) =
        none_cyclic_from_lem vs us (record g { draws = d }) (redrawn-IsValid g d valid) has room
          (λ w m. there w (ground arith)) within in
      elim (Bool-cases good) [
        | inr e ↦ (
          d,
          false,
          branch d good ends ∙ ap (next d) e,
          (
            λ f. absurd (false≢true f),
            λ admits. absurd (false≢true (sym e ∙ decides.1 (admits v (ground arith)))),
          ),
        )
        | inl e ↦ (
          d',
          r,
          branch d good ends ∙ ap (next d) e ∙ rest,
          (
            λ f w m. elim (Bool-cases (v == w)) [
              | inl same ↦
                  let q : v ≡ w = ground arith in subst (λ x. AdmitsAll g x us) q (decides.0 e)
              | inr other ↦ all.0 f w (ground arith)
            ],
            λ admits. all.1 (λ w m. admits w (ground arith)),
          ),
        )
      ]
    where
      next : ℕ → Bool → Outcome (Dag × Bool)
      next d c =
          if c
          then none_cyclic_from (record g { draws = d }) vs us
          else ok (record g { draws = d }, false)

      branch :
          (d : ℕ) (good : Bool)
          → none_cyclic g v us ≡ ok (record g { draws = d }, good)
          → none_cyclic_from g (v ∷ vs) us ≡ next d good
      branch d good ends =
          ap
            (λ (r : Outcome (Dag × Bool)).
              r >>= λ (g', c). if c then none_cyclic_from g' vs us else ok (g', false))
            ends

  labelled_there :
      (g : Dag) (l : String) (v : ℕ)
      → contains (find_all_verticies_with_label g l) v ≡ true
      → contains g.graph v ≡ true
  unfolding find_all_verticies_with_label
  labelled_there g l v m =
      ground (arith, contains-keep_if (λ a. str_eq (g.cell a).label l) g.graph v)

  -- On a valid DAG with a document and room for one more edge,
  -- `connection_would_make_cyclic_by_label` returns true exactly if no
  -- edge from a vertex with the first label to one with the second, added alone, would close a cycle.
  pub connection_would_make_cyclic_by_label_lem :
      (g : Dag) (l1 l2 : String)
      → IsValid g
      → g.json_config ≡ some text
      → edge_count g + 1 < size_mod
      → (d : ℕ) × (r : Bool) × (connection_would_make_cyclic_by_label g l1 l2
          ≡ ok (record g { draws = d }, r))
        × ((r ≡ true) ↔ (
            (v : ℕ)
            → contains (find_all_verticies_with_label g l1) v ≡ true
            → (u : ℕ) → contains (find_all_verticies_with_label g l2) u ≡ true
            → Admits g v u))
  unfolding connection_would_make_cyclic_by_label
  connection_would_make_cyclic_by_label_lem g l1 l2 valid has room =
      none_cyclic_from_lem (find_all_verticies_with_label g l1) (find_all_verticies_with_label g l2)
        g valid has room (labelled_there g l1) (labelled_there g l2)
