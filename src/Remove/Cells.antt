-- ===== src/Remove/Cells.antt =====
-- The removal of one vertex: the objects are those after the cut of its edges.
use mathlib.Core.List.{append_assoc, append-nil}
use dag_scheduler.Base.{
  ℕ, ◌≡◌, ◌∙◌, refl, ap, Bool, true, false, List, [], ◌∷◌, ◌++◌, ◌==◌, contains, IsDistinct, arith,
  Bool-cases, inl, inr, if◌then◌else◌,
}
use dag_scheduler.Dag.{Dag}
use dag_scheduler.Remove.{
  cut_vertex, Removal, keep_vertex, drop_vertex, owners, remove_if, remove_where,
}
use dag_scheduler.Remove.Kept.{Follows, uuid-cut_vertex}

module _ (g : Dag) (found : Dag → ℕ → Bool) (a : ℕ) where
  abbrev SameUuids : Dag → Type 0
  SameUuids h = (b : ℕ) → (h.cell b).uuid ≡ (g.cell b).uuid

  abbrev FollowsOne : List ℕ → Type 0
  FollowsOne rest = Follows g found (λ b. b == a) rest

  -- One step of the loop.
  step :
      (x : ℕ) (rest : List ℕ) (r : Removal) (t : Bool)
      → FollowsOne (x ∷ rest)
      → SameUuids r.dag
      → (x == a) ≡ t
      → remove_if found (x ∷ rest) r
        ≡ remove_if found rest (
            if t
            then drop_vertex (record r { dag = owners r (x ∷ rest) }) x
            else keep_vertex (record r { dag = owners r (x ∷ rest) }) x)
  unfolding remove_if
  step x rest r t follows same e =
      ap
        (λ b. remove_if found rest (
          if b
          then drop_vertex (record r { dag = owners r (x ∷ rest) }) x
          else keep_vertex (record r { dag = owners r (x ∷ rest) }) x))
        (follows (owners r (x ∷ rest)) x same (ground arith) ∙ e)

  later : (x : ℕ) (rest : List ℕ) → FollowsOne (x ∷ rest) → FollowsOne rest
  later x rest follows h o same m = follows h o same (ground (arith, m))

  none_left :
      (rest : List ℕ) (r : Removal)
      → FollowsOne rest
      → SameUuids r.dag
      → contains rest a ≡ false
      → (remove_if found rest r).dag.cell ≡ r.dag.cell
  unfolding remove_if keep_vertex
  none_left [] r follows same n = refl
  none_left (x ∷ rest) r follows same n =
      ap (λ (q : Removal). q.dag.cell) (step x rest r false follows same (ground (arith, n)))
      ∙ none_left rest (keep_vertex (record r { dag = owners r (x ∷ rest) }) x)
          (later x rest follows) same (ground (arith, n))

  one_dropped :
      (rest kept : List ℕ) (dag : Dag) (ret : Bool)
      → FollowsOne rest
      → SameUuids dag
      → IsDistinct rest
      → contains rest a ≡ true
      → (remove_if found rest (record { kept = kept; slots = []; dag = dag; ret = ret })).dag.cell
        ≡ (cut_vertex (record dag { graph = kept ++ rest }) a).cell
  unfolding keep_vertex drop_vertex
  one_dropped [] kept dag ret follows same d m = cc
  one_dropped (x ∷ rest) kept dag ret follows same d m = elim (Bool-cases (x == a)) [
    | inl e ↦
        let one : x ≡ a = ground arith in
        ap (λ (q : Removal). q.dag.cell) (step x rest r true follows same e)
        ∙ none_left rest (drop_vertex here x) (later x rest follows)
            (λ b. uuid-cut_vertex here.dag x b ∙ same b)
            (ground (arith, ap (contains rest) one, d.0))
        ∙ ap (λ y. (cut_vertex here.dag y).cell) one
        ∙ ap (λ l. (cut_vertex (record dag { graph = l ++ x ∷ rest }) a).cell) (append-nil kept)
    | inr n ↦
        ap (λ (q : Removal). q.dag.cell) (step x rest r false follows same n)
        ∙ one_dropped rest (kept ++ x ∷ []) here.dag ret (later x rest follows) same d.1
            (ground (arith, m, n))
        ∙ ap (λ l. (cut_vertex (record dag { graph = l }) a).cell) (append_assoc kept (x ∷ []) rest)
  ]
    where
      r : Removal
      r = record { kept = kept; slots = []; dag = dag; ret = ret }

      here : Removal
      here = record r { dag = owners r (x ∷ rest) }

  pub remove_where_cells :
      FollowsOne g.graph
      → IsDistinct g.graph
      → contains g.graph a ≡ true
      → (remove_where found g).0.cell ≡ (cut_vertex g a).cell
  unfolding remove_where
  remove_where_cells follows d m = one_dropped g.graph [] g false follows (λ b. refl) d m

  pub remove_where_none :
      FollowsOne g.graph → contains g.graph a ≡ false → (remove_where found g).0.cell ≡ g.cell
  unfolding remove_where
  remove_where_none follows n =
      none_left g.graph (record { kept = []; slots = []; dag = g; ret = false }) follows (λ b. refl)
        n
