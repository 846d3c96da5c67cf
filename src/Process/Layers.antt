-- ===== src/Process/Layers.antt =====
-- lib/dag_algorithms.cxx: the removal of one root in `process_dag`.
use dag_scheduler.Base.{
  inr, inl, Bool-cases, ℕ, suc, ◌≤◌, ◌≡◌, sym, ap, subst, ◌∙◌, Bool, true, false, not, List, [],
  ◌∷◌, ◌==◌, length, contains, IsDistinct, keep_if, contains-keep_if, IsDistinct-keep_if, arith,
}
use dag_scheduler.Externals.{Externals}
use dag_scheduler.Vertex.{vertex_eq, vertex_eq_self, vertex_eq_uuid}
use dag_scheduler.Dag.{Dag}
use dag_scheduler.Remove.{remove_where, cut_vertex}
use dag_scheduler.Remove.Cells.{remove_where_cells}
use dag_scheduler.Remove.Kept.{Follows, remove_where_lem, any_of}
use dag_scheduler.Process.{remove_root}

-- The vertices are owned once and have different UUIDs.
pub record IsKeyed (g : Dag) : Type 0 where
  pub distinct : IsDistinct g.graph
  pub keyed :
      (a b : ℕ)
      → contains g.graph a ≡ true
      → contains g.graph b ≡ true
      → (g.cell a).uuid ≡ (g.cell b).uuid
      → a ≡ b

pub any_of-contains :
    (p : ℕ → Bool) (xs : List ℕ) (a : ℕ) → contains xs a ≡ true → p a ≡ true → any_of p xs ≡ true
any_of-contains p [] a m h = cc
any_of-contains p (x ∷ xs) a m h = ground (arith, any_of-contains p xs a, ap p {x = x} {y = a})

length-keep_if_le : (p : ℕ → Bool) (xs : List ℕ) → length (keep_if (λ b. not (p b)) xs) ≤ length xs
length-keep_if_le p [] = omega arith
length-keep_if_le p (x ∷ xs) = ground (arith, length-keep_if_le p xs)

pub length-keep_if :
    (p : ℕ → Bool) (xs : List ℕ) (a : ℕ)
    → contains xs a ≡ true
    → p a ≡ true
    → suc (length (keep_if (λ b. not (p b)) xs)) ≤ length xs
length-keep_if p [] a m h = cc
length-keep_if p (x ∷ xs) a m h =
    ground (arith, length-keep_if p xs a, length-keep_if_le p xs, ap p {x = x} {y = a})

module _ ⦃env : Externals⦄ where
  -- What the removal of the vertex at `a` leaves.
  pub record IsRemoved (g : Dag) (a : ℕ) (g' : Dag) : Type 0 where
    pub keyed : IsKeyed g'
    pub graph_left : g'.graph ≡ keep_if (λ b. not (b == a)) g.graph
    pub cells : g'.cell ≡ (cut_vertex g a).cell
    pub same_uuids : (b : ℕ) → (g'.cell b).uuid ≡ (g.cell b).uuid
    pub shorter : suc (length g'.graph) ≤ length g.graph
    pub others : (b : ℕ) → contains g.graph b ≡ true → (b == a) ≡ false → contains g'.graph b ≡ true

  left-IsRemoved :
      (g g' : Dag) (a : ℕ)
      → IsKeyed g
      → contains g.graph a ≡ true
      → g'.graph ≡ keep_if (λ b. not (b == a)) g.graph
      → ((b : ℕ) → (g'.cell b).uuid ≡ (g.cell b).uuid)
      → g'.cell ≡ (cut_vertex g a).cell
      → IsRemoved g a g'
  left-IsRemoved g g' a k there kept cells after_cut = record {
    graph_left = kept;
    cells = after_cut;
    same_uuids = cells;
    keyed = record {
      distinct =
          subst IsDistinct (sym kept) (IsDistinct-keep_if (λ b. not (b == a)) g.graph k.distinct);
      keyed = λ b c mb mc e.
          k.keyed b c (was_there b mb) (was_there c mc) (sym (cells b) ∙ e ∙ cells c);
    };
    shorter =
        subst (λ graph. suc (length graph) ≤ length g.graph) (sym kept)
          (length-keep_if (λ b. b == a) g.graph a there (ground arith));
    others = λ b m n.
        ap (λ graph. contains graph b) kept
        ∙ contains-keep_if (λ c. not (c == a)) g.graph b
        ∙ ground (arith, m, n);
  }
    where
      was_there : (b : ℕ) → contains g'.graph b ≡ true → contains g.graph b ≡ true
      was_there b m = ground (
        arith,
        ap (λ graph. contains graph b) kept,
        contains-keep_if (λ c. not (c == a)) g.graph b,
      )

  pub remove_root-Follows :
      (g : Dag) (a : ℕ)
      → IsKeyed g
      → contains g.graph a ≡ true
      → Follows g (λ h o. vertex_eq (h.cell o) (h.cell a)) (λ b. b == a) g.graph
  remove_root-Follows g a k there h o same m = elim (Bool-cases (o == a)) [
    | inl e ↦
        let one : o ≡ a = ground arith in
        ap (λ x. vertex_eq (h.cell x) (h.cell a)) one ∙ vertex_eq_self (h.cell a) ∙ sym e
    | inr n ↦ elim (Bool-cases (vertex_eq (h.cell o) (h.cell a))) [
      | inl y ↦
          let one : o ≡ a =
            k.keyed o a m there (sym (same o) ∙ vertex_eq_uuid (h.cell o) (h.cell a) y ∙ same a) in
          absurd (ground (arith, one, n))
      | inr z ↦ z ∙ sym n
    ]
  ]

  pub remove_root_lem :
      (g : Dag) (a : ℕ)
      → IsKeyed g
      → contains g.graph a ≡ true
      → ((remove_root g a).1 ≡ true) × IsRemoved g a (remove_root g a).0
  unfolding remove_root
  remove_root_lem g a k there =
      let (kept, ret, cells) =
        remove_where_lem g (λ h o. vertex_eq (h.cell o) (h.cell a)) (λ b. b == a)
          (remove_root-Follows g a k there) in
      (
        ret ∙ any_of-contains (λ b. b == a) g.graph a there (ground arith),
        left-IsRemoved g (remove_where (λ h o. vertex_eq (h.cell o) (h.cell a)) g).0 a k there kept
            cells
            (remove_where_cells g (λ h o. vertex_eq (h.cell o) (h.cell a)) a
              (remove_root-Follows g a k there) k.distinct there),
      )
