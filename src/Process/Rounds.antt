-- ===== src/Process/Rounds.antt =====
-- One round of `process_dag`, which removes its roots one after another.
use dag_scheduler.Base.{
  not, contains-keep_if, ℕ, ◌+◌, ◌≤◌, ◌≡◌, refl, ap, ◌∙◌, true, false, List, [], ◌∷◌, ◌==◌, length,
  map, ok, contains, IsDistinct, arith, Bool-cases, inl, inr,
}
use dag_scheduler.Externals.{Externals}
use dag_scheduler.Vertex.{Vertex, clone_vertex, clone_vertex-payload, payload}
use dag_scheduler.Remove.Payloads.{payload-cut_vertex}
use dag_scheduler.Dag.{Dag}
use dag_scheduler.Dag.Degrees.{IsRanked}
use dag_scheduler.Dag.Valid.{IsLinked}
use dag_scheduler.Process.{remove_root, take_roots}
use dag_scheduler.Process.Layers.{IsKeyed, IsRemoved, remove_root_lem}
use dag_scheduler.Process.Linked.{left-IsLinked, left-IsRanked, left_root, other}

-- A graph whose vertices are known by their UUIDs, with right counters and ranked edges.
pub record IsTidy (rank : ℕ → ℕ) (g : Dag) : Type 0 where
  pub keyed : IsKeyed g
  pub linked : IsLinked g
  pub ranked : IsRanked rank g

-- Roots of the graph, each once.
pub record AreRoots (g : Dag) (roots : List ℕ) : Type 0 where
  pub distinct : IsDistinct roots
  pub inside : (b : ℕ) → contains roots b ≡ true → contains g.graph b ≡ true
  pub free : (b : ℕ) → contains roots b ≡ true → (g.cell b).incomming ≡ 0

differs :
    (a : ℕ) (roots : List ℕ) (b : ℕ)
    → contains roots a ≡ false
    → contains roots b ≡ true
    → (b == a) ≡ false
differs a roots b absent m = elim (Bool-cases (b == a)) [
  | inl e ↦
      let one : b ≡ a = ground arith in absurd (ground (arith, ap (contains roots) one, m, absent))
  | inr n ↦ n
]

map_same : {B : Type 0} {f h : ℕ → B} (xs : List ℕ) → ((b : ℕ) → f b ≡ h b) → map f xs ≡ map h xs
map_same [] same = refl
map_same {f = f} {h = h} (x ∷ xs) same =
    ap (λ y. y ∷ map f xs) (same x) ∙ ap (λ l. h x ∷ l) (map_same xs same)

module _ ⦃env : Externals⦄ where
  removed_copies :
      (g : Dag) (a : ℕ)
      → IsRemoved g a (remove_root g a).0
      → (b : ℕ) → clone_vertex ((remove_root g a).0.cell b) ≡ clone_vertex (g.cell b)
  removed_copies g a removed b =
      clone_vertex-payload ((remove_root g a).0.cell b) (g.cell b)
        (ap (λ (c : ℕ → Vertex). payload (c b)) removed.cells ∙ payload-cut_vertex g a b)

  was_there :
      (g : Dag) (a : ℕ)
      → IsRemoved g a (remove_root g a).0
      → (b : ℕ) → contains (remove_root g a).0.graph b ≡ true
      → contains g.graph b ≡ true
  was_there g a removed b m = ground (
    arith,
    m,
    ap (λ l. contains l b) removed.graph_left,
    contains-keep_if (λ c. not (c == a)) g.graph b,
  )

  -- The copies are those of the roots; the others stay, with their edges.
  pub record Round (rank : ℕ → ℕ) (g : Dag) (roots : List ℕ) : Type 0 where
    pub after : Dag
    pub taken : List Vertex
    pub ends : take_roots g roots ≡ ok (after, taken)
    pub tidy : IsTidy rank after
    pub shorter_by : length after.graph + length roots ≤ length g.graph
    pub same_uuids : (b : ℕ) → (after.cell b).uuid ≡ (g.cell b).uuid
    pub same_copies : (b : ℕ) → clone_vertex (after.cell b) ≡ clone_vertex (g.cell b)
    pub inside : (b : ℕ) → contains after.graph b ≡ true → contains g.graph b ≡ true
    pub taken_copies : taken ≡ map (λ a. clone_vertex (g.cell a)) roots
    pub taken_uuids : map (λ (v : Vertex). v.uuid) taken ≡ map (λ a. (g.cell a).uuid) roots
    pub left :
        (b : ℕ)
        → contains g.graph b ≡ true
        → contains roots b ≡ false
        → (contains after.graph b ≡ true) × ((after.cell b).edges ≡ (g.cell b).edges)

  pub take_roots_lem :
      (rank : ℕ → ℕ) (g : Dag) (roots : List ℕ)
      → IsTidy rank g
      → AreRoots g roots
      → Round rank g roots
  unfolding take_roots clone_vertex
  take_roots_lem rank g [] tidy r = record {
    after = g;
    taken = [];
    ends = refl;
    tidy = tidy;
    shorter_by = omega arith;
    same_uuids = λ b. refl;
    same_copies = λ b. refl;
    inside = λ b m. m;
    taken_copies = refl;
    taken_uuids = refl;
    left = λ b m n. (m, refl);
  }
  take_roots_lem rank g (a ∷ roots) tidy r =
      let there = r.inside a (ground arith) in
      let root = r.free a (ground arith) in
      let (good, removed) = remove_root_lem g a tidy.keyed there in
      let g' = (remove_root g a).0 in
      let rest =
        take_roots_lem rank g' roots
          (record {
            keyed = removed.keyed;
            linked = left-IsLinked g g' a tidy.linked there root removed.graph_left removed.cells;
            ranked =
                left-IsRanked g g' a tidy.linked there root removed.graph_left removed.cells rank
                  tidy.ranked;
          })
          (record {
            distinct = r.distinct.1;
            inside = λ b m.
                removed.others b (r.inside b (ground (arith, m)))
                  (differs a roots b r.distinct.0 m);
            free = λ b m.
                left_root g g' a tidy.linked there root removed.graph_left removed.cells b
                  (removed.others b (r.inside b (ground (arith, m)))
                    (differs a roots b r.distinct.0 m))
                  (r.free b (ground (arith, m)));
          }) in
      record {
        after = rest.after;
        taken = clone_vertex (g.cell a) ∷ rest.taken;
        ends = rw (good, rest.ends) refl;
        tidy = rest.tidy;
        shorter_by = omega (arith, rest.shorter_by, removed.shorter);
        same_uuids = λ b. rest.same_uuids b ∙ removed.same_uuids b;
        same_copies = λ b. rest.same_copies b ∙ removed_copies g a removed b;
        inside = λ b m. was_there g a removed b (rest.inside b m);
        taken_copies =
            ap (λ l. clone_vertex (g.cell a) ∷ l)
              (rest.taken_copies ∙ map_same roots (removed_copies g a removed));
        taken_uuids =
            ap (λ l. (g.cell a).uuid ∷ l) (rest.taken_uuids ∙ map_same roots removed.same_uuids);
        left = λ b m n.
            let (there', edges) =
              rest.left b (removed.others b m (ground (arith, n))) (ground (arith, n)) in
            (
              there',
              edges
                  ∙ (other g g' a tidy.linked there root removed.graph_left removed.cells b m
                      (ground (arith, n))).0,
            );
      }
