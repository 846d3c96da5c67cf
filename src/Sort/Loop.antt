-- ===== src/Sort/Loop.antt =====
-- The `while` loop of the topological sort.
use dag_scheduler.Vertex.{payload, has_incomming_edges}
use mathlib.Core.List.{append_assoc}
use dag_scheduler.Base.{
  zero, IsDistinct-keep_if, contains-keep_if, ltb, not, sum_over_one, position-lt, Bool,
  le-sum_over, position-append, suc, inr, inl, Outcome, ◌≤◌, ◌∙◌, length-append, sum_over_change,
  ap, position-concat_self, IsDistinct, contains-append, ◌↔◌, ◌<◌, subst, arith, Bool-cases, ◌+◌,
  position, ◌==◌, IsDistinct-middle, sym, contains-middle, ◌++◌, false, true, ◌||◌, if◌then◌else◌,
  length, contains, sum_over, ◌∷◌, List, ℕ, [], ok, refl, ◌≡◌,
}
use native.Mathlib.Decide.{ℕ_discrete}
use mathlib.Core.Bool.{false≢true}
use dag_scheduler.Dag.{edge_count, vertex_count, Dag}
use dag_scheduler.Dag.Degrees.{
  indegree-le-edge_count, indegree, AreLinks, in_edges, Arc, in_edges_eq_zero,
}
use dag_scheduler.Dag.Valid.{IsLinked}
use dag_scheduler.Sort.{
  sort_addresses, visit_edges, dag_vertices_with_no_incomming_edges, sort_loop,
}
use dag_scheduler.Sort.Step.{IsSorting}
use dag_scheduler.Sort.Visit.{IsVisited, visit_edges_lem}

-- The vertices that have not left the queue.
abbrev pub unplaced : List ℕ → List ℕ → ℕ
unplaced sorted graph = sum_over (λ v. if contains sorted v then 0 else 1) graph

-- `sorted` holds vertices whose edges are all cut, each behind the sources of its edges; the edges of
-- the others are those of `g0`.
pub record IsOrdered (g0 g : Dag) (q sorted : List ℕ) : Type 0 where
  pub sorting : IsSorting g0.graph sorted g q
  pub spent : (u : ℕ) → contains sorted u ≡ true → (v : ℕ) → in_edges v (g.cell u).edges ≡ 0
  pub kept : (u : ℕ) → contains sorted u ≡ false → (g.cell u).edges ≡ (g0.cell u).edges
  pub ordered :
      (u v : ℕ) → Arc g0 u v → contains sorted v ≡ true → position sorted u < position sorted v
  pub same_payload : (u : ℕ) → payload (g.cell u) ≡ payload (g0.cell u)
  pub rest : length sorted + unplaced sorted g0.graph ≡ length g0.graph

-- The source of an edge to a vertex that has been queued has left the queue.
contains_source :
    (g0 g : Dag) (q sorted : List ℕ) (u v : ℕ)
    → IsOrdered g0 g q sorted
    → Arc g0 u v
    → contains (sorted ++ q) v ≡ true
    → contains sorted u ≡ true
contains_source g0 g q sorted u v inv arc m = elim (Bool-cases (contains sorted u)) [
  | inl h ↦ h
  | inr h ↦
      let s = inv.sorting in
      let none_left = (s.free v (s.members v m)).0 m in
      let zero_in =
        in_edges_eq_zero g u v (subst (λ l. contains l u ≡ true) (sym s.same) arc.0) none_left in
      absurd (omega (arith, arc.1, zero_in, ap (in_edges v) (inv.kept u h)))
]

IsSorting-pop :
    (graph sorted : List ℕ) (c : ℕ) (g : Dag) (q : List ℕ)
    → IsSorting graph sorted g (c ∷ q)
    → IsSorting graph (sorted ++ c ∷ []) g q
IsSorting-pop graph sorted c g q s =
    let same_list = sym (append_assoc sorted (c ∷ []) q) in
    record {
      same = s.same;
      counted = s.counted;
      small = s.small;
      free =
          subst
            (λ l. (v : ℕ) → contains graph v ≡ true → (contains l v ≡ true) ↔ (indegree g v ≡ 0))
            same_list s.free;
      distinct = subst IsDistinct same_list s.distinct;
      members =
          subst (λ l. (v : ℕ) → contains l v ≡ true → contains graph v ≡ true) same_list s.members;
    }

module _ (g0 g : Dag) (valid : IsLinked g0) (c : ℕ) (q sorted : List ℕ)
    (inv : IsOrdered g0 g (c ∷ q) sorted) where
  abbrev sorted' : List ℕ
  sorted' = sorted ++ c ∷ []

  new : contains sorted c ≡ false
  new = IsDistinct-middle sorted c q inv.sorting.distinct

  pub c_there : contains g0.graph c ≡ true
  c_there = inv.sorting.members c (contains-middle sorted c q)

  pub links : AreLinks g0.graph (g.cell c).edges
  links = rw (inv.kept c new) (valid.links c c_there)

  contains_sorted' : (v : ℕ) → contains sorted' v ≡ (contains sorted v || c == v)
  contains_sorted' v = ground (arith, contains-append sorted (c ∷ []) v)

  was_queued : (v : ℕ) → contains sorted' v ≡ true → contains (sorted ++ c ∷ q) v ≡ true
  was_queued v m = ground (arith, contains_sorted' v, contains-append sorted (c ∷ q) v)

  position_last :
      (v : ℕ)
      → contains sorted v ≡ false
      → contains sorted' v ≡ true
      → position sorted' v ≡ length sorted
  position_last v fresh m =
      let is_c : c ≡ v = ground (arith, contains_sorted' v) in
      subst (λ w. position sorted' w ≡ length sorted) is_c (position-concat_self sorted c new)

  ordered' :
      (u v : ℕ) → Arc g0 u v → contains sorted' v ≡ true → position sorted' u < position sorted' v
  ordered' u v arc m =
      let before = contains_source g0 g (c ∷ q) sorted u v inv arc (was_queued v m) in
      elim (Bool-cases (contains sorted v)) [
        | inl old ↦ omega (
          arith,
          position-append sorted (c ∷ []) u before,
          position-append sorted (c ∷ []) v old,
          inv.ordered u v arc old,
        )
        | inr fresh ↦ omega (
          arith,
          position-append sorted (c ∷ []) u before,
          position-lt sorted u before,
          position_last v fresh m,
        )
      ]

  rest' : length sorted' + unplaced sorted' g0.graph ≡ length g0.graph
  rest' =
      let fell =
        sum_over_change (λ v. if contains sorted' v then 0 else 1)
          (λ v. if contains sorted v then 0 else 1) c g0.graph valid.distinct c_there
          (λ b ne. ground (arith, contains_sorted' b)) in
      ground (arith, fell, contains_sorted' c, new, inv.rest, length-append sorted (c ∷ []))

  pub pop-IsOrdered :
      (g' : Dag) (q' : List ℕ) → IsVisited g0.graph sorted' c g g' q' → IsOrdered g0 g' q' sorted'
  pop-IsOrdered g' q' vis = record {
    sorting = vis.sorting;
    spent = λ u m v. elim (ℕ_discrete u c) [
      | yes e ↦ subst (λ w. in_edges v (g'.cell w).edges ≡ 0) (sym e) (vis.own v)
      | no ne ↦
          ap (in_edges v) (vis.others u ne) ∙ inv.spent u (ground (arith, contains_sorted' u)) v
    ];
    kept = λ u m.
        vis.others u (ground (arith, contains_sorted' u))
        ∙ inv.kept u (ground (arith, contains_sorted' u));
    ordered = ordered';
    same_payload = λ u. vis.same_payload u ∙ inv.same_payload u;
    rest = rest';
  }

sort_loop-cons :
    (fuel : ℕ) (g g' : Dag) (c : ℕ) (q q' sorted : List ℕ)
    → visit_edges c (length (g.cell c).edges) 0 g q ≡ ok (g', q')
    → sort_loop (suc fuel) g (c ∷ q) sorted ≡ sort_loop fuel g' q' (sorted ++ c ∷ [])
unfolding sort_loop
sort_loop-cons fuel g g' c q q' sorted h = rw h

abbrev pub Sorts : Dag → Outcome (Dag × List ℕ) → Type 0
Sorts g0 r = (g' : Dag) × (sorted : List ℕ) × (r ≡ ok (g', sorted)) × IsOrdered g0 g' [] sorted

module _ (g0 : Dag) (valid : IsLinked g0) where
  -- The loop ends within as many rounds as vertices have not left the queue.
  pub sort_loop_lem :
      (fuel : ℕ) (g : Dag) (q sorted : List ℕ)
      → IsOrdered g0 g q sorted
      → unplaced sorted g0.graph ≤ fuel
      → Sorts g0 (sort_loop fuel g q sorted)
  unfolding sort_loop
  sort_loop_lem fuel g [] sorted inv enough = (g, sorted, refl, inv)
  sort_loop_lem zero g (c ∷ q) sorted inv enough = absurd (
      ground (
        arith,
        le-sum_over (λ v. if contains sorted v then 0 else 1) c g0.graph
            (c_there g0 g valid c q sorted inv),
        new g0 g valid c q sorted inv,
      ))
  sort_loop_lem (suc fuel) g (c ∷ q) sorted inv enough =
      let (g1, q1, visits, vis) =
        visit_edges_lem g0.graph (sorted ++ c ∷ []) valid.distinct c
          (c_there g0 g valid c q sorted inv) g q (IsSorting-pop g0.graph sorted c g q inv.sorting)
          (links g0 g valid c q sorted inv) in
      let inv1 = pop-IsOrdered g0 g valid c q sorted inv g1 q1 vis in
      let (g', final, ends, all) =
        sort_loop_lem fuel g1 q1 (sorted ++ c ∷ []) inv1
          (omega (arith, inv.rest, inv1.rest, length-append sorted (c ∷ []))) in
      (g', final, sort_loop-cons fuel g g1 c q q1 sorted visits ∙ ends, all)

  start-IsOrdered : IsOrdered g0 g0 (dag_vertices_with_no_incomming_edges g0) []
  unfolding dag_vertices_with_no_incomming_edges has_incomming_edges
  start-IsOrdered = record {
    sorting = record {
      same = refl;
      counted = valid.counted;
      small = λ v m. omega (arith, indegree-le-edge_count g0 v, valid.small);
      free = λ v m. ground (arith, contains-keep_if is_free g0.graph v, valid.counted v m);
      distinct = IsDistinct-keep_if is_free g0.graph valid.distinct;
      members = λ v m. ground (arith, contains-keep_if is_free g0.graph v);
    };
    spent = λ u m. absurd (false≢true m);
    kept = λ u m. refl;
    ordered = λ u v arc m. absurd (false≢true m);
    same_payload = λ u. refl;
    rest = omega (arith, sum_over_one g0.graph);
  }
    where
      is_free : ℕ → Bool
      is_free a = not (ltb 0 (g0.cell a).incomming)

  -- From a graph that is linked the sort returns.
  pub sort_addresses_lem : Sorts g0 (sort_addresses g0)
  unfolding sort_addresses vertex_count
  sort_addresses_lem =
      sort_loop_lem (vertex_count g0 + edge_count g0) g0 (dag_vertices_with_no_incomming_edges g0)
        [] start-IsOrdered (omega (arith, sum_over_one g0.graph))
