-- ===== src/Sort/Correct.antt =====
-- What the topological sort returns.
use mathlib.Core.List.{append-nil}
use mathlib.Core.Path.{fun_ext}
use native.Mathlib.Decide.{dec_lt}
use dag_scheduler.Base.{
  ◌>>=◌, ◌∙◌, sym, ◌==◌, not, ok-injective, Bool, sum_over_pos, map, zero, suc, subst, ap, inr, inl,
  if◌then◌else◌, Bool-cases, le-sum_over, contains-append, position, ◌↔◌, false, arith, ◌++◌, true,
  length, IsDistinct, ◌<◌, contains, List, ℕ, [], ok, ◌≡◌,
}
use dag_scheduler.Externals.{Externals}
use dag_scheduler.Vertex.{Vertex, clone_vertex, clone_vertex-payload}
use dag_scheduler.Dag.{vertex_count, Dag}
use dag_scheduler.Dag.Degrees.{in_edges, Arc, IsRanked, indegree_pos}
use dag_scheduler.Dag.Valid.{Arc-target, IsLinked}
use dag_scheduler.Sort.{dag_topological_sort}
use dag_scheduler.Sort.Loop.{IsOrdered, unplaced, sort_addresses_lem}

-- The list holds the vertices of the graph, each once and behind the sources of its edges.
pub record IsTopological (g : Dag) (sorted : List ℕ) : Type 0 where
  pub distinct : IsDistinct sorted
  pub complete : (v : ℕ) → (contains sorted v ≡ true) ↔ (contains g.graph v ≡ true)
  pub ordered : (u v : ℕ) → Arc g u v → position sorted u < position sorted v

module _ (g0 g : Dag) (valid : IsLinked g0) (sorted : List ℕ) (inv : IsOrdered g0 g [] sorted) where
  in_sorted : (v : ℕ) → contains (sorted ++ []) v ≡ contains sorted v
  in_sorted v = ground (arith, contains-append sorted [] v)

  -- A vertex that was not sorted has an edge from another such vertex.
  unsorted_source :
      (v : ℕ)
      → contains g0.graph v ≡ true
      → contains sorted v ≡ false
      → (u : ℕ) × Arc g0 u v × (contains sorted u ≡ false)
  unsorted_source v there left =
      let s = inv.sorting in
      let (u, arc) = indegree_pos g v (ground (arith, s.free v, in_sorted v)) in
      let unsorted = not_spent u v arc.1 in
      (
        u,
        (ground (arith, arc.0, ap (λ l. contains l u) s.same), rw (← inv.kept u unsorted) arc.1),
        unsorted,
      )
    where
      not_spent : (u v : ℕ) → 0 < in_edges v (g.cell u).edges → contains sorted u ≡ false
      not_spent u v some_edge = elim (Bool-cases (contains sorted u)) [
        | inl m ↦ absurd (omega (arith, inv.spent u m v))
        | inr n ↦ n
      ]

  -- So a ranked graph leaves no vertex unsorted.
  none_unsorted :
      (rank : ℕ → ℕ)
      → IsRanked rank g0
      → (n v : ℕ) → rank v < n
      → contains g0.graph v ≡ true
      → contains sorted v ≡ false
      → ⊥
  none_unsorted rank ranked zero v below there left = absurd (omega arith)
  none_unsorted rank ranked (suc n) v below there left =
      let (u, arc, unsorted) = unsorted_source v there left in
      none_unsorted rank ranked n u (omega (arith, ranked u v arc)) arc.0 unsorted

  all_sorted : (rank : ℕ → ℕ) → IsRanked rank g0 → length sorted ≡ length g0.graph
  all_sorted rank ranked = elim (dec_lt 0 (unplaced sorted g0.graph)) [
    | yes more ↦
        let (v, there, left) = sum_over_pos _ g0.graph more in
        absurd (none_unsorted rank ranked (suc (rank v)) v (omega arith) there (ground arith))
    | no done ↦ omega (arith, inv.rest)
  ]

  sorted-IsTopological : length sorted ≡ length g0.graph → IsTopological g0 sorted
  sorted-IsTopological full = record {
    distinct = subst IsDistinct (append-nil sorted) inv.sorting.distinct;
    complete = λ v. (λ m. inv.sorting.members v (ground (arith, in_sorted v)), is_sorted v);
    ordered = λ u v arc. inv.ordered u v arc (is_sorted v (Arc-target g0 u v valid arc));
  }
    where
      is_sorted : (v : ℕ) → contains g0.graph v ≡ true → contains sorted v ≡ true
      is_sorted v there =
          ground (
            arith,
            le-sum_over (λ v. if contains sorted v then 0 else 1) v g0.graph there,
            inv.rest,
          )

  failed_iff : (not (length sorted == vertex_count g) ≡ false) ↔ (length sorted ≡ length g0.graph)
  unfolding vertex_count
  failed_iff = ground (arith, ap (length {A = ℕ}) inv.sorting.same)

module _ ⦃env : Externals⦄ where
  abbrev pub Sorted : Dag → Dag → Bool → List Vertex → Type 0
  Sorted g0 g failed vs =
      (sorted : List ℕ) × (vs ≡ map (λ a. clone_vertex (g0.cell a)) sorted)
      × ((failed ≡ false) ↔ (length sorted ≡ length g0.graph))
      × IsOrdered g0 g [] sorted

  dag_topological_sort_lem :
      (g : Dag)
      → IsLinked g
      → (g' : Dag) × (failed : Bool) × (vs : List Vertex) × (dag_topological_sort g
          ≡ ok (g', failed, vs))
        × Sorted g g' failed vs
  unfolding dag_topological_sort
  dag_topological_sort_lem g valid =
      let (g', sorted, ends, inv) = sort_addresses_lem g valid in
      (
        g',
        not (length sorted == vertex_count g'),
        map (λ a. clone_vertex (g'.cell a)) sorted,
        ap
            (λ r. r >>= λ (g2, l).
              ok (g2, not (length l == vertex_count g2), map (λ a. clone_vertex (g2.cell a)) l))
            ends,
        (
          sorted,
          ap (λ f. map f sorted)
              (fun_ext λ a. clone_vertex-payload (g'.cell a) (g.cell a) (inv.same_payload a)),
          failed_iff g g' valid sorted inv,
          inv,
        ),
      )

  -- On a linked graph `dag_topological_sort` returns, with no exception and no null pointer, and
  -- its result is false exactly if the graph can be ranked, so that each edge leads upwards.
  pub dag_topological_sort_decides :
      (g : Dag)
      → IsLinked g
      → (g' : Dag) × (failed : Bool) × (vs : List Vertex) × (dag_topological_sort g
          ≡ ok (g', failed, vs))
        × ((failed ≡ false) ↔ ((rank : ℕ → ℕ) × IsRanked rank g))
  dag_topological_sort_decides g valid =
      let (g', failed, vs, returns, (sorted, clones, count, inv)) =
        dag_topological_sort_lem g valid in
      (
        g',
        failed,
        vs,
        returns,
        (
          λ f. (position sorted, (sorted-IsTopological g g' valid sorted inv (count.0 f)).ordered),
          λ (rank, ranked). count.1 (all_sorted g g' valid sorted inv rank ranked),
        ),
      )

  -- When the result on a linked graph is false, `sorted_vertices` holds clones of the vertices of the graph, each
  -- once, and the source of each edge stands before its target.
  pub dag_topological_sort_sorts :
      (g g' : Dag) (vs : List Vertex)
      → IsLinked g
      → dag_topological_sort g ≡ ok (g', false, vs)
      → (sorted : List ℕ) × (vs ≡ map (λ a. clone_vertex (g.cell a)) sorted)
        × IsTopological g sorted
  dag_topological_sort_sorts g g' vs valid h =
      let (g1, failed, vs1, returns, found) = dag_topological_sort_lem g valid in
      let (sorted, clones, count, inv) = found in
      let same = ok-injective (sym returns ∙ h) in
      (
        sorted,
        sym (ap (λ r. r.2) same) ∙ clones,
        sorted-IsTopological g g1 valid sorted inv (count.0 (ap (λ r. r.1) same)),
      )
