-- ===== src/Process/Cut.antt =====
-- What `remove_vertex` does to the counters of a graph, for a vertex that no edge leads to.
use dag_scheduler.Base.{
  none, ℕ, suc, ◌+◌, ◌≤◌, ◌<◌, ◌≡◌, refl, sym, ap, subst, ◌∙◌, true, false, not, List, [], ◌∷◌,
  ◌==◌, contains, IsDistinct, keep_if, sum_over, arith, Bool-cases, inl, inr, some, Option,
}
use dag_scheduler.Vertex.{Edge, Vertex, size_mod, sub_incomming_edge}
use dag_scheduler.Dag.{Dag, lock, decrement}
use dag_scheduler.Dag.Degrees.{hits, in_edges, AreLinks}
use dag_scheduler.Remove.{release, cut_vertex}

lock_link :
    (g : Dag) (e : Edge) (b : ℕ)
    → e.connection ≡ some b
    → contains g.graph b ≡ true
    → lock g e.connection ≡ some b
unfolding lock
lock_link g e b leads there = rw leads (rw there refl)

-- A step down from a counter that is not zero.
sub_incomming :
    (v : Vertex)
    → 0 < v.incomming
    → v.incomming < size_mod
    → suc (sub_incomming_edge v).incomming ≡ v.incomming
unfolding sub_incomming_edge
sub_incomming v pos small = omega arith

decrement_incomming :
    (g : Dag) (b v : ℕ)
    → hits v (some b) ≤ (g.cell v).incomming
    → (g.cell v).incomming < size_mod
    → ((decrement g (some b)).cell v).incomming + hits v (some b) ≡ (g.cell v).incomming
unfolding decrement
decrement_incomming g b v le small = elim (Bool-cases (b == v)) [
  | inl e ↦
      let one : b ≡ v = ground arith in
      let hit : hits v (some b) ≡ 1 = rw e refl in
      let below = sub_incomming (g.cell v) (omega (arith, le, hit)) small in
      rw e (omega (arith, below, ap (λ x. (sub_incomming_edge (g.cell x)).incomming) one))
  | inr n ↦ rw n (omega arith)
]

graph-decrement : (g : Dag) (c : Option ℕ) → (decrement g c).graph ≡ g.graph
unfolding decrement
graph-decrement g none = refl
graph-decrement g (some a) = refl

decrement_edges :
    (g : Dag) (c : Option ℕ) (v : ℕ) → ((decrement g c).cell v).edges ≡ (g.cell v).edges
unfolding decrement sub_incomming_edge
decrement_edges g none v = refl
decrement_edges g (some a) v = ground arith

all_kept : (xs : List ℕ) (a : ℕ) → contains xs a ≡ false → keep_if (λ b. not (b == a)) xs ≡ xs
all_kept [] a h = refl
all_kept (x ∷ xs) a h = elim (Bool-cases (x == a)) [
  | inl e ↦ absurd (ground (arith, e, h))
  | inr n ↦ rw n (ap (λ l. x ∷ l) (all_kept xs a (ground (arith, h))))
]

release_incomming :
    (es : List Edge) (g : Dag) (v : ℕ)
    → AreLinks g.graph es
    → in_edges v es ≤ (g.cell v).incomming
    → (g.cell v).incomming < size_mod
    → ((release g es).cell v).incomming + in_edges v es ≡ (g.cell v).incomming
unfolding release
release_incomming [] g v links le small = omega arith
release_incomming (e ∷ es) g v ((b, leads, there), links) le small =
    let g' = decrement g (some b) in
    let first = decrement_incomming g b v (omega (arith, le, hit)) small in
    let rest =
      release_incomming es g' v
        (subst (λ graph. AreLinks graph es) (sym (graph-decrement g (some b))) links)
        (omega (arith, first, le, hit)) (omega (arith, first, small)) in
    rw (lock_link g e b leads there, release) (omega (arith, rest, first, hit))
  where
    hit : hits v e.connection ≡ hits v (some b)
    hit = ap (hits v) leads

-- The edges and the UUIDs stay.
pub release_edges :
    (es : List Edge) (g : Dag) (v : ℕ) → ((release g es).cell v).edges ≡ (g.cell v).edges
unfolding release
release_edges [] g v = refl
release_edges (e ∷ es) g v =
    release_edges es (decrement g (lock g e.connection)) v
    ∙ decrement_edges g (lock g e.connection) v

-- The vertex at `v` after the edges of the one at `a` were cut.
pub cut_vertex_other :
    (g : Dag) (a v : ℕ)
    → (a == v) ≡ false
    → AreLinks g.graph (g.cell a).edges
    → in_edges v (g.cell a).edges ≤ (g.cell v).incomming
    → (g.cell v).incomming < size_mod
    → (((cut_vertex g a).cell v).edges ≡ (g.cell v).edges)
      × (((cut_vertex g a).cell v).incomming + in_edges v (g.cell a).edges ≡ (g.cell v).incomming)
unfolding cut_vertex
cut_vertex_other g a v n links le small = (
  rw n (release_edges (g.cell a).edges g v),
  rw n (release_incomming (g.cell a).edges g v links le small),
)

-- `keep_if` without one number of the list.
pub sum_over-others :
    (f : ℕ → ℕ) (xs : List ℕ) (a : ℕ)
    → IsDistinct xs
    → contains xs a ≡ true
    → sum_over f (keep_if (λ b. not (b == a)) xs) + f a ≡ sum_over f xs
sum_over-others f [] a d m = cc
sum_over-others f (x ∷ xs) a d m = elim (Bool-cases (x == a)) [
  | inl e ↦
      let one : x ≡ a = ground arith in
      rw e (
        omega (
          arith,
          ap f one,
          ap (sum_over f) (all_kept xs a (ground (arith, ap (contains xs) one, d.0))),
        ))
  | inr n ↦ rw n (omega (arith, sum_over-others f xs a d.1 (ground (arith, m, n))))
]
