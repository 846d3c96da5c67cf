-- ===== src/Dag/Degrees.antt =====
-- The arcs of a DAG, counted: what `incomming_edge_count_` is to hold.
use dag_scheduler.Base.{
  ap, sum_over_pos, ℕ, ◌+◌, ◌≤◌, ◌<◌, ◌≡◌, refl, true, List, [], ◌∷◌, ◌++◌, Option, none, some,
  ◌==◌, if◌then◌else◌, length, set, contains, sum_over, le-sum_over, arith,
}
use dag_scheduler.Vertex.{Edge}
use dag_scheduler.Dag.{Dag, edge_count}

-- 1 if the connection leads to `b`.
abbrev pub hits : ℕ → Option ℕ → ℕ
hits b none = 0
hits b (some a) = if a == b then 1 else 0

-- The edges of the list that lead to `b`.
abbrev pub in_edges : ℕ → List Edge → ℕ
in_edges b [] = 0
in_edges b (e ∷ es) = hits b e.connection + in_edges b es

-- The edges of the graph that lead to `b`.
unfoldable pub indegree : Dag → ℕ → ℕ
indegree g b = sum_over (λ u. in_edges b (g.cell u).edges) g.graph

-- There is an edge from the vertex at `u` to the one at `v`.
abbrev pub Arc : Dag → ℕ → ℕ → Type 0
Arc g u v = (contains g.graph u ≡ true) × (0 < in_edges v (g.cell u).edges)

-- `rank` grows along each edge, so that the graph has no cycle.
abbrev pub IsRanked : (ℕ → ℕ) → Dag → Type 0
IsRanked rank g = (u v : ℕ) → Arc g u v → rank u < rank v

-- The edge leads to a vertex of the graph.
abbrev pub IsLink : List ℕ → Edge → Type 0
IsLink graph e = (b : ℕ) × (e.connection ≡ some b) × (contains graph b ≡ true)

abbrev pub AreLinks : List ℕ → List Edge → Type 0
AreLinks graph [] = Unit
AreLinks graph (e ∷ es) = IsLink graph e × AreLinks graph es

pub hits-le : (b : ℕ) (c : Option ℕ) → hits b c ≤ 1
hits-le b none = omega arith
hits-le b (some a) = ground arith

pub in_edges-le-length : (b : ℕ) (es : List Edge) → in_edges b es ≤ length es
in_edges-le-length b [] = omega arith
in_edges-le-length b (e ∷ es) = omega (arith, hits-le b e.connection, in_edges-le-length b es)

pub hits_pos : (b : ℕ) (c : Option ℕ) → 0 < hits b c → c ≡ some b
hits_pos b none h = absurd (omega arith)
hits_pos b (some a) h = ap some (ground arith)

pub hits_self : (b : ℕ) → hits b (some b) ≡ 1
hits_self b = ground arith

pub AreLinks-append :
    (graph : List ℕ) (xs ys : List Edge)
    → AreLinks graph xs
    → AreLinks graph ys
    → AreLinks graph (xs ++ ys)
AreLinks-append graph [] ys hx hy = hy
AreLinks-append graph (x ∷ xs) ys hx hy = (hx.0, AreLinks-append graph xs ys hx.1 hy)

-- An edge that is replaced.
pub in_edges-set :
    (b : ℕ) (done : List Edge) (e e' : Edge) (es : List Edge)
    → in_edges b (done ++ e' ∷ es) + hits b e.connection
      ≡ in_edges b (done ++ e ∷ es) + hits b e'.connection
in_edges-set b [] e e' es = omega arith
in_edges-set b (d ∷ done) e e' es = omega (arith, in_edges-set b done e e' es)

pub in_edges-append :
    (b : ℕ) (xs ys : List Edge) → in_edges b (xs ++ ys) ≡ in_edges b xs + in_edges b ys
in_edges-append b [] ys = omega arith
in_edges-append b (e ∷ xs) ys = omega (arith, in_edges-append b xs ys)

pub set-middle :
    (done : List Edge) (e e' : Edge) (es : List Edge)
    → set (done ++ e ∷ es) (length done) e' ≡ done ++ e' ∷ es
set-middle [] e e' es = refl
set-middle (d ∷ done) e e' es = λ i. d ∷ set-middle done e e' es i

sum_over_mono : (f h : ℕ → ℕ) (xs : List ℕ) → ((u : ℕ) → f u ≤ h u) → sum_over f xs ≤ sum_over h xs
sum_over_mono f h [] le = omega arith
sum_over_mono f h (x ∷ xs) le = omega (arith, le x, sum_over_mono f h xs le)

pub indegree-le-edge_count : (g : Dag) (b : ℕ) → indegree g b ≤ edge_count g
unfolding indegree edge_count
indegree-le-edge_count g b = sum_over_mono _ _ g.graph (λ u. in_edges-le-length b (g.cell u).edges)

-- A vertex that no edge leads to.
pub in_edges_eq_zero :
    (g : Dag) (u v : ℕ)
    → contains g.graph u ≡ true
    → indegree g v ≡ 0
    → in_edges v (g.cell u).edges ≡ 0
unfolding indegree
in_edges_eq_zero g u v m z =
    omega (arith, le-sum_over (λ u. in_edges v (g.cell u).edges) u g.graph m)

-- A vertex that some edge leads to.
pub indegree_pos : (g : Dag) (v : ℕ) → 0 < indegree g v → (u : ℕ) × Arc g u v
unfolding indegree
indegree_pos g v h = let (u, m, p) = sum_over_pos _ g.graph h in (u, (m, p))
