-- ===== src/Graph/Refines.antt =====
-- Runs of calls on a DAG and on the graph that it stands for.
use mathlib.Core.Bool.{false≢true}
use dag_scheduler.Base.{
  ℕ, ◌+◌, ◌<◌, ◌≤◌, ◌≡◌, ◌∙◌, refl, sym, ap, arith, Bool, true, false, not, contains, length, List,
  [], ◌∷◌, some, inl, inr, Outcome, ok, throws, ◌>>=◌, String, sum_over,
}
use dag_scheduler.Externals.{Externals}
use dag_scheduler.Vertex.{size_mod}
use dag_scheduler.Dag.{Dag, make_dag, reset, edge_count}
use dag_scheduler.Dag.Add.{add_vertex_lem}
use dag_scheduler.Connect.Keeps.{empty-IsSound}
use dag_scheduler.Graph.{
  Graph, empty_graph, insert, join, without, Call, adds, connects, removes, resets, Promises,
  Behaves, Fits, AllFit, call, call_all,
}
use dag_scheduler.Graph.Adds.{Models, adds-Models, adds_returns}
use dag_scheduler.Graph.Connects.{refused, cyclic, joined, connects-Connected}
use dag_scheduler.Graph.Drops.{removes_lem}

-- The outcome of a call on a DAG is the one of the call on the graph.
abbrev Simulates : ℕ → Outcome (Graph × Bool) → Outcome (Dag × Bool) → Type 0
Simulates n (ok (G, b)) (ok (g, b')) = (b' ≡ b) × Models G g × (edge_count g ≤ n)
Simulates n throws throws = Unit
Simulates n _ _ = ⊥

empty_count : (g : Dag) → g.graph ≡ [] → edge_count g ≡ 0
unfolding edge_count
empty_count g bare = ap (sum_over (λ a. length (g.cell a).edges)) bare

module _ ⦃env : Externals⦄ where
  empty-Models :
      (g : Dag) (text : String) → g.graph ≡ [] → g.json_config ≡ some text → Models empty_graph g
  empty-Models g text bare has = record {
    sound = empty-IsSound g text bare has;
    has = λ x. (λ e. absurd (false≢true e), λ (a, m, e). absurd (nothing a m));
    arcs = λ x y. (λ e. absurd (false≢true e), λ arc. absurd (nothing arc.0 arc.2));
  }
    where
      nothing : (u : ℕ) → ¬ contains g.graph u ≡ true
      nothing u m = false≢true (sym (ap (λ l. contains l u) bare) ∙ m)

  call-Simulates :
      (G : Graph) (g : Dag) (c : Call)
      → Models G g
      → Fits G c
      → edge_count g + 1 < size_mod
      → (r : Outcome (Graph × Bool)) × Promises G c r × Simulates (edge_count g + 1) r (call g c)
  unfolding call reset
  call-Simulates G g (adds v) m fits room = (
    ok (insert G v.uuid, not (G.has v.uuid)),
    refl,
    (
      adds_returns G g m v fits.0 fits.1,
      adds-Models G g m v fits.0 fits.1,
      omega (arith, (add_vertex_lem g v m.sound.valid fits.0 fits.1).same_count),
    ),
  )
  call-Simulates G g (connects v w) m fits room = elim (connects-Connected G g m v w room) [
    | refused promise ends ↦ (ok (G, false), promise, rw ends (refl, m, omega arith))
    | cyclic promise ends ↦ (throws, promise, rw ends tt)
    | joined g' promise ends models count ↦
        (ok (join G v.uuid w.uuid, true), promise, rw ends (refl, models, count))
  ]
  call-Simulates G g (removes id) m fits room =
      let (ret, models, count) = removes_lem G g m id fits in
      (ok (without G id, G.has id), refl, (ret, models, omega (arith, count)))
  call-Simulates G g resets m fits room = (
    ok (empty_graph, true),
    refl,
    (
      refl,
      empty-Models (reset g) m.sound.document.0 refl m.sound.document.1,
      omega (arith, empty_count (reset g) refl),
    ),
  )

-- The outcome of a run on a DAG is the one of the run on the graph: the same results and a DAG that
-- stands for the graph, or an exception from both.
abbrev pub Ends : Outcome (Graph × List Bool) → Outcome (Dag × List Bool) → Type 0
Ends (ok (G, bs)) (ok (g, bs')) = (bs' ≡ bs) × Models G g
Ends throws throws = Unit
Ends _ _ = ⊥

Ends-more :
    (b b' : Bool) (r : Outcome (Graph × List Bool)) (o : Outcome (Dag × List Bool))
    → b' ≡ b
    → Ends r o
    → Ends
        (◌>>=◌ {B = Graph × List Bool} r (λ (H, bs). ok (H, b ∷ bs)))
        (◌>>=◌ {B = Dag × List Bool} o (λ (h, bs). ok (h, b' ∷ bs)))
Ends-more b b' (ok (G, bs)) (ok (g, bs')) e (same, m) =
    (ap (λ x. x ∷ bs') e ∙ ap (λ l. b ∷ l) same, m)
Ends-more b b' throws throws e h = tt
Ends-more b b' r o e h = absurd h

module _ ⦃env : Externals⦄ where
  abbrev Refined : Graph → Dag → List Call → Type 0
  Refined G g cs = (r : Outcome (Graph × List Bool)) × Behaves G cs r × Ends r (call_all g cs)

  after_call :
      (G : Graph) (c : Call) (cs : List Call) (n : ℕ) (r : Outcome (Graph × Bool))
      (o : Outcome (Dag × Bool))
      → Promises G c r
      → Simulates n r o
      → ((G' : Graph) (g' : Dag) (b : Bool)
          → Promises G c (ok (G', b))
          → Models G' g'
          → edge_count g' ≤ n
          → Refined G' g' cs)
      → (r' : Outcome (Graph × List Bool)) × Behaves G (c ∷ cs) r'
        × Ends r' (o >>= λ (g', b). call_all g' cs >>= λ (g'', bs). ok (g'', b ∷ bs))
  after_call G c cs n (ok (G', b)) (ok (g', b')) promise (same, m, count) later =
      let (rest, behaves, ends) = later G' g' b promise m count in
      (
        ◌>>=◌ {B = Graph × List Bool} rest (λ (H, bs). ok (H, b ∷ bs)),
        inr (G', b, rest, promise, behaves, refl),
        Ends-more b b' rest (call_all g' cs) same ends,
      )
  after_call G c cs n throws throws promise s later = (throws, inl (promise, refl), tt)
  after_call G c cs n r o promise s later = absurd s

  calls-Refined :
      (G : Graph) (g : Dag) (cs : List Call)
      → Models G g
      → AllFit G cs
      → edge_count g + length cs < size_mod
      → Refined G g cs
  unfolding call_all
  calls-Refined G g [] m fit room = (ok (G, []), refl, (refl, m))
  calls-Refined G g (c ∷ cs) m fit room =
      let (r, promise, s) = call-Simulates G g c m fit.0 (omega (arith, room)) in
      after_call G c cs (edge_count g + 1) r (call g c) promise s (λ G' g' b p m' count.
        calls-Refined G' g' cs m' (fit.1 G' b p) (omega (arith, room, count)))

  -- A DAG that a constructor makes refines the empty graph. For each run of fewer than 2^64 calls
  -- of `add_vertex`, `connect`, `remove_vertex_by_uuid` and `reset`, in which vertices come as their
  -- constructors make them and are removed when no edge leads to them, there is an outcome that the
  -- calls promise on the graph, and the run on the DAG has it: the results are the same and the DAG
  -- stands for the graph, or `connect` throws in both.
  pub call_all-Ends :
      (title json : String) (cs : List Call)
      → AllFit empty_graph cs
      → length cs < size_mod
      → (r : Outcome (Graph × List Bool)) × Behaves empty_graph cs r
        × Ends r (call_all (make_dag title json) cs)
  unfolding make_dag
  call_all-Ends title json cs fit room =
      let g = make_dag title json in
      calls-Refined empty_graph g cs (empty-Models g json refl refl) fit
        (omega (arith, room, empty_count g refl))
