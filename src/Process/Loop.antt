-- ===== src/Process/Loop.antt =====
-- lib/dag_algorithms.cxx: the `while` loop of `process_dag`, with the layers that it makes.
use mathlib.Core.List.{append_assoc, append-nil}
use dag_scheduler.Base.{
  ◌<◌, subst, ℕ, zero, suc, ◌≤◌, ◌≡◌, refl, sym, ap, ◌∙◌, true, List, [], ◌∷◌, ◌++◌, length, map,
  Outcome, ok, contains, arith, Option,
}
use dag_scheduler.Externals.{Externals}
use dag_scheduler.Task.{Task}
use dag_scheduler.Vertex.{Vertex, clone_vertex}
use dag_scheduler.Dag.{Dag}
use dag_scheduler.Scheduler.{Scheduler, queue_task}
use dag_scheduler.Queue.{push}
use dag_scheduler.Process.{queue_all, process_roots}
use dag_scheduler.Process.Rounds.{IsTidy, AreRoots, take_roots_lem}
use dag_scheduler.Dag.Degrees.{Arc}
use dag_scheduler.Process.Taken.{
  tasks, in_layers, layer_of, roots_of, roots_of-AreRoots, some_root, taken_length, taken_count,
  taken_all, taken_ordered, AreCopies, taken-AreCopies,
}

-- No layer is empty.
abbrev pub AreFull : List (List Vertex) → Type 0
AreFull [] = Unit
AreFull (layer ∷ layers) = (1 ≤ length layer) × AreFull layers

queue_all_lem :
    (s : Scheduler) (vs : List Vertex)
    → queue_all s vs ≡ record s { queue = s.queue ++ map (λ (v : Vertex). v.task) vs }
unfolding queue_all queue_task push
queue_all_lem s [] = ap (λ q. record s { queue = q }) (sym (append-nil s.queue))
queue_all_lem s (v ∷ vs) =
    queue_all_lem (queue_task s v.task) vs
    ∙ ap (λ q. record s { queue = q })
        (append_assoc s.queue (v.task ∷ []) (map (λ (v : Vertex). v.task) vs))

module _ ⦃env : Externals⦄ where
  abbrev pub copies : List (List Vertex) → List (List Vertex)
  copies layers = map (map clone_vertex) layers

  joined :
      (out : List (List Vertex)) (taken : List Vertex) (layers : List (List Vertex)) (s : Scheduler)
      → ◌≡◌ {A = Outcome (List (List Vertex) × Scheduler)}
          (ok (
            (out ++ map clone_vertex taken ∷ []) ++ copies layers,
            record (queue_all s taken) { queue = (queue_all s taken).queue ++ tasks layers },
          ))
          (ok (
            out ++ copies (taken ∷ layers),
            record s { queue = s.queue ++ tasks (taken ∷ layers) },
          ))
  joined out taken layers s =
      let queued = map (λ (v : Vertex). v.task) taken in
      ap
        (λ o.
          ok (o, record (queue_all s taken) { queue = (queue_all s taken).queue ++ tasks layers }))
        (append_assoc out (map clone_vertex taken ∷ []) (copies layers))
      ∙ ap
          (λ s'.
            ok (out ++ copies (taken ∷ layers), record s' { queue = s'.queue ++ tasks layers }))
          (queue_all_lem s taken)
      ∙ ap (λ q. ok (out ++ copies (taken ∷ layers), record s { queue = q }))
          (append_assoc s.queue queued (tasks layers))

  -- The rest of the loop.
  pub record Processes (fuel : ℕ) (g : Dag) (roots : List ℕ) (out : List (List Vertex))
      (s : Scheduler) : Type 0 where
    pub layers : List (List Vertex)
    pub ends :
        process_roots fuel g roots out s
        ≡ ok (out ++ copies layers, record s { queue = s.queue ++ tasks layers })
    pub full : AreFull layers
    pub copied : AreCopies g (λ a. clone_vertex (g.cell a)) layers
    pub count : length (tasks layers) ≤ length g.graph
    pub all : (b : ℕ) → contains g.graph b ≡ true → in_layers layers (g.cell b).uuid ≡ true
    pub ordered :
        (u v : ℕ) → Arc g u v → layer_of layers (g.cell u).uuid < layer_of layers (g.cell v).uuid

  pub process_roots_lem :
      (rank : ℕ → ℕ) (fuel : ℕ) (g : Dag) (roots : List ℕ) (out : List (List Vertex))
      (s : Scheduler)
      → IsTidy rank g
      → roots ≡ roots_of g
      → length g.graph ≤ fuel
      → Processes fuel g roots out s
  unfolding process_roots
  process_roots_lem rank fuel g [] out s tidy same bound = record {
    layers = [];
    ends =
        ap (λ (r : List (List Vertex) × List (Option Task)). ok (r.0, record s { queue = r.1 }))
          (ap (λ o. (o, s.queue)) (sym (append-nil out))
            ∙ ap (λ q. (out ++ [], q)) (sym (append-nil s.queue)));
    full = tt;
    copied = tt;
    count = omega arith;
    all = λ b m. absurd (some_root rank g tidy (sym same) (suc (rank b)) b (omega arith) m);
    ordered =
        λ u v arc. absurd (some_root rank g tidy (sym same) (suc (rank u)) u (omega arith) arc.0);
  }
  process_roots_lem rank zero g (a ∷ roots) out s tidy same bound =
      let r = subst (AreRoots g) (sym same) (roots_of-AreRoots g tidy.keyed) in
      absurd (omega (arith, bound, (take_roots_lem rank g (a ∷ roots) tidy r).shorter_by))
  process_roots_lem rank (suc fuel) g (a ∷ roots) out s tidy same bound =
      let r = subst (AreRoots g) (sym same) (roots_of-AreRoots g tidy.keyed) in
      let t = take_roots_lem rank g (a ∷ roots) tidy r in
      let rest =
        process_roots_lem rank fuel t.after (roots_of t.after)
          (out ++ map clone_vertex t.taken ∷ []) (queue_all s t.taken) t.tidy refl
          (omega (arith, bound, t.shorter_by)) in
      record {
        layers = t.taken ∷ rest.layers;
        ends = rw t.ends (rest.ends ∙ joined out t.taken rest.layers s);
        full = (omega (arith, taken_length rank g (a ∷ roots) t), rest.full);
        copied = taken-AreCopies rank g (a ∷ roots) t rest.layers r rest.copied;
        count = taken_count rank g (a ∷ roots) t rest.layers rest.count;
        all = taken_all rank g (a ∷ roots) t rest.layers rest.all;
        ordered = taken_ordered rank g (a ∷ roots) t rest.layers tidy r rest.ordered;
      }
