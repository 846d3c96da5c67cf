-- ===== src/Process/Ends.antt =====
-- lib/dag_algorithms.cxx: `process_dag` as a whole, on the copies of its argument.
use dag_scheduler.Base.{
  ==_iff, ℕ, ◌≤◌, ◌<◌, ◌≡◌, refl, sym, ap, ◌∙◌, true, false, List, [], ◌++◌, ◌==◌, length, ok,
  arith,
}
use dag_scheduler.Externals.{Externals}
use dag_scheduler.Vertex.{Vertex, clone_vertex, clone_vertex-payload}
use dag_scheduler.Dag.{Dag, vertex_count}
use dag_scheduler.Dag.Keys.{Has, KeyArc, IsRanked-of_IsAcyclic}
use dag_scheduler.Dag.Valid.{IsValid}
use dag_scheduler.Sort.{dag_topological_sort}
use dag_scheduler.Sort.Correct.{
  IsTopological, dag_topological_sort_decides, dag_topological_sort_sorts,
}
use dag_scheduler.Clone.Correct.{IsClone, clone_lem}
use dag_scheduler.Connect.Joins.{IsSound, redrawn-IsValid}
use dag_scheduler.Connect.Keeps.{clone-IsSound}
use dag_scheduler.Scheduler.{Scheduler}
use dag_scheduler.Process.{process_sorted, process_dag}
use dag_scheduler.Process.Layers.{IsKeyed}
use dag_scheduler.Process.Rounds.{IsTidy}
use dag_scheduler.Process.Counts.{length_le, length_le_of_Has}
use dag_scheduler.Process.Taken.{
  tasks, in_layers, layer_of, roots_of, length-map, IsCopy, AreCopies, AreCopies-map,
}
use dag_scheduler.Process.Loop.{AreFull, copies, process_roots_lem}

module _ ⦃env : Externals⦄ where
  IsKeyed-of_IsValid : (g : Dag) → IsValid g → IsKeyed g
  IsKeyed-of_IsValid g valid = record { distinct = valid.linked.distinct; keyed = valid.keyed }

  Has-clone : (o h : Dag) → IsClone o h → (x : ℕ) → Has o x → Has h x
  unfolding clone_vertex
  Has-clone o h c x (a, there, e) =
      let (b, found, same) = c.copies a there in (b, found, ap (λ (v : Vertex). v.uuid) same ∙ e)

  -- A copy has the UUIDs of the graph, and so as many vertices.
  vertex_count-clone : (o h : Dag) → IsValid o → IsClone o h → vertex_count h ≡ vertex_count o
  unfolding vertex_count
  vertex_count-clone o h valid c = omega (
    arith,
    length_le_of_Has h o (IsKeyed-of_IsValid h c.valid) c.only,
    length_le_of_Has o h (IsKeyed-of_IsValid o valid) (Has-clone o h c),
  )

  length-sorted :
      (g : Dag) (sorted : List ℕ)
      → IsValid g
      → IsTopological g sorted
      → length sorted ≡ vertex_count g
  unfolding vertex_count
  length-sorted g sorted valid t = omega (
    arith,
    length_le sorted g.graph t.distinct (λ a. (t.complete a).0),
    length_le g.graph sorted valid.linked.distinct (λ a. (t.complete a).1),
  )

  -- The sort of a copy succeeds and has all its vertices.
  copy_sorts :
      (h : Dag)
      → IsSound h
      → (h' : Dag) × (vs : List Vertex) × (dag_topological_sort h ≡ ok (h', false, vs))
        × (length vs ≡ vertex_count h)
  copy_sorts h sound =
      let (h', failed, vs, ends, decides) = dag_topological_sort_decides h sound.valid.linked in
      let good =
        ends ∙ ap (λ f. ok (h', f, vs)) (decides.1 (IsRanked-of_IsAcyclic h sound.acyclic)) in
      let (sorted, same, t) = dag_topological_sort_sorts h h' vs sound.valid.linked good in
      (
        h',
        vs,
        good,
        ap length same
            ∙ length-map (λ a. clone_vertex (h.cell a)) sorted
            ∙ length-sorted h sorted sound.valid t,
      )

  -- `out` and the queue have the layers of the vertices, each vertex behind the sources of its edges.
  -- They hold the copies that `copy` makes of the vertices.
  pub record Layered (g : Dag) (copy : ℕ → Vertex) (layers : List (List Vertex)) : Type 0 where
    pub full : AreFull layers
    pub copied : AreCopies g copy layers
    pub count : length (tasks layers) ≤ vertex_count g
    pub all : (x : ℕ) → Has g x → in_layers layers x ≡ true
    pub ordered : (x y : ℕ) → KeyArc g x y → layer_of layers x < layer_of layers y

  abbrev pub Queues : Dag → List (List Vertex) → Scheduler → Type 0
  Queues g out s =
      (layers : List (List Vertex)) × (process_dag g out s
        ≡ ok (true, copies layers, record s { queue = s.queue ++ tasks layers }))
      × Layered g (λ a. clone_vertex (clone_vertex (g.cell a))) layers

  process_sorted_lem :
      (h : Dag) (out : List (List Vertex)) (s : Scheduler)
      → IsSound h
      → (layers : List (List Vertex)) × (process_sorted h true true out s
          ≡ ok (true, copies layers, record s { queue = s.queue ++ tasks layers }))
        × Layered h (λ a. clone_vertex (h.cell a)) layers
  unfolding process_sorted vertex_count
  process_sorted_lem h out s sound =
      let (rank, ranked) = IsRanked-of_IsAcyclic h sound.acyclic in
      let tidy : IsTidy rank h = record {
        keyed = IsKeyed-of_IsValid h sound.valid;
        linked = sound.valid.linked;
        ranked = ranked;
      } in
      let p = process_roots_lem rank (length h.graph) h (roots_of h) [] s tidy refl (omega arith) in
      (
        p.layers,
        rw p.ends refl,
        record {
          full = p.full;
          copied = p.copied;
          count = p.count;
          all = λ x has. ap (in_layers p.layers) (sym has.2) ∙ p.all has.0 has.1;
          ordered = λ x y (u, v, m, some_edge, from, to). omega (
            arith,
            p.ordered u v (m, some_edge),
            ap (layer_of p.layers) from,
            ap (layer_of p.layers) to,
          );
        },
      )

  -- A copy of a vertex of the copy is a copy of a copy of a vertex of the graph.
  copied_twice :
      (o h : Dag)
      → IsClone o h
      → (v : Vertex) → IsCopy h (λ a. clone_vertex (h.cell a)) v
      → IsCopy o (λ a. clone_vertex (clone_vertex (o.cell a))) v
  unfolding clone_vertex
  copied_twice o h c v (b, there, e) =
      let (a, a_there, named) = c.only (h.cell b).uuid (b, there, refl) in
      let (d, d_there, same) = c.copies a a_there in
      let one : b ≡ d =
        c.valid.keyed b d there d_there (sym named ∙ ap (λ (w : Vertex). w.uuid) (sym same)) in
      (
        a,
        a_there,
        e
            ∙ ap (λ x. clone_vertex (h.cell x)) one
            ∙ clone_vertex-payload (h.cell d) (clone_vertex (o.cell a)) same,
      )

  -- What a copy has, the graph has.
  Layered-clone :
      (o h : Dag) (layers : List (List Vertex))
      → IsValid o
      → IsClone o h
      → Layered h (λ a. clone_vertex (h.cell a)) layers
      → Layered o (λ a. clone_vertex (clone_vertex (o.cell a))) layers
  Layered-clone o h layers valid c l = record {
    full = l.full;
    copied =
        AreCopies-map h o (λ a. clone_vertex (h.cell a))
          (λ a. clone_vertex (clone_vertex (o.cell a))) (copied_twice o h c) layers l.copied;
    count = omega (arith, l.count, vertex_count-clone o h valid c);
    all = λ x has. l.all x (Has-clone o h c x has);
    ordered = λ x y arc. l.ordered x y ((c.arcs x y).1 arc);
  }

  redrawn-IsSound : (g : Dag) (n : ℕ) → IsSound g → IsSound (record g { draws = n })
  redrawn-IsSound g n sound = record {
    valid = redrawn-IsValid g n sound.valid;
    acyclic = sound.acyclic;
    document = sound.document;
  }

  -- `process_dag` of a valid DAG with no cycle and with a document returns true. There are layers of
  -- vertices, none of them empty, each vertex with the task, label, UUID and status of a copy of a copy
  -- of one of the DAG. `out` has copies of them, and their tasks are queued behind those that were
  -- there, in the order of `out`. Each vertex of the DAG is in a layer, an earlier one than those of
  -- the targets of its edges, and no more tasks are queued than the DAG has vertices.
  pub process_dag_lem :
      (g : Dag) (out : List (List Vertex)) (s : Scheduler) → IsSound g → Queues g out s
  unfolding process_dag vertex_count
  process_dag_lem g out s sound =
      let (text, has) = sound.document in
      let (h, made, c) = clone_lem g sound.valid text has in
      let redrawn = record g { draws = h.draws } in
      let sound' = redrawn-IsSound g h.draws sound in
      let (h2, made2, c2) = clone_lem redrawn sound'.valid text has in
      let (h3, vs, sorts, all) = copy_sorts h2 (clone-IsSound redrawn h2 sound' made2) in
      let size : (length vs == vertex_count h) ≡ true = (==_iff (length vs) (vertex_count h)).1 (
        all
        ∙ vertex_count-clone redrawn h2 sound'.valid c2
        ∙ sym (vertex_count-clone g h sound.valid c)) in
      let (layers, ends, layered) = process_sorted_lem h out s (clone-IsSound g h sound made) in
      (layers, rw (made, made2, sorts, size) ends, Layered-clone g h layers sound.valid c layered)
