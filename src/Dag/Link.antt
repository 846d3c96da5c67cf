-- ===== src/Dag/Link.antt =====
-- `DAGVertex::connect` between two vertices of a DAG.
use dag_scheduler.Dag.Seek.{contains_connection_complete, contains_connection_sound}
use dag_scheduler.Dag.Grow.{Grows}
use mathlib.Core.Bool.{false≢true}
use dag_scheduler.Base.{
  Bool, length-append, ◌∙◌, sum_over_change, sym, length, subst, refl, ◌++◌, inl, inr, ◌==◌, false,
  Bool-cases, ap, if◌then◌else◌, ◌∷◌, arith, ◌+◌, ◌<◌, true, some, ◌⊎◌, contains, ◌↔◌, suc, ℕ, [],
  ◌≡◌,
}
use dag_scheduler.Externals.{Externals}
use dag_scheduler.Vertex.{
  Vertex, EdgeStatus, Edge, make_edge, add_incomming_edge, payload, size_mod,
}
use dag_scheduler.Dag.{
  Dag, connect_vertex, contains_connection_to, increment, push_edge, edge_count,
}
use dag_scheduler.Dag.Degrees.{
  AreLinks-append, indegree-le-edge_count, in_edges, indegree, hits, Arc, AreLinks, in_edges-append,
}
use dag_scheduler.Dag.Valid.{IsValid}

module _ ⦃env : Externals⦄ where
  new_edge : Dag → ℕ → Edge
  unfolding make_edge
  new_edge g o = record {
    uuid = env.generate g.draws;
    status = EdgeStatus.initialized;
    connection = some o;
  }

  -- The state after a new edge from `c` to `o`.
  joined : Dag → ℕ → ℕ → Dag
  unfolding new_edge
  joined g c o = push_edge (increment (record g { draws = suc g.draws }) (some o)) c (new_edge g o)

  connect_vertex_old :
      (g : Dag) (c o : ℕ)
      → contains_connection_to g (g.cell c).edges (g.cell o) ≡ true
      → connect_vertex g c o ≡ (g, false)
  unfolding connect_vertex
  connect_vertex_old g c o h = rw h

  connect_vertex_new :
      (g : Dag) (c o : ℕ)
      → contains g.graph o ≡ true
      → contains_connection_to g (g.cell c).edges (g.cell o) ≡ false
      → connect_vertex g c o ≡ (joined g c o, true)
  unfolding connect_vertex joined
  connect_vertex_new g c o there h = rw (h, there)

  joined_edges :
      (g : Dag) (c o u : ℕ)
      → ((joined g c o).cell u).edges
        ≡ (if c == u then (g.cell u).edges ++ new_edge g o ∷ [] else (g.cell u).edges)
  unfolding joined push_edge increment add_incomming_edge
  joined_edges g c o u = ground arith

  joined_incomming :
      (g : Dag) (c o u : ℕ)
      → ((joined g c o).cell u).incomming
        ≡ (if o == u then (add_incomming_edge (g.cell u)).incomming else (g.cell u).incomming)
  unfolding joined push_edge increment add_incomming_edge
  joined_incomming g c o u = ground arith

  payload-joined : (g : Dag) (c o u : ℕ) → payload ((joined g c o).cell u) ≡ payload (g.cell u)
  unfolding joined push_edge increment add_incomming_edge
  payload-joined g c o u = ground arith

  joined_uuid : (g : Dag) (c o u : ℕ) → ((joined g c o).cell u).uuid ≡ (g.cell u).uuid
  joined_uuid g c o u = ap (λ (v : Vertex). v.uuid) (payload-joined g c o u)

  module _ (g : Dag) (c o : ℕ) (valid : IsValid g) (c_there : contains g.graph c ≡ true)
      (o_there : contains g.graph o ≡ true) (room : edge_count g + 1 < size_mod) where
    in_edges-joined :
        (v u : ℕ)
        → in_edges v ((joined g c o).cell u).edges
          ≡ in_edges v (g.cell u).edges + (if c == u then hits v (some o) else 0)
    unfolding new_edge
    in_edges-joined v u =
        ground (arith, joined_edges g c o u, in_edges-append v (g.cell u).edges (new_edge g o ∷ []))

    indegree-joined : (v : ℕ) → indegree (joined g c o) v ≡ indegree g v + hits v (some o)
    unfolding indegree joined push_edge increment
    indegree-joined v = ground (
      arith,
      sum_over_change (λ u. in_edges v ((joined g c o).cell u).edges)
          (λ u. in_edges v (g.cell u).edges) c g.graph valid.linked.distinct c_there
          (λ u ne. ground (arith, in_edges-joined v u)),
      in_edges-joined v c,
    )

    length-joined :
        (u : ℕ)
        → length ((joined g c o).cell u).edges ≡ length (g.cell u).edges + (if c == u then 1 else 0)
    length-joined u =
        ground (arith, joined_edges g c o u, length-append (g.cell u).edges (new_edge g o ∷ []))

    edge_count-joined : edge_count (joined g c o) ≡ edge_count g + 1
    unfolding edge_count joined push_edge increment
    edge_count-joined = ground (
      arith,
      sum_over_change (λ u. length ((joined g c o).cell u).edges) (λ u. length (g.cell u).edges) c
          g.graph valid.linked.distinct c_there (λ u ne. ground (arith, length-joined u)),
      length-joined c,
    )

    joined_counted :
        (v : ℕ)
        → contains g.graph v ≡ true
        → ((joined g c o).cell v).incomming ≡ indegree (joined g c o) v
    unfolding add_incomming_edge
    joined_counted v there = ground (
      arith,
      joined_incomming g c o v,
      indegree-joined v,
      valid.linked.counted v there,
      indegree-le-edge_count g v,
      room,
    )

    joined_links :
        (u : ℕ) → contains g.graph u ≡ true → AreLinks g.graph ((joined g c o).cell u).edges
    unfolding new_edge
    joined_links u there = elim (Bool-cases (c == u)) [
      | inl e ↦
          subst (AreLinks g.graph)
            (sym (
              joined_edges g c o u
              ∙ ap (λ b. if b then (g.cell u).edges ++ new_edge g o ∷ [] else (g.cell u).edges) e))
            (AreLinks-append g.graph (g.cell u).edges (new_edge g o ∷ [])
              (valid.linked.links u there) ((o, refl, o_there), tt))
      | inr e ↦
          subst (AreLinks g.graph)
            (sym (
              joined_edges g c o u
              ∙ ap (λ b. if b then (g.cell u).edges ++ new_edge g o ∷ [] else (g.cell u).edges) e))
            (valid.linked.links u there)
    ]

    joined_keyed :
        (a b : ℕ)
        → contains g.graph a ≡ true
        → contains g.graph b ≡ true
        → ((joined g c o).cell a).uuid ≡ ((joined g c o).cell b).uuid
        → a ≡ b
    joined_keyed a b ha hb same =
        valid.keyed a b ha hb (sym (joined_uuid g c o a) ∙ same ∙ joined_uuid g c o b)

    joined_graph : (joined g c o).graph ≡ g.graph
    unfolding joined push_edge increment
    joined_graph = refl

    joined-IsValid : IsValid (joined g c o)
    unfolding joined push_edge increment
    joined-IsValid = record {
      linked = record {
        distinct = valid.linked.distinct;
        links = joined_links;
        counted = joined_counted;
        small = omega (arith, edge_count-joined);
      };
      keyed = joined_keyed;
      fresh = valid.fresh;
    }

    joined_arcs : (u v : ℕ) → Arc (joined g c o) u v ↔ (Arc g u v ⊎ (u ≡ c) × (v ≡ o))
    joined_arcs u v = ground (
      arith,
      in_edges-joined v u,
      ap (λ l. contains l u) joined_graph,
      ap (contains g.graph) {x = c} {y = u},
      c_there,
    )

    joined-Grows : Grows g (joined g c o) (λ u v. (u ≡ c) × (v ≡ o)) 1
    joined-Grows = record {
      valid = joined-IsValid;
      same_graph = joined_graph;
      same_payload = payload-joined g c o;
      arcs = joined_arcs;
      count = omega (arith, edge_count-joined);
    }

  module _ (g : Dag) (c o : ℕ) (valid : IsValid g) (c_there : contains g.graph c ≡ true)
      (o_there : contains g.graph o ≡ true) (room : edge_count g + 1 < size_mod) where
    -- On two vertices of a valid DAG with room for one more edge, `DAGVertex::connect` adds the edge
    -- if there is none, keeps the DAG valid and all else as it was, and returns whether there was
    -- none.
    pub connect_vertex_lem :
        Grows g (connect_vertex g c o).0 (λ u v. (u ≡ c) × (v ≡ o)) 1
        × (((connect_vertex g c o).1 ≡ true) ↔ (¬ Arc g c o))
    connect_vertex_lem = elim (Bool-cases (contains_connection_to g (g.cell c).edges (g.cell o))) [
      | inl old ↦
          let arc : Arc g c o =
            (c_there, contains_connection_sound g o (g.cell c).edges valid o_there old) in
          subst Joins (sym (connect_vertex_old g c o old))
            (held-Grows arc, (λ e. absurd (false≢true e), λ no_arc. absurd (no_arc arc)))
      | inr new ↦ subst Joins (sym (connect_vertex_new g c o o_there new)) (
        joined-Grows g c o valid c_there o_there room,
        (
          λ _ arc. absurd (
              false≢true
                (sym new ∙ contains_connection_complete g o (g.cell c).edges o_there arc.1)),
          λ _. refl,
        ),
      )
    ]
      where
        Joins : Dag × Bool → Type 0
        Joins r = Grows g r.0 (λ u v. (u ≡ c) × (v ≡ o)) 1 × ((r.1 ≡ true) ↔ (¬ Arc g c o))

        held-Grows : Arc g c o → Grows g g (λ u v. (u ≡ c) × (v ≡ o)) 1
        held-Grows arc = record {
          valid = valid;
          same_graph = refl;
          same_payload = λ u. refl;
          arcs = λ u v. (
            inl,
            λ s. elim s [
              | inl a ↦ a
              | inr (e, f) ↦ subst (λ x. Arc g x v) (sym e) (subst (λ y. Arc g c y) (sym f) arc)
            ],
          );
          count = omega arith;
        }
