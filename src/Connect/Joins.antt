-- ===== src/Connect/Joins.antt =====
-- `DAG::connect`: what it does to the graph, on each of its branches.
use dag_scheduler.Print.{vertex_text}
use mathlib.Core.Bool.{false≢true}
use Prim.Native.String.{◌++◌}
use dag_scheduler.Base.{
  subst, length, ◌||◌, fault, ◌≢◌, out_of_fuel, ◌⊎◌, sym, ◌>>=◌, ◌&&◌, arith, false, suc, Option, ℕ,
  ◌+◌, ◌<◌, ◌≡◌, ◌∙◌, refl, ap, Bool, true, contains, some, none, inl, inr, ok, throws, String,
  Outcome, if◌then◌else◌, Bool-cases,
}
use dag_scheduler.Externals.{Externals}
use dag_scheduler.Vertex.{Edge, make_edge, size_mod}
use dag_scheduler.Dag.{
  lock, connect_to, Dag, find_vertex, connect_vertex, contains_connection_to, push_edge, increment,
  decrement, edge_count,
}
use dag_scheduler.Dag.Degrees.{indegree}
use dag_scheduler.Dag.Valid.{IsValid}
use dag_scheduler.Dag.Find.{find_vertex_by_uuid_self}
use dag_scheduler.Dag.Grow.{Grows}
use dag_scheduler.Dag.Keys.{KeyArc, IsAcyclic, IsRanked-of_IsAcyclic}
use dag_scheduler.Dag.Link.{connect_vertex_lem}
use dag_scheduler.Print.Depth.{
  bind_deep, vertex_text-Goes, vertex_text-Writes, vertex_text_endless, IsEndless,
}
use dag_scheduler.Connect.{error_str, connect_ends, connection_would_make_cyclic, connect}
use dag_scheduler.Connect.Cycles.{WithArc, connection_would_make_cyclic_decides}

-- A valid DAG with a document and no cycle.
pub record IsSound (g : Dag) : Type 0 where
  pub valid : IsValid g
  pub acyclic : IsAcyclic (KeyArc g)
  pub document : (text : String) × (g.json_config ≡ some text)

pub redrawn-IsValid : (g : Dag) (n : ℕ) → IsValid g → IsValid (record g { draws = n })
unfolding indegree edge_count
redrawn-IsValid g n valid = record {
  linked = record {
    distinct = valid.linked.distinct;
    links = valid.linked.links;
    counted = valid.linked.counted;
    small = valid.linked.small;
  };
  keyed = valid.keyed;
  fresh = valid.fresh;
}

redrawn-Grows :
    (g k : Dag) (d n : ℕ) (new : ℕ → ℕ → Type 0)
    → Grows (record g { draws = d }) k new n
    → Grows g k new n
unfolding edge_count
redrawn-Grows g k d n new grows = record {
  valid = grows.valid;
  same_graph = grows.same_graph;
  same_payload = grows.same_payload;
  arcs = grows.arcs;
  count = grows.count;
}

-- The state after an edge from `a` to `b` was let in.
pub record IsJoined (g : Dag) (a b : ℕ) (g' : Dag) : Type 0 where
  pub grows : Grows g g' (λ u v. (u ≡ a) × (v ≡ b)) 1
  pub document : g'.json_config ≡ g.json_config

module _ ⦃env : Externals⦄ where
  -- How a refused call ends: with no DAG; in the exception, if the DAG had no cycle; and not at all, if
  -- one of the vertices is of a set in which each has an edge to another.
  pub record IsRefused (g : Dag) (a b : ℕ) (r : Outcome (Dag × Bool)) : Type 0 where
    pub no_dag : (g' : Dag) (ret : Bool) → r ≢ ok (g', ret)
    pub thrown : IsAcyclic (KeyArc g) → r ≡ throws
    pub endless :
        (P : ℕ → Bool)
        → IsEndless g (λ u. P u ≡ true)
        → (P a || P b) ≡ true
        → (r ≡ out_of_fuel)
          × (((n : ℕ) → vertex_text n g a ≡ out_of_fuel)
              ⊎ ((n : ℕ) → vertex_text n g b ≡ out_of_fuel))

  no_result :
      (x : Outcome String) (g' : Dag) (ret : Bool)
      → ◌>>=◌ {B = Dag × Bool} x (λ error. throws) ≢ ok (g', ret)
  no_result (ok error) g' ret e = cc e
  no_result throws g' ret e = cc e
  no_result fault g' ret e = cc e
  no_result out_of_fuel g' ret e = cc e

  increment-json_config : (g : Dag) (v : Option ℕ) → (increment g v).json_config ≡ g.json_config
  unfolding increment
  increment-json_config g none = refl
  increment-json_config g (some a) = refl

  decrement-json_config : (g : Dag) (v : Option ℕ) → (decrement g v).json_config ≡ g.json_config
  unfolding decrement
  decrement-json_config g none = refl
  decrement-json_config g (some a) = refl

  connect_to-json_config :
      (g : Dag) (e : Edge) (v : Option ℕ) → (connect_to g e v).0.json_config ≡ g.json_config
  unfolding connect_to
  connect_to-json_config g e v =
      let released = decrement g (lock g e.connection) in
      increment-json_config released (lock released v)
      ∙ decrement-json_config g (lock g e.connection)

  pub connect_vertex-json_config :
      (g : Dag) (a b : ℕ) → (connect_vertex g a b).0.json_config ≡ g.json_config
  unfolding connect_vertex push_edge
  connect_vertex-json_config g a b =
      elim (Bool-cases (contains_connection_to g (g.cell a).edges (g.cell b))) [
        | inl e ↦ rw e refl
        | inr e ↦ rw e (
            connect_to-json_config (record g { draws = suc g.draws })
              (make_edge (env.generate g.draws)) (some b))
      ]

  module _ (g : Dag) (text : String) (valid : IsValid g) (has : g.json_config ≡ some text) (a b : ℕ)
      (a_there : contains g.graph a ≡ true) (b_there : contains g.graph b ≡ true)
      (room : edge_count g + 1 < size_mod) where
    seen : (c : ℕ) → contains g.graph c ≡ true → find_vertex g (g.cell c) ≡ some c
    unfolding find_vertex
    seen c there = find_vertex_by_uuid_self g c valid there

    refused : Dag → Outcome (Dag × Bool)
    refused g' = error_str g' a b >>= λ error. throws

    settled : ℕ → Bool → Outcome (Dag × Bool)
    settled d cyclic =
        if cyclic
        then refused (record g { draws = d })
        else ok ((connect_vertex (record g { draws = d }) a b).0, true)

    tried : Outcome (Dag × Bool) → Outcome (Dag × Bool)
    tried r =
        r >>= λ (g', cyclic). if cyclic then refused g' else ok ((connect_vertex g' a b).0, true)

    both_there : (contains g.graph a && contains g.graph b) ≡ true
    both_there = ground (arith, a_there, b_there)

    connect_eq :
        (d : ℕ) (cyclic : Bool)
        → connection_would_make_cyclic g (g.cell a) (g.cell b) ≡ ok (record g { draws = d }, cyclic)
        → connect g (g.cell a) (g.cell b) ≡ settled d cyclic
    unfolding connect connect_ends settled tried refused
    connect_eq d cyclic ends =
        ap (λ x. connect_ends g x (find_vertex g (g.cell b))) (seen a a_there)
        ∙ ap (connect_ends g (some a)) (seen b b_there)
        ∙ ap
            (λ found.
              if found
              then (tried (connection_would_make_cyclic g (g.cell a) (g.cell b)))
              else ok (g, false))
            both_there
        ∙ ap tried ends

    joined : (d : ℕ) → IsJoined g a b (connect_vertex (record g { draws = d }) a b).0
    unfolding edge_count
    joined d = record {
      grows =
          redrawn-Grows g (connect_vertex (record g { draws = d }) a b).0 d 1 _
            (connect_vertex_lem (record g { draws = d }) a b (redrawn-IsValid g d valid) a_there
              b_there room).0;
      document = connect_vertex-json_config (record g { draws = d }) a b;
    }

    drawn : ℕ → Dag
    drawn d = record g { draws = d }

    refused_throws : (d : ℕ) → IsAcyclic (KeyArc g) → refused (drawn d) ≡ throws
    unfolding refused drawn error_str
    refused_throws d acyclic =
        let h = record g { draws = d } in
        let linked = (redrawn-IsValid g d valid).linked in
        let (rank, ranked) = IsRanked-of_IsAcyclic g acyclic in
        let (t, first) = vertex_text-Writes h linked rank a ranked a_there in
        let (u, second) = vertex_text-Writes h linked rank b ranked b_there in
        rw (first, second) refl

    refused_endless :
        (d : ℕ) (P : ℕ → Bool)
        → IsEndless g (λ u. P u ≡ true)
        → (P a || P b) ≡ true
        → refused (drawn d) ≡ out_of_fuel
    unfolding refused drawn error_str
    refused_endless d P endless p =
        let h = record g { draws = d } in
        let linked = (redrawn-IsValid g d valid).linked in
        let n = length g.graph in
        let Q : ℕ → Type 0 = λ u. P u ≡ true in
        elim (Bool-cases (P a)) [
          | inl first ↦ rw (vertex_text_endless h Q n a linked endless first) refl
          | inr miss ↦
              let second = vertex_text_endless h Q n b linked endless (ground (arith, p, miss)) in
              rw
                (bind_deep (vertex_text n h a) _ (vertex_text-Goes h n a) (λ t.
                  ap
                    (λ r. r >>= λ u.
                      ok ("Connecting \n" ++ t ++ "\nto \n" ++ u ++ "\nwould cause a cycle."))
                    second))
                refl
        ]

    forever :
        (P : ℕ → Bool)
        → IsEndless g (λ u. P u ≡ true)
        → (P a || P b) ≡ true
        → ((n : ℕ) → vertex_text n g a ≡ out_of_fuel) ⊎ ((n : ℕ) → vertex_text n g b ≡ out_of_fuel)
    forever P endless p = elim (Bool-cases (P a)) [
      | inl first ↦
          inl (λ n. vertex_text_endless g (λ u. P u ≡ true) n a valid.linked endless first)
      | inr miss ↦ inr (λ n.
          vertex_text_endless g (λ u. P u ≡ true) n b valid.linked endless
            (ground (arith, p, miss)))
    ]

    refused-IsRefused : (d : ℕ) → IsRefused g a b (refused (drawn d))
    unfolding refused
    refused-IsRefused d = record {
      no_dag = λ g' ret. no_result (error_str (drawn d) a b) g' ret;
      thrown = refused_throws d;
      endless = λ P out p. (refused_endless d P out p, forever P out p);
    }

    -- `connect` on two vertices of a valid DAG with a document adds the edge and returns true if the
    -- edges and the new one have no cycle. If they have one it does not return a DAG: it throws if the
    -- DAG had no cycle before; and where the edges of one of the two vertices lead on and on without
    -- end, the text of the exception is not written at any depth of the calls, and nothing is thrown.
    -- There is room for one more edge.
    pub connect_cases :
        (IsAcyclic (WithArc g (g.cell a).uuid (g.cell b).uuid)
          × ((g' : Dag) × (connect g (g.cell a) (g.cell b) ≡ ok (g', true)) × IsJoined g a b g'))
        ⊎ ((¬ IsAcyclic (WithArc g (g.cell a).uuid (g.cell b).uuid))
            × IsRefused g a b (connect g (g.cell a) (g.cell b)))
    unfolding settled drawn
    connect_cases =
        let (d, cyclic, ends, decides) =
          connection_would_make_cyclic_decides g text valid has a b a_there b_there room in
        let branch = connect_eq d cyclic ends in
        elim (Bool-cases cyclic) [
          | inl e ↦
              let stops = branch ∙ ap (settled d) e in
              inr (
                λ acyclic. false≢true (sym (decides.1 acyclic) ∙ e),
                subst (IsRefused g a b) (sym stops) (refused-IsRefused d),
              )
          | inr e ↦ inl (
            decides.0 e,
            ((connect_vertex (record g { draws = d }) a b).0, branch ∙ ap (settled d) e, joined d),
          )
        ]
