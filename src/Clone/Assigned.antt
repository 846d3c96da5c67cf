-- ===== src/Clone/Assigned.antt =====
-- The copy assignment to a new DAG.
use dag_scheduler.Base.{
  String, ℕ, ◌≡◌, ◌∙◌, refl, sym, ap, subst, List, [], ◌∷◌, Option, none, some, Outcome, ok, fault,
  ◌>>=◌, Option-cases, Bool-cases, inl, inr,
}
use dag_scheduler.Externals.{Externals}
use dag_scheduler.Uuid.{uuid_eq}
use dag_scheduler.Vertex.{Vertex, clone_vertex}
use dag_scheduler.Dag.{Dag, add_vertex, contains_vertex, find_vertex, connect_vertex}
use dag_scheduler.Dag.Valid.{IsValid}
use dag_scheduler.Clone.{
  Connection, clone, copy_vertices, connect_copies, clone_connections, clone_all_connections,
  connect_found,
}
use dag_scheduler.Connect.Joins.{connect_vertex-json_config}
use dag_scheduler.Clone.Correct.{IsClone, clone_lem}
use dag_scheduler.Clone.Assign.{assign}

module _ ⦃env : Externals⦄ where
  add_vertex-json_config : (g : Dag) (v : Vertex) → (add_vertex g v).0.json_config ≡ g.json_config
  unfolding add_vertex
  add_vertex-json_config g v = elim (Bool-cases (contains_vertex g v)) [
    | inl old ↦ rw old refl
    | inr new ↦ rw new refl
  ]

  -- A DAG that is returned has the document `d`.
  abbrev HasDocument : Option String → Outcome Dag → Type 0
  HasDocument d (ok h) = h.json_config ≡ d
  HasDocument d r = Unit

  bind-HasDocument :
      (d : Option String) (r : Outcome Dag) (f : Dag → Outcome Dag)
      → HasDocument d r
      → ((h : Dag) → h.json_config ≡ d → HasDocument d (f h))
      → HasDocument d (r >>= f)
  bind-HasDocument d (ok h) f e keeps = keeps h e
  bind-HasDocument d r f e keeps = tt

  connect_found-HasDocument :
      (d : Option String) (to : ℕ) (g : Dag) (cs : List Connection)
      → g.json_config ≡ d
      → HasDocument d (connect_found to g cs)
  unfolding connect_found
  connect_found-HasDocument d to g [] e = e
  connect_found-HasDocument d to g (c ∷ cs) e =
      let found = λ (x : Option ℕ). elim x as (λ y. Outcome Dag) [
        | none ↦ fault
        | some b ↦ connect_found to (connect_vertex g to b).0 cs
      ] in
      elim (Option-cases (find_vertex g c.vertex)) [
        | inl lost ↦ subst (HasDocument d) (sym (ap found lost)) tt
        | inr (b, there) ↦ subst (HasDocument d) (sym (ap found there)) (
            connect_found-HasDocument d to (connect_vertex g to b).0 cs
              (connect_vertex-json_config g to b ∙ e))
      ]

  clone_connections-HasDocument :
      (d : Option String) (o : Dag) (from : ℕ) (g : Dag) (to : ℕ)
      → g.json_config ≡ d
      → HasDocument d (clone_connections o from g to)
  unfolding clone_connections
  clone_connections-HasDocument d o from g to e =
      elim (Bool-cases (uuid_eq (o.cell from).uuid (g.cell to).uuid)) [
        | inl y ↦ rw y (connected (clone_all_connections o (o.cell from).edges))
        | inr n ↦ rw n tt
      ]
    where
      connected : (r : Outcome (List Connection)) → HasDocument d (r >>= connect_found to g)
      connected (ok cs) = connect_found-HasDocument d to g cs e
      connected r = tt

  connect_copies-HasDocument :
      (d : Option String) (o g : Dag) (froms tos : List ℕ)
      → g.json_config ≡ d
      → HasDocument d (connect_copies o g froms tos)
  unfolding connect_copies
  connect_copies-HasDocument d o g froms [] e = e
  connect_copies-HasDocument d o g [] (to ∷ tos) e = tt
  connect_copies-HasDocument d o g (from ∷ froms) (to ∷ tos) e =
      bind-HasDocument d (clone_connections o from g to) (λ g'. connect_copies o g' froms tos)
        (clone_connections-HasDocument d o from g to e)
        (λ h same. connect_copies-HasDocument d o h froms tos same)

  copy_vertices-json_config :
      (o g : Dag) (l : List ℕ) → (copy_vertices o g l).json_config ≡ g.json_config
  unfolding copy_vertices
  copy_vertices-json_config o g [] = refl
  copy_vertices-json_config o g (a ∷ l) =
      copy_vertices-json_config o (add_vertex g (clone_vertex (o.cell a))).0 l
      ∙ add_vertex-json_config g (clone_vertex (o.cell a))

  -- The last statement, where there is a document to write to.
  written :
      (title : String) (source : Option String) (r : Outcome Dag)
      → HasDocument (some "null") r
      → ◌≡◌ {A = Outcome Dag}
          (r >>= λ h. elim source [
            | none ↦ fault
            | some text ↦ elim h.json_config [
              | none ↦ fault
              | some old ↦ ok (record h { title = title; json_config = some text })
            ]
          ])
          (r >>= λ g. elim source [
            | none ↦ fault
            | some text ↦ ok (record g { title = title; json_config = some text })
          ])
  written title none (ok h) e = refl
  written title (some text) (ok h) e = rw e refl
  written title source r e = refl

  -- `operator=` on a new DAG, made by the constructor without arguments, gives what the copy
  -- constructor gives, for a valid DAG that has a document.
  pub assign_new :
      (o : Dag) (text : String)
      → IsValid o
      → o.json_config ≡ some text
      → (h : Dag) × (assign
            (record o { graph = []; title = ""; json_config = some "null" })
            (record { graph = o.graph; title = o.title; json_config = o.json_config })
          ≡ ok h)
        × IsClone o h
  unfolding assign clone
  assign_new o text valid has =
      let (h, made, c) = clone_lem o valid text has in
      let empty = record o { graph = []; title = ""; json_config = some "null" } in
      let copied = copy_vertices o empty o.graph in
      let keeps =
        connect_copies-HasDocument (some "null") o copied o.graph copied.graph
          (copy_vertices-json_config o empty o.graph) in
      (
        h,
        written o.title o.json_config (connect_copies o copied o.graph copied.graph) keeps ∙ made,
        c,
      )
