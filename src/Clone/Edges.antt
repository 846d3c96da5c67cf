-- ===== src/Clone/Edges.antt =====
-- The second loop of the copy constructor: the edges.
use native.Mathlib.Decide.{dec_lt}
use dag_scheduler.Base.{
  inr, inl, sym, length, refl, ◌∙◌, ◌<◌, arith, ◌↔◌, ap, none, ◌+◌, some, true, map, contains, List,
  Option, ℕ, [], ◌∷◌, ◌≡◌, ◌⊎◌, ok,
}
use dag_scheduler.Externals.{Externals}
use dag_scheduler.Vertex.{Edge, Vertex, clone_vertex, size_mod}
use dag_scheduler.Dag.{Dag, find_vertex, find_vertex_by_uuid, connect_vertex, edge_count}
use dag_scheduler.Dag.Degrees.{AreLinks, in_edges, hits, hits_pos, hits_self}
use dag_scheduler.Dag.Valid.{IsValid}
use dag_scheduler.Dag.Find.{find_vertex_by_uuid_self}
use dag_scheduler.Dag.Grow.{Grows, Grows-trans, Grows-map}
use dag_scheduler.Dag.Link.{connect_vertex_lem}
use dag_scheduler.Clone.{Connection, clone_edge, clone_all_connections, connect_found}

abbrev pub target : Option ℕ → ℕ
target none = 0
target (some a) = a

module _ ⦃env : Externals⦄ where
  abbrev pub connection_of : Dag → Edge → Connection
  connection_of o e = record {
    edge = clone_edge e;
    vertex = clone_vertex (o.cell (target e.connection));
  }

  -- No edge of a linked list has expired.
  pub clone_all_connections_lem :
      (o : Dag) (es : List Edge)
      → AreLinks o.graph es
      → clone_all_connections o es ≡ ok (map (connection_of o) es)
  unfolding clone_all_connections
  clone_all_connections_lem o [] links = refl
  clone_all_connections_lem o (e ∷ es) ((b, leads, there), links) =
      ground (arith, leads, there, ap target leads, clone_all_connections_lem o es links)

  module _ (o H : Dag) (to : ℕ) (to_there : contains H.graph to ≡ true) (H_valid : IsValid H)
      (covers : (c : ℕ)
        → contains o.graph c ≡ true
        → (b : ℕ) × (contains H.graph b ≡ true) × ((H.cell b).uuid ≡ (o.cell c).uuid)) where
    -- `v` was made for the target of one of the edges.
    abbrev pub IsTarget : List Edge → ℕ → Type 0
    IsTarget es v =
        (c : ℕ) × (contains H.graph v ≡ true)
        × (0 < in_edges c es)
        × ((o.cell c).uuid ≡ (H.cell v).uuid)

    IsTarget-cons :
        (e : Edge) (es : List Edge) (c b : ℕ)
        → e.connection ≡ some c
        → contains H.graph b ≡ true
        → (H.cell b).uuid ≡ (o.cell c).uuid
        → (v : ℕ) → ((v ≡ b) ⊎ IsTarget es v) ↔ IsTarget (e ∷ es) v
    IsTarget-cons e es c b leads b_there key v = (there, back)
      where
        there : (v ≡ b) ⊎ IsTarget es v → IsTarget (e ∷ es) v
        there (inl same) = (
          c,
          ap (contains H.graph) same ∙ b_there,
          omega (arith, ap (hits c) leads, hits_self c),
          sym key ∙ ap (λ x. (H.cell x).uuid) (sym same),
        )
        there (inr (d, m, some_edge, same)) = (d, m, omega arith, same)

        back : IsTarget (e ∷ es) v → (v ≡ b) ⊎ IsTarget es v
        back (d, m, some_edge, same) = elim (dec_lt 0 (in_edges d es)) [
          | yes p ↦ inr (d, m, p, same)
          | no n ↦
              let hit : some d ≡ some c = sym (hits_pos d e.connection (omega arith)) ∙ leads in
              inl (
                H_valid.keyed v b m b_there
                  (sym same ∙ ap (λ x. (o.cell (target x)).uuid) hit ∙ sym key))
        ]

    no-IsTarget : {v : ℕ} → ¬ IsTarget [] v
    no-IsTarget (c, m, p, same) = omega arith

    connect_found-cons :
        (h : Dag) (e : Edge) (es : List Edge) (c b : ℕ)
        → IsValid h
        → e.connection ≡ some c
        → contains h.graph b ≡ true
        → (h.cell b).uuid ≡ (o.cell c).uuid
        → connect_found to h (map (connection_of o) (e ∷ es))
          ≡ connect_found to (connect_vertex h to b).0 (map (connection_of o) es)
    unfolding connect_found find_vertex clone_vertex
    connect_found-cons h e es c b valid leads b_there key =
        let found : find_vertex_by_uuid h (o.cell (target e.connection)).uuid ≡ some b =
          ap (λ a. find_vertex_by_uuid h (o.cell (target a)).uuid) leads
          ∙ ap (find_vertex_by_uuid h) (sym key)
          ∙ find_vertex_by_uuid_self h b valid b_there in
        rw (found, connect_found)

    pub connect_found_lem :
        (es : List Edge) (h : Dag) (new : ℕ → ℕ → Type 0) (n : ℕ)
        → AreLinks o.graph es
        → Grows H h new n
        → edge_count H + (n + length es) < size_mod
        → (h' : Dag) × (connect_found to h (map (connection_of o) es) ≡ ok h')
          × Grows H h' (λ u v. new u v ⊎ (u ≡ to) × IsTarget es v) (n + length es)
    unfolding connect_found
    connect_found_lem [] h new n links grows room = (
      h,
      refl,
      Grows-map H h new (λ u v. new u v ⊎ (u ≡ to) × IsTarget [] v) n (n + 0)
          (λ u v. (inl, λ s. elim s [ inl a ↦ a | inr (e, t) ↦ absurd (no-IsTarget t) ]))
          (omega arith) grows,
    )
    connect_found_lem (e ∷ es) h new n ((c, leads, c_there), links) grows room =
        let (b, b_there, key) = covers c c_there in
        let h_there : contains h.graph b ≡ true =
          ap (λ l. contains l b) grows.same_graph ∙ b_there in
        let h_key : (h.cell b).uuid ≡ (o.cell c).uuid =
          ap (λ (v : Vertex). v.uuid) (grows.same_payload b) ∙ key in
        let step =
          connect_vertex_lem h to b grows.valid
            (ap (λ l. contains l to) grows.same_graph ∙ to_there) h_there
            (omega (arith, grows.count, room)) in
        let (h', ends, more) =
          connect_found_lem es (connect_vertex h to b).0 (λ u v. new u v ⊎ (u ≡ to) × (v ≡ b))
            (n + 1) links
            (Grows-trans H h (connect_vertex h to b).0 new (λ u v. (u ≡ to) × (v ≡ b)) n 1 grows
              step.0)
            (omega (arith, room)) in
        (
          h',
          connect_found-cons h e es c b grows.valid leads h_there h_key ∙ ends,
          Grows-map H h' (λ u v. (new u v ⊎ (u ≡ to) × (v ≡ b)) ⊎ (u ≡ to) × IsTarget es v)
              (λ u v. new u v ⊎ (u ≡ to) × IsTarget (e ∷ es) v) (n + 1 + length es)
              (n + length (e ∷ es))
              (λ u v. ground (arith, IsTarget-cons e es c b leads b_there key v)) (omega arith)
              more,
        )
