-- ===== src/Clone/Pairs.antt =====
-- The second loop of the copy constructor, over all vertices.
use dag_scheduler.Dag.Degrees.{in_edges}
use mathlib.Core.Bool.{false≢true}
use dag_scheduler.Base.{
  subst, Bool-cases, ℕ, List, [], ◌∷◌, ◌≡◌, ◌∙◌, sym, refl, ap, true, contains, inl, inr, ◌⊎◌, ◌↔◌,
  ◌+◌, ◌<◌, arith, ok, length, sum_over, ◌>>=◌, ◌==◌,
}
use dag_scheduler.Externals.{Externals}
use dag_scheduler.Uuid.{uuid_eq, uuid_eq_iff}
use dag_scheduler.Vertex.{Vertex, clone_vertex, size_mod}
use dag_scheduler.Dag.{Dag, edge_count}
use dag_scheduler.Dag.Valid.{IsValid}
use dag_scheduler.Dag.Keys.{KeyArcFrom}
use dag_scheduler.Dag.Grow.{Grows, Grows-map}
use dag_scheduler.Clone.{clone_connections, connect_copies}
use dag_scheduler.Clone.Copy.{ArePairs, Within}
use dag_scheduler.Clone.Edges.{IsTarget, connect_found_lem, clone_all_connections_lem}

module _ ⦃env : Externals⦄ (o H : Dag) (o_valid : IsValid o) (H_valid : IsValid H)
    (covers : (c : ℕ)
      → contains o.graph c ≡ true
      → (b : ℕ) × (contains H.graph b ≡ true) × ((H.cell b).uuid ≡ (o.cell c).uuid)) where
  -- The edges from one of the vertices `l`, between the vertices that were made for their ends.
  abbrev pub From : List ℕ → ℕ → ℕ → Type 0
  From l u v =
      (contains H.graph u ≡ true)
      × (contains H.graph v ≡ true)
      × KeyArcFrom o l (H.cell u).uuid (H.cell v).uuid

  module _ (from to : ℕ) (l : List ℕ) (to_there : contains H.graph to ≡ true)
      (key : (H.cell to).uuid ≡ (o.cell from).uuid) where
    abbrev Made : ℕ → ℕ → Type 0
    Made u v = (u ≡ to) × IsTarget o H to to_there H_valid covers (o.cell from).edges v

    From-cons : (u v : ℕ) → (Made u v ⊎ From l u v) ↔ From (from ∷ l) u v
    From-cons u v = (there, back)
      where
        there : Made u v ⊎ From l u v → From (from ∷ l) u v
        there (inl (e, (c, m, p, same))) = (
          ap (contains H.graph) e ∙ to_there,
          m,
          (from, c, ground arith, p, sym key ∙ ap (λ x. (H.cell x).uuid) (sym e), same),
        )
        there (inr (hu, hv, (a, c, m, p, x, y))) = (hu, hv, (a, c, ground arith, p, x, y))

        back : From (from ∷ l) u v → Made u v ⊎ From l u v
        back (hu, hv, (a, c, m, p, x, y)) = elim (Bool-cases (from == a)) [
          | inl e ↦
              let same : from ≡ a = ground arith in
              inl (
                H_valid.keyed u to hu to_there
                    (sym x ∙ ap (λ z. (o.cell z).uuid) (sym same) ∙ sym key),
                (c, hv, subst (λ z. 0 < in_edges c (o.cell z).edges) (sym same) p, y),
              )
          | inr e ↦ inr (hu, hv, (a, c, ground arith, p, x, y))
        ]

    clone_connections_lem :
        (h : Dag) (new : ℕ → ℕ → Type 0) (n : ℕ)
        → contains o.graph from ≡ true
        → Grows H h new n
        → edge_count H + (n + length (o.cell from).edges) < size_mod
        → (h' : Dag) × (clone_connections o from h to ≡ ok h')
          × Grows H h' (λ u v. new u v ⊎ Made u v) (n + length (o.cell from).edges)
    unfolding clone_connections
    clone_connections_lem h new n from_there grows room =
        let links = o_valid.linked.links from from_there in
        let (h', ends, more) =
          connect_found_lem o H to to_there H_valid covers (o.cell from).edges h new n links grows
            room in
        let equal : uuid_eq (o.cell from).uuid (h.cell to).uuid ≡ true =
          (uuid_eq_iff (o.cell from).uuid (h.cell to).uuid).1
            (sym key ∙ ap (λ (v : Vertex). v.uuid) (sym (grows.same_payload to))) in
        (h', rw (equal, clone_all_connections_lem o (o.cell from).edges links, ends), more)

  no_arc : {u v : ℕ} → ¬ From [] u v
  no_arc (hu, hv, (a, c, m, p, x, y)) = false≢true m

  pub connect_copies_lem :
      (froms tos : List ℕ) (h : Dag) (new : ℕ → ℕ → Type 0) (n : ℕ)
      → ArePairs o H froms tos
      → Within o o_valid froms
      → Grows H h new n
      → edge_count H + (n + sum_over (λ a. length (o.cell a).edges) froms) < size_mod
      → (h' : Dag) × (connect_copies o h froms tos ≡ ok h')
        × Grows H h'
            (λ u v. new u v ⊎ From froms u v)
            (n + sum_over (λ a. length (o.cell a).edges) froms)
  unfolding connect_copies clone_vertex
  connect_copies_lem [] [] h new n pairs within grows room = (
    h,
    refl,
    Grows-map H h new (λ u v. new u v ⊎ From [] u v) n (n + 0)
        (λ u v. (inl, λ s. elim s [ inl a ↦ a | inr t ↦ absurd (no_arc t) ])) (omega arith) grows,
  )
  connect_copies_lem [] (to ∷ tos) h new n pairs within grows room = absurd pairs
  connect_copies_lem (from ∷ froms) [] h new n pairs within grows room = absurd pairs
  connect_copies_lem (from ∷ froms) (to ∷ tos) h new n (same, to_there, pairs) within grows room =
      let key : (H.cell to).uuid ≡ (o.cell from).uuid = ap (λ (v : Vertex). v.uuid) same in
      let (h1, ends, more) =
        clone_connections_lem from to froms to_there key h new n (within from (ground arith)) grows
          (omega (arith, room)) in
      let (h2, rest, all) =
        connect_copies_lem froms tos h1 (λ u v. new u v ⊎ Made from to froms to_there key u v)
          (n + length (o.cell from).edges) pairs (λ a m. within a (ground arith)) more
          (omega (arith, room)) in
      (
        h2,
        ap (λ r. r >>= λ g'. connect_copies o g' froms tos) ends ∙ rest,
        Grows-map H h2 (λ u v. (new u v ⊎ Made from to froms to_there key u v) ⊎ From froms u v)
            (λ u v. new u v ⊎ From (from ∷ froms) u v)
            (n + length (o.cell from).edges + sum_over (λ a. length (o.cell a).edges) froms)
            (n + sum_over (λ a. length (o.cell a).edges) (from ∷ froms))
            (λ u v. ground (arith, From-cons from to froms to_there key u v)) (omega arith) all,
      )
