-- ===== src/Dag/Append.antt =====
-- The state after a vertex was appended to the graph.
use mathlib.Core.Bool.{false≢true}
use native.Mathlib.Decide.{dec_lt}
use dag_scheduler.Base.{
  contains-middle, sum_over_eq, sum_over-append, length, ◌<◌, subst, sym, ◌∙◌, suc,
  IsDistinct-concat, ap, ◌==◌, inl, inr, contains-append, Bool-cases, if◌then◌else◌, ◌⊎◌, ◌≢◌, refl,
  ◌∷◌, false, true, ◌++◌, arith, contains, sum_over, List, ℕ, [], ◌≡◌,
}
use dag_scheduler.Vertex.{Edge, Vertex}
use dag_scheduler.Dag.{Dag, edge_count}
use dag_scheduler.Dag.Degrees.{in_edges, indegree, AreLinks, indegree_pos}
use dag_scheduler.Dag.Valid.{IsValid, Arc-target}

-- The state after `v` was added.
unfoldable pub appended : Dag → Vertex → Dag
appended g v = record g {
  graph = g.graph ++ g.next_addr ∷ [];
  cell = λ b. if g.next_addr == b then v else g.cell b;
  next_addr = suc g.next_addr;
}

AreLinks-mono : (xs : List ℕ) (a : ℕ) (es : List Edge) → AreLinks xs es → AreLinks (xs ++ a ∷ []) es
AreLinks-mono xs a [] h = tt
AreLinks-mono xs a (e ∷ es) ((b, leads, there), h) =
    ((b, leads, ground (arith, contains-append xs (a ∷ []) b)), AreLinks-mono xs a es h)

pub appended_graph : (g : Dag) (v : Vertex) → (appended g v).graph ≡ g.graph ++ g.next_addr ∷ []
unfolding appended
appended_graph g v = refl

pub appended_new : (g : Dag) (v : Vertex) → (appended g v).cell g.next_addr ≡ v
unfolding appended
appended_new g v = ground arith

module _ (g : Dag) (v : Vertex) (valid : IsValid g) where
  pub appended_old : (a : ℕ) → contains g.graph a ≡ true → (appended g v).cell a ≡ g.cell a
  unfolding appended
  appended_old a there = ground (arith, valid.fresh a there)

  next_absent : contains g.graph g.next_addr ≡ false
  next_absent = elim (Bool-cases (contains g.graph g.next_addr)) [
    | inl m ↦ absurd (omega (arith, valid.fresh g.next_addr m))
    | inr n ↦ n
  ]

  pub contains-appended :
      (a : ℕ)
      → contains (appended g v).graph a ≡ true
      → (contains g.graph a ≡ true) ⊎ (a ≡ g.next_addr)
  unfolding appended
  contains-appended a m = ground (arith, contains-append g.graph (g.next_addr ∷ []) a)

  appended_sum :
      (f : Vertex → ℕ)
      → f v ≡ 0
      → sum_over (λ u. f ((appended g v).cell u)) (appended g v).graph
        ≡ sum_over (λ u. f (g.cell u)) g.graph
  unfolding appended
  appended_sum f none_new = omega (
    arith,
    sum_over-append (λ u. f ((appended g v).cell u)) g.graph (g.next_addr ∷ []),
    sum_over_eq (λ u. f ((appended g v).cell u)) (λ u. f (g.cell u)) g.graph
        (λ u m. ap f (appended_old u m)),
    ap f (appended_new g v),
  )

  module _ (no_edges : v.edges ≡ []) (no_incomming : v.incomming ≡ 0)
      (new : (a : ℕ) → contains g.graph a ≡ true → (g.cell a).uuid ≢ v.uuid) where
    indegree-appended : (w : ℕ) → indegree (appended g v) w ≡ indegree g w
    unfolding indegree
    indegree-appended w = appended_sum (λ x. in_edges w x.edges) (ap (in_edges w) no_edges)

    indegree_next : indegree g g.next_addr ≡ 0
    indegree_next = elim (dec_lt 0 (indegree g g.next_addr)) [
      | yes p ↦
          let (u, arc) = indegree_pos g g.next_addr p in
          absurd (false≢true (sym next_absent ∙ Arc-target g u g.next_addr valid.linked arc))
      | no n ↦ omega arith
    ]

    appended_counted :
        (w : ℕ)
        → contains (appended g v).graph w ≡ true
        → ((appended g v).cell w).incomming ≡ indegree (appended g v) w
    appended_counted w m = elim (contains-appended w m) [
      | inl old ↦
          ap (λ (x : Vertex). x.incomming) (appended_old w old)
          ∙ valid.linked.counted w old
          ∙ sym (indegree-appended w)
      | inr e ↦
          subst (λ x. ((appended g v).cell x).incomming ≡ indegree (appended g v) x) (sym e)
            (ap (λ (x : Vertex). x.incomming) (appended_new g v)
              ∙ no_incomming
              ∙ sym indegree_next
              ∙ sym (indegree-appended g.next_addr))
    ]

    appended_links :
        (u : ℕ)
        → contains (appended g v).graph u ≡ true
        → AreLinks (g.graph ++ g.next_addr ∷ []) ((appended g v).cell u).edges
    appended_links u m = elim (contains-appended u m) [
      | inl old ↦
          subst (AreLinks (g.graph ++ g.next_addr ∷ []))
            (ap (λ (x : Vertex). x.edges) (sym (appended_old u old)))
            (AreLinks-mono g.graph g.next_addr (g.cell u).edges (valid.linked.links u old))
      | inr e ↦
          subst (λ x. AreLinks (g.graph ++ g.next_addr ∷ []) ((appended g v).cell x).edges) (sym e)
            (subst (AreLinks (g.graph ++ g.next_addr ∷ []))
              (sym no_edges ∙ ap (λ (x : Vertex). x.edges) (sym (appended_new g v))) tt)
    ]

    uuid_old : (a : ℕ) → contains g.graph a ≡ true → ((appended g v).cell a).uuid ≡ (g.cell a).uuid
    uuid_old a old = ap (λ (x : Vertex). x.uuid) (appended_old a old)

    uuid_new : (a : ℕ) → a ≡ g.next_addr → ((appended g v).cell a).uuid ≡ v.uuid
    uuid_new a e =
        ap (λ x. ((appended g v).cell x).uuid) e ∙ ap (λ (x : Vertex). x.uuid) (appended_new g v)

    appended_keyed :
        (a b : ℕ)
        → contains (appended g v).graph a ≡ true
        → contains (appended g v).graph b ≡ true
        → ((appended g v).cell a).uuid ≡ ((appended g v).cell b).uuid
        → a ≡ b
    appended_keyed a b ha hb same = elim (contains-appended a ha) [
      | inl old_a ↦ elim (contains-appended b hb) [
        | inl old_b ↦ valid.keyed a b old_a old_b (sym (uuid_old a old_a) ∙ same ∙ uuid_old b old_b)
        | inr new_b ↦ absurd (new a old_a (sym (uuid_old a old_a) ∙ same ∙ uuid_new b new_b))
      ]
      | inr new_a ↦ elim (contains-appended b hb) [
        | inl old_b ↦ absurd (new b old_b (sym (uuid_old b old_b) ∙ sym same ∙ uuid_new a new_a))
        | inr new_b ↦ new_a ∙ sym new_b
      ]
    ]

    pub edge_count-appended : edge_count (appended g v) ≡ edge_count g
    unfolding edge_count
    edge_count-appended = appended_sum (λ x. length x.edges) (ap length no_edges)

    appended_fresh : (a : ℕ) → contains (appended g v).graph a ≡ true → a < suc g.next_addr
    appended_fresh a m = elim (contains-appended a m) [
      | inl old ↦ omega (arith, valid.fresh a old)
      | inr e ↦ omega arith
    ]

    pub appended-IsValid : IsValid (appended g v)
    unfolding appended
    appended-IsValid = record {
      linked = record {
        distinct = IsDistinct-concat g.graph g.next_addr valid.linked.distinct next_absent;
        links = appended_links;
        counted = appended_counted;
        small = omega (arith, edge_count-appended, valid.linked.small);
      };
      keyed = appended_keyed;
      fresh = appended_fresh;
    }

pub contains-appended_old :
    (g : Dag) (v : Vertex) (a : ℕ)
    → contains g.graph a ≡ true
    → contains (appended g v).graph a ≡ true
unfolding appended
contains-appended_old g v a m = ground (arith, contains-append g.graph (g.next_addr ∷ []) a)

pub contains-appended_new :
    (g : Dag) (v : Vertex) → contains (appended g v).graph g.next_addr ≡ true
unfolding appended
contains-appended_new g v = contains-middle g.graph g.next_addr []
