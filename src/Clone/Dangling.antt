-- ===== src/Clone/Dangling.antt =====
-- The copy constructor of a DAG that has an edge whose weak pointer has expired.
use native.Mathlib.Decide.{dec_lt}
use dag_scheduler.Base.{
  ℕ, ◌<◌, ◌≤◌, ◌≡◌, ◌∙◌, refl, ap, arith, Bool, true, false, List, [], ◌∷◌, none, some, Outcome, ok,
  throws, fault, out_of_fuel, ◌>>=◌, contains, length, ◌==◌, if◌then◌else◌, Bool-cases,
  Option-cases, inl, inr, subst,
}
use dag_scheduler.Externals.{Externals}
use dag_scheduler.Uuid.{uuid_eq}
use dag_scheduler.Vertex.{Edge, clone_vertex}
use dag_scheduler.Dag.{Dag, lock, find_vertex, connect_vertex, add_vertex}
use dag_scheduler.Dag.Degrees.{in_edges, hits, hits_pos}
use dag_scheduler.Clone.{
  Connection, clone_all_connections, connect_found, clone_connections, copy_vertices,
  connect_copies,
}
use dag_scheduler.Clone.Copy.{ArePairs}

-- A call that returns, or fails on a null pointer or an assertion.
abbrev Returns {ℓ} : {A : Type ℓ} → Outcome A → Type 0
Returns (ok a) = Unit
Returns fault = Unit
Returns throws = ⊥
Returns out_of_fuel = ⊥

Returns-bind {ℓ κ} :
    {A : Type ℓ} {B : Type κ} (r : Outcome A) (k : A → Outcome B)
    → Returns r
    → ((a : A) → Returns (k a))
    → Returns (r >>= k)
Returns-bind (ok a) k h next = next a
Returns-bind fault k h next = tt
Returns-bind throws k h next = h
Returns-bind out_of_fuel k h next = h

bind_fault {ℓ κ} :
    {A : Type ℓ} {B : Type κ} (r : Outcome A) (k : A → Outcome B)
    → Returns r
    → ((a : A) → k a ≡ fault)
    → (r >>= k) ≡ fault
bind_fault (ok a) k h stuck = stuck a
bind_fault fault k h stuck = refl
bind_fault throws k h stuck = absurd h
bind_fault out_of_fuel k h stuck = absurd h

module _ ⦃env : Externals⦄ where
  clone_all_connections-Returns : (o : Dag) (es : List Edge) → Returns (clone_all_connections o es)
  unfolding clone_all_connections
  clone_all_connections-Returns o [] = tt
  clone_all_connections-Returns o (e ∷ es) = elim (Option-cases (lock o e.connection)) [
    | inl gone ↦ rw (gone, Returns, clone_all_connections) tt
    | inr (a, held) ↦
        rw (held, Returns, clone_all_connections)
          (Returns-bind (clone_all_connections o es) _ (clone_all_connections-Returns o es)
            (λ cs. tt))
  ]

  connect_found-Returns :
      (to : ℕ) (g : Dag) (cs : List Connection) → Returns (connect_found to g cs)
  unfolding connect_found
  connect_found-Returns to g [] = tt
  connect_found-Returns to g (c ∷ cs) = elim (Option-cases (find_vertex g c.vertex)) [
    | inl lost ↦ rw (lost, Returns, connect_found) tt
    | inr (b, found) ↦
        rw (found, Returns, connect_found) (connect_found-Returns to (connect_vertex g to b).0 cs)
  ]

  clone_connections-Returns :
      (o : Dag) (from : ℕ) (g : Dag) (to : ℕ) → Returns (clone_connections o from g to)
  unfolding clone_connections
  clone_connections-Returns o from g to =
      elim (Bool-cases (uuid_eq (o.cell from).uuid (g.cell to).uuid)) [
        | inl same ↦ rw same (
            Returns-bind (clone_all_connections o (o.cell from).edges) (connect_found to g)
              (clone_all_connections-Returns o (o.cell from).edges) (connect_found-Returns to g))
        | inr other ↦ rw other tt
      ]

  -- An edge that leads to an object which the DAG does not own.
  expired :
      (o : Dag) (a : ℕ) (es : List Edge)
      → contains o.graph a ≡ false
      → 0 < in_edges a es
      → clone_all_connections o es ≡ fault
  unfolding clone_all_connections lock
  expired o a [] gone leads = absurd (omega (arith, leads))
  expired o a (e ∷ es) gone leads = elim (Option-cases (lock o e.connection)) [
    | inl dead ↦ rw (dead, clone_all_connections) refl
    | inr (c, held) ↦ rw (held, expired o a es gone (later c held), clone_all_connections) refl
  ]
    where
      no_hit : (c : ℕ) → lock o e.connection ≡ some c → ¬ (0 < hits a e.connection)
      no_hit c held h =
          let lost : lock o e.connection ≡ none =
            ap (lock o) (hits_pos a e.connection h)
            ∙ ap (λ (t : Bool). if t then some a else none) gone in
          cc (lost, held)

      later : (c : ℕ) → lock o e.connection ≡ some c → 0 < in_edges a es
      later c held = elim (dec_lt 0 (hits a e.connection)) [
        | yes h ↦ absurd (no_hit c held h)
        | no n ↦ omega (arith, n, leads)
      ]

  module _ (o : Dag) (a b : ℕ) (gone : contains o.graph a ≡ false)
      (leads : 0 < in_edges a (o.cell b).edges) where
    from_owner : (g : Dag) (to : ℕ) → clone_connections o b g to ≡ fault
    unfolding clone_connections
    from_owner g to = elim (Bool-cases (uuid_eq (o.cell b).uuid (g.cell to).uuid)) [
      | inl same ↦
          rw same (ap (λ r. r >>= connect_found to g) (expired o a (o.cell b).edges gone leads))
      | inr other ↦ rw other refl
    ]

    -- The loop over the vertices and their copies does not get past the vertex of such an edge.
    pub connect_copies_dangling :
        (g : Dag) (froms tos : List ℕ)
        → contains froms b ≡ true
        → length froms ≤ length tos
        → connect_copies o g froms tos ≡ fault
    unfolding connect_copies
    connect_copies_dangling g [] tos m le = cc m
    connect_copies_dangling g (from ∷ froms) [] m le = absurd (omega (arith, le))
    connect_copies_dangling g (from ∷ froms) (to ∷ tos) m le = elim (Bool-cases (from == b)) [
      | inl here ↦
          let one : b ≡ from = ground arith in
          ap (λ r. r >>= λ g'. connect_copies o g' froms tos)
            (subst (λ x. clone_connections o x g to ≡ fault) one (from_owner g to))
      | inr later ↦
          bind_fault (clone_connections o from g to) (λ g'. connect_copies o g' froms tos)
            (clone_connections-Returns o from g to)
            (λ g'.
              connect_copies_dangling g' froms tos (ground (arith, m, later)) (omega (arith, le)))
    ]

  pub copy_vertices_cong :
      (o p h : Dag) (l : List ℕ)
      → ((x : ℕ) → clone_vertex (o.cell x) ≡ clone_vertex (p.cell x))
      → copy_vertices o h l ≡ copy_vertices p h l
  unfolding copy_vertices
  copy_vertices_cong o p h [] same = refl
  copy_vertices_cong o p h (a ∷ l) same =
      ap (λ v. copy_vertices o (add_vertex h v).0 l) (same a)
      ∙ copy_vertices_cong o p (add_vertex h (clone_vertex (p.cell a))).0 l same

  pub length-ArePairs : (o h : Dag) (l bs : List ℕ) → ArePairs o h l bs → length l ≡ length bs
  length-ArePairs o h [] [] pairs = refl
  length-ArePairs o h [] (b ∷ bs) pairs = absurd pairs
  length-ArePairs o h (a ∷ l) [] pairs = absurd pairs
  length-ArePairs o h (a ∷ l) (b ∷ bs) pairs = omega (arith, length-ArePairs o h l bs pairs.2)
