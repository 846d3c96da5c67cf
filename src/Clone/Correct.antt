-- ===== src/Clone/Correct.antt =====
-- What the copy of a DAG is.
use mathlib.Core.Bool.{false≢true}
use dag_scheduler.Base.{
  subst, sum_over_eq, Bool-cases, ℕ, List, [], ◌∷◌, ◌≡◌, ◌∙◌, sym, refl, ap, true, contains, inl,
  inr, ◌⊎◌, ◌↔◌, ◌≤◌, arith, ok, length, sum_over, some, String, Option, ◌==◌,
}
use dag_scheduler.Externals.{Externals}
use dag_scheduler.Vertex.{Vertex, clone_vertex, payload}
use dag_scheduler.Dag.{Dag, edge_count}
use dag_scheduler.Dag.Degrees.{indegree, in_edges}
use dag_scheduler.Dag.Valid.{IsValid, Arc-target}
use dag_scheduler.Dag.Keys.{KeyArc, Has}
use dag_scheduler.Dag.Grow.{Grows-map, Grows, Grows-refl}
use dag_scheduler.Clone.{copy_vertices, connect_copies, clone}
use dag_scheduler.Clone.Copy.{ArePairs, IsEdgeless, IsCopied, copy_vertices_lem}
use dag_scheduler.Clone.Pairs.{From, connect_copies_lem}

retitled-IsValid :
    (g : Dag) (t : String) (j : Option String)
    → IsValid g
    → IsValid (record g { title = t; json_config = j })
unfolding indegree edge_count
retitled-IsValid g t j valid = record {
  linked = record {
    distinct = valid.linked.distinct;
    links = valid.linked.links;
    counted = valid.linked.counted;
    small = valid.linked.small;
  };
  keyed = valid.keyed;
  fresh = valid.fresh;
}

sum_over_zero : (xs : List ℕ) → sum_over (λ a. 0) xs ≡ 0
sum_over_zero [] = refl
sum_over_zero (x ∷ xs) = omega (arith, sum_over_zero xs)

module _ ⦃env : Externals⦄ where
  edge_count_edgeless : (h : Dag) → IsEdgeless h → edge_count h ≡ 0
  unfolding edge_count
  edge_count_edgeless h edgeless =
      sum_over_eq (λ a. length (h.cell a).edges) (λ a. 0) h.graph (λ b m. ap length (edgeless b m))
      ∙ sum_over_zero h.graph

  pairs_covers :
      (o H : Dag) (l bs : List ℕ) (c : ℕ)
      → ArePairs o H l bs
      → contains l c ≡ true
      → (b : ℕ) × (contains H.graph b ≡ true)
        × (payload (H.cell b) ≡ payload (clone_vertex (o.cell c)))
  pairs_covers o H [] bs c pairs m = absurd (false≢true m)
  pairs_covers o H (a ∷ l) [] c pairs m = absurd pairs
  pairs_covers o H (a ∷ l) (b ∷ bs) c (same, there, pairs) m = elim (Bool-cases (a == c)) [
    | inl e ↦ (b, there, same ∙ ap (λ x. payload (clone_vertex (o.cell x))) (eq e))
    | inr e ↦ pairs_covers o H l bs c pairs (ground arith)
  ]
    where
      eq : (a == c) ≡ true → a ≡ c
      eq e = ground arith

  pairs_from :
      (o H : Dag) (l bs : List ℕ) (b : ℕ)
      → ArePairs o H l bs
      → contains bs b ≡ true
      → (a : ℕ) × (contains l a ≡ true) × (payload (H.cell b) ≡ payload (clone_vertex (o.cell a)))
  pairs_from o H l [] b pairs m = absurd (false≢true m)
  pairs_from o H [] (d ∷ bs) b pairs m = absurd pairs
  pairs_from o H (a ∷ l) (d ∷ bs) b (same, there, pairs) m = elim (Bool-cases (d == b)) [
    | inl e ↦ (a, ground arith, ap (λ x. payload (H.cell x)) (sym (eq e)) ∙ same)
    | inr e ↦ let (x, mx, ex) = pairs_from o H l bs b pairs (ground arith) in (x, ground arith, ex)
  ]
    where
      eq : (d == b) ≡ true → d ≡ b
      eq e = ground arith

  -- The same vertices and edges, in new objects.
  pub record IsClone (o h : Dag) : Type 0 where
    pub valid : IsValid h
    pub title : h.title ≡ o.title
    pub json_config : h.json_config ≡ o.json_config
    pub copies :
        (a : ℕ)
        → contains o.graph a ≡ true
        → (b : ℕ) × (contains h.graph b ≡ true)
          × (payload (h.cell b) ≡ payload (clone_vertex (o.cell a)))
    pub only : (x : ℕ) → Has h x → Has o x
    pub arcs : (x y : ℕ) → KeyArc h x y ↔ KeyArc o x y
    pub count : edge_count h ≤ edge_count o

  module _ (o : Dag) (valid : IsValid o) where
    empty : Dag
    empty = record o { graph = []; title = ""; json_config = some "null" }

    copied : Dag
    copied = copy_vertices o empty o.graph

    empty-IsValid : IsValid empty
    unfolding empty edge_count
    empty-IsValid = record {
      linked = record {
        distinct = tt;
        links = λ u m. absurd (false≢true m);
        counted = λ u m. absurd (false≢true m);
        small = omega (arith, valid.linked.small);
      };
      keyed = λ a b m. absurd (false≢true m);
      fresh = λ a m. absurd (false≢true m);
    }

    copied-IsCopied : (bs : List ℕ) × IsCopied o empty o.graph copied bs
    unfolding empty copied
    copied-IsCopied =
        copy_vertices_lem o valid o.graph empty empty-IsValid (λ b m. absurd (false≢true m))
          (λ a m. m) valid.linked.distinct (λ a m b n. absurd (false≢true n))

    module _ (bs : List ℕ) (r : IsCopied o empty o.graph copied bs) where
      covers :
          (c : ℕ)
          → contains o.graph c ≡ true
          → (b : ℕ) × (contains copied.graph b ≡ true) × ((copied.cell b).uuid ≡ (o.cell c).uuid)
      unfolding clone_vertex
      covers c m =
          let (b, there, same) = pairs_covers o copied o.graph bs c r.pairs m in
          (b, there, ap (λ (v : Vertex). v.uuid) same)

      copied_graph : copied.graph ≡ bs
      unfolding empty
      copied_graph = r.graph

      connected :
          (h : Dag) × (connect_copies o copied o.graph copied.graph ≡ ok h)
          × Grows copied h
              (λ u v. ⊥ ⊎ From o copied valid r.valid covers o.graph u v)
              (edge_count o)
      unfolding edge_count
      connected =
          let (h, ends, grows) =
            connect_copies_lem o copied valid r.valid covers o.graph copied.graph copied (λ u v. ⊥)
              0 (subst (ArePairs o copied o.graph) (sym copied_graph) r.pairs) (λ a m. m)
              (Grows-refl copied r.valid)
              (omega (arith, edge_count_edgeless copied r.edgeless, valid.linked.small)) in
          (h, ends, Grows-map copied h _ _ _ _ (λ u v. (λ s. s, λ s. s)) (omega arith) grows)

      module _ (h : Dag)
          (grows : Grows copied h
            (λ u v. ⊥ ⊎ From o copied valid r.valid covers o.graph u v)
            (edge_count o)) where
        cloned : Dag
        cloned = record h { title = o.title; json_config = o.json_config }

        h_uuid : (u : ℕ) → (h.cell u).uuid ≡ (copied.cell u).uuid
        h_uuid u = ap (λ (v : Vertex). v.uuid) (grows.same_payload u)

        cloned_from : (x y : ℕ) → KeyArc cloned x y → KeyArc o x y
        unfolding cloned
        cloned_from x y (a, c, m, p, ex, ey) = elim ((grows.arcs a c).0 (m, p)) [
          | inl (n, q) ↦ absurd (omega (arith, q, ap (in_edges c) (r.edgeless a n)))
          | inr (inl none_yet) ↦ absurd none_yet
          | inr (inr (hu, hv, (d, e, md, pd, ed, ee))) ↦
              (d, e, md, pd, ed ∙ sym (h_uuid a) ∙ ex, ee ∙ sym (h_uuid c) ∙ ey)
        ]

        cloned_to : (x y : ℕ) → KeyArc o x y → KeyArc cloned x y
        unfolding cloned
        cloned_to x y (a, c, m, p, ex, ey) =
            let (a', ma, ea) = covers a m in
            let (c', mc, ec) = covers c (Arc-target o a c valid.linked (m, p)) in
            let arc = (grows.arcs a' c').1 (inr (inr (ma, mc, (a, c, m, p, sym ea, sym ec)))) in
            (a', c', arc.0, arc.1, h_uuid a' ∙ ea ∙ ex, h_uuid c' ∙ ec ∙ ey)

        cloned_copies :
            (a : ℕ)
            → contains o.graph a ≡ true
            → (b : ℕ) × (contains h.graph b ≡ true)
              × (payload (h.cell b) ≡ payload (clone_vertex (o.cell a)))
        cloned_copies a m =
            let (b, there, same) = pairs_covers o copied o.graph bs a r.pairs m in
            (b, ap (λ l. contains l b) grows.same_graph ∙ there, grows.same_payload b ∙ same)

        cloned_only : (x : ℕ) → Has h x → Has o x
        unfolding clone_vertex
        cloned_only x (b, m, e) =
            let (a, there, same) =
              pairs_from o copied o.graph bs b r.pairs
                (ap (λ l. contains l b) (sym copied_graph ∙ sym grows.same_graph) ∙ m) in
            (a, there, ap (λ (v : Vertex). v.uuid) (sym same) ∙ sym (h_uuid b) ∙ e)

        cloned-IsClone : IsClone o cloned
        unfolding cloned edge_count
        cloned-IsClone = record {
          valid = retitled-IsValid h o.title o.json_config grows.valid;
          title = refl;
          json_config = refl;
          copies = cloned_copies;
          only = cloned_only;
          arcs = λ x y. (cloned_from x y, cloned_to x y);
          count = omega (arith, grows.count, edge_count_edgeless copied r.edgeless);
        }

    clone_eq :
        (h : Dag) (text : String)
        → o.json_config ≡ some text
        → connect_copies o copied o.graph copied.graph ≡ ok h
        → clone o ≡ ok (record h { title = o.title; json_config = o.json_config })
    unfolding clone copied empty
    clone_eq h text has ends = rw (ends, has)

    -- The copy of a valid DAG that has a document succeeds, is valid, and has its vertices, its edges, its title and its document.
    pub clone_lem :
        (text : String) → o.json_config ≡ some text → (h : Dag) × (clone o ≡ ok h) × IsClone o h
    unfolding cloned
    clone_lem text has =
        let (bs, r) = copied-IsCopied in
        let (h, ends, grows) = connected bs r in
        (cloned bs r h grows, clone_eq h text has ends, cloned-IsClone bs r h grows)
