-- ===== src/Clone/Copy.antt =====
-- The first loop of the copy constructor: the vertices.
use mathlib.Core.List.{append_assoc, append-nil}
use mathlib.Core.Bool.{false≢true}
use dag_scheduler.Base.{
  contains-append, subst, ◌∙◌, refl, arith, sym, ◌≢◌, inr, Option-cases, inl, ◌++◌, true, ap,
  IsDistinct, false, none, List, contains, ℕ, [], ◌∷◌, ◌≡◌,
}
use dag_scheduler.Externals.{Externals}
use dag_scheduler.Vertex.{payload, Vertex, clone_vertex}
use dag_scheduler.Dag.{Dag, find_vertex, find_vertex_by_uuid}
use dag_scheduler.Dag.Valid.{IsValid}
use dag_scheduler.Dag.Find.{find_vertex_by_uuid_sound}
use dag_scheduler.Dag.Append
use dag_scheduler.Dag.Add.{add_vertex_new}
use dag_scheduler.Clone.{copy_vertices}

module _ ⦃env : Externals⦄ where
  -- The vertices at `bs` are those that were made for the ones at `as`, one by one.
  abbrev pub ArePairs : Dag → Dag → List ℕ → List ℕ → Type 0
  ArePairs o h [] [] = Unit
  ArePairs o h [] (b ∷ bs) = ⊥
  ArePairs o h (a ∷ rest) [] = ⊥
  ArePairs o h (a ∷ rest) (b ∷ bs) =
      (payload (h.cell b) ≡ payload (clone_vertex (o.cell a)))
      × (contains h.graph b ≡ true)
      × ArePairs o h rest bs

  -- No vertex has an edge.
  abbrev pub IsEdgeless : Dag → Type 0
  IsEdgeless h = (b : ℕ) → contains h.graph b ≡ true → (h.cell b).edges ≡ []

  pub record IsCopied (o h : Dag) (l : List ℕ) (h' : Dag) (bs : List ℕ) : Type 0 where
    pub graph : h'.graph ≡ h.graph ++ bs
    pub pairs : ArePairs o h' l bs
    pub valid : IsValid h'
    pub kept : (b : ℕ) → contains h.graph b ≡ true → h'.cell b ≡ h.cell b
    pub edgeless : IsEdgeless h'

  module _ (o : Dag) (o_valid : IsValid o) where
    -- The vertices at `l` are not in `h`.
    abbrev pub AreNew : Dag → List ℕ → Type 0
    AreNew h l =
        (a : ℕ)
        → contains l a ≡ true
        → (b : ℕ) → contains h.graph b ≡ true
        → (h.cell b).uuid ≢ (o.cell a).uuid

    abbrev pub Within : List ℕ → Type 0
    Within l = (a : ℕ) → contains l a ≡ true → contains o.graph a ≡ true

    not_found :
        (h : Dag) (a : ℕ) (l : List ℕ)
        → AreNew h (a ∷ l)
        → find_vertex h (clone_vertex (o.cell a)) ≡ none
    unfolding find_vertex clone_vertex
    not_found h a l new = elim (Option-cases (find_vertex_by_uuid h (o.cell a).uuid)) [
      | inl e ↦ e
      | inr (b, e) ↦
          let (there, same) = find_vertex_by_uuid_sound h (o.cell a).uuid b e in
          absurd (new a (ground arith) b there same)
    ]

    copy_vertices-cons :
        (h : Dag) (a : ℕ) (l : List ℕ)
        → AreNew h (a ∷ l)
        → copy_vertices o h (a ∷ l)
          ≡ copy_vertices o (Append.appended h (clone_vertex (o.cell a))) l
    unfolding copy_vertices
    copy_vertices-cons h a l new =
        ap (λ r. copy_vertices o r.0 l)
          (add_vertex_new h (clone_vertex (o.cell a)) (not_found h a l new))

    still_new :
        (h : Dag) (a : ℕ) (l : List ℕ)
        → IsValid h
        → Within (a ∷ l)
        → contains l a ≡ false
        → AreNew h (a ∷ l)
        → AreNew (Append.appended h (clone_vertex (o.cell a))) l
    unfolding clone_vertex
    still_new h a l valid within once new x m b there same =
        elim (Append.contains-appended h (clone_vertex (o.cell a)) valid b there) [
          | inl old ↦ new x (ground arith) b old (
              ap (λ (v : Vertex). v.uuid)
                (sym (Append.appended_old h (clone_vertex (o.cell a)) valid b old))
              ∙ same)
          | inr e ↦
              let key : (o.cell a).uuid ≡ (o.cell x).uuid =
                ap (λ (v : Vertex). v.uuid) (sym (Append.appended_new h (clone_vertex (o.cell a))))
                ∙ ap (λ y. ((Append.appended h (clone_vertex (o.cell a))).cell y).uuid) (sym e)
                ∙ same in
              let equal : a ≡ x =
                o_valid.keyed a x (within a (ground arith)) (within x (ground arith)) key in
              false≢true (sym once ∙ subst (λ y. contains l y ≡ true) (sym equal) m)
        ]

    module _ (h : Dag) (a : ℕ) (l : List ℕ) (valid : IsValid h) (new : AreNew h (a ∷ l)) where
      abbrev copy : Vertex
      copy = clone_vertex (o.cell a)

      copy-IsValid : IsValid (Append.appended h copy)
      unfolding clone_vertex
      copy-IsValid =
          Append.appended-IsValid h copy valid refl refl (λ b m. new a (ground arith) b m)

      copy-IsEdgeless : IsEdgeless h → IsEdgeless (Append.appended h copy)
      unfolding clone_vertex
      copy-IsEdgeless edgeless b m = elim (Append.contains-appended h copy valid b m) [
        | inl old ↦
            ap (λ (v : Vertex). v.edges) (Append.appended_old h copy valid b old) ∙ edgeless b old
        | inr e ↦
            ap (λ x. ((Append.appended h copy).cell x).edges) e
            ∙ ap (λ (v : Vertex). v.edges) (Append.appended_new h copy)
      ]

      copy-IsCopied :
          (h' : Dag) (bs : List ℕ)
          → IsCopied o (Append.appended h copy) l h' bs
          → IsCopied o h (a ∷ l) h' (h.next_addr ∷ bs)
      copy-IsCopied h' bs r =
          let there = Append.contains-appended_new h copy in
          record {
            graph =
                r.graph
                ∙ ap (λ g. g ++ bs) (Append.appended_graph h copy)
                ∙ append_assoc h.graph (h.next_addr ∷ []) bs;
            pairs = (
              ap payload (r.kept h.next_addr there ∙ Append.appended_new h copy),
              subst (λ g. contains g h.next_addr ≡ true) (sym r.graph)
                  (ground (arith, contains-append (Append.appended h copy).graph bs h.next_addr)),
              r.pairs,
            );
            valid = r.valid;
            kept = λ b m.
                r.kept b (Append.contains-appended_old h copy b m)
                ∙ Append.appended_old h copy valid b m;
            edgeless = r.edgeless;
          }

    pub copy_vertices_lem :
        (l : List ℕ) (h : Dag)
        → IsValid h
        → IsEdgeless h
        → Within l
        → IsDistinct l
        → AreNew h l
        → (bs : List ℕ) × IsCopied o h l (copy_vertices o h l) bs
    unfolding copy_vertices
    copy_vertices_lem [] h valid edgeless within distinct new = (
      [],
      record {
        graph = sym (append-nil h.graph);
        pairs = tt;
        valid = valid;
        kept = λ b m. refl;
        edgeless = edgeless;
      },
    )
    copy_vertices_lem (a ∷ l) h valid edgeless within distinct new =
        let (bs, r) =
          copy_vertices_lem l (Append.appended h (clone_vertex (o.cell a)))
            (copy-IsValid h a l valid new) (copy-IsEdgeless h a l valid new edgeless)
            (λ x m. within x (ground arith)) distinct.1
            (still_new h a l valid within distinct.0 new) in
        (
          h.next_addr ∷ bs,
          subst (λ h'. IsCopied o h (a ∷ l) h' (h.next_addr ∷ bs))
              (sym (copy_vertices-cons h a l new))
              (copy-IsCopied h a l valid new
                (copy_vertices o (Append.appended h (clone_vertex (o.cell a))) l) bs r),
        )
