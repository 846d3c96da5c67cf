-- ===== src/Graph/Drops.antt =====
-- `remove_vertex_by_uuid` on a DAG and on the graph that it stands for.
use dag_scheduler.Base.{
  ℕ, ◌<◌, ◌≤◌, ◌≡◌, ◌∙◌, ◌↔◌, refl, sym, ap, subst, arith, Bool, true, false, not, ◌&&◌, ◌==◌,
  ==_iff, contains, keep_if, List, [], ◌∷◌, inl, inr, Bool-cases,
}
use dag_scheduler.Externals.{Externals}
use dag_scheduler.Uuid.{uuid_eq, uuid_eq_iff}
use dag_scheduler.Dag.{Dag, edge_count}
use dag_scheduler.Dag.Degrees.{indegree, indegree_pos}
use dag_scheduler.Remove.{remove_where, remove_vertex_by_uuid}
use dag_scheduler.Remove.Kept.{Follows, remove_where_lem, any_of}
use dag_scheduler.Remove.Cells.{remove_where_none}
use dag_scheduler.Graph.{Graph, without}
use dag_scheduler.Graph.Adds.{Models, not_true}
use dag_scheduler.Graph.Removes.{Same, remove_where-Same, remove_root_by_uuid}

dag_ext : (g h : Dag) → h.graph ≡ g.graph → h.cell ≡ g.cell → Same g h → h ≡ g
dag_ext g h graph cell same = λ i. record {
  graph = graph i;
  cell = cell i;
  next_addr = same.0 i;
  draws = same.2 i;
  title = same.3 i;
  json_config = same.1 i;
}

keep_if_all :
    (p : ℕ → Bool) (xs : List ℕ) → ((b : ℕ) → contains xs b ≡ true → p b ≡ true) → keep_if p xs ≡ xs
keep_if_all p [] all = refl
keep_if_all p (x ∷ xs) all =
    rw (all x (ground arith))
      (ap (λ l. x ∷ l) (keep_if_all p xs (λ b m. all b (ground (arith, m)))))

any_of_none :
    (p : ℕ → Bool) (xs : List ℕ)
    → ((b : ℕ) → contains xs b ≡ true → p b ≡ false)
    → any_of p xs ≡ false
any_of_none p [] none_of = refl
any_of_none p (x ∷ xs) none_of =
    rw (none_of x (ground arith)) (any_of_none p xs (λ b m. none_of b (ground (arith, m))))

but : (a : Bool) (x y : ℕ) → ((a && not (x == y)) ≡ true) ↔ ((a ≡ true) × ¬ (x ≡ y))
but a x y = ground (arith, ==_iff x y)

module _ ⦃env : Externals⦄ (G : Graph) (g : Dag) (m : Models G g) where
  no_arcs :
      (a : ℕ)
      → contains g.graph a ≡ true
      → ((x : ℕ) → G.arc x (g.cell a).uuid ≡ false)
      → (g.cell a).incomming ≡ 0
  no_arcs a there none_to =
      let free : ¬ (0 < indegree g a) = λ p.
        let (u, arc) = indegree_pos g a p in
        let e = (m.arcs (g.cell u).uuid (g.cell a).uuid).1 (u, a, arc.0, arc.1, refl, refl) in
        ground (arith, e, none_to (g.cell u).uuid) in
      omega (arith, free, m.sound.valid.linked.counted a there)

  abbrev Dropped : ℕ → Dag × Bool → Type 0
  Dropped id r = (r.1 ≡ G.has id) × Models (without G id) r.0 × (edge_count r.0 ≤ edge_count g)

  removed_there :
      (a : ℕ)
      → contains g.graph a ≡ true
      → ((x : ℕ) → G.arc x (g.cell a).uuid ≡ false)
      → Dropped (g.cell a).uuid (remove_vertex_by_uuid g (g.cell a).uuid)
  removed_there a there none_to =
      let id = (g.cell a).uuid in
      let (ret, w) = remove_root_by_uuid g a m.sound there (no_arcs a there none_to) in
      (
        ret ∙ sym ((m.has id).1 (a, there, refl)),
        record {
          sound = w.sound;
          has = λ x. (
            λ e. let (old, n) = (but (G.has x) x id).0 e in (w.has x).1 ((m.has x).0 old, n),
            λ h. let (old, n) = (w.has x).0 h in (but (G.has x) x id).1 ((m.has x).1 old, n),
          );
          arcs = λ x y. (
            λ e.
                let (old, n) = (but (G.arc x y) x id).0 e in (w.arcs x y).1 ((m.arcs x y).0 old, n),
            λ h.
                let (old, n) = (w.arcs x y).0 h in (but (G.arc x y) x id).1 ((m.arcs x y).1 old, n),
          );
        },
        w.count,
      )

  untouched :
      (id : ℕ)
      → ((b : ℕ) → contains g.graph b ≡ true → uuid_eq (g.cell b).uuid id ≡ false)
      → remove_vertex_by_uuid g id ≡ (g, false)
  unfolding remove_vertex_by_uuid
  untouched id absent =
      let found = λ (h : Dag) (o : ℕ). uuid_eq (h.cell o).uuid id in
      let a = g.next_addr in
      let new : (b : ℕ) → contains g.graph b ≡ true → (b == a) ≡ false = λ b there.
        let below = m.sound.valid.fresh b there in
        not_true (b == a) (λ e. omega (arith, below, (==_iff b a).0 e)) in
      let follows : Follows g found (λ b. b == a) g.graph =
        λ h o same there. ap (λ u. uuid_eq u id) (same o) ∙ absent o there ∙ sym (new o there) in
      let not_owned : contains g.graph a ≡ false =
        not_true (contains g.graph a) (λ e. omega (arith, m.sound.valid.fresh a e)) in
      let (kept, ret, uuids) = remove_where_lem g found (λ b. b == a) follows in
      let graph =
        kept ∙ keep_if_all (λ b. not (b == a)) g.graph (λ b there. ap not (new b there)) in
      let unchanged =
        dag_ext g (remove_where found g).0 graph (remove_where_none g found a follows not_owned)
          (remove_where-Same found g) in
      λ i. (unchanged i, (ret ∙ any_of_none (λ b. b == a) g.graph new) i)

  removed_none : (id : ℕ) → G.has id ≡ false → Dropped id (remove_vertex_by_uuid g id)
  removed_none id none_has =
      let absent : (b : ℕ) → contains g.graph b ≡ true → uuid_eq (g.cell b).uuid id ≡ false =
        λ b there. not_true (uuid_eq (g.cell b).uuid id) (λ e.
          let has = (m.has id).1 (b, there, (uuid_eq_iff (g.cell b).uuid id).0 e) in
          ground (arith, has, none_has)) in
      subst (Dropped id) (sym (untouched id absent)) (
        sym none_has,
        record {
          sound = m.sound;
          has = λ x. (
            λ e. (m.has x).0 ((but (G.has x) x id).0 e).0,
            λ h.
                let old = (m.has x).1 h in
                (but (G.has x) x id).1 (old, λ e. ground (arith, sym (ap G.has e) ∙ old, none_has)),
          );
          arcs = λ x y. (
            λ e. (m.arcs x y).0 ((but (G.arc x y) x id).0 e).0,
            λ h.
                let old = (m.arcs x y).1 h in
                let (a, c, there, p, from, to) = h in
                (but (G.arc x y) x id).1 (
                  old,
                  λ e. let has = (m.has id).1 (a, there, from ∙ e) in ground (arith, has, none_has),
                ),
          );
        },
        omega arith,
      )

  pub removes_lem :
      (id : ℕ) → ((x : ℕ) → G.arc x id ≡ false) → Dropped id (remove_vertex_by_uuid g id)
  removes_lem id none_to = elim (Bool-cases (G.has id)) [
    | inl e ↦
        let (a, there, same) = (m.has id).0 e in
        subst (λ x. Dropped x (remove_vertex_by_uuid g x)) same
          (removed_there a there (λ x. ap (G.arc x) same ∙ none_to x))
    | inr e ↦ removed_none id e
  ]
