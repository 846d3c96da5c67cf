-- ===== src/Dag/Compare.antt =====
-- lib/dag.cxx: `operator==` on two DAGs.
use mathlib.Core.Bool.{false≢true}
use dag_scheduler.Base.{
  ℕ, ◌+◌, ◌≡◌, ◌↔◌, ◌∙◌, refl, sym, ap, arith, String, Bool, true, false, ◌&&◌, List, [], ◌∷◌,
  Option, none, some, Outcome, ok, fault, ◌>>=◌, if◌then◌else◌, length, ◌==◌, ==_iff, inl, inr,
  Bool-cases,
}
use dag_scheduler.Externals.{Externals}
use dag_scheduler.Vertex.{vertex_eq}
use dag_scheduler.Dag.{Dag, vertex_count, edge_count}
use dag_scheduler.Dag.Valid.{IsValid}
use dag_scheduler.Clone.{clone}
use dag_scheduler.Clone.Correct.{clone_lem}

-- `use_count` gives the owners of an object, and `json_eq` is the comparison of rapidjson; both DAGs
-- stand on one heap.
module _ ⦃env : Externals⦄ (use_count : ℕ → ℕ) (json_eq : String → String → Bool) where
  -- The loop over `lhs.graph_`, from the place in `rhs.graph_` on; it ends at the first difference.
  -- Each of the two copies of a pointer that it makes counts as an owner of its object.
  unfoldable pub compare_vertices : Dag → Dag → Bool → List ℕ → List ℕ → Outcome Bool
  compare_vertices lhs rhs ret [] os = ok ret
  compare_vertices lhs rhs ret (v ∷ vs) [] = fault
  compare_vertices lhs rhs ret (v ∷ vs) (o ∷ os) =
      let owners = λ (a : ℕ). use_count a + (if a == v then 1 else 0) + (if a == o then 1 else 0) in
      let same = ret && vertex_eq (lhs.cell v) (rhs.cell o) && owners v == owners o in
      let rest = compare_vertices lhs rhs same vs os in if same then rest else ok false

  unfoldable pub compare_documents : Option String → Option String → Outcome Bool
  compare_documents none r = fault
  compare_documents (some l) none = fault
  compare_documents (some l) (some r) = ok (json_eq l r)

  -- The sorted copies are not used but made.
  unfoldable pub dag_eq : Dag → Dag → Outcome Bool
  unfolding compare_vertices compare_documents vertex_count edge_count
  dag_eq lhs rhs = clone lhs >>= λ lhs_clone. clone rhs >>= λ rhs_clone.
      compare_vertices lhs rhs (length lhs.graph == length rhs.graph) lhs.graph rhs.graph >>= λ ret.
      compare_documents lhs.json_config rhs.json_config >>= λ documents.
      ok (
        ret
        && vertex_count lhs == vertex_count rhs
        && edge_count lhs == edge_count rhs
        && documents)

  -- Comparing a valid DAG that has a vertex with a valid one that has none reads past the end of the
  -- empty vector. Both have a document.
  pub dag_eq_empty :
      (lhs rhs : Dag) (text text' : String) (a : ℕ) (rest : List ℕ)
      → IsValid lhs
      → lhs.json_config ≡ some text
      → lhs.graph ≡ a ∷ rest
      → IsValid rhs
      → rhs.json_config ≡ some text'
      → rhs.graph ≡ []
      → dag_eq lhs rhs ≡ fault
  unfolding dag_eq
  dag_eq_empty lhs rhs text text' a rest valid has begins valid' has' bare =
      let (h, made, c) = clone_lem lhs valid text has in
      let (h', made', c') = clone_lem rhs valid' text' has' in
      let reads : compare_vertices lhs rhs (length lhs.graph == length rhs.graph) lhs.graph
            rhs.graph
          ≡ fault =
        ap (compare_vertices lhs rhs (length lhs.graph == length rhs.graph) lhs.graph) bare
        ∙ ap (λ l. compare_vertices lhs rhs (length lhs.graph == length rhs.graph) l []) begins in
      rw (made, made', reads) refl

  -- The vertices are equal in pairs, and owned by as many.
  abbrev pub AllSame : Dag → Dag → List ℕ → List ℕ → Type 0
  AllSame lhs rhs [] [] = Unit
  AllSame lhs rhs (v ∷ vs) (o ∷ os) =
      (vertex_eq (lhs.cell v) (rhs.cell o) ≡ true)
      × (use_count v ≡ use_count o)
      × AllSame lhs rhs vs os
  AllSame lhs rhs vs os = ⊥

  same_owners :
      (v o : ℕ)
      → ((use_count v + (if v == v then 1 else 0) + (if v == o then 1 else 0)
            == use_count o + (if o == v then 1 else 0) + (if o == o then 1 else 0))
          ≡ true)
        ↔ (use_count v ≡ use_count o)
  same_owners v o = ground (
    arith,
    ==_iff v o,
    ==_iff o v,
    ==_iff (use_count v + (if v == v then 1 else 0) + (if v == o then 1 else 0))
        (use_count o + (if o == v then 1 else 0) + (if o == o then 1 else 0)),
  )

  three : (a b c : Bool) → ((a && b && c) ≡ true) ↔ ((a ≡ true) × (b ≡ true) × (c ≡ true))
  three a b c = ground arith

  with_count :
      (a m b c : Bool)
      → m ≡ true
      → ((a && m && b && c) ≡ true) ↔ ((a ≡ true) × (b ≡ true) × (c ≡ true))
  with_count a m b c e = ground arith

  compares :
      (lhs rhs : Dag) (ret : Bool) (vs os : List ℕ)
      → length vs ≡ length os
      → (b : Bool) × (compare_vertices lhs rhs ret vs os ≡ ok b)
        × ((b ≡ true) ↔ ((ret ≡ true) × AllSame lhs rhs vs os))
  unfolding compare_vertices
  compares lhs rhs ret [] [] e = (ret, refl, (λ h. (h, tt), λ h. h.0))
  compares lhs rhs ret [] (o ∷ os) e = absurd (omega (arith, e))
  compares lhs rhs ret (v ∷ vs) [] e = absurd (omega (arith, e))
  compares lhs rhs ret (v ∷ vs) (o ∷ os) e =
      let owners = λ (a : ℕ). use_count a + (if a == v then 1 else 0) + (if a == o then 1 else 0) in
      let equal = vertex_eq (lhs.cell v) (rhs.cell o) in
      let same = ret && equal && owners v == owners o in
      let parts = three ret equal (owners v == owners o) in
      let (b, ends, decides) = compares lhs rhs same vs os (omega (arith, e)) in
      let chosen = λ (t : Bool).
        let rest = compare_vertices lhs rhs same vs os in if t then rest else ok false in
      elim (Bool-cases same) [
        | inl y ↦ (
          b,
          ap chosen y ∙ ends,
          (
            λ h.
                let (all, rest) = decides.0 h in
                let (r, x, z) = parts.0 all in (r, (x, (same_owners v o).0 z, rest)),
            λ (r, (x, z, rest)). decides.1 (parts.1 (r, x, (same_owners v o).1 z), rest),
          ),
        )
        | inr n ↦ (
          false,
          ap chosen n,
          (
            λ h. absurd (false≢true h),
            λ (r, (x, z, rest)).
                absurd (false≢true (sym n ∙ parts.1 (r, x, (same_owners v o).1 z))),
          ),
        )
      ]

  -- On valid DAGs with documents and as many vertices, `operator==` returns, and is true exactly if
  -- the vertices are equal in the order in which the graphs hold them and owned by as many, the
  -- numbers of edges are equal and so are the documents: which vertices the edges lead to does not
  -- matter.
  pub dag_eq_decides :
      (lhs rhs : Dag) (text text' : String)
      → IsValid lhs
      → lhs.json_config ≡ some text
      → IsValid rhs
      → rhs.json_config ≡ some text'
      → vertex_count lhs ≡ vertex_count rhs
      → (b : Bool) × (dag_eq lhs rhs ≡ ok b)
        × ((b ≡ true) ↔ (
            AllSame lhs rhs lhs.graph rhs.graph
            × (edge_count lhs ≡ edge_count rhs)
            × (json_eq text text' ≡ true)))
  unfolding dag_eq
  dag_eq_decides lhs rhs text text' valid has valid' has' sizes =
      let (h, made, c) = clone_lem lhs valid text has in
      let (h', made', c') = clone_lem rhs valid' text' has' in
      let many = (==_iff (length lhs.graph) (length rhs.graph)).1 sizes in
      let (b, ends, decides) =
        compares lhs rhs (length lhs.graph == length rhs.graph) lhs.graph rhs.graph sizes in
      let documents : compare_documents lhs.json_config rhs.json_config ≡ ok (json_eq text text') =
        ap (λ d. compare_documents d rhs.json_config) has
        ∙ ap (compare_documents (some text)) has' in
      let edges = edge_count lhs == edge_count rhs in
      let all = b && vertex_count lhs == vertex_count rhs && edges && json_eq text text' in
      let parts =
        with_count b (vertex_count lhs == vertex_count rhs) edges (json_eq text text')
          ((==_iff (vertex_count lhs) (vertex_count rhs)).1 sizes) in
      (
        all,
        rw (made, made', ends, documents) refl,
        (
          λ e.
              let (x, y, z) = parts.0 e in
              ((decides.0 x).1, (==_iff (edge_count lhs) (edge_count rhs)).0 y, z),
          λ (x, y, z).
              parts.1 (decides.1 (many, x), (==_iff (edge_count lhs) (edge_count rhs)).1 y, z),
        ),
      )
