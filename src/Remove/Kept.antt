-- ===== src/Remove/Kept.antt =====
-- `remove_vertex_by_uuid`: which vertices stay.
use mathlib.Core.List.{append_assoc, append-nil}
use dag_scheduler.Base.{
  contains, ℕ, ◌≡◌, ◌∙◌, refl, sym, ap, Bool, true, false, not, ◌||◌, List, [], ◌∷◌, ◌++◌, Option,
  none, some, if◌then◌else◌, keep_if, ◌==◌, arith, Bool-cases, inl, inr,
}
use dag_scheduler.Externals.{Externals}
use dag_scheduler.Uuid.{uuid_eq}
use dag_scheduler.Vertex.{Edge, clear_edges, sub_incomming_edge}
use dag_scheduler.Dag.{Dag, lock, decrement}
use dag_scheduler.Remove.{
  remove_where, release, cut_vertex, Removal, keep_vertex, drop_vertex, owners, remove_if,
  remove_vertex_by_uuid,
}

-- Whether one of the vertices passes the test.
abbrev pub any_of : (ℕ → Bool) → List ℕ → Bool
any_of p [] = false
any_of p (x ∷ xs) = p x || any_of p xs

uuid-decrement : (g : Dag) (c : Option ℕ) (b : ℕ) → ((decrement g c).cell b).uuid ≡ (g.cell b).uuid
unfolding decrement sub_incomming_edge
uuid-decrement g none b = refl
uuid-decrement g (some a) b = ground arith

uuid-release : (es : List Edge) (g : Dag) (b : ℕ) → ((release g es).cell b).uuid ≡ (g.cell b).uuid
unfolding release
uuid-release [] g b = refl
uuid-release (e ∷ es) g b =
    uuid-release es (decrement g (lock g e.connection)) b ∙ uuid-decrement g (lock g e.connection) b

pub uuid-cut_vertex : (g : Dag) (a b : ℕ) → ((cut_vertex g a).cell b).uuid ≡ (g.cell b).uuid
unfolding cut_vertex clear_edges
uuid-cut_vertex g a b = elim (Bool-cases (a == b)) [
  | inl e ↦
      let same : a ≡ b = ground arith in
      rw e (
        ap (λ x. ((release g (g.cell a).edges).cell x).uuid) same
        ∙ uuid-release (g.cell a).edges g b)
  | inr e ↦ rw e (uuid-release (g.cell a).edges g b)
]

-- A test that follows `p` in each DAG with the UUIDs of `g`.
abbrev pub Follows : Dag → (Dag → ℕ → Bool) → (ℕ → Bool) → List ℕ → Type 0
Follows g found p rest =
    (h : Dag) (o : ℕ)
    → ((b : ℕ) → (h.cell b).uuid ≡ (g.cell b).uuid)
    → contains rest o ≡ true
    → found h o ≡ p o

module _ (g : Dag) (found : Dag → ℕ → Bool) (p : ℕ → Bool) where
  remove_if_lem :
      (rest : List ℕ) (r : Removal)
      → Follows g found p rest
      → ((b : ℕ) → (r.dag.cell b).uuid ≡ (g.cell b).uuid)
      → ((remove_if found rest r).kept ≡ r.kept ++ keep_if (λ b. not (p b)) rest)
        × ((remove_if found rest r).ret ≡ (r.ret || any_of p rest))
        × ((b : ℕ) → ((remove_if found rest r).dag.cell b).uuid ≡ (g.cell b).uuid)
  unfolding remove_if drop_vertex keep_vertex
  remove_if_lem [] r follows same = (sym (append-nil r.kept), ground arith, same)
  remove_if_lem (a ∷ rest) r follows same = elim (Bool-cases (p a)) [
    | inl e ↦
        let (kept, ret, cells) =
          remove_if_lem rest dropped later
            (λ b. uuid-cut_vertex (owners r (a ∷ rest)) a b ∙ same b) in
        (
          ap (λ (x : Removal). x.kept) (chosen true e) ∙ kept ∙ ap shown (sym e),
          ap (λ (x : Removal). x.ret) (chosen true e) ∙ ret ∙ ground (arith, e),
          λ b. ap (λ (x : Removal). (x.dag.cell b).uuid) (chosen true e) ∙ cells b,
        )
    | inr e ↦
        let (kept, ret, cells) = remove_if_lem rest held later same in
        (
          ap (λ (x : Removal). x.kept) (chosen false e)
              ∙ kept
              ∙ append_assoc r.kept (a ∷ []) (keep_if (λ b. not (p b)) rest)
              ∙ ap shown (sym e),
          ap (λ (x : Removal). x.ret) (chosen false e) ∙ ret ∙ ground (arith, e),
          λ b. ap (λ (x : Removal). (x.dag.cell b).uuid) (chosen false e) ∙ cells b,
        )
  ]
    where
      here : Removal
      here = record r { dag = owners r (a ∷ rest) }

      dropped : Removal
      dropped = drop_vertex here a

      held : Removal
      held = keep_vertex here a

      later : Follows g found p rest
      later h o same m = follows h o same (ground arith)

      shown : Bool → List ℕ
      shown t =
          let others = keep_if (λ b. not (p b)) rest in
          r.kept ++ (if not t then a ∷ others else others)

      chosen :
          (t : Bool)
          → p a ≡ t
          → remove_if found (a ∷ rest) r ≡ remove_if found rest (if t then dropped else held)
      chosen t e =
          ap (λ x. remove_if found rest (if x then dropped else held))
            (follows here.dag a same (ground arith) ∙ e)

  -- Whatever the test, the vertices that do not pass it stay, with the UUIDs that they had.
  pub remove_where_lem :
      Follows g found p g.graph
      → ((remove_where found g).0.graph ≡ keep_if (λ b. not (p b)) g.graph)
        × ((remove_where found g).1 ≡ any_of p g.graph)
        × ((b : ℕ) → ((remove_where found g).0.cell b).uuid ≡ (g.cell b).uuid)
  unfolding remove_where
  remove_where_lem follows =
      remove_if_lem g.graph (record { kept = []; slots = []; dag = g; ret = false }) follows
        (λ b. refl)

module _ ⦃env : Externals⦄ (id : ℕ) where
  abbrev pub is_id : Dag → ℕ → Bool
  is_id g b = uuid_eq (g.cell b).uuid id

  -- `remove_vertex_by_uuid` leaves the vertices with another UUID, in their order, and returns
  -- whether there was one with the UUID.
  pub remove_vertex_by_uuid_lem :
      (g : Dag)
      → ((remove_vertex_by_uuid g id).0.graph ≡ keep_if (λ b. not (is_id g b)) g.graph)
        × ((remove_vertex_by_uuid g id).1 ≡ any_of (is_id g) g.graph)
  unfolding remove_vertex_by_uuid
  remove_vertex_by_uuid_lem g =
      let (kept, ret, cells) =
        remove_where_lem g is_id (is_id g) (λ h o same m. ap (λ u. uuid_eq u id) (same o)) in
      (kept, ret)
