-- ===== src/Remove/Payloads.antt =====
-- The removal of a vertex changes edges and counters alone.
use dag_scheduler.Base.{
  ℕ, ◌≡◌, ◌∙◌, refl, ap, arith, List, [], ◌∷◌, ◌==◌, Option, none, some, Bool-cases, inl, inr,
}
use dag_scheduler.Vertex.{Edge, payload, clear_edges, sub_incomming_edge}
use dag_scheduler.Dag.{Dag, lock, decrement}
use dag_scheduler.Remove.{release, cut_vertex}

payload-decrement :
    (g : Dag) (c : Option ℕ) (b : ℕ) → payload ((decrement g c).cell b) ≡ payload (g.cell b)
unfolding decrement sub_incomming_edge
payload-decrement g none b = refl
payload-decrement g (some a) b = elim (Bool-cases (a == b)) [
  | inl e ↦ let one : a ≡ b = ground arith in rw e (ap (λ x. payload (g.cell x)) one)
  | inr e ↦ rw e refl
]

payload-release :
    (es : List Edge) (g : Dag) (b : ℕ) → payload ((release g es).cell b) ≡ payload (g.cell b)
unfolding release
payload-release [] g b = refl
payload-release (e ∷ es) g b =
    payload-release es (decrement g (lock g e.connection)) b
    ∙ payload-decrement g (lock g e.connection) b

pub payload-cut_vertex :
    (g : Dag) (a b : ℕ) → payload ((cut_vertex g a).cell b) ≡ payload (g.cell b)
unfolding cut_vertex clear_edges
payload-cut_vertex g a b = elim (Bool-cases (a == b)) [
  | inl e ↦
      let one : a ≡ b = ground arith in
      rw e (payload-release (g.cell a).edges g a ∙ ap (λ x. payload (g.cell x)) one)
  | inr e ↦ rw e (payload-release (g.cell a).edges g b)
]
