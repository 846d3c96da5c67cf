-- ===== src/Process/Counts.antt =====
-- Two DAGs with the same UUIDs have as many vertices.
use dag_scheduler.Base.{
  subst, ℕ, suc, ◌≤◌, ◌≡◌, refl, ap, ◌∙◌, true, false, not, List, [], ◌∷◌, ◌==◌, length, map,
  contains, IsDistinct, keep_if, contains-keep_if, arith, Bool-cases, inl, inr,
}
use dag_scheduler.Dag.{Dag}
use dag_scheduler.Dag.Keys.{Has}
use dag_scheduler.Process.Layers.{IsKeyed, length-keep_if}

pub length_le :
    (xs ys : List ℕ)
    → IsDistinct xs
    → ((a : ℕ) → contains xs a ≡ true → contains ys a ≡ true)
    → length xs ≤ length ys
length_le [] ys d inside = omega arith
length_le (x ∷ xs) ys d inside =
    let there = inside x (ground arith) in
    let rest = length_le xs (keep_if (λ b. not (b == x)) ys) d.1 (λ a m. others a m) in
    omega (arith, rest, length-keep_if (λ b. b == x) ys x there (ground arith))
  where
    others : (a : ℕ) → contains xs a ≡ true → contains (keep_if (λ b. not (b == x)) ys) a ≡ true
    others a m = elim (Bool-cases (a == x)) [
      | inl e ↦
          let one : a ≡ x = ground arith in absurd (ground (arith, ap (contains xs) one, m, d.0))
      | inr n ↦
          contains-keep_if (λ b. not (b == x)) ys a
          ∙ ground (arith, inside a (ground (arith, m)), n)
    ]

-- The UUIDs at the addresses.
abbrev pub uuids : Dag → List ℕ → List ℕ
uuids g = map (λ a. (g.cell a).uuid)

pub contains-uuids :
    (g : Dag) (us : List ℕ) (a : ℕ)
    → contains us a ≡ true
    → contains (uuids g us) (g.cell a).uuid ≡ true
contains-uuids g [] a m = cc
contains-uuids g (b ∷ us) a m = ground (arith, contains-uuids g us a, ap g.cell {x = b} {y = a})

pub uuids-contains :
    (g : Dag) (us : List ℕ) (x : ℕ)
    → contains (uuids g us) x ≡ true
    → (a : ℕ) × (contains us a ≡ true) × ((g.cell a).uuid ≡ x)
uuids-contains g [] x m = cc
uuids-contains g (b ∷ us) x m = elim (Bool-cases ((g.cell b).uuid == x)) [
  | inl e ↦ (b, ground arith, ground arith)
  | inr n ↦ let (a, there, e) = uuids-contains g us x (ground arith) in (a, ground arith, e)
]

IsDistinct-uuids :
    (g : Dag) (us : List ℕ)
    → IsDistinct us
    → ((a b : ℕ)
        → contains us a ≡ true
        → contains us b ≡ true
        → (g.cell a).uuid ≡ (g.cell b).uuid
        → a ≡ b)
    → IsDistinct (uuids g us)
IsDistinct-uuids g [] d keyed = tt
IsDistinct-uuids g (b ∷ us) d keyed = (
  fresh,
  IsDistinct-uuids g us d.1 (λ a c ma mc e. keyed a c (ground (arith, ma)) (ground (arith, mc)) e),
)
  where
    fresh : contains (uuids g us) (g.cell b).uuid ≡ false
    fresh = elim (Bool-cases (contains (uuids g us) (g.cell b).uuid)) [
      | inl y ↦
          let (a, there, e) = uuids-contains g us (g.cell b).uuid y in
          let one : a ≡ b = keyed a b (ground (arith, there)) (ground arith) e in
          absurd (ground (arith, ap (contains us) one, there, d.0))
      | inr n ↦ n
    ]

length-uuids : (g : Dag) (us : List ℕ) → length (uuids g us) ≡ length us
length-uuids g [] = refl
length-uuids g (b ∷ us) = ap suc (length-uuids g us)

pub length_le_of_Has :
    (g h : Dag) → IsKeyed g → ((x : ℕ) → Has g x → Has h x) → length g.graph ≤ length h.graph
length_le_of_Has g h k has = omega (
  arith,
  length_le (uuids g g.graph) (uuids h h.graph) (IsDistinct-uuids g g.graph k.distinct k.keyed)
      (λ x m.
        let (a, there, e) = has x (uuids-contains g g.graph x m) in
        subst (λ y. contains (uuids h h.graph) y ≡ true) e (contains-uuids h h.graph a there)),
  length-uuids g g.graph,
  length-uuids h h.graph,
)
