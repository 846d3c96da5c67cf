-- ===== src/Base/Lists.antt =====
-- Lists over native numbers: lengths, indices, membership as a test, positions and sums.
use Prim.Native.Nat.{ℕ, zero, suc, ◌+◌, ◌≤◌, ◌<◌}
use mathlib.Core.Path.{◌≡◌, refl, ap}
use mathlib.Core.Logic.{◌≢◌, inl, inr}
use mathlib.Core.Bool.{Bool, true, false, ◌||◌, ◌&&◌}
use mathlib.Core.List.{List, [], ◌∷◌, ◌++◌}
use mathlib.Core.Option.{Option, none, some}
use native.Mathlib.Omega.{arith}
use native.Mathlib.Decide.{dec_lt}
use dag_scheduler.Base.Tests.{◌==◌, if◌then◌else◌, Bool-cases}

module _ {ℓ} {A : Type ℓ} where
  abbrev pub length : List A → ℕ
  length [] = 0
  length (x ∷ xs) = suc (length xs)

  abbrev pub get_elem? : List A → ℕ → Option A
  get_elem? [] i = none
  get_elem? (x ∷ xs) zero = some x
  get_elem? (x ∷ xs) (suc i) = get_elem? xs i

  abbrev pub set : List A → ℕ → A → List A
  set [] i v = []
  set (x ∷ xs) zero v = v ∷ xs
  set (x ∷ xs) (suc i) v = x ∷ set xs i v

  abbrev pub keep_if : (A → Bool) → List A → List A
  keep_if p [] = []
  keep_if p (x ∷ xs) = let rest = keep_if p xs in if p x then x ∷ rest else rest

  pub get_elem?-middle :
      (xs : List A) (y : A) (ys : List A) → get_elem? (xs ++ y ∷ ys) (length xs) ≡ some y
  get_elem?-middle [] y ys = refl
  get_elem?-middle (x ∷ xs) y ys = get_elem?-middle xs y ys

  pub length-append : (xs ys : List A) → length (xs ++ ys) ≡ length xs + length ys
  length-append [] ys = omega arith
  length-append (x ∷ xs) ys = omega (arith, length-append xs ys)

abbrev pub contains : List ℕ → ℕ → Bool
contains [] a = false
contains (x ∷ xs) a = x == a || contains xs a

-- No number twice.
abbrev pub IsDistinct : List ℕ → Type 0
IsDistinct [] = Unit
IsDistinct (x ∷ xs) = (contains xs x ≡ false) × IsDistinct xs

-- The index of the first occurrence, and the length where there is none.
abbrev pub position : List ℕ → ℕ → ℕ
position [] a = 0
position (x ∷ xs) a = let rest = suc (position xs a) in if x == a then 0 else rest

abbrev pub sum_over : (ℕ → ℕ) → List ℕ → ℕ
sum_over f [] = 0
sum_over f (x ∷ xs) = f x + sum_over f xs

pub contains-append :
    (xs ys : List ℕ) (a : ℕ) → contains (xs ++ ys) a ≡ (contains xs a || contains ys a)
contains-append [] ys a = refl
contains-append (x ∷ xs) ys a = ground (arith, contains-append xs ys a)

pub IsDistinct-concat :
    (xs : List ℕ) (a : ℕ) → IsDistinct xs → contains xs a ≡ false → IsDistinct (xs ++ a ∷ [])
IsDistinct-concat [] a d n = (refl, tt)
IsDistinct-concat (x ∷ xs) a d n =
    ground (arith, contains-append xs (a ∷ []) x, IsDistinct-concat xs a)

pub contains-middle : (xs : List ℕ) (a : ℕ) (ys : List ℕ) → contains (xs ++ a ∷ ys) a ≡ true
contains-middle xs a ys = ground (arith, contains-append xs (a ∷ ys) a)

pub IsDistinct-middle :
    (xs : List ℕ) (a : ℕ) (ys : List ℕ) → IsDistinct (xs ++ a ∷ ys) → contains xs a ≡ false
IsDistinct-middle [] a ys d = refl
IsDistinct-middle (x ∷ xs) a ys d =
    ground (arith, IsDistinct-middle xs a ys, contains-append xs (a ∷ ys) x)

pub position-lt : (xs : List ℕ) (a : ℕ) → contains xs a ≡ true → position xs a < length xs
position-lt [] a h = cc
position-lt (x ∷ xs) a h = ground (arith, position-lt xs a)

pub position_absent : (xs : List ℕ) (a : ℕ) → contains xs a ≡ false → position xs a ≡ length xs
position_absent [] a h = refl
position_absent (x ∷ xs) a h = ground (arith, position_absent xs a)

pub position-append :
    (xs ys : List ℕ) (a : ℕ) → contains xs a ≡ true → position (xs ++ ys) a ≡ position xs a
position-append [] ys a h = cc
position-append (x ∷ xs) ys a h = ground (arith, position-append xs ys a)

pub position-concat_self :
    (xs : List ℕ) (a : ℕ) → contains xs a ≡ false → position (xs ++ a ∷ []) a ≡ length xs
position-concat_self [] a h = ground arith
position-concat_self (x ∷ xs) a h = ground (arith, position-concat_self xs a)

-- The sum over distinct keys follows a change at one of them.
pub sum_over_eq :
    (f g : ℕ → ℕ) (xs : List ℕ)
    → ((b : ℕ) → contains xs b ≡ true → f b ≡ g b)
    → sum_over f xs ≡ sum_over g xs
sum_over_eq f g [] h = refl
sum_over_eq f g (x ∷ xs) h =
    omega (arith, h x (ground arith), sum_over_eq f g xs (λ b m. h b (ground arith)))

pub sum_over_change :
    (f g : ℕ → ℕ) (c : ℕ) (xs : List ℕ)
    → IsDistinct xs
    → contains xs c ≡ true
    → ((b : ℕ) → b ≢ c → f b ≡ g b)
    → sum_over f xs + g c ≡ sum_over g xs + f c
sum_over_change f g c [] d m h = cc
sum_over_change f g c (x ∷ xs) d m h = elim (Bool-cases (x == c)) [
  | inl e ↦ omega (
    arith,
    ap f (eq_at_head e),
    ap g (eq_at_head e),
    sum_over_eq f g xs (λ b k. h b (others e b k)),
  )
  | inr e ↦ omega (arith, h x (ground arith), sum_over_change f g c xs d.1 (ground arith) h)
]
  where
    eq_at_head : (x == c) ≡ true → x ≡ c
    eq_at_head e = ground arith

    others : (x == c) ≡ true → (b : ℕ) → contains xs b ≡ true → b ≢ c
    others e b k same = cc (d.0, k, same, eq_at_head e)

pub le-sum_over : (f : ℕ → ℕ) (c : ℕ) (xs : List ℕ) → contains xs c ≡ true → f c ≤ sum_over f xs
le-sum_over f c [] m = cc
le-sum_over f c (x ∷ xs) m = ground (arith, le-sum_over f c xs)

pub contains-keep_if :
    (p : ℕ → Bool) (xs : List ℕ) (a : ℕ) → contains (keep_if p xs) a ≡ (contains xs a && p a)
contains-keep_if p [] a = refl
contains-keep_if p (x ∷ xs) a = ground (arith, contains-keep_if p xs a, ap p {x = x} {y = a})

pub IsDistinct-keep_if : (p : ℕ → Bool) (xs : List ℕ) → IsDistinct xs → IsDistinct (keep_if p xs)
IsDistinct-keep_if p [] d = tt
IsDistinct-keep_if p (x ∷ xs) d = ground (arith, contains-keep_if p xs x, IsDistinct-keep_if p xs)

pub sum_over-append :
    (f : ℕ → ℕ) (xs ys : List ℕ) → sum_over f (xs ++ ys) ≡ sum_over f xs + sum_over f ys
sum_over-append f [] ys = omega arith
sum_over-append f (x ∷ xs) ys = omega (arith, sum_over-append f xs ys)

pub sum_over_one : (xs : List ℕ) → sum_over (λ _. 1) xs ≡ length xs
sum_over_one [] = refl
sum_over_one (x ∷ xs) = omega (arith, sum_over_one xs)

-- A number of the list that the sum counts.
pub sum_over_pos :
    (f : ℕ → ℕ) (xs : List ℕ) → 0 < sum_over f xs → (u : ℕ) × (contains xs u ≡ true) × (0 < f u)
sum_over_pos f [] h = absurd (omega arith)
sum_over_pos f (x ∷ xs) h = elim (dec_lt 0 (f x)) [
  | yes p ↦ (x, ground arith, p)
  | no n ↦ let (u, m, p) = sum_over_pos f xs (omega arith) in (u, ground arith, p)
]
