-- ===== src/Tests.antt =====
-- Inputs for the tests: a UUID library, and DAGs that the operations make.
mod Graphs
mod Tasks
mod Loading
mod Serving
mod Processing
mod Starting
mod Refining
mod Threads
mod Members
mod Starts
mod Stages
mod Dangling
use Prim.Native.String.{◌∷◌, count}
use text.Mathlib.TextLemmas.{length-cons}
use dag_scheduler.Base.{
  Option, some, ◌+◌, ℕ, zero, suc, String, ◌≡◌, ◌≢◌, ◌∙◌, sym, refl, ap, true, none, arith, [],
}
use dag_scheduler.Externals.{Externals}
use dag_scheduler.Vertex.{make_vertex}
use dag_scheduler.Dag.{Dag, make_dag, add_vertex}
use dag_scheduler.Connect.Reach.{Reached}

abbrev pub unary : ℕ → String
unary zero = "u"
unary (suc n) = "u" ∷ unary n

count-unary : (n : ℕ) → count (unary n) ≡ suc n
count-unary zero = refl
count-unary (suc n) = length-cons "u" (unary n) ∙ ap suc (count-unary n)

pub unary-injective : (m n : ℕ) → unary m ≡ unary n → m ≡ n
unary-injective m n e = omega (arith, ap count e, count-unary m, count-unary n)

pub unary_ne_empty : (n : ℕ) → unary n ≢ ""
unary_ne_empty n e = omega (arith, ap count e, count-unary n)

abbrev pub predecessor : ℕ → Option ℕ
predecessor zero = none
predecessor (suc n) = some n

abbrev pub parse_unary : String → Option ℕ
parse_unary s = predecessor (count s)

pub parse_unary-unary : (n : ℕ) → parse_unary (unary n) ≡ some n
parse_unary-unary n = ap predecessor (count-unary n)

-- The n-th UUID that is drawn is 100 + n.
instance abbrev pub sample : Externals
sample = record {
  generate = λ n. 100 + n;
  unparse_lower = unary;
  unparse_lower-injective = unary-injective;
  unparse_lower_ne_empty = unary_ne_empty;
  parse = parse_unary;
  parse-unparse_lower = parse_unary-unary;
  clone_stage = λ s. s;
  clone_plugin = λ p. p;
}

-- One vertex, at address 0, and then another, at address 1.
abbrev pub one : Dag
one = (add_vertex (make_dag "test" "null") (make_vertex "A" none 1)).0

abbrev pub pair : Dag
pair = (add_vertex one (make_vertex "B" none 2)).0

pub pair-Reached : Reached pair
unfolding make_vertex
pair-Reached =
    Reached.added one (make_vertex "B" none 2)
      (Reached.added (make_dag "test" "null") (make_vertex "A" none 1) (Reached.made "test" "null")
        refl refl)
      refl refl
