-- ===== src/Queue/Order.antt =====
-- Tasks leave the queue in the order in which they came.
use mathlib.Core.List.{append_assoc, append-nil}
use dag_scheduler.Base.{
  Bool, true, false, List, [], ◌∷◌, ◌++◌, Option, none, ◌≡◌, ◌∙◌, refl, sym, ap,
}
use dag_scheduler.Task.{Task}
use dag_scheduler.Queue.{Queue, push, try_pop}

-- The calls that producers and consumers make, in the order in which they take the mutex.
pub data Call : Type 0 where
  pushes : Option Task → Call
  pops : Call

abbrev pub pushed : List Call → List (Option Task)
pushed [] = []
pushed (Call.pushes t ∷ cs) = t ∷ pushed cs
pushed (Call.pops ∷ cs) = pushed cs

-- The task of a `try_pop` that returned true.
abbrev pub taken : Queue × Option Task × Bool → List (Option Task)
taken (q, t, true) = t ∷ []
taken (q, t, false) = []

-- The queue after the calls, and the tasks that they popped.
unfoldable pub serve : Queue → List Call → Queue × List (Option Task)
unfolding push try_pop
serve q [] = (q, [])
serve q (Call.pushes t ∷ cs) = serve (push q t) cs
serve q (Call.pops ∷ cs) =
    let popped = try_pop q none in let (q', ts) = serve popped.0 cs in (q', taken popped ++ ts)

try_pop_lem : (q : Queue) → taken (try_pop q none) ++ (try_pop q none).0 ≡ q
unfolding try_pop
try_pop_lem [] = refl
try_pop_lem (t ∷ q) = refl

-- Whatever the order of the calls, the tasks that were popped and then those still in the queue are
-- the tasks that were there at first and then those pushed, in that order.
pub serve_lem : (cs : List Call) (q : Queue) → (serve q cs).1 ++ (serve q cs).0 ≡ q ++ pushed cs
unfolding serve push
serve_lem [] q = sym (append-nil q)
serve_lem (Call.pushes t ∷ cs) q = serve_lem cs (push q t) ∙ append_assoc q (t ∷ []) (pushed cs)
serve_lem (Call.pops ∷ cs) q =
    let popped = try_pop q none in
    append_assoc (taken popped) (serve popped.0 cs).1 (serve popped.0 cs).0
    ∙ ap (λ l. taken popped ++ l) (serve_lem cs popped.0)
    ∙ sym (append_assoc (taken popped) popped.0 (pushed cs))
    ∙ ap (λ l. l ++ pushed cs) (try_pop_lem q)
