-- ===== src/Stage/Runs.antt =====
-- Tasks of stages of the classes above, run by a thread.
use dag_scheduler.Externals.{TaskStage}
use dag_scheduler.Base.{
  ℕ, suc, Bool, true, false, ◌||◌, List, [], ◌∷◌, some, none, map, ◌≡◌, refl, sym, ap, ◌∙◌, subst,
}
use dag_scheduler.Task.{Task}
use dag_scheduler.Task.Stages.{AreGood, complete}
use dag_scheduler.Thread.{ended_with, Thread, run_stage, set_task_and_run, set_task_and_run_lem}
use dag_scheduler.Stage.{PrintStage, print_stage, run_print_stage, end_print_stage}

abbrev pub never : ℕ → Bool
never n = false

print_stages_good :
    (self : Thread) (killed : Bool) (n : ℕ) (stages : List PrintStage)
    → self.interrupt ≡ false
    → killed ≡ false
    → AreGood (run_stage self never) (λ k. killed || never k) n (map print_stage stages)
unfolding run_stage print_stage run_print_stage end_print_stage
print_stages_good self killed n [] quiet alive = tt
print_stages_good self killed n (s ∷ stages) quiet alive =
    (rw (quiet, alive) refl, print_stages_good self killed (suc n) stages quiet alive)

quiet_end :
    (self : Thread) (stages : List TaskStage)
    → self.interrupt ≡ false
    → ended_with self never stages ≡ record self { running = false; task = none }
unfolding ended_with
quiet_end self stages quiet =
    ap (λ (b : Bool). record self { interrupt = b; running = false; task = none })
      (rw quiet refl ∙ sym quiet)

-- A thread that is not interrupted runs a task of PrintStages to its end, and calls the user's
-- functions with true, if the task is not iterated by another thread and nobody kills it.
pub prints_all :
    (self : Thread) (t : Task) (stages : List PrintStage)
    → t.iterating ≡ false
    → t.kill ≡ false
    → self.interrupt ≡ false
    → t.stages ≡ map print_stage stages
    → set_task_and_run self (some t) never never
      ≡ (record self { running = false; task = none }, true, complete t true)
prints_all self t stages idle alive quiet all =
    let (b, ran, passes) = set_task_and_run_lem self t never never idle in
    let good = print_stages_good self t.kill 0 stages quiet alive in
    let passed : b ≡ true =
      passes.1 (subst (AreGood (run_stage self never) (λ n. t.kill || never n) 0) (sym all) good) in
    ran
    ∙ ap (λ (b : Bool). (ended_with self never t.stages, b, complete t b)) passed
    ∙ ap (λ (end : Thread). (end, true, complete t true)) (quiet_end self t.stages quiet)
