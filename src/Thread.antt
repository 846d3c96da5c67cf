-- ===== src/Thread.antt =====
-- lib/interruptible_task_thread.cxx: a thread that runs the stages of one task.
pub mod Start
pub mod Wakes
pub mod Returns
pub mod Again
pub mod Moves
use dag_scheduler.Base.{
  length, ℕ, Bool, true, false, not, ◌&&◌, ◌||◌, List, [], Option, none, some, ◌≡◌, ◌↔◌, ap,
}
use mathlib.Core.Option
use dag_scheduler.Externals.{TaskStage}
use dag_scheduler.Task.{Task}
use dag_scheduler.Task.Stages.{
  Completion, iterate_stages, kill, complete, AreGood, RunsTo-iff, iterate_stages_lem,
}

pub record Thread : Type 0 where
  pub interrupt : Bool
  pub running : Bool
  pub task : Option Task

unfoldable pub make_thread : Thread
make_thread = record { interrupt = false; running = false; task = none }

unfoldable pub set_interrupt : Thread → Bool → Thread
unfolding kill
set_interrupt self should_interrupt = record self {
  interrupt = should_interrupt;
  task = Option.map kill self.task;
}

unfoldable pub has_task : Thread → Bool
has_task self = elim self.task [ none ↦ false | some t ↦ true ]

-- The lambda for `iterate_stages`; `interrupted n` says whether another thread had set `interrupt_`
-- by the n-th call, or by the end if there are n stages.
unfoldable pub run_stage : Thread → (ℕ → Bool) → ℕ → TaskStage → Bool
run_stage self interrupted n next = next.run && not (self.interrupt || interrupted n)

-- `self` at the end of `threaded_func`: `interrupt_` stays set.
unfoldable pub ended_with : Thread → (ℕ → Bool) → List TaskStage → Thread
ended_with self interrupted stages = record {
  interrupt = self.interrupt || interrupted (length stages);
  running = false;
  task = none;
}

-- `threaded_func`: the thread at its end, the result and the calls of the user's functions.
unfoldable pub threaded_func : Thread → (ℕ → Bool) → (ℕ → Bool) → Thread × Bool × List Completion
unfolding iterate_stages run_stage complete ended_with
threaded_func self interrupted killed = elim self.task [
  | none ↦ (record self { interrupt = self.interrupt || interrupted 0 }, false, [])
  | some t ↦
      let (tmp, all_ran, ran) = iterate_stages t (run_stage self interrupted) killed in
      (ended_with self interrupted t.stages, all_ran, complete tmp all_ran)
]

-- `set_task_and_run`, once the new thread has ended.
unfoldable pub set_task_and_run :
    Thread → Option Task → (ℕ → Bool) → (ℕ → Bool) → Thread × Bool × List Completion
unfolding threaded_func
set_task_and_run self task interrupted killed =
    threaded_func (record self { task = task }) interrupted killed

-- A thread that is given a task that nobody iterates ends with no task and not running, is interrupted
-- if it was or another thread interrupted it meanwhile, and calls the user's functions once, with true
-- exactly if each stage ran and ended and found the task neither killed nor interrupted.
pub set_task_and_run_lem :
    (self : Thread) (t : Task) (interrupted killed : ℕ → Bool)
    → t.iterating ≡ false
    → (all_ran : Bool) × (set_task_and_run self (some t) interrupted killed
        ≡ (ended_with self interrupted t.stages, all_ran, complete t all_ran))
      × ((all_ran ≡ true)
          ↔ AreGood (run_stage self interrupted) (λ n. t.kill || killed n) 0 t.stages)
unfolding set_task_and_run complete run_stage
set_task_and_run_lem self t interrupted killed idle =
    let (r, ends, runs) = iterate_stages_lem t (run_stage self interrupted) killed idle in
    (
      r.0,
      ap
          (λ (x : Task × Bool × List TaskStage).
            (ended_with self interrupted t.stages, x.1, complete x.0 x.1))
          ends,
      RunsTo-iff (run_stage self interrupted) (λ n. t.kill || killed n) t.stages 0 r runs,
    )
