-- ===== src/Tests/Starting.antt =====
-- Witnesses for the theorems on `TaskScheduler::startup`.
use dag_scheduler.Base.{ℕ, zero, suc, ◌≤◌, ◌≡◌, refl, none, some, arith, [], ◌∷◌}
use dag_scheduler.Scheduler.{Scheduler, make_scheduler, queue_task, shutdown}
use dag_scheduler.Scheduler.Startup.{
  Startup, startup, clears, loop_step, enters, returned, Runs, begins, by_itself, call_returns,
  by_others, called_again, shuts_down,
}
use dag_scheduler.Scheduler.Once.{taken, startup-Runs}
use dag_scheduler.Scheduler.Kills.{Runs-returned}
use dag_scheduler.Tests.{sample}
use dag_scheduler.Tests.Tasks.{mixed}

abbrev queued : Scheduler
queued = queue_task (queue_task make_scheduler (some mixed)) (some mixed)

abbrev steps : ℕ → Startup → Startup
steps zero w = w
steps (suc n) w = loop_step (steps n w)

-- The first task was given to the first thread, the call has returned, and the second task waits.
abbrev gave : Startup
gave = record (steps 9 (startup queued)) { point = enters none }

one_waits : (gave.given ≡ (0, mixed) ∷ []) × (gave.scheduler.queue ≡ some mixed ∷ [])
unfolding startup loop_step make_scheduler queue_task
one_waits = (refl, refl)

-- `shutdown` falls behind that, the loop goes back to its test, and another thread calls `startup`.
abbrev called : Startup
called =
    let w = steps 1 (record gave { scheduler = shutdown gave.scheduler }) in
    record w { scheduler = clears w.scheduler }

gave-Runs : Runs (startup queued) 9 0 gave
unfolding startup loop_step make_scheduler queue_task
gave-Runs = call_returns 0 refl (
    by_itself refl (
      by_itself refl (
        by_itself refl (
          by_itself refl (
            by_itself refl
              (by_itself refl (by_itself refl (by_itself refl (by_itself refl begins)))))))))

called-Runs : Runs (startup queued) 10 1 called
called-Runs =
    called_again (by_itself refl (by_others (shutdown gave.scheduler) gave-Runs shuts_down))

takes_two : taken called ≤ 2
takes_two = startup-Runs queued 10 1 called called-Runs

-- `shutdown` falls between the search for a thread and the second look at `kill_`.
abbrev stopped : Startup
stopped = let w = steps 7 (startup queued) in record w { scheduler = shutdown w.scheduler }

stopped-Runs : Runs stopped 4 0 (steps 4 stopped)
unfolding startup loop_step make_scheduler queue_task shutdown
stopped-Runs = by_itself refl (by_itself refl (by_itself refl (by_itself refl begins)))

stops : (steps 4 stopped).point ≡ returned
unfolding shutdown
stops = Runs-returned stopped (steps 4 stopped) 4 refl stopped-Runs (omega arith)
