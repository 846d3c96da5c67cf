-- ===== src/Tests/Threads.antt =====
-- Witnesses for the theorems on the start of a thread.
use dag_scheduler.Base.{ℕ, ◌≡◌, refl, Bool, true, false, some}
use dag_scheduler.Thread.{Thread, make_thread}
use dag_scheduler.Thread.Start.{
  Start, shut_down, absent, returned, gives_task, spawns, locks, begins, notifies,
  calls_set_task_and_run, caller_step, child_step, Steps, here, of_caller, of_child,
}
use dag_scheduler.Thread.Wakes.{wakeup_lost}
use dag_scheduler.Thread.Again.{second_call}
use dag_scheduler.Tests.Tasks.{mixed}

abbrev fresh : Start
fresh = record {
  thread = make_thread;
  joinable = false;
  thread_started = false;
  caller = shut_down;
  child = absent;
}

abbrev idle : ℕ → Bool
idle n = false

loses_wakeup :
    (s' : Start) × Steps false (calls_set_task_and_run fresh (some mixed)) s'
    × ((s'' : Start) (b : Bool) → Steps false s' s'' → ¬ (s''.caller ≡ returned b))
loses_wakeup = wakeup_lost fresh (some mixed) refl

-- The caller waits before the new thread notifies it.
abbrev called : Start
called = child_step notifies idle idle (
    child_step begins idle idle (
      caller_step locks (
        caller_step spawns
          (caller_step (gives_task (some mixed)) (calls_set_task_and_run fresh (some mixed))))))

called-Steps : Steps false (calls_set_task_and_run fresh (some mixed)) called
unfolding calls_set_task_and_run caller_step child_step
called-Steps = of_child idle idle (of_child idle idle (of_caller (of_caller (of_caller here))))

abbrev again : Start
again =
    caller_step spawns
      (caller_step (gives_task (some mixed)) (calls_set_task_and_run called (some mixed)))

again-Steps : Steps false (calls_set_task_and_run called (some mixed)) again
unfolding calls_set_task_and_run caller_step child_step
again-Steps = of_caller (of_caller here)

call_returned : called.caller ≡ returned true
unfolding calls_set_task_and_run caller_step child_step
call_returned = refl

ends_at_second : ¬ (again.caller ≡ returned true)
ends_at_second =
    second_call fresh called again (some mixed) (some mixed) true true false refl tt called-Steps
      call_returned again-Steps

-- The new thread has begun, and the caller is about to wait.
abbrev spawned : Start
spawned = record fresh {
  thread = record make_thread { task = some mixed };
  joinable = true;
  caller = locks;
  child = begins;
}
