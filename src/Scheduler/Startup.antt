-- ===== src/Scheduler/Startup.antt =====
-- lib/task_scheduler.cxx: `startup` as steps of its loop, between the steps of other threads.
use dag_scheduler.Base.{
  true, ℕ, zero, suc, Bool, false, List, [], ◌∷◌, ◌++◌, Option, none, some, ok, if◌then◌else◌, ◌≡◌,
  ◌==◌,
}
use dag_scheduler.Externals.{Externals}
use dag_scheduler.Task.{Task}
use dag_scheduler.Task.Stages.{kill}
use dag_scheduler.Queue.{Queue, wait_for_and_pop}
use dag_scheduler.Thread.{Thread, has_task}
use dag_scheduler.Scheduler.{
  Scheduler, queue_task, pause, resume, shutdown, kill_task, no_index, first_unused_thread,
}

-- What `startup` reads next; `next_task` is null once it was moved to a thread. At `waits` it is in a
-- call of `set_task_and_run`, and at `terminated` the call has ended the program.
pub data Point : Type 0 where
  tests_kill : Point
  tests_should_get_next : Point
  tests_pause : Point
  pops : Point
  enters : Option Task → Point
  tests_pause_inside : Option Task → Point
  looks : Option Task → Point
  tests_kill_again : ℕ → Option Task → Point
  gives : ℕ → Option Task → Point
  waits : ℕ → Point
  terminated : Point
  returned : Point

-- `given` has the tasks that were moved to threads, with the indexes of these, and `freed` those that
-- were killed and destroyed.
pub record Startup : Type 0 where
  pub point : Point
  pub scheduler : Scheduler
  pub given : List (ℕ × Task)
  pub freed : List Task

-- The first statements of `set_task_and_run` on the thread at the index: its new task.
unfoldable pub give_at : List Thread → ℕ → Task → List Thread
give_at [] i t = []
give_at (thread ∷ pool) zero t = record thread { task = some t } ∷ pool
give_at (thread ∷ pool) (suc i) t = thread ∷ give_at pool i t

-- The task is killed, and destroyed at the end of its scope.
unfoldable pub kill_and_free : Startup → Option Task → Startup
unfolding kill
kill_and_free w none = record w { point = tests_kill }
kill_and_free w (some t) = record w { point = tests_kill; freed = kill t ∷ w.freed }

-- `set_task_and_run` is called, and need not return.
unfoldable pub give : Startup → ℕ → Option Task → Startup
unfolding give_at
give w i none = record w { point = enters none }
give w i (some t) = record w {
  point = waits i;
  scheduler = record w.scheduler { thread_pool = give_at w.scheduler.thread_pool i t };
  given = (i, t) ∷ w.given;
}

-- After the wait: the queue, `next_task` and the result, which is not used.
unfoldable pub popped : Startup → Queue × Option Task × Bool → Startup
popped w (queue, none, ret) = record w {
  point = tests_kill;
  scheduler = record w.scheduler { queue = queue };
}
popped w (queue, some t, ret) = record w {
  point = enters (some t);
  scheduler = record w.scheduler { queue = queue };
}

unfoldable pub step_at : Point → Startup → Startup
unfolding kill_and_free give popped wait_for_and_pop first_unused_thread
step_at tests_kill w = record w {
  point = if w.scheduler.kill then returned else tests_should_get_next;
}
step_at tests_should_get_next w = record w {
  point = if w.scheduler.kill then tests_kill else tests_pause;
}
step_at tests_pause w = record w { point = if w.scheduler.pause then tests_kill else pops }
step_at pops w = popped w (wait_for_and_pop w.scheduler.queue none)
step_at (enters next_task) w =
    if w.scheduler.kill
    then kill_and_free w next_task
    else record w { point = tests_pause_inside next_task }
step_at (tests_pause_inside next_task) w = record w {
  point = if w.scheduler.pause then enters next_task else looks next_task;
}
step_at (looks next_task) w =
    let unused_index = first_unused_thread w.scheduler in
    record w {
      point =
          if unused_index == no_index
          then enters next_task
          else tests_kill_again unused_index next_task;
    }
step_at (tests_kill_again unused_index next_task) w =
    if w.scheduler.kill
    then kill_and_free w next_task
    else record w { point = gives unused_index next_task }
step_at (gives unused_index next_task) w = give w unused_index next_task
step_at (waits unused_index) w = record w { point = waits unused_index }
step_at terminated w = record w { point = terminated }
step_at returned w = record w { point = returned }

unfoldable pub loop_step : Startup → Startup
unfolding step_at
loop_step w = step_at w.point w

-- `pause_` and `kill_` are cleared before the loop.
unfoldable pub clears : Scheduler → Scheduler
clears s = record s { pause = false; kill = false }

unfoldable pub startup : Scheduler → Startup
unfolding clears
startup s = record { point = tests_kill; scheduler = clears s; given = []; freed = [] }

-- A thread that is not in a call takes steps of its own.
abbrev pub is_going : Point → Bool
is_going (waits i) = false
is_going terminated = false
is_going p = true

module _ ⦃env : Externals⦄ where
  -- The steps of other threads: the callers of the scheduler, the threads of the pool, and other calls
  -- of `startup`, once they have cleared the flags.
  pub data Other (s : Scheduler) : Scheduler → Type 0 where
    queues : (t : Option Task) → Other s (queue_task s t)
    pauses : Other s (pause s)
    resumes : Other s (resume s)
    kills : (u : ℕ) (s' : Scheduler) (ret : Bool) → kill_task s u ≡ ok (s', ret) → Other s s'
    shuts_down : Other s (shutdown s)
    starts :
        (before after : List Thread) (t : Thread)
        → s.thread_pool ≡ before ++ t ∷ after
        → Other s (record s { thread_pool = before ++ record t { running = has_task t } ∷ after })
    ends :
        (before after : List Thread) (t : Thread)
        → s.thread_pool ≡ before ++ t ∷ after
        → Other s
            (record s { thread_pool = before ++ record t { running = false; task = none } ∷ after })
    pops_too : Other s (record s { queue = (wait_for_and_pop s.queue none).0 })
    gives_too : (i : ℕ) (t : Task) → Other s (record s { thread_pool = give_at s.thread_pool i t })

  -- A run from `w` in which `startup` takes `n` steps, and other threads begin `c` calls of `startup`.
  -- A call of `set_task_and_run` returns, ends the program, or does neither.
  pub data Runs (w : Startup) : ℕ → ℕ → Startup → Type 0 where
    begins : Runs w 0 0 w
    by_itself :
        {n c : ℕ} {w' : Startup}
        → is_going w'.point ≡ true
        → Runs w n c w'
        → Runs w (suc n) c (loop_step w')
    call_returns :
        {n c : ℕ} {w' : Startup} (i : ℕ)
        → w'.point ≡ waits i
        → Runs w n c w'
        → Runs w n c (record w' { point = enters none })
    call_terminates :
        {n c : ℕ} {w' : Startup} (i : ℕ)
        → w'.point ≡ waits i
        → Runs w n c w'
        → Runs w n c (record w' { point = terminated })
    by_others :
        {n c : ℕ} {w' : Startup} (s : Scheduler)
        → Runs w n c w'
        → Other w'.scheduler s
        → Runs w n c (record w' { scheduler = s })
    called_again :
        {n c : ℕ} {w' : Startup}
        → Runs w n c w'
        → Runs w n (suc c) (record w' { scheduler = clears w'.scheduler })
