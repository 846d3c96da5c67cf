-- ===== src/Thread/Start.antt =====
-- lib/interruptible_task_thread.cxx: `set_task_and_run` and `shutdown` as steps of the caller and of
-- the thread that it starts, with the condition variable between them.
use dag_scheduler.Base.{ℕ, Bool, true, false, Option, if◌then◌else◌, ◌≡◌}
use dag_scheduler.Task.{Task}
use dag_scheduler.Thread.{Thread, set_interrupt, has_task, threaded_func}

-- What the caller does next; `terminated` is `std::terminate`, which the assignment to a `std::thread`
-- calls that is joinable.
pub data Caller : Type 0 where
  gives_task : Option Task → Caller
  spawns : Caller
  locks : Caller
  waits : Caller
  returned : Bool → Caller
  tests_running : Caller
  joins : Caller
  shut_down : Caller
  terminated : Caller

-- What the new thread does next, `absent` before the first one.
pub data Child : Type 0 where
  absent begins notifies tests_task runs_stages ended : Child

-- `joinable` is that of `thread_`; `thread_started` is the local variable of the last call.
pub record Start : Type 0 where
  pub thread : Thread
  pub joinable : Bool
  pub thread_started : Bool
  pub caller : Caller
  pub child : Child

-- A call begins, on a thread that no other call is running on.
unfoldable pub calls_set_task_and_run : Start → Option Task → Start
calls_set_task_and_run s task = record s { thread_started = false; caller = gives_task task }

unfoldable pub calls_shutdown : Start → Start
calls_shutdown s = record s { caller = tests_running }

-- The end of the new thread, before which `join` waits.
abbrev pub is_ended : Child → Bool
is_ended absent = false
is_ended ended = true
is_ended c = false

unfoldable pub caller_step : Caller → Start → Start
unfolding set_interrupt
caller_step (gives_task t) s = record s { thread = record s.thread { task = t }; caller = spawns }
caller_step spawns s =
    if s.joinable
    then record s { caller = terminated }
    else record s { joinable = true; caller = locks; child = begins }
caller_step locks s = record s { caller = waits }
caller_step waits s = record s { caller = waits }
caller_step (returned b) s = record s { caller = returned b }
caller_step tests_running s =
    let thread = set_interrupt s.thread true in
    record s {
      thread = if s.thread.running then thread else s.thread;
      caller = if s.joinable then joins else shut_down;
    }
caller_step joins s =
    if is_ended s.child
    then record s { joinable = false; caller = shut_down }
    else record s { caller = joins }
caller_step shut_down s = record s { caller = shut_down }
caller_step terminated s = record s { caller = terminated }

-- `notify_one`: a caller that waits returns; without one, nothing is kept of it.
abbrev pub wake : Caller → Bool → Caller
wake waits started = returned started
wake c started = c

-- `interrupted` and `killed` say what other threads had written by each stage.
unfoldable pub child_step : Child → (ℕ → Bool) → (ℕ → Bool) → Start → Start
unfolding has_task threaded_func
child_step absent interrupted killed s = record s { child = absent }
child_step begins interrupted killed s = record s { thread_started = true; child = notifies }
child_step notifies interrupted killed s = record s {
  caller = wake s.caller s.thread_started;
  child = tests_task;
}
child_step tests_task interrupted killed s = record s {
  thread = record s.thread { running = if has_task s.thread then true else s.thread.running };
  child = if has_task s.thread then runs_stages else ended;
}
child_step runs_stages interrupted killed s = record s {
  thread = (threaded_func s.thread interrupted killed).0;
  child = ended;
}
child_step ended interrupted killed s = record s { child = ended }

-- Steps of the two in any order. A wait may end without a notification only where the flag says so.
pub data Steps (spurious : Bool) (s : Start) : Start → Type 0 where
  here : Steps spurious s s
  of_caller : {s' : Start} → Steps spurious s s' → Steps spurious s (caller_step s'.caller s')
  of_child :
      {s' : Start} (interrupted killed : ℕ → Bool)
      → Steps spurious s s'
      → Steps spurious s (child_step s'.child interrupted killed s')
  wakes :
      {s' : Start}
      → spurious ≡ true
      → s'.caller ≡ waits
      → Steps spurious s s'
      → Steps spurious s (record s' { caller = returned s'.thread_started })
