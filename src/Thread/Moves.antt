-- ===== src/Thread/Moves.antt =====
-- lib/interruptible_task_thread.cxx: the move constructor and the move assignment. Neither moves
-- `thread_`, and the task is a std::unique_ptr.
use dag_scheduler.Base.{false, none, Outcome, ok, fault, if◌then◌else◌, ◌≡◌}
use dag_scheduler.Thread.{Thread}
use dag_scheduler.Thread.Start.{
  Caller, waits, returned, locks, Child, absent, begins, notifies, tests_task, runs_stages, Start,
}

-- The new thread and what is left of `other`.
unfoldable pub move_thread : Thread → Outcome (Thread × Thread)
move_thread other =
    if other.running
    then fault
    else ok (
      record { interrupt = false; running = false; task = other.task },
      record other { task = none },
    )

-- The thread that is assigned to, whose task is dropped, and what is left of `rhs`.
unfoldable pub assign_thread : Thread → Thread → Outcome (Thread × Thread)
assign_thread self rhs =
    if rhs.running
    then fault
    else ok (
      record self { interrupt = false; running = false; task = rhs.task },
      record rhs { task = none },
    )

-- The new thread has not looked at the task.
abbrev pub IsEarly : Child → Type 0
IsEarly begins = Unit
IsEarly notifies = Unit
IsEarly tests_task = Unit
IsEarly c = ⊥

-- The new thread runs no stages and is not about to.
abbrev IsIdle : Child → Type 0
IsIdle absent = Unit
IsIdle runs_stages = ⊥
IsIdle c = Unit

-- The caller is in its call behind the start of the new thread, or the call has returned.
abbrev pub IsQuiet : Caller → Type 0
IsQuiet locks = Unit
IsQuiet waits = Unit
IsQuiet (returned b) = Unit
IsQuiet c = ⊥

abbrev IsLost : Start → Type 0
IsLost s = IsIdle s.child × IsQuiet s.caller × (s.thread.task ≡ none) × (s.thread.running ≡ false)
