-- ===== src/Thread/Wakes.antt =====
-- `set_task_and_run`: the wait for the new thread, and a second call.
use mathlib.Core.Bool.{false≢true}
use dag_scheduler.Base.{ℕ, Bool, true, false, Option, if◌then◌else◌, ◌≡◌, ap, subst}
use dag_scheduler.Task.{Task}
use dag_scheduler.Thread.{has_task}
use dag_scheduler.Thread.Start.{
  Caller, gives_task, spawns, locks, waits, returned, tests_running, joins, shut_down, terminated,
  Child, absent, begins, notifies, tests_task, runs_stages, ended, Start, calls_set_task_and_run,
  caller_step, child_step, Steps, here, of_caller, of_child, wakes,
}

-- The new thread has called `notify_one`.
abbrev Notified : Child → Type 0
Notified absent = ⊥
Notified begins = ⊥
Notified notifies = ⊥
Notified tests_task = Unit
Notified runs_stages = Unit
Notified ended = Unit

-- The caller has started the thread and is before the end of its wait.
abbrev Waits : Caller → Type 0
Waits (gives_task t) = ⊥
Waits spawns = ⊥
Waits locks = Unit
Waits waits = Unit
Waits (returned b) = ⊥
Waits tests_running = ⊥
Waits joins = ⊥
Waits shut_down = ⊥
Waits terminated = ⊥

abbrev IsLost : Start → Type 0
IsLost s = Waits s.caller × Notified s.child

if_Notified : (b : Bool) → Notified (if b then runs_stages else ended)
if_Notified true = tt
if_Notified false = tt

caller_step-IsLost :
    (c : Caller) (s : Start) → Waits c → Notified s.child → IsLost (caller_step c s)
unfolding caller_step
caller_step-IsLost locks s w n = (tt, n)
caller_step-IsLost waits s w n = (tt, n)
caller_step-IsLost c s w n = absurd w

child_step-IsLost :
    (c : Child) (i k : ℕ → Bool) (s : Start)
    → Waits s.caller
    → Notified c
    → IsLost (child_step c i k s)
unfolding child_step
child_step-IsLost tests_task i k s w n = (w, if_Notified (has_task s.thread))
child_step-IsLost runs_stages i k s w n = (w, tt)
child_step-IsLost ended i k s w n = (w, tt)
child_step-IsLost c i k s w n = absurd n

Steps-IsLost : (s s' : Start) → IsLost s → Steps false s s' → IsLost s'
Steps-IsLost s s' l here = l
Steps-IsLost s s' l (of_caller {s' = u} r) =
    let l' = Steps-IsLost s u l r in caller_step-IsLost u.caller u l'.0 l'.1
Steps-IsLost s s' l (of_child {s' = u} i k r) =
    let l' = Steps-IsLost s u l r in child_step-IsLost u.child i k u l'.0 l'.1
Steps-IsLost s s' l (wakes flag at r) = absurd (false≢true flag)

not_waiting : (c : Caller) (b : Bool) → Waits c → ¬ (c ≡ returned b)
not_waiting locks b w e = cc
not_waiting waits b w e = cc
not_waiting c b w e = absurd w

pub spawned :
    (s : Start)
    → s.joinable ≡ false
    → caller_step spawns s ≡ record s { joinable = true; caller = locks; child = begins }
unfolding caller_step
spawned s free =
    ap
      (λ b.
        if b
        then record s { caller = terminated }
        else record s { joinable = true; caller = locks; child = begins })
      free

-- For each call of `set_task_and_run` on a thread that is not joinable there is an interleaving after
-- which the call does not return, whatever steps follow, unless its wait ends without a notification:
-- the new thread calls `notify_one` before the caller waits.
pub wakeup_lost :
    (s : Start) (t : Option Task)
    → s.joinable ≡ false
    → (s' : Start) × Steps false (calls_set_task_and_run s t) s'
      × ((s'' : Start) (b : Bool) → Steps false s' s'' → ¬ (s''.caller ≡ returned b))
unfolding calls_set_task_and_run caller_step child_step
wakeup_lost s t free =
    let s0 = calls_set_task_and_run s t in
    let idle = λ (n : ℕ). false in
    let s1 = caller_step (gives_task t) s0 in
    let s2 = record s1 { joinable = true; caller = locks; child = begins } in
    let s4 = child_step notifies idle idle (child_step begins idle idle s2) in
    let r1 : Steps false s0 s1 = of_caller here in
    let r2 : Steps false s0 s2 = subst (Steps false s0) (spawned s1 free) (of_caller r1) in
    let r4 : Steps false s0 s4 = of_child idle idle (of_child idle idle r2) in
    (s4, r4, λ s'' b r e. not_waiting s''.caller b (Steps-IsLost s4 s'' (tt, tt) r).0 e)
