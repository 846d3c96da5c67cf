-- ===== src/Thread/Returns.antt =====
-- `set_task_and_run`: what holds when it returns.
use mathlib.Core.Bool.{false≢true}
use dag_scheduler.Base.{ℕ, Bool, true, false, Option, if◌then◌else◌, ◌≡◌, refl, sym, subst}
use dag_scheduler.Task.{Task}
use dag_scheduler.Thread.{has_task}
use dag_scheduler.Thread.Start.{
  Caller, gives_task, spawns, locks, waits, returned, Child, absent, begins, notifies, tests_task,
  runs_stages, ended, Start, calls_set_task_and_run, caller_step, wake, child_step, Steps, here,
  of_caller, of_child, wakes,
}
use dag_scheduler.Thread.Wakes.{spawned}

-- There is no new thread.
abbrev pub IsQuiet : Child → Type 0
IsQuiet absent = Unit
IsQuiet begins = ⊥
IsQuiet notifies = ⊥
IsQuiet tests_task = ⊥
IsQuiet runs_stages = ⊥
IsQuiet ended = Unit

-- The caller of `set_task_and_run`, with `joinable` and the new thread.
abbrev pub Fits : Caller → Bool → Child → Type 0
Fits (gives_task t) j k = (j ≡ false) × IsQuiet k
Fits spawns j k = (j ≡ false) × IsQuiet k
Fits locks j k = j ≡ true
Fits waits j k = j ≡ true
Fits (returned b) j k = (b ≡ true) × (j ≡ true)
Fits c j k = ⊥

abbrev pub Heard : Child → Bool → Type 0
Heard notifies started = started ≡ true
Heard k started = Unit

abbrev pub IsCall : Start → Type 0
IsCall s = Fits s.caller s.joinable s.child × Heard s.child s.thread_started

moved : (c : Caller) (j : Bool) (k k' : Child) → (¬ IsQuiet k) → Fits c j k → Fits c j k'
moved (gives_task t) j k k' busy f = absurd (busy f.1)
moved spawns j k k' busy f = absurd (busy f.1)
moved locks j k k' busy f = f
moved waits j k k' busy f = f
moved (returned b) j k k' busy f = f
moved c j k k' busy f = absurd f

wake-Fits :
    (c : Caller) (j : Bool) (started : Bool)
    → started ≡ true
    → Fits c j notifies
    → Fits (wake c started) j tests_task
wake-Fits waits j started e f = (e, f)
wake-Fits (gives_task t) j started e f = absurd f.1
wake-Fits spawns j started e f = absurd f.1
wake-Fits locks j started e f = f
wake-Fits (returned b) j started e f = f
wake-Fits c j started e f = absurd f

after_spawn : (s : Start) → s.joinable ≡ false → IsCall (caller_step spawns s)
after_spawn s free = subst IsCall (sym (spawned s free)) (refl, tt)

caller_step-IsCall :
    (c : Caller) (s : Start)
    → Fits c s.joinable s.child
    → Heard s.child s.thread_started
    → IsCall (caller_step c s)
unfolding caller_step
caller_step-IsCall (gives_task t) s f h = (f, h)
caller_step-IsCall spawns s f h = after_spawn s f.0
caller_step-IsCall locks s f h = (f, h)
caller_step-IsCall waits s f h = (f, h)
caller_step-IsCall (returned b) s f h = (f, h)
caller_step-IsCall c s f h = absurd f

branched :
    (b : Bool) (c : Caller) (j started : Bool)
    → Fits c j tests_task
    → Fits c j (if b then runs_stages else ended) × Heard (if b then runs_stages else ended) started
branched true c j started f = (moved c j tests_task runs_stages (λ q. q) f, tt)
branched false c j started f = (moved c j tests_task ended (λ q. q) f, tt)

child_step-IsCall :
    (k : Child) (i d : ℕ → Bool) (s : Start)
    → Fits s.caller s.joinable k
    → Heard k s.thread_started
    → IsCall (child_step k i d s)
unfolding child_step
child_step-IsCall absent i d s f h = (f, h)
child_step-IsCall begins i d s f h = (moved s.caller s.joinable begins notifies (λ q. q) f, refl)
child_step-IsCall notifies i d s f h = (wake-Fits s.caller s.joinable s.thread_started h f, tt)
child_step-IsCall tests_task i d s f h =
    branched (has_task s.thread) s.caller s.joinable s.thread_started f
child_step-IsCall runs_stages i d s f h =
    (moved s.caller s.joinable runs_stages ended (λ q. q) f, tt)
child_step-IsCall ended i d s f h = (f, h)

pub Steps-IsCall : (s s' : Start) → IsCall s → Steps false s s' → IsCall s'
Steps-IsCall s s' l here = l
Steps-IsCall s s' l (of_caller {s' = u} r) =
    let l' = Steps-IsCall s u l r in caller_step-IsCall u.caller u l'.0 l'.1
Steps-IsCall s s' l (of_child {s' = u} i d r) =
    let l' = Steps-IsCall s u l r in child_step-IsCall u.child i d u l'.0 l'.1
Steps-IsCall s s' l (wakes flag at r) = absurd (false≢true flag)

pub begun-IsCall :
    (s : Start) (t : Option Task)
    → s.joinable ≡ false
    → IsQuiet s.child
    → IsCall (calls_set_task_and_run s t)
unfolding calls_set_task_and_run
begun-IsCall s t free quiet = ((free, quiet), silent s.child quiet)
  where
    silent : (k : Child) → IsQuiet k → Heard k false
    silent absent q = tt
    silent ended q = tt
    silent k q = absurd q
