-- ===== src/Thread/Again.antt =====
-- A second call of `set_task_and_run` with no `shutdown` between the two.
use dag_scheduler.Base.{ℕ, Bool, true, false, Option, if◌then◌else◌, ◌≡◌, sym, ap, subst}
use dag_scheduler.Task.{Task}
use dag_scheduler.Thread.Start.{
  Caller, gives_task, spawns, locks, waits, returned, terminated, Child, absent, begins, notifies,
  tests_task, runs_stages, ended, Start, calls_set_task_and_run, caller_step, wake, child_step,
  Steps, here, of_caller, of_child, wakes,
}
use dag_scheduler.Thread.Returns.{IsQuiet, Fits, Steps-IsCall, begun-IsCall}

-- A caller that is bound to end in `std::terminate`.
abbrev Doomed : Caller → Type 0
Doomed (gives_task t) = Unit
Doomed spawns = Unit
Doomed terminated = Unit
Doomed c = ⊥

abbrev IsDoomed : Start → Type 0
IsDoomed s = (s.joinable ≡ true) × Doomed s.caller

terminates :
    (s : Start) → s.joinable ≡ true → caller_step spawns s ≡ record s { caller = terminated }
unfolding caller_step
terminates s e =
    ap
      (λ b.
        if b
        then record s { caller = terminated }
        else record s { joinable = true; caller = locks; child = begins })
      e

second_spawn : (s : Start) → s.joinable ≡ true → IsDoomed (caller_step spawns s)
second_spawn s e = subst IsDoomed (sym (terminates s e)) (e, tt)

caller_step-IsDoomed :
    (c : Caller) (s : Start) → s.joinable ≡ true → Doomed c → IsDoomed (caller_step c s)
unfolding caller_step
caller_step-IsDoomed (gives_task t) s e d = (e, tt)
caller_step-IsDoomed spawns s e d = second_spawn s e
caller_step-IsDoomed terminated s e d = (e, tt)
caller_step-IsDoomed c s e d = absurd d

wake-Doomed : (c : Caller) (started : Bool) → Doomed c → Doomed (wake c started)
wake-Doomed waits started d = absurd d
wake-Doomed c started d = d

child_step-IsDoomed :
    (k : Child) (i d : ℕ → Bool) (s : Start) → IsDoomed s → IsDoomed (child_step k i d s)
unfolding child_step
child_step-IsDoomed notifies i d s h = (h.0, wake-Doomed s.caller s.thread_started h.1)
child_step-IsDoomed absent i d s h = h
child_step-IsDoomed begins i d s h = h
child_step-IsDoomed tests_task i d s h = h
child_step-IsDoomed runs_stages i d s h = h
child_step-IsDoomed ended i d s h = h

not_waiting : (c : Caller) → c ≡ waits → ¬ Doomed c
not_waiting c e d = subst Doomed e d

Steps-IsDoomed : (spurious : Bool) (s s' : Start) → IsDoomed s → Steps spurious s s' → IsDoomed s'
Steps-IsDoomed spurious s s' h here = h
Steps-IsDoomed spurious s s' h (of_caller {s' = u} r) =
    let h' = Steps-IsDoomed spurious s u h r in caller_step-IsDoomed u.caller u h'.0 h'.1
Steps-IsDoomed spurious s s' h (of_child {s' = u} i d r) =
    child_step-IsDoomed u.child i d u (Steps-IsDoomed spurious s u h r)
Steps-IsDoomed spurious s s' h (wakes {s' = u} flag at r) =
    absurd (not_waiting u.caller at (Steps-IsDoomed spurious s u h r).1)

returned-Fits :
    (c : Caller) (b j : Bool) (k : Child) → c ≡ returned b → Fits c j k → (b ≡ true) × (j ≡ true)
returned-Fits c b j k e f = subst (λ x. Fits x j k) e f

-- On a thread that is not joinable and has no new thread, `set_task_and_run` returns true, if it
-- returns and its wait does not end without a notification; `thread_` is joinable then.
pub returned_lem :
    (s s' : Start) (t : Option Task) (b : Bool)
    → s.joinable ≡ false
    → IsQuiet s.child
    → Steps false (calls_set_task_and_run s t) s'
    → s'.caller ≡ returned b
    → (b ≡ true) × (s'.joinable ≡ true)
returned_lem s s' t b free quiet r at =
    let call = Steps-IsCall (calls_set_task_and_run s t) s' (begun-IsCall s t free quiet) r in
    returned-Fits s'.caller b s'.joinable s'.child at call.0

-- A second call of `set_task_and_run` after one that returned, with no `shutdown` between the two,
-- does not return, whatever steps follow: `thread_` is still joinable, and the assignment of a new
-- thread to it calls `std::terminate`. The thread was not joinable and had no new thread before the
-- first call, and the wait of that one did not end without a notification.
pub second_call :
    (s s' s'' : Start) (t t' : Option Task) (b b' spurious : Bool)
    → s.joinable ≡ false
    → IsQuiet s.child
    → Steps false (calls_set_task_and_run s t) s'
    → s'.caller ≡ returned b
    → Steps spurious (calls_set_task_and_run s' t') s''
    → ¬ (s''.caller ≡ returned b')
unfolding calls_set_task_and_run
second_call s s' s'' t t' b b' spurious free quiet r at again e =
    let (yielded, joinable) = returned_lem s s' t b free quiet r at in
    let doomed = Steps-IsDoomed spurious (calls_set_task_and_run s' t') s'' (joinable, tt) again in
    subst Doomed e doomed.1
