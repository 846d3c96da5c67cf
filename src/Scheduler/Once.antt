-- ===== src/Scheduler/Once.antt =====
-- `TaskScheduler::startup`: how many tasks it takes from the queue.
use dag_scheduler.Base.{
  suc, subst, ℕ, ◌+◌, ◌≤◌, Bool, true, false, Option, none, some, Outcome, ok, fault, out_of_fuel,
  throws, ◌>>=◌, ok-injective, ◌∙◌, length, ◌≡◌, ◌==◌, if◌then◌else◌, refl, ap, sym, arith,
}
use dag_scheduler.Externals.{Externals}
use dag_scheduler.Task.{Task}
use dag_scheduler.Queue.{Queue, remove_task_from_queue, wait_for_and_pop}
use dag_scheduler.Scheduler.{
  no_index, first_unused_thread, Scheduler, queue_task, pause, resume, shutdown, kill_task,
}
use dag_scheduler.Scheduler.Startup.{
  Point, tests_kill, tests_should_get_next, tests_pause, pops, enters, tests_pause_inside, looks,
  tests_kill_again, gives, returned, Startup, step_at, loop_step, startup, kill_and_free, give,
  popped, Other, queues, pauses, resumes, kills, shuts_down, starts, ends, Runs, begins, by_itself,
  by_others, waits, terminated, pops_too, gives_too, call_returns, call_terminates, called_again,
  clears,
}

-- The tasks that were given to threads or freed.
abbrev pub taken : Startup → ℕ
taken w = length w.given + length w.freed

abbrev held : Option Task → ℕ
held none = 0
held (some t) = 1

-- The tasks that `n` counts at a point, while others have called `startup` `c` times.
abbrev Allows : Point → Bool → ℕ → ℕ → Type 0
Allows tests_kill k n c = (n ≤ 1 + c) × (k ≡ false → n ≤ c)
Allows tests_should_get_next k n c = n ≤ c
Allows tests_pause k n c = n ≤ c
Allows pops k n c = n ≤ c
Allows (enters t) k n c = n + held t ≤ 1 + c
Allows (tests_pause_inside t) k n c = n + held t ≤ 1 + c
Allows (looks t) k n c = n + held t ≤ 1 + c
Allows (tests_kill_again i t) k n c = n + held t ≤ 1 + c
Allows (gives i t) k n c = n + held t ≤ 1 + c
Allows (waits i) k n c = n ≤ 1 + c
Allows terminated k n c = n ≤ 1 + c
Allows returned k n c = n ≤ 1 + c

abbrev IsAllowed : ℕ → Startup → Type 0
IsAllowed c w = Allows w.point w.scheduler.kill (taken w) c

kill_and_free-IsAllowed :
    (c : ℕ) (w : Startup) (t : Option Task)
    → w.scheduler.kill ≡ true
    → taken w + held t ≤ 1 + c
    → IsAllowed c (kill_and_free w t)
unfolding kill_and_free
kill_and_free-IsAllowed c w none e h = (omega (arith, h), λ f. absurd (ground (arith, e, f)))
kill_and_free-IsAllowed c w (some t) e h = (omega (arith, h), λ f. absurd (ground (arith, e, f)))

give-IsAllowed :
    (c : ℕ) (w : Startup) (i : ℕ) (t : Option Task)
    → taken w + held t ≤ 1 + c
    → IsAllowed c (give w i t)
unfolding give
give-IsAllowed c w i none h = h
give-IsAllowed c w i (some t) h = omega (arith, h)

popped-IsAllowed :
    (c : ℕ) (w : Startup) (r : Queue × Option Task × Bool) → taken w ≤ c → IsAllowed c (popped w r)
unfolding popped
popped-IsAllowed c w (queue, none, ret) h = (omega (arith, h), λ f. h)
popped-IsAllowed c w (queue, some t, ret) h = omega (arith, h)

pub if_cases :
    {A : Type 0} (P : A → Type 0) (b : Bool) {x y : A}
    → (b ≡ true → P x)
    → (b ≡ false → P y)
    → P (if b then x else y)
if_cases P true holds fails = holds refl
if_cases P false holds fails = fails refl

step_at-IsAllowed :
    (c : ℕ) (p : Point) (w : Startup)
    → Allows p w.scheduler.kill (taken w) c
    → IsAllowed c (step_at p w)
unfolding step_at
step_at-IsAllowed c tests_kill w h =
    if_cases (λ p. IsAllowed c (record w { point = p })) w.scheduler.kill (λ e. h.0) h.1
step_at-IsAllowed c tests_should_get_next w h =
    if_cases (λ p. IsAllowed c (record w { point = p })) w.scheduler.kill
      (λ e. (omega (arith, h), λ f. h)) (λ e. h)
step_at-IsAllowed c tests_pause w h =
    if_cases (λ p. IsAllowed c (record w { point = p })) w.scheduler.pause
      (λ e. (omega (arith, h), λ f. h)) (λ e. h)
step_at-IsAllowed c pops w h = popped-IsAllowed c w (wait_for_and_pop w.scheduler.queue none) h
step_at-IsAllowed c (enters t) w h =
    if_cases (IsAllowed c) w.scheduler.kill (λ e. kill_and_free-IsAllowed c w t e h) (λ e. h)
step_at-IsAllowed c (tests_pause_inside t) w h =
    if_cases (λ p. IsAllowed c (record w { point = p })) w.scheduler.pause (λ e. h) (λ e. h)
step_at-IsAllowed c (looks t) w h =
    if_cases (λ p. IsAllowed c (record w { point = p }))
      (first_unused_thread w.scheduler == no_index) (λ e. h) (λ e. h)
step_at-IsAllowed c (tests_kill_again i t) w h =
    if_cases (IsAllowed c) w.scheduler.kill (λ e. kill_and_free-IsAllowed c w t e h) (λ e. h)
step_at-IsAllowed c (gives i t) w h = give-IsAllowed c w i t h
step_at-IsAllowed c (waits i) w h = h
step_at-IsAllowed c terminated w h = h
step_at-IsAllowed c returned w h = h

later :
    (p : Point) (k k' : Bool) (n c : ℕ) → (k ≡ true → k' ≡ true) → Allows p k n c → Allows p k' n c
later tests_kill k k' n c kept h = (h.0, λ f. ground (arith, h.1, kept, f))
later tests_should_get_next k k' n c kept h = h
later tests_pause k k' n c kept h = h
later pops k k' n c kept h = h
later (enters t) k k' n c kept h = h
later (tests_pause_inside t) k k' n c kept h = h
later (looks t) k k' n c kept h = h
later (tests_kill_again i t) k k' n c kept h = h
later (gives i t) k k' n c kept h = h
later (waits i) k k' n c kept h = h
later terminated k k' n c kept h = h
later returned k k' n c kept h = h

-- Another call of `startup` allows one task more.
again : (p : Point) (k k' : Bool) (n c : ℕ) → Allows p k n c → Allows p k' n (suc c)
again tests_kill k k' n c h = (omega (arith, h.0), λ f. omega (arith, h.0))
again tests_should_get_next k k' n c h = omega (arith, h)
again tests_pause k k' n c h = omega (arith, h)
again pops k k' n c h = omega (arith, h)
again (enters t) k k' n c h = omega (arith, h)
again (tests_pause_inside t) k k' n c h = omega (arith, h)
again (looks t) k k' n c h = omega (arith, h)
again (tests_kill_again i t) k k' n c h = omega (arith, h)
again (gives i t) k k' n c h = omega (arith, h)
again (waits i) k k' n c h = omega (arith, h)
again terminated k k' n c h = omega (arith, h)
again returned k k' n c h = omega (arith, h)

module _ ⦃env : Externals⦄ where
  kill_after :
      (s s' : Scheduler) (ret : Bool) (removed : Outcome (Queue × Option Task))
      → ◌>>=◌ {B = Scheduler × Bool} removed (λ (q, to_kill). ok (record s { queue = q }, true))
        ≡ ok (s', ret)
      → s'.kill ≡ s.kill
  kill_after s s' ret (ok (q, to_kill)) done =
      ap (λ (r : Scheduler × Bool). r.0.kill) (sym (ok-injective done))
  kill_after s s' ret fault done = cc
  kill_after s s' ret out_of_fuel done = cc
  kill_after s s' ret throws done = cc

  -- No other thread clears `kill_` but by a call of `startup`.
  pub kill-Other : (s s' : Scheduler) → Other s s' → s.kill ≡ true → s'.kill ≡ true
  unfolding queue_task pause resume shutdown kill_task
  kill-Other s s' (queues t) e = e
  kill-Other s s' pauses e = e
  kill-Other s s' resumes e = e
  kill-Other s s' (kills u s'' ret done) e =
      kill_after s s' ret (remove_task_from_queue s.queue u none) done ∙ e
  kill-Other s s' shuts_down e = refl
  kill-Other s s' (starts before after t pool) e = e
  kill-Other s s' (ends before after t pool) e = e
  kill-Other s s' pops_too e = e
  kill-Other s s' (gives_too i t) e = e

  Runs-IsAllowed : (w w' : Startup) (n c : ℕ) → IsAllowed 0 w → Runs w n c w' → IsAllowed c w'
  unfolding loop_step clears
  Runs-IsAllowed w w' n c h begins = h
  Runs-IsAllowed w w' n c h (by_itself {n = m} {w' = v} going r) =
      step_at-IsAllowed c v.point v (Runs-IsAllowed w v m c h r)
  Runs-IsAllowed w w' n c h (call_returns {w' = v} i at r) =
      let before =
        subst (λ p. Allows p v.scheduler.kill (taken v) c) at (Runs-IsAllowed w v n c h r) in
      omega (arith, before)
  Runs-IsAllowed w w' n c h (call_terminates {w' = v} i at r) =
      subst (λ p. Allows p v.scheduler.kill (taken v) c) at (Runs-IsAllowed w v n c h r)
  Runs-IsAllowed w w' n c h (by_others {w' = v} s r o) =
      later v.point v.scheduler.kill s.kill (taken v) c (kill-Other v.scheduler s o)
        (Runs-IsAllowed w v n c h r)
  Runs-IsAllowed w w' n c h (called_again {c = b} {w' = v} r) =
      again v.point v.scheduler.kill false (taken v) b (Runs-IsAllowed w v n b h r)

  at_most : (p : Point) (k : Bool) (n c : ℕ) → Allows p k n c → n ≤ 1 + c
  at_most tests_kill k n c h = h.0
  at_most tests_should_get_next k n c h = omega (arith, h)
  at_most tests_pause k n c h = omega (arith, h)
  at_most pops k n c h = omega (arith, h)
  at_most (enters t) k n c h = omega (arith, h)
  at_most (tests_pause_inside t) k n c h = omega (arith, h)
  at_most (looks t) k n c h = omega (arith, h)
  at_most (tests_kill_again i t) k n c h = omega (arith, h)
  at_most (gives i t) k n c h = omega (arith, h)
  at_most (waits i) k n c h = omega (arith, h)
  at_most terminated k n c h = omega (arith, h)
  at_most returned k n c h = omega (arith, h)

  -- However the steps of other threads fall between those of a call of `startup`, it gives at most one
  -- task to a thread or frees at most one task, and not both, unless other threads call `startup`,
  -- which clears `kill_`: each of these calls allows at most one task more.
  pub startup-Runs :
      (s : Scheduler) (n c : ℕ) (w : Startup) → Runs (startup s) n c w → taken w ≤ 1 + c
  unfolding startup
  startup-Runs s n c w r =
      at_most w.point w.scheduler.kill (taken w) c
        (Runs-IsAllowed (startup s) w n c (omega arith, λ f. omega arith) r)
