-- ===== src/Scheduler/Kills.antt =====
-- `TaskScheduler::startup` after `shutdown`: the steps up to its return.
use dag_scheduler.Base.{ap, ℕ, ◌-◌, ◌≤◌, Bool, true, Option, none, some, ◌≡◌, ◌==◌, refl, arith}
use dag_scheduler.Externals.{Externals}
use dag_scheduler.Task.{Task}
use dag_scheduler.Queue.{Queue, wait_for_and_pop}
use dag_scheduler.Scheduler.{no_index, first_unused_thread}
use dag_scheduler.Scheduler.Startup.{
  Point, tests_kill, tests_should_get_next, tests_pause, pops, enters, tests_pause_inside, looks,
  tests_kill_again, gives, returned, Startup, step_at, loop_step, kill_and_free, give, popped, Runs,
  begins, by_itself, by_others, waits, terminated, call_returns, call_terminates, is_going,
}
use dag_scheduler.Scheduler.Once.{if_cases, kill-Other}

-- The steps up to the return at most, once `kill_` is set.
abbrev steps_left : Point → ℕ
steps_left tests_kill = 1
steps_left tests_should_get_next = 2
steps_left tests_pause = 4
steps_left pops = 3
steps_left (enters t) = 2
steps_left (tests_pause_inside t) = 4
steps_left (looks t) = 3
steps_left (tests_kill_again i t) = 2
steps_left (gives i t) = 4
steps_left (waits i) = 3
steps_left terminated = 3
steps_left returned = 0

-- At most `n` steps are left, and `kill_` is set.
abbrev HasLeft : ℕ → Startup → Type 0
HasLeft n w = (w.scheduler.kill ≡ true) × (steps_left w.point ≤ n)

kill_and_free-HasLeft :
    (w : Startup) (t : Option Task) → w.scheduler.kill ≡ true → HasLeft 1 (kill_and_free w t)
unfolding kill_and_free
kill_and_free-HasLeft w none e = (e, omega arith)
kill_and_free-HasLeft w (some t) e = (e, omega arith)

give-HasLeft :
    (w : Startup) (i : ℕ) (t : Option Task) → w.scheduler.kill ≡ true → HasLeft 3 (give w i t)
unfolding give
give-HasLeft w i none e = (e, omega arith)
give-HasLeft w i (some t) e = (e, omega arith)

popped-HasLeft :
    (w : Startup) (r : Queue × Option Task × Bool)
    → w.scheduler.kill ≡ true
    → HasLeft 2 (popped w r)
unfolding popped
popped-HasLeft w (queue, none, ret) e = (e, omega arith)
popped-HasLeft w (queue, some t, ret) e = (e, omega arith)

step_at-HasLeft :
    (p : Point) (w : Startup)
    → w.scheduler.kill ≡ true
    → is_going p ≡ true
    → HasLeft (steps_left p - 1) (step_at p w)
unfolding step_at
step_at-HasLeft tests_kill w e on =
    if_cases (λ p. HasLeft 0 (record w { point = p })) w.scheduler.kill (λ t. (e, omega arith))
      (λ f. absurd (ground (arith, e, f)))
step_at-HasLeft tests_should_get_next w e on =
    if_cases (λ p. HasLeft 1 (record w { point = p })) w.scheduler.kill (λ t. (e, omega arith))
      (λ f. absurd (ground (arith, e, f)))
step_at-HasLeft tests_pause w e on =
    if_cases (λ p. HasLeft 3 (record w { point = p })) w.scheduler.pause (λ t. (e, omega arith))
      (λ f. (e, omega arith))
step_at-HasLeft pops w e on = popped-HasLeft w (wait_for_and_pop w.scheduler.queue none) e
step_at-HasLeft (enters t) w e on =
    if_cases (HasLeft 1) w.scheduler.kill (λ h. kill_and_free-HasLeft w t e)
      (λ f. absurd (ground (arith, e, f)))
step_at-HasLeft (tests_pause_inside t) w e on =
    if_cases (λ p. HasLeft 3 (record w { point = p })) w.scheduler.pause (λ h. (e, omega arith))
      (λ f. (e, omega arith))
step_at-HasLeft (looks t) w e on =
    if_cases (λ p. HasLeft 2 (record w { point = p })) (first_unused_thread w.scheduler == no_index)
      (λ h. (e, omega arith)) (λ f. (e, omega arith))
step_at-HasLeft (tests_kill_again i t) w e on =
    if_cases (HasLeft 1) w.scheduler.kill (λ h. kill_and_free-HasLeft w t e)
      (λ f. absurd (ground (arith, e, f)))
step_at-HasLeft (gives i t) w e on = give-HasLeft w i t e
step_at-HasLeft (waits i) w e on = cc on
step_at-HasLeft terminated w e on = cc on
step_at-HasLeft returned w e on = (e, omega arith)

none_left : (p : Point) → steps_left p ≤ 0 → p ≡ returned
none_left tests_kill h = absurd (omega (arith, h))
none_left tests_should_get_next h = absurd (omega (arith, h))
none_left tests_pause h = absurd (omega (arith, h))
none_left pops h = absurd (omega (arith, h))
none_left (enters t) h = absurd (omega (arith, h))
none_left (tests_pause_inside t) h = absurd (omega (arith, h))
none_left (looks t) h = absurd (omega (arith, h))
none_left (tests_kill_again i t) h = absurd (omega (arith, h))
none_left (gives i t) h = absurd (omega (arith, h))
none_left (waits i) h = absurd (omega (arith, h))
none_left terminated h = absurd (omega (arith, h))
none_left returned h = refl

four : (p : Point) → steps_left p ≤ 4
four tests_kill = omega arith
four tests_should_get_next = omega arith
four tests_pause = omega arith
four pops = omega arith
four (enters t) = omega arith
four (tests_pause_inside t) = omega arith
four (looks t) = omega arith
four (tests_kill_again i t) = omega arith
four (gives i t) = omega arith
four (waits i) = omega arith
four terminated = omega arith
four returned = omega arith

module _ ⦃env : Externals⦄ where
  Runs-HasLeft :
      (w w' : Startup) (n : ℕ) → w.scheduler.kill ≡ true → Runs w n 0 w' → HasLeft (4 - n) w'
  unfolding loop_step
  Runs-HasLeft w w' n e begins = (e, four w.point)
  Runs-HasLeft w w' n e (by_itself {n = m} {w' = v} going r) =
      let (kill, left) = Runs-HasLeft w v m e r in
      let (kill', left') = step_at-HasLeft v.point v kill going in
      (kill', omega (arith, left, left'))
  Runs-HasLeft w w' n e (call_returns {w' = v} i at r) =
      let (kill, left) = Runs-HasLeft w v n e r in (kill, omega (arith, left, ap steps_left at))
  Runs-HasLeft w w' n e (call_terminates {w' = v} i at r) =
      let (kill, left) = Runs-HasLeft w v n e r in (kill, omega (arith, left, ap steps_left at))
  Runs-HasLeft w w' n e (by_others {w' = v} s r o) =
      let (kill, left) = Runs-HasLeft w v n e r in (kill-Other v.scheduler s o kill, left)

  -- Once `kill_` is set, and while no other thread calls `startup`, which would clear it, `startup` has
  -- returned after four of its own steps, wherever its loop stands and whatever else other threads do
  -- between the steps. In a call of `set_task_and_run` it takes no steps until the call returns, which
  -- it need not do; of a run in which that happens, nothing is said.
  pub Runs-returned :
      (w w' : Startup) (n : ℕ)
      → w.scheduler.kill ≡ true
      → Runs w n 0 w'
      → 4 ≤ n
      → w'.point ≡ returned
  Runs-returned w w' n e r enough =
      none_left w'.point (omega (arith, enough, (Runs-HasLeft w w' n e r).1))
