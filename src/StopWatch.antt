-- ===== src/StopWatch.antt =====
-- lib/stop_watch.cxx. Each reading of the clock is an argument `now`, in nanoseconds.
use dag_scheduler.Base.{
  ℕ, ◌+◌, ◌-◌, ◌%◌, ◌^◌, ◌≡◌, refl, Bool, true, false, List, [], ◌∷◌, if◌then◌else◌,
}

-- The label and the log are left out.
pub record StopWatch : Type 0 where
  pub was_stopped : Bool
  pub was_started : Bool
  pub start_time : ℕ

unfoldable pub start : ℕ → StopWatch → StopWatch
start now s =
    if s.was_stopped
    then record { was_stopped = false; was_started = true; start_time = now }
    else s

-- The constructor reads the clock, and `start` reads it again.
unfoldable pub make_stop_watch : Bool → ℕ → ℕ → StopWatch
unfolding start
make_stop_watch start_on_construction now later =
    let s : StopWatch = record { was_stopped = true; was_started = false; start_time = now } in
    if start_on_construction then start later s else s

-- The copy and the move constructor take the label of the other, and start.
unfoldable pub copy_stop_watch : ℕ → StopWatch
unfolding start
copy_stop_watch now = start now (record { was_stopped = true; was_started = false; start_time = 0 })

-- The assignments, to a stop watch that exists.
unfoldable pub assign_stop_watch : StopWatch → ℕ → StopWatch
unfolding start
assign_stop_watch s now = start now (record s { was_stopped = true; was_started = false })

-- The duration that is returned, a count in 64 bits without a sign.
unfoldable pub print : StopWatch → ℕ → ℕ
print s stop = (stop + 2 ^ 64 - s.start_time % 2 ^ 64) % 2 ^ 64

-- What follows the `return` of the first branch is never run.
unfoldable pub stop : ℕ → StopWatch → StopWatch × ℕ
unfolding print
stop now s = (s, if s.was_started then print s now else print s s.start_time)

unfoldable pub mark : ℕ → StopWatch → ℕ
unfolding print
mark now s = if s.was_started then print s now else print s s.start_time

unfoldable pub reset_clock : ℕ → StopWatch → StopWatch
reset_clock now s = record s { start_time = now }

-- Calls of a stop watch, each with the time of the clock.
pub data ClockCall : Type 0 where
  starts stops resets : ℕ → ClockCall

unfoldable pub run_calls : StopWatch → List ClockCall → StopWatch
unfolding start stop reset_clock
run_calls s [] = s
run_calls s (ClockCall.starts now ∷ calls) = run_calls (start now s) calls
run_calls s (ClockCall.stops now ∷ calls) = run_calls (stop now s).0 calls
run_calls s (ClockCall.resets now ∷ calls) = run_calls (reset_clock now s) calls

-- The time of the last call of `reset`.
abbrev pub last_reset : List ClockCall → ℕ → ℕ
last_reset [] t = t
last_reset (ClockCall.starts now ∷ calls) t = last_reset calls t
last_reset (ClockCall.stops now ∷ calls) t = last_reset calls t
last_reset (ClockCall.resets now ∷ calls) t = last_reset calls now

abbrev pub running_since : ℕ → StopWatch
running_since t = record { was_stopped = false; was_started = true; start_time = t }

-- A stop watch that runs is never stopped: after any calls of `start`, `stop` and `reset` it runs,
-- and since the last `reset`, or since it was started if there was none.
pub run_calls_lem :
    (calls : List ClockCall) (t : ℕ)
    → run_calls (running_since t) calls ≡ running_since (last_reset calls t)
unfolding run_calls start stop reset_clock
run_calls_lem [] t = refl
run_calls_lem (ClockCall.starts now ∷ calls) t = run_calls_lem calls t
run_calls_lem (ClockCall.stops now ∷ calls) t = run_calls_lem calls t
run_calls_lem (ClockCall.resets now ∷ calls) t = run_calls_lem calls now
