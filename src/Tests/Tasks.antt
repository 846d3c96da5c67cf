-- ===== src/Tests/Tasks.antt =====
-- Witnesses for the theorems on tasks, queues, threads, the scheduler and the stop watch.
use dag_scheduler.Base.{
  ℕ, ◌≡◌, ◌↔◌, refl, Bool, true, false, not, none, some, ok, map, List, [], ◌∷◌, ◌++◌, keep_if,
  ◌||◌,
}
use dag_scheduler.Externals.{TaskStage}
use dag_scheduler.Task.{Task}
use dag_scheduler.Task.Stages.{iterate_stages, iterate_stages_lem, RunsTo, AreGood, complete}
use dag_scheduler.Queue.{remove_task_from_queue}
use dag_scheduler.Queue.Order.{Call, pushed, serve, serve_lem}
use dag_scheduler.Queue.Removal.{is_match, last_match, remove_task_from_queue_lem}
use dag_scheduler.Thread.{
  ended_with, make_thread, run_stage, set_task_and_run, set_task_and_run_lem,
}
use dag_scheduler.StopWatch.{ClockCall, run_calls, running_since, last_reset, run_calls_lem}
use dag_scheduler.Tests.{sample}

-- A stage that runs and ends, and one that fails.
abbrev good_stage : TaskStage
good_stage = record { label = "good"; uuid = 11; run = true; ends = true }

abbrev bad_stage : TaskStage
bad_stage = record { label = "bad"; uuid = 12; run = false; ends = true }

abbrev pub task : ℕ → List TaskStage → Task
task uuid stages = record {
  iterating = false;
  kill = false;
  stages = stages;
  label = "task";
  complete_callback = some 5;
  complete_callback_plugin = none;
  uuid = uuid;
  json_config = none;
  json_initial_inputs = none;
}

abbrev pub mixed : Task
mixed = task 3 (good_stage ∷ bad_stage ∷ good_stage ∷ [])

-- The second of the three stages fails.
stops_at_second :
    iterate_stages mixed (λ n s. s.run) (λ n. false) ≡ (mixed, false, good_stage ∷ bad_stage ∷ [])
unfolding iterate_stages
stops_at_second = refl

iterates_mixed :
    (r : Bool × List TaskStage) × (iterate_stages mixed (λ n s. s.run) (λ n. false)
      ≡ (record mixed { iterating = false }, r.0, r.1))
    × RunsTo (λ n s. s.run) (λ n. false || false) 0 mixed.stages r
iterates_mixed = iterate_stages_lem mixed (λ n s. s.run) (λ n. false) refl

runs_mixed :
    (all_ran : Bool) × (set_task_and_run make_thread (some mixed) (λ n. false) (λ n. false)
      ≡ (ended_with make_thread (λ n. false) mixed.stages, all_ran, complete mixed all_ran))
    × ((all_ran ≡ true)
        ↔ AreGood (run_stage make_thread (λ n. false)) (λ n. false || false) 0 mixed.stages)
runs_mixed = set_task_and_run_lem make_thread mixed (λ n. false) (λ n. false) refl

abbrev calls : List Call
calls = Call.pops ∷ Call.pushes (some (task 1 [])) ∷ Call.pushes none ∷ Call.pops ∷ []

serves_calls :
    (serve (some mixed ∷ []) calls).1 ++ (serve (some mixed ∷ []) calls).0
    ≡ (some mixed ∷ []) ++ pushed calls
serves_calls = serve_lem calls (some mixed ∷ [])

abbrev three : List Task
three = task 1 [] ∷ task 2 [] ∷ task 1 (good_stage ∷ []) ∷ []

removes_first :
    remove_task_from_queue (map some three) 1 none
    ≡ ok (map some (keep_if (λ t. not (is_match 1 t)) three), last_match 1 three none)
removes_first = remove_task_from_queue_lem 1 three none

abbrev stop_then_start : List ClockCall
stop_then_start =
    ClockCall.stops 20 ∷ ClockCall.starts 30 ∷ ClockCall.resets 40 ∷ ClockCall.stops 50 ∷ []

never_stops :
    run_calls (running_since 10) stop_then_start ≡ running_since (last_reset stop_then_start 10)
never_stops = run_calls_lem stop_then_start 10
