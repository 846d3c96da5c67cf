-- ===== src/Tests/Stages.antt =====
-- Witnesses for the theorems on stages.
use dag_scheduler.Base.{◌≡◌, refl, arith, true, false, [], ◌∷◌, none, some, ok, map}
use dag_scheduler.Task.{Task}
use dag_scheduler.Task.Stages.{complete}
use dag_scheduler.Thread.{make_thread, set_task_and_run}
use dag_scheduler.Print.{stage_text}
use dag_scheduler.Stage.{PrintStage, print_stage, members_eq, clone_print_stage}
use dag_scheduler.Stage.Copies.{clone_print_stage_lem}
use dag_scheduler.Stage.Runs.{never, prints_all}
use dag_scheduler.Tests.{sample}
use dag_scheduler.Tests.Tasks.{task}

abbrev hello : PrintStage
hello = record { members = record { label = "hello"; uuid = 7 }; running = false }

clones_hello :
    (copy : PrintStage) × (clone_print_stage true hello ≡ ok copy)
    × (members_eq hello.members copy.members ≡ true)
    × (stage_text (print_stage copy) ≡ stage_text (print_stage hello))
clones_hello = clone_print_stage_lem true hello (λ e. omega (arith, e))

abbrev printing : Task
printing = task 5 (map print_stage (hello ∷ hello ∷ []))

prints_hello :
    set_task_and_run make_thread (some printing) never never
    ≡ (record make_thread { running = false; task = none }, true, complete printing true)
unfolding make_thread
prints_hello = prints_all make_thread printing (hello ∷ hello ∷ []) refl refl refl refl
