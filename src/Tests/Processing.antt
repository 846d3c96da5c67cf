-- ===== src/Tests/Processing.antt =====
-- Witnesses for the theorems on `process_dag`.
use dag_scheduler.Base.{[]}
use dag_scheduler.Scheduler.{make_scheduler}
use dag_scheduler.Connect.Reach.{Reached-IsSound}
use dag_scheduler.Process.Ends.{Queues, process_dag_lem}
use dag_scheduler.Tests.{sample, pair, pair-Reached}

processes_pair : Queues pair [] make_scheduler
processes_pair = process_dag_lem pair [] make_scheduler (Reached-IsSound pair pair-Reached)
