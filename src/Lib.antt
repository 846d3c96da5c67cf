-- ===== src/Lib.antt =====
-- A model of the library under lib/ and include/dag_scheduler/: directed acyclic graphs of tasks, and
-- the queue, the threads and the scheduler that run the tasks; the deserializer that makes a DAG from a
-- YAML document and loads the stages and callbacks of its tasks; the loggers; and the web service.
--
-- A DAG owns vertices, a vertex owns edges and a task, and an edge has a weak pointer to the vertex
-- that it leads to. `DAG::connect` refuses an edge that would close a cycle: it copies the graph, adds
-- the edge to the copy and sorts it. `dag_topological_sort` cuts the edges of the vertices that no edge
-- leads to, one vertex after another. A task is a list of stages; tasks are queued, and a thread runs
-- the stages of one. The deserializer makes vertices with their tasks and adds them to a DAG; the
-- libraries of stages and callbacks come from a registry. The web service accepts a connection, and a
-- session reads requests, calls the handler that the router has for the target, and writes the response.
--
-- Files and sources:
--   Uuid       include/dag_scheduler/uuid.h, lib/uuid.cxx
--   Task       lib/task.cxx: the state and `clone`; Task/Stages: `iterate_stages`, `kill`, `complete`;
--              Task/Create: the constructors, the moves and the documents
--   Stage      lib/task_stage.cxx, lib/base_task_stage.cxx and stages_lib/lib/print_stage.cxx
--   Vertex     lib/dag_vertex.cxx and lib/dag_edge.cxx: objects, copies, comparison; Members: the moves,
--              the assignments and the edges of a vertex
--   Dag        lib/dag.cxx: the graph on a heap of vertices, `connect_to`, `DAGVertex::connect`,
--              searches, `add_vertex`, `reset`; Members: the other members; Compare: `operator==`; the
--              other children hold the invariant and the lemmas
--   Sort       lib/dag_algorithms.cxx: the roots and `dag_topological_sort`
--   Clone      lib/dag.cxx: the copy constructor, `clone_connections`; Assign: the copy assignment;
--              Dangling: its end on an edge that has expired
--   Connect    lib/dag.cxx: `connection_would_make_cyclic`, `connect`, `are_connected` and variants
--   Print      the stream operators of stages, tasks, edges, vertices and DAGs; Depth: the depth of
--              the calls of that of a vertex
--   Process    lib/dag_algorithms.cxx: `process_dag`
--   Remove     lib/dag.cxx: `remove_vertex`, `remove_vertex_by_uuid`, `remove_all_vertex_with_label`
--   Queue      lib/concurrent_task_queue.cxx
--   Thread     lib/interruptible_task_thread.cxx: the run of a task; Start: `set_task_and_run` and
--              `shutdown` as steps of the caller and of the new thread; Moves: the moves
--   Graph      the abstract graph that a DAG stands for, and the calls on it
--   Scheduler  lib/task_scheduler.cxx; Startup: the loop of `startup`
--   StopWatch  lib/stop_watch.cxx
--   Loader     how the parts of the deserializer end: the result, or an exception by its class
--   Registry   lib/dynamic_library_registry.cxx
--   Deserializer  lib/dag_serialization.cxx; Samples: its sample texts
--   Service    lib/service_helpers.cxx (Responses), lib/endpoints.cxx (Endpoints, Files),
--              lib/workflow_service.cxx (Router, and Unordered: as a map), lib/https_session.cxx and the
--              listener (Session), the constructor of WorkflowService and the ConnectionInfo (Start)
--   Programs   bin/dag_serializer_main.cpp and bin/service_main.cpp
--   Logging    lib/logging.cxx, include/dag_scheduler/logging.h and logged_class.hpp
--   Externals  libuuid and the classes of plugins, as a record that the other modules take
--   Base       lists, tests and outcomes that all modules share; Tests: inputs and witnesses
--
-- State. An address is a number, and a DAG holds the addresses of its vertices, the objects at all
-- addresses, and counters for new addresses and new UUIDs; each operation returns the new state. A
-- shared_ptr is an address, and a weak_ptr is expired when the graph does not own its address. A call
-- ends in `ok`, in an exception, or in `fault`, a null pointer or a failed assert. A JSON document is
-- the text that its Writer gives. A counter of incoming edges is a size_t that wraps around at 2^64,
-- and a valid graph has fewer edges than that. Calls that hold a mutex are single steps. What other
-- threads write to the flags of a task or of a thread while it runs is a function of the time.
--
-- Fuel. The loop of the topological sort has as many rounds as there are vertices and edges, which is
-- enough on a linked graph: a vertex enters the queue at the start or for an edge that was cut. The loop
-- of `process_dag` has as many rounds as there are vertices, since each round removes one.
-- `TaskScheduler::startup` is a step relation and needs no fuel: its steps alternate with those of
-- other threads in any order, and so are the caller and the new thread of `set_task_and_run`. The
-- stream operator of a DAG has the depth of its calls as fuel; on a DAG with no cycle the number of
-- vertices is enough, which is the fuel of the text of the exception that `connect` throws. Another
-- thread's call of `startup`, and a call of `set_task_and_run` that does not return or that ends the
-- program, are steps of the relation of `startup`, too.
--
-- The deserializer is a function from the registry and the number of UUIDs drawn to these and a result
-- or an exception. The service is the list of its asynchronous operations that are outstanding, with
-- their completions as the steps of a relation. The loggers are the list of their sinks.
--
-- Not modelled: the texts of log messages and of exceptions, what the programs and PrintStage print,
-- and the handler of SIGINT. The virtual functions of stages are fields of a record, what they return,
-- and a callback plugin is a number. `TaskStage::cleanup`, a virtual function without a result, is
-- called for each stage that is listed as run; what it does is not modelled. Time and memory are not modelled, and freed objects stay on the
-- heap.
pub mod Base
pub mod Externals
pub mod Graph
pub mod Print
pub mod Uuid
pub mod Task
pub mod Stage
pub mod Vertex
pub mod Dag
pub mod Sort
pub mod Clone
pub mod Connect
pub mod Queue
pub mod Thread
pub mod Scheduler
pub mod Tests
pub mod Remove
pub mod Process
pub mod StopWatch
pub mod Loader
pub mod Yaml
pub mod Registry
pub mod Samples
pub mod Service
pub mod Programs
pub mod Logging
pub mod Deserializer
