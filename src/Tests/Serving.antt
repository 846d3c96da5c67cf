-- ===== src/Tests/Serving.antt =====
-- Witnesses for the theorems on the web service and on the loggers.
use mathlib.Core.Quot.{Quot}
use dag_scheduler.Base.{
  none, ◌+◌, ◌≤◌, ◌≡◌, ◌≢◌, refl, true, false, [], ◌∷◌, ◌++◌, some, if◌then◌else◌, str_eq, length,
  leb, arith,
}
use dag_scheduler.Service.{Verb, Request, Opened, Contents, Beast, Effects}
use dag_scheduler.Service.Endpoints.{Handler, handle_request}
use dag_scheduler.Service.Files.{IsAnswered, handle_request_lem}
use dag_scheduler.Service.Router.{service_router, handler_at, register_endpoint}
use dag_scheduler.Service.Router.Unordered.{Entries, Routes, register, register_lem}
use dag_scheduler.Service.Session.{
  Operation, Code, Server, on_accept, on_run, on_handshake, on_read, do_read, complete, Step,
  Served,
}
use dag_scheduler.Service.Session.Exclusive.{Served-exclusive}
use dag_scheduler.Service.Session.Answers.{
  IsAnswer, on_read-IsAnswer, IsStopped, fatal_stops, Recovers, Served-Recovers,
}
use dag_scheduler.Logging.{
  Severity, Stream, Sink, Log, Core, add_logger, write_severity_log, find_sink,
}
use dag_scheduler.Logging.Delivery.{Used, write_severity_log_lem}

-- Each file has the text "x".
instance abbrev pub beast : Beast
beast = record {
  iequals = str_eq;
  version_string = "Beast";
  no_error = "Success";
  need_eof = λ r. false;
  open_file = λ path. Opened.opened 1 (Contents.read "x");
}

abbrev index : Request
index = record { method = Verb.get; target = "/index.html"; version = 11; keep_alive = true }

abbrev no_effects : Effects
no_effects = record { opens = []; sent = [] }

answers_index : IsAnswered "/srv" index no_effects (handle_request "/srv" index no_effects)
answers_index = handle_request_lem "/srv" index no_effects

abbrev first_state : Server
first_state = record {
  accepts = 1;
  pending = [];
  opens = [];
  sent = [];
  router = service_router "/srv";
}

-- A connection was accepted, and its handshake is over.
abbrev reading : Server
reading = record first_state { accepts = 0; pending = Operation.read ∷ [] }

abbrev with_pending : Operation → Server
with_pending op = record first_state { accepts = 0; pending = op ∷ [] }

running-Served : Served (service_router "/srv") (with_pending Operation.run)
unfolding on_accept
running-Served =
    Served.stepped first_state (with_pending Operation.run) Served.started
      (Step.accepted 0 Code.success Code.success refl)

shaking-Served : Served (service_router "/srv") (with_pending Operation.handshake)
unfolding complete on_run
shaking-Served =
    Served.stepped (with_pending Operation.run) (with_pending Operation.handshake) running-Served (
      Step.completed [] [] Operation.run Code.success index (λ _. false)
        (with_pending Operation.handshake) refl refl)

reading-Served : Served (service_router "/srv") reading
unfolding complete on_handshake do_read
reading-Served =
    Served.stepped (with_pending Operation.handshake) reading shaking-Served
      (Step.completed [] [] Operation.handshake Code.success index (λ _. false) reading refl refl)

one_outstanding : reading.accepts + length reading.pending ≤ 1
one_outstanding = Served-exclusive (service_router "/srv") reading reading-Served

reading-Recovers : Recovers reading
reading-Recovers = Served-Recovers (service_router "/srv") reading reading-Served (omega arith)

reading_stops : IsStopped (record reading { pending = [] })
unfolding complete on_read
reading_stops =
    fatal_stops (service_router "/srv") reading (record reading { pending = [] }) [] []
      Operation.read Code.failure index (λ _. false) reading-Served refl tt refl

index_registered :
    handler_at (service_router "/srv") "/index.html" ≢ some (some Handler.register_dag)
unfolding handler_at service_router register_endpoint
index_registered e = cc

index_answered : IsAnswer reading (on_read Code.success index reading)
index_answered = on_read-IsAnswer index reading index_registered

instance abbrev core : Core
core = record { default_sink = λ level message. (Stream.cout, message) ∷ [] }

abbrev empty_log : Log
empty_log = record { init = false; loggers = []; core = []; output = [] }

abbrev errors : Sink
errors = record { stream = Stream.cerr; level = Severity.error; tag = "a" }

abbrev one_logger : Log
one_logger = (add_logger Stream.cerr "a" Severity.error empty_log).0

one_logger_has : one_logger.loggers ≡ errors ∷ []
unfolding add_logger
one_logger_has = refl

writes_error :
    (write_severity_log "a" Severity.fatal "m" one_logger).output
    ≡ one_logger.output ++ (if leb 4 5 then (Stream.cerr, "m") ∷ [] else [])
writes_error =
    write_severity_log_lem Severity.fatal "m" [] [] errors one_logger
      (Used.added Stream.cerr "a" Severity.error empty_log Used.fresh) one_logger_has

free_tag : find_sink "a" empty_log ≡ false
unfolding find_sink
free_tag = refl

registers_two :
    ((xs : Entries)
      → register "/a" none (Quot.mk xs)
        ≡ Quot.mk (register_endpoint (record { router = xs }) "/a" none).0.router)
    × ((routes : Routes)
        → register "/a" none (register "/b" (some Handler.register_dag) routes)
          ≡ register "/b" (some Handler.register_dag) (register "/a" none routes))
    × ((routes : Routes)
        → register "/a" (some Handler.register_dag) (register "/a" none routes)
          ≡ register "/a" none routes)
registers_two = register_lem "/a" "/b" none (some Handler.register_dag) refl
