-- ===== src/Logging.antt =====
-- lib/logging.cxx, include/dag_scheduler/logging.h and logged_class.hpp: the loggers of the program.
-- A LogTag is known by its text, and a weak_ptr to a sink by the sink, which the core owns.
pub mod Delivery
pub mod Classes
pub mod Calls
use Prim.Native.String.{◌++◌ as cat}
use dag_scheduler.Base.{
  ℕ, String, Bool, true, false, not, ◌&&◌, List, [], ◌∷◌, ◌++◌, Option, none, some, if◌then◌else◌,
  str_eq, leb, map, keep_if,
}

-- `boost::log::trivial::severity_level`
pub data Severity : Type 0 where
  trace debug info warning error fatal : Severity

abbrev pub rank : Severity → ℕ
rank Severity.trace = 0
rank Severity.debug = 1
rank Severity.info = 2
rank Severity.warning = 3
rank Severity.error = 4
rank Severity.fatal = 5

-- The stream of a sink.
pub data Stream : Type 0 where
  cout cerr clog : Stream
  file : String → Stream

-- A sink with its stream, and the level and the tag of its filter.
pub record Sink : Type 0 where
  pub stream : Stream
  pub level : Severity
  pub tag : String

-- `loggers` is `loggers_`, and `core` holds the sinks of the core of boost.log. `output` is what was
-- written, each message with its stream.
pub record Log : Type 0 where
  pub init : Bool
  pub loggers : List Sink
  pub core : List Sink
  pub output : List (Stream × String)

-- The core of boost.log writes a message to each of its sinks whose filter takes it. `default_sink` is
-- what it does without a sink.
pub record Core : Type 0 where
  pub default_sink : Severity → String → List (Stream × String)

-- The filter of `configure_sink`.
unfoldable pub passes : String → Severity → Sink → Bool
passes tag level sink = leb (rank sink.level) (rank level) && str_eq tag sink.tag

abbrev pub has_tag : List Sink → String → Bool
has_tag [] tag = false
has_tag (sink ∷ sinks) tag = if str_eq sink.tag tag then true else has_tag sinks tag

-- Whether `detail::find_sink` finds the tag.
unfoldable pub find_sink : String → Log → Bool
find_sink tag s = has_tag s.loggers tag

-- `make_sink` and `configure_sink`, and the new entry.
unfoldable pub add_sink : Sink → Log → Log
add_sink sink s = record s { loggers = s.loggers ++ sink ∷ []; core = s.core ++ sink ∷ [] }

-- What the four functions share.
unfoldable pub add_logger : Stream → String → Severity → Log → Log × Bool
unfolding find_sink add_sink
add_logger stream tag level s =
    if find_sink tag s
    then (s, false)
    else (add_sink (record { stream = stream; level = level; tag = tag }) s, true)

unfoldable pub add_std_cout_logger : String → Severity → Log → Log × Bool
unfolding add_logger
add_std_cout_logger tag level s = add_logger Stream.cout tag level s

unfoldable pub add_std_cerr_logger : String → Severity → Log → Log × Bool
unfolding add_logger
add_std_cerr_logger tag level s = add_logger Stream.cerr tag level s

unfoldable pub add_std_log_logger : String → Severity → Log → Log × Bool
unfolding add_logger
add_std_log_logger tag level s = add_logger Stream.clog tag level s

unfoldable pub add_file_logger : String → String → Severity → Log → Log × Bool
unfolding add_logger
add_file_logger tag log_path level s = add_logger (Stream.file log_path) tag level s

unfoldable pub init_logging : Log → Log × Bool
init_logging s = (record s { init = true }, true)

-- `log_string_builder`, for the texts of its arguments.
unfoldable pub log_string_builder : List String → String
log_string_builder [] = ""
log_string_builder (arg ∷ []) = arg
log_string_builder (arg ∷ next ∷ args) = cat arg (cat " " (log_string_builder (next ∷ args)))

abbrev pub write_to : String → Sink → Stream × String
write_to message sink = (sink.stream, message)

module _ ⦃core : Core⦄ where
  -- What the core does with a message.
  unfoldable pub consume : String → Severity → String → List Sink → List (Stream × String)
  unfolding passes
  consume tag level message [] = core.default_sink level message
  consume tag level message (sink ∷ sinks) =
      map (write_to message) (keep_if (passes tag level) (sink ∷ sinks))

  unfoldable pub write_severity_log : String → Severity → String → Log → Log
  unfolding init_logging consume
  write_severity_log tag level message s =
      let s' = (init_logging s).0 in
      record s' { output = s'.output ++ consume tag level message s'.core }

-- `remove_sink` for each logger, and then for all.
unfoldable pub clear_all : Log → Log × Bool
clear_all s = (record s { loggers = []; core = [] }, true)

-- The constructor of LoggedClass, and `add_std_cout_std_err_logger_for_type_instance`.
unfoldable pub logged_class : String → Severity → Severity → Log → Log
unfolding add_std_cout_logger add_std_cerr_logger
logged_class tag cout_level cerr_level s =
    (add_std_cerr_logger tag cerr_level (add_std_cout_logger tag cout_level s).0).0
