-- ===== src/Logging/Calls.antt =====
-- include/dag_scheduler/logging.h: the templates that write a message, for arguments that are given as
-- the texts that they are written as.
use dag_scheduler.Base.{String, List}
use dag_scheduler.Logging.{Severity, Log, Core, log_string_builder, write_severity_log}

module _ ⦃core : Core⦄ where
  unfoldable pub trace : String → List String → Log → Log
  unfolding log_string_builder write_severity_log
  trace tag args s = write_severity_log tag Severity.trace (log_string_builder args) s

  unfoldable pub debug : String → List String → Log → Log
  unfolding log_string_builder write_severity_log
  debug tag args s = write_severity_log tag Severity.debug (log_string_builder args) s

  unfoldable pub info : String → List String → Log → Log
  unfolding log_string_builder write_severity_log
  info tag args s = write_severity_log tag Severity.info (log_string_builder args) s

  unfoldable pub warn : String → List String → Log → Log
  unfolding log_string_builder write_severity_log
  warn tag args s = write_severity_log tag Severity.warning (log_string_builder args) s

  unfoldable pub error : String → List String → Log → Log
  unfolding log_string_builder write_severity_log
  error tag args s = write_severity_log tag Severity.error (log_string_builder args) s

  unfoldable pub fatal : String → List String → Log → Log
  unfolding log_string_builder write_severity_log
  fatal tag args s = write_severity_log tag Severity.fatal (log_string_builder args) s
