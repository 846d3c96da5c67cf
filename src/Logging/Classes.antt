-- ===== src/Logging/Classes.antt =====
-- The loggers of a LoggedClass, and what `clear_all` leaves.
use dag_scheduler.Base.{
  subst, ◌≡◌, refl, ap, ◌∙◌, String, Bool, true, false, [], ◌∷◌, ◌++◌, if◌then◌else◌, leb, str_eq,
  str_eq_iff,
}
use dag_scheduler.Logging.{
  Severity, Stream, Sink, Log, Core, find_sink, has_tag, add_sink, add_logger, write_severity_log,
  clear_all, logged_class, add_std_cout_logger, add_std_cerr_logger, rank,
}
use dag_scheduler.Logging.Delivery.{Used, write_severity_log_lem, has_tag-append}

add_free :
    (stream : Stream) (tag : String) (level : Severity) (s : Log)
    → find_sink tag s ≡ false
    → add_logger stream tag level s
      ≡ (add_sink (record { stream = stream; level = level; tag = tag }) s, true)
unfolding add_logger add_sink
add_free stream tag level s h = rw (h, add_logger) refl

add_taken :
    (stream : Stream) (tag : String) (level : Severity) (s : Log)
    → find_sink tag s ≡ true
    → add_logger stream tag level s ≡ (s, false)
unfolding add_logger
add_taken stream tag level s h = rw (h, add_logger) refl

found_after : (sink : Sink) (s : Log) → find_sink sink.tag (add_sink sink s) ≡ true
unfolding find_sink add_sink
found_after sink s =
    has_tag-append s.loggers (sink ∷ []) sink.tag
    ∙ at_end (has_tag s.loggers sink.tag) (str_eq sink.tag sink.tag)
        ((str_eq_iff sink.tag sink.tag).1 refl)
  where
    at_end : (b c : Bool) → c ≡ true → (if b then true else (if c then true else false)) ≡ true
    at_end true c h = refl
    at_end false c h = rw h refl

-- The second call finds the sink of the first.
one_logger :
    (tag : String) (cout_level cerr_level : Severity) (s : Log)
    → find_sink tag s ≡ false
    → logged_class tag cout_level cerr_level s
      ≡ add_sink (record { stream = Stream.cout; level = cout_level; tag = tag }) s
unfolding logged_class add_std_cout_logger add_std_cerr_logger
one_logger tag cout_level cerr_level s free =
    let sink : Sink = record { stream = Stream.cout; level = cout_level; tag = tag } in
    ap (λ (r : Log × Bool). (add_logger Stream.cerr tag cerr_level r.0).0)
      (add_free Stream.cout tag cout_level s free)
    ∙ ap (λ (r : Log × Bool). r.0)
        (add_taken Stream.cerr tag cerr_level (add_sink sink s) (found_after sink s))

module _ ⦃core : Core⦄ where
  added_output :
      (level : Severity) (message : String) (sink : Sink) (s : Log)
      → Used (add_sink sink s)
      → (write_severity_log sink.tag level message (add_sink sink s)).output
        ≡ s.output
          ++ (if leb (rank sink.level) (rank level) then (sink.stream, message) ∷ [] else [])
  unfolding add_sink
  added_output level message sink s used =
      write_severity_log_lem level message s.loggers [] sink (add_sink sink s) used refl

  -- An object of a LoggedClass whose tag is new has one logger, to `std::cout`: the messages with
  -- its tag are written there if their level is at least the first level, and the second level,
  -- for `std::cerr`, has no effect.
  pub logged_class_lem :
      (tag : String) (cout_level cerr_level level : Severity) (message : String) (s : Log)
      → Used s
      → find_sink tag s ≡ false
      → (write_severity_log tag level message (logged_class tag cout_level cerr_level s)).output
        ≡ s.output
          ++ (if leb (rank cout_level) (rank level) then (Stream.cout, message) ∷ [] else [])
  logged_class_lem tag cout_level cerr_level level message s used free =
      ap (λ s'. (write_severity_log tag level message s').output)
        (one_logger tag cout_level cerr_level s free)
      ∙ added_output level message (record { stream = Stream.cout; level = cout_level; tag = tag })
          s
          (subst Used (ap (λ (r : Log × Bool). r.0) (add_free Stream.cout tag cout_level s free))
            (Used.added Stream.cout tag cout_level s used))

  -- `clear_all` removes the loggers of all tags, so that each tag can have a new one.
  pub clear_all_lem :
      (stream : Stream) (tag : String) (level : Severity) (s : Log)
      → ((clear_all s).1 ≡ true)
        × (find_sink tag (clear_all s).0 ≡ false)
        × ((add_logger stream tag level (clear_all s).0).1 ≡ true)
        × (find_sink tag (add_logger stream tag level (clear_all s).0).0 ≡ true)
  unfolding clear_all find_sink add_logger add_sink
  clear_all_lem stream tag level s = (refl, refl, refl, rw ((str_eq_iff tag tag).1 refl) refl)
