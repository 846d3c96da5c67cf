-- ===== src/Logging/Delivery.antt =====
-- A tag has one sink, and each message goes to the sink of its tag.
use dag_scheduler.Base.{
  ◌&&◌, str_eq, Bool, map, keep_if, leb, subst, ap, ◌∙◌, ◌≡◌, inl, inr, refl, ap, String, true,
  false, List, [], ◌∷◌, ◌++◌, if◌then◌else◌, str_eq_iff, arith, Bool-cases,
}
use dag_scheduler.Logging.{
  Core, write_severity_log, clear_all, passes, consume, write_to, rank, init_logging, Severity,
  Stream, Sink, Log, find_sink, has_tag, add_sink, add_logger,
}

-- The sinks of the core are those of the loggers, and no tag has two.
abbrev Tags : List Sink → Type 0
Tags [] = Unit
Tags (sink ∷ sinks) = (has_tag sinks sink.tag ≡ false) × Tags sinks

pub record IsTagged (s : Log) : Type 0 where
  pub same_sinks : s.core ≡ s.loggers
  pub one_each : Tags s.loggers

pub has_tag-append :
    (xs ys : List Sink) (tag : String)
    → has_tag (xs ++ ys) tag ≡ (if has_tag xs tag then true else has_tag ys tag)
has_tag-append [] ys tag = refl
has_tag-append (x ∷ xs) ys tag = ground (arith, has_tag-append xs ys tag)

Tags-append :
    (xs : List Sink) (sink : Sink) → Tags xs → has_tag xs sink.tag ≡ false → Tags (xs ++ sink ∷ [])
Tags-append [] sink d n = (refl, tt)
Tags-append (x ∷ xs) sink d n = ground (
  arith,
  has_tag-append xs (sink ∷ []) x.tag,
  Tags-append xs sink,
  str_eq_iff x.tag sink.tag,
  str_eq_iff sink.tag x.tag,
)

pub add_logger-IsTagged :
    (stream : Stream) (tag : String) (level : Severity) (s : Log)
    → IsTagged s
    → IsTagged (add_logger stream tag level s).0
unfolding add_logger find_sink add_sink
add_logger-IsTagged stream tag level s h = elim (Bool-cases (find_sink tag s)) [
  | inl y ↦ rw y h
  | inr n ↦ rw n (record {
    same_sinks =
        ap (λ sinks. sinks ++ record { stream = stream; level = level; tag = tag } ∷ [])
          h.same_sinks;
    one_each =
        Tags-append s.loggers (record { stream = stream; level = level; tag = tag }) h.one_each n;
  })
]

and_false : (b : Bool) → (b && false) ≡ false
and_false true = refl
and_false false = refl

and_true : (b : Bool) → (b && true) ≡ b
and_true true = refl
and_true false = refl

both_false : (b c : Bool) → (if b then true else c) ≡ false → (b ≡ false) × (c ≡ false)
both_false true c h = cc
both_false false c h = (refl, h)

differ_sym : (s t : String) → str_eq s t ≡ false → str_eq t s ≡ false
differ_sym s t h = ground (arith, str_eq_iff s t, str_eq_iff t s)

passes_other :
    (tag : String) (level : Severity) (sink : Sink)
    → str_eq tag sink.tag ≡ false
    → passes tag level sink ≡ false
unfolding passes
passes_other tag level sink h = rw h (and_false (leb (rank sink.level) (rank level)))

passes_self :
    (level : Severity) (sink : Sink)
    → passes sink.tag level sink ≡ leb (rank sink.level) (rank level)
unfolding passes
passes_self level sink =
    rw ((str_eq_iff sink.tag sink.tag).1 refl) (and_true (leb (rank sink.level) (rank level)))

has_tag_differs :
    (before after : List Sink) (sink : Sink) (tag : String)
    → has_tag (before ++ sink ∷ after) tag ≡ false
    → str_eq sink.tag tag ≡ false
has_tag_differs [] after sink tag h = (both_false (str_eq sink.tag tag) (has_tag after tag) h).0
has_tag_differs (x ∷ xs) after sink tag h =
    has_tag_differs xs after sink tag
      (both_false (str_eq x.tag tag) (has_tag (xs ++ sink ∷ after) tag) h).1

module _ ⦃core : Core⦄ where
  -- The states of the loggers that the static functions make.
  pub data Used : Log → Type 0 where
    fresh : Used (record { init = false; loggers = []; core = []; output = [] })
    added :
        (stream : Stream) (tag : String) (level : Severity) (s : Log)
        → Used s
        → Used (add_logger stream tag level s).0
    written :
        (tag : String) (level : Severity) (message : String) (s : Log)
        → Used s
        → Used (write_severity_log tag level message s)
    cleared : (s : Log) → Used s → Used (clear_all s).0

  -- In each state, the core has the sinks of the loggers and no tag has two of them.
  pub Used-IsTagged : (s : Log) → Used s → IsTagged s
  unfolding write_severity_log init_logging clear_all
  Used-IsTagged _ Used.fresh = record { same_sinks = refl; one_each = tt }
  Used-IsTagged _ (Used.added stream tag level s u) =
      add_logger-IsTagged stream tag level s (Used-IsTagged s u)
  Used-IsTagged _ (Used.written tag level message s u) =
      let h = Used-IsTagged s u in record { same_sinks = h.same_sinks; one_each = h.one_each }
  Used-IsTagged _ (Used.cleared s u) = record { same_sinks = refl; one_each = tt }

  none_pass :
      (xs : List Sink) (tag : String) (level : Severity)
      → has_tag xs tag ≡ false
      → keep_if (passes tag level) xs ≡ []
  none_pass [] tag level h = refl
  none_pass (x ∷ xs) tag level h =
      let (other, later) = both_false (str_eq x.tag tag) (has_tag xs tag) h in
      rw (passes_other tag level x (differ_sym x.tag tag other)) (none_pass xs tag level later)

  one_passes :
      (before after : List Sink) (sink : Sink) (level : Severity)
      → Tags (before ++ sink ∷ after)
      → keep_if (passes sink.tag level) (before ++ sink ∷ after)
        ≡ (if leb (rank sink.level) (rank level) then sink ∷ [] else [])
  one_passes [] after sink level d =
      rw (none_pass after sink.tag level d.0, passes_self level sink) refl
  one_passes (x ∷ xs) after sink level d =
      rw (passes_other sink.tag level x (has_tag_differs xs after sink x.tag d.0))
        (one_passes xs after sink level d.1)

  consume_some :
      (tag : String) (level : Severity) (message : String) (before after : List Sink) (sink : Sink)
      → consume tag level message (before ++ sink ∷ after)
        ≡ map (write_to message) (keep_if (passes tag level) (before ++ sink ∷ after))
  unfolding consume
  consume_some tag level message [] after sink = refl
  consume_some tag level message (x ∷ xs) after sink = refl

  written_line :
      (b : Bool) (message : String) (sink : Sink)
      → map (write_to message) (if b then sink ∷ [] else [])
        ≡ (if b then (sink.stream, message) ∷ [] else [])
  written_line true message sink = refl
  written_line false message sink = refl

  -- A message goes to the sink of its tag and to no other, if its level is at least that of the sink.
  pub write_severity_log_lem :
      (level : Severity) (message : String) (before after : List Sink) (sink : Sink) (s : Log)
      → Used s
      → s.loggers ≡ before ++ sink ∷ after
      → (write_severity_log sink.tag level message s).output
        ≡ s.output
          ++ (if leb (rank sink.level) (rank level) then (sink.stream, message) ∷ [] else [])
  unfolding write_severity_log init_logging
  write_severity_log_lem level message before after sink s used there =
      let tagged = Used-IsTagged s used in
      ap (λ lines. s.output ++ lines)
        (ap (consume sink.tag level message) (tagged.same_sinks ∙ there)
          ∙ consume_some sink.tag level message before after sink
          ∙ ap (map (write_to message))
              (one_passes before after sink level (subst Tags there tagged.one_each))
          ∙ written_line (leb (rank sink.level) (rank level)) message sink)
