-- ===== src/Service/Session/Answers.antt =====
-- Which requests are answered, how the service comes back to accept, and when it does not.
use native.Mathlib.Decide.{dec_lt}
use dag_scheduler.Base.{
  ◌<◌, ok-injective, ◌≢◌, ◌≡◌, Bool, true, false, List, [], ◌∷◌, ◌++◌, Option, none, some, ok,
  length, length-append, arith, refl, ap, sym, ◌∙◌,
}
use dag_scheduler.Service.{Verb, Request, Response, Beast, Effects}
use dag_scheduler.Service.Responses.{not_found_handler, server_error_handler}
use dag_scheduler.Service.Endpoints.{Handler, call_handler, handle_request}
use dag_scheduler.Service.Files.{handle_request_lem}
use dag_scheduler.Service.Router.{Router, handler_at}
use dag_scheduler.Service.Session.{
  Operation, Code, Server, Call, create_acceptor, do_accept, reset_listener, on_run, do_close,
  do_read, on_handshake, on_shutdown, on_write, respond, after_call, handle, on_read, complete,
  Step, Served, begin,
}
use dag_scheduler.Service.Session.Exclusive.{load, idle_stops, Served-exclusive}

module _ ⦃beast : Beast⦄ where
  -- One response is sent, and the only new operation is its write.
  abbrev pub IsAnswer : Server → Server → Type 0
  IsAnswer s t =
      (msg : Response) × (t.sent ≡ s.sent ++ msg ∷ [])
      × (t.pending ≡ s.pending ++ Operation.write (beast.need_eof msg) ∷ [])
      × (t.accepts ≡ s.accepts)

  respond-IsAnswer : (msg : Response) (s : Server) → IsAnswer s (respond msg s)
  unfolding respond
  respond-IsAnswer msg s = (msg, refl, refl, refl)

  file-IsAnswer :
      (req : Request) (s : Server) (msg : Response) (r : Effects × Bool)
      → r.0.sent ≡ msg ∷ []
      → r.1 ≡ true
      → IsAnswer s (after_call req r s)
  unfolding after_call respond
  file-IsAnswer req s msg (e, status) h k = rw (h, k) (msg, refl, refl, refl)

  handle-IsAnswer :
      (o : Option (Option Handler)) (req : Request) (s : Server)
      → o ≢ some (some Handler.register_dag)
      → IsAnswer s (handle o req s)
  unfolding handle call_handler after_call
  handle-IsAnswer none req s h = respond-IsAnswer (not_found_handler req.target req) s
  handle-IsAnswer (some none) req s h = respond-IsAnswer (not_found_handler req.target req) s
  handle-IsAnswer (some (some Handler.endpoint_handler)) req s h =
      respond-IsAnswer (server_error_handler "Internal Server error" req)
        (record s { opens = s.opens ++ [] })
  handle-IsAnswer (some (some (Handler.doc_root root))) req s h =
      let a = handle_request_lem root req (record { opens = []; sent = [] }) in
      file-IsAnswer req s a.response (handle_request root req (record { opens = []; sent = [] }))
        a.answered a.returned
  handle-IsAnswer (some (some Handler.register_dag)) req s h = absurd (h refl)

  -- A request that is read is answered with one response, whatever the router has for its target but a
  -- RegisterDAGEndpoint: a missing handler and one that fails are answered too.
  pub on_read-IsAnswer :
      (req : Request) (s : Server)
      → handler_at s.router req.target ≢ some (some Handler.register_dag)
      → IsAnswer s (on_read Code.success req s)
  unfolding on_read
  on_read-IsAnswer req s h = handle-IsAnswer (handler_at s.router req.target) req s h

  -- No handler will be called.
  abbrev pub IsStopped : Server → Type 0
  IsStopped s = (t : Server) → ¬ Step s t

  -- A read or a write that fails is not followed by another operation.
  abbrev pub IsFatal : Operation → Code → Type 0
  IsFatal Operation.read Code.failure = Unit
  IsFatal (Operation.write close) Code.end_of_stream = Unit
  IsFatal (Operation.write close) Code.failure = Unit
  IsFatal op ec = ⊥

  fatal_keeps :
      (op : Operation) (ec : Code) (req : Request) (fails : Call → Bool) (s : Server)
      → IsFatal op ec
      → complete op ec req fails s ≡ ok s
  unfolding complete on_read on_write
  fatal_keeps Operation.read Code.failure req fails s h = refl
  fatal_keeps (Operation.write close) Code.end_of_stream req fails s h = refl
  fatal_keeps (Operation.write close) Code.failure req fails s h = refl
  fatal_keeps op ec req fails s h = absurd h

  taken_load :
      (router : Router) (s : Server) (before after : List Operation) (op : Operation)
      → Served router s
      → s.pending ≡ before ++ op ∷ after
      → load (record s { pending = before ++ after }) ≡ 0
  taken_load router s before after op served there = omega (
    arith,
    Served-exclusive router s served,
    ap length there,
    length-append before (op ∷ after),
    length-append before after,
  )

  -- After a read or a write that failed, the service neither accepts a connection nor does anything
  -- else.
  pub fatal_stops :
      (router : Router) (s t : Server) (before after : List Operation) (op : Operation) (ec : Code)
      (req : Request) (fails : Call → Bool)
      → Served router s
      → s.pending ≡ before ++ op ∷ after
      → IsFatal op ec
      → complete op ec req fails (record s { pending = before ++ after }) ≡ ok t
      → IsStopped t
  fatal_stops router s t before after op ec req fails served there fatal ends u =
      let kept = record s { pending = before ++ after } in
      idle_stops t u (
        omega (
          arith,
          ap load (ok-injective (sym ends ∙ fatal_keeps op ec req fails kept fatal)),
          taken_load router s before after op served there,
        ))

  -- Some steps.
  pub data Run : Server → Server → Type 0 where
    still : (s : Server) → Run s s
    go_on : (s t u : Server) → Step s t → Run t u → Run s u

  abbrev any_request : Request
  any_request = record { method = Verb.get; target = "/"; version = 11; keep_alive = false }

  abbrev pub Recovers : Server → Type 0
  Recovers s = (t : Server) × Run s t × (t.accepts ≡ 1) × (t.pending ≡ [])

  from_step :
      (s t : Server) (op : Operation) (ec : Code)
      → s.pending ≡ op ∷ []
      → complete op ec any_request (λ _. false) (record s { pending = [] }) ≡ ok t
      → Recovers t
      → Recovers s
  from_step s t op ec there ends (u, run, accepts, pending) = (
    u,
    Run.go_on s t u (Step.completed [] [] op ec any_request (λ _. false) t there ends) run,
    accepts,
    pending,
  )

  from_shutdown : (s : Server) → s.pending ≡ Operation.shutdown ∷ [] → Recovers s
  unfolding complete on_shutdown reset_listener create_acceptor do_accept
  from_shutdown s there =
      let t = record s { accepts = 1; pending = [] } in
      from_step s t Operation.shutdown Code.success there refl (t, Run.still _, refl, refl)

  from_read : (s : Server) → s.pending ≡ Operation.read ∷ [] → Recovers s
  unfolding complete on_read do_close
  from_read s there =
      let t = begin Operation.shutdown (record s { pending = [] }) in
      from_step s t Operation.read Code.end_of_stream there refl (from_shutdown t refl)

  from_handshake : (s : Server) → s.pending ≡ Operation.handshake ∷ [] → Recovers s
  unfolding complete on_handshake do_close
  from_handshake s there =
      let t = begin Operation.shutdown (record s { pending = [] }) in
      from_step s t Operation.handshake Code.failure there refl (from_shutdown t refl)

  from_operation : (op : Operation) (s : Server) → s.pending ≡ op ∷ [] → Recovers s
  unfolding complete on_run on_write do_close do_read
  from_operation Operation.run s there =
      let t = begin Operation.handshake (record s { pending = [] }) in
      from_step s t Operation.run Code.success there refl (from_handshake t refl)
  from_operation Operation.handshake s there = from_handshake s there
  from_operation Operation.read s there = from_read s there
  from_operation Operation.shutdown s there = from_shutdown s there
  from_operation (Operation.write true) s there =
      let t = begin Operation.shutdown (record s { pending = [] }) in
      from_step s t (Operation.write true) Code.success there refl (from_shutdown t refl)
  from_operation (Operation.write false) s there =
      let t = begin Operation.read (record s { pending = [] }) in
      from_step s t (Operation.write false) Code.success there refl (from_read t refl)

  from_pending : (s : Server) (ops : List Operation) → s.pending ≡ ops → length ops ≡ 1 → Recovers s
  from_pending s [] there one = absurd (omega (arith, one))
  from_pending s (op ∷ []) there one = from_operation op s there
  from_pending s (op ∷ op' ∷ ops) there one = absurd (omega (arith, one))

  no_pending : (ops : List Operation) → length ops ≡ 0 → ops ≡ []
  no_pending [] h = refl
  no_pending (op ∷ ops) h = absurd (omega (arith, h))

  -- From each state of the service with an operation outstanding, some run leads to a state that
  -- accepts a connection and has no session.
  pub Served-Recovers : (router : Router) (s : Server) → Served router s → 0 < load s → Recovers s
  Served-Recovers router s served busy = elim (dec_lt 0 s.accepts) [
    | yes p ↦ (
      s,
      Run.still _,
      omega (arith, Served-exclusive router s served),
      no_pending s.pending (omega (arith, Served-exclusive router s served)),
    )
    | no n ↦ from_pending s s.pending refl (omega (arith, Served-exclusive router s served))
  ]
