-- ===== src/Service/Session/Exclusive.antt =====
-- At most one operation of the service is outstanding.
use dag_scheduler.Base.{
  ◌>>=◌, fault, out_of_fuel, String, ok-injective, ℕ, ◌+◌, ◌≤◌, ◌≡◌, Bool, true, false, List, [],
  ◌∷◌, ◌++◌, Option, none, some, if◌then◌else◌, Outcome, ok, throws, length, length-append, arith,
  ap,
}
use dag_scheduler.Service.{Request, Response, Beast, Effects}
use dag_scheduler.Service.Responses.{not_found_handler, server_error_handler}
use dag_scheduler.Service.Files.{handle_request_lem}
use dag_scheduler.Service.Endpoints.{Handler, call_handler, handle_request}
use dag_scheduler.Service.Router.{Router, handler_at}
use dag_scheduler.Service.Session.{
  begin, Operation, Code, Server, Call, create_acceptor, do_accept, on_accept, reset_listener,
  on_run, do_close, do_read, on_handshake, on_shutdown, on_write, respond, respond_each, after_call,
  handle, on_read, complete, Step, Served,
}

-- The outstanding operations.
abbrev pub load : Server → ℕ
load s = s.accepts + length s.pending

module _ ⦃beast : Beast⦄ where
  respond_each-load :
      (msgs : List Response) (s : Server) → load (respond_each msgs s) ≡ load s + length msgs
  unfolding respond
  respond_each-load [] s = omega arith
  respond_each-load (msg ∷ msgs) s = omega (
    arith,
    respond_each-load msgs (respond msg s),
    length-append s.pending (Operation.write (beast.need_eof msg) ∷ []),
  )

  -- What a handler sends with what follows it: one response, or none.
  abbrev sends : Effects × Bool → ℕ
  sends (e, status) = length e.sent + (if status then 0 else 1)

  sends-handle_request :
      (root : String) (req : Request)
      → sends (handle_request root req (record { opens = []; sent = [] })) ≡ 1
  sends-handle_request root req =
      let a = handle_request_lem root req (record { opens = []; sent = [] }) in
      omega (arith, ap length a.answered, ap {B = ℕ} (λ b. if b then 0 else 1) a.returned)

  sends-call_handler :
      (handler : Handler) (req : Request)
      → sends (call_handler handler req (record { opens = []; sent = [] })) ≤ 1
  unfolding call_handler
  sends-call_handler Handler.endpoint_handler req = omega arith
  sends-call_handler (Handler.doc_root root) req = omega (arith, sends-handle_request root req)
  sends-call_handler Handler.register_dag req = omega arith

  respond-load : (msg : Response) (s : Server) → load (respond msg s) ≡ load s + 1
  unfolding respond
  respond-load msg s =
      omega (arith, length-append s.pending (Operation.write (beast.need_eof msg) ∷ []))

  after_call-load :
      (req : Request) (r : Effects × Bool) (s : Server)
      → load (after_call req r s) ≡ load s + sends r
  unfolding after_call
  after_call-load req (e, true) s =
      omega (arith, respond_each-load e.sent (record s { opens = s.opens ++ e.opens }))
  after_call-load req (e, false) s =
      let s' = record s { opens = s.opens ++ e.opens } in
      omega (
        arith,
        respond_each-load e.sent s',
        respond-load (server_error_handler "Internal Server error" req) (respond_each e.sent s'),
      )

  begin-load : (op : Operation) (s : Server) → load (begin op s) ≡ load s + 1
  begin-load op s = omega (arith, length-append s.pending (op ∷ []))

  handle-load :
      (o : Option (Option Handler)) (req : Request) (s : Server)
      → load (handle o req s) ≤ load s + 1
  unfolding handle
  handle-load none req s = omega (arith, respond-load (not_found_handler req.target req) s)
  handle-load (some none) req s = omega (arith, respond-load (not_found_handler req.target req) s)
  handle-load (some (some handler)) req s = omega (
    arith,
    after_call-load req (call_handler handler req (record { opens = []; sent = [] })) s,
    sends-call_handler handler req,
  )

  on_read-load : (ec : Code) (req : Request) (s : Server) → load (on_read ec req s) ≤ load s + 1
  unfolding on_read do_close
  on_read-load Code.end_of_stream req s = omega (arith, begin-load Operation.shutdown s)
  on_read-load Code.failure req s = omega arith
  on_read-load Code.success req s = handle-load (handler_at s.router req.target) req s

  on_handshake-load : (ec : Code) (s : Server) → load (on_handshake ec s) ≡ load s + 1
  unfolding on_handshake do_close do_read
  on_handshake-load Code.success s = begin-load Operation.read s
  on_handshake-load Code.end_of_stream s = begin-load Operation.shutdown s
  on_handshake-load Code.failure s = begin-load Operation.shutdown s

  on_write-load : (close : Bool) (ec : Code) (s : Server) → load (on_write close ec s) ≤ load s + 1
  unfolding on_write do_close do_read
  on_write-load true Code.success s = omega (arith, begin-load Operation.shutdown s)
  on_write-load false Code.success s = omega (arith, begin-load Operation.read s)
  on_write-load close Code.end_of_stream s = omega arith
  on_write-load close Code.failure s = omega arith

  on_accept-load : (ec option_ec : Code) (s : Server) → load (on_accept ec option_ec s) ≤ load s + 1
  unfolding on_accept
  on_accept-load Code.success Code.success s = omega (arith, begin-load Operation.run s)
  on_accept-load Code.success Code.end_of_stream s = omega arith
  on_accept-load Code.success Code.failure s = omega arith
  on_accept-load Code.end_of_stream option_ec s = omega arith
  on_accept-load Code.failure option_ec s = omega arith

  opened_state : (o : Outcome (Unit {0})) (t s' : Server) → (o >>= λ _. ok t) ≡ ok s' → t ≡ s'
  opened_state (ok u) t s' h = ok-injective h
  opened_state throws t s' h = cc
  opened_state fault t s' h = cc
  opened_state out_of_fuel t s' h = cc

  on_shutdown-load :
      (ec : Code) (fails : Call → Bool) (s s' : Server)
      → on_shutdown ec fails s ≡ ok s'
      → load s' ≤ load s + 1
  unfolding on_shutdown reset_listener do_accept
  on_shutdown-load ec fails s s' h = omega (
    arith,
    ap load (opened_state (create_acceptor fails) (do_accept (record s { accepts = 0 })) s' h),
  )

  complete-load :
      (op : Operation) (ec : Code) (req : Request) (fails : Call → Bool) (s s' : Server)
      → complete op ec req fails s ≡ ok s'
      → load s' ≤ load s + 1
  unfolding complete on_run
  complete-load Operation.run ec req fails s s' h =
      omega (arith, ap load (ok-injective h), begin-load Operation.handshake s)
  complete-load Operation.handshake ec req fails s s' h =
      omega (arith, ap load (ok-injective h), on_handshake-load ec s)
  complete-load Operation.read ec req fails s s' h =
      omega (arith, ap load (ok-injective h), on_read-load ec req s)
  complete-load Operation.shutdown ec req fails s s' h = on_shutdown-load ec fails s s' h
  complete-load (Operation.write close) ec req fails s s' h =
      omega (arith, ap load (ok-injective h), on_write-load close ec s)

  Step-load : (s t : Server) → Step s t → load t ≤ load s
  Step-load s t (Step.accepted n ec option_ec h) =
      omega (arith, on_accept-load ec option_ec (record s { accepts = n }))
  Step-load s t (Step.completed before after op ec req fails s' there ends) = omega (
    arith,
    ap length there,
    length-append before (op ∷ after),
    length-append before after,
    complete-load op ec req fails (record s { pending = before ++ after }) s' ends,
  )

  -- In each state of the service, at most one operation is outstanding: it accepts a connection, or
  -- one session has one operation that has not completed.
  pub Served-exclusive :
      (router : Router) (s : Server) → Served router s → s.accepts + length s.pending ≤ 1
  Served-exclusive router _ Served.started = omega arith
  Served-exclusive router _ (Served.stepped s t served step) =
      omega (arith, Served-exclusive router s served, Step-load s t step)

  -- A state in which no operation is outstanding is the last one.
  pub idle_stops : (s t : Server) → load s ≡ 0 → ¬ Step s t
  idle_stops s t none_left (Step.accepted n ec option_ec h) = omega arith
  idle_stops s t none_left (Step.completed before after op ec req fails s' there ends) =
      omega (arith, ap length there, length-append before (op ∷ after))
