-- ===== src/Service/Session.antt =====
-- lib/https_session.cxx, and the listener of lib/workflow_service.cxx: one server as the asynchronous
-- operations that are outstanding.
pub mod Exclusive
pub mod Answers
use dag_scheduler.Base.{
  ℕ, zero, suc, ◌+◌, ◌≡◌, String, Bool, true, false, List, [], ◌∷◌, ◌++◌, Option, none, some,
  if◌then◌else◌, Outcome, ok, throws, ◌>>=◌,
}
use dag_scheduler.Service.{Request, Response, Beast, Effects}
use dag_scheduler.Service.Responses.{not_found_handler, server_error_handler}
use dag_scheduler.Service.Endpoints.{Handler, call_handler}
use dag_scheduler.Service.Router.{Router, handler_at}

-- An operation of a session that has not completed, named for the handler that it completes in; a
-- write knows whether the connection is closed behind it.
pub data Operation : Type 0 where
  run handshake read shutdown : Operation
  write : Bool → Operation

-- An `error_code`: not set, `http::error::end_of_stream`, or any other.
pub data Code : Type 0 where
  success end_of_stream failure : Code

abbrev pub is_set : Code → Bool
is_set Code.success = false
is_set _ = true

-- `accepts` counts the outstanding calls of `async_accept`, and `pending` holds the operations of the
-- sessions.
pub record Server : Type 0 where
  pub accepts : ℕ
  pub pending : List Operation
  pub opens : List String
  pub sent : List Response
  pub router : Router

abbrev pub begin : Operation → Server → Server
begin op s = record s { pending = s.pending ++ op ∷ [] }

-- The calls of `create_acceptor` that take an error code.
pub data Call : Type 0 where
  opening reuse_address keep_alive bind listen : Call

-- Throws at the first call that fails.
unfoldable pub create_acceptor : (Call → Bool) → Outcome (Unit {0})
create_acceptor fails =
    if fails Call.opening
    then throws
    else if fails Call.reuse_address
    then throws
    else if fails Call.keep_alive
    then throws
    else if fails Call.bind
    then throws
    else if fails Call.listen
    then throws
    else ok tt

unfoldable pub do_accept : Server → Server
do_accept s = record s { accepts = suc s.accepts }

-- The second code is that of `set_option`.
unfoldable pub on_accept : Code → Code → Server → Server
on_accept ec option_ec s =
    if is_set ec then s else if is_set option_ec then s else begin Operation.run s

-- `HTTPSListener::reset`: `close` cancels the outstanding calls.
unfoldable pub reset_listener : (Call → Bool) → Server → Outcome Server
unfolding create_acceptor do_accept
reset_listener fails s = create_acceptor fails >>= λ _. ok (do_accept (record s { accepts = 0 }))

unfoldable pub on_run : Server → Server
on_run s = begin Operation.handshake s

unfoldable pub do_close : Server → Server
do_close s = begin Operation.shutdown s

unfoldable pub do_read : Server → Server
do_read s = begin Operation.read s

unfoldable pub on_handshake : Code → Server → Server
unfolding do_close do_read
on_handshake ec s = if is_set ec then do_close s else do_read s

unfoldable pub on_shutdown : Code → (Call → Bool) → Server → Outcome Server
unfolding reset_listener
on_shutdown ec fails s = reset_listener fails s

unfoldable pub on_write : Bool → Code → Server → Server
unfolding do_close do_read
on_write close ec s = if is_set ec then s else if close then do_close s else do_read s

module _ ⦃beast : Beast⦄ where
  -- `SessionResponder::send`
  unfoldable pub respond : Response → Server → Server
  respond msg s =
      begin (Operation.write (beast.need_eof msg)) (record s { sent = s.sent ++ msg ∷ [] })

  abbrev pub respond_each : List Response → Server → Server
  respond_each [] s = s
  respond_each (msg ∷ msgs) s = respond_each msgs (respond msg s)

  -- The end of the call of a handler, which answers itself if it returns true.
  unfoldable pub after_call : Request → Effects × Bool → Server → Server
  unfolding respond server_error_handler
  after_call req (e, status) s =
      let s' = respond_each e.sent (record s { opens = s.opens ++ e.opens }) in
      if status then s' else respond (server_error_handler "Internal Server error" req) s'

  -- The `try` block of `on_read`, for what the router gives: it throws, a null pointer, or a handler.
  unfoldable pub handle : Option (Option Handler) → Request → Server → Server
  unfolding call_handler after_call respond not_found_handler
  handle none req s = respond (not_found_handler req.target req) s
  handle (some none) req s = respond (not_found_handler req.target req) s
  handle (some (some handler)) req s =
      after_call req (call_handler handler req (record { opens = []; sent = [] })) s

  unfoldable pub on_read : Code → Request → Server → Server
  unfolding do_close handle handler_at
  on_read Code.end_of_stream req s = do_close s
  on_read Code.failure req s = s
  on_read Code.success req s = handle (handler_at s.router req.target) req s

  -- The completion of an operation.
  unfoldable pub complete : Operation → Code → Request → (Call → Bool) → Server → Outcome Server
  unfolding on_run on_handshake on_read on_shutdown on_write
  complete Operation.run ec req fails s = ok (on_run s)
  complete Operation.handshake ec req fails s = ok (on_handshake ec s)
  complete Operation.read ec req fails s = ok (on_read ec req s)
  complete Operation.shutdown ec req fails s = on_shutdown ec fails s
  complete (Operation.write close) ec req fails s = ok (on_write close ec s)

  -- One call of a handler by the `io_context`.
  pub data Step (s : Server) : Server → Type 0 where
    accepted :
        (n : ℕ) (ec option_ec : Code)
        → s.accepts ≡ suc n
        → Step s (on_accept ec option_ec (record s { accepts = n }))
    completed :
        (before after : List Operation) (op : Operation) (ec : Code) (req : Request)
        (fails : Call → Bool) (s' : Server)
        → s.pending ≡ before ++ op ∷ after
        → complete op ec req fails (record s { pending = before ++ after }) ≡ ok s'
        → Step s s'

  -- The states of a server with the router, from its first `run` on.
  pub data Served (router : Router) : Server → Type 0 where
    started :
        Served router (record { accepts = 1; pending = []; opens = []; sent = []; router = router })
    stepped : (s t : Server) → Served router s → Step s t → Served router t
