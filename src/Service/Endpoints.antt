-- ===== src/Service/Endpoints.antt =====
-- lib/endpoints.cxx: the handlers of requests.
use Prim.Native.Char.{code}
use text.Mathlib.Text.{find?}
use dag_scheduler.Base.{
  ℕ, String, Bool, true, false, not, ◌&&◌, ◌||◌, ◌==◌, [], ◌∷◌, none, some, if◌then◌else◌, str_eq,
}
use dag_scheduler.Service.{
  is_get, is_head, Request, Response, ResponseStatus, Field, Contents, Opened, Beast, Effects,
  log_open, send,
}
use dag_scheduler.Service.Responses.{
  mime_type, path_cat, bad_request_handler, not_found_handler, server_error_handler,
}

-- The classes of handlers: EndpointHandler itself, DocRootEndpoint with its root and
-- RegisterDAGEndpoint.
pub data Handler : Type 0 where
  endpoint_handler : Handler
  doc_root : String → Handler
  register_dag : Handler

-- The first character is a slash.
unfoldable pub is_rooted : String → Bool
is_rooted String.[] = false
is_rooted (String.◌∷◌ c s) = code c == 47

unfoldable pub has_dots : String → Bool
has_dots target = elim (find? target "..") [ none ↦ false | some i ↦ true ]

module _ ⦃beast : Beast⦄ where
  unfoldable pub head_response : String → ℕ → Request → Response
  unfolding mime_type
  head_response path body_size req = record {
    status = ResponseStatus.success;
    version = req.version;
    fields = (Field.server, beast.version_string) ∷ (Field.content_type, mime_type path) ∷ [];
    keep_alive = some req.keep_alive;
    content_length = some body_size;
    body = none;
  }

  -- No field of it is set.
  unfoldable pub get_response : String → Request → Response
  get_response body_str req = record {
    status = ResponseStatus.success;
    version = req.version;
    fields = [];
    keep_alive = none;
    content_length = none;
    body = some body_str;
  }

  -- The message of an error in the read is that of the error code of `open`.
  unfoldable pub read_response : Contents → Request → Response
  unfolding get_response server_error_handler
  read_response (Contents.read body_str) req = get_response body_str req
  read_response (Contents.unread message) req = server_error_handler beast.no_error req

  unfoldable pub file_response : String → Opened → Request → Response
  unfolding not_found_handler server_error_handler head_response read_response
  file_response path Opened.missing req = not_found_handler req.target req
  file_response path (Opened.refused message) req = server_error_handler message req
  file_response path (Opened.opened body_size contents) req =
      if is_head req.method then head_response path body_size req else read_response contents req

  -- `DocRootEndpoint::handle_request`
  unfoldable pub handle_request : String → Request → Effects → Effects × Bool
  unfolding bad_request_handler is_rooted has_dots path_cat file_response
  handle_request root req e =
      if not (is_get req.method) && not (is_head req.method)
      then (send (bad_request_handler "Unknown HTTP-method\n" req) e, true)
      else if str_eq req.target "" || not (is_rooted req.target) || has_dots req.target
      then (send (bad_request_handler "Illegal request-target\n" req) e, true)
      else let path = path_cat root req.target in
        (send (file_response path (beast.open_file path) req) (log_open path e), true)

  -- The call of a handler.
  unfoldable pub call_handler : Handler → Request → Effects → Effects × Bool
  unfolding handle_request
  call_handler Handler.endpoint_handler req e = (e, false)
  call_handler (Handler.doc_root root) req e = handle_request root req e
  call_handler Handler.register_dag req e = (e, true)
