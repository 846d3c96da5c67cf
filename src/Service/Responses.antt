-- ===== src/Service/Responses.antt =====
-- lib/service_helpers.cxx: media types, paths and the responses to errors.
use Prim.Native.String.{◌++◌, len}
use Prim.Native.Char.{code}
use dag_scheduler.Base.{String, Bool, false, ◌==◌, List, [], ◌∷◌, none, some, if◌then◌else◌, str_eq}
use dag_scheduler.Service.{Request, Response, ResponseStatus, Field, Beast}

-- The text from the last dot on, and the empty text where there is none.
unfoldable pub extension : String → String
extension String.[] = ""
extension (String.◌∷◌ c s) =
    let rest = extension s in
    if str_eq rest "" then (if code c == 46 then String.◌∷◌ c s else "") else rest

-- The types of `mime_type`, in the order of the tests.
abbrev pub types : List (String × String)
types =
    (".htm", "text/html")
    ∷ (".html", "text/html")
    ∷ (".php", "text/html")
    ∷ (".css", "text/css")
    ∷ (".txt", "text/plain")
    ∷ (".js", "application/javascript")
    ∷ (".json", "application/json")
    ∷ (".xml", "application/xml")
    ∷ (".swf", "application/x-shockwave-flash")
    ∷ (".flv", "video/x-flv")
    ∷ (".png", "image/png")
    ∷ (".jpe", "image/jpeg")
    ∷ (".jpeg", "image/jpeg")
    ∷ (".jpg", "image/jpeg")
    ∷ (".gif", "image/gif")
    ∷ (".bmp", "image/bmp")
    ∷ (".ico", "image/vnd.microsoft.icon")
    ∷ (".tiff", "image/tiff")
    ∷ (".tif", "image/tiff")
    ∷ (".svg", "image/svg+xml")
    ∷ (".sggz", "image/svg+xml")
    ∷ []

-- Without its last character.
unfoldable pub drop_last : String → String
drop_last String.[] = ""
drop_last (String.◌∷◌ c String.[]) = ""
drop_last (String.◌∷◌ c (String.◌∷◌ d s)) = String.◌∷◌ c (drop_last (String.◌∷◌ d s))

-- Whether `back()` is the separator.
unfoldable pub ends_in_slash : String → Bool
ends_in_slash String.[] = false
ends_in_slash (String.◌∷◌ c String.[]) = str_eq (String.◌∷◌ c String.[]) "/"
ends_in_slash (String.◌∷◌ c (String.◌∷◌ d s)) = ends_in_slash (String.◌∷◌ d s)

unfoldable pub path_cat : String → String → String
unfolding drop_last ends_in_slash
path_cat base path =
    if str_eq base ""
    then path
    else if ends_in_slash base
    then drop_last base ++ path
    else base ++ path

-- `prepare_payload`, which writes the length of the body.
unfoldable pub prepare_payload : Response → Response
prepare_payload res = record res {
  content_length = elim res.body [ none ↦ some 0 | some text ↦ some (len text) ];
}

module _ ⦃beast : Beast⦄ where
  -- The first of the types whose extension is that of the path.
  unfoldable pub first_type : List (String × String) → String → String
  first_type [] ext = "application/text"
  first_type ((name, value) ∷ rest) ext =
      let later = first_type rest ext in if beast.iequals ext name then value else later

  unfoldable pub mime_type : String → String
  unfolding extension first_type
  mime_type path = first_type types (extension path)

  unfoldable pub bad_request_handler : String → Request → Response
  unfolding prepare_payload
  bad_request_handler why req = prepare_payload (record {
    status = ResponseStatus.bad_request;
    version = req.version;
    fields = (Field.server, beast.version_string) ∷ (Field.content_script_type, "text/html") ∷ [];
    keep_alive = some req.keep_alive;
    content_length = none;
    body = some why;
  })

  unfoldable pub not_found_handler : String → Request → Response
  unfolding prepare_payload
  not_found_handler target req = prepare_payload (record {
    status = ResponseStatus.not_found;
    version = req.version;
    fields = (Field.server, beast.version_string) ∷ (Field.content_type, "text/html") ∷ [];
    keep_alive = some req.keep_alive;
    content_length = none;
    body = some ("The resource '" ++ target ++ "' was not found.\n");
  })

  -- The length of the body is not written.
  unfoldable pub server_error_handler : String → Request → Response
  server_error_handler what req = record {
    status = ResponseStatus.internal_server_error;
    version = req.version;
    fields = (Field.server, beast.version_string) ∷ (Field.content_type, "text/html") ∷ [];
    keep_alive = some req.keep_alive;
    content_length = none;
    body = some ("An error occurred: '" ++ what ++ "'\n");
  }
