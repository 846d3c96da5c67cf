-- ===== src/Service.antt =====
-- The web service: what its parts share, and what it takes from boost.beast and the file system.
pub mod Responses
pub mod Endpoints
pub mod Files
pub mod Router
pub mod Session
pub mod Start
use dag_scheduler.Base.{ℕ, String, Bool, true, false, List, [], ◌∷◌, ◌++◌, Option}

-- `http::verb`; `other` stands for all the others.
pub data Verb : Type 0 where
  get head other : Verb

abbrev pub is_get : Verb → Bool
is_get Verb.get = true
is_get _ = false

abbrev pub is_head : Verb → Bool
is_head Verb.head = true
is_head _ = false

-- `http::request`, less its body and its other fields.
pub record Request : Type 0 where
  pub method : Verb
  pub target : String
  pub version : ℕ
  pub keep_alive : Bool

-- `http::status`
pub data ResponseStatus : Type 0 where
  success bad_request not_found internal_server_error : ResponseStatus

-- `http::field`
pub data Field : Type 0 where
  server content_type content_script_type : Field

-- A `http::response`: `fields` are those that were set, `keep_alive` and `content_length` are none
-- where they were not set, and the body is none for an `empty_body`.
pub record Response : Type 0 where
  pub status : ResponseStatus
  pub version : ℕ
  pub fields : List (Field × String)
  pub keep_alive : Option Bool
  pub content_length : Option ℕ
  pub body : Option String

-- What `file_body::value_type::open` and the read that follows it end in: the text of an error code,
-- or the size of the file with the text that was read or the text of an error.
pub data Contents : Type 0 where
  read : String → Contents
  unread : String → Contents

pub data Opened : Type 0 where
  missing : Opened
  refused : String → Opened
  opened : ℕ → Contents → Opened

-- `iequals` compares texts but for the case, `version_string` is BOOST_BEAST_VERSION_STRING, `no_error`
-- the message of an error code that is not set, and `need_eof` says whether a response ends with the
-- connection.
pub record Beast : Type 0 where
  pub iequals : String → String → Bool
  pub version_string : String
  pub no_error : String
  pub need_eof : Response → Bool
  pub open_file : String → Opened

-- The paths that were opened and the responses that were sent, in their order.
pub record Effects : Type 0 where
  pub opens : List String
  pub sent : List Response

abbrev pub log_open : String → Effects → Effects
log_open path e = record e { opens = e.opens ++ path ∷ [] }

-- `Responder::send`
abbrev pub send : Response → Effects → Effects
send response e = record e { sent = e.sent ++ response ∷ [] }
