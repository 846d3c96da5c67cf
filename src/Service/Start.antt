-- ===== src/Service/Start.antt =====
-- include/dag_scheduler/workflow_service.h, lib/service_helpers.cxx and lib/workflow_service.cxx: the
-- ConnectionInfo, and the constructor of WorkflowService, which starts the service.
pub mod Started
pub mod Decodes
use dag_scheduler.Base.{
  ℕ, zero, suc, ◌-◌, ◌%◌, ◌^◌, ◌<◌, ◌≤◌, String, Bool, not, [], Option, none, some, Outcome, ok,
  throws, ◌>>=◌, ◌≡◌, if◌then◌else◌, str_eq, ltb, ◌==◌,
}
use dag_scheduler.Service.Router.{service_router}
use dag_scheduler.Service.Session.{Server, Call, create_acceptor, do_accept}

pub record ConnectionInfo : Type 0 where
  pub address : String
  pub port : ℕ
  pub doc_root : String
  pub threads : ℕ
  pub pem : String

-- What yaml-cpp, boost.asio and std::vector do. `get_string` is `node[key].as<std::string>()`, and
-- `get_uint` the same for a number of so many bits; none if they throw. `certificate_chain` and
-- `private_key` say whether the files can be used, `is_address` whether `make_address` reads the text,
-- and `max_size` is that of a vector of threads.
pub record Host : Type 1 where
  pub Node : Type 0
  pub size : Node → ℕ
  pub get_string : Node → String → Option String
  pub get_uint : ℕ → Node → String → Option ℕ
  pub get_uint-bound : (w : ℕ) (n : Node) (k : String) (v : ℕ) → get_uint w n k ≡ some v → v < 2 ^ w
  pub certificate_chain : String → Bool
  pub private_key : String → Bool
  pub is_address : String → Bool
  pub max_size : ℕ
  pub max_size_low : 2 ^ 16 ≤ max_size
  pub max_size_high : max_size < 2 ^ 64 - 1

-- A service that runs: the port of its endpoint, the number of threads that it started, and its state.
pub record Service : Type 0 where
  pub port : ℕ
  pub workers : ℕ
  pub server : Server

-- The loop that starts threads, with `i` rounds left.
unfoldable pub emplace_workers : ℕ → ℕ → ℕ
emplace_workers zero v = v
emplace_workers (suc i) v = emplace_workers i (suc v)

-- `v.size()`: `reserve` makes room for the threads, and the vector is still empty.
abbrev pub reserved_size : ℕ
reserved_size = 0

abbrev pub expect_value {ℓ} : {A : Type ℓ} → Option A → Outcome A
expect_value none = throws
expect_value (some a) = ok a

abbrev pub require : Bool → Outcome (Unit {0})
require b = if b then ok tt else throws

module _ (host : Host) where
  open host use {
    Node, size, get_string, get_uint, certificate_chain, private_key, is_address, max_size,
  }

  -- The values of the keys.
  unfoldable pub read_info : Node → Outcome (Option ConnectionInfo)
  read_info node = expect_value (get_string node "address") >>= λ address.
      expect_value (get_uint 32 node "port") >>= λ port.
      expect_value (get_string node "doc-root") >>= λ doc_root.
      expect_value (get_uint 16 node "threads") >>= λ threads.
      expect_value (get_string node "pem") >>= λ pem. ok (
        some (record {
          address = if str_eq address "localhost" then "127.0.0.1" else address;
          port = port;
          doc_root = doc_root;
          threads = threads;
          pem = pem;
        }))

  -- `decode`, none if it returns false.
  unfoldable pub decode : Node → Outcome (Option ConnectionInfo)
  unfolding read_info
  decode node = let info = read_info node in if not (size node == 5) then ok none else info

  unfoldable pub load_server_cert : String → Outcome (Unit {0})
  load_server_cert pem = require (certificate_chain pem) >>= λ _. require (private_key pem)

  -- `v.reserve(ci.threads_ - 1)`: the difference is an int, and its conversion to a size_t wraps.
  unfoldable pub reserve_workers : ℕ → Outcome (Unit {0})
  reserve_workers threads =
      let n = if threads == 0 then 2 ^ 64 - 1 else threads - 1 in require (not (ltb max_size n))

  -- The constructor, up to the call of `ioc_.run`.
  unfoldable pub start_service : (Call → Bool) → ConnectionInfo → Outcome Service
  unfolding load_server_cert create_acceptor reserve_workers emplace_workers do_accept
      service_router
  start_service fails ci = load_server_cert ci.pem >>= λ _. require (is_address ci.address) >>= λ _.
      create_acceptor fails >>= λ _. reserve_workers ci.threads >>= λ _. ok (record {
        port = ci.port % 2 ^ 16;
        workers = emplace_workers reserved_size reserved_size;
        server = do_accept (record {
          accepts = 0;
          pending = [];
          opens = [];
          sent = [];
          router = service_router ci.doc_root;
        });
      })
