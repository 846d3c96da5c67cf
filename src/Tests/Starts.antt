-- ===== src/Tests/Starts.antt =====
-- Witnesses for the theorems on the start of the service and on the programs.
use dag_scheduler.Base.{
  ℕ, ◌-◌, ◌%◌, ◌^◌, ◌<◌, ◌≡◌, ◌⊎◌, refl, arith, String, Bool, true, false, Option, none, some, ok,
  throws, if◌then◌else◌, str_eq, ltb, ap, subst,
}
use dag_scheduler.Service.Router.{service_router}
use dag_scheduler.Service.Session.{Call, Served}
use dag_scheduler.Service.Start.{ConnectionInfo, Host, Service, start_service}
use dag_scheduler.Service.Start.Started.{is_ready, start_service_lem}
use dag_scheduler.Tests.{sample}
use dag_scheduler.Tests.Serving.{beast}

abbrev number_of : String → ℕ
number_of key = if str_eq key "port" then 8080 else 4

abbrev read_number : ℕ → String → Option ℕ
read_number w key = if ltb (number_of key) (2 ^ w) then some (number_of key) else none

read_number_fits :
    (n m v : ℕ) (b : Bool) → ltb n m ≡ b → (if b then some n else none) ≡ some v → v < m
read_number_fits n m v true fits e =
    subst (λ k. k < m) (ap (λ (o : Option ℕ). elim o [ none ↦ n | some k ↦ k ]) e)
      (ground (arith, fits))
read_number_fits n m v false fits e = cc e

-- A file with the five keys.
abbrev host : Host
host = record {
  Node = Unit {0};
  size = λ n. 5;
  get_string = λ n key. some (if str_eq key "address" then "localhost" else "/srv");
  get_uint = λ w n key. read_number w key;
  get_uint-bound = λ w n key v e.
      read_number_fits (number_of key) (2 ^ w) v (ltb (number_of key) (2 ^ w)) refl e;
  certificate_chain = λ pem. true;
  private_key = λ pem. true;
  is_address = λ a. true;
  max_size = 2 ^ 60 - 1;
  max_size_low = omega arith;
  max_size_high = omega arith;
}

abbrev info : ConnectionInfo
info = record { address = "127.0.0.1"; port = 8080; doc_root = "/srv"; threads = 4; pem = "/srv" }

abbrev all_succeed : Call → Bool
all_succeed c = false

starts_info :
    ((is_ready host all_succeed info ≡ true)
      × ((service : Service) × (start_service host all_succeed info ≡ ok service)
          × (service.port ≡ info.port % 2 ^ 16)
          × (service.workers ≡ 0)
          × Served (service_router info.doc_root) service.server))
    ⊎ ((is_ready host all_succeed info ≡ false) × (start_service host all_succeed info ≡ throws))
starts_info = start_service_lem host all_succeed info (omega arith)
