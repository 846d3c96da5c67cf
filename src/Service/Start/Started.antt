-- ===== src/Service/Start/Started.antt =====
-- When the service starts, and in what state.
use dag_scheduler.Base.{
  [], ℕ, ◌%◌, ◌^◌, ◌<◌, Bool, true, false, not, ◌&&◌, Outcome, ok, throws, ◌>>=◌, ◌≡◌, ◌⊎◌, inl,
  inr, refl, ap, ◌∙◌, if◌then◌else◌, Bool-cases, ◌==◌, arith,
}
use dag_scheduler.Service.{Beast}
use dag_scheduler.Service.Router.{service_router}
use dag_scheduler.Service.Session.{Call, create_acceptor, do_accept, Served}
use dag_scheduler.Service.Start.{
  ConnectionInfo, Host, Service, require, emplace_workers, load_server_cert, reserve_workers,
  start_service,
}

abbrev pub none_fails : (Call → Bool) → Bool
none_fails fails =
    not (fails Call.opening)
    && not (fails Call.reuse_address)
    && not (fails Call.keep_alive)
    && not (fails Call.bind)
    && not (fails Call.listen)

create_acceptor_lem : (fails : Call → Bool) → create_acceptor fails ≡ require (none_fails fails)
unfolding create_acceptor
create_acceptor_lem fails = ground arith

chain {ℓ} :
    {A : Type ℓ} (a b c d e : Bool) (k : Outcome A)
    → ((require a >>= λ _. require b) >>= λ _.
        require c >>= λ _. require d >>= λ _. require e >>= λ _. k)
      ≡ (if a && b && c && d && e then k else throws)
chain false b c d e k = refl
chain true false c d e k = refl
chain true true false d e k = refl
chain true true true false e k = refl
chain true true true true false k = refl
chain true true true true true k = refl

module _ (host : Host) where
  -- The certificate, the key and the address can be used, no call of the acceptor fails, and the
  -- number of threads is not 0.
  abbrev pub is_ready : (Call → Bool) → ConnectionInfo → Bool
  is_ready fails ci =
      host.certificate_chain ci.pem
      && host.private_key ci.pem
      && host.is_address ci.address
      && none_fails fails
      && not (ci.threads == 0)

  reserve_workers_lem :
      (threads : ℕ) → threads < 2 ^ 16 → reserve_workers host threads ≡ require (not (threads == 0))
  unfolding reserve_workers
  reserve_workers_lem threads small =
      ap require (ground (arith, host.max_size_low, host.max_size_high))

  module _ ⦃beast : Beast⦄ where
    started_service : ConnectionInfo → Service
    started_service ci = record {
      port = ci.port % 2 ^ 16;
      workers = 0;
      server = record {
        accepts = 1;
        pending = [];
        opens = [];
        sent = [];
        router = service_router ci.doc_root;
      };
    }

    start_service_if :
        (fails : Call → Bool) (ci : ConnectionInfo)
        → ci.threads < 2 ^ 16
        → start_service host fails ci
          ≡ (if is_ready fails ci then ok (started_service ci) else throws)
    unfolding start_service load_server_cert emplace_workers do_accept started_service
    start_service_if fails ci small =
        rw (create_acceptor_lem fails, reserve_workers_lem ci.threads small)
          (chain (host.certificate_chain ci.pem) (host.private_key ci.pem)
            (host.is_address ci.address) (none_fails fails) (not (ci.threads == 0))
            (ok (started_service ci)))

    -- The constructor of WorkflowService, for a number of threads that fits its type. It throws unless
    -- the information is ready; if it is, then the service runs at the port modulo 2^16 as a server
    -- from whose state the session's theorems start, and no thread but that of the caller serves it,
    -- whatever number was asked for.
    pub start_service_lem :
        (fails : Call → Bool) (ci : ConnectionInfo)
        → ci.threads < 2 ^ 16
        → ((is_ready fails ci ≡ true)
            × ((service : Service) × (start_service host fails ci ≡ ok service)
                × (service.port ≡ ci.port % 2 ^ 16)
                × (service.workers ≡ 0)
                × Served (service_router ci.doc_root) service.server))
          ⊎ ((is_ready fails ci ≡ false) × (start_service host fails ci ≡ throws))
    unfolding started_service
    start_service_lem fails ci small = elim (Bool-cases (is_ready fails ci)) [
      | inl ready ↦ inl (
        ready,
        (
          started_service ci,
          start_service_if fails ci small
              ∙ ap (λ (b : Bool). if b then ok (started_service ci) else throws) ready,
          refl,
          refl,
          Served.started,
        ),
      )
      | inr bad ↦ inr (
        bad,
        start_service_if fails ci small
            ∙ ap (λ (b : Bool). if b then ok (started_service ci) else throws) bad,
      )
    ]
