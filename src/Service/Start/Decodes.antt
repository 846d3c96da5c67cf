-- ===== src/Service/Start/Decodes.antt =====
-- What a ConnectionInfo that was decoded satisfies.
use dag_scheduler.Base.{
  ◌^◌, ◌<◌, String, Bool, true, false, not, Option, none, some, Outcome, ok, ◌>>=◌, ok-injective,
  ◌≡◌, ◌≢◌, refl, sym, ap, ◌∙◌, if◌then◌else◌, str_eq, str_eq_iff, Bool-cases, inl, inr, ◌==◌,
  arith, subst,
}
use mathlib.Core.Bool.{false≢true}
use dag_scheduler.Service.Start.{ConnectionInfo, Host, expect_value, read_info, decode}

bind_value {ℓ κ} :
    {A : Type ℓ} {B : Type κ} (o : Option A) (k : A → Outcome B) (b : B)
    → (expect_value o >>= k) ≡ ok b
    → (a : A) × (o ≡ some a) × (k a ≡ ok b)
bind_value none k b e = cc e
bind_value (some a) k b e = (a, refl, e)

unwrap {ℓ} : {A : Type ℓ} {a b : A} → some a ≡ some b → a ≡ b
unwrap {a = a} e = ap (λ o. elim o [ none ↦ a | some c ↦ c ]) e

abbrev resolved : String → String
resolved address = if str_eq address "localhost" then "127.0.0.1" else address

resolved_not_local : (address : String) → resolved address ≢ "localhost"
resolved_not_local address e = elim (Bool-cases (str_eq address "localhost")) [
  | inl same ↦ false≢true (
      (str_eq_iff "127.0.0.1" "localhost").1
        (sym (ap (λ (b : Bool). if b then "127.0.0.1" else address) same) ∙ e))
  | inr other ↦ false≢true (
      sym other
      ∙ (str_eq_iff address "localhost").1
          (sym (ap (λ (b : Bool). if b then "127.0.0.1" else address) other) ∙ e))
]

module _ (host : Host) where
  read_info_lem :
      (node : host.Node) (ci : ConnectionInfo)
      → read_info host node ≡ ok (some ci)
      → (ci.port < 2 ^ 32) × (ci.threads < 2 ^ 16) × (ci.address ≢ "localhost")
  unfolding read_info
  read_info_lem node ci e0 =
      let (address, _, e1) = bind_value (host.get_string node "address") _ (some ci) e0 in
      let (port, is_port, e2) = bind_value (host.get_uint 32 node "port") _ (some ci) e1 in
      let (doc_root, _, e3) = bind_value (host.get_string node "doc-root") _ (some ci) e2 in
      let (threads, is_threads, e4) = bind_value (host.get_uint 16 node "threads") _ (some ci) e3 in
      let (pem, _, e5) = bind_value (host.get_string node "pem") _ (some ci) e4 in
      let same = unwrap (ok-injective e5) in
      (
        subst (λ p. p < 2 ^ 32) (ap (λ c. c.port) same)
            (host.get_uint-bound 32 node "port" port is_port),
        subst (λ t. t < 2 ^ 16) (ap (λ c. c.threads) same)
            (host.get_uint-bound 16 node "threads" threads is_threads),
        λ local. resolved_not_local address (ap (λ c. c.address) same ∙ local),
      )

  read_of_decode :
      (node : host.Node) (five : Bool) (ci : ConnectionInfo)
      → (if not five then ok none else read_info host node) ≡ ok (some ci)
      → (five ≡ true) × (read_info host node ≡ ok (some ci))
  read_of_decode node true ci e = (refl, e)
  read_of_decode node false ci e = cc e

  -- A ConnectionInfo that `decode` gives comes from a node of five keys; its port and its number of
  -- threads fit their types, and its address is not the name "localhost".
  pub decode_lem :
      (node : host.Node) (ci : ConnectionInfo)
      → decode host node ≡ ok (some ci)
      → (host.size node ≡ 5)
        × (ci.port < 2 ^ 32)
        × (ci.threads < 2 ^ 16)
        × (ci.address ≢ "localhost")
  unfolding decode
  decode_lem node ci e =
      let (five, read) = read_of_decode node (host.size node == 5) ci e in
      let (port, threads, address) = read_info_lem node ci read in
      (ground (arith, five), port, threads, address)
