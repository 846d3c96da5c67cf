-- ===== src/Programs/Status.antt =====
-- Which runs of the programs exit with EXIT_SUCCESS.
use dag_scheduler.Base.{
  ℕ, String, Bool, true, false, Option, none, some, Outcome, ok, throws, fault, out_of_fuel, ◌>>=◌,
  ◌≡◌, ◌↔◌, ◌&&◌, refl, if◌then◌else◌, ok-injective, arith,
}
use dag_scheduler.Externals.{Externals}
use dag_scheduler.Loader.{World}
use dag_scheduler.Registry.{Libraries}
use dag_scheduler.Yaml.{Yaml}
use dag_scheduler.Service.Session.{Call}
use dag_scheduler.Service.Start.{Host}
use dag_scheduler.Service.Start.{expect_value, decode, start_service}
use dag_scheduler.Deserializer.{deserialize}
use dag_scheduler.Programs.{
  of_loader, Variables, exit_success, exit_failure, notify, try_status, dag_serializer_main,
  service_main,
}

-- The variables were read, and "help" is one of them.
abbrev pub asks_help : Option Variables → Bool
asks_help none = false
asks_help (some vm) = vm.help

-- They were read, and the required option has a value.
abbrev pub names_file : Option Variables → Bool
names_file none = false
names_file (some vm) = elim vm.file [ none ↦ false | some f ↦ true ]

not_success {ℓ} :
    {A : Type ℓ} (x : Outcome A) (k : ℕ → Outcome ℕ)
    → ((n : ℕ) → k n ≡ ok exit_success → n ≡ exit_success)
    → ¬ (try_status exit_failure x >>= k) ≡ ok exit_success
unfolding try_status
not_success (ok a) k keeps e = omega (arith, keeps exit_failure e)
not_success throws k keeps e = omega (arith, keeps exit_failure e)
not_success fault k keeps e = cc e
not_success out_of_fuel k keeps e = cc e

fails_anyway {ℓ} : {A : Type ℓ} (x : Outcome A) → ¬ (try_status exit_failure x ≡ ok exit_success)
unfolding try_status
fails_anyway (ok a) e = omega (arith, ok-injective e)
fails_anyway throws e = omega (arith, ok-injective e)
fails_anyway fault e = cc e
fails_anyway out_of_fuel e = cc e

notified : (vm : Variables) (n : ℕ) → (notify vm >>= λ _. ok n) ≡ ok exit_success → n ≡ exit_success
unfolding notify
notified vm n e =
    elim vm.file
        as (λ f.
          (((elim f as (λ f. Outcome (Unit {0})) [ none ↦ throws | some f ↦ ok tt ]) >>= λ _. ok n)
              ≡ ok exit_success
            → n ≡ exit_success)) [ none ↦ λ e. cc e | some f ↦ λ e. ok-injective e ]
      e

exits_serializer {ℓ} :
    {A : Type ℓ} (help : Bool) (vm : Variables) (x : Outcome A)
    → (((if help then ok exit_success else try_status exit_failure x) >>= λ status.
          if help then ok status else (notify vm >>= λ _. ok status))
        ≡ ok exit_success)
      ↔ (help ≡ true)
exits_serializer true vm x = (λ _. refl, λ _. refl)
exits_serializer false vm x =
    (λ e. absurd (not_success x (λ n. notify vm >>= λ _. ok n) (notified vm) e), λ e. cc e)

exits_service {ℓ} :
    {A : Type ℓ} (help : Bool) (file : Option String) (x : Outcome A)
    → (((elim file as (λ f. Outcome (Unit {0})) [ none ↦ throws | some f ↦ ok tt ]) >>= λ _.
          if help then ok exit_success else try_status exit_failure x)
        ≡ ok exit_success)
      ↔ ((help && elim file [ none ↦ false | some f ↦ true ]) ≡ true)
exits_service true none x = (λ e. cc e, λ e. cc e)
exits_service false none x = (λ e. cc e, λ e. cc e)
exits_service true (some f) x = (λ _. refl, λ _. refl)
exits_service false (some f) x = (λ e. absurd (fails_anyway x e), λ e. cc e)

module _ ⦃env : Externals⦄ (yaml : Yaml) (libraries : Libraries) where
  -- The program that deserializes a DAG exits with EXIT_SUCCESS exactly if it is asked for help: a
  -- document that it deserializes ends in EXIT_FAILURE, too.
  pub dag_serializer_main_lem :
      (load_file : String → Option yaml.Node) (w : World) (variables : Option Variables)
      → (dag_serializer_main yaml libraries load_file w variables ≡ ok exit_success)
        ↔ (asks_help variables ≡ true)
  unfolding dag_serializer_main
  dag_serializer_main_lem load_file w none = (λ e. cc e, λ e. cc e)
  dag_serializer_main_lem load_file w (some vm) = exits_serializer vm.help vm (
      expect_value vm.file >>= λ file.
      expect_value (load_file file) >>= λ node. of_loader (deserialize yaml libraries node w))

-- The service exits with EXIT_SUCCESS exactly if it is asked for help and has its required option.
pub service_main_lem :
    (host : Host) (load_file : String → Option host.Node) (refuses : Call → Bool)
    (variables : Option Variables)
    → (service_main host load_file refuses variables ≡ ok exit_success)
      ↔ ((asks_help variables && names_file variables) ≡ true)
unfolding service_main notify
service_main_lem host load_file refuses none = (λ e. cc e, λ e. cc e)
service_main_lem host load_file refuses (some vm) = exits_service vm.help vm.file (
    expect_value vm.file >>= λ file. expect_value (load_file file) >>= λ node.
    decode host node >>= λ read. expect_value read >>= λ ci. start_service host refuses ci)
