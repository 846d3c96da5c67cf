-- ===== src/Programs.antt =====
-- bin/dag_serializer_main.cpp and bin/service_main.cpp: the status that the programs exit with. The
-- lines that they print are left out, and so is the handler of SIGINT.
pub mod Status
use dag_scheduler.Base.{
  ℕ, String, Bool, Option, none, some, Outcome, ok, throws, fault, out_of_fuel, ◌>>=◌,
  if◌then◌else◌,
}
use dag_scheduler.Externals.{Externals}
use dag_scheduler.Loader.{Load, fails, done, World}
use dag_scheduler.Registry.{Libraries}
use dag_scheduler.Yaml.{Yaml}
use dag_scheduler.Deserializer.{deserialize}
use dag_scheduler.Service.Session.{Call}
use dag_scheduler.Service.Start.{Host, decode, expect_value, start_service}

-- The variables map: whether "help" is in it, and the value of the required option.
pub record Variables : Type 0 where
  pub help : Bool
  pub file : Option String

abbrev pub exit_success : ℕ
exit_success = 0

abbrev pub exit_failure : ℕ
exit_failure = 1

-- `notify` throws where the required option has no value.
unfoldable pub notify : Variables → Outcome (Unit {0})
notify vm = elim vm.file as (λ f. Outcome (Unit {0})) [ none ↦ throws | some f ↦ ok tt ]

-- A `try` block that leaves `ret` as it was, and its `catch`, which stores EXIT_FAILURE.
unfoldable pub try_status {ℓ} : {A : Type ℓ} → ℕ → Outcome A → Outcome ℕ
try_status ret (ok a) = ok ret
try_status ret throws = ok exit_failure
try_status ret fault = fault
try_status ret out_of_fuel = out_of_fuel

abbrev pub of_loader {ℓ} : {A : Type ℓ} → World × Load A → Outcome A
of_loader (w, fails e) = throws
of_loader (w, done a) = ok a

module _ ⦃env : Externals⦄ (yaml : Yaml) (libraries : Libraries) where
  -- `load_file` is `YAML::LoadFile`, and `variables` the result of `store` and `parse_command_line`,
  -- none if they throw. `as` of a value that is not there throws.
  unfoldable pub dag_serializer_main :
      (String → Option yaml.Node) → World → Option Variables → Outcome ℕ
  unfolding notify try_status deserialize
  dag_serializer_main load_file w variables = expect_value variables >>= λ vm.
      let ret : Outcome ℕ =
        if vm.help
        then ok exit_success
        else try_status exit_failure (
            expect_value vm.file >>= λ file. expect_value (load_file file) >>= λ node.
            of_loader (deserialize yaml libraries node w)) in
      ret >>= λ status. if vm.help then ok status else (notify vm >>= λ _. ok status)

module _ (host : Host) where
  unfoldable pub service_main :
      (String → Option host.Node) → (Call → Bool) → Option Variables → Outcome ℕ
  unfolding notify try_status decode start_service
  service_main load_file refuses variables = expect_value variables >>= λ vm. notify vm >>= λ _.
      if vm.help
      then ok exit_success
      else try_status exit_failure (
          expect_value vm.file >>= λ file. expect_value (load_file file) >>= λ node.
          decode host node >>= λ read. expect_value read >>= λ ci. start_service host refuses ci)
