-- ===== src/Loader.antt =====
-- How the parts of lib/dag_serialization.cxx and lib/dynamic_library_registry.cxx end, and what they
-- share: the exceptions, the static registry of libraries, and the UUIDs that are drawn.
pub mod Ends
use dag_scheduler.Base.{
  ◌+◌, ℕ, String, Bool, true, false, List, Option, none, some, if◌then◌else◌, Bool-cases, inl, inr,
  ◌≡◌, refl,
}

-- YAMLDagWrongTypeError, YAMLDagDeserializerError, YAMLDagDeserializerNonSupportedCallbackType, and
-- those of other libraries: std::runtime_error itself, and boost::system::system_error and
-- YAML::Exception, which derive from it.
pub data Exception : Type 0 where
  wrong_type deserializer unsupported_callback runtime system yaml : Exception

-- `catch (std::runtime_error &)` takes it.
abbrev pub is_runtime : Exception → Bool
is_runtime Exception.runtime = true
is_runtime Exception.system = true
is_runtime Exception.yaml = true
is_runtime _ = false

abbrev pub is_system : Exception → Bool
is_system Exception.system = true
is_system _ = false

pub data Load {ℓ} (A : Type ℓ) : Type ℓ where
  fails : Exception → Load A
  done : A → Load A

-- `registry` holds the names of the items of `registery_`; `draws` counts the UUIDs drawn.
pub record World : Type 0 where
  pub registry : List String
  pub draws : ℕ

abbrev pub Loader : Type 0 → Type 0
Loader A = World → World × Load A

module _ {A B : Type 0} where
  abbrev pub continue : (A → Loader B) → World × Load A → World × Load B
  continue next (w, fails e) = (w, fails e)
  continue next (w, done a) = next a w

  infixl 5 ◌>>=◌
  unfoldable pub ◌>>=◌ : Loader A → (A → Loader B) → Loader B
  ◌>>=◌ first next w = continue next (first w)

module _ {A : Type 0} where
  abbrev pub lift : Load A → Loader A
  lift result w = (w, result)

  abbrev pub throw : Exception → Loader A
  throw e w = (w, fails e)

  abbrev pub return : A → Loader A
  return a w = (w, done a)

  -- `throws` where there is no value.
  unfoldable pub expect : Exception → Option A → Loader A
  expect e none = throw e
  expect e (some a) = return a

  abbrev pub rethrow : (Exception → Bool) → Exception → World × Load A → World × Load A
  rethrow test e (w, done a) = (w, done a)
  rethrow test e (w, fails caught) = (w, fails (if test caught then e else caught))

  -- `try { … } catch`: an exception that passes the test is replaced.
  unfoldable pub catching : (Exception → Bool) → Exception → Loader A → Loader A
  catching test e body w = rethrow test e (body w)

abbrev pub draw : (ℕ → ℕ) → Loader ℕ
draw generate w = (record w { draws = w.draws + 1 }, done (generate w.draws))
