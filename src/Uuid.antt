-- ===== src/Uuid.antt =====
-- include/dag_scheduler/uuid.h and lib/uuid.cxx. The calls of libuuid are fields of `Externals`.
use dag_scheduler.Base.{
  none, some, throws, ◌∙◌, Option, ap, ok, Outcome, ℕ, String, ◌≡◌, ◌≢◌, ◌↔◌, Bool, true, false,
  not, ◌&&◌, ◌||◌, arith, ◌==◌, if◌then◌else◌, str_eq, str_eq_iff,
}
use dag_scheduler.Externals.{Externals}

-- A UUID is its 128 bits, and the null UUID is 0: `uuid_clear` writes it.
abbrev pub null_uuid : ℕ
null_uuid = 0

-- The move constructor and the move assignment: the new value, and what is left of `other`, whose
-- destructor is called.
unfoldable pub move_uuid : ℕ → ℕ × ℕ
move_uuid other = (other, null_uuid)

unfoldable pub is_initialized : ℕ → Bool
is_initialized u = not (u == null_uuid)

pub is_initialized_iff : (u : ℕ) → (is_initialized u ≡ true) ↔ (u ≢ 0)
unfolding is_initialized
is_initialized_iff u = ground arith

module _ ⦃env : Externals⦄ where
  unfoldable pub as_string : ℕ → String
  as_string u = if is_initialized u then env.unparse_lower u else ""

  -- `operator==`
  unfoldable pub uuid_eq : ℕ → ℕ → Bool
  uuid_eq u v =
      if not (is_initialized u) && not (is_initialized v)
      then true
      else if not (is_initialized u) || not (is_initialized v)
      then false
      else str_eq (as_string u) (as_string v)

  pub as_string_iff : (u v : ℕ) → (str_eq (as_string u) (as_string v) ≡ true) ↔ (u ≡ v)
  unfolding as_string is_initialized
  as_string_iff u v = ground (
    arith,
    str_eq_iff (as_string u) (as_string v),
    env.unparse_lower-injective u v,
    env.unparse_lower_ne_empty u,
    env.unparse_lower_ne_empty v,
  )

  -- `operator==` holds exactly between a UUID and itself, the null UUID included.
  pub uuid_eq_iff : (u v : ℕ) → (uuid_eq u v ≡ true) ↔ (u ≡ v)
  unfolding uuid_eq is_initialized
  uuid_eq_iff u v = ground (arith, as_string_iff u v)

  -- The constructor with a text.
  unfoldable pub read_uuid : String → Outcome ℕ
  read_uuid user_defined_uuid = elim (env.parse user_defined_uuid) as (λ c. Outcome ℕ) [
    | none ↦ throws
    | some u ↦ ok u
  ]

  -- A UUID that is not null is read back from its text.
  pub read_uuid-as_string : (u : ℕ) → u ≢ null_uuid → read_uuid (as_string u) ≡ ok u
  unfolding read_uuid as_string is_initialized
  read_uuid-as_string u proper =
      let text : as_string u ≡ env.unparse_lower u = ground arith in
      ap (λ (o : Option ℕ). elim o as (λ c. Outcome ℕ) [ none ↦ throws | some u ↦ ok u ])
        (ap env.parse text ∙ env.parse-unparse_lower u)
