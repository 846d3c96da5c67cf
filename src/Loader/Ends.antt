-- ===== src/Loader/Ends.antt =====
-- How the parts of the deserializer can end, as a property of a part.
use dag_scheduler.Base.{
  Bool, true, false, Option, none, some, if◌then◌else◌, Bool-cases, inl, inr, ◌≡◌, refl,
}
use dag_scheduler.Loader.{
  Exception, Load, fails, done, World, Loader, continue, ◌>>=◌, throw, return, expect, rethrow,
  catching,
}

-- An exception with the first property, or a value with the second.
abbrev pub Ends : {A : Type 0} → (Exception → Type 0) → (A → Type 0) → Load A → Type 0
Ends E P (fails e) = E e
Ends E P (done a) = P a

-- Each run of a part ends so.
pub record Ensures {A : Type 0} (E : Exception → Type 0) (P : A → Type 0) (part : Loader A)
    : Type 0 where
  pub ends : (w : World) → Ends E P (part w).1

continue-Ends :
    {A B : Type 0} (E : Exception → Type 0) (P : A → Type 0) (Q : B → Type 0) (next : A → Loader B)
    (r : World × Load A)
    → Ends E P r.1
    → ((a : A) → P a → Ensures E Q (next a))
    → Ends E Q (continue next r).1
continue-Ends E P Q next (w, fails e) h k = h
continue-Ends E P Q next (w, done a) h k = (k a h).ends w

rethrow-Ends :
    {A : Type 0} (E F : Exception → Type 0) (P : A → Type 0) (test : Exception → Bool)
    (e : Exception) (r : World × Load A)
    → Ends F P r.1
    → ((c : Exception) → F c → test c ≡ false → E c)
    → E e
    → Ends E P (rethrow test e r).1
rethrow-Ends E F P test e (w, done a) h k caught = h
rethrow-Ends E F P test e (w, fails c) h k caught = elim (Bool-cases (test c)) [
  | inl y ↦ rw y caught
  | inr n ↦ rw n (k c h n)
]

module _ {A : Type 0} where
  pub ensure :
      {E : Exception → Type 0} {P : A → Type 0} {part : Loader A}
      → ((w : World) → Ends E P (part w).1)
      → Ensures E P part
  ensure h = record { ends = h }

  pub return-Ensures :
      {E : Exception → Type 0} {P : A → Type 0} (a : A) → P a → Ensures E P (return a)
  return-Ensures a h = record { ends = λ w. h }

  pub throw-Ensures :
      {E : Exception → Type 0} {P : A → Type 0} (e : Exception) → E e → Ensures E P (throw e)
  throw-Ensures e h = record { ends = λ w. h }

  pub catching-Ensures :
      {E : Exception → Type 0} {P : A → Type 0} (F : Exception → Type 0) {test : Exception → Bool}
      {e : Exception} {body : Loader A}
      → Ensures F P body
      → ((c : Exception) → F c → test c ≡ false → E c)
      → E e
      → Ensures E P (catching test e body)
  unfolding catching
  catching-Ensures {E = E} {P = P} F {test = test} {e = e} {body = body} h k caught = record {
    ends = λ w. rethrow-Ends E F P test e (body w) (h.ends w) k caught;
  }

  expect-Ends :
      (E : Exception → Type 0) (P : A → Type 0) (e : Exception) (o : Option A) (w : World)
      → E e
      → ((a : A) → o ≡ some a → P a)
      → Ends E P (expect e o w).1
  unfolding expect
  expect-Ends E P e none w h k = h
  expect-Ends E P e (some a) w h k = k a refl

  pub expect-Ensures :
      {E : Exception → Type 0} {P : A → Type 0} (e : Exception) (o : Option A)
      → E e
      → ((a : A) → o ≡ some a → P a)
      → Ensures E P (expect e o)
  expect-Ensures {E = E} {P = P} e o h k = record { ends = λ w. expect-Ends E P e o w h k }

  any_end : (r : Load A) → Ends (λ _. Unit) (λ _. Unit) r
  any_end (fails e) = tt
  any_end (done a) = tt

  pub any_part : (part : Loader A) → Ensures (λ _. Unit) (λ _. Unit) part
  any_part part = record { ends = λ w. any_end (part w).1 }

weaken-Ends :
    {A : Type 0} (E : Exception → Type 0) (P Q : A → Type 0) (r : Load A)
    → Ends E P r
    → ((a : A) → P a → Q a)
    → Ends E Q r
weaken-Ends E P Q (fails e) h k = h
weaken-Ends E P Q (done a) h k = k a h

pub weaken :
    {A : Type 0} {E : Exception → Type 0} {P Q : A → Type 0} {part : Loader A}
    → Ensures E P part
    → ((a : A) → P a → Q a)
    → Ensures E Q part
weaken {E = E} {P = P} {Q = Q} {part = part} h k = record {
  ends = λ w. weaken-Ends E P Q (part w).1 (h.ends w) k;
}

module _ {A B : Type 0} where
  pub bind-Ensures :
      {E : Exception → Type 0} {Q : B → Type 0} (P : A → Type 0) {first : Loader A}
      {next : A → Loader B}
      → Ensures E P first
      → ((a : A) → P a → Ensures E Q (next a))
      → Ensures E Q (first >>= next)
  unfolding ◌>>=◌
  bind-Ensures {E = E} {Q = Q} P {first = first} {next = next} h k = record {
    ends = λ w. continue-Ends E P Q next (first w) (h.ends w) k;
  }

  -- Where the exceptions and the first value do not matter.
  pub bind_any :
      {Q : B → Type 0} (first : Loader A) {next : A → Loader B}
      → ((a : A) → Ensures (λ _. Unit) Q (next a))
      → Ensures (λ _. Unit) Q (first >>= next)
  bind_any first k = bind-Ensures (λ _. Unit) (any_part first) (λ a _. k a)

module _ {A : Type 0} {E : Exception → Type 0} {P : A → Type 0} where
  pub if-Ensures :
      (b : Bool) (x y : Loader A) → Ensures E P x → Ensures E P y → Ensures E P (if b then x else y)
  if-Ensures true x y h k = h
  if-Ensures false x y h k = k

  pub option-Ensures :
      {B : Type 0} (o : Option B) (x : Loader A) (f : B → Loader A)
      → Ensures E P x
      → ((b : B) → Ensures E P (f b))
      → Ensures E P (elim o [ none ↦ x | some b ↦ f b ])
  option-Ensures none x f h k = h
  option-Ensures (some b) x f h k = k b

-- Not an exception that a wrong type is reported with.
abbrev pub IsOther : Exception → Type 0
IsOther Exception.wrong_type = ⊥
IsOther _ = Unit

-- The part throws no such exception.
abbrev pub Others : {A : Type 0} → Loader A → Type 0
Others part = Ensures IsOther (λ _. Unit) part

module _ {A B : Type 0} where
  pub bind-Others :
      {Q : B → Type 0} (first : Loader A) {next : A → Loader B}
      → Others first
      → ((a : A) → Ensures IsOther Q (next a))
      → Ensures IsOther Q (first >>= next)
  bind-Others first h k = bind-Ensures (λ _. Unit) h (λ a _. k a)

pub expect-Others : {A : Type 0} (e : Exception) (o : Option A) → IsOther e → Others (expect e o)
expect-Others e o h = expect-Ensures e o h (λ _ _. tt)
