-- ===== src/Registry.antt =====
-- lib/dynamic_library_registry.cxx. The items of the unordered_set are known by their names.
use dag_scheduler.Base.{
  ◌⊎◌, inl, inr, Bool-cases, arith, ap, ◌∙◌, str_eq_iff, ◌≡◌, refl, true, ℕ, String, Bool, false,
  ◌||◌, List, [], ◌∷◌, ◌++◌, Option, if◌then◌else◌, str_eq,
}
use dag_scheduler.Externals.{TaskStage}
use dag_scheduler.Loader.{Exception, Load, fails, done, Loader, World}

-- boost.dll. `loads` is whether a library can be loaded; `symbols` are those of a section, none if
-- the library cannot be read; the others are the imports of a symbol, none if they throw.
pub record Libraries : Type 0 where
  pub loads : String → Bool
  pub symbols : String → String → Option (List String)
  pub function_alias : String → String → Option ℕ
  pub plugin_alias : String → String → Option ℕ
  pub stage_alias : String → String → Option (String → Option TaskStage)

abbrev pub is_member : List String → String → Bool
is_member [] name = false
is_member (x ∷ xs) name = str_eq x name || is_member xs name

-- The registry with the name.
abbrev pub with_item : World → String → World
with_item w name =
    if is_member w.registry name then w else record w { registry = w.registry ++ name ∷ [] }

is_member-append :
    (xs ys : List String) (name : String)
    → is_member (xs ++ ys) name ≡ (is_member xs name || is_member ys name)
is_member-append [] ys name = refl
is_member-append (x ∷ xs) ys name = ground (arith, is_member-append xs ys name)

is_member-with_item :
    (w : World) (name : String) → is_member (with_item w name).registry name ≡ true
is_member-with_item w name =
    ground (arith, is_member-append w.registry (name ∷ []) name, str_eq_iff name name)

with_item_others :
    (w : World) (name other : String)
    → str_eq name other ≡ false
    → is_member (with_item w name).registry other ≡ is_member w.registry other
with_item_others w name other h = ground (arith, is_member-append w.registry (name ∷ []) other)

with_item_self :
    (w : World) (name : String) → is_member w.registry name ≡ true → with_item w name ≡ w
with_item_self w name h = rw h refl

module _ (libraries : Libraries) where
  -- The constructor of RegistryItem: the library is loaded for each call.
  unfoldable pub make_item : String → Load String
  make_item name = if libraries.loads name then done name else fails Exception.runtime

  unfoldable pub register_dynamic_library : String → Loader String
  unfolding make_item
  register_dynamic_library name w = elim (make_item name) [
    | fails e ↦ (w, fails e)
    | done item ↦ (
      if is_member w.registry item then w else record w { registry = w.registry ++ item ∷ [] },
      done item,
    )
  ]

  pub register_loaded :
      (name : String) (w : World)
      → libraries.loads name ≡ true
      → register_dynamic_library name w ≡ (with_item w name, done name)
  unfolding register_dynamic_library make_item
  register_loaded name w h = rw (h, register_dynamic_library) refl

  pub register_missing :
      (name : String) (w : World)
      → libraries.loads name ≡ false
      → register_dynamic_library name w ≡ (w, fails Exception.runtime)
  unfolding register_dynamic_library make_item
  register_missing name w h = rw (h, register_dynamic_library) refl

  -- The registry has the name afterwards and no other new one, and another call with the name finds
  -- it and changes nothing. A library that does not load leaves the registry as it was.
  pub register_dynamic_library_lem :
      (name : String) (w : World)
      → ((libraries.loads name ≡ true)
          × ((w' : World) × (register_dynamic_library name w ≡ (w', done name))
              × (is_member w'.registry name ≡ true)
              × ((other : String)
                  → str_eq name other ≡ false
                  → is_member w'.registry other ≡ is_member w.registry other)
              × (register_dynamic_library name w' ≡ (w', done name))))
        ⊎ ((libraries.loads name ≡ false)
            × (register_dynamic_library name w ≡ (w, fails Exception.runtime)))
  register_dynamic_library_lem name w = elim (Bool-cases (libraries.loads name)) [
    | inl y ↦
        let again = is_member-with_item w name in
        let found = register_loaded name (with_item w name) y in
        let same = ap (λ w'. (w', done name)) (with_item_self (with_item w name) name again) in
        inl (
          y,
          (
            with_item w name,
            register_loaded name w y,
            again,
            with_item_others w name,
            found ∙ same,
          ),
        )
    | inr n ↦ inr (n, register_missing name w n)
  ]
