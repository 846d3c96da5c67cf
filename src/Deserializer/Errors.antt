-- ===== src/Deserializer/Errors.antt =====
-- Which exceptions the callbacks and the stages of a task end in, and what a task is made of.
use dag_scheduler.Deserializer.Symbols.{verify_symbol_present, found_in}
use dag_scheduler.Base.{
  false, inl, inr, Bool-cases, ℕ, ◌≡◌, ◌⊎◌, inl, inr, refl, List, none, some, String,
}
use dag_scheduler.Externals.{Externals, TaskStage}
use dag_scheduler.Task.{Task}
use dag_scheduler.Task.Create.{create}
use dag_scheduler.Loader.{done, is_runtime, ◌>>=◌, Exception, Loader, World, draw}
use dag_scheduler.Loader.Ends.{
  Ensures, catching-Ensures, if-Ensures, IsOther, Others, bind-Others, expect-Others,
  return-Ensures, throw-Ensures, Ends, ensure,
}
use dag_scheduler.Registry.{Libraries, register_dynamic_library, register_loaded, register_missing}
use dag_scheduler.Yaml.{Yaml, get_string}
use dag_scheduler.Deserializer.{
  make_task_callback, make_callback, make_task_function_callback,
  make_task_function_callback_plugin, callback_type_from_string, CallbackType,
}

type-Ensures :
    {E : Exception → Type 0} {P : Task → Type 0} (k : CallbackType) (x y z : Loader Task)
    → Ensures E P x
    → Ensures E P y
    → Ensures E P z
    → Ensures E P
        (elim k [ CallbackType.function ↦ x | CallbackType.plugin ↦ y | CallbackType.dne ↦ z ])
type-Ensures CallbackType.function x y z h i j = h
type-Ensures CallbackType.plugin x y z h i j = i
type-Ensures CallbackType.dne x y z h i j = j

refused :
    (e : Exception)
    → IsOther e
    → is_runtime e ≡ false
    → (e ≡ Exception.deserializer) ⊎ (e ≡ Exception.unsupported_callback)
refused Exception.wrong_type h k = absurd h
refused Exception.deserializer h k = inl refl
refused Exception.unsupported_callback h k = inr refl
refused e h k = cc

draw-Others : ⦃env : Externals⦄ → Others (draw env.generate)
draw-Others = ensure (λ w. tt)

module _ ⦃env : Externals⦄ (yaml : Yaml) (libraries : Libraries) where
  get_string-Others : (node : yaml.Node) (key : String) → Others (get_string yaml node key)
  unfolding get_string
  get_string-Others node key =
      bind-Others _ (expect-Others _ _ tt)
        (λ found. bind-Others _ (expect-Others _ _ tt) (λ value. expect-Others _ _ tt))

  register-Ends :
      (name : String) (w : World)
      → Ends IsOther (λ _. Unit) (register_dynamic_library libraries name w).1
  register-Ends name w = elim (Bool-cases (libraries.loads name)) [
    | inl y ↦ rw (register_loaded libraries name w y) tt
    | inr n ↦ rw (register_missing libraries name w n) tt
  ]

  found_in-Others :
      (library symbol_name section_name : String)
      → Others (found_in libraries library symbol_name section_name)
  unfolding found_in verify_symbol_present
  found_in-Others library symbol_name section_name =
      bind-Others _ (bind-Others _ (expect-Others _ _ tt) (λ symbols. return-Ensures _ tt))
        (λ (present, text). return-Ensures _ tt)

  function_callback-Others :
      (library symbol_name : String)
      → Others (make_task_function_callback yaml libraries library symbol_name)
  unfolding make_task_function_callback
  function_callback-Others library symbol_name =
      bind-Others _ (found_in-Others library symbol_name "TaskCb")
        (λ found. if-Ensures found _ _ (expect-Others _ _ tt) (throw-Ensures _ tt))

  plugin_callback-Others :
      (library symbol_name : String)
      → Others (make_task_function_callback_plugin yaml libraries library symbol_name)
  unfolding make_task_function_callback_plugin
  plugin_callback-Others library symbol_name =
      bind-Others _ (found_in-Others library symbol_name "TaskCb") (λ found.
        if-Ensures found _ _ (bind-Others _ (expect-Others _ _ tt) (λ p. return-Ensures _ tt))
          (throw-Ensures _ tt))

  module _ (stages : List TaskStage) (label json_config json_initial_inputs : String) where
    -- The task has the stages, the label, the documents and one of the callbacks.
    pub record HasCallback (t : Task) : Type 0 where
      pub same_stages : t.stages ≡ stages
      pub same_label : t.label ≡ label
      pub same_config : t.json_config ≡ some json_config
      pub same_inputs : t.json_initial_inputs ≡ some json_initial_inputs
      pub one_callback :
          ((f : ℕ) × (t.complete_callback ≡ some f) × (t.complete_callback_plugin ≡ none))
          ⊎ ((p : ℕ) × (t.complete_callback ≡ none) × (t.complete_callback_plugin ≡ some p))

    make_callback-Ensures :
        (node : yaml.Node) (name : String)
        → Ensures IsOther HasCallback
            (make_callback yaml libraries label stages node name json_config json_initial_inputs)
    unfolding make_callback create
    make_callback-Ensures node name = bind-Others _ (ensure (λ w. register-Ends name w)) (λ library.
        bind-Others _ (expect-Others _ _ tt) (λ found. bind-Others _ (expect-Others _ _ tt) (λ type.
          bind-Others _ (expect-Others _ _ tt) (λ enum_str.
            type-Ensures (callback_type_from_string enum_str) _ _ _
              (bind-Others _ (get_string-Others node "SymbolName") (λ symbol_name.
                bind-Others _ (function_callback-Others library symbol_name) (λ f.
                  bind-Others _ draw-Others (λ uuid. return-Ensures _ (record {
                    same_stages = refl;
                    same_label = refl;
                    same_config = refl;
                    same_inputs = refl;
                    one_callback = inl (f, refl, refl);
                  })))))
              (bind-Others _ (get_string-Others node "SymbolName") (λ symbol_name.
                bind-Others _ (plugin_callback-Others library symbol_name) (λ loaded.
                  bind-Others _ (expect-Others _ _ tt) (λ p. bind-Others _ draw-Others (λ uuid.
                    return-Ensures _ (record {
                      same_stages = refl;
                      same_label = refl;
                      same_config = refl;
                      same_inputs = refl;
                      one_callback = inr (p, refl, refl);
                    }))))))
              (throw-Ensures _ tt)))))

    -- A callback whose library name is read is made, and the task has the stages, the label, the
    -- documents and either a function or a plugin; or it ends in one of the two errors of the
    -- deserializer.
    pub make_task_callback_lem :
        (node : yaml.Node) (name : String) (w : World)
        → get_string yaml node "LibraryName" w ≡ (w, done name)
        → Ends
            (λ e. (e ≡ Exception.deserializer) ⊎ (e ≡ Exception.unsupported_callback))
            HasCallback
            (make_task_callback yaml libraries label stages node json_config json_initial_inputs
              w).1
    unfolding make_task_callback ◌>>=◌
    make_task_callback_lem node name w h =
        rw h
          ((catching-Ensures IsOther (make_callback-Ensures node name) refused (inl refl)).ends w)
