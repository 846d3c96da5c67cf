-- ===== src/Deserializer.antt =====
-- lib/dag_serialization.cxx: from a YAML document to a DAG. Log messages are left out, and an error is
-- known by its class.
pub mod Symbols
pub mod Sound
pub mod Errors
pub mod Order
pub mod Missing
pub mod Cases
use Prim.Native.Char.{code}
use dag_scheduler.Base.{
  ℕ, ◌+◌, String, Bool, true, false, not, ◌&&◌, ◌||◌, List, [], ◌∷◌, ◌++◌, Option, none, some,
  if◌then◌else◌, str_eq, ◌==◌, leb, map,
}
use dag_scheduler.Externals.{Externals, TaskStage}
use dag_scheduler.Task.{Task}
use dag_scheduler.Task.Create.{create}
use dag_scheduler.Vertex.{make_vertex}
use dag_scheduler.Dag.{Dag, make_dag, add_vertex}
use dag_scheduler.Loader.{
  Exception, Load, fails, done, World, Loader, ◌>>=◌, lift, throw, return, expect, catching, draw,
  is_runtime, is_system,
}
use dag_scheduler.Registry.{Libraries, register_dynamic_library}
use dag_scheduler.Yaml.{Yaml, get, get_string, get_name, get_document}
use dag_scheduler.Deserializer.Symbols.{verify_symbol_present, found_in}

-- `YAMLDagDeserializer::CallbackType`
pub data CallbackType : Type 0 where
  function plugin dne : CallbackType

abbrev pub codes : String → List ℕ
codes String.[] = []
codes (String.◌∷◌ c s) = code c ∷ codes s

-- `tolower` in the C locale.
unfoldable pub to_lower : ℕ → ℕ
to_lower c = if leb 65 c && leb c 90 then c + 32 else c

abbrev pub codes_eq : List ℕ → List ℕ → Bool
codes_eq [] [] = true
codes_eq [] (d ∷ ds) = false
codes_eq (c ∷ cs) [] = false
codes_eq (c ∷ cs) (d ∷ ds) = c == d && codes_eq cs ds

unfoldable pub callback_type_from_string : String → CallbackType
unfolding to_lower
callback_type_from_string enum_str =
    let lower = map to_lower (codes enum_str) in
    if codes_eq lower (codes "function")
    then CallbackType.function
    else if codes_eq lower (codes "plugin")
    then CallbackType.plugin
    else CallbackType.dne

module _ (yaml : Yaml) where
  open yaml use {Node, is_map, is_sequence, as_string, as_nodes}

  module _ ⦃env : Externals⦄ (libraries : Libraries) where
    unfoldable pub make_task_function_callback : String → String → Loader ℕ
    unfolding found_in
    make_task_function_callback library symbol_name =
        found_in libraries library symbol_name "TaskCb" >>= λ found.
        if found
        then expect Exception.system (libraries.function_alias library symbol_name)
        else throw Exception.deserializer

    unfoldable pub make_task_function_callback_plugin : String → String → Loader (Option ℕ)
    unfolding found_in
    make_task_function_callback_plugin library symbol_name =
        found_in libraries library symbol_name "TaskCb" >>= λ found.
        if found
        then (expect Exception.system (libraries.plugin_alias library symbol_name) >>= λ p.
            return (some p))
        else throw Exception.deserializer

    unfoldable pub dynamically_load_stage : String → String → String → Loader (Option TaskStage)
    unfolding found_in
    dynamically_load_stage library symbol_name stage_name =
        found_in libraries library symbol_name "Stages" >>= λ found.
        if found
        then (expect Exception.system (libraries.stage_alias library symbol_name) >>= λ creator.
            return (creator stage_name))
        else throw Exception.deserializer

    -- The `try` block: the type of the callback decides which one is made.
    unfoldable pub make_callback :
        String → List TaskStage → Node → String → String → String → Loader Task
    unfolding make_task_function_callback make_task_function_callback_plugin get_string
        callback_type_from_string create register_dynamic_library
    make_callback task_name stages node library_name json_config json_initial_inputs = do
      library ← register_dynamic_library libraries library_name
      found ← get yaml node "Type"
      type_node ← expect Exception.deserializer found
      enum_str ← expect Exception.yaml (as_string type_node)
      elim (callback_type_from_string enum_str) [
        | CallbackType.function ↦ do
          symbol_name ← get_string yaml node "SymbolName"
          task_callback ← make_task_function_callback library symbol_name
          uuid ← draw env.generate
          return (
              create stages task_name (some task_callback) none json_config json_initial_inputs
                uuid)
        | CallbackType.plugin ↦ do
          symbol_name ← get_string yaml node "SymbolName"
          loaded ← make_task_function_callback_plugin library symbol_name
          task_callback_plugin ← expect Exception.deserializer loaded
          uuid ← draw env.generate
          return (
              create stages task_name none (some task_callback_plugin) json_config
                json_initial_inputs uuid)
        | CallbackType.dne ↦ throw Exception.unsupported_callback
      ]

    unfoldable pub make_task_callback :
        String → List TaskStage → Node → String → String → Loader Task
    unfolding make_callback
    make_task_callback task_name stages node json_config json_initial_inputs =
        get_string yaml node "LibraryName" >>= λ library_name.
        catching is_runtime Exception.deserializer
          (make_callback task_name stages node library_name json_config json_initial_inputs)

    -- The library name is read if there is a `Name`.
    unfoldable pub load_stage : Node → Loader TaskStage
    unfolding get_name get_string dynamically_load_stage register_dynamic_library
    load_stage stage_node = do
      stage_name ← get_name yaml stage_node "Name"
      named ← get yaml stage_node "Name"
      _ ← expect Exception.deserializer named
      library_name ← get_string yaml stage_node "LibraryName"
      symbol ← get yaml stage_node "SymbolName"
      symbol_node ← expect Exception.deserializer symbol
      symbol_name ← expect Exception.yaml (as_string symbol_node)
      catching is_system Exception.deserializer (do
        library ← register_dynamic_library libraries library_name
        next_stage ← dynamically_load_stage library symbol_name stage_name
        expect Exception.deserializer next_stage)

    -- The stages are added to those that `out_stages` has.
    unfoldable pub load_each : List Node → List TaskStage → Loader (List TaskStage)
    unfolding load_stage
    load_each [] out_stages = return out_stages
    load_each (node ∷ nodes) out_stages =
        load_stage node >>= λ stage. load_each nodes (out_stages ++ stage ∷ [])

    unfoldable pub load_stages : Node → List TaskStage → Loader (List TaskStage)
    unfolding load_each
    load_stages stages_node out_stages =
        expect Exception.yaml (as_nodes stages_node) >>= λ nodes. load_each nodes out_stages

    unfoldable pub make_task : Node → Loader Task
    unfolding get_name load_stages get_document make_task_callback create
    make_task task_node = do
      task_name ← get_name yaml task_node "Name"
      stages_node ← get yaml task_node "Stages"
      stages ← elim stages_node [ none ↦ return [] | some node ↦ load_stages node [] ]
      json_config ← get_document yaml task_node "Configuration"
      json_initial_inputs ← get_document yaml task_node "InitialInputs"
      callback_node ← get yaml task_node "Callback"
      elim callback_node [
        | none ↦ do
          uuid ← draw env.generate
          return (create stages task_name none none json_config json_initial_inputs uuid)
        | some node ↦ make_task_callback task_name stages node json_config json_initial_inputs
      ]

    -- The body of the loop of `make_vertices`.
    unfoldable pub add_node : Dag → Node → Loader Dag
    unfolding get_name get_string make_task make_vertex add_vertex
    add_node dag vertex_node = do
      name ← get_name yaml vertex_node "Name"
      uuid_str ← get_string yaml vertex_node "UUID"
      uuid ← expect Exception.runtime (env.parse uuid_str)
      task_node ← get yaml vertex_node "Task"
      task ← elim task_node [
        | none ↦ return none
        | some node ↦ make_task node >>= λ made. return (some made)
      ]
      return (add_vertex dag (make_vertex name task uuid)).0

    unfoldable pub add_nodes : Dag → List Node → Loader Dag
    unfolding add_node
    add_nodes dag [] = return dag
    add_nodes dag (node ∷ nodes) = add_node dag node >>= λ dag'. add_nodes dag' nodes

    unfoldable pub make_vertices : Node → Dag → Loader Dag
    unfolding add_nodes
    make_vertices vertices_node dag =
        if is_sequence vertices_node
        then (expect Exception.yaml (as_nodes vertices_node) >>= λ nodes. add_nodes dag nodes)
        else throw Exception.wrong_type

    -- `make_dag` for the node of the key "DAG".
    unfoldable pub make_definition : Node → Loader Dag
    unfolding get_document get_name make_vertices make_dag
    make_definition node = do
      json_dag_configuration ← get_document yaml node "Configuration"
      title ← get_name yaml node "Title"
      vertex_node ← get yaml node "Vertices"
      elim vertex_node [
        | none ↦ return (make_dag title json_dag_configuration)
        | some vertices ↦ make_vertices vertices (make_dag title json_dag_configuration)
      ]

    unfoldable pub deserialize : Node → Loader Dag
    unfolding make_definition
    deserialize dag_node = do
      found ← get yaml dag_node "DAG"
      node ← expect Exception.deserializer found
      if is_map node then make_definition node else throw Exception.wrong_type
