-- ===== src/Tests/Loading.antt =====
-- Witnesses for the theorems on the deserializer, the registry and the documents of a task.
use dag_scheduler.Base.{
  ◌↔◌, ◌≡◌, ◌⊎◌, refl, String, Bool, true, false, List, [], ◌∷◌, Option, none, some, if◌then◌else◌,
  str_eq, ok,
}
use dag_scheduler.Task.{Task}
use dag_scheduler.Task.Create.{create}
use dag_scheduler.Vertex.{make_vertex}
use dag_scheduler.Dag.{Dag, make_dag, add_vertex, edge_count}
use dag_scheduler.Connect.Reach.{Reached}
use dag_scheduler.Loader.{Exception, World, done, ◌>>=◌, expect}
use dag_scheduler.Loader.Ends.{Ends}
use dag_scheduler.Programs.{Variables, exit_success, dag_serializer_main}
use dag_scheduler.Programs.Status.{asks_help, dag_serializer_main_lem}
use dag_scheduler.Registry.{Libraries}
use dag_scheduler.Yaml.{Yaml, get_string}
use dag_scheduler.Deserializer.{deserialize, make_task_callback}
use dag_scheduler.Deserializer.Sound.{deserialize-Reached}
use dag_scheduler.Deserializer.Errors.{make_task_callback_lem, HasCallback}
use dag_scheduler.Tests.{sample}

-- The document of a DAG with one vertex, whose UUID is 3, and a node of a stage.
data Node : Type 0 where
  root dag vertices vertex stage : Node
  text : String → Node

abbrev found : Node → Option (Option Node)
found n = some (some n)

abbrev at : Node → String → Option (Option Node)
at Node.root key = if str_eq key "DAG" then found Node.dag else some none
at Node.dag key =
    if str_eq key "Title"
    then found (Node.text "T")
    else if str_eq key "Vertices"
    then found Node.vertices
    else some none
at Node.vertices key = some none
at Node.vertex key =
    if str_eq key "Name"
    then found (Node.text "A")
    else if str_eq key "UUID"
    then found (Node.text "uuuu")
    else some none
at Node.stage key =
    if str_eq key "Type" then found (Node.text "Function") else found (Node.text key)
at (Node.text s) key = none

abbrev is_sequence : Node → Bool
is_sequence Node.vertices = true
is_sequence _ = false

abbrev text_of : Node → Option String
text_of (Node.text s) = some s
text_of _ = none

abbrev nodes_of : Node → Option (List Node)
nodes_of Node.vertices = some (Node.vertex ∷ [])
nodes_of _ = none

abbrev yaml : Yaml
yaml = record {
  Node = Node;
  subscript = at;
  is_map = λ n. true;
  is_sequence = is_sequence;
  as_string = text_of;
  as_nodes = nodes_of;
  flow = λ n. "{}";
  parse = λ s. some s;
}

-- Only "LibraryName" can be loaded, and has the symbol "SymbolName".
abbrev libraries : Libraries
libraries = record {
  loads = λ name. str_eq name "LibraryName";
  symbols = λ name section. some ("SymbolName" ∷ []);
  function_alias = λ name symbol. some 1;
  plugin_alias = λ name symbol. none;
  stage_alias = λ name symbol. none;
}

abbrev first_world : World
first_world = record { registry = []; draws = 0 }

abbrev loaded : Dag
loaded = (add_vertex (make_dag "T" "null") (make_vertex "A" none 3)).0

deserializes : deserialize yaml libraries Node.root first_world ≡ (first_world, done loaded)
unfolding deserialize ◌>>=◌ expect
deserializes = refl

loaded-Reached : Reached loaded × (edge_count loaded ≡ 0)
loaded-Reached =
    deserialize-Reached yaml libraries Node.root first_world first_world loaded deserializes

reads_library :
    get_string yaml Node.stage "LibraryName" first_world ≡ (first_world, done "LibraryName")
unfolding get_string ◌>>=◌ expect
reads_library = refl

makes_callback :
    Ends
      (λ e. (e ≡ Exception.deserializer) ⊎ (e ≡ Exception.unsupported_callback))
      (HasCallback yaml libraries [] "t" "{}" "{}")
      (make_task_callback yaml libraries "t" [] Node.stage "{}" "{}" first_world).1
makes_callback =
    make_task_callback_lem yaml libraries [] "t" "{}" "{}" Node.stage "LibraryName" first_world
      reads_library

-- Nothing can be loaded.
abbrev no_libraries : Libraries
no_libraries = record libraries { loads = λ name. false }

abbrev simple : Task
simple = create [] "t" (some 5) none "{}" "{}" 3

idle : simple.iterating ≡ false
unfolding create
idle = refl

-- The option has a value, and help is not asked for.
abbrev named : Option Variables
named = some (record { help = false; file = some "dag.yml" })

exits :
    (dag_serializer_main yaml libraries (λ f. some Node.root) first_world named ≡ ok exit_success)
    ↔ (asks_help named ≡ true)
exits = dag_serializer_main_lem yaml libraries (λ f. some Node.root) first_world named
