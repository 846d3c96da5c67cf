-- ===== src/Yaml.antt =====
-- The nodes of a YAML document, as lib/dag_serialization.cxx reads them.
use dag_scheduler.Base.{String, Bool, List, Option, none, some}
use dag_scheduler.Loader.{Exception, Loader, ◌>>=◌, return, expect}

-- yaml-cpp and rapidjson. `subscript` is `operator[]` with a key: none if it throws, since the node is
-- a scalar, and some none if the key is not there. `as_string` and `as_nodes` are `as`, none if they
-- throw. `flow` is the text of the emitter less its first character, and `parse` gives the document
-- of a text, none if it has an error.
pub record Yaml : Type 1 where
  pub Node : Type 0
  pub subscript : Node → String → Option (Option Node)
  pub is_map : Node → Bool
  pub is_sequence : Node → Bool
  pub as_string : Node → Option String
  pub as_nodes : Node → Option (List Node)
  pub flow : Node → String
  pub parse : String → Option String

module _ (yaml : Yaml) where
  open yaml use {Node, subscript, as_string, flow, parse}

  -- `node[key]`, tested as a bool.
  abbrev pub get : Node → String → Loader (Option Node)
  get node key = expect Exception.yaml (subscript node key)

  -- `node[key].as<std::string>()`; a node that is not there throws.
  unfoldable pub get_string : Node → String → Loader String
  get_string node key = do
    found ← get node key
    value ← expect Exception.yaml found
    expect Exception.yaml (as_string value)

  -- The string, or the empty text where the key is not there.
  unfoldable pub get_name : Node → String → Loader String
  unfolding get_string
  get_name node key = get node key >>= λ found. elim found [
    | none ↦ return ""
    | some value ↦ expect Exception.yaml (as_string value)
  ]

  -- The document of a key, a new one where the key is not there.
  unfoldable pub get_document : Node → String → Loader String
  get_document node key = get node key >>= λ found. elim found [
    | none ↦ return "null"
    | some value ↦ expect Exception.deserializer (parse (flow value))
  ]
