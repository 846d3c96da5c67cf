-- ===== src/Deserializer/Missing.antt =====
-- A library that cannot be loaded: the two errors that it ends in.
use dag_scheduler.Base.{List, ◌≡◌, refl, String, some, false}
use dag_scheduler.Externals.{Externals, TaskStage}
use dag_scheduler.Loader.{Exception, fails, done, World, ◌>>=◌, expect, catching}
use dag_scheduler.Registry.{Libraries, register_missing}
use dag_scheduler.Yaml.{Yaml, get_string, get_name}
use dag_scheduler.Deserializer.{make_callback, make_task_callback, load_stage}

-- The node has the text under the key.
abbrev pub HasText : (yaml : Yaml) → yaml.Node → String → String → Type 0
HasText yaml node key text =
    (value : yaml.Node) × (yaml.subscript node key ≡ some (some value))
    × (yaml.as_string value ≡ some text)

module _ ⦃env : Externals⦄ (yaml : Yaml) (libraries : Libraries) where
  get_string_text :
      (node : yaml.Node) (key text : String) (w : World)
      → HasText yaml node key text
      → get_string yaml node key w ≡ (w, done text)
  unfolding get_string ◌>>=◌ expect
  get_string_text node key text w (value, there, read) = rw (there, read) refl

  get_name_text :
      (node : yaml.Node) (key text : String) (w : World)
      → HasText yaml node key text
      → get_name yaml node key w ≡ (w, done text)
  unfolding get_name ◌>>=◌ expect
  get_name_text node key text w (value, there, read) = rw (there, read) refl

  load_stage_missing :
      (node : yaml.Node) (name library symbol : String) (w : World)
      → HasText yaml node "Name" name
      → HasText yaml node "LibraryName" library
      → HasText yaml node "SymbolName" symbol
      → libraries.loads library ≡ false
      → load_stage yaml libraries node w ≡ (w, fails Exception.runtime)
  unfolding load_stage ◌>>=◌ expect catching
  load_stage_missing node name library symbol w n l s missing =
      rw
        (
          get_name_text node "Name" name w n,
          n.1,
          get_string_text node "LibraryName" library w l,
          s.1,
          s.2,
          register_missing libraries library w missing,
        )
        refl

  make_task_callback_missing :
      (label : String) (stages : List TaskStage) (node : yaml.Node) (library json inputs : String)
      (w : World)
      → HasText yaml node "LibraryName" library
      → libraries.loads library ≡ false
      → make_task_callback yaml libraries label stages node json inputs w
        ≡ (w, fails Exception.deserializer)
  unfolding make_task_callback make_callback ◌>>=◌ catching
  make_task_callback_missing label stages node library json inputs w l missing =
      rw
        (
          get_string_text node "LibraryName" library w l,
          register_missing libraries library w missing,
        )
        refl

  -- A library that cannot be loaded ends a stage in a `std::runtime_error`, and a callback in the
  -- error of the deserializer. The node has the three names of a stage.
  pub missing_library :
      (label : String) (stages : List TaskStage) (node : yaml.Node) (name library symbol : String)
      (json inputs : String) (w : World)
      → HasText yaml node "Name" name
      → HasText yaml node "LibraryName" library
      → HasText yaml node "SymbolName" symbol
      → libraries.loads library ≡ false
      → (load_stage yaml libraries node w ≡ (w, fails Exception.runtime))
        × (make_task_callback yaml libraries label stages node json inputs w
            ≡ (w, fails Exception.deserializer))
  missing_library label stages node name library symbol json inputs w n l s missing = (
    load_stage_missing node name library symbol w n l s missing,
    make_task_callback_missing label stages node library json inputs w l missing,
  )
