-- ===== src/Task.antt =====
-- lib/task.cxx: the task that a vertex carries, and its copy.
pub mod Stages
pub mod Create
use dag_scheduler.Base.{ℕ, String, Bool, false, List, Option, none, some, map}
use dag_scheduler.Externals.{Externals, TaskStage}

-- A JSON document is the text that rapidjson's Writer gives for it, and a callback is known by a
-- number.
pub record Task : Type 0 where
  pub iterating : Bool
  pub kill : Bool
  pub stages : List TaskStage
  pub label : String
  pub complete_callback : Option ℕ
  pub complete_callback_plugin : Option ℕ
  pub uuid : ℕ
  pub json_config : Option String
  pub json_initial_inputs : Option String

-- A document that `CopyFrom` fills from an owned one; a new document is `null`.
abbrev pub copy_document : Option String → Option String
copy_document none = some "null"
copy_document (some text) = some text

module _ ⦃env : Externals⦄ where
  -- For a task that was not moved from: `update_uuid` throws on the null UUID of one that was.
  -- The constructor is the one for a plugin if there is a plugin, and then no callback is copied.
  pub clone_task : Task → Task
  clone_task t = record {
    iterating = false;
    kill = false;
    stages = map env.clone_stage t.stages;
    label = t.label;
    complete_callback = elim t.complete_callback_plugin [
      | none ↦ t.complete_callback
      | some p ↦ none
    ];
    complete_callback_plugin = elim t.complete_callback_plugin [
      | none ↦ none
      | some p ↦ some (env.clone_plugin p)
    ];
    uuid = t.uuid;
    json_config = copy_document t.json_config;
    json_initial_inputs = copy_document t.json_initial_inputs;
  }
