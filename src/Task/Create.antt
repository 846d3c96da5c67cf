-- ===== src/Task/Create.antt =====
-- lib/task.cxx: the constructors, the moves and the documents of a task.
use dag_scheduler.Base.{
  ℕ, String, Bool, false, List, [], Option, none, some, Outcome, ok, ◌>>=◌, fault, ◌≡◌, ◌≢◌, refl,
  if◌then◌else◌, str_eq, ap,
}
use dag_scheduler.Externals.{Externals, TaskStage}
use dag_scheduler.Uuid.{read_uuid, read_uuid-as_string, as_string, null_uuid}
use dag_scheduler.Task.{Task}
use dag_scheduler.Task.Stages.{complete}

-- The constructor with all arguments; the others pass an empty label, no callback or null documents.
-- The UUID is one that was drawn.
unfoldable pub create : List TaskStage → String → Option ℕ → Option ℕ → String → String → ℕ → Task
create stages label complete_callback complete_callback_plugin json_config json_initial_inputs
      uuid =
    record {
      iterating = false;
      kill = false;
      stages = stages;
      label = label;
      complete_callback = complete_callback;
      complete_callback_plugin = complete_callback_plugin;
      uuid = uuid;
      json_config = some json_config;
      json_initial_inputs = some json_initial_inputs;
    }

unfoldable pub set_json_config : Task → String → Task
set_json_config t document = record t { json_config = some document }

unfoldable pub set_json_initial_inputs : Task → String → Task
set_json_initial_inputs t document = record t { json_initial_inputs = some document }

-- The text that is written to `out_str`, which stays as it was for a null pointer.
unfoldable pub document_str : Option String → String → String
document_str none out_str = out_str
document_str (some text) out_str = if str_eq text "null" then "{}" else text

unfoldable pub json_config_str : Task → String → String
unfolding document_str
json_config_str t out_str = document_str t.json_config out_str

unfoldable pub json_initial_inputs_str : Task → String → String
unfolding document_str
json_initial_inputs_str t out_str = document_str t.json_initial_inputs out_str

-- The callbacks do not move.
abbrev pub moved_task : Task → Task
moved_task other = record {
  iterating = false;
  kill = false;
  stages = other.stages;
  label = other.label;
  complete_callback = none;
  complete_callback_plugin = none;
  uuid = other.uuid;
  json_config = other.json_config;
  json_initial_inputs = other.json_initial_inputs;
}

abbrev pub left_task : Task → Task
left_task other = record other {
  stages = [];
  label = "";
  json_config = none;
  json_initial_inputs = none;
}

-- The new task, and what is left of `other`.
unfoldable pub move_task : Task → Outcome (Task × Task)
move_task other = if other.iterating then fault else ok (moved_task other, left_task other)

-- Move assignment keeps the callbacks of the target.
unfoldable pub assign_task : Task → Task → Outcome (Task × Task)
unfolding move_task
assign_task t other = move_task other >>= λ (moved, left). ok (
  record moved {
    complete_callback = t.complete_callback;
    complete_callback_plugin = t.complete_callback_plugin;
  },
  left,
)

-- A task that was moved has its stages, its label and its documents, but calls no callback when it
-- completes. The task that is moved from does not iterate.
pub move_task_lem :
    (other : Task) (status : Bool)
    → other.iterating ≡ false
    → (moved : Task) × (left : Task) × (move_task other ≡ ok (moved, left))
      × (moved.stages ≡ other.stages)
      × (moved.label ≡ other.label)
      × (moved.json_config ≡ other.json_config)
      × (complete moved status ≡ [])
unfolding move_task complete
move_task_lem other status idle =
    (moved_task other, left_task other, rw idle refl, refl, refl, refl, refl)

module _ ⦃env : Externals⦄ where
  -- `uuid_parse` fails on the empty text of a null UUID.
  unfoldable pub update_uuid : Task → ℕ → Outcome Task
  unfolding read_uuid
  update_uuid t uuid = read_uuid (as_string uuid) >>= λ u. ok (record t { uuid = u })

  -- `update_uuid` gives the task the UUID, whose text is written and read again; it is not null.
  pub update_uuid_lem :
      (t : Task) (uuid : ℕ) → uuid ≢ null_uuid → update_uuid t uuid ≡ ok (record t { uuid = uuid })
  unfolding update_uuid
  update_uuid_lem t uuid proper =
      ap (λ (o : Outcome ℕ). o >>= λ u. ok (record t { uuid = u }))
        (read_uuid-as_string uuid proper)
