-- ===== src/Stage.antt =====
-- lib/task_stage.cxx, lib/base_task_stage.cxx and stages_lib/lib/print_stage.cxx: the objects of the
-- classes of stages.
pub mod Copies
pub mod Runs
use dag_scheduler.Base.{
  ℕ, String, Bool, true, false, Option, none, some, Outcome, ok, throws, fault, ◌>>=◌,
  if◌then◌else◌,
}
use dag_scheduler.Externals.{Externals, TaskStage}
use dag_scheduler.Uuid.{as_string, uuid_eq, null_uuid, read_uuid, move_uuid}

-- The members of TaskStage, and of BaseTaskStage.
pub record Members : Type 0 where
  pub label : String
  pub uuid : ℕ

-- The constructor with a label; `uuid` is the UUID that is drawn.
unfoldable pub make_members : String → ℕ → Members
make_members label uuid = record { label = label; uuid = uuid }

-- The move constructor and the move assignment: the new members and what is left of `other`, whose
-- `is_running` is the first argument.
unfoldable pub move_members : Bool → Members → Outcome (Members × Members)
unfolding move_uuid
move_members is_running other =
    let (uuid, left) = move_uuid other.uuid in
    if is_running
    then fault
    else ok (record { label = other.label; uuid = uuid }, record { label = ""; uuid = left })

-- PrintStage: no constructor sets `running_`, so that each takes the value that it finds there.
pub record PrintStage : Type 0 where
  pub members : Members
  pub running : Bool

unfoldable pub make_print_stage : Bool → String → ℕ → PrintStage
unfolding make_members
make_print_stage found label uuid = record { members = make_members label uuid; running = found }

unfoldable pub move_print_stage : Bool → PrintStage → Outcome (PrintStage × PrintStage)
unfolding move_members
move_print_stage found other = move_members other.running other.members >>= λ (moved, left).
    ok (record { members = moved; running = found }, record other { members = left })

unfoldable pub assign_print_stage : PrintStage → PrintStage → Outcome (PrintStage × PrintStage)
unfolding move_members
assign_print_stage self other = move_members other.running other.members >>= λ (moved, left).
    ok (record self { members = moved }, record other { members = left })

-- `run`, once it has returned: the line that it writes is between the two stores.
unfoldable pub run_print_stage : PrintStage → PrintStage × Bool
run_print_stage self =
    let during = record self { running = true } in (record during { running = false }, true)

unfoldable pub end_print_stage : PrintStage → Bool
end_print_stage self = true

-- The stage as a task sees it.
unfoldable pub print_stage : PrintStage → TaskStage
unfolding run_print_stage end_print_stage
print_stage self = record {
  label = self.members.label;
  uuid = self.members.uuid;
  run = (run_print_stage self).1;
  ends = end_print_stage self;
}

-- `run`, `is_running` and `end` of a BaseTaskStage.
abbrev pub run_base_stage : Members → Bool
run_base_stage self = true

abbrev pub base_stage_is_running : Members → Bool
base_stage_is_running self = false

abbrev pub end_base_stage : Members → Bool
end_base_stage self = false

unfoldable pub move_base_stage : Members → Outcome (Members × Members)
unfolding move_members
move_base_stage other = move_members (base_stage_is_running other) other

module _ ⦃env : Externals⦄ where
  -- The default constructor.
  unfoldable pub default_members : ℕ → Members
  unfolding make_members
  default_members uuid = record (make_members "" uuid) { label = as_string uuid }

  unfoldable pub default_print_stage : Bool → ℕ → PrintStage
  unfolding make_print_stage
  default_print_stage found uuid =
      let self = make_print_stage found "" uuid in
      record self { members = record self.members { label = as_string uuid } }

  -- The constructor with a label and a UUID, whose text it reads.
  unfoldable pub copy_members : String → ℕ → Outcome Members
  unfolding read_uuid
  copy_members label uuid =
      read_uuid (as_string uuid) >>= λ u. ok (record { label = label; uuid = u })

  -- `operator==` of each class.
  unfoldable pub members_eq : Members → Members → Bool
  members_eq lhs rhs = uuid_eq lhs.uuid rhs.uuid

  unfoldable pub clone_print_stage : Bool → PrintStage → Outcome PrintStage
  unfolding copy_members
  clone_print_stage found self = copy_members self.members.label self.members.uuid >>= λ members.
      ok (record { members = members; running = found })
