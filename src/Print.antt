-- ===== src/Print.antt =====
-- The stream operators of lib/task_stage.cxx, lib/task.cxx, lib/dag_edge.cxx, lib/dag_vertex.cxx and
-- lib/dag.cxx: the texts that they write. `std::endl` writes a line feed.
pub mod Depth
pub mod Ends
use Prim.Native.String.{◌++◌}
use dag_scheduler.Base.{
  ℕ, zero, suc, ◌/◌, ◌%◌, String, Bool, true, false, List, [], ◌∷◌, Option, none, some, Outcome, ok,
  out_of_fuel, ◌>>=◌, if◌then◌else◌, str_eq, ltb, ◌==◌, length,
}
use dag_scheduler.Externals.{Externals, TaskStage}
use dag_scheduler.Uuid.{as_string}
use dag_scheduler.Task.{Task}
use dag_scheduler.Task.Create.{json_config_str}
use dag_scheduler.Vertex.{EdgeStatus, Edge, Status, Vertex}
use dag_scheduler.Dag.{Dag, lock}
use dag_scheduler.Dag.Members.{json_config_str as dag_json_config_str}

-- A size_t in decimal digits, of which it has 20 at most.
abbrev pub digit : ℕ → String
digit n =
    if n == 0
    then "0"
    else if n == 1
    then "1"
    else if n == 2
    then "2"
    else if n == 3
    then "3"
    else if n == 4
    then "4"
    else if n == 5
    then "5"
    else if n == 6
    then "6"
    else if n == 7
    then "7"
    else if n == 8
    then "8"
    else "9"

abbrev pub digits : ℕ → ℕ → String
digits zero n = ""
digits (suc fuel) n =
    let rest = digits fuel (n / 10) ++ digit (n % 10) in if ltb n 10 then digit n else rest

abbrev pub number : ℕ → String
number n = digits 20 n

unfoldable pub edge_status_as_string : EdgeStatus → String
edge_status_as_string EdgeStatus.initialized = "initialized"
edge_status_as_string EdgeStatus.traversed = "traversed"
edge_status_as_string EdgeStatus.non_traverable = "non_traverable"

unfoldable pub current_status_as_string : Status → String
current_status_as_string Status.initialized = "initialized"
current_status_as_string Status.scheduled = "scheduled"
current_status_as_string Status.running = "running"
current_status_as_string Status.passed = "passed"
current_status_as_string Status.failed = "failed"
current_status_as_string Status.invalid = "invalid"

module _ ⦃env : Externals⦄ where
  -- A label, and the UUID if the label is not its text.
  abbrev pub labelled : String → ℕ → String
  labelled label uuid =
      let text = as_string uuid in
      "label = " ++ label ++ (if str_eq label text then "" else " uuid = " ++ text)

  unfoldable pub stage_text : TaskStage → String
  stage_text s = labelled s.label s.uuid

  unfoldable pub stages_text : List TaskStage → String
  unfolding stage_text
  stages_text [] = ""
  stages_text (s ∷ stages) = stage_text s ++ " " ++ stages_text stages

  -- `json_config_str` is called for both documents.
  unfoldable pub task_text : Task → String
  unfolding stages_text
  task_text t =
      labelled t.label t.uuid
      ++ stages_text t.stages
      ++ "configuration = "
      ++ json_config_str t ""
      ++ "initial_json_inputs = "
      ++ json_config_str t ""

  unfoldable pub task_ptr_text : Option Task → String
  unfolding task_text
  task_ptr_text none = "nullptr"
  task_ptr_text (some t) = task_text t

  -- The operator of the edge, with that of the vertex.
  unfoldable pub edge_text : (ℕ → Outcome String) → Dag → Edge → Outcome String
  unfolding edge_status_as_string
  edge_text vertex g e =
      (elim (lock g e.connection) as (λ c. Outcome String) [
        | none ↦ ok "nullptr"
        | some a ↦ vertex a
      ])
      >>= λ target. ok (
          "uuid_ = "
          ++ as_string e.uuid
          ++ " current_status_ = ("
          ++ edge_status_as_string e.status
          ++ ") connection = "
          ++ target)

  unfoldable pub edges_text : (ℕ → Outcome String) → Dag → List Edge → Outcome String
  unfolding edge_text
  edges_text vertex g [] = ok ""
  edges_text vertex g (e ∷ es) =
      edge_text vertex g e >>= λ t. edges_text vertex g es >>= λ ts. ok ("\t" ++ t ++ "\n" ++ ts)

  -- The operator of the vertex at `a`, which writes its edges, which write the vertices that they lead
  -- to; the fuel is the depth of the calls.
  unfoldable pub vertex_text : ℕ → Dag → ℕ → Outcome String
  unfolding edges_text current_status_as_string task_ptr_text
  vertex_text zero g a = out_of_fuel
  vertex_text (suc fuel) g a =
      let v = g.cell a in
      edges_text (λ b. vertex_text fuel g b) g v.edges >>= λ edges. ok (
        "uuid_ = "
        ++ as_string v.uuid
        ++ " current_status_ = "
        ++ current_status_as_string v.status
        ++ " label = "
        ++ v.label
        ++ " incomming_edge_count = "
        ++ number v.incomming
        ++ "  edges = \n\nedges("
        ++ number (length v.edges)
        ++ "): "
        ++ edges
        ++ "task_ = "
        ++ task_ptr_text v.task)

  unfoldable pub vertices_text : ℕ → Dag → List ℕ → Outcome String
  unfolding vertex_text
  vertices_text fuel g [] = ok ""
  vertices_text fuel g (a ∷ rest) =
      vertex_text fuel g a >>= λ t. vertices_text fuel g rest >>= λ ts. ok (t ++ "\n" ++ ts)

  unfoldable pub dag_text : ℕ → Dag → Outcome String
  unfolding vertices_text
  dag_text fuel g = vertices_text fuel g g.graph >>= λ vertices. ok (
      "Title: \""
      ++ g.title
      ++ "\""
      ++ (elim g.graph as (λ l. String) [ [] ↦ "" | _ ↦ "\n" ])
      ++ vertices
      ++ "\nConfiguration: "
      ++ dag_json_config_str g ""
      ++ "\n")
