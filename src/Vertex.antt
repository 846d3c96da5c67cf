-- ===== src/Vertex.antt =====
-- lib/dag_vertex.cxx and lib/dag_edge.cxx: the objects, their constructors, copies and comparison.
-- What they do to other objects through their pointers is in `Dag`.
pub mod Members
use dag_scheduler.Base.{
  refl, str_eq_iff, arith, ap, ◌≡◌, ℕ, ◌+◌, ◌%◌, ◌-◌, ◌^◌, String, Bool, true, false, ◌&&◌, List,
  [], Option, none, ◌==◌, if◌then◌else◌, length, str_eq, ltb,
}
use dag_scheduler.Externals.{Externals}
use dag_scheduler.Uuid.{as_string_iff, null_uuid, as_string}
use dag_scheduler.Task.{Task, clone_task}
use mathlib.Core.Option

-- `DAGEdge::Status`
pub data EdgeStatus : Type 0 where
  initialized traversed non_traverable : EdgeStatus

-- `connection` is the address that the weak_ptr was set to, `none` for an empty one.
pub record Edge : Type 0 where
  pub uuid : ℕ
  pub status : EdgeStatus
  pub connection : Option ℕ

-- `DAGVertex::Status`
pub data Status : Type 0 where
  initialized scheduled running passed failed invalid : Status

pub record Vertex : Type 0 where
  pub uuid : ℕ
  pub status : Status
  pub label : String
  pub edges : List Edge
  pub incomming : ℕ
  pub task : Option Task

-- The constructor with a label, a task and a UUID, which the others come down to.
unfoldable pub make_vertex : String → Option Task → ℕ → Vertex
make_vertex label task uuid = record {
  uuid = uuid;
  status = Status.initialized;
  label = label;
  edges = [];
  incomming = 0;
  task = task;
}

-- What the move constructor leaves in `other`: its UUID is cleared by the destructor call in
-- `UUID::operator=(UUID &&)`.
unfoldable pub moved_from : Vertex
moved_from = record {
  uuid = null_uuid;
  status = Status.invalid;
  label = "";
  edges = [];
  incomming = 0;
  task = none;
}

abbrev pub size_mod : ℕ
size_mod = 2 ^ 64

-- `++` and `--` of an atomic size_t.
unfoldable pub add_incomming_edge : Vertex → Vertex
add_incomming_edge v = record v { incomming = (v.incomming + 1) % size_mod }

unfoldable pub sub_incomming_edge : Vertex → Vertex
sub_incomming_edge v = record v { incomming = (v.incomming + size_mod - 1) % size_mod }

unfoldable pub has_incomming_edges : Vertex → Bool
has_incomming_edges v = ltb 0 v.incomming

unfoldable pub clear_edges : Vertex → Vertex
clear_edges v = record v { edges = [] }

abbrev pub status_eq : Status → Status → Bool
status_eq Status.initialized Status.initialized = true
status_eq Status.scheduled Status.scheduled = true
status_eq Status.running Status.running = true
status_eq Status.passed Status.passed = true
status_eq Status.failed Status.failed = true
status_eq Status.invalid Status.invalid = true
status_eq _ _ = false

pub status_eq_self : (s : Status) → status_eq s s ≡ true
status_eq_self Status.initialized = refl
status_eq_self s = refl

status_eq_invalid :
    (s t : Status)
    → status_eq s Status.invalid ≡ true
    → status_eq t Status.invalid ≡ true
    → status_eq s t ≡ true
status_eq_invalid Status.initialized t h k = cc
status_eq_invalid Status.invalid Status.initialized h k = cc
status_eq_invalid s t h k = ground arith

-- `new DAGEdge`
unfoldable pub make_edge : ℕ → Edge
make_edge uuid = record { uuid = uuid; status = EdgeStatus.initialized; connection = none }

-- A vertex less its edges and its counter.
abbrev pub payload : Vertex → Vertex
payload v = record v { edges = []; incomming = 0 }

module _ ⦃env : Externals⦄ where
  -- `clone`, the copy constructor: no edges and no incoming edges.
  unfoldable pub clone_vertex : Vertex → Vertex
  clone_vertex v = record {
    uuid = v.uuid;
    status = v.status;
    label = v.label;
    edges = [];
    incomming = 0;
    task = Option.map clone_task v.task;
  }

  -- `operator==`: the edges are compared by their number alone.
  unfoldable pub vertex_eq : Vertex → Vertex → Bool
  vertex_eq v w =
      if status_eq v.status w.status
      then str_eq (as_string v.uuid) (as_string w.uuid)
        && str_eq v.label w.label
        && length v.edges == length w.edges
        && v.incomming == w.incomming
      else status_eq v.status Status.invalid && status_eq w.status Status.invalid

  pub clone_vertex-payload :
      (v w : Vertex) → payload v ≡ payload w → clone_vertex v ≡ clone_vertex w
  unfolding clone_vertex
  clone_vertex-payload v w same = ap clone_vertex same

  pub vertex_eq_self : (v : Vertex) → vertex_eq v v ≡ true
  unfolding vertex_eq
  vertex_eq_self v =
      ground
        (arith, status_eq_self v.status, as_string_iff v.uuid v.uuid, str_eq_iff v.label v.label)

  -- Vertices that compare equal have one UUID.
  pub vertex_eq_uuid : (v w : Vertex) → vertex_eq v w ≡ true → v.uuid ≡ w.uuid
  unfolding vertex_eq
  vertex_eq_uuid v w h =
      ground (arith, as_string_iff v.uuid w.uuid, status_eq_invalid v.status w.status)
