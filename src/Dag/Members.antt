-- ===== src/Dag/Members.antt =====
-- lib/dag.cxx: the moves of a DAG, its documents and the other members that look at one vertex.
use dag_scheduler.Base.{
  ℕ, String, List, [], ◌∷◌, Option, none, some, Outcome, ok, fault, throws, if◌then◌else◌, str_eq,
  get_elem?,
}
use dag_scheduler.Externals.{Externals}
use dag_scheduler.Dag.{Dag, find_vertex_by_uuid}

-- The vertices, the title and the document of a DAG, which a move takes; two DAGs stand on one heap.
pub record Contents : Type 0 where
  pub graph : List ℕ
  pub title : String
  pub json_config : Option String

-- `operator=(DAG &&)`: the new state, and what it leaves; the title is copied.
unfoldable pub move_assign : Dag → Contents → Dag × Contents
move_assign g other = (
  record g { graph = other.graph; title = other.title; json_config = other.json_config },
  record other { graph = []; json_config = none },
)

-- `linear_traversal`, with a function of the state for `cb`.
unfoldable pub linear_traversal : {S : Type 0} → (S → ℕ → S) → S → List ℕ → S
linear_traversal cb s [] = s
linear_traversal cb s (a ∷ rest) = linear_traversal cb (cb s a) rest

-- `out_str` is left as it is if there is no document.
unfoldable pub json_config_str : Dag → String → String
json_config_str g out_str = elim g.json_config [
  | none ↦ out_str
  | some text ↦ if str_eq text "null" then "{}" else text
]

unfoldable pub get_vertex_at : Dag → ℕ → Outcome ℕ
get_vertex_at g i = elim (get_elem? g.graph i) [ none ↦ fault | some a ↦ ok a ]

module _ ⦃env : Externals⦄ where
  -- The document that is copied from the argument is never used.
  unfoldable pub override_initial_input_for_vertex_task : Dag → ℕ → Outcome Dag
  override_initial_input_for_vertex_task g vertex_uuid = elim (find_vertex_by_uuid g vertex_uuid) [
    | none ↦ fault
    | some a ↦ elim (g.cell a).task [ none ↦ ok g | some t ↦ throws ]
  ]
