-- ===== src/Remove.antt =====
-- lib/dag.cxx: the removal of vertices.
pub mod Kept
pub mod Cells
pub mod Payloads
pub mod Dangling
use dag_scheduler.Base.{
  ℕ, String, Bool, true, false, not, List, [], ◌∷◌, ◌++◌, Option, none, some, if◌then◌else◌,
  keep_if, str_eq,
}
use dag_scheduler.Externals.{Externals}
use dag_scheduler.Uuid.{uuid_eq}
use dag_scheduler.Vertex.{Edge, Vertex, clear_edges, vertex_eq}
use dag_scheduler.Dag.{Dag, lock, decrement, set_vertex}

-- The visitor that takes one incoming edge from the target of each edge.
unfoldable pub release : Dag → List Edge → Dag
unfolding decrement lock
release g [] = g
release g (e ∷ es) = release (decrement g (lock g e.connection)) es

unfoldable pub cut_vertex : Dag → ℕ → Dag
unfolding release set_vertex clear_edges
cut_vertex g a =
    let released = release g (g.cell a).edges in
    set_vertex released a (clear_edges (released.cell a))

-- The objects that the places hold; a moved-from shared_ptr holds none.
abbrev pub owned : List (Option ℕ) → List ℕ
owned [] = []
owned (none ∷ slots) = owned slots
owned (some a ∷ slots) = a ∷ owned slots

-- `remove_if` moves a kept pointer to the first free place, which frees the object that was there.
abbrev pub move_down : List (Option ℕ) → List (Option ℕ)
move_down [] = []
move_down (s ∷ slots) = slots ++ none ∷ []

-- The state of `remove_if`: the kept pointers, the free places behind them, the DAG and `ret`.
pub record Removal : Type 0 where
  pub kept : List ℕ
  pub slots : List (Option ℕ)
  pub dag : Dag
  pub ret : Bool

unfoldable pub keep_vertex : Removal → ℕ → Removal
keep_vertex r a = record r { kept = r.kept ++ a ∷ []; slots = move_down r.slots }

unfoldable pub drop_vertex : Removal → ℕ → Removal
unfolding cut_vertex
drop_vertex r a = record r { slots = r.slots ++ some a ∷ []; dag = cut_vertex r.dag a; ret = true }

-- The DAG while `rest` is still to be looked at.
abbrev pub owners : Removal → List ℕ → Dag
owners r rest = record r.dag { graph = r.kept ++ owned r.slots ++ rest }

unfoldable pub remove_if : (Dag → ℕ → Bool) → List ℕ → Removal → Removal
unfolding keep_vertex drop_vertex
remove_if found [] r = r
remove_if found (a ∷ rest) r =
    let here = record r { dag = owners r (a ∷ rest) } in
    remove_if found rest (if found here.dag a then drop_vertex here a else keep_vertex here a)

-- The whole call, with the `erase` at its end.
unfoldable pub remove_where : (Dag → ℕ → Bool) → Dag → Dag × Bool
unfolding remove_if
remove_where found g =
    let r = remove_if found g.graph (record { kept = []; slots = []; dag = g; ret = false }) in
    (record r.dag { graph = r.kept }, r.ret)

module _ ⦃env : Externals⦄ where
  unfoldable pub remove_vertex : Dag → Vertex → Dag × Bool
  unfolding remove_where
  remove_vertex g v = remove_where (λ h o. vertex_eq (h.cell o) v) g

  unfoldable pub remove_vertex_by_uuid : Dag → ℕ → Dag × Bool
  unfolding remove_where
  remove_vertex_by_uuid g id = remove_where (λ h o. uuid_eq (h.cell o).uuid id) g

  -- `remove_vertex(*v)` for a vertex of the heap: the comparisons read it as it is by then.
  unfoldable pub remove_each : Dag → List ℕ → Dag
  unfolding remove_where
  remove_each g [] = g
  remove_each g (a ∷ rest) =
      remove_each (remove_where (λ h o. vertex_eq (h.cell o) (h.cell a)) g).0 rest

  unfoldable pub remove_all_vertex_with_label : Dag → String → Dag × Bool
  unfolding remove_each
  remove_all_vertex_with_label g l =
      let found_with_label = keep_if (λ a. str_eq (g.cell a).label l) g.graph in
      (remove_each g found_with_label, elim found_with_label [ [] ↦ false | _ ↦ true ])
