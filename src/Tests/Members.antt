-- ===== src/Tests/Members.antt =====
-- Witnesses for the theorems on the assignment, the comparison and the printing of DAGs.
use dag_scheduler.Base.{ℕ, ◌≡◌, ◌≤◌, ◌↔◌, refl, arith, Bool, true, [], ◌∷◌, some, ok, fault, str_eq}
use dag_scheduler.Dag.{Dag, make_dag, edge_count, add_vertex, contains_vertex}
use dag_scheduler.Uuid.{uuid_eq, is_initialized, as_string}
use dag_scheduler.Vertex.{make_vertex}
use dag_scheduler.Dag.Members.{Contents, json_config_str}
use dag_scheduler.Dag.Compare.{dag_eq, AllSame, dag_eq_decides}
use dag_scheduler.Clone.Assign.{assign, assign_faults}
use dag_scheduler.Clone.Correct.{IsClone}
use dag_scheduler.Clone.Assigned.{assign_new}
use dag_scheduler.Connect.Joins.{IsSound}
use dag_scheduler.Connect.Reach.{Reached, Reached-IsSound}
use dag_scheduler.Print.{dag_text}
use dag_scheduler.Print.Depth.{Writes}
use dag_scheduler.Print.Ends.{dag_text-Writes}
use dag_scheduler.Tests.{sample, one, pair}
use dag_scheduler.Tests.Graphs.{pair-IsSound, pair_document}

abbrev bare : Dag
bare = make_dag "test" "null"

bare-IsSound : IsSound bare
bare-IsSound = Reached-IsSound bare (Reached.made "test" "null")

prints_pair : (depth : ℕ) × ((n : ℕ) → depth ≤ n → Writes (dag_text n pair))
prints_pair = dag_text-Writes pair pair-IsSound

-- The text of a DAG with one vertex.
prints_one :
    dag_text 1 one
    ≡ ok
        "Title: \"test\"\nuuid_ = uu current_status_ = initialized label = A incomming_edge_count = 0  edges = \n\nedges(0): task_ = nullptr\n\nConfiguration: {}\n"
unfolding dag_text json_config_str add_vertex contains_vertex make_dag make_vertex uuid_eq
    is_initialized as_string
prints_one = refl

-- The second vertex of the pair, as a DAG.
abbrev second : Contents
second = record { graph = 1 ∷ []; title = "second"; json_config = some "null" }

assigns_over : assign pair second ≡ fault
unfolding add_vertex contains_vertex make_dag make_vertex uuid_eq is_initialized as_string
assigns_over = assign_faults pair second 0 (1 ∷ []) refl (omega arith) (λ e. omega (arith, e))

assigns_new :
    (h : Dag) × (assign
        (record pair { graph = []; title = ""; json_config = some "null" })
        (record { graph = pair.graph; title = pair.title; json_config = pair.json_config })
      ≡ ok h)
    × IsClone pair h
unfolding add_vertex contains_vertex make_dag make_vertex uuid_eq is_initialized as_string
assigns_new = assign_new pair "null" pair-IsSound.valid pair_document

abbrev owners : ℕ → ℕ
owners a = 1

compares_pair :
    (b : Bool) × (dag_eq owners str_eq pair pair ≡ ok b)
    × ((b ≡ true) ↔ (
        AllSame owners str_eq pair pair pair.graph pair.graph
        × (edge_count pair ≡ edge_count pair)
        × (str_eq "null" "null" ≡ true)))
unfolding add_vertex contains_vertex make_dag make_vertex uuid_eq is_initialized as_string
compares_pair =
    dag_eq_decides owners str_eq pair pair "null" "null" pair-IsSound.valid refl pair-IsSound.valid
      refl refl
