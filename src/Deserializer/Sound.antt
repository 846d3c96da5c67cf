-- ===== src/Deserializer/Sound.antt =====
-- What `YAMLDagDeserializer` makes is a DAG without edges that the operations of a DAG make.
use dag_scheduler.Base.{subst, ℕ, ◌≡◌, refl, ◌∙◌, List, [], ◌∷◌, Option, String}
use dag_scheduler.Externals.{Externals}
use dag_scheduler.Task.{Task}
use dag_scheduler.Vertex.{make_vertex}
use dag_scheduler.Dag.{Dag, make_dag, add_vertex, edge_count}
use dag_scheduler.Dag.Add.{add_vertex_lem}
use dag_scheduler.Connect.Reach.{Reached, Reached-IsSound}
use dag_scheduler.Loader.{Load, World, Exception}
use dag_scheduler.Loader.Ends.{
  Ensures, option-Ensures, if-Ensures, Ends, throw-Ensures, bind-Ensures, return-Ensures, bind_any,
}
use dag_scheduler.Registry.{Libraries}
use dag_scheduler.Yaml.{Yaml}
use dag_scheduler.Deserializer.{
  Load, done, deserialize, make_definition, add_node, add_nodes, make_vertices,
}

-- The constructors and `add_vertex` make it, and it has no edges.
record IsMade ⦃env : Externals⦄ (g : Dag) : Type 0 where
  reached : Reached g
  no_edges : edge_count g ≡ 0

module _ ⦃env : Externals⦄ (yaml : Yaml) (libraries : Libraries) where
  empty-IsMade : (title json : String) → IsMade (make_dag title json)
  unfolding make_dag edge_count
  empty-IsMade title json = record { reached = Reached.made title json; no_edges = refl }

  added-IsMade :
      (g : Dag) (name : String) (task : Option Task) (uuid : ℕ)
      → IsMade g
      → IsMade (add_vertex g (make_vertex name task uuid)).0
  unfolding make_vertex
  added-IsMade g name task uuid m =
      let v = make_vertex name task uuid in
      let added = add_vertex_lem g v (Reached-IsSound g m.reached).valid refl refl in
      record {
        reached = Reached.added g v m.reached refl refl;
        no_edges = added.same_count ∙ m.no_edges;
      }

  add_node-IsMade :
      (g : Dag) (node : yaml.Node)
      → IsMade g
      → Ensures (λ _. Unit) (IsMade) (add_node yaml libraries g node)
  unfolding add_node
  add_node-IsMade g node m = bind_any _ (λ name. bind_any _ (λ text. bind_any _ (λ uuid.
      bind_any _ (λ found. bind_any _ (λ task.
        return-Ensures (add_vertex g (make_vertex name task uuid)).0
          (added-IsMade g name task uuid m))))))

  add_nodes-IsMade :
      (g : Dag) (nodes : List yaml.Node)
      → IsMade g
      → Ensures (λ _. Unit) (IsMade) (add_nodes yaml libraries g nodes)
  unfolding add_nodes
  add_nodes-IsMade g [] m = return-Ensures g m
  add_nodes-IsMade g (node ∷ nodes) m =
      bind-Ensures (IsMade) (add_node-IsMade g node m) (λ g' m'. add_nodes-IsMade g' nodes m')

  make_vertices-IsMade :
      (g : Dag) (node : yaml.Node)
      → IsMade g
      → Ensures (λ _. Unit) (IsMade) (make_vertices yaml libraries node g)
  unfolding make_vertices
  make_vertices-IsMade g node m =
      if-Ensures (yaml.is_sequence node) _ _ (bind_any _ (λ nodes. add_nodes-IsMade g nodes m))
        (throw-Ensures Exception.wrong_type tt)

  make_definition-IsMade :
      (node : yaml.Node) → Ensures (λ _. Unit) IsMade (make_definition yaml libraries node)
  unfolding make_definition
  make_definition-IsMade node = bind_any _ (λ json. bind_any _ (λ title. bind_any _ (λ found.
      option-Ensures found _ _ (return-Ensures (make_dag title json) (empty-IsMade title json))
        (λ vertices.
          make_vertices-IsMade (make_dag title json) vertices (empty-IsMade title json)))))

  deserialize-Ensures :
      (node : yaml.Node) → Ensures (λ _. Unit) IsMade (deserialize yaml libraries node)
  unfolding deserialize
  deserialize-Ensures node = bind_any _ (λ found. bind_any _ (λ dag.
      if-Ensures (yaml.is_map dag) _ _ (make_definition-IsMade dag)
        (throw-Ensures Exception.wrong_type tt)))

  -- A DAG that is made from a node is one that the operations make, so that it has no cycle, and it
  -- has no edges: the node's connections are not read.
  pub deserialize-Reached :
      (node : yaml.Node) (w w' : World) (g : Dag)
      → deserialize yaml libraries node w ≡ (w', done g)
      → Reached g × (edge_count g ≡ 0)
  deserialize-Reached node w w' g h =
      let made : IsMade g =
        subst (λ (r : World × Load Dag). Ends (λ _. Unit) IsMade r.1) h
          ((deserialize-Ensures node).ends w) in
      (made.reached, made.no_edges)
