-- ===== src/Dag/Add.antt =====
-- `DAG::add_vertex`.
use dag_scheduler.Dag.Append.{
  edge_count-appended, contains-appended, appended_old, contains-appended_old,
  contains-appended_new, appended_new, appended-IsValid, appended,
}
use mathlib.Core.Bool.{false≢true}
use dag_scheduler.Base.{
  ◌↔◌, ◌⊎◌, Bool, Option-cases, some, none, subst, sym, ◌∙◌, ap, inl, inr, ◌≢◌, refl, false, true,
  contains, ℕ, [], ◌≡◌,
}
use dag_scheduler.Externals.{Externals}
use dag_scheduler.Vertex.{Vertex, moved_from}
use dag_scheduler.Dag.{
  edge_count, find_vertex_by_uuid, Dag, add_vertex, contains_vertex, find_vertex,
}
use dag_scheduler.Dag.Valid.{IsValid}
use dag_scheduler.Dag.Find.{
  find_vertex_by_uuid_self, find_vertex_by_uuid_sound, find_vertex_by_uuid_complete,
}

module _ ⦃env : Externals⦄ (g : Dag) (v : Vertex) where
  pub add_vertex_new : find_vertex g v ≡ none → add_vertex g v ≡ (appended g v, moved_from, true)
  unfolding add_vertex contains_vertex appended
  add_vertex_new h = rw (h, contains_vertex)

  pub add_vertex_old : (a : ℕ) → find_vertex g v ≡ some a → add_vertex g v ≡ (g, v, false)
  unfolding add_vertex contains_vertex
  add_vertex_old a h = rw (h, contains_vertex)

module _ ⦃env : Externals⦄ where
  -- The vertex is in the graph afterwards, under its UUID, and it is `v` if there was none before.
  pub record IsAdded (g : Dag) (v : Vertex) (r : Dag × Vertex × Bool) : Type 0 where
    pub valid_after : IsValid r.0
    pub found :
        (a : ℕ) × (find_vertex_by_uuid r.0 v.uuid ≡ some a) × ((r.2 ≡ true) → r.0.cell a ≡ v)
    pub returned : (r.2 ≡ true) ↔ ((a : ℕ) → contains g.graph a ≡ true → (g.cell a).uuid ≢ v.uuid)
    pub moved : ((r.2 ≡ true) → r.1 ≡ moved_from) × ((r.2 ≡ false) → r ≡ (g, v, false))
    pub kept :
        (a : ℕ)
        → contains g.graph a ≡ true
        → (contains r.0.graph a ≡ true) × (r.0.cell a ≡ g.cell a)
    pub only :
        (a : ℕ) → contains r.0.graph a ≡ true → (contains g.graph a ≡ true) ⊎ (r.0.cell a ≡ v)
    pub same_count : edge_count r.0 ≡ edge_count g
    pub same_title : r.0.title ≡ g.title
    pub same_document : r.0.json_config ≡ g.json_config

module _ ⦃env : Externals⦄ (g : Dag) (v : Vertex) (valid : IsValid g) (no_edges : v.edges ≡ [])
    (no_incomming : v.incomming ≡ 0) where
  -- For a vertex with no edges and no incoming edges and a valid graph, `add_vertex` keeps the graph
  -- valid and the vertices that were there; it adds exactly if no vertex
  -- has the UUID, and otherwise changes neither the graph nor its argument.
  pub add_vertex_lem : IsAdded g v (add_vertex g v)
  unfolding find_vertex appended
  add_vertex_lem = elim (Option-cases (find_vertex_by_uuid g v.uuid)) [
    | inl free ↦
        let absent = find_vertex_by_uuid_complete g v.uuid free in
        subst (IsAdded g v) (sym (add_vertex_new g v free)) (record {
          valid_after = appended-IsValid g v valid no_edges no_incomming absent;
          found = (
            g.next_addr,
            ap (find_vertex_by_uuid (appended g v))
                  (ap (λ (x : Vertex). x.uuid) (sym (appended_new g v)))
                ∙ find_vertex_by_uuid_self (appended g v) g.next_addr
                    (appended-IsValid g v valid no_edges no_incomming absent)
                    (contains-appended_new g v),
            λ e. appended_new g v,
          );
          returned = (λ e. absent, λ e. refl);
          moved = (λ e. refl, λ e. absurd (false≢true (sym e)));
          kept = λ a m. (contains-appended_old g v a m, appended_old g v valid a m);
          only = λ a m. elim (contains-appended g v valid a m) [
            | inl old ↦ inl old
            | inr e ↦ inr (ap (appended g v).cell e ∙ appended_new g v)
          ];
          same_count = edge_count-appended g v valid no_edges no_incomming absent;
          same_title = refl;
          same_document = refl;
        })
    | inr (a, taken) ↦
        let (there, same) = find_vertex_by_uuid_sound g v.uuid a taken in
        subst (IsAdded g v) (sym (add_vertex_old g v a taken)) (record {
          valid_after = valid;
          found = (a, taken, λ e. absurd (false≢true e));
          returned = (λ e. absurd (false≢true e), λ free. absurd (free a there same));
          moved = (λ e. absurd (false≢true e), λ e. refl);
          kept = λ b m. (m, refl);
          only = λ b m. inl m;
          same_count = refl;
          same_title = refl;
          same_document = refl;
        })
  ]
