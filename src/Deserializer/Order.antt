-- ===== src/Deserializer/Order.antt =====
-- `YAMLDagDeserializer::load_stages` gives one stage for each node, behind those that were there.
use dag_scheduler.Base.{some, ℕ, suc, ◌≡◌, refl, ap, sym, subst, ◌∙◌, List, [], ◌∷◌, ◌++◌, length}
use mathlib.Core.List.{append_assoc, append-nil}
use dag_scheduler.Externals.{Externals, TaskStage}
use dag_scheduler.Loader.{◌>>=◌, expect, Load, done, World}
use dag_scheduler.Loader.Ends.{Ensures, weaken, Ends, bind_any, return-Ensures}
use dag_scheduler.Registry.{Libraries}
use dag_scheduler.Yaml.{Yaml}
use dag_scheduler.Deserializer.{load_each, load_stages}

module _ ⦃env : Externals⦄ (yaml : Yaml) (libraries : Libraries) where
  abbrev Extends : List TaskStage → ℕ → List TaskStage → Type 0
  Extends before n stages = (made : List TaskStage) × (stages ≡ before ++ made) × (length made ≡ n)

  load_each-Extends :
      (nodes : List yaml.Node) (before : List TaskStage)
      → Ensures (λ _. Unit) (Extends before (length nodes)) (load_each yaml libraries nodes before)
  unfolding load_each
  load_each-Extends [] before = return-Ensures before ([], sym (append-nil before), refl)
  load_each-Extends (node ∷ nodes) before = bind_any _ (λ stage.
      weaken (load_each-Extends nodes (before ++ stage ∷ [])) (λ stages (made, e, n).
        (stage ∷ made, e ∙ append_assoc before (stage ∷ []) made, ap suc n)))

  -- Where `load_stages` returns, it has put one stage for each node of the sequence behind those of
  -- its argument.
  pub load_stages_lem :
      (node : yaml.Node) (nodes : List yaml.Node) (before stages : List TaskStage) (w w' : World)
      → yaml.as_nodes node ≡ some nodes
      → load_stages yaml libraries node before w ≡ (w', done stages)
      → Extends before (length nodes) stages
  unfolding load_stages ◌>>=◌ expect
  load_stages_lem node nodes before stages w w' read h =
      let run : load_each yaml libraries nodes before w ≡ (w', done stages) =
        rw (sym h, read) refl in
      subst
        (λ (r : World × Load (List TaskStage)).
          Ends (λ _. Unit) (Extends before (length nodes)) r.1)
        run ((load_each-Extends nodes before).ends w)
