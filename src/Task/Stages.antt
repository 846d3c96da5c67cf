-- ===== src/Task/Stages.antt =====
-- lib/task.cxx: the stages of a task, `kill` and `complete`.
use dag_scheduler.Base.{
  subst, ◌↔◌, ℕ, suc, Bool, true, false, not, ◌&&◌, ◌||◌, List, [], ◌∷◌, ◌++◌, none, some,
  if◌then◌else◌, ◌≡◌, ◌⊎◌, inl, inr, refl, ap, ◌∙◌, Bool-cases, sym,
}
use mathlib.Core.Bool.{false≢true}
use dag_scheduler.Externals.{TaskStage}
use dag_scheduler.Task.{Task}

-- The `all_of`: `next_stage n s` is the result of the n-th call, and `killed n` whether the task was
-- killed by the time that the n-th test of `kill_` is made. The result, and the stages that
-- `next_stage` was called for. `cleanup`, a virtual function of the stage that has no result, is called
-- for the same stages, each time right after `next_stage`; what it does is not modelled.
unfoldable pub all_of :
    (ℕ → TaskStage → Bool) → (ℕ → Bool) → ℕ → List TaskStage → Bool × List TaskStage
all_of next_stage killed n [] = (true, [])
all_of next_stage killed n (s ∷ stages) =
    let rest = all_of next_stage killed (suc n) stages in
    if next_stage n s && s.ends && not (killed n) then (rest.0, s ∷ rest.1) else (false, s ∷ [])

-- `killed` says what other threads do to `kill_` meanwhile.
unfoldable pub iterate_stages :
    Task → (ℕ → TaskStage → Bool) → (ℕ → Bool) → Task × Bool × List TaskStage
unfolding all_of
iterate_stages t next_stage killed =
    let ran = all_of next_stage (λ n. t.kill || killed n) 0 t.stages in
    if t.iterating then (t, false, []) else (record t { iterating = false }, ran.0, ran.1)

unfoldable pub kill : Task → Task
kill t = record t { kill = true }

-- A call of a user's function, or of a plugin, with the status.
pub data Completion : Type 0 where
  callback plugin : ℕ → Bool → Completion

unfoldable pub complete : Task → Bool → List Completion
complete t status =
    elim t.complete_callback [ none ↦ [] | some f ↦ Completion.callback f status ∷ [] ]
    ++ elim t.complete_callback_plugin [ none ↦ [] | some p ↦ Completion.plugin p status ∷ [] ]

module _ (next_stage : ℕ → TaskStage → Bool) (killed : ℕ → Bool) where
  -- The n-th stage ran, ended, and found the task alive.
  abbrev pub IsGood : ℕ → TaskStage → Type 0
  IsGood n s = (next_stage n s && s.ends && not (killed n)) ≡ true

  abbrev pub AreGood : ℕ → List TaskStage → Type 0
  AreGood n [] = Unit
  AreGood n (s ∷ stages) = IsGood n s × AreGood (suc n) stages

  -- The stages are good, and `s` after them is not.
  abbrev pub StopsAt : ℕ → List TaskStage → TaskStage → Type 0
  StopsAt n [] s = ¬ IsGood n s
  StopsAt n (d ∷ done) s = IsGood n d × StopsAt (suc n) done s

  -- All stages were run and are good, or those up to the first that is not.
  abbrev pub RunsTo : ℕ → List TaskStage → Bool × List TaskStage → Type 0
  RunsTo n stages r =
      (AreGood n stages × (r ≡ (true, stages)))
      ⊎ ((done : List TaskStage) × (s : TaskStage) × (rest : List TaskStage) × (stages
            ≡ done ++ s ∷ rest)
          × StopsAt n done s
          × (r ≡ (false, done ++ s ∷ [])))

  pub all_of_lem :
      (stages : List TaskStage) (n : ℕ) → RunsTo n stages (all_of next_stage killed n stages)
  unfolding all_of
  all_of_lem [] n = inl (tt, refl)
  all_of_lem (s ∷ stages) n =
      let rest = all_of next_stage killed (suc n) stages in
      elim (Bool-cases (next_stage n s && s.ends && not (killed n))) [
        | inr bad ↦
            inr ([], s, stages, refl, (λ good. false≢true (sym bad ∙ good)), ap (next rest s) bad)
        | inl good ↦ elim (all_of_lem stages (suc n)) [
          | inl (all, e) ↦ inl (
            (good, all),
            ap (next rest s) good ∙ ap (λ (r : Bool × List TaskStage). (r.0, s ∷ r.1)) e,
          )
          | inr (done, t, more, split, stops, e) ↦ inr (
            s ∷ done,
            t,
            more,
            ap (λ l. s ∷ l) split,
            (good, stops),
            ap (next rest s) good ∙ ap (λ (r : Bool × List TaskStage). (r.0, s ∷ r.1)) e,
          )
        ]
      ]
    where
      next : Bool × List TaskStage → TaskStage → Bool → Bool × List TaskStage
      next rest x b = if b then (rest.0, x ∷ rest.1) else (false, x ∷ [])

  stops_not_good :
      (done : List TaskStage) (s : TaskStage) (rest : List TaskStage) (n : ℕ)
      → StopsAt n done s
      → ¬ AreGood n (done ++ s ∷ rest)
  stops_not_good [] s rest n stops good = stops good.0
  stops_not_good (d ∷ done) s rest n stops good = stops_not_good done s rest (suc n) stops.1 good.1

  pub RunsTo-iff :
      (stages : List TaskStage) (n : ℕ) (r : Bool × List TaskStage)
      → RunsTo n stages r
      → (r.0 ≡ true) ↔ AreGood n stages
  RunsTo-iff stages n r (inl (good, e)) =
      (λ _. good, λ _. ap (λ (x : Bool × List TaskStage). x.0) e)
  RunsTo-iff stages n r (inr (done, s, rest, split, stops, e)) = (
    λ t. absurd (false≢true (sym (ap (λ (x : Bool × List TaskStage). x.0) e) ∙ t)),
    λ good. absurd (stops_not_good done s rest n stops (subst (AreGood n) split good)),
  )

-- `iterate_stages` of a task that no other call iterates: either each stage ran and ended with the
-- task not killed, all were run in order and the result is true, or the stages were run up to the
-- first of which that does not hold, and the result is false.
pub iterate_stages_lem :
    (t : Task) (next_stage : ℕ → TaskStage → Bool) (killed : ℕ → Bool)
    → t.iterating ≡ false
    → (r : Bool × List TaskStage) × (iterate_stages t next_stage killed
        ≡ (record t { iterating = false }, r.0, r.1))
      × RunsTo next_stage (λ n. t.kill || killed n) 0 t.stages r
unfolding iterate_stages
iterate_stages_lem t next_stage killed idle =
    let r = all_of next_stage (λ n. t.kill || killed n) 0 t.stages in
    (r, rw idle refl, all_of_lem next_stage (λ n. t.kill || killed n) t.stages 0)
