-- ===== src/Queue/Removal.antt =====
-- `remove_task_from_queue`: the tasks that stay, and the one that is given back.
use dag_scheduler.Base.{
  ℕ, Bool, not, List, [], ◌∷◌, Option, some, ok, ◌≡◌, ◌∙◌, refl, ap, if◌then◌else◌, keep_if, str_eq,
  map, ◌>>=◌, Bool-cases, inl, inr, Outcome,
}
use dag_scheduler.Externals.{Externals}
use dag_scheduler.Uuid.{as_string}
use dag_scheduler.Task.{Task}
use dag_scheduler.Queue.{Queue, remove_task_from_queue}

module _ ⦃env : Externals⦄ (u : ℕ) where
  abbrev pub is_match : Task → Bool
  is_match t = str_eq (as_string t.uuid) (as_string u)

  -- The last match, or what was there before.
  abbrev pub last_match : List Task → Option Task → Option Task
  last_match [] before = before
  last_match (t ∷ ts) before = last_match ts (if is_match t then some t else before)

  kept :
      (t : Task) (ts : List Task)
      → (if is_match t
          then map some (keep_if (λ x. not (is_match x)) ts)
          else some t ∷ map some (keep_if (λ x. not (is_match x)) ts))
        ≡ map some (keep_if (λ x. not (is_match x)) (t ∷ ts))
  kept t ts = elim (Bool-cases (is_match t)) [ inl e ↦ rw e refl | inr e ↦ rw e refl ]

  -- On a queue with no null pointer, `remove_task_from_queue` keeps the tasks with another UUID, in
  -- their order, and `ret_ptr` is the last task with the UUID, or is left as it was if there is none.
  pub remove_task_from_queue_lem :
      (ts : List Task) (ret_ptr : Option Task)
      → remove_task_from_queue (map some ts) u ret_ptr
        ≡ ok (map some (keep_if (λ t. not (is_match t)) ts), last_match ts ret_ptr)
  unfolding remove_task_from_queue
  remove_task_from_queue_lem [] ret_ptr = refl
  remove_task_from_queue_lem (t ∷ ts) ret_ptr =
      ap
        (λ (r : Outcome (Queue × Option Task)).
          r >>= λ (rest, ret). ok (if is_match t then rest else some t ∷ rest, ret))
        (remove_task_from_queue_lem ts (if is_match t then some t else ret_ptr))
      ∙ ap (λ q. ok (q, last_match ts (if is_match t then some t else ret_ptr))) (kept t ts)
