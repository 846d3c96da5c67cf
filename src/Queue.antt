-- ===== src/Queue.antt =====
-- lib/concurrent_task_queue.cxx: each member function holds the mutex, so that it is one step on the
-- deque.
pub mod Order
pub mod Removal
use dag_scheduler.Base.{
  ℕ, Bool, true, false, ◌||◌, List, [], ◌∷◌, ◌++◌, Option, none, some, Outcome, ok, fault,
  if◌then◌else◌, str_eq, length, ◌>>=◌,
}
use dag_scheduler.Externals.{Externals}
use dag_scheduler.Uuid.{as_string}
use dag_scheduler.Task.{Task}

-- The deque of unique_ptrs; a null one is `none`.
abbrev pub Queue : Type 0
Queue = List (Option Task)

unfoldable pub size : Queue → ℕ
size q = length q

unfoldable pub push : Queue → Option Task → Queue
push q task = q ++ task ∷ []

unfoldable pub empty : Queue → Bool
empty [] = true
empty (t ∷ q) = false

unfoldable pub clear : Queue → Queue
clear q = []

-- The new queue, `popped_value` and the result.
unfoldable pub try_pop : Queue → Option Task → Queue × Option Task × Bool
try_pop [] popped_value = ([], popped_value, false)
try_pop (t ∷ q) popped_value = (q, t, true)

-- The step that ends the wait: the queue as it is when the predicate holds or the time is over.
unfoldable pub wait_for_and_pop : Queue → Option Task → Queue × Option Task × Bool
wait_for_and_pop [] popped_value = ([], popped_value, false)
wait_for_and_pop (t ∷ q) popped_value = (q, t, true)

-- It waits for as long as the queue is empty: `none`.
unfoldable pub wait_and_pop : Queue → Option (Queue × Option Task)
wait_and_pop [] = none
wait_and_pop (t ∷ q) = some (q, t)

module _ ⦃env : Externals⦄ where
  -- `remove_if` calls the lambda on each task in turn, which moves a match to `ret_ptr`.
  unfoldable pub remove_task_from_queue : Queue → ℕ → Option Task → Outcome (Queue × Option Task)
  remove_task_from_queue [] to_remove ret_ptr = ok ([], ret_ptr)
  remove_task_from_queue (none ∷ q) to_remove ret_ptr = fault
  remove_task_from_queue (some t ∷ q) to_remove ret_ptr =
      let matches = str_eq (as_string t.uuid) (as_string to_remove) in
      remove_task_from_queue q to_remove (if matches then some t else ret_ptr) >>= λ (rest, ret).
      ok (if matches then rest else some t ∷ rest, ret)
