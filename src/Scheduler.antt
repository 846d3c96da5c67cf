-- ===== src/Scheduler.antt =====
-- lib/task_scheduler.cxx: the members of TaskScheduler; `startup` is in Scheduler/Startup.
pub mod Startup
pub mod Once
pub mod Kills
use dag_scheduler.Base.{
  ℕ, zero, suc, ◌+◌, ◌^◌, ◌-◌, Bool, true, false, List, [], ◌∷◌, Option, none, some, Outcome, ok,
  ◌>>=◌, if◌then◌else◌, ◌≡◌, ◌⊎◌, inl, inr, refl, length, get_elem?, arith, Bool-cases,
}
use dag_scheduler.Externals.{Externals}
use dag_scheduler.Task.{Task}
use dag_scheduler.Queue.{Queue, push, remove_task_from_queue}
use dag_scheduler.Thread.{Thread, make_thread}

-- `thread_pool` is the array of ten threads.
pub record Scheduler : Type 0 where
  pub queue : Queue
  pub pause : Bool
  pub kill : Bool
  pub thread_pool : List Thread

abbrev threads : ℕ → List Thread
threads zero = []
threads (suc n) = make_thread ∷ threads n

unfoldable pub make_scheduler : Scheduler
unfolding make_thread
make_scheduler = record { queue = []; pause = true; kill = true; thread_pool = threads 10 }

unfoldable pub queue_task : Scheduler → Option Task → Scheduler
unfolding push
queue_task s t = record s { queue = push s.queue t }

unfoldable pub pause : Scheduler → Scheduler
pause s = record s { pause = true }

unfoldable pub resume : Scheduler → Scheduler
resume s = record s { pause = false }

unfoldable pub shutdown : Scheduler → Scheduler
unfolding pause
shutdown s = record (pause s) { kill = true }

module _ ⦃env : Externals⦄ where
  -- The task that was taken from the queue is freed.
  unfoldable pub kill_task : Scheduler → ℕ → Outcome (Scheduler × Bool)
  unfolding remove_task_from_queue
  kill_task s u =
      remove_task_from_queue s.queue u none >>= λ (q, to_kill). ok (record s { queue = q }, true)

-- `static_cast<std::size_t>(-1)`
abbrev pub no_index : ℕ
no_index = 2 ^ 64 - 1

-- The loop, from index `i` on.
unfoldable pub unused_from : ℕ → List Thread → ℕ
unused_from i [] = no_index
unused_from i (t ∷ pool) = let rest = unused_from (suc i) pool in if t.running then rest else i

unfoldable pub first_unused_thread : Scheduler → ℕ
unfolding unused_from
first_unused_thread s = unused_from 0 s.thread_pool

-- The first `n` threads are running.
abbrev pub AreRunning : ℕ → List Thread → Type 0
AreRunning zero pool = Unit
AreRunning (suc n) [] = Unit
AreRunning (suc n) (t ∷ pool) = (t.running ≡ true) × AreRunning n pool

abbrev pub IsFirstUnused : ℕ → List Thread → ℕ → Type 0
IsFirstUnused i pool r =
    (AreRunning (length pool) pool × (r ≡ no_index))
    ⊎ ((n : ℕ) × (t : Thread) × (r ≡ i + n)
        × (get_elem? pool n ≡ some t)
        × (t.running ≡ false)
        × AreRunning n pool)

unused_from_lem : (pool : List Thread) (i : ℕ) → IsFirstUnused i pool (unused_from i pool)
unfolding unused_from
unused_from_lem [] i = inl (tt, refl)
unused_from_lem (t ∷ pool) i = elim (Bool-cases t.running) [
  | inr idle ↦ inr (0, t, rw idle (omega arith), refl, idle, tt)
  | inl busy ↦ elim (unused_from_lem pool (suc i)) [
    | inl (all, e) ↦ inl ((busy, all), rw busy e)
    | inr (n, x, e, at, idle, before) ↦
        inr (suc n, x, rw busy (omega (arith, e)), at, idle, (busy, before))
  ]
]

-- Either all threads of the pool run and `first_unused_thread` is `size_t(-1)`, or it is the index
-- of the first thread that does not run.
pub first_unused_thread_lem :
    (s : Scheduler) → IsFirstUnused 0 s.thread_pool (first_unused_thread s)
unfolding first_unused_thread
first_unused_thread_lem s = unused_from_lem s.thread_pool 0
