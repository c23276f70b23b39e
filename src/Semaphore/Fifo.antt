-- ===== src/Semaphore/Fifo.antt =====
-- What the wait queue of a semaphore promises: a list of at most `max_tasks` ids, oldest first.
use itron_rtos.Common.{
  ℕ, List, [], ◌∷◌, ◌++◌, Option, none, some, leb, if◌then◌else◌, length, elem, erase, ◌≤◌, ◌<◌,
  ◌≡◌, arith,
}
use itron_rtos.Task.{max_tasks}
use itron_rtos.Semaphore.{SemResult, ok, overflow, queue_empty}

abbrev pub push : List ℕ → ℕ → List ℕ × SemResult
push q task_id = if leb max_tasks (length q) then (q, overflow) else (q ++ task_id ∷ [], ok)

abbrev pub pop : List ℕ → List ℕ × SemResult × Option ℕ
pop [] = ([], queue_empty, none)
pop (x ∷ q) = (q, ok, some x)

-- The first occurrence of an id leaves the queue.
abbrev pub remove : List ℕ → ℕ → List ℕ × SemResult
remove q task_id = if elem task_id q then (erase task_id q, ok) else (q, queue_empty)

pub push-full : (q : List ℕ) (task_id : ℕ) → max_tasks ≤ length q → (q, overflow) ≡ push q task_id
push-full q task_id h = ground arith

pub push-room :
    (q : List ℕ) (task_id : ℕ) → length q < max_tasks → (q ++ task_id ∷ [], ok) ≡ push q task_id
push-room q task_id h = ground arith
