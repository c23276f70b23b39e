-- ===== src/Semaphore/Count.antt =====
-- The counting side of kernel/semaphore.c. The two out parameters of these functions only feed the
-- callers' console output, and are left out.
use itron_rtos.Common.{ℕ, ◌-◌, Option, none, some, if◌then◌else◌, is_positive, int_succ, int_le}
use itron_rtos.Semaphore.{
  Semaphore, SemTable, SemResult, ok, inval, overflow, wait_required, sem_get_by_id, write_sem,
}

-- The part of sem_take_if_available behind the lookup. The count is positive where it is lowered.
unfoldable pub take : Semaphore → Semaphore × SemResult
take s = if is_positive s.count then (record s { count = s.count - 1 }, ok) else (s, wait_required)

-- The part of sem_increment_count behind the lookup.
unfoldable pub increment : Semaphore → Semaphore × SemResult
increment s =
    if int_le s.max_count s.count
    then (s, overflow)
    else (record s { count = int_succ s.count }, ok)

-- A function that finds its semaphore, or returns SEM_ERR_INVAL.
unfoldable pub at_sem :
    SemTable → (Semaphore → Semaphore × SemResult) → Option ℕ → SemTable × SemResult
at_sem t f none = (t, inval)
at_sem t f (some i) = let (s, r) = f (t.sems i) in (write_sem t i s, r)

-- sem_take_if_available
unfoldable pub sem_take_if_available : SemTable → ℕ → SemTable × SemResult
unfolding at_sem take
sem_take_if_available t sem_id = at_sem t take (sem_get_by_id t sem_id)

-- sem_increment_count
unfoldable pub sem_increment_count : SemTable → ℕ → SemTable × SemResult
unfolding at_sem increment
sem_increment_count t sem_id = at_sem t increment (sem_get_by_id t sem_id)
