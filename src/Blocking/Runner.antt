-- ===== src/Blocking/Runner.antt =====
-- At most one RUNNING task: slp_tsk, wai_sem, twai_sem and dly_tsk of kernel/itron_api.c up to the
-- choice of the next task. Where they go on to a switch, no task is RUNNING.
pub mod Starts
pub mod Switches
pub mod History
mod Tests
use itron_rtos.Common.{ℕ, ◌≡◌, refl, true}
use itron_rtos.Task
use itron_rtos.Task.{TaskTable, TaskResult, is_running}
use itron_rtos.Task.Ops.{TaskCall, sleeps, waits_sem, waits_delay, waits_sem_timeout, run_call}
use itron_rtos.Task.Outcome.{LeavesRoom}
use itron_rtos.Task.Running.{
  NoneRuns, stops_runner, runs_none, run_call-NoNewRunner, run_call-NoneRuns,
}
use itron_rtos.Semaphore
use itron_rtos.Semaphore.{SemTable, SemResult, sem_get_by_id}
use itron_rtos.DelayQueue
use itron_rtos.DelayQueue.{DelayQueue, DelayResult}
use itron_rtos.Kernel.{Kernel}
use itron_rtos.Kernel.Runner.{RunnerOk, Quiet, Quiet-RunnerOk, NoNewRunner-RunnerOk}
use itron_rtos.Api.{Er}
use itron_rtos.Blocking.Begin.{
  Step, done, switches, current_id, slept, sem_enqueued, wai_marked, wai_taken, delay_enqueued,
  twai_queued, twai_marked, twai_checked, twai_taken, dly_marked, dly_checked, begin_slp_tsk,
  begin_wai_sem, begin_twai_sem, begin_dly_tsk,
}

-- A call that returns leaves at most one task RUNNING, and one that goes on leaves none.
abbrev pub StepRunner : Step → Type 0
StepRunner (done k er) = RunnerOk k
StepRunner (switches k c) = Quiet k

abbrev pub with_table : Kernel → TaskTable → Kernel
with_table k t = record k { tasks = t }

-- What the mark of the waiting task has come to.
pub record Marked (k : Kernel) (t : TaskTable) (r : TaskResult) : Type 0 where
  whole : RunnerOk (with_table k t)
  stopped : r ≡ Task.ok → NoneRuns t

pub Marked-Quiet : (k : Kernel) (t : TaskTable) → Marked k t Task.ok → Quiet (with_table k t)
Marked-Quiet k t m = record {
  ids = m.whole.ids;
  inside = m.whole.inside;
  none_runs = m.stopped refl;
}

pub run_call-Marked :
    (c : TaskCall) (k : Kernel)
    → stops_runner c ≡ true
    → runs_none c ≡ true
    → LeavesRoom c
    → RunnerOk k
    → Marked k (run_call c k.tasks).0 (run_call c k.tasks).1
run_call-Marked c k stops idle room v = record {
  whole = NoNewRunner-RunnerOk k _ (run_call-NoNewRunner c k.tasks idle room) refl v;
  stopped = λ good. run_call-NoneRuns c k.tasks k.current stops good v.only;
}

with_sems : (k : Kernel) (sems : SemTable) → RunnerOk k → RunnerOk (record k { sems = sems })
with_sems k sems v = record { ids = v.ids; inside = v.inside; only = v.only }

pub slept-Runner :
    (k : Kernel) (c : ℕ) (t : TaskTable) (r : TaskResult)
    → Marked k t r
    → StepRunner (slept k c (t, r))
unfolding slept
slept-Runner k c t Task.ok m = Marked-Quiet k t m
slept-Runner k c t Task.full m = m.whole
slept-Runner k c t Task.inval m = m.whole
slept-Runner k c t Task.id_overflow m = m.whole
slept-Runner k c t Task.not_found m = m.whole
slept-Runner k c t Task.bad_state m = m.whole

module _ (k : Kernel) (c : ℕ) (failed : Er) (q : Quiet k) where
  sem_enqueued-Runner :
      (sems : SemTable) (r : SemResult) → StepRunner (sem_enqueued k c failed (sems, r))
  unfolding sem_enqueued
  sem_enqueued-Runner sems Semaphore.ok = record {
    ids = q.ids;
    inside = q.inside;
    none_runs = q.none_runs;
  }
  sem_enqueued-Runner sems Semaphore.full = with_sems k sems (Quiet-RunnerOk k q)
  sem_enqueued-Runner sems Semaphore.inval = with_sems k sems (Quiet-RunnerOk k q)
  sem_enqueued-Runner sems Semaphore.overflow = with_sems k sems (Quiet-RunnerOk k q)
  sem_enqueued-Runner sems Semaphore.task_error = with_sems k sems (Quiet-RunnerOk k q)
  sem_enqueued-Runner sems Semaphore.queue_empty = with_sems k sems (Quiet-RunnerOk k q)
  sem_enqueued-Runner sems Semaphore.wait_required = with_sems k sems (Quiet-RunnerOk k q)

  delay_enqueued-Runner :
      (delays : DelayQueue) (r : DelayResult) → StepRunner (delay_enqueued k c failed (delays, r))
  unfolding delay_enqueued
  delay_enqueued-Runner delays DelayQueue.ok = record {
    ids = q.ids;
    inside = q.inside;
    none_runs = q.none_runs;
  }
  delay_enqueued-Runner delays DelayQueue.inval =
      Quiet-RunnerOk (record k { delays = delays })
        (record { ids = q.ids; inside = q.inside; none_runs = q.none_runs })
  delay_enqueued-Runner delays DelayQueue.full =
      Quiet-RunnerOk (record k { delays = delays })
        (record { ids = q.ids; inside = q.inside; none_runs = q.none_runs })
  delay_enqueued-Runner delays DelayQueue.duplicate =
      Quiet-RunnerOk (record k { delays = delays })
        (record { ids = q.ids; inside = q.inside; none_runs = q.none_runs })
  delay_enqueued-Runner delays DelayQueue.task_state =
      Quiet-RunnerOk (record k { delays = delays })
        (record { ids = q.ids; inside = q.inside; none_runs = q.none_runs })

wai_marked-Runner :
    (k : Kernel) (c sem_id : ℕ) (t : TaskTable) (r : TaskResult)
    → Marked k t r
    → StepRunner (wai_marked k c sem_id (t, r))
unfolding wai_marked
wai_marked-Runner k c sem_id t Task.ok m =
    sem_enqueued-Runner (with_table k t) c _ (Marked-Quiet k t m) _ _
wai_marked-Runner k c sem_id t Task.full m = m.whole
wai_marked-Runner k c sem_id t Task.inval m = m.whole
wai_marked-Runner k c sem_id t Task.id_overflow m = m.whole
wai_marked-Runner k c sem_id t Task.not_found m = m.whole
wai_marked-Runner k c sem_id t Task.bad_state m = m.whole

pub wai_taken-Runner :
    (k : Kernel) (c sem_id : ℕ) (sems : SemTable) (r : SemResult)
    → RunnerOk k
    → StepRunner (wai_taken k c sem_id (sems, r))
unfolding wai_taken run_call
wai_taken-Runner k c sem_id sems Semaphore.wait_required v =
    wai_marked-Runner (record k { sems = sems }) c sem_id _ _
      (run_call-Marked (waits_sem (current_id k c) sem_id) (record k { sems = sems }) refl refl tt
        (with_sems k sems v))
wai_taken-Runner k c sem_id sems Semaphore.ok v = with_sems k sems v
wai_taken-Runner k c sem_id sems Semaphore.full v = with_sems k sems v
wai_taken-Runner k c sem_id sems Semaphore.inval v = with_sems k sems v
wai_taken-Runner k c sem_id sems Semaphore.overflow v = with_sems k sems v
wai_taken-Runner k c sem_id sems Semaphore.task_error v = with_sems k sems v
wai_taken-Runner k c sem_id sems Semaphore.queue_empty v = with_sems k sems v

twai_queued-Runner :
    (k : Kernel) (c timeout_ticks : ℕ) (sems : SemTable) (r : SemResult)
    → Quiet k
    → StepRunner (twai_queued k c timeout_ticks (sems, r))
unfolding twai_queued
twai_queued-Runner k c ticks sems Semaphore.ok q =
    delay_enqueued-Runner (record k { sems = sems }) c _
      (record { ids = q.ids; inside = q.inside; none_runs = q.none_runs }) _ _
twai_queued-Runner k c ticks sems Semaphore.full q = with_sems k sems (Quiet-RunnerOk k q)
twai_queued-Runner k c ticks sems Semaphore.inval q = with_sems k sems (Quiet-RunnerOk k q)
twai_queued-Runner k c ticks sems Semaphore.overflow q = with_sems k sems (Quiet-RunnerOk k q)
twai_queued-Runner k c ticks sems Semaphore.task_error q = with_sems k sems (Quiet-RunnerOk k q)
twai_queued-Runner k c ticks sems Semaphore.queue_empty q = with_sems k sems (Quiet-RunnerOk k q)
twai_queued-Runner k c ticks sems Semaphore.wait_required q = with_sems k sems (Quiet-RunnerOk k q)

twai_marked-Runner :
    (k : Kernel) (c sem_id timeout_ticks : ℕ) (t : TaskTable) (r : TaskResult)
    → Marked k t r
    → StepRunner (twai_marked k c sem_id timeout_ticks (t, r))
unfolding twai_marked
twai_marked-Runner k c sem_id ticks t Task.ok m =
    twai_queued-Runner (with_table k t) c ticks _ _ (Marked-Quiet k t m)
twai_marked-Runner k c sem_id ticks t Task.full m = m.whole
twai_marked-Runner k c sem_id ticks t Task.inval m = m.whole
twai_marked-Runner k c sem_id ticks t Task.id_overflow m = m.whole
twai_marked-Runner k c sem_id ticks t Task.not_found m = m.whole
twai_marked-Runner k c sem_id ticks t Task.bad_state m = m.whole

twai_checked-Runner :
    (k : Kernel) (c sem_id timeout_ticks : ℕ) (r : SemResult) (d : DelayResult)
    → RunnerOk k
    → StepRunner (twai_checked k c sem_id timeout_ticks r d)
unfolding twai_checked run_call
twai_checked-Runner k c sem_id ticks Semaphore.ok DelayQueue.ok v =
    twai_marked-Runner k c sem_id ticks _ _
      (run_call-Marked (waits_sem_timeout (current_id k c) sem_id ticks) k refl refl tt v)
twai_checked-Runner k c sem_id ticks Semaphore.ok DelayQueue.inval v = v
twai_checked-Runner k c sem_id ticks Semaphore.ok DelayQueue.full v = v
twai_checked-Runner k c sem_id ticks Semaphore.ok DelayQueue.duplicate v = v
twai_checked-Runner k c sem_id ticks Semaphore.ok DelayQueue.task_state v = v
twai_checked-Runner k c sem_id ticks Semaphore.full d v = v
twai_checked-Runner k c sem_id ticks Semaphore.inval d v = v
twai_checked-Runner k c sem_id ticks Semaphore.overflow d v = v
twai_checked-Runner k c sem_id ticks Semaphore.task_error d v = v
twai_checked-Runner k c sem_id ticks Semaphore.queue_empty d v = v
twai_checked-Runner k c sem_id ticks Semaphore.wait_required d v = v

pub twai_taken-Runner :
    (k : Kernel) (c sem_id timeout_ticks : ℕ) (sems : SemTable) (r : SemResult)
    → RunnerOk k
    → StepRunner (twai_taken k c sem_id timeout_ticks (sems, r))
unfolding twai_taken
twai_taken-Runner k c sem_id ticks sems Semaphore.wait_required v =
    twai_checked-Runner (record k { sems = sems }) c sem_id ticks _ _ (with_sems k sems v)
twai_taken-Runner k c sem_id ticks sems Semaphore.ok v = with_sems k sems v
twai_taken-Runner k c sem_id ticks sems Semaphore.full v = with_sems k sems v
twai_taken-Runner k c sem_id ticks sems Semaphore.inval v = with_sems k sems v
twai_taken-Runner k c sem_id ticks sems Semaphore.overflow v = with_sems k sems v
twai_taken-Runner k c sem_id ticks sems Semaphore.task_error v = with_sems k sems v
twai_taken-Runner k c sem_id ticks sems Semaphore.queue_empty v = with_sems k sems v

dly_marked-Runner :
    (k : Kernel) (c delay_ticks : ℕ) (t : TaskTable) (r : TaskResult)
    → Marked k t r
    → StepRunner (dly_marked k c delay_ticks (t, r))
unfolding dly_marked
dly_marked-Runner k c ticks t Task.ok m =
    delay_enqueued-Runner (with_table k t) c _ (Marked-Quiet k t m) _ _
dly_marked-Runner k c ticks t Task.full m = m.whole
dly_marked-Runner k c ticks t Task.inval m = m.whole
dly_marked-Runner k c ticks t Task.id_overflow m = m.whole
dly_marked-Runner k c ticks t Task.not_found m = m.whole
dly_marked-Runner k c ticks t Task.bad_state m = m.whole

pub dly_checked-Runner :
    (k : Kernel) (c delay_ticks : ℕ) (r : DelayResult)
    → RunnerOk k
    → StepRunner (dly_checked k c delay_ticks r)
unfolding dly_checked run_call
dly_checked-Runner k c ticks DelayQueue.ok v =
    dly_marked-Runner k c ticks _ _
      (run_call-Marked (waits_delay (current_id k c) ticks) k refl refl tt v)
dly_checked-Runner k c ticks DelayQueue.inval v = v
dly_checked-Runner k c ticks DelayQueue.full v = v
dly_checked-Runner k c ticks DelayQueue.duplicate v = v
dly_checked-Runner k c ticks DelayQueue.task_state v = v
