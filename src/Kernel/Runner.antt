-- ===== src/Kernel/Runner.antt =====
-- The dispatcher's current task and the RUNNING one.
use itron_rtos.Common.{ℕ, ◌<◌, ◌≡◌, sym, ◌∙◌, some}
use itron_rtos.Task.{max_tasks}
use itron_rtos.Task.Identity.{IdsOk}
use itron_rtos.Task.Running.{NoNewRunner, NoneRuns, OnlyRuns}
use itron_rtos.Kernel.{Kernel}

-- The ids are in order, the current task is in the table, and it is the only one that may be RUNNING.
pub record RunnerOk (k : Kernel) : Type 0 where
  pub ids : IdsOk k.tasks
  pub inside : (c : ℕ) → k.current ≡ some c → c < max_tasks
  pub only : OnlyRuns k.tasks k.current

-- The same with no task RUNNING at all.
pub record Quiet (k : Kernel) : Type 0 where
  pub ids : IdsOk k.tasks
  pub inside : (c : ℕ) → k.current ≡ some c → c < max_tasks
  pub none_runs : NoneRuns k.tasks

pub Quiet-RunnerOk : (k : Kernel) → Quiet k → RunnerOk k
Quiet-RunnerOk k q = record {
  ids = q.ids;
  inside = q.inside;
  only = λ j lt h. absurd (cc (sym h ∙ q.none_runs j lt));
}

pub NoNewRunner-RunnerOk :
    (k k' : Kernel)
    → NoNewRunner k.tasks k'.tasks
    → k'.current ≡ k.current
    → RunnerOk k
    → RunnerOk k'
NoNewRunner-RunnerOk k k' n same v = record {
  ids = n.ids v.ids;
  inside = λ c h. v.inside c (sym same ∙ h);
  only = λ j lt h. same ∙ v.only j lt (n.before j lt h);
}
