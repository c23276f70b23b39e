-- ===== src/Pending/Requests.antt =====
-- The request of kernel/dispatch_pending.c under any history of requests and clears.
use itron_rtos.Common.{
  ℕ, ◌≡◌, arith, ◌⊎◌, refl, true, false, not, ◌&&◌, Option, none, some, List, [], ◌∷◌, Bool-cases,
  inl, inr,
}
use itron_rtos.Task.{TaskTable}
use itron_rtos.Pending.{
  Source, no_source, from_irq, from_task, is_from_irq, is_from_task, Reason, irq_preemption,
  task_start, task_wakeup, Pending, cleared, request, clear_irq_for_evaluation, request_from_irq,
  request_from_task_start, request_from_task_wakeup, log_state_from_irq,
}

-- Which reasons go with which source.
abbrev pub Fits : Source → Reason → Type 0
Fits from_irq irq_preemption = Unit {0}
Fits from_task task_start = Unit {0}
Fits from_task task_wakeup = Unit {0}
Fits _ _ = ⊥

pub Fits-irq :
    (src : Source) (why : Reason) → Fits src why → is_from_task src ≡ false → is_from_irq src ≡ true
Fits-irq no_source why fits h = elim fits [ ]
Fits-irq from_irq why fits h = refl
Fits-irq from_task why fits h = ground arith

-- Both tasks of a request are known, and its reason is one that its source has.
pub record Requested (p : Pending) : Type 0 where
  pub is_set : p.requested ≡ true
  pub fits : Fits p.source p.reason
  pub current_known : (c : ℕ) × (p.current ≡ some c)
  pub candidate_known : (k : ℕ) × (p.candidate ≡ some k)

-- Either there is no request and every field is clear, or there is one in order.
abbrev pub PendingOk : Pending → Type 0
PendingOk p = (p ≡ cleared) ⊎ Requested p

pub data PendingCall : Type 0 where
  clears clears_irq logs : PendingCall
  from_irqs from_task_starts from_task_wakeups : TaskTable → Option ℕ → Option ℕ → PendingCall

unfoldable pub run_pending : PendingCall → Pending → Pending
run_pending clears p = cleared
run_pending clears_irq p = clear_irq_for_evaluation p
run_pending logs p = log_state_from_irq p
run_pending (from_irqs tasks c k) p = request_from_irq tasks c k p
run_pending (from_task_starts tasks c k) p = request_from_task_start tasks c k p
run_pending (from_task_wakeups tasks c k) p = request_from_task_wakeup tasks c k p

pub clear_irq-PendingOk : (p : Pending) → PendingOk p → PendingOk (clear_irq_for_evaluation p)
unfolding clear_irq_for_evaluation
clear_irq-PendingOk p v = elim (Bool-cases (is_from_irq p.source)) [
  | inl e ↦ rw e (inl refl)
  | inr e ↦ rw e v
]

pub request-Requested :
    (tasks : TaskTable) (src : Source) (why : Reason) (c k : ℕ)
    → Fits src why
    → Requested (request tasks src why c k)
request-Requested tasks src why c k fits = record {
  is_set = refl;
  fits = fits;
  current_known = (c, refl);
  candidate_known = (k, refl);
}

pub from_irq-PendingOk :
    (tasks : TaskTable) (c k : Option ℕ) (p : Pending)
    → PendingOk p
    → PendingOk (request_from_irq tasks c k p)
unfolding request_from_irq
from_irq-PendingOk tasks (some c) (some k) p v =
    elim (Bool-cases (p.requested && is_from_task p.source)) [
      | inl e ↦ rw e v
      | inr e ↦ rw e (inr (request-Requested tasks from_irq irq_preemption c k tt))
    ]
from_irq-PendingOk tasks (some c) none p v = clear_irq-PendingOk p v
from_irq-PendingOk tasks none k p v = clear_irq-PendingOk p v

pub from_task_start-PendingOk :
    (tasks : TaskTable) (c k : Option ℕ) (p : Pending)
    → PendingOk (request_from_task_start tasks c k p)
unfolding request_from_task_start
from_task_start-PendingOk tasks (some c) (some k) p =
    inr (request-Requested tasks from_task task_start c k tt)
from_task_start-PendingOk tasks (some c) none p = inl refl
from_task_start-PendingOk tasks none k p = inl refl

pub from_task_wakeup-PendingOk :
    (tasks : TaskTable) (c k : Option ℕ) (p : Pending)
    → PendingOk (request_from_task_wakeup tasks c k p)
unfolding request_from_task_wakeup
from_task_wakeup-PendingOk tasks (some c) (some k) p =
    inr (request-Requested tasks from_task task_wakeup c k tt)
from_task_wakeup-PendingOk tasks (some c) none p = inl refl
from_task_wakeup-PendingOk tasks none k p = inl refl

pub logs-PendingOk : (p : Pending) → PendingOk p → PendingOk (log_state_from_irq p)
unfolding log_state_from_irq
logs-PendingOk p (inl e) = rw e (inl refl)
logs-PendingOk p (inr r) = elim (Bool-cases (p.requested && not p.request_logged)) [
  | inl e ↦ rw e (
      inr (record {
        is_set = r.is_set;
        fits = r.fits;
        current_known = r.current_known;
        candidate_known = r.candidate_known;
      }))
  | inr e ↦ rw e (inr r)
]

run_pending-PendingOk : (c : PendingCall) (p : Pending) → PendingOk p → PendingOk (run_pending c p)
unfolding run_pending
run_pending-PendingOk clears p v = inl refl
run_pending-PendingOk clears_irq p v = clear_irq-PendingOk p v
run_pending-PendingOk logs p v = logs-PendingOk p v
run_pending-PendingOk (from_irqs tasks c k) p v = from_irq-PendingOk tasks c k p v
run_pending-PendingOk (from_task_starts tasks c k) p v = from_task_start-PendingOk tasks c k p
run_pending-PendingOk (from_task_wakeups tasks c k) p v = from_task_wakeup-PendingOk tasks c k p

unfoldable pub run_pendings : List PendingCall → Pending → Pending
run_pendings [] p = p
run_pendings (c ∷ cs) p = run_pendings cs (run_pending c p)

-- From the cleared state on, after any history of requests, clears and logs, either there is no
-- request and every field is clear, or there is one whose two tasks are known and whose reason is
-- one that its source has.
pub run_pendings-PendingOk : (cs : List PendingCall) → PendingOk (run_pendings cs cleared)
unfolding run_pendings
run_pendings-PendingOk cs = go cs cleared (inl refl)
  where
    go : (cs : List PendingCall) (p : Pending) → PendingOk p → PendingOk (run_pendings cs p)
    go [] p v = v
    go (c ∷ cs) p v = go cs (run_pending c p) (run_pending-PendingOk c p v)

-- The calls that the timer interrupt makes.
abbrev pub IsIrqCall : PendingCall → Type 0
IsIrqCall clears_irq = Unit {0}
IsIrqCall logs = Unit {0}
IsIrqCall (from_irqs _ _ _) = Unit {0}
IsIrqCall _ = ⊥

abbrev pub AllIrqCalls : List PendingCall → Type 0
AllIrqCalls [] = Unit {0}
AllIrqCalls (c ∷ cs) = IsIrqCall c × AllIrqCalls cs

-- The same request, but for whether it has been logged.
pub record SameRequest (p q : Pending) : Type 0 where
  pub still_set : q.requested ≡ true
  pub same_source : q.source ≡ from_task
  pub same_reason : q.reason ≡ p.reason
  pub same_current : (q.current ≡ p.current) × (q.current_id ≡ p.current_id)
  pub same_candidate : (q.candidate ≡ p.candidate) × (q.candidate_id ≡ p.candidate_id)

not_irq : (q : Pending) → q.source ≡ from_task → is_from_irq q.source ≡ false
not_irq q e = rw e refl

by_task :
    (q : Pending)
    → q.requested ≡ true
    → q.source ≡ from_task
    → (q.requested && is_from_task q.source) ≡ true
by_task q set e = rw (set, e) refl

SameRequest-step :
    (c : PendingCall) (p q : Pending)
    → IsIrqCall c
    → SameRequest p q
    → SameRequest p (run_pending c q)
unfolding run_pending clear_irq_for_evaluation request_from_irq log_state_from_irq
SameRequest-step clears p q irq h = elim irq [ ]
SameRequest-step (from_task_starts _ _ _) p q irq h = elim irq [ ]
SameRequest-step (from_task_wakeups _ _ _) p q irq h = elim irq [ ]
SameRequest-step clears_irq p q irq h = rw (not_irq q h.same_source) h
SameRequest-step logs p q irq h = elim (Bool-cases (q.requested && not q.request_logged)) [
  | inl e ↦ rw e (record {
    still_set = h.still_set;
    same_source = h.same_source;
    same_reason = h.same_reason;
    same_current = h.same_current;
    same_candidate = h.same_candidate;
  })
  | inr e ↦ rw e h
]
SameRequest-step (from_irqs tasks (some c) (some k)) p q irq h =
    rw (by_task q h.still_set h.same_source) h
SameRequest-step (from_irqs tasks (some c) none) p q irq h = rw (not_irq q h.same_source) h
SameRequest-step (from_irqs tasks none k) p q irq h = rw (not_irq q h.same_source) h

-- A request that a task has made outlives whatever the timer interrupt does before it is consumed:
-- its reason, its two tasks and their ids stay as they were.
pub run_pendings-SameRequest :
    (cs : List PendingCall) (p : Pending)
    → AllIrqCalls cs
    → p.requested ≡ true
    → p.source ≡ from_task
    → SameRequest p (run_pendings cs p)
unfolding run_pendings
run_pendings-SameRequest cs p irq set from = go cs p irq (record {
  still_set = set;
  same_source = from;
  same_reason = refl;
  same_current = (refl, refl);
  same_candidate = (refl, refl);
})
  where
    go :
        (cs : List PendingCall) (q : Pending)
        → AllIrqCalls cs
        → SameRequest p q
        → SameRequest p (run_pendings cs q)
    go [] q irq h = h
    go (c ∷ cs) q (irq, rest) h = go cs (run_pending c q) rest (SameRequest-step c p q irq h)
