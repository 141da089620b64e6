-- ===== src/Task/Ready.antt =====
-- The array `tasks` of RTX/src/kernel/k_task.c stands for a list of ready tasks per priority.
use preemptive_multi_tasked.Prelude.{
  ℕ, ◌≡◌, ◌≢◌, inl, inr, sym, subst, ◌∙◌, List, [], ◌∷◌, ◌++◌, arith, ◌==◌, if◌then◌else◌, update,
  none, Bool-cases, ==_iff,
}
use Prim.Native.Nat.{min}
use preemptive_multi_tasked.Fifo.{LinkedList, Next, enqueue}
use preemptive_multi_tasked.Fifo.Queue.{
  All, Fresh, IsQueue, Links-frame, All-map, All-map₂, All-append, Fresh-update, enqueue-IsQueue,
  enqueue-frame,
}
use preemptive_multi_tasked.Task.{Sched, ready, insert_into_tasks}

-- The ready tasks of each priority, the longest waiting first.
abbrev pub Queues : Type 0
Queues = ℕ → List ℕ

pub record IsReady (s : Sched) (qs : Queues) : Type 0 where
  pub queue : (p : ℕ) → IsQueue s.next (s.tasks p) (qs p)
  pub prio : (p : ℕ) → All (λ t. (s.tcbs t).prio ≡ p) (qs p)
  pub state : (p : ℕ) → All (λ t. (s.tcbs t).state ≡ ready) (qs p)

-- The task waits in no queue.
abbrev pub Outside : ℕ → Queues → Type 0
Outside t qs = (p : ℕ) → Fresh t (qs p)

-- A task that is not ready waits in no queue.
pub Outside-of_state :
    (s : Sched) (qs : Queues) (t : ℕ) → IsReady s qs → (s.tcbs t).state ≢ ready → Outside t qs
Outside-of_state s qs t r n p = All-map _ _ (qs p) (λ a e k. n (ground arith)) (r.state p)

-- A task of another priority is not in the queue.
pub Fresh-of_prio :
    (s : Sched) (qs : Queues) (t p : ℕ) → IsReady s qs → (s.tcbs t).prio ≢ p → Fresh t (qs p)
Fresh-of_prio s qs t p r n = All-map _ _ (qs p) (λ a e k. n (ground arith)) (r.prio p)

-- The queues with `t` at the end of its own.
abbrev pub append_task : Sched → ℕ → Queues → Queues
append_task s t qs = let p = (s.tcbs t).prio in update qs p (qs p ++ t ∷ [])

pub append_task-All :
    (s : Sched) (t : ℕ) (qs : Queues) (P : ℕ → Type 0) (p : ℕ)
    → (p ≡ (s.tcbs t).prio → P t)
    → All P (qs p)
    → All P (append_task s t qs p)
append_task-All s t qs P p here rest = elim (Bool-cases (p == (s.tcbs t).prio)) [
  | inl same ↦
      let e : p ≡ (s.tcbs t).prio = (==_iff p _).0 same in
      rw same
        (All-append P (qs (s.tcbs t).prio) (t ∷ []) (subst (λ k. All P (qs k)) e rest) (here e, tt))
  | inr other ↦ rw other rest
]

pub IsQueue-frame :
    (next next' : Next) (list : LinkedList) (ts : List ℕ)
    → All (λ a. next' a ≡ next a) ts
    → IsQueue next list ts
    → IsQueue next' list ts
IsQueue-frame next next' list ts same q = record {
  links = Links-frame next next' list.head ts same q.links;
  tail = q.tail;
  distinct = q.distinct;
}

-- What `insert_into_tasks` leaves in each field.
module _ (s : Sched) (t : ℕ) where
  pub own_queue : Next × LinkedList
  own_queue = enqueue (s.tasks (s.tcbs t).prio) t (update s.next t none)

  insert_into_tasks-next : (insert_into_tasks t s).next ≡ own_queue.0
  unfolding insert_into_tasks own_queue
  insert_into_tasks-next = ground arith

  pub insert_into_tasks-tasks :
      (p : ℕ)
      → (insert_into_tasks t s).tasks p ≡ (if p == (s.tcbs t).prio then own_queue.1 else s.tasks p)
  unfolding insert_into_tasks own_queue
  insert_into_tasks-tasks p = ground arith

  pub insert_into_tasks-prio : (a : ℕ) → ((insert_into_tasks t s).tcbs a).prio ≡ (s.tcbs a).prio
  unfolding insert_into_tasks
  insert_into_tasks-prio a = ground arith

  pub insert_into_tasks-state :
      (a : ℕ)
      → ((insert_into_tasks t s).tcbs a).state ≡ (if a == t then ready else (s.tcbs a).state)
  unfolding insert_into_tasks
  insert_into_tasks-state a = ground arith

  pub insert_into_tasks-highest_priority :
      (insert_into_tasks t s).highest_priority ≡ min (s.tcbs t).prio s.highest_priority
  unfolding insert_into_tasks
  insert_into_tasks-highest_priority = ground arith

  pub insert_into_tasks-current :
      ((insert_into_tasks t s).current ≡ s.current)
      × ((insert_into_tasks t s).started ≡ s.started)
      × ((insert_into_tasks t s).yield_flag ≡ s.yield_flag)
  unfolding insert_into_tasks
  insert_into_tasks-current = ground arith

module _ (s : Sched) (qs : Queues) (t : ℕ) (r : IsReady s qs) (out : Outside t qs) where
  own_queue-IsQueue : IsQueue (own_queue s t).0 (own_queue s t).1 (qs (s.tcbs t).prio ++ t ∷ [])
  unfolding own_queue
  own_queue-IsQueue =
      let own = (s.tcbs t).prio in
      enqueue-IsQueue (update s.next t none) (s.tasks own) (qs own) t
        (IsQueue-frame s.next (update s.next t none) (s.tasks own) (qs own)
          (Fresh-update s.next t none (qs own) (out own)) (r.queue own))
        (out own) (ground arith)

  own_queue-frame :
      (a : ℕ) → a ≢ t → (s.tcbs a).prio ≢ (s.tcbs t).prio → (own_queue s t).0 a ≡ s.next a
  unfolding own_queue
  own_queue-frame a n k =
      let own = (s.tcbs t).prio in
      ground (
        arith,
        enqueue-frame (update s.next t none) (s.tasks own) (qs own) t a
            (IsQueue-frame s.next (update s.next t none) (s.tasks own) (qs own)
              (Fresh-update s.next t none (qs own) (out own)) (r.queue own))
            (Fresh-of_prio s qs a own r k),
      )

  -- A task that waits nowhere is put at the end of the queue of its priority.
  insert_into_tasks-IsQueue :
      (p : ℕ)
      → IsQueue
          (insert_into_tasks t s).next
          ((insert_into_tasks t s).tasks p)
          (append_task s t qs p)
  insert_into_tasks-IsQueue p = elim (Bool-cases (p == (s.tcbs t).prio)) [
    | inl same ↦
        rw (insert_into_tasks-next s t, insert_into_tasks-tasks s t p, same) own_queue-IsQueue
    | inr other ↦
        rw (insert_into_tasks-next s t, insert_into_tasks-tasks s t p, other)
          (IsQueue-frame s.next (own_queue s t).0 (s.tasks p) (qs p)
            (All-map₂ _ _ _ (qs p) (λ a e n. own_queue-frame a n (ground arith)) (r.prio p) (out p))
            (r.queue p))
  ]

  -- Where the queues are `qs` and the task is in none of them, `insert_into_tasks` makes it ready
  -- at the end of the queue of its priority and leaves all other queues as they are.
  pub insert_into_tasks-IsReady : IsReady (insert_into_tasks t s) (append_task s t qs)
  insert_into_tasks-IsReady = record {
    queue = insert_into_tasks-IsQueue;
    prio = λ p.
        append_task-All s t qs _ p (λ e. insert_into_tasks-prio s t t ∙ sym e)
          (All-map _ _ (qs p) (λ a e. insert_into_tasks-prio s t a ∙ e) (r.prio p));
    state = λ p.
        append_task-All s t qs _ p (λ e. ground (arith, insert_into_tasks-state s t t))
          (All-map _ _ (qs p) (λ a e. ground (arith, insert_into_tasks-state s t a)) (r.state p));
  }
