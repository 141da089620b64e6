-- ===== src/Boot/Insert.antt =====
-- A new task in the queues of RTX/src/kernel/k_task.c, also as the first of all.
use preemptive_multi_tasked.Prelude.{
  ℕ, ◌≤◌, ◌≡◌, ◌≢◌, ◌⊎◌, inl, inr, Bool-cases, ap, sym, ◌∙◌, subst, arith, ◌==◌, true, List, [],
  ◌∷◌, ◌++◌,
}
use preemptive_multi_tasked.Fifo.Queue.{All-map₂}
use preemptive_multi_tasked.Task.{Sched, insert_into_tasks}
use preemptive_multi_tasked.Task.Ready.{
  Queues, Outside, append_task, insert_into_tasks-IsReady, insert_into_tasks-prio,
  insert_into_tasks-state, insert_into_tasks-current, insert_into_tasks-highest_priority,
}
use preemptive_multi_tasked.Task.Retrieve.{Exact}
use preemptive_multi_tasked.Task.Schedule.{IsScheduled}
use preemptive_multi_tasked.Task.Steady.{insert_into_tasks-Exact, Exact-same}
use preemptive_multi_tasked.Kernel.Created.{Created}

-- A new task in no queue does not disturb the kernel.
pub Created-IsScheduled :
    (s s' : Sched) (qs : Queues) (t p : ℕ)
    → IsScheduled s qs
    → Created t p s s'
    → Outside t qs
    → s.current ≢ t
    → IsScheduled s' qs
Created-IsScheduled s s' qs t p v c out other = record {
  started = c.started ∙ v.started;
  queues = record {
    queue = λ q. rw (c.next, c.tasks) (v.queues.queue q);
    prio = λ q.
        All-map₂ _ _ _ (qs q) (λ a e n. ap (λ x. x.prio) (c.others a n) ∙ e) (v.queues.prio q)
          (out q);
    state = λ q.
        All-map₂ _ _ _ (qs q) (λ a e n. ap (λ x. x.state) (c.others a n) ∙ e) (v.queues.state q)
          (out q);
  };
  exact = Exact-same s s' qs c.highest v.exact;
  apart = rw (c.current, c.others s.current other) v.apart;
  small = rw (c.current, c.others s.current other) v.small;
}

append-busy : (ts : List ℕ) (a : ℕ) → ts ++ a ∷ [] ≢ []
append-busy [] a e = ground arith
append-busy (x ∷ ts) a e = ground arith

-- The first task of all, or one more: `highest_priority` is kept exact.
insert-Exact :
    (s : Sched) (qs : Queues) (t : ℕ)
    → Exact s qs
    → (s.tcbs t).prio ≤ 255
    → (qs s.highest_priority ≢ []) ⊎ (s.highest_priority ≡ 255)
    → Exact (insert_into_tasks t s) (append_task s t qs)
insert-Exact s qs t x small (inl busy) = insert_into_tasks-Exact s qs t x small busy
insert-Exact s qs t x small (inr last) =
    let high : (insert_into_tasks t s).highest_priority ≡ (s.tcbs t).prio =
      ground (arith, insert_into_tasks-highest_priority s t, last, small) in
    record {
      above = λ p lt. ground (arith, high, last, small, x.above p);
      top = λ p nil. absurd (append-busy (qs (s.tcbs t).prio) t (own (rw high at nil)));
      bound = omega (arith, high, small);
      range = λ p out. ground (arith, small, x.range p out);
    }
  where
    own : append_task s t qs (s.tcbs t).prio ≡ [] → qs (s.tcbs t).prio ++ t ∷ [] ≡ []
    own nil = let hit : ((s.tcbs t).prio == (s.tcbs t).prio) ≡ true = ground arith in rw hit at nil

pub insert-state :
    (s : Sched) (t a : ℕ) → a ≢ t → ((insert_into_tasks t s).tcbs a).state ≡ (s.tcbs a).state
insert-state s t a other = ground (arith, insert_into_tasks-state s t a, other)

pub insert-IsScheduled :
    (s : Sched) (qs : Queues) (t : ℕ)
    → IsScheduled s qs
    → Outside t qs
    → s.current ≢ t
    → (s.tcbs t).prio ≤ 255
    → (qs s.highest_priority ≢ []) ⊎ (s.highest_priority ≡ 255)
    → IsScheduled (insert_into_tasks t s) (append_task s t qs)
insert-IsScheduled s qs t v out other small high =
    let (now, begun, flag) = insert_into_tasks-current s t in
    record {
      started = begun ∙ v.started;
      queues = insert_into_tasks-IsReady s qs t v.queues out;
      exact = insert-Exact s qs t v.exact small high;
      apart = rw now (λ e. v.apart (sym (insert-state s t s.current other) ∙ e));
      small = rw (now, insert_into_tasks-prio s t s.current) v.small;
    }

-- Afterwards the first queue is not empty.
pub insert-busy :
    (s : Sched) (qs : Queues) (t : ℕ)
    → (s.tcbs t).prio ≤ 255
    → (qs s.highest_priority ≢ []) ⊎ (s.highest_priority ≡ 255)
    → append_task s t qs (insert_into_tasks t s).highest_priority ≢ []
insert-busy s qs t small high nil =
    let new = (insert_into_tasks t s).highest_priority in
    elim (Bool-cases (new == (s.tcbs t).prio)) [
      | inl own ↦ append-busy (qs (s.tcbs t).prio) t (rw own at nil)
      | inr other ↦ elim high [
        | inl busy ↦
            let same : new ≡ s.highest_priority =
              ground (arith, insert_into_tasks-highest_priority s t) in
            busy (subst (λ p. qs p ≡ []) same (rw other at nil))
        | inr last ↦
            let never : ⊥ =
              ground (arith, insert_into_tasks-highest_priority s t, last, small, other) in
            never
      ]
    ]
