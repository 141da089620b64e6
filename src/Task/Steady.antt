-- ===== src/Task/Steady.antt =====
-- `k_tsk_run_new` keeps the kernel in order from one call to the next.
use preemptive_multi_tasked.Prelude.{
  ℕ, ◌≤◌, ◌≡◌, ◌≢◌, inl, inr, ap, subst, ◌∙◌, List, [], ◌∷◌, ◌++◌, arith, ◌==◌, update, some, true,
  false, Bool-cases,
}
use preemptive_multi_tasked.Mem.{Rtx}
use preemptive_multi_tasked.Fifo.Queue.{All-map, All-map₂}
use preemptive_multi_tasked.Task.{
  TaskState, ready, set_state, Sched, Tcb, stopped, gives_way, insert_into_tasks,
  retrieve_from_tasks, scheduler, k_tsk_run_new,
}
use preemptive_multi_tasked.Task.Ready.{
  Outside-of_state, Queues, append_task, insert_into_tasks-highest_priority, insert_into_tasks-prio,
  insert_into_tasks-current,
}
use preemptive_multi_tasked.Task.Retrieve.{Exact, pop_task, retrieve_from_tasks-same}
use preemptive_multi_tasked.Task.Schedule.{
  IsScheduled, unyielding, unyielding-IsScheduled, scheduler-gives_way, k_tsk_run_new-switch,
  k_tsk_run_new-gives_way, k_tsk_run_new-stopped, Switched, popped-Exact, t-prio, t-ne-current,
  switch_to-new, scheduler-stopped,
}

-- With a queue that is not empty at `highest_priority`, a new task keeps it exact.
pub insert_into_tasks-Exact :
    (s : Sched) (qs : Queues) (t : ℕ)
    → Exact s qs
    → (s.tcbs t).prio ≤ 255
    → qs s.highest_priority ≢ []
    → Exact (insert_into_tasks t s) (append_task s t qs)
insert_into_tasks-Exact s qs t x small busy =
    let high = insert_into_tasks-highest_priority s t in
    record {
      above = λ p lt. ground (arith, high, x.above p);
      top = λ p nil. absurd (not_all_empty p nil);
      bound = omega (arith, high, x.bound);
      range = λ p out. ground (arith, x.range p out);
    }
  where
    append-busy : (ts : List ℕ) (a : ℕ) → ts ++ a ∷ [] ≢ []
    append-busy [] a e = ground arith
    append-busy (x ∷ ts) a e = ground arith

    not_all_empty : (p : ℕ) → append_task s t qs (insert_into_tasks t s).highest_priority ≡ [] → ⊥
    not_all_empty p nil =
        let high = insert_into_tasks-highest_priority s t in
        elim (Bool-cases ((insert_into_tasks t s).highest_priority == (s.tcbs t).prio)) [
          | inl own ↦ append-busy (qs (s.tcbs t).prio) t (rw own at nil)
          | inr other ↦
              let same : (insert_into_tasks t s).highest_priority ≡ s.highest_priority =
                ground (arith, high) in
              busy (subst (λ k. qs k ≡ []) same (rw other at nil))
        ]

pub Exact-same :
    (s s' : Sched) (qs : Queues)
    → s'.highest_priority ≡ s.highest_priority
    → Exact s qs
    → Exact s' qs
Exact-same s s' qs e x = record {
  above = λ p lt. x.above p (omega arith);
  top = λ p nil. x.top p (rw e at nil);
  bound = omega (arith, x.bound);
  range = x.range;
}

module _ (s : Sched) (qs : Queues) (t : ℕ) (ts : List ℕ) (v : IsScheduled s qs)
    (first : qs s.highest_priority ≡ t ∷ ts) where
  pub run_new-IsScheduled :
      (s1 : Sched) (qs1 : Queues)
      → scheduler s ≡ (some t, s1)
      → Switched s t qs1 (k_tsk_run_new s)
      → Exact s1 qs1
      → s1.started ≡ true
      → (s1.tcbs t).prio ≡ s.highest_priority
      → IsScheduled (k_tsk_run_new s).1 qs1
  run_new-IsScheduled s1 qs1 e r x st pr =
      let new = switch_to-new s1 s.current t (t-ne-current s qs t ts v first) in
      let result = ap (λ (r : Rtx × Sched). r.1) (k_tsk_run_new-switch s t s1 v.started e) in
      record {
        started = ap (λ (f : Sched). f.started) result ∙ new.4 ∙ st;
        queues = r.queues;
        exact = Exact-same s1 _ qs1 (ap (λ (f : Sched). f.highest_priority) result ∙ new.3) x;
        apart = λ k. ground (arith, r.current, r.state, k);
        small = ground (
          arith,
          r.current,
          ap (λ (f : Sched). (f.tcbs t).prio) result,
          new.2,
          pr,
          v.exact.bound,
        );
      }

  -- A kernel in order, with a ready task at the highest priority, is in order again after the
  -- current task has stopped and `k_tsk_run_new` has replaced it: in particular `highest_priority`
  -- is the highest priority of a ready task, if one is left.
  pub k_tsk_run_new-stopped-IsScheduled :
      stopped (s.tcbs s.current).state ≡ true → IsScheduled (k_tsk_run_new s).1 (pop_task s ts qs)
  k_tsk_run_new-stopped-IsScheduled e =
      let s1 = (retrieve_from_tasks s).1 in
      let same = retrieve_from_tasks-same s in
      run_new-IsScheduled s1 _ (scheduler-stopped s qs t ts v first e)
        (k_tsk_run_new-stopped s qs t ts v first e) (popped-Exact s qs t ts v first)
        (same.4 ∙ v.started) (ap (λ (f : ℕ → Tcb). (f t).prio) same.0 ∙ t-prio s qs t ts v first)

  -- A kernel in order, with a ready task at the highest priority, is in order again after the
  -- current task has given way, if some task besides the one chosen is ready.
  pub k_tsk_run_new-gives_way-IsScheduled :
      (p : ℕ)
      → stopped (s.tcbs s.current).state ≡ false
      → gives_way s ≡ true
      → pop_task s ts qs p ≢ []
      → IsScheduled (k_tsk_run_new s).1 (append_task s s.current (pop_task s ts qs))
  k_tsk_run_new-gives_way-IsScheduled p e g busy =
      let s0 = unyielding s qs t ts v first in
      let s1 = (retrieve_from_tasks s0).1 in
      let same = retrieve_from_tasks-same s0 in
      let x = popped-Exact s0 qs t ts (unyielding-IsScheduled s qs t ts v first) first in
      let prio = λ (a : ℕ). ap (λ (f : ℕ → Tcb). (f a).prio) same.0 in
      run_new-IsScheduled (insert_into_tasks s.current s1) _
        (scheduler-gives_way s qs t ts v first e g) (k_tsk_run_new-gives_way s qs t ts v first e g)
        (subst
          (λ k.
            Exact (insert_into_tasks s.current s1)
              (update (pop_task s ts qs) k (pop_task s ts qs k ++ s.current ∷ [])))
          (prio s.current)
          (insert_into_tasks-Exact s1 (pop_task s ts qs) s.current x
            (omega (arith, prio s.current, v.small)) (λ nil. busy (x.top p nil))))
        ((insert_into_tasks-current s1 s.current).1 ∙ same.4 ∙ v.started)
        (insert_into_tasks-prio s1 s.current t ∙ prio t ∙ t-prio s qs t ts v first)

-- The kernel is in order when the current task has just been given a state in which it does not run.
pub set_state-IsScheduled :
    (s : Sched) (qs : Queues) (st : TaskState)
    → st ≢ ready
    → IsScheduled s qs
    → IsScheduled (set_state s.current st s) qs
set_state-IsScheduled s qs st n v =
    let out = Outside-of_state s qs s.current v.queues v.apart in
    record {
      started = v.started;
      queues = record {
        queue = v.queues.queue;
        prio = λ p. All-map _ _ (qs p) (λ a e. ground arith) (v.queues.prio p);
        state = λ p. All-map₂ _ _ _ (qs p) (λ a e k. ground arith) (v.queues.state p) (out p);
      };
      exact = record {
        above = v.exact.above;
        top = v.exact.top;
        bound = v.exact.bound;
        range = v.exact.range;
      };
      apart = ground (arith, n);
      small = ground (arith, v.small);
    }
