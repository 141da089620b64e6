-- ===== src/Task/Blocked.antt =====
-- What a switch in RTX/src/kernel/k_task.c makes of the states of tasks that wait for a message.
use preemptive_multi_tasked.Prelude.{
  ℕ, refl, Option, none, some, ◌≡◌, ◌≢◌, ◌∙◌, ap, true, false, List, ◌∷◌, arith,
}
use preemptive_multi_tasked.Mem.{Rtx}
use preemptive_multi_tasked.Task.{
  Sched, Tcb, blk_msg, is_blocked, stopped, switch_to, scheduler, k_tsk_run_new, insert_into_tasks,
  retrieve_from_tasks,
}
use preemptive_multi_tasked.Task.Ready.{Queues, insert_into_tasks-state}
use preemptive_multi_tasked.Task.Retrieve.{retrieve_from_tasks-same}
use preemptive_multi_tasked.Task.Schedule.{
  IsScheduled, t-ne-current, scheduler-stopped, k_tsk_run_new-switch,
}

scheduler-unblocked :
    (s : Sched) (r : ℕ) → (s.tcbs r).state ≢ blk_msg → ((scheduler s).1.tcbs r).state ≢ blk_msg
unfolding scheduler
scheduler-unblocked s r n e =
    let same : (s' : Sched) → (((retrieve_from_tasks s').1.tcbs r).state ≡ (s'.tcbs r).state) =
      λ s'. ap (λ (f : ℕ → Tcb). (f r).state) (retrieve_from_tasks-same s').0 in
    let s0 = record s { yield_flag = false } in
    let s1 = (retrieve_from_tasks s0).1 in
    ground (arith, same s, same s0, insert_into_tasks-state s1 s1.current r, n, e)

switch_to-unblocked :
    (s : Sched) (old new r : ℕ)
    → is_blocked (s.tcbs r).state ≡ false
    → is_blocked ((switch_to old new s).tcbs r).state ≡ false
unfolding switch_to
switch_to-unblocked s old new r n = ground (arith, n)

k_tsk_run_new-chosen :
    (s : Sched) (r : ℕ) (chosen : Option ℕ)
    → (scheduler s).0 ≡ chosen
    → (s.tcbs r).state ≢ blk_msg
    → is_blocked ((k_tsk_run_new s).1.tcbs r).state ≡ false
unfolding k_tsk_run_new
k_tsk_run_new-chosen s r none c n = ground (arith, c, scheduler-unblocked s r n, n)
k_tsk_run_new-chosen s r (some new) c n =
    let s1 = (scheduler s).1 in
    let calm : is_blocked (s1.tcbs r).state ≡ false = ground (arith, scheduler-unblocked s r n) in
    ground (arith, c, switch_to-unblocked s1 s.current new r calm, calm, n)

k_tsk_run_new-unblocked :
    (s : Sched) (r : ℕ) → (s.tcbs r).state ≢ blk_msg → ((k_tsk_run_new s).1.tcbs r).state ≢ blk_msg
k_tsk_run_new-unblocked s r n e = ground (arith, k_tsk_run_new-chosen s r (scheduler s).0 refl n, e)

-- A task that has been made ready does not wait for a message after the switch that follows.
pub insert_into_tasks-unblocked :
    (s : Sched) (r : ℕ) → ((k_tsk_run_new (insert_into_tasks r s)).1.tcbs r).state ≢ blk_msg
insert_into_tasks-unblocked s r =
    k_tsk_run_new-unblocked (insert_into_tasks r s) r
      (λ e. ground (arith, insert_into_tasks-state s r r, e))

switch_to-stopped :
    (s : Sched) (old new : ℕ)
    → new ≢ old
    → stopped (s.tcbs old).state ≡ true
    → ((switch_to old new s).tcbs old).state ≡ (s.tcbs old).state
unfolding switch_to
switch_to-stopped s old new n e = ground (arith, n, e)

module _ (s : Sched) (qs : Queues) (t : ℕ) (ts : List ℕ) (v : IsScheduled s qs)
    (first : qs s.highest_priority ≡ t ∷ ts) where
  -- A task that has stopped stays so when another one is switched to.
  pub k_tsk_run_new-stopped-state :
      stopped (s.tcbs s.current).state ≡ true
      → ((k_tsk_run_new s).1.tcbs s.current).state ≡ (s.tcbs s.current).state
  k_tsk_run_new-stopped-state e =
      let s1 = (retrieve_from_tasks s).1 in
      let same : (s1.tcbs s.current).state ≡ (s.tcbs s.current).state =
        ap (λ (f : ℕ → Tcb). (f s.current).state) (retrieve_from_tasks-same s).0 in
      ap (λ (r : Rtx × Sched). (r.1.tcbs s.current).state)
        (k_tsk_run_new-switch s t s1 v.started (scheduler-stopped s qs t ts v first e))
      ∙ switch_to-stopped s1 s.current t (t-ne-current s qs t ts v first) (ap stopped same ∙ e)
      ∙ same
