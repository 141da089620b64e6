-- ===== src/Kernel/Exit.antt =====
-- What `k_tsk_exit` leaves behind.
use preemptive_multi_tasked.Prelude.{
  ℕ, ◌<◌, ◌≡◌, ◌≢◌, refl, some, List, [], ◌∷◌, ◌++◌, arith, sub32,
}
use preemptive_multi_tasked.Mem.{Mem}
use preemptive_multi_tasked.Task.{dormant, running, set_state, k_tsk_run_new}
use preemptive_multi_tasked.Task.Tids.{IsRing, contents, add_tid, add_tid-contents}
use preemptive_multi_tasked.Task.Ready.{Queues, IsReady}
use preemptive_multi_tasked.Task.Retrieve.{pop_task}
use preemptive_multi_tasked.Task.Schedule.{IsScheduled, k_tsk_run_new-stopped}
use preemptive_multi_tasked.Task.Steady.{set_state-IsScheduled}
use preemptive_multi_tasked.Kernel.{Kernel, leave, release, k_tsk_exit}

-- What holds once the task has left: `t` runs, the tasks `ts` still wait behind it, and the id of
-- the old task is free.
pub record Left (k : Kernel) (qs : Queues) (t : ℕ) (ts : List ℕ) (k' : Kernel) : Type 0 where
  pub current : k'.sched.current ≡ t
  pub state : (k'.sched.tcbs t).state ≡ running
  pub queues : IsReady k'.sched (pop_task k.sched ts qs)
  pub tids : contents k'.tids ≡ contents k.tids ++ (k.sched.tcbs k.sched.current).tid ∷ []
  pub active : k'.num_active_tasks ≡ sub32 k.num_active_tasks 1

module _ (k : Kernel) (qs : Queues) (t : ℕ) (ts : List ℕ) (v : IsScheduled k.sched qs)
    (first : qs k.sched.highest_priority ≡ t ∷ ts) (ring : IsRing k.tids)
    (spare : k.tids.size < 159) (no_kcd : (k.sched.tcbs k.sched.current).tid ≢ 159) where
  leave-fields :
      let s = set_state k.sched.current dormant k.sched in
      ((leave k).sched ≡ (k_tsk_run_new s).1)
      × ((leave k).tids ≡ add_tid (k.sched.tcbs k.sched.current).tid k.tids)
      × ((leave k).num_active_tasks ≡ sub32 k.num_active_tasks 1)
  unfolding leave
  leave-fields = ground arith

  leave-Left : Left k qs t ts (leave k)
  leave-Left =
      let s = set_state k.sched.current dormant k.sched in
      let r =
        k_tsk_run_new-stopped s qs t ts (set_state-IsScheduled k.sched qs dormant (ground arith) v)
          first (ground arith) in
      let (sched, tids, active) = leave-fields in
      record {
        current = rw sched r.current;
        state = rw sched r.state;
        queues = rw sched r.queues;
        tids =
            ground (arith, tids, add_tid-contents (k.sched.tcbs k.sched.current).tid k.tids ring);
        active = active;
      }

-- In a kernel in order, with the tasks `t` and `ts` in the queue of the highest priority and a ring
-- of ids that is not full, a task other than the KCD whose memory is given back exits: `t` becomes
-- current and running and leaves its queue, the other queues stay as they are, the id of the old
-- task comes last among the free ones, and one task less is active.
pub k_tsk_exit-Left :
    (k : Kernel) (qs : Queues) (t : ℕ) (ts : List ℕ) (m : Mem)
    → IsScheduled k.sched qs
    → qs k.sched.highest_priority ≡ t ∷ ts
    → IsRing k.tids
    → k.tids.size < 159
    → (k.sched.tcbs k.sched.current).tid ≢ 159
    → release k ≡ some m
    → (k' : Kernel) × (k_tsk_exit k ≡ some k') × Left k qs t ts k'
unfolding k_tsk_exit
k_tsk_exit-Left k qs t ts m v first ring spare no_kcd freed =
    let left = leave-Left (record k { mem = m }) qs t ts v first ring spare no_kcd in
    (
      leave (record k { mem = m }),
      rw (freed, k_tsk_exit) refl,
      record {
        current = left.current;
        state = left.state;
        queues = left.queues;
        tids = left.tids;
        active = left.active;
      },
    )
