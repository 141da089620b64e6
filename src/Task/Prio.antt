-- ===== src/Task/Prio.antt =====
-- `k_tsk_set_prio`: who may change what, and a ready task that moves to another queue.
use preemptive_multi_tasked.Prelude.{
  ℕ, ◌≤◌, ◌≡◌, ◌≢◌, inl, inr, refl, sym, subst, List, [], ◌∷◌, ◌++◌, arith, leb, ◌==◌, update, none,
  some, Bool, true, false, not, ◌&&◌, ◌||◌, Bool-cases, ==_iff, length,
}
use preemptive_multi_tasked.Mem.{Rtx, rtx_err}
use preemptive_multi_tasked.Fifo.{LinkedList, Next, remove_node}
use preemptive_multi_tasked.Fifo.Queue.{All, Fresh, Distinct, IsQueue, All-map, All-map₂}
use preemptive_multi_tasked.Fifo.Remove.{find, drop_first, Removed, remove_node-Removed}
use preemptive_multi_tasked.Task.{
  move_task, is_blocked, requeue, k_tsk_set_prio, Run, returns, null_deref, Sched, ready, set_prio,
  insert_into_tasks,
}
use preemptive_multi_tasked.Task.Ready.{
  Outside-of_state, IsQueue-frame, insert_into_tasks-IsReady, Queues, IsReady, Outside,
  Fresh-of_prio,
}

module _ (key : ℕ → ℕ) (tid : ℕ) where
  find-All {ℓ} : (P : ℕ → Type ℓ) (t : ℕ) (ts : List ℕ) → All P ts → find key tid ts ≡ some t → P t
  find-All P t [] all e = absurd (ground arith)
  find-All P t (x ∷ ts) all e = elim (Bool-cases (key x == tid)) [
    | inl hit ↦ let same : x ≡ t = ground arith in subst P same all.0
    | inr miss ↦ find-All P t ts all.1 (rw miss at e)
  ]

  find-Fresh :
      (t : ℕ) (ts : List ℕ)
      → Distinct ts
      → find key tid ts ≡ some t
      → Fresh t (drop_first key tid ts)
  find-Fresh t [] d e = tt
  find-Fresh t (x ∷ ts) d e = elim (Bool-cases (key x == tid)) [
    | inl hit ↦ let same : x ≡ t = ground arith in rw hit (subst (λ k. Fresh k ts) same d.0)
    | inr miss ↦
        let rest = rw miss at e in
        rw miss (λ k. find-All (λ a. a ≢ x) t ts d.0 rest (sym k), find-Fresh t ts d.1 rest)
  ]

-- The queues without the task, which is looked up by its id.
abbrev pub without : Sched → ℕ → Queues → Queues
without s task_id qs =
    let old = (s.tcbs task_id).prio in
    update qs old (drop_first (λ a. (s.tcbs a).tid) task_id (qs old))

module _ (s : Sched) (qs : Queues) (task_id prio task : ℕ) (r : IsReady s qs)
    (few : length (qs (s.tcbs task_id).prio) ≤ 160)
    (found : find (λ a. (s.tcbs a).tid) task_id (qs (s.tcbs task_id).prio) ≡ some task) where
  removed-Outside : Outside task (without s task_id qs)
  removed-Outside p =
      let old = (s.tcbs task_id).prio in
      elim (Bool-cases (p == old)) [
        | inl same ↦
            rw same
              (find-Fresh (λ a. (s.tcbs a).tid) task_id task (qs old) (r.queue old).distinct found)
        | inr other ↦
            let own =
              find-All (λ a. (s.tcbs a).tid) task_id (λ a. (s.tcbs a).prio ≡ old) task (qs old)
                (r.prio old) found in
            rw other (Fresh-of_prio s qs task p r (λ e. ground arith))
      ]

  -- The list of the old priority without the task, and every other list as it was.
  module _ (next' : Next) (list' : LinkedList)
      (removed : Removed s.next
        (qs (s.tcbs task_id).prio)
        (drop_first (λ a. (s.tcbs a).tid) task_id (qs (s.tcbs task_id).prio))
        next'
        list') where
    abbrev taken : Sched
    taken =
        let old = (s.tcbs task_id).prio in
        set_prio task prio (record s { next = next'; tasks = update s.tasks old list' })

    drop_first-All :
        (P : ℕ → Type 0) (ts : List ℕ)
        → All P ts
        → All P (drop_first (λ a. (s.tcbs a).tid) task_id ts)
    drop_first-All P [] h = tt
    drop_first-All P (x ∷ ts) h = ground (arith, drop_first-All P ts h.1)

    without-All :
        (P : ℕ → ℕ → Type 0)
        → ((p : ℕ) → All (P p) (qs p))
        → (p : ℕ) → All (P p) (without s task_id qs p)
    without-All P h p =
        let old = (s.tcbs task_id).prio in
        elim (Bool-cases (p == old)) [
          | inl same ↦
              let e : p ≡ old = (==_iff p old).0 same in
              rw same (
                subst (λ k. All (P k) (drop_first (λ a. (s.tcbs a).tid) task_id (qs old))) (sym e)
                  (drop_first-All (P old) (qs old) (h old)))
          | inr other ↦ rw other (h p)
        ]

    taken-IsQueue : (p : ℕ) → IsQueue taken.next (taken.tasks p) (without s task_id qs p)
    taken-IsQueue p =
        let old = (s.tcbs task_id).prio in
        elim (Bool-cases (p == old)) [
          | inl same ↦ rw same removed.queue
          | inr other ↦ rw other (
              IsQueue-frame s.next next' (s.tasks p) (qs p)
                (All-map _ _ (qs p)
                  (λ a e. removed.same a (Fresh-of_prio s qs a old r (λ k. ground arith)))
                  (r.prio p))
                (r.queue p))
        ]

    taken-IsReady : IsReady taken (without s task_id qs)
    taken-IsReady = record {
      queue = taken-IsQueue;
      prio = λ p.
          All-map₂ _ _ _ (without s task_id qs p) (λ a e n. ground arith)
            (without-All (λ k a. (s.tcbs a).prio ≡ k) r.prio p) (removed-Outside p);
      state = λ p.
          All-map _ _ (without s task_id qs p) (λ a e. ground arith)
            (without-All (λ k a. (s.tcbs a).state ≡ ready) r.state p);
    }

    requeue-taken :
        remove_node (λ a. (s.tcbs a).tid) 160 task_id (s.tasks (s.tcbs task_id).prio) s.next
          ≡ some (find (λ a. (s.tcbs a).tid) task_id (qs (s.tcbs task_id).prio), next', list')
        → requeue task_id prio s ≡ returns (insert_into_tasks task taken)
    unfolding requeue
    requeue-taken e = ground (arith, e, found)

    inserted-IsReady :
        IsReady
          (insert_into_tasks task taken)
          (update (without s task_id qs) prio (without s task_id qs prio ++ task ∷ []))
    inserted-IsReady =
        let e : (taken.tcbs task).prio ≡ prio = ground arith in
        subst
          (λ k.
            IsReady (insert_into_tasks task taken)
              (update (without s task_id qs) k (without s task_id qs k ++ task ∷ [])))
          e
          (insert_into_tasks-IsReady taken (without s task_id qs) task taken-IsReady
            removed-Outside)

  -- Where the queues are `qs` and the first task with the id `task_id` among the at most 160 in the
  -- queue of the priority of `task_id` is `task`, moving it to another priority returns, with
  -- `task` out of that queue and at the end of that of `prio`; the other ready tasks stay in their
  -- queues, in their order.
  pub requeue-IsReady :
      (s' : Sched) × (requeue task_id prio s ≡ returns s')
      × IsReady s' (update (without s task_id qs) prio (without s task_id qs prio ++ task ∷ []))
  requeue-IsReady =
      let old = (s.tcbs task_id).prio in
      let (next', list', e, removed) =
        remove_node-Removed (λ a. (s.tcbs a).tid) 160 task_id s.next (s.tasks old) (qs old) few
          (r.queue old) in
      (
        insert_into_tasks task (taken next' list' removed),
        requeue-taken next' list' removed e,
        inserted-IsReady next' list' removed,
      )

-- The four tests by which `k_tsk_set_prio` refuses a call.
abbrev pub refused : (task_id prio : ℕ) → Sched → Bool
refused task_id prio s =
    ((s.tcbs s.current).priv == 0 && not ((s.tcbs task_id).priv == 0))
    || task_id == 0
    || leb prio 0
    || leb 255 prio

abbrev pub is_error : Run (Rtx × Sched) → Bool
is_error (returns (rtx_err, s)) = true
is_error _ = false

move_task-no_error : (task_id prio : ℕ) (s : Sched) → is_error (move_task task_id prio s) ≡ false
move_task-no_error task_id prio s = ground arith

-- `k_tsk_set_prio` reports an error exactly when an unprivileged task names a privileged one, or
-- the null task is named, or the priority is not one from 1 to 254.
pub k_tsk_set_prio-refuses :
    (task_id prio : ℕ) (s : Sched)
    → is_error (k_tsk_set_prio task_id prio s) ≡ refused task_id prio s
unfolding k_tsk_set_prio
k_tsk_set_prio-refuses task_id prio s = ground (arith, move_task-no_error task_id prio s)

find-none :
    (key : ℕ → ℕ) (tid : ℕ) (ts : List ℕ) → All (λ a. key a ≢ tid) ts → find key tid ts ≡ none
find-none key tid [] h = refl
find-none key tid (x ∷ ts) h = ground (arith, h.0, find-none key tid ts h.1)

module _ (s : Sched) (qs : Queues) (task_id prio : ℕ) (r : IsReady s qs)
    (few : length (qs (s.tcbs task_id).prio) ≤ 160)
    (own : (a : ℕ) → (s.tcbs a).tid ≡ task_id → a ≡ task_id)
    (idle : (s.tcbs task_id).state ≢ ready) where
  requeue-missing : requeue task_id prio s ≡ null_deref
  unfolding requeue
  requeue-missing =
      let old = (s.tcbs task_id).prio in
      let (next', list', e, removed) =
        remove_node-Removed (λ a. (s.tcbs a).tid) 160 task_id s.next (s.tasks old) (qs old) few
          (r.queue old) in
      let absent =
        find-none (λ a. (s.tcbs a).tid) task_id (qs old)
          (All-map _ _ (qs old) (λ a n k. n (own a k))
            (Outside-of_state s qs task_id r idle old)) in
      ground (arith, e, absent)

  -- A call of `k_tsk_set_prio` that is not refused, for another task than the caller that is
  -- neither ready nor blocked, say one that has exited, follows a NULL pointer, if the queues are
  -- well formed, that of the priority of the task has at most 160 tasks, and no two TCBs share its
  -- id.
  pub k_tsk_set_prio-null_deref :
      refused task_id prio s ≡ false
      → is_blocked (s.tcbs task_id).state ≡ false
      → (s.tcbs s.current).tid ≢ task_id
      → k_tsk_set_prio task_id prio s ≡ null_deref
  unfolding k_tsk_set_prio
  k_tsk_set_prio-null_deref ok unblocked other =
      ground (arith, requeue-missing, ok, unblocked, other)
