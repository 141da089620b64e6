-- ===== src/Task/Rounds.antt =====
-- `k_tsk_yield` called over and over by the tasks of the highest priority.
mod Tests
use preemptive_multi_tasked.Prelude.{
  ℕ, zero, suc, ◌+◌, ◌≤◌, ◌<◌, ◌≡◌, ◌≢◌, inl, inr, refl, ap, sym, subst, ◌∙◌, List, [], ◌∷◌, ◌++◌,
  arith, ◌==◌, update, some, true, false, Bool-cases, length,
}
use mathlib.Core.List.{append_assoc}
use preemptive_multi_tasked.Mem.{Rtx}
use preemptive_multi_tasked.Task.{
  Sched, Tcb, running, insert_into_tasks, retrieve_from_tasks, switch_to, k_tsk_run_new,
  k_tsk_yield,
}
use preemptive_multi_tasked.Task.Ready.{
  Queues, append_task, insert_into_tasks-highest_priority, insert_into_tasks-prio,
  insert_into_tasks-current,
}
use preemptive_multi_tasked.Task.Retrieve.{
  Exact, pop_task, retrieve_from_tasks-same, retrieve_from_tasks-le,
}
use preemptive_multi_tasked.Task.Schedule.{
  IsScheduled, Switched, scheduler-gives_way, k_tsk_run_new-switch, k_tsk_run_new-gives_way,
  switch_to-new, t-prio, t-ne-current, unyielding,
}
use preemptive_multi_tasked.Task.Steady.{run_new-IsScheduled}
use preemptive_multi_tasked.Task.Yield.{yielding, yielding-IsScheduled}

-- The running task yields, then the one that runs next, and so on `n` times.
abbrev pub k_tsk_yields : ℕ → Sched → Sched
k_tsk_yields zero s = s
k_tsk_yields (suc n) s = k_tsk_yields n (k_tsk_yield s).1

append-busy : (ts : List ℕ) (a : ℕ) → ts ++ a ∷ [] ≢ []
append-busy [] a e = ground arith
append-busy (x ∷ ts) a e = ground arith

-- The task `cur` runs, with the highest priority `p`, and `waiting` are ready at that priority.
pub record Turn (s : Sched) (qs : Queues) (p cur : ℕ) (waiting : List ℕ) : Type 0 where
  pub ordered : IsScheduled s qs
  pub current : s.current ≡ cur
  pub state : (s.tcbs s.current).state ≡ running
  pub prio : (s.tcbs s.current).prio ≡ p
  pub highest : s.highest_priority ≡ p
  pub queue : qs p ≡ waiting

module _ (s : Sched) (qs : Queues) (p cur t : ℕ) (ts : List ℕ) (v : Turn s qs p cur (t ∷ ts)) where
  abbrev y : Sched
  y = record s { yield_flag = true }

  abbrev after : Queues
  after = append_task s s.current (pop_task s ts qs)

  first : qs s.highest_priority ≡ t ∷ ts
  first = ap qs v.highest ∙ v.queue

  ordered : IsScheduled y qs
  ordered = yielding-IsScheduled s qs v.ordered

  left : Sched
  left = (retrieve_from_tasks (record s { yield_flag = false })).1

  left_prio : (a : ℕ) → (left.tcbs a).prio ≡ (s.tcbs a).prio
  unfolding left
  left_prio a =
      ap (λ (f : ℕ → Tcb). (f a).prio)
        (retrieve_from_tasks-same (record s { yield_flag = false })).0

  -- The caller keeps its priority the highest.
  back_highest : (insert_into_tasks s.current left).highest_priority ≡ p
  unfolding left
  back_highest = omega (
    arith,
    insert_into_tasks-highest_priority left s.current,
    left_prio s.current,
    retrieve_from_tasks-le (record s { yield_flag = false }),
    v.prio,
    v.highest,
  )

  after_queue : after p ≡ ts ++ cur ∷ []
  after_queue = ground (arith, v.prio, v.highest, v.current)

  after_others : (q : ℕ) → q ≢ p → after q ≡ qs q
  after_others q n = ground (arith, v.prio, v.highest)

  back_Exact : Exact (insert_into_tasks s.current left) after
  back_Exact = record {
    above = λ q lt.
        after_others q (omega (arith, back_highest))
        ∙ v.ordered.exact.above q (omega (arith, back_highest, v.highest));
    top =
        λ q nil. absurd (append-busy ts cur (sym after_queue ∙ ap after (sym back_highest) ∙ nil));
    bound = omega (arith, back_highest, v.highest, v.ordered.exact.bound);
    range = λ q out.
        after_others q (omega (arith, v.highest, v.ordered.exact.bound))
        ∙ v.ordered.exact.range q out;
  }

  yield_eq :
      let s2 = switch_to s.current t (insert_into_tasks s.current left) in
      ((k_tsk_yield s).1 ≡ s2)
      × (s2.current ≡ t)
      × ((s2.tcbs t).state ≡ running)
      × ((s2.tcbs t).prio ≡ p)
      × (s2.highest_priority ≡ p)
  unfolding left k_tsk_yield
  yield_eq =
      let new =
        switch_to-new (insert_into_tasks s.current left) s.current t
          (t-ne-current y qs t ts ordered first) in
      (
        ap (λ (r : Rtx × Sched). r.1)
            (k_tsk_run_new-switch y t (insert_into_tasks s.current left) v.ordered.started (
              scheduler-gives_way y qs t ts ordered first (ground (arith, v.state))
                (ground (arith, v.prio, v.highest)))),
        new.0,
        new.1,
        new.2
            ∙ insert_into_tasks-prio left s.current t
            ∙ left_prio t
            ∙ t-prio y qs t ts ordered first
            ∙ v.highest,
        new.3 ∙ back_highest,
      )

  -- The first of the waiting tasks gets its turn, and the caller goes behind the others.
  pub k_tsk_yield-Turn : Turn (k_tsk_yield s).1 after p t (ts ++ cur ∷ [])
  unfolding left k_tsk_yield
  k_tsk_yield-Turn =
      let (eq, now, runs, of_prio, high) = yield_eq in
      let g =
        k_tsk_run_new-gives_way y qs t ts ordered first (ground (arith, v.state))
          (ground (arith, v.prio, v.highest)) in
      record {
        ordered =
            run_new-IsScheduled y qs t ts ordered first (insert_into_tasks s.current left) after
              (scheduler-gives_way y qs t ts ordered first (ground (arith, v.state))
                (ground (arith, v.prio, v.highest)))
              g back_Exact
              ((insert_into_tasks-current left s.current).1
                ∙ (retrieve_from_tasks-same (record s { yield_flag = false })).4
                ∙ v.ordered.started)
              (insert_into_tasks-prio left s.current t
                ∙ left_prio t
                ∙ t-prio y qs t ts ordered first);
        current = g.current;
        state = rw g.current g.state;
        prio = rw g.current (ap (λ (f : Sched). (f.tcbs t).prio) eq ∙ of_prio);
        highest = ap (λ (f : Sched). f.highest_priority) eq ∙ high;
        queue = after_queue;
      }

-- What several turns leave: `cur` runs, `waiting` wait, and the other queues are as they were.
abbrev pub Turns : (s : Sched) (qs : Queues) (p cur : ℕ) (waiting : List ℕ) → Type 0
Turns s qs p cur waiting =
    (qs' : Queues) × Turn s qs' p cur waiting × ((q : ℕ) → q ≢ p → qs' q ≡ qs q)

-- In a kernel in order whose running task `cur` has the highest priority, `p`, every task `t` that
-- is ready at `p` runs after as many calls of `k_tsk_yield` as there are tasks before it and one
-- more, with those before it and `cur` behind those that were after it, in their order; the
-- queues of the other priorities stay as they are.
pub k_tsk_yields-Turns :
    (s : Sched) (qs : Queues) (p cur t : ℕ) (before behind : List ℕ)
    → Turn s qs p cur (before ++ t ∷ behind)
    → Turns (k_tsk_yields (suc (length before)) s) qs p t (behind ++ cur ∷ before)
k_tsk_yields-Turns s qs p cur t [] behind v = (
  after s qs p cur t behind v,
  k_tsk_yield-Turn s qs p cur t behind v,
  after_others s qs p cur t behind v,
)
k_tsk_yields-Turns s qs p cur t (x ∷ before) behind v =
    let qs1 = after s qs p cur x (before ++ t ∷ behind) v in
    let (qs2, turn, others) =
      k_tsk_yields-Turns (k_tsk_yield s).1 qs1 p x t before (behind ++ cur ∷ []) (
        subst (Turn (k_tsk_yield s).1 qs1 p x) (append_assoc before (t ∷ behind) (cur ∷ []))
          (k_tsk_yield-Turn s qs p cur x (before ++ t ∷ behind) v)) in
    (
      qs2,
      subst (Turn (k_tsk_yields (suc (suc (length before))) s) qs2 p t)
          (append_assoc behind (cur ∷ []) (x ∷ before)) turn,
      λ q n. others q n ∙ after_others s qs p cur x (before ++ t ∷ behind) v q n,
    )
