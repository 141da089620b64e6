-- ===== src/Task/Retrieve.antt =====
-- `retrieve_from_tasks` takes the longest waiting task of the highest priority.
use preemptive_multi_tasked.Prelude.{
  ℕ, zero, suc, ◌+◌, ◌-◌, ◌≤◌, ◌<◌, ◌≡◌, ◌≢◌, inl, inr, refl, ap, subst, ◌∙◌, List, [], ◌∷◌, arith,
  ◌==◌, if◌then◌else◌, update, Option, none, some, true, false, Bool-cases, ==_iff, dec_lt,
}
use preemptive_multi_tasked.Fifo.{LinkedList, Next, dequeue}
use preemptive_multi_tasked.Fifo.Queue.{All, Links, IsQueue}
use preemptive_multi_tasked.Task.{Sched, ready, has_head, next_priority, retrieve_from_tasks}
use preemptive_multi_tasked.Task.Ready.{Queues, IsReady}

-- `highest_priority` is the priority of the first queue that is not empty. If all are empty it is
-- any of the 256 priorities.
pub record Exact (s : Sched) (qs : Queues) : Type 0 where
  pub above : (p : ℕ) → p < s.highest_priority → qs p ≡ []
  pub top : (p : ℕ) → qs s.highest_priority ≡ [] → qs p ≡ []
  pub bound : s.highest_priority ≤ 255
  pub range : (p : ℕ) → 255 < p → qs p ≡ []

pub has_head-nil :
    (next : Next) (list : LinkedList) (ts : List ℕ)
    → IsQueue next list ts
    → has_head list ≡ false
    → ts ≡ []
has_head-nil next list [] q e = refl
has_head-nil next list (t ∷ ts) q e = ground arith

pub has_head-cons :
    (next : Next) (list : LinkedList) (ts : List ℕ)
    → IsQueue next list ts
    → has_head list ≡ true
    → ts ≢ []
has_head-cons next list [] q e = ground arith
has_head-cons next list (t ∷ ts) q e = ground arith

-- What the search for the next queue with a task finds.
abbrev Found : (rounds iter : ℕ) → (ℕ → LinkedList) → Option ℕ → Type 0
Found rounds iter tasks none = (p : ℕ) → iter ≤ p → p < iter + rounds → has_head (tasks p) ≡ false
Found rounds iter tasks (some i) =
    (iter ≤ i)
    × (i < iter + rounds)
    × (has_head (tasks i) ≡ true)
    × ((p : ℕ) → iter ≤ p → p < i → has_head (tasks p) ≡ false)

Found-suc :
    (rounds iter : ℕ) (tasks : ℕ → LinkedList) (o : Option ℕ)
    → has_head (tasks iter) ≡ false
    → Found rounds (iter + 1) tasks o
    → Found (suc rounds) iter tasks o
Found-suc rounds iter tasks none e f = λ p lo hi. elim (dec_lt iter p) [
  | yes h ↦ f p (omega arith) (omega arith)
  | no h ↦ let same : iter ≡ p = omega arith in rw (← same) e
]
Found-suc rounds iter tasks (some i) e (lo, hi, h, before) = (
  omega arith,
  omega arith,
  h,
  λ p q r. elim (dec_lt iter p) [
    | yes k ↦ before p (omega arith) r
    | no k ↦ let same : iter ≡ p = omega arith in rw (← same) e
  ],
)

next_priority-Found :
    (rounds iter : ℕ) (tasks : ℕ → LinkedList)
    → Found rounds iter tasks (next_priority rounds iter tasks)
unfolding next_priority
next_priority-Found zero iter tasks = λ p lo hi. absurd (omega arith)
next_priority-Found (suc rounds) iter tasks = elim (Bool-cases (has_head (tasks iter))) [
  | inl here ↦ rw here (omega arith, omega arith, here, λ p q r. absurd (omega arith))
  | inr empty ↦
      rw empty (Found-suc rounds iter tasks _ empty (next_priority-Found rounds (iter + 1) tasks))
]

-- The queues with the first task of the highest priority gone.
abbrev pub pop_task : Sched → List ℕ → Queues → Queues
pop_task s ts qs = update qs s.highest_priority ts

module _ (s : Sched) where
  pub retrieve_from_tasks-same :
      let s' = (retrieve_from_tasks s).1 in
      (s'.tcbs ≡ s.tcbs)
      × (s'.next ≡ s.next)
      × (s'.tasks
          ≡ update s.tasks s.highest_priority (dequeue (s.tasks s.highest_priority) s.next).1)
      × (s'.current ≡ s.current)
      × (s'.started ≡ s.started)
      × (s'.yield_flag ≡ s.yield_flag)
  unfolding retrieve_from_tasks
  retrieve_from_tasks-same = ground arith

  pub retrieve_from_tasks-chosen :
      (retrieve_from_tasks s).0 ≡ (dequeue (s.tasks s.highest_priority) s.next).0
  unfolding retrieve_from_tasks
  retrieve_from_tasks-chosen = ground arith

  -- The priority of the next retrieval, once the queue taken from is `list`.
  pub retrieve_from_tasks-highest :
      (list : LinkedList)
      → (dequeue (s.tasks s.highest_priority) s.next).1 ≡ list
      → (retrieve_from_tasks s).1.highest_priority ≡ (
          if has_head list
          then s.highest_priority
          else (elim (next_priority
              (255 - s.highest_priority)
              (s.highest_priority + 1)
              (update s.tasks s.highest_priority list)) [ none ↦ s.highest_priority | some i ↦ i ]))
  unfolding retrieve_from_tasks
  retrieve_from_tasks-highest list e = rw e (ground arith)

Found-le :
    (s : Sched) (tasks : ℕ → LinkedList) (o : Option ℕ)
    → Found (255 - s.highest_priority) (s.highest_priority + 1) tasks o
    → s.highest_priority ≤ (elim o [ none ↦ s.highest_priority | some i ↦ i ])
Found-le s tasks none f = omega arith
Found-le s tasks (some i) f = omega (arith, f.0)

-- A retrieval never raises the highest priority.
pub retrieve_from_tasks-le :
    (s : Sched) → s.highest_priority ≤ (retrieve_from_tasks s).1.highest_priority
retrieve_from_tasks-le s =
    let list = (dequeue (s.tasks s.highest_priority) s.next).1 in
    let high = retrieve_from_tasks-highest s list refl in
    let le =
      Found-le s (update s.tasks s.highest_priority list)
        (next_priority (255 - s.highest_priority) (s.highest_priority + 1)
          (update s.tasks s.highest_priority list))
        (next_priority-Found _ _ _) in
    elim (Bool-cases (has_head list)) [
      | inl more ↦ omega (arith, rw more at high)
      | inr done ↦ let e = rw done at high in rw e le
    ]

module _ (s : Sched) (qs : Queues) (r : IsReady s qs) (ts : List ℕ)
    (q : IsQueue s.next (dequeue (s.tasks s.highest_priority) s.next).1 ts) where
  list_left : LinkedList
  list_left = (dequeue (s.tasks s.highest_priority) s.next).1

  popped-IsQueue :
      (p : ℕ) → IsQueue s.next (update s.tasks s.highest_priority list_left p) (pop_task s ts qs p)
  unfolding list_left
  popped-IsQueue p = elim (Bool-cases (p == s.highest_priority)) [
    | inl same ↦ rw same q
    | inr other ↦ rw other (r.queue p)
  ]

  popped-All :
      (P : ℕ → ℕ → Type 0)
      → ((p : ℕ) → All (P p) (qs p))
      → All (P s.highest_priority) ts
      → (p : ℕ) → All (P p) (pop_task s ts qs p)
  popped-All P all left p = elim (Bool-cases (p == s.highest_priority)) [
    | inl same ↦ rw (same, (==_iff p s.highest_priority).0 same) left
    | inr other ↦ rw other (all p)
  ]

  pub retrieve_from_tasks-IsReady :
      All (λ t. (s.tcbs t).prio ≡ s.highest_priority) ts
      → All (λ t. (s.tcbs t).state ≡ ready) ts
      → IsReady (retrieve_from_tasks s).1 (pop_task s ts qs)
  unfolding list_left
  retrieve_from_tasks-IsReady ps rs =
      let same = retrieve_from_tasks-same s in
      record {
        queue = rw (same.1, same.2) popped-IsQueue;
        prio = rw same.0 (popped-All (λ p t. (s.tcbs t).prio ≡ p) r.prio ps);
        state = rw same.0 (popped-All (λ p t. (s.tcbs t).state ≡ ready) r.state rs);
      }

  -- Below `end` all queues but that of the old highest priority have been empty.
  popped-nil :
      (x : Exact s qs) (end : ℕ)
      → ts ≡ []
      → ((p : ℕ)
          → s.highest_priority + 1 ≤ p
          → p < end
          → has_head (update s.tasks s.highest_priority list_left p) ≡ false)
      → (p : ℕ) → p < end
      → pop_task s ts qs p ≡ []
  popped-nil x end e empty p lt = elim (dec_lt s.highest_priority p) [
    | yes h ↦ has_head-nil s.next _ _ (popped-IsQueue p) (empty p (omega arith) lt)
    | no h ↦ ground (arith, x.above p)
  ]

  Exact-next :
      (x : Exact s qs) (s' : Sched) (o : Option ℕ)
      → ts ≡ []
      → Found
          (255 - s.highest_priority)
          (s.highest_priority + 1)
          (update s.tasks s.highest_priority list_left)
          o
      → s'.highest_priority ≡ (elim o [ none ↦ s.highest_priority | some i ↦ i ])
      → Exact s' (pop_task s ts qs)
  Exact-next x s' none e f h = record {
    above = λ p lt.
        popped-nil x 256 e (λ k lo hi. f k lo (omega (arith, x.bound))) p (omega (arith, x.bound));
    top = λ p _. elim (dec_lt 255 p) [
      | yes out ↦ ground (arith, x.range p out)
      | no within ↦ popped-nil x 256 e (λ k lo hi. f k lo (omega (arith, x.bound))) p (omega arith)
    ];
    bound = rw h x.bound;
    range = λ p out. ground (arith, x.range p out);
  }
  Exact-next x s' (some i) e (lo, hi, here, before) h = record {
    above = λ p lt. popped-nil x i e before p (rw h at lt);
    top = λ p nil. absurd (has_head-cons s.next _ _ (popped-IsQueue i) here (rw h at nil));
    bound = omega (arith, x.bound);
    range = λ p out. ground (arith, x.range p out);
  }

  -- The highest priority is exact again.
  pub retrieve_from_tasks-Exact : Exact s qs → Exact (retrieve_from_tasks s).1 (pop_task s ts qs)
  unfolding list_left
  retrieve_from_tasks-Exact x =
      let high = retrieve_from_tasks-highest s list_left refl in
      elim (Bool-cases (has_head list_left)) [
        | inl more ↦
            let same : (retrieve_from_tasks s).1.highest_priority ≡ s.highest_priority =
              rw more at high in
            record {
              above = λ p lt. ground (arith, x.above p);
              top = λ p nil. absurd (has_head-cons s.next _ _ q more (ground arith));
              bound = rw same x.bound;
              range = λ p out. ground (arith, x.range p out);
            }
        | inr done ↦
            Exact-next x (retrieve_from_tasks s).1 _ (has_head-nil s.next _ _ q done)
              (next_priority-Found _ _ _) (rw done at high)
      ]

  -- Where no other task is ready, `highest_priority` stays at the queue that is now empty.
  pub retrieve_from_tasks-lone :
      ts ≡ []
      → ((p : ℕ) → p ≢ s.highest_priority → qs p ≡ [])
      → ((retrieve_from_tasks s).1.highest_priority ≡ s.highest_priority)
        × (((retrieve_from_tasks s).1.tasks s.highest_priority).head ≡ none)
  unfolding list_left
  retrieve_from_tasks-lone e others =
      let empty : list_left.head ≡ none = subst (λ l. Links s.next list_left.head l) e q.links in
      let no_head : has_head list_left ≡ false = ground (arith, empty) in
      (
        retrieve_from_tasks-highest s list_left refl
            ∙ (rw no_head (alone _ (next_priority-Found _ _ _))),
        ground (
          arith,
          ap (λ (f : ℕ → LinkedList). f s.highest_priority) (retrieve_from_tasks-same s).2,
          empty,
        ),
      )
    where
      alone :
          (o : Option ℕ)
          → Found
              (255 - s.highest_priority)
              (s.highest_priority + 1)
              (update s.tasks s.highest_priority list_left)
              o
          → ◌≡◌ {A = ℕ} (elim o [ none ↦ s.highest_priority | some i ↦ i ]) s.highest_priority
      alone none f = refl
      alone (some i) (lo, hi, here, before) =
          absurd (has_head-cons s.next _ _ (popped-IsQueue i) here (ground (arith, others i)))
