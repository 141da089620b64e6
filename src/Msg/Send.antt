-- ===== src/Msg/Send.antt =====
-- What `k_mbx_create` and `k_send_msg` promise.
use preemptive_multi_tasked.Prelude.{
  ℕ, ◌+◌, ◌-◌, ◌^◌, ◌∙◌, subst, Option, inl, inr, ◌≤◌, ◌<◌, ◌≡◌, ◌≢◌, ◌⊎◌, refl, ap, Bool, true,
  false, arith, ◌==◌, if◌then◌else◌, update, add32, List, [], ◌∷◌, ◌++◌, some, none,
}
use preemptive_multi_tasked.Mem.{Rtx, rtx_ok, rtx_err, Mem, align, k_mem_alloc}
use preemptive_multi_tasked.Mem.Blocks.{Block, first_fit}
use preemptive_multi_tasked.Mem.Chain.{Holds}
use preemptive_multi_tasked.Mem.FirstFit.{Allocates, k_mem_alloc-Allocates}
use preemptive_multi_tasked.Fifo.Queue.{IsQueue, Fresh, Fresh-update, enqueue-IsQueue}
use preemptive_multi_tasked.Task.{
  Sched, Run, returns, null_deref, blk_msg, is_blocked, insert_into_tasks, k_tsk_run_new,
}
use preemptive_multi_tasked.Task.Blocked.{insert_into_tasks-unblocked}
use preemptive_multi_tasked.Task.Ready.{IsQueue-frame}
use preemptive_multi_tasked.Msg.{Post, load32, send_refused, deliver, wake, k_send_msg}
use preemptive_multi_tasked.Msg.Copy.{memcpy-bytes, memcpy-load32}

abbrev pub is_error : Run (Rtx × Post) → Bool
is_error (returns (rtx_err, k)) = true
is_error _ = false

-- `k_send_msg` reports an error exactly when the receiver is dormant or has no mailbox, the buffer
-- is NULL, the length in its header is 0, or the message does not fit into what is left of the
-- mailbox.
pub k_send_msg-refuses :
    (receiver_tid buf : ℕ) (k : Post)
    → is_error (k_send_msg receiver_tid buf k) ≡ send_refused receiver_tid buf k
unfolding k_send_msg
k_send_msg-refuses receiver_tid buf k = ground arith

-- The mailbox of the receiver after a message of `length` bytes at `buf` has been put at its end.
pub record Delivered (receiver_tid buf msg copy : ℕ) (nodes : List ℕ) (k k' : Post) : Type 0 where
  pub queue :
      IsQueue k'.store.next
        (k'.store.mailboxes (k.sched.tcbs receiver_tid).mailbox).queue
        (nodes ++ msg ∷ [])
  pub curr_size :
      (k'.store.mailboxes (k.sched.tcbs receiver_tid).mailbox).curr_size
      ≡ add32
          (k.store.mailboxes (k.sched.tcbs receiver_tid).mailbox).curr_size
          (load32 k.store.bytes buf)
  pub buf_eq : (k'.store.nodes msg).buf ≡ copy
  pub sender :
      (k'.store.nodes msg).sender_tid
      ≡ (if k.interrupt_flag then 255 else (k.sched.tcbs k.sched.current).tid)
  pub bytes :
      (i : ℕ) → i < load32 k.store.bytes buf → k'.store.bytes (copy + i) ≡ k.store.bytes (buf + i)

module _ (receiver_tid buf msg copy : ℕ) (nodes : List ℕ) (k : Post)
    (q : IsQueue k.store.next (k.store.mailboxes (k.sched.tcbs receiver_tid).mailbox).queue nodes)
    (fresh : Fresh msg nodes)
    (apart : (copy + load32 k.store.bytes buf ≤ buf)
      ⊎ ((buf + load32 k.store.bytes buf ≤ copy) × (buf + 4 ≤ copy))) where
  deliver-mem : (m : Mem) → (deliver receiver_tid buf msg copy (record k { mem = m })).mem ≡ m
  unfolding deliver
  deliver-mem m = refl

  i_eq : (i : ℕ) → copy + i - copy ≡ i
  i_eq i = omega arith

  pub deliver-Delivered :
      (m : Mem)
      → Delivered receiver_tid buf msg copy nodes k
          (deliver receiver_tid buf msg copy (record k { mem = m }))
  unfolding deliver
  deliver-Delivered m =
      let mailbox = (k.sched.tcbs receiver_tid).mailbox in
      let list = (k.store.mailboxes mailbox).queue in
      let next1 = update k.store.next msg none in
      let q1 =
        IsQueue-frame k.store.next next1 list nodes (Fresh-update k.store.next msg none nodes fresh)
          q in
      record {
        queue =
            let here : (mailbox == mailbox) ≡ true = ground arith in
            rw here (enqueue-IsQueue next1 list nodes msg q1 fresh (ground arith));
        curr_size =
            ground (arith, memcpy-load32 copy buf (load32 k.store.bytes buf) k.store.bytes apart);
        buf_eq = ground arith;
        sender = ground arith;
        bytes = λ i lt. ground (
          arith,
          memcpy-bytes copy buf (load32 k.store.bytes buf) (copy + i) k.store.bytes (ground arith),
          ap (λ a. k.store.bytes (buf + a)) (i_eq i),
        );
      }

-- `deliver` changes the store and resets the flag of the interrupt.
pub deliver-same :
    (receiver_tid buf msg copy : ℕ) (k : Post)
    → let k' = deliver receiver_tid buf msg copy k in
      (k'.sched ≡ k.sched) × (k'.mem ≡ k.mem) × (k'.interrupt_flag ≡ false)
unfolding deliver
deliver-same receiver_tid buf msg copy k = (refl, refl, refl)

-- `wake` changes the scheduler alone.
pub wake-same :
    (receiver_tid : ℕ) (k : Post)
    → let k' = wake receiver_tid k in
      (k'.store ≡ k.store) × (k'.mem ≡ k.mem) × (k'.interrupt_flag ≡ k.interrupt_flag)
unfolding wake
wake-same receiver_tid k = ground arith

pub Delivered-same :
    (receiver_tid buf msg copy : ℕ) (nodes : List ℕ) (k k' k'' : Post)
    → k''.store ≡ k'.store
    → Delivered receiver_tid buf msg copy nodes k k'
    → Delivered receiver_tid buf msg copy nodes k k''
Delivered-same receiver_tid buf msg copy nodes k k' k'' e d = record {
  queue = rw e d.queue;
  curr_size = rw e d.curr_size;
  buf_eq = rw e d.buf_eq;
  sender = rw e d.sender;
  bytes = λ i lt. rw e (d.bytes i lt);
}

-- The scheduler after `wake`.
wake-sched :
    (r : ℕ) (k : Post)
    → (wake r k).sched ≡ (
        if is_blocked (k.sched.tcbs r).state
        then (k_tsk_run_new (insert_into_tasks r k.sched)).1
        else k.sched)
unfolding wake
wake-sched r k = ground arith

wake-unblocked : (r : ℕ) (k : Post) → ((wake r k).sched.tcbs r).state ≢ blk_msg
unfolding wake
wake-unblocked r k e = ground (arith, insert_into_tasks-unblocked k.sched r, e)

-- A message that is accepted, and for which there is memory, is delivered and the receiver woken.
pub k_send_msg-deliver :
    (receiver_tid buf msg copy : ℕ) (k : Post) (m1 m2 : Mem)
    → send_refused receiver_tid buf k ≡ false
    → k_mem_alloc (k.sched.tcbs k.sched.current).tid 12 k.mem ≡ some (msg, m1)
    → k_mem_alloc (k.sched.tcbs k.sched.current).tid (load32 k.store.bytes buf) m1 ≡ some (copy, m2)
    → msg ≢ 0
    → copy ≢ 0
    → k_send_msg receiver_tid buf k
      ≡ returns
          (rtx_ok, wake receiver_tid (deliver receiver_tid buf msg copy (record k { mem = m2 })))
unfolding k_send_msg
k_send_msg-deliver receiver_tid buf msg copy k m1 m2 ok e1 e2 n1 n2 = ground (arith, ok, e1, e2)

module _ (receiver_tid buf msg copy : ℕ) (nodes : List ℕ) (k : Post)
    (q : IsQueue k.store.next (k.store.mailboxes (k.sched.tcbs receiver_tid).mailbox).queue nodes)
    (fresh : Fresh msg nodes)
    (apart : (copy + load32 k.store.bytes buf ≤ buf)
      ⊎ ((buf + load32 k.store.bytes buf ≤ copy) × (buf + 4 ≤ copy))) where
  -- A message that is not refused, for whose node and copy `k_mem_alloc` returns `msg` and `copy`,
  -- neither NULL, `msg` not yet in the queue and the copy apart from the message, is put at the end
  -- of the queue of the receiver, whose size grows by its length; the node has the copy and the id
  -- of the sender, or of the UART interrupt, whose flag is reset, and the copy has the bytes of the
  -- message. A receiver that waits for a message is put into its ready queue and the scheduler is
  -- called, so that it does not wait any more; for every other receiver the scheduler is left as it
  -- was.
  pub k_send_msg-Delivered :
      (m1 m2 : Mem)
      → send_refused receiver_tid buf k ≡ false
      → k_mem_alloc (k.sched.tcbs k.sched.current).tid 12 k.mem ≡ some (msg, m1)
      → k_mem_alloc (k.sched.tcbs k.sched.current).tid (load32 k.store.bytes buf) m1
        ≡ some (copy, m2)
      → msg ≢ 0
      → copy ≢ 0
      → (k' : Post) × (k_send_msg receiver_tid buf k ≡ returns (rtx_ok, k'))
        × Delivered receiver_tid buf msg copy nodes k k'
        × (k'.mem ≡ m2)
        × (k'.interrupt_flag ≡ false)
        × (k'.sched ≡ (
            if is_blocked (k.sched.tcbs receiver_tid).state
            then (k_tsk_run_new (insert_into_tasks receiver_tid k.sched)).1
            else k.sched))
        × ((k'.sched.tcbs receiver_tid).state ≢ blk_msg)
  k_send_msg-Delivered m1 m2 ok e1 e2 n1 n2 =
      let k2 = record k { mem = m2 } in
      let k3 = deliver receiver_tid buf msg copy k2 in
      let same = deliver-same receiver_tid buf msg copy k2 in
      let woken = wake-same receiver_tid k3 in
      (
        wake receiver_tid k3,
        k_send_msg-deliver receiver_tid buf msg copy k m1 m2 ok e1 e2 n1 n2,
        Delivered-same receiver_tid buf msg copy nodes k k3 (wake receiver_tid k3) woken.0
            (deliver-Delivered receiver_tid buf msg copy nodes k q fresh apart m2),
        woken.1 ∙ same.1,
        woken.2 ∙ same.2,
        subst
            (λ (s : Sched). (wake receiver_tid k3).sched ≡ (
              if is_blocked (s.tcbs receiver_tid).state
              then (k_tsk_run_new (insert_into_tasks receiver_tid s)).1
              else s))
            same.0 (wake-sched receiver_tid k3),
        wake-unblocked receiver_tid k3,
      )

-- Whatever comes of the memory, the call returns.
Allocates-returns :
    (tid : ℕ) (m : Mem) (o : Option (Block × List Block)) (r : Option (ℕ × Mem))
    → Allocates tid m o r
    → (p : ℕ) × (m' : Mem) × (r ≡ some (p, m'))
Allocates-returns tid m none r e = (0, m, e)
Allocates-returns tid m (some (taken, left)) r (m', e, held, id, size) = (taken.addr + 16, m', e)

accepted_length :
    (receiver_tid buf : ℕ) (k : Post)
    → send_refused receiver_tid buf k ≡ false
    → 0 < load32 k.store.bytes buf
accepted_length receiver_tid buf k ok = ground (arith, ok)

module _ (receiver_tid buf : ℕ) (k : Post) (m1 m2 : Mem)
    (ok : send_refused receiver_tid buf k ≡ false) where
  no_node-null_deref :
      (copy : ℕ)
      → k_mem_alloc (k.sched.tcbs k.sched.current).tid 12 k.mem ≡ some (0, m1)
      → k_mem_alloc (k.sched.tcbs k.sched.current).tid (load32 k.store.bytes buf) m1
        ≡ some (copy, m2)
      → k_send_msg receiver_tid buf k ≡ null_deref
  unfolding k_send_msg
  no_node-null_deref copy e1 e2 = ground (arith, ok, e1, e2)

  no_copy-null_deref :
      (msg : ℕ)
      → k_mem_alloc (k.sched.tcbs k.sched.current).tid 12 k.mem ≡ some (msg, m1)
      → k_mem_alloc (k.sched.tcbs k.sched.current).tid (load32 k.store.bytes buf) m1 ≡ some (0, m2)
      → msg ≢ 0
      → k_send_msg receiver_tid buf k ≡ null_deref
  unfolding k_send_msg
  no_copy-null_deref msg e1 e2 n = ground (arith, ok, e1, e2)

-- Where the memory holds the free blocks `bs`, a message that is not refused, of a length of at
-- most 2 ^ 32 - 8, makes `k_send_msg` use a NULL pointer if a first fit finds no block for its node
-- of twelve bytes, or none for its copy in what is left after the node: the node is written through
-- before it is tested for NULL, and the copy is never tested.
pub k_send_msg-null_deref :
    (receiver_tid buf : ℕ) (k : Post) (bs : List Block)
    → Holds k.mem bs
    → send_refused receiver_tid buf k ≡ false
    → load32 k.store.bytes buf + 8 ≤ 2 ^ 32
    → (first_fit 16 bs ≡ none)
      ⊎ ((taken : Block) × (left : List Block) × (first_fit 16 bs ≡ some (taken, left))
          × (first_fit (align (load32 k.store.bytes buf)) left ≡ none))
    → k_send_msg receiver_tid buf k ≡ null_deref
k_send_msg-null_deref receiver_tid buf k bs held ok short (inl no_node) =
    let owner = (k.sched.tcbs k.sched.current).tid in
    let pos = accepted_length receiver_tid buf k ok in
    let e1 =
      subst (λ o. Allocates owner k.mem o (k_mem_alloc owner 12 k.mem)) no_node
        (k_mem_alloc-Allocates owner 12 k.mem bs held (omega arith) (omega arith)) in
    let (copy, m2, e2) =
      Allocates-returns owner k.mem _ _
        (k_mem_alloc-Allocates owner (load32 k.store.bytes buf) k.mem bs held pos short) in
    no_node-null_deref receiver_tid buf k k.mem m2 ok copy e1 e2
k_send_msg-null_deref receiver_tid buf k bs held ok short (inr (taken, left, node, no_copy)) =
    let owner = (k.sched.tcbs k.sched.current).tid in
    let length = load32 k.store.bytes buf in
    let pos = accepted_length receiver_tid buf k ok in
    let (m1, e1, held1, id, size) =
      subst (λ o. Allocates owner k.mem o (k_mem_alloc owner 12 k.mem)) node
        (k_mem_alloc-Allocates owner 12 k.mem bs held (omega arith) (omega arith)) in
    let e2 =
      subst (λ o. Allocates owner m1 o (k_mem_alloc owner length m1)) no_copy
        (k_mem_alloc-Allocates owner length m1 left held1 pos short) in
    no_copy-null_deref receiver_tid buf k m1 m1 ok (taken.addr + 16) e1 e2 (omega arith)
