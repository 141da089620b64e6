-- ===== src/Msg/Receive.antt =====
-- What `k_recv_msg` and `k_recv_msg_nb` promise.
use preemptive_multi_tasked.Prelude.{
  ℕ, ◌+◌, ◌-◌, ◌≤◌, ◌<◌, ◌≡◌, ◌≢◌, ◌⊎◌, refl, ap, ◌∙◌, true, false, arith, leb, ◌==◌, add32, sub32,
  List, ◌∷◌, some, none, Option, le→leb, gt→leb,
}
use preemptive_multi_tasked.Mem.{Rtx, rtx_ok, rtx_err, Mem}
use preemptive_multi_tasked.Fifo.{dequeue}
use preemptive_multi_tasked.Fifo.Queue.{IsQueue, dequeue-cons}
use preemptive_multi_tasked.Task.{Run, returns, runs_on, blk_msg, set_state, k_tsk_run_new}
use preemptive_multi_tasked.Task.Ready.{Queues, Outside, Outside-of_state}
use preemptive_multi_tasked.Task.Retrieve.{pop_task}
use preemptive_multi_tasked.Task.Schedule.{
  IsScheduled, Switched, k_tsk_run_new-stopped, t-ne-current,
}
use preemptive_multi_tasked.Task.Blocked.{k_tsk_run_new-stopped-state}
use preemptive_multi_tasked.Task.Steady.{set_state-IsScheduled}
use preemptive_multi_tasked.Msg.{
  Post, load32, memcpy, deallocate_msg, hand_over, take_node, recv_rest, waits, goes_on, k_recv_msg,
  k_recv_msg_nb, recv_nb,
}
use preemptive_multi_tasked.Msg.Copy.{memcpy-bytes}

-- After the message at `node` of the mailbox has been taken: `spent` bytes less are in use.
pub record Taken (mailbox spent : ℕ) (nodes : List ℕ) (k k' : Post) : Type 0 where
  pub queue : IsQueue k'.store.next (k'.store.mailboxes mailbox).queue nodes
  pub curr_size :
      (k'.store.mailboxes mailbox).curr_size ≡ sub32 (k.store.mailboxes mailbox).curr_size spent

module _ (mailbox buf len node : ℕ) (nodes : List ℕ) (k : Post) (m : Mem)
    (q : IsQueue k.store.next (k.store.mailboxes mailbox).queue (node ∷ nodes))
    (freed : deallocate_msg node k.store k.mem ≡ some m) where
  abbrev from : ℕ
  from = (k.store.nodes node).buf

  abbrev len_of : ℕ
  len_of = load32 k.store.bytes from

  abbrev after : ℕ → Post
  after spent = take_node mailbox spent (dequeue (k.store.mailboxes mailbox).queue k.store.next).1 k

  after-Taken :
      (spent : ℕ) (k' : Post)
      → k'.store.mailboxes ≡ (after spent).store.mailboxes
      → k'.store.next ≡ k.store.next
      → Taken mailbox spent nodes k k'
  after-Taken spent k' e f =
      let here : (mailbox == mailbox) ≡ true = ground arith in
      record {
        queue =
            rw (e, f, here)
              (dequeue-cons k.store.next (k.store.mailboxes mailbox).queue node nodes q).1;
        curr_size = rw (e, here) refl;
      }

  hand_over-fits :
      (sender : Option ℕ) (spent : ℕ)
      → (k' : Post) × (hand_over true node buf sender (after spent) ≡ returns (rtx_ok, sender, k'))
        × (k'.store.mailboxes ≡ (after spent).store.mailboxes)
        × (k'.store.next ≡ k.store.next)
        × (k'.store.bytes ≡ memcpy buf from len_of k.store.bytes)
        × (k'.mem ≡ m)
        × (k'.sched ≡ k.sched)
  unfolding hand_over deallocate_msg
  hand_over-fits sender spent =
      let copied = record (after spent) {
        store = record (after spent).store { bytes = memcpy buf from len_of k.store.bytes };
      } in
      let answer : Option Mem → Run (Rtx × Option ℕ × Post) = λ r. elim r [
        | none ↦ runs_on
        | some m' ↦ returns (rtx_ok, sender, record copied { mem = m' })
      ] in
      (record copied { mem = m }, ap answer freed, refl, refl, refl, refl, refl)

  hand_over-short :
      (sender : Option ℕ) (spent : ℕ)
      → (k' : Post) × (hand_over false node buf sender (after spent)
          ≡ returns (rtx_err, sender, k'))
        × (k'.store.mailboxes ≡ (after spent).store.mailboxes)
        × (k'.store.next ≡ k.store.next)
        × (k'.store.bytes ≡ k.store.bytes)
        × (k'.mem ≡ m)
  unfolding hand_over deallocate_msg
  hand_over-short sender spent =
      let answer : Option Mem → Run (Rtx × Option ℕ × Post) = λ r. elim r [
        | none ↦ runs_on
        | some m' ↦ returns (rtx_err, sender, record (after spent) { mem = m' })
      ] in
      (record (after spent) { mem = m }, ap answer freed, refl, refl, refl, refl)

  first_node : (dequeue (k.store.mailboxes mailbox).queue k.store.next).0 ≡ some node
  first_node = (dequeue-cons k.store.next (k.store.mailboxes mailbox).queue node nodes q).0

  recv_rest-eq :
      buf ≢ 0
      → recv_rest mailbox buf len k
        ≡ hand_over (leb len_of len) node buf (some (k.store.nodes node).sender_tid) (after len_of)
  unfolding recv_rest
  recv_rest-eq n =
      let some_buf : (buf == 0) ≡ false = ground arith in rw (some_buf, first_node) refl

  copied :
      (k' : Post)
      → k'.store.bytes ≡ memcpy buf from len_of k.store.bytes
      → (buf + len_of ≤ from) ⊎ (from + len_of ≤ buf)
      → (i : ℕ) → i < len_of
      → k'.store.bytes (buf + i) ≡ k.store.bytes (from + i)
  copied k' bytes apart i lt =
      let back : buf + i - buf ≡ i = omega arith in
      ap (λ (f : ℕ → ℕ). f (buf + i)) bytes
      ∙ memcpy-bytes buf from len_of (buf + i) k.store.bytes apart
      ∙ ground (arith, ap (λ a. k.store.bytes (from + a)) back)

  -- `k_recv_msg` from the test of the buffer on, with a message that fits.
  pub recv_rest-Taken :
      buf ≢ 0
      → len_of ≤ len
      → (buf + len_of ≤ from) ⊎ (from + len_of ≤ buf)
      → (k' : Post) × (recv_rest mailbox buf len k
          ≡ returns (rtx_ok, some (k.store.nodes node).sender_tid, k'))
        × Taken mailbox len_of nodes k k'
        × ((i : ℕ) → i < len_of → k'.store.bytes (buf + i) ≡ k.store.bytes (from + i))
        × (k'.mem ≡ m)
        × (k'.sched ≡ k.sched)
  recv_rest-Taken n fits apart =
      let (k', e, boxes, links, bytes, mem, sched) =
        hand_over-fits (some (k.store.nodes node).sender_tid) len_of in
      (
        k',
        rw (recv_rest-eq n, le→leb len_of len fits) e,
        after-Taken len_of k' boxes links,
        copied k' bytes apart,
        mem,
        sched,
      )

  -- With a first message in the mailbox that is longer than the buffer, which is not NULL, and
  -- whose memory is given back, `k_recv_msg` fails with the sender of the message; the message is
  -- dropped from the queue and no byte is written.
  pub recv_rest-too_long :
      buf ≢ 0
      → len < len_of
      → (k' : Post) × (recv_rest mailbox buf len k
          ≡ returns (rtx_err, some (k.store.nodes node).sender_tid, k'))
        × Taken mailbox len_of nodes k k'
        × (k'.store.bytes ≡ k.store.bytes)
  recv_rest-too_long n long =
      let (k', e, boxes, links, bytes, mem) =
        hand_over-short (some (k.store.nodes node).sender_tid) len_of in
      (k', rw (recv_rest-eq n, gt→leb len_of len long) e, after-Taken len_of k' boxes links, bytes)

  module _ (mine : (k.sched.tcbs k.sched.current).mailbox ≡ mailbox) where
    k_recv_msg-goes_on : mailbox ≢ 0 → k_recv_msg buf len k ≡ goes_on (recv_rest mailbox buf len k)
    unfolding k_recv_msg
    k_recv_msg-goes_on b =
        let some_box : (mailbox == 0) ≡ false = ground arith in
        rw (mine, some_box, q.links.0) (ap (λ b. goes_on (recv_rest b buf len k)) mine)

    -- With a first message in the mailbox of the caller that is no longer than the buffer, which is
    -- not NULL and apart from the message, and whose memory is given back, `k_recv_msg` goes on
    -- without waiting and succeeds with the sender of the message and its bytes in the buffer; the
    -- other messages stay in their order, the size in use falls by the length, and the scheduler is
    -- as it was.
    pub k_recv_msg-Taken :
        mailbox ≢ 0
        → buf ≢ 0
        → len_of ≤ len
        → (buf + len_of ≤ from) ⊎ (from + len_of ≤ buf)
        → (k' : Post) × (k_recv_msg buf len k
            ≡ goes_on (returns (rtx_ok, some (k.store.nodes node).sender_tid, k')))
          × Taken mailbox len_of nodes k k'
          × ((i : ℕ) → i < len_of → k'.store.bytes (buf + i) ≡ k.store.bytes (from + i))
          × (k'.mem ≡ m)
          × (k'.sched ≡ k.sched)
    k_recv_msg-Taken b n fits apart =
        let (k', e, taken, bytes, mem, sched) = recv_rest-Taken n fits apart in
        (k', k_recv_msg-goes_on b ∙ ap goes_on e, taken, bytes, mem, sched)

    recv_nb-eq :
        buf ≢ 0
        → mailbox ≢ 0
        → recv_nb mailbox buf len k
          ≡ hand_over (leb len len_of) node buf none (after (add32 len_of 12))
    unfolding recv_nb
    recv_nb-eq n b =
        let some_buf : (buf == 0) ≡ false = ground arith in
        let some_box : (mailbox == 0) ≡ false = ground arith in
        rw (some_buf, some_box, first_node) refl

    k_recv_msg_nb-eq : k_recv_msg_nb buf len k ≡ recv_nb mailbox buf len k
    unfolding k_recv_msg_nb
    k_recv_msg_nb-eq = ap (λ b. recv_nb b buf len k) mine

    -- With a first message in the mailbox that is shorter than the buffer, which is not NULL, and
    -- whose memory is given back, `k_recv_msg_nb` fails: the message is dropped from the queue and
    -- no byte of it is copied, and the size in use falls by twelve more than its length.
    pub k_recv_msg_nb-shorter :
        buf ≢ 0
        → mailbox ≢ 0
        → len_of < len
        → (k' : Post) × (k_recv_msg_nb buf len k ≡ returns (rtx_err, none, k'))
          × Taken mailbox (add32 len_of 12) nodes k k'
          × (k'.store.bytes ≡ k.store.bytes)
    k_recv_msg_nb-shorter n b short =
        let (k', e, boxes, links, bytes, mem) = hand_over-short none (add32 len_of 12) in
        (
          k',
          rw (k_recv_msg_nb-eq, recv_nb-eq n b, gt→leb len len_of short) e,
          after-Taken (add32 len_of 12) k' boxes links,
          bytes,
        )

module _ (buf len : ℕ) (k : Post) (qs : Queues) (t : ℕ) (ts : List ℕ) (v : IsScheduled k.sched qs)
    (first : qs k.sched.highest_priority ≡ t ∷ ts)
    (box : (k.sched.tcbs k.sched.current).mailbox ≢ 0)
    (empty : (k.store.mailboxes (k.sched.tcbs k.sched.current).mailbox).queue.head ≡ none) where
  -- In a kernel in order, with the tasks `t` and `ts` in the queue of the highest priority, a
  -- caller of `k_recv_msg` that has a mailbox, which is empty, waits: its state is that of a task
  -- blocked on a message, it is in no ready queue, `t` becomes current and running and leaves its
  -- queue, the other queues stay as they are, and no ready task has a higher priority.
  pub k_recv_msg-waits :
      let r = k_tsk_run_new (set_state k.sched.current blk_msg k.sched) in
      (k_recv_msg buf len k ≡ waits (record k { sched = r.1 }))
      × Switched (set_state k.sched.current blk_msg k.sched) t (pop_task k.sched ts qs) r
      × ((r.1.tcbs k.sched.current).state ≡ blk_msg)
      × Outside k.sched.current (pop_task k.sched ts qs)
  unfolding k_recv_msg
  k_recv_msg-waits =
      let s = set_state k.sched.current blk_msg k.sched in
      let w = set_state-IsScheduled k.sched qs blk_msg (ground arith) v in
      let r = k_tsk_run_new-stopped s qs t ts w first (ground arith) in
      let other = t-ne-current s qs t ts w first in
      let some_box : ((k.sched.tcbs k.sched.current).mailbox == 0) ≡ false = ground arith in
      let moved : ((k_tsk_run_new s).1.current == k.sched.current) ≡ false =
        ground (arith, r.current, other) in
      let state : ((k_tsk_run_new s).1.tcbs k.sched.current).state ≡ blk_msg =
        k_tsk_run_new-stopped-state s qs t ts w first (ground arith) ∙ ground arith in
      (
        rw (some_box, empty, moved) refl,
        r,
        state,
        Outside-of_state (k_tsk_run_new s).1 _ k.sched.current r.queues
            (λ e. ground (arith, state)),
      )
