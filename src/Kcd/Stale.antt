-- ===== src/Kcd/Stale.antt =====
-- A message that is too long for the buffer of RTX/src/app/kcd_task.c.
use preemptive_multi_tasked.Prelude.{
  ℕ, ◌+◌, ◌<◌, ◌≡◌, ◌≢◌, refl, ap, sym, ◌∙◌, false, List, ◌∷◌, some, arith, ◌==◌, update,
}
use preemptive_multi_tasked.Mem.{Mem}
use preemptive_multi_tasked.Fifo.Queue.{IsQueue}
use preemptive_multi_tasked.Task.{returns}
use preemptive_multi_tasked.Msg.{Post, load32, deallocate_msg, goes_on, recv_rest, k_recv_msg}
use preemptive_multi_tasked.Msg.Receive.{recv_rest-too_long}
use preemptive_multi_tasked.Kcd.{
  Task, silent, kcd_register, kcd_message, kcd_received, handles, kcd_round,
}

k_recv_msg-goes_on :
    (mailbox buf len node : ℕ) (k : Post)
    → (k.sched.tcbs k.sched.current).mailbox ≡ mailbox
    → mailbox ≢ 0
    → (k.store.mailboxes mailbox).queue.head ≡ some node
    → k_recv_msg buf len k ≡ goes_on (recv_rest mailbox buf len k)
unfolding k_recv_msg
k_recv_msg-goes_on mailbox buf len node k mine n head = ground (arith, mine, head)

-- The task after it has handled a registration.
abbrev registered : Task → Post → Task
registered t k = record t {
  kcd = record t.kcd { cmd_ids = update t.kcd.cmd_ids (k.store.bytes (t.buf + 8)) t.tid_reg };
}

kcd_message-registers :
    (t : Task) (k : Post)
    → t.buf ≢ 0
    → t.tid_at ≢ 0
    → load32 k.store.bytes (t.buf + 4) ≡ 1
    → load32 k.store.bytes t.buf ≡ 9
    → kcd_message t k ≡ returns (silent, registered t k, k)
unfolding kcd_message kcd_register
kcd_message-registers t k n n1 type nine =
    let some_buf : (t.buf == 0) ≡ false = ground arith in
    let some_tid : (t.tid_at == 0) ≡ false = ground arith in
    rw (some_buf, type, some_tid, nine) refl

registered-id :
    (t : Task) (k : Post) → (registered t k).kcd.cmd_ids (k.store.bytes (t.buf + 8)) ≡ t.tid_reg
registered-id t k = ground arith

module _ (t : Task) (k : Post) (mailbox node : ℕ) (nodes : List ℕ) (m : Mem)
    (mine : (k.sched.tcbs k.sched.current).mailbox ≡ mailbox) (box : mailbox ≢ 0)
    (q : IsQueue k.store.next (k.store.mailboxes mailbox).queue (node ∷ nodes))
    (freed : deallocate_msg node k.store k.mem ≡ some m)
    (long : 72 < load32 k.store.bytes (k.store.nodes node).buf) (some_buf : t.buf ≢ 0) where
  kcd_round-stale :
      (k' : Post) × (kcd_round t k
        ≡ handles (kcd_message (record t { tid_reg = (k.store.nodes node).sender_tid }) k'))
      × (k'.store.bytes ≡ k.store.bytes)
  unfolding kcd_round kcd_received
  kcd_round-stale =
      let (k', e, taken, bytes) =
        recv_rest-too_long mailbox t.buf 72 node nodes k m q freed some_buf long in
      (
        k',
        rw (kcd_round, k_recv_msg-goes_on mailbox t.buf 72 node k mine box q.links.0, e) refl,
        bytes,
      )

  -- The first message in the mailbox of the decoder is longer than the 72 bytes of its buffer, its
  -- memory is given back, and the buffer still has a registration. The decoder handles the
  -- registration again, with the sender of the message that was too long: the command is that
  -- task's from then on.
  pub kcd_round-takes_over :
      t.tid_at ≢ 0
      → load32 k.store.bytes t.buf ≡ 9
      → load32 k.store.bytes (t.buf + 4) ≡ 1
      → (t' : Task) × (k' : Post) × (kcd_round t k ≡ handles (returns (silent, t', k')))
        × (t'.kcd.cmd_ids (k.store.bytes (t.buf + 8)) ≡ (k.store.nodes node).sender_tid)
  kcd_round-takes_over n nine type =
      let (k', e, bytes) = kcd_round-stale in
      let t1 = record t { tid_reg = (k.store.nodes node).sender_tid } in
      (
        registered t1 k',
        k',
        e ∙ ap handles (kcd_message-registers t1 k' some_buf n (rw bytes type) (rw bytes nine)),
        ap (λ (f : ℕ → ℕ). (registered t1 k').kcd.cmd_ids (f (t.buf + 8))) (sym bytes)
            ∙ registered-id t1 k',
      )
