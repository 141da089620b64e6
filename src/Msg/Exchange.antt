-- ===== src/Msg/Exchange.antt =====
-- A message from `k_send_msg` to `k_recv_msg`.
mod Tests
use preemptive_multi_tasked.Prelude.{
  ℕ, ◌+◌, ◌*◌, ◌^◌, ◌≤◌, ◌<◌, ◌≡◌, ◌≢◌, ◌⊎◌, refl, ap, sym, subst, ◌∙◌, Bool, true, false, arith,
  if◌then◌else◌, add32, sub32, List, [], ◌∷◌, some,
}
use preemptive_multi_tasked.Mem.{rtx_ok, Mem, k_mem_alloc}
use preemptive_multi_tasked.Fifo.Queue.{IsQueue}
use preemptive_multi_tasked.Task.{returns}
use preemptive_multi_tasked.Msg.{
  Post, Store, load32, send_refused, deliver, wake, k_send_msg, deallocate_msg, recv_rest,
}
use preemptive_multi_tasked.Msg.Send.{Delivered, deliver-Delivered, k_send_msg-deliver}
use preemptive_multi_tasked.Msg.Receive.{Taken, recv_rest-Taken}

load32_copied :
    (f g : ℕ → ℕ) (p q n : ℕ)
    → 4 ≤ n
    → ((i : ℕ) → i < n → f (p + i) ≡ g (q + i))
    → load32 f p ≡ load32 g q
load32_copied f g p q n h same =
    let at_0 : f p ≡ g q = ap f (omega arith) ∙ same 0 (omega arith) ∙ ap g (omega arith) in
    omega (arith, at_0, same 1 (omega arith), same 2 (omega arith), same 3 (omega arith))

back_again : (c n : ℕ) → c < 2 ^ 32 → n < 2 ^ 32 → sub32 (add32 c n) n ≡ c
back_again c n h h1 = omega arith

module _ (receiver_tid buf msg copy : ℕ) (k : Post) (m1 m2 : Mem)
    (accepted : send_refused receiver_tid buf k ≡ false)
    (first : k_mem_alloc (k.sched.tcbs k.sched.current).tid 12 k.mem ≡ some (msg, m1))
    (second : k_mem_alloc (k.sched.tcbs k.sched.current).tid (load32 k.store.bytes buf) m1
      ≡ some (copy, m2))
    (full : msg ≢ 0) (full1 : copy ≢ 0)
    (empty : IsQueue k.store.next (k.store.mailboxes (k.sched.tcbs receiver_tid).mailbox).queue [])
    (header : 4 ≤ load32 k.store.bytes buf)
    (apart : (copy + load32 k.store.bytes buf ≤ buf)
      ⊎ (buf + load32 k.store.bytes buf ≤ copy)) where
  abbrev mailbox : ℕ
  mailbox = (k.sched.tcbs receiver_tid).mailbox

  abbrev size : ℕ
  size = load32 k.store.bytes buf

  abbrev sent : Post
  sent = deliver receiver_tid buf msg copy (record k { mem = m2 })

  there : Delivered receiver_tid buf msg copy [] k sent
  there =
      deliver-Delivered receiver_tid buf msg copy [] k empty tt (omega (arith, apart, header)) m2

  module _ (k1 : Post) (m3 : Mem) (into len : ℕ) (same : k1.store ≡ sent.store)
      (freed : deallocate_msg msg k1.store k1.mem ≡ some m3) where
    from : (k1.store.nodes msg).buf ≡ copy
    from = ap (λ (st : Store). (st.nodes msg).buf) same ∙ there.buf_eq

    bytes_at : (i : ℕ) → i < size → k1.store.bytes (copy + i) ≡ k.store.bytes (buf + i)
    bytes_at i h = ap (λ (st : Store). st.bytes (copy + i)) same ∙ there.bytes i h

    size_eq : load32 k1.store.bytes (k1.store.nodes msg).buf ≡ size
    size_eq =
        ap (load32 k1.store.bytes) from
        ∙ load32_copied k1.store.bytes k.store.bytes copy buf size header bytes_at

    queued : IsQueue k1.store.next (k1.store.mailboxes mailbox).queue (msg ∷ [])
    queued =
        subst (λ (st : Store). IsQueue st.next (st.mailboxes mailbox).queue (msg ∷ [])) (sym same)
          there.queue

    sender_eq :
        (k1.store.nodes msg).sender_tid
        ≡ (if k.interrupt_flag then 255 else (k.sched.tcbs k.sched.current).tid)
    sender_eq = ap (λ (st : Store). (st.nodes msg).sender_tid) same ∙ there.sender

    in_use :
        (k1.store.mailboxes mailbox).curr_size ≡ add32 (k.store.mailboxes mailbox).curr_size size
    in_use = ap (λ (st : Store). (st.mailboxes mailbox).curr_size) same ∙ there.curr_size

    -- A message of at least four bytes that is not refused is sent to an empty mailbox, with memory
    -- for its node and its copy, which does not overlap it. A receiver with a buffer that is not NULL,
    -- long enough and apart from the copy, which runs when the messages are still as they were left
    -- and whose call gives the memory back, gets the message byte for byte, with the id of the sender
    -- or of the UART interrupt; the mailbox is empty again, with the same size in use as before.
    pub recv_rest-k_send_msg :
        into ≢ 0
        → size ≤ len
        → (into + size ≤ copy) ⊎ (copy + size ≤ into)
        → size < 2 ^ 32
        → (k.store.mailboxes mailbox).curr_size < 2 ^ 32
        → (k_send_msg receiver_tid buf k ≡ returns (rtx_ok, wake receiver_tid sent))
          × ((k2 : Post) × (recv_rest mailbox into len k1
                ≡ returns (
                  rtx_ok,
                  some (if k.interrupt_flag then 255 else (k.sched.tcbs k.sched.current).tid),
                  k2,
                ))
              × ((i : ℕ) → i < size → k2.store.bytes (into + i) ≡ k.store.bytes (buf + i))
              × IsQueue k2.store.next (k2.store.mailboxes mailbox).queue []
              × ((k2.store.mailboxes mailbox).curr_size ≡ (k.store.mailboxes mailbox).curr_size))
    recv_rest-k_send_msg n fits away small small1 =
        let (k2, e, taken, bytes, mem, sched) =
          recv_rest-Taken mailbox into len msg [] k1 m3 queued freed n (rw size_eq fits)
            (rw (size_eq, from) away) in
        (
          k_send_msg-deliver receiver_tid buf msg copy k m1 m2 accepted first second full full1,
          (
            k2,
            rw sender_eq at e,
            λ i h. (rw from at (bytes i (rw size_eq h))) ∙ bytes_at i h,
            taken.queue,
            (rw (size_eq, in_use) at taken.curr_size)
                ∙ back_again (k.store.mailboxes mailbox).curr_size size small1 small,
          ),
        )
