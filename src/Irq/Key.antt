-- ===== src/Irq/Key.antt =====
-- What becomes of a key.
use preemptive_multi_tasked.Prelude.{
  ℕ, ◌+◌, ◌≤◌, ◌<◌, ◌≡◌, ◌≢◌, ◌⊎◌, refl, ap, sym, ◌∙◌, true, false, List, [], ◌∷◌, ◌++◌, some,
  arith,
}
use preemptive_multi_tasked.Mem.{Rtx, rtx_ok, Mem, k_mem_alloc, k_mem_dealloc}
use preemptive_multi_tasked.Fifo.Queue.{IsQueue, Fresh}
use preemptive_multi_tasked.Task.{
  returns, running, blk_msg, is_blocked, insert_into_tasks, k_tsk_run_new,
}
use preemptive_multi_tasked.Task.Ready.{Queues, append_task}
use preemptive_multi_tasked.Task.Schedule.{IsScheduled, Switched}
use preemptive_multi_tasked.Msg.{Post, load32, send_refused, deliver, wake, k_send_msg}
use preemptive_multi_tasked.Msg.Send.{
  Delivered, deliver-same, deliver-Delivered, wake-same, Delivered-same, k_send_msg-deliver,
}
use preemptive_multi_tasked.Board.Uart.{
  Uart, uart0_get_rx_irq_status, uart0_get_rx_data_status, uart0_get_rx_data,
}
use preemptive_multi_tasked.Irq.{
  System, ends, switched, echo, report, key_message, with_key, send_key, free_key, rx_loop, end_rx,
  end_irq, c_irq_handler,
}
use preemptive_multi_tasked.Task.Wake.{wake-Switched, r-ne-current}

-- The message for a key: nine bytes long, of the type of a key, with the character behind the header.
key_message-bytes :
    (ptr c : ℕ) (bytes : ℕ → ℕ)
    → let bytes' = key_message ptr c bytes in
      (load32 bytes' ptr ≡ 9) × (load32 bytes' (ptr + 4) ≡ 4) × (bytes' (ptr + 8) ≡ c)
unfolding key_message
key_message-bytes ptr c bytes = (ground arith, ground arith, ground arith)

pub send_key-eq :
    (c ptr : ℕ) (sys : System) (m : Mem) (r : Rtx) (k' : Post)
    → k_mem_alloc (sys.post.sched.tcbs sys.post.sched.current).tid 9 sys.post.mem ≡ some (ptr, m)
    → ptr ≢ 0
    → k_send_msg 159 ptr (with_key ptr c (record sys.post { mem = m })) ≡ returns (r, k')
    → send_key c sys ≡ returns (ptr, report (echo c) (record sys { post = k' }))
unfolding send_key
send_key-eq c ptr sys m r k' a n e = ground (arith, a, e)

pub free_key-eq :
    (ptr : ℕ) (sys : System) (m : Mem) (r : Rtx)
    → k_mem_dealloc false (sys.post.sched.tcbs sys.post.sched.current).tid ptr sys.post.mem
      ≡ some (r, m)
    → free_key ptr sys ≡ some (record sys { post = record sys.post { mem = m } })
unfolding free_key
free_key-eq ptr sys m r e = ground (arith, e)

-- One round of the loop.
rx_loop-moves :
    (u : Uart) (us : List Uart) (sys : System) (ptr : ℕ) (sys1 : System)
    → uart0_get_rx_data_status u ≡ 1
    → send_key (uart0_get_rx_data u) sys ≡ returns (ptr, sys1)
    → sys1.post.sched.current ≢ sys.post.sched.current
    → rx_loop (u ∷ us) sys ≡ switched ptr us sys1
unfolding rx_loop
rx_loop-moves u us sys ptr sys1 more e n = ground (arith, more, e)

pub rx_loop-stays :
    (u : Uart) (us : List Uart) (sys : System) (ptr : ℕ) (sys1 sys2 : System)
    → uart0_get_rx_data_status u ≡ 1
    → send_key (uart0_get_rx_data u) sys ≡ returns (ptr, sys1)
    → sys1.post.sched.current ≡ sys.post.sched.current
    → free_key ptr sys1 ≡ some sys2
    → rx_loop (u ∷ us) sys ≡ rx_loop us sys2
unfolding rx_loop
rx_loop-stays u us sys ptr sys1 sys2 more e n f = ground (arith, more, e, f)

pub rx_loop-ends :
    (u : Uart) (us : List Uart) (sys : System)
    → uart0_get_rx_data_status u ≡ 0
    → rx_loop (u ∷ us) sys ≡ ends sys
unfolding rx_loop
rx_loop-ends u us sys last = ground (arith, last)

pub c_irq_handler-rx :
    (rounds : List Uart) (sys : System)
    → sys.gic.iar ≡ 194
    → uart0_get_rx_irq_status sys.uart ≡ true
    → c_irq_handler rounds sys ≡ end_rx (rx_loop rounds sys)
unfolding c_irq_handler
c_irq_handler-rx rounds sys irq received = ground (arith, irq, received)

-- The kernel with the message for the key `c` at `ptr`, before it is sent.
abbrev pub pressed : (ptr c : ℕ) (m : Mem) → System → Post
pressed ptr c m sys = with_key ptr c (record sys.post { mem = m })

wake-blocked :
    (r : ℕ) (k : Post)
    → (k.sched.tcbs r).state ≡ blk_msg
    → (wake r k).sched ≡ (k_tsk_run_new (insert_into_tasks r k.sched)).1
unfolding wake
wake-blocked r k e = ground (arith, e)

wake-busy : (r : ℕ) (k : Post) → is_blocked (k.sched.tcbs r).state ≡ false → wake r k ≡ k
unfolding wake
wake-busy r k e = ground (arith, e)

module _ (u : Uart) (sys : System) (ptr msg copy : ℕ) (m0 m1 m2 : Mem) (irq : sys.gic.iar ≡ 194)
    (received : uart0_get_rx_irq_status sys.uart ≡ true) (more : uart0_get_rx_data_status u ≡ 1)
    (first : k_mem_alloc (sys.post.sched.tcbs sys.post.sched.current).tid 9 sys.post.mem
      ≡ some (ptr, m0))
    (second : k_mem_alloc (sys.post.sched.tcbs sys.post.sched.current).tid 12 m0 ≡ some (msg, m1))
    (third : k_mem_alloc (sys.post.sched.tcbs sys.post.sched.current).tid 9 m1 ≡ some (copy, m2))
    (full : ptr ≢ 0) (full1 : msg ≢ 0) (full2 : copy ≢ 0)
    (accepted : send_refused 159 ptr (pressed ptr (uart0_get_rx_data u) m0 sys) ≡ false) where
  abbrev pub key : ℕ
  key = uart0_get_rx_data u

  abbrev pub before : Post
  before = pressed ptr key m0 sys

  -- The message is in the mailbox of the decoder.
  sent : Post
  sent = deliver 159 ptr msg copy (record before { mem = m2 })

  nine : load32 before.store.bytes ptr ≡ 9
  nine = (key_message-bytes ptr key sys.post.store.bytes).0

  sent-eq : k_send_msg 159 ptr before ≡ returns (rtx_ok, wake 159 sent)
  unfolding sent
  sent-eq =
      k_send_msg-deliver 159 ptr msg copy before m1 m2 accepted second (rw nine third) full1 full2

  told : System
  told = report (echo key) (record sys { post = wake 159 sent })

  send_key-told : send_key key sys ≡ returns (ptr, told)
  unfolding told
  send_key-told = send_key-eq key ptr sys m0 rtx_ok (wake 159 sent) first full sent-eq

  module _ (nodes : List ℕ)
      (q : IsQueue sys.post.store.next
        (sys.post.store.mailboxes (sys.post.sched.tcbs 159).mailbox).queue
        nodes)
      (fresh : Fresh msg nodes) (apart : (copy + 9 ≤ ptr) ⊎ (ptr + 9 ≤ copy)) where
    sent-Delivered : Delivered 159 ptr msg copy nodes before sent
    unfolding sent
    sent-Delivered =
        deliver-Delivered 159 ptr msg copy nodes before q fresh (ground (arith, nine)) m2

    told-Delivered : Delivered 159 ptr msg copy nodes before told.post
    unfolding told
    told-Delivered =
        Delivered-same 159 ptr msg copy nodes before sent (wake 159 sent) (wake-same 159 sent).0
          sent-Delivered

    module _ (us : List Uart) (qs : Queues) (v : IsScheduled sys.post.sched qs)
        (waits : (sys.post.sched.tcbs 159).state ≡ blk_msg)
        (runs : (sys.post.sched.tcbs sys.post.sched.current).state ≡ running)
        (higher : (sys.post.sched.tcbs 159).prio < sys.post.sched.highest_priority)
        (urgent : (sys.post.sched.tcbs 159).prio
          < (sys.post.sched.tcbs sys.post.sched.current).prio) where
      told-sched : told.post.sched ≡ (k_tsk_run_new (insert_into_tasks 159 sys.post.sched)).1
      unfolding told sent
      told-sched =
          let same = (deliver-same 159 ptr msg copy (record before { mem = m2 })).0 in
          wake-blocked 159 sent (rw same waits)
          ∙ ap (λ s. (k_tsk_run_new (insert_into_tasks 159 s)).1) same

      -- A key comes while the decoder waits for a message, with a higher priority than the running task
      -- and all ready ones in a kernel in order. If the three blocks of memory are to be had, the
      -- message is not refused, its node is in no mailbox of the decoder yet and the copy does not
      -- overlap it, the handler switches to the decoder before the end of the interrupt is signalled:
      -- the message is in the mailbox of the decoder, which runs, the interrupted task is ready behind
      -- those of its priority, and the interrupt controller is as it was.
      pub c_irq_handler-switches :
          (sys1 : System) × (c_irq_handler (u ∷ us) sys ≡ switched ptr us sys1)
          × (sys1.gic ≡ sys.gic)
          × Delivered 159 ptr msg copy nodes before sys1.post
          × (sys1.post.sched ≡ (k_tsk_run_new (insert_into_tasks 159 sys.post.sched)).1)
          × Switched
              (insert_into_tasks 159 sys.post.sched)
              159
              (append_task sys.post.sched sys.post.sched.current qs)
              (k_tsk_run_new (insert_into_tasks 159 sys.post.sched))
      unfolding told
      c_irq_handler-switches =
          let s = sys.post.sched in
          let w = wake-Switched s qs 159 v waits runs higher urgent in
          let other = r-ne-current s qs 159 v waits runs in
          let now : told.post.sched.current ≡ 159 = ap (λ s'. s'.current) told-sched ∙ w.current in
          (
            told,
            c_irq_handler-rx (u ∷ us) sys irq received
                ∙ ap end_rx
                    (rx_loop-moves u us sys ptr told more send_key-told (λ e. other (sym now ∙ e))),
            refl,
            told-Delivered,
            told-sched,
            w,
          )

    module _ (u' : Uart) (us : List Uart) (m3 : Mem) (r : Rtx)
        (busy : is_blocked (sys.post.sched.tcbs 159).state ≡ false)
        (last : uart0_get_rx_data_status u' ≡ 0)
        (freed : k_mem_dealloc false (sys.post.sched.tcbs sys.post.sched.current).tid ptr m2
          ≡ some (r, m3)) where
      calm-sched : told.post.sched ≡ sys.post.sched
      unfolding told sent
      calm-sched =
          let same = deliver-same 159 ptr msg copy (record before { mem = m2 }) in
          ap (λ (k : Post). k.sched) (wake-busy 159 sent (rw same.0 busy)) ∙ same.0

      calm-mem : told.post.mem ≡ m2
      unfolding told sent
      calm-mem =
          (wake-same 159 sent).1 ∙ (deliver-same 159 ptr msg copy (record before { mem = m2 })).1

      free_key-told :
          free_key ptr told ≡ some (record told { post = record told.post { mem = m3 } })
      free_key-told = free_key-eq ptr told m3 r (rw (calm-sched, calm-mem) freed)

      -- A key comes while the decoder does not wait, and is the only one. If the three blocks of memory
      -- are to be had, the message is not refused, its node is not in the mailbox yet, the copy does not
      -- overlap it and giving the buffer back ends, the key is put into the mailbox of the decoder as a
      -- message of nine bytes from the UART, with the character at its end; the buffer is given back,
      -- the interrupt is ended, and then another task may be chosen to run.
      pub c_irq_handler-key :
          (sys' : System) × (c_irq_handler (u ∷ u' ∷ us) sys ≡ ends sys')
          × Delivered 159 ptr msg copy nodes before sys'.post
          × ((sys'.post.store.nodes msg).sender_tid ≡ 255)
          × (sys'.post.store.bytes (copy + 8) ≡ key)
          × (sys'.post.mem ≡ m3)
          × (sys'.post.interrupt_flag ≡ false)
          × (sys'.post.sched ≡ (k_tsk_run_new sys.post.sched).1)
          × (sys'.gic.eoir ≡ 194)
          × (sys'.reports ≡ sys.reports ++ echo key ∷ [])
      unfolding told sent end_irq
      c_irq_handler-key =
          let sys2 = record told { post = record told.post { mem = m3 } } in
          let sys3 = end_irq 194 true sys2 in
          let d =
            Delivered-same 159 ptr msg copy nodes before told.post sys3.post refl told-Delivered in
          (
            sys3,
            c_irq_handler-rx (u ∷ u' ∷ us) sys irq received
                ∙ ap end_rx (
                    rx_loop-stays u (u' ∷ us) sys ptr told sys2 more send_key-told
                      (ap (λ s. s.current) calm-sched) free_key-told
                    ∙ rx_loop-ends u' us sys2 last),
            d,
            d.sender,
            d.bytes 8 (omega (arith, nine)) ∙ (key_message-bytes ptr key sys.post.store.bytes).2,
            refl,
            (wake-same 159 sent).2 ∙ (deliver-same 159 ptr msg copy (record before { mem = m2 })).2,
            ap (λ s. (k_tsk_run_new s).1) calm-sched,
            refl,
            refl,
          )
