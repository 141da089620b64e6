-- ===== src/Irq/Lost.antt =====
-- A key that the command decoder does not accept.
use preemptive_multi_tasked.Prelude.{
  ℕ, ◌≡◌, ◌≢◌, refl, ap, ◌∙◌, true, false, List, ◌∷◌, some, arith,
}
use preemptive_multi_tasked.Mem.{Rtx, rtx_err, Mem, k_mem_alloc, k_mem_dealloc}
use preemptive_multi_tasked.Task.{returns}
use preemptive_multi_tasked.Msg.{Post, send_refused, deliver, k_send_msg}
use preemptive_multi_tasked.Board.Uart.{
  Uart, uart0_get_rx_irq_status, uart0_get_rx_data_status, uart0_get_rx_data,
}
use preemptive_multi_tasked.Irq.{System, ends, echo, report, end_rx, end_irq, c_irq_handler}
use preemptive_multi_tasked.Irq.Key.{
  pressed, send_key-eq, free_key-eq, rx_loop-stays, rx_loop-ends, c_irq_handler-rx,
}

k_send_msg-refused :
    (receiver_tid buf : ℕ) (k : Post)
    → send_refused receiver_tid buf k ≡ true
    → k_send_msg receiver_tid buf k ≡ returns (rtx_err, k)
unfolding k_send_msg
k_send_msg-refused receiver_tid buf k e = ground (arith, e)

flag-sender :
    (receiver_tid buf msg copy : ℕ) (k : Post)
    → k.interrupt_flag ≡ true
    → ((deliver receiver_tid buf msg copy k).store.nodes msg).sender_tid ≡ 255
unfolding deliver
flag-sender receiver_tid buf msg copy k e = ground (arith, e)

-- A single key whose message the decoder does not accept, say because its mailbox is full or it has
-- none, is lost, and the flag of the interrupt stays set when the handler ends, if the message's
-- memory was to be had and is given back: what is delivered next, by whichever task, has the id of
-- the UART interrupt as its sender.
pub c_irq_handler-refused :
    (u u' : Uart) (us : List Uart) (sys : System) (ptr : ℕ) (m0 m3 : Mem) (r : Rtx)
    → sys.gic.iar ≡ 194
    → uart0_get_rx_irq_status sys.uart ≡ true
    → uart0_get_rx_data_status u ≡ 1
    → uart0_get_rx_data_status u' ≡ 0
    → k_mem_alloc (sys.post.sched.tcbs sys.post.sched.current).tid 9 sys.post.mem ≡ some (ptr, m0)
    → ptr ≢ 0
    → send_refused 159 ptr (pressed ptr (uart0_get_rx_data u) m0 sys) ≡ true
    → k_mem_dealloc false (sys.post.sched.tcbs sys.post.sched.current).tid ptr m0 ≡ some (r, m3)
    → (sys' : System) × (c_irq_handler (u ∷ u' ∷ us) sys ≡ ends sys')
      × (sys'.post.store.mailboxes ≡ sys.post.store.mailboxes)
      × (sys'.post.interrupt_flag ≡ true)
      × ((receiver_tid buf msg copy : ℕ)
          → ((deliver receiver_tid buf msg copy sys'.post).store.nodes msg).sender_tid ≡ 255)
unfolding end_irq
c_irq_handler-refused u u' us sys ptr m0 m3 r irq received more last first full refused freed =
    let key = uart0_get_rx_data u in
    let k = pressed ptr key m0 sys in
    let sys1 = report (echo key) (record sys { post = k }) in
    let sys2 = record sys1 { post = record k { mem = m3 } } in
    let sys3 = end_irq 194 true sys2 in
    (
      sys3,
      c_irq_handler-rx (u ∷ u' ∷ us) sys irq received
          ∙ ap end_rx (
              rx_loop-stays u (u' ∷ us) sys ptr sys1 sys2 more
                (send_key-eq key ptr sys m0 rtx_err k first full
                  (k_send_msg-refused 159 ptr k refused))
                refl (free_key-eq ptr sys1 m3 r freed)
              ∙ rx_loop-ends u' us sys2 last),
      refl,
      refl,
      λ receiver_tid buf msg copy. flag-sender receiver_tid buf msg copy sys3.post refl,
    )
