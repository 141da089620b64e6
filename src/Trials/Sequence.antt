-- ===== src/Trials/Sequence.antt =====
-- RTX/src/app/ae_usr_tasks.c with TEST == 3: task 2 fills the mailbox of task 1 with numbered messages,
-- and task 1 checks that they come in sequence. `sflag++` is a read and a write.
pub mod Receiver
pub mod Sender
pub mod System
pub mod Order
use preemptive_multi_tasked.Prelude.{
  ℕ, zero, suc, ◌+◌, ◌%◌, Bool, true, false, ◌==◌, if◌then◌else◌, ltb, add32,
}
use preemptive_multi_tasked.Msg.{load32}
use preemptive_multi_tasked.Kcd.{msg_hdr_size, store32}
use preemptive_multi_tasked.Trials.{is_ok}
use preemptive_multi_tasked.Trials.Calls.{
  Calls, done, call, ask, ◌>>=◌, ◌>>◌, tsk_get_tid, mbx_create, mem_alloc, send_msg, recv_msg,
  tsk_set_prio, read, write, utid1, sflag,
}

-- How a task ends.
pub data Ending : Type 0 where
  finished not_sequential no_priority no_memory no_mailbox no_tid : Ending
  few_messages mailbox_full endless : Ending

abbrev pub num_iterations : ℕ
num_iterations = 8

abbrev pub num_dequeues : ℕ
num_dequeues = 8

abbrev pub one_more : Calls (Unit {0})
one_more = do v ← ask (read sflag); ask (write sflag (add32 v 1))

abbrev pub message_len : (i : ℕ) → ℕ
message_len i = if i % 2 == 0 then 1 else 4

-- The inner loop of task 1: `is_sequential`, `what_to_expect` and the buffer after it.
unfoldable pub dequeues : (rounds i what_to_expect : ℕ) (msg : ℕ → ℕ) → Calls (Bool × ℕ × (ℕ → ℕ))
dequeues zero i what_to_expect msg = done (true, what_to_expect, msg)
dequeues (suc rounds) i what_to_expect msg =
    call (recv_msg msg (msg_hdr_size + message_len i)) (λ reply.
      let (r, sender, msg') = reply in
      let next = dequeues rounds i (add32 what_to_expect 1) msg' in
      if is_ok r
      then (if load32 msg' msg_hdr_size == what_to_expect
          then next
          else done (false, what_to_expect, msg'))
      else if i % 2 == 0
      then next
      else done (false, what_to_expect, msg'))

-- The outer loop.
unfoldable pub iterations : (my_tid rounds i what_to_expect : ℕ) (msg : ℕ → ℕ) → Calls Ending
unfolding ◌>>=◌
iterations my_tid zero i what_to_expect msg = done finished
iterations my_tid (suc rounds) i what_to_expect msg = do
  (is_sequential, expected, msg') ← dequeues num_dequeues i what_to_expect msg
  let next = iterations my_tid rounds (i + 1) expected msg'
  (if is_sequential
      then (one_more >> ask (tsk_set_prio my_tid 200) >>= λ r.
          if is_ok r then next else done no_priority)
      else done not_sequential)

-- `what_to_expect` starts at 0. The result is how the loop ends and the number of tests printed.
unfoldable pub utask1 : Calls (Ending × ℕ)
unfolding ◌>>=◌ iterations
utask1 = do
  my_tid ← ask tsk_get_tid
  ask (write utid1 my_tid)
  ending ←
      (if my_tid == 0
        then done no_tid
        else (ask (mbx_create 0x1FF) >>= λ r.
            if is_ok r
            then (ask (mem_alloc (msg_hdr_size + 4)) >>= λ reply.
                let (address, msg) = reply in
                if address == 0 then done no_memory else iterations my_tid num_iterations 0 0 msg)
            else done no_mailbox))
  passed ← ask (read sflag)
  done (ending, passed)

-- The buffer of task 2 with the number `what_to_send`.
abbrev pub numbered : (what_to_send : ℕ) (msg : ℕ → ℕ) → ℕ → ℕ
numbered what_to_send msg = store32 msg_hdr_size what_to_send msg

-- The loop that fills the mailbox: `tsk1_mbx_cap`, `what_to_send` and the buffer after it, or no
-- result if it has not ended.
unfoldable pub fill :
    (fuel tsk1_tid tsk1_mbx_cap what_to_send : ℕ) (msg : ℕ → ℕ) → Calls (Bool × ℕ × ℕ × (ℕ → ℕ))
fill zero tsk1_tid tsk1_mbx_cap what_to_send msg = done (false, tsk1_mbx_cap, what_to_send, msg)
fill (suc fuel) tsk1_tid tsk1_mbx_cap what_to_send msg = call (send_msg tsk1_tid msg) (λ r.
    let what_next = add32 what_to_send 1 in
    let more = fill fuel tsk1_tid (tsk1_mbx_cap + 1) what_next (numbered what_next msg) in
    if is_ok r then more else done (true, tsk1_mbx_cap, what_to_send, msg))

-- The inner loop of task 2: whether all messages were sent, `what_to_send` and the buffer after it.
unfoldable pub refill :
    (rounds tsk1_tid what_to_send : ℕ) (msg : ℕ → ℕ) → Calls (Bool × ℕ × (ℕ → ℕ))
refill zero tsk1_tid what_to_send msg = done (true, what_to_send, msg)
refill (suc rounds) tsk1_tid what_to_send msg =
    let msg' = numbered what_to_send msg in
    call (send_msg tsk1_tid msg') (λ r.
      let more = refill rounds tsk1_tid (add32 what_to_send 1) msg' in
      if is_ok r then more else done (false, what_to_send, msg'))

-- The outer loop.
unfoldable pub refills : (rounds tsk1_tid what_to_send : ℕ) (msg : ℕ → ℕ) → Calls Ending
unfolding ◌>>=◌
refills zero tsk1_tid what_to_send msg = done finished
refills (suc rounds) tsk1_tid what_to_send msg = call (tsk_set_prio tsk1_tid 150) (λ r.
    let round = refill num_dequeues tsk1_tid what_to_send msg >>= λ (all_sent, sent, msg').
    let more = refills rounds tsk1_tid sent msg' in
    if all_sent then (one_more >> more) else done mailbox_full in
    if is_ok r then round else done no_priority)

-- What task 2 does once it has a buffer; `DEFAULT`, the type of the messages, is 0.
unfoldable pub send_numbers : (fuel tsk1_tid : ℕ) (msg : ℕ → ℕ) → Calls Ending
unfolding ◌>>=◌
send_numbers fuel tsk1_tid msg = do
  let first = numbered 0 (store32 0 (msg_hdr_size + 4) (store32 4 0 msg))
  (ended, tsk1_mbx_cap, what_to_send, msg') ← fill fuel tsk1_tid 0 0 first
  (if ended
      then (if ltb num_dequeues tsk1_mbx_cap
          then (one_more >> refills num_iterations tsk1_tid what_to_send msg')
          else done few_messages)
      else done endless)

unfoldable pub utask2 : (fuel : ℕ) → Calls Ending
unfolding ◌>>=◌ send_numbers
utask2 fuel = do
  tsk1_tid ← ask (read utid1)
  (if tsk1_tid == 0
      then done no_tid
      else (ask (tsk_set_prio tsk1_tid 200) >>= λ r.
          if is_ok r
          then (ask (mem_alloc (msg_hdr_size + 4)) >>= λ reply.
              let (address, msg) = reply in
              if address == 0 then done no_memory else send_numbers fuel tsk1_tid msg)
          else done no_priority))
