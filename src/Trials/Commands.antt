-- ===== src/Trials/Commands.antt =====
-- RTX/src/app/ae_usr_tasks.c with TEST == 2: both tasks register commands with the decoder, check the
-- commands that come, and task 2 tells task 1 how many of its tests passed. What the tasks print is not
-- modelled but for the number of tests at the end.
pub mod Score
pub mod Expected
pub mod Passes
mod Tests
use preemptive_multi_tasked.Prelude.{
  ℕ, zero, suc, ◌+◌, ◌*◌, ◌%◌, Bool, true, false, ◌==◌, if◌then◌else◌, ltb, add32, sub32, update,
  List, [], ◌∷◌, Option, none, some,
}
use preemptive_multi_tasked.Task.{tid_kcd}
use preemptive_multi_tasked.Msg.{load32}
use preemptive_multi_tasked.Kcd.{msg_hdr_size, store32, kcd_reg}
use preemptive_multi_tasked.Trials.{is_ok}
use preemptive_multi_tasked.Trials.Calls.{
  Calls, done, call, ask, ◌>>=◌, ◌>>◌, tsk_get_tid, mbx_create, mem_alloc, send_msg, recv_msg,
  tsk_set_prio, tsk_yield, read, write, utid1, utid2, turn,
}

-- `message`, `message1` and `message2`.
abbrev pub command : (letter : ℕ) → List ℕ
command letter = letter ∷ 71 ∷ 84 ∷ 65 ∷ []

-- The loop over the characters from the index `j` on: `correct_msg` after it.
unfoldable pub compare : (message : List ℕ) (j : ℕ) (correct_msg : Bool) (msg : ℕ → ℕ) → Bool
compare [] j correct_msg msg = correct_msg
compare (c ∷ message) j correct_msg msg =
    compare message (j + 1) (if msg (msg_hdr_size + j) == c then correct_msg else false) msg

-- `correct_msg` after a message has been checked.
abbrev pub is_command : (letter : ℕ) (msg : ℕ → ℕ) → Bool
is_command letter msg =
    if sub32 (load32 msg 0) msg_hdr_size == 4 then compare (command letter) 0 true msg else false

-- The registration message in the buffer.
abbrev pub registration : (letter : ℕ) (msg : ℕ → ℕ) → ℕ → ℕ
registration letter msg =
    update (store32 4 kcd_reg (store32 0 (msg_hdr_size + 1) msg)) msg_hdr_size letter

-- The loop of task 1: `eflag` and the buffer after it.
unfoldable pub receive_commands : (rounds eflag : ℕ) (msg : ℕ → ℕ) → Calls (ℕ × (ℕ → ℕ))
receive_commands zero eflag msg = done (eflag, msg)
receive_commands (suc rounds) eflag msg = call (recv_msg msg (msg_hdr_size + 4)) (λ reply.
    let (r, sender_tid, msg') = reply in
    let eflag' =
      if is_ok r
      then (if sender_tid == tid_kcd
          then (if is_command 99 msg' then eflag else add32 eflag 1)
          else add32 eflag 1)
      else add32 eflag 1 in
    receive_commands rounds eflag' msg')

-- `tsk2_passed` after the message of task 2.
abbrev pub tsk2_passed : (msg : ℕ → ℕ) → ℕ
tsk2_passed msg = if ltb (msg msg_hdr_size) 10 then msg msg_hdr_size else 0

-- `eflag` after the message of task 2, which task 1 allows to run.
unfoldable pub receive_result : (eflag : ℕ) (msg : ℕ → ℕ) → Calls ℕ
unfolding ◌>>=◌
receive_result eflag msg = do
  ask (write turn 2)
  (r, sender_tid, msg') ← ask (recv_msg msg (msg_hdr_size + 4))
  (if is_ok r
      then (ask (read utid2) >>= λ tid.
          done
            (if sender_tid == tid then add32 eflag (sub32 7 (tsk2_passed msg')) else add32 eflag 8))
      else done (add32 eflag 8))

-- What task 1 does once it has a buffer: `eflag` at the end.
unfoldable pub run_tests : (msg : ℕ → ℕ) → Calls ℕ
unfolding ◌>>=◌ receive_result
run_tests msg = do
  let msg1 = registration 99 msg
  r ← ask (send_msg tid_kcd msg1)
  (eflag, msg2) ← (if is_ok r then receive_commands 2 0 msg1 else done (3, msg1))
  receive_result eflag msg2

-- The result is the number printed at the end.
unfoldable pub utask1 : Calls ℕ
unfolding ◌>>=◌ run_tests
utask1 = do
  my_tid ← ask tsk_get_tid
  ask (write utid1 my_tid)
  created ← ask (mbx_create (2 * (msg_hdr_size + 1 + 5)))
  eflag ←
      (if is_ok created
        then (ask (mem_alloc (msg_hdr_size + 4)) >>= λ reply.
            let (address, msg) = reply in if address == 0 then done 11 else run_tests msg)
        else done 11)
  done (sub32 11 eflag)

-- `while(turn == 1)`: false if `turn` is still 1 after `fuel` reads.
unfoldable pub wait_turn : (fuel : ℕ) → Calls Bool
wait_turn zero = done false
wait_turn (suc fuel) = call (read turn) (λ v. if v == 1 then wait_turn fuel else done true)

-- `sflag++` on a character.
abbrev pub passed : ℕ → ℕ
passed sflag = (sflag + 1) % 256

-- The loop of task 2 from the index `i` on: `sflag` and the buffer after it.
unfoldable pub check_commands : (rounds i sflag : ℕ) (msg : ℕ → ℕ) → Calls (ℕ × (ℕ → ℕ))
check_commands zero i sflag msg = done (sflag, msg)
check_commands (suc rounds) i sflag msg = call (recv_msg msg (msg_hdr_size + 4)) (λ reply.
    let (r, sender_tid, msg') = reply in
    let letter = if i % 2 == 0 then 99 else 100 in
    let sflag' =
      if is_ok r
      then (if sender_tid == tid_kcd
          then (if is_command letter msg' then passed sflag else sflag)
          else sflag)
      else sflag in
    check_commands rounds (i + 1) sflag' msg')

-- The two registrations of task 2 and its loop.
unfoldable pub register_commands : (msg : ℕ → ℕ) → Calls (ℕ × (ℕ → ℕ))
register_commands msg =
    let msg1 = registration 99 msg in
    let msg2 = update msg1 msg_hdr_size 100 in
    call (send_msg tid_kcd msg1) (λ r.
      if is_ok r
      then call (send_msg tid_kcd msg2) (λ r'.
        if is_ok r' then check_commands 4 0 (passed (passed 0)) msg2 else done (passed 0, msg2))
      else done (0, msg1))

-- The end of task 2: `sflag` at the end. The result of `send_msg` is not looked at.
unfoldable pub send_result : (sflag : ℕ) (msg : ℕ → ℕ) → Calls ℕ
unfolding ◌>>=◌
send_result sflag msg = do
  tsk1_tid ← ask (read utid1)
  (if tsk1_tid == 0
      then done sflag
      else (ask (tsk_set_prio tsk1_tid 200) >>= λ r.
          if is_ok r
          then (ask (send_msg tsk1_tid (update (store32 4 0 msg) msg_hdr_size (passed sflag)))
              >> done (passed sflag))
          else done sflag))

-- The result is `sflag` at the end, if the task leaves its first loop. The variable `turn` starts at 1.
unfoldable pub utask2 : (fuel : ℕ) → Calls (Option ℕ)
unfolding ◌>>=◌ send_result
utask2 fuel = do
  my_tid ← ask tsk_get_tid
  ask (write utid2 my_tid)
  my_turn ← wait_turn fuel
  (if my_turn
      then (ask (mbx_create (2 * (msg_hdr_size + 1 + 5))) >>= λ created.
          if is_ok created
          then (ask (mem_alloc (msg_hdr_size + 4)) >>= λ reply.
              let (address, msg) = reply in
              if address == 0
              then done (some 0)
              else (register_commands msg >>= λ (sflag, msg').
                  send_result sflag msg' >>= λ n. done (some n)))
          else done (some 0))
      else done none)

-- An endless loop, for `rounds` calls.
unfoldable pub utask3 : (rounds : ℕ) → Calls (Unit {0})
utask3 zero = done tt
utask3 (suc rounds) = call tsk_yield (λ r. utask3 rounds)
