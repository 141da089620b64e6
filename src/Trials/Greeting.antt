-- ===== src/Trials/Greeting.antt =====
-- `msg_tsk1` and `msg_tsk2` of RTX/src/app/ae_usr_tasks.c (TEST == 3). `msg_tsk1` then loops for ever,
-- and `msg_tsk2` exits.
mod Tests
use preemptive_multi_tasked.Prelude.{
  ℕ, zero, suc, ◌+◌, ◌*◌, ◌≡◌, ◌≢◌, ◌<◌, ◌≤◌, refl, Bool, true, false, ◌==◌, if◌then◌else◌, update,
  List, [], ◌∷◌, length, arith,
}
use preemptive_multi_tasked.Task.{tid_kcd}
use preemptive_multi_tasked.Mem.{rtx_ok}
use preemptive_multi_tasked.Msg.{load32}
use preemptive_multi_tasked.Kcd.{msg_hdr_size, store32, kcd_reg}
use preemptive_multi_tasked.Trials.{is_ok}
use preemptive_multi_tasked.Trials.Calls.{Calls, done, ask, ◌>>=◌, ◌>>◌, mem_alloc, send_msg}

-- What is printed, if the memory is not NULL.
pub data Outcome : Type 0 where
  fail pass sent null_deref : Outcome

unfoldable pub msg_tsk1 : Calls Outcome
unfolding ◌>>=◌
msg_tsk1 = do
  (address, msg) ← ask (mem_alloc (msg_hdr_size + 20))
  (if address == 0
      then done null_deref
      else (ask (
            send_msg tid_kcd
              (update (store32 4 kcd_reg (store32 0 (msg_hdr_size + 1) msg)) msg_hdr_size 99))
          >>= λ r. done (if is_ok r then fail else pass)))

-- The loop over the characters from the index `i` on.
unfoldable pub copy_text : (buf : List ℕ) (i : ℕ) (msg : ℕ → ℕ) → ℕ → ℕ
copy_text [] i msg = msg
copy_text (c ∷ buf) i msg = copy_text buf (i + 1) (update msg (msg_hdr_size + i) c)

-- The twenty characters of `buf`.
abbrev pub text : List ℕ
text =
    115 ∷ 104 ∷ 101 ∷ 114 ∷ 119 ∷ 105 ∷ 110 ∷ 32 ∷ 102 ∷ 117 ∷ 99 ∷ 107 ∷ 101 ∷ 100 ∷ 32 ∷ 97 ∷ 32
    ∷ 100 ∷ 111 ∷ 103 ∷ []

-- DEFAULT is 0. The result of `send_msg` is not looked at.
unfoldable pub msg_tsk2 : Calls Outcome
unfolding ◌>>=◌
msg_tsk2 = do
  (address, msg) ← ask (mem_alloc (msg_hdr_size + 20))
  (if address == 0
      then done null_deref
      else (ask (send_msg 1 (copy_text text 0 (store32 0 (msg_hdr_size + 20) (store32 4 0 msg))))
          >> done sent))
