-- ===== src/Trials/Commands/Expected.antt =====
-- What the tasks of TEST == 2 expect of the system.
use preemptive_multi_tasked.Prelude.{
  ℕ, suc, ◌+◌, ◌%◌, ◌≡◌, ◌≢◌, true, ◌==◌, arith, List, [], ◌∷◌, ◌++◌, if◌then◌else◌,
}
use preemptive_multi_tasked.Task.{tid_kcd}
use preemptive_multi_tasked.Mem.{rtx_ok}
use preemptive_multi_tasked.Msg.{load32}
use preemptive_multi_tasked.Trials.Calls.{
  Op, Reply, mbx_create, mem_alloc, send_msg, recv_msg, tsk_set_prio, read, utid1, utid2, turn,
}
use preemptive_multi_tasked.Trials.Commands.{compare, is_command}

-- What a task has sent, by receiver, length, type and first character, and how much it has received.
pub record Progress : Type 0 where
  pub sent : List (ℕ × ℕ × ℕ × ℕ)
  pub received : ℕ

abbrev pub begun : Progress
begun = record { sent = []; received = 0 }

-- The characters of a message of length 12.
abbrev pub IsCommand : (letter : ℕ) (msg : ℕ → ℕ) → Type 0
IsCommand letter msg =
    (load32 msg 0 ≡ 12) × (msg 8 ≡ letter) × (msg 9 ≡ 71) × (msg 10 ≡ 84) × (msg 11 ≡ 65)

-- Every call succeeds, and what the messages say is given by their number.
module _ (tid1 tid2 : ℕ) (says : (n sender_tid : ℕ) → (ℕ → ℕ) → Type 0) where
  abbrev pub Succeeds : Progress → (o : Op) → Reply o → Progress → Type 0
  Succeeds s (mbx_create size) r s' = (r ≡ rtx_ok) × (s' ≡ s)
  Succeeds s (mem_alloc size) (address, msg) s' = (address ≢ 0) × (s' ≡ s)
  Succeeds s (send_msg receiver_tid msg) r s' =
      (r ≡ rtx_ok)
      × (s' ≡ record s { sent = s.sent ++ (receiver_tid, load32 msg 0, load32 msg 4, msg 8) ∷ [] })
  Succeeds s (recv_msg msg len) (r, sender_tid, msg') s' =
      (r ≡ rtx_ok) × says s.received sender_tid msg' × (s' ≡ record s { received = s.received + 1 })
  Succeeds s (tsk_set_prio task_id prio) r s' = (r ≡ rtx_ok) × (s' ≡ s)
  Succeeds s (read utid1) r s' = (r ≡ tid1) × (s' ≡ s)
  Succeeds s (read utid2) r s' = (r ≡ tid2) × (s' ≡ s)
  Succeeds s (read turn) r s' = (r ≢ 1) × (s' ≡ s)
  Succeeds s o r s' = s' ≡ s

-- Two commands for task 1, and then the result of task 2.
abbrev pub ToTask1 : (tid2 n sender_tid : ℕ) → (ℕ → ℕ) → Type 0
ToTask1 tid2 (suc (suc n)) sender_tid msg = (sender_tid ≡ tid2) × (msg 8 ≡ 7)
ToTask1 tid2 n sender_tid msg = (sender_tid ≡ tid_kcd) × IsCommand 99 msg

-- Commands for task 2, of the one letter and of the other.
abbrev pub ToTask2 : (n sender_tid : ℕ) → (ℕ → ℕ) → Type 0
ToTask2 n sender_tid msg = (sender_tid ≡ tid_kcd) × IsCommand (if n % 2 == 0 then 99 else 100) msg

pub is_command-IsCommand :
    (letter : ℕ) (msg : ℕ → ℕ) → IsCommand letter msg → is_command letter msg ≡ true
unfolding compare
is_command-IsCommand letter msg h = ground (arith, h.0, h.1, h.2, h.3, h.4)

abbrev pub Anything : Progress → Op → Type 0
Anything s o = Unit {0}
