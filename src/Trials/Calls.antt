-- ===== src/Trials/Calls.antt =====
-- The tasks of RTX/src/app/ae_usr_tasks.c that talk to others, as programs of system calls. The buffer
-- of a message is private to its task, except that `recv_msg` fills it: it is a value, the bytes by
-- their offset, and so is what `mem_alloc` finds in a new one.
pub mod Contract
use preemptive_multi_tasked.Prelude.{ℕ}
use preemptive_multi_tasked.Mem.{Rtx}

-- The variables that the tasks share.
pub data Global : Type 0 where
  utid1 utid2 turn sflag : Global

pub data Op : Type 0 where
  tsk_get_tid : Op
  mbx_create : (size : ℕ) → Op
  mem_alloc : (size : ℕ) → Op
  send_msg : (receiver_tid : ℕ) (msg : ℕ → ℕ) → Op
  recv_msg : (msg : ℕ → ℕ) (len : ℕ) → Op
  tsk_set_prio : (task_id prio : ℕ) → Op
  tsk_yield : Op
  read : Global → Op
  write : Global → ℕ → Op

-- What a call returns: `recv_msg` its result, the sender and the buffer, `mem_alloc` the address and
-- what is there.
abbrev pub Reply : Op → Type 0
Reply tsk_get_tid = ℕ
Reply (mbx_create size) = Rtx
Reply (mem_alloc size) = ℕ × (ℕ → ℕ)
Reply (send_msg receiver_tid msg) = Rtx
Reply (recv_msg msg len) = Rtx × ℕ × (ℕ → ℕ)
Reply (tsk_set_prio task_id prio) = Rtx
Reply tsk_yield = Rtx
Reply (read g) = ℕ
Reply (write g v) = Unit {0}

pub data Calls (A : Type 0) : Type 0 where
  done : A → Calls A
  call : (o : Op) → (Reply o → Calls A) → Calls A

infixl 5 ◌>>=◌ ◌>>◌
unfoldable pub ◌>>=◌ : {A B : Type 0} → Calls A → (A → Calls B) → Calls B
done a >>= f = f a
call o k >>= f = call o (λ r. k r >>= f)

abbrev pub ◌>>◌ : {A B : Type 0} → Calls A → Calls B → Calls B
c >> d = c >>= λ _. d

abbrev pub ask : (o : Op) → Calls (Reply o)
ask o = call o done
