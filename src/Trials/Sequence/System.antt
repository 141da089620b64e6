-- ===== src/Trials/Sequence/System.antt =====
-- The two tasks of TEST == 3 and the mailbox of task 1, as a system that takes their calls in any order.
use preemptive_multi_tasked.Prelude.{
  ℕ, ◌≤◌, ◌<◌, ◌≡◌, ◌⊎◌, ◌==◌, List, [], ◌∷◌, ◌++◌, if◌then◌else◌,
}
use preemptive_multi_tasked.Mem.{rtx_ok, rtx_err}
use preemptive_multi_tasked.Msg.{load32}
use preemptive_multi_tasked.Trials.Calls.{
  Op, Reply, Calls, call, tsk_get_tid, send_msg, recv_msg, read, write, utid1,
}
use preemptive_multi_tasked.Trials.Sequence.{Ending, utask1, utask2}

-- The messages in the mailbox of task 1, and the variable `utid1`.
pub record Shared : Type 0 where
  pub queue : List (ℕ → ℕ)
  pub tid : ℕ

-- The replies to a call and what becomes of the shared state, where `me` is the id of task 1: a message
-- is sent or refused, and the first message comes whole, or is dropped if it is too long.
abbrev pub Told : (me : ℕ) → Shared → (o : Op) → Reply o → Shared → Type 0
Told me s tsk_get_tid r s' = (r ≡ me) × (s' ≡ s)
Told me s (send_msg receiver_tid msg) r s' =
    ((r ≡ rtx_ok)
      × (s' ≡ (if receiver_tid == me then record s { queue = s.queue ++ msg ∷ [] } else s)))
    ⊎ ((r ≡ rtx_err) × (s' ≡ s))
Told me s (recv_msg msg len) (r, sender, msg') s' =
    (m : ℕ → ℕ) × (rest : List (ℕ → ℕ)) × (s.queue ≡ m ∷ rest)
    × (s' ≡ record s { queue = rest })
    × (((r ≡ rtx_ok) × (load32 m 0 ≤ len) × ((i : ℕ) → i < load32 m 0 → msg' i ≡ m i))
        ⊎ ((r ≡ rtx_err) × (len < load32 m 0)))
Told me s (read utid1) r s' = (r ≡ s.tid) × (s' ≡ s)
Told me s (write utid1 v) r s' = s' ≡ record s { tid = v }
Told me s o r s' = s' ≡ s

-- Both tasks, with what is left of each.
pub record Both : Type 0 where
  pub first : Calls (Ending × ℕ)
  pub second : Calls Ending
  pub shared : Shared

-- One of the tasks makes its next call.
pub data Step (me : ℕ) (b : Both) : Both → Type 0 where
  first_calls :
      (o : Op) (k : Reply o → Calls (Ending × ℕ)) (r : Reply o) (s : Shared)
      → b.first ≡ call o k
      → Told me b.shared o r s
      → Step me b (record { first = k r; second = b.second; shared = s })
  second_calls :
      (o : Op) (k : Reply o → Calls Ending) (r : Reply o) (s : Shared)
      → b.second ≡ call o k
      → Told me b.shared o r s
      → Step me b (record { first = b.first; second = k r; shared = s })

pub data Reach (me : ℕ) (b : Both) : Both → Type 0 where
  here : Reach me b b
  later : {c d : Both} → Reach me b c → Step me c d → Reach me b d

abbrev pub start : (fuel : ℕ) → Both
start fuel = record {
  first = utask1;
  second = utask2 fuel;
  shared = record { queue = []; tid = 0 };
}
