-- ===== src/Trials/Sequence/Order/Tests.antt =====
-- Task 2 sends eight numbers, all are too long for task 1, and its priority is not changed.
use preemptive_multi_tasked.Prelude.{ℕ, ◌<◌, List, ◌∷◌, ◌≡◌, ◌≢◌, inl, inr, refl, arith}
use preemptive_multi_tasked.Mem.{Rtx, rtx_ok, rtx_err}
use preemptive_multi_tasked.Msg.{load32}
use preemptive_multi_tasked.Trials.Calls.{Op, Reply, Calls, call, recv_msg, ◌>>=◌}
use preemptive_multi_tasked.Trials.Sequence.{
  Ending, no_priority, not_sequential, utask1, utask2, iterations, dequeues, fill, send_numbers,
}
use preemptive_multi_tasked.Trials.Sequence.System.{
  Shared, Told, Both, first_calls, second_calls, Reach, here, later, start,
}
use preemptive_multi_tasked.Trials.Sequence.Order.{Reach-not_sequential}

-- One more call of task 1, and of task 2.
abbrev one :
    {b c : Both} {o : Op} {k : Reply o → Calls (Ending × ℕ)} (r : Reply o) {s : Shared}
    → c.first ≡ call o k
    → Told 3 c.shared o r s
    → Reach 3 b c
    → Reach 3 b (record { first = k r; second = c.second; shared = s })
one r at told way = later way (first_calls _ _ r _ at told)

abbrev two :
    {b c : Both} {o : Op} {k : Reply o → Calls Ending} (r : Reply o) {s : Shared}
    → c.second ≡ call o k
    → Told 3 c.shared o r s
    → Reach 3 b c
    → Reach 3 b (record { first = c.first; second = k r; shared = s })
two r at told way = later way (second_calls _ _ r _ at told)

abbrev begun : (b : Both) × Reach 3 (start 9) b
unfolding utask1 ◌>>=◌ utask2 send_numbers fill iterations
begun = (
  _,
  (two (8192, λ _. 0) refl refl
      (two rtx_ok refl refl (
        two 3 refl (refl, refl)
          (one (4096, λ _. 0) refl refl
            (one rtx_ok refl refl (one tt refl refl (one 3 refl (refl, refl) here))))))),
)

abbrev filled : (b : Both) × Reach 3 (start 9) b
unfolding utask1 ◌>>=◌ utask2 send_numbers fill iterations
filled = (
  _,
  two rtx_ok refl (inl (refl, refl)) (
      two rtx_ok refl (inl (refl, refl)) (
        two rtx_ok refl (inl (refl, refl)) (
          two rtx_ok refl (inl (refl, refl)) (
            two rtx_ok refl (inl (refl, refl)) (
              two rtx_ok refl (inl (refl, refl)) (
                two rtx_ok refl (inl (refl, refl))
                  (two rtx_ok refl (inl (refl, refl)) begun.1))))))),
)

-- The buffer of nine bytes is too short.
lose :
    {b c : Both} {k : Rtx × ℕ × (ℕ → ℕ) → Calls (Ending × ℕ)} {msg m : ℕ → ℕ} {rest : List (ℕ → ℕ)}
    → c.first ≡ call (recv_msg msg 9) k
    → c.shared.queue ≡ m ∷ rest
    → 9 < load32 m 0
    → Reach 3 b c
    → Reach 3 b (record {
      first = k (rtx_err, 0, msg);
      second = c.second;
      shared = record { queue = rest; tid = c.shared.tid };
    })
lose {m} {rest} at queue short way =
    one (rtx_err, 0, _) at (m, rest, queue, refl, inr (refl, short)) way

short : 9 < 12
short = omega arith

abbrev lost : (b : Both) × Reach 3 (start 9) b
unfolding utask1 ◌>>=◌ utask2 send_numbers fill iterations dequeues
lost = (
  _,
  lose refl refl short (
      lose refl refl short (
        lose refl refl short (
          lose refl refl short (
            lose refl refl short
              (lose refl refl short (lose refl refl short (lose refl refl short filled.1))))))),
)

abbrev ended : (b : Both) × Reach 3 (start 9) b
unfolding utask1 ◌>>=◌ utask2 send_numbers fill iterations dequeues
ended = (_, one 1 refl refl (one rtx_err refl refl (one tt refl refl (one 0 refl refl lost.1))))

Reach-not_sequential_example : no_priority ≢ not_sequential
unfolding utask1 ◌>>=◌ utask2 send_numbers fill iterations dequeues
Reach-not_sequential_example = Reach-not_sequential 3 9 ended.0 no_priority 1 ended.1 refl
