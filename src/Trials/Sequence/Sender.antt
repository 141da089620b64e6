-- ===== src/Trials/Sequence/Sender.antt =====
-- What task 2 of TEST == 3 sends.
use preemptive_multi_tasked.Prelude.{
  ℕ, zero, suc, ◌+◌, ◌^◌, ◌<◌, ◌≡◌, ◌⊎◌, inl, inr, refl, ◌==◌, arith, add32, ltb,
}
use preemptive_multi_tasked.Mem.{rtx_ok, rtx_err}
use preemptive_multi_tasked.Msg.{load32}
use preemptive_multi_tasked.Kcd.{store32}
use preemptive_multi_tasked.Trials.{is_ok}
use preemptive_multi_tasked.Trials.Calls.{Op, Reply, ◌>>=◌, send_msg, recv_msg, read, write, utid1}
use preemptive_multi_tasked.Trials.Calls.Contract.{Keeps, Keeps-bind, Keeps-if}
use preemptive_multi_tasked.Trials.Sequence.{
  Ending, numbered, fill, refill, refills, send_numbers, utask2,
}

-- A message of twelve bytes with the number `w`.
abbrev pub IsNumbered : (w : ℕ) (msg : ℕ → ℕ) → Type 0
IsNumbered w msg = (load32 msg 0 ≡ 12) × (load32 msg 8 ≡ w)

numbered-IsNumbered :
    (w : ℕ) (msg : ℕ → ℕ) → w < 2 ^ 32 → load32 msg 0 ≡ 12 → IsNumbered w (numbered w msg)
numbered-IsNumbered w msg h twelve = (ground (arith, twelve), ground arith)

first-length : (msg : ℕ → ℕ) → load32 (store32 0 12 (store32 4 0 msg)) 0 ≡ 12
first-length msg = ground arith

-- Task 2 sends the numbers from `w` on to the task `me`, and does not receive.
module _ (me : ℕ) where
  abbrev pub Sends : ℕ → Op → Type 0
  Sends w (send_msg receiver_tid msg) = (receiver_tid ≡ me) × IsNumbered w msg
  Sends w (recv_msg msg len) = ⊥
  Sends w (write utid1 v) = ⊥
  Sends w o = Unit {0}

  abbrev pub Sent : ℕ → (o : Op) → Reply o → ℕ → Type 0
  Sent w (send_msg receiver_tid msg) r w' =
      ((r ≡ rtx_ok) × (w' ≡ add32 w 1)) ⊎ ((r ≡ rtx_err) × (w' ≡ w))
  Sent w (read utid1) r w' = ((r ≡ 0) ⊎ (r ≡ me)) × (w' ≡ w)
  Sent w o r w' = w' ≡ w

  abbrev pub Ended : ℕ → Ending → Type 0
  Ended w ending = Unit {0}

  fill-Keeps :
      (fuel cap w : ℕ) (msg : ℕ → ℕ)
      → w < 2 ^ 32
      → IsNumbered w msg
      → Keeps Sends Sent
          (λ w' (ended, cap', sent, msg'). (sent ≡ w') × (w' < 2 ^ 32) × (load32 msg' 0 ≡ 12))
          w
          (fill fuel me cap w msg)
  unfolding fill
  fill-Keeps zero cap w msg h m = (refl, h, m.0)
  fill-Keeps (suc fuel) cap w msg h m = (
    (refl, m),
    λ r w' told. elim told [
      | inl (ok, step) ↦
          rw (ok, step)
            (fill-Keeps fuel (cap + 1) (add32 w 1) (numbered (add32 w 1) msg) (omega arith)
              (numbered-IsNumbered (add32 w 1) msg (omega arith) m.0))
      | inr (bad, same) ↦ rw (bad, same) (refl, h, m.0)
    ],
  )

  refill-Keeps :
      (rounds w : ℕ) (msg : ℕ → ℕ)
      → w < 2 ^ 32
      → load32 msg 0 ≡ 12
      → Keeps Sends Sent
          (λ w' (all_sent, sent, msg'). (sent ≡ w') × (w' < 2 ^ 32) × (load32 msg' 0 ≡ 12))
          w
          (refill rounds me w msg)
  unfolding refill
  refill-Keeps zero w msg h twelve = (refl, h, twelve)
  refill-Keeps (suc rounds) w msg h twelve =
      let m = numbered-IsNumbered w msg h twelve in
      (
        (refl, m),
        λ r w' told. elim told [
          | inl (ok, step) ↦
              rw (ok, step) (refill-Keeps rounds (add32 w 1) (numbered w msg) (omega arith) m.0)
          | inr (bad, same) ↦ rw (bad, same) (refl, h, m.0)
        ],
      )

  refills-Keeps :
      (rounds w : ℕ) (msg : ℕ → ℕ)
      → w < 2 ^ 32
      → load32 msg 0 ≡ 12
      → Keeps Sends Sent Ended w (refills rounds me w msg)
  unfolding refills ◌>>=◌
  refills-Keeps zero w msg h twelve = tt
  refills-Keeps (suc rounds) w msg h twelve = (
    tt,
    λ r w1 s1.
        Keeps-if Sends Sent Ended w1 (is_ok r) _ _
          (λ _. rw s1 (
            Keeps-bind Sends Sent _ Ended w (refill 8 me w msg) _ (refill-Keeps 8 w msg h twelve)
              (λ w2 (all_sent, sent, msg2) (same, h2, twelve2).
                Keeps-if Sends Sent Ended w2 all_sent _ _
                  (λ _. rw same (
                    tt,
                    λ v w3 s3.
                        (tt, λ u w4 s4. rw (s4, s3) (refills-Keeps rounds w2 msg2 h2 twelve2)),
                  ))
                  (λ _. tt))))
          (λ _. tt),
  )

  send_numbers-Keeps :
      (fuel : ℕ) (msg : ℕ → ℕ) → Keeps Sends Sent Ended 0 (send_numbers fuel me msg)
  unfolding send_numbers ◌>>=◌
  send_numbers-Keeps fuel msg =
      let start = store32 0 12 (store32 4 0 msg) in
      Keeps-bind Sends Sent _ Ended 0 (fill fuel me 0 0 (numbered 0 start)) _
        (fill-Keeps fuel 0 0 (numbered 0 start) (omega arith)
          (numbered-IsNumbered 0 start (omega arith) (first-length msg)))
        (λ w (ended, cap, sent, msg') (same, h, twelve).
          Keeps-if Sends Sent Ended w ended _ _
            (λ _.
              Keeps-if Sends Sent Ended w (ltb 8 cap) _ _
                (λ _.
                  rw same
                    (tt, λ v w1 s1. (tt, λ u w2 s2. rw (s2, s1) (refills-Keeps 8 w msg' h twelve))))
                (λ _. tt))
            (λ _. tt))

  pub utask2-Keeps : (fuel : ℕ) → Keeps Sends Sent Ended 0 (utask2 fuel)
  unfolding utask2 ◌>>=◌
  utask2-Keeps fuel = (
    tt,
    λ t w (known, s). elim known [
      | inl none_yet ↦ rw none_yet tt
      | inr mine ↦
          Keeps-if Sends Sent Ended w (t == 0) _ _ (λ _. tt)
            (λ _. (
              tt,
              λ r w1 s1.
                  Keeps-if Sends Sent Ended w1 (is_ok r) _ _
                    (λ _. (
                      tt,
                      λ (address, msg) w2 s2.
                          Keeps-if Sends Sent Ended w2 (address == 0) _ _ (λ _. tt)
                            (λ _. rw (mine, s2, s1, s) (send_numbers-Keeps fuel msg)),
                    ))
                    (λ _. tt),
            ))
    ],
  )
