-- ===== src/Trials/Sequence/Receiver.antt =====
-- What task 1 of TEST == 3 receives.
use preemptive_multi_tasked.Prelude.{
  ℕ, zero, suc, ◌+◌, ◌%◌, ◌<◌, ◌≡◌, ◌≢◌, ◌⊎◌, inl, inr, refl, true, ◌==◌, arith, add32,
}
use preemptive_multi_tasked.Mem.{rtx_ok, rtx_err}
use preemptive_multi_tasked.Msg.{load32}
use preemptive_multi_tasked.Trials.{is_ok}
use preemptive_multi_tasked.Trials.Calls.{
  Op, Reply, ◌>>=◌, tsk_get_tid, send_msg, recv_msg, write, utid1,
}
use preemptive_multi_tasked.Trials.Calls.Contract.{Keeps, Keeps-bind, Keeps-if}
use preemptive_multi_tasked.Trials.Sequence.{Ending, not_sequential, dequeues, iterations, utask1}

-- Task 1, with the id `me`, receives the messages from the number `e` on, of twelve bytes each.
module _ (me : ℕ) where
  abbrev pub Receives : ℕ → Op → Type 0
  Receives e (send_msg receiver_tid msg) = ⊥
  Receives e (write utid1 v) = v ≡ me
  Receives e o = Unit {0}

  -- The first message comes whole, or is dropped because the buffer is too short.
  abbrev pub Received : ℕ → (o : Op) → Reply o → ℕ → Type 0
  Received e tsk_get_tid r e' = (r ≡ me) × (e' ≡ e)
  Received e (recv_msg msg len) (r, sender, msg') e' =
      (((r ≡ rtx_ok) × (load32 msg' 8 ≡ e)) ⊎ ((r ≡ rtx_err) × (len < 12))) × (e' ≡ add32 e 1)
  Received e o r e' = e' ≡ e

  abbrev pub InSequence : ℕ → Ending × ℕ → Type 0
  InSequence e (ending, passed) = ending ≢ not_sequential

  dequeues-Keeps :
      (rounds i e : ℕ) (msg : ℕ → ℕ)
      → Keeps Receives Received
          (λ e' (ok, expected, msg'). (ok ≡ true) × (expected ≡ e'))
          e
          (dequeues rounds i e msg)
  unfolding dequeues
  dequeues-Keeps zero i e msg = (refl, refl)
  dequeues-Keeps (suc rounds) i e msg = (
    tt,
    λ (r, sender, msg') e' (outcome, step). elim outcome [
      | inl (ok, number) ↦
          let here : (load32 msg' 8 == e) ≡ true = ground (arith, number) in
          rw (ok, here, step) (dequeues-Keeps rounds i (add32 e 1) msg')
      | inr (bad, short) ↦
          let even : (i % 2 == 0) ≡ true = ground (arith, short) in
          rw (bad, even, step) (dequeues-Keeps rounds i (add32 e 1) msg')
    ],
  )

  iterations-Keeps :
      (my_tid rounds i e : ℕ) (msg : ℕ → ℕ)
      → Keeps Receives Received
          (λ e' ending. ending ≢ not_sequential)
          e
          (iterations my_tid rounds i e msg)
  unfolding iterations ◌>>=◌
  iterations-Keeps my_tid zero i e msg = cc
  iterations-Keeps my_tid (suc rounds) i e msg =
      Keeps-bind Receives Received _ _ e (dequeues 8 i e msg) _ (dequeues-Keeps 8 i e msg)
        (λ e1 (ok, expected, msg1) (fine, same).
          rw (fine, same)
            (
              tt,
              λ v e2 s2. (
                tt,
                λ u e3 s3. (
                  tt,
                  λ r e4 s4.
                      Keeps-if Receives Received _ e4 (is_ok r) _ _
                        (λ _. rw (s4, s3, s2) (iterations-Keeps my_tid rounds (i + 1) e1 msg1))
                        (λ _. cc),
                ),
              ),
            ))

  pub utask1-Keeps : Keeps Receives Received InSequence 0 utask1
  unfolding utask1 ◌>>=◌
  utask1-Keeps = (
    tt,
    λ my_tid e (mine, s). (
      mine,
      λ u e1 s1.
          Keeps-bind Receives Received (λ e' ending. ending ≢ not_sequential) _ e1 _ _
            (Keeps-if Receives Received _ e1 (my_tid == 0) _ _ (λ _. cc)
              (λ _. (
                tt,
                λ r e2 s2.
                    Keeps-if Receives Received _ e2 (is_ok r) _ _
                      (λ _. (
                        tt,
                        λ (address, msg) e3 s3.
                            Keeps-if Receives Received _ e3 (address == 0) _ _ (λ _. cc)
                              (λ _. rw (s3, s2, s1, s) (iterations-Keeps my_tid 8 0 0 msg)),
                      ))
                      (λ _. cc),
              )))
            (λ e4 ending fine. (tt, λ v e5 s5. fine)),
    ),
  )
