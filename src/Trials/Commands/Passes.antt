-- ===== src/Trials/Commands/Passes.antt =====
-- The tasks of TEST == 2 where the system does what they expect.
use preemptive_multi_tasked.Prelude.{
  ℕ, suc, ◌+◌, ◌%◌, ◌≡◌, ◌≢◌, refl, false, ◌==◌, arith, [], ◌∷◌, ◌++◌, if◌then◌else◌, Option, some,
  subst, ap, ◌∙◌,
}
use preemptive_multi_tasked.Msg.{load32}
use preemptive_multi_tasked.Trials.Calls.{◌>>=◌}
use preemptive_multi_tasked.Trials.Calls.Contract.{Keeps, Keeps-bind, Ends, Keeps-Ends}
use preemptive_multi_tasked.Trials.Commands.{
  receive_commands, receive_result, run_tests, utask1, wait_turn, check_commands, passed,
  register_commands, send_result, utask2,
}
use preemptive_multi_tasked.Trials.Commands.Expected.{
  Progress, begun, IsCommand, Succeeds, ToTask1, ToTask2, is_command-IsCommand, Anything,
}

-- What task 1 sends is one registration.
module _ (tid1 tid2 : ℕ) where
  run_tests-Keeps :
      (msg : ℕ → ℕ)
      → Keeps Anything
          (Succeeds tid1 tid2 (ToTask1 tid2))
          (λ s eflag. (eflag ≡ 0) × (s.sent ≡ (159, 9, 1, 99) ∷ []))
          begun
          (run_tests msg)
  unfolding run_tests ◌>>=◌ receive_result receive_commands
  run_tests-Keeps msg = (
    tt,
    λ r s1 (ok, s1_is).
        rw (ok, s1_is)
          (
            tt,
            λ (r2, sender2, msg2) s2 (ok2, (from2, good2), s2_is).
                rw (ok2, from2, is_command-IsCommand 99 msg2 good2, s2_is)
                  (
                    tt,
                    λ (r3, sender3, msg3) s3 (ok3, (from3, good3), s3_is).
                        rw (ok3, from3, is_command-IsCommand 99 msg3 good3, s3_is)
                          (
                            tt,
                            λ u s4 s4_is. rw s4_is (
                              tt,
                              λ (r5, sender5, msg5) s5 (ok5, (from5, seven), s5_is).
                                  rw (ok5, s5_is)
                                    (
                                      tt,
                                      λ tid s6 (mine, s6_is).
                                          rw (mine, from5, seven, s6_is) (ground arith, refl),
                                    ),
                            ),
                          ),
                  ),
          ),
  )

  utask1-Keeps :
      Keeps Anything
        (Succeeds tid1 tid2 (ToTask1 tid2))
        (λ s score. (score ≡ 11) × (s.sent ≡ (159, 9, 1, 99) ∷ []))
        begun
        utask1
  unfolding utask1 ◌>>=◌
  utask1-Keeps = (
    tt,
    λ my_tid s1 s1_is. rw s1_is (
      tt,
      λ u s2 s2_is. rw s2_is (
        tt,
        λ created s3 (ok, s3_is).
            rw (ok, s3_is)
              (
                tt,
                λ (address, msg) s4 (there, s4_is).
                    let known : (address == 0) ≡ false = ground (arith, there) in
                    rw (known, s4_is)
                      (Keeps-bind Anything (Succeeds tid1 tid2 (ToTask1 tid2)) _ _ begun
                        (run_tests msg) _ (run_tests-Keeps msg)
                        (λ s5 eflag (none_failed, posted). rw none_failed (refl, posted))),
              ),
      ),
    ),
  )

-- One round of the loop of task 2.
module _ (tid1 tid2 : ℕ) where
  check_commands-step :
      (rounds i sflag : ℕ) (msg : ℕ → ℕ) (s : Progress) (Q : Progress → ℕ × (ℕ → ℕ) → Type 0)
      → s.received ≡ i
      → ((msg' : ℕ → ℕ)
          → load32 msg' 0 ≡ 12
          → Keeps Anything
              (Succeeds tid1 tid2 ToTask2)
              Q
              (record { sent = s.sent; received = i + 1 })
              (check_commands rounds (i + 1) (passed sflag) msg'))
      → Keeps Anything (Succeeds tid1 tid2 ToTask2) Q s (check_commands (suc rounds) i sflag msg)
  unfolding check_commands
  check_commands-step rounds i sflag msg s Q at next = (
    tt,
    λ (r, sender_tid, msg') s1 (ok, (from, good), s1_is).
        rw
          (
            ok,
            from,
            is_command-IsCommand _ msg'
                (subst (λ n. IsCommand (if n % 2 == 0 then 99 else 100) msg') at good),
            s1_is,
            at,
          )
          (next msg' good.0),
  )

  check_commands-end :
      (i n : ℕ) (msg : ℕ → ℕ) (s : Progress) (Q : Progress → ℕ × (ℕ → ℕ) → Type 0)
      → Q s (n, msg)
      → Keeps Anything (Succeeds tid1 tid2 ToTask2) Q s (check_commands 0 i n msg)
  unfolding check_commands
  check_commands-end i n msg s Q h = h

  register_commands-Keeps :
      (msg : ℕ → ℕ)
      → Keeps Anything
          (Succeeds tid1 tid2 ToTask2)
          (λ s (sflag, msg').
            (sflag ≡ 6) × (load32 msg' 0 ≡ 12) × (s.sent ≡ (159, 9, 1, 99) ∷ (159, 9, 1, 100) ∷ []))
          begun
          (register_commands msg)
  unfolding register_commands
  register_commands-Keeps msg = (
    tt,
    λ r s1 (ok, s1_is).
        rw (ok, s1_is)
          (
            tt,
            λ r2 s2 (ok2, s2_is).
                rw (ok2, s2_is)
                  (check_commands-step 3 0 2 _ _ _ refl (λ msg1 twelve.
                    check_commands-step 2 1 3 _ _ _ refl (λ msg2 twelve2.
                      check_commands-step 1 2 4 _ _ _ refl (λ msg3 twelve3.
                        check_commands-step 0 3 5 _ _ _ refl (λ msg4 twelve4.
                          check_commands-end 4 6 msg4 _ _ (refl, twelve4, refl)))))),
          ),
  )

  send_result-Keeps :
      (msg : ℕ → ℕ) (s : Progress)
      → tid1 ≢ 0
      → load32 msg 0 ≡ 12
      → Keeps Anything
          (Succeeds tid1 tid2 ToTask2)
          (λ s' n. (n ≡ 7) × (s'.sent ≡ s.sent ++ (tid1, 12, 0, 7) ∷ []))
          s
          (send_result 6 msg)
  unfolding send_result ◌>>=◌
  send_result-Keeps msg s there twelve = (
    tt,
    λ t s1 (known, s1_is).
        let right : (tid1 == 0) ≡ false = ground (arith, there) in
        rw (known, right, s1_is)
          (
            tt,
            λ r s2 (ok, s2_is).
                rw (ok, s2_is)
                  (
                    tt,
                    λ r3 s3 (ok3, s3_is).
                        rw s3_is
                          (refl, ap (λ n. s.sent ++ (tid1, n, 0, 7) ∷ []) (ground (arith, twelve))),
                  ),
          ),
  )

  utask2-Keeps :
      (fuel : ℕ)
      → tid1 ≢ 0
      → Keeps Anything
          (Succeeds tid1 tid2 ToTask2)
          (λ s n.
            (n ≡ some 7) × (s.sent ≡ (159, 9, 1, 99) ∷ (159, 9, 1, 100) ∷ (tid1, 12, 0, 7) ∷ []))
          begun
          (utask2 (suc fuel))
  unfolding utask2 ◌>>=◌ wait_turn
  utask2-Keeps fuel there = (
    tt,
    λ my_tid s1 s1_is. rw s1_is (
      tt,
      λ u s2 s2_is. rw s2_is (
        tt,
        λ v s3 (changed, s3_is).
            let mine : (v == 1) ≡ false = ground (arith, changed) in
            rw (mine, s3_is)
              (
                tt,
                λ created s4 (ok, s4_is).
                    rw (ok, s4_is)
                      (
                        tt,
                        λ (address, msg) s5 (given, s5_is).
                            let fine : (address == 0) ≡ false = ground (arith, given) in
                            rw (fine, s5_is)
                              (Keeps-bind Anything (Succeeds tid1 tid2 ToTask2) _ _ begun
                                (register_commands msg) _ (register_commands-Keeps msg)
                                (λ s6 (n, msg') (six, twelve, posted). rw six (
                                  Keeps-bind Anything (Succeeds tid1 tid2 ToTask2) _ _ s6
                                    (send_result 6 msg') _ (send_result-Keeps msg' s6 there twelve)
                                    (λ s7 n7 (seven, posted7). (
                                      ap some seven,
                                      posted7 ∙ ap (λ l. l ++ (tid1, 12, 0, 7) ∷ []) posted,
                                    ))))),
                      ),
              ),
      ),
    ),
  )

-- Where every call succeeds, the decoder sends task 1 the command `cGTA` twice and task 2 sends it a 7,
-- task 1 has sent the decoder one registration, of `c`, and prints that 11 tests passed.
pub utask1-all_passed :
    (tid1 tid2 score : ℕ) (s : Progress)
    → Ends (Succeeds tid1 tid2 (ToTask1 tid2)) begun utask1 s score
    → (score ≡ 11) × (s.sent ≡ (159, 9, 1, 99) ∷ [])
utask1-all_passed tid1 tid2 score s run =
    Keeps-Ends Anything (Succeeds tid1 tid2 (ToTask1 tid2)) _ begun s utask1 score
      (utask1-Keeps tid1 tid2) run

-- Where every call succeeds, `turn` is not 1, task 1 has an id, and the decoder sends task 2 the commands
-- `cGTA` and `dGTA` in turn, all seven of its tests pass, and it has registered `c` and then `d` with the
-- decoder and sent task 1 a message with the 7, whose length is that of the last command, 12.
pub utask2-all_passed :
    (tid1 tid2 fuel : ℕ) (n : Option ℕ) (s : Progress)
    → tid1 ≢ 0
    → Ends (Succeeds tid1 tid2 ToTask2) begun (utask2 (suc fuel)) s n
    → (n ≡ some 7) × (s.sent ≡ (159, 9, 1, 99) ∷ (159, 9, 1, 100) ∷ (tid1, 12, 0, 7) ∷ [])
utask2-all_passed tid1 tid2 fuel n s there run =
    Keeps-Ends Anything (Succeeds tid1 tid2 ToTask2) _ begun s (utask2 (suc fuel)) n
      (utask2-Keeps tid1 tid2 fuel there) run
