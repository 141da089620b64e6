-- ===== src/Trials/Commands/Score.antt =====
-- The number of tests that task 1 of TEST == 2 prints.
use preemptive_multi_tasked.Prelude.{ℕ, zero, suc, ◌+◌, ◌≤◌, ◌==◌, arith, sub32}
use preemptive_multi_tasked.Trials.{is_ok}
use preemptive_multi_tasked.Trials.Calls.{Op, Reply, done, ◌>>=◌, recv_msg}
use preemptive_multi_tasked.Trials.Calls.Contract.{Keeps, Keeps-bind, Keeps-if, Ends, Keeps-Ends}
use preemptive_multi_tasked.Trials.Commands.{
  receive_commands, receive_result, run_tests, utask1, tsk2_passed, registration,
}

abbrev pub Anything : Unit {0} → Op → Type 0
Anything s o = Unit {0}

-- No message says that task 2 passed more than `most` tests.
abbrev pub Modest : (most : ℕ) → Unit {0} → (o : Op) → Reply o → Unit {0} → Type 0
Modest most s (recv_msg msg len) (r, sender_tid, msg') s' = tsk2_passed msg' ≤ most
Modest most s o r s' = Unit {0}

module _ (most : ℕ) where
  receive_commands-Keeps :
      (rounds eflag : ℕ) (msg : ℕ → ℕ)
      → eflag + rounds ≤ 3
      → Keeps Anything
          (Modest most)
          (λ s (eflag', msg'). eflag' ≤ 3)
          tt
          (receive_commands rounds eflag msg)
  unfolding receive_commands
  receive_commands-Keeps zero eflag msg h = omega (arith, h)
  receive_commands-Keeps (suc rounds) eflag msg h =
      (tt, λ (r, sender_tid, msg') s told. receive_commands-Keeps rounds _ msg' (ground (arith, h)))

  receive_result-Keeps :
      (eflag : ℕ) (msg : ℕ → ℕ)
      → eflag ≤ 3
      → Keeps Anything
          (Modest most)
          (λ s eflag'. sub32 11 eflag' ≤ 4 + most)
          tt
          (receive_result eflag msg)
  unfolding receive_result ◌>>=◌
  receive_result-Keeps eflag msg h = (
    tt,
    λ u s h1. (
      tt,
      λ (r, sender_tid, msg') s2 told.
          Keeps-if Anything (Modest most) _ s2 (is_ok r) _ _
            (λ _. (tt, λ tid s3 h3. ground (arith, h, told))) (λ _. ground (arith, h)),
    ),
  )

  run_tests-Keeps :
      (msg : ℕ → ℕ)
      → Keeps Anything (Modest most) (λ s eflag'. sub32 11 eflag' ≤ 4 + most) tt (run_tests msg)
  unfolding run_tests ◌>>=◌
  run_tests-Keeps msg = (
    tt,
    λ r s h.
        Keeps-bind Anything (Modest most) (λ s (eflag', msg'). eflag' ≤ 3)
          (λ s eflag. sub32 11 eflag ≤ 4 + most) s _ (λ (eflag, msg2). receive_result eflag msg2)
          (Keeps-if Anything (Modest most) _ s (is_ok r)
            (receive_commands 2 0 (registration 99 msg)) (done (3, registration 99 msg))
            (λ _. receive_commands-Keeps 2 0 (registration 99 msg) (omega arith))
            (λ _. omega arith))
          (λ s1 (eflag, msg1) few. receive_result-Keeps eflag msg1 few),
  )

  utask1-Keeps : Keeps Anything (Modest most) (λ s score. score ≤ 4 + most) tt utask1
  unfolding utask1 ◌>>=◌
  utask1-Keeps = (
    tt,
    λ my_tid s h. (
      tt,
      λ u s1 h1. (
        tt,
        λ created s2 h2.
            Keeps-bind Anything (Modest most) (λ s eflag. sub32 11 eflag ≤ 4 + most) _ s2 _ _
              (Keeps-if Anything (Modest most) _ s2 (is_ok created) _ _
                (λ _. (
                  tt,
                  λ (address, msg) s3 h3.
                      Keeps-if Anything (Modest most) _ s3 (address == 0) _ _ (λ _. ground arith)
                        (λ _. run_tests-Keeps msg),
                ))
                (λ _. ground arith))
              (λ s3 eflag fine. fine),
      ),
    ),
  )

-- Whatever task 1 is told, if no message that it takes says that task 2 passed more than `most` tests,
-- the number it prints is not negative and at most `4 + most`: at most the 11 it prints beside it where
-- task 2 has 7 tests.
pub utask1-score : (most score : ℕ) → Ends (Modest most) tt utask1 tt score → score ≤ 4 + most
utask1-score most score run =
    Keeps-Ends Anything (Modest most) _ tt tt utask1 score (utask1-Keeps most) run
