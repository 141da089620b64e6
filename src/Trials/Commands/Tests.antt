-- ===== src/Trials/Commands/Tests.antt =====
-- Task 1 is told what it expects, and task 2 too.
use preemptive_multi_tasked.Prelude.{
  ℕ, ◌≡◌, ◌≤◌, ◌+◌, refl, arith, List, [], ◌∷◌, Option, some, update,
}
use preemptive_multi_tasked.Mem.{rtx_ok}
use preemptive_multi_tasked.Trials.Calls.{◌>>=◌}
use preemptive_multi_tasked.Trials.Calls.Contract.{ended, told}
use preemptive_multi_tasked.Trials.Commands.{
  compare, receive_commands, receive_result, run_tests, utask1, wait_turn, check_commands,
  register_commands, send_result, utask2,
}
use preemptive_multi_tasked.Trials.Commands.Score.{utask1-score}
use preemptive_multi_tasked.Trials.Commands.Expected.{IsCommand}
use preemptive_multi_tasked.Trials.Commands.Passes.{utask1-all_passed, utask2-all_passed}

-- The command with this letter.
abbrev line : ℕ → ℕ → ℕ
line letter = update (update (update (update (update (λ _. 0) 0 12) 8 letter) 9 71) 10 84) 11 65

good : (letter : ℕ) → IsCommand letter (line letter)
good letter = (refl, refl, refl, refl, refl)

utask1-score_example : 13 ≤ 4 + 9
unfolding utask1 ◌>>=◌ run_tests receive_commands receive_result compare
utask1-score_example = utask1-score 9 13 (
    told 1 tt (
      told tt tt (
        told rtx_ok tt (
          told (4096, λ _. 0) tt
            (told rtx_ok tt (
              told (rtx_ok, 159, line 99) (omega arith)
                (told (rtx_ok, 159, line 99) (omega arith)
                  (told tt tt
                    (told (rtx_ok, 2, update (line 99) 8 9) (omega arith) (told 2 tt ended))))))))))

abbrev score1 : ℕ
score1 = 11

abbrev sent1 : List (ℕ × ℕ × ℕ × ℕ)
sent1 = (159, 9, 1, 99) ∷ []

utask1-all_passed_example : (score1 ≡ 11) × (sent1 ≡ sent1)
unfolding utask1 ◌>>=◌ run_tests receive_commands receive_result compare
utask1-all_passed_example = utask1-all_passed 1 2 score1 _ (
    told 1 refl (
      told tt refl (
        told rtx_ok (refl, refl)
          (told (4096, λ _. 0) (omega arith, refl)
            (told rtx_ok (refl, refl)
              (told (rtx_ok, 159, line 99) (refl, (refl, good 99), refl)
                (told (rtx_ok, 159, line 99) (refl, (refl, good 99), refl)
                  (told tt refl (
                    told (rtx_ok, 2, update (line 99) 8 7) (refl, (refl, refl), refl)
                      (told 2 (refl, refl) ended))))))))))

abbrev score2 : Option ℕ
score2 = some 7

abbrev sent2 : List (ℕ × ℕ × ℕ × ℕ)
sent2 = (159, 9, 1, 99) ∷ (159, 9, 1, 100) ∷ (1, 12, 0, 7) ∷ []

utask2-all_passed_example : (score2 ≡ some 7) × (sent2 ≡ sent2)
unfolding utask2 ◌>>=◌ wait_turn register_commands check_commands send_result compare
utask2-all_passed_example = utask2-all_passed 1 2 0 score2 _ (omega arith) (
    told 2 refl (
      told tt refl (
        told 2 (omega arith, refl)
          (told rtx_ok (refl, refl)
            (told (4096, λ _. 0) (omega arith, refl)
              (told rtx_ok (refl, refl)
                (told rtx_ok (refl, refl)
                  (told (rtx_ok, 159, line 99) (refl, (refl, good 99), refl)
                    (told (rtx_ok, 159, line 100) (refl, (refl, good 100), refl)
                      (told (rtx_ok, 159, line 99) (refl, (refl, good 99), refl)
                        (told (rtx_ok, 159, line 100) (refl, (refl, good 100), refl)
                          (told 1 (refl, refl)
                            (told rtx_ok (refl, refl) (told rtx_ok (refl, refl) ended))))))))))))))
