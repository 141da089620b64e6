-- ===== src/Trials/Greeting/Tests.antt =====
-- What the two tasks send, whatever is in the new block.
use preemptive_multi_tasked.Prelude.{ℕ, zero, suc, ◌+◌, ◌≡◌, refl, List, [], ◌∷◌, ◌==◌}
use preemptive_multi_tasked.Msg.{load32}
use preemptive_multi_tasked.Trials.Calls.{Op, Reply, send_msg, ◌>>=◌}
use preemptive_multi_tasked.Trials.Calls.Contract.{Keeps, Keeps-if}
use preemptive_multi_tasked.Trials.Greeting.{msg_tsk1, msg_tsk2, copy_text, text}

abbrev bytes_from : (rounds p : ℕ) → (ℕ → ℕ) → List ℕ
bytes_from zero p msg = []
bytes_from (suc rounds) p msg = msg p ∷ bytes_from rounds (p + 1) msg

abbrev SendsText : Unit {0} → Op → Type 0
SendsText s (send_msg receiver_tid msg) =
    (receiver_tid ≡ 1) × (load32 msg 0 ≡ 28) × (load32 msg 4 ≡ 0) × (bytes_from 20 8 msg ≡ text)
SendsText s o = Unit {0}

abbrev Registers : Unit {0} → Op → Type 0
Registers s (send_msg receiver_tid msg) =
    (receiver_tid ≡ 159) × (load32 msg 0 ≡ 9) × (load32 msg 4 ≡ 1) × (msg 8 ≡ 99)
Registers s o = Unit {0}

abbrev AnyReply : Unit {0} → (o : Op) → Reply o → Unit {0} → Type 0
AnyReply s o r s' = Unit {0}

msg_tsk2-Keeps : Keeps SendsText AnyReply (λ s o. Unit {0}) tt msg_tsk2
unfolding msg_tsk2 ◌>>=◌ copy_text
msg_tsk2-Keeps = (
  tt,
  λ (address, msg) s h.
      Keeps-if SendsText AnyReply _ s (address == 0) _ _ (λ _. tt)
        (λ _. ((refl, refl, refl, refl), λ r s1 h1. tt)),
)

msg_tsk1-Keeps : Keeps Registers AnyReply (λ s o. Unit {0}) tt msg_tsk1
unfolding msg_tsk1 ◌>>=◌
msg_tsk1-Keeps = (
  tt,
  λ (address, msg) s h.
      Keeps-if Registers AnyReply _ s (address == 0) _ _ (λ _. tt)
        (λ _. ((refl, refl, refl, refl), λ r s1 h1. tt)),
)
