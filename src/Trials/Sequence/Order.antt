-- ===== src/Trials/Sequence/Order.antt =====
-- The numbers in the mailbox of task 1, under any schedule of the two tasks of TEST == 3.
mod Tests
use preemptive_multi_tasked.Prelude.{
  ℕ, ◌+◌, ◌^◌, ◌≤◌, ◌<◌, ◌≡◌, ◌≢◌, ◌⊎◌, inl, inr, refl, ap, sym, ◌∙◌, subst, Bool, true, false,
  ◌==◌, arith, add32, List, [], ◌∷◌, ◌++◌, if◌then◌else◌,
}
use preemptive_multi_tasked.Mem.{Rtx, rtx_ok, rtx_err}
use preemptive_multi_tasked.Msg.{load32}
use preemptive_multi_tasked.Trials.Calls.{
  Op, Reply, Calls, done, call, tsk_get_tid, mbx_create, mem_alloc, send_msg, recv_msg,
  tsk_set_prio, tsk_yield, read, write, Global, utid1, utid2, turn, sflag,
}
use preemptive_multi_tasked.Trials.Calls.Contract.{Keeps}
use preemptive_multi_tasked.Trials.Sequence.{Ending, not_sequential}
use preemptive_multi_tasked.Trials.Sequence.System.{
  Shared, Told, Both, Step, first_calls, second_calls, Reach, here, later, start,
}
use preemptive_multi_tasked.Trials.Sequence.Receiver.{Receives, Received, InSequence, utask1-Keeps}
use preemptive_multi_tasked.Trials.Sequence.Sender.{IsNumbered, Sends, Sent, Ended, utask2-Keeps}

-- The messages have the numbers from `e` on, and `w` is the next one.
abbrev pub Numbered : (e : ℕ) → List (ℕ → ℕ) → (w : ℕ) → Type 0
Numbered e [] w = e ≡ w
Numbered e (m ∷ q) w = IsNumbered e m × Numbered (add32 e 1) q w

Numbered-append :
    (e : ℕ) (q : List (ℕ → ℕ)) (w : ℕ) (m : ℕ → ℕ)
    → Numbered e q w
    → IsNumbered w m
    → Numbered e (q ++ m ∷ []) (add32 w 1)
Numbered-append e [] w m h n = rw h (n, refl)
Numbered-append e (x ∷ q) w m h n = (h.0, Numbered-append (add32 e 1) q w m h.1 n)

-- The variable has not been written, or has the id of task 1.
abbrev Known : ℕ → Shared → Type 0
Known me s = (s.tid ≡ 0) ⊎ (s.tid ≡ me)

number_of :
    (m msg' : ℕ → ℕ) (e : ℕ)
    → IsNumbered e m
    → ((i : ℕ) → i < load32 m 0 → msg' i ≡ m i)
    → load32 msg' 8 ≡ e
number_of m msg' e (twelve, number) same = omega (
  arith,
  number,
  same 8 (omega (arith, twelve)),
  same 9 (omega (arith, twelve)),
  same 10 (omega (arith, twelve)),
  same 11 (omega (arith, twelve)),
)

-- The messages in the queue have the numbers from `e` to `w`.
record Queued (me e w : ℕ) (s : Shared) : Type 0 where
  numbers : Numbered e s.queue w
  known : Known me s

-- What task 1 is told by the system, which keeps the queue in order.
Told-Received :
    (me e w : ℕ) (o : Op) (r : Reply o) (s s' : Shared)
    → Told me s o r s'
    → Receives me e o
    → Queued me e w s
    → (e' : ℕ) × Received me e o r e' × Queued me e' w s'
Told-Received me e w tsk_get_tid r s s' (mine, same) ask h = (e, (mine, refl), rw same h)
Told-Received me e w (mbx_create size) r s s' same ask h = (e, refl, rw same h)
Told-Received me e w (mem_alloc size) r s s' same ask h = (e, refl, rw same h)
Told-Received me e w (recv_msg msg len) (r, sender, msg') s s' (m, rest, queue, same, outcome) ask
      h =
    let numbers = subst (λ q. Numbered e q w) queue h.numbers in
    (
      add32 e 1,
      (
        elim outcome [
          | inl (ok, whole, copied) ↦ inl (ok, number_of m msg' e numbers.0 copied)
          | inr (bad, short) ↦ inr (bad, omega (arith, short, numbers.0.0))
        ],
        refl,
      ),
      rw same (record { numbers = numbers.1; known = h.known }),
    )
Told-Received me e w (send_msg receiver_tid msg) r s s' same ask h = elim ask [ ]
Told-Received me e w (tsk_set_prio task_id prio) r s s' same ask h = (e, refl, rw same h)
Told-Received me e w tsk_yield r s s' same ask h = (e, refl, rw same h)
Told-Received me e w (read utid1) r s s' (value, same) ask h = (e, refl, rw same h)
Told-Received me e w (read utid2) r s s' same ask h = (e, refl, rw same h)
Told-Received me e w (read turn) r s s' same ask h = (e, refl, rw same h)
Told-Received me e w (read sflag) r s s' same ask h = (e, refl, rw same h)
Told-Received me e w (write utid1 v) r s s' same ask h =
    (e, refl, rw same (record { numbers = h.numbers; known = inr ask }))
Told-Received me e w (write utid2 v) r s s' same ask h = (e, refl, rw same h)
Told-Received me e w (write turn v) r s s' same ask h = (e, refl, rw same h)
Told-Received me e w (write sflag v) r s s' same ask h = (e, refl, rw same h)

-- What task 2 is told: a message that is sent goes behind the others.
Told-Sent :
    (me e w : ℕ) (o : Op) (r : Reply o) (s s' : Shared)
    → Told me s o r s'
    → Sends me w o
    → Queued me e w s
    → (w' : ℕ) × Sent me w o r w' × Queued me e w' s'
Told-Sent me e w (send_msg receiver_tid msg) r s s' told ask h =
    let there : (receiver_tid == me) ≡ true = ground (arith, ask.0) in
    elim told [
      | inl (ok, sent) ↦ (
        add32 w 1,
        inl (ok, refl),
        rw (sent, there)
            (record { numbers = Numbered-append e s.queue w msg h.numbers ask.1; known = h.known }),
      )
      | inr (bad, same) ↦ (w, inr (bad, refl), rw same h)
    ]
Told-Sent me e w (read utid1) r s s' (value, same) ask h = (w, (rw value h.known, refl), rw same h)
Told-Sent me e w (recv_msg msg len) r s s' told ask h = elim ask [ ]
Told-Sent me e w (write utid1 v) r s s' same ask h = elim ask [ ]
Told-Sent me e w tsk_get_tid r s s' (mine, same) ask h = (w, refl, rw same h)
Told-Sent me e w (mbx_create size) r s s' same ask h = (w, refl, rw same h)
Told-Sent me e w (mem_alloc size) r s s' same ask h = (w, refl, rw same h)
Told-Sent me e w (tsk_set_prio task_id prio) r s s' same ask h = (w, refl, rw same h)
Told-Sent me e w tsk_yield r s s' same ask h = (w, refl, rw same h)
Told-Sent me e w (read utid2) r s s' same ask h = (w, refl, rw same h)
Told-Sent me e w (read turn) r s s' same ask h = (w, refl, rw same h)
Told-Sent me e w (read sflag) r s s' same ask h = (w, refl, rw same h)
Told-Sent me e w (write utid2 v) r s s' same ask h = (w, refl, rw same h)
Told-Sent me e w (write turn v) r s s' same ask h = (w, refl, rw same h)
Told-Sent me e w (write sflag v) r s s' same ask h = (w, refl, rw same h)

-- Between two calls: task 1 expects `e`, task 2 sends `w` next, and the queue has what is between.
record InOrder (me : ℕ) (b : Both) : Type 0 where
  expected : ℕ
  unsent : ℕ
  one : Keeps (Receives me) (Received me) (InSequence me) expected b.first
  two : Keeps (Sends me) (Sent me) (Ended me) unsent b.second
  queued : Queued me expected unsent b.shared

Step-InOrder : (me : ℕ) (b c : Both) → Step me b c → InOrder me b → InOrder me c
Step-InOrder me b c (first_calls o k r s at told) h =
    let kept = subst (Keeps (Receives me) (Received me) (InSequence me) h.expected) at h.one in
    let (e', heard, queued) =
      Told-Received me h.expected h.unsent o r b.shared s told kept.0 h.queued in
    record {
      expected = e';
      unsent = h.unsent;
      one = kept.1 r e' heard;
      two = h.two;
      queued = queued;
    }
Step-InOrder me b c (second_calls o k r s at told) h =
    let kept = subst (Keeps (Sends me) (Sent me) (Ended me) h.unsent) at h.two in
    let (w', heard, queued) =
      Told-Sent me h.expected h.unsent o r b.shared s told kept.0 h.queued in
    record {
      expected = h.expected;
      unsent = w';
      one = h.one;
      two = kept.1 r w' heard;
      queued = queued;
    }

Reach-InOrder : (me : ℕ) (b c : Both) → Reach me b c → InOrder me b → InOrder me c
Reach-InOrder me b c here h = h
Reach-InOrder me b c (later {c = d} way step) h =
    Step-InOrder me d c step (Reach-InOrder me b d way h)

-- The two tasks start with an empty mailbox, task 2 with any `fuel` for the loop that fills it, and
-- their calls come in any order, as long as `recv_msg` waits for a message, messages leave the mailbox
-- in the order they came, and one that is too long for the buffer is lost. Then task 1 never ends with
-- a message that is out of sequence: that one in two messages is too long does not upset its count.
pub Reach-not_sequential :
    (me fuel : ℕ) (b : Both) (ending : Ending) (passed : ℕ)
    → Reach me (start fuel) b
    → b.first ≡ done (ending, passed)
    → ending ≢ not_sequential
Reach-not_sequential me fuel b ending passed way at =
    let h = Reach-InOrder me (start fuel) b way (record {
      expected = 0;
      unsent = 0;
      one = utask1-Keeps me;
      two = utask2-Keeps me fuel;
      queued = record { numbers = refl; known = inl refl };
    }) in
    subst (Keeps (Receives me) (Received me) (InSequence me) h.expected) at h.one
