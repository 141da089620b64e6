-- ===== src/Kcd/Command.antt =====
-- A line of RTX/src/app/kcd_task.c from its keys to the mailbox of the task that takes it.
use preemptive_multi_tasked.Prelude.{
  ℕ, ◌+◌, ◌-◌, ◌≤◌, ◌<◌, ◌≡◌, ◌≢◌, ◌⊎◌, refl, ap, ◌∙◌, true, false, if◌then◌else◌, List, [], ◌∷◌,
  some, arith, length,
}
use preemptive_multi_tasked.Mem.{rtx_ok, Mem, k_mem_alloc}
use preemptive_multi_tasked.Fifo.Queue.{IsQueue, Fresh}
use preemptive_multi_tasked.Task.{returns, blk_msg, is_blocked, insert_into_tasks, k_tsk_run_new}
use preemptive_multi_tasked.Msg.{Post, load32, is_dormant, send_refused, k_send_msg}
use preemptive_multi_tasked.Msg.Send.{Delivered, k_send_msg-Delivered}
use preemptive_multi_tasked.Kcd.{
  Kcd, Task, silent, is_alphanumeric, kcd_key, limit_of, line_message, invalid_line,
  unknown_command, send_line, kcd_enter, with_kcd, kcd_message,
}
use preemptive_multi_tasked.Kcd.Line.{
  kcd_keys, char_at, char_at_pos, kcd_keys-input_buf, line_message-bytes,
}

kcd_keys-cmd_ids : (cs : List ℕ) (d : Kcd) → (kcd_keys cs d).cmd_ids ≡ d.cmd_ids
unfolding kcd_key
kcd_keys-cmd_ids [] d = refl
kcd_keys-cmd_ids (c ∷ cs) d = kcd_keys-cmd_ids cs (kcd_key c d)

-- The decoder after the keys `%`, `c` and `cs`.
abbrev pub typed : (c : ℕ) (cs : List ℕ) → Kcd → Kcd
typed c cs d = kcd_keys (37 ∷ c ∷ cs) d

-- The kernel with the message for the line at `p`, before it is sent.
abbrev pub ready_line : (p : ℕ) (d : Kcd) (m : Mem) → Post → Post
ready_line p d m k = record k {
  mem = m;
  store = record k.store { bytes = line_message p d k.store.bytes };
}

kcd_message-enter :
    (t : Task) (k : Post)
    → t.buf ≢ 0
    → load32 k.store.bytes (t.buf + 4) ≡ 4
    → k.store.bytes (t.buf + 8) ≡ 13
    → kcd_message t k ≡ with_kcd t (kcd_enter t.kcd k)
unfolding kcd_message
kcd_message-enter t k n type enter = ground (arith, type, enter)

kcd_enter-sends :
    (d : Kcd) (p : ℕ) (k k' : Post) (m : Mem)
    → invalid_line d ≡ false
    → unknown_command d k ≡ false
    → k_mem_alloc (k.sched.tcbs k.sched.current).tid (8 + limit_of d - 1) k.mem ≡ some (p, m)
    → p ≢ 0
    → k_send_msg (d.cmd_ids (d.input_buf 1)) p (ready_line p d m k) ≡ returns (rtx_ok, k')
    → kcd_enter d k ≡ returns (silent, record d { tail = 0 }, k')
unfolding kcd_enter send_line
kcd_enter-sends d p k k' m valid known first n sent =
    rw (valid, known, first) (ground (arith, sent))

module _ (c : ℕ) (cs : List ℕ) (d : Kcd) (empty : d.tail ≡ 0) (short : 2 + length cs ≤ 64) where
  room : d.tail + length (37 ∷ c ∷ cs) ≤ 64
  room = ground (arith, empty)

  key_at : (i : ℕ) → i < 2 + length cs → (typed c cs d).input_buf i ≡ char_at (37 ∷ c ∷ cs) i
  key_at i h =
      let back : i - 0 ≡ i = omega arith in
      ground (
        arith,
        (kcd_keys-input_buf (37 ∷ c ∷ cs) d i room).1,
        ap (char_at (37 ∷ c ∷ cs)) back,
        empty,
      )

  key_after : (i : ℕ) → i < 1 + length cs → (typed c cs d).input_buf (i + 1) ≡ char_at (c ∷ cs) i
  key_after i h =
      key_at (i + 1) (omega arith)
      ∙ char_at_pos 37 (c ∷ cs) (i + 1) (omega arith)
      ∙ ap (char_at (c ∷ cs)) (omega arith)

  tail_eq : (typed c cs d).tail ≡ 2 + length cs
  tail_eq = ground (arith, empty, (kcd_keys-input_buf (37 ∷ c ∷ cs) d 0 room).0)

  limit_eq : limit_of (typed c cs d) ≡ 2 + length cs
  limit_eq = ground (arith, tail_eq)

  size_eq : 8 + limit_of (typed c cs d) - 1 ≡ 9 + length cs
  size_eq = omega (arith, limit_eq)

  line_bytes :
      (p i : ℕ) (k : Post)
      → i < 1 + length cs
      → line_message p (typed c cs d) k.store.bytes (p + (8 + i)) ≡ char_at (c ∷ cs) i
  line_bytes p i k h =
      ap (line_message p (typed c cs d) k.store.bytes) (omega arith)
      ∙ (line_message-bytes p (typed c cs d) k.store.bytes).2 i (omega (arith, limit_eq))
      ∙ key_after i h

  first_key : (typed c cs d).input_buf 0 ≡ 37
  first_key = key_at 0 (omega arith)

  command_key : (typed c cs d).input_buf 1 ≡ c
  command_key = key_at 1 (omega arith)

  valid : invalid_line (typed c cs d) ≡ false
  valid = ground (arith, tail_eq, first_key)

  module _ (t : Task) (k : Post) (p msg copy : ℕ) (m0 m1 m2 : Mem) (nodes : List ℕ)
      (line : t.kcd ≡ typed c cs d) (some_buf : t.buf ≢ 0)
      (type : load32 k.store.bytes (t.buf + 4) ≡ 4) (enter : k.store.bytes (t.buf + 8) ≡ 13)
      (letter : is_alphanumeric c ≡ true) (registered : d.cmd_ids c ≢ 0)
      (alive : is_dormant (k.sched.tcbs (d.cmd_ids c)).state ≡ false)
      (first : k_mem_alloc (k.sched.tcbs k.sched.current).tid (9 + length cs) k.mem ≡ some (p, m0))
      (second : k_mem_alloc (k.sched.tcbs k.sched.current).tid 12 m0 ≡ some (msg, m1))
      (third : k_mem_alloc (k.sched.tcbs k.sched.current).tid (9 + length cs) m1 ≡ some (copy, m2))
      (full : p ≢ 0) (full1 : msg ≢ 0) (full2 : copy ≢ 0)
      (accepted : send_refused (d.cmd_ids c) p (ready_line p (typed c cs d) m0 k) ≡ false)
      (q : IsQueue k.store.next
        (k.store.mailboxes (k.sched.tcbs (d.cmd_ids c)).mailbox).queue
        nodes)
      (fresh : Fresh msg nodes)
      (apart : (copy + 9 + length cs ≤ p) ⊎ (p + 9 + length cs ≤ copy)) where
    abbrev before : Post
    before = ready_line p (typed c cs d) m0 k

    message_length : load32 before.store.bytes p ≡ 9 + length cs
    message_length = (line_message-bytes p (typed c cs d) k.store.bytes).0 ∙ size_eq

    to_task : (typed c cs d).cmd_ids ((typed c cs d).input_buf 1) ≡ d.cmd_ids c
    to_task = rw command_key (ap (λ f. f c) (kcd_keys-cmd_ids (37 ∷ c ∷ cs) d))

    known : unknown_command (typed c cs d) k ≡ false
    known = ground (arith, to_task, command_key, letter, registered, alive)

    -- The line `%`, `c` and `cs` of at most 64 characters is typed from its start on, with the
    -- command `c`, a letter or a digit, registered to a task that is not dormant, and Enter is in the
    -- buffer of the decoder. If the three blocks of memory are to be had, the message is not refused,
    -- its node is not in the mailbox of the task yet and the copy does not overlap it, the line ends
    -- at the end of that mailbox, its size included, without the `%`; the line is empty again, and
    -- a task that waits for a message is made ready before the scheduler is called, which is not
    -- called otherwise: the task does not wait any more.
    pub kcd_message-Delivered :
        (k' : Post) × (kcd_message t k
          ≡ returns (silent, record t { kcd = record (typed c cs d) { tail = 0 } }, k'))
        × Delivered (d.cmd_ids c) p msg copy nodes before k'
        × ((i : ℕ) → i < 1 + length cs → k'.store.bytes (copy + (8 + i)) ≡ char_at (c ∷ cs) i)
        × (k'.mem ≡ m2)
        × (k'.sched ≡ (
            if is_blocked (k.sched.tcbs (d.cmd_ids c)).state
            then (k_tsk_run_new (insert_into_tasks (d.cmd_ids c) k.sched)).1
            else k.sched))
        × ((k'.sched.tcbs (d.cmd_ids c)).state ≢ blk_msg)
    kcd_message-Delivered =
        let (k', sent, there, mem, flag, sched, woken) =
          k_send_msg-Delivered (d.cmd_ids c) p msg copy nodes before q fresh
            (rw message_length (omega (arith, apart))) m1 m2 accepted second
            (rw message_length third) full1 full2 in
        (
          k',
          kcd_message-enter t k some_buf type enter
              ∙ ap (with_kcd t) (
                  ap (λ d1. kcd_enter d1 k) line
                  ∙ kcd_enter-sends (typed c cs d) p k k' m0 valid known (rw size_eq first) full
                      (rw to_task sent)),
          there,
          λ i h. there.bytes (8 + i) (omega (arith, message_length)) ∙ line_bytes p i k h,
          mem,
          sched,
          woken,
        )
