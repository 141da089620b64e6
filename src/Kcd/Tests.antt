-- ===== src/Kcd/Tests.antt =====
-- Runs of RTX/src/app/kcd_task.c: the line `%W1`, which task 4 takes, and a registration in the buffer.
use preemptive_multi_tasked.Prelude.{
  ℕ, ◌≡◌, ◌≢◌, ◌<◌, ◌+◌, refl, inr, [], ◌∷◌, ◌==◌, if◌then◌else◌, none, some, false, arith, update,
}
use preemptive_multi_tasked.Mem.{
  Mem, k_mem_alloc, k_mem_dealloc, alloc_loop, claim, split, relink, max_blocks, dealloc_front,
}
use preemptive_multi_tasked.Fifo.{no_nodes}
use preemptive_multi_tasked.Fifo.Queue.{IsQueue}
use preemptive_multi_tasked.Task.{
  running, blk_msg, returns, is_blocked, set_state, insert_into_tasks, k_tsk_run_new,
}
use preemptive_multi_tasked.Msg.{Post, deallocate_msg}
use preemptive_multi_tasked.Msg.Send.{Delivered}
use preemptive_multi_tasked.Samples.{two_cells, two_free, two_waiting, some_tcbs}
use preemptive_multi_tasked.Kcd.{
  Kcd, Task, silent, is_alphanumeric, kcd_key, copy_line, line_message, kcd_message, handles,
  kcd_round,
}
use preemptive_multi_tasked.Kcd.Line.{char_at}
use preemptive_multi_tasked.Kcd.Command.{typed, ready_line, kcd_message-Delivered}
use preemptive_multi_tasked.Kcd.Stale.{kcd_round-takes_over}

abbrev no_commands : Kcd
no_commands = record { cmd_ids = λ _. 0; input_buf = λ _. 0; tail = 0 }

abbrev of_task_4 : Kcd
of_task_4 = record no_commands { cmd_ids = λ _. 4 }

-- The buffer of the decoder is at 600, with Enter in it; every task has the mailbox at 9000.
abbrev entered : Post
entered = record {
  sched = record (two_waiting running) {
    tcbs = λ t. record (some_tcbs running t) { mailbox = 9000 };
  };
  mem = two_free;
  store = record {
    mailboxes = λ _. record { queue = no_nodes; curr_size = 16; max_size = 200 };
    nodes = λ _. record { buf = 0; sender_tid = 0 };
    next = λ _. none;
    bytes = λ a. if a == 600 then 9 else if a == 604 then 4 else if a == 608 then 13 else 0;
  };
  interrupt_flag = false;
}

abbrev waiting_task : Task
waiting_task = record { kcd = typed 87 (49 ∷ []) of_task_4; buf = 600; tid_at = 700; tid_reg = 255 }

abbrev first : (m : Mem) × (k_mem_alloc 1 10 two_free ≡ some (4112, m))
unfolding k_mem_alloc alloc_loop max_blocks claim split relink
first = (_, refl)

abbrev second : (m : Mem) × (k_mem_alloc 1 12 first.0 ≡ some (4144, m))
unfolding k_mem_alloc alloc_loop max_blocks claim split relink
second = (_, refl)

abbrev third : (m : Mem) × (k_mem_alloc 1 10 second.0 ≡ some (8208, m))
unfolding k_mem_alloc alloc_loop max_blocks claim split relink
third = (_, refl)

no_nodes-IsQueue : IsQueue (λ _. none) no_nodes []
no_nodes-IsQueue = record { links = refl; tail = refl; distinct = tt }

-- Task 4 waits for a message.
abbrev called : Post
called = record entered { sched = set_state 4 blk_msg entered.sched }

kcd_message-Delivered_example :
    (k' : Post) × (kcd_message waiting_task called
      ≡ returns (
        silent,
        record waiting_task { kcd = record (typed 87 (49 ∷ []) of_task_4) { tail = 0 } },
        k',
      ))
    × Delivered 4 4112 4144 8208 []
        (ready_line 4112 (typed 87 (49 ∷ []) of_task_4) first.0 called)
        k'
    × ((i : ℕ) → i < 2 → k'.store.bytes (8208 + (8 + i)) ≡ char_at (87 ∷ 49 ∷ []) i)
    × (k'.mem ≡ third.0)
    × (k'.sched ≡ (
        if is_blocked (called.sched.tcbs 4).state
        then (k_tsk_run_new (insert_into_tasks 4 called.sched)).1
        else called.sched))
    × ((k'.sched.tcbs 4).state ≢ blk_msg)
unfolding kcd_key line_message copy_line is_alphanumeric
kcd_message-Delivered_example =
    kcd_message-Delivered 87 (49 ∷ []) of_task_4 refl (omega arith) waiting_task called 4112 4144
      8208 first.0 second.0 third.0 [] refl (omega arith) refl refl refl (omega arith) refl first.1
      second.1 third.1 (omega arith) (omega arith) (omega arith) refl no_nodes-IsQueue tt
      (inr (omega arith))

-- The message of task 7 at 4216 has 80 bytes; its node and its bytes lie before the first free block.
abbrev full_mem : Mem
full_mem = record two_free {
  head = 8192;
  cell =
      update (update two_cells 4200 (record (two_cells 0) { size = 80 })) 4096
        (record (two_cells 0) { size = 16 });
}

abbrev long_message : Post
long_message = record entered {
  mem = full_mem;
  store = record entered.store {
    mailboxes = λ _. record {
      queue = record { head = some 4112; tail = some 4112 };
      curr_size = 96;
      max_size = 512;
    };
    nodes = λ _. record { buf = 4216; sender_tid = 7 };
    bytes = λ a.
        if a == 4216
        then 80
        else if a == 600
        then 9
        else if a == 604
        then 1
        else if a == 608
        then 87
        else 0;
  };
}

long_message-IsQueue :
    IsQueue long_message.store.next (long_message.store.mailboxes 9000).queue (4112 ∷ [])
long_message-IsQueue = record { links = (refl, refl); tail = refl; distinct = (tt, tt) }

freed : (m : Mem) × (deallocate_msg 4112 long_message.store long_message.mem ≡ some m)
unfolding deallocate_msg k_mem_dealloc dealloc_front
freed = (_, refl)

kcd_round-takes_over_example :
    (t' : Task) × (k' : Post) × (kcd_round waiting_task long_message
      ≡ handles (returns (silent, t', k')))
    × (t'.kcd.cmd_ids 87 ≡ 7)
kcd_round-takes_over_example =
    kcd_round-takes_over waiting_task long_message 9000 4112 [] freed.0 refl (omega arith)
      long_message-IsQueue freed.1 (omega arith) (omega arith) (omega arith) refl refl
