-- ===== src/Msg/Exchange/Tests.antt =====
-- A message of eight bytes from task 1 to task 2 and back out of the mailbox.
use preemptive_multi_tasked.Prelude.{
  ℕ, ◌≡◌, ◌<◌, ◌+◌, refl, inl, inr, [], ◌==◌, if◌then◌else◌, none, some, false, arith,
}
use preemptive_multi_tasked.Mem.{
  Mem, rtx_ok, k_mem_alloc, k_mem_dealloc, alloc_loop, claim, split, relink, max_blocks,
  dealloc_front,
}
use preemptive_multi_tasked.Fifo.{no_nodes, enqueue}
use preemptive_multi_tasked.Fifo.Queue.{IsQueue}
use preemptive_multi_tasked.Task.{running, returns}
use preemptive_multi_tasked.Msg.{Post, wake, k_send_msg, deliver, deallocate_msg, recv_rest}
use preemptive_multi_tasked.Msg.Exchange.{recv_rest-k_send_msg}
use preemptive_multi_tasked.Samples.{two_free, two_waiting, some_tcbs}

-- All tasks share the mailbox at 9000; the message is at 100.
abbrev idle : Post
idle = record {
  sched = record (two_waiting running) {
    tcbs = λ t. record (some_tcbs running t) { mailbox = 9000 };
  };
  mem = two_free;
  store = record {
    mailboxes = λ _. record { queue = no_nodes; curr_size = 16; max_size = 200 };
    nodes = λ _. record { buf = 0; sender_tid = 0 };
    next = λ _. none;
    bytes = λ a. if a == 100 then 8 else if a == 104 then 3 else 0;
  };
  interrupt_flag = false;
}

abbrev first : (m : Mem) × (k_mem_alloc 1 12 two_free ≡ some (4112, m))
unfolding k_mem_alloc alloc_loop max_blocks claim split relink
first = (_, refl)

abbrev second : (m : Mem) × (k_mem_alloc 1 8 first.0 ≡ some (4144, m))
unfolding k_mem_alloc alloc_loop max_blocks claim split relink
second = (_, refl)

abbrev sent : Post
sent = deliver 2 100 4112 4144 (record idle { mem = second.0 })

freed : (m : Mem) × (deallocate_msg 4112 sent.store second.0 ≡ some m)
unfolding deliver enqueue deallocate_msg k_mem_dealloc dealloc_front second
freed = (_, refl)

-- Task 2 runs.
abbrev later : Post
later = record sent { sched = record idle.sched { current = 2 }; mem = second.0 }

recv_rest-k_send_msg_example :
    (k_send_msg 2 100 idle ≡ returns (rtx_ok, wake 2 sent))
    × ((k2 : Post) × (recv_rest 9000 300 64 later ≡ returns (rtx_ok, some 1, k2))
        × ((i : ℕ) → i < 8 → k2.store.bytes (300 + i) ≡ idle.store.bytes (100 + i))
        × IsQueue k2.store.next (k2.store.mailboxes 9000).queue []
        × ((k2.store.mailboxes 9000).curr_size ≡ 16))
recv_rest-k_send_msg_example =
    recv_rest-k_send_msg 2 100 4112 4144 idle first.0 second.0 refl first.1 second.1 (omega arith)
      (omega arith) (record { links = refl; tail = refl; distinct = tt }) (omega arith)
      (inr (omega arith)) later freed.0 300 64 refl freed.1 (omega arith) (omega arith)
      (inl (omega arith)) (omega arith) (omega arith)
