-- ===== src/Msg/Tests.antt =====
-- Runs of RTX/src/kernel/k_msg.c on a mailbox with one message.
use preemptive_multi_tasked.Prelude.{
  ℕ, ◌≡◌, ◌≢◌, inl, inr, refl, [], ◌∷◌, ◌==◌, if◌then◌else◌, none, some, false, arith, ◌<◌, ◌+◌,
  update,
}
use preemptive_multi_tasked.Mem.{rtx_ok, rtx_err, Mem, k_mem_alloc, k_mem_dealloc, dealloc_front}
use preemptive_multi_tasked.Mem.Blocks.{block}
use preemptive_multi_tasked.Mem.Chain.{Holds}
use preemptive_multi_tasked.Mem.FirstFit.{k_mem_alloc-Allocates}
use preemptive_multi_tasked.Fifo.Queue.{IsQueue}
use preemptive_multi_tasked.Task.{
  running, blk_msg, returns, null_deref, set_state, k_tsk_run_new, is_blocked, insert_into_tasks,
}
use preemptive_multi_tasked.Task.Ready.{Outside}
use preemptive_multi_tasked.Task.Retrieve.{pop_task}
use preemptive_multi_tasked.Task.Schedule.{IsScheduled, Switched}
use preemptive_multi_tasked.Samples.{
  two_cells, two_free, two_blocks, two_free-Holds, some_tcbs, two_waiting, two_queues,
  two_waiting-IsReady, two_waiting-Exact,
}
use preemptive_multi_tasked.Msg.{
  Post, k_send_msg, deallocate_msg, k_recv_msg, k_recv_msg_nb, waits, goes_on,
}
use preemptive_multi_tasked.Msg.Send.{Delivered, k_send_msg-Delivered, k_send_msg-null_deref}
use preemptive_multi_tasked.Msg.Receive.{
  Taken, k_recv_msg-Taken, k_recv_msg_nb-shorter, k_recv_msg-waits,
}

-- All tasks share the mailbox at 9000; the message to be sent is at 100, and has 16 bytes.
abbrev empty_post : Post
empty_post = record {
  sched = record (two_waiting running) {
    tcbs = λ t. record (some_tcbs running t) { mailbox = 9000 };
  };
  mem = two_free;
  store = record {
    mailboxes =
        λ _. record { queue = record { head = none; tail = none }; curr_size = 16; max_size = 200 };
    nodes = λ _. record { buf = 6016; sender_tid = 7 };
    next = λ _. none;
    bytes = λ a. if a == 100 then 16 else if a == 6016 then 9 else 0;
  };
  interrupt_flag = false;
}

first_alloc :
    (m' : Mem) × (k_mem_alloc 1 12 two_free ≡ some (4096 + 16, m'))
    × Holds m' (block 4128 32 ∷ block 8192 128 ∷ [])
    × ((m'.cell 4096).tid ≡ 1)
    × ((m'.cell 4096).size ≡ 16)
first_alloc =
    k_mem_alloc-Allocates 1 12 two_free two_blocks two_free-Holds (omega arith) (omega arith)

second_alloc :
    (m' : Mem) × (k_mem_alloc 1 16 first_alloc.0 ≡ some (4128 + 16, m'))
    × Holds m' (block 8192 128 ∷ [])
    × ((m'.cell 4128).tid ≡ 1)
    × ((m'.cell 4128).size ≡ 32)
second_alloc =
    k_mem_alloc-Allocates 1 16 first_alloc.0 (block 4128 32 ∷ block 8192 128 ∷ []) first_alloc.2
      (omega arith) (omega arith)

-- Task 4 waits for a message.
abbrev called_post : Post
called_post = record empty_post { sched = set_state 4 blk_msg empty_post.sched }

k_send_msg-Delivered_example :
    (k' : Post) × (k_send_msg 4 100 called_post ≡ returns (rtx_ok, k'))
    × Delivered 4 100 4112 4144 [] called_post k'
    × (k'.mem ≡ second_alloc.0)
    × (k'.interrupt_flag ≡ false)
    × (k'.sched ≡ (
        if is_blocked (called_post.sched.tcbs 4).state
        then (k_tsk_run_new (insert_into_tasks 4 called_post.sched)).1
        else called_post.sched))
    × ((k'.sched.tcbs 4).state ≢ blk_msg)
k_send_msg-Delivered_example =
    k_send_msg-Delivered 4 100 4112 4144 [] called_post
      (record { links = refl; tail = refl; distinct = tt }) tt (inr (omega arith, omega arith))
      first_alloc.0 second_alloc.0 refl first_alloc.1 second_alloc.1 (omega arith) (omega arith)

-- No block is free.
abbrev full_post : Post
full_post = record empty_post { mem = record two_free { head = 0 } }

k_send_msg-null_deref_example : k_send_msg 2 100 full_post ≡ null_deref
k_send_msg-null_deref_example =
    k_send_msg-null_deref 2 100 full_post [] (record { chain = refl; laid = tt }) refl (omega arith)
      (inl refl)

empty_post-IsScheduled : IsScheduled empty_post.sched two_queues
empty_post-IsScheduled = record {
  started = refl;
  queues = record {
    queue = (two_waiting-IsReady running).queue;
    prio = (two_waiting-IsReady running).prio;
    state = (two_waiting-IsReady running).state;
  };
  exact = record {
    above = (two_waiting-Exact running).above;
    top = (two_waiting-Exact running).top;
    bound = omega arith;
    range = (two_waiting-Exact running).range;
  };
  apart = ground arith;
  small = omega arith;
}

k_recv_msg-waits_example :
    let r = k_tsk_run_new (set_state 1 blk_msg empty_post.sched) in
    (k_recv_msg 500 64 empty_post ≡ waits (record empty_post { sched = r.1 }))
    × Switched
        (set_state 1 blk_msg empty_post.sched)
        2
        (pop_task empty_post.sched (3 ∷ []) two_queues)
        r
    × ((r.1.tcbs 1).state ≡ blk_msg)
    × Outside 1 (pop_task empty_post.sched (3 ∷ []) two_queues)
k_recv_msg-waits_example =
    k_recv_msg-waits 500 64 empty_post two_queues 2 (3 ∷ []) empty_post-IsScheduled refl
      (ground arith) refl

-- A message of nine bytes at 4216, whose node at 4112 is the only one in the mailbox. Both blocks
-- lie before the first free one.
abbrev full_mem : Mem
full_mem = record two_free {
  head = 8192;
  cell =
      update (update two_cells 4200 (record (two_cells 0) { size = 40 })) 4096
        (record (two_cells 0) { size = 16 });
}

abbrev one_post : Post
one_post = record empty_post {
  mem = full_mem;
  store = record empty_post.store {
    mailboxes = λ _. record {
      queue = record { head = some 4112; tail = some 4112 };
      curr_size = 25;
      max_size = 200;
    };
    nodes = λ _. record { buf = 4216; sender_tid = 7 };
    bytes = λ a. if a == 4216 then 9 else 0;
  };
}

one_post-IsQueue : IsQueue one_post.store.next (one_post.store.mailboxes 9000).queue (4112 ∷ [])
one_post-IsQueue = record { links = (refl, refl); tail = refl; distinct = (tt, tt) }

freed : (m : Mem) × (deallocate_msg 4112 one_post.store one_post.mem ≡ some m)
unfolding deallocate_msg k_mem_dealloc dealloc_front
freed = (_, refl)

k_recv_msg-Taken_example :
    (k' : Post) × (k_recv_msg 500 64 one_post ≡ goes_on (returns (rtx_ok, some 7, k')))
    × Taken 9000 9 [] one_post k'
    × ((i : ℕ) → i < 9 → k'.store.bytes (500 + i) ≡ one_post.store.bytes (4216 + i))
    × (k'.mem ≡ freed.0)
    × (k'.sched ≡ one_post.sched)
k_recv_msg-Taken_example =
    k_recv_msg-Taken 9000 500 64 4112 [] one_post freed.0 one_post-IsQueue freed.1 refl
      (ground arith) (ground arith) (omega arith) (inl (omega arith))

k_recv_msg_nb-shorter_example :
    (k' : Post) × (k_recv_msg_nb 500 64 one_post ≡ returns (rtx_err, none, k'))
    × Taken 9000 21 [] one_post k'
    × (k'.store.bytes ≡ one_post.store.bytes)
k_recv_msg_nb-shorter_example =
    k_recv_msg_nb-shorter 9000 500 64 4112 [] one_post freed.0 one_post-IsQueue freed.1 refl
      (ground arith) (ground arith) (omega arith)
