-- ===== src/Irq/Tests.antt =====
-- A key, and the interrupt of a timer, on a small system: task 1 runs, and the decoder waits.
use preemptive_multi_tasked.Prelude.{
  ℕ, ◌≡◌, refl, inr, [], ◌∷◌, ◌++◌, none, some, true, false, arith, update,
}
use preemptive_multi_tasked.Mem.{
  Mem, rtx_ok, k_mem_alloc, k_mem_dealloc, alloc_loop, claim, split, relink, max_blocks,
  dealloc_front,
}
use preemptive_multi_tasked.Fifo.{no_nodes}
use preemptive_multi_tasked.Fifo.Queue.{IsQueue}
use preemptive_multi_tasked.Task.{
  TaskState, running, ready, blk_msg, insert_into_tasks, k_tsk_run_new,
}
use preemptive_multi_tasked.Task.Ready.{append_task}
use preemptive_multi_tasked.Task.Schedule.{IsScheduled, Switched}
use preemptive_multi_tasked.Msg.{deliver}
use preemptive_multi_tasked.Msg.Send.{Delivered}
use preemptive_multi_tasked.Board.Uart.{
  Uart, uart0_get_rx_irq_status, uart0_get_rx_data_status, uart0_get_rx_data,
}
use preemptive_multi_tasked.Irq.{System, ends, switched, echo, passed, key_message, c_irq_handler}
use preemptive_multi_tasked.Irq.Key.{pressed, c_irq_handler-switches, c_irq_handler-key}
use preemptive_multi_tasked.Irq.Lost.{c_irq_handler-refused}
use preemptive_multi_tasked.Irq.Ticks.{c_irq_handler-no_key}
use preemptive_multi_tasked.Samples.{
  two_free, two_waiting, two_queues, two_waiting-IsReady, two_waiting-Exact, some_tcbs,
}

abbrev first : (m : Mem) × (k_mem_alloc 1 9 two_free ≡ some (4112, m))
unfolding k_mem_alloc alloc_loop max_blocks claim split relink
first = (_, refl)

abbrev second : (m : Mem) × (k_mem_alloc 1 12 first.0 ≡ some (4144, m))
unfolding k_mem_alloc alloc_loop max_blocks claim split relink
second = (_, refl)

abbrev third : (m : Mem) × (k_mem_alloc 1 9 second.0 ≡ some (8208, m))
unfolding k_mem_alloc alloc_loop max_blocks claim split relink
third = (_, refl)

freed : (m : Mem) × (k_mem_dealloc false 1 4112 third.0 ≡ some (rtx_ok, m))
unfolding k_mem_dealloc dealloc_front k_mem_alloc alloc_loop max_blocks claim split relink
freed = (_, refl)

abbrev port : ℕ → Uart
port lsr = record { dr = 97; ier_dlh = 1; iir_fcr = 4; lcr = 3; lsr = lsr; srr = 0 }

-- The decoder is task 159, with its mailbox at 9000.
abbrev decoder : TaskState → (max_size : ℕ) → System
decoder st max_size = record {
  post = record {
    sched = record (two_waiting running) {
      tcbs =
          update (some_tcbs running) 159
            (record (some_tcbs running 159) { prio = 1; state = st; mailbox = 9000 });
    };
    mem = two_free;
    store = record {
      mailboxes = λ _. record { queue = no_nodes; curr_size = 16; max_size = max_size };
      nodes = λ _. record { buf = 0; sender_tid = 0 };
      next = λ _. none;
      bytes = λ _. 0;
    };
    interrupt_flag = false;
  };
  gic = record {
    ctlr = 1;
    typer = 0;
    priority_bits = 5;
    isenabler = λ _. 0;
    icenabler = λ _. 0;
    ipriorityr = λ _. 0;
    itargetsr = λ _. 0;
    icfgr = λ _. 0;
    interface_ctlr = 1;
    pmr = 255;
    bpr = 0;
    iar = 194;
    eoir = 0;
  };
  timers = record {
    hps = λ _. record { loadcount = 0; currentval = 0; controlreg = 0; eoi = 0; intstat = 0 };
    arm = record { loadcount = 0; currentval = 1000; controlreg = 0; intstat = 0 };
  };
  uart = port 0;
  a9_timer_last = 600000;
  reports = [];
}

decoder-IsScheduled : (max_size : ℕ) → IsScheduled (decoder blk_msg max_size).post.sched two_queues
decoder-IsScheduled max_size = record {
  started = refl;
  queues = record {
    queue = (two_waiting-IsReady running).queue;
    prio = λ p. ground arith;
    state = λ p. ground arith;
  };
  exact = record {
    above = (two_waiting-Exact running).above;
    top = (two_waiting-Exact running).top;
    bound = omega arith;
    range = (two_waiting-Exact running).range;
  };
  apart = ground arith;
  small = omega arith;
}

no_nodes-IsQueue : IsQueue (λ _. none) no_nodes []
no_nodes-IsQueue = record { links = refl; tail = refl; distinct = tt }

c_irq_handler-switches_example :
    let sys = decoder blk_msg 512 in
    (sys1 : System) × (c_irq_handler (port 1 ∷ port 0 ∷ []) sys ≡ switched 4112 (port 0 ∷ []) sys1)
    × (sys1.gic ≡ sys.gic)
    × Delivered 159 4112 4144 8208 [] (pressed 4112 97 first.0 sys) sys1.post
    × (sys1.post.sched ≡ (k_tsk_run_new (insert_into_tasks 159 sys.post.sched)).1)
    × Switched
        (insert_into_tasks 159 sys.post.sched)
        159
        (append_task sys.post.sched 1 two_queues)
        (k_tsk_run_new (insert_into_tasks 159 sys.post.sched))
unfolding uart0_get_rx_irq_status uart0_get_rx_data_status uart0_get_rx_data key_message
c_irq_handler-switches_example =
    c_irq_handler-switches (port 1) (decoder blk_msg 512) 4112 4144 8208 first.0 second.0 third.0
      refl refl refl first.1 second.1 third.1 (omega arith) (omega arith) (omega arith) refl []
      no_nodes-IsQueue tt (inr (omega arith)) (port 0 ∷ []) two_queues (decoder-IsScheduled 512)
      refl refl (omega arith) (omega arith)

c_irq_handler-key_example :
    let sys = decoder ready 512 in
    (sys' : System) × (c_irq_handler (port 1 ∷ port 0 ∷ []) sys ≡ ends sys')
    × Delivered 159 4112 4144 8208 [] (pressed 4112 97 first.0 sys) sys'.post
    × ((sys'.post.store.nodes 4144).sender_tid ≡ 255)
    × (sys'.post.store.bytes 8216 ≡ 97)
    × (sys'.post.mem ≡ freed.0)
    × (sys'.post.interrupt_flag ≡ false)
    × (sys'.post.sched ≡ (k_tsk_run_new sys.post.sched).1)
    × (sys'.gic.eoir ≡ 194)
    × (sys'.reports ≡ [] ++ echo 97 ∷ [])
unfolding uart0_get_rx_irq_status uart0_get_rx_data_status uart0_get_rx_data key_message
c_irq_handler-key_example =
    c_irq_handler-key (port 1) (decoder ready 512) 4112 4144 8208 first.0 second.0 third.0 refl refl
      refl first.1 second.1 third.1 (omega arith) (omega arith) (omega arith) refl []
      no_nodes-IsQueue tt (inr (omega arith)) (port 0) [] freed.0 rtx_ok refl refl freed.1

freed_at_once : (m : Mem) × (k_mem_dealloc false 1 4112 first.0 ≡ some (rtx_ok, m))
unfolding k_mem_dealloc dealloc_front k_mem_alloc alloc_loop max_blocks claim split relink
freed_at_once = (_, refl)

-- The mailbox has room for 20 bytes, and 16 are taken.
c_irq_handler-refused_example :
    let sys = decoder ready 20 in
    (sys' : System) × (c_irq_handler (port 1 ∷ port 0 ∷ []) sys ≡ ends sys')
    × (sys'.post.store.mailboxes ≡ sys.post.store.mailboxes)
    × (sys'.post.interrupt_flag ≡ true)
    × ((receiver_tid buf msg copy : ℕ)
        → ((deliver receiver_tid buf msg copy sys'.post).store.nodes msg).sender_tid ≡ 255)
unfolding uart0_get_rx_irq_status uart0_get_rx_data_status uart0_get_rx_data key_message
c_irq_handler-refused_example =
    c_irq_handler-refused (port 1) (port 0) [] (decoder ready 20) 4112 first.0 freed_at_once.0
      rtx_ok refl refl refl refl first.1 (omega arith) refl freed_at_once.1

-- HPS timer 0, 599000 microseconds after the last report.
abbrev ticking : System
ticking = record (decoder blk_msg 512) { gic = record (decoder blk_msg 512).gic { iar = 199 } }

c_irq_handler-no_key_example :
    (sys' : System) × (c_irq_handler [] ticking ≡ ends sys')
    × (sys'.post ≡ ticking.post)
    × (sys'.gic ≡ record ticking.gic { eoir = 199 })
    × (sys'.timers.hps ≡ ticking.timers.hps)
    × (sys'.timers.arm.intstat ≡ 0)
    × (sys'.reports ≡ passed 599 ∷ [])
    × (sys'.a9_timer_last ≡ 1000)
c_irq_handler-no_key_example = c_irq_handler-no_key [] ticking refl
