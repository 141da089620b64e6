-- ===== src/Samples.antt =====
-- A small memory and a few tasks, on which the tests of all modules run.
use preemptive_multi_tasked.Prelude.{
  ℕ, ◌+◌, ◌≢◌, inl, inr, refl, List, [], ◌∷◌, ◌==◌, if◌then◌else◌, none, some, true, false, arith,
  update, Bool-cases,
}
use preemptive_multi_tasked.Mem.{ControlBlock, Mem}
use preemptive_multi_tasked.Mem.Blocks.{Block, block}
use preemptive_multi_tasked.Mem.Chain.{Holds}
use preemptive_multi_tasked.Fifo.{no_nodes}
use preemptive_multi_tasked.Task.{Sched, Tcb, TaskState, dormant, ready, running, set_prio}
use preemptive_multi_tasked.Task.Ready.{Queues, IsReady}
use preemptive_multi_tasked.Task.Retrieve.{Exact}
use preemptive_multi_tasked.Task.Schedule.{IsScheduled}
use preemptive_multi_tasked.Kernel.{Image, Kernel}
use preemptive_multi_tasked.Boot.{Machine}

-- Two free blocks, at 4096 and 8192, and one of task 7 between them, at 6000.
abbrev pub two_cells : ℕ → ControlBlock
two_cells a =
    if a == 4096
    then record { size = 64; next = 8192; tid = 0; buf = 0 }
    else if a == 6000
    then record { size = 40; next = 0; tid = 7; buf = 0 }
    else if a == 8192
    then record { size = 128; next = 0; tid = 0; buf = 0 }
    else record { size = 0; next = 0; tid = 0; buf = 0 }

abbrev pub two_free : Mem
two_free = record { head = 4096; cell = two_cells }

abbrev pub two_blocks : List Block
two_blocks = block 4096 64 ∷ block 8192 128 ∷ []

pub two_free-Holds : Holds two_free two_blocks
two_free-Holds = record { chain = ground arith; laid = ground arith }

-- Task 1 runs with priority 3, in the state `st`; the others are ready with priority 2.
abbrev pub some_tcbs : TaskState → ℕ → Tcb
some_tcbs st t = record {
  ksp = 0;
  u_stack_size = 512;
  task_entry = 0;
  u_stack_start = 0;
  tid = t;
  prio = if t == 1 then 3 else 2;
  state = if t == 1 then st else ready;
  priv = 1;
  mailbox = 0;
}

-- The tasks 2 and 3 wait.
abbrev pub two_waiting : TaskState → Sched
two_waiting st = record {
  tcbs = some_tcbs st;
  next = update (λ _. none) 2 (some 3);
  tasks = λ p. if p == 2 then record { head = some 2; tail = some 3 } else no_nodes;
  highest_priority = 2;
  yield_flag = false;
  started = true;
  current = 1;
}

abbrev pub two_queues : Queues
two_queues p = if p == 2 then 2 ∷ 3 ∷ [] else []

pub two_waiting-IsReady : (st : TaskState) → IsReady (two_waiting st) two_queues
two_waiting-IsReady st = record {
  queue = λ p. elim (Bool-cases (p == 2)) [
    | inl e ↦ rw e record { links = (refl, (refl, refl)); tail = refl; distinct = ground arith }
    | inr e ↦ rw e record { links = refl; tail = refl; distinct = tt }
  ];
  prio = λ p. ground arith;
  state = λ p. ground arith;
}

pub two_waiting-Exact : (st : TaskState) → Exact (two_waiting st) two_queues
two_waiting-Exact st = record {
  above = λ p lt. ground arith;
  top = λ p nil. ground arith;
  bound = omega arith;
  range = λ p out. ground arith;
}

pub two_waiting-IsScheduled :
    (st : TaskState) → st ≢ ready → IsScheduled (two_waiting st) two_queues
two_waiting-IsScheduled st n = record {
  started = refl;
  queues = two_waiting-IsReady st;
  exact = two_waiting-Exact st;
  apart = n;
  small = omega arith;
}

-- Task 1 runs with the priority of those that wait.
abbrev pub equal_running : Sched
equal_running = set_prio 1 2 (two_waiting running)

pub equal_running-IsScheduled : IsScheduled equal_running two_queues
equal_running-IsScheduled = record {
  started = refl;
  queues = record {
    queue = (two_waiting-IsReady running).queue;
    prio = λ p. ground arith;
    state = λ p. ground arith;
  };
  exact = record {
    above = λ p lt. ground arith;
    top = λ p nil. ground arith;
    bound = omega arith;
    range = λ p out. ground arith;
  };
  apart = ground arith;
  small = omega arith;
}

abbrev pub image : Image
image = record { g_k_stacks = 0x1000_0000; svc_restore = 0x8000; kcd_task = 0x9000 }

-- Task 1 runs, privileged and without a mailbox; the ids from 4 on are free.
abbrev pub booted : Kernel
booted = record {
  sched = two_waiting running;
  mem = two_free;
  store = record {
    mailboxes =
        λ _. record { queue = record { head = none; tail = none }; curr_size = 0; max_size = 0 };
    nodes = λ _. record { buf = 0; sender_tid = 0 };
    next = λ _. none;
    bytes = λ _. 0;
  };
  tids = record { slots = λ i. i + 1; head = 3; tail = 158; size = 155 };
  num_active_tasks = 4;
  stack = λ _. 0;
}

-- All memory is zero, as at start-up, but for `highest_priority`.
abbrev pub reset_machine : Machine
reset_machine = record {
  uart = record { dr = 0; ier_dlh = 0; iir_fcr = 0; lcr = 0; lsr = 0; srr = 0 };
  timers = record {
    hps = λ _. record { loadcount = 0; currentval = 0; controlreg = 0; eoi = 0; intstat = 0 };
    arm = record { loadcount = 0; currentval = 0; controlreg = 0; intstat = 0 };
  };
  kernel = record {
    sched = record {
      tcbs = λ _. record {
        ksp = 0;
        u_stack_size = 0;
        task_entry = 0;
        u_stack_start = 0;
        tid = 0;
        prio = 0;
        state = dormant;
        priv = 0;
        mailbox = 0;
      };
      next = λ _. none;
      tasks = λ _. no_nodes;
      highest_priority = 255;
      yield_flag = false;
      started = false;
      current = 0;
    };
    mem = record { head = 0; cell = λ _. record { size = 0; next = 0; tid = 0; buf = 0 } };
    store = record {
      mailboxes = λ _. record { queue = no_nodes; curr_size = 0; max_size = 0 };
      nodes = λ _. record { buf = 0; sender_tid = 0 };
      next = λ _. none;
      bytes = λ _. 0;
    };
    tids = record { slots = λ _. 0; head = 0; tail = 0; size = 0 };
    num_active_tasks = 0;
    stack = λ _. 0;
  };
}
