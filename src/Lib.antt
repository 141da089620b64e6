-- ===== src/Lib.antt =====
-- A verification of RTX, the preemptive multi-tasking kernel for the DE1-SoC board, with its
-- memory manager, scheduler, messages and board drivers.
--
-- The parts and how they interact. `k_mem_alloc` and `k_mem_dealloc` keep a first-fit free list in
-- memory. The task calls (`k_tsk_create`, `k_tsk_exit`, `k_tsk_set_prio`, `k_tsk_yield`) keep the
-- TCBs, a ring of free task ids and one queue of ready tasks per priority, and end in
-- `k_tsk_run_new`, which asks `scheduler` for the next task. Creation takes the user stack from the
-- memory manager, exit gives it back. The message calls (`k_mbx_create`, `k_send_msg`,
-- `k_recv_msg`, `k_recv_msg_nb`) keep mailboxes and messages in blocks of the memory manager, stop
-- the receiver of an empty mailbox and wake it through the scheduler. The drivers set up the
-- interrupt controller and the timers, and `printf` formats what the tasks print. `c_IRQ_Handler` asks
-- the controller which interrupt it is, and sends each received character to the command decoder as
-- a message, which may switch to the decoder. The decoder is a task that collects keys into lines and
-- sends each to the task that has registered for it.
--
-- The files. A function of the model has the name of the C function, in lower case; a part of a
-- longer function has a name of its own, and a comment or the order of its calls says which.
--   Prelude        the names shared by all modules: tests, lists, 32-bit words.
--   Mem            RTX/src/kernel/k_mem.c: `Mem` is `HEAD` and the control block at each address.
--                  Blocks has the abstract view, a list of free blocks by address, Chain relates
--                  the two, Alloc and FirstFit treat `k_mem_alloc`, Dealloc and GiveBack
--                  `k_mem_dealloc`, RoundTrip both together, and Walks the other calls. Heap is
--                  the view of the callers, free blocks and blocks that tasks hold, with
--                  programs of calls in Client; Frame and Clear say what a call leaves alone.
--   Fifo           `LinkedList` of RTX/src/kernel/k_task.c and the queue of a mailbox, against
--                  lists of nodes (Queue, Remove).
--   Task           RTX/src/kernel/k_task.c, the scheduler: `Sched` is the TCBs, the array `tasks`,
--                  `highest_priority`, `yield_flag` and `gp_current_task`. Tids is the ring of ids,
--                  Ready and Retrieve the two operations on the queues, Schedule, Steady and Keep
--                  `k_tsk_run_new`, Yield and Rounds `k_tsk_yield`, Prio `k_tsk_set_prio`, Wake
--                  the waking of a receiver, Blocked the states that a switch leaves, and Steps
--                  sequences of calls.
--   Msg            RTX/src/kernel/k_msg.c: `Post` adds mailboxes, message nodes and bytes, each by
--                  address (Copy, Send, Receive, Exchange).
--   Kernel         the life of a task in RTX/src/kernel/k_task.c, on all of these: Stack and Create
--                  treat creation, Exit `k_tsk_exit`.
--   Kcd            RTX/src/app/kcd_task.c: `Task` is its data and its two blocks (Line, Command, Stale).
--   Irq            `c_IRQ_Handler` of RTX/src/kernel/HAL_CA.c (Key, Lost, Ticks).
--   Boot           RTX/src/kernel/k_rtx_init.c, on all of these (Order, Tasks, Started).
--   App            RTX/src/app/ae.c and `main` of RTX/src/kernel/main_svc_cw.c (Config).
--   Board          RTX/src/board/DE1_SoC_A9/interrupt.c (Gic), timer.c (Timer) and Serial.c (Uart, and
--                  Serial for the calls that wait).
--   Printf         RTX/src/board/DE1_SoC_A9/printf.c (Digits, Field, Total).
--   Trials         the tests of the memory manager in RTX/src/app (ae_usr_tasks.c with TEST == 1,
--                  ae_mem.c, ae_priv_tasks.c) as programs of its calls; what is printed is the
--                  result of a test. Tasks treats some tests of the task calls. Calls has programs of
--                  the calls of tasks that talk to each other, and what they keep to (Contract),
--                  Commands the tasks of TEST == 2, Sequence those of TEST == 3, alone (Receiver,
--                  Sender) and together (System, Order).
--   Samples and the modules called Tests run the calls on small examples.
--
-- Numbers are natural numbers. Where the code computes in 32 bits the wrap is written out, as
-- `% 2 ^ 32`; a C `int` is its bit pattern. A pointer is an address or the index of a TCB, NULL is 0
-- or `none`. A call that follows a NULL pointer has the outcome `null_deref`. The addresses of the
-- bytes of messages do not wrap, and `memcpy` moves bytes whatever their values. The priority
-- registers of the interrupt controller keep as many bits as its `priority_bits` says.
--
-- Loops take fuel. A walk along the free list has `max_blocks`, 2 ^ 26 rounds: free blocks lie below
-- 2 ^ 30 and take at least 24 bytes, so a walk along a well-formed list ends first. `remove_node` has
-- `max_tasks` rounds, as many as there are tasks. The search for the next queue has the 255 rounds of
-- the code. The loops of `ui2a` have 33 rounds, more than a 32-bit number has digits;
-- `tfp_format` needs more rounds than its format has characters. The loops that wait for another task or
-- for a port have as much fuel as they are given: more than the reads until the port is free is enough.
--
-- The exchange of stacks by `k_tsk_switch` and the SVC and IRQ entries are assembly and are not
-- modelled: `current` says which task runs. Where the caller of `k_recv_msg` stops, the outcome is
-- `waits`, with `recv_rest` for what it does when it runs again; where the interrupt handler has
-- switched to another task, it is `switched`, with `c_irq_resume` for the rest. The registers of the
-- serial port change by themselves, so the loop of the handler takes a list of what each round finds.
-- The waiting calls of the serial port are functions of what each read of a register finds.
-- What the linker places is an argument (`Image`). Blocks that are in use hold data of one type each,
-- and the bytes of a freed block are not looked at. Not modelled are the start-up code, the calls that
-- the source leaves empty, and those tests of tasks and messages that print what they see for a
-- reader to judge.
pub mod Prelude
pub mod Mem
pub mod Fifo
pub mod Task
pub mod Msg
pub mod Kernel
pub mod Kcd
pub mod Irq
pub mod Boot
pub mod Board
pub mod Printf
pub mod Samples
pub mod Trials
pub mod App
