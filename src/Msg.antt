-- ===== src/Msg.antt =====
-- RTX/src/kernel/k_msg.c: mailboxes and messages. The blocks that `k_mem_alloc` hands out are used
-- as mailboxes, message nodes and bytes, each read at its own type by address; the queue of a
-- mailbox is a `LinkedList`, as its code is that of `enqueue` and `dequeue`.
pub mod Copy
pub mod Send
pub mod Receive
pub mod Exchange
mod Tests
use preemptive_multi_tasked.Prelude.{
  ℕ, zero, suc, ◌+◌, ◌-◌, ◌*◌, ◌^◌, ◌%◌, Bool, true, false, not, ◌&&◌, ◌||◌, Option, none, some,
  ltb, leb, ◌==◌, if◌then◌else◌, update, add32, sub32,
}
use preemptive_multi_tasked.Mem.{Rtx, rtx_ok, rtx_err, Mem, k_mem_alloc, k_mem_dealloc, max_blocks}
use preemptive_multi_tasked.Fifo.{LinkedList, Next, no_nodes, enqueue, dequeue}
use preemptive_multi_tasked.Task.{
  TaskState, dormant, blk_msg, Sched, Run, returns, null_deref, runs_on, set_state,
  insert_into_tasks, is_blocked, k_tsk_run_new,
}

pub record MailBox : Type 0 where
  pub queue : LinkedList
  pub curr_size : ℕ
  pub max_size : ℕ

-- The `next` fields of all nodes are one function, `next` of `Store`.
pub record MessageNode : Type 0 where
  pub buf : ℕ
  pub sender_tid : ℕ

pub record Store : Type 0 where
  pub mailboxes : ℕ → MailBox
  pub nodes : ℕ → MessageNode
  pub next : Next
  pub bytes : ℕ → ℕ

pub record Post : Type 0 where
  pub sched : Sched
  pub mem : Mem
  pub store : Store
  pub interrupt_flag : Bool

abbrev pub mailbox_size : ℕ
mailbox_size = 16

abbrev pub node_size : ℕ
node_size = 12

abbrev pub tid_uart_irq : ℕ
tid_uart_irq = 255

-- The `length` of a message header: four bytes, the lowest first.
abbrev pub load32 : (ℕ → ℕ) → ℕ → ℕ
load32 bytes p = bytes p + 256 * bytes (p + 1) + 65536 * bytes (p + 2) + 16777216 * bytes (p + 3)

-- The loop of `memcpy` from the index `i` on.
unfoldable pub memcpy_loop : (rounds i dest src : ℕ) → (ℕ → ℕ) → ℕ → ℕ
memcpy_loop zero i dest src bytes = bytes
memcpy_loop (suc rounds) i dest src bytes =
    memcpy_loop rounds (i + 1) dest src (update bytes (dest + i) (bytes (src + i)))

unfoldable pub memcpy : (dest src n : ℕ) → (ℕ → ℕ) → ℕ → ℕ
memcpy dest src n bytes = memcpy_loop n 0 dest src bytes

-- The results of the two calls are ignored.
unfoldable pub deallocate_msg : (node : ℕ) → Store → Mem → Option Mem
deallocate_msg node st m = elim (k_mem_dealloc true 0 (st.nodes node).buf m) [
  | none ↦ none
  | some (r, m1) ↦ elim (k_mem_dealloc true 0 node m1) [ none ↦ none | some (r', m2) ↦ some m2 ]
]

unfoldable pub free_loop : (fuel : ℕ) (temp_msg : Option ℕ) → Store → Mem → Option Mem
free_loop zero temp_msg st m = none
free_loop (suc fuel) none st m = some m
free_loop (suc fuel) (some node) st m = elim (deallocate_msg node st m) [
  | none ↦ none
  | some m1 ↦ free_loop fuel (st.next node) st m1
]

unfoldable pub free_mailbox : (mailbox : ℕ) → Store → Mem → Option Mem
free_mailbox mailbox st m = elim (free_loop max_blocks (st.mailboxes mailbox).queue.head st m) [
  | none ↦ none
  | some m1 ↦ elim (k_mem_dealloc true 0 mailbox m1) [ none ↦ none | some (r, m2) ↦ some m2 ]
]

abbrev pub set_mailbox : (mailbox : ℕ) → MailBox → Post → Post
set_mailbox mailbox v k = record k {
  store = record k.store { mailboxes = update k.store.mailboxes mailbox v };
}

abbrev pub set_current_mailbox : (mailbox : ℕ) → Post → Post
set_current_mailbox mailbox k =
    let s = k.sched in
    record k {
      sched = record s {
        tcbs = update s.tcbs s.current (record (s.tcbs s.current) { mailbox = mailbox });
      };
    }

unfoldable pub k_mbx_create : (size : ℕ) → Post → Option (Rtx × Post)
k_mbx_create size k =
    let caller = k.sched.tcbs k.sched.current in
    if ltb size 1
    then some (rtx_err, k)
    else if not (caller.mailbox == 0)
    then some (rtx_err, k)
    else (elim (k_mem_alloc caller.tid mailbox_size k.mem) [
      | none ↦ none
      | some (mailbox, m) ↦
          if mailbox == 0
          then some (rtx_err, record k { mem = m })
          else some (
            rtx_ok,
            set_mailbox mailbox
                (record { queue = no_nodes; curr_size = mailbox_size; max_size = size })
                (set_current_mailbox mailbox (record k { mem = m })),
          )
    ])

abbrev pub is_dormant : TaskState → Bool
is_dormant dormant = true
is_dormant _ = false

-- The tests of `k_send_msg`.
abbrev pub send_refused : (receiver_tid buf : ℕ) → Post → Bool
send_refused receiver_tid buf k =
    let tcb = k.sched.tcbs receiver_tid in
    let length = load32 k.store.bytes buf in
    let box = k.store.mailboxes tcb.mailbox in
    is_dormant tcb.state
    || buf == 0
    || tcb.mailbox == 0
    || ltb length 1
    || ltb box.max_size (add32 box.curr_size length)

-- The message at `msg`, with its copy at `copy`, is put into the mailbox of the receiver.
unfoldable pub deliver : (receiver_tid buf msg copy : ℕ) → Post → Post
deliver receiver_tid buf msg copy k =
    let mailbox = (k.sched.tcbs receiver_tid).mailbox in
    let length = load32 k.store.bytes buf in
    let sender = if k.interrupt_flag then tid_uart_irq else (k.sched.tcbs k.sched.current).tid in
    let box = k.store.mailboxes mailbox in
    let bytes' = memcpy copy buf length k.store.bytes in
    let (next', queue') = enqueue box.queue msg (update k.store.next msg none) in
    record k {
      interrupt_flag = false;
      store = record {
        mailboxes =
            update k.store.mailboxes mailbox
              (record box { queue = queue'; curr_size = add32 box.curr_size (load32 bytes' buf) });
        nodes = update k.store.nodes msg (record { buf = copy; sender_tid = sender });
        next = next';
        bytes = bytes';
      };
    }

-- A receiver that waits for a message is made ready.
unfoldable pub wake : (receiver_tid : ℕ) → Post → Post
wake receiver_tid k =
    if is_blocked (k.sched.tcbs receiver_tid).state
    then record k { sched = (k_tsk_run_new (insert_into_tasks receiver_tid k.sched)).1 }
    else k

-- What follows a write through the pointer `p`.
abbrev pub through : (p : ℕ) → Run (Rtx × Post) → Run (Rtx × Post)
through p rest = if p == 0 then null_deref else rest

-- The node is written through before it is tested for NULL, and the copy is not tested.
unfoldable pub k_send_msg : (receiver_tid buf : ℕ) → Post → Run (Rtx × Post)
k_send_msg receiver_tid buf k =
    let owner = (k.sched.tcbs k.sched.current).tid in
    if send_refused receiver_tid buf k
    then returns (rtx_err, k)
    else (elim (k_mem_alloc owner node_size k.mem) [
      | none ↦ runs_on
      | some (msg, m1) ↦ elim (k_mem_alloc owner (load32 k.store.bytes buf) m1) [
        | none ↦ runs_on
        | some (copy, m2) ↦
            let k2 = record k { mem = m2 } in
            through msg (
              if msg == 0
              then returns (rtx_err, k2)
              else through copy
                  (returns (rtx_ok, wake receiver_tid (deliver receiver_tid buf msg copy k2))))
      ]
    ])

-- A message is taken from the queue of the mailbox, and `spent` bytes from its size.
abbrev pub take_node : (mailbox spent : ℕ) (queue : LinkedList) → Post → Post
take_node mailbox spent queue k =
    let box = k.store.mailboxes mailbox in
    set_mailbox mailbox (record box { queue = queue; curr_size = sub32 box.curr_size spent }) k

-- The message goes to the caller if `fits`, and its memory is given back. `sender` is what is
-- written through `sender_tid`, where that is not NULL.
unfoldable pub hand_over :
    (fits : Bool) (node buf : ℕ) (sender : Option ℕ) → Post → Run (Rtx × Option ℕ × Post)
hand_over fits node buf sender k =
    let from = (k.store.nodes node).buf in
    let length = load32 k.store.bytes from in
    let k1 =
      if fits
      then record k { store = record k.store { bytes = memcpy buf from length k.store.bytes } }
      else k in
    elim (deallocate_msg node k1.store k1.mem) [
      | none ↦ runs_on
      | some m ↦ returns ((if fits then rtx_ok else rtx_err), sender, record k1 { mem = m })
    ]

-- `k_recv_msg` once there is a message, or once the caller runs again.
unfoldable pub recv_rest : (mailbox buf len : ℕ) → Post → Run (Rtx × Option ℕ × Post)
recv_rest mailbox buf len k =
    if buf == 0
    then returns (rtx_err, none, k)
    else (let (first, queue) = dequeue (k.store.mailboxes mailbox).queue k.store.next in
        elim first [
          | none ↦ null_deref
          | some node ↦
              let length = load32 k.store.bytes (k.store.nodes node).buf in
              hand_over (leb length len) node buf (some (k.store.nodes node).sender_tid)
                (take_node mailbox length queue k)
        ])

-- The caller waits, in the state `Post`, or goes on.
pub data Recv : Type 0 where
  waits : Post → Recv
  goes_on : Run (Rtx × Option ℕ × Post) → Recv

-- With an empty mailbox the caller stops; where no other task runs instead it goes straight on.
unfoldable pub k_recv_msg : (buf len : ℕ) → Post → Recv
k_recv_msg buf len k =
    let mailbox = (k.sched.tcbs k.sched.current).mailbox in
    let s = (k_tsk_run_new (set_state k.sched.current blk_msg k.sched)).1 in
    if mailbox == 0
    then goes_on (returns (rtx_err, none, k))
    else (elim (k.store.mailboxes mailbox).queue.head [
      | some node ↦ goes_on (recv_rest mailbox buf len k)
      | none ↦
          if s.current == k.sched.current
          then goes_on (recv_rest mailbox buf len (record k { sched = s }))
          else waits (record k { sched = s })
    ])

-- `sender_tid` is not written through: the code only moves its own copy of the pointer. The message
-- that comes first is taken before its length is compared.
unfoldable pub recv_nb : (mailbox buf len : ℕ) → Post → Run (Rtx × Option ℕ × Post)
recv_nb mailbox buf len k =
    if buf == 0 || mailbox == 0
    then returns (rtx_err, none, k)
    else (let (first, queue) = dequeue (k.store.mailboxes mailbox).queue k.store.next in
        elim first [
          | none ↦ returns (rtx_err, none, k)
          | some node ↦
              let length = load32 k.store.bytes (k.store.nodes node).buf in
              hand_over (leb len length) node buf none
                (take_node mailbox (add32 length node_size) queue k)
        ])

unfoldable pub k_recv_msg_nb : (buf len : ℕ) → Post → Run (Rtx × Option ℕ × Post)
k_recv_msg_nb buf len k = recv_nb (k.sched.tcbs k.sched.current).mailbox buf len k
