-- ===== src/Fifo.antt =====
-- The singly linked queues of RTX/src/kernel/k_task.c and k_msg.c: `LinkedList` and `MailBox` have
-- the same head, tail and code. Nodes are numbers (the index of a TCB, the address of a message
-- node), NULL is `none`, and the `next` fields of all nodes are one function.
pub mod Queue
pub mod Remove
use preemptive_multi_tasked.Prelude.{
  ℕ, zero, suc, Bool, Option, none, some, ◌==◌, if◌then◌else◌, update,
}

pub record LinkedList : Type 0 where
  pub head : Option ℕ
  pub tail : Option ℕ

abbrev pub Next : Type 0
Next = ℕ → Option ℕ

abbrev pub no_nodes : LinkedList
no_nodes = record { head = none; tail = none }

-- `list->tail->next = node`. A list with a head has a tail.
abbrev pub set_tail_next : Option ℕ → ℕ → Next → Next
set_tail_next none node next = next
set_tail_next (some last) node next = update next last (some node)

unfoldable pub enqueue : LinkedList → (node : ℕ) → Next → Next × LinkedList
enqueue list node next = elim list.head [
  | none ↦ (next, record { head = some node; tail = some node })
  | some _ ↦ (set_tail_next list.tail node next, record list { tail = some node })
]

unfoldable pub dequeue : LinkedList → Next → Option ℕ × LinkedList
dequeue list next = elim list.head [
  | none ↦ (none, list)
  | some node ↦ elim (next node) [
    | none ↦ (some node, no_nodes)
    | some after ↦ (some node, record list { head = some after })
  ]
]

-- `if (next_itr == list->tail) list->tail = itr`.
abbrev pub move_tail : (node itr : ℕ) → LinkedList → LinkedList
move_tail node itr list = elim list.tail [
  | none ↦ list
  | some end ↦ if node == end then record list { tail = some itr } else list
]

-- The loop of `remove_node` at the node `itr` and its successor. `key` reads the `tid` of a node.
unfoldable pub remove_loop :
    (key : ℕ → ℕ) (fuel tid itr : ℕ) (next_itr : Option ℕ)
    → LinkedList
    → Next
    → Option (Option ℕ × Next × LinkedList)
remove_loop key zero tid itr next_itr list next = none
remove_loop key (suc fuel) tid itr none list next = some (none, next, list)
remove_loop key (suc fuel) tid itr (some node) list next =
    let later = remove_loop key fuel tid node (next node) list next in
    if key node == tid
    then some (some node, update next itr (next node), move_tail node itr list)
    else later

-- `none` means that the walk has not ended after `fuel` rounds.
unfoldable pub remove_node :
    (key : ℕ → ℕ) (fuel tid : ℕ) → LinkedList → Next → Option (Option ℕ × Next × LinkedList)
remove_node key fuel tid list next = elim list.head [
  | none ↦ some (none, next, list)
  | some itr ↦
      if key itr == tid
      then (let (node, list') = dequeue list next in some (node, next, list'))
      else remove_loop key fuel tid itr (next itr) list next
]
