-- ===== src/Kcd.antt =====
-- RTX/src/app/kcd_task.c: the keyboard command decoder. A line that starts with `%` goes to the task
-- that has registered the character after it.
pub mod Line
pub mod Command
pub mod Stale
mod Tests
use preemptive_multi_tasked.Prelude.{
  ℕ, zero, suc, ◌+◌, ◌-◌, ◌*◌, ◌/◌, ◌%◌, ◌^◌, Bool, true, false, not, ◌&&◌, ◌||◌, Option, none,
  some, List, [], ◌∷◌, ltb, leb, ◌==◌, if◌then◌else◌, update,
}
use preemptive_multi_tasked.Mem.{Rtx, rtx_ok, rtx_err, Mem, k_mem_alloc}
use preemptive_multi_tasked.Task.{Run, returns, null_deref, runs_on, TaskState}
use preemptive_multi_tasked.Msg.{
  Post, Store, load32, is_dormant, k_mbx_create, k_send_msg, Recv, waits, goes_on, recv_rest,
  k_recv_msg,
}

pub record Kcd : Type 0 where
  pub cmd_ids : ℕ → ℕ
  pub input_buf : ℕ → ℕ
  pub tail : ℕ

-- What is printed in answer to a line.
pub data Reply : Type 0 where
  silent invalid_string error_string : Reply

abbrev pub key_in : ℕ
key_in = 4

abbrev pub msg_hdr_size : ℕ
msg_hdr_size = 8

unfoldable pub is_alphanumeric : (the_char : ℕ) → Bool
is_alphanumeric c = (leb 48 c && leb c 57) || (leb 97 c && leb c 122) || (leb 65 c && leb c 90)

-- A word in four bytes, the lowest first.
abbrev pub store32 : (p v : ℕ) → (ℕ → ℕ) → ℕ → ℕ
store32 p v bytes a =
    if a == p
    then v % 256
    else if a == p + 1
    then (v / 256) % 256
    else if a == p + 2
    then (v / 65536) % 256
    else if a == p + 3
    then (v / 16777216) % 256
    else bytes a

-- A registration: the message is ignored unless it has one character.
unfoldable pub kcd_register : (length received_char sender : ℕ) → Kcd → Kcd
kcd_register length received_char sender d =
    if length == msg_hdr_size + 1
    then record d { cmd_ids = update d.cmd_ids received_char sender }
    else d

-- A key other than Enter.
unfoldable pub kcd_key : (received_char : ℕ) → Kcd → Kcd
kcd_key received_char d = record d {
  input_buf = if ltb d.tail 64 then update d.input_buf d.tail received_char else d.input_buf;
  tail = d.tail + 1;
}

-- The loop that copies the line without its first character, from the index `i` on.
unfoldable pub copy_line : (rounds i dest : ℕ) (input_buf : ℕ → ℕ) → (ℕ → ℕ) → ℕ → ℕ
copy_line zero i dest input_buf bytes = bytes
copy_line (suc rounds) i dest input_buf bytes =
    copy_line rounds (i + 1) dest input_buf (update bytes (dest + (i - 1)) (input_buf i))

-- The characters of the line that are used.
abbrev pub limit_of : Kcd → ℕ
limit_of d = if leb 64 d.tail then 64 else d.tail

-- The message at `p` for a line.
unfoldable pub line_message : (p : ℕ) → Kcd → (ℕ → ℕ) → ℕ → ℕ
line_message p d bytes =
    let limit = limit_of d in
    copy_line (limit - 1) 1 (p + msg_hdr_size) d.input_buf
      (store32 (p + 4) key_in (store32 p (msg_hdr_size + limit - 1) bytes))

-- The line does not start with `%` or is too long.
abbrev pub invalid_line : Kcd → Bool
invalid_line d = ltb 64 d.tail || not (d.input_buf 0 == 37)

-- No task takes the command.
abbrev pub unknown_command : Kcd → Post → Bool
unknown_command d k =
    let id = d.cmd_ids (d.input_buf 1) in
    not (is_alphanumeric (d.input_buf 1)) || id == 0 || is_dormant (k.sched.tcbs id).state

-- The message at `p` is sent, and the line is empty again.
unfoldable pub send_line : (p : ℕ) → Kcd → Post → Run (Reply × Kcd × Post)
send_line p d k =
    let k1 = record k { store = record k.store { bytes = line_message p d k.store.bytes } } in
    elim (k_send_msg (d.cmd_ids (d.input_buf 1)) p k1) [
      | returns (rtx_ok, k2) ↦ returns (silent, record d { tail = 0 }, k2)
      | returns (rtx_err, k2) ↦ returns (error_string, record d { tail = 0 }, k2)
      | null_deref ↦ null_deref
      | runs_on ↦ runs_on
    ]

-- The Enter key.
unfoldable pub kcd_enter : Kcd → Post → Run (Reply × Kcd × Post)
kcd_enter d k =
    if invalid_line d
    then returns (invalid_string, record d { tail = 0 }, k)
    else if unknown_command d k
    then returns (error_string, record d { tail = 0 }, k)
    else (elim (k_mem_alloc (k.sched.tcbs k.sched.current).tid (msg_hdr_size + limit_of d - 1)
        k.mem) [
          | none ↦ runs_on
          | some (p, m) ↦ if p == 0 then null_deref else send_line p d (record k { mem = m })
        ])

abbrev pub kcd_reg : ℕ
kcd_reg = 1

abbrev pub kcd_mbx_size : ℕ
kcd_mbx_size = 512

-- The size of the buffer for a message.
abbrev pub buf_len : ℕ
buf_len = msg_hdr_size + 64

-- The task: its data, the addresses of its two blocks, and the id in the one at `tid_at`.
pub record Task : Type 0 where
  pub kcd : Kcd
  pub buf : ℕ
  pub tid_at : ℕ
  pub tid_reg : ℕ

-- The loop that clears the table of commands, from the index `i` on.
unfoldable pub clear_ids : (rounds i : ℕ) → (ℕ → ℕ) → ℕ → ℕ
clear_ids zero i cmd_ids = cmd_ids
clear_ids (suc rounds) i cmd_ids = clear_ids rounds (i + 1) (update cmd_ids i 0)

-- The task before its endless loop; `none` in the result means that it has ended for want of a
-- mailbox. `tid_reg` is what happens to be in the block.
unfoldable pub kcd_start : (tid_reg : ℕ) → Kcd → Post → Option (Option Task × Post)
kcd_start tid_reg d k =
    let d1 = record d { cmd_ids = clear_ids 255 0 d.cmd_ids } in
    elim (k_mbx_create kcd_mbx_size k) [
      | none ↦ none
      | some (rtx_err, k1) ↦ some (none, k1)
      | some (rtx_ok, k1) ↦
          let tid = (k1.sched.tcbs k1.sched.current).tid in
          elim (k_mem_alloc tid buf_len k1.mem) [
            | none ↦ none
            | some (buf, m) ↦ elim (k_mem_alloc tid 1 m) [
              | none ↦ none
              | some (tid_at, m1) ↦ some (
                some (record { kcd = d1; buf = buf; tid_at = tid_at; tid_reg = tid_reg }),
                record k1 { mem = m1 },
              )
            ]
          ]
    ]

abbrev pub with_kcd : Task → Run (Reply × Kcd × Post) → Run (Reply × Task × Post)
with_kcd t (returns (r, d, k)) = returns (r, record t { kcd = d }, k)
with_kcd t null_deref = null_deref
with_kcd t runs_on = runs_on

-- What the task does with the message in its buffer.
unfoldable pub kcd_message : Task → Post → Run (Reply × Task × Post)
kcd_message t k =
    let bytes = k.store.bytes in
    let type = load32 bytes (t.buf + 4) in
    let received_char = bytes (t.buf + msg_hdr_size) in
    if t.buf == 0
    then null_deref
    else if type == kcd_reg
    then (if t.tid_at == 0 && load32 bytes t.buf == msg_hdr_size + 1
        then null_deref
        else with_kcd t
            (returns (silent, kcd_register (load32 bytes t.buf) received_char t.tid_reg t.kcd, k)))
    else if type == key_in
    then (if received_char == 13
        then with_kcd t (kcd_enter t.kcd k)
        else with_kcd t (returns (silent, kcd_key received_char t.kcd, k)))
    else returns (silent, t, k)

-- The task after `recv_msg`, whose result it ignores.
unfoldable pub kcd_received : Task → Run (Rtx × Option ℕ × Post) → Run (Reply × Task × Post)
kcd_received t (returns (r, none, k)) = kcd_message t k
kcd_received t (returns (r, some sender_tid, k)) = kcd_message (record t { tid_reg = sender_tid }) k
kcd_received t null_deref = null_deref
kcd_received t runs_on = runs_on

-- A round of the loop: the task waits in `recv_msg`, or goes on to the end of the round.
pub data Round : Type 0 where
  stops : Task → Post → Round
  handles : Run (Reply × Task × Post) → Round

unfoldable pub kcd_round : Task → Post → Round
kcd_round t k = elim (k_recv_msg t.buf buf_len k) [
  | waits k1 ↦ stops t k1
  | goes_on r ↦ handles (kcd_received t r)
]

-- The round when the task that waited runs again.
unfoldable pub kcd_resume : Task → Post → Run (Reply × Task × Post)
kcd_resume t k = kcd_received t (recv_rest (k.sched.tcbs k.sched.current).mailbox t.buf buf_len k)
