-- ===== src/Mem.antt =====
-- RTX/src/kernel/k_mem.c: the first-fit allocator. A control block is kept at each address, so
-- that the free list is a list of pointers in memory; `head` is the global `HEAD`, 0 is NULL.
-- Sizes and addresses are 32-bit patterns. The current task's id, `override_ownership` and the
-- end of the image are globals of other files, and arguments here. A loop takes fuel; `none`
-- means that it has not ended.
pub mod Blocks
pub mod Chain
pub mod Alloc
pub mod FirstFit
pub mod Dealloc
pub mod GiveBack
pub mod RoundTrip
pub mod Walks
pub mod Clear
pub mod Frame
pub mod Heap
mod Tests
use preemptive_multi_tasked.Prelude.{
  ℕ, zero, suc, ◌+◌, ◌-◌, ◌%◌, ◌^◌, Bool, not, ◌&&◌, ◌||◌, Option, none, some, ltb, leb, ◌==◌,
  if◌then◌else◌, update, add32, sub32,
}

-- `RTX_OK` and `RTX_ERR`, the results of the kernel calls.
pub data Rtx : Type 0 where
  rtx_ok rtx_err : Rtx

pub record ControlBlock : Type 0 where
  pub size : ℕ
  pub next : ℕ
  pub tid : ℕ
  pub buf : ℕ

pub record Mem : Type 0 where
  pub head : ℕ
  pub cell : ℕ → ControlBlock

abbrev pub ram_end : ℕ
ram_end = 0x3fff_ffff

-- `sizeof(ControlBlock)`: four words.
abbrev pub header_size : ℕ
header_size = 16

abbrev pub byte_aligning : ℕ
byte_aligning = 8

-- More rounds than a walk along free blocks of at least 24 bytes below `ram_end` can take.
unfoldable pub max_blocks : ℕ
max_blocks = 2 ^ 26

-- Assignments to a field of the control block at `p`.
abbrev pub set_size : Mem → ℕ → ℕ → Mem
set_size m p v = record m { cell = update m.cell p (record (m.cell p) { size = v }) }

abbrev pub set_next : Mem → ℕ → ℕ → Mem
set_next m p v = record m { cell = update m.cell p (record (m.cell p) { next = v }) }

abbrev pub set_tid : Mem → ℕ → ℕ → Mem
set_tid m p v = record m { cell = update m.cell p (record (m.cell p) { tid = v }) }

-- The rounding up to a multiple of `byte_aligning`, in 32 bits.
abbrev pub align : ℕ → ℕ
align n = if n % byte_aligning == 0 then n else add32 n (byte_aligning - n % byte_aligning)

unfoldable pub k_mem_init : (end_addr : ℕ) → Mem → Rtx × Mem
k_mem_init end_addr m =
    let start = align end_addr in
    let room = sub32 (sub32 ram_end start) header_size in
    if room == 0
    then (rtx_err, m)
    else (rtx_ok, set_next (set_size (record m { head = start }) start room) start 0)

-- Makes `target` what the list has in place of `curr`.
unfoldable pub relink : (curr prev target : ℕ) → Mem → Mem
relink curr prev target m =
    if curr == m.head then record m { head = target } else set_next m prev target

-- The block `curr` keeps `size` bytes, and the rest is a new free block in its place.
unfoldable pub split : (size curr prev : ℕ) → Mem → Mem
unfolding relink
split size curr prev m =
    let new_block = add32 (add32 curr header_size) size in
    let m1 = set_size m new_block (sub32 (sub32 (m.cell curr).size size) header_size) in
    let m2 = relink curr prev new_block m1 in
    let m3 = set_next m2 new_block (m2.cell curr).next in set_size m3 curr size

-- The block `curr` is taken from the list, split if it is large enough.
unfoldable pub claim : (tid size curr prev : ℕ) → Mem → ℕ × Mem
unfolding split relink
claim tid size curr prev m =
    let taken =
      if leb (add32 (add32 size header_size) byte_aligning) (m.cell curr).size
      then split size curr prev m
      else relink curr prev (m.cell curr).next m in
    (add32 curr header_size, set_tid taken curr tid)

unfoldable pub alloc_loop : (fuel tid size curr prev : ℕ) → Mem → Option (ℕ × Mem)
alloc_loop zero tid size curr prev m = none
alloc_loop (suc fuel) tid size curr prev m =
    let later = alloc_loop fuel tid size (m.cell curr).next curr m in
    if curr == 0
    then some (0, m)
    else if leb size (m.cell curr).size
    then some (claim tid size curr prev m)
    else later

-- `tid` is that of the current task. The address returned is 0 where the code returns NULL.
unfoldable pub k_mem_alloc : (tid size : ℕ) → Mem → Option (ℕ × Mem)
k_mem_alloc tid size m =
    if m.head == 0 || size == 0
    then some (0, m)
    else alloc_loop max_blocks tid (align size) m.head 0 m

-- The block `header` lies before the first free block.
unfoldable pub dealloc_front : (header : ℕ) → Mem → Mem
dealloc_front header m =
    if add32 (add32 header header_size) (m.cell header).size == m.head
    then (let m1 =
          set_size m header (add32 (m.cell header).size (add32 (m.cell m.head).size header_size)) in
        let m2 = set_next m1 header (m1.cell m.head).next in record m2 { head = header })
    else record (set_next m header m.head) { head = header }

-- The block after `curr` is joined to `header`, which takes its place.
unfoldable pub merge_next : (header curr : ℕ) → Mem → Mem
merge_next header curr m =
    let follower = (m.cell curr).next in
    let m1 =
      set_size m header (add32 (m.cell header).size (add32 (m.cell follower).size header_size)) in
    let m2 = set_next m1 header (m1.cell follower).next in set_next m2 curr header

-- `header` is joined to `curr`, which ends where it starts.
unfoldable pub merge_into : (did_merge : Bool) (header curr : ℕ) → Mem → Mem
merge_into did_merge header curr m =
    let m1 = set_size m curr (add32 (m.cell curr).size (add32 (m.cell header).size header_size)) in
    if did_merge then set_next m1 curr (m1.cell header).next else m1

-- One round of the walk, past its test for NULL and for `header` itself; `none` goes on.
unfoldable pub settle : (header curr : ℕ) → Mem → Option Mem
unfolding merge_next merge_into
settle header curr m =
    let meets_next = add32 (add32 header header_size) (m.cell header).size == (m.cell curr).next in
    let m1 = if meets_next then merge_next header curr m else m in
    let meets_curr = add32 (add32 curr header_size) (m1.cell curr).size == header in
    let m2 = if meets_curr then merge_into meets_next header curr m1 else m1 in
    if meets_next || meets_curr
    then some m2
    else if ltb header (m2.cell curr).next
    then some (set_next (set_next m2 header (m2.cell curr).next) curr header)
    else none

unfoldable pub dealloc_loop : (fuel header curr : ℕ) → Mem → Option (Rtx × Mem)
dealloc_loop zero header curr m = none
dealloc_loop (suc fuel) header curr m =
    let later = dealloc_loop fuel header (m.cell curr).next m in
    if curr == 0 || curr == header
    then some (rtx_err, m)
    else (elim (settle header curr m) [ some m' ↦ some (rtx_ok, m') | none ↦ later ])

-- `override` is `override_ownership`, and `tid` that of the current task.
unfoldable pub k_mem_dealloc : (override : Bool) (tid ptr : ℕ) → Mem → Option (Rtx × Mem)
k_mem_dealloc override tid ptr m =
    let header = sub32 ptr header_size in
    if ptr == 0 || ltb ram_end ptr
    then some (rtx_err, m)
    else if not override && not (tid == (m.cell header).tid)
    then some (rtx_err, m)
    else if ltb header m.head
    then some (rtx_ok, dealloc_front header m)
    else dealloc_loop max_blocks header m.head m

unfoldable pub extfrag_loop : (fuel size curr count : ℕ) → Mem → Option ℕ
extfrag_loop zero size curr count m = none
extfrag_loop (suc fuel) size curr count m =
    let small = ltb (add32 (m.cell curr).size header_size) size in
    let later = extfrag_loop fuel size (m.cell curr).next (if small then count + 1 else count) m in
    if curr == 0 then some count else later

unfoldable pub k_mem_count_extfrag : (size : ℕ) → Mem → Option ℕ
k_mem_count_extfrag size m = extfrag_loop max_blocks size m.head 0 m
