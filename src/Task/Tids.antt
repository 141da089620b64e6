-- ===== src/Task/Tids.antt =====
-- The ring of free task ids in RTX/src/kernel/k_task.c, `available_tid_queue`.
use preemptive_multi_tasked.Prelude.{
  ℕ, zero, suc, ◌+◌, ◌-◌, ◌≤◌, ◌<◌, ◌≡◌, ◌≢◌, ◌⊎◌, refl, ap, List, [], ◌∷◌, ◌++◌, arith, leb, ◌==◌,
  if◌then◌else◌, update,
}

-- `MAX_TASKS - 1` slots.
abbrev pub slots_max : ℕ
slots_max = 159

pub record TidQueue : Type 0 where
  pub slots : ℕ → ℕ
  pub head : ℕ
  pub tail : ℕ
  pub size : ℕ

-- An index and its successor in the ring.
abbrev pub bump : ℕ → ℕ
bump i = if leb slots_max (i + 1) then 0 else i + 1

unfoldable pub add_tid : (new_tid : ℕ) → TidQueue → TidQueue
add_tid new_tid q = if q.size == slots_max then q else record {
  slots = update q.slots q.tail new_tid;
  head = q.head;
  tail = bump q.tail;
  size = q.size + 1;
}

-- 0, the id of the null task, says that none is left.
unfoldable pub get_next_tid : TidQueue → ℕ × TidQueue
get_next_tid q =
    if q.size == 0
    then (0, q)
    else (q.slots q.head, record q { head = bump q.head; size = q.size - 1 })

-- The ids from the index `h` on.
abbrev pub window : (ℕ → ℕ) → ℕ → ℕ → List ℕ
window slots h zero = []
window slots h (suc n) = slots h ∷ window slots (bump h) n

abbrev pub contents : TidQueue → List ℕ
contents q = window q.slots q.head q.size

pub record IsRing (q : TidQueue) : Type 0 where
  pub head_in : q.head < slots_max
  pub tail_in : q.tail < slots_max
  pub size_in : q.size ≤ slots_max
  -- The tail is `size` slots past the head, going round.
  pub spread : (q.head + q.size ≡ q.tail) ⊎ (q.head + q.size ≡ q.tail + slots_max)

window-update :
    (slots : ℕ → ℕ) (h n tail v : ℕ)
    → h < slots_max
    → tail < slots_max
    → n < slots_max
    → (h + n ≡ tail) ⊎ (h + n ≡ tail + slots_max)
    → window (update slots tail v) h (suc n) ≡ window slots h n ++ v ∷ []
window-update slots h zero tail v p q r e = ground arith
window-update slots h (suc n) tail v p q r e =
    ground
      (arith, window-update slots (bump h) n tail v (ground arith) q (omega arith) (ground arith))

window-pos :
    (slots : ℕ → ℕ) (h n : ℕ) → n ≢ 0 → window slots h n ≡ slots h ∷ window slots (bump h) (n - 1)
window-pos slots h zero p = absurd (p refl)
window-pos slots h (suc n) p = ap (λ k. slots h ∷ window slots (bump h) k) (omega arith)

-- `add_tid` keeps the ring of ids well formed: the indices in range, the tail as many slots past
-- the head as there are ids.
pub add_tid-IsRing : (t : ℕ) (q : TidQueue) → IsRing q → IsRing (add_tid t q)
unfolding add_tid
add_tid-IsRing t q v = ground arith

-- `get_next_tid` keeps the ring of ids well formed.
pub get_next_tid-IsRing : (q : TidQueue) → IsRing q → IsRing (get_next_tid q).1
unfolding get_next_tid
get_next_tid-IsRing q v = ground arith

-- An id that is given back to a well-formed ring comes last; a full ring drops it.
pub add_tid-contents :
    (t : ℕ) (q : TidQueue)
    → IsRing q
    → contents (add_tid t q) ≡ (if q.size == slots_max then contents q else contents q ++ t ∷ [])
unfolding add_tid
add_tid-contents t q v =
    ground (arith, window-update q.slots q.head q.size q.tail t v.head_in v.tail_in)

-- The id that `get_next_tid` returns and those left behind make up the contents of the ring, in
-- their order; an empty ring has none.
pub get_next_tid-contents :
    (q : TidQueue)
    → contents q ≡ (if q.size == 0 then [] else (get_next_tid q).0 ∷ contents (get_next_tid q).1)
unfolding get_next_tid
get_next_tid-contents q = ground (arith, window-pos q.slots q.head q.size)
