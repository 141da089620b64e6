-- ===== src/Kcd/Line.antt =====
-- What the keyboard command decoder makes of a line.
use preemptive_multi_tasked.Prelude.{
  ℕ, zero, suc, ◌+◌, ◌-◌, ◌^◌, ◌≤◌, ◌<◌, ◌≡◌, refl, ap, ◌∙◌, ◌&&◌, List, [], ◌∷◌, ltb, leb,
  if◌then◌else◌, update, arith, length,
}
use preemptive_multi_tasked.Msg.{load32}
use preemptive_multi_tasked.Kcd.{Kcd, kcd_key, copy_line, line_message, store32, limit_of}

-- Keys typed one after the other.
abbrev pub kcd_keys : List ℕ → Kcd → Kcd
kcd_keys [] d = d
kcd_keys (c ∷ cs) d = kcd_keys cs (kcd_key c d)

-- The character at an index, 0 behind the end.
abbrev pub char_at : List ℕ → ℕ → ℕ
char_at [] i = 0
char_at (c ∷ cs) zero = c
char_at (c ∷ cs) (suc i) = char_at cs i

pub char_at_pos : (c : ℕ) (cs : List ℕ) (n : ℕ) → 0 < n → char_at (c ∷ cs) n ≡ char_at cs (n - 1)
char_at_pos c cs zero h = elim h [ ]
char_at_pos c cs (suc n) h = ap (char_at cs) (omega arith)

char_at_same : (c : ℕ) (cs : List ℕ) (n : ℕ) → n ≡ 0 → char_at (c ∷ cs) n ≡ c
char_at_same c cs zero h = refl
char_at_same c cs (suc n) h = absurd (ground arith)

minus_suc : (i n : ℕ) → i - n - 1 ≡ i - (n + 1)
minus_suc i n = omega arith

-- Keys typed into a line that stays within 64 characters stand in the buffer one after the other
-- from the old end on, every other place is as it was, and the length has grown by their number.
pub kcd_keys-input_buf :
    (cs : List ℕ) (d : Kcd) (i : ℕ)
    → d.tail + length cs ≤ 64
    → ((kcd_keys cs d).tail ≡ d.tail + length cs)
      × ((kcd_keys cs d).input_buf i ≡ (
          if leb d.tail i && ltb i (d.tail + length cs)
          then char_at cs (i - d.tail)
          else d.input_buf i))
unfolding kcd_key
kcd_keys-input_buf [] d i h = ground arith
kcd_keys-input_buf (c ∷ cs) d i h =
    let (tail, buf) = kcd_keys-input_buf cs (kcd_key c d) i (ground arith) in
    (
      omega (arith, tail),
      ground (
        arith,
        buf,
        char_at_pos c cs (i - d.tail),
        char_at_same c cs (i - d.tail),
        ap (char_at cs) (minus_suc i d.tail),
      ),
    )

copy_line-bytes :
    (rounds i dest a : ℕ) (buf bytes : ℕ → ℕ)
    → 1 ≤ i
    → copy_line rounds i dest buf bytes a ≡ (
        if leb (dest + (i - 1)) a && ltb a (dest + (i - 1) + rounds)
        then buf (a - dest + 1)
        else bytes a)
unfolding copy_line
copy_line-bytes zero i dest a buf bytes h = ground arith
copy_line-bytes (suc rounds) i dest a buf bytes h =
    let next : dest + i ≡ dest + (i - 1) + 1 = omega arith in
    ground (
      arith,
      copy_line-bytes rounds (i + 1) dest a buf (update bytes (dest + (i - 1)) (buf i))
          (omega arith),
    )

load32-store32 : (p v : ℕ) (bytes : ℕ → ℕ) → v < 2 ^ 32 → load32 (store32 p v bytes) p ≡ v
load32-store32 p v bytes h = ground arith

load32-store32_apart :
    (p v : ℕ) (bytes : ℕ → ℕ) → load32 (store32 (p + 4) v bytes) p ≡ load32 bytes p
load32-store32_apart p v bytes = ground arith

load32_same :
    (p : ℕ) (f g : ℕ → ℕ) → ((i : ℕ) → i < 4 → f (p + i) ≡ g (p + i)) → load32 f p ≡ load32 g p
load32_same p f g h =
    let at_0 : f p ≡ g p = ap f (omega arith) ∙ h 0 (omega arith) ∙ ap g (omega arith) in
    omega (arith, at_0, h 1 (omega arith), h 2 (omega arith), h 3 (omega arith))

copy_line_header :
    (n p a : ℕ) (buf bytes : ℕ → ℕ) → a < p + 8 → copy_line n 1 (p + 8) buf bytes a ≡ bytes a
copy_line_header n p a buf bytes h =
    ground (arith, copy_line-bytes n 1 (p + 8) a buf bytes (omega arith))

copy_line_body :
    (n p i : ℕ) (buf bytes : ℕ → ℕ)
    → i < n
    → copy_line n 1 (p + 8) buf bytes (p + 8 + i) ≡ buf (i + 1)
copy_line_body n p i buf bytes h =
    let place : p + 8 + i - (p + 8) + 1 ≡ i + 1 = omega arith in
    ground (arith, copy_line-bytes n 1 (p + 8) (p + 8 + i) buf bytes (omega arith), ap buf place)

limit_le : (d : Kcd) → limit_of d ≤ 64
limit_le d = ground arith

-- The message for a line has in its header the length of the header and of the line without its
-- first character, of at most 64 characters in all, and the type of a key, and then the characters
-- of the line from the second on.
pub line_message-bytes :
    (p : ℕ) (d : Kcd) (bytes : ℕ → ℕ)
    → (load32 (line_message p d bytes) p ≡ 8 + limit_of d - 1)
      × (load32 (line_message p d bytes) (p + 4) ≡ 4)
      × ((i : ℕ) → i + 1 < limit_of d → line_message p d bytes (p + 8 + i) ≡ d.input_buf (i + 1))
unfolding line_message
line_message-bytes p d bytes =
    let header = store32 (p + 4) 4 (store32 p (8 + limit_of d - 1) bytes) in
    let n = limit_of d - 1 in
    let kept = λ (a : ℕ) (h : a < p + 8). copy_line_header n p a d.input_buf header h in
    (
      load32_same p (copy_line n 1 (p + 8) d.input_buf header) header
            (λ i h. kept (p + i) (omega arith))
          ∙ load32-store32_apart p 4 (store32 p (8 + limit_of d - 1) bytes)
          ∙ load32-store32 p (8 + limit_of d - 1) bytes (omega (arith, limit_le d)),
      load32_same (p + 4) (copy_line n 1 (p + 8) d.input_buf header) header
            (λ i h. kept (p + 4 + i) (omega arith))
          ∙ load32-store32 (p + 4) 4 (store32 p (8 + limit_of d - 1) bytes) (omega arith),
      λ i h. copy_line_body n p i d.input_buf header (omega arith),
    )
