-- ===== src/Printf.antt =====
-- RTX/src/board/DE1_SoC_A9/printf.c: formatted output, without `PRINTF_LONG_SUPPORT`. A string is
-- the list of its characters without the NUL, reading the NUL gives 0, and what is put goes to the
-- end of a list. A 32-bit argument is its bit pattern.
pub mod Digits
pub mod Field
pub mod Total
mod Tests
use preemptive_multi_tasked.Prelude.{
  ℕ, zero, suc, ◌+◌, ◌-◌, ◌*◌, ◌/◌, ◌%◌, ◌^◌, Bool, true, false, not, ◌&&◌, ◌||◌, Option, none,
  some, List, [], ◌∷◌, ◌++◌, ltb, leb, ◌==◌, if◌then◌else◌,
}

-- The first loop of `ui2a`, which looks for the place of the first digit.
unfoldable pub find_divisor : (fuel num base d : ℕ) → Option ℕ
find_divisor zero num base d = none
find_divisor (suc fuel) num base d =
    let later = find_divisor fuel num base ((d * base) % 2 ^ 32) in
    if leb base (num / d) then later else some d

abbrev pub digit_char : (uc : Bool) (dgt : ℕ) → ℕ
digit_char uc dgt = if ltb dgt 10 then dgt + 48 else if uc then dgt + 55 else dgt + 87

-- The second loop of `ui2a`; `n` says that a character has been written.
unfoldable pub put_digits : (fuel num base : ℕ) (uc : Bool) (d : ℕ) (n : Bool) → Option (List ℕ)
put_digits zero num base uc d n = none
put_digits (suc fuel) num base uc d n =
    let dgt = num / d in
    let writes = n || ltb 0 dgt || d / base == 0 in
    let later = put_digits fuel (num % d) base uc (d / base) writes in
    if d == 0
    then some []
    else if writes
    then (elim later [ none ↦ none | some bf ↦ some (digit_char uc dgt ∷ bf) ])
    else later

-- A number of 32 bits has at most 32 digits.
abbrev pub max_digits : ℕ
max_digits = 33

unfoldable pub ui2a : (num base : ℕ) (uc : Bool) → Option (List ℕ)
ui2a num base uc = elim (find_divisor max_digits num base 1) [
  | none ↦ none
  | some d ↦ put_digits max_digits num base uc d false
]

-- A negative number gets a minus sign.
unfoldable pub i2a : (num : ℕ) → Option (List ℕ)
i2a num =
    if leb (2 ^ 31) num
    then (elim (ui2a (2 ^ 32 - num) 10 false) [ none ↦ none | some bf ↦ some (45 ∷ bf) ])
    else ui2a num 10 false

-- `none` stands for -1.
unfoldable pub a2d : (ch : ℕ) → Option ℕ
a2d ch =
    if leb 48 ch && leb ch 57
    then some (ch - 48)
    else if leb 97 ch && leb ch 102
    then some (ch - 97 + 10)
    else if leb 65 ch && leb ch 70
    then some (ch - 65 + 10)
    else none

-- The loop of `a2i`: the character it stops at, what is left of the string, and the number.
unfoldable pub a2i_loop : (src : List ℕ) (ch base num : ℕ) → ℕ × List ℕ × ℕ
a2i_loop [] ch base num = elim (a2d ch) [
  | none ↦ (ch, [], num)
  | some digit ↦ if ltb base digit then (ch, [], num) else (0, [], (num * base + digit) % 2 ^ 32)
]
a2i_loop (c ∷ src) ch base num =
    let later : ℕ → ℕ × List ℕ × ℕ = λ digit. a2i_loop src c base ((num * base + digit) % 2 ^ 32) in
    elim (a2d ch) [
      | none ↦ (ch, c ∷ src, num)
      | some digit ↦ if ltb base digit then (ch, c ∷ src, num) else later digit
    ]

abbrev pub a2i : (ch : ℕ) (src : List ℕ) (base : ℕ) → ℕ × List ℕ × ℕ
a2i ch src base = a2i_loop src ch base 0

-- The first loop of `putchw`: what is left of the width.
unfoldable pub width_left : (bf : List ℕ) (n : ℕ) → ℕ
width_left [] n = n
width_left (c ∷ bf) zero = zero
width_left (c ∷ bf) (suc n) = width_left bf n

abbrev pub repeat : (n fc : ℕ) → List ℕ
repeat zero fc = []
repeat (suc n) fc = fc ∷ repeat n fc

-- A width is an `int`; a negative one does not pad.
unfoldable pub putchw : (n : ℕ) (z : Bool) (bf : List ℕ) → List ℕ
putchw n z bf =
    let width = if ltb n (2 ^ 31) then n else 0 in
    repeat (width_left bf width) (if z then 48 else 32) ++ bf

-- The arguments after the format.
pub data Arg : Type 0 where
  word : ℕ → Arg
  text : List ℕ → Arg

-- What becomes of a format: the characters put, or an argument that is missing or of another kind,
-- or a loop that has not ended.
pub data Printed : Type 0 where
  printed : List ℕ → Printed
  undefined : Printed
  endless : Printed

abbrev pub put_before : List ℕ → Printed → Printed
put_before cs (printed out) = printed (cs ++ out)
put_before cs undefined = undefined
put_before cs endless = endless

abbrev pub put_field : Option (List ℕ) → (w : ℕ) (lz : Bool) → Printed → Printed
put_field none w lz rest = endless
put_field (some bf) w lz rest = put_before (putchw w lz bf) rest

-- The next character of a string, and the rest.
abbrev pub next_char : List ℕ → ℕ × List ℕ
next_char [] = (0, [])
next_char (c ∷ cs) = (c, cs)

-- What follows a `%`: the flag for zeros, the width, the conversion and the rest of the format.
unfoldable pub read_spec : (fmt : List ℕ) → Bool × ℕ × ℕ × List ℕ
read_spec fmt =
    let (ch, fmt1) = next_char fmt in
    let lz = ch == 48 in
    let (ch1, fmt2) = if lz then next_char fmt1 else (ch, fmt1) in
    if leb 48 ch1 && leb ch1 57
    then (let (ch2, fmt3, w) = a2i ch1 fmt2 10 in (lz, w, ch2, fmt3))
    else (lz, 0, ch1, fmt2)

-- The argument for one conversion; `go` prints the rest of the format with the other arguments.
unfoldable pub convert : (lz : Bool) (w ch : ℕ) (va : List Arg) (go : List Arg → Printed) → Printed
convert lz w ch [] go =
    if ch == 37
    then put_before (37 ∷ []) (go [])
    else if ch == 117 || ch == 100 || ch == 120 || ch == 88 || ch == 99 || ch == 115
    then undefined
    else go []
convert lz w ch (word v ∷ va) go =
    if ch == 117
    then put_field (ui2a v 10 false) w lz (go va)
    else if ch == 100
    then put_field (i2a v) w lz (go va)
    else if ch == 120
    then put_field (ui2a v 16 false) w lz (go va)
    else if ch == 88
    then put_field (ui2a v 16 true) w lz (go va)
    else if ch == 99
    then put_before (v % 256 ∷ []) (go va)
    else if ch == 115
    then undefined
    else if ch == 37
    then put_before (37 ∷ []) (go (word v ∷ va))
    else go (word v ∷ va)
convert lz w ch (text s ∷ va) go =
    if ch == 115
    then put_before (putchw w false s) (go va)
    else if ch == 117 || ch == 100 || ch == 120 || ch == 88 || ch == 99
    then undefined
    else if ch == 37
    then put_before (37 ∷ []) (go (text s ∷ va))
    else go (text s ∷ va)

unfoldable pub tfp_format : (fuel : ℕ) (fmt : List ℕ) (va : List Arg) → Printed
tfp_format zero fmt va = endless
tfp_format (suc fuel) [] va = printed []
tfp_format (suc fuel) (ch ∷ fmt) va =
    let plain = tfp_format fuel fmt va in
    let (lz, w, conversion, rest) = read_spec fmt in
    if not (ch == 37)
    then put_before (ch ∷ []) plain
    else if conversion == 0
    then printed []
    else convert lz w conversion va (λ va'. tfp_format fuel rest va')
