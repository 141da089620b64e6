-- ===== src/Printf/Digits.antt =====
-- The conversion of numbers to digits: its loops, and the room in the buffer of `tfp_format`.
use preemptive_multi_tasked.Prelude.{
  ℕ, zero, suc, ◌-◌, ◌*◌, ◌/◌, ◌%◌, ◌^◌, ◌≤◌, ◌<◌, ◌≡◌, refl, ap, Bool, true, false, ◌||◌, some,
  List, [], ◌∷◌, ltb, leb, ◌==◌, arith, length, Bool-cases, inl, inr, leb→le, ◌∙◌,
}
use native.Mathlib.Nat.{le-div_iff_mul-le, div-lt_iff_lt-mul, mod-eq_of_lt, one-le-mul}
use preemptive_multi_tasked.Printf.{find_divisor, put_digits, digit_char, ui2a, i2a}

-- What `d` grows to in `fuel` rounds.
abbrev grown : (fuel base d : ℕ) → ℕ
grown zero base d = d
grown (suc fuel) base d = grown fuel base (d * base)

find_divisor_step :
    (fuel num base d : ℕ)
    → leb base (num / d) ≡ true
    → d * base < 2 ^ 32
    → find_divisor (suc fuel) num base d ≡ find_divisor fuel num base (d * base)
unfolding find_divisor
find_divisor_step fuel num base d on small =
    rw on (ap (find_divisor fuel num base) (mod-eq_of_lt small))

find_divisor_stop :
    (fuel num base d : ℕ) → leb base (num / d) ≡ false → find_divisor (suc fuel) num base d ≡ some d
unfolding find_divisor
find_divisor_stop fuel num base d stop = rw stop refl

product_le : (num base d : ℕ) → 1 ≤ d → leb base (num / d) ≡ true → base * d ≤ num
product_le num base d n on = (le-div_iff_mul-le n).0 (leb→le base (num / d) on)

-- The first loop ends with a number of 32 bits, if `d` would outgrow the number in time.
find_divisor_ends :
    (fuel num base d : ℕ)
    → 1 ≤ base
    → 1 ≤ d
    → d < 2 ^ 32
    → num < 2 ^ 32
    → num < grown (suc fuel) base d
    → (d' : ℕ) × (find_divisor (suc fuel) num base d ≡ some d') × (d' < 2 ^ 32)
find_divisor_ends zero num base d b n small h grows = elim (Bool-cases (leb base (num / d))) [
  | inr stop ↦ (d, find_divisor_stop zero num base d stop, small)
  | inl on ↦ absurd (omega (arith, product_le num base d n on))
]
find_divisor_ends (suc fuel) num base d b n small h grows = elim (Bool-cases (leb base (num / d))) [
  | inr stop ↦ (d, find_divisor_stop (suc fuel) num base d stop, small)
  | inl on ↦
      let le = product_le num base d n on in
      let (d', e, lt) =
        find_divisor_ends fuel num base (d * base) b (one-le-mul n b) (omega (arith, le)) h grows in
      (d', find_divisor_step (suc fuel) num base d on (omega (arith, le)) ∙ e, lt)
]

-- The powers of the base.
abbrev powers : (base k : ℕ) → ℕ
powers base zero = 1
powers base (suc k) = base * powers base k

put_digits-length :
    (k fuel num base d : ℕ) (uc n : Bool)
    → 1 ≤ base
    → d < powers base k
    → k < fuel
    → (bf : List ℕ) × (put_digits fuel num base uc d n ≡ some bf) × (length bf ≤ k)
unfolding put_digits
put_digits-length k zero num base d uc n b h f = elim f [ ]
put_digits-length zero (suc fuel) num base d uc n b h f = ([], ground arith, omega arith)
put_digits-length (suc k) (suc fuel) num base d uc n b h f =
    let writes = n || ltb 0 (num / d) || d / base == 0 in
    let (bf, e, le) =
      put_digits-length k fuel (num % d) base (d / base) uc writes b
        ((div-lt_iff_lt-mul b).1 (omega (arith, h))) (omega arith) in
    elim (Bool-cases (d == 0)) [
      | inl z ↦ ([], rw z refl, omega arith)
      | inr nz ↦ elim (Bool-cases writes) [
        | inl w ↦ (digit_char uc (num / d) ∷ bf, rw (e, nz, w) refl, omega (arith, le))
        | inr w ↦ (bf, rw (e, nz, w) refl, omega (arith, le))
      ]
    ]

-- A number of 32 bits has at most `k` digits if it is less than the power `k` of the base.
ui2a_ends :
    (k num base : ℕ) (uc : Bool)
    → 1 ≤ base
    → 2 ^ 32 ≤ powers base k
    → k < 33
    → 2 ^ 32 ≤ grown 33 base 1
    → num < 2 ^ 32
    → (bf : List ℕ) × (ui2a num base uc ≡ some bf) × (length bf ≤ k)
unfolding ui2a
ui2a_ends k num base uc b enough few grows h =
    let (d, e, lt) =
      find_divisor_ends 32 num base 1 b (omega arith) (omega arith) h (omega arith) in
    let (bf, e', le) = put_digits-length k 33 num base d uc false b (omega arith) few in
    (bf, rw (e, e', ui2a) refl, le)

pub ui2a_decimal :
    (num : ℕ) (uc : Bool)
    → num < 2 ^ 32
    → (bf : List ℕ) × (ui2a num 10 uc ≡ some bf) × (length bf ≤ 10)
ui2a_decimal num uc h =
    ui2a_ends 10 num 10 uc (omega arith) (omega arith) (omega arith) (omega arith) h

pub ui2a_hexadecimal :
    (num : ℕ) (uc : Bool)
    → num < 2 ^ 32
    → (bf : List ℕ) × (ui2a num 16 uc ≡ some bf) × (length bf ≤ 8)
ui2a_hexadecimal num uc h =
    ui2a_ends 8 num 16 uc (omega arith) (omega arith) (omega arith) (omega arith) h

-- `i2a` ends for every `int` and writes at most eleven characters, so that with the NUL they fit
-- into the twelve bytes of `bf`.
pub i2a-length : (num : ℕ) → num < 2 ^ 32 → (bf : List ℕ) × (i2a num ≡ some bf) × (length bf ≤ 11)
unfolding i2a
i2a-length num h = elim (Bool-cases (leb (2 ^ 31) num)) [
  | inl neg ↦
      let (bf, e, le) =
        ui2a_decimal (2 ^ 32 - num) false (omega (arith, leb→le (2 ^ 31) num neg)) in
      (45 ∷ bf, rw (neg, e) refl, omega (arith, le))
  | inr pos ↦
      let (bf, e, le) = ui2a_decimal num false h in (bf, rw (pos, e) refl, omega (arith, le))
]
