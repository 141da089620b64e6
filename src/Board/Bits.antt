-- ===== src/Board/Bits.antt =====
-- Fields of register words: `&= ~mask` and `|= value << shift`, written with the arithmetic of the
-- bits concerned.
use preemptive_multi_tasked.Prelude.{
  ℕ, ◌+◌, ◌-◌, ◌*◌, ◌/◌, ◌%◌, ◌≡◌, true, false, update, Bool-cases, ==_iff, inl, inr, refl, ap, sym,
  ◌∙◌, ◌==◌, if◌then◌else◌, arith,
}

-- Bit `b`, where `b` is a power of two, of a word.
abbrev pub bit : (b n : ℕ) → ℕ
bit b n = (n / b) % 2

abbrev pub clear_bit : (b n : ℕ) → ℕ
clear_bit b n = n - bit b n * b

abbrev pub set_bit : (b n : ℕ) → ℕ
set_bit b n = clear_bit b n + b

-- The byte of interrupt `n` in its word: four interrupts share one.
unfoldable pub get_byte : (n word : ℕ) → ℕ
get_byte n word =
    if n % 4 == 0
    then word % 256
    else if n % 4 == 1
    then (word / 256) % 256
    else if n % 4 == 2
    then (word / 65536) % 256
    else (word / 16777216) % 256

unfoldable pub set_byte : (n value word : ℕ) → ℕ
set_byte n value word =
    if n % 4 == 0
    then word - word % 256 + value % 256
    else if n % 4 == 1
    then word - (word / 256) % 256 * 256 + value % 256 * 256
    else if n % 4 == 2
    then word - (word / 65536) % 256 * 65536 + value % 256 * 65536
    else word - (word / 16777216) % 256 * 16777216 + value % 256 * 16777216

pub get_byte-set_byte : (n value word : ℕ) → get_byte n (set_byte n value word) ≡ value % 256
unfolding get_byte set_byte
get_byte-set_byte n value word = ground arith

pub get_byte_other :
    (n k value word : ℕ)
    → (n % 4 == k % 4) ≡ false
    → get_byte k (set_byte n value word) ≡ get_byte k word
unfolding get_byte set_byte
get_byte_other n k value word h = ground arith

-- Writing the byte of one interrupt among the words of all.
pub get_byte-update :
    (n k value : ℕ) (words : ℕ → ℕ)
    → get_byte k (update words (n / 4) (set_byte n value (words (n / 4))) (k / 4))
      ≡ (if k == n then value % 256 else get_byte k (words (k / 4)))
get_byte-update n k value words = elim (Bool-cases (k / 4 == n / 4)) [
  | inr apart ↦ let other : (k == n) ≡ false = ground arith in rw (apart, other) refl
  | inl same ↦
      let word : k / 4 ≡ n / 4 = (==_iff (k / 4) (n / 4)).0 same in
      elim (Bool-cases (n % 4 == k % 4)) [
        | inl place ↦
            let own : k ≡ n = omega (arith, (==_iff (n % 4) (k % 4)).0 place) in
            let here : (k == n) ≡ true = ground arith in
            rw (same, here, own) (get_byte-set_byte n value (words (n / 4)))
        | inr place ↦
            let other : (k == n) ≡ false = ground arith in
            rw (same, other)
              (get_byte_other n k value (words (n / 4)) place
                ∙ ap (λ w. get_byte k (words w)) (sym word))
      ]
]
