-- ===== src/Printf/Field.antt =====
-- The fields of `putchw`, the widths of `a2i`, and formats without conversions.
use preemptive_multi_tasked.Prelude.{
  ℕ, zero, suc, ◌+◌, ◌-◌, ◌*◌, ◌%◌, ◌^◌, ◌≤◌, ◌<◌, ◌≡◌, ◌≢◌, refl, ap, Bool, false, none, some,
  List, [], ◌∷◌, ◌++◌, ltb, ◌==◌, if◌then◌else◌, arith, length, ge→ltb, ◌∙◌,
}
use preemptive_multi_tasked.Fifo.Queue.{All}
use preemptive_multi_tasked.Printf.{
  width_left, repeat, putchw, a2i, a2i_loop, a2d, Arg, printed, tfp_format,
}

width_left_lem : (bf : List ℕ) (n : ℕ) → width_left bf n ≡ n - length bf
unfolding width_left
width_left_lem [] n = omega arith
width_left_lem (c ∷ bf) zero = omega arith
width_left_lem (c ∷ bf) (suc n) = omega (arith, width_left_lem bf n)

-- `putchw` puts the characters of the buffer after as many zeros or blanks as they are fewer than
-- the width; a negative width does not pad.
pub putchw-repeat :
    (n : ℕ) (z : Bool) (bf : List ℕ)
    → putchw n z bf
      ≡ repeat (if ltb n (2 ^ 31) then n - length bf else 0) (if z then 48 else 32) ++ bf
unfolding putchw
putchw-repeat n z bf = ground (arith, width_left_lem bf n, width_left_lem bf 0)

a2i_loop_stop :
    (src : List ℕ) (ch base num : ℕ) → a2d ch ≡ none → a2i_loop src ch base num ≡ (ch, src, num)
unfolding a2i_loop
a2i_loop_stop [] ch base num e = rw (e, a2i_loop) refl
a2i_loop_stop (c ∷ src) ch base num e = rw (e, a2i_loop) refl

a2i_loop_digit :
    (c : ℕ) (src : List ℕ) (ch base num digit : ℕ)
    → a2d ch ≡ some digit
    → digit ≤ base
    → a2i_loop (c ∷ src) ch base num ≡ a2i_loop src c base ((num * base + digit) % 2 ^ 32)
unfolding a2i_loop
a2i_loop_digit c src ch base num digit e le =
    let small = ge→ltb base digit le in ground (arith, e, small)

a2d_decimal : (c : ℕ) → 48 ≤ c → c ≤ 57 → a2d c ≡ some (c - 48)
unfolding a2d
a2d_decimal c low high = ground arith

a2d_hex : a2d 97 ≡ some 10
unfolding a2d
a2d_hex = refl

-- `a2i` takes the digit that equals the base for one of the number: with base 10 a decimal digit
-- followed by `a` and by a character that is no digit is read as ten times the decimal digit plus
-- ten, and the `a` is consumed.
pub a2i_takes_base :
    (c x : ℕ) (src : List ℕ)
    → 48 ≤ c
    → c ≤ 57
    → a2d x ≡ none
    → a2i c (97 ∷ x ∷ src) 10 ≡ (x, src, (c - 48) * 10 + 10)
a2i_takes_base c x src low high stop =
    a2i_loop_digit 97 (x ∷ src) c 10 0 (c - 48) (a2d_decimal c low high) (omega arith)
    ∙ a2i_loop_digit x src 97 10 _ 10 a2d_hex (omega arith)
    ∙ a2i_loop_stop src x 10 _ stop
    ∙ ap (λ n. (x, src, n)) (omega arith)

-- A format without `%` is put as it is, whatever the arguments, given more rounds than it has
-- characters.
pub tfp_format_plain :
    (fuel : ℕ) (fmt : List ℕ) (va : List Arg)
    → length fmt < fuel
    → All (λ ch. ch ≢ 37) fmt
    → tfp_format fuel fmt va ≡ printed fmt
unfolding tfp_format
tfp_format_plain zero fmt va f plain = elim f [ ]
tfp_format_plain (suc fuel) [] va f plain = refl
tfp_format_plain (suc fuel) (ch ∷ fmt) va f plain =
    let other : (ch == 37) ≡ false = ground (arith, plain.0) in
    rw (other, tfp_format_plain fuel fmt va (omega arith) plain.1) refl
