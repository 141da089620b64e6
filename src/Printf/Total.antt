-- ===== src/Printf/Total.antt =====
-- The loop of `tfp_format` on any format.
use preemptive_multi_tasked.Prelude.{
  ℕ, zero, suc, ◌≤◌, ◌<◌, ◌^◌, ◌+◌, ◌*◌, ◌%◌, ◌≡◌, refl, Bool, true, false, some, Option, List, [],
  ◌∷◌, arith, length, ltb, Bool-cases, Option-cases, inl, inr,
}
use preemptive_multi_tasked.Printf.{
  Arg, word, text, Printed, printed, undefined, endless, put_before, put_field, next_char, a2d,
  a2i_loop, read_spec, convert, putchw, ui2a, i2a, tfp_format,
}
use preemptive_multi_tasked.Printf.Digits.{ui2a_decimal, ui2a_hexadecimal, i2a-length}

-- A word argument has 32 bits.
abbrev pub IsArgs : List Arg → Type 0
IsArgs [] = Unit {0}
IsArgs (word v ∷ va) = (v < 2 ^ 32) × IsArgs va
IsArgs (text s ∷ va) = IsArgs va

abbrev pub has_ended : Printed → Bool
has_ended (printed out) = true
has_ended undefined = true
has_ended endless = false

has_ended-put_before :
    (cs : List ℕ) (r : Printed) → has_ended r ≡ true → has_ended (put_before cs r) ≡ true
has_ended-put_before cs (printed out) h = refl
has_ended-put_before cs undefined h = refl
has_ended-put_before cs endless h = h

has_ended-put_field :
    (o : Option (List ℕ)) (bf : List ℕ) (w : ℕ) (lz : Bool) (r : Printed)
    → o ≡ some bf
    → has_ended r ≡ true
    → has_ended (put_field o w lz r) ≡ true
has_ended-put_field o bf w lz r e h = rw e (has_ended-put_before _ r h)

-- Reading a number leaves no more of the string than there was.
length-a2i_loop :
    (src : List ℕ) (ch base num : ℕ) → length (a2i_loop src ch base num).1 ≤ length src
unfolding a2i_loop
length-a2i_loop [] ch base num = elim (Option-cases (a2d ch)) [
  | inl e ↦ rw (e, a2i_loop) (omega arith)
  | inr (digit, e) ↦ elim (Bool-cases (ltb base digit)) [
    | inl b ↦ rw (e, b, a2i_loop) (omega arith)
    | inr b ↦ rw (e, b, a2i_loop) (omega arith)
  ]
]
length-a2i_loop (c ∷ src) ch base num = elim (Option-cases (a2d ch)) [
  | inl e ↦ rw (e, a2i_loop) (omega arith)
  | inr (digit, e) ↦ elim (Bool-cases (ltb base digit)) [
    | inl b ↦ rw (e, b, a2i_loop) (omega arith)
    | inr b ↦
        let next = length-a2i_loop src c base ((num * base + digit) % 2 ^ 32) in
        rw (e, b, a2i_loop) (omega (arith, next))
  ]
]

length-next_char : (fmt : List ℕ) → length (next_char fmt).1 ≤ length fmt
length-next_char [] = omega arith
length-next_char (c ∷ fmt) = omega arith

length-read_spec : (fmt : List ℕ) → length (read_spec fmt).3 ≤ length fmt
unfolding read_spec
length-read_spec fmt =
    let (ch, fmt1) = next_char fmt in
    ground (
      arith,
      length-next_char fmt,
      length-next_char fmt1,
      length-a2i_loop fmt1 ch 10 0,
      length-a2i_loop (next_char fmt1).1 (next_char fmt1).0 10 0,
    )

module _ (lz : Bool) (w ch : ℕ) (go : List Arg → Printed)
    (ends : (va : List Arg) → IsArgs va → has_ended (go va) ≡ true) where
  has_ended-convert : (va : List Arg) → IsArgs va → has_ended (convert lz w ch va go) ≡ true
  unfolding convert
  has_ended-convert [] h =
      ground (arith, has_ended-put_before (37 ∷ []) (go []) (ends [] tt), ends [] tt)
  has_ended-convert (word v ∷ va) (small, h) =
      let (u, eu, lu) = ui2a_decimal v false small in
      let (i, ei, li) = i2a-length v small in
      let (x, ex, lx) = ui2a_hexadecimal v false small in
      let (y, ey, ly) = ui2a_hexadecimal v true small in
      ground (
        arith,
        has_ended-put_field (ui2a v 10 false) u w lz (go va) eu (ends va h),
        has_ended-put_field (i2a v) i w lz (go va) ei (ends va h),
        has_ended-put_field (ui2a v 16 false) x w lz (go va) ex (ends va h),
        has_ended-put_field (ui2a v 16 true) y w lz (go va) ey (ends va h),
        has_ended-put_before (v % 256 ∷ []) (go va) (ends va h),
        has_ended-put_before (37 ∷ []) (go (word v ∷ va)) (ends (word v ∷ va) (small, h)),
        ends (word v ∷ va) (small, h),
      )
  has_ended-convert (text s ∷ va) h = ground (
    arith,
    has_ended-put_before (putchw w false s) (go va) (ends va h),
    has_ended-put_before (37 ∷ []) (go (text s ∷ va)) (ends (text s ∷ va) h),
    ends (text s ∷ va) h,
  )

-- `tfp_format` ends on every format and all arguments of 32 bits, with the characters put or at an
-- argument that is missing or of another kind, given more rounds than the format has characters.
pub has_ended-tfp_format :
    (fuel : ℕ) (fmt : List ℕ) (va : List Arg)
    → length fmt < fuel
    → IsArgs va
    → has_ended (tfp_format fuel fmt va) ≡ true
unfolding tfp_format
has_ended-tfp_format zero fmt va f h = elim f [ ]
has_ended-tfp_format (suc fuel) [] va f h = refl
has_ended-tfp_format (suc fuel) (ch ∷ fmt) va f h =
    let rest = (read_spec fmt).3 in
    let shorter = length-read_spec fmt in
    ground (
      arith,
      has_ended-put_before (ch ∷ []) (tfp_format fuel fmt va)
          (has_ended-tfp_format fuel fmt va (omega arith) h),
      has_ended-convert (read_spec fmt).0 (read_spec fmt).1 (read_spec fmt).2
          (λ va'. tfp_format fuel rest va')
          (λ va' h'. has_ended-tfp_format fuel rest va' (omega (arith, shorter)) h') va h,
    )
