-- ===== src/Libc/Stdio/Digits.antt =====
-- The digits of lethe-libc/stdio.c: which text they are.
use mathlib.Core.Path.{subst}
use native.Mathlib.Decide.{ℕ_discrete, dec_lt}
use native.Mathlib.Nat.{pow-suc, pow-zero, div-eq_of_lt, div-lt_iff_lt-mul}
use uefi_bare_bones.Prelude.{
  ℕ, zero, suc, ◌+◌, ◌-◌, ◌*◌, ◌/◌, ◌%◌, ◌^◌, ◌≤◌, ◌<◌, ◌≡◌, ◌≢◌, sym, ap, true, false, List, [],
  ◌∷◌, arith, ltb, ◌==◌, if◌then◌else◌,
}
use uefi_bare_bones.Libc.Stdio.{Flags, digit_char, ntoa_digits}

-- The character of a digit: from '0' on, and from 10 on beginning with a letter.
pub data IsDigit (letter d : ℕ) : ℕ → Type 0 where
  decimal_digit : d < 10 → IsDigit letter d (b'0' + d)
  letter_digit : 10 ≤ d → IsDigit letter d (letter + (d - 10))

-- The numeral of a number in a base, its lowest digit first and without zeros in front.
pub data IsNumeral (base letter : ℕ) : ℕ → List ℕ → Type 0 where
  one_digit : (d c : ℕ) → d < base → IsDigit letter d c → IsNumeral base letter d (c ∷ [])
  more_digits :
      (d c n : ℕ) (cs : List ℕ)
      → d < base
      → IsDigit letter d c
      → n ≢ 0
      → IsNumeral base letter n cs
      → IsNumeral base letter (d + base * n) (c ∷ cs)

-- The letter that the digits from 10 on begin with.
abbrev pub first_letter : Flags → ℕ
first_letter flags = if flags.upper then b'A' else b'a'

digit_char-IsDigit : (flags : Flags) (d : ℕ) → IsDigit (first_letter flags) d (digit_char flags d)
digit_char-IsDigit flags d = elim (dec_lt d 10) [
  | yes low ↦
      let t : ltb d 10 ≡ true = ground arith in
      let c : b'0' + d ≡ digit_char flags d = rw t (omega arith) in
      subst (λ (c : ℕ). IsDigit (first_letter flags) d c) c (decimal_digit low)
  | no high ↦
      let t : ltb d 10 ≡ false = ground arith in
      let c : first_letter flags + (d - 10) ≡ digit_char flags d = rw t (omega arith) in
      subst (λ (c : ℕ). IsDigit (first_letter flags) d c) c (letter_digit (omega arith))
]

last_digit :
    (rounds : ℕ) (flags : Flags) (base value : ℕ)
    → 2 ≤ base
    → value / base ≡ 0
    → IsNumeral base (first_letter flags) value (ntoa_digits (suc rounds) flags base value)
unfolding ntoa_digits
last_digit rounds flags base value lo e =
    let t : (value / base == 0) ≡ true = ground arith in
    let none_left = ap (λ (q : ℕ). base * q) e in
    let same : value % base ≡ value = omega (arith, none_left) in
    let below : value < base = omega (arith, none_left) in
    rw (t, same) (one_digit value (digit_char flags value) below (digit_char-IsDigit flags value))

another_digit :
    (rounds : ℕ) (flags : Flags) (base value : ℕ)
    → 2 ≤ base
    → value / base ≢ 0
    → IsNumeral base
        (first_letter flags)
        (value / base)
        (ntoa_digits rounds flags base (value / base))
    → IsNumeral base (first_letter flags) value (ntoa_digits (suc rounds) flags base value)
unfolding ntoa_digits
another_digit rounds flags base value lo ne rest =
    let t : (value / base == 0) ≡ false = ground arith in
    let parts : value % base + base * (value / base) ≡ value = omega arith in
    let digits =
      more_digits (value % base) (digit_char flags (value % base)) (value / base)
        (ntoa_digits rounds flags base (value / base)) (omega arith)
        (digit_char-IsDigit flags (value % base)) ne rest in
    rw t (
      subst
        (λ (n : ℕ).
          IsNumeral base (first_letter flags) n
            (digit_char flags (value % base) ∷ ntoa_digits rounds flags base (value / base)))
        parts digits)

-- Where the rounds are enough, the digits are the numeral of the value.
pub ntoa_digits-IsNumeral :
    (rounds : ℕ) (flags : Flags) (base value : ℕ)
    → 2 ≤ base
    → value < base ^ suc rounds
    → IsNumeral base (first_letter flags) value (ntoa_digits (suc rounds) flags base value)
ntoa_digits-IsNumeral zero flags base value lo h =
    let p : base ^ 1 ≡ base = rw (pow-suc, pow-zero) (omega arith) in
    last_digit zero flags base value lo (div-eq_of_lt (omega arith))
ntoa_digits-IsNumeral (suc rounds) flags base value lo h = elim (ℕ_discrete (value / base) 0) [
  | yes e ↦ last_digit (suc rounds) flags base value lo e
  | no ne ↦
      let below : value < base ^ suc rounds * base = rw (sym (pow-suc base (suc rounds))) h in
      let less : value / base < base ^ suc rounds =
        (div-lt_iff_lt-mul {k = base} {x = value} {y = base ^ suc rounds} (omega arith)).1 below in
      let ih = ntoa_digits-IsNumeral rounds flags base (value / base) lo less in
      another_digit (suc rounds) flags base value lo ne ih
]
