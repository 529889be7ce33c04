-- ===== src/Libc/Stdio/Format/Bare.antt =====
-- The digits that lethe-libc/stdio.c prints without flags, width and precision.
use native.Mathlib.Nat.{pow-suc, pow-zero}
use uefi_bare_bones.Prelude.{
  append_assoc, append-nil, ℕ, zero, suc, ◌-◌, ◌/◌, ◌^◌, ◌≤◌, ◌<◌, ◌≡◌, refl, sym, ap, ◌∙◌, Bool,
  true, false, ◌&&◌, List, [], ◌∷◌, ◌++◌, arith, ltb, ◌==◌, if◌then◌else◌, length,
}
use uefi_bare_bones.Libc.Stdio.{
  Output, Flags, ntoa_max, putchar, put_blanks, put_reversed, print_reverse, push, fill_zeros,
  pad_zeros, push_prefix, push_sign, ntoa_buffer, ntoa, ntoa_digits, ntoa_long,
}

-- `buf[--len]` from the end.
abbrev pub backwards : List ℕ → List ℕ
backwards [] = []
backwards (c ∷ buf) = backwards buf ++ (c ∷ [])

pub put_reversed_lem :
    (buf : List ℕ) (out : Output) → (put_reversed buf out).text ≡ out.text ++ backwards buf
unfolding put_reversed putchar
put_reversed_lem [] out = sym (append-nil out.text)
put_reversed_lem (c ∷ buf) out =
    ap (λ (t : List ℕ). t ++ (c ∷ [])) (put_reversed_lem buf out)
    ∙ append_assoc out.text (backwards buf) (c ∷ [])

-- Flags that are cleared but for the capitals.
abbrev pub bare : Bool → Flags
bare upper = record {
  zeropad = false;
  left = false;
  plus = false;
  space = false;
  hash = false;
  upper = upper;
  char = false;
  short = false;
  long = false;
  long_long = false;
  precision = false;
}

fill_zeros-none : (rounds : ℕ) (buf : List ℕ) → fill_zeros rounds 0 buf ≡ buf
unfolding fill_zeros
fill_zeros-none zero buf = refl
fill_zeros-none (suc rounds) buf =
    let t : ltb (length buf) 0 ≡ false = ground arith in
    ap (λ (b : Bool). fill_zeros rounds 0 (if b then push b'0' buf else buf)) t
    ∙ fill_zeros-none rounds buf

pad_zeros-bare : (buf : List ℕ) (upper : Bool) → pad_zeros buf (bare upper) 0 0 ≡ buf
unfolding pad_zeros
pad_zeros-bare buf upper = fill_zeros-none ntoa_max buf

push_sign-bare :
    (buf : List ℕ) (base : ℕ) (upper negative : Bool)
    → push_sign (push_prefix buf (bare upper) 0 0 base) (bare upper) negative
      ≡ (if negative then push b'-' buf else buf)
unfolding push_prefix push_sign
push_sign-bare buf base upper negative = refl

ntoa_buffer-bare :
    (buf : List ℕ) (base : ℕ) (upper negative : Bool)
    → ntoa_buffer buf (bare upper) 0 0 base negative ≡ (if negative then push b'-' buf else buf)
unfolding ntoa_buffer
ntoa_buffer-bare buf base upper negative =
    ap (λ (b : List ℕ). push_sign (push_prefix b (bare upper) 0 0 base) (bare upper) negative)
      (pad_zeros-bare buf upper)
    ∙ push_sign-bare buf base upper negative

print_reverse-bare :
    (buf : List ℕ) (upper : Bool) (out : Output)
    → print_reverse buf (bare upper) 0 out ≡ put_reversed buf out
unfolding print_reverse put_blanks
print_reverse-bare buf upper out =
    let e : 0 - length buf ≡ 0 = omega arith in
    ap (λ (n : ℕ). put_reversed buf (put_blanks n out)) e

-- With bare flags the buffer is printed, with a minus where there is one.
ntoa-bare :
    (buf : List ℕ) (base : ℕ) (upper negative : Bool) (out : Output)
    → ntoa buf (bare upper) 0 0 base negative out
      ≡ put_reversed (if negative then push b'-' buf else buf) out
unfolding ntoa
ntoa-bare buf base upper negative out =
    ap (λ (b : List ℕ). print_reverse b (bare upper) 0 out)
      (ntoa_buffer-bare buf base upper negative)
    ∙ print_reverse-bare (if negative then push b'-' buf else buf) upper out

ntoa_long_lem :
    (value : ℕ) (flags : Flags) (base width precision : ℕ) (out : Output) (negative : Bool)
    → ntoa_long value flags base width precision out negative
      ≡ ntoa
          (if flags.precision && value == 0
            then []
            else ntoa_digits ntoa_max
                (if value == 0 then record flags { hash = false } else flags)
                base
                value)
          (if value == 0 then record flags { hash = false } else flags)
          width
          precision
          base
          negative
          out
unfolding ntoa_long
ntoa_long_lem value flags base width precision out negative = refl

same_choice : {A : Type 0} (b : Bool) (x : A) → (if b then x else x) ≡ x
same_choice true x = refl
same_choice false x = refl

pub ntoa_long-bare :
    (value base : ℕ) (upper negative : Bool) (out : Output)
    → ntoa_long value (bare upper) base 0 0 out negative
      ≡ put_reversed
          (if negative
            then push b'-' (ntoa_digits ntoa_max (bare upper) base value)
            else ntoa_digits ntoa_max (bare upper) base value)
          out
ntoa_long-bare value base upper negative out =
    ntoa_long_lem value (bare upper) base 0 0 out negative
    ∙ ap (λ (f : Flags). ntoa (ntoa_digits ntoa_max f base value) f 0 0 base negative out)
        (same_choice (value == 0) (bare upper))
    ∙ ntoa-bare (ntoa_digits ntoa_max (bare upper) base value) base upper negative out

pub backwards-append : (buf : List ℕ) (c : ℕ) → backwards (buf ++ (c ∷ [])) ≡ c ∷ backwards buf
backwards-append [] c = refl
backwards-append (d ∷ buf) c = ap (λ (t : List ℕ). t ++ (d ∷ [])) (backwards-append buf c)

-- A number below 10 ^ k has at most `k` digits, and 0 has one.
pub length-ntoa_digits :
    (k rounds value : ℕ) (flags : Flags)
    → value < 10 ^ suc k
    → length (ntoa_digits rounds flags 10 value) ≤ suc k
unfolding ntoa_digits
length-ntoa_digits k zero value flags h = omega arith
length-ntoa_digits zero (suc rounds) value flags h =
    let e : value / 10 ≡ 0 = omega (arith, pow-suc 10 0, pow-zero 10) in
    let t : (value / 10 == 0) ≡ true = ground arith in rw t (omega arith)
length-ntoa_digits (suc k) (suc rounds) value flags h =
    let l = length-ntoa_digits k rounds (value / 10) flags (omega (arith, pow-suc 10 (suc k))) in
    ground arith
