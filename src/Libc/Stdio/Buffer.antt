-- ===== src/Libc/Stdio/Buffer.antt =====
-- The buffer of `__ntoa` in lethe-libc/stdio.c has `NTOA_MAX` characters, and no write leaves it.
use uefi_bare_bones.Prelude.{
  ℕ, zero, suc, ◌/◌, ◌≤◌, Bool, true, false, not, ◌&&◌, ◌||◌, List, [], ◌∷◌, arith, ltb, ◌==◌,
  if◌then◌else◌, length, length-append,
}
use uefi_bare_bones.Libc.Stdio.{
  Flags, ntoa_max, push, pop, fill_zeros, pad_zeros, push_prefix, push_sign, ntoa_buffer,
  ntoa_digits,
}

-- A text that fits the buffer.
abbrev pub Fits : List ℕ → Type 0
Fits buf = length buf ≤ ntoa_max

push-Fits : (c : ℕ) (buf : List ℕ) → Fits buf → Fits (push c buf)
push-Fits c buf h = ground (arith, length-append buf (c ∷ []))

length-pop : (buf : List ℕ) → length (pop buf) ≤ length buf
length-pop [] = omega arith
length-pop (c ∷ []) = omega arith
length-pop (c ∷ d ∷ buf) = omega (arith, length-pop (d ∷ buf))

fill_zeros-Fits : (rounds limit : ℕ) (buf : List ℕ) → Fits buf → Fits (fill_zeros rounds limit buf)
unfolding fill_zeros
fill_zeros-Fits zero limit buf h = h
fill_zeros-Fits (suc rounds) limit buf h =
    fill_zeros-Fits rounds limit _ (kept (ltb (length buf) limit))
  where
    kept : (b : Bool) → Fits (if b then push b'0' buf else buf)
    kept true = push-Fits b'0' buf h
    kept false = h

pad_zeros-Fits :
    (buf : List ℕ) (flags : Flags) (width precision : ℕ)
    → Fits buf
    → Fits (pad_zeros buf flags width precision)
unfolding pad_zeros
pad_zeros-Fits buf flags width precision h = kept flags.left flags.zeropad
  where
    precise : Fits (fill_zeros ntoa_max precision buf)
    precise = fill_zeros-Fits ntoa_max precision buf h

    kept :
        (l z : Bool)
        → Fits (
            if l
            then buf
            else if z
            then fill_zeros ntoa_max width (fill_zeros ntoa_max precision buf)
            else fill_zeros ntoa_max precision buf)
    kept true z = h
    kept false true = fill_zeros-Fits ntoa_max width (fill_zeros ntoa_max precision buf) precise
    kept false false = precise

choice-Fits : (b : Bool) (x y : List ℕ) → Fits x → Fits y → Fits (if b then x else y)
choice-Fits true x y hx hy = hx
choice-Fits false x y hx hy = hy

-- The two characters that a prefix may replace are taken off.
room-Fits :
    (b c : Bool) (buf : List ℕ)
    → Fits buf
    → Fits (if b then if c then pop (pop buf) else pop buf else buf)
room-Fits true true buf h = omega (arith, length-pop (pop buf), length-pop buf)
room-Fits true false buf h = omega (arith, length-pop buf)
room-Fits false c buf h = h

marked-Fits :
    (hex binary : Bool) (buf : List ℕ)
    → Fits buf
    → Fits (if hex then push b'x' buf else if binary then push b'b' buf else buf)
marked-Fits true binary buf h = push-Fits b'x' buf h
marked-Fits false true buf h = push-Fits b'b' buf h
marked-Fits false false buf h = h

push_prefix-Fits :
    (buf : List ℕ) (flags : Flags) (width precision base : ℕ)
    → Fits buf
    → Fits (push_prefix buf flags width precision base)
unfolding push_prefix
push_prefix-Fits buf flags width precision base h =
    choice-Fits flags.hash _ _
      (push-Fits b'0' _ (
        marked-Fits (base == 16) (base == 2) _ (
          room-Fits
            (not flags.precision
              && (ltb 0 (length buf) && (length buf == precision || length buf == width)))
            (ltb 0 (length (pop buf)) && base == 16) buf h)))
      h

push_sign-Fits :
    (buf : List ℕ) (flags : Flags) (negative : Bool)
    → Fits buf
    → Fits (push_sign buf flags negative)
unfolding push_sign
push_sign-Fits buf flags negative h = choice-Fits negative _ _ (push-Fits b'-' buf h) (
    choice-Fits flags.plus _ _ (push-Fits b'+' buf h)
      (choice-Fits flags.space _ _ (push-Fits b' ' buf h) h))

digits-Fits :
    (rounds : ℕ) (flags : Flags) (base value : ℕ)
    → length (ntoa_digits rounds flags base value) ≤ rounds
unfolding ntoa_digits
digits-Fits zero flags base value = omega arith
digits-Fits (suc rounds) flags base value =
    ground (arith, digits-Fits rounds flags base (value / base))

-- Whatever the flags, the width, the precision, the base and the sign, the digits of a number with
-- zeros, prefix and sign fit the buffer of 48 characters.
pub ntoa_buffer-Fits :
    (flags : Flags) (width precision base value : ℕ) (negative : Bool)
    → Fits (ntoa_buffer (ntoa_digits ntoa_max flags base value) flags width precision base negative)
unfolding ntoa_buffer
ntoa_buffer-Fits flags width precision base value negative = push_sign-Fits _ flags negative (
    push_prefix-Fits _ flags width precision base
      (pad_zeros-Fits _ flags width precision (digits-Fits ntoa_max flags base value)))
