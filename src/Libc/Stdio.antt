-- ===== src/Libc/Stdio.antt =====
-- lethe-libc/stdio.c, the output of numbers. The printed characters and their count `idx` are the
-- state; `putchar` does not fail. A buffer `buf[0 .. len)` is the list of its `len` characters.
pub mod Digits
pub mod Buffer
pub mod Format
mod Tests
use uefi_bare_bones.Prelude.{
  ℕ, zero, suc, ◌+◌, ◌-◌, ◌*◌, ◌/◌, ◌%◌, Bool, true, false, not, ◌&&◌, ◌||◌, List, [], ◌∷◌, ◌++◌,
  ltb, leb, ◌==◌, if◌then◌else◌, length, replicate,
}

-- The text printed so far, and `idx`.
pub record Output : Type 0 where
  pub text : List ℕ
  pub idx : ℕ

pub putchar : ℕ → Output → Output
putchar c out = record { text = out.text ++ (c ∷ []); idx = out.idx + 1 }

-- The loop of `print`, from the index `i` on: the result and the output. `putchar` gives back the
-- byte, which is not `EOF`.
pub print : ℕ → List ℕ → Output → ℕ × Output
unfolding putchar
print i [] out = (i, out)
print i (c ∷ bytes) out = print (i + 1) bytes (putchar c out)

-- `puts`, of the characters before the terminator.
pub puts : List ℕ → Output → ℕ × Output
unfolding print
puts string out = print 0 string out

-- `n` rounds of a loop that prints a blank.
pub put_blanks : ℕ → Output → Output
unfolding putchar
put_blanks zero out = out
put_blanks (suc n) out = put_blanks n (putchar b' ' out)

-- The bits of `flags` that are used.
pub record Flags : Type 0 where
  pub zeropad : Bool
  pub left : Bool
  pub plus : Bool
  pub space : Bool
  pub hash : Bool
  pub upper : Bool
  pub char : Bool
  pub short : Bool
  pub long : Bool
  pub long_long : Bool
  pub precision : Bool

-- `NTOA_MAX`
abbrev pub ntoa_max : ℕ
ntoa_max = 48

-- `while (len) putchar(buf[--len])`
pub put_reversed : List ℕ → Output → Output
unfolding putchar
put_reversed [] out = out
put_reversed (c ∷ buf) out = putchar c (put_reversed buf out)

pub print_reverse : List ℕ → Flags → ℕ → Output → Output
unfolding put_blanks put_reversed
print_reverse buf flags width out =
    let padded =
      if not flags.left && not flags.zeropad then put_blanks (width - length buf) out else out in
    let printed = put_reversed buf padded in
    if flags.left then put_blanks (width - (printed.idx - out.idx)) printed else printed

-- `if (len < NTOA_MAX) buf[len++] = c`
abbrev pub push : ℕ → List ℕ → List ℕ
push c buf = if ltb (length buf) ntoa_max then buf ++ (c ∷ []) else buf

-- `while (len < limit && len < NTOA_MAX) buf[len++] = '0'`; each round adds a character, so
-- `NTOA_MAX` rounds are enough.
pub fill_zeros : ℕ → ℕ → List ℕ → List ℕ
fill_zeros zero limit buf = buf
fill_zeros (suc rounds) limit buf =
    fill_zeros rounds limit (if ltb (length buf) limit then push b'0' buf else buf)

-- `len--`
abbrev pub pop : List ℕ → List ℕ
pop [] = []
pop (c ∷ []) = []
pop (c ∷ d ∷ buf) = c ∷ pop (d ∷ buf)

-- The parts of `__ntoa`: the width that is left for zeros, …
pub zero_width : Flags → ℕ → Bool → ℕ
zero_width flags width negative =
    if ltb 0 width && (flags.zeropad && (negative || (flags.plus || flags.space)))
    then width - 1
    else width

-- … the zeros in front, …
pub pad_zeros : List ℕ → Flags → ℕ → ℕ → List ℕ
unfolding fill_zeros
pad_zeros buf flags width precision =
    let precise = fill_zeros ntoa_max precision buf in
    if flags.left then buf else if flags.zeropad then fill_zeros ntoa_max width precise else precise

-- … the prefix of the base, …
pub push_prefix : List ℕ → Flags → ℕ → ℕ → ℕ → List ℕ
push_prefix buf flags width precision base =
    let len = length buf in
    let room =
      if not flags.precision && (ltb 0 len && (len == precision || len == width))
      then if ltb 0 (length (pop buf)) && base == 16 then pop (pop buf) else pop buf
      else buf in
    let marked =
      if base == 16 then push b'x' room else if base == 2 then push b'b' room else room in
    if flags.hash then push b'0' marked else buf

-- … and the sign.
pub push_sign : List ℕ → Flags → Bool → List ℕ
push_sign buf flags negative =
    if negative
    then push b'-' buf
    else if flags.plus
    then push b'+' buf
    else if flags.space
    then push b' ' buf
    else buf

-- The buffer that `__ntoa` prints; `width` is decremented in the caller's variable too.
pub ntoa_buffer : List ℕ → Flags → ℕ → ℕ → ℕ → Bool → List ℕ
unfolding pad_zeros push_prefix push_sign
ntoa_buffer buf flags width precision base negative =
    push_sign (push_prefix (pad_zeros buf flags width precision) flags width precision base) flags
      negative

pub ntoa : List ℕ → Flags → ℕ → ℕ → ℕ → Bool → Output → Output
unfolding zero_width ntoa_buffer print_reverse
ntoa buf flags width precision base negative out =
    let width' = if flags.left then width else zero_width flags width negative in
    print_reverse (ntoa_buffer buf flags width' precision base negative) flags width' out

abbrev pub digit_char : Flags → ℕ → ℕ
digit_char flags digit =
    if ltb digit 10 then digit + b'0' else (if flags.upper then b'A' else b'a') + digit - 10

-- The loop over the digits, the lowest first; `NTOA_MAX` bounds the rounds.
pub ntoa_digits : ℕ → Flags → ℕ → ℕ → List ℕ
ntoa_digits zero flags base value = []
ntoa_digits (suc rounds) flags base value =
    let rest = ntoa_digits rounds flags base (value / base) in
    digit_char flags (value % base) ∷ (if value / base == 0 then [] else rest)

-- `ntoa_long`; `unsigned long` and `unsigned long long` both have 64 bits.
pub ntoa_long : ℕ → Flags → ℕ → ℕ → ℕ → Output → Bool → Output
unfolding ntoa ntoa_digits
ntoa_long value flags base width precision out negative =
    let flags' = if value == 0 then record flags { hash = false } else flags in
    let digits = ntoa_digits ntoa_max flags' base value in
    ntoa (if flags.precision && value == 0 then [] else digits) flags' width precision base negative
      out

pub ntoa_long_long : ℕ → Flags → ℕ → ℕ → ℕ → Output → Bool → Output
unfolding ntoa ntoa_digits
ntoa_long_long value flags base width precision out negative =
    let flags' = if value == 0 then record flags { hash = false } else flags in
    let digits = ntoa_digits ntoa_max flags' base value in
    ntoa (if flags.precision && value == 0 then [] else digits) flags' width precision base negative
      out
