-- ===== src/Libc/Stdio/Format.antt =====
-- vprintf of lethe-libc/stdio.c. The format is the list of the characters before its terminator, so
-- `*fmt` at its end is 0. What C leaves undefined is one outcome: a read past the terminator, an
-- argument that is missing or of another kind, and `0 - value` for the least value of a type.
pub mod Advance
pub mod Parse
pub mod Conversions
pub mod Total
pub mod Print
pub mod Bare
pub mod Numbers
mod Tests
use uefi_bare_bones.Prelude.{
  ℕ, zero, suc, ◌+◌, ◌-◌, ◌*◌, ◌%◌, ◌^◌, Bool, true, false, not, ◌&&◌, ◌||◌, List, [], ◌∷◌, Option,
  none, some, ltb, leb, ◌==◌, if◌then◌else◌, length, take, u8, u32, u64,
}
use uefi_bare_bones.Libc.Stdio.{Output, Flags, putchar, put_blanks, ntoa_long, ntoa_long_long}

pub data Result (A : Type 0) : Type 0 where
  ok : A → Result A
  undefined : Result A
  too_deep : Result A

infixl 5 ◌>>=◌
abbrev pub ◌>>=◌ : {A B : Type 0} → Result A → (A → Result B) → Result B
ok a >>= f = f a
undefined >>= f = undefined
too_deep >>= f = too_deep

-- An argument: an integer or a pointer of at most 64 bits, or a text.
pub data Arg : Type 0 where
  word : ℕ → Arg
  string : List ℕ → Arg

-- The variables of `vprintf`: `fmt`, the arguments that are left, `flags`, `width`, `precision`,
-- and the output with `idx`.
pub record Vprintf : Type 0 where
  pub fmt : List ℕ
  pub args : List Arg
  pub flags : Flags
  pub width : ℕ
  pub precision : ℕ
  pub out : Output

-- `*fmt`
abbrev pub next_char : List ℕ → ℕ
next_char [] = 0
next_char (c ∷ fmt) = c

-- `fmt++`, where `*fmt` is not the terminator.
abbrev pub rest : List ℕ → List ℕ
rest [] = []
rest (c ∷ fmt) = fmt

pub next_word : Vprintf → Result (ℕ × Vprintf)
next_word s = next s.args
  where
    next : List Arg → Result (ℕ × Vprintf)
    next [] = undefined
    next (word w ∷ args) = ok (w, record s { args = args })
    next (string p ∷ args) = undefined

pub next_string : Vprintf → Result (List ℕ × Vprintf)
next_string s = next s.args
  where
    next : List Arg → Result (List ℕ × Vprintf)
    next [] = undefined
    next (word w ∷ args) = undefined
    next (string p ∷ args) = ok (p, record s { args = args })

pub is_digit : ℕ → Bool
is_digit c = leb 0x30 c && leb c 0x39

-- `atoi`, from the value `i` on.
pub atoi : ℕ → List ℕ → ℕ × List ℕ
unfolding is_digit
atoi i [] = (i, [])
atoi i (c ∷ fmt) = elim (is_digit c) [
  | true ↦ atoi (u32 (i * 10 + (c - 0x30))) fmt
  | false ↦ (i, c ∷ fmt)
]

-- The switch of the loop over the flags; `none` is `n = 0`.
pub flag_of : ℕ → Flags → Option Flags
flag_of c flags =
    if c == b'0'
    then some (record flags { zeropad = true })
    else if c == b'-'
    then some (record flags { left = true })
    else if c == b'+'
    then some (record flags { plus = true })
    else if c == b' '
    then some (record flags { space = true })
    else if c == b'#'
    then some (record flags { hash = true })
    else none

pub take_flags : List ℕ → Flags → Flags × List ℕ
unfolding flag_of
take_flags [] flags = (flags, [])
take_flags (c ∷ fmt) flags = elim (flag_of c flags) [
  | some flags' ↦ take_flags fmt flags'
  | none ↦ (flags, c ∷ fmt)
]

-- `width_specifier < 0`, of the 32 bits of an int.
abbrev pub is_negative : ℕ → Bool
is_negative w = leb (2 ^ 31) (u32 w)

-- A negative width is negated; for the least int C leaves that undefined, and here it is 2 ^ 31.
pub star_width : ℕ → Vprintf → Vprintf
star_width w s =
    if is_negative w
    then record s {
      flags = record s.flags { left = true };
      width = 2 ^ 32 - u32 w;
      fmt = rest s.fmt;
    }
    else record s { width = u32 w; fmt = rest s.fmt }

pub take_width : Vprintf → Result Vprintf
unfolding is_digit atoi next_word star_width
take_width s =
    let (number, fmt) = atoi 0 s.fmt in
    if is_digit (next_char s.fmt)
    then ok (record s { width = number; fmt = fmt })
    else if next_char s.fmt == b'*'
    then (next_word (record s { width = 0 }) >>= λ r. ok (star_width r.0 r.1))
    else ok (record s { width = 0 })

pub star_precision : ℕ → Vprintf → Vprintf
star_precision w s = record s { precision = if is_negative w then 0 else u32 w; fmt = rest s.fmt }

-- After the point.
pub point_precision : Vprintf → Result Vprintf
unfolding is_digit atoi next_word star_precision
point_precision s =
    let (number, fmt) = atoi 0 s.fmt in
    if is_digit (next_char s.fmt)
    then ok (record s { precision = number; fmt = fmt })
    else if next_char s.fmt == b'*'
    then (next_word s >>= λ r. ok (star_precision r.0 r.1))
    else ok s

pub take_precision : Vprintf → Result Vprintf
unfolding point_precision
take_precision s =
    let flagged = record s {
      flags = record s.flags { precision = true };
      precision = 0;
      fmt = rest s.fmt;
    } in
    if next_char s.fmt == b'.' then point_precision flagged else ok (record s { precision = 0 })

-- `l`, `ll`, `h`, `hh`, `t`, `j` and `z`; `ptrdiff_t`, `intmax_t` and `size_t` have the size of a
-- long.
pub take_length : Vprintf → Vprintf
take_length s =
    let c = next_char s.fmt in
    let fmt = rest s.fmt in
    let long = record s.flags { long = true } in
    let short = record s.flags { short = true } in
    if c == b'l'
    then if next_char fmt == b'l'
      then record s { flags = record long { long_long = true }; fmt = rest fmt }
      else record s { flags = long; fmt = fmt }
    else if c == b'h'
    then if next_char fmt == b'h'
      then record s { flags = record short { char = true }; fmt = rest fmt }
      else record s { flags = short; fmt = fmt }
    else if c == b't' || (c == b'j' || c == b'z')
    then record s { flags = long; fmt = fmt }
    else s

-- The bits of a value that is printed.
abbrev pub value_bits : Flags → ℕ
value_bits flags =
    if flags.long_long
    then 64
    else if flags.long
    then 64
    else if flags.char
    then 8
    else if flags.short
    then 16
    else 32

-- `value > 0 ? value : 0 - value` and `value < 0`, for a signed value of `bits` bits; a char and a
-- short are ints then.
pub signed_value : ℕ → ℕ → Result (ℕ × Bool)
signed_value bits w =
    let value = w % 2 ^ bits in
    if ltb value (2 ^ (bits - 1))
    then ok (value, false)
    else if value == 2 ^ (bits - 1) && leb 32 bits
    then undefined
    else ok (2 ^ bits - value, true)

abbrev pub number_base : ℕ → ℕ
number_base c =
    if c == b'x' || c == b'X' then 16 else if c == b'o' then 8 else if c == b'b' then 2 else 10

-- The flags of an integer conversion.
pub number_flags : ℕ → Flags → Flags
number_flags c flags =
    let signed = c == b'i' || c == b'd' in
    let f1 = if number_base c == 10 then record flags { hash = false } else flags in
    let f2 = if c == b'X' then record f1 { upper = true } else f1 in
    let f3 = if signed then f2 else record f2 { plus = false; space = false } in
    if flags.precision then record f3 { zeropad = false } else f3

-- The value `w` is printed, as a long long or as a long.
pub print_value : ℕ → ℕ → Bool → Vprintf → Vprintf
unfolding ntoa_long ntoa_long_long
print_value base value negative s = record s {
  out =
      if s.flags.long_long
      then ntoa_long_long value s.flags base s.width s.precision s.out negative
      else ntoa_long value s.flags base s.width s.precision s.out negative;
}

-- `d`, `i`, `u`, `x`, `X`, `o` and `b`
pub print_number : ℕ → Vprintf → Result Vprintf
unfolding number_flags next_word signed_value print_value
print_number c s = next_word (record s { flags = number_flags c s.flags }) >>= λ r.
    let bits = value_bits r.1.flags in
    (if c == b'i' || c == b'd' then signed_value bits r.0 else ok (r.0 % 2 ^ bits, false)) >>= λ v.
    ok (print_value (number_base c) v.0 v.1 (record r.1 { fmt = rest r.1.fmt }))

-- `while (l++ < width)`, before and behind what is printed.
abbrev pub pad_left : Vprintf → ℕ → Output
pad_left s l = if s.flags.left then s.out else put_blanks (s.width - l) s.out

abbrev pub pad_right : Vprintf → ℕ → Output → Output
pad_right s l out = if s.flags.left then put_blanks (s.width - l) out else out

-- `c`
pub print_char : Vprintf → Result Vprintf
unfolding next_word putchar put_blanks
print_char s = next_word s >>= λ r.
    ok (record r.1 { out = pad_right s 1 (putchar (u8 r.0) (pad_left s 1)); fmt = rest s.fmt })

pub put_text : List ℕ → Output → Output
unfolding putchar
put_text [] out = out
put_text (c ∷ text) out = put_text text (putchar c out)

-- `s`; the loop prints at most `precision` characters, when there is a precision.
pub print_string : Vprintf → Result Vprintf
unfolding next_string put_text put_blanks
print_string s = next_string s >>= λ r.
    let strlen = u32 (length r.0) in
    let l =
      if s.flags.precision
      then if ltb strlen s.precision then strlen else s.precision
      else strlen in
    let shown = if s.flags.precision then take s.precision r.0 else r.0 in
    ok (record r.1 { out = pad_right s l (put_text shown (pad_left s l)); fmt = rest s.fmt })

-- `p`; a pointer has the size of a long long.
pub print_pointer : Vprintf → Result Vprintf
unfolding next_word ntoa_long_long
print_pointer s =
    let flags = record s.flags { zeropad = true; upper = true } in
    next_word s >>= λ r. ok (record r.1 {
      flags = flags;
      width = 16;
      out = ntoa_long_long (u64 r.0) flags 16 16 s.precision s.out false;
      fmt = rest s.fmt;
    })

-- `%` and the default: the character itself, and at the terminator a read past it.
pub print_itself : Vprintf → Result Vprintf
unfolding putchar
print_itself s = itself s.fmt
  where
    itself : List ℕ → Result Vprintf
    itself [] = undefined
    itself (c ∷ fmt) = ok (record s { out = putchar c s.out; fmt = fmt })

abbrev pub is_number : ℕ → Bool
is_number c =
    c == b'd'
    || (c == b'i' || (c == b'u' || (c == b'x' || (c == b'X' || (c == b'o' || c == b'b')))))

pub print_conversion : Vprintf → Result Vprintf
unfolding print_number print_char print_string print_pointer print_itself
print_conversion s =
    let c = next_char s.fmt in
    if is_number c
    then print_number c s
    else if c == b'c'
    then print_char s
    else if c == b's'
    then print_string s
    else if c == b'p'
    then print_pointer s
    else print_itself s

-- After a `%`.
pub convert : Vprintf → Result Vprintf
unfolding take_flags take_width take_precision take_length print_conversion
convert s =
    let (flags, fmt) = take_flags s.fmt s.flags in
    take_width (record s { flags = flags; fmt = fmt }) >>= λ s1.
    take_precision s1 >>= λ s2. print_conversion (take_length s2)

-- A round of the loop of `vprintf`, where `*fmt` is not the terminator.
pub vprintf_round : Vprintf → Result Vprintf
unfolding convert putchar
vprintf_round s =
    if next_char s.fmt == b'%'
    then convert (record s { fmt = rest s.fmt })
    else ok (record s { out = putchar (next_char s.fmt) s.out; fmt = rest s.fmt })

-- `fuel` bounds the rounds.
pub vprintf : ℕ → Vprintf → Result Vprintf
unfolding vprintf_round
vprintf zero s = too_deep
vprintf (suc fuel) s = elim (next_char s.fmt == 0) [
  | true ↦ ok s
  | false ↦ vprintf_round s >>= λ s'. vprintf fuel s'
]

-- The variables as `vprintf` starts.
abbrev pub start_vprintf : List ℕ → List Arg → Output → Vprintf
start_vprintf fmt args out = record {
  fmt = fmt;
  args = args;
  flags = record {
    zeropad = false;
    left = false;
    plus = false;
    space = false;
    hash = false;
    upper = false;
    char = false;
    short = false;
    long = false;
    long_long = false;
    precision = false;
  };
  width = 0;
  precision = 0;
  out = out;
}

-- `printf`: the result, `idx` as 32 bits, and the output.
pub printf : ℕ → List ℕ → List Arg → Output → Result (ℕ × Output)
unfolding vprintf
printf fuel fmt args out = vprintf fuel (start_vprintf fmt args (record out { idx = 0 })) >>= λ s.
    ok (u32 s.out.idx, s.out)
