-- ===== src/Libc/Stdio/Format/Conversions.antt =====
-- The conversions of vprintf in lethe-libc/stdio.c: what they print is counted, and they keep flags.
use uefi_bare_bones.Prelude.{
  choice, ℕ, ◌-◌, ◌%◌, ◌^◌, refl, Bool, true, false, ◌&&◌, ◌||◌, List, [], ◌∷◌, arith, ltb, leb,
  ◌==◌, if◌then◌else◌, length, take, u8, u32, u64,
}
use uefi_bare_bones.Libc.Stdio.{Output, Flags, putchar}
use uefi_bare_bones.Libc.Stdio.Format.{
  ok, Vprintf, next_char, rest, next_word, next_string, take_flags, take_width, take_precision,
  take_length, value_bits, signed_value, number_base, number_flags, print_value, print_number,
  pad_left, print_char, put_text, print_string, print_pointer, print_itself, is_number,
  print_conversion, convert,
}
use uefi_bare_bones.Libc.Stdio.Format.Advance.{
  Extends, Extends-trans, putchar-Extends, put_text-Extends, padded-Extends, unpadded-Extends,
  ntoa_long-Extends, ntoa_long_long-Extends, Keeps, Keeps-refl, Keeps-trans, keeping,
  take_flags-Keeps,
}
use uefi_bare_bones.Libc.Stdio.Format.Parse.{
  Yields, yields, fails, bind-Yields, Advances, Advances-trans, then-Advances, length-rest, quiet,
  Fetched, next_word-Fetched, next_string-Fetched, Fetched-Advances, take_width-Advances,
  take_precision-Advances, take_length-Advances,
}

upper-Keeps : (flags : Flags) → Keeps flags (record flags { upper = true })
upper-Keeps flags = record {
  left = λ h. h;
  upper = λ _. refl;
  short = λ h. h;
  long = λ h. h;
  precision = λ h. h;
}

upper_zero-Keeps : (flags : Flags) → Keeps flags (record flags { zeropad = true; upper = true })
upper_zero-Keeps flags = record {
  left = λ h. h;
  upper = λ _. refl;
  short = λ h. h;
  long = λ h. h;
  precision = λ h. h;
}

number_flags-Keeps : (c : ℕ) (flags : Flags) → Keeps flags (number_flags c flags)
unfolding number_flags
number_flags-Keeps c flags =
    let decimal : Flags = record flags { hash = false } in
    let f1 : Flags = if number_base c == 10 then decimal else flags in
    let capital : Flags = record f1 { upper = true } in
    let f2 : Flags = if c == b'X' then capital else f1 in
    let unsigned : Flags = record f2 { plus = false; space = false } in
    let f3 : Flags = if c == b'i' || c == b'd' then f2 else unsigned in
    let exact : Flags = record f3 { zeropad = false } in
    let k1 : Keeps flags f1 =
      choice (Keeps flags) (number_base c == 10) (keeping (λ h. h) refl refl refl refl)
        (Keeps-refl flags) in
    let k2 : Keeps f1 f2 = choice (Keeps f1) (c == b'X') (upper-Keeps f1) (Keeps-refl f1) in
    let k3 : Keeps f2 f3 =
      choice (Keeps f2) (c == b'i' || c == b'd') (Keeps-refl f2)
        (keeping (λ h. h) refl refl refl refl) in
    Keeps-trans k1 (
      Keeps-trans k2 (
        Keeps-trans k3 (
          choice (Keeps f3) flags.precision (keeping (λ h. h) refl refl refl refl)
            (Keeps-refl f3))))

print_value-Advances :
    (base value : ℕ) (negative : Bool) (s : Vprintf)
    → Advances s (print_value base value negative s)
unfolding print_value
print_value-Advances base value negative s = record {
  out =
      choice (Extends s.out) s.flags.long_long
        (ntoa_long_long-Extends value s.flags base s.width s.precision s.out negative)
        (ntoa_long-Extends value s.flags base s.width s.precision s.out negative);
  flags = Keeps-refl s.flags;
  fmt = omega arith;
}

signed_value-Yields : (bits w : ℕ) → Yields (λ (v : ℕ × Bool). Unit) (signed_value bits w)
unfolding signed_value
signed_value-Yields bits w =
    choice (Yields (λ (v : ℕ × Bool). Unit)) (ltb (w % 2 ^ bits) (2 ^ (bits - 1))) (yields _ tt) (
      choice (Yields (λ (v : ℕ × Bool). Unit)) (w % 2 ^ bits == 2 ^ (bits - 1) && leb 32 bits) fails
        (yields _ tt))

print_number-Advances : (c : ℕ) (s : Vprintf) → Yields (Advances s) (print_number c s)
unfolding print_number
print_number-Advances c s =
    let s1 : Vprintf = record s { flags = number_flags c s.flags } in
    bind-Yields (next_word s1) _ (next_word-Fetched s1) (λ r h.
      let shorter : Vprintf = record r.1 { fmt = rest r.1.fmt } in
      let bits = value_bits r.1.flags in
      bind-Yields
        (if c == b'i' || c == b'd' then signed_value bits r.0 else ok (r.0 % 2 ^ bits, false)) _
        (choice (Yields (λ (v : ℕ × Bool). Unit)) (c == b'i' || c == b'd')
          (signed_value-Yields bits r.0) (yields _ tt))
        (λ v _. yields _ (
          Advances-trans (quiet s s1 refl (number_flags-Keeps c s.flags) (omega arith)) (
            Advances-trans (Fetched-Advances s1 r h) (
              Advances-trans (quiet r.1 shorter refl (Keeps-refl r.1.flags) (length-rest r.1.fmt))
                (print_value-Advances (number_base c) v.0 v.1 shorter))))))

-- Something printed, with the flags and the format of a conversion's end.
printed :
    {A : Type 0} (s : Vprintf) (r : A × Vprintf) (out : Output)
    → Fetched s r
    → Extends s.out out
    → Advances s (record r.1 { out = out; fmt = rest s.fmt })
printed s r out (o, f, l) e = record {
  out = e;
  flags = rw f (Keeps-refl s.flags);
  fmt = length-rest s.fmt;
}

print_char-Advances : (s : Vprintf) → Yields (Advances s) (print_char s)
unfolding print_char
print_char-Advances s = bind-Yields (next_word s) _ (next_word-Fetched s) (λ r h.
    let out = putchar (u8 r.0) (pad_left s 1) in
    yields _ (
      printed s r _ h (
        Extends-trans (unpadded-Extends s.flags.left (s.width - 1) s.out) (
          Extends-trans (putchar-Extends (u8 r.0) (pad_left s 1))
            (padded-Extends s.flags.left (s.width - 1) out)))))

print_string-Advances : (s : Vprintf) → Yields (Advances s) (print_string s)
unfolding print_string
print_string-Advances s = bind-Yields (next_string s) _ (next_string-Fetched s) (λ r h.
    let strlen = u32 (length r.0) in
    let l =
      if s.flags.precision
      then if ltb strlen s.precision then strlen else s.precision
      else strlen in
    let shown = if s.flags.precision then take s.precision r.0 else r.0 in
    yields _ (
      printed s r _ h (
        Extends-trans (unpadded-Extends s.flags.left (s.width - l) s.out) (
          Extends-trans (put_text-Extends shown (pad_left s l))
            (padded-Extends s.flags.left (s.width - l) (put_text shown (pad_left s l)))))))

print_pointer-Advances : (s : Vprintf) → Yields (Advances s) (print_pointer s)
unfolding print_pointer
print_pointer-Advances s = bind-Yields (next_word s) _ (next_word-Fetched s) (λ r h.
    let flags = record s.flags { zeropad = true; upper = true } in
    yields _ (record {
      out = ntoa_long_long-Extends (u64 r.0) flags 16 16 s.precision s.out false;
      flags = upper_zero-Keeps s.flags;
      fmt = length-rest s.fmt;
    }))

print_itself-Advances : (s : Vprintf) → Yields (Advances s) (print_itself s)
unfolding print_itself
print_itself-Advances s = itself s.fmt
  where
    itself :
        (fmt : List ℕ)
        → Yields (Advances (record s { fmt = fmt })) (print_itself (record s { fmt = fmt }))
    itself [] = fails
    itself (c ∷ fmt) =
        yields _
          (record { out = putchar-Extends c s.out; flags = Keeps-refl s.flags; fmt = omega arith })

print_conversion-Advances : (s : Vprintf) → Yields (Advances s) (print_conversion s)
unfolding print_conversion
print_conversion-Advances s =
    let c = next_char s.fmt in
    choice (Yields (Advances s)) (is_number c) (print_number-Advances c s) (
      choice (Yields (Advances s)) (c == b'c') (print_char-Advances s) (
        choice (Yields (Advances s)) (c == b's') (print_string-Advances s) (
          choice (Yields (Advances s)) (c == b'p') (print_pointer-Advances s)
            (print_itself-Advances s))))

pub convert-Advances : (s : Vprintf) → Yields (Advances s) (convert s)
unfolding convert
convert-Advances s =
    let (flags, fmt) = take_flags s.fmt s.flags in
    let (k, l) = take_flags-Keeps s.fmt s.flags in
    let s0 : Vprintf = record s { flags = flags; fmt = fmt } in
    then-Advances s s0 _ (quiet s s0 refl k l) (
      bind-Yields (take_width s0) _ (take_width-Advances s0) (λ s1 a1. then-Advances s0 s1 _ a1 (
        bind-Yields (take_precision s1) _ (take_precision-Advances s1) (λ s2 a2.
          then-Advances s1 s2 _ a2 (
            then-Advances s2 (take_length s2) _ (take_length-Advances s2)
              (print_conversion-Advances (take_length s2)))))))
