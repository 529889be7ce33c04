-- ===== src/Libc/Stdio/Tests.antt =====
-- The output of numbers at concrete values.
use uefi_bare_bones.Prelude.{◌≡◌, refl, true, false, [], ◌∷◌}
use uefi_bare_bones.Libc.Stdio.{
  puts, Flags, Output, ntoa_max, ntoa_digits, ntoa_buffer, ntoa_long, ntoa_long_long, ntoa,
  print_reverse, put_blanks, put_reversed, putchar, zero_width, pad_zeros, fill_zeros, push_prefix,
  push_sign,
}
use uefi_bare_bones.Libc.Stdio.Buffer.{Fits, ntoa_buffer-Fits}

abbrev no_flags : Flags
no_flags = record {
  zeropad = false;
  left = false;
  plus = false;
  space = false;
  hash = false;
  upper = false;
  char = false;
  short = false;
  long = false;
  long_long = false;
  precision = false;
}

abbrev empty : Output
empty = record { text = []; idx = 0 }

-- `printf("%5d", -42)` and `printf("%#x", 255)`
printed_decimal :
    (ntoa_long 42 no_flags 10 5 0 empty true).text ≡ b' ' ∷ b' ' ∷ b'-' ∷ b'4' ∷ b'2' ∷ []
unfolding ntoa_long ntoa_digits ntoa print_reverse put_blanks put_reversed putchar zero_width
    pad_zeros fill_zeros push_prefix push_sign ntoa_buffer
printed_decimal = refl

printed_hexadecimal :
    (ntoa_long_long 255 (record no_flags { hash = true }) 16 0 0 empty false).text
    ≡ b'0' ∷ b'x' ∷ b'f' ∷ b'f' ∷ []
unfolding ntoa_long_long ntoa_digits ntoa print_reverse put_blanks put_reversed putchar zero_width
    pad_zeros fill_zeros push_prefix push_sign ntoa_buffer
printed_hexadecimal = refl

ntoa_buffer-Fits_example :
    Fits (ntoa_buffer (ntoa_digits ntoa_max no_flags 10 42) no_flags 60 60 10 true)
ntoa_buffer-Fits_example = ntoa_buffer-Fits no_flags 60 60 10 42 true

put_two : puts (b'o' ∷ b'k' ∷ []) empty ≡ (2, record { text = b'o' ∷ b'k' ∷ []; idx = 2 })
unfolding puts
put_two = refl
