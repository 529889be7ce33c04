-- ===== src/Libc/Stdio/Format/Numbers.antt =====
-- The numbers that vprintf of lethe-libc/stdio.c prints, without flags, width and precision.
use uefi_bare_bones.Prelude.{
  ℕ, suc, ◌-◌, ◌%◌, ◌^◌, ◌≤◌, ◌<◌, ◌≡◌, ◌≢◌, refl, ap, ◌∙◌, Bool, true, false, not, List, [], ◌∷◌,
  ◌++◌, arith, ltb, ◌==◌, if◌then◌else◌, length, u32, Bool-cases, inl, inr,
}
use uefi_bare_bones.Libc.Stdio.{Output, ntoa_max, push, ntoa_digits, ntoa_long}
use uefi_bare_bones.Libc.Stdio.Digits.{IsNumeral, ntoa_digits-IsNumeral}
use uefi_bare_bones.Libc.Stdio.Format.{
  Result, ok, ◌>>=◌, Arg, word, Vprintf, next_word, is_digit, take_flags, take_width,
  take_precision, take_length, signed_value, number_flags, print_value, print_number,
  print_conversion, convert, vprintf_round, vprintf, start_vprintf,
}
use uefi_bare_bones.Libc.Stdio.Format.Bare.{
  backwards, put_reversed_lem, bare, ntoa_long-bare, backwards-append, length-ntoa_digits,
}

-- The conversions that read an unsigned int.
pub data Unsigned : ℕ → Type 0 where
  decimal : Unsigned b'u'
  hexadecimal : Unsigned b'x'
  capital : Unsigned b'X'
  octal : Unsigned b'o'
  binary : Unsigned b'b'

-- The conversions that read an int.
pub data Signed : ℕ → Type 0 where
  decimal : Signed b'd'
  integer : Signed b'i'

-- The magnitude and the sign of an int, from its 32 bits.
abbrev pub magnitude : ℕ → ℕ
magnitude v = if ltb v (2 ^ 31) then v else 2 ^ 32 - v

abbrev pub sign : ℕ → List ℕ
sign v = if ltb v (2 ^ 31) then [] else b'-' ∷ []

signed_value_lem :
    (w : ℕ)
    → u32 w ≢ 2 ^ 31
    → signed_value 32 w ≡ ok (magnitude (u32 w), not (ltb (u32 w) (2 ^ 31)))
unfolding signed_value
signed_value_lem w n =
    let t : (w % 2 ^ 32 == 2 ^ 31) ≡ false = ground arith in
    elim (Bool-cases (ltb (u32 w) (2 ^ 31))) [ inl e ↦ rw e refl | inr e ↦ rw (e, t) refl ]

signed_text :
    (v m : ℕ) (out : Output)
    → length (ntoa_digits ntoa_max (bare false) 10 m) ≤ 10
    → (ntoa_long m (bare false) 10 0 0 out (not (ltb v (2 ^ 31)))).text
      ≡ out.text ++ (sign v ++ backwards (ntoa_digits ntoa_max (bare false) 10 m))
signed_text v m out short =
    let digits = ntoa_digits ntoa_max (bare false) 10 m in
    let room : ltb (length digits) ntoa_max ≡ true = ground arith in
    ap (λ (o : Output). o.text) (ntoa_long-bare m 10 false (not (ltb v (2 ^ 31))) out)
    ∙ put_reversed_lem (if not (ltb v (2 ^ 31)) then push b'-' digits else digits) out
    ∙ ap (λ (t : List ℕ). out.text ++ t)
        (elim (Bool-cases (ltb v (2 ^ 31))) [
          | inl e ↦ rw e refl
          | inr e ↦ rw (e, room) (backwards-append digits b'-')
        ])

-- The variables before the digits of an int are printed.
abbrev at_end : List Arg → Output → Vprintf
at_end args out = record {
  fmt = [];
  args = args;
  flags = bare false;
  width = 0;
  precision = 0;
  out = out;
}

Signed-reads :
    (c : ℕ) (fuel w : ℕ) (args : List Arg) (out : Output)
    → Signed c
    → vprintf (suc (suc fuel)) (start_vprintf (b'%' ∷ c ∷ []) (word w ∷ args) out) ≡ (
        signed_value 32 w >>= (λ v. ok (print_value 10 v.0 v.1 (at_end args out))) >>= λ s'.
        vprintf (suc fuel) s')
unfolding vprintf vprintf_round convert take_flags take_width take_precision take_length
    print_conversion print_number number_flags next_word print_value is_digit
Signed-reads _ fuel w args out decimal = refl
Signed-reads _ fuel w args out integer = refl

Signed-runs :
    (c : ℕ) (fuel w : ℕ) (args : List Arg) (out : Output)
    → Signed c
    → u32 w ≢ 2 ^ 31
    → (s' : Vprintf) × (vprintf (suc (suc fuel)) (start_vprintf (b'%' ∷ c ∷ []) (word w ∷ args) out)
        ≡ ok s')
      × (s'.out
          ≡ ntoa_long (magnitude (u32 w)) (bare false) 10 0 0 out (not (ltb (u32 w) (2 ^ 31))))
unfolding vprintf print_value
Signed-runs c fuel w args out d n =
    let negative = not (ltb (u32 w) (2 ^ 31)) in
    (
      print_value 10 (magnitude (u32 w)) negative (at_end args out),
      Signed-reads c fuel w args out d
          ∙ ap
              (λ (m : Result (ℕ × Bool)).
                m >>= (λ v. ok (print_value 10 v.0 v.1 (at_end args out))) >>= λ s'.
                vprintf (suc fuel) s')
              (signed_value_lem w n),
      refl,
    )

-- With the format `%d` or `%i` vprintf ends, and prints exactly a minus where the low 32 bits of the
-- argument are a negative int, and nothing else in front of the decimal numeral of its magnitude, a
-- numeral without zeros in front. The least int is left out, since its negation is undefined in C.
pub vprintf-Signed :
    (c fuel w : ℕ) (args : List Arg) (out : Output)
    → Signed c
    → u32 w ≢ 2 ^ 31
    → (s' : Vprintf) × (digits : List ℕ) × (vprintf
          (suc (suc fuel))
          (start_vprintf (b'%' ∷ c ∷ []) (word w ∷ args) out)
        ≡ ok s')
      × (s'.out.text ≡ out.text ++ (sign (u32 w) ++ backwards digits))
      × IsNumeral 10 b'a' (magnitude (u32 w)) digits
vprintf-Signed c fuel w args out d n =
    let (s', runs, e) = Signed-runs c fuel w args out d n in
    let m = magnitude (u32 w) in
    let small : m < 10 ^ 10 = ground arith in
    let digits = ntoa_digits ntoa_max (bare false) 10 m in
    (
      s',
      digits,
      runs,
      ap (λ (o : Output). o.text) e
          ∙ signed_text (u32 w) m out (length-ntoa_digits 9 ntoa_max m (bare false) small),
      ntoa_digits-IsNumeral 47 (bare false) 10 m (omega arith) (omega arith),
    )
