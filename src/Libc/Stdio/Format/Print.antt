-- ===== src/Libc/Stdio/Format/Print.antt =====
-- What vprintf of lethe-libc/stdio.c does with text that has no conversions.
use uefi_bare_bones.Prelude.{
  append_assoc, append-nil, ℕ, suc, ◌+◌, ◌≡◌, ◌≢◌, refl, sym, ap, ap₂, ◌∙◌, false, List, [], ◌∷◌,
  ◌++◌, arith, ◌==◌, length,
}
use uefi_bare_bones.Libc.Stdio.{Output, putchar}
use uefi_bare_bones.Libc.Stdio.Format.{
  undefined, Vprintf, is_digit, take_flags, take_width, take_precision, take_length, put_text,
  print_itself, print_conversion, convert, vprintf_round, vprintf,
}

-- A text without a terminator and without conversions.
abbrev pub Plain : List ℕ → Type 0
Plain [] = Unit
Plain (c ∷ text) = (c ≢ 0) × (c ≢ b'%') × Plain text

vprintf-Plain_put :
    (text fmt : List ℕ) (fuel : ℕ) (s : Vprintf)
    → Plain text
    → vprintf (length text + fuel) (record s { fmt = text ++ fmt })
      ≡ vprintf fuel (record s { fmt = fmt; out = put_text text s.out })
unfolding vprintf vprintf_round put_text
vprintf-Plain_put [] fmt fuel s p =
    let e : 0 + fuel ≡ fuel = omega arith in ap (λ (n : ℕ). vprintf n (record s { fmt = fmt })) e
vprintf-Plain_put (c ∷ text) fmt fuel s (n, m, p) =
    let t0 : (c == 0) ≡ false = ground arith in
    let t1 : (c == b'%') ≡ false = ground arith in
    let e : length (c ∷ text) + fuel ≡ suc (length text + fuel) = omega arith in
    let later = vprintf-Plain_put text fmt fuel (record s { out = putchar c s.out }) p in
    let first : vprintf (suc (length text + fuel)) (record s { fmt = c ∷ (text ++ fmt) })
        ≡ vprintf (length text + fuel) (record s { fmt = text ++ fmt; out = putchar c s.out }) =
      rw (t0, t1, vprintf, vprintf_round) refl in
    ap (λ (n : ℕ). vprintf n (record s { fmt = c ∷ (text ++ fmt) })) e ∙ first ∙ later

output : List ℕ → ℕ → Output
output text idx = record { text = text; idx = idx }

put_text_lem :
    (text : List ℕ) (out : Output)
    → put_text text out ≡ record { text = out.text ++ text; idx = out.idx + length text }
unfolding put_text putchar output
put_text_lem [] out = ap₂ output (sym (append-nil out.text)) (omega arith)
put_text_lem (c ∷ text) out =
    put_text_lem text (putchar c out)
    ∙ ap₂ output (append_assoc out.text (c ∷ []) text) (omega arith)

-- A text without a terminator and without `%` at the front of the format is printed as it is and
-- counted, and the rest of the format is formatted after it.
vprintf-Plain :
    (text fmt : List ℕ) (fuel : ℕ) (s : Vprintf)
    → Plain text
    → vprintf (length text + fuel) (record s { fmt = text ++ fmt })
      ≡ vprintf fuel (record s {
        fmt = fmt;
        out = record { text = s.out.text ++ text; idx = s.out.idx + length text };
      })
vprintf-Plain text fmt fuel s p =
    vprintf-Plain_put text fmt fuel s p
    ∙ ap (λ (o : Output). vprintf fuel (record s { fmt = fmt; out = o })) (put_text_lem text s.out)

-- A format that ends with a single `%` behind such a text makes vprintf read past the terminator,
-- whatever the fuel, the arguments and the flags.
vprintf-trailing :
    (text : List ℕ) (fuel : ℕ) (s : Vprintf)
    → Plain text
    → vprintf (length text + suc fuel) (record s { fmt = text ++ (b'%' ∷ []) }) ≡ undefined
unfolding vprintf vprintf_round convert take_flags take_width is_digit take_precision take_length
    print_conversion print_itself
vprintf-trailing text fuel s p = vprintf-Plain_put text (b'%' ∷ []) (suc fuel) s p ∙ refl
