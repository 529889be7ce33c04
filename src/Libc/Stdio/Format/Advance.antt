-- ===== src/Libc/Stdio/Format/Advance.antt =====
-- What the parts of vprintf in lethe-libc/stdio.c do to the output, the flags and the format.
use uefi_bare_bones.Prelude.{
  choice, ℕ, zero, suc, ◌+◌, ◌-◌, ◌*◌, ◌≤◌, ◌≡◌, refl, sym, ap, ◌∙◌, Bool, true, false, not, ◌&&◌,
  List, [], ◌∷◌, ◌++◌, Option, none, some, arith, ◌==◌, if◌then◌else◌, length, length-append,
  append_assoc, append-nil, u32,
}
use uefi_bare_bones.Libc.Stdio.{
  Output, Flags, ntoa_max, putchar, put_blanks, put_reversed, print_reverse, ntoa, ntoa_digits,
  ntoa_long, ntoa_long_long,
}
use uefi_bare_bones.Libc.Stdio.Format.{put_text, is_digit, atoi, flag_of, take_flags}

-- The output grows at its end, and `idx` counts what is printed.
pub data Extends (out : Output) : Output → Type 0 where
  extends :
      (more : List ℕ) (out' : Output)
      → out'.text ≡ out.text ++ more
      → out'.idx ≡ out.idx + length more
      → Extends out out'

pub Extends-refl : (out : Output) → Extends out out
Extends-refl out = extends [] out (sym (append-nil out.text)) (omega arith)

pub Extends-trans : {a b c : Output} → Extends a b → Extends b c → Extends a c
Extends-trans {a} (extends m b tb ib) (extends n c tc ic) =
    extends (m ++ n) c (tc ∙ ap (λ (t : List ℕ). t ++ n) tb ∙ append_assoc a.text m n)
      (omega (arith, ib, ic, length-append m n))

pub putchar-Extends : (c : ℕ) (out : Output) → Extends out (putchar c out)
unfolding putchar
putchar-Extends c out = extends (c ∷ []) _ refl refl

pub put_blanks-Extends : (n : ℕ) (out : Output) → Extends out (put_blanks n out)
unfolding put_blanks
put_blanks-Extends zero out = Extends-refl out
put_blanks-Extends (suc n) out =
    Extends-trans (putchar-Extends b' ' out) (put_blanks-Extends n (putchar b' ' out))

put_reversed-Extends : (buf : List ℕ) (out : Output) → Extends out (put_reversed buf out)
unfolding put_reversed
put_reversed-Extends [] out = Extends-refl out
put_reversed-Extends (c ∷ buf) out =
    Extends-trans (put_reversed-Extends buf out) (putchar-Extends c (put_reversed buf out))

pub put_text-Extends : (text : List ℕ) (out : Output) → Extends out (put_text text out)
unfolding put_text
put_text-Extends [] out = Extends-refl out
put_text-Extends (c ∷ text) out =
    Extends-trans (putchar-Extends c out) (put_text-Extends text (putchar c out))

-- A padding that is printed on a condition.
pub padded-Extends :
    (b : Bool) (n : ℕ) (out : Output) → Extends out (if b then put_blanks n out else out)
padded-Extends true n out = put_blanks-Extends n out
padded-Extends false n out = Extends-refl out

pub unpadded-Extends :
    (b : Bool) (n : ℕ) (out : Output) → Extends out (if b then out else put_blanks n out)
unpadded-Extends true n out = Extends-refl out
unpadded-Extends false n out = put_blanks-Extends n out

print_reverse-Extends :
    (buf : List ℕ) (flags : Flags) (width : ℕ) (out : Output)
    → Extends out (print_reverse buf flags width out)
unfolding print_reverse
print_reverse-Extends buf flags width out =
    let front =
      if not flags.left && not flags.zeropad then put_blanks (width - length buf) out else out in
    let printed = put_reversed buf front in
    Extends-trans (padded-Extends (not flags.left && not flags.zeropad) (width - length buf) out) (
      Extends-trans (put_reversed-Extends buf front)
        (padded-Extends flags.left (width - (printed.idx - out.idx)) printed))

ntoa-Extends :
    (buf : List ℕ) (flags : Flags) (width precision base : ℕ) (negative : Bool) (out : Output)
    → Extends out (ntoa buf flags width precision base negative out)
unfolding ntoa
ntoa-Extends buf flags width precision base negative out = print_reverse-Extends _ flags _ out

pub ntoa_long-Extends :
    (value : ℕ) (flags : Flags) (base width precision : ℕ) (out : Output) (negative : Bool)
    → Extends out (ntoa_long value flags base width precision out negative)
unfolding ntoa_long
ntoa_long-Extends value flags base width precision out negative =
    let flags' = if value == 0 then record flags { hash = false } else flags in
    let digits = ntoa_digits ntoa_max flags' base value in
    ntoa-Extends (if flags.precision && value == 0 then [] else digits) flags' width precision base
      negative out

pub ntoa_long_long-Extends :
    (value : ℕ) (flags : Flags) (base width precision : ℕ) (out : Output) (negative : Bool)
    → Extends out (ntoa_long_long value flags base width precision out negative)
unfolding ntoa_long_long
ntoa_long_long-Extends value flags base width precision out negative =
    let flags' = if value == 0 then record flags { hash = false } else flags in
    let digits = ntoa_digits ntoa_max flags' base value in
    ntoa-Extends (if flags.precision && value == 0 then [] else digits) flags' width precision base
      negative out

-- What the loop of vprintf never takes back from the flags.
pub record Keeps (flags flags' : Flags) : Type 0 where
  pub left : flags.left ≡ true → flags'.left ≡ true
  pub upper : flags.upper ≡ true → flags'.upper ≡ true
  pub short : flags.short ≡ true → flags'.short ≡ true
  pub long : flags.long ≡ true → flags'.long ≡ true
  pub precision : flags.precision ≡ true → flags'.precision ≡ true

pub Keeps-refl : (flags : Flags) → Keeps flags flags
Keeps-refl flags = record {
  left = λ h. h;
  upper = λ h. h;
  short = λ h. h;
  long = λ h. h;
  precision = λ h. h;
}

pub Keeps-trans : {f g h : Flags} → Keeps f g → Keeps g h → Keeps f h
Keeps-trans a b = record {
  left = λ e. b.left (a.left e);
  upper = λ e. b.upper (a.upper e);
  short = λ e. b.short (a.short e);
  long = λ e. b.long (a.long e);
  precision = λ e. b.precision (a.precision e);
}

-- A change of the other flags, or of `left`.
pub keeping :
    {f g : Flags}
    → (f.left ≡ true → g.left ≡ true)
    → f.upper ≡ g.upper
    → f.short ≡ g.short
    → f.long ≡ g.long
    → f.precision ≡ g.precision
    → Keeps f g
keeping l u s n p = record {
  left = l;
  upper = λ h. sym u ∙ h;
  short = λ h. sym s ∙ h;
  long = λ h. sym n ∙ h;
  precision = λ h. sym p ∙ h;
}

data Flagged (flags : Flags) : Option Flags → Type 0 where
  flag : (flags' : Flags) → Keeps flags flags' → Flagged flags (some flags')
  no_flag : Flagged flags none

flag_of-Flagged : (c : ℕ) (flags : Flags) → Flagged flags (flag_of c flags)
unfolding flag_of
flag_of-Flagged c flags =
    choice (Flagged flags) (c == b'0')
      (flag (record flags { zeropad = true }) (keeping (λ h. h) refl refl refl refl))
      (choice (Flagged flags) (c == b'-')
        (flag (record flags { left = true }) (keeping (λ _. refl) refl refl refl refl))
        (choice (Flagged flags) (c == b'+')
          (flag (record flags { plus = true }) (keeping (λ h. h) refl refl refl refl))
          (choice (Flagged flags) (c == b' ')
            (flag (record flags { space = true }) (keeping (λ h. h) refl refl refl refl))
            (choice (Flagged flags) (c == b'#')
              (flag (record flags { hash = true }) (keeping (λ h. h) refl refl refl refl))
              no_flag))))

-- The flags are added, and the format shrinks.
pub take_flags-Keeps :
    (fmt : List ℕ) (flags : Flags)
    → Keeps flags (take_flags fmt flags).0 × (length (take_flags fmt flags).1 ≤ length fmt)
unfolding take_flags
take_flags-Keeps [] flags = (Keeps-refl flags, omega arith)
take_flags-Keeps (c ∷ fmt) flags =
    kept (flag_of c flags) (flag_of-Flagged c flags) (λ f. take_flags-Keeps fmt f)
  where
    taken : Option Flags → Flags × List ℕ
    taken o = elim o [ some flags' ↦ take_flags fmt flags' | none ↦ (flags, c ∷ fmt) ]

    kept :
        (o : Option Flags)
        → Flagged flags o
        → ((f : Flags) → Keeps f (take_flags fmt f).0 × (length (take_flags fmt f).1 ≤ length fmt))
        → Keeps flags (taken o).0 × (length (taken o).1 ≤ suc (length fmt))
    kept _ (flag flags' k) later =
        let (k', l) = later flags' in (Keeps-trans k k', omega (arith, l))
    kept _ no_flag later = (Keeps-refl flags, omega arith)

-- A number is read from the front of the format.
pub length-atoi : (i : ℕ) (fmt : List ℕ) → length (atoi i fmt).1 ≤ length fmt
unfolding atoi
length-atoi i [] = omega arith
length-atoi i (c ∷ fmt) = read (is_digit c) (length-atoi (u32 (i * 10 + (c - 0x30))) fmt)
  where
    taken : Bool → ℕ × List ℕ
    taken b = elim b [ true ↦ atoi (u32 (i * 10 + (c - 0x30))) fmt | false ↦ (i, c ∷ fmt) ]

    read :
        (b : Bool)
        → length (atoi (u32 (i * 10 + (c - 0x30))) fmt).1 ≤ length fmt
        → length (taken b).1 ≤ suc (length fmt)
    read true l = omega arith
    read false l = omega arith
