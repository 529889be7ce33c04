-- ===== src/Libc/Stdio/Format/Parse.antt =====
-- The parts of a conversion of vprintf in lethe-libc/stdio.c that read the format.
use uefi_bare_bones.Prelude.{
  choice, ℕ, ◌≤◌, ◌≡◌, refl, ap, true, ◌||◌, List, [], ◌∷◌, arith, ◌==◌, length,
}
use uefi_bare_bones.Libc.Stdio.{Flags}
use uefi_bare_bones.Libc.Stdio.Format.{
  Result, ok, undefined, ◌>>=◌, Arg, word, string, Vprintf, next_char, rest, next_word, next_string,
  is_digit, star_width, take_width, star_precision, point_precision, take_precision, take_length,
  is_negative,
}
use uefi_bare_bones.Libc.Stdio.Format.Advance.{
  Extends, Extends-refl, Extends-trans, Keeps, Keeps-refl, Keeps-trans, keeping, length-atoi,
}

-- A result with a property, or what C leaves undefined; not the end of the fuel.
pub data Yields {A : Type 0} (P : A → Type 0) : Result A → Type 0 where
  yields : (a : A) → P a → Yields P (ok a)
  fails : Yields P undefined

pub bind-Yields :
    {A B : Type 0} {P : A → Type 0} {Q : B → Type 0} (m : Result A) (f : A → Result B)
    → Yields P m
    → ((a : A) → P a → Yields Q (f a))
    → Yields Q (m >>= f)
bind-Yields _ f (yields a p) k = k a p
bind-Yields _ f fails k = fails

-- The output has grown, the flags are kept, and the format has not grown.
pub record Advances (s s' : Vprintf) : Type 0 where
  pub out : Extends s.out s'.out
  pub flags : Keeps s.flags s'.flags
  pub fmt : length s'.fmt ≤ length s.fmt

pub Advances-refl : (s : Vprintf) → Advances s s
Advances-refl s = record { out = Extends-refl s.out; flags = Keeps-refl s.flags; fmt = omega arith }

pub Advances-trans : {a b c : Vprintf} → Advances a b → Advances b c → Advances a c
Advances-trans p q = record {
  out = Extends-trans p.out q.out;
  flags = Keeps-trans p.flags q.flags;
  fmt = (let a = p.fmt in let b = q.fmt in omega arith);
}

-- One step after another.
pub then-Advances :
    (s s' : Vprintf) (m : Result Vprintf)
    → Advances s s'
    → Yields (Advances s') m
    → Yields (Advances s) m
then-Advances s s' _ p (yields a q) = yields a (Advances-trans p q)
then-Advances s s' _ p fails = fails

pub length-rest : (fmt : List ℕ) → length (rest fmt) ≤ length fmt
length-rest [] = omega arith
length-rest (c ∷ fmt) = omega arith

-- A change that prints nothing.
pub quiet :
    (s s' : Vprintf)
    → s'.out ≡ s.out
    → Keeps s.flags s'.flags
    → length s'.fmt ≤ length s.fmt
    → Advances s s'
quiet s s' e k l = record { out = rw e (Extends-refl s.out); flags = k; fmt = l }

-- The next argument, and the variables that it leaves alone.
abbrev pub Fetched : {A : Type 0} → Vprintf → A × Vprintf → Type 0
Fetched s r = (r.1.out ≡ s.out) × (r.1.flags ≡ s.flags) × (r.1.fmt ≡ s.fmt)

pub next_word-Fetched : (s : Vprintf) → Yields (Fetched s) (next_word s)
unfolding next_word
next_word-Fetched s = fetched s.args
  where
    fetched : (args : List Arg) → Yields (Fetched s) (next_word (record s { args = args }))
    fetched [] = fails
    fetched (word w ∷ args) = yields _ (refl, refl, refl)
    fetched (string p ∷ args) = fails

pub next_string-Fetched : (s : Vprintf) → Yields (Fetched s) (next_string s)
unfolding next_string
next_string-Fetched s = fetched s.args
  where
    fetched : (args : List Arg) → Yields (Fetched s) (next_string (record s { args = args }))
    fetched [] = fails
    fetched (word w ∷ args) = fails
    fetched (string p ∷ args) = yields _ (refl, refl, refl)

pub Fetched-Advances : {A : Type 0} (s : Vprintf) (r : A × Vprintf) → Fetched s r → Advances s r.1
Fetched-Advances s r (o, f, l) =
    quiet s r.1 o (rw f (Keeps-refl s.flags)) (omega (arith, ap length l))

star_width-Advances : (w : ℕ) (s : Vprintf) → Advances s (star_width w s)
unfolding star_width
star_width-Advances w s =
    choice (Advances s) (is_negative w)
      (quiet s _ refl (keeping (λ _. refl) refl refl refl refl) (length-rest s.fmt))
      (quiet s _ refl (Keeps-refl s.flags) (length-rest s.fmt))

star_precision-Advances : (w : ℕ) (s : Vprintf) → Advances s (star_precision w s)
unfolding star_precision
star_precision-Advances w s = quiet s _ refl (Keeps-refl s.flags) (length-rest s.fmt)

pub take_width-Advances : (s : Vprintf) → Yields (Advances s) (take_width s)
unfolding take_width
take_width-Advances s =
    choice (Yields (Advances s)) (is_digit (next_char s.fmt))
      (yields _ (quiet s _ refl (Keeps-refl s.flags) (length-atoi 0 s.fmt)))
      (choice (Yields (Advances s)) (next_char s.fmt == b'*')
        (bind-Yields (next_word (record s { width = 0 })) _
          (next_word-Fetched (record s { width = 0 }))
          (λ r h. yields _ (Advances-trans (Fetched-Advances s r h) (star_width-Advances r.0 r.1))))
        (yields _ (quiet s _ refl (Keeps-refl s.flags) (omega arith))))

point_precision-Advances : (s : Vprintf) → Yields (Advances s) (point_precision s)
unfolding point_precision
point_precision-Advances s =
    choice (Yields (Advances s)) (is_digit (next_char s.fmt))
      (yields _ (quiet s _ refl (Keeps-refl s.flags) (length-atoi 0 s.fmt)))
      (choice (Yields (Advances s)) (next_char s.fmt == b'*')
        (bind-Yields (next_word s) _ (next_word-Fetched s) (λ r h.
          yields _ (Advances-trans (Fetched-Advances s r h) (star_precision-Advances r.0 r.1))))
        (yields _ (Advances-refl s)))

precision-Keeps : (flags : Flags) → Keeps flags (record flags { precision = true })
precision-Keeps flags = record {
  left = λ h. h;
  upper = λ h. h;
  short = λ h. h;
  long = λ h. h;
  precision = λ _. refl;
}

pub take_precision-Advances : (s : Vprintf) → Yields (Advances s) (take_precision s)
unfolding take_precision
take_precision-Advances s =
    let flagged : Vprintf = record s {
      flags = record s.flags { precision = true };
      precision = 0;
      fmt = rest s.fmt;
    } in
    choice (Yields (Advances s)) (next_char s.fmt == b'.')
      (then-Advances s flagged (point_precision flagged)
        (quiet s flagged refl (precision-Keeps s.flags) (length-rest s.fmt))
        (point_precision-Advances flagged))
      (yields _ (quiet s _ refl (Keeps-refl s.flags) (omega arith)))

-- A length modifier of one or of two letters.
modified :
    (s : Vprintf) (flags : Flags) (fmt : List ℕ)
    → Keeps s.flags flags
    → length fmt ≤ length s.fmt
    → Advances s (record s { flags = flags; fmt = fmt })
modified s flags fmt k l = quiet s _ refl k l

long-Keeps : (flags : Flags) → Keeps flags (record flags { long = true })
long-Keeps flags = record {
  left = λ h. h;
  upper = λ h. h;
  short = λ h. h;
  long = λ _. refl;
  precision = λ h. h;
}

short-Keeps : (flags : Flags) → Keeps flags (record flags { short = true })
short-Keeps flags = record {
  left = λ h. h;
  upper = λ h. h;
  short = λ _. refl;
  long = λ h. h;
  precision = λ h. h;
}

pub take_length-Advances : (s : Vprintf) → Advances s (take_length s)
unfolding take_length
take_length-Advances s =
    let c = next_char s.fmt in
    let one = length-rest s.fmt in
    let two : length (rest (rest s.fmt)) ≤ length s.fmt =
      omega (arith, one, length-rest (rest s.fmt)) in
    let long : Flags = record s.flags { long = true } in
    let short : Flags = record s.flags { short = true } in
    let k = long-Keeps s.flags in
    let h = short-Keeps s.flags in
    choice (Advances s) (c == b'l')
      (choice (Advances s) (next_char (rest s.fmt) == b'l')
        (modified s (record long { long_long = true }) (rest (rest s.fmt))
          (Keeps-trans k (keeping (λ e. e) refl refl refl refl)) two)
        (modified s long (rest s.fmt) k one))
      (choice (Advances s) (c == b'h')
        (choice (Advances s) (next_char (rest s.fmt) == b'h')
          (modified s (record short { char = true }) (rest (rest s.fmt))
            (Keeps-trans h (keeping (λ e. e) refl refl refl refl)) two)
          (modified s short (rest s.fmt) h one))
        (choice (Advances s) (c == b't' || (c == b'j' || c == b'z'))
          (modified s long (rest s.fmt) k one) (Advances-refl s)))
