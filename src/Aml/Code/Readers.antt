-- ===== src/Aml/Code/Readers.antt =====
-- The readers of lethe-aml's code leave no more code than they are given.
use mathlib.Core.Path.{subst}
use uefi_bare_bones.Prelude.{
  ℕ, ◌*◌, ◌≤◌, ◌≡◌, List, [], ◌∷◌, Option, none, some, ltb, ◌==◌, if◌then◌else◌, length, take, drop,
  length-drop, choice, arith, bit_and, bit_or, shl, shr, Bool-cases, inl, inr,
}
use uefi_bare_bones.Aml.Code.{
  ◌>>=◌, next_byte, add_byte, parse_length, key_len, is_prefix, skip_prefixes, segment_count,
  read_segments, parse_namestring,
}

-- What a reader gives, with at most `n` bytes left.
pub data Leaves {A : Type 0} (n : ℕ) : Option (A × List ℕ) → Type 0 where
  leaves_none : Leaves n none
  leaves_some : (a : A) (rest : List ℕ) → length rest ≤ n → Leaves n (some (a, rest))

left_of : {A : Type 0} {n : ℕ} {a : A} {rest : List ℕ} → Leaves n (some (a, rest)) → length rest ≤ n
left_of (leaves_some a rest l) = l

pub Leaves-rest :
    {A : Type 0} {n : ℕ} {o : Option (A × List ℕ)} (a : A) (rest : List ℕ)
    → Leaves n o
    → o ≡ some (a, rest)
    → length rest ≤ n
Leaves-rest {n = n} a rest l e = left_of (subst (λ o. Leaves n o) e l)

pub bind-Leaves :
    {A B : Type 0} {n : ℕ} {o : Option (A × List ℕ)} (f : A × List ℕ → Option (B × List ℕ))
    → Leaves n o
    → ((a : A) (rest : List ℕ) → length rest ≤ n → Leaves n (f (a, rest)))
    → Leaves n (o >>= f)
bind-Leaves f leaves_none k = leaves_none
bind-Leaves f (leaves_some a rest l) k = k a rest l

pub next_byte-Leaves : (n : ℕ) (code : List ℕ) → length code ≤ n → Leaves n (next_byte code)
next_byte-Leaves n [] l = leaves_none
next_byte-Leaves n (b ∷ code) l = leaves_some b code (omega arith)

add_byte-Leaves :
    (n shift value : ℕ) (code : List ℕ) → length code ≤ n → Leaves n (add_byte shift (value, code))
add_byte-Leaves n shift value code l =
    bind-Leaves (λ r. some (bit_or value (shl r.0 shift), r.1)) (next_byte-Leaves n code l)
      (λ b rest h. leaves_some (bit_or value (shl b shift)) rest h)

pub parse_length-Leaves : (n : ℕ) (code : List ℕ) → length code ≤ n → Leaves n (parse_length code)
unfolding parse_length
parse_length-Leaves n code l = bind-Leaves _ (next_byte-Leaves n code l) (λ b rest h.
    let byte_count = bit_and (shr b 6) 0b11 in
    let low = bit_and b 0x3F in
    let one = add_byte-Leaves n 4 low rest h in
    let two = bind-Leaves (add_byte 12) one (λ v r h'. add_byte-Leaves n 12 v r h') in
    choice (λ (o : Option (ℕ × List ℕ)). Leaves n o) (byte_count == 0) (leaves_some low rest h)
      (choice (λ (o : Option (ℕ × List ℕ)). Leaves n o) (byte_count == 1) one
        (choice (λ (o : Option (ℕ × List ℕ)). Leaves n o) (byte_count == 2) two
          (bind-Leaves (add_byte 20) two (λ v r h'. add_byte-Leaves n 20 v r h')))))

length-skip_prefixes : (p : ℕ) (code : List ℕ) → length (skip_prefixes p code).1 ≤ length code
unfolding skip_prefixes
length-skip_prefixes p [] = omega arith
length-skip_prefixes p (c ∷ code) =
    let rest = length-skip_prefixes (if p == 0 then c else p) code in
    elim (Bool-cases (is_prefix c)) [
      | inl t ↦ rw (skip_prefixes, t) (omega arith)
      | inr t ↦ rw (skip_prefixes, t) (omega arith)
    ]

segment_count-Leaves : (n : ℕ) (code : List ℕ) → length code ≤ n → Leaves n (segment_count code)
unfolding segment_count
segment_count-Leaves n [] l = leaves_none
segment_count-Leaves n (prefix ∷ copy) l =
    choice (λ (o : Option (ℕ × List ℕ)). Leaves n o) (prefix == 0x2E)
      (leaves_some 2 copy (omega arith))
      (choice (λ (o : Option (ℕ × List ℕ)). Leaves n o) (prefix == 0x2F)
        (next_byte-Leaves n copy (omega arith))
        (choice (λ (o : Option (ℕ × List ℕ)). Leaves n o) (prefix == 0)
          (leaves_some 0 copy (omega arith)) (leaves_some 1 (prefix ∷ copy) l)))

read_segments-Leaves : (n p : ℕ) (copy : List ℕ) → length copy ≤ n → Leaves n (read_segments p copy)
unfolding read_segments
read_segments-Leaves n p copy l = bind-Leaves _ (segment_count-Leaves n copy l) (λ count rest h.
    let size = count * key_len in
    let segments = take size rest in
    let d = length-drop size rest in
    choice (λ (o : Option (List ℕ × List ℕ)). Leaves n o) (ltb (length rest) size) leaves_none
      (leaves_some (if p == 0 then segments else p ∷ segments) (drop size rest) (omega arith)))

pub parse_namestring-Leaves :
    (n : ℕ) (code : List ℕ) → length code ≤ n → Leaves n (parse_namestring code)
unfolding parse_namestring
parse_namestring-Leaves n code l =
    let skipped = length-skip_prefixes 0 code in
    read_segments-Leaves n (skip_prefixes 0 code).0 (skip_prefixes 0 code).1 (omega arith)
