-- ===== src/Aml/Code/Names.antt =====
-- parse_namestring of lethe-aml/aml/name.c against the encoding of name strings.
use uefi_bare_bones.Prelude.{
  ℕ, zero, suc, ◌*◌, ◌≡◌, ◌≢◌, refl, sym, ap, ◌∙◌, Bool, true, false, List, [], ◌∷◌, ◌++◌, some,
  arith, ltb, ◌==◌, if◌then◌else◌, length, take, drop, replicate, length-append, ◌&&◌, ap₂,
  Bool-cases, inl, inr,
}
use uefi_bare_bones.Aml.Code.{
  is_prefix, skip_prefixes, segment_count, read_segments, parse_namestring, valid_char, valid_chars,
  valid_name,
}

-- The bytes of a name without its prefix: none, one, two or more segments of four characters.
pub data NameBytes : List ℕ → List ℕ → Type 0 where
  no_segment : NameBytes [] (0 ∷ [])
  segment :
      (c : ℕ) (cs : List ℕ)
      → valid_char c ≡ true
      → length (c ∷ cs) ≡ 4
      → NameBytes (c ∷ cs) (c ∷ cs)
  two_segments : (segs : List ℕ) → length segs ≡ 2 * 4 → NameBytes segs (0x2E ∷ segs)
  segments : (n : ℕ) (segs : List ℕ) → length segs ≡ n * 4 → NameBytes segs (0x2F ∷ n ∷ segs)

pub take_front : (n : ℕ) (xs ys : List ℕ) → length xs ≡ n → take n (xs ++ ys) ≡ xs
take_front zero [] ys h = refl
take_front zero (x ∷ xs) ys h = absurd (omega arith)
take_front (suc n) [] ys h = absurd (omega arith)
take_front (suc n) (x ∷ xs) ys h = ap (λ (t : List ℕ). x ∷ t) (take_front n xs ys (omega arith))

pub drop_front : (n : ℕ) (xs ys : List ℕ) → length xs ≡ n → drop n (xs ++ ys) ≡ ys
drop_front zero [] ys h = refl
drop_front zero (x ∷ xs) ys h = absurd (omega arith)
drop_front (suc n) [] ys h = absurd (omega arith)
drop_front (suc n) (x ∷ xs) ys h = drop_front n xs ys (omega arith)

-- The name with its prefix, where there is one.
abbrev pub prefixed : ℕ → List ℕ → List ℕ
prefixed p segs = if p == 0 then segs else p ∷ segs

counted :
    (p n : ℕ) (copy segs rest : List ℕ)
    → segment_count copy ≡ some (n, segs ++ rest)
    → length segs ≡ n * 4
    → read_segments p copy ≡ some (prefixed p segs, rest)
unfolding read_segments
counted p n copy segs rest e h =
    let room : ltb (length (segs ++ rest)) (n * 4) ≡ false =
      ground (arith, length-append segs rest) in
    rw (e, room, take_front (n * 4) segs rest h, drop_front (n * 4) segs rest h) refl

read_segments-NameBytes :
    (p : ℕ) (segs bytes rest : List ℕ)
    → NameBytes segs bytes
    → (read_segments p (bytes ++ rest) ≡ some (prefixed p segs, rest))
      × ((q : ℕ) → skip_prefixes q (bytes ++ rest) ≡ (q, bytes ++ rest))
unfolding segment_count skip_prefixes
read_segments-NameBytes p _ _ rest no_segment =
    (counted p 0 (0 ∷ rest) [] rest refl refl, λ q. refl)
read_segments-NameBytes p _ _ rest (segment c cs v h) =
    let t1 : (c == 0x2E) ≡ false = ground arith in
    let t2 : (c == 0x2F) ≡ false = ground arith in
    let t3 : (c == 0) ≡ false = ground arith in
    let t4 : is_prefix c ≡ false = ground arith in
    (
      counted p 1 (c ∷ (cs ++ rest)) (c ∷ cs) rest (rw (t1, t2, t3) refl) h,
      λ q. rw (t4, skip_prefixes) refl,
    )
read_segments-NameBytes p _ _ rest (two_segments segs h) =
    (counted p 2 (0x2E ∷ (segs ++ rest)) segs rest refl h, λ q. refl)
read_segments-NameBytes p _ _ rest (segments n segs h) =
    (counted p n (0x2F ∷ n ∷ (segs ++ rest)) segs rest refl h, λ q. refl)

reads :
    (p : ℕ) (segs bytes rest : List ℕ)
    → NameBytes segs bytes
    → read_segments (skip_prefixes p (bytes ++ rest)).0 (skip_prefixes p (bytes ++ rest)).1
      ≡ some (prefixed p segs, rest)
reads p segs bytes rest b =
    let (read, skipped) = read_segments-NameBytes p segs bytes rest b in
    ap (λ (r : ℕ × List ℕ). read_segments r.0 r.1) (skipped p) ∙ read

-- A name without a prefix, or with one, is read back from its bytes, and the code goes on behind
-- it.
pub parse_namestring-NameBytes :
    (segs bytes rest : List ℕ)
    → NameBytes segs bytes
    → (parse_namestring (bytes ++ rest) ≡ some (segs, rest))
      × (parse_namestring (b'\\' ∷ (bytes ++ rest)) ≡ some (b'\\' ∷ segs, rest))
      × (parse_namestring (b'^' ∷ (bytes ++ rest)) ≡ some (b'^' ∷ segs, rest))
unfolding parse_namestring skip_prefixes
parse_namestring-NameBytes segs bytes rest b =
    (reads 0 segs bytes rest b, reads b'\\' segs bytes rest b, reads b'^' segs bytes rest b)

caret_kept :
    (more : ℕ) (code : List ℕ)
    → skip_prefixes b'^' (replicate more b'^' ++ code) ≡ skip_prefixes b'^' code
unfolding skip_prefixes
caret_kept zero code = refl
caret_kept (suc more) code = caret_kept more code

-- However many `^` a name begins with, it is read as with one: the steps to the parent's parent are
-- lost.
parse_namestring-carets :
    (more : ℕ) (code : List ℕ)
    → parse_namestring (replicate (suc more) b'^' ++ code) ≡ parse_namestring (b'^' ∷ code)
unfolding parse_namestring skip_prefixes
parse_namestring-carets more code =
    ap (λ (r : ℕ × List ℕ). read_segments r.0 r.1) (caret_kept more code)

-- Characters that are valid one after another.
pub valid_append :
    (xs ys : List ℕ) → valid_chars xs ≡ true → valid_chars ys ≡ true → valid_chars (xs ++ ys) ≡ true
unfolding valid_chars
valid_append [] ys h k = k
valid_append (x ∷ xs) ys h k = elim (Bool-cases (valid_char x)) [
  | inl e ↦
      let later : valid_chars xs ≡ true = sym (ap (λ (b : Bool). b && valid_chars xs) e) ∙ h in
      ap₂ (λ (a b : Bool). a && b) e (valid_append xs ys later k)
  | inr e ↦
      let wrong : false ≡ true = sym (ap (λ (b : Bool). b && valid_chars xs) e) ∙ h in ground arith
]

pub valid_absolute : (cs : List ℕ) → valid_name (b'\\' ∷ cs) ≡ valid_chars cs
unfolding valid_name
valid_absolute cs = refl

-- A valid character is no prefix.
pub first-valid : (c : ℕ) (cs : List ℕ) → valid_chars (c ∷ cs) ≡ true → (c ≢ b'^') × (c ≢ b'\\')
unfolding valid_chars
first-valid c cs h = (
  λ e.
      let t : valid_char c ≡ false = ground arith in
      let wrong : false ≡ true = sym (ap (λ (b : Bool). b && valid_chars cs) t) ∙ h in ground arith,
  λ e.
      let t : valid_char c ≡ false = ground arith in
      let wrong : false ≡ true = sym (ap (λ (b : Bool). b && valid_chars cs) t) ∙ h in ground arith,
)

-- Valid characters are a valid name.
pub valid_first : (c : ℕ) (cs : List ℕ) → valid_chars (c ∷ cs) ≡ true → valid_char c ≡ true
unfolding valid_chars
valid_first c cs h = elim (Bool-cases (valid_char c)) [
  | inl t ↦ t
  | inr t ↦ absurd (
      let wrong : false ≡ true = sym (ap (λ (b : Bool). b && valid_chars cs) t) ∙ h in ground arith)
]

pub valid_name-chars :
    (c : ℕ) (cs : List ℕ) → valid_chars (c ∷ cs) ≡ true → valid_name (c ∷ cs) ≡ true
unfolding valid_name
valid_name-chars c cs h =
    let v = valid_first c cs h in
    let t : is_prefix c ≡ false = ground arith in
    ap (λ b. if b then valid_chars cs else valid_chars (c ∷ cs)) t ∙ h
