-- ===== src/Aml/Terms/Expressions.antt =====
-- term_arg_to_int of lethe-aml/aml/helpers.c against the encoding of integer terms.
use uefi_bare_bones.Prelude.{
  ℕ, zero, suc, ◌-◌, ◌^◌, ◌≤◌, ◌<◌, ◌≡◌, ◌≢◌, ◌⊎◌, inl, inr, Bool, refl, ap, ◌∙◌, false, List, [],
  ◌∷◌, ◌++◌, ltb, ◌==◌, length, arith, append_assoc, length-append,
}
use uefi_bare_bones.Aml.Code.{next_byte}
use uefi_bare_bones.Aml.Namespace.{ok, locate_object}
use uefi_bare_bones.Aml.Interp.{
  Host, done, Interp, M, low_first, ◌>>=◌, ◌>>◌, pure, put_code, set_code, take_bytes,
}
use uefi_bare_bones.Aml.Interp.Cursor.{
  step, get_code-put_code, set_code-put_code, reading-put_code, take_bytes-append,
}
use uefi_bare_bones.Aml.Interp.Words.{
  word_bytes, dword_bytes, low_first-word_bytes, low_first-dword_bytes,
}
use uefi_bare_bones.Aml.Terms.{
  little_endian, unread, named_value, truth, logical_and, two_terms, term_switch, terms,
  term_arg_to_int,
}
use uefi_bare_bones.Aml.Terms.Objects.{ObjectValue, named_value-put_code}

-- The terms in a namespace: their bytes and their value.
pub data Evaluates (host : Host) (s : Interp) (ns : ℕ) : List ℕ → ℕ → Type 0 where
  zero_op : Evaluates host s ns (0x00 ∷ []) 0
  one_op : Evaluates host s ns (0x01 ∷ []) 1
  ones_op : Evaluates host s ns (0xFF ∷ []) (2 ^ 64 - 1)
  byte_prefix : (n : ℕ) → Evaluates host s ns (0x0A ∷ n ∷ []) n
  word_prefix : (n : ℕ) → n < 2 ^ 16 → Evaluates host s ns (0x0B ∷ word_bytes n) n
  dword_prefix : (n : ℕ) → n < 2 ^ 32 → Evaluates host s ns (0x0C ∷ dword_bytes n) n
  lnot_op :
      {xs : List ℕ} {a : ℕ}
      → Evaluates host s ns xs a
      → Evaluates host s ns (0x92 ∷ xs) (truth (a == 0))
  lequal_op :
      {xs ys : List ℕ} {a b : ℕ}
      → Evaluates host s ns xs a
      → Evaluates host s ns ys b
      → Evaluates host s ns (0x93 ∷ (xs ++ ys)) (truth (a == b))
  land_op :
      {xs ys : List ℕ} {a b : ℕ}
      → Evaluates host s ns xs a
      → Evaluates host s ns ys b
      → Evaluates host s ns (0x90 ∷ (xs ++ ys)) (truth (logical_and a b))
  lless_op :
      {xs ys : List ℕ} {a b : ℕ}
      → Evaluates host s ns xs a
      → Evaluates host s ns ys b
      → Evaluates host s ns (0x95 ∷ (xs ++ ys)) (truth (ltb a b))
  lgreater_op :
      {xs ys : List ℕ} {a b : ℕ}
      → Evaluates host s ns xs a
      → Evaluates host s ns ys b
      → Evaluates host s ns (0x94 ∷ (xs ++ ys)) (truth (ltb b a))
  name_term :
      (c d e f p : ℕ) (key : List ℕ) {n : ℕ}
      → b'0' ≤ c
      → c ≤ b'_'
      → locate_object host.depth s.aml ns (c ∷ d ∷ e ∷ f ∷ []) false ≡ ok (p, key)
      → p ≢ 0
      → ObjectValue host (s.objects p) n
      → Evaluates host s ns (c ∷ d ∷ e ∷ f ∷ []) n

-- No letter of a name is an operator.
term_switch-name :
    (term : M ℕ) (host : Host) (ns c : ℕ)
    → b'0' ≤ c
    → c ≤ b'_'
    → term_switch term host ns c ≡ (unread ns c >> named_value host ns)
term_switch-name term host ns c l u =
    let apart : (n : ℕ) → (n < b'0') ⊎ (b'_' < n) → (c == n) ≡ false = λ n h. ground arith in
    rw
      (
        apart 0x00 (inl (omega arith)),
        apart 0x01 (inl (omega arith)),
        apart 0xFF (inr (omega arith)),
        apart 0x0A (inl (omega arith)),
        apart 0x0B (inl (omega arith)),
        apart 0x0C (inl (omega arith)),
        apart 0x92 (inr (omega arith)),
        apart 0x93 (inr (omega arith)),
        apart 0x90 (inr (omega arith)),
        apart 0x95 (inr (omega arith)),
        apart 0x94 (inr (omega arith)),
      )
      refl

-- The operators on two terms, of the second term's code behind the first's.
two_terms-put_code :
    (ns : ℕ) (s : Interp) (term : M ℕ) (test : ℕ → ℕ → Bool) (xs ys rest : List ℕ) (a b : ℕ)
    → term (put_code ns (xs ++ (ys ++ rest)) s) ≡ done (a, put_code ns (ys ++ rest) s)
    → term (put_code ns (ys ++ rest) s) ≡ done (b, put_code ns rest s)
    → two_terms term test (put_code ns ((xs ++ ys) ++ rest) s)
      ≡ done (truth (test a b), put_code ns rest s)
two_terms-put_code ns s term test xs ys rest a b x y =
    ap (λ code. two_terms term test (put_code ns code s)) (append_assoc xs ys rest)
    ∙ step (λ term1. term >>= λ term2. pure (truth (test term1 term2))) x
        (step (λ term2. pure (truth (test a term2))) y refl)

pub little_endian-put_code :
    (ns : ℕ) (s : Interp) (bytes rest : List ℕ) (n : ℕ)
    → low_first bytes ≡ n
    → little_endian ns (length bytes) (put_code ns (bytes ++ rest) s) ≡ done (n, put_code ns rest s)
little_endian-put_code ns s bytes rest n e =
    step (λ b. pure (low_first b))
      (reading-put_code (take_bytes (length bytes)) ns (bytes ++ rest) s
        (take_bytes-append bytes rest))
      (ap (λ n. done (n, put_code ns rest s)) e)

pub unread-put_code :
    (ns c : ℕ) (code : List ℕ) (s : Interp)
    → unread ns c (put_code ns code s) ≡ done (tt, put_code ns (c ∷ code) s)
unread-put_code ns c code s =
    step (λ code. set_code ns (c ∷ code)) (get_code-put_code ns code s)
      (set_code-put_code ns code (c ∷ code) s)

-- The operator's byte, and the terms behind it.
operator :
    (host : Host) (s : Interp) (ns fuel op : ℕ) (code rest : List ℕ) (n : ℕ)
    → term_switch (terms fuel host ns) host ns op (put_code ns code s)
      ≡ done (n, put_code ns rest s)
    → terms (suc fuel) host ns (put_code ns (op ∷ code) s) ≡ done (n, put_code ns rest s)
unfolding terms
operator host s ns fuel op code rest n k =
    step (term_switch (terms fuel host ns) host ns)
      (reading-put_code next_byte ns (op ∷ code) s refl) k

-- Every term has a byte.
has_byte :
    {host : Host} {s : Interp} {ns : ℕ} {bytes : List ℕ} {n : ℕ}
    → Evaluates host s ns bytes n
    → 0 < length bytes
has_byte zero_op = omega arith
has_byte one_op = omega arith
has_byte ones_op = omega arith
has_byte (byte_prefix n) = omega arith
has_byte (word_prefix n b) = omega arith
has_byte (dword_prefix n b) = omega arith
has_byte (lnot_op x) = omega arith
has_byte (lequal_op x y) = omega arith
has_byte (land_op x y) = omega arith
has_byte (lless_op x y) = omega arith
has_byte (lgreater_op x y) = omega arith
has_byte (name_term c d e f p key lo hi k h v) = omega arith

terms-Evaluates :
    (host : Host) (s : Interp) (ns : ℕ) (fuel : ℕ) (bytes rest : List ℕ) (n : ℕ)
    → Evaluates host s ns bytes n
    → length bytes ≤ fuel
    → terms fuel host ns (put_code ns (bytes ++ rest) s) ≡ done (n, put_code ns rest s)
terms-Evaluates host s ns zero bytes rest n t l = absurd (let h = has_byte t in omega arith)
terms-Evaluates host s ns (suc fuel) _ rest _ zero_op l = operator host s ns fuel _ _ rest _ refl
terms-Evaluates host s ns (suc fuel) _ rest _ one_op l = operator host s ns fuel _ _ rest _ refl
terms-Evaluates host s ns (suc fuel) _ rest _ ones_op l = operator host s ns fuel _ _ rest _ refl
terms-Evaluates host s ns (suc fuel) _ rest _ (byte_prefix n) l =
    operator host s ns fuel _ _ rest n (reading-put_code next_byte ns (n ∷ rest) s refl)
terms-Evaluates host s ns (suc fuel) _ rest _ (word_prefix n b) l =
    operator host s ns fuel _ _ rest n
      (little_endian-put_code ns s (word_bytes n) rest n (low_first-word_bytes n b))
terms-Evaluates host s ns (suc fuel) _ rest _ (dword_prefix n b) l =
    operator host s ns fuel _ _ rest n
      (little_endian-put_code ns s (dword_bytes n) rest n (low_first-dword_bytes n b))
terms-Evaluates host s ns (suc fuel) _ rest _ (lnot_op {xs} {a} x) l =
    operator host s ns fuel _ _ rest _ (
      step (λ predicate. pure (truth (predicate == 0)))
        (terms-Evaluates host s ns fuel xs rest a x (omega arith)) refl)
terms-Evaluates host s ns (suc fuel) _ rest _ (lequal_op {xs} {ys} {a} {b} x y) l =
    let bound = length-append xs ys in
    operator host s ns fuel _ _ rest _ (
      two_terms-put_code ns s (terms fuel host ns) (λ a b. a == b) xs ys rest a b
        (terms-Evaluates host s ns fuel xs (ys ++ rest) a x (omega arith))
        (terms-Evaluates host s ns fuel ys rest b y (omega arith)))
terms-Evaluates host s ns (suc fuel) _ rest _ (land_op {xs} {ys} {a} {b} x y) l =
    let bound = length-append xs ys in
    operator host s ns fuel _ _ rest _ (
      two_terms-put_code ns s (terms fuel host ns) logical_and xs ys rest a b
        (terms-Evaluates host s ns fuel xs (ys ++ rest) a x (omega arith))
        (terms-Evaluates host s ns fuel ys rest b y (omega arith)))
terms-Evaluates host s ns (suc fuel) _ rest _ (lless_op {xs} {ys} {a} {b} x y) l =
    let bound = length-append xs ys in
    operator host s ns fuel _ _ rest _ (
      two_terms-put_code ns s (terms fuel host ns) (λ a b. ltb a b) xs ys rest a b
        (terms-Evaluates host s ns fuel xs (ys ++ rest) a x (omega arith))
        (terms-Evaluates host s ns fuel ys rest b y (omega arith)))
terms-Evaluates host s ns (suc fuel) _ rest _ (lgreater_op {xs} {ys} {a} {b} x y) l =
    let bound = length-append xs ys in
    operator host s ns fuel _ _ rest _ (
      two_terms-put_code ns s (terms fuel host ns) (λ a b. ltb b a) xs ys rest a b
        (terms-Evaluates host s ns fuel xs (ys ++ rest) a x (omega arith))
        (terms-Evaluates host s ns fuel ys rest b y (omega arith)))
terms-Evaluates host s ns (suc fuel) _ rest _ (name_term c d e f p key {n} lo hi k h v) l =
    operator host s ns fuel _ _ rest n (
      ap (λ m. m (put_code ns (d ∷ e ∷ f ∷ rest) s))
        (term_switch-name (terms fuel host ns) host ns c lo hi)
      ∙ step (λ u. named_value host ns) (unread-put_code ns c (d ∷ e ∷ f ∷ rest) s)
          (named_value-put_code host s ns p n c d e f key rest k h v))

-- A term of constants, of the operators and of names that stand for a number, with its bytes at
-- `ns->code`, gives its value, and the code goes on behind it.
pub term_arg_to_int-Evaluates :
    (host : Host) (s : Interp) (ns : ℕ) (bytes rest : List ℕ) (n : ℕ)
    → Evaluates host s ns bytes n
    → term_arg_to_int host ns (put_code ns (bytes ++ rest) s) ≡ done (n, put_code ns rest s)
unfolding term_arg_to_int
term_arg_to_int-Evaluates host s ns bytes rest n t =
    let l = length-append bytes rest in
    step (λ code. terms (suc (length code)) host ns) (get_code-put_code ns (bytes ++ rest) s)
      (terms-Evaluates host s ns (suc (length (bytes ++ rest))) bytes rest n t (omega arith))
