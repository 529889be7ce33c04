-- ===== src/Aml/Interp/Words.antt =====
-- The words of lethe-aml's code: their bytes are read back, the lowest first.
use uefi_bare_bones.Prelude.{
  ℕ, ◌/◌, ◌%◌, ◌^◌, ◌<◌, ◌≡◌, ap, ◌∙◌, ◌+◌, List, [], ◌∷◌, arith, bit_or, shl,
}
use uefi_bare_bones.Aml.Code.Lengths.{joined}
use uefi_bare_bones.Aml.Interp.{join_bytes, low_first}

abbrev pub word_bytes : ℕ → List ℕ
word_bytes n = (n % 256) ∷ (n / 256) ∷ []

abbrev pub dword_bytes : ℕ → List ℕ
dword_bytes n = (n % 256) ∷ (n / 256 % 256) ∷ (n / 2 ^ 16 % 256) ∷ (n / 2 ^ 24) ∷ []

abbrev pub qword_bytes : ℕ → List ℕ
qword_bytes n =
    (n % 256)
    ∷ (n / 256 % 256)
    ∷ (n / 2 ^ 16 % 256)
    ∷ (n / 2 ^ 24 % 256)
    ∷ (n / 2 ^ 32 % 256)
    ∷ (n / 2 ^ 40 % 256)
    ∷ (n / 2 ^ 48 % 256)
    ∷ (n / 2 ^ 56)
    ∷ []

pub low_first-word_bytes : (n : ℕ) → n < 2 ^ 16 → low_first (word_bytes n) ≡ n
low_first-word_bytes n h = joined 8 (n % 256) (n / 256) (omega arith) ∙ omega arith

low_three :
    (n : ℕ) (bytes : List ℕ)
    → low_first ((n % 256) ∷ (n / 256 % 256) ∷ (n / 2 ^ 16 % 256) ∷ bytes)
      ≡ join_bytes (n % 2 ^ 24) 24 bytes
low_three n bytes =
    let j : bit_or (n % 256) (shl (n / 256 % 256) 8) ≡ n % 2 ^ 16 =
      joined 8 (n % 256) (n / 256 % 256) (omega arith) ∙ omega arith in
    let k : bit_or (n % 2 ^ 16) (shl (n / 2 ^ 16 % 256) 16) ≡ n % 2 ^ 24 =
      joined 16 (n % 2 ^ 16) (n / 2 ^ 16 % 256) (omega arith) ∙ omega arith in
    ap (λ w. join_bytes (bit_or w (shl (n / 2 ^ 16 % 256) 16)) 24 bytes) j
    ∙ ap (λ w. join_bytes w 24 bytes) k

pub low_first-dword_bytes : (n : ℕ) → n < 2 ^ 32 → low_first (dword_bytes n) ≡ n
low_first-dword_bytes n h =
    low_three n ((n / 2 ^ 24) ∷ [])
    ∙ joined 24 (n % 2 ^ 24) (n / 2 ^ 24) (omega arith)
    ∙ omega arith

-- One more byte of a longer word.
next_joined :
    (n k : ℕ) (bytes : List ℕ)
    → bit_or (n % 2 ^ k) (shl (n / 2 ^ k % 256) k) ≡ n % 2 ^ (k + 8)
    → join_bytes (n % 2 ^ k) k ((n / 2 ^ k % 256) ∷ bytes)
      ≡ join_bytes (n % 2 ^ (k + 8)) (k + 8) bytes
next_joined n k bytes e = ap (λ w. join_bytes w (k + 8) bytes) e

pub low_first-qword_bytes : (n : ℕ) → n < 2 ^ 64 → low_first (qword_bytes n) ≡ n
low_first-qword_bytes n h =
    low_three n (
      (n / 2 ^ 24 % 256)
      ∷ (n / 2 ^ 32 % 256)
      ∷ (n / 2 ^ 40 % 256)
      ∷ (n / 2 ^ 48 % 256)
      ∷ (n / 2 ^ 56)
      ∷ [])
    ∙ next_joined n 24
        ((n / 2 ^ 32 % 256) ∷ (n / 2 ^ 40 % 256) ∷ (n / 2 ^ 48 % 256) ∷ (n / 2 ^ 56) ∷ [])
        (joined 24 (n % 2 ^ 24) (n / 2 ^ 24 % 256) (omega arith) ∙ omega arith)
    ∙ next_joined n 32 ((n / 2 ^ 40 % 256) ∷ (n / 2 ^ 48 % 256) ∷ (n / 2 ^ 56) ∷ [])
        (joined 32 (n % 2 ^ 32) (n / 2 ^ 32 % 256) (omega arith) ∙ omega arith)
    ∙ next_joined n 40 ((n / 2 ^ 48 % 256) ∷ (n / 2 ^ 56) ∷ [])
        (joined 40 (n % 2 ^ 40) (n / 2 ^ 40 % 256) (omega arith) ∙ omega arith)
    ∙ next_joined n 48 ((n / 2 ^ 56) ∷ [])
        (joined 48 (n % 2 ^ 48) (n / 2 ^ 48 % 256) (omega arith) ∙ omega arith)
    ∙ joined 56 (n % 2 ^ 56) (n / 2 ^ 56) (omega arith)
    ∙ omega arith
