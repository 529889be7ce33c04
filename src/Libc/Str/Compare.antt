-- ===== src/Libc/Str/Compare.antt =====
-- `memcmp`, `strlen`, `strnlen`, `strncmp` and `strcmp` of lethe-libc/string.c: what their results
-- say of the bytes.
use native.Mathlib.Decide.{dec_lt, ℕ_discrete}
use uefi_bare_bones.Prelude.{
  ℕ, zero, suc, ◌+◌, ◌≤◌, ◌<◌, ◌≡◌, ◌∙◌, ◌≢◌, true, false, some, arith, ltb, ℤ, pos, negsuc, min,
}
use uefi_bare_bones.Libc.Str.{
  Bytes, memcmp_from, memcmp, strlen_from, strlen, strnlen_from, strnlen,
}

-- The bytes at offsets from `i` up to `n` agree.
abbrev pub Agree : Bytes → Bytes → ℕ → ℕ → Type 0
Agree a b i n = (j : ℕ) → i ≤ j → j < n → a j ≡ b j

-- What a result of `memcmp` says, for a comparison of the bytes from `i` up to `n`.
pub data Compares (a b : Bytes) (i n : ℕ) : ℤ → Type 0 where
  same : Agree a b i n → Compares a b i n (pos 0)
  less : (j : ℕ) → i ≤ j → j < n → Agree a b i j → a j < b j → Compares a b i n (negsuc 0)
  more : (j : ℕ) → i ≤ j → j < n → Agree a b i j → b j < a j → Compares a b i n (pos 1)

Agree-cons : {a b : Bytes} {i : ℕ} (n : ℕ) → a i ≡ b i → Agree a b (i + 1) n → Agree a b i n
Agree-cons {a} {b} {i} n h rest j le lt = elim (ℕ_discrete i j) [
  | yes e ↦ rw (← e) h
  | no ne ↦ rest j (omega arith) lt
]

Compares-cons :
    {a b : Bytes} {i n : ℕ} {r : ℤ} → a i ≡ b i → Compares a b (i + 1) n r → Compares a b i n r
Compares-cons {n = n} h (same all) = same (Agree-cons n h all)
Compares-cons h (less j le lt all d) = less j (omega arith) lt (Agree-cons j h all) d
Compares-cons h (more j le lt all d) = more j (omega arith) lt (Agree-cons j h all) d

memcmp_from-Compares :
    (left i n : ℕ) (a b : Bytes) → i + left ≡ n → Compares a b i n (memcmp_from left i a b)
unfolding memcmp_from
memcmp_from-Compares zero i n a b e = same (λ j le lt. absurd (omega arith))
memcmp_from-Compares (suc left) i n a b e = elim (dec_lt (a i) (b i)) [
  | yes l ↦
      rw (let q : ltb (a i) (b i) ≡ true = ground arith in q)
        (less i (omega arith) (omega arith) (λ j le lt. absurd (omega arith)) l)
  | no nl ↦ elim (dec_lt (b i) (a i)) [
    | yes m ↦
        rw
          (
            (let q : ltb (a i) (b i) ≡ false = ground arith in q),
            (let q : ltb (b i) (a i) ≡ true = ground arith in q),
          )
          (more i (omega arith) (omega arith) (λ j le lt. absurd (omega arith)) m)
    | no nm ↦
        rw
          (
            (let q : ltb (a i) (b i) ≡ false = ground arith in q),
            (let q : ltb (b i) (a i) ≡ false = ground arith in q),
          )
          (Compares-cons (omega arith) (memcmp_from-Compares left (i + 1) n a b (omega arith)))
  ]
]

-- `memcmp` gives 0 if all `size` bytes agree, and else -1 or 1 by the order of the first two that
-- differ.
memcmp-Compares : (a b : Bytes) (size : ℕ) → Compares a b 0 size (memcmp a b size)
unfolding memcmp
memcmp-Compares a b size = memcmp_from-Compares size 0 size a b (omega arith)

-- A text of `n` characters, with its end.
pub record IsText (str : Bytes) (n : ℕ) : Type 0 where
  pub ends : str n ≡ 0
  pub inside : (j : ℕ) → j < n → str j ≢ 0

strlen_from_lem :
    (fuel i n : ℕ) (str : Bytes)
    → IsText str n
    → i ≤ n
    → n < i + fuel
    → strlen_from fuel i str ≡ some n
unfolding strlen_from
strlen_from_lem zero i n str t le lt = absurd (omega arith)
strlen_from_lem (suc fuel) i n str t le lt = elim (ℕ_discrete i n) [
  | yes e ↦ ground (arith, t.ends)
  | no ne ↦ ground (arith, t.inside i, strlen_from_lem fuel (i + 1) n str t)
]

-- `strlen` gives the number of characters before the end.
pub strlen_lem : (fuel n : ℕ) (str : Bytes) → IsText str n → n < fuel → strlen fuel str ≡ some n
unfolding strlen
strlen_lem fuel n str t lt = strlen_from_lem fuel 0 n str t (omega arith) (omega arith)

strnlen_from_lem :
    (maxlen i n : ℕ) (str : Bytes)
    → IsText str n
    → i ≤ n
    → strnlen_from maxlen i str ≡ min n (i + maxlen)
unfolding strnlen_from
strnlen_from_lem zero i n str t le = omega arith
strnlen_from_lem (suc maxlen) i n str t le = elim (ℕ_discrete i n) [
  | yes e ↦ ground (arith, t.ends)
  | no ne ↦ ground (arith, t.inside i, strnlen_from_lem maxlen (i + 1) n str t)
]

-- `strnlen` gives the smaller of the length and the bound.
strnlen_lem : (str : Bytes) (n maxlen : ℕ) → IsText str n → strnlen str maxlen ≡ min n maxlen
unfolding strnlen
strnlen_lem str n maxlen t = strnlen_from_lem maxlen 0 n str t (omega arith) ∙ omega arith
