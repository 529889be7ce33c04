-- ===== src/Libc/Str/Copy.antt =====
-- `memcpy`, `memmove` and `memset` of lethe-libc/string.c: what each byte of memory is afterwards.
use uefi_bare_bones.Prelude.{
  ℕ, zero, suc, ◌+◌, ◌%◌, ◌≤◌, ◌<◌, ◌≡◌, refl, ◌⊎◌, inl, inr, arith, ltb, u8, Bool-cases,
}
use uefi_bare_bones.Libc.Str.{Memory, write, copy_up, copy_down, memcpy, memmove, set_up, memset}

-- `after` has at `dest` the `size` bytes that `before` has at `src`, and is `before` elsewhere.
pub record IsCopy (before after : Memory) (dest src size : ℕ) : Type 0 where
  pub inside : (j : ℕ) → j < size → after (dest + j) ≡ before (src + j)
  pub outside : (a : ℕ) → (a < dest) ⊎ (dest + size ≤ a) → after a ≡ before a

-- What is left to do upwards from offset `i`: the source is untouched from there on.
copy_up_lem :
    (left i : ℕ) (mem before : Memory) (dest src size : ℕ)
    → i + left ≡ size
    → (dest ≤ src) ⊎ (src + size ≤ dest)
    → ((j : ℕ) → j < i → mem (dest + j) ≡ before (src + j))
    → ((j : ℕ) → i ≤ j → j < size → mem (src + j) ≡ before (src + j))
    → ((a : ℕ) → (a < dest) ⊎ (dest + size ≤ a) → mem a ≡ before a)
    → IsCopy before (copy_up left i mem dest src) dest src size
unfolding copy_up
copy_up_lem zero i mem before dest src size e apart copied source others = record {
  inside = λ j lt. copied j (omega arith);
  outside = others;
}
copy_up_lem (suc left) i mem before dest src size e apart copied source others =
    copy_up_lem left (i + 1) (write mem (dest + i) (mem (src + i))) before dest src size
      (omega arith) apart (λ j lt. ground (arith, source i, copied j))
      (λ j le lt. ground (arith, source j)) (λ a out. ground (arith, others a))

copy_down_lem :
    (left : ℕ) (mem before : Memory) (dest src size : ℕ)
    → left ≤ size
    → src ≤ dest
    → ((j : ℕ) → left ≤ j → j < size → mem (dest + j) ≡ before (src + j))
    → ((j : ℕ) → j < left → mem (src + j) ≡ before (src + j))
    → ((a : ℕ) → (a < dest) ⊎ (dest + size ≤ a) → mem a ≡ before a)
    → IsCopy before (copy_down left mem dest src) dest src size
unfolding copy_down
copy_down_lem zero mem before dest src size e above copied source others = record {
  inside = λ j lt. copied j (omega arith) lt;
  outside = others;
}
copy_down_lem (suc left) mem before dest src size e above copied source others =
    copy_down_lem left (write mem (dest + left) (mem (src + left))) before dest src size
      (omega arith) above (λ j le lt. ground (arith, source left, copied j))
      (λ j lt. ground (arith, source j)) (λ a out. ground (arith, others a))

-- `memcpy` copies when the destination does not begin inside the source.
memcpy-IsCopy :
    (mem : Memory) (dest src size : ℕ)
    → (dest ≤ src) ⊎ (src + size ≤ dest)
    → IsCopy mem (memcpy mem dest src size) dest src size
unfolding memcpy
memcpy-IsCopy mem dest src size apart =
    copy_up_lem size 0 mem mem dest src size (omega arith) apart (λ j lt. absurd (omega arith))
      (λ j le lt. refl) (λ a out. refl)

-- `memmove` copies however source and destination overlap, and changes no other byte.
pub memmove-IsCopy :
    (mem : Memory) (dst src size : ℕ) → IsCopy mem (memmove mem dst src size) dst src size
unfolding memmove
memmove-IsCopy mem dst src size = elim (Bool-cases (ltb dst src)) [
  | inl below ↦ rw below (
      copy_up_lem size 0 mem mem dst src size (omega arith) (inl (ground arith))
        (λ j lt. absurd (omega arith)) (λ j le lt. refl) (λ a out. refl))
  | inr above ↦ rw above (
      copy_down_lem size mem mem dst src size (omega arith) (ground arith)
        (λ j le lt. absurd (omega arith)) (λ j lt. refl) (λ a out. refl))
]

set_up_lem :
    (left i : ℕ) (mem before : Memory) (buf val size : ℕ)
    → i + left ≡ size
    → ((j : ℕ) → j < i → mem (buf + j) ≡ u8 val)
    → ((a : ℕ) → (a < buf) ⊎ (buf + size ≤ a) → mem a ≡ before a)
    → ((j : ℕ) → j < size → set_up left i mem buf val (buf + j) ≡ u8 val)
      × ((a : ℕ) → (a < buf) ⊎ (buf + size ≤ a) → set_up left i mem buf val a ≡ before a)
unfolding set_up
set_up_lem zero i mem before buf val size e filled others =
    ((λ j lt. filled j (omega arith)), others)
set_up_lem (suc left) i mem before buf val size e filled others =
    set_up_lem left (i + 1) (write mem (buf + i) (u8 val)) before buf val size (omega arith)
      (λ j lt. ground (arith, filled j)) (λ a out. ground (arith, others a))

-- `memset` stores the low byte of the value in each of the `size` bytes and in no other.
memset_lem :
    (mem : Memory) (buf val size : ℕ)
    → ((j : ℕ) → j < size → memset mem buf val size (buf + j) ≡ val % 256)
      × ((a : ℕ) → (a < buf) ⊎ (buf + size ≤ a) → memset mem buf val size a ≡ mem a)
unfolding memset
memset_lem mem buf val size =
    set_up_lem size 0 mem mem buf val size (omega arith) (λ j lt. absurd (omega arith))
      (λ a out. refl)
