-- ===== src/Aml/Code/Lengths.antt =====
-- parse_length of lethe-aml/aml/helpers.c against the encoding of package lengths.
use uefi_bare_bones.Prelude.{
  ℕ, ◌+◌, ◌*◌, ◌/◌, ◌%◌, ◌^◌, ◌<◌, ◌≡◌, refl, ◌∙◌, List, [], ◌∷◌, ◌++◌, some, arith, bit_and,
  bit_or, shl, shr, and_low_mask, or_apart, or_comm,
}
use uefi_bare_bones.Aml.Code.{parse_length}

-- The lead byte has the number of the bytes that follow in its upper two bits, and the low four bits
-- of the length, or all of it where no byte follows.
pub data LengthBytes (value : ℕ) : List ℕ → Type 0 where
  one : value < 2 ^ 6 → LengthBytes value (value ∷ [])
  two : value < 2 ^ 12 → LengthBytes value ((1 * 64 + value % 16) ∷ (value / 16) ∷ [])
  three :
      value < 2 ^ 20
      → LengthBytes value ((2 * 64 + value % 16) ∷ (value / 16 % 256) ∷ (value / 4096) ∷ [])
  four :
      value < 2 ^ 28
      → LengthBytes value (
          (3 * 64 + value % 16) ∷ (value / 16 % 256) ∷ (value / 4096 % 256) ∷ (value / 2 ^ 20) ∷ [])

-- A byte above the bits that are read already.
pub joined : (k low b : ℕ) → low < 2 ^ k → bit_or low (shl b k) ≡ b * 2 ^ k + low
joined k low b h = or_comm low (shl b k) ∙ or_apart k b low h

lead_low : (c m : ℕ) → m < 64 → bit_and (c * 64 + m) 0x3F ≡ m
lead_low c m h = and_low_mask 6 (c * 64 + m) ∙ omega arith

lead_count : (c m : ℕ) → m < 64 → c < 4 → bit_and (shr (c * 64 + m) 6) 0b11 ≡ c
lead_count c m h l = and_low_mask 2 (shr (c * 64 + m) 6) ∙ omega arith

-- A length that is encoded in one to four bytes is read back, and the code goes on behind it.
pub parse_length-LengthBytes :
    (value : ℕ) (bytes rest : List ℕ)
    → LengthBytes value bytes
    → parse_length (bytes ++ rest) ≡ some (value, rest)
unfolding parse_length
parse_length-LengthBytes value _ rest (one h) =
    let e : bit_and value 0x3F ≡ value = and_low_mask 6 value ∙ omega arith in
    let c : bit_and (shr value 6) 0b11 ≡ 0 = and_low_mask 2 (shr value 6) ∙ omega arith in
    rw (c, e) refl
parse_length-LengthBytes value _ rest (two h) =
    let e = lead_low 1 (value % 16) (omega arith) in
    let c = lead_count 1 (value % 16) (omega arith) (omega arith) in
    let j : bit_or (value % 16) (shl (value / 16) 4) ≡ value =
      joined 4 (value % 16) (value / 16) (omega arith) ∙ omega arith in
    rw (c, e, j) refl
parse_length-LengthBytes value _ rest (three h) =
    let e = lead_low 2 (value % 16) (omega arith) in
    let c = lead_count 2 (value % 16) (omega arith) (omega arith) in
    let j : bit_or (value % 16) (shl (value / 16 % 256) 4) ≡ value % 4096 =
      joined 4 (value % 16) (value / 16 % 256) (omega arith) ∙ omega arith in
    let k : bit_or (value % 4096) (shl (value / 4096) 12) ≡ value =
      joined 12 (value % 4096) (value / 4096) (omega arith) ∙ omega arith in
    rw (c, e, j, k) refl
parse_length-LengthBytes value _ rest (four h) =
    let e = lead_low 3 (value % 16) (omega arith) in
    let c = lead_count 3 (value % 16) (omega arith) (omega arith) in
    let j : bit_or (value % 16) (shl (value / 16 % 256) 4) ≡ value % 4096 =
      joined 4 (value % 16) (value / 16 % 256) (omega arith) ∙ omega arith in
    let k : bit_or (value % 4096) (shl (value / 4096 % 256) 12) ≡ value % 2 ^ 20 =
      joined 12 (value % 4096) (value / 4096 % 256) (omega arith) ∙ omega arith in
    let l : bit_or (value % 2 ^ 20) (shl (value / 2 ^ 20) 20) ≡ value =
      joined 20 (value % 2 ^ 20) (value / 2 ^ 20) (omega arith) ∙ omega arith in
    rw (c, e, j, k, l) refl
