-- ===== src/Aml/Code.antt =====
-- What lethe-aml reads off the code: package lengths (aml/helpers.c) and name strings (aml/name.c).
-- The code is the list of the bytes from `ns->code` on; a read past its end is `none`.
pub mod Lengths
pub mod Names
pub mod Readers
mod Tests
use uefi_bare_bones.Prelude.{
  ℕ, zero, suc, ◌+◌, ◌-◌, ◌*◌, ◌/◌, ◌^◌, Bool, true, false, not, ◌&&◌, ◌||◌, List, [], ◌∷◌, ◌++◌,
  Option, none, some, ltb, leb, ◌==◌, if◌then◌else◌, length, take, drop, bit_and, bit_or, shl, shr,
}

infixl 5 ◌>>=◌
abbrev pub ◌>>=◌ : {A B : Type 0} → Option A → (A → Option B) → Option B
none >>= f = none
some a >>= f = f a

-- `*ns->code++`
abbrev pub next_byte : List ℕ → Option (ℕ × List ℕ)
next_byte [] = none
next_byte (b ∷ code) = some (b, code)

-- `length |= *ns->code++ << shift`
abbrev pub add_byte : ℕ → ℕ × List ℕ → Option (ℕ × List ℕ)
add_byte shift (value, code) = next_byte code >>= λ r. some (bit_or value (shl r.0 shift), r.1)

pub parse_length : List ℕ → Option (ℕ × List ℕ)
parse_length code = next_byte code >>= λ r.
    let byte_count = bit_and (shr r.0 6) 0b11 in
    let start : ℕ × List ℕ = (bit_and r.0 0x3F, r.1) in
    if byte_count == 0
    then some start
    else if byte_count == 1
    then add_byte 4 start
    else if byte_count == 2
    then (add_byte 4 start >>= add_byte 12)
    else (add_byte 4 start >>= add_byte 12 >>= add_byte 20)

-- `KEY_LEN`
abbrev pub key_len : ℕ
key_len = 4

abbrev pub is_prefix : ℕ → Bool
is_prefix c = c == b'\\' || c == b'^'

-- The loop over the prefixes, with `char_prefix`.
pub skip_prefixes : ℕ → List ℕ → ℕ × List ℕ
skip_prefixes char_prefix [] = (char_prefix, [])
skip_prefixes char_prefix (c ∷ code) = elim (is_prefix c) [
  | true ↦ skip_prefixes (if char_prefix == 0 then c else char_prefix) code
  | false ↦ (char_prefix, c ∷ code)
]

-- `seg_count`
pub segment_count : List ℕ → Option (ℕ × List ℕ)
segment_count [] = none
segment_count (prefix ∷ copy) =
    if prefix == 0x2E
    then some (2, copy)
    else if prefix == 0x2F
    then next_byte copy
    else if prefix == 0
    then some (0, copy)
    else some (1, prefix ∷ copy)

-- The segments behind the prefixes: the name's characters, whose number is `count`, and the code
-- behind them.
pub read_segments : ℕ → List ℕ → Option (List ℕ × List ℕ)
unfolding segment_count
read_segments char_prefix copy = segment_count copy >>= λ r.
    let size = r.0 * key_len in
    let segments = take size r.1 in
    if ltb (length r.1) size
    then none
    else some (if char_prefix == 0 then segments else char_prefix ∷ segments, drop size r.1)

pub parse_namestring : List ℕ → Option (List ℕ × List ℕ)
unfolding skip_prefixes read_segments
parse_namestring code =
    let (char_prefix, copy) = skip_prefixes 0 code in read_segments char_prefix copy

abbrev pub valid_char : ℕ → Bool
valid_char c = leb b'A' c && leb c b'Z' || (leb b'0' c && leb c b'9' || c == b'_')

unfoldable pub valid_chars : List ℕ → Bool
valid_chars [] = true
valid_chars (c ∷ cs) = valid_char c && valid_chars cs

-- `valid_name`, of a name that is not empty.
pub valid_name : List ℕ → Bool
unfolding valid_chars
valid_name [] = true
valid_name (c ∷ cs) = if is_prefix c then valid_chars cs else valid_chars (c ∷ cs)

-- The last segment is kept.
pub trim_name : List ℕ → List ℕ
trim_name name = if leb (length name) key_len then name else drop (length name - key_len) name
