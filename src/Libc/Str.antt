-- ===== src/Libc/Str.antt =====
-- lethe-libc/string.c. A pointer that is only read is the function from an offset to the byte
-- there; the functions that write take the whole memory and the addresses. Where a loop counts in
-- `int`, the sizes are meant to fit one. `char` is signed.
pub mod Copy
pub mod Compare
pub mod Order
mod Tests
use uefi_bare_bones.Prelude.{
  ℕ, zero, suc, ◌+◌, ◌-◌, ◌%◌, Bool, true, false, Option, none, some, ltb, ◌==◌, ◌||◌,
  if◌then◌else◌, ℤ, pos, negsuc, sub_ℕ, u8,
}

-- The bytes from a pointer on.
abbrev pub Bytes : Type 0
Bytes = ℕ → ℕ

-- All bytes, by address, and a write of one.
abbrev pub Memory : Type 0
Memory = ℕ → ℕ

abbrev pub write : Memory → ℕ → ℕ → Memory
write mem addr byte a = if a == addr then byte else mem a

-- The rounds `i`, `i + 1`, … of a loop that copies upwards, with `left` rounds left.
pub copy_up : ℕ → ℕ → Memory → ℕ → ℕ → Memory
copy_up zero i mem dest src = mem
copy_up (suc left) i mem dest src =
    copy_up left (i + 1) (write mem (dest + i) (mem (src + i))) dest src

-- The rounds `i = left`, …, 1 of a loop that copies byte `i - 1`.
pub copy_down : ℕ → Memory → ℕ → ℕ → Memory
copy_down zero mem dest src = mem
copy_down (suc left) mem dest src =
    copy_down left (write mem (dest + left) (mem (src + left))) dest src

pub memcpy : Memory → ℕ → ℕ → ℕ → Memory
memcpy mem dest src size = copy_up size 0 mem dest src

pub memmove : Memory → ℕ → ℕ → ℕ → Memory
unfolding copy_up copy_down
memmove mem dst src size =
    if ltb dst src then copy_up size 0 mem dst src else copy_down size mem dst src

-- The rounds of the loop of `memset`.
pub set_up : ℕ → ℕ → Memory → ℕ → ℕ → Memory
set_up zero i mem buf val = mem
set_up (suc left) i mem buf val = set_up left (i + 1) (write mem (buf + i) (u8 val)) buf val

pub memset : Memory → ℕ → ℕ → ℕ → Memory
memset mem buf val size = set_up size 0 mem buf val

-- The rounds of the loop of `memcmp`.
pub memcmp_from : ℕ → ℕ → Bytes → Bytes → ℤ
memcmp_from zero i a b = pos 0
memcmp_from (suc left) i a b =
    if ltb (a i) (b i)
    then negsuc 0
    else if ltb (b i) (a i)
    then pos 1
    else memcmp_from left (i + 1) a b

unfoldable pub memcmp : Bytes → Bytes → ℕ → ℤ
unfolding memcmp_from
memcmp a b size = memcmp_from size 0 a b

-- The loop of `strlen` from offset `i` on; `none` is a text that does not end within the fuel.
pub strlen_from : ℕ → ℕ → Bytes → Option ℕ
strlen_from zero i str = none
strlen_from (suc fuel) i str =
    let rest = strlen_from fuel (i + 1) str in if str i == 0 then some i else rest

pub strlen : ℕ → Bytes → Option ℕ
strlen fuel str = strlen_from fuel 0 str

-- The loop of `strnlen` from offset `i` on, with `maxlen` left.
pub strnlen_from : ℕ → ℕ → Bytes → ℕ
strnlen_from zero i str = i
strnlen_from (suc maxlen) i str =
    let rest = strnlen_from maxlen (i + 1) str in if str i == 0 then i else rest

pub strnlen : Bytes → ℕ → ℕ
strnlen str maxlen = strnlen_from maxlen 0 str

-- The order of two bytes read as signed characters.
abbrev pub char_lt : ℕ → ℕ → Bool
char_lt a b = ltb ((a + 128) % 256) ((b + 128) % 256)

-- The rounds of the loop of `strncmp`.
pub strncmp_from : ℕ → ℕ → Bytes → Bytes → ℤ
strncmp_from zero i s1 s2 = pos 0
strncmp_from (suc left) i s1 s2 =
    let rest = strncmp_from left (i + 1) s1 s2 in
    if s1 i == 0 || s2 i == 0
    then pos 0
    else if char_lt (s1 i) (s2 i)
    then negsuc 0
    else if char_lt (s2 i) (s1 i)
    then pos 1
    else rest

unfoldable pub strncmp : Bytes → Bytes → ℕ → ℤ
unfolding strncmp_from
strncmp s1 s2 n = strncmp_from n 0 s1 s2

pub strcmp : ℕ → Bytes → Bytes → Option ℤ
strcmp fuel s1 s2 = elim (strlen fuel s1) [
  | none ↦ none
  | some s1_len ↦ elim (strlen fuel s2) [
    | none ↦ none
    | some s2_len ↦ some (if s1_len == s2_len then strncmp s1 s2 s1_len else sub_ℕ s1_len s2_len)
  ]
]
