-- ===== src/Cpu/Gdt/Decode.antt =====
-- What the processor reads in the descriptors of lethe-kernel/cpu/gdt.c.
use uefi_bare_bones.Prelude.{
  ℕ, ◌+◌, ◌*◌, ◌/◌, ◌%◌, ◌^◌, ◌<◌, ◌≡◌, refl, ◌∙◌, arith, bit_and, bit_or, shl, shr, and_low_mask,
  or_apart, or_comm, and_shifted,
}
use uefi_bare_bones.Cpu.Gdt.{GdtEntry, GdtLongEntry, gdt_set_gate, gdt_set_long_gate}

-- The fields as the processor puts them together.
abbrev pub base_of : GdtEntry → ℕ
base_of e = e.base_low + e.base_mid * 2 ^ 16 + e.base_high * 2 ^ 24

abbrev pub limit_of : GdtEntry → ℕ
limit_of e = e.limit_low + e.flags_and_limit_high % 2 ^ 4 * 2 ^ 16

abbrev pub flags_of : GdtEntry → ℕ
flags_of e = e.flags_and_limit_high / 2 ^ 4

abbrev pub long_base_of : GdtLongEntry → ℕ
long_base_of e =
    e.base_low + e.base_low_mid * 2 ^ 16 + e.base_upper_mid * 2 ^ 24 + e.base_high * 2 ^ 32

abbrev pub long_limit_of : GdtLongEntry → ℕ
long_limit_of e = e.limit_low + e.flags_and_limit_high % 2 ^ 4 * 2 ^ 16

abbrev pub long_flags_of : GdtLongEntry → ℕ
long_flags_of e = e.flags_and_limit_high / 2 ^ 4

pub record Describes (e : GdtEntry) (base limit access flags : ℕ) : Type 0 where
  pub has_base : base_of e ≡ base
  pub has_limit : limit_of e ≡ limit
  pub has_access : e.access ≡ access
  pub has_flags : flags_of e ≡ flags

pub record LongDescribes (e : GdtLongEntry) (base limit access flags : ℕ) : Type 0 where
  pub has_base : long_base_of e ≡ base
  pub has_limit : long_limit_of e ≡ limit
  pub has_access : e.access ≡ access
  pub has_flags : long_flags_of e ≡ flags

mask_8 : (x : ℕ) → bit_and x 0xFF ≡ x % 2 ^ 8
mask_8 x = and_low_mask 8 x

mask_16 : (x : ℕ) → bit_and x 0xFFFF ≡ x % 2 ^ 16
mask_16 x = and_low_mask 16 x

mask_32 : (x : ℕ) → bit_and x 0xFFFFFFFF ≡ x % 2 ^ 32
mask_32 x = and_low_mask 32 x

mask_4 : (x : ℕ) → bit_and x 0xF ≡ x % 2 ^ 4
mask_4 x = and_low_mask 4 x

-- The byte with the flags above the limit's high digits.
shared_byte :
    (limit flags : ℕ)
    → bit_or (bit_and (shr limit 16) 0xF) (shl flags 4) ≡ flags * 2 ^ 4 + limit / 2 ^ 16 % 2 ^ 4
shared_byte limit flags = rw (mask_4 (shr limit 16)) (
    or_comm (limit / 2 ^ 16 % 2 ^ 4) (flags * 2 ^ 4)
    ∙ or_apart 4 flags (limit / 2 ^ 16 % 2 ^ 4) (omega arith))

masked_flags : (flags : ℕ) → flags < 16 → bit_and (shl flags 4) 0xF0 ≡ flags * 2 ^ 4
masked_flags flags h = and_shifted 4 flags 15 ∙ rw (mask_4 flags) (omega arith)

-- A descriptor of eight bytes holds its base, limit, access byte and flags, where these have no
-- more digits than the descriptor has for them.
gdt_set_gate-Describes :
    (base limit access flags : ℕ)
    → base < 2 ^ 32
    → limit < 2 ^ 20
    → flags < 2 ^ 4
    → Describes (gdt_set_gate base limit access flags) base limit access flags
unfolding gdt_set_gate
gdt_set_gate-Describes base limit access flags hb hl hf = record {
  has_base = omega (arith, mask_16 base, mask_8 (shr base 16), mask_8 (shr base 24));
  has_limit = omega (arith, mask_16 limit, shared_byte limit flags);
  has_access = refl;
  has_flags = omega (arith, shared_byte limit flags);
}

-- A descriptor of sixteen bytes holds its base of 64 bits, limit, access byte and flags.
pub gdt_set_long_gate-LongDescribes :
    (base limit access flags : ℕ)
    → base < 2 ^ 64
    → limit < 2 ^ 20
    → flags < 2 ^ 4
    → LongDescribes (gdt_set_long_gate base limit access flags) base limit access flags
unfolding gdt_set_long_gate
gdt_set_long_gate-LongDescribes base limit access flags hb hl hf =
    let byte : bit_or (bit_and (shl flags 4) 0xF0) (bit_and (shr limit 16) 0x0F)
        ≡ flags * 2 ^ 4 + limit / 2 ^ 16 % 2 ^ 4 =
      rw (masked_flags flags hf, mask_4 (shr limit 16))
        (or_apart 4 flags (limit / 2 ^ 16 % 2 ^ 4) (omega arith)) in
    record {
      has_base =
          omega (
            arith,
            mask_16 base,
            mask_8 (shr base 16),
            mask_8 (shr base 24),
            mask_32 (shr base 32),
          );
      has_limit = omega (arith, mask_16 limit, byte);
      has_access = refl;
      has_flags = omega (arith, byte);
    }
