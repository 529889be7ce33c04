-- ===== src/Aml/Fields/Tests.antt =====
-- The elements of a field of lethe-aml at concrete bytes.
use uefi_bare_bones.Prelude.{◌≡◌, [], ◌∷◌, arith, some}
use uefi_bare_bones.Aml.Code.Lengths.{one}
use uefi_bare_bones.Aml.Interp.{done, put_code}
use uefi_bare_bones.Aml.Interp.Named.{named}
use uefi_bare_bones.Aml.Interp.Sample.{host, state, dev, dev_valid, byte_field}
use uefi_bare_bones.Aml.Fields.{parse_next_field_elem}
use uefi_bare_bones.Aml.Fields.Offsets.{field_at, parse_next_field_elem-LengthBytes}

-- A field of 32 bits at the offset 8 moves the offset by 5.
parse_next_field_elem-LengthBytes_example :
    parse_next_field_elem host 2 8 byte_field
      (put_code 2 (b'D' ∷ b'E' ∷ b'V' ∷ b'0' ∷ 32 ∷ 0x08 ∷ []) state)
    ≡ done (some 5, named host 2 dev (field_at 8 32 dev byte_field) (put_code 2 (0x08 ∷ []) state))
parse_next_field_elem-LengthBytes_example =
    parse_next_field_elem-LengthBytes host state 2 8 32 b'D' b'E' b'V' b'0' byte_field (32 ∷ [])
      (0x08 ∷ []) dev_valid (one (omega arith))
