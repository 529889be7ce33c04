-- ===== src/Aml/DataObjects/Tests.antt =====
-- Data objects of lethe-aml at concrete bytes.
use uefi_bare_bones.Prelude.{◌≡◌, [], ◌∷◌, arith}
use uefi_bare_bones.Aml.Code.Lengths.{one}
use uefi_bare_bones.Aml.Interp.{buf, done, put_code}
use uefi_bare_bones.Aml.Interp.Sample.{host, state}
use uefi_bare_bones.Aml.Terms.Expressions.{byte_prefix}
use uefi_bare_bones.Aml.DataObjects.{parse_data_object}
use uefi_bare_bones.Aml.DataObjects.Literals.{buffer_op, parse_data_object-Encodes}

-- A buffer of three bytes.
parse_data_object-Encodes_example :
    parse_data_object host 2 (put_code 2 (0x11 ∷ 6 ∷ 0x0A ∷ 3 ∷ 65 ∷ 66 ∷ 67 ∷ 0x08 ∷ []) state)
    ≡ done (buf (65 ∷ 66 ∷ 67 ∷ []), put_code 2 (0x08 ∷ []) state)
parse_data_object-Encodes_example =
    parse_data_object-Encodes host state 2 (buf (65 ∷ 66 ∷ 67 ∷ []))
      (0x11 ∷ 6 ∷ 0x0A ∷ 3 ∷ 65 ∷ 66 ∷ 67 ∷ []) (0x08 ∷ [])
      (buffer_op 6 (6 ∷ []) (0x0A ∷ 3 ∷ []) (65 ∷ 66 ∷ 67 ∷ []) (one (omega arith)) (byte_prefix 3))
