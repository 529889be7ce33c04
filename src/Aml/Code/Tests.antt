-- ===== src/Aml/Code/Tests.antt =====
-- Package lengths and name strings of lethe-aml at concrete bytes.
use uefi_bare_bones.Prelude.{ℕ, ◌≡◌, refl, List, [], ◌∷◌, some, arith, true}
use uefi_bare_bones.Aml.Code.{parse_length, trim_name, valid_name}
use uefi_bare_bones.Aml.Code.Lengths.{two, parse_length-LengthBytes}

-- "_SB_PCI0"
abbrev two_names : List ℕ
two_names = b'_' ∷ b'S' ∷ b'B' ∷ b'_' ∷ b'P' ∷ b'C' ∷ b'I' ∷ b'0' ∷ []

trimmed : trim_name two_names ≡ b'P' ∷ b'C' ∷ b'I' ∷ b'0' ∷ []
unfolding trim_name
trimmed = refl

valid_two_names : valid_name two_names ≡ true
unfolding valid_name
valid_two_names = refl

parse_length-LengthBytes_example : parse_length (74 ∷ 62 ∷ 7 ∷ []) ≡ some (1002, 7 ∷ [])
parse_length-LengthBytes_example =
    parse_length-LengthBytes 1002 (74 ∷ 62 ∷ []) (7 ∷ []) (two (omega arith))
