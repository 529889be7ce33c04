-- ===== src/Aml/Defs/Tests.antt =====
-- The definitions of lethe-aml at concrete bytes.
use uefi_bare_bones.Prelude.{ℕ, ◌≡◌, refl, true, [], ◌∷◌, arith}
use uefi_bare_bones.Aml.Code.{valid_chars}
use uefi_bare_bones.Aml.Code.Lengths.{one}
use uefi_bare_bones.Aml.Namespace.Children.{key}
use uefi_bare_bones.Aml.Interp.{Interp, byte, done, ◌>>◌, pure, put_code}
use uefi_bare_bones.Aml.Interp.Sample.{host, state, dev_valid}
use uefi_bare_bones.Aml.Terms.{term_arg_to_int}
use uefi_bare_bones.Aml.Terms.Objects.{of_byte}
use uefi_bare_bones.Aml.Terms.Expressions.{zero_op}
use uefi_bare_bones.Aml.DataObjects.Literals.{byte_prefix}
use uefi_bare_bones.Aml.Defs.{Run, def_if_else, def_name, def_mutex}
use uefi_bare_bones.Aml.Defs.Branches.{def_if_else-skipped}
use uefi_bare_bones.Aml.Defs.Composed.{def_name-term_arg_to_int}
use uefi_bare_bones.Aml.Defs.Mutexes.{def_mutex-names_kept}

-- "DEV0" is defined as 5 and named behind it.
def_name-term_arg_to_int_example :
    (s' : Interp) × ((def_name host 2 >> term_arg_to_int host 2) (
        put_code 2
          (b'D' ∷ b'E' ∷ b'V' ∷ b'0' ∷ 0x0A ∷ 5 ∷ b'D' ∷ b'E' ∷ b'V' ∷ b'0' ∷ 0x00 ∷ [])
          state)
      ≡ done (5, put_code 2 (0x00 ∷ []) s'))
def_name-term_arg_to_int_example =
    def_name-term_arg_to_int host state 2 2 b'D' b'E' b'V' b'0' (0x0A ∷ 5 ∷ []) (0x00 ∷ []) (byte 5)
      5 refl (λ e. absurd (omega arith)) dev_valid (byte_prefix 5)
      (of_byte (b'D' ∷ b'E' ∷ b'V' ∷ b'0' ∷ []) 5)

def_mutex-names_kept_example :
    (s' : Interp) × (def_mutex host 2 (put_code 2 (b'D' ∷ b'E' ∷ b'V' ∷ b'0' ∷ 3 ∷ 0x00 ∷ []) state)
      ≡ done (tt, s'))
    × ((g h i j : ℕ)
        → valid_chars (key g h i j) ≡ true
        → (s'.aml.spaces 2).children (key g h i j) ≡ (state.aml.spaces 2).children (key g h i j))
def_mutex-names_kept_example =
    def_mutex-names_kept host state 2 b'D' b'E' b'V' b'0' 3 (0x00 ∷ []) dev_valid

-- A list of terms that does nothing.
abbrev idle : Run
idle ns start end = pure tt

-- An IF of a 0 with a body of one byte.
def_if_else-skipped_example :
    def_if_else idle host 2 (put_code 2 (3 ∷ 0x00 ∷ 0x08 ∷ 0x14 ∷ []) state)
    ≡ done (tt, put_code 2 (0x14 ∷ []) state)
def_if_else-skipped_example =
    def_if_else-skipped idle host state 2 3 0x14 (3 ∷ []) (0x00 ∷ []) (0x08 ∷ []) []
      (one (omega arith)) zero_op refl (λ e. absurd (omega arith))
