-- ===== src/Aml/Terms/Tests.antt =====
-- Integer terms of lethe-aml at concrete bytes.
use uefi_bare_bones.Prelude.{◌≡◌, [], ◌∷◌, arith}
use uefi_bare_bones.Aml.Interp.{done, put_code}
use uefi_bare_bones.Aml.Interp.Sample.{host, state, dev, dev_found}
use uefi_bare_bones.Aml.Terms.{term_arg_to_int}
use uefi_bare_bones.Aml.Terms.Objects.{of_byte}
use uefi_bare_bones.Aml.Terms.Expressions.{
  byte_prefix, lgreater_op, name_term, term_arg_to_int-Evaluates,
}

-- "DEV0", which is 5, is greater than 3.
term_arg_to_int-Evaluates_example :
    term_arg_to_int host 2
      (put_code 2 (0x94 ∷ b'D' ∷ b'E' ∷ b'V' ∷ b'0' ∷ 0x0A ∷ 3 ∷ 0x00 ∷ []) state)
    ≡ done (1, put_code 2 (0x00 ∷ []) state)
term_arg_to_int-Evaluates_example =
    term_arg_to_int-Evaluates host state 2 (0x94 ∷ b'D' ∷ b'E' ∷ b'V' ∷ b'0' ∷ 0x0A ∷ 3 ∷ [])
      (0x00 ∷ []) 1
      (lgreater_op
        (name_term b'D' b'E' b'V' b'0' 9 dev (omega arith) (omega arith) dev_found
          (λ e. absurd (omega arith)) (of_byte dev 5))
        (byte_prefix 3))
