-- ===== src/Aml/Run/Tests.antt =====
-- Lists of terms of lethe-aml at concrete bytes.
use uefi_bare_bones.Prelude.{ℕ, ◌≡◌, refl, List, [], ◌∷◌, arith}
use uefi_bare_bones.Aml.Code.Lengths.{one}
use uefi_bare_bones.Aml.Interp.{exit, put_code}
use uefi_bare_bones.Aml.Interp.Sample.{host, state}
use uefi_bare_bones.Aml.Terms.Expressions.{zero_op, one_op}
use uefi_bare_bones.Aml.Defs.{def_if_else}
use uefi_bare_bones.Aml.Run.{parse_termlist, parse_table}
use uefi_bare_bones.Aml.Run.Steps.{Ends, parse_table-Ends}
use uefi_bare_bones.Aml.Run.Branches.{def_if_else-exit, def_if_else-else_exit}

-- The scope "_SB_" with "DEV1" defined as 5.
abbrev table : List ℕ
table = 0x10 ∷ 12 ∷ b'_' ∷ b'S' ∷ b'B' ∷ b'_' ∷ 0x08 ∷ b'D' ∷ b'E' ∷ b'V' ∷ b'1' ∷ 0x0A ∷ 5 ∷ []

parse_table-Ends_example : Ends 3 (parse_table host table 49 state)
parse_table-Ends_example = parse_table-Ends host state table 49

-- An IF of a 1 with a body of one byte.
def_if_else-exit_example :
    def_if_else (parse_termlist host) host 2 (put_code 2 (3 ∷ 0x01 ∷ 0x08 ∷ 0x14 ∷ []) state) ≡ exit
def_if_else-exit_example =
    def_if_else-exit host state 2 3 1 (0x01 ∷ []) (0x08 ∷ []) (0x14 ∷ []) (omega arith)
      (λ e. absurd (omega arith)) (λ e. absurd (omega arith)) (λ e. absurd (omega arith))
      (λ e. absurd (omega arith)) one_op (λ e. absurd (omega arith)) refl

-- An IF of a 0 with a body of one byte, and behind it an ELSE with a body of one byte.
def_if_else-else_exit_example :
    def_if_else
      (parse_termlist host)
      host
      2
      (put_code 2 (3 ∷ 0x00 ∷ 0x08 ∷ 0xA1 ∷ 2 ∷ 0x06 ∷ 0x14 ∷ []) state)
    ≡ exit
def_if_else-else_exit_example =
    def_if_else-else_exit host state 2 3 2 (3 ∷ []) (0x00 ∷ []) (0x08 ∷ []) (0x06 ∷ []) (0x14 ∷ [])
      (one (omega arith)) zero_op refl (omega arith) (λ e. absurd (omega arith))
      (λ e. absurd (omega arith)) (λ e. absurd (omega arith)) (λ e. absurd (omega arith)) refl
