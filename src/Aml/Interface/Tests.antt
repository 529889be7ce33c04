-- ===== src/Aml/Interface/Tests.antt =====
-- The sleep of lethe-aml at a concrete package.
use uefi_bare_bones.Prelude.{◌≡◌, refl, [], ◌∷◌, arith}
use uefi_bare_bones.Aml.Interp.{byte, done}
use uefi_bare_bones.Aml.Interp.Sample.{state, s5}
use uefi_bare_bones.Aml.Interface.{Fadt, execute_sleep}
use uefi_bare_bones.Aml.Interface.Sleep.{of_byte, execute_sleep-registers}

abbrev fadt : Fadt
fadt = record { flags = 0; pm1a_control_block = 0x604; pm1b_control_block = 0x700 }

execute_sleep-registers_example :
    execute_sleep fadt 5 state ≡ done ((0x604, 13312) ∷ (0x700, 15360) ∷ [], state)
execute_sleep-registers_example =
    execute_sleep-registers fadt state 20 21 22 s5 [] [] [] (byte 5) (byte 7) 5 7 refl
      (λ e. absurd (omega arith)) refl refl refl (of_byte 5) (of_byte 7) (omega arith) (omega arith)
      refl
