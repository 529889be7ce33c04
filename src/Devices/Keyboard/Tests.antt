-- ===== src/Devices/Keyboard/Tests.antt =====
-- The keyboard of lethe-kernel/misc/keyboard.c at concrete scan codes.
use uefi_bare_bones.Prelude.{◌≡◌, refl, ◌↔◌, set, replicate}
use uefi_bare_bones.Devices.Shell.{out_of_block}
use uefi_bare_bones.Devices.Keyboard.{KbStatus, record_key, scancode_to_char, is_key_pressed}
use uefi_bare_bones.Devices.Keyboard.Status.{HasNoPlace, record_key_iff}

abbrev all_up : KbStatus
all_up = replicate 88 0

-- The key of A types `a`, and `A` while the left shift is down.
typed_letters :
    (scancode_to_char all_up 0x1E ≡ b'a') × (scancode_to_char (set all_up 0x2A 1) 0x1E ≡ b'A')
unfolding scancode_to_char
typed_letters = (refl, refl)

-- The key of Y is not found by its letter in lower case.
lower_case :
    (is_key_pressed (set all_up 0x15 1) b'Y' ≡ 1) × (is_key_pressed (set all_up 0x15 1) b'y' ≡ 0)
unfolding is_key_pressed
lower_case = (refl, refl)

record_key_iff_example : (record_key all_up 0x58 ≡ out_of_block) ↔ HasNoPlace 0x58
record_key_iff_example = record_key_iff all_up 0x58 refl
