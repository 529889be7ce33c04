-- ===== src/Devices/Terminal/Tests.antt =====
-- The terminal of lethe-kernel/terminal/tty.c on a screen of 640 times 400 pixels.
use uefi_bare_bones.Prelude.{
  ℕ, suc, ◌+◌, ◌*◌, ◌<◌, ◌≡◌, refl, true, some, arith, ◌==◌, if◌then◌else◌,
}
use uefi_bare_bones.Devices.Terminal.{Tty, tty_putc}
use uefi_bare_bones.Devices.Terminal.Pixels.{mask_at, bit_color}
use uefi_bare_bones.Devices.Terminal.Cells.{Cell, Stays, tty_putc-Stays, tty_putc-glyph}

abbrev black : Tty
black = record {
  cursor = 80;
  line = 3;
  initialized = true;
  fb_xres = 640;
  fb_yres = 400;
  pixels = λ u v. 0;
}

-- A font whose glyph of "A" has one byte 0x81 in its third row.
abbrev one_row : ℕ → ℕ
one_row k = if k == 32 + b'A' * 16 + 2 then 0x81 else 0

tty_putc-Stays_example : Stays black (tty_putc one_row b'A' black)
tty_putc-Stays_example = tty_putc-Stays one_row b'A' black (omega arith) (omega arith)

tty_putc-glyph_example :
    (t' : Tty) × (column : ℕ) × (row : ℕ) × (tty_putc one_row b'A' black ≡ some t')
    × Cell 80 3 column row
    × (column < 80)
    × (row < 25)
    × (t'.cursor ≡ suc column)
    × (t'.line ≡ row)
    × ((i j : ℕ)
        → i < 8
        → j < 16
        → t'.pixels (column * 8 + i) (row * 16 + j)
          ≡ bit_color (one_row (32 + b'A' * 16 + j)) (mask_at i 0b10000000))
tty_putc-glyph_example =
    tty_putc-glyph one_row b'A' black refl (omega arith) (λ e. absurd (omega arith))
      (λ e. absurd (omega arith))
