-- ===== src/Devices/Terminal.antt =====
-- lethe-kernel/terminal/tty.c, and the pixels of terminal/pixel.c that it draws. The frame buffer is
-- a function from a column and a row, for a frame buffer whose rows do not overlap, so that each
-- column and row has an address of its own; the font that the build links in is a parameter, the bytes
-- from `_binary_font_psf_start` on. A char is signed, so a byte of 128 or above is a read in front
-- of the font, the result `none`. The copy that goes to a serial port is left out.
pub mod Pixels
pub mod Cells
mod Tests
use uefi_bare_bones.Prelude.{
  ℕ, zero, suc, ◌+◌, ◌-◌, ◌*◌, ◌/◌, ◌%◌, ◌^◌, Bool, true, false, ◌&&◌, Option, none, some, ltb, leb,
  ◌==◌, if◌then◌else◌, u32, bit_and, shr,
}

pub record Tty : Type 0 where
  pub cursor : ℕ
  pub line : ℕ
  pub initialized : Bool
  pub fb_xres : ℕ
  pub fb_yres : ℕ
  pub pixels : ℕ → ℕ → ℕ

pub put_pixel : ℕ → ℕ → ℕ → Tty → Tty
put_pixel x y color t =
    if t.initialized
    then record t { pixels = λ u v. if u == x && v == y then color else t.pixels u v }
    else t

-- The inner loop of `fill`, from the row `y` on.
pub fill_column : ℕ → ℕ → ℕ → ℕ → Tty → Tty
unfolding put_pixel
fill_column zero x y color t = t
fill_column (suc rows) x y color t = fill_column rows x (y + 1) color (put_pixel x y color t)

pub fill : ℕ → ℕ → ℕ → ℕ → ℕ → Tty → Tty
unfolding fill_column
fill start_x start_y zero height color t = t
fill start_x start_y (suc width) height color t =
    fill (start_x + 1) start_y width height color (fill_column height start_x start_y color t)

pub set_cursor : ℕ → ℕ → Tty → Tty
set_cursor new_cursor new_line t = record t { cursor = new_cursor; line = new_line }

pub clear_screen : Tty → Tty
unfolding fill set_cursor
clear_screen t = set_cursor 1 1 (fill 0 0 t.fb_xres t.fb_yres 0 t)

-- The loop over a row of a glyph, with `mask`.
pub draw_row : ℕ → ℕ → ℕ → ℕ → ℕ → Tty → Tty
unfolding put_pixel
draw_row zero x y mask byte t = t
draw_row (suc columns) x y mask byte t =
    draw_row columns (x + 1) y (shr mask 1) byte
      (put_pixel x y (if bit_and byte mask == 0 then 0 else 0xFFFFFF) t)

-- The loop over the rows, with `glyph` as an offset in the font.
pub draw_rows : ℕ → (ℕ → ℕ) → ℕ → ℕ → ℕ → Tty → Tty
unfolding draw_row
draw_rows zero font x y glyph t = t
draw_rows (suc rows) font x y glyph t =
    draw_rows rows font x (y + 1) (glyph + 1) (draw_row 8 x y 0b10000000 (font glyph) t)

-- The tests of `tty_putc` in front of the drawing: the end of a line, and of the screen.
pub wrap_line : Tty → Tty
wrap_line t = if leb 80 t.cursor then record t { cursor = 1; line = u32 (t.line + 1) } else t

pub wrap_screen : Tty → Tty
unfolding clear_screen
wrap_screen t = if leb 25 t.line then record (clear_screen t) { cursor = 1; line = 1 } else t

-- The glyph of a character at the cursor.
pub draw_glyph : (ℕ → ℕ) → ℕ → Tty → Tty
unfolding draw_rows
draw_glyph font ch t = draw_rows 16 font (u32 (t.cursor * 8)) (u32 (t.line * 16)) (32 + ch * 16) t

pub tty_putc : (ℕ → ℕ) → ℕ → Tty → Option Tty
unfolding wrap_line wrap_screen draw_glyph
tty_putc font ch t =
    let wrapped = wrap_screen (wrap_line t) in
    let drawn = draw_glyph font ch wrapped in
    if ch == b'\n'
    then some (record t { cursor = 1; line = u32 (t.line + 1) })
    else if ch == b'\t'
    then some (record t { cursor = u32 (t.cursor + 4) })
    else if ltb ch 128
    then some (record drawn { cursor = u32 (wrapped.cursor + 1) })
    else none

-- `tty_putc(' '); cursor--`
pub erase : (ℕ → ℕ) → Tty → Option Tty
unfolding tty_putc
erase font t = elim (tty_putc font b' ' t) [
  | none ↦ none
  | some t' ↦ some (record t' { cursor = u32 (t'.cursor + 2 ^ 32 - 1) })
]

pub tty_delc : (ℕ → ℕ) → Tty → Option Tty
unfolding erase
tty_delc font t =
    if t.cursor == 0
    then if t.line == 0
      then erase font t
      else erase font (record t { cursor = 79; line = t.line - 1 })
    else erase font (record t { cursor = t.cursor - 1 })
