-- ===== src/Devices/Terminal/Cells.antt =====
-- tty_putc of lethe-kernel/terminal/tty.c: where it draws, and what.
use mathlib.Core.Path.{subst}
use native.Mathlib.Decide.{dec_le}
use uefi_bare_bones.Prelude.{
  ℕ, suc, ◌+◌, ◌*◌, ◌≤◌, ◌<◌, ◌≡◌, ◌≢◌, ◌⊎◌, inl, inr, refl, sym, ◌∙◌, Bool, true, false, Option,
  none, some, arith, ltb, leb, ◌==◌, if◌then◌else◌, u32, choice,
}
use uefi_bare_bones.Devices.Terminal.{
  Tty, set_cursor, clear_screen, wrap_line, wrap_screen, draw_glyph, tty_putc,
}
use uefi_bare_bones.Devices.Terminal.Pixels.{
  Outside, fill-Inside, draw_rows-Inside, mask_at, bit_color, draw_rows-bits,
}

-- The tests put the cursor on the screen of 80 columns and 25 lines, and write no pixel outside of
-- the frame buffer.
record Wrapped (t t' : Tty) : Type 0 where
  column : t'.cursor < 80
  row : t'.line < 25
  initialized : t'.initialized ≡ t.initialized
  pixels : (u v : ℕ) → (t.fb_xres ≤ u) ⊎ (t.fb_yres ≤ v) → t'.pixels u v ≡ t.pixels u v

wrap_screen-Wrapped : (t : Tty) → t.cursor < 80 → Wrapped t (wrap_screen t)
unfolding wrap_screen clear_screen set_cursor
wrap_screen-Wrapped t h = elim (dec_le 25 t.line) [
  | yes full ↦
      let e : leb 25 t.line ≡ true = ground arith in
      let f = fill-Inside 0 0 t.fb_xres t.fb_yres 0 t in
      let cleared : Wrapped t (record (clear_screen t) { cursor = 1; line = 1 }) = record {
        column = omega arith;
        row = omega arith;
        initialized = f.initialized;
        pixels = λ u v o. f.pixels u v (ground arith);
      } in
      subst
        (λ (b : Bool).
          Wrapped t (if b then record (clear_screen t) { cursor = 1; line = 1 } else t))
        (sym e) cleared
  | no room ↦
      let e : leb 25 t.line ≡ false = ground arith in
      let same : Wrapped t t = record {
        column = h;
        row = omega arith;
        initialized = refl;
        pixels = λ u v o. refl;
      } in
      subst
        (λ (b : Bool).
          Wrapped t (if b then record (clear_screen t) { cursor = 1; line = 1 } else t))
        (sym e) same
]

-- The cursor and the line that `tty_putc` draws at.
abbrev pub placed : Tty → Tty
placed t = wrap_screen (wrap_line t)

placed-Wrapped : (t : Tty) → Wrapped t (placed t)
unfolding wrap_line
placed-Wrapped t = elim (dec_le 80 t.cursor) [
  | yes full ↦
      let e : leb 80 t.cursor ≡ true = ground arith in
      let next : Tty = record t { cursor = 1; line = u32 (t.line + 1) } in
      let w = wrap_screen-Wrapped next (omega arith) in
      let moved : Wrapped t (wrap_screen next) = record {
        column = w.column;
        row = w.row;
        initialized = w.initialized;
        pixels = w.pixels;
      } in
      subst
        (λ (b : Bool).
          Wrapped t
            (wrap_screen (if b then record t { cursor = 1; line = u32 (t.line + 1) } else t)))
        (sym e) moved
  | no room ↦
      let e : leb 80 t.cursor ≡ false = ground arith in
      subst
        (λ (b : Bool).
          Wrapped t
            (wrap_screen (if b then record t { cursor = 1; line = u32 (t.line + 1) } else t)))
        (sym e) (wrap_screen-Wrapped t (omega arith))
]

-- The cell of the next character, by the cursor and the line: behind the last column it is column 1
-- of the next line, and behind the last line the screen is cleared and it is column 1 of line 1.
pub data Cell (cursor line : ℕ) : ℕ → ℕ → Type 0 where
  at_cursor : cursor < 80 → line < 25 → Cell cursor line cursor line
  next_line : 80 ≤ cursor → u32 (line + 1) < 25 → Cell cursor line 1 (u32 (line + 1))
  cleared_below : cursor < 80 → 25 ≤ line → Cell cursor line 1 1
  cleared_behind : 80 ≤ cursor → 25 ≤ u32 (line + 1) → Cell cursor line 1 1

placed-Cell : (t : Tty) → Cell t.cursor t.line (placed t).cursor (placed t).line
unfolding wrap_line wrap_screen clear_screen set_cursor
placed-Cell t = elim (dec_le 80 t.cursor) [
  | yes behind ↦
      let e : leb 80 t.cursor ≡ true = ground arith in
      elim (dec_le 25 (u32 (t.line + 1))) [
        | yes below ↦
            let f : leb 25 (u32 (t.line + 1)) ≡ true = ground arith in
            rw (e, f) (cleared_behind behind below)
        | no room ↦
            let f : leb 25 (u32 (t.line + 1)) ≡ false = ground arith in
            rw (e, f) (next_line behind (omega arith))
      ]
  | no before ↦
      let e : leb 80 t.cursor ≡ false = ground arith in
      elim (dec_le 25 t.line) [
        | yes below ↦
            let f : leb 25 t.line ≡ true = ground arith in
            rw (e, f) (cleared_below (omega arith) below)
        | no room ↦
            let f : leb 25 t.line ≡ false = ground arith in
            rw (e, f) (at_cursor (omega arith) (omega arith))
      ]
]

-- What is outside of the frame buffer stays; `none` is a read in front of the font.
pub data Stays (t : Tty) : Option Tty → Type 0 where
  stays :
      (t' : Tty)
      → ((u v : ℕ) → (t.fb_xres ≤ u) ⊎ (t.fb_yres ≤ v) → t'.pixels u v ≡ t.pixels u v)
      → Stays t (some t')
  before_font : Stays t none

-- On a frame buffer of at least 640 columns and 400 rows `tty_putc` writes no pixel outside of it,
-- whatever the cursor, the line, the font and the character are.
pub tty_putc-Stays :
    (font : ℕ → ℕ) (ch : ℕ) (t : Tty)
    → 640 ≤ t.fb_xres
    → 400 ≤ t.fb_yres
    → Stays t (tty_putc font ch t)
unfolding tty_putc draw_glyph
tty_putc-Stays font ch t wide high =
    let w = placed-Wrapped t in
    let p : Tty = placed t in
    let column = w.column in
    let row = w.row in
    let x : ℕ = u32 (p.cursor * 8) in
    let y : ℕ = u32 (p.line * 16) in
    let left : x + 8 ≤ 640 = omega arith in
    let top : y + 16 ≤ 400 = omega arith in
    let drawn = draw_rows-Inside 16 font x y (32 + ch * 16) p in
    choice (Stays t) (ch == b'\n') (stays _ (λ u v o. refl)) (
      choice (Stays t) (ch == b'\t') (stays _ (λ u v o. refl)) (
        choice (Stays t) (ltb ch 128)
          (stays _
            (λ u v o. drawn.pixels u v (apart x y u v left top wide high o) ∙ w.pixels u v o))
          before_font))
  where
    apart :
        (x y u v : ℕ)
        → x + 8 ≤ 640
        → y + 16 ≤ 400
        → 640 ≤ t.fb_xres
        → 400 ≤ t.fb_yres
        → (t.fb_xres ≤ u) ⊎ (t.fb_yres ≤ v)
        → Outside x y 8 16 u v
    apart x y u v left top wide high (inl o) = inr (inl (omega arith))
    apart x y u v left top wide high (inr o) = inr (inr (inr (omega arith)))

third :
    {A : Type 0} (a b c : Bool) (x y z w : A)
    → a ≡ false
    → b ≡ false
    → c ≡ true
    → (if a then x else if b then y else if c then z else w) ≡ z
third true b c x y z w ea eb ec = ground arith
third false true c x y z w ea eb ec = ground arith
third false false true x y z w ea eb ec = refl
third false false false x y z w ea eb ec = ground arith

-- A character below 128 that is no end of line and no tab is drawn in the cell that the cursor and
-- the line give, at a column below 80 and a line below 25: the pixels of that cell show the bits of
-- its glyph; the line is then the cell's, and the cursor the column behind it.
pub tty_putc-glyph :
    (font : ℕ → ℕ) (ch : ℕ) (t : Tty)
    → t.initialized ≡ true
    → ch < 128
    → ch ≢ b'\n'
    → ch ≢ b'\t'
    → (t' : Tty) × (column : ℕ) × (row : ℕ) × (tty_putc font ch t ≡ some t')
      × Cell t.cursor t.line column row
      × (column < 80)
      × (row < 25)
      × (t'.cursor ≡ suc column)
      × (t'.line ≡ row)
      × ((i j : ℕ)
          → i < 8
          → j < 16
          → t'.pixels (column * 8 + i) (row * 16 + j)
            ≡ bit_color (font (32 + ch * 16 + j)) (mask_at i 0b10000000))
unfolding tty_putc draw_glyph
tty_putc-glyph font ch t on h n1 n2 =
    let w = placed-Wrapped t in
    let p : Tty = placed t in
    let column = w.column in
    let row = w.row in
    let e1 : (ch == b'\n') ≡ false = ground arith in
    let e2 : (ch == b'\t') ≡ false = ground arith in
    let e3 : ltb ch 128 ≡ true = ground arith in
    (
      record (draw_glyph font ch p) { cursor = u32 (p.cursor + 1) },
      p.cursor,
      p.line,
      third (ch == b'\n') (ch == b'\t') (ltb ch 128)
          (some (record t { cursor = 1; line = u32 (t.line + 1) }))
          (some (record t { cursor = u32 (t.cursor + 4) }))
          (some (record (draw_glyph font ch p) { cursor = u32 (p.cursor + 1) })) none e1 e2 e3,
      placed-Cell t,
      column,
      row,
      omega arith,
      (draw_rows-Inside 16 font (u32 (p.cursor * 8)) (u32 (p.line * 16)) (32 + ch * 16) p).line,
      λ i j hi hj.
          draw_rows-bits 16 font (u32 (p.cursor * 8)) (u32 (p.line * 16)) (32 + ch * 16) p i j
            (p.cursor * 8 + i) (p.line * 16 + j) (w.initialized ∙ on) hi hj (omega arith)
            (omega arith),
    )
