-- ===== src/Devices/Terminal/Pixels.antt =====
-- Which pixels the loops of lethe-kernel/terminal/pixel.c and tty.c write.
use uefi_bare_bones.Prelude.{
  ℕ, zero, suc, ◌+◌, ◌≤◌, ◌<◌, ◌≡◌, ◌⊎◌, inl, inr, refl, ap, ◌∙◌, Bool, true, false, ◌&&◌, arith,
  ◌==◌, if◌then◌else◌, bit_and, shr, choice,
}
use uefi_bare_bones.Devices.Terminal.{Tty, put_pixel, fill_column, fill, draw_row, draw_rows}

-- Outside of a rectangle.
abbrev pub Outside : ℕ → ℕ → ℕ → ℕ → ℕ → ℕ → Type 0
Outside x y width height u v = (u < x) ⊎ ((x + width ≤ u) ⊎ ((v < y) ⊎ (y + height ≤ v)))

-- A change of pixels in a rectangle only, which leaves all else.
pub record Inside (x y width height : ℕ) (t t' : Tty) : Type 0 where
  pub pixels : (u v : ℕ) → Outside x y width height u v → t'.pixels u v ≡ t.pixels u v
  pub cursor : t'.cursor ≡ t.cursor
  pub line : t'.line ≡ t.line
  pub initialized : t'.initialized ≡ t.initialized
  pub fb_xres : t'.fb_xres ≡ t.fb_xres
  pub fb_yres : t'.fb_yres ≡ t.fb_yres

Inside-refl : (x y width height : ℕ) (t : Tty) → Inside x y width height t t
Inside-refl x y width height t = record {
  pixels = λ u v h. refl;
  cursor = refl;
  line = refl;
  initialized = refl;
  fb_xres = refl;
  fb_yres = refl;
}

-- A part of a rectangle, and then another part.
pub Inside-trans :
    {x y w h x1 y1 w1 h1 x2 y2 w2 h2 : ℕ} {a b c : Tty}
    → Inside x1 y1 w1 h1 a b
    → Inside x2 y2 w2 h2 b c
    → ((u v : ℕ) → Outside x y w h u v → Outside x1 y1 w1 h1 u v)
    → ((u v : ℕ) → Outside x y w h u v → Outside x2 y2 w2 h2 u v)
    → Inside x y w h a c
Inside-trans p q first second = record {
  pixels = λ u v o. q.pixels u v (second u v o) ∙ p.pixels u v (first u v o);
  cursor = q.cursor ∙ p.cursor;
  line = q.line ∙ p.line;
  initialized = q.initialized ∙ p.initialized;
  fb_xres = q.fb_xres ∙ p.fb_xres;
  fb_yres = q.fb_yres ∙ p.fb_yres;
}

put_pixel-Inside : (x y color : ℕ) (t : Tty) → Inside x y 1 1 t (put_pixel x y color t)
unfolding put_pixel
put_pixel-Inside x y color t =
    choice (Inside x y 1 1 t) t.initialized
      (record {
        pixels = λ u v o.
            let other : (u == x && v == y) ≡ false = ground arith in
            ap (λ (b : Bool). if b then color else t.pixels u v) other;
        cursor = refl;
        line = refl;
        initialized = refl;
        fb_xres = refl;
        fb_yres = refl;
      })
      (Inside-refl x y 1 1 t)

fill_column-Inside :
    (rows x y color : ℕ) (t : Tty) → Inside x y 1 rows t (fill_column rows x y color t)
unfolding fill_column
fill_column-Inside zero x y color t = Inside-refl x y 1 0 t
fill_column-Inside (suc rows) x y color t =
    Inside-trans (put_pixel-Inside x y color t)
      (fill_column-Inside rows x (y + 1) color (put_pixel x y color t)) (λ u v o. ground arith)
      (λ u v o. ground arith)

pub fill-Inside :
    (x y width height color : ℕ) (t : Tty)
    → Inside x y width height t (fill x y width height color t)
unfolding fill
fill-Inside x y zero height color t = Inside-refl x y 0 height t
fill-Inside x y (suc width) height color t =
    Inside-trans (fill_column-Inside height x y color t)
      (fill-Inside (x + 1) y width height color (fill_column height x y color t))
      (λ u v o. ground arith) (λ u v o. ground arith)

pub draw_row-Inside :
    (columns x y mask byte : ℕ) (t : Tty)
    → Inside x y columns 1 t (draw_row columns x y mask byte t)
unfolding draw_row
draw_row-Inside zero x y mask byte t = Inside-refl x y 0 1 t
draw_row-Inside (suc columns) x y mask byte t =
    let color : ℕ = if bit_and byte mask == 0 then 0 else 0xFFFFFF in
    Inside-trans (put_pixel-Inside x y color t)
      (draw_row-Inside columns (x + 1) y (shr mask 1) byte (put_pixel x y color t))
      (λ u v o. ground arith) (λ u v o. ground arith)

pub draw_rows-Inside :
    (rows : ℕ) (font : ℕ → ℕ) (x y glyph : ℕ) (t : Tty)
    → Inside x y 8 rows t (draw_rows rows font x y glyph t)
unfolding draw_rows
draw_rows-Inside zero font x y glyph t = Inside-refl x y 8 0 t
draw_rows-Inside (suc rows) font x y glyph t =
    let row = draw_row 8 x y 0b10000000 (font glyph) t in
    Inside-trans (draw_row-Inside 8 x y 0b10000000 (font glyph) t)
      (draw_rows-Inside rows font x (y + 1) (glyph + 1) row) (λ u v o. ground arith)
      (λ u v o. ground arith)

-- `mask` after `i` rounds.
abbrev pub mask_at : ℕ → ℕ → ℕ
mask_at zero mask = mask
mask_at (suc i) mask = mask_at i (shr mask 1)

-- The colour of a bit of a glyph's byte.
abbrev pub bit_color : ℕ → ℕ → ℕ
bit_color byte mask = if bit_and byte mask == 0 then 0 else 0xFFFFFF

pixel_put :
    (x y color : ℕ) (t : Tty) → t.initialized ≡ true → (put_pixel x y color t).pixels x y ≡ color
unfolding put_pixel
pixel_put x y color t on =
    let here : (x == x && y == y) ≡ true = ground arith in
    ap
      (λ (b : Bool).
        (if b
            then record t { pixels = λ u v. if u == x && v == y then color else t.pixels u v }
            else t).pixels
          x y)
      on
    ∙ ap (λ (b : Bool). if b then color else t.pixels x y) here

draw_row-bits :
    (columns x y mask byte : ℕ) (t : Tty) (i u : ℕ)
    → t.initialized ≡ true
    → i < columns
    → u ≡ x + i
    → (draw_row columns x y mask byte t).pixels u y ≡ bit_color byte (mask_at i mask)
unfolding draw_row
draw_row-bits zero x y mask byte t i u on h e = absurd (omega arith)
draw_row-bits (suc columns) x y mask byte t zero u on h e =
    let put = put_pixel x y (bit_color byte mask) t in
    let later = draw_row-Inside columns (x + 1) y (shr mask 1) byte put in
    later.pixels u y (inl (omega arith))
    ∙ ap (λ (w : ℕ). put.pixels w y) (let f : u ≡ x = omega arith in f)
    ∙ pixel_put x y (bit_color byte mask) t on
draw_row-bits (suc columns) x y mask byte t (suc i) u on h e =
    let put = put_pixel x y (bit_color byte mask) t in
    let kept = put_pixel-Inside x y (bit_color byte mask) t in
    draw_row-bits columns (x + 1) y (shr mask 1) byte put i u (kept.initialized ∙ on) (omega arith)
      (omega arith)

-- The bits of a glyph, the highest bit of a byte at the left.
pub draw_rows-bits :
    (rows : ℕ) (font : ℕ → ℕ) (x y glyph : ℕ) (t : Tty) (i j u v : ℕ)
    → t.initialized ≡ true
    → i < 8
    → j < rows
    → u ≡ x + i
    → v ≡ y + j
    → (draw_rows rows font x y glyph t).pixels u v
      ≡ bit_color (font (glyph + j)) (mask_at i 0b10000000)
unfolding draw_rows
draw_rows-bits zero font x y glyph t i j u v on hi hj eu ev = absurd (omega arith)
draw_rows-bits (suc rows) font x y glyph t i zero u v on hi hj eu ev =
    let row = draw_row 8 x y 0b10000000 (font glyph) t in
    let later = draw_rows-Inside rows font x (y + 1) (glyph + 1) row in
    later.pixels u v (inr (inr (inl (omega arith))))
    ∙ ap (λ (w : ℕ). row.pixels u w) (let f : v ≡ y = omega arith in f)
    ∙ draw_row-bits 8 x y 0b10000000 (font glyph) t i u on hi eu
    ∙ ap (λ (g : ℕ). bit_color (font g) (mask_at i 0b10000000)) (omega arith)
draw_rows-bits (suc rows) font x y glyph t i (suc j) u v on hi hj eu ev =
    let row = draw_row 8 x y 0b10000000 (font glyph) t in
    let kept = draw_row-Inside 8 x y 0b10000000 (font glyph) t in
    draw_rows-bits rows font x (y + 1) (glyph + 1) row i j u v (kept.initialized ∙ on) hi
      (omega arith) eu (omega arith)
    ∙ ap (λ (g : ℕ). bit_color (font g) (mask_at i 0b10000000)) (omega arith)
