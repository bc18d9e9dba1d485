-- ===== src/Terminal.antt =====
-- The terminal, kernel/graphics/terminal.c: the cursor and the glyphs on the framebuffer. The bytes of
-- the glyphs are those behind the pointer of the font. The serial port and `term_init` are not
-- modelled. Pixels are moved as whole words, and the framebuffer has less than 2^64 bytes.
pub mod Scroll
pub mod Cursor
pub mod Tests
use archa_os.Base.{
  ℕ, zero, suc, ◌+◌, ◌-◌, ◌*◌, ◌/◌, ◌%◌, ◌^◌, Bool, true, false, ◌==◌, ltb, leb, if◌then◌else◌,
  ◌||◌, bit_and, Option, none, some,
}
use mathlib.Core.Option
use archa_os.Graphics.{Framebuffer, Graphics, put_pixel}

-- `font_t`.
pub record Font : Type 0 where
  pub glyphs : ℕ → ℕ
  pub glyphsize : ℕ
  pub glyph_count : ℕ
  pub width : ℕ
  pub height : ℕ

-- The globals of the framebuffer, and `cursor_x` and `cursor_y`.
pub record Terminal : Type 0 where
  pub graphics : Graphics
  pub cursor_x : ℕ
  pub cursor_y : ℕ

abbrev pub u64 : ℕ → ℕ
u64 n = n % 2 ^ 64

abbrev pub u32 : ℕ → ℕ
u32 n = n % 2 ^ 32

-- `for (uint64_t x = 0; x < pitch; x++) row[x] = background`, up to `n` words.
unfoldable pub clear_row : ℕ → ℕ → ℕ → (ℕ → ℕ) → ℕ → ℕ
clear_row zero row background pixel = pixel
clear_row (suc n) row background pixel =
    let before = clear_row n row background pixel in
    λ i. if i == row + n then background else before i

-- The loop over the rows from `y` on.
unfoldable pub clear_rows : ℕ → ℕ → ℕ → ℕ → (ℕ → ℕ) → ℕ → ℕ
clear_rows zero y pitch background pixel = pixel
clear_rows (suc left) y pitch background pixel =
    clear_rows left (y + 1) pitch background (clear_row pitch (y * pitch) background pixel)

-- `memmove(buffer, buffer + from, n * sizeof(uint32_t))`.
abbrev pub move_down : ℕ → ℕ → (ℕ → ℕ) → ℕ → ℕ
move_down from n pixel i = if ltb i n then pixel (from + i) else pixel i

-- The rows of a framebuffer one line up.
unfoldable pub scroll : ℕ → Font → Framebuffer → Framebuffer
scroll background font b =
    let moved = move_down (font.height * b.pitch) ((b.height - font.height) * b.pitch) b.pixel in
    if (font.height == 0) || leb b.height font.height then b else record b {
      pixel = clear_rows font.height (b.height - font.height) b.pitch background moved;
    }

unfoldable pub term_scroll : ℕ → Font → Terminal → Terminal
term_scroll background font t = record t {
  graphics = record (t.graphics) {
    framebuffer_pb = Option.map (scroll background font) t.graphics.framebuffer_pb;
  };
}

-- The line feed; `screen` is the height of the framebuffer that there is.
unfoldable pub ln : ℕ → ℕ → Font → Terminal → Terminal
ln screen background font t =
    let t₁ = record t { cursor_x = 0; cursor_y = u64 (t.cursor_y + font.height) } in
    if ltb screen (u64 (t₁.cursor_y + font.height))
    then record (term_scroll background font t₁) { cursor_y = u64 (2 ^ 64 + screen - font.height) }
    else t₁

-- A row of `n` columns of a glyph from `col` on; `color` is that of a column.
unfoldable pub draw_row : ℕ → ℕ → ℕ → ℕ → (ℕ → ℕ) → Graphics → Graphics
draw_row zero col x y color g = g
draw_row (suc n) col x y color g =
    draw_row n (col + 1) x y color (put_pixel (u32 (x + col)) (u32 y) (color col) g)

-- The rows from `row` on; `color` is that of a row and a column.
unfoldable pub draw_rows : ℕ → ℕ → ℕ → ℕ → ℕ → (ℕ → ℕ → ℕ) → Graphics → Graphics
draw_rows zero row width x y color g = g
draw_rows (suc n) row width x y color g =
    draw_rows n (row + 1) width x y color (draw_row width 0 x (y + row) (color row) g)

-- The colour of a place of the glyph of a byte.
unfoldable pub glyph_color : ℕ → ℕ → ℕ → Font → ℕ → ℕ → ℕ
glyph_color index foreground background font row col =
    let byte =
      font.glyphs
        (u32 (index * font.glyphsize) + u32 (row * (u32 (font.width + 7) / 8) + col / 8)) in
    if bit_and byte (0x80 / 2 ^ (col % 8)) == 0 then background else foreground

unfoldable pub backspace : ℕ → Font → Terminal → Terminal
backspace background font t =
    let x = if leb font.width t.cursor_x then t.cursor_x - font.width else 0 in
    record t {
      cursor_x = x;
      graphics = draw_rows font.height 0 font.width x t.cursor_y (λ row col. background) t.graphics;
    }

unfoldable pub tab : ℕ → Font → Terminal → Terminal
tab screen font t =
    let x = u64 (t.cursor_x + u32 (font.width * 4)) in
    if ltb screen (u64 (x + font.width))
    then record t { cursor_x = 0; cursor_y = u64 (t.cursor_y + font.height) }
    else record t { cursor_x = x }

-- The screen is scrolled if a place is past its bound.
unfoldable pub scroll_past : ℕ → ℕ → ℕ → Font → Terminal → Terminal
scroll_past bound place background font t =
    if ltb bound place then term_scroll background font t else t

-- The glyph, and the step behind it.
unfoldable pub draw_glyph : Framebuffer → ℕ → ℕ → ℕ → Font → Terminal → Terminal
draw_glyph b index foreground background font t =
    let t₁ = record t {
      cursor_x = u64 (t.cursor_x + font.width);
      graphics =
          draw_rows font.height 0 font.width t.cursor_x t.cursor_y
            (glyph_color index foreground background font) t.graphics;
    } in
    let t₂ = scroll_past b.width (u64 (t₁.cursor_x + font.width)) background font t₁ in
    scroll_past b.height (u64 (t₂.cursor_y + font.height)) background font t₂

-- `Putchar` behind its test for a framebuffer; `c` is the byte of the `char`.
unfoldable pub put_on : Framebuffer → ℕ → ℕ → ℕ → Font → Terminal → Terminal
put_on b c foreground background font t =
    if c == 13
    then record t { cursor_x = 0 }
    else if c == 10
    then ln b.height background font t
    else if c == 8
    then backspace background font t
    else if c == 9
    then tab b.width font t
    else if leb font.glyph_count c
    then t
    else draw_glyph b c foreground background font t

unfoldable pub putchar : ℕ → ℕ → ℕ → Font → Terminal → Terminal
putchar c foreground background font t = elim t.graphics.framebuffer_pb [
  | none ↦ t
  | some b ↦ put_on b c foreground background font t
]
