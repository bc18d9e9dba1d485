-- ===== src/Graphics.antt =====
-- The drawing of pixels and rectangles, kernel/graphics/graphics.c; lines are not modelled. Pixels are
-- the words behind the pointer `address`, by index; `none` is the pointer NULL.
pub mod Rectangle
pub mod Tests
use archa_os.Base.{
  ℕ, zero, suc, ◌+◌, ◌-◌, ◌*◌, ◌%◌, ◌^◌, Bool, true, false, ◌==◌, ltb, leb, if◌then◌else◌, ◌||◌,
  Option, none, some,
}

-- `framebuffer_t`.
pub record Framebuffer : Type 0 where
  pub pixel : ℕ → ℕ
  pub width : ℕ
  pub height : ℕ
  pub pitch : ℕ

-- `framebuffer_pb` and `graphics_init`.
pub record Graphics : Type 0 where
  pub framebuffer_pb : Option Framebuffer
  pub graphics_init : Bool

unfoldable pub init_graphics : Option Framebuffer → Graphics → Graphics
init_graphics framebuffer s = record s { framebuffer_pb = framebuffer; graphics_init = true }

-- The guard and the store, on a framebuffer that there is.
unfoldable pub plot : ℕ → ℕ → ℕ → Framebuffer → Framebuffer
plot x y color b =
    if leb b.width x || leb b.height y
    then b
    else record b { pixel = λ i. if i == y * b.pitch + x then color else b.pixel i }

unfoldable pub put_pixel : ℕ → ℕ → ℕ → Graphics → Graphics
put_pixel x y color s = elim s.framebuffer_pb [
  | none ↦ s
  | some b ↦ record s { framebuffer_pb = some (plot x y color b) }
]

-- The inner loop of `fill_rect`, from row `y` on.
unfoldable pub fill_column : ℕ → ℕ → ℕ → ℕ → Graphics → Graphics
fill_column zero x y color s = s
fill_column (suc left) x y color s = fill_column left x (y + 1) color (put_pixel x y color s)

-- The outer loop, from column `x` on; `sy` and `dy` bound the rows.
unfoldable pub fill_columns : ℕ → ℕ → ℕ → ℕ → ℕ → Graphics → Graphics
fill_columns zero x sy dy color s = s
fill_columns (suc left) x sy dy color s =
    fill_columns left (x + 1) sy dy color (fill_column (dy - sy) x sy color s)

unfoldable pub fill_rect : ℕ → ℕ → ℕ → ℕ → ℕ → Graphics → Graphics
fill_rect sx sy dx dy color s = fill_columns (dx - sx) sx sy dy color s
