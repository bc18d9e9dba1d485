-- ===== src/Terminal/Scroll.antt =====
-- What scrolling leaves on the screen.
use archa_os.Base.{
  ℕ, zero, suc, ◌+◌, ◌-◌, ◌*◌, ◌⊎◌, ◌<◌, ◌≡◌, true, false, ◌==◌, ltb, leb, if◌then◌else◌, ◌||◌,
  ◌&&◌, ◌∙◌, ap, sym, arith, Bool-cases, inl, inr,
}
use archa_os.Graphics.{Framebuffer}
use archa_os.Graphics.Rectangle.{color_at}
use archa_os.Terminal.{Font, clear_row, clear_rows, move_down, scroll}

clear_row_lem :
    (n row background : ℕ) (pixel : ℕ → ℕ) (i : ℕ)
    → clear_row n row background pixel i
      ≡ (if leb row i && ltb i (row + n) then background else pixel i)
unfolding clear_row
clear_row_lem zero row background pixel i = ground arith
clear_row_lem (suc n) row background pixel i =
    ground (arith, clear_row_lem n row background pixel i)

clear_rows_lem :
    (left y pitch background : ℕ) (pixel : ℕ → ℕ) (i : ℕ)
    → clear_rows left y pitch background pixel i
      ≡ (if leb (y * pitch) i && ltb i (y * pitch + left * pitch) then background else pixel i)
unfolding clear_rows
clear_rows_lem zero y pitch background pixel i = ground arith
clear_rows_lem (suc left) y pitch background pixel i =
    let next : (y + 1) * pitch ≡ y * pitch + pitch = omega arith in
    let all : suc left * pitch ≡ left * pitch + pitch = omega arith in
    let rest =
      clear_rows_lem left (y + 1) pitch background (clear_row pitch (y * pitch) background pixel)
        i in
    let first = clear_row_lem pitch (y * pitch) background pixel i in
    ground (arith, next, all, rest, first)

-- The words of a row and of the rows behind it.
rows_below : (y k pitch : ℕ) → (y + 1 + k) * pitch ≡ y * pitch + pitch + k * pitch
rows_below y k pitch = omega arith

sum_rows : (p q pitch : ℕ) → (p + q) * pitch ≡ p * pitch + q * pitch
sum_rows p q pitch = omega arith

-- Scrolling by a line that is lower than the screen moves every row up by the line and fills the
-- rows at the bottom with the background, words behind the right edge included.
pub scroll_lem :
    (background : ℕ) (font : Font) (b : Framebuffer) (x y : ℕ)
    → 0 < font.height
    → font.height < b.height
    → x < b.pitch
    → y < b.height
    → color_at (scroll background font b) x y
      ≡ (if ltb (y + font.height) b.height then color_at b x (y + font.height) else background)
unfolding scroll
scroll_lem background font b x y some_line low in_row on_screen =
    let in_first : (font.height == 0 || leb b.height font.height) ≡ false = ground arith in
    let rows =
      clear_rows_lem font.height (b.height - font.height) b.pitch background
        (move_down (font.height * b.pitch) ((b.height - font.height) * b.pitch) b.pixel)
        (y * b.pitch + x) in
    rw in_first (rows ∙ place (Bool-cases (ltb (y + font.height) b.height)))
  where
    left : ℕ
    left = b.height - font.height

    place :
        (ltb (y + font.height) b.height ≡ true) ⊎ (ltb (y + font.height) b.height ≡ false)
        → (if leb (left * b.pitch) (y * b.pitch + x)
              && ltb (y * b.pitch + x) (left * b.pitch + font.height * b.pitch)
            then background
            else move_down (font.height * b.pitch) (left * b.pitch) b.pixel (y * b.pitch + x))
          ≡ (if ltb (y + font.height) b.height then color_at b x (y + font.height) else background)
    place (inl above) =
        let k = left - (y + 1) in
        let split : left ≡ y + 1 + k = ground arith in
        let size : left * b.pitch ≡ y * b.pitch + b.pitch + k * b.pitch =
          ap (λ z. z * b.pitch) split ∙ rows_below y k b.pitch in
        let source : (y + font.height) * b.pitch + x ≡ font.height * b.pitch + (y * b.pitch + x) =
          omega arith in
        let moved = ap b.pixel source in ground (arith, size, moved, above)
    place (inr bottom) =
        let k = y - left in
        let j = b.height - (y + 1) in
        let split : y ≡ left + k = ground arith in
        let lower : y * b.pitch ≡ left * b.pitch + k * b.pitch =
          ap (λ z. z * b.pitch) split ∙ sum_rows left k b.pitch in
        let rest : left + font.height ≡ y + 1 + j = ground arith in
        let all : left * b.pitch + font.height * b.pitch ≡ y * b.pitch + b.pitch + j * b.pitch =
          sym (sum_rows left font.height b.pitch)
          ∙ (ap (λ z. z * b.pitch) rest ∙ rows_below y j b.pitch) in
        ground (arith, lower, all, bottom)
