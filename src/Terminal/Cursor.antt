-- ===== src/Terminal/Cursor.antt =====
-- Where the cursor stands: on the screen, for text without tabs.
use archa_os.Base.{
  ℕ, zero, suc, ◌+◌, ◌^◌, ◌≤◌, ◌<◌, ◌≡◌, ◌≢◌, ne→==_false, refl, Bool, true, false, ◌==◌, ltb, leb,
  if◌then◌else◌, ◌&&◌, not, some, List, [], ◌∷◌, ◌∙◌, ap, arith, Bool-cases, inl, inr,
}
use archa_os.Graphics.{Framebuffer, Graphics, put_pixel, plot}
use mathlib.Core.Option
use archa_os.Graphics.Rectangle.{put_pixel-plot}
use archa_os.Stdio.{print_char}
use archa_os.Terminal.{
  put_on, scroll_past, Font, Terminal, u64, u32, scroll, term_scroll, ln, draw_row, draw_rows,
  glyph_color, backspace, draw_glyph, putchar,
}

-- There is a framebuffer of this size.
pub record Screen (width height : ℕ) (g : Graphics) : Type 0 where
  pub framebuffer : Framebuffer
  pub is : g.framebuffer_pb ≡ some framebuffer
  pub wide : framebuffer.width ≡ width
  pub high : framebuffer.height ≡ height

module _ (width height : ℕ) where
  put_pixel-Screen :
      (x y color : ℕ) (g : Graphics)
      → Screen width height g
      → Screen width height (put_pixel x y color g)
  unfolding plot
  put_pixel-Screen x y color g s = record {
    framebuffer = plot x y color s.framebuffer;
    is = put_pixel-plot x y color s.framebuffer g s.is;
    wide = let w = s.wide in ground (arith, w);
    high = let h = s.high in ground (arith, h);
  }

  draw_row-Screen :
      (n col x y : ℕ) (color : ℕ → ℕ) (g : Graphics)
      → Screen width height g
      → Screen width height (draw_row n col x y color g)
  unfolding draw_row
  draw_row-Screen zero col x y color g s = s
  draw_row-Screen (suc n) col x y color g s =
      draw_row-Screen n (col + 1) x y color (put_pixel (u32 (x + col)) (u32 y) (color col) g)
        (put_pixel-Screen (u32 (x + col)) (u32 y) (color col) g s)

  draw_rows-Screen :
      (n row w x y : ℕ) (color : ℕ → ℕ → ℕ) (g : Graphics)
      → Screen width height g
      → Screen width height (draw_rows n row w x y color g)
  unfolding draw_rows
  draw_rows-Screen zero row w x y color g s = s
  draw_rows-Screen (suc n) row w x y color g s =
      draw_rows-Screen n (row + 1) w x y color (draw_row w 0 x (y + row) (color row) g)
        (draw_row-Screen w 0 x (y + row) (color row) g s)

  term_scroll-Screen :
      (background : ℕ) (font : Font) (t : Terminal)
      → Screen width height t.graphics
      → Screen width height (term_scroll background font t).graphics
  unfolding term_scroll scroll
  term_scroll-Screen background font t s = record {
    framebuffer = scroll background font s.framebuffer;
    is = ap (Option.map (scroll background font)) s.is;
    wide = let w = s.wide in ground (arith, w);
    high = let h = s.high in ground (arith, h);
  }

  -- The screen, and the row of the cursor on it.
  pub record OnScreen (font : Font) (t : Terminal) : Type 0 where
    pub screen : Screen width height t.graphics
    pub row : t.cursor_y + font.height ≤ height

  ln-OnScreen :
      (background : ℕ) (font : Font) (t : Terminal)
      → height < 2 ^ 63
      → font.height ≤ height
      → OnScreen font t
      → OnScreen font (ln height background font t)
  unfolding ln
  ln-OnScreen background font t small fits o =
      elim (Bool-cases (ltb height (u64 (u64 (t.cursor_y + font.height) + font.height)))) [
        | inl e ↦ rw e (record {
          screen = term_scroll-Screen background font _ (o.screen);
          row = (let r = o.row in ground (arith, r));
        })
        | inr e ↦ rw e (record { screen = o.screen; row = (let r = o.row in ground (arith, r)) })
      ]

  backspace-OnScreen :
      (background : ℕ) (font : Font) (t : Terminal)
      → OnScreen font t
      → OnScreen font (backspace background font t)
  unfolding backspace
  backspace-OnScreen background font t o = record {
    screen =
        draw_rows-Screen font.height 0 font.width _ t.cursor_y (λ row col. background) t.graphics
          o.screen;
    row = o.row;
  }

  scroll_past-OnScreen :
      (bound place background : ℕ) (font : Font) (t : Terminal)
      → OnScreen font t
      → OnScreen font (scroll_past bound place background font t)
  unfolding scroll_past term_scroll
  scroll_past-OnScreen bound place background font t o =
      either (ltb bound place)
        (record { screen = term_scroll-Screen background font t o.screen; row = o.row })
    where
      either :
          (b : Bool)
          → OnScreen font (term_scroll background font t)
          → OnScreen font (if b then term_scroll background font t else t)
      either true scrolled = scrolled
      either false scrolled = o

  draw_glyph-OnScreen :
      (b : Framebuffer) (index foreground background : ℕ) (font : Font) (t : Terminal)
      → OnScreen font t
      → OnScreen font (draw_glyph b index foreground background font t)
  unfolding draw_glyph
  draw_glyph-OnScreen b index foreground background font t o =
      scroll_past-OnScreen _ _ background font _ (
        scroll_past-OnScreen _ _ background font _ (record {
          screen =
              draw_rows-Screen font.height 0 font.width t.cursor_x t.cursor_y
                (glyph_color index foreground background font) t.graphics o.screen;
          row = o.row;
        }))

  choose :
      (font : Font) (b : Bool) (t t' : Terminal)
      → OnScreen font t
      → OnScreen font t'
      → OnScreen font (if b then t else t')
  choose font true t t' o o' = o
  choose font false t t' o o' = o'

  put_on-OnScreen :
      (b : Framebuffer) (c foreground background : ℕ) (font : Font) (t : Terminal)
      → b.height ≡ height
      → height < 2 ^ 63
      → font.height ≤ height
      → (c == 9) ≡ false
      → OnScreen font t
      → OnScreen font (put_on b c foreground background font t)
  unfolding put_on
  put_on-OnScreen b c foreground background font t high small fits no_tab o =
      let line : OnScreen font (ln b.height background font t) =
        rw high (ln-OnScreen background font t small fits o) in
      rw no_tab (
        choose font (c == 13) _ _ (record { screen = o.screen; row = o.row })
          (choose font (c == 10) _ _ line (
            choose font (c == 8) _ _ (backspace-OnScreen background font t o) (
              choose font (leb font.glyph_count c) _ _ o
                (draw_glyph-OnScreen b c foreground background font t o)))))

  putchar-put_on :
      (b : Framebuffer) (c foreground background : ℕ) (font : Font) (t : Terminal)
      → t.graphics.framebuffer_pb ≡ some b
      → putchar c foreground background font t ≡ put_on b c foreground background font t
  unfolding putchar
  putchar-put_on b c foreground background font t e = simp (putchar, e) refl

  -- On a screen of less than 2^63 rows that the font fits, no byte but a tab takes the row of the
  -- cursor off the screen, or changes the size of the screen.
  pub putchar-OnScreen :
      (c foreground background : ℕ) (font : Font) (t : Terminal)
      → height < 2 ^ 63
      → font.height ≤ height
      → c ≢ 9
      → OnScreen font t
      → OnScreen font (putchar c foreground background font t)
  putchar-OnScreen c foreground background font t small fits no_tab o =
      let b = o.screen.framebuffer in
      rw (putchar-put_on b c foreground background font t o.screen.is) (
        put_on-OnScreen b c foreground background font t o.screen.high small fits
          (ne→==_false c 9 no_tab) o)

  -- No byte of a text is a tab.
  unfoldable pub no_tabs : List ℕ → Bool
  no_tabs [] = true
  no_tabs (c ∷ text) = not (c == 9) && no_tabs text

  -- What `print_char` puts out on the terminal keeps the row of the cursor on the screen, if the text
  -- has no tab.
  pub print_char-OnScreen :
      (text : List ℕ) (foreground background : ℕ) (font : Font) (t : Terminal)
      → height < 2 ^ 63
      → font.height ≤ height
      → no_tabs text ≡ true
      → OnScreen font t
      → OnScreen font (print_char (λ c. putchar c foreground background font) text t)
  unfolding print_char no_tabs
  print_char-OnScreen [] foreground background font t small fits tabs o = o
  print_char-OnScreen (c ∷ text) foreground background font t small fits tabs o =
      print_char-OnScreen text foreground background font (putchar c foreground background font t)
        small fits (ground arith)
        (putchar-OnScreen c foreground background font t small fits (ground arith) o)

  scroll_past_cursor :
      (bound place background : ℕ) (font : Font) (t : Terminal)
      → ((scroll_past bound place background font t).cursor_y ≡ t.cursor_y)
        × ((scroll_past bound place background font t).cursor_x ≡ t.cursor_x)
  unfolding scroll_past term_scroll
  scroll_past_cursor bound place background font t = elim (Bool-cases (ltb bound place)) [
    | inl e ↦ simp e (refl, refl)
    | inr e ↦ simp e (refl, refl)
  ]

  draw_glyph_same_row :
      (b : Framebuffer) (c foreground background : ℕ) (font : Font) (t : Terminal)
      → ((draw_glyph b c foreground background font t).cursor_y ≡ t.cursor_y)
        × ((draw_glyph b c foreground background font t).cursor_x ≡ u64 (t.cursor_x + font.width))
  unfolding draw_glyph
  draw_glyph_same_row b c foreground background font t =
      let second = scroll_past_cursor _ _ background font _ in
      let first = scroll_past_cursor _ _ background font _ in
      (second.0 ∙ first.0, second.1 ∙ first.1)

  put_on_same_row :
      (b : Framebuffer) (c foreground background : ℕ) (font : Font) (t : Terminal)
      → 13 < c
      → c < font.glyph_count
      → ((put_on b c foreground background font t).cursor_y ≡ t.cursor_y)
        × ((put_on b c foreground background font t).cursor_x ≡ u64 (t.cursor_x + font.width))
  unfolding put_on
  put_on_same_row b c foreground background font t visible known =
      let no_return : (c == 13) ≡ false = ground arith in
      let no_line : (c == 10) ≡ false = ground arith in
      let no_back : (c == 8) ≡ false = ground arith in
      let no_tab : (c == 9) ≡ false = ground arith in
      let drawn : leb font.glyph_count c ≡ false = ground arith in
      simp (no_return, no_line, no_back, no_tab, drawn)
        (draw_glyph_same_row b c foreground background font t)

  -- The glyph of a byte above 13 leaves the cursor in its row and moves it to the right, also at the
  -- end of the row.
  pub putchar_same_row :
      (c foreground background : ℕ) (font : Font) (t : Terminal)
      → 13 < c
      → c < font.glyph_count
      → Screen width height t.graphics
      → ((putchar c foreground background font t).cursor_y ≡ t.cursor_y)
        × ((putchar c foreground background font t).cursor_x ≡ u64 (t.cursor_x + font.width))
  putchar_same_row c foreground background font t visible known s =
      let b = s.framebuffer in
      rw (putchar-put_on b c foreground background font t s.is)
        (put_on_same_row b c foreground background font t visible known)
