-- ===== src/Terminal/Tests.antt =====
-- A terminal of 16 by 10 pixels with a font of 3 by 4.
use archa_os.Base.{ℕ, ◌+◌, ◌≡◌, refl, true, if◌then◌else◌, ltb, List, [], ◌∷◌, some, arith}
use archa_os.Graphics.{Framebuffer}
use archa_os.Graphics.Rectangle.{color_at}
use archa_os.Stdio.{print_char}
use archa_os.Terminal.{Font, Terminal, scroll, putchar}
use archa_os.Terminal.Scroll.{scroll_lem}
use archa_os.Terminal.Cursor.{OnScreen, no_tabs, print_char-OnScreen}

abbrev screen : Framebuffer
screen = record { pixel = λ i. i; width = 16; height = 10; pitch = 20 }

abbrev font : Font
font = record { glyphs = λ i. 0xA0; glyphsize = 4; glyph_count = 128; width = 3; height = 4 }

abbrev terminal : Terminal
terminal = record {
  graphics = record { framebuffer_pb = some screen; graphics_init = true };
  cursor_x = 14;
  cursor_y = 6;
}

abbrev line : List ℕ
line = b'h' ∷ b'i' ∷ 10 ∷ b'!' ∷ []

no_tabs-line : no_tabs 16 10 line ≡ true
unfolding no_tabs
no_tabs-line = refl

terminal-OnScreen : OnScreen 16 10 font terminal
terminal-OnScreen = record {
  screen = record { framebuffer = screen; is = refl; wide = refl; high = refl };
  row = omega arith;
}

scroll_lem_example :
    color_at (scroll 7 font screen) 3 2 ≡ (if ltb (2 + 4) 10 then color_at screen 3 (2 + 4) else 7)
scroll_lem_example =
    scroll_lem 7 font screen 3 2 (omega arith) (omega arith) (omega arith) (omega arith)

print_char-OnScreen_example :
    OnScreen 16 10 font (print_char (λ c. putchar c 5 7 font) line terminal)
print_char-OnScreen_example =
    print_char-OnScreen 16 10 line 5 7 font terminal (omega arith) (omega arith) no_tabs-line
      terminal-OnScreen
