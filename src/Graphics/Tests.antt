-- ===== src/Graphics/Tests.antt =====
-- A run of the model of graphics.c on a screen of 4 by 3 pixels with rows of 5 words.
use archa_os.Base.{true, ◌&&◌, leb, ltb, refl, arith, some}
use archa_os.Graphics.{Framebuffer, Graphics, fill_rect}
use archa_os.Graphics.Rectangle.{Drawn, fill_rect-Drawn}

abbrev black : Framebuffer
black = record { pixel = λ i. 0; width = 4; height = 3; pitch = 5 }

abbrev small_screen : Graphics
small_screen = record { framebuffer_pb = some black; graphics_init = true }

fill_rect-Drawn_example :
    Drawn
      (λ x y. leb 1 x && (ltb x 9 && (leb 0 y && ltb y 2)))
      0xFFFFFF
      black
      (fill_rect 1 0 9 2 0xFFFFFF small_screen)
fill_rect-Drawn_example = fill_rect-Drawn 1 0 9 2 0xFFFFFF black small_screen refl (omega arith)
