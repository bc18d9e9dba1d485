-- ===== src/Graphics/Rectangle.antt =====
-- Which pixels `fill_rect` changes.
use archa_os.Base.{
  ℕ, zero, suc, ◌+◌, ◌-◌, ◌*◌, ◌/◌, ◌%◌, ◌<◌, ◌≤◌, ◌≡◌, ◌≢◌, refl, Bool, true, false, arith, ◌==◌,
  ==_iff, ltb, leb, if◌then◌else◌, ◌&&◌, ◌||◌, ◌⊎◌, Option, none, some, Bool-cases, inl, inr, sym,
  ◌∙◌, ap, ne→==_false,
}
use mathlib.Core.Path.{subst}
use native.Mathlib.Nat.{mul-add-mod_self_right, mod-eq_of_lt, mul-div_cancel}
use archa_os.Graphics.{Framebuffer, Graphics, plot, put_pixel, fill_column, fill_columns, fill_rect}

-- The colour at a place of the screen.
abbrev pub color_at : Framebuffer → ℕ → ℕ → ℕ
color_at b x y = b.pixel (y * b.pitch + x)

-- Rows do not overlap, so two places that differ are two pixels.
place :
    (x y x' y' pitch : ℕ)
    → x < pitch
    → x' < pitch
    → (y * pitch + x ≡ y' * pitch + x')
    → (x ≡ x') × (y ≡ y')
place x y x' y' pitch lt lt' e =
    let column : x ≡ x' =
      sym (mul-add-mod_self_right y pitch x ∙ mod-eq_of_lt lt)
      ∙ (ap (λ i. i % pitch) e ∙ (mul-add-mod_self_right y' pitch x' ∙ mod-eq_of_lt lt')) in
    let rows : y * pitch ≡ y' * pitch = omega (arith, e, column) in
    (
      column,
      sym (mul-div_cancel y (omega (arith, lt)))
          ∙ (ap (λ i. i / pitch) rows ∙ mul-div_cancel y' (omega (arith, lt))),
    )

plot_lem :
    (x y color : ℕ) (b : Framebuffer)
    → b.width ≤ b.pitch
    → (x' y' : ℕ) → x' < b.width
    → y' < b.height
    → color_at (plot x y color b) x' y'
      ≡ (if (x' == x) && (y' == y) then color else color_at b x' y')
unfolding plot
plot_lem x y color b fits x' y' lt lt' = elim (Bool-cases (leb b.width x || leb b.height y)) [
  | inl out ↦ let here : ((x' == x) && (y' == y)) ≡ false = ground arith in simp (out, here) refl
  | inr inside ↦ elim (Bool-cases (y' * b.pitch + x' == y * b.pitch + x)) [
    | inl same ↦
        let (column, row) =
          place x' y' x y b.pitch (omega arith) (ground arith) ((==_iff _ _).0 same) in
        let here : ((x' == x) && (y' == y)) ≡ true = ground (arith, column, row) in
        simp (inside, here, same) refl
    | inr other ↦ simp (inside, other) (apart (Bool-cases ((x' == x) && (y' == y))) other)
  ]
]
  where
    apart :
        (((x' == x) && (y' == y)) ≡ true) ⊎ (((x' == x) && (y' == y)) ≡ false)
        → (y' * b.pitch + x' == y * b.pitch + x) ≡ false
        → color_at b x' y' ≡ (if (x' == x) && (y' == y) then color else color_at b x' y')
    apart (inl here) other =
        let column : x' ≡ x = ground arith in
        let row : y' ≡ y = ground arith in absurd (ground (arith, ap (λ k. k * b.pitch) row))
    apart (inr not_here) other = rw not_here refl

-- The word is none of the places of the screen in `inside`.
abbrev pub Apart : (ℕ → ℕ → Bool) → Framebuffer → ℕ → Type 0
Apart inside b i = (x y : ℕ) → x < b.width → y < b.height → inside x y ≡ true → y * b.pitch + x ≢ i

plot-Apart :
    (x y color i : ℕ) (b : Framebuffer)
    → Apart (λ x' y'. (x' == x) && (y' == y)) b i
    → (plot x y color b).pixel i ≡ b.pixel i
unfolding plot
plot-Apart x y color i b away = elim (Bool-cases (leb b.width x || leb b.height y)) [
  | inl out ↦ simp out refl
  | inr inside ↦
      let here : ((x == x) && (y == y)) ≡ true = ground arith in
      let other = away x y (ground (arith, inside)) (ground (arith, inside)) here in
      let no : (i == y * b.pitch + x) ≡ false = ne→==_false _ _ (λ e. other (sym e)) in
      simp (inside, no) refl
]

-- What a drawing leaves: the same screen, with the places in `inside` in the colour; every other
-- word behind the framebuffer's pointer, on the screen or not, stays.
pub record Drawn (inside : ℕ → ℕ → Bool) (color : ℕ) (b : Framebuffer) (s : Graphics) : Type 0 where
  pub screen : Framebuffer
  pub is : s.framebuffer_pb ≡ some screen
  pub width : screen.width ≡ b.width
  pub height : screen.height ≡ b.height
  pub pitch : screen.pitch ≡ b.pitch
  pub colors :
      (x y : ℕ)
      → x < b.width
      → y < b.height
      → color_at screen x y ≡ (if inside x y then color else color_at b x y)
  pub others : (i : ℕ) → Apart inside b i → screen.pixel i ≡ b.pixel i

-- One drawing after another.
Drawn-next :
    {p q r : ℕ → ℕ → Bool} {color : ℕ} {b : Framebuffer} {s s' : Graphics}
    → ((x y : ℕ) → (q x y || p x y) ≡ r x y)
    → (d : Drawn p color b s) → Drawn q color d.screen s'
    → Drawn r color b s'
Drawn-next {p} {q} {r} {color} {b} both d e = record {
  screen = e.screen;
  is = e.is;
  width = e.width ∙ d.width;
  height = e.height ∙ d.height;
  pitch = e.pitch ∙ d.pitch;
  colors = λ x y lt lt'.
      e.colors x y (subst (λ w. x < w) (sym d.width) lt) (subst (λ w. y < w) (sym d.height) lt')
      ∙ (ap (λ c. if q x y then color else c) (d.colors x y lt lt')
          ∙ (merged (q x y) (p x y) color (color_at b x y)
              ∙ ap (λ t. if t then color else color_at b x y) (both x y)));
  others = λ i away.
      e.others i (λ x y lt lt' in_q same.
        away x y (subst (λ w. x < w) d.width lt) (subst (λ w. y < w) d.height lt')
          (sym (both x y) ∙ or_left (p x y) in_q) (subst (λ n. y * n + x ≡ i) d.pitch same))
      ∙ d.others i (λ x y lt lt' in_p. away x y lt lt' (sym (both x y) ∙ or_right (q x y) in_p));
}
  where
    or_left : {a : Bool} (b : Bool) → a ≡ true → (a || b) ≡ true
    or_left b e = ground (arith, e)

    or_right : (a : Bool) {b : Bool} → b ≡ true → (a || b) ≡ true
    or_right a e = ground (arith, e)

    merged :
        (q p : Bool) (color old : ℕ)
        → (if q then color else (if p then color else old)) ≡ (if q || p then color else old)
    merged true p color old = refl
    merged false p color old = refl

-- With a framebuffer, `put_pixel` is the store behind its test for NULL.
pub put_pixel-plot :
    (x y color : ℕ) (b : Framebuffer) (s : Graphics)
    → s.framebuffer_pb ≡ some b
    → (put_pixel x y color s).framebuffer_pb ≡ some (plot x y color b)
unfolding put_pixel
put_pixel-plot x y color b s at = ap after at
  where
    after : Option Framebuffer → Option Framebuffer
    after o =
        (elim o as (λ _. Graphics) [
          | none ↦ s
          | some b ↦ record s { framebuffer_pb = some (plot x y color b) }
        ]).framebuffer_pb

put_pixel-Drawn :
    (x y color : ℕ) (b : Framebuffer) (s : Graphics)
    → s.framebuffer_pb ≡ some b
    → b.width ≤ b.pitch
    → Drawn (λ x' y'. (x' == x) && (y' == y)) color b (put_pixel x y color s)
put_pixel-Drawn x y color b s at fits = record {
  screen = plot x y color b;
  is = put_pixel-plot x y color b s at;
  width = plot_width;
  height = plot_height;
  pitch = plot_pitch;
  colors = plot_lem x y color b fits;
  others = λ i away. plot-Apart x y color i b away;
}
  where
    plot_width : (plot x y color b).width ≡ b.width
    plot_width = unfold plot in ground arith

    plot_height : (plot x y color b).height ≡ b.height
    plot_height = unfold plot in ground arith

    plot_pitch : (plot x y color b).pitch ≡ b.pitch
    plot_pitch = unfold plot in ground arith

same_fit :
    {p : ℕ → ℕ → Bool} {color : ℕ} {b : Framebuffer} {s : Graphics}
    → b.width ≤ b.pitch
    → (d : Drawn p color b s) → d.screen.width ≤ d.screen.pitch
same_fit fits d = omega (arith, d.width, d.pitch)

nothing :
    {color : ℕ} {b : Framebuffer} {s : Graphics}
    → s.framebuffer_pb ≡ some b
    → Drawn (λ x y. false) color b s
nothing {color} {b} at = record {
  screen = b;
  is = at;
  width = refl;
  height = refl;
  pitch = refl;
  colors = λ x y lt lt'. refl;
  others = λ i away. refl;
}

same_places :
    {p q : ℕ → ℕ → Bool} {color : ℕ} {b : Framebuffer} {s : Graphics}
    → ((x y : ℕ) → p x y ≡ q x y)
    → Drawn p color b s
    → Drawn q color b s
same_places {p} {q} {color} {b} same d = record {
  screen = d.screen;
  is = d.is;
  width = d.width;
  height = d.height;
  pitch = d.pitch;
  colors =
      λ x y lt lt'. d.colors x y lt lt' ∙ ap (λ t. if t then color else color_at b x y) (same x y);
  others = λ i away. d.others i (λ x y lt lt' in_p. away x y lt lt' (sym (same x y) ∙ in_p));
}

fill_column-Drawn :
    (left x y color : ℕ) (b : Framebuffer) (s : Graphics)
    → s.framebuffer_pb ≡ some b
    → b.width ≤ b.pitch
    → Drawn
        (λ x' y'. (x' == x) && (leb y y' && ltb y' (y + left)))
        color
        b
        (fill_column left x y color s)
unfolding fill_column
fill_column-Drawn zero x y color b s at fits = same_places (λ x' y'. ground arith) (nothing at)
fill_column-Drawn (suc left) x y color b s at fits =
    let d = put_pixel-Drawn x y color b s at fits in
    Drawn-next (λ x' y'. ground arith) d
      (fill_column-Drawn left x (y + 1) color d.screen (put_pixel x y color s) d.is
        (same_fit fits d))

fill_columns-Drawn :
    (left x sy dy color : ℕ) (b : Framebuffer) (s : Graphics)
    → s.framebuffer_pb ≡ some b
    → b.width ≤ b.pitch
    → Drawn
        (λ x' y'. leb x x' && (ltb x' (x + left) && (leb sy y' && ltb y' dy)))
        color
        b
        (fill_columns left x sy dy color s)
unfolding fill_columns
fill_columns-Drawn zero x sy dy color b s at fits = same_places (λ x' y'. ground arith) (nothing at)
fill_columns-Drawn (suc left) x sy dy color b s at fits =
    let d = fill_column-Drawn (dy - sy) x sy color b s at fits in
    Drawn-next (λ x' y'. ground arith) d
      (fill_columns-Drawn left (x + 1) sy dy color d.screen (fill_column (dy - sy) x sy color s)
        d.is (same_fit fits d))

-- On a framebuffer whose rows are at least as long as it is wide, `fill_rect` colours exactly the
-- places of the screen in the rectangle, its right and lower edge not included, and changes no other
-- word, on the screen or behind the end of it.
pub fill_rect-Drawn :
    (sx sy dx dy color : ℕ) (b : Framebuffer) (s : Graphics)
    → s.framebuffer_pb ≡ some b
    → b.width ≤ b.pitch
    → Drawn
        (λ x y. leb sx x && (ltb x dx && (leb sy y && ltb y dy)))
        color
        b
        (fill_rect sx sy dx dy color s)
unfolding fill_rect
fill_rect-Drawn sx sy dx dy color b s at fits =
    same_places (λ x y. ground arith) (fill_columns-Drawn (dx - sx) sx sy dy color b s at fits)
