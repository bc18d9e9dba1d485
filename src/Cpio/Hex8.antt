-- ===== src/Cpio/Hex8.antt =====
-- `hex8` reads what the hexadecimal output of the kernel writes.
use archa_os.Base.{
  ℕ, zero, suc, ◌+◌, ◌*◌, ◌/◌, ◌%◌, ◌^◌, ◌<◌, ◌≡◌, refl, List, [], ◌∷◌, some, ◌∙◌, ap, arith,
}
use native.Mathlib.Nat.{div-le_self}
use archa_os.Strings.{Memory}
use archa_os.Stdio.{hex_char}
use archa_os.Stdio.Hex.{hex_text, digits_above}
use archa_os.Cpio.{digit, hex8_loop, hex8, bytes_at}

digit-hex_char : (d : ℕ) → d < 16 → digit (hex_char d) ≡ some d
unfolding digit
digit-hex_char d h = ground arith

abbrev head_of : List ℕ → ℕ
head_of [] = 0
head_of (c ∷ s) = c

abbrev tail_of : List ℕ → List ℕ
tail_of [] = []
tail_of (c ∷ s) = s

-- One digit in front of the others.
hex8_loop-digit :
    (i s value d : ℕ) (m : Memory)
    → m s ≡ hex_char d
    → d < 16
    → hex8_loop (suc i) s value m ≡ hex8_loop i (s + 1) (value * 16 % 2 ^ 32 + d) m
unfolding hex8_loop
hex8_loop-digit i s value d m e h =
    let is_digit : digit (m s) ≡ some d = ap digit e ∙ digit-hex_char d h in
    rw (hex8_loop, is_digit) refl

hex8_loop-hex_text :
    (i value s before : ℕ) (m : Memory)
    → value < 2 ^ 32
    → bytes_at i s m ≡ hex_text i value
    → before ≡ value / 2 ^ (i * 4)
    → hex8_loop i s before m ≡ some value
hex8_loop-hex_text zero value s before m fits e h = unfold hex8_loop in ap some (h ∙ omega arith)
hex8_loop-hex_text (suc i) value s before m fits e h =
    let first : m s ≡ hex_char (value / 2 ^ (i * 4) % 16) =
      unfold bytes_at hex_text in ap head_of e in
    let others : bytes_at i (s + 1) m ≡ hex_text i value =
      unfold bytes_at hex_text in ap tail_of e in
    let above : before ≡ value / 2 ^ (i * 4) / 16 = h ∙ digits_above i value in
    let small : value / 2 ^ (i * 4) < 2 ^ 32 =
      (let le = div-le_self value (2 ^ (i * 4)) in omega (arith, le, fits)) in
    let whole : before * 16 % 2 ^ 32 + value / 2 ^ (i * 4) % 16 ≡ value / 2 ^ (i * 4) =
      rw above (omega (arith, small)) in
    hex8_loop-digit i s before (value / 2 ^ (i * 4) % 16) m first (omega arith)
    ∙ hex8_loop-hex_text i value (s + 1) _ m fits others whole

-- Where the memory holds the eight digits that `print_hex` puts out for a number of 32 bits, `hex8`
-- reads the number.
pub hex8-hex_text :
    (value s : ℕ) (m : Memory)
    → value < 2 ^ 32
    → bytes_at 8 s m ≡ hex_text 8 value
    → hex8 s m ≡ some value
unfolding hex8
hex8-hex_text value s m fits e = hex8_loop-hex_text 8 value s 0 m fits e (omega (arith, fits))
