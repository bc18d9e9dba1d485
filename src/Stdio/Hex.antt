-- ===== src/Stdio/Hex.antt =====
-- What the hexadecimal numbers of kernel/lib/stdio.c put out: digits that read back as the number.
use archa_os.Base.{
  ℕ, zero, suc, ◌+◌, ◌-◌, ◌*◌, ◌/◌, ◌%◌, ◌^◌, ◌<◌, ◌≡◌, refl, ltb, if◌then◌else◌, List, [], ◌∷◌,
  ◌∙◌, ap, sym, length, arith,
}
use native.Mathlib.Nat.{div-div-eq-div-mul}
use archa_os.Stdio.{hex_char, hex_loop, print_hex, print_u64_hex, print_char}
use archa_os.Stdio.Numbers.{print_char-cons}

-- Hexadecimal digits read back, behind digits that said `before`.
unfoldable pub read_hex : List ℕ → ℕ → ℕ
read_hex [] before = before
read_hex (c ∷ text) before =
    read_hex text (before * 16 + (if ltb c b'A' then c - b'0' else 10 + (c - b'A')))

-- The lowest `places` hexadecimal digits of a number.
unfoldable pub hex_text : ℕ → ℕ → List ℕ
hex_text zero value = []
hex_text (suc i) value = hex_char (value / 2 ^ (i * 4) % 16) ∷ hex_text i value

read_hex-hex_char :
    (x : ℕ) (text : List ℕ) → read_hex (hex_char (x % 16) ∷ text) (x / 16) ≡ read_hex text x
unfolding read_hex
read_hex-hex_char x text = ground arith

-- The digits above the lowest `i + 1`, by one more digit.
pub digits_above : (i value : ℕ) → value / 2 ^ (suc i * 4) ≡ value / 2 ^ (i * 4) / 16
digits_above i value =
    let places : suc i * 4 ≡ suc (suc (suc (suc (i * 4)))) = omega arith in
    let wider : 2 ^ (suc i * 4) ≡ 2 ^ (i * 4) * 16 = rw places (omega arith) in
    ap (λ p. value / p) wider ∙ sym (div-div-eq-div-mul value (2 ^ (i * 4)) 16)

read_hex-hex_text :
    (i value before : ℕ) → before ≡ value / 2 ^ (i * 4) → read_hex (hex_text i value) before ≡ value
unfolding hex_text
read_hex-hex_text zero value before h = unfold read_hex in ground (arith, h)
read_hex-hex_text (suc i) value before h =
    let above : before ≡ value / 2 ^ (i * 4) / 16 = h ∙ digits_above i value in
    rw above (
      read_hex-hex_char (value / 2 ^ (i * 4)) (hex_text i value)
      ∙ read_hex-hex_text i value (value / 2 ^ (i * 4)) refl)

module _ {S : Type 0} (put : ℕ → S → S) where
  hex_loop_lem :
      (i value : ℕ) (s : S) → hex_loop put i value s ≡ print_char put (hex_text i value) s
  unfolding hex_loop print_char hex_text
  hex_loop_lem zero value s = refl
  hex_loop_lem (suc i) value s = hex_loop_lem i value (put (hex_char (value / 2 ^ (i * 4) % 16)) s)

  length-hex_text : (i value : ℕ) → length (hex_text i value) ≡ i
  unfolding hex_text
  length-hex_text zero value = refl
  length-hex_text (suc i) value = ap suc (length-hex_text i value)

  abbrev pub PrintsHex : ℕ → ℕ → (S → S) → Type 0
  PrintsHex value places run =
      (text : List ℕ) × ((length text ≡ places)
        × ((read_hex text 0 ≡ value) × ((s : S) → run s ≡ print_char put (b'0' ∷ b'x' ∷ text) s)))

  hex_out :
      (places value : ℕ)
      → 0 ≡ value / 2 ^ (places * 4)
      → PrintsHex value places (λ s. hex_loop put places value (put b'x' (put b'0' s)))
  hex_out places value h = (
    hex_text places value,
    (
      length-hex_text places value,
      (
        read_hex-hex_text places value 0 h,
        λ s.
            hex_loop_lem places value (put b'x' (put b'0' s))
            ∙ (sym (print_char-cons put b'x' (hex_text places value) (put b'0' s))
                ∙ sym (print_char-cons put b'0' (b'x' ∷ hex_text places value) s)),
      ),
    ),
  )

  pub print_hex-PrintsHex : (value : ℕ) → value < 2 ^ 32 → PrintsHex value 8 (print_hex put value)
  unfolding print_hex
  print_hex-PrintsHex value h = hex_out 8 value (omega arith)

  -- A number of 64 bits is put out as `0x` and sixteen hexadecimal digits that read back as it.
  pub print_u64_hex-PrintsHex :
      (value : ℕ) → value < 2 ^ 64 → PrintsHex value 16 (print_u64_hex put value)
  unfolding print_u64_hex
  print_u64_hex-PrintsHex value h = hex_out 16 value (omega arith)
