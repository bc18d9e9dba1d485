-- ===== src/Stdio/Decimal.antt =====
-- Decimal and hexadecimal text, independent of the loops of kernel/lib/stdio.c that write it.
use archa_os.Base.{
  ℕ, zero, suc, ◌+◌, ◌-◌, ◌*◌, ◌/◌, ◌%◌, ◌^◌, ◌≤◌, ◌<◌, ◌≡◌, refl, Bool, true, false, ◌==◌, leb,
  if◌then◌else◌, ◌&&◌, ◌⊎◌, inl, inr, not, List, [], ◌∷◌, ◌∙◌, length, arith, Bool-cases,
}

-- The number that decimal digits say, behind digits that said `before`.
unfoldable pub read_decimal : List ℕ → ℕ → ℕ
read_decimal [] before = before
read_decimal (c ∷ text) before = read_decimal text (before * 10 + (c - b'0'))

unfoldable pub all_digits : List ℕ → Bool
all_digits [] = true
all_digits (c ∷ text) = (leb b'0' c && leb c b'9') && all_digits text

-- The first byte is there and no zero.
unfoldable pub leads : List ℕ → Bool
leads [] = false
leads (c ∷ text) = not (c == b'0')

-- The usual way to write a number: digits, no more than needed, at most `bound`.
pub record IsDecimal (value bound : ℕ) (text : List ℕ) : Type 0 where
  pub digits : all_digits text ≡ true
  pub reads : read_decimal text 0 ≡ value
  pub shortest : (length text ≡ 1) ⊎ (leads text ≡ true)
  pub fits : length text ≤ bound

-- The digits of a number, least digit last, in front of `text`.
unfoldable pub digits_of : ℕ → ℕ → List ℕ → List ℕ
digits_of zero n text = text
digits_of (suc places) n text =
    let rest = digits_of places (n / 10) ((b'0' + n % 10) ∷ text) in if n == 0 then text else rest

tenth : (places n : ℕ) → n < 10 ^ suc places → n / 10 < 10 ^ places
tenth places n h = omega arith

pub digits_of-zero : (places : ℕ) (text : List ℕ) → digits_of places 0 text ≡ text
unfolding digits_of
digits_of-zero zero text = refl
digits_of-zero (suc places) text = refl

read_last :
    (n : ℕ) (text : List ℕ) → read_decimal ((b'0' + n % 10) ∷ text) (n / 10) ≡ read_decimal text n
unfolding read_decimal
read_last n text = ground arith

pub read_decimal-digits_of :
    (places n : ℕ) (text : List ℕ)
    → n < 10 ^ places
    → read_decimal (digits_of places n text) 0 ≡ read_decimal text n
unfolding digits_of
read_decimal-digits_of zero n text h = let none_left : n ≡ 0 = omega arith in rw none_left refl
read_decimal-digits_of (suc places) n text h =
    let rest = read_decimal-digits_of places (n / 10) ((b'0' + n % 10) ∷ text) (tenth places n h) in
    ground (arith, rest, read_last n text)

all_digits-digits_of :
    (places n : ℕ) (text : List ℕ)
    → all_digits text ≡ true
    → all_digits (digits_of places n text) ≡ true
unfolding digits_of
all_digits-digits_of zero n text h = h
all_digits-digits_of (suc places) n text h =
    let here : all_digits ((b'0' + n % 10) ∷ text) ≡ true = unfold all_digits in ground arith in
    let rest = all_digits-digits_of places (n / 10) ((b'0' + n % 10) ∷ text) here in
    ground (arith, rest)

leads-digits_of :
    (places n : ℕ) (text : List ℕ)
    → 0 < n
    → n < 10 ^ places
    → leads (digits_of places n text) ≡ true
unfolding digits_of
leads-digits_of zero n text pos h = absurd (omega arith)
leads-digits_of (suc places) n text pos h = elim (Bool-cases (n / 10 == 0)) [
  | inl last ↦
      let here : leads ((b'0' + n % 10) ∷ text) ≡ true = unfold leads in ground arith in
      let no_more : n / 10 ≡ 0 = ground arith in
      let end = digits_of-zero places ((b'0' + n % 10) ∷ text) in ground (arith, here, no_more, end)
  | inr more ↦
      let rest =
        leads-digits_of places (n / 10) ((b'0' + n % 10) ∷ text) (ground arith)
          (tenth places n h) in
      ground (arith, rest)
]

length-digits_of :
    (places n : ℕ) (text : List ℕ) → length (digits_of places n text) ≤ places + length text
unfolding digits_of
length-digits_of zero n text = omega arith
length-digits_of (suc places) n text =
    ground (arith, length-digits_of places (n / 10) ((b'0' + n % 10) ∷ text))

pub digits_of-IsDecimal :
    (places n : ℕ) → 0 < n → n < 10 ^ places → IsDecimal n places (digits_of places n [])
digits_of-IsDecimal places n pos h = record {
  digits = all_digits-digits_of places n [] (unfold all_digits in refl);
  reads = read_decimal-digits_of places n [] h ∙ (unfold read_decimal in refl);
  shortest = inr (leads-digits_of places n [] pos h);
  fits = let bound = length-digits_of places n [] in omega (arith, bound);
}

pub zero-IsDecimal : (bound : ℕ) → 0 < bound → IsDecimal 0 bound (b'0' ∷ [])
unfolding all_digits read_decimal
zero-IsDecimal bound h = record {
  digits = refl;
  reads = refl;
  shortest = inl refl;
  fits = omega arith;
}
