-- ===== src/Base/Bits.antt =====
-- `&` and `|` at variables: masks of low bits, masks that round down to a power of two, and the
-- union of two fields that share no bit. The native operations stand for a recursion on binary
-- digits with fuel; the fuel is dropped first.
use Prim.Native.Nat.{
  ℕ, zero, suc, ◌+◌, ◌-◌, ◌*◌, ◌/◌, ◌%◌, ◌^◌, ◌≤◌, ◌<◌, min, max, digits, bitwise, bit_and, bit_or,
  bit_and-bitwise, bit_or-bitwise,
}
use mathlib.Core.Path.{◌≡◌, refl, sym, ap, ◌∙◌}
use native.Mathlib.Nat.{
  pow-suc, one-le-pow, div-div-eq-div-mul, mul-add-mod_self_right, mod-eq_of_lt, mod-lt,
  div-add-mod', div-lt_iff_lt-mul,
}
use native.Mathlib.Omega.{arith}

module _ (stop : ℕ → ℕ) (digit : ℕ → ℕ → ℕ) where
  -- A round more than the number needs, and any number of such rounds.
  spare_round : (k x y : ℕ) → x ≤ k → digits stop digit (suc k) x y ≡ digits stop digit k x y
  spare_round zero zero y le = refl
  spare_round zero (suc x) y le = absurd (omega arith)
  spare_round (suc k) zero y le = refl
  spare_round (suc k) (suc x) y le =
      let halved = spare_round k (suc x / 2) (y / 2) (omega arith) in
      ap (λ d. d * 2 + digit (suc x % 2) (y % 2)) halved

  spare_rounds : (d k x y : ℕ) → x ≤ k → digits stop digit (d + k) x y ≡ digits stop digit k x y
  spare_rounds zero k x y le =
      let none_left : 0 + k ≡ k = omega arith in ap (λ r. digits stop digit r x y) none_left
  spare_rounds (suc d) k x y le =
      let one_more : suc d + k ≡ suc (d + k) = omega arith in
      ap (λ r. digits stop digit r x y) one_more
      ∙ spare_round (d + k) x y (omega arith)
      ∙ spare_rounds d k x y le

  lowest_digit :
      (x y : ℕ)
      → bitwise stop digit (suc x) y
        ≡ bitwise stop digit (suc x / 2) (y / 2) * 2 + digit (suc x % 2) (y % 2)
  lowest_digit x y =
      let half = suc x / 2 in
      let all : x - half + half ≡ x = omega arith in
      let same = spare_rounds (x - half) half half (y / 2) (omega arith) in
      ap (λ k. digits stop digit k half (y / 2) * 2 + digit (suc x % 2) (y % 2)) (sym all)
      ∙ ap (λ d. d * 2 + digit (suc x % 2) (y % 2)) same

pub bit_and-div-mod : (x y : ℕ) → bit_and x y ≡ bit_and (x / 2) (y / 2) * 2 + min (x % 2) (y % 2)
bit_and-div-mod zero y = simp bit_and-bitwise (omega arith)
bit_and-div-mod (suc x) y = simp bit_and-bitwise (lowest_digit (λ _. 0) min x y)

pub bit_or-div-mod : (x y : ℕ) → bit_or x y ≡ bit_or (x / 2) (y / 2) * 2 + max (x % 2) (y % 2)
bit_or-div-mod zero y = simp bit_or-bitwise (omega arith)
bit_or-div-mod (suc x) y = simp bit_or-bitwise (lowest_digit (λ b. b) max x y)

zero-bit_and : (y : ℕ) → bit_and 0 y ≡ 0
zero-bit_and y = simp bit_and-bitwise refl

-- Both operations with 0, for numbers up to `n`.
with_zero : (n x : ℕ) → x ≤ n → (bit_and x 0 ≡ 0) × (bit_or x 0 ≡ x)
with_zero n zero le = (refl, refl)
with_zero zero (suc x) le = absurd (omega arith)
with_zero (suc n) (suc x) le =
    let (meet, join) = with_zero n (suc x / 2) (omega arith) in
    (omega (arith, bit_and-div-mod (suc x) 0, meet), omega (arith, bit_or-div-mod (suc x) 0, join))

pub bit_and-zero : (x : ℕ) → bit_and x 0 ≡ 0
bit_and-zero x = (with_zero x x (omega arith)).0

pub bit_or-zero : (x : ℕ) → bit_or x 0 ≡ x
bit_or-zero x = (with_zero x x (omega arith)).1

times_two : (q k : ℕ) → q * 2 ^ suc k ≡ q * 2 ^ k * 2
times_two q k = omega (arith, ap (λ (t : ℕ). q * t) (pow-suc 2 k))

-- A mask with `k` clear low bits acts on the bits above them.
pub bit_and-mul_pow : (k x b : ℕ) → bit_and x (b * 2 ^ k) ≡ bit_and (x / 2 ^ k) b * 2 ^ k
bit_and-mul_pow zero x b = ground arith
bit_and-mul_pow (suc k) x b =
    let low : b * 2 ^ suc k % 2 ≡ 0 = omega (arith, times_two b k) in
    let high : b * 2 ^ suc k / 2 ≡ b * 2 ^ k = omega (arith, times_two b k) in
    let deep : x / 2 / 2 ^ k ≡ x / 2 ^ suc k =
      div-div-eq-div-mul x 2 (2 ^ k) ∙ ap (λ d. x / d) (omega (arith, pow-suc 2 k)) in
    omega (
      arith,
      bit_and-div-mod x (b * 2 ^ suc k),
      ap (bit_and (x / 2)) high,
      low,
      bit_and-mul_pow k (x / 2) b,
      ap (λ d. bit_and d b * 2 ^ k) deep,
      times_two (bit_and (x / 2 ^ suc k) b) k,
    )

-- Two fields that share no bit: their union is their sum.
pub bit_or-fields : (k q r : ℕ) → r < 2 ^ k → bit_or (q * 2 ^ k) r ≡ q * 2 ^ k + r
bit_or-fields zero q r h = ground (arith, bit_or-zero q)
bit_or-fields (suc k) q r h =
    let high : q * 2 ^ suc k / 2 ≡ q * 2 ^ k = omega (arith, times_two q k) in
    omega (
      arith,
      bit_or-div-mod (q * 2 ^ suc k) r,
      times_two q k,
      ap (λ d. bit_or d (r / 2)) high,
      bit_or-fields k q (r / 2) (omega (arith, pow-suc 2 k)),
    )

mod_double : (x t : ℕ) → 0 < t → x % (t * 2) ≡ x / 2 % t * 2 + x % 2
mod_double x t h =
    let r = x / 2 % t * 2 + x % 2 in
    let small : r < t * 2 = omega (arith, mod-lt (x / 2) h) in
    let whole : x ≡ x / 2 / t * (t * 2) + r = omega (arith, div-add-mod' (x / 2) t) in
    ap (λ y. y % (t * 2)) whole
    ∙ (mul-add-mod_self_right (x / 2 / t) (t * 2) r ∙ mod-eq_of_lt small)

-- A mask of `k` ones is the remainder by 2 ^ k.
pub bit_and_ones : (k x : ℕ) → bit_and x (2 ^ k - 1) ≡ x % 2 ^ k
bit_and_ones zero x = ground (arith, bit_and-zero x)
bit_and_ones (suc k) x =
    let pos = one-le-pow k 2 (omega arith) in
    let two : 2 ^ suc k ≡ 2 ^ k * 2 = omega (arith, pow-suc 2 k) in
    let high : (2 ^ suc k - 1) / 2 ≡ 2 ^ k - 1 = omega (arith, two, pos) in
    omega (
      arith,
      bit_and-div-mod x (2 ^ suc k - 1),
      two,
      pos,
      ap (bit_and (x / 2)) high,
      bit_and_ones k (x / 2),
      mod_double x (2 ^ k) pos,
      ap (λ d. x % d) two,
    )

-- Rounding down to a multiple of 2 ^ k, in a word of `k + n` bits.
pub bit_and_round :
    (k n x : ℕ) → x < 2 ^ k * 2 ^ n → bit_and x ((2 ^ n - 1) * 2 ^ k) ≡ x / 2 ^ k * 2 ^ k
bit_and_round k n x h =
    let pos = one-le-pow k 2 (omega arith) in
    let small : x / 2 ^ k < 2 ^ n = (div-lt_iff_lt-mul pos).1 (omega (arith, h)) in
    bit_and-mul_pow k x (2 ^ n - 1)
    ∙ ap (λ d. d * 2 ^ k) (bit_and_ones n (x / 2 ^ k) ∙ mod-eq_of_lt small)
