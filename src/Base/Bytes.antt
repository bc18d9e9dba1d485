-- ===== src/Base/Bytes.antt =====
-- The bits of one byte: `b & (1 << k)`, `b | (1 << k)` and `b & ~(1 << k)` for a byte `b`.
use Prim.Native.Nat.{ℕ, zero, suc, ◌-◌, ◌^◌, ◌<◌, bit_and, bit_or}
use mathlib.Core.Path.{◌≡◌, refl}
use mathlib.Core.Bool.{Bool, true, false, ◌&&◌, ◌||◌, not}
use native.Mathlib.Omega.{arith}
use archa_os.Base.Tests.{ltb, ◌==◌, ltb→lt, ==_iff}

unfoldable pub test_bit : ℕ → ℕ → Bool
test_bit b k = not (bit_and b (2 ^ k) == 0)

unfoldable pub set_bit : ℕ → ℕ → ℕ
set_bit b k = bit_or b (2 ^ k)

unfoldable pub clear_bit : ℕ → ℕ → ℕ
clear_bit b k = bit_and b (255 - 2 ^ k)

bool_eq : Bool → Bool → Bool
bool_eq true b = b
bool_eq false b = not b

bool_eq_sound : (a b : Bool) → bool_eq a b ≡ true → a ≡ b
unfolding bool_eq
bool_eq_sound true true h = refl
bool_eq_sound true false h = cc
bool_eq_sound false true h = cc
bool_eq_sound false false h = refl

-- A test that every number under the bound passes.
passes : (ℕ → Bool) → ℕ → Bool
passes test zero = true
passes test (suc bound) = passes test bound && test bound

passed :
    (test : ℕ → Bool) (bound : ℕ) → passes test bound ≡ true → (k : ℕ) → k < bound → test k ≡ true
unfolding passes
passed test zero all k lt = absurd (omega arith)
passed test (suc bound) all k lt =
    let earlier : k < bound → passes test bound ≡ true → test k ≡ true =
      λ under rest. passed test bound rest k under in
    ground (arith, earlier)

all_bytes_bits : (ℕ → ℕ → ℕ → Bool) → Bool
all_bytes_bits p = passes (λ b. passes (λ k. passes (λ j. p b k j) 8) 8) 256

all_bytes_bits_sound :
    (p : ℕ → ℕ → ℕ → Bool) (b k j : ℕ)
    → all_bytes_bits p ≡ true
    → b < 256
    → k < 8
    → j < 8
    → p b k j ≡ true
unfolding all_bytes_bits
all_bytes_bits_sound p b k j h hb hk hj = passed _ 8 (passed _ 8 (passed _ 256 h b hb) k hk) j hj

set_table :
    all_bytes_bits (λ b k j.
      bool_eq (test_bit (set_bit b k) j) ((j == k) || test_bit b j) && ltb (set_bit b k) 256)
    ≡ true
unfolding all_bytes_bits passes bool_eq test_bit set_bit
set_table = refl

clear_table :
    all_bytes_bits (λ b k j.
      bool_eq (test_bit (clear_bit b k) j) (not (j == k) && test_bit b j)
      && ltb (clear_bit b k) 256)
    ≡ true
unfolding all_bytes_bits passes bool_eq test_bit clear_bit
clear_table = refl

left_true : (a b : Bool) → (a && b) ≡ true → a ≡ true
left_true true b h = refl
left_true false b h = h

right_true : (a b : Bool) → (a && b) ≡ true → b ≡ true
right_true true b h = h
right_true false b h = cc

module _ (b k j : ℕ) (hb : b < 256) (hk : k < 8) (hj : j < 8) where
  pub test_bit-set_bit : test_bit (set_bit b k) j ≡ ((j == k) || test_bit b j)
  test_bit-set_bit =
      bool_eq_sound _ _ (left_true _ _ (all_bytes_bits_sound _ b k j set_table hb hk hj))

  pub test_bit-clear_bit : test_bit (clear_bit b k) j ≡ (not (j == k) && test_bit b j)
  test_bit-clear_bit =
      bool_eq_sound _ _ (left_true _ _ (all_bytes_bits_sound _ b k j clear_table hb hk hj))

module _ (b k : ℕ) (hb : b < 256) (hk : k < 8) where
  pub set_bit-lt : set_bit b k < 256
  set_bit-lt =
      ltb→lt _ _ (right_true _ _ (all_bytes_bits_sound _ b k 0 set_table hb hk (omega arith)))

  pub clear_bit-lt : clear_bit b k < 256
  clear_bit-lt =
      ltb→lt _ _ (right_true _ _ (all_bytes_bits_sound _ b k 0 clear_table hb hk (omega arith)))

-- The scan of a byte skips 0xFF, the one byte that has no clear bit.
full_table : all_bytes_bits (λ b k j. not (b == 255) || test_bit b k) ≡ true
unfolding all_bytes_bits passes test_bit
full_table = refl

pub test_bit_full : (k : ℕ) → k < 8 → test_bit 255 k ≡ true
test_bit_full k hk = all_bytes_bits_sound _ 255 k 0 full_table (omega arith) hk (omega arith)

int_table : all_bytes_bits (λ b k j. bit_and b (2 ^ 32 - 1 - 2 ^ k) == clear_bit b k) ≡ true
unfolding all_bytes_bits passes clear_bit
int_table = refl

-- A mask that is computed as an `int` clears the same bit of a byte.
pub bit_and_int : (b k : ℕ) → b < 256 → k < 8 → bit_and b (2 ^ 32 - 1 - 2 ^ k) ≡ clear_bit b k
bit_and_int b k hb hk = (==_iff _ _).0 (all_bytes_bits_sound _ b k 0 int_table hb hk (omega arith))
