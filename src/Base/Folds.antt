-- ===== src/Base/Folds.antt =====
-- How many of the numbers below `n` satisfy a test.
use Prim.Native.Nat.{ℕ, zero, suc, ◌+◌, ◌≤◌, ◌<◌}
use mathlib.Core.Path.{◌≡◌, refl}
use mathlib.Core.Bool.{Bool, true, false}
use mathlib.Core.Logic.{◌≢◌, inl, inr}
use native.Mathlib.Omega.{arith}
use archa_os.Base.Tests.{if◌then◌else◌, ◌==◌, ==_iff, Bool-cases}

unfoldable pub count_below : ℕ → (ℕ → Bool) → ℕ
count_below zero p = 0
count_below (suc n) p = count_below n p + (if p n then 1 else 0)

pub count_below-zero : (p : ℕ → Bool) → count_below 0 p ≡ 0
unfolding count_below
count_below-zero p = refl

pub count_below-le : (n : ℕ) (p : ℕ → Bool) → count_below n p ≤ n
unfolding count_below
count_below-le zero p = omega arith
count_below-le (suc n) p = ground (arith, count_below-le n p)

-- The count depends on the tests below `n` alone.
pub count_below_ext :
    (n : ℕ) (p q : ℕ → Bool) → ((i : ℕ) → i < n → p i ≡ q i) → count_below n p ≡ count_below n q
unfolding count_below
count_below_ext zero p q h = refl
count_below_ext (suc n) p q h =
    let e : p n ≡ q n = h n (omega arith) in
    rw e (omega (arith, count_below_ext n p q (λ i hi. h i (omega arith))))

-- One more number that passes the test adds one to the count.
pub count_below-add_one :
    (n k : ℕ) (p q : ℕ → Bool)
    → k < n
    → p k ≡ false
    → q k ≡ true
    → ((i : ℕ) → i ≢ k → p i ≡ q i)
    → count_below n q ≡ count_below n p + 1
unfolding count_below
count_below-add_one zero k p q hk f t h = absurd (omega arith)
count_below-add_one (suc n) k p q hk f t h = elim (Bool-cases (k == n)) [
  | inl e ↦
      let here : k ≡ n = (==_iff k n).0 e in
      let p_here : p n ≡ false = rw here at f in
      let q_here : q n ≡ true = rw here at t in
      let same = count_below_ext n p q (λ i hi. h i (omega arith)) in
      rw (p_here, q_here) (omega (arith, same))
  | inr e ↦
      let below : k < n = ground arith in
      let same : p n ≡ q n = h n (omega arith) in
      rw same (omega (arith, count_below-add_one n k p q below f t h))
]

pub count_below_none : (n : ℕ) (p : ℕ → Bool) → ((i : ℕ) → p i ≡ false) → count_below n p ≡ 0
unfolding count_below
count_below_none zero p h = refl
count_below_none (suc n) p h = rw (h n) (omega (arith, count_below_none n p h))

pub none_of_count : (n i : ℕ) (p : ℕ → Bool) → count_below n p ≡ 0 → i < n → p i ≡ false
unfolding count_below
none_of_count zero i p e h = absurd (omega arith)
none_of_count (suc n) i p e h = elim (Bool-cases (i == n)) [
  | inl here ↦ let same : i ≡ n = (==_iff i n).0 here in rw same (ground arith)
  | inr ne ↦ none_of_count n i p (ground arith) (ground arith)
]
