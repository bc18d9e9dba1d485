-- ===== src/Interrupts/Masks.antt =====
-- The masks of the two interrupt controllers.
use archa_os.Base.{
  ℕ, ◌-◌, ◌%◌, ◌^◌, ◌<◌, ◌≤◌, ◌≡◌, refl, Bool, arith, ◌==◌, ltb, leb, if◌then◌else◌, not, ◌&&◌,
  ◌||◌, bit_or, Bool-cases, inl, inr, ap, ◌∙◌, test_bit, set_bit, clear_bit, test_bit-set_bit,
  test_bit-clear_bit, set_bit-lt, clear_bit-lt, bit_and_int,
}
use archa_os.Interrupts.{
  Ports, outb, pic_data_0, pic_data_1, without, with, pic_enable, pic_disable, pic_disable_total,
}

-- Whether line `irq` of the two controllers is masked.
abbrev pub is_masked : Ports → ℕ → Bool
is_masked s irq =
    if ltb irq 8 then test_bit (s pic_data_0) irq else test_bit (s pic_data_1) (irq - 8)

-- The data ports hold bytes.
pub record IsPorts (s : Ports) : Type 0 where
  pub first : s pic_data_0 < 256
  pub second : s pic_data_1 < 256

without_byte : (mask irq : ℕ) → mask < 256 → irq < 8 → without mask irq % 256 ≡ clear_bit mask irq
without_byte mask irq byte lt =
    let e = bit_and_int mask irq byte lt in rw e (omega (arith, clear_bit-lt mask irq byte lt))

with_byte : (mask irq : ℕ) → mask < 256 → irq < 8 → with mask irq % 256 ≡ set_bit mask irq
unfolding set_bit
with_byte mask irq byte lt =
    let small : bit_or mask (2 ^ irq) < 256 = set_bit-lt mask irq byte lt in omega (arith, small)

-- The bits of a mask that is written back with one bit cleared or set.
without_bit :
    (mask irq j : ℕ)
    → mask < 256
    → irq < 8
    → j < 8
    → test_bit (without mask irq % 256) j ≡ (not (j == irq) && test_bit mask j)
without_bit mask irq j byte lt lt' =
    ap (λ b. test_bit b j) (without_byte mask irq byte lt)
    ∙ test_bit-clear_bit mask irq j byte lt lt'

with_bit :
    (mask irq j : ℕ)
    → mask < 256
    → irq < 8
    → j < 8
    → test_bit (with mask irq % 256) j ≡ ((j == irq) || test_bit mask j)
with_bit mask irq j byte lt lt' =
    ap (λ b. test_bit b j) (with_byte mask irq byte lt) ∙ test_bit-set_bit mask irq j byte lt lt'

shifted : (j irq : ℕ) → 8 ≤ j → 8 ≤ irq → (j - 8 == irq - 8) ≡ (j == irq)
shifted j irq a b = ground arith

-- `pic_enable` of one of the 16 lines clears the mask of that line, and of line 2, through which the
-- second controller is connected, if the line is one of the second; all other masks stay.
pub pic_enable_lem :
    (irq : ℕ) (s : Ports)
    → IsPorts s
    → irq < 16
    → (j : ℕ) → j < 16
    → is_masked (pic_enable irq s) j
      ≡ (not ((j == irq) || (leb 8 irq && (j == 2))) && is_masked s j)
unfolding pic_enable outb
pic_enable_lem irq s bytes lt j lt' = elim (Bool-cases (ltb irq 8)) [
  | inl low ↦ elim (Bool-cases (ltb j 8)) [
    | inl first ↦
        let bit = without_bit (s pic_data_0) irq j bytes.first (ground arith) (ground arith) in
        ground (arith, bit)
    | inr second ↦ ground arith
  ]
  | inr high ↦ elim (Bool-cases (ltb j 8)) [
    | inl first ↦
        let bit = without_bit (s pic_data_0) 2 j bytes.first (omega arith) (ground arith) in
        ground (arith, bit)
    | inr second ↦
        let bit =
          without_bit (s pic_data_1) (irq - 8) (j - 8) bytes.second (ground arith) (ground arith) in
        let same = shifted j irq (ground arith) (ground arith) in ground (arith, bit, same)
  ]
]

-- `pic_disable` of one of the 16 lines sets the mask of that line; all other masks stay.
pub pic_disable_lem :
    (irq : ℕ) (s : Ports)
    → IsPorts s
    → irq < 16
    → (j : ℕ) → j < 16
    → is_masked (pic_disable irq s) j ≡ ((j == irq) || is_masked s j)
unfolding pic_disable outb
pic_disable_lem irq s bytes lt j lt' = elim (Bool-cases (ltb irq 8)) [
  | inl low ↦ elim (Bool-cases (ltb j 8)) [
    | inl first ↦
        let bit = with_bit (s pic_data_0) irq j bytes.first (ground arith) (ground arith) in
        ground (arith, bit)
    | inr second ↦ ground arith
  ]
  | inr high ↦ elim (Bool-cases (ltb j 8)) [
    | inl first ↦ ground arith
    | inr second ↦
        let bit =
          with_bit (s pic_data_1) (irq - 8) (j - 8) bytes.second (ground arith) (ground arith) in
        let same = shifted j irq (ground arith) (ground arith) in ground (arith, bit, same)
  ]
]

-- `pic_disable_total` masks nothing: all lines are as they were.
pub pic_disable_total_lem :
    (s : Ports) (irq : ℕ) → is_masked (pic_disable_total s) irq ≡ is_masked s irq
unfolding pic_disable_total outb
pic_disable_total_lem s irq = refl
