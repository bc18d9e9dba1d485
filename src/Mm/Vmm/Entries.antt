-- ===== src/Mm/Vmm/Entries.antt =====
-- The words of page tables: what an entry holds, and that the words of two tables are apart.
use archa_os.Base.{
  ℕ, ◌+◌, ◌-◌, ◌*◌, ◌/◌, ◌%◌, ◌^◌, ◌<◌, ◌≤◌, ◌≡◌, ◌≢◌, refl, true, false, arith, ltb, if◌then◌else◌,
  not, Bool-cases, inl, inr, sym, ◌∙◌, ap, bit_and, bit_or, bit_and_ones, bit_and-mul_pow,
  bit_or-fields, bit_or-div-mod, ne→==_false, ==_iff,
}
use mathlib.Core.Path.{subst}
use archa_os.Mm.Pmm.{page_size, u64}
use archa_os.Mm.Vmm.{
  Vmm, pte_addr_mask, make_entry, present, slot, entry, set_entry, clear_page, page_table_ptr,
  get_virt_addr, passthru_base,
}

-- The address field of an entry.
pub address_lem : (x : ℕ) → bit_and x pte_addr_mask ≡ x / 2 ^ 12 % 2 ^ 40 * 2 ^ 12
address_lem x =
    bit_and-mul_pow 12 x (2 ^ 40 - 1) ∙ ap (λ n. n * 2 ^ 12) (bit_and_ones 40 (x / 2 ^ 12))

with_two : (q : ℕ) → bit_or (q * 2 ^ 12 + 1) 2 ≡ q * 2 ^ 12 + 3
with_two q =
    let half : (q * 2 ^ 12 + 1) / 2 ≡ q * 2 ^ 11 = omega arith in
    let low : (q * 2 ^ 12 + 1) % 2 ≡ 1 = omega arith in
    bit_or-div-mod (q * 2 ^ 12 + 1) 2
    ∙ (rw (half, low, bit_or-fields 11 q 1 (omega arith)) (omega arith))

make_entry_lem : (x : ℕ) → make_entry x ≡ x / 2 ^ 12 % 2 ^ 40 * 2 ^ 12 + 3
make_entry_lem x =
    let q = x / 2 ^ 12 % 2 ^ 40 in
    ap (λ n. bit_or (bit_or n 1) 2) (address_lem x)
    ∙ (ap (λ n. bit_or n 2) (bit_or-fields 12 q 1 (omega arith)) ∙ with_two q)

pub present-make_entry : (x : ℕ) → present (make_entry x) ≡ true
present-make_entry x =
    let odd : bit_and (make_entry x) 1 ≡ 1 =
      bit_and_ones 1 (make_entry x) ∙ omega (arith, make_entry_lem x) in
    rw odd refl

pub address-make_entry : (x : ℕ) → bit_and (make_entry x) pte_addr_mask ≡ bit_and x pte_addr_mask
address-make_entry x =
    address_lem (make_entry x) ∙ (omega (arith, make_entry_lem x) ∙ sym (address_lem x))

pub address_page : (x : ℕ) → x % page_size ≡ 0 → x < 2 ^ 52 → bit_and x pte_addr_mask ≡ x
address_page x page small = address_lem x ∙ omega (arith, page)

-- A physical address at which a page starts.
pub record IsPage (t : ℕ) : Type 0 where
  pub page : t % page_size ≡ 0
  pub small : t < 2 ^ 52

-- The distance between physical addresses and pointers.
abbrev window : Vmm → ℕ
window s = if not s.virtual_mem_initialized then 0 else passthru_base

page_table_ptr_lem : (s : Vmm) (t : ℕ) → t < 2 ^ 52 → page_table_ptr s t ≡ u64 (t + window s)
unfolding page_table_ptr get_virt_addr
page_table_ptr_lem s t small = elim (Bool-cases s.virtual_mem_initialized) [
  | inl on ↦ simp on refl
  | inr off ↦ simp off (omega (arith, small))
]

slot_lem : (s : Vmm) (t j : ℕ) → t < 2 ^ 52 → slot s t j ≡ u64 (t + window s + 8 * j)
slot_lem s t j small = ap (λ p. u64 (p + 8 * j)) (page_table_ptr_lem s t small) ∙ omega arith

-- Before the switch and after it, the words of two tables have different pointers.
pub slots_apart :
    (s : Vmm) (t t' j j' : ℕ)
    → IsPage t
    → IsPage t'
    → t ≢ t'
    → j < 512
    → j' < 512
    → slot s t j ≢ slot s t' j'
slots_apart s t t' j j' a b ne small small' e =
    go (window s) (sym (slot_lem s t j a.small) ∙ (e ∙ slot_lem s t' j' b.small))
  where
    go : (w : ℕ) → u64 (t + w + 8 * j) ≡ u64 (t' + w + 8 * j') → ⊥
    go w same = ne (omega (arith, a.page, a.small, b.page, b.small, same))

pub set_entry-same : (s : Vmm) (t j e : ℕ) → entry (set_entry t j e s) t j ≡ e
unfolding page_table_ptr
set_entry-same s t j e = rw ((==_iff (slot s t j) (slot s t j)).1 refl) refl

pub set_entry-other :
    (s : Vmm) (t t' j j' e : ℕ)
    → IsPage t
    → IsPage t'
    → t' ≢ t
    → j < 512
    → j' < 512
    → entry (set_entry t j e s) t' j' ≡ entry s t' j'
unfolding page_table_ptr
set_entry-other s t t' j j' e a b ne small small' =
    rw (ne→==_false _ _ (slots_apart s t' t j' j b a ne small' small)) refl

-- How far a word of the table at `t'` lies behind the start of the table at `t`.
abbrev behind : Vmm → ℕ → ℕ → ℕ → ℕ
behind s t t' j = u64 (slot s t' j + (2 ^ 64 - page_table_ptr s t))

behind-window :
    (s : Vmm) (t t' j : ℕ)
    → t < 2 ^ 52
    → t' < 2 ^ 52
    → behind s t t' j ≡ u64 (u64 (t' + window s + 8 * j) + (2 ^ 64 - u64 (t + window s)))
behind-window s t t' j small small' = rw (slot_lem s t' j small', page_table_ptr_lem s t small) refl

-- The words of a cleared page are zero, and those of other pages stay.
pub clear_page-here : (s : Vmm) (t j : ℕ) → IsPage t → j < 512 → entry (clear_page t s) t j ≡ 0
unfolding page_table_ptr
clear_page-here s t j a small =
    let near : ltb (behind s t t j) page_size ≡ true = within (window s) in rw near refl
  where
    within : (w : ℕ) → ltb (behind s t t j) page_size ≡ true
    within w =
        let e = behind-window s t t j a.small a.small in
        let d : u64 (u64 (t + window s + 8 * j) + (2 ^ 64 - u64 (t + window s))) ≡ 8 * j =
          omega arith in
        ground (arith, e ∙ d)

pub clear_page-other :
    (s : Vmm) (t t' j : ℕ)
    → IsPage t
    → IsPage t'
    → t' ≢ t
    → j < 512
    → entry (clear_page t s) t' j ≡ entry s t' j
unfolding page_table_ptr
clear_page-other s t t' j a b ne small =
    let far : ltb (behind s t t' j) page_size ≡ false = apart (window s) refl in rw far refl
  where
    apart : (w : ℕ) → window s ≡ w → ltb (behind s t t' j) page_size ≡ false
    apart w same =
        let e : behind s t t' j ≡ u64 (u64 (t' + w + 8 * j) + (2 ^ 64 - u64 (t + w))) =
          subst (λ w. behind s t t' j ≡ u64 (u64 (t' + w + 8 * j) + (2 ^ 64 - u64 (t + w)))) same
            (behind-window s t t' j a.small b.small) in
        let d : page_size ≤ u64 (u64 (t' + w + 8 * j) + (2 ^ 64 - u64 (t + w))) =
          elim (Bool-cases (ltb t t')) [
            | inl up ↦
                let lt : t < t' = ground arith in
                omega (arith, a.page, a.small, b.page, b.small, lt)
            | inr down ↦
                let lt : t' < t = ground arith in
                omega (arith, a.page, a.small, b.page, b.small, lt)
          ] in
        ground (arith, e, d)
