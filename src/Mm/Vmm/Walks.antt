-- ===== src/Mm/Vmm/Walks.antt =====
-- The walk of `map_page` down the page tables, kernel/arch/x86_64/mm/vmm.c.
use archa_os.Base.{
  ℕ, ◌/◌, ◌^◌, ◌<◌, ◌≤◌, ◌≡◌, ◌≢◌, refl, true, false, ◌==◌, if◌then◌else◌, inl, inr, ◌⊎◌, List, [],
  ◌∷◌, sym, ◌∙◌, ap, bit_and,
}
use mathlib.Core.Path.{subst}
use archa_os.Mm.Pmm.{Pmm, palloc, page_used, page_size, Boot, running, panic}
use archa_os.Mm.Pmm.Marks.{IsValid}
use archa_os.Mm.Vmm.{
  Vmm, pte_addr_mask, make_entry, present, entry, set_entry, clear_page, next_table, and_then,
}
use archa_os.Mm.Vmm.Entries.{IsPage}

-- The physical memory manager is set up, for less than 2^52 bytes.
pub record IsReady (s : Vmm) : Type 0 where
  pub valid : IsValid s.pmm
  pub on : s.pmm.bitmap_init ≡ true
  pub small : s.pmm.max_pages ≤ 2 ^ 40

-- A page table at the physical address `t`, on a page that is in use.
pub record IsTable (s : Vmm) (t : ℕ) : Type 0 where
  pub is_page : IsPage t
  pub in_use : page_used s.pmm (t / page_size) ≡ true

-- The address that an entry leads to.
abbrev pub target : Vmm → ℕ → ℕ → ℕ
target s t i = bit_and (entry s t i) pte_addr_mask

-- The tables that are there on the way along some indices are page tables, and none comes twice or is
-- one of those above.
abbrev pub Walkable : Vmm → (ℕ → Type 0) → ℕ → List ℕ → Type 0
Walkable s above t [] = IsTable s t × (above t → ⊥)
Walkable s above t (i ∷ is) =
    IsTable s t
    × ((above t → ⊥)
        × ((present (entry s t i) ≡ false)
            ⊎ ((present (entry s t i) ≡ true)
                × Walkable s (λ a. (a ≡ t) ⊎ above a) (target s t i) is)))

-- Along the indices the tables lead from `t` to `pt`, which is none of those passed.
abbrev pub Leads : Vmm → List ℕ → ℕ → ℕ → Type 0
Leads s [] t pt = t ≡ pt
Leads s (i ∷ is) t pt =
    IsPage t × ((t ≢ pt) × ((present (entry s t i) ≡ true) × Leads s is (target s t i) pt))

abbrev pub AreIndices : List ℕ → Type 0
AreIndices [] = Unit
AreIndices (i ∷ is) = (i < 512) × AreIndices is

-- The tables along the indices, made where there are none.
unfoldable pub descend : List ℕ → ℕ → Vmm → Boot (ℕ × Vmm)
descend [] t s = running (t, s)
descend (i ∷ is) t s = and_then (next_table t i s) λ (t', s'). descend is t' s'

-- What the walk leaves: the tables lead to the last one, and those above are as they were.
pub record Descended (s : Vmm) (above : ℕ → Type 0) (is : List ℕ) (t : ℕ) (r : ℕ × Vmm)
    : Type 0 where
  pub leads : Leads r.1 is t r.0
  pub last : IsPage r.0
  pub new : above r.0 → ⊥
  pub kept : (a j : ℕ) → above a → j < 512 → entry r.1 a j ≡ entry s a j

-- The tables above are page tables.
abbrev pub Tables : Vmm → (ℕ → Type 0) → Type 0
Tables s above = (a : ℕ) → above a → IsTable s a

pub with_table :
    (s : Vmm) (above : ℕ → Type 0) (t : ℕ)
    → Tables s above
    → IsTable s t
    → Tables s (λ a. (a ≡ t) ⊎ above a)
with_table s above t all it a (inl e) = subst (IsTable s) (sym e) it
with_table s above t all it a (inr up) = all a up

-- One level, once the rest is done.
pub one_more :
    (s s₁ : Vmm) (above : ℕ → Type 0) (t i : ℕ) (is : List ℕ) (r : ℕ × Vmm)
    → IsPage t
    → (above t → ⊥)
    → i < 512
    → present (entry s₁ t i) ≡ true
    → ((a j : ℕ) → above a → j < 512 → entry s₁ a j ≡ entry s a j)
    → Descended s₁ (λ a. (a ≡ t) ⊎ above a) is (target s₁ t i) r
    → Descended s above (i ∷ is) t r
one_more s s₁ above t i is r page new small there same d =
    let here : entry r.1 t i ≡ entry s₁ t i = d.kept t i (inl refl) small in
    record {
      leads = (
        page,
        (
          λ e. d.new (inl (sym e)),
          (
            ap present here ∙ there,
            subst (λ w. Leads r.1 is (bit_and w pte_addr_mask) r.0) (sym here) d.leads,
          ),
        ),
      );
      last = d.last;
      new = λ up. d.new (inr up);
      kept = λ a j up lt. d.kept a j (inr up) lt ∙ same a j up lt;
    }

-- The state after a level that was missing.
abbrev pub grown : Vmm → ℕ → ℕ → ℕ → Pmm → Vmm
grown s t i phys pmm = set_entry t i (make_entry phys) (clear_page phys (record s { pmm = pmm }))

pub next_table-there :
    (s : Vmm) (t i : ℕ)
    → present (entry s t i) ≡ true
    → next_table t i s ≡ running (target s t i, s)
unfolding next_table
next_table-there s t i there = rw there refl

pub next_table-made :
    (s : Vmm) (t i phys : ℕ) (pmm : Pmm)
    → present (entry s t i) ≡ false
    → palloc s.pmm ≡ (phys, pmm)
    → next_table t i s ≡ (
        if phys == 0
        then panic
        else running (target (grown s t i phys pmm) t i, grown s t i phys pmm))
unfolding next_table
next_table-made s t i phys pmm missing e = rw (missing, e) refl
