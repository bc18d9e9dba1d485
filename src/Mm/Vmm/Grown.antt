-- ===== src/Mm/Vmm/Grown.antt =====
-- A table that `map_page` makes where there is none, kernel/arch/x86_64/mm/vmm.c.
use archa_os.Base.{
  ℕ, ◌*◌, ◌/◌, ◌<◌, ◌≡◌, ◌≢◌, refl, false, arith, inl, inr, ◌⊎◌, List, [], ◌∷◌, sym, ◌∙◌, ap,
  bit_and,
}
use mathlib.Core.Bool.{false≢true}
use archa_os.Mm.Pmm.{page_used, mark_used, page_size}
use archa_os.Mm.Pmm.Marks.{page_used-mark_used, lt_of_free, mark_used-SameShape, mark_used-IsValid}
use archa_os.Mm.Vmm.{Vmm, pte_addr_mask, make_entry, entry, clear_page, page_table_ptr}
use archa_os.Mm.Vmm.Entries.{
  IsPage, address-make_entry, address_page, set_entry-same, set_entry-other, clear_page-here,
  clear_page-other,
}
use archa_os.Mm.Vmm.Walks.{IsReady, IsTable, target, Walkable, AreIndices, Tables, grown}

module _ (s : Vmm) (ready : IsReady s) (above : ℕ → Type 0) (all : Tables s above) (t i : ℕ)
    (it : IsTable s t) (small : i < 512) (p : ℕ) (free : page_used s.pmm p ≡ false) where
  abbrev phys : ℕ
  phys = p * page_size

  abbrev s₁ : Vmm
  s₁ = grown s t i phys (mark_used s.pmm p)

  phys-IsPage : IsPage phys
  phys-IsPage =
      let lt = lt_of_free s.pmm ready.valid p free in
      record { page = omega arith; small = omega (arith, lt, ready.small) }

  -- The new page is none of those in use.
  unused : (a : ℕ) → IsTable s a → a ≢ phys
  unused a table e =
      let same : a / page_size ≡ p = omega (arith, e) in
      false≢true (sym free ∙ (ap (page_used s.pmm) (sym same) ∙ table.in_use))

  pub grown-kept : (a j : ℕ) → IsTable s a → a ≢ t → j < 512 → entry s₁ a j ≡ entry s a j
  unfolding page_table_ptr
  grown-kept a j table ne lt =
      set_entry-other (clear_page phys (record s { pmm = mark_used s.pmm p })) t a i j
        (make_entry phys) it.is_page table.is_page ne small lt
      ∙ clear_page-other (record s { pmm = mark_used s.pmm p }) phys a j phys-IsPage table.is_page
          (unused a table) lt

  grown-zero : (j : ℕ) → j < 512 → entry s₁ phys j ≡ 0
  grown-zero j lt =
      set_entry-other (clear_page phys (record s { pmm = mark_used s.pmm p })) t phys i j
        (make_entry phys) it.is_page phys-IsPage (λ e. unused t it (sym e)) small lt
      ∙ clear_page-here (record s { pmm = mark_used s.pmm p }) phys j phys-IsPage lt

  pub grown-entry : entry s₁ t i ≡ make_entry phys
  grown-entry =
      set_entry-same (clear_page phys (record s { pmm = mark_used s.pmm p })) t i (make_entry phys)

  pub grown-target : target s₁ t i ≡ phys
  grown-target =
      ap (λ e. bit_and e pte_addr_mask) grown-entry
      ∙ (address-make_entry phys ∙ address_page phys phys-IsPage.page phys-IsPage.small)

  pub grown-IsTable : (a : ℕ) → IsTable s a → IsTable s₁ a
  grown-IsTable a table = record {
    is_page = table.is_page;
    in_use = ground (arith, page_used-mark_used s.pmm ready.valid p (a / page_size), table.in_use);
  }

  phys-IsTable : IsTable s₁ phys
  phys-IsTable = record {
    is_page = phys-IsPage;
    in_use =
        let same : phys / page_size ≡ p = omega arith in
        rw same (ground (arith, page_used-mark_used s.pmm ready.valid p p));
  }

  pub grown-IsReady : IsReady s₁
  grown-IsReady =
      let shape = mark_used-SameShape s.pmm p in
      record {
        valid = mark_used-IsValid s.pmm ready.valid p;
        on = shape.bitmap_init ∙ ready.on;
        small = omega (arith, shape.max_pages, ready.small);
      }

  none_above : ((phys ≡ t) ⊎ above phys) → ⊥
  none_above (inl e) = unused t it (sym e)
  none_above (inr up) = unused phys (all phys up) refl

  pub new_walk : (is : List ℕ) → AreIndices is → Walkable s₁ (λ a. (a ≡ t) ⊎ above a) phys is
  new_walk [] good = (phys-IsTable, none_above)
  new_walk (j ∷ is) (lt, good) = (phys-IsTable, (none_above, inl (rw (grown-zero j lt) refl)))
