-- ===== src/Mm/Vmm/Mapped.antt =====
-- `unmap_page` finds what `map_page` has mapped, kernel/arch/x86_64/mm/vmm.c.
use archa_os.Base.{
  ℕ, ◌/◌, ◌^◌, ◌<◌, ◌≡◌, refl, arith, List, [], ◌∷◌, sym, ◌∙◌, ap, bit_and, bit_and_ones,
}
use mathlib.Core.Path.{subst}
use archa_os.Mm.Pmm.{Boot, running, panic}
use archa_os.Mm.Vmm.{
  Vmm, pte_addr_mask, make_entry, present, entry, set_entry, next_table, and_then, map_page,
  unmap_page, pml4_index, pdpt_index, pd_index, pt_index,
}
use archa_os.Mm.Vmm.Pages.{Holds}
use archa_os.Mm.Vmm.Enough.{HasPages, descend-runs}
use archa_os.Mm.Vmm.Entries.{IsPage, address-make_entry, set_entry-same, set_entry-other}
use archa_os.Mm.Vmm.Walks.{Walkable, Leads, AreIndices, descend, Descended, target}
use archa_os.Mm.Vmm.Descend.{descend-Descended}

-- The indices of the three tables on the way to the last one.
abbrev pub way : ℕ → List ℕ
way virt = pml4_index virt ∷ pdpt_index virt ∷ pd_index virt ∷ []

way-AreIndices : (virt : ℕ) → AreIndices (way virt)
unfolding pml4_index pdpt_index pd_index
way-AreIndices virt = (
  rw (bit_and_ones 9 (virt / 2 ^ 39)) (omega arith),
  (
    rw (bit_and_ones 9 (virt / 2 ^ 30)) (omega arith),
    (rw (bit_and_ones 9 (virt / 2 ^ 21)) (omega arith), tt),
  ),
)

pt_index_small : (virt : ℕ) → pt_index virt < 512
unfolding pt_index
pt_index_small virt = rw (bit_and_ones 9 (virt / 2 ^ 12)) (omega arith)

and_then_assoc :
    {A B C : Type 0} (r : Boot A) (f : A → Boot B) (g : B → Boot C)
    → and_then (and_then r f) g ≡ and_then r (λ a. and_then (f a) g)
and_then_assoc panic f g = refl
and_then_assoc (running a) f g = refl

and_then_ext :
    {A B : Type 0} (r : Boot A) (f g : A → Boot B)
    → ((a : A) → f a ≡ g a)
    → and_then r f ≡ and_then r g
and_then_ext panic f g same = refl
and_then_ext (running a) f g same = same a

-- `map_page` writes the last entry after the walk.
map_page-descend :
    (phys virt pml4 : ℕ) (s : Vmm)
    → map_page phys virt pml4 s
      ≡ and_then
          (descend (way virt) pml4 s)
          (λ r. running (set_entry r.0 (pt_index virt) (make_entry phys) r.1))
unfolding map_page descend
map_page-descend phys virt pml4 s =
    let g : ℕ × Vmm → Boot Vmm =
      λ r. running (set_entry r.0 (pt_index virt) (make_entry phys) r.1) in
    sym (
      and_then_assoc (next_table pml4 (pml4_index virt) s)
        (λ r. descend (pdpt_index virt ∷ pd_index virt ∷ []) r.0 r.1) g
      ∙ and_then_ext (next_table pml4 (pml4_index virt) s) _ _ (λ r.
        and_then_assoc (next_table r.0 (pdpt_index virt) r.1)
          (λ r'. descend (pd_index virt ∷ []) r'.0 r'.1) g
        ∙ and_then_ext (next_table r.0 (pdpt_index virt) r.1) _ _ (λ r'.
          and_then_assoc (next_table r'.0 (pd_index virt) r'.1) (λ r''. descend [] r''.0 r''.1) g)))

Leads-set_entry :
    (s : Vmm) (is : List ℕ) (t pt j e : ℕ)
    → IsPage pt
    → j < 512
    → AreIndices is
    → Leads s is t pt
    → Leads (set_entry pt j e s) is t pt
Leads-set_entry s [] t pt j e page small good l = l
Leads-set_entry s (i ∷ is) t pt j e page small (lt, good) (at, (ne, (there, l))) =
    let same : entry (set_entry pt j e s) t i ≡ entry s t i =
      set_entry-other s pt t j i e page at ne small lt in
    (
      at,
      (
        ne,
        (
          ap present same ∙ there,
          subst (λ w. Leads (set_entry pt j e s) is (bit_and w pte_addr_mask) pt) (sym same)
              (Leads-set_entry s is (target s t i) pt j e page small good l),
        ),
      ),
    )

-- Where the tables lead to the last one, `unmap_page` reads and clears its entry.
unmap_page-Leads :
    (virt pml4 pt : ℕ) (s : Vmm)
    → Leads s (way virt) pml4 pt
    → unmap_page virt pml4 s
      ≡ (bit_and (entry s pt (pt_index virt)) pte_addr_mask, set_entry pt (pt_index virt) 0 s)
unfolding unmap_page
unmap_page-Leads virt pml4 pt s (_, (_, (a, (_, (_, (b, (_, (_, (c, e))))))))) =
    rw (a, b, c)
      (ap
        (λ p. (bit_and (entry s p (pt_index virt)) pte_addr_mask, set_entry p (pt_index virt) 0 s))
        e)

-- The page is mapped: `unmap_page` gives it back, and a second time there is none.
pub record IsMapped (phys virt pml4 : ℕ) (s : Vmm) : Type 0 where
  pub first : (unmap_page virt pml4 s).0 ≡ bit_and phys pte_addr_mask
  pub second : (unmap_page virt pml4 (unmap_page virt pml4 s).1).0 ≡ 0
  pub kept : (unmap_page virt pml4 s).1.pmm ≡ s.pmm

written-IsMapped :
    (phys virt pml4 pt : ℕ) (s : Vmm)
    → IsPage pt
    → Leads s (way virt) pml4 pt
    → IsMapped phys virt pml4 (set_entry pt (pt_index virt) (make_entry phys) s)
written-IsMapped phys virt pml4 pt s page l =
    let j = pt_index virt in
    let small = pt_index_small virt in
    let good = way-AreIndices virt in
    let s₁ = set_entry pt j (make_entry phys) s in
    let l₁ = Leads-set_entry s (way virt) pml4 pt j (make_entry phys) page small good l in
    let one = unmap_page-Leads virt pml4 pt s₁ l₁ in
    let s₂ = set_entry pt j 0 s₁ in
    let l₂ = Leads-set_entry s₁ (way virt) pml4 pt j 0 page small good l₁ in
    let two = unmap_page-Leads virt pml4 pt s₂ l₂ in
    record {
      first =
          ap (λ r. r.0) one
          ∙ (ap (λ e. bit_and e pte_addr_mask) (set_entry-same s pt j (make_entry phys))
              ∙ address-make_entry phys);
      second =
          ap (λ r. (unmap_page virt pml4 r.1).0) one
          ∙ (ap (λ r. r.0) two ∙ ap (λ e. bit_and e pte_addr_mask) (set_entry-same s₁ pt j 0));
      kept = ap (λ r. r.1.pmm) one;
    }

-- The tables that are there on the way to `virt` are page tables on pages in use, and none comes
-- twice; the physical memory manager is set up for at most 2^52 bytes, with page 0 reserved and three
-- pages free. Then `map_page`, which makes the tables that are missing, returns, `unmap_page` of `virt`
-- gives back the page that was mapped and changes no mark of a page, and a second one gives 0.
pub map_page-unmap_page :
    (phys virt pml4 : ℕ) (s : Vmm)
    → HasPages 3 s
    → Walkable s (λ a. ⊥) pml4 (way virt)
    → (s' : Vmm) × ((map_page phys virt pml4 s ≡ running s') × IsMapped phys virt pml4 s')
map_page-unmap_page phys virt pml4 s has walk =
    let (r, e) = descend-runs (way virt) pml4 s has in
    let walked : Holds (Descended s (λ a. ⊥) (way virt) pml4) (descend (way virt) pml4 s) =
      descend-Descended (way virt) s (λ a. ⊥) pml4 has.ready (λ a none. absurd none)
        (way-AreIndices virt) walk in
    let d : Descended s (λ a. ⊥) (way virt) pml4 r =
      subst (Holds (Descended s (λ a. ⊥) (way virt) pml4)) e walked in
    (
      set_entry r.0 (pt_index virt) (make_entry phys) r.1,
      (
        map_page-descend phys virt pml4 s
            ∙ ap
                (λ b.
                  and_then b (λ x. running (set_entry x.0 (pt_index virt) (make_entry phys) x.1)))
                e,
        written-IsMapped phys virt pml4 r.0 r.1 d.last d.leads,
      ),
    )
