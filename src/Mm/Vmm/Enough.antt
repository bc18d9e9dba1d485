-- ===== src/Mm/Vmm/Enough.antt =====
-- With enough free pages, the walk of `map_page` does not panic, kernel/arch/x86_64/mm/vmm.c.
use archa_os.Base.{
  ℕ, suc, ◌*◌, ◌≤◌, ◌≡◌, refl, true, false, arith, ◌==◌, Bool-cases, inl, inr, List, [], ◌∷◌,
  length, sym, ◌∙◌, ap, ne→==_false,
}
use mathlib.Core.Bool.{false≢true}
use archa_os.Mm.Pmm.{page_used, mark_used, page_size, running}
use archa_os.Mm.Pmm.Marks.{
  page_used-mark_used, mark_used-SameShape, mark_used-IsValid, free_count-mark_used,
}
use archa_os.Mm.Pmm.Alloc.{palloc-Outcome, palloc-zero_iff}
use archa_os.Mm.Vmm.{Vmm, present, entry, next_table, and_then}
use archa_os.Mm.Vmm.Walks.{IsReady, descend, target, grown, next_table-there, next_table-made}
use archa_os.Mm.Vmm.Descend.{given}

-- A state in which `n` levels can be made: page 0 is never given away.
pub record HasPages (n : ℕ) (s : Vmm) : Type 0 where
  pub ready : IsReady s
  pub reserved : page_used s.pmm 0 ≡ true
  pub enough : n ≤ s.pmm.free_pages

grown-HasPages :
    (n : ℕ) (s : Vmm) (t i phys p : ℕ)
    → page_used s.pmm p ≡ false
    → HasPages (suc n) s
    → HasPages n (grown s t i phys (mark_used s.pmm p))
grown-HasPages n s t i phys p free h =
    let v = h.ready.valid in
    let shape = mark_used-SameShape s.pmm p in
    let w = mark_used-IsValid s.pmm v p in
    record {
      ready = record {
        valid = w;
        on = shape.bitmap_init ∙ h.ready.on;
        small = omega (arith, shape.max_pages, h.ready.small);
      };
      reserved = ground (arith, page_used-mark_used s.pmm v p 0, h.reserved);
      enough = omega (arith, h.enough, v.counted, w.counted, free_count-mark_used s.pmm v p free);
    }

fewer : {n : ℕ} {s : Vmm} → HasPages (suc n) s → HasPages n s
fewer h = record { ready = h.ready; reserved = h.reserved; enough = omega (arith, h.enough) }

next_table-runs :
    (n : ℕ) (s : Vmm) (t i : ℕ)
    → HasPages (suc n) s
    → (r : ℕ × Vmm) × ((next_table t i s ≡ running r) × HasPages n r.1)
next_table-runs n s t i h = elim (Bool-cases (present (entry s t i))) [
  | inl there ↦ ((target s t i, s), (next_table-there s t i there, fewer h))
  | inr missing ↦ elim (given s.pmm (palloc-Outcome s.pmm h.ready.valid h.ready.on)) [
    | inl none_left ↦
        let empty = (palloc-zero_iff s.pmm h.ready.valid h.ready.on h.reserved).0 none_left in
        absurd (omega (arith, empty, h.enough))
    | inr (p, (free, e)) ↦
        let s₁ = grown s t i (p * page_size) (mark_used s.pmm p) in
        let some_page : (p * page_size == 0) ≡ false = ne→==_false _ _ (λ z.
          let first : p ≡ 0 = omega (arith, z) in
          false≢true (sym free ∙ (ap (page_used s.pmm) first ∙ h.reserved))) in
        (
          (target s₁ t i, s₁),
          (
            next_table-made s t i (p * page_size) (mark_used s.pmm p) missing e ∙ rw some_page refl,
            grown-HasPages n s t i (p * page_size) p free h,
          ),
        )
  ]
]

pub descend-runs :
    (is : List ℕ) (t : ℕ) (s : Vmm)
    → HasPages (length is) s
    → (r : ℕ × Vmm) × (descend is t s ≡ running r)
unfolding descend
descend-runs [] t s h = ((t, s), refl)
descend-runs (i ∷ is) t s h =
    let (r, (e, h')) = next_table-runs (length is) s t i h in
    let (r', e') = descend-runs is r.0 r.1 h' in
    (r', ap (λ b. and_then b (λ x. descend is x.0 x.1)) e ∙ e')
