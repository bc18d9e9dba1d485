-- ===== src/Mm/Vmm/Descend.antt =====
-- Where the walk of `map_page` down the page tables comes to, kernel/arch/x86_64/mm/vmm.c.
use archa_os.Base.{
  ℕ, ◌*◌, ◌≡◌, refl, Bool, true, false, ◌==◌, if◌then◌else◌, inl, inr, ◌⊎◌, List, [], ◌∷◌, ◌∙◌, ap,
}
use mathlib.Core.Path.{subst}
use archa_os.Mm.Pmm.{Pmm, palloc, page_used, mark_used, page_size, Boot, running, panic}
use archa_os.Mm.Pmm.Alloc.{palloc-Outcome}
use archa_os.Mm.Pmm.Scan.{Outcome, taken, full}
use archa_os.Mm.Vmm.{Vmm, present, and_then}
use archa_os.Mm.Vmm.Pages.{Holds, Holds-map}
use archa_os.Mm.Vmm.Entries.{present-make_entry}
use archa_os.Mm.Vmm.Walks.{
  IsReady, target, Walkable, AreIndices, descend, Descended, Tables, with_table, one_more, grown,
  next_table-there, next_table-made,
}
use archa_os.Mm.Vmm.Grown.{
  grown-kept, grown-entry, grown-target, grown-IsTable, grown-IsReady, new_walk,
}

-- `palloc` gives nothing, or a page that was free and that it marks.
pub given :
    (s : Pmm)
    → Outcome s (palloc s)
    → ((palloc s).0 ≡ 0)
      ⊎ ((p : ℕ) × ((page_used s p ≡ false) × (palloc s ≡ (p * page_size, mark_used s p))))
given s (taken p free below e) = inr (p, (free, e))
given s (full all e) = inl (ap (λ r. r.0) e)

either-Holds :
    {A B : Type 0} (Q : B → Type 0) (b : Bool) (a : A) (f : A → Boot B)
    → Holds Q (f a)
    → Holds Q (and_then (if b then panic else running a) f)
either-Holds Q true a f h = tt
either-Holds Q false a f h = h

pub descend-Descended :
    (is : List ℕ) (s : Vmm) (above : ℕ → Type 0) (t : ℕ)
    → IsReady s
    → Tables s above
    → AreIndices is
    → Walkable s above t is
    → Holds (Descended s above is t) (descend is t s)
unfolding descend
descend-Descended [] s above t ready all good (it, new) = record {
  leads = refl;
  last = it.is_page;
  new = new;
  kept = λ a j up lt. refl;
}
descend-Descended (i ∷ is) s above t ready all (small, good) (it, (new, inr (there, below))) =
    rw (next_table-there s t i there) (
      Holds-map _ _ (descend is (target s t i) s)
        (descend-Descended is s (λ a. (a ≡ t) ⊎ above a) (target s t i) ready
          (with_table s above t all it) good below)
        (λ r d. one_more s s above t i is r it.is_page new small there (λ a j up lt. refl) d))
descend-Descended (i ∷ is) s above t ready all (small, good) (it, (new, inl missing)) =
    elim (given s.pmm (palloc-Outcome s.pmm ready.valid ready.on)) [
      | inl none_left ↦
          rw (next_table-made s t i (palloc s.pmm).0 (palloc s.pmm).1 missing refl, none_left) tt
      | inr (p, (free, e)) ↦
          let phys = p * page_size in
          let s₁ = grown s t i phys (mark_used s.pmm p) in
          rw (next_table-made s t i phys (mark_used s.pmm p) missing e) (
            either-Holds (Descended s above (i ∷ is) t) (phys == 0) (target s₁ t i, s₁)
              (λ r. descend is r.0 r.1)
              (Holds-map _ _ (descend is (target s₁ t i) s₁)
                (descend-Descended is s₁ (λ a. (a ≡ t) ⊎ above a) (target s₁ t i)
                  (grown-IsReady s ready above all t i it small p free)
                  (λ a up.
                    grown-IsTable s ready above all t i it small p free a
                      (with_table s above t all it a up))
                  good
                  (rw (grown-target s ready above all t i it small p free)
                    (new_walk s ready above all t i it small p free is good)))
                (λ r d.
                  one_more s s₁ above t i is r it.is_page new small
                    (ap present (grown-entry s ready above all t i it small p free)
                      ∙ present-make_entry phys)
                    (λ a j up lt.
                      grown-kept s ready above all t i it small p free a j (all a up)
                        (λ q. new (subst above q up)) lt)
                    d)))
    ]
