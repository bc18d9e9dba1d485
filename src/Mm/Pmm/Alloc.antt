-- ===== src/Mm/Pmm/Alloc.antt =====
-- `palloc`, with its scan of the bitmap, and `pfree`.
use archa_os.Base.{
  ℕ, ◌*◌, ◌/◌, ◌≡◌, ◌≢◌, true, false, not, arith, ==_iff, ltb, inl, inr, Bool-cases, sym, ◌∙◌, ap,
  ◌↔◌, count_below_ext, count_below_none, none_of_count,
}
use mathlib.Core.Bool.{false≢true}
use archa_os.Mm.Pmm.{Pmm, page_used, mark_used, mark_free, page_size, palloc, pfree}
use archa_os.Mm.Pmm.Marks.{
  IsValid, page_used-mark_used, page_used-mark_free, mark_used-SameShape, mark_free-SameShape,
  mark_used-IsValid, mark_free-IsValid, lt_of_free, mark_free_noop,
}
use archa_os.Mm.Pmm.Scan.{Outcome, taken, full, scan_bytes-Outcome}

module _ (s : Pmm) (v : IsValid s) where
  -- With a valid bitmap that is set up, `palloc` returns the address of the lowest page that is free
  -- and changes only that page's mark, or returns 0, changes nothing, and no page was free.
  pub palloc-Outcome : s.bitmap_init ≡ true → Outcome s (palloc s)
  unfolding palloc
  palloc-Outcome on =
      simp on (scan_bytes-Outcome s v s.sizeof_bitmap 0 (omega arith) (λ q h. elim h [ ]))

  -- Before the set-up there is no page to give.
  pub palloc_off : s.bitmap_init ≡ false → palloc s ≡ (0, s)
  unfolding palloc
  palloc_off off = rw off

  -- `palloc` keeps the bitmap and the counter of free pages in step, on every branch.
  pub palloc-IsValid : IsValid (palloc s).1
  palloc-IsValid = elim (Bool-cases s.bitmap_init) [
    | inl on ↦ keep (palloc s) (palloc-Outcome on)
    | inr off ↦ rw (palloc_off off) v
  ]
    where
      keep : (r : ℕ × Pmm) → Outcome s r → IsValid r.1
      keep r (taken p f b e) = rw e (mark_used-IsValid s v p)
      keep r (full all e) = rw e v

  -- `pfree` keeps them in step too, whatever address it is given.
  pub pfree-IsValid : (address : ℕ) → IsValid (pfree address s)
  unfolding pfree
  pfree-IsValid address = mark_free-IsValid s v (address / page_size)

  -- Freeing a page twice is freeing it once.
  pub pfree-pfree : (address : ℕ) → pfree address (pfree address s) ≡ pfree address s
  unfolding pfree
  pfree-pfree address = elim (Bool-cases (ltb p s.max_pages)) [
    | inl lt ↦
        mark_free_noop (mark_free s p) (mark_free-IsValid s v p) p
          (ground (arith, page_used-mark_free s v p p))
    | inr ge ↦ rw (out ge) (out ge)
  ]
    where
      p : ℕ
      p = address / page_size

      out : ltb p s.max_pages ≡ false → mark_free s p ≡ s
      out ge = unfold mark_free in ground arith

  -- Two states with one shape and the same pages in use have the same count.
  pub same_free_pages :
      (t : Pmm)
      → IsValid t
      → t.max_pages ≡ s.max_pages
      → ((q : ℕ) → page_used t q ≡ page_used s q)
      → t.free_pages ≡ s.free_pages
  same_free_pages t w e h =
      w.counted ∙ (simp e (count_below_ext s.max_pages _ _ (λ q lt. ap not (h q))) ∙ sym v.counted)

  pub Restores : ℕ × Pmm → Type 0
  Restores r =
      ((q : ℕ) → page_used (pfree r.0 r.1) q ≡ page_used s q)
      × ((pfree r.0 r.1).free_pages ≡ s.free_pages)

  restore : (p : ℕ) → page_used s p ≡ false → Restores (p * page_size, mark_used s p)
  unfolding Restores pfree
  restore p free =
      let e : p * page_size / page_size ≡ p = omega arith in
      simp e (
        pages,
        same_free_pages (mark_free (mark_used s p) p) (mark_free-IsValid (mark_used s p) w p)
            ((mark_free-SameShape (mark_used s p) p).max_pages
              ∙ (mark_used-SameShape s p).max_pages)
            pages,
      )
    where
      w : IsValid (mark_used s p)
      w = mark_used-IsValid s v p

      pages : (q : ℕ) → page_used (mark_free (mark_used s p) p) q ≡ page_used s q
      pages q = ground (
        arith,
        page_used-mark_free (mark_used s p) w p q,
        page_used-mark_used s v p q,
        lt_of_free s v p free,
        (mark_used-SameShape s p).max_pages,
        ==_iff q p,
      )

  -- Freeing the page that `palloc` has just given restores every page's mark and the counter.
  pub pfree-palloc : s.bitmap_init ≡ true → (palloc s).0 ≢ 0 → Restores (palloc s)
  pfree-palloc on = undo (palloc s) (palloc-Outcome on)
    where
      undo : (r : ℕ × Pmm) → Outcome s r → r.0 ≢ 0 → Restores r
      undo r (taken p free below e) ne = rw e (restore p free)
      undo r (full all e) ne = absurd (ne (rw e))

  -- With page 0 reserved, `palloc` returns 0 exactly when `free_pages` is 0.
  pub palloc-zero_iff :
      s.bitmap_init ≡ true → page_used s 0 ≡ true → ((palloc s).0 ≡ 0) ↔ (s.free_pages ≡ 0)
  palloc-zero_iff on reserved = decide (palloc s) (palloc-Outcome on)
    where
      decide : (r : ℕ × Pmm) → Outcome s r → (r.0 ≡ 0) ↔ (s.free_pages ≡ 0)
      decide r (taken p free below e) = (
        λ z. absurd (
            false≢true
              (sym free ∙ (ap (page_used s) (origin p (sym (ap (λ x. x.0) e) ∙ z)) ∙ reserved))),
        λ z.
            let none = none_of_count s.max_pages p _ (sym v.counted ∙ z) (lt_of_free s v p free) in
            absurd (ground arith),
      )
        where
          origin : (p : ℕ) → p * page_size ≡ 0 → p ≡ 0
          origin p h = omega arith
      decide r (full all e) =
          (λ z. v.counted ∙ count_below_none s.max_pages _ (λ q. ap not (all q)), λ z. rw e)

  still_on : s.bitmap_init ≡ true → (r : ℕ × Pmm) → Outcome s r → r.1.bitmap_init ≡ true
  still_on on r (taken p f b e) = rw e ((mark_used-SameShape s p).bitmap_init ∙ on)
  still_on on r (full all e) = rw e on

module _ (s : Pmm) (v : IsValid s) where
  clash : (r t : ℕ × Pmm) → Outcome s r → Outcome r.1 t → r.0 ≢ 0 → t.0 ≢ 0 → t.0 ≢ r.0
  clash r t (full all e) o ne ne' = absurd (ne (rw e))
  clash r t (taken p f b e) (full all e') ne ne' = absurd (ne' (rw e'))
  clash r t (taken p f b e) (taken q f' b' e') ne ne' = λ same.
      let page : q ≡ p = omega (arith, ap (λ x. x.0) e, ap (λ x. x.0) e', same) in
      let now : page_used r.1 p ≡ true = rw e (ground (arith, page_used-mark_used s v p p)) in
      false≢true (sym f' ∙ (rw page now))

  -- Two calls in a row that both succeed give two different pages.
  pub palloc-palloc :
      s.bitmap_init ≡ true
      → (palloc s).0 ≢ 0
      → (palloc (palloc s).1).0 ≢ 0
      → (palloc (palloc s).1).0 ≢ (palloc s).0
  palloc-palloc on =
      let first = palloc-Outcome s v on in
      clash (palloc s) (palloc (palloc s).1) first
        (palloc-Outcome (palloc s).1 (palloc-IsValid s v) (still_on s v on (palloc s) first))
