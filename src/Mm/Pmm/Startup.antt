-- ===== src/Mm/Pmm/Startup.antt =====
-- `init_pmm` as a whole: when it panics, and the state that it leaves.
use archa_os.Base.{
  ℕ, zero, suc, ◌+◌, ◌-◌, ◌*◌, ◌/◌, ◌%◌, ◌^◌, ◌≤◌, ◌<◌, ◌≡◌, ◌≢◌, refl, Bool, true, false, not,
  ◌&&◌, ◌||◌, arith, ◌==◌, ltb, if◌then◌else◌, inl, inr, sym, ◌∙◌, ap, ◌↔◌, test_bit_full,
  count_below_none,
}
use mathlib.Core.Path.{subst}
use archa_os.Mm.Pmm.{
  Pmm, page_used, mark_used, page_size, MemMap, measure_loop, hunt_loop, measured, release_loop,
  reserved, cleared, totals, placed, init_pmm, Boot, running, panic,
}
use archa_os.Mm.Pmm.Measure.{IsHighest, measured-IsHighest}
use archa_os.Mm.Pmm.Marks.{IsValid, page_used-mark_used, mark_used-SameShape, mark_used-IsValid}
use archa_os.Mm.Pmm.Hunt.{Hunted, NoneSuits, Suits, hunt_loop_lem}
use archa_os.Mm.Pmm.Init.{
  in_range, released, InRange, Kept, release_loop-Released, mark_used_loop-Kept,
  mark_used_loop-pages, SameShape-trans,
}

-- The pages that the bitmap occupies.
abbrev pub bitmap_page : Pmm → ℕ → Bool
bitmap_page s q =
    in_range (s.bitmap_addr / page_size) ((s.sizeof_bitmap + page_size - 1) / page_size) q

-- After the `memset` every page is in use and none is counted free.
cleared-IsValid :
    (s : Pmm) (addr : ℕ)
    → s.free_pages ≡ 0
    → s.max_pages ≤ s.sizeof_bitmap * 8
    → s.max_pages ≤ 2 ^ 52
    → IsValid (cleared s addr) × ((q : ℕ) → page_used (cleared s addr) q ≡ true)
unfolding cleared
cleared-IsValid s addr none covers bounded = (
  record {
    bytes = λ i h. ground arith;
    covers = covers;
    bounded = bounded;
    counted = none ∙ sym (count_below_none s.max_pages _ (λ q. ap not (all q)));
  },
  all,
)
  where
    all : (q : ℕ) → page_used (cleared s addr) q ≡ true
    all q = unfold page_used in ground (arith, test_bit_full (q % 8))

-- `totals` and the last assignment touch nothing that the invariant reads.
totals-IsValid :
    (s : Pmm) → IsValid s → IsValid (totals s) × ((q : ℕ) → page_used (totals s) q ≡ page_used s q)
unfolding totals page_used
totals-IsValid s v = (
  record { bytes = v.bytes; covers = v.covers; bounded = v.bounded; counted = v.counted },
  λ q. refl,
)

tidy :
    (r l z i : Bool)
    → (i || (z || (if r && l then false else true))) ≡ not (r && (l && (not z && not i)))
tidy r l z i = ground arith

free_page :
    (s₁ s₂ s₃ s₄ : Pmm) (inside : Bool) (q : ℕ)
    → page_used s₁ q ≡ true
    → page_used s₂ q ≡ (if inside && ltb q s₁.max_pages then false else page_used s₁ q)
    → page_used s₃ q ≡ page_used s₂ q
    → page_used s₄ q ≡ (bitmap_page s₃ q || ((q == 0) || page_used s₃ q))
    → s₄.max_pages ≡ s₁.max_pages
    → s₄.bitmap_addr ≡ s₃.bitmap_addr
    → s₄.sizeof_bitmap ≡ s₃.sizeof_bitmap
    → page_used s₄ q
      ≡ not (inside && (ltb q s₄.max_pages && (not (q == 0) && not (bitmap_page s₄ q))))
free_page s₁ s₂ s₃ s₄ inside q all p₂ p₃ p₄ max at wide =
    p₄
    ∙ simp (p₃, p₂, all, max, at, wide)
        (tidy inside (ltb q s₁.max_pages) (q == 0) (bitmap_page s₃ q))

switch_on-page_used :
    (s : Pmm) (q : ℕ) → page_used (record s { bitmap_init = true }) q ≡ page_used s q
unfolding page_used
switch_on-page_used s q = refl

switch_on-IsValid : (s : Pmm) → IsValid s → IsValid (record s { bitmap_init = true })
unfolding page_used
switch_on-IsValid s v = record {
  bytes = v.bytes;
  covers = v.covers;
  bounded = v.bounded;
  counted = v.counted;
}

module _ (s : Pmm) (v : IsValid s) where
  -- The reservations take page 0 and the pages of the bitmap.
  reserved-pages :
      s.bitmap_addr < 2 ^ 64
      → s.sizeof_bitmap ≤ 2 ^ 52
      → Kept s (reserved s)
        × ((q : ℕ) → page_used (reserved s) q ≡ (bitmap_page s q || ((q == 0) || page_used s q)))
  unfolding reserved
  reserved-pages a b =
      let w = mark_used-IsValid s v 0 in
      let kept =
        mark_used_loop-Kept ((s.sizeof_bitmap + page_size - 1) / page_size)
          (s.bitmap_addr / page_size) 0 (mark_used s 0) w in
      (
        record { valid = kept.valid; shape = SameShape-trans (mark_used-SameShape s 0) kept.shape },
        λ q. ground (
          arith,
          mark_used_loop-pages ((s.sizeof_bitmap + page_size - 1) / page_size)
              (s.bitmap_addr / page_size) 0 (mark_used s 0) q w (omega arith),
          page_used-mark_used s v 0 q,
        ),
      )

running-injective : {s t : Pmm} → running s ≡ running t → s ≡ t
running-injective {s} e = ap (λ b. elim b [ running r ↦ r | panic ↦ s ]) e

module _ (memory : MemMap) (mem_map mem_map_size descriptor_size : ℕ) where
  abbrev pub entries : ℕ
  entries = mem_map_size / descriptor_size

  -- The state after a successful `init_pmm`.
  pub record Initialised (t : Pmm) : Type 0 where
    pub valid : IsValid t
    pub on : t.bitmap_init ≡ true
    pub region : Suits memory mem_map descriptor_size entries 0 t.sizeof_bitmap t.bitmap_addr
    pub covers : t.max_pages ≤ t.sizeof_bitmap * 8
    pub highest :
        (m : ℕ) × (IsHighest memory mem_map descriptor_size entries m
          × (t.max_pages ≡ m / page_size))
    pub free :
        (q : ℕ)
        → page_used t q
          ≡ not (
              released memory mem_map descriptor_size entries 0 q
              && (ltb q t.max_pages && (not (q == 0) && not (bitmap_page t q))))

  measure_loop_bounds :
      (left i : ℕ) (s : Pmm)
      → s.max_physical_address < 2 ^ 64
      → s.free_pages ≡ 0
      → ((measure_loop memory mem_map descriptor_size left i s).max_physical_address < 2 ^ 64)
        × ((measure_loop memory mem_map descriptor_size left i s).free_pages ≡ 0)
  unfolding measure_loop
  measure_loop_bounds zero i s a b = (a, b)
  measure_loop_bounds (suc left) i s a b =
      measure_loop_bounds left (i + 1) _ (ground arith) (ground arith)

  measured_lem :
      (s : Pmm)
      → ((measured memory mem_map mem_map_size descriptor_size s).max_pages ≤ 2 ^ 52)
        × ((measured memory mem_map mem_map_size descriptor_size s).free_pages ≡ 0)
        × ((measured memory mem_map mem_map_size descriptor_size s).sizeof_bitmap
            ≡ ((measured memory mem_map mem_map_size descriptor_size s).max_pages + 7) / 8)
  unfolding measured
  measured_lem s =
      let (a, b) =
        measure_loop_bounds entries 0
          (record s {
            free_pages = 0;
            total_pages = 0;
            total_ram_pages = 0;
            max_physical_address = 0;
          })
          (omega arith) refl in
      (omega arith, b, refl)

  placed-Initialised :
      (s : Pmm) (addr : ℕ)
      → InRange memory mem_map descriptor_size entries
      → s.free_pages ≡ 0
      → s.max_pages ≤ 2 ^ 52
      → s.sizeof_bitmap ≡ (s.max_pages + 7) / 8
      → (m : ℕ) × (IsHighest memory mem_map descriptor_size entries m
          × (s.max_pages ≡ m / page_size))
      → Suits memory mem_map descriptor_size entries 0 s.sizeof_bitmap addr
      → Initialised (placed memory mem_map mem_map_size descriptor_size s addr)
  unfolding placed cleared totals
  placed-Initialised s addr r none bounded size (m, (high, pages)) region =
      let (v₁, all) = cleared-IsValid s addr none (omega arith) bounded in
      let (kept₂, pages₂) =
        release_loop-Released memory mem_map descriptor_size entries 0 entries (cleared s addr) v₁ r
          (omega arith) in
      let s₂ = release_loop memory mem_map descriptor_size entries 0 (cleared s addr) in
      let (v₃, same₃) = totals-IsValid s₂ kept₂.valid in
      let at : s₂.bitmap_addr ≡ addr = kept₂.shape.bitmap_addr in
      let wide : s₂.sizeof_bitmap ≡ s.sizeof_bitmap = kept₂.shape.sizeof_bitmap in
      let low : addr < 2 ^ 64 =
        omega (
          arith,
          region.start,
          region.below,
          r.starts region.index (omega (arith, region.below)),
        ) in
      let (kept₄, pages₄) =
        reserved-pages (totals s₂) v₃ (omega (arith, at, low))
          (omega (arith, wide, size, bounded)) in
      let shape = kept₄.shape in
      record {
        valid = switch_on-IsValid (reserved (totals s₂)) kept₄.valid;
        on = refl;
        region = rw (shape.sizeof_bitmap, shape.bitmap_addr, wide, at) region;
        covers = kept₄.valid.covers;
        highest = (m, (high, shape.max_pages ∙ (kept₂.shape.max_pages ∙ pages)));
        free = λ q.
            switch_on-page_used (reserved (totals s₂)) q
            ∙ free_page (cleared s addr) s₂ (totals s₂) (reserved (totals s₂))
                (released memory mem_map descriptor_size entries 0 q) q (all q) (pages₂ q) (same₃ q)
                (pages₄ q) (shape.max_pages ∙ kept₂.shape.max_pages) shape.bitmap_addr
                shape.sizeof_bitmap;
      }

  module _ (s : Pmm) where
    abbrev pub sized : Pmm
    sized = measured memory mem_map mem_map_size descriptor_size s

    found : ℕ
    found = hunt_loop memory mem_map descriptor_size entries 0 sized.sizeof_bitmap 0

    start : ℕ → Boot Pmm
    start addr =
        if addr == 0
        then panic
        else running (placed memory mem_map mem_map_size descriptor_size sized addr)

    not_zero : {n : ℕ} → n ≢ 0 → (n == 0) ≡ false
    not_zero ne = ground arith

    runs : (found == 0) ≡ false → start found ≢ panic
    unfolding start
    runs nz = rw nz (λ e. cc)

    -- `init_pmm` panics exactly when every conventional region that the bitmap fits in starts at
    -- address 0, so in particular when there is none.
    pub init_pmm-panic_iff :
        (init_pmm memory mem_map mem_map_size descriptor_size s ≡ panic)
        ↔ NoneSuits memory mem_map descriptor_size entries 0 sized.sizeof_bitmap
    unfolding init_pmm start found
    init_pmm-panic_iff =
        decide (hunt_loop_lem memory mem_map descriptor_size entries 0 sized.sizeof_bitmap)
      where
        decide :
            Hunted memory mem_map descriptor_size entries 0 sized.sizeof_bitmap found
            → (start found ≡ panic)
              ↔ NoneSuits memory mem_map descriptor_size entries 0 sized.sizeof_bitmap
        decide (inl (z, none)) = (λ _. none, λ _. rw z)
        decide (inr region) = (
          λ e. absurd (runs (not_zero region.nonzero) e),
          λ none. rw (sym region.start ∙ none region.index region.from region.below region.fits),
        )

    -- When `init_pmm` returns, the bitmap lies in a conventional region that it fits in, the counter
    -- of free pages is right, and a page is free exactly when a conventional region holds it, it is
    -- below the highest address at which one ends, and it is neither page 0 nor a page of the bitmap.
    pub init_pmm-Initialised :
        {t : Pmm}
        → InRange memory mem_map descriptor_size entries
        → init_pmm memory mem_map mem_map_size descriptor_size s ≡ running t
        → Initialised t
    unfolding init_pmm start found
    init_pmm-Initialised {t} r =
        decide (hunt_loop_lem memory mem_map descriptor_size entries 0 sized.sizeof_bitmap)
      where
        decide :
            Hunted memory mem_map descriptor_size entries 0 sized.sizeof_bitmap found
            → start found ≡ running t
            → Initialised t
        decide (inl (z, none)) e = absurd (let e' : panic ≡ running t = rw z at e in cc)
        decide (inr region) e =
            let (bounded, none, size) = measured_lem s in
            let nz = not_zero region.nonzero in
            let e' : running (placed memory mem_map mem_map_size descriptor_size sized found)
                ≡ running t =
              rw nz at e in
            subst Initialised (running-injective e') (
              placed-Initialised sized found r none bounded size
                (measured-IsHighest memory mem_map descriptor_size mem_map_size s) region)
