-- ===== src/Mm/Pmm/Marks.antt =====
-- `page_used`, `mark_used`, `mark_free` and the loops over them, as changes to a set of pages.
use archa_os.Base.{
  ℕ, ◌+◌, ◌*◌, ◌/◌, ◌%◌, ◌^◌, ◌≤◌, ◌<◌, ◌≡◌, true, false, not, ◌&&◌, ◌||◌, arith, ◌==◌, leb, ltb,
  if◌then◌else◌, inl, inr, Bool-cases, test_bit-set_bit, test_bit-clear_bit, set_bit-lt,
  clear_bit-lt, count_below, count_below-add_one, count_below-le,
}
use archa_os.Mm.Pmm.{Pmm, page_used, mark_used, mark_free}

abbrev pub free_count : Pmm → ℕ
free_count s = count_below s.max_pages (λ p. not (page_used s p))

-- The bitmap has a bit for each page, its bytes are bytes, and `free_pages` counts its clear bits.
pub record IsValid (s : Pmm) : Type 0 where
  pub bytes : (i : ℕ) → i < s.sizeof_bitmap → s.bitmap i < 256
  pub covers : s.max_pages ≤ s.sizeof_bitmap * 8
  pub bounded : s.max_pages ≤ 2 ^ 52
  pub counted : s.free_pages ≡ free_count s

-- What a mark leaves alone.
pub record SameShape (s t : Pmm) : Type 0 where
  pub max_pages : t.max_pages ≡ s.max_pages
  pub sizeof_bitmap : t.sizeof_bitmap ≡ s.sizeof_bitmap
  pub bitmap_init : t.bitmap_init ≡ s.bitmap_init
  pub bitmap_addr : t.bitmap_addr ≡ s.bitmap_addr

same_bit : (p q : ℕ) → p / 8 ≡ q / 8 → p % 8 ≡ q % 8 → p ≡ q
same_bit p q a b = omega arith

module _ (s : Pmm) (p : ℕ) where
  pub mark_used-SameShape : SameShape s (mark_used s p)
  unfolding mark_used
  mark_used-SameShape = ground arith

  pub mark_free-SameShape : SameShape s (mark_free s p)
  unfolding mark_free
  mark_free-SameShape = ground arith

module _ (s : Pmm) (v : IsValid s) where
  pub page_used_out : (q : ℕ) → s.max_pages ≤ q → page_used s q ≡ true
  unfolding page_used
  page_used_out q h = ground arith

  byte-lt : (p : ℕ) → p < s.max_pages → s.bitmap (p / 8) < 256
  byte-lt p h = v.bytes (p / 8) (let c = v.covers in omega arith)

  pub page_used-mark_used : (p q : ℕ) → page_used (mark_used s p) q ≡ ((q == p) || page_used s q)
  unfolding mark_used page_used
  page_used-mark_used p q =
      ground (arith, byte-lt p, test_bit-set_bit (s.bitmap (p / 8)) (p % 8) (q % 8), same_bit p q)

  pub page_used-mark_free :
      (p q : ℕ)
      → page_used (mark_free s p) q
        ≡ (if (q == p) && ltb p s.max_pages then false else page_used s q)
  unfolding mark_free page_used
  page_used-mark_free p q =
      ground (arith, byte-lt p, test_bit-clear_bit (s.bitmap (p / 8)) (p % 8) (q % 8), same_bit p q)

  pub lt_of_free : (p : ℕ) → page_used s p ≡ false → p < s.max_pages
  unfolding page_used
  lt_of_free p h = ground arith

  -- Marking a page as what it is changes nothing.
  pub mark_used_noop : (p : ℕ) → page_used s p ≡ true → mark_used s p ≡ s
  unfolding mark_used
  mark_used_noop p h = ground arith

  pub mark_free_noop : (p : ℕ) → page_used s p ≡ false → mark_free s p ≡ s
  unfolding mark_free
  mark_free_noop p h = ground arith

  mark_used-bytes : (p i : ℕ) → i < s.sizeof_bitmap → (mark_used s p).bitmap i < 256
  unfolding mark_used
  mark_used-bytes p i h =
      ground (arith, v.bytes i, byte-lt p, set_bit-lt (s.bitmap (p / 8)) (p % 8))

  mark_free-bytes : (p i : ℕ) → i < s.sizeof_bitmap → (mark_free s p).bitmap i < 256
  unfolding mark_free
  mark_free-bytes p i h =
      ground (arith, v.bytes i, byte-lt p, clear_bit-lt (s.bitmap (p / 8)) (p % 8))

  free_count-le : free_count s ≤ 2 ^ 52
  free_count-le = let b = v.bounded in omega (arith, count_below-le s.max_pages _)

  -- Taking a free page takes one from the count.
  pub free_count-mark_used :
      (p : ℕ) → page_used s p ≡ false → free_count s ≡ free_count (mark_used s p) + 1
  free_count-mark_used p h =
      let n = (mark_used-SameShape s p).max_pages in
      simp n (
        count_below-add_one s.max_pages p (λ q. not (page_used (mark_used s p) q))
          (λ q. not (page_used s q)) (lt_of_free p h) (ground (arith, page_used-mark_used p p))
          (ground arith) (λ q ne. ground (arith, page_used-mark_used p q)))

  free_count-mark_free :
      (p : ℕ)
      → p < s.max_pages
      → page_used s p ≡ true
      → free_count (mark_free s p) ≡ free_count s + 1
  free_count-mark_free p lt h =
      let n = (mark_free-SameShape s p).max_pages in
      simp n (
        count_below-add_one s.max_pages p (λ q. not (page_used s q))
          (λ q. not (page_used (mark_free s p) q)) lt (ground arith)
          (ground (arith, page_used-mark_free p p))
          (λ q ne. ground (arith, page_used-mark_free p q)))

  free_pages-mark_used :
      (p : ℕ) → page_used s p ≡ false → s.free_pages ≡ (mark_used s p).free_pages + 1
  unfolding mark_used
  free_pages-mark_used p h =
      ground (arith, v.counted, free_count-le, free_count-mark_used p h, lt_of_free p h)

  free_pages-mark_free :
      (p : ℕ)
      → p < s.max_pages
      → page_used s p ≡ true
      → (mark_free s p).free_pages ≡ s.free_pages + 1
  unfolding mark_free
  free_pages-mark_free p lt h = ground (arith, v.counted, free_count-le)

  pub mark_used-IsValid : (p : ℕ) → IsValid (mark_used s p)
  mark_used-IsValid p = elim (Bool-cases (page_used s p)) [
    | inl used ↦ rw (mark_used_noop p used) v
    | inr free ↦
        let same = mark_used-SameShape s p in
        record {
          bytes = λ i h. mark_used-bytes p i (rw same.sizeof_bitmap at h);
          covers = rw (same.max_pages, same.sizeof_bitmap) v.covers;
          bounded = rw same.max_pages v.bounded;
          counted =
              omega (arith, v.counted, free_pages-mark_used p free, free_count-mark_used p free);
        }
  ]

  pub mark_free-IsValid : (p : ℕ) → IsValid (mark_free s p)
  mark_free-IsValid p = elim (Bool-cases (page_used s p)) [
    | inr free ↦ rw (mark_free_noop p free) v
    | inl used ↦ elim (Bool-cases (leb s.max_pages p)) [
      | inl out ↦ rw (out_noop out) v
      | inr inside ↦
          let same = mark_free-SameShape s p in
          let lt : p < s.max_pages = ground arith in
          record {
            bytes = λ i h. mark_free-bytes p i (rw same.sizeof_bitmap at h);
            covers = rw (same.max_pages, same.sizeof_bitmap) v.covers;
            bounded = rw same.max_pages v.bounded;
            counted =
                omega (
                  arith,
                  v.counted,
                  free_pages-mark_free p lt used,
                  free_count-mark_free p lt used,
                );
          }
    ]
  ]
    where
      out_noop : leb s.max_pages p ≡ true → mark_free s p ≡ s
      out_noop out = unfold mark_free in ground arith
