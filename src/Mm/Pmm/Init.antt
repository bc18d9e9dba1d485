-- ===== src/Mm/Pmm/Init.antt =====
-- `reserve_region` and `init_pmm`: which pages the loops leave free.
use archa_os.Base.{
  ℕ, zero, suc, ◌+◌, ◌-◌, ◌/◌, ◌^◌, ◌≤◌, ◌<◌, ◌≡◌, refl, Bool, false, ◌&&◌, ◌||◌, arith, ◌==◌, leb,
  ltb, if◌then◌else◌, inl, inr, Bool-cases, ◌∙◌,
}
use archa_os.Mm.Pmm.{
  Pmm, page_used, mark_used, mark_free, u64, page_size, mark_used_loop, mark_free_loop,
  reserve_region, MemMap, desc, conventional, release_loop, Descriptor,
}
use archa_os.Mm.Pmm.Marks.{
  IsValid, SameShape, page_used-mark_used, page_used-mark_free, mark_used-SameShape,
  mark_free-SameShape, mark_used-IsValid, mark_free-IsValid,
}

-- Does `q` lie in the `n` pages from `start` on?
abbrev pub in_range : ℕ → ℕ → ℕ → Bool
in_range start n q = leb start q && ltb q (start + n)

pub SameShape-trans : {s t u : Pmm} → SameShape s t → SameShape t u → SameShape s u
SameShape-trans a b = record {
  max_pages = b.max_pages ∙ a.max_pages;
  sizeof_bitmap = b.sizeof_bitmap ∙ a.sizeof_bitmap;
  bitmap_init = b.bitmap_init ∙ a.bitmap_init;
  bitmap_addr = b.bitmap_addr ∙ a.bitmap_addr;
}

-- What a run of either loop leaves behind.
pub record Kept (s t : Pmm) : Type 0 where
  pub valid : IsValid t
  pub shape : SameShape s t

Kept-refl : (s : Pmm) → IsValid s → Kept s s
Kept-refl s v = record {
  valid = v;
  shape = record { max_pages = refl; sizeof_bitmap = refl; bitmap_init = refl; bitmap_addr = refl };
}

pub mark_used_loop-Kept :
    (left start i : ℕ) (s : Pmm) → IsValid s → Kept s (mark_used_loop left start i s)
unfolding mark_used_loop
mark_used_loop-Kept zero start i s v = Kept-refl s v
mark_used_loop-Kept (suc left) start i s v =
    let p = u64 (start + i) in
    let rest = mark_used_loop-Kept left start (i + 1) (mark_used s p) (mark_used-IsValid s v p) in
    record { valid = rest.valid; shape = SameShape-trans (mark_used-SameShape s p) rest.shape }

mark_free_loop-Kept :
    (left start i : ℕ) (s : Pmm) → IsValid s → Kept s (mark_free_loop left start i s)
unfolding mark_free_loop
mark_free_loop-Kept zero start i s v = Kept-refl s v
mark_free_loop-Kept (suc left) start i s v =
    let p = u64 (start + i) in
    let rest = mark_free_loop-Kept left start (i + 1) (mark_free s p) (mark_free-IsValid s v p) in
    record { valid = rest.valid; shape = SameShape-trans (mark_free-SameShape s p) rest.shape }

pub mark_used_loop-pages :
    (left start i : ℕ) (s : Pmm) (q : ℕ)
    → IsValid s
    → start + i + left ≤ 2 ^ 64
    → page_used (mark_used_loop left start i s) q ≡ (in_range (start + i) left q || page_used s q)
unfolding mark_used_loop
mark_used_loop-pages zero start i s q v fits = ground arith
mark_used_loop-pages (suc left) start i s q v fits = ground (
  arith,
  mark_used_loop-pages left start (i + 1) (mark_used s (u64 (start + i))) q
      (mark_used-IsValid s v (u64 (start + i))) (omega arith),
  page_used-mark_used s v (u64 (start + i)) q,
)

mark_free_loop-pages :
    (left start i : ℕ) (s : Pmm) (q : ℕ)
    → IsValid s
    → start + i + left ≤ 2 ^ 64
    → page_used (mark_free_loop left start i s) q
      ≡ (if in_range (start + i) left q && ltb q s.max_pages then false else page_used s q)
unfolding mark_free_loop
mark_free_loop-pages zero start i s q v fits = ground arith
mark_free_loop-pages (suc left) start i s q v fits = ground (
  arith,
  mark_free_loop-pages left start (i + 1) (mark_free s (u64 (start + i))) q
      (mark_free-IsValid s v (u64 (start + i))) (omega arith),
  page_used-mark_free s v (u64 (start + i)) q,
  (mark_free-SameShape s (u64 (start + i))).max_pages,
)

module _ (s : Pmm) (v : IsValid s) where
  -- `reserve_region` marks the pages from that of `base` on, as many as `length` bytes fill, and
  -- no other page; the invariant holds after it. The region ends below 2 ^ 64.
  pub reserve_region-pages :
      (base length : ℕ)
      → base + length + page_size ≤ 2 ^ 64
      → IsValid (reserve_region base length s)
        × ((q : ℕ)
            → page_used (reserve_region base length s) q ≡ (
                in_range (base / page_size) ((length + (page_size - 1)) / page_size) q
                || page_used s q))
  unfolding reserve_region
  reserve_region-pages base length fits = (
    (mark_used_loop-Kept _ _ 0 s v).valid,
    λ q.
        let e : u64 (length + (page_size - 1)) ≡ length + (page_size - 1) = omega arith in
        let f : base / page_size + 0 ≡ base / page_size = omega arith in
        simp e (
          mark_used_loop-pages ((length + (page_size - 1)) / page_size) (base / page_size) 0 s q v
            (omega arith)
          ∙ simp f refl),
  )

module _ (memory : MemMap) (mem_map descriptor_size : ℕ) where
  abbrev entry : ℕ → Descriptor
  entry = desc memory mem_map descriptor_size

  -- Does a conventional region among the `left` entries from `i` on hold page `q`?
  pub released : ℕ → ℕ → ℕ → Bool
  released zero i q = false
  released (suc left) i q =
      ((entry i).kind == conventional
        && in_range ((entry i).physical_start / page_size) (entry i).number_of_pages q)
      || released left (i + 1) q

  -- The fields of the entries are in range: addresses are 64-bit words, regions fit in 2 ^ 64 bytes.
  pub record InRange (entries : ℕ) : Type 0 where
    pub starts : (i : ℕ) → i < entries → (entry i).physical_start < 2 ^ 64
    pub sizes : (i : ℕ) → i < entries → (entry i).number_of_pages ≤ 2 ^ 52

  abbrev pub Released : ℕ → ℕ → Pmm → Pmm → Type 0
  Released left i s t =
      Kept s t
      × ((q : ℕ)
          → page_used t q
            ≡ (if released left i q && ltb q s.max_pages then false else page_used s q))

  release_one :
      (i : ℕ) (s : Pmm)
      → IsValid s
      → (entry i).physical_start < 2 ^ 64
      → (entry i).number_of_pages ≤ 2 ^ 52
      → let t =
          if (entry i).kind == conventional
          then mark_free_loop (entry i).number_of_pages ((entry i).physical_start / page_size) 0 s
          else s in
        Kept s t
        × ((q : ℕ)
            → page_used t q ≡ (
                if ((entry i).kind == conventional
                    && in_range ((entry i).physical_start / page_size) (entry i).number_of_pages q)
                  && ltb q s.max_pages
                then false
                else page_used s q))
  release_one i s v a b = elim (Bool-cases ((entry i).kind == conventional)) [
    | inl k ↦ simp k (
      mark_free_loop-Kept (entry i).number_of_pages ((entry i).physical_start / page_size) 0 s v,
      λ q. ground (
        arith,
        mark_free_loop-pages (entry i).number_of_pages ((entry i).physical_start / page_size) 0 s q
            v (omega arith),
      ),
    )
    | inr k ↦ simp k (Kept-refl s v, λ q. refl)
  ]

  pub release_loop-Released :
      (left i entries : ℕ) (s : Pmm)
      → IsValid s
      → InRange entries
      → i + left ≤ entries
      → Released left i s (release_loop memory mem_map descriptor_size left i s)
  unfolding release_loop released
  release_loop-Released zero i entries s v r fits = (Kept-refl s v, λ q. refl)
  release_loop-Released (suc left) i entries s v r fits =
      let first = release_one i s v (r.starts i (omega arith)) (r.sizes i (omega arith)) in
      let (kept, pages) = first in
      let rest = release_loop-Released left (i + 1) entries _ kept.valid r (omega arith) in
      let (kept', pages') = rest in
      (
        record { valid = kept'.valid; shape = SameShape-trans kept.shape kept'.shape },
        λ q. pages' q ∙ (rw (kept.shape.max_pages, pages q) (ground arith)),
      )
