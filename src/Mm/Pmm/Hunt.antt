-- ===== src/Mm/Pmm/Hunt.antt =====
-- The two loops of `init_pmm` that read the memory map: how far memory goes, and where the bitmap is.
use archa_os.Base.{
  ℕ, zero, suc, ◌+◌, ◌*◌, ◌≤◌, ◌<◌, ◌≡◌, ◌≢◌, refl, Bool, true, false, not, ◌&&◌, arith, ◌==◌,
  ==_iff, leb, if◌then◌else◌, ◌⊎◌, inl, inr, Bool-cases, ap,
}
use archa_os.Mm.Pmm.{u64, page_size, MemMap, desc, conventional, hunt_loop, Descriptor}

-- A region that the bitmap of `size` bytes fits in.
abbrev pub suitable : ℕ → Descriptor → Bool
suitable size d = (d.kind == conventional) && leb size (u64 (d.number_of_pages * page_size))

module _ (memory : MemMap) (mem_map descriptor_size : ℕ) where
  abbrev d_at : ℕ → Descriptor
  d_at = desc memory mem_map descriptor_size

  pub record Suits (left i size addr : ℕ) : Type 0 where
    pub index : ℕ
    pub from : i ≤ index
    pub below : index < i + left
    pub fits : suitable size (d_at index) ≡ true
    pub start : (d_at index).physical_start ≡ addr
    pub nonzero : addr ≢ 0

  abbrev pub NoneSuits : ℕ → ℕ → ℕ → Type 0
  NoneSuits left i size =
      (j : ℕ) → i ≤ j → j < i + left → suitable size (d_at j) ≡ true → (d_at j).physical_start ≡ 0

  hunt_loop_kept :
      (left i size addr : ℕ)
      → addr ≢ 0
      → hunt_loop memory mem_map descriptor_size left i size addr ≡ addr
  unfolding hunt_loop
  hunt_loop_kept zero i size addr ne = refl
  hunt_loop_kept (suc left) i size addr ne =
      let same : (if not ((d_at i).kind == conventional)
            then addr
            else if leb size (u64 ((d_at i).number_of_pages * page_size)) && (addr == 0)
            then (d_at i).physical_start
            else addr)
          ≡ addr =
        ground arith in
      rw same (hunt_loop_kept left (i + 1) size addr ne)

  step : ℕ → ℕ → ℕ
  step i size = if suitable size (d_at i) then (d_at i).physical_start else 0

  hunt_loop-suc :
      (left i size : ℕ)
      → hunt_loop memory mem_map descriptor_size (suc left) i size 0
        ≡ hunt_loop memory mem_map descriptor_size left (i + 1) size (step i size)
  unfolding hunt_loop step
  hunt_loop-suc left i size =
      ap (hunt_loop memory mem_map descriptor_size left (i + 1) size) (ground arith)

  widen : {left i size addr : ℕ} → Suits left (i + 1) size addr → Suits (suc left) i size addr
  widen s = record {
    index = s.index;
    from = let a = s.from in omega arith;
    below = let a = s.below in omega arith;
    fits = s.fits;
    start = s.start;
    nonzero = s.nonzero;
  }

  abbrev pub Hunted : ℕ → ℕ → ℕ → ℕ → Type 0
  Hunted left i size addr = ((addr ≡ 0) × NoneSuits left i size) ⊎ Suits left i size addr

  later :
      (left i size addr : ℕ)
      → step i size ≡ 0
      → Hunted left (i + 1) size addr
      → Hunted (suc left) i size addr
  unfolding step
  later left i size addr e (inr s) = inr (widen s)
  later left i size addr e (inl (z, none)) = inl (
    z,
    λ j a b fits. elim (Bool-cases (j == i)) [
      | inl here ↦
          let same : j ≡ i = (==_iff j i).0 here in
          rw same (ground (arith, let g : suitable size (d_at i) ≡ true = (rw same at fits) in g))
      | inr ne ↦ none j (ground arith) (ground arith) fits
    ],
  )

  found : (left i size : ℕ) → (step i size == 0) ≡ false → Suits (suc left) i size (step i size)
  unfolding step
  found left i size nz = elim (Bool-cases (suitable size (d_at i))) [
    | inl fits ↦ record {
      index = i;
      from = omega arith;
      below = omega arith;
      fits = fits;
      start = rw fits;
      nonzero = ground arith;
    }
    | inr no_fit ↦ absurd (ground arith)
  ]

  -- The second loop ends with 0 only if each region that is large enough starts at address 0; else
  -- with the start of a conventional region that is large enough.
  pub hunt_loop_lem :
      (left i size : ℕ)
      → Hunted left i size (hunt_loop memory mem_map descriptor_size left i size 0)
  hunt_loop_lem zero i size = inl (unfold hunt_loop in refl, λ j a b. absurd (omega arith))
  hunt_loop_lem (suc left) i size = elim (Bool-cases (step i size == 0)) [
    | inl z ↦
        let e : step i size ≡ 0 = (==_iff _ _).0 z in
        rw (hunt_loop-suc left i size, e) (later left i size _ e (hunt_loop_lem left (i + 1) size))
    | inr nz ↦
        rw
          (hunt_loop-suc left i size, hunt_loop_kept left (i + 1) size (step i size) (ground arith))
          (inr (found left i size nz))
  ]
