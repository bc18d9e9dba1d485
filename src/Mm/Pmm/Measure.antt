-- ===== src/Mm/Pmm/Measure.antt =====
-- The first loop of `init_pmm`: the highest address.
use archa_os.Base.{
  ℕ, zero, suc, ◌+◌, ◌*◌, ◌/◌, ◌≤◌, ◌<◌, ◌≡◌, refl, false, arith, ◌==◌, ltb, if◌then◌else◌, inl,
  inr, ◌⊎◌, Bool-cases, ==_iff,
}
use mathlib.Core.Path.{subst}
use archa_os.Mm.Pmm.{Pmm, page_size, MemMap, measure_loop, measured, desc, conventional, u64}

module _ (memory : MemMap) (mem_map descriptor_size : ℕ) where
  -- An entry of the memory map that is conventional memory, and the address at which it ends.
  abbrev pub IsMemory : ℕ → Type 0
  IsMemory i = (desc memory mem_map descriptor_size i).kind ≡ conventional

  abbrev pub finish : ℕ → ℕ
  finish i = u64 (
      (desc memory mem_map descriptor_size i).physical_start
      + (desc memory mem_map descriptor_size i).number_of_pages * page_size)

  -- The highest address of the first entries: none that is conventional memory ends above it, and
  -- one of them ends there, or it is 0.
  pub record IsHighest (entries m : ℕ) : Type 0 where
    pub above : (k : ℕ) → k < entries → IsMemory k → finish k ≤ m
    pub reached : (m ≡ 0) ⊎ ((k : ℕ) × ((k < entries) × (IsMemory k × (finish k ≡ m))))

  abbrev raised : ℕ → ℕ → ℕ
  raised i m = if ltb m (finish i) then finish i else m

  IsHighest-skip :
      (i m : ℕ)
      → ((desc memory mem_map descriptor_size i).kind == conventional) ≡ false
      → IsHighest i m
      → IsHighest (i + 1) m
  IsHighest-skip i m other h = record {
    above = λ k lt mem. elim (Bool-cases (k == i)) [
      | inl e ↦
          let here : k ≡ i = (==_iff k i).0 e in
          let mem' : IsMemory i = subst IsMemory here mem in absurd (ground (arith, mem', other))
      | inr e ↦ h.above k (ground arith) mem
    ];
    reached = elim h.reached [ inl z ↦ inl z | inr (k, (lt, rest)) ↦ inr (k, (omega arith, rest)) ];
  }

  IsHighest-raise : (i m : ℕ) → IsMemory i → IsHighest i m → IsHighest (i + 1) (raised i m)
  IsHighest-raise i m here h = record {
    above = λ k lt mem. elim (Bool-cases (k == i)) [
      | inl e ↦ let same : k ≡ i = (==_iff k i).0 e in rw same (ground arith)
      | inr e ↦ let low = h.above k (ground arith) mem in ground (arith, low)
    ];
    reached = elim (Bool-cases (ltb m (finish i))) [
      | inl up ↦ inr (i, (omega arith, (here, simp up refl)))
      | inr stays ↦ elim h.reached [
        | inl z ↦ inl (simp stays z)
        | inr (k, (lt, (mem, e))) ↦ inr (k, (omega arith, (mem, simp stays e)))
      ]
    ];
  }

  measure_loop-IsHighest :
      (left i n : ℕ) (s : Pmm)
      → i + left ≡ n
      → IsHighest i s.max_physical_address
      → IsHighest n (measure_loop memory mem_map descriptor_size left i s).max_physical_address
  unfolding measure_loop
  measure_loop-IsHighest zero i n s e h =
      let same : i ≡ n = omega arith in subst (λ k. IsHighest k s.max_physical_address) same h
  measure_loop-IsHighest (suc left) i n s e h =
      elim (Bool-cases ((desc memory mem_map descriptor_size i).kind == conventional)) [
        | inl here ↦
            rw (here, measure_loop)
              (measure_loop-IsHighest left (i + 1) n _ (omega arith)
                (IsHighest-raise i s.max_physical_address ((==_iff _ _).0 here) h))
        | inr other ↦
            rw (other, measure_loop)
              (measure_loop-IsHighest left (i + 1) n s (omega arith)
                (IsHighest-skip i s.max_physical_address other h))
      ]

  -- `measured` finds the highest address, and the pages below it.
  pub measured-IsHighest :
      (mem_map_size : ℕ) (s : Pmm)
      → (m : ℕ) × (IsHighest (mem_map_size / descriptor_size) m
          × ((measured memory mem_map mem_map_size descriptor_size s).max_pages ≡ m / page_size))
  unfolding measured
  measured-IsHighest mem_map_size s =
      let n = mem_map_size / descriptor_size in
      let none_yet : IsHighest 0 0 = record {
        above = λ k lt. absurd (omega arith);
        reached = inl refl;
      } in
      let start = record s {
        free_pages = 0;
        total_pages = 0;
        total_ram_pages = 0;
        max_physical_address = 0;
      } in
      (_, (measure_loop-IsHighest n 0 n start (omega arith) none_yet, refl))
