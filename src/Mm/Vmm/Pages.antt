-- ===== src/Mm/Vmm/Pages.antt =====
-- What the operations of vmm.c keep: the physical memory manager's books, and CR3; and how the
-- four indices of an address fit together.
use archa_os.Base.{
  ℕ, zero, suc, ◌+◌, ◌*◌, ◌/◌, ◌%◌, ◌^◌, ◌≡◌, ◌≢◌, refl, Bool, true, false, arith, ◌==◌,
  if◌then◌else◌, not, inl, inr, ◌⊎◌, Bool-cases, sym, ◌∙◌, ap, bit_and, bit_and_ones,
}
use mathlib.Core.Path.{subst}
use archa_os.Mm.Pmm.{palloc, pfree, page_size, Boot, running, panic, u64}
use archa_os.Mm.Pmm.Marks.{IsValid}
use archa_os.Mm.Pmm.Alloc.{palloc-IsValid, pfree-IsValid}
use archa_os.Mm.Vmm.{
  Vmm, pml4_index, pdpt_index, pd_index, pt_index, next_table, map_page, unmap_page, and_then,
  vfrees_loop, vfrees, vallocs_loop, vallocs, entry, present, map_range, map_range_loop, set_entry,
  pte_addr_mask, erase_page,
}

-- The four indices and the offset in the page are the low 48 bits of an address: two addresses that
-- differ there are mapped by different entries.
pub indices_lem :
    (v : ℕ)
    → pml4_index v * 2 ^ 39
        + pdpt_index v * 2 ^ 30
        + pd_index v * 2 ^ 21
        + pt_index v * 2 ^ 12
        + v % 2 ^ 12
      ≡ v % 2 ^ 48
unfolding pml4_index pdpt_index pd_index pt_index
indices_lem v =
    rw
      (
        bit_and_ones 9 (v / 2 ^ 39),
        bit_and_ones 9 (v / 2 ^ 30),
        bit_and_ones 9 (v / 2 ^ 21),
        bit_and_ones 9 (v / 2 ^ 12),
      )
      (omega arith)

-- A property of the result, if there is one.
abbrev pub Holds : {A : Type 0} → (A → Type 0) → Boot A → Type 0
Holds P panic = Unit
Holds P (running a) = P a

pub and_then-Holds :
    {A B : Type 0} (P : A → Type 0) (Q : B → Type 0) (r : Boot A) (f : A → Boot B)
    → Holds P r
    → ((a : A) → P a → Holds Q (f a))
    → Holds Q (and_then r f)
and_then-Holds P Q panic f h step = tt
and_then-Holds P Q (running a) f h step = step a h

-- What an operation on the tables keeps.
pub record Keeps (s t : Vmm) : Type 0 where
  pub valid : IsValid s.pmm → IsValid t.pmm
  pub next_virt : t.next_virt ≡ s.next_virt
  pub cr3 : t.cr3 ≡ s.cr3

Keeps-refl : (s : Vmm) → Keeps s s
Keeps-refl s = record { valid = λ v. v; next_virt = refl; cr3 = refl }

Keeps-trans : {s t u : Vmm} → Keeps s t → Keeps t u → Keeps s u
Keeps-trans k l = record {
  valid = λ v. l.valid (k.valid v);
  next_virt = l.next_virt ∙ k.next_virt;
  cr3 = l.cr3 ∙ k.cr3;
}

next_table-Keeps :
    (table index : ℕ) (s : Vmm) → Holds (λ (r : ℕ × Vmm). Keeps s r.1) (next_table table index s)
unfolding next_table
next_table-Keeps table index s = elim (Bool-cases (present (entry s table index))) [
  | inl there ↦ rw there (Keeps-refl s)
  | inr missing ↦ elim (Bool-cases ((palloc s.pmm).0 == 0)) [
    | inl z ↦ rw (missing, z) tt
    | inr nz ↦
        rw (missing, nz)
          (record { valid = λ v. palloc-IsValid s.pmm v; next_virt = refl; cr3 = refl })
  ]
]

map_page-Keeps : (phys virt pml4 : ℕ) (s : Vmm) → Holds (Keeps s) (map_page phys virt pml4 s)
unfolding map_page
map_page-Keeps phys virt pml4 s =
    and_then-Holds _ (Keeps s) (next_table pml4 (pml4_index virt) s) _
      (next_table-Keeps pml4 (pml4_index virt) s)
      λ (pdpt, s₁) k₁.
        and_then-Holds _ (Keeps s) (next_table pdpt (pdpt_index virt) s₁) _
          (next_table-Keeps pdpt (pdpt_index virt) s₁)
          λ (pd, s₂) k₂.
            and_then-Holds _ (Keeps s) (next_table pd (pd_index virt) s₂) _
              (next_table-Keeps pd (pd_index virt) s₂)
              λ (pt, s₃) k₃. Keeps-trans k₁ (
                Keeps-trans k₂
                  (Keeps-trans k₃ (record { valid = λ v. v; next_virt = refl; cr3 = refl })))

either-Keeps :
    (s : Vmm) (b : Bool) (x y : ℕ × Vmm)
    → Keeps s x.1
    → Keeps s y.1
    → Keeps s (if b then x else y).1
either-Keeps s true x y k l = k
either-Keeps s false x y k l = l

unmap_page-Keeps : (virt pml4 : ℕ) (s : Vmm) → Keeps s (unmap_page virt pml4 s).1
unfolding unmap_page
unmap_page-Keeps virt pml4 s =
    let e = entry s pml4 (pml4_index virt) in
    let e' = entry s (bit_and e pte_addr_mask) (pdpt_index virt) in
    let e'' = entry s (bit_and e' pte_addr_mask) (pd_index virt) in
    let pt = bit_and e'' pte_addr_mask in
    let last : ℕ × Vmm =
      (bit_and (entry s pt (pt_index virt)) pte_addr_mask, set_entry pt (pt_index virt) 0 s) in
    let third = if not (present e'') then (0, s) else last in
    let second = if not (present e') then (0, s) else third in
    either-Keeps s (not (present e)) (0, s) second (Keeps-refl s)
      (either-Keeps s (not (present e')) (0, s) third (Keeps-refl s)
        (either-Keeps s (not (present e'')) (0, s) last (Keeps-refl s)
          (record { valid = λ v. v; next_virt = refl; cr3 = refl })))

freed-Keeps :
    (s : Vmm) (phys : ℕ) → Keeps s (if phys == 0 then s else record s { pmm = pfree phys s.pmm })
freed-Keeps s phys = elim (Bool-cases (phys == 0)) [
  | inl z ↦ rw z (Keeps-refl s)
  | inr nz ↦
      simp nz (record { valid = λ v. pfree-IsValid s.pmm v phys; next_virt = refl; cr3 = refl })
]

vfrees_loop-Keeps :
    (left i virt_addr pml4 : ℕ) (s : Vmm) → Keeps s (vfrees_loop left i virt_addr pml4 s)
unfolding vfrees_loop
vfrees_loop-Keeps zero i virt_addr pml4 s = Keeps-refl s
vfrees_loop-Keeps (suc left) i virt_addr pml4 s =
    let r = unmap_page (u64 (virt_addr + i * page_size)) pml4 s in
    Keeps-trans (unmap_page-Keeps (u64 (virt_addr + i * page_size)) pml4 s)
      (Keeps-trans (freed-Keeps r.1 r.0) (vfrees_loop-Keeps left (i + 1) virt_addr pml4 _))

-- `vfrees` of any range keeps the counter of free pages right, whether or not the range is mapped,
-- and gives no address back: the next range that `vallocs` gives does not depend on it.
pub vfrees-Keeps : (virt_addr count : ℕ) (s : Vmm) → Keeps s (vfrees virt_addr count s)
unfolding vfrees
vfrees-Keeps virt_addr count s = elim (Bool-cases (count == 0)) [
  | inl z ↦ rw z (Keeps-refl s)
  | inr nz ↦ rw nz (vfrees_loop-Keeps count 0 virt_addr (bit_and s.cr3 pte_addr_mask) s)
]

erased-Keeps :
    (s : Vmm) (erase : Bool) (virt phys : ℕ) → Keeps s (if erase then erase_page virt phys s else s)
erased-Keeps s true virt phys = record { valid = λ v. v; next_virt = refl; cr3 = refl }
erased-Keeps s false virt phys = Keeps-refl s

Holds-if :
    {A : Type 0} (P : A → Type 0) (b : Bool) (x y : Boot A)
    → Holds P x
    → Holds P y
    → Holds P (if b then x else y)
Holds-if P true x y h g = h
Holds-if P false x y h g = g

pub Holds-map :
    {A : Type 0} (P Q : A → Type 0) (r : Boot A) → Holds P r → ((a : A) → P a → Q a) → Holds Q r
Holds-map P Q panic h f = tt
Holds-map P Q (running a) h f = f a h

vallocs_loop-Keeps :
    (left i start : ℕ) (erase : Bool) (pml4 : ℕ) (s : Vmm)
    → Holds (λ (r : Bool × Vmm). Keeps s r.1) (vallocs_loop left i start erase pml4 s)
unfolding vallocs_loop
vallocs_loop-Keeps zero i start erase pml4 s = Keeps-refl s
vallocs_loop-Keeps (suc left) i start erase pml4 s =
    let phys = (palloc s.pmm).0 in
    let s₁ = record s { pmm = (palloc s.pmm).1 } in
    let virt = u64 (start + i * page_size) in
    let taken : Keeps s s₁ = record {
      valid = λ v. palloc-IsValid s.pmm v;
      next_virt = refl;
      cr3 = refl;
    } in
    Holds-if (λ (r : Bool × Vmm). Keeps s r.1) (phys == 0) (running (false, vfrees start i s₁)) _
      (Keeps-trans taken (vfrees-Keeps start i s₁))
      (and_then-Holds (Keeps s₁) (λ (r : Bool × Vmm). Keeps s r.1) (map_page phys virt pml4 s₁) _
        (map_page-Keeps phys virt pml4 s₁)
        (λ s₂ k.
          let s₃ = if erase then erase_page virt phys s₂ else s₂ in
          Holds-map (λ (r : Bool × Vmm). Keeps s₃ r.1) (λ (r : Bool × Vmm). Keeps s r.1)
            (vallocs_loop left (i + 1) start erase pml4 s₃)
            (vallocs_loop-Keeps left (i + 1) start erase pml4 s₃)
            (λ r l.
              Keeps-trans taken (Keeps-trans k (Keeps-trans (erased-Keeps s₂ erase virt phys) l)))))

-- What `vallocs` gives: the range at `next_virt`, which moves behind it, or 0 and no move.
pub record Given (count : ℕ) (s : Vmm) (r : ℕ × Vmm) : Type 0 where
  pub valid : IsValid s.pmm → IsValid r.1.pmm
  pub cr3 : r.1.cr3 ≡ s.cr3
  pub range :
      ((r.0 ≡ 0) × (r.1.next_virt ≡ s.next_virt))
      ⊎ ((r.0 ≡ s.next_virt) × (r.1.next_virt ≡ u64 (s.next_virt + count * page_size)))

-- Unless it panics, `vallocs` keeps the bitmap and the counter of free pages in step and CR3 as it
-- is, on every branch; and it gives 0 and does not move `next_virt`, or gives `next_virt` and moves
-- it by the pages asked for.
pub vallocs-Given :
    (erase : Bool) (count : ℕ) (s : Vmm) → Holds (Given count s) (vallocs erase count s)
unfolding vallocs
vallocs-Given erase count s =
    let pml4 = bit_and s.cr3 pte_addr_mask in
    Holds-if (Given count s) (count == 0) (running (0, s)) _
      (record { valid = λ v. v; cr3 = refl; range = inl (refl, refl) })
      (and_then-Holds (λ (r : Bool × Vmm). Keeps s r.1) (Given count s)
        (vallocs_loop count 0 s.next_virt erase pml4 s) _
        (vallocs_loop-Keeps count 0 s.next_virt erase pml4 s)
        (λ (done, s₁) k.
          Holds-if (Given count s) done _ _
            (record {
              valid = k.valid;
              cr3 = k.cr3;
              range = inr (refl, ap (λ n. u64 (n + count * page_size)) k.next_virt);
            })
            (record { valid = k.valid; cr3 = k.cr3; range = inl (refl, k.next_virt) })))

of_run : {A : Type 0} (P : A → Type 0) (r : Boot A) (a : A) → Holds P r → r ≡ running a → P a
of_run P r a h e = subst (Holds P) e h

-- The ranges of two successful calls of `vallocs` lie side by side, up to the end of the word,
-- whatever range has been given back between them: a freed range is not used again.
pub vallocs-vallocs :
    (erase erase' : Bool) (n n' virt k a b : ℕ) (s t u : Vmm)
    → vallocs erase n s ≡ running (a, t)
    → a ≢ 0
    → vallocs erase' n' (vfrees virt k t) ≡ running (b, u)
    → b ≢ 0
    → b ≡ u64 (a + n * page_size)
vallocs-vallocs erase erase' n n' virt k a b s t u first nz second nz' =
    follow (of_run (Given n s) _ (a, t) (vallocs-Given erase n s) first).range
      (of_run (Given n' (vfrees virt k t)) _ (b, u) (vallocs-Given erase' n' (vfrees virt k t))
        second).range
      (vfrees-Keeps virt k t).next_virt
  where
    follow :
        ((a ≡ 0) × (t.next_virt ≡ s.next_virt))
          ⊎ ((a ≡ s.next_virt) × (t.next_virt ≡ u64 (s.next_virt + n * page_size)))
        → ((b ≡ 0) × (u.next_virt ≡ (vfrees virt k t).next_virt))
          ⊎ ((b ≡ (vfrees virt k t).next_virt)
              × (u.next_virt ≡ u64 ((vfrees virt k t).next_virt + n' * page_size)))
        → (vfrees virt k t).next_virt ≡ t.next_virt
        → b ≡ u64 (a + n * page_size)
    follow (inl (z, e)) g same = absurd (nz z)
    follow (inr (at, e)) (inl (z, e')) same = absurd (nz' z)
    follow (inr (at, e)) (inr (at', e')) same =
        at' ∙ (same ∙ (e ∙ ap (λ v. u64 (v + n * page_size)) (sym at)))

map_range_loop-Keeps :
    (left off phys_page virt_page pml4 : ℕ) (s : Vmm)
    → Holds (Keeps s) (map_range_loop left off phys_page virt_page pml4 s)
unfolding map_range_loop
map_range_loop-Keeps zero off phys_page virt_page pml4 s = Keeps-refl s
map_range_loop-Keeps (suc left) off phys_page virt_page pml4 s =
    and_then-Holds (Keeps s) (Keeps s)
      (map_page (u64 (phys_page + off)) (u64 (virt_page + off)) pml4 s) _
      (map_page-Keeps _ _ pml4 s)
      (λ s₁ k.
        Holds-map (Keeps s₁) (Keeps s)
          (map_range_loop left (off + page_size) phys_page virt_page pml4 s₁)
          (map_range_loop-Keeps left (off + page_size) phys_page virt_page pml4 s₁)
          (λ t l. Keeps-trans k l))

-- Unless it panics, `map_range` keeps the bitmap and the counter of free pages in step, and moves
-- neither `next_virt` nor CR3.
pub map_range-Keeps :
    (phys virt size pml4 : ℕ) (s : Vmm) → Holds (Keeps s) (map_range phys virt size pml4 s)
unfolding map_range
map_range-Keeps phys virt size pml4 s = map_range_loop-Keeps _ 0 _ _ pml4 s
