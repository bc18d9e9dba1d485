-- ===== src/Mm/Vmm.antt =====
-- The virtual memory manager, kernel/arch/x86_64/mm/vmm.c, without init_vmm. Memory is 64-bit words
-- by the pointer that the code reads and writes through. Page tables are reached through the pointers
-- of `page_table_ptr`: before the switch of page tables memory is mapped 1:1, after it through the
-- window at PASSTHRU_BASE. The flush of a translation changes nothing that the code reads.
pub mod Pages
pub mod Entries
pub mod Walks
pub mod Grown
pub mod Descend
pub mod Enough
pub mod Mapped
pub mod Tests
use archa_os.Base.{
  ℕ, zero, suc, ◌+◌, ◌-◌, ◌*◌, ◌/◌, ◌%◌, ◌^◌, Bool, true, false, ◌==◌, ltb, leb, if◌then◌else◌, not,
  ◌&&◌, bit_and, bit_or,
}
use archa_os.Mm.Pmm.{Pmm, palloc, pfree, page_size, Boot, running, panic, u64}

abbrev pub pte_present : ℕ
pte_present = 1

abbrev pub pte_rw : ℕ
pte_rw = 2

abbrev pub pte_addr_mask : ℕ
pte_addr_mask = 0x000FFFFFFFFFF000

abbrev pub kheap_base : ℕ
kheap_base = 0xFFFFFFFE00000000

abbrev pub passthru_base : ℕ
passthru_base = 0xFFFFFFFF80000000

-- The globals, the page tables, and the register CR3.
pub record Vmm : Type 0 where
  pub pmm : Pmm
  pub word : ℕ → ℕ
  pub next_virt : ℕ
  pub cr3 : ℕ
  pub virtual_mem_initialized : Bool

unfoldable pub get_virt_addr : ℕ → ℕ
get_virt_addr phys = u64 (phys + passthru_base)

unfoldable pub page_table_ptr : Vmm → ℕ → ℕ
page_table_ptr s phys = if not s.virtual_mem_initialized then phys else get_virt_addr phys

unfoldable pub pml4_index : ℕ → ℕ
pml4_index v = bit_and (v / 2 ^ 39) 0x1FF

unfoldable pub pdpt_index : ℕ → ℕ
pdpt_index v = bit_and (v / 2 ^ 30) 0x1FF

unfoldable pub pd_index : ℕ → ℕ
pd_index v = bit_and (v / 2 ^ 21) 0x1FF

unfoldable pub pt_index : ℕ → ℕ
pt_index v = bit_and (v / 2 ^ 12) 0x1FF

-- The pointer `&table[index]`, for the table at a physical address.
abbrev pub slot : Vmm → ℕ → ℕ → ℕ
slot s table index = u64 (page_table_ptr s table + 8 * index)

abbrev pub entry : Vmm → ℕ → ℕ → ℕ
entry s table index = s.word (slot s table index)

abbrev pub set_entry : ℕ → ℕ → ℕ → Vmm → Vmm
set_entry table index value s = record s {
  word = λ a. if a == slot s table index then value else s.word a;
}

abbrev pub present : ℕ → Bool
present e = not (bit_and e pte_present == 0)

abbrev pub make_entry : ℕ → ℕ
make_entry phys = bit_or (bit_or (bit_and phys pte_addr_mask) pte_present) pte_rw

-- `memset(pointer, 0, PAGE_SIZE)`; the words are those that lie at most a page behind the pointer.
abbrev pub clear_at : ℕ → Vmm → Vmm
clear_at pointer s = record s {
  word = λ a. if ltb (u64 (a + (2 ^ 64 - pointer))) page_size then 0 else s.word a;
}

abbrev pub clear_page : ℕ → Vmm → Vmm
clear_page phys s = clear_at (page_table_ptr s phys) s

-- `memset(virt, 0, PAGE_SIZE)` where `virt` has just been mapped to the page `phys`: both pointers
-- to the page read the zeroes.
abbrev pub erase_page : ℕ → ℕ → Vmm → Vmm
erase_page virt phys s = clear_at virt (clear_page phys s)

-- One level of the walk in `map_page`: the table that entry `index` leads to, made if there is none.
unfoldable pub next_table : ℕ → ℕ → Vmm → Boot (ℕ × Vmm)
next_table table index s =
    let (phys, pmm) = palloc s.pmm in
    let made = set_entry table index (make_entry phys) (clear_page phys (record s { pmm = pmm })) in
    if not (present (entry s table index))
    then (if phys == 0
        then panic
        else running (bit_and (entry made table index) pte_addr_mask, made))
    else running (bit_and (entry s table index) pte_addr_mask, s)

-- What follows a level, unless it panicked.
abbrev pub and_then : {A B : Type 0} → Boot A → (A → Boot B) → Boot B
and_then panic f = panic
and_then (running a) f = f a

unfoldable pub map_page : ℕ → ℕ → ℕ → Vmm → Boot Vmm
map_page phys virt pml4 s = and_then (next_table pml4 (pml4_index virt) s) λ (pdpt, s₁).
    and_then (next_table pdpt (pdpt_index virt) s₁) λ (pd, s₂).
      and_then (next_table pd (pd_index virt) s₂)
        λ (pt, s₃). running (set_entry pt (pt_index virt) (make_entry phys) s₃)

unfoldable pub unmap_page : ℕ → ℕ → Vmm → ℕ × Vmm
unmap_page virt pml4 s =
    let e = entry s pml4 (pml4_index virt) in
    let pdpt = bit_and e pte_addr_mask in
    let e' = entry s pdpt (pdpt_index virt) in
    let pd = bit_and e' pte_addr_mask in
    let e'' = entry s pd (pd_index virt) in
    let pt = bit_and e'' pte_addr_mask in
    if not (present e)
    then (0, s)
    else if not (present e')
    then (0, s)
    else if not (present e'')
    then (0, s)
    else (bit_and (entry s pt (pt_index virt)) pte_addr_mask, set_entry pt (pt_index virt) 0 s)

-- The loop of `vfrees` from page `i` on.
unfoldable pub vfrees_loop : ℕ → ℕ → ℕ → ℕ → Vmm → Vmm
vfrees_loop zero i virt_addr pml4 s = s
vfrees_loop (suc left) i virt_addr pml4 s =
    let (phys, s₁) = unmap_page (u64 (virt_addr + i * page_size)) pml4 s in
    vfrees_loop left (i + 1) virt_addr pml4
      (if phys == 0 then s₁ else record s₁ { pmm = pfree phys s₁.pmm })

unfoldable pub vfrees : ℕ → ℕ → Vmm → Vmm
vfrees virt_addr count s =
    if count == 0 then s else vfrees_loop count 0 virt_addr (bit_and s.cr3 pte_addr_mask) s

unfoldable pub vfree : ℕ → Vmm → Vmm
vfree virt_addr s = vfrees virt_addr 1 s

-- The loop of `vallocs` from page `i` on; the result says whether it ran to its end.
unfoldable pub vallocs_loop : ℕ → ℕ → ℕ → Bool → ℕ → Vmm → Boot (Bool × Vmm)
vallocs_loop zero i start erase pml4 s = running (true, s)
vallocs_loop (suc left) i start erase pml4 s =
    let (phys, pmm) = palloc s.pmm in
    let s₁ = record s { pmm = pmm } in
    let virt = u64 (start + i * page_size) in
    let rest = and_then (map_page phys virt pml4 s₁) λ s₂.
      vallocs_loop left (i + 1) start erase pml4 (if erase then erase_page virt phys s₂ else s₂) in
    if phys == 0 then running (false, vfrees start i s₁) else rest

unfoldable pub vallocs : Bool → ℕ → Vmm → Boot (ℕ × Vmm)
vallocs erase count s =
    if count == 0
    then running (0, s)
    else and_then (vallocs_loop count 0 s.next_virt erase (bit_and s.cr3 pte_addr_mask) s)
        λ (done, s₁).
          if done
          then running
              (s.next_virt, record s₁ { next_virt = u64 (s₁.next_virt + count * page_size) })
          else running (0, s₁)

unfoldable pub valloc : Bool → Vmm → Boot (ℕ × Vmm)
valloc erase s = vallocs erase 1 s

-- The loop of `map_range`, by the pages that it maps.
unfoldable pub map_range_loop : ℕ → ℕ → ℕ → ℕ → ℕ → Vmm → Boot Vmm
map_range_loop zero off phys_page virt_page pml4 s = running s
map_range_loop (suc left) off phys_page virt_page pml4 s =
    and_then (map_page (u64 (phys_page + off)) (u64 (virt_page + off)) pml4 s)
      λ s₁. map_range_loop left (off + page_size) phys_page virt_page pml4 s₁

unfoldable pub map_range : ℕ → ℕ → ℕ → ℕ → Vmm → Boot Vmm
map_range phys virt size pml4 s =
    let phys_page = bit_and phys (2 ^ 64 - page_size) in
    let virt_page = bit_and virt (2 ^ 64 - page_size) in
    let mapped_size = u64 (size + (phys - phys_page)) in
    map_range_loop ((mapped_size + page_size - 1) / page_size) 0 phys_page virt_page pml4 s
