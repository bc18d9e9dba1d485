-- ===== src/Mm/Pmm.antt =====
-- The physical memory manager, kernel/arch/x86_64/mm/pmm.c. The file's globals are one record. The
-- bitmap is the bytes behind the pointer `bitmap`, by index; no other code writes them.
pub mod Marks
pub mod Scan
pub mod Alloc
pub mod Measure
pub mod Startup
pub mod Hunt
pub mod Init
pub mod Tests
use archa_os.Base.{
  ℕ, zero, suc, ◌+◌, ◌-◌, ◌*◌, ◌/◌, ◌%◌, ◌^◌, Bool, true, false, Option, none, some, ◌==◌, ltb, leb,
  if◌then◌else◌, not, ◌&&◌, ◌||◌, test_bit, set_bit, clear_bit,
}

abbrev pub page_size : ℕ
page_size = 0x1000

abbrev pub u64 : ℕ → ℕ
u64 n = n % 2 ^ 64

pub record Pmm : Type 0 where
  pub sizeof_bitmap : ℕ
  pub max_pages : ℕ
  pub bitmap : ℕ → ℕ
  pub bitmap_addr : ℕ
  pub bitmap_init : Bool
  pub free_pages : ℕ
  pub total_pages : ℕ
  pub total_ram_pages : ℕ
  pub total_memory : ℕ
  pub total_usable_memory : ℕ
  pub max_physical_address : ℕ

-- `bitmap[i] = v`.
abbrev pub store_byte : (ℕ → ℕ) → ℕ → ℕ → ℕ → ℕ
store_byte m i v j = if j == i then v else m j

unfoldable pub page_used : Pmm → ℕ → Bool
page_used s page = if leb s.max_pages page then true else test_bit (s.bitmap (page / 8)) (page % 8)

unfoldable pub mark_used : Pmm → ℕ → Pmm
mark_used s page = if leb s.max_pages page then s else if page_used s page then s else record s {
  bitmap = store_byte s.bitmap (page / 8) (set_bit (s.bitmap (page / 8)) (page % 8));
  free_pages = u64 (s.free_pages + (2 ^ 64 - 1));
}

unfoldable pub mark_free : Pmm → ℕ → Pmm
mark_free s page =
    if leb s.max_pages page
    then s
    else if page_used s page
    then record s {
      bitmap = store_byte s.bitmap (page / 8) (clear_bit (s.bitmap (page / 8)) (page % 8));
      free_pages = u64 (s.free_pages + 1);
    }
    else s

-- `for (; i < pages; i++) mark_used(start + i)`, with the rounds that are left.
unfoldable pub mark_used_loop : ℕ → ℕ → ℕ → Pmm → Pmm
mark_used_loop zero start i s = s
mark_used_loop (suc left) start i s =
    mark_used_loop left start (i + 1) (mark_used s (u64 (start + i)))

unfoldable pub mark_free_loop : ℕ → ℕ → ℕ → Pmm → Pmm
mark_free_loop zero start i s = s
mark_free_loop (suc left) start i s =
    mark_free_loop left start (i + 1) (mark_free s (u64 (start + i)))

unfoldable pub reserve_region : ℕ → ℕ → Pmm → Pmm
reserve_region base length s =
    let start = base / page_size in
    let pages = u64 (length + (page_size - 1)) / page_size in mark_used_loop pages start 0 s

-- The inner loop of `palloc` from bit `bit` on: `some` is a `return` out of both loops.
unfoldable pub scan_bits : ℕ → ℕ → ℕ → Pmm → Option (ℕ × Pmm)
scan_bits zero byte bit s = none
scan_bits (suc left) byte bit s =
    let rest = scan_bits left byte (bit + 1) s in
    let page = byte * 8 + bit in
    if test_bit (s.bitmap byte) bit
    then rest
    else some (if leb s.max_pages page then (0, s) else (u64 (page * page_size), mark_used s page))

-- The outer loop from byte `byte` on.
unfoldable pub scan_bytes : ℕ → ℕ → Pmm → ℕ × Pmm
scan_bytes zero byte s = (0, s)
scan_bytes (suc left) byte s =
    let rest = scan_bytes left (byte + 1) s in
    if s.bitmap byte == 0xFF then rest else elim (scan_bits 8 byte 0 s) [ none ↦ rest | some r ↦ r ]

-- The address of a page that was free, or 0.
unfoldable pub palloc : Pmm → ℕ × Pmm
palloc s = if not s.bitmap_init then (0, s) else scan_bytes s.sizeof_bitmap 0 s

unfoldable pub pfree : ℕ → Pmm → Pmm
pfree address s = mark_free s (address / page_size)

-- `EFI_MEMORY_DESCRIPTOR`; `kind` is its `Type`.
pub record Descriptor : Type 0 where
  pub kind : ℕ
  pub physical_start : ℕ
  pub virtual_start : ℕ
  pub number_of_pages : ℕ
  pub attribute : ℕ

abbrev pub conventional : ℕ
conventional = 7

-- The labels of the `switch` that counts RAM: loader and boot services 1 to 4, runtime services
-- 5 and 6, conventional 7, ACPI 9 and 10.
abbrev pub counts_as_ram : ℕ → Bool
counts_as_ram k = (leb 1 k && leb k 7) || (k == 9) || (k == 10)

-- What stands at each address that the map is read at.
abbrev pub MemMap : Type 0
MemMap = ℕ → Descriptor

module _ (memory : MemMap) (mem_map descriptor_size : ℕ) where
  abbrev pub desc : ℕ → Descriptor
  desc i = memory (u64 (mem_map + i * descriptor_size))

  -- The first loop: the highest address and the number of pages.
  unfoldable pub measure_loop : ℕ → ℕ → Pmm → Pmm
  measure_loop zero i s = s
  measure_loop (suc left) i s = measure_loop left (i + 1) (
      let d = desc i in
      let finish = u64 (d.physical_start + d.number_of_pages * page_size) in
      if d.kind == conventional
      then record s {
        max_physical_address =
            if ltb s.max_physical_address finish then finish else s.max_physical_address;
        total_pages = u64 (s.total_pages + d.number_of_pages);
        total_ram_pages =
            if counts_as_ram d.kind
            then u64 (s.total_ram_pages + d.number_of_pages)
            else s.total_ram_pages;
      }
      else s)

  -- The second loop: a region that the bitmap fits in. `addr` is `bitmap_addr`.
  unfoldable pub hunt_loop : ℕ → ℕ → ℕ → ℕ → ℕ
  hunt_loop zero i size addr = addr
  hunt_loop (suc left) i size addr = hunt_loop left (i + 1) size (
      let d = desc i in
      if not (d.kind == conventional)
      then addr
      else if leb size (u64 (d.number_of_pages * page_size)) && (addr == 0)
      then d.physical_start
      else addr)

  -- The third loop: the pages of each conventional region become free.
  unfoldable pub release_loop : ℕ → ℕ → Pmm → Pmm
  release_loop zero i s = s
  release_loop (suc left) i s = release_loop left (i + 1) (
      let d = desc i in
      if d.kind == conventional
      then mark_free_loop d.number_of_pages (d.physical_start / page_size) 0 s
      else s)

-- `kernel_panic` does not return.
pub data Boot {ℓ} (A : Type ℓ) : Type ℓ where
  running : A → Boot A
  panic : Boot A

-- `memset(bitmap, 0xFF, sizeof_bitmap)`.
abbrev pub fill : ℕ → (ℕ → ℕ) → ℕ → ℕ
fill size m i = if ltb i size then 0xFF else m i

-- `bitmap_addr` and the `memset`.
unfoldable pub cleared : Pmm → ℕ → Pmm
cleared s addr = record s { bitmap_addr = addr; bitmap = fill s.sizeof_bitmap s.bitmap }

unfoldable pub totals : Pmm → Pmm
totals s = record s {
  total_usable_memory = u64 (s.total_pages * page_size);
  total_memory = u64 (s.total_ram_pages * page_size);
}

-- The reservations at the end: page 0, and the pages of the bitmap itself.
unfoldable pub reserved : Pmm → Pmm
reserved s =
    let start = s.bitmap_addr / page_size in
    let pages = (s.sizeof_bitmap + page_size - 1) / page_size in
    mark_used_loop pages start 0 (mark_used s 0)

module _ (memory : MemMap) (mem_map mem_map_size descriptor_size : ℕ) where
  -- The counters reset and the first loop, then the two sizes.
  unfoldable pub measured : Pmm → Pmm
  measured s =
      let s₁ =
        measure_loop memory mem_map descriptor_size (mem_map_size / descriptor_size) 0 (record s {
          free_pages = 0;
          total_pages = 0;
          total_ram_pages = 0;
          max_physical_address = 0;
        }) in
      let pages = s₁.max_physical_address / page_size in
      record s₁ { max_pages = pages; sizeof_bitmap = (pages + 7) / 8 }

  -- The body after the second loop. `total_usable_memory` and `total_memory` are set in `totals`.
  unfoldable pub placed : Pmm → ℕ → Pmm
  placed s addr =
      let t = reserved (
        totals (
          release_loop memory mem_map descriptor_size (mem_map_size / descriptor_size) 0
            (cleared s addr))) in
      record t { bitmap_init = true }

  unfoldable pub init_pmm : Pmm → Boot Pmm
  init_pmm s =
      let s₁ = measured s in
      let addr =
        hunt_loop memory mem_map descriptor_size (mem_map_size / descriptor_size) 0 s₁.sizeof_bitmap
          0 in
      if addr == 0 then panic else running (placed s₁ addr)
