-- ===== src/Mm/Vmm/Tests.antt =====
-- Runs of the model of vmm.c with six free pages and one empty table at 0.
use archa_os.Base.{
  arith, inl, count_below, ℕ, ◌+◌, ◌≡◌, refl, true, false, test_bit, set_bit, clear_bit,
}
use archa_os.Mm.Pmm.{
  palloc, pfree, mark_free, scan_bytes, scan_bits, mark_used, page_used, Boot, running, panic,
}
use archa_os.Mm.Pmm.Tests.{eight_pages}
use archa_os.Mm.Vmm.{
  Vmm, vallocs, vallocs_loop, vfrees, vfrees_loop, unmap_page, map_page, next_table, map_range,
  pml4_index, pdpt_index, pd_index, pt_index, kheap_base, page_table_ptr, get_virt_addr,
}
use archa_os.Mm.Vmm.Walks.{IsReady, Walkable}
use archa_os.Mm.Vmm.Enough.{HasPages}
use archa_os.Mm.Vmm.Mapped.{map_page-unmap_page, IsMapped, way}
use archa_os.Mm.Vmm.Pages.{Holds, Keeps, vfrees-Keeps, map_range-Keeps}

abbrev small_machine : Vmm
small_machine = record {
  pmm = record eight_pages { bitmap = λ i. 0x03; free_pages = 6 };
  word = λ a. 0;
  next_virt = kheap_base;
  cr3 = 0;
  virtual_mem_initialized = true;
}

small_machine-IsReady : IsReady small_machine
unfolding page_used test_bit count_below
small_machine-IsReady = record {
  valid = record {
    bytes = λ i h. omega arith;
    covers = omega arith;
    bounded = omega arith;
    counted = refl;
  };
  on = refl;
  small = omega arith;
}

small_machine-HasPages : HasPages 3 small_machine
unfolding page_used test_bit
small_machine-HasPages = record {
  ready = small_machine-IsReady;
  reserved = refl;
  enough = omega arith;
}

empty_tables : Walkable small_machine (λ a. ⊥) 0 (way kheap_base)
unfolding page_used test_bit
empty_tables = (
  record { is_page = record { page = refl; small = omega arith }; in_use = refl },
  (λ none. none, inl refl),
)

map_page-unmap_page_example :
    (s' : Vmm) × ((map_page 0x5000 kheap_base 0 small_machine ≡ running s')
      × IsMapped 0x5000 kheap_base 0 s')
map_page-unmap_page_example =
    map_page-unmap_page 0x5000 kheap_base 0 small_machine small_machine-HasPages empty_tables

vfrees-Keeps_example : Keeps small_machine (vfrees kheap_base 2 small_machine)
vfrees-Keeps_example = vfrees-Keeps kheap_base 2 small_machine

map_range-Keeps_example :
    Holds (Keeps small_machine) (map_range 0x5000 0x5000 0x1000 0 small_machine)
map_range-Keeps_example = map_range-Keeps 0x5000 0x5000 0x1000 0 small_machine

abbrev ended : Boot (ℕ × Vmm) → ℕ × Vmm
ended panic = (0, small_machine)
ended (running r) = r

abbrev one_range : Vmm
one_range = (ended (vallocs false 1 small_machine)).1

first_range : vallocs false 1 small_machine ≡ running (kheap_base, one_range)
unfolding vallocs vallocs_loop map_page next_table palloc scan_bytes scan_bits mark_used page_used
    test_bit set_bit pml4_index pdpt_index pd_index pt_index page_table_ptr get_virt_addr
first_range = refl

abbrev freed_range : Vmm
freed_range = vfrees kheap_base 1 one_range

abbrev two_ranges : Vmm
two_ranges = (ended (vallocs false 1 freed_range)).1

second_range : vallocs false 1 freed_range ≡ running (kheap_base + 0x1000, two_ranges)
unfolding vallocs vallocs_loop map_page next_table palloc scan_bytes scan_bits mark_used page_used
    test_bit set_bit pml4_index pdpt_index pd_index pt_index vfrees vfrees_loop unmap_page pfree
    mark_free clear_bit page_table_ptr get_virt_addr
second_range = refl
