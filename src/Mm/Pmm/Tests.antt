-- ===== src/Mm/Pmm/Tests.antt =====
-- Runs of the model of pmm.c on a bitmap of eight pages, and on a map of two regions.
use archa_os.Base.{
  ◌≡◌, ◌≢◌, refl, true, arith, ◌==◌, if◌then◌else◌, ◌↔◌, test_bit, set_bit, count_below,
}
use archa_os.Mm.Pmm.{
  Pmm, page_used, mark_used, palloc, pfree, scan_bytes, scan_bits, measure_loop, hunt_loop,
  measured, placed, MemMap, init_pmm, running, panic,
}
use archa_os.Mm.Pmm.Marks.{IsValid}
use archa_os.Mm.Pmm.Scan.{Outcome}
use archa_os.Mm.Pmm.Alloc.{palloc-Outcome, palloc-IsValid, pfree-IsValid, pfree-palloc, Restores}
use archa_os.Mm.Pmm.Init.{InRange}
use archa_os.Mm.Pmm.Hunt.{NoneSuits}
use archa_os.Mm.Pmm.Startup.{Initialised, init_pmm-panic_iff, init_pmm-Initialised, sized}

-- Pages 2 and 3 are free.
abbrev pub eight_pages : Pmm
eight_pages = record {
  sizeof_bitmap = 1;
  max_pages = 8;
  bitmap = λ i. 0xF3;
  bitmap_addr = 0x4000;
  bitmap_init = true;
  free_pages = 2;
  total_pages = 8;
  total_ram_pages = 8;
  total_memory = 0x8000;
  total_usable_memory = 0x8000;
  max_physical_address = 0x8000;
}

eight_pages-IsValid : IsValid eight_pages
unfolding page_used test_bit count_below
eight_pages-IsValid = record {
  bytes = λ i h. omega arith;
  covers = omega arith;
  bounded = omega arith;
  counted = refl;
}

first_page : palloc eight_pages ≡ (0x2000, mark_used eight_pages 2)
unfolding palloc scan_bytes scan_bits test_bit
first_page = refl

palloc-Outcome_example : Outcome eight_pages (palloc eight_pages)
palloc-Outcome_example = palloc-Outcome eight_pages eight_pages-IsValid refl

palloc-IsValid_example : IsValid (palloc eight_pages).1
palloc-IsValid_example = palloc-IsValid eight_pages eight_pages-IsValid

pfree-IsValid_example : IsValid (pfree 0x4000 eight_pages)
pfree-IsValid_example = pfree-IsValid eight_pages eight_pages-IsValid 0x4000

first_nonzero : (palloc eight_pages).0 ≢ 0
unfolding palloc scan_bytes scan_bits test_bit
first_nonzero = omega arith

pfree-palloc_example : Restores eight_pages eight_pages-IsValid (palloc eight_pages)
pfree-palloc_example = pfree-palloc eight_pages eight_pages-IsValid refl first_nonzero

page_zero_used : page_used eight_pages 0 ≡ true
unfolding page_used test_bit
page_zero_used = refl

second_nonzero : (palloc (palloc eight_pages).1).0 ≢ 0
unfolding palloc scan_bytes scan_bits mark_used page_used test_bit set_bit
second_nonzero = omega arith

-- Eight conventional pages at 0, and sixteen at 0x100000, in descriptors of 48 bytes.
abbrev two_regions : MemMap
two_regions a =
    if a == 0x500
    then record {
      kind = 7;
      physical_start = 0;
      virtual_start = 0;
      number_of_pages = 8;
      attribute = 15;
    }
    else record {
      kind = 7;
      physical_start = 0x100000;
      virtual_start = 0;
      number_of_pages = 16;
      attribute = 15;
    }

two_regions-InRange : InRange two_regions 0x500 48 2
two_regions-InRange = record { starts = λ i h. ground arith; sizes = λ i h. ground arith }

init_pmm-panic_iff_example :
    (init_pmm two_regions 0x500 96 48 eight_pages ≡ panic)
    ↔ NoneSuits two_regions 0x500 48 2 0 (sized two_regions 0x500 96 48 eight_pages).sizeof_bitmap
init_pmm-panic_iff_example = init_pmm-panic_iff two_regions 0x500 96 48 eight_pages

-- The bitmap of 272 pages goes into the second region.
abbrev booted : Pmm
booted = placed two_regions 0x500 96 48 (sized two_regions 0x500 96 48 eight_pages) 0x100000

boots : init_pmm two_regions 0x500 96 48 eight_pages ≡ running booted
unfolding init_pmm hunt_loop measured measure_loop
boots = refl

init_pmm-Initialised_example : Initialised two_regions 0x500 96 48 booted
init_pmm-Initialised_example =
    init_pmm-Initialised two_regions 0x500 96 48 eight_pages two_regions-InRange boots
