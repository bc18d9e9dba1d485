-- ===== src/Kmalloc/Kernel.antt =====
-- `kmalloc` over the virtual memory manager of kernel/arch/x86_64/mm/vmm.c.
use archa_os.Base.{ℕ, ◌+◌, ◌*◌, ◌/◌, ◌%◌, ◌^◌, ◌≤◌, ◌<◌, ◌≡◌, true, arith, inl, inr}
use archa_os.Mm.Pmm.{Boot, running, panic}
use archa_os.Mm.Vmm.{Vmm, vallocs, vfrees}
use archa_os.Mm.Vmm.Pages.{Holds, Given, vallocs-Given}
use archa_os.Kmalloc.{Heap, Vm, page_size, kmalloc}
use archa_os.Kmalloc.Blocks.{Blocks, IsHeap}
use archa_os.Kmalloc.Alloc.{IsUsable, needed}
use archa_os.Kmalloc.Serve.{kmalloc-Ends, Ends, growth}

abbrev pub kernel_vm : Vm
kernel_vm = record { State = Vmm; vallocs = vallocs; vfrees = vfrees }

-- The range that `vallocs` gives starts at `next_virt`.
Given-IsUsable :
    (pages : ℕ) (v : Vmm) (r : Boot (ℕ × Vmm))
    → v.next_virt % page_size ≡ 0
    → v.next_virt + pages * page_size < 2 ^ 64
    → Holds (Given pages v) r
    → IsUsable pages r
Given-IsUsable pages v panic page room g = tt
Given-IsUsable pages v (running (address, v')) page room g = elim g.range [
  | inl (z, moved) ↦ inl z
  | inr (at, moved) ↦ inr (rw at (page, room))
]

-- On a heap whose headers describe a list of blocks, when the next range of `vallocs` starts on a page
-- and the pages that the heap would ask for end below 2^64, `kmalloc` of a size that does not come
-- within two pages of 2^64 ends. Either it returns a new block: aligned to 16, large enough, taken
-- from no caller, in a heap that is again a list of blocks, in which every block that was in use
-- stands as it was. Or it returns NULL with the heap unchanged, and then the size is 0, or no block
-- fits and `vallocs` gave no pages or pages that do not continue the heap. Or no block fits and
-- `vallocs` panics.
pub kmalloc-vallocs :
    (h : Heap) (bs : Blocks) (is : IsHeap h bs) (size : ℕ) (v : Vmm)
    → size + 0x2000 ≤ 2 ^ 64
    → v.next_virt % page_size ≡ 0
    → v.next_virt + growth (needed size) < 2 ^ 64
    → Ends kernel_vm h bs is size v (kmalloc kernel_vm size h v)
kmalloc-vallocs h bs is size v small page room =
    let pages = growth (needed size) / page_size in
    kmalloc-Ends kernel_vm h bs is size v small (
      Given-IsUsable pages v (vallocs true pages v) page (omega arith) (vallocs-Given true pages v))
