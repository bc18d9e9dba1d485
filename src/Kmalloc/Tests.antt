-- ===== src/Kmalloc/Tests.antt =====
-- Runs of the model of kmalloc.c on a heap of one page with three blocks.
use archa_os.Base.{ℕ, ◌≡◌, refl, true, false, arith, ◌==◌, if◌then◌else◌, [], ◌∷◌}
use archa_os.Kmalloc.{Chunk, Heap, kmalloc, kfree, state_free, state_used}
use archa_os.Kmalloc.Blocks.{block, Blocks, IsHeap}
use archa_os.Kmalloc.Serve.{Ends}
use archa_os.Kmalloc.Kernel.{kernel_vm, kmalloc-vallocs}
use archa_os.Mm.Vmm.{Vmm, kheap_base}
use archa_os.Mm.Pmm.Tests.{eight_pages}
use archa_os.Kmalloc.Release.{join, release}
use archa_os.Kmalloc.Returned.{kfree-release, kfree-join, kfree-kfree}

abbrev three_blocks : Blocks
three_blocks = block 64 true ∷ block 64 true ∷ block 0xF80 false ∷ []

abbrev chunk_at : ℕ → Chunk
chunk_at a =
    if a == 0x10000
    then record { state = state_used; length = 64; next = 0x10040; prev = 0 }
    else if a == 0x10040
    then record { state = state_used; length = 64; next = 0x10080; prev = 0x10000 }
    else record { state = state_free; length = 0xF80; next = 0; prev = 0x10040 }

abbrev small_heap : Heap
small_heap = record { head = 0x10000; heap_start = 0x10000; heap_end = 0x11000; chunk = chunk_at }

small_heap-IsHeap : IsHeap small_heap three_blocks
small_heap-IsHeap = record {
  head = refl;
  chain = (
    record {
      state = refl;
      length = refl;
      next = refl;
      prev = refl;
      room = omega arith;
      aligned = refl;
    },
    (
      record {
        state = refl;
        length = refl;
        next = refl;
        prev = refl;
        room = omega arith;
        aligned = refl;
      },
      (
        record {
          state = refl;
          length = refl;
          next = refl;
          prev = refl;
          room = omega arith;
          aligned = refl;
        },
        refl,
      ),
    ),
  );
  start = refl;
  nonzero = λ ne. omega arith;
  fits = omega arith;
}

-- The virtual memory manager before the first range, with six free pages and an empty table at 0.
abbrev machine : Vmm
machine = record {
  pmm = record eight_pages { bitmap = λ i. 0x03; free_pages = 6 };
  word = λ a. 0;
  next_virt = kheap_base;
  cr3 = 0;
  virtual_mem_initialized = true;
}

kmalloc-vallocs_example :
    Ends kernel_vm small_heap three_blocks small_heap-IsHeap 0x2000 machine
      (kmalloc kernel_vm 0x2000 small_heap machine)
kmalloc-vallocs_example =
    kmalloc-vallocs small_heap three_blocks small_heap-IsHeap 0x2000 machine (omega arith) refl
      (omega arith)

kfree-release_example :
    IsHeap
      (kfree 0x10060 small_heap)
      (release (block 64 true) (block 64 true) (block 0xF80 false ∷ []))
kfree-release_example =
    kfree-release small_heap [] (block 64 true) (block 64 true) (block 0xF80 false ∷ [])
      small_heap-IsHeap refl tt

kfree-join_example :
    IsHeap
      (kfree 0x10020 small_heap)
      (join (block 64 false) (block 64 true ∷ block 0xF80 false ∷ []))
kfree-join_example =
    kfree-join small_heap (block 64 true) (block 64 true ∷ block 0xF80 false ∷ []) small_heap-IsHeap
      refl

kfree-kfree_example :
    (kfree 0x10060 (kfree 0x10060 small_heap) ≡ kfree 0x10060 small_heap)
    × IsHeap
        (kfree 0x10060 (kfree 0x10060 small_heap))
        (release (block 64 true) (block 64 true) (block 0xF80 false ∷ []))
kfree-kfree_example =
    kfree-kfree small_heap [] (block 64 true) (block 64 true) (block 0xF80 false ∷ [])
      small_heap-IsHeap refl tt
