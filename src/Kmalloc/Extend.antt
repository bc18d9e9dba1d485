-- ===== src/Kmalloc/Extend.antt =====
-- The heap after it has been founded or extended, as a list of blocks.
use archa_os.Base.{ℕ, ◌+◌, ◌%◌, ◌^◌, ◌≤◌, ◌<◌, ◌≡◌, ◌≢◌, refl, arith, [], ◌∷◌, sym, ◌∙◌}
use archa_os.Kmalloc.{
  Heap, header, alignment, page_size, extend_heap, found_heap, kmerge_next, absorb, set_prev,
}
use archa_os.Kmalloc.Blocks.{Block, Blocks, last_of, IsHeap}
use archa_os.Kmalloc.Grow.{grow_blocks, grow-Chain, link-grow_blocks}

module _ (h : Heap) (address bytes : ℕ) (fits : address + bytes < 2 ^ 64) (room : header ≤ bytes)
    (aligned : bytes % page_size ≡ 0) (page : address % page_size ≡ 0) (nz : address ≢ 0) where
  pub found_heap-IsHeap : IsHeap (found_heap address bytes h) (grow_blocks bytes [])
  unfolding found_heap
  found_heap-IsHeap = record {
    head = refl;
    chain = (
      record {
        state = ground arith;
        length = ground arith;
        next = ground arith;
        prev = ground arith;
        room = room;
        aligned = omega (arith, aligned);
      },
      omega (arith, fits),
    );
    start = omega (arith, page);
    nonzero = λ _. omega (arith, page, nz);
    fits = omega arith;
  }

module _ (h : Heap) (last address bytes : ℕ) where
  pub extend_start : (extend_heap last address bytes h).heap_start ≡ h.heap_start
  unfolding extend_heap kmerge_next absorb set_prev
  extend_start = ground arith

  pub extend_head : (extend_heap last address bytes h).head ≡ h.head
  unfolding extend_heap kmerge_next absorb set_prev
  extend_head = ground arith

  pub extend_end :
      h.heap_end + bytes < 2 ^ 64 → (extend_heap last address bytes h).heap_end ≡ h.heap_end + bytes
  unfolding extend_heap kmerge_next absorb set_prev
  extend_end fits = ground arith

-- A heap with blocks, and pages right behind it.
pub extend_heap-IsHeap :
    (h : Heap) (b : Block) (bs : Blocks) (bytes : ℕ)
    → IsHeap h (b ∷ bs)
    → h.heap_end + bytes < 2 ^ 64
    → header ≤ bytes
    → bytes % alignment ≡ 0
    → IsHeap
        (extend_heap (last_of h.heap_start (b ∷ bs)) h.heap_end bytes h)
        (grow_blocks bytes (b ∷ bs))
extend_heap-IsHeap h b bs bytes is fits room aligned =
    let last = last_of h.heap_start (b ∷ bs) in
    let pos = is.nonzero (λ z. cc) in
    let start = extend_start h last h.heap_end bytes in
    record {
      head =
          extend_head h last h.heap_end bytes
          ∙ (is.head ∙ (sym start ∙ sym (link-grow_blocks bytes b bs _)));
      chain =
          rw (start, extend_end h last h.heap_end bytes fits)
            (grow-Chain h h.heap_end bytes fits room aligned 0 h.heap_start b bs is.chain
              (omega (arith, pos)));
      start = rw start is.start;
      nonzero = λ _. rw start pos;
      fits = rw (extend_end h last h.heap_end bytes fits) fits;
    }
