-- ===== src/Kmalloc/Alloc.antt =====
-- `kmalloc`: what serving a request means, and the request that a block of the heap serves.
use archa_os.Base.{
  ℕ, ◌+◌, ◌*◌, ◌/◌, ◌%◌, ◌^◌, ◌≤◌, ◌<◌, ◌≡◌, ◌≢◌, refl, true, false, not, ◌&&◌, arith, ◌==◌, leb,
  if◌then◌else◌, inl, inr, ◌⊎◌, Bool-cases, [], ◌∷◌, some, sym, ◌∙◌, ap, ne→==_false, length,
}
use archa_os.Mm.Pmm.{Boot, running, panic}
use archa_os.Kmalloc.{
  Chunk, Heap, header, alignment, page_size, take_chunk, rounds, find_fit, set_prev, ksplit,
}
use archa_os.Kmalloc.Blocks.{
  Block, Blocks, Chain, Chain-total, Chain-length, IsHeap, first_fit, find_fit-first_fit,
}
use archa_os.Kmalloc.Take.{take_blocks}
use archa_os.Kmalloc.Search.{
  block_at, Keeps, take-Chain, take_blocks_found, take_blocks-Keeps, link-take_blocks,
  first_fit_low, locate,
}

-- What the heap relies on: a range that a call of `vallocs` gives starts on a page and does not run
-- over the end of the address space. 0 is no range.
abbrev pub IsUsable : {S : Type 0} → ℕ → Boot (ℕ × S) → Type 0
IsUsable pages panic = Unit
IsUsable pages (running (address, v)) =
    (address ≡ 0) ⊎ ((address % page_size ≡ 0) × (address + pages * page_size < 2 ^ 64))

-- The bytes that a request takes with its header.
abbrev pub needed : ℕ → ℕ
needed size = (size + 15) / 16 * 16 + header

-- `p` is a new block of `size` bytes in `h'`: it was in no caller's hands, and all blocks that were
-- in use stay.
pub record Served (h : Heap) (bs : Blocks) (size p : ℕ) (h' : Heap) : Type 0 where
  pub blocks : Blocks
  pub heap : IsHeap h' blocks
  pub keeps : Keeps h.heap_start bs h'.heap_start blocks
  pub chunk : ℕ
  pub pointer : p ≡ chunk + header
  pub new : Block
  pub found : block_at h'.heap_start blocks chunk ≡ some new
  pub used : new.used ≡ true
  pub large : size + header ≤ new.size
  pub aligned : p % alignment ≡ 0
  pub fresh : (b : Block) → block_at h.heap_start bs chunk ≡ some b → b.used ≡ false

-- The block that the search finds is free, and starts on a multiple of 16.
free_before :
    (m : ℕ → Chunk) (finish required p at : ℕ) (bs : Blocks)
    → Chain m finish p at bs
    → first_fit required at bs ≢ 0
    → (b : Block) → block_at at bs (first_fit required at bs) ≡ some b
    → b.used ≡ false
free_before m finish required p at [] c nz b found = absurd (nz refl)
free_before m finish required p at (b' ∷ bs) (e, c) nz b found =
    elim (Bool-cases (not b'.used && leb required b'.size)) [
      | inl here ↦
          let seen : (if at == at then some b' else block_at (at + b'.size) bs at) ≡ some b =
            simp here at found in
          ground arith
      | inr later ↦
          let nz' : first_fit required (at + b'.size) bs ≢ 0 = simp later at nz in
          let ne : (first_fit required (at + b'.size) bs == at) ≡ false =
            ne→==_false _ _ (omega (arith, first_fit_low required (at + b'.size) bs nz', e.room)) in
          let rest : block_at (at + b'.size) bs (first_fit required (at + b'.size) bs) ≡ some b =
            simp (later, ne) at found in
          free_before m finish required at (at + b'.size) bs c nz' b rest
    ]

fit_aligned :
    (m : ℕ → Chunk) (finish required p at : ℕ) (bs : Blocks)
    → Chain m finish p at bs
    → at % alignment ≡ 0
    → first_fit required at bs % alignment ≡ 0
fit_aligned m finish required p at [] c e = refl
fit_aligned m finish required p at (b ∷ bs) (h, c) e =
    ground
      (arith, fit_aligned m finish required at (at + b.size) bs c (omega (arith, h.aligned, e)))

module _ (h : Heap) (c required : ℕ) where
  take_start : (take_chunk c required h).1.heap_start ≡ h.heap_start
  unfolding take_chunk ksplit set_prev
  take_start = ground arith

  take_end : (take_chunk c required h).1.heap_end ≡ h.heap_end
  unfolding take_chunk ksplit set_prev
  take_end = ground arith

  take_head : (take_chunk c required h).1.head ≡ h.head
  unfolding take_chunk ksplit set_prev
  take_head = ground arith

module _ (h : Heap) (bs : Blocks) (is : IsHeap h bs) where
  pub enough_rounds : length bs < rounds h
  enough_rounds = omega (
    arith,
    Chain-total h.chunk h.heap_end 0 h.heap_start bs is.chain,
    Chain-length h.chunk h.heap_end 0 h.heap_start bs is.chain,
  )

  -- The search of `kmalloc` over the whole heap.
  pub search :
      (required : ℕ)
      → find_fit (rounds h) h.chunk required h.head ≡ some (first_fit required h.heap_start bs)
  search required = go bs is enough_rounds
    where
      go :
          (bs : Blocks)
          → IsHeap h bs
          → length bs < rounds h
          → find_fit (rounds h) h.chunk required h.head ≡ some (first_fit required h.heap_start bs)
      go [] is lt = unfold find_fit in rw is.head
      go (b ∷ bs) is lt =
          let pos = is.nonzero (λ z. cc) in
          rw is.head (
            find_fit-first_fit h.chunk h.heap_end (rounds h) required 0 h.heap_start (b ∷ bs)
              is.chain (omega arith) lt)

  nonempty : (required : ℕ) → first_fit required h.heap_start bs ≢ 0 → bs ≢ []
  nonempty required nz z = nz (ap (first_fit required h.heap_start) z)

  -- Taking the block that was found serves the request.
  pub take_Served :
      (size : ℕ)
      → size + 0x2000 ≤ 2 ^ 64
      → first_fit (needed size) h.heap_start bs ≢ 0
      → let r = take_chunk (first_fit (needed size) h.heap_start bs) (needed size) h in
        Served h bs size r.0 r.1
  take_Served size small nz = record {
    blocks = take_blocks required bs;
    heap = record {
      head =
          rw (take_head h c required, take_start h c required)
            (is.head ∙ sym (link-take_blocks required bs h.heap_start));
      chain = rw (take_end h c required, take_start h c required) chain;
      start = rw (take_start h c required) is.start;
      nonzero = λ _. rw (take_start h c required) low;
      fits = rw (take_end h c required) is.fits;
    };
    keeps =
        rw (take_start h c required)
          (take_blocks-Keeps h.chunk h.heap_end required room 0 h.heap_start bs is.chain);
    chunk = c;
    pointer = pointer;
    new = got.0;
    found = rw (take_start h c required) got.1;
    used = got.2;
    large = omega (arith, got.3);
    aligned = rw pointer (
        omega (arith, fit_aligned h.chunk h.heap_end required 0 h.heap_start bs is.chain is.start));
    fresh = free_before h.chunk h.heap_end required 0 h.heap_start bs is.chain nz;
  }
    where
      required : ℕ
      required = needed size

      room : header ≤ required
      room = omega arith

      c : ℕ
      c = first_fit required h.heap_start bs

      low : page_size ≤ h.heap_start
      low = is.nonzero (nonempty required nz)

      got :
          (b : Block) × (block_at h.heap_start (take_blocks required bs) c ≡ some b)
          × (b.used ≡ true)
          × (required ≤ b.size)
      got = take_blocks_found h.chunk h.heap_end required room 0 h.heap_start bs is.chain nz

      chain :
          Chain
            (take_chunk c required h).1.chunk
            h.heap_end
            0
            h.heap_start
            (take_blocks required bs)
      chain =
          take-Chain h h.heap_end required is.fits room (omega arith) 0 h.heap_start bs is.chain
            (omega (arith, low)) nz

      pointer : (take_chunk c required h).0 ≡ c + header
      pointer =
          let f = locate h h.heap_end required 0 h.heap_start bs is.chain nz in
          let end = Chain-total h.chunk h.heap_end f.before c (f.found ∷ f.after) f.chain in
          unfold take_chunk in omega (arith, end, f.enough, is.fits)
