-- ===== src/Kmalloc/Serve.antt =====
-- The whole of `kmalloc`, growth included.
use archa_os.Base.{
  ℕ, ◌+◌, ◌*◌, ◌/◌, ◌%◌, ◌^◌, ◌≤◌, ◌<◌, ◌≡◌, ◌≢◌, refl, true, false, arith, ◌==◌, ==_iff, ltb,
  if◌then◌else◌, inl, inr, ◌⊎◌, Bool-cases, [], ◌∷◌, Option, some, none, sym, ◌∙◌, ap, ne→==_false,
}
use mathlib.Core.Path.{subst}
use archa_os.Mm.Pmm.{Boot, running, panic}
use archa_os.Kmalloc.{
  Heap, header, alignment, page_size, u64, extend_heap, found_heap, Vm, align_up, kmalloc,
  kmalloc_grow, retry, grow_and_retry, rounds, find_last,
}
use archa_os.Kmalloc.Blocks.{Block, Blocks, link, last_of, IsHeap, first_fit, find_last-last_of}
use archa_os.Kmalloc.Search.{Keeps, align_up_16, align_up_page}
use archa_os.Kmalloc.Grow.{grow_blocks, first_fit-grow_blocks, grow_blocks-Keeps}
use archa_os.Kmalloc.Alloc.{IsUsable, needed, Served, search, enough_rounds, take_Served}
use archa_os.Kmalloc.Extend.{found_heap-IsHeap, extend_start, extend_heap-IsHeap}

-- The bytes that `kmalloc` asks the virtual memory manager for.
abbrev pub growth : ℕ → ℕ
growth required =
    ((if ltb required (16 * page_size) then 16 * page_size else required) + 4095) / 4096 * 4096

-- Serving from a heap that only grew.
carry_over :
    (h h₂ : Heap) (bs bs₂ : Blocks) (size p : ℕ) (h' : Heap)
    → Keeps h.heap_start bs h₂.heap_start bs₂
    → Served h₂ bs₂ size p h'
    → Served h bs size p h'
carry_over h h₂ bs bs₂ size p h' keeps s = record {
  blocks = s.blocks;
  heap = s.heap;
  keeps = λ a b found used. s.keeps a b (keeps a b found used) used;
  chunk = s.chunk;
  pointer = s.pointer;
  new = s.new;
  found = s.found;
  used = s.used;
  large = s.large;
  aligned = s.aligned;
  fresh = λ b found. elim (Bool-cases b.used) [
    | inl used ↦ s.fresh b (keeps s.chunk b found used)
    | inr free ↦ free
  ];
}

module _ (vm : Vm) (h : Heap) (bs : Blocks) (is : IsHeap h bs) (size : ℕ) (v : vm.State) where
  -- What the virtual memory manager answers when the heap asks it for pages.
  abbrev pub offer : Boot (ℕ × vm.State)
  offer = vm.vallocs true (growth (needed size) / page_size) v

  abbrev pub NoFit : Type 0
  NoFit = first_fit (needed size) h.heap_start bs ≡ 0

  -- How `kmalloc` may end: with nothing when nothing was asked for, with a block, with the panic of
  -- `vallocs` when no block fits, or with NULL when no block fits and the pages that the virtual
  -- memory manager gives are none or do not continue the heap.
  pub data Ends : Option (Boot (ℕ × Heap × vm.State)) → Type 0 where
    nothing : size ≡ 0 → Ends (some (running (0, h, v)))
    served :
        {p : ℕ} {h' : Heap} (v' : vm.State)
        → Served h bs size p h'
        → Ends (some (running (p, h', v')))
    panicked : NoFit → offer ≡ panic → Ends (some panic)
    refused :
        {offered : ℕ} {after : vm.State} (v' : vm.State)
        → NoFit
        → offer ≡ running (offered, after)
        → (offered ≡ 0) ⊎ ((h.head ≢ 0) × (offered ≢ h.heap_end))
        → Ends (some (running (0, h, v')))

  retry-Ends :
      (h₂ : Heap) (bs₂ : Blocks) (v' : vm.State)
      → IsHeap h₂ bs₂
      → Keeps h.heap_start bs h₂.heap_start bs₂
      → size + 0x2000 ≤ 2 ^ 64
      → first_fit (needed size) h₂.heap_start bs₂ ≢ 0
      → Ends (retry vm (needed size) h₂ v')
  unfolding retry
  retry-Ends h₂ bs₂ v' is₂ keeps small nz =
      rw (search h₂ bs₂ is₂ (needed size), ne→==_false _ _ nz, retry)
        (served v' (carry_over h h₂ bs bs₂ size _ _ keeps (take_Served h₂ bs₂ is₂ size small nz)))

  abbrev g : ℕ
  g = if ltb (needed size) (16 * page_size) then 16 * page_size else needed size

  bytes-g : size + 0x2000 ≤ 2 ^ 64 → align_up g page_size ≡ growth (needed size)
  bytes-g small = align_up_page g (ground arith)

  bytes_bounds :
      (header ≤ growth (needed size))
      × (needed size ≤ growth (needed size))
      × (growth (needed size) % page_size ≡ 0)
  bytes_bounds = (ground arith, ground arith, ground arith)

  required-needed : size + 0x2000 ≤ 2 ^ 64 → u64 (align_up size alignment + header) ≡ needed size
  required-needed small = rw (align_up_16 size (omega arith)) (omega arith)

  head_empty : bs ≡ [] → (h.head == 0) ≡ true
  head_empty e = let z : h.head ≡ 0 = is.head ∙ ap (λ b. link b h.heap_start) e in (==_iff _ _).1 z

  head_full : (b : Block) (rest : Blocks) → bs ≡ b ∷ rest → h.head ≡ h.heap_start × (h.head ≢ 0)
  head_full b rest e =
      let start : h.head ≡ h.heap_start = is.head ∙ ap (λ b. link b h.heap_start) e in
      let low = is.nonzero (λ z. let c : b ∷ rest ≡ [] = sym e ∙ z in cc) in
      (start, omega (arith, start, low))

  module _ (small : size + 0x2000 ≤ 2 ^ 64) (offered : ℕ) (after : vm.State)
      (given : offer ≡ running (offered, after))
      (usable : (offered ≡ 0)
        ⊎ ((offered % page_size ≡ 0)
            × (offered + growth (needed size) / page_size * page_size < 2 ^ 64))) where
    room_left : offered ≢ 0 → offered + growth (needed size) < 2 ^ 64
    room_left nz = elim usable [
      | inl z ↦ absurd (nz z)
      | inr (page, room) ↦ let (a, b, c) = bytes_bounds in omega (arith, room, c)
    ]

    on_page : offered % page_size ≡ 0
    on_page = elim usable [ inl z ↦ rw z refl | inr (page, room) ↦ page ]

    -- The first pages of the heap.
    first_pages :
        (v' : vm.State)
        → bs ≡ []
        → offered ≢ 0
        → Ends (retry vm (needed size) (found_heap offered (growth (needed size)) h) v')
    first_pages v' empty nz =
        let (a, b, c) = bytes_bounds in
        let page = on_page in
        let found = found_heap-IsHeap h offered (growth (needed size)) (room_left nz) a c page nz in
        retry-Ends (found_heap offered (growth (needed size)) h)
          (grow_blocks (growth (needed size)) []) v' found
          (rw empty (λ x b' e used. absurd (let e' : none ≡ some b' = e in cc))) small
          (first_fit-grow_blocks (needed size) (growth (needed size)) _ []
            (let low = found.nonzero (λ z. cc) in omega (arith, low)) b)

    -- Pages that continue the heap.
    more_pages :
        (v' : vm.State) (b : Block) (rest : Blocks)
        → bs ≡ b ∷ rest
        → offered ≢ 0
        → offered ≡ h.heap_end
        → Ends (
            retry vm
              (needed size)
              (extend_heap (last_of h.heap_start (b ∷ rest)) offered (growth (needed size)) h)
              v')
    more_pages v' b rest e nz at =
        let (x, y, z) = bytes_bounds in
        let is' : IsHeap h (b ∷ rest) = subst (IsHeap h) e is in
        let grown =
          extend_heap-IsHeap h b rest (growth (needed size)) is' (omega (arith, room_left nz, at)) x
            (omega (arith, z)) in
        let start =
          extend_start h (last_of h.heap_start (b ∷ rest)) h.heap_end (growth (needed size)) in
        let low = is'.nonzero (λ n. cc) in
        rw at (
          retry-Ends
            (extend_heap (last_of h.heap_start (b ∷ rest)) h.heap_end (growth (needed size)) h)
            (grow_blocks (growth (needed size)) (b ∷ rest)) v' grown
            (rw (e, start) (grow_blocks-Keeps (growth (needed size)) h.heap_start (b ∷ rest))) small
            (first_fit-grow_blocks (needed size) (growth (needed size)) _ (b ∷ rest)
              (rw start (omega (arith, low))) y))

    grow_none : offered ≡ 0 → kmalloc_grow vm g h v ≡ some (running (false, h, after))
    unfolding kmalloc_grow
    grow_none z = simp (bytes-g small, given, z) refl

    grow_first :
        offered ≢ 0
        → bs ≡ []
        → kmalloc_grow vm g h v
          ≡ some (running (true, found_heap offered (growth (needed size)) h, after))
    unfolding kmalloc_grow
    grow_first nz e = simp (bytes-g small, given, ne→==_false _ _ nz, head_empty e) refl

    grow_apart :
        offered ≢ 0
        → h.head ≢ 0
        → offered ≢ h.heap_end
        → (v' : vm.State) × (kmalloc_grow vm g h v ≡ some (running (false, h, v')))
    unfolding kmalloc_grow
    grow_apart nz hd apart = (
      vm.vfrees offered (growth (needed size) / page_size) after,
      simp (bytes-g small, given, ne→==_false _ _ nz, ne→==_false _ _ hd, ne→==_false _ _ apart)
          refl,
    )

    grow_more :
        (b : Block) (rest : Blocks)
        → offered ≢ 0
        → bs ≡ b ∷ rest
        → offered ≡ h.heap_end
        → kmalloc_grow vm g h v
          ≡ some (
              running (
                true,
                extend_heap (last_of h.heap_start (b ∷ rest)) offered (growth (needed size)) h,
                after,
              ))
    unfolding kmalloc_grow
    grow_more b rest nz e at =
        let (start, hd) = head_full b rest e in
        let is' : IsHeap h (b ∷ rest) = subst (IsHeap h) e is in
        let lt = enough_rounds h (b ∷ rest) is' in
        let low = is'.nonzero (λ z. cc) in
        let walk : find_last (rounds h) h.chunk h.head ≡ some (last_of h.heap_start (b ∷ rest)) =
          rw start (
            find_last-last_of h.chunk h.heap_end (rounds h) 0 h.heap_start b rest is'.chain
              (omega (arith, low)) (omega arith)) in
        simp (bytes-g small, given, ne→==_false _ _ nz, ne→==_false _ _ hd, (==_iff _ _).1 at, walk)
          refl

    -- One growth, by the blocks that there are.
    grow_by :
        (bs' : Blocks)
        → bs ≡ bs'
        → first_fit (needed size) h.heap_start bs ≡ 0
        → offered ≢ 0
        → Ends (grow_and_retry vm (needed size) h v)
    unfolding grow_and_retry
    grow_by [] e no_fit nz = rw (grow_first nz e, grow_and_retry) (first_pages after e nz)
    grow_by (b ∷ rest) e no_fit nz = elim (Bool-cases (offered == h.heap_end)) [
      | inl at ↦
          let at' : offered ≡ h.heap_end = (==_iff _ _).0 at in
          rw (grow_more b rest nz e at', grow_and_retry) (more_pages after b rest e nz at')
      | inr apart ↦
          let hd = head_full b rest e in
          let apart' : offered ≢ h.heap_end = ground arith in
          let (v', eq) = grow_apart nz hd.1 apart' in
          rw (eq, grow_and_retry) (refused v' no_fit given (inr (hd.1, apart')))
    ]

    offered-Ends :
        first_fit (needed size) h.heap_start bs ≡ 0 → Ends (grow_and_retry vm (needed size) h v)
    unfolding grow_and_retry
    offered-Ends no_fit = elim (Bool-cases (offered == 0)) [
      | inl z ↦
          let z' : offered ≡ 0 = (==_iff _ _).0 z in
          rw (grow_none z', grow_and_retry) (refused after no_fit given (inl z'))
      | inr nz ↦ grow_by bs refl no_fit (ground arith)
    ]

  grow_panics :
      size + 0x2000 ≤ 2 ^ 64 → offer ≡ panic → grow_and_retry vm (needed size) h v ≡ some panic
  unfolding grow_and_retry kmalloc_grow
  grow_panics small e = simp (bytes-g small, e) refl

  grow_and_retry-Ends :
      size + 0x2000 ≤ 2 ^ 64
      → NoFit
      → (answer : Boot (ℕ × vm.State)) → offer ≡ answer
      → IsUsable (growth (needed size) / page_size) answer
      → Ends (grow_and_retry vm (needed size) h v)
  grow_and_retry-Ends small no_fit panic e usable = rw (grow_panics small e) (panicked no_fit e)
  grow_and_retry-Ends small no_fit (running (offered, after)) e usable =
      offered-Ends small offered after e usable no_fit

  -- For a request that does not come within two pages of the top of the word, and when the answer of
  -- the virtual memory manager to the request for pages is usable, `kmalloc` ends in one of the ways
  -- above.
  pub kmalloc-Ends :
      size + 0x2000 ≤ 2 ^ 64
      → IsUsable (growth (needed size) / page_size) offer
      → Ends (kmalloc vm size h v)
  unfolding kmalloc
  kmalloc-Ends small usable = elim (Bool-cases (size == 0)) [
    | inl z ↦ rw (z, kmalloc) (nothing ((==_iff _ _).0 z))
    | inr nz ↦
        rw (nz, required-needed small, search h bs is (needed size), kmalloc)
          (elim (Bool-cases (first_fit (needed size) h.heap_start bs == 0)) [
            | inl none_fits ↦
                rw (none_fits, required-needed small)
                  (grow_and_retry-Ends small ((==_iff _ _).0 none_fits) offer refl usable)
            | inr fits ↦
                rw (fits, required-needed small)
                  (served v (take_Served h bs is size small (ground arith)))
          ])
  ]
