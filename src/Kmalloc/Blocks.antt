-- ===== src/Kmalloc/Blocks.antt =====
-- The heap as a list of blocks: what the headers, walked along `next`, must say.
use archa_os.Base.{
  ℕ, zero, suc, ◌+◌, ◌%◌, ◌^◌, ◌≤◌, ◌<◌, ◌≡◌, ◌≢◌, refl, Bool, true, false, not, ◌&&◌, arith, ◌==◌,
  leb, if◌then◌else◌, List, [], ◌∷◌, some, length,
}
use archa_os.Kmalloc.{Chunk, Heap, state_free, state_used, header, alignment, find_last, find_fit}

-- A block: its length with the header, and whether it is in use.
pub record Block : Type 0 where
  pub size : ℕ
  pub used : Bool

abbrev pub block : ℕ → Bool → Block
block n u = record { size = n; used = u }

abbrev pub Blocks : Type 0
Blocks = List Block

abbrev pub state_of : Bool → ℕ
state_of true = state_used
state_of false = state_free

-- The address that points at a chain which starts at `at`: NULL if it is empty.
abbrev pub link : Blocks → ℕ → ℕ
link [] at = 0
link (b ∷ bs) at = at

abbrev pub total : Blocks → ℕ
total [] = 0
total (b ∷ bs) = b.size + total bs

-- The header at `a` is that of block `b`, between the chunks `p` and `n`.
pub record IsHeader (m : ℕ → Chunk) (a p n : ℕ) (b : Block) : Type 0 where
  pub state : (m a).state ≡ state_of b.used
  pub length : (m a).length ≡ b.size
  pub next : (m a).next ≡ n
  pub prev : (m a).prev ≡ p
  pub room : header ≤ b.size
  pub aligned : b.size % alignment ≡ 0

-- From `at` to `finish` the blocks lie side by side, doubly linked; `p` is the chunk before them.
abbrev pub Chain : (ℕ → Chunk) → ℕ → ℕ → ℕ → Blocks → Type 0
Chain m finish p at [] = at ≡ finish
Chain m finish p at (b ∷ bs) =
    IsHeader m at p (link bs (at + b.size)) b × Chain m finish at (at + b.size) bs

-- The heap consists of exactly these blocks.
pub record IsHeap (h : Heap) (bs : Blocks) : Type 0 where
  pub head : h.head ≡ link bs h.heap_start
  pub chain : Chain h.chunk h.heap_end 0 h.heap_start bs
  pub start : h.heap_start % alignment ≡ 0
  pub nonzero : bs ≢ [] → 0x1000 ≤ h.heap_start
  pub fits : h.heap_end < 2 ^ 64

-- `m'` agrees with `m` from `lo` on.
abbrev pub Agree : (ℕ → Chunk) → (ℕ → Chunk) → ℕ → Type 0
Agree m m' lo = (x : ℕ) → lo ≤ x → m' x ≡ m x

-- The first free block of at least `required` bytes, as an address; 0 if there is none.
abbrev pub first_fit : ℕ → ℕ → Blocks → ℕ
first_fit required at [] = 0
first_fit required at (b ∷ bs) =
    if not b.used && leb required b.size then at else first_fit required (at + b.size) bs

-- The last chunk.
abbrev pub last_of : ℕ → Blocks → ℕ
last_of at [] = at
last_of at (b ∷ []) = at
last_of at (b ∷ c ∷ bs) = last_of (at + b.size) (c ∷ bs)

module _ (m m' : ℕ → Chunk) (finish : ℕ) where
  -- A chain depends on the headers from its start on alone.
  pub Chain-frame :
      (p at : ℕ) (bs : Blocks) → Chain m finish p at bs → Agree m m' at → Chain m' finish p at bs
  Chain-frame p at [] c same = c
  Chain-frame p at (b ∷ bs) (h, c) same = (
    record {
      state = ground (arith, same at, h.state);
      length = ground (arith, same at, h.length);
      next = ground (arith, same at, h.next);
      prev = ground (arith, same at, h.prev);
      room = h.room;
      aligned = h.aligned;
    },
    Chain-frame at (at + b.size) bs c (λ x lt. same x (omega arith)),
  )

  -- A new predecessor: only the `prev` of the first header changes, if there is one.
  pub Chain-relink :
      (p p' at : ℕ) (bs : Blocks)
      → Chain m finish p at bs
      → ((x : ℕ) → at < x → m' x ≡ m x)
      → (bs ≢ [] → m' at ≡ record (m at) { prev = p' })
      → Chain m' finish p' at bs
  Chain-relink p p' at [] c same first = c
  Chain-relink p p' at (b ∷ bs) (h, c) same first =
      let e = first (λ x. cc) in
      (
        record {
          state = ground (arith, e, h.state);
          length = ground (arith, e, h.length);
          next = ground (arith, e, h.next);
          prev = ground (arith, e);
          room = h.room;
          aligned = h.aligned;
        },
        Chain-frame at (at + b.size) bs c (λ x lt. same x (let r = h.room in omega arith)),
      )

module _ (m : ℕ → Chunk) (finish : ℕ) where
  pub Chain-total : (p at : ℕ) (bs : Blocks) → Chain m finish p at bs → at + total bs ≡ finish
  Chain-total p at [] c = omega arith
  Chain-total p at (b ∷ bs) (h, c) = omega (arith, Chain-total at (at + b.size) bs c)

  -- The blocks are no more than the bytes.
  pub Chain-length : (p at : ℕ) (bs : Blocks) → Chain m finish p at bs → length bs ≤ total bs
  Chain-length p at [] c = omega arith
  Chain-length p at (b ∷ bs) (h, c) = omega (arith, h.room, Chain-length at (at + b.size) bs c)

  -- The search of `kmalloc` ends and finds the first fit.
  pub find_fit-first_fit :
      (fuel required p at : ℕ) (bs : Blocks)
      → Chain m finish p at bs
      → 0 < at
      → length bs < fuel
      → find_fit fuel m required (link bs at) ≡ some (first_fit required at bs)
  unfolding find_fit
  find_fit-first_fit zero required p at bs c pos lt = absurd (omega arith)
  find_fit-first_fit (suc fuel) required p at [] c pos lt = refl
  find_fit-first_fit (suc fuel) required p at (b ∷ bs) (h, c) pos lt =
      let ih = find_fit-first_fit fuel required at (at + b.size) bs c (omega arith) (omega arith) in
      let nz : (at == 0) ≡ false = ground arith in rw (h.state, h.length, h.next, nz, ih) (by_use b)
    where
      by_use :
          (b : Block)
          → (if (state_of b.used == state_free) && leb required b.size
              then some at
              else some (first_fit required (at + b.size) bs))
            ≡ some (first_fit required at (b ∷ bs))
      by_use b = ground arith

  pub find_last-last_of :
      (fuel p at : ℕ) (b : Block) (bs : Blocks)
      → Chain m finish p at (b ∷ bs)
      → 0 < at
      → length bs < fuel
      → find_last fuel m at ≡ some (last_of at (b ∷ bs))
  unfolding find_last
  find_last-last_of zero p at b bs c pos lt = absurd (omega arith)
  find_last-last_of (suc fuel) p at b [] (h, c) pos lt = rw h.next
  find_last-last_of (suc fuel) p at b (b' ∷ bs) (h, c) pos lt =
      let nz : (at + b.size == 0) ≡ false = ground arith in
      rw (h.next, nz) (find_last-last_of fuel at (at + b.size) b' bs c (omega arith) (omega arith))
