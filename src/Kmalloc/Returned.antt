-- ===== src/Kmalloc/Returned.antt =====
-- `kfree` of `kernel/lib/kmalloc.c` as an operation on the whole heap.
use archa_os.Base.{
  ℕ, ◌+◌, ◌%◌, ◌^◌, ◌≤◌, ◌<◌, ◌≡◌, ◌≢◌, refl, true, false, ◌||◌, arith, inl, inr, Bool-cases, sym,
  ◌∙◌, ap, [], ◌∷◌, ◌++◌,
}
use mathlib.Core.Path.{subst}
use archa_os.Kmalloc.{Heap, header, alignment, kfree, set_prev, kmerge_next, absorb}
use archa_os.Kmalloc.Blocks.{Block, block, Blocks, state_of, link, IsHeader, Chain, total, IsHeap}
use archa_os.Kmalloc.Free.{kfree_twice_lem}
use archa_os.Kmalloc.Release.{After, join, release, join_After}
use archa_os.Kmalloc.Merge.{prev_After, both_After}

-- A free block takes in a block before two others only if the first of these is in use.
abbrev pub Settled : Block → Blocks → Type 0
Settled x [] = Unit
Settled x (y ∷ []) = Unit
Settled x (y ∷ z ∷ zs) = x.used || y.used ≡ true

join-link : (b : Block) (ys : Blocks) (a : ℕ) → a ≡ link (join b ys) a
join-link b [] a = refl
join-link b (y ∷ ys) a = elim (Bool-cases y.used) [
  | inl busy ↦ simp busy refl
  | inr free ↦ simp free refl
]

-- A header the call has not changed, in front of a chain.
prepend :
    (h h' : Heap) (finish p at : ℕ) (b : Block) (old new : Blocks)
    → IsHeader h.chunk at p (link old (at + b.size)) b
    → link old (at + b.size) ≡ link new (at + b.size)
    → After h h' finish at (at + b.size) new
    → After h h' finish p at (b ∷ new)
prepend h h' finish p at b old new e same r =
    let room = e.room in
    let here = r.below at (omega arith) in
    record {
      chain = (
        record {
          state = ap (λ k. k.state) here ∙ e.state;
          length = ap (λ k. k.length) here ∙ e.length;
          next = ap (λ k. k.next) here ∙ (e.next ∙ same);
          prev = ap (λ k. k.prev) here ∙ e.prev;
          room = room;
          aligned = e.aligned;
        },
        r.chain,
      );
      below = λ a lt. r.below a (omega arith);
    }

module _ (h : Heap) (finish : ℕ) (x b : Block) (fits : finish < 2 ^ 64) (used : b.used ≡ true) where
  -- The free predecessor takes the block in.
  taken :
      (p q : ℕ) (rest : Blocks)
      → 64 ≤ q
      → x.used ≡ false
      → Settled x rest
      → Chain h.chunk finish p q (x ∷ b ∷ rest)
      → After h (kfree (q + x.size + header) h) finish p q (block (x.size + b.size) false ∷ rest)
  taken p q [] low free safe (ex, (e, chain)) =
      prev_After h finish p q x b fits used free low [] ex e chain (inl refl)
  taken p q (y ∷ ys) low free safe (ex, (e, (f, chain))) = elim (Bool-cases y.used) [
    | inl busy ↦
        prev_After h finish p q x b fits used free low (y ∷ ys) ex e (f, chain)
          (inr (f.state ∙ ap state_of busy))
    | inr free' ↦ last ys safe chain f e free'
  ]
    where
      last :
          (ys : Blocks)
          → Settled x (y ∷ ys)
          → Chain h.chunk finish (q + x.size + b.size) (q + x.size + b.size + y.size) ys
          → IsHeader h.chunk
              (q + x.size + b.size)
              (q + x.size)
              (link ys (q + x.size + b.size + y.size))
              y
          → IsHeader h.chunk (q + x.size) q (q + x.size + b.size) b
          → y.used ≡ false
          → After h
              (kfree (q + x.size + header) h)
              finish
              p
              q
              (block (x.size + b.size) false ∷ y ∷ ys)
      last [] safe chain f e free' =
          both_After h finish p q x b fits used free low y ex e (f, chain) free'
      last (z ∷ zs) safe chain f e free' = absurd (ground (arith, safe, free, free'))

  -- The block `b` behind `x`.
  pub release_After :
      (p q : ℕ) (rest : Blocks)
      → 64 ≤ q
      → Settled x rest
      → Chain h.chunk finish p q (x ∷ b ∷ rest)
      → After h (kfree (q + x.size + header) h) finish p q (release x b rest)
  release_After p q rest low safe (ex, (e, chain)) = elim (Bool-cases x.used) [
    | inl busy ↦
        let room = ex.room in
        simp busy (
          prepend h (kfree (q + x.size + header) h) finish p q x (b ∷ rest)
            (join (block b.size false) rest) ex (join-link (block b.size false) rest _)
            (join_After h finish q (q + x.size) b fits used (omega arith) (omega arith)
              (inr (ex.state ∙ ap state_of busy)) rest e chain))
    | inr free ↦ simp free (taken p q rest low free safe (ex, (e, chain)))
  ]

  release-link :
      (front rest : Blocks) (a : ℕ)
      → link (front ++ x ∷ b ∷ rest) a ≡ link (front ++ release x b rest) a
  release-link [] rest a = elim (Bool-cases x.used) [
    | inl busy ↦ simp busy refl
    | inr free ↦ simp free refl
  ]
  release-link (y ∷ front) rest a = refl

  -- Behind any blocks.
  walk :
      (front : Blocks) (p at : ℕ) (rest : Blocks)
      → 64 ≤ at
      → Settled x rest
      → Chain h.chunk finish p at (front ++ x ∷ b ∷ rest)
      → After h
          (kfree (at + total front + x.size + header) h)
          finish
          p
          at
          (front ++ release x b rest)
  walk [] p at rest low safe chain =
      let eq : at + 0 ≡ at = omega arith in
      subst (λ a. After h (kfree (a + x.size + header) h) finish p at (release x b rest)) (sym eq)
        (release_After p at rest low safe chain)
  walk (y ∷ front) p at rest low safe (f, chain) =
      let eq : at + (y.size + total front) ≡ at + y.size + total front = omega arith in
      subst
        (λ a. After h (kfree (a + x.size + header) h) finish p at (y ∷ front ++ release x b rest))
        (sym eq)
        (prepend h (kfree (at + y.size + total front + x.size + header) h) finish p at y
          (front ++ x ∷ b ∷ rest) (front ++ release x b rest) f (release-link front rest _)
          (walk front at (at + y.size) rest (omega arith) safe chain))

filled : (front : Blocks) (b : Block) (rest : Blocks) → front ++ b ∷ rest ≢ []
filled [] b rest = λ e. cc
filled (y ∷ front) b rest = λ e. cc

-- `kfree` changes headers only.
abbrev ends : Heap → ℕ × ℕ × ℕ
ends h = (h.head, h.heap_start, h.heap_end)

kmerge_next-ends : (c : ℕ) (h : Heap) → ends (kmerge_next c h) ≡ ends h
unfolding kmerge_next absorb set_prev
kmerge_next-ends c h = ground arith

kfree-ends : (a : ℕ) (h : Heap) → ends (kfree a h) ≡ ends h
unfolding kfree
kfree-ends a h = grind (arith, kmerge_next-ends)

module _ (h : Heap) where
  kfree-IsHeap :
      (a : ℕ) (old new : Blocks)
      → IsHeap h old
      → ((x : ℕ) → link old x ≡ link new x)
      → (new ≢ [] → old ≢ [])
      → Chain (kfree a h).chunk h.heap_end 0 h.heap_start new
      → IsHeap (kfree a h) new
  kfree-IsHeap a old new r same filled chain =
      let at_head : (kfree a h).head ≡ h.head = ap (λ k. k.0) (kfree-ends a h) in
      let at_start : (kfree a h).heap_start ≡ h.heap_start = ap (λ k. k.1) (kfree-ends a h) in
      let at_end : (kfree a h).heap_end ≡ h.heap_end = ap (λ k. k.2) (kfree-ends a h) in
      record {
        head = at_head ∙ (r.head ∙ (same h.heap_start ∙ ap (link new) (sym at_start)));
        chain =
            subst (λ e. Chain (kfree a h).chunk e 0 (kfree a h).heap_start new) (sym at_end)
              (subst (λ s. Chain (kfree a h).chunk h.heap_end 0 s new) (sym at_start) chain);
        start = ap (λ s. s % alignment) at_start ∙ r.start;
        nonzero = λ ne. subst (λ s. 0x1000 ≤ s) (sym at_start) (r.nonzero (filled ne));
        fits = subst (λ s. s < 2 ^ 64) (sym at_end) r.fits;
      }

  -- Freeing the block `b` behind `x`, wherever they stand in the heap: the blocks are joined as
  -- `release` says and all others stay as they are.
  pub kfree-release :
      (front : Blocks) (x b : Block) (rest : Blocks)
      → IsHeap h (front ++ x ∷ b ∷ rest)
      → b.used ≡ true
      → Settled x rest
      → IsHeap (kfree (h.heap_start + total front + x.size + header) h) (front ++ release x b rest)
  kfree-release front x b rest r used safe =
      let low = r.nonzero (filled front x (b ∷ rest)) in
      kfree-IsHeap (h.heap_start + total front + x.size + header) (front ++ x ∷ b ∷ rest)
        (front ++ release x b rest) r (release-link h h.heap_end x b r.fits used front rest)
        (λ _. filled front x (b ∷ rest))
        (walk h h.heap_end x b r.fits used front 0 h.heap_start rest (omega (arith, low)) safe
          r.chain).chain

  -- Freeing that block once more, by the same pointer, changes nothing: the heap is the one in which
  -- it was released once.
  pub kfree-kfree :
      (front : Blocks) (x b : Block) (rest : Blocks)
      → IsHeap h (front ++ x ∷ b ∷ rest)
      → b.used ≡ true
      → Settled x rest
      → let p = h.heap_start + total front + x.size + header in
        (kfree p (kfree p h) ≡ kfree p h) × IsHeap (kfree p (kfree p h)) (front ++ release x b rest)
  kfree-kfree front x b rest r used safe =
      let p = h.heap_start + total front + x.size + header in
      let twice = kfree_twice_lem p h in
      (
        twice,
        subst (λ h'. IsHeap h' (front ++ release x b rest)) (sym twice)
            (kfree-release front x b rest r used safe),
      )

  -- Freeing the first block.
  pub kfree-join :
      (b : Block) (rest : Blocks)
      → IsHeap h (b ∷ rest)
      → b.used ≡ true
      → IsHeap (kfree (h.heap_start + header) h) (join (block b.size false) rest)
  kfree-join b rest r used =
      let low = r.nonzero (filled [] b rest) in
      kfree-IsHeap (h.heap_start + header) (b ∷ rest) (join (block b.size false) rest) r
        (join-link (block b.size false) rest) (λ _. filled [] b rest)
        (join_After h h.heap_end 0 h.heap_start b r.fits used (omega (arith, low))
          (omega (arith, low)) (inl refl) rest r.chain.0 r.chain.1).chain
