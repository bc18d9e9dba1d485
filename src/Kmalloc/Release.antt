-- ===== src/Kmalloc/Release.antt =====
-- `kfree` on the list of blocks, where the block before is in use or there is none.
use archa_os.Base.{
  ℕ, ◌+◌, ◌^◌, ◌≤◌, ◌<◌, ◌≡◌, ◌≢◌, refl, true, false, arith, if◌then◌else◌, inl, inr, ◌⊎◌,
  Bool-cases, sym, ◌∙◌, ap, [], ◌∷◌,
}
use mathlib.Core.Path.{subst}
use archa_os.Kmalloc.{Chunk, Heap, put, write, state_used, header, u64, kfree, set_prev}
use archa_os.Kmalloc.Blocks.{
  Block, block, Blocks, state_of, link, IsHeader, Chain, Chain-frame, Chain-relink, Chain-total,
}
use archa_os.Kmalloc.Take.{link_le, link_self}
use archa_os.Kmalloc.Free.{freed, marked, alone, with_next}

-- A free block and what follows it: one block if that begins with a free one.
abbrev pub join : Block → Blocks → Blocks
join b [] = b ∷ []
join b (y ∷ ys) = if y.used then b ∷ y ∷ ys else block (b.size + y.size) false ∷ ys

-- Freeing `b` behind `x`: it joins a free predecessor, else a free successor.
abbrev pub release : Block → Block → Blocks → Blocks
release x b rest =
    if x.used then x ∷ join (block b.size false) rest else block (x.size + b.size) false ∷ rest

-- `chain` describes the heap from `at` on after the call, and no header before `at` has changed.
pub record After (h h' : Heap) (finish p at : ℕ) (bs : Blocks) : Type 0 where
  pub chain : Chain h'.chunk finish p at bs
  pub below : (a : ℕ) → a < at → h'.chunk a ≡ h.chunk a

pub put_self : (m : ℕ → Chunk) (a : ℕ) (k : Chunk) → put m a k a ≡ k
put_self m a k = ground arith

pub put_ne : (m : ℕ → Chunk) (a : ℕ) (k : Chunk) (x : ℕ) → x ≢ a → put m a k x ≡ m x
put_ne m a k x ne = ground arith

put-put_ne : (m : ℕ → Chunk) (a : ℕ) (j k : Chunk) (x : ℕ) → x ≢ a → put (put m a j) a k x ≡ m x
put-put_ne m a j k x ne = ground arith

set_prev_self :
    (n v : ℕ) (g : Heap) → n ≢ 0 → (set_prev n v g).chunk n ≡ record (g.chunk n) { prev = v }
unfolding set_prev
set_prev_self n v g nz = ground arith

pub set_prev_none : (v : ℕ) (g : Heap) → set_prev 0 v g ≡ g
unfolding set_prev
set_prev_none v g = refl

pub link_cases : (bs : Blocks) (a : ℕ) → (link bs a ≡ 0) ⊎ (link bs a ≡ a)
link_cases [] a = inl refl
link_cases (b ∷ bs) a = inr refl

set_prev_other :
    (n v : ℕ) (g : Heap) (x : ℕ) → (n ≢ 0 → x ≢ n) → (set_prev n v g).chunk x ≡ g.chunk x
unfolding set_prev
set_prev_other n v g x ne = ground arith

-- A new free block at `q` in front of the chain of `ys`, whose first header then points back to it.
pub spliced :
    (h g : Heap) (finish p old q size : ℕ) (ys : Blocks)
    → IsHeader g.chunk q p (link ys (q + size)) (block size false)
    → Chain h.chunk finish old (q + size) ys
    → ((x : ℕ) → q + size ≤ x → g.chunk x ≡ h.chunk x)
    → ((a : ℕ) → a < q → g.chunk a ≡ h.chunk a)
    → 0 < q
    → After h (set_prev (link ys (q + size)) q g) finish p q (block size false ∷ ys)
spliced h g finish p old q size ys e chain above low pos =
    let lo = link_le ys (q + size) in
    let far : (a : ℕ) → a ≤ q → link ys (q + size) ≢ 0 → a ≢ link ys (q + size) =
      λ a le nz. by_link ys a le nz in
    let here = set_prev_other (link ys (q + size)) q g q (far q (omega arith)) in
    record {
      chain = (
        record {
          state = ap (λ k. k.state) here ∙ e.state;
          length = ap (λ k. k.length) here ∙ e.length;
          next = ap (λ k. k.next) here ∙ e.next;
          prev = ap (λ k. k.prev) here ∙ e.prev;
          room = e.room;
          aligned = e.aligned;
        },
        Chain-relink h.chunk (set_prev (link ys (q + size)) q g).chunk finish old q (q + size) ys
            chain
            (λ x lt.
              set_prev_other (link ys (q + size)) q g x (λ nz. omega (arith, lo))
              ∙ above x (omega arith))
            (λ ne.
              let l : link ys (q + size) ≡ q + size = link_self ys (q + size) ne in
              subst
                (λ d. (set_prev d q g).chunk (q + size) ≡ record (h.chunk (q + size)) { prev = q })
                (sym l)
                (set_prev_self (q + size) q g (omega arith)
                  ∙ ap (λ (k : Chunk). record k { prev = q }) (above (q + size) (omega arith)))),
      );
      below = λ a lt. set_prev_other (link ys (q + size)) q g a (far a (omega arith)) ∙ low a lt;
    }
  where
    by_link : (ys : Blocks) (a : ℕ) → a ≤ q → link ys (q + size) ≢ 0 → a ≢ link ys (q + size)
    by_link [] a le nz = absurd (nz refl)
    by_link (y ∷ ys) a le nz = let r = e.room in omega arith

-- What is written inside a block, behind its header, is no part of the chain.
pub interior :
    (h g : Heap) (finish p q c : ℕ) (k : Chunk) (b : Block) (bs : Blocks)
    → After h g finish p q (b ∷ bs)
    → q < c
    → c < q + b.size
    → After h (write c k g) finish p q (b ∷ bs)
interior h g finish p q c k b bs r lo hi =
    let (e, rest) = r.chain in
    record {
      chain = (
        record {
          state = ground (arith, e.state);
          length = ground (arith, e.length);
          next = ground (arith, e.next);
          prev = ground (arith, e.prev);
          room = e.room;
          aligned = e.aligned;
        },
        Chain-frame g.chunk (write c k g).chunk finish q (q + b.size) bs rest
            (λ x le. ground arith),
      );
      below = λ a lt. ground (arith, r.below a lt);
    }

module _ (h : Heap) (finish p c : ℕ) (b : Block) (fits : finish < 2 ^ 64) (used : b.used ≡ true)
    (low : 64 ≤ c) (apart : p < c) (busy : (p ≡ 0) ⊎ ((h.chunk p).state ≡ state_used)) where
  in_use : {n : ℕ} → IsHeader h.chunk c p n b → (h.chunk c).state ≡ state_used
  in_use e = e.state ∙ ap state_of used

  -- Only the mark.
  mark_After :
      (rest : Blocks)
      → IsHeader h.chunk c p (link rest (c + b.size)) b
      → Chain h.chunk finish c (c + b.size) rest
      → (link rest (c + b.size) ≡ 0) ⊎ ((h.chunk (link rest (c + b.size))).state ≡ state_used)
      → link rest (c + b.size) ≢ c
      → After h (kfree (c + header) h) finish p c (block b.size false ∷ rest)
  mark_After rest e chain next nc =
      let end = Chain-total h.chunk finish c (c + b.size) rest chain in
      let eq =
        alone h c (omega (arith, e.room, end)) (in_use e) p (link rest (c + b.size)) e.prev e.next
          (omega arith) nc (omega arith) busy next in
      subst (λ g. After h g finish p c (block b.size false ∷ rest)) (sym eq)
        (record {
          chain = (
            record {
              state = ground arith;
              length = ground (arith, e.length);
              next = ground (arith, e.next);
              prev = ground (arith, e.prev);
              room = e.room;
              aligned = e.aligned;
            },
            Chain-frame h.chunk (marked h c).chunk finish c (c + b.size) rest chain
                (λ a le. let r = e.room in ground arith),
          );
          below = λ a lt. ground arith;
        })

  -- The next block is free: it is taken in.
  next_After :
      (y : Block) (ys : Blocks)
      → IsHeader h.chunk c p (c + b.size) b
      → Chain h.chunk finish c (c + b.size) (y ∷ ys)
      → y.used ≡ false
      → After h (kfree (c + header) h) finish p c (block (b.size + y.size) false ∷ ys)
  next_After y ys e (f, chain) free =
      let end = Chain-total h.chunk finish (c + b.size) (c + b.size + y.size) ys chain in
      let n = c + b.size in
      let small : c + header < 2 ^ 64 = omega (arith, e.room, end) in
      let eq =
        with_next h c small (in_use e) p n e.prev e.next (omega arith) (omega (arith, e.room))
          (omega arith) busy (omega arith) (f.state ∙ ap state_of free) in
      let len : c + (b.size + y.size) ≡ n + y.size = omega arith in
      let sum : u64 ((h.chunk c).length + (h.chunk n).length) ≡ b.size + y.size =
        omega (arith, e.length, f.length, end) in
      let k : Chunk = record (freed h c) {
        length = u64 ((h.chunk c).length + (h.chunk n).length);
        next = (h.chunk n).next;
      } in
      let g = write c k (marked h c) in
      let at_c : g.chunk c ≡ k = put_self (marked h c).chunk c k in
      let all : After h (set_prev (link ys (c + (b.size + y.size))) c g) finish p c
          (block (b.size + y.size) false ∷ ys) =
        spliced h g finish p n c (b.size + y.size) ys
          (record {
            state = ap (λ k. k.state) at_c;
            length = ap (λ k. k.length) at_c ∙ sum;
            next = ap (λ k. k.next) at_c ∙ (f.next ∙ ap (link ys) (sym len));
            prev = ap (λ k. k.prev) at_c ∙ e.prev;
            room = omega (arith, e.room);
            aligned = omega (arith, e.aligned, f.aligned);
          })
          (rw len chain) (λ x le. put-put_ne h.chunk c (freed h c) k x (omega (arith, e.room)))
          (λ a lt. put-put_ne h.chunk c (freed h c) k a (omega arith)) (omega arith) in
      let l : link ys (c + (b.size + y.size)) ≡ (h.chunk n).next = ap (link ys) len ∙ sym f.next in
      subst (λ t. After h t finish p c (block (b.size + y.size) false ∷ ys))
        (ap (λ d. set_prev d c g) l ∙ sym eq) all

  -- Together: the block is joined with what follows.
  pub join_After :
      (rest : Blocks)
      → IsHeader h.chunk c p (link rest (c + b.size)) b
      → Chain h.chunk finish c (c + b.size) rest
      → After h (kfree (c + header) h) finish p c (join (block b.size false) rest)
  join_After [] e chain = mark_After [] e chain (inl refl) (omega arith)
  join_After (y ∷ ys) e (f, chain) = elim (Bool-cases y.used) [
    | inl busy ↦ simp busy (
        mark_After (y ∷ ys) e (f, chain) (inr (f.state ∙ ap state_of busy))
          (let r = e.room in omega arith))
    | inr free ↦ simp free (next_After y ys e (f, chain) free)
  ]
