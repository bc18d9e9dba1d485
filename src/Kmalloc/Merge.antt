-- ===== src/Kmalloc/Merge.antt =====
-- `kfree` on the list of blocks, where a free block before takes the block in.
use archa_os.Base.{ℕ, ◌+◌, ◌^◌, ◌≤◌, ◌<◌, ◌≡◌, ◌≢◌, true, false, arith, ◌⊎◌, sym, ◌∙◌, ap, [], ◌∷◌}
use mathlib.Core.Path.{subst}
use archa_os.Kmalloc.{Chunk, Heap, write, state_used, header, u64, kfree, set_prev}
use archa_os.Kmalloc.Blocks.{
  Block, block, Blocks, state_of, link, IsHeader, Chain, Chain-total, total,
}
use archa_os.Kmalloc.Free.{freed, marked, absorbed, with_prev, with_both}
use archa_os.Kmalloc.Release.{After, put_self, put_ne, set_prev_none, link_cases, spliced, interior}

-- The free block `x` at `q` before it takes `b` in; unless two blocks follow of which the first is
-- free too, the chain is whole after it.
module _ (h : Heap) (finish p q : ℕ) (x b : Block) (fits : finish < 2 ^ 64) (used : b.used ≡ true)
    (free : x.used ≡ false) (low : 64 ≤ q) where
  abbrev c : ℕ
  c = q + x.size

  abbrev grown : Blocks → Blocks
  grown rest = block (x.size + b.size) false ∷ rest

  module _ (rest : Blocks) (ex : IsHeader h.chunk q p (q + x.size) x)
      (e : IsHeader h.chunk (q + x.size) q (link rest (q + x.size + b.size)) b)
      (chain : Chain h.chunk finish (q + x.size) (q + x.size + b.size) rest) where
    abbrev n : ℕ
    n = link rest (c + b.size)

    end : c + b.size + total rest ≡ finish
    end = Chain-total h.chunk finish c (c + b.size) rest chain

    small : c + header < 2 ^ 64
    small = omega (arith, e.room, end)

    in_use' : (h.chunk c).state ≡ state_used
    in_use' = e.state ∙ ap state_of used

    len : q + (x.size + b.size) ≡ c + b.size
    len = omega arith

    abbrev k : Chunk
    k = record (h.chunk q) { length = u64 ((h.chunk q).length + (h.chunk c).length); next = n }

    -- The chain once `q` has taken in `c`.
    absorbed_After : After h (absorbed h c q n) finish p q (grown rest)
    absorbed_After =
        let g = write q k (marked h c) in
        let at_q : g.chunk q ≡ k = put_self (marked h c).chunk q k in
        let sum : u64 ((h.chunk q).length + (h.chunk c).length) ≡ x.size + b.size =
          omega (arith, ex.length, e.length, end) in
        let far : (a : ℕ) → a ≢ q → a ≢ c → g.chunk a ≡ h.chunk a =
          λ a nq nc. put_ne (marked h c).chunk q k a nq ∙ put_ne h.chunk c (freed h c) a nc in
        let all : After h (set_prev (link rest (q + (x.size + b.size))) q g) finish p q
            (grown rest) =
          spliced h g finish p c q (x.size + b.size) rest
            (record {
              state = ap (λ k. k.state) at_q ∙ (ex.state ∙ ap state_of free);
              length = ap (λ k. k.length) at_q ∙ sum;
              next = ap (λ k. k.next) at_q ∙ ap (link rest) (sym len);
              prev = ap (λ k. k.prev) at_q ∙ ex.prev;
              room = omega (arith, ex.room);
              aligned = omega (arith, ex.aligned, e.aligned);
            })
            (rw len chain) (λ a le. far a (omega (arith, ex.room)) (omega (arith, e.room)))
            (λ a lt. far a (omega arith) (omega (arith, ex.room))) (omega arith) in
        subst (λ t. After h t finish p q (grown rest))
          (ap (λ d. set_prev d q g) (ap (link rest) len)) all

    -- The next chunk is not free, or there is none: `kfree` does no more.
    pub prev_After :
        (n ≡ 0) ⊎ ((h.chunk n).state ≡ state_used)
        → After h (kfree (c + header) h) finish p q (grown rest)
    prev_After why =
        let r = e.room in
        let r' = ex.room in
        let l = link_cases rest (c + b.size) in
        subst (λ t. After h t finish p q (grown rest))
          (sym (
            with_prev h c small in_use' q n e.prev e.next (omega arith) (omega arith) (omega arith)
              (omega arith) (omega arith) (ex.state ∙ ap state_of free) ex.next why))
          absorbed_After

  -- The last block is free: `kfree` changes the header of `c`, which is no block any more.
  pub both_After :
      (y : Block)
      → IsHeader h.chunk q p (q + x.size) x
      → IsHeader h.chunk (q + x.size) q (q + x.size + b.size) b
      → Chain h.chunk finish (q + x.size) (q + x.size + b.size) (y ∷ [])
      → y.used ≡ false
      → After h (kfree (c + header) h) finish p q (grown (y ∷ []))
  both_After y ex e (f, eq) free' =
      let r = e.room in
      let r' = ex.room in
      let n = c + b.size in
      let k : Chunk = record (freed h c) {
        length = u64 ((h.chunk c).length + (h.chunk n).length);
        next = (h.chunk n).next;
      } in
      let is =
        with_both h c (omega arith) (e.state ∙ ap state_of used) q n e.prev e.next (omega arith)
          (omega arith) (omega arith) (omega arith) (omega arith) (ex.state ∙ ap state_of free)
          ex.next (omega arith) (f.state ∙ ap state_of free') in
      let ends : set_prev (h.chunk n).next c (write c k (absorbed h c q n))
          ≡ write c k (absorbed h c q n) =
        ap (λ d. set_prev d c (write c k (absorbed h c q n))) f.next ∙ set_prev_none c _ in
      subst (λ t. After h t finish p q (grown (y ∷ []))) (sym (is ∙ ends))
        (interior h (absorbed h c q n) finish p q c k (block (x.size + b.size) false) (y ∷ [])
          (absorbed_After (y ∷ []) ex e (f, eq)) (omega arith) (omega arith))
