-- ===== src/Kmalloc/Grow.antt =====
-- `kmalloc_grow`, on the list of blocks.
use archa_os.Base.{
  ℕ, ◌+◌, ◌%◌, ◌^◌, ◌≤◌, ◌<◌, ◌≡◌, ◌≢◌, refl, true, false, arith, if◌then◌else◌, inl, inr,
  Bool-cases, [], ◌∷◌, some, none, sym, ◌∙◌, ap,
}
use archa_os.Kmalloc.{
  Heap, put, state_free, state_used, header, alignment, u64, extend_heap, kmerge_next, absorb,
  set_prev,
}
use archa_os.Kmalloc.Blocks.{
  Block, block, Blocks, state_of, link, IsHeader, Chain, last_of, first_fit,
}
use archa_os.Kmalloc.Search.{Keeps}

abbrev pub grow_blocks : ℕ → Blocks → Blocks
grow_blocks bytes [] = block bytes false ∷ []
grow_blocks bytes (b ∷ []) =
    if b.used then b ∷ block bytes false ∷ [] else block (b.size + bytes) false ∷ []
grow_blocks bytes (b ∷ c ∷ bs) = b ∷ grow_blocks bytes (c ∷ bs)

pub link-grow_blocks :
    (bytes : ℕ) (b : Block) (bs : Blocks) (a : ℕ) → link (grow_blocks bytes (b ∷ bs)) a ≡ a
link-grow_blocks bytes b [] a = ground arith
link-grow_blocks bytes b (c ∷ bs) a = refl

module _ (h : Heap) (finish bytes : ℕ) (fits : finish + bytes < 2 ^ 64) (room : header ≤ bytes)
    (aligned : bytes % alignment ≡ 0) where
  -- The last chunk at `c`, and the new pages at `finish` right behind it.
  extend_used :
      (c : ℕ)
      → 0 < c
      → c < finish
      → (h.chunk c).state ≡ state_used
      → (extend_heap c finish bytes h).chunk
        ≡ put
            (put h.chunk finish (record { state = state_free; length = bytes; next = 0; prev = c }))
            c
            (record (h.chunk c) { next = finish })
  unfolding extend_heap
  extend_used c pos lt used = ground arith

  extend_free :
      (c : ℕ)
      → 0 < c
      → c < finish
      → (h.chunk c).state ≡ state_free
      → (extend_heap c finish bytes h).chunk
        ≡ put
            (put
              (put h.chunk finish
                (record { state = state_free; length = bytes; next = 0; prev = c }))
              c
              (record (h.chunk c) { next = finish }))
            c
            (record (h.chunk c) { length = u64 ((h.chunk c).length + bytes); next = 0 })
  unfolding extend_heap kmerge_next absorb set_prev
  extend_free c pos lt free = ground arith

  extend_other :
      (c x : ℕ)
      → 0 < c
      → c < finish
      → x ≢ c
      → x ≢ finish
      → (extend_heap c finish bytes h).chunk x ≡ h.chunk x
  unfolding extend_heap kmerge_next absorb set_prev
  extend_other c x pos lt a b = ground arith

  last_of_bounds :
      (p at : ℕ) (b : Block) (bs : Blocks)
      → Chain h.chunk finish p at (b ∷ bs)
      → (at ≤ last_of at (b ∷ bs)) × (last_of at (b ∷ bs) < finish)
  last_of_bounds p at b [] (e, c) = (omega arith, omega (arith, e.room, c))
  last_of_bounds p at b (b' ∷ bs) (e, c) =
      let (lo, hi) = last_of_bounds at (at + b.size) b' bs c in (omega arith, hi)

  grow_last :
      (p c : ℕ) (b : Block)
      → IsHeader h.chunk c p 0 b
      → c + b.size ≡ finish
      → 0 < c
      → Chain (extend_heap c finish bytes h).chunk (finish + bytes) p c (grow_blocks bytes (b ∷ []))
  grow_last p c b e end pos = elim (Bool-cases b.used) [
    | inl used ↦ rw used (in_use used)
    | inr free ↦ rw free (merged free)
  ]
    where
      lt : c < finish
      lt = omega (arith, e.room, end)

      in_use :
          b.used ≡ true
          → Chain
              (extend_heap c finish bytes h).chunk
              (finish + bytes)
              p
              c
              (block b.size true ∷ block bytes false ∷ [])
      in_use used =
          let same = extend_used c pos lt (e.state ∙ ap state_of used) in
          let here : (extend_heap c finish bytes h).chunk c ≡ record (h.chunk c) { next = finish } =
            ap (λ f. f c) same ∙ ground arith in
          let new : (extend_heap c finish bytes h).chunk (c + b.size)
              ≡ record { state = state_free; length = bytes; next = 0; prev = c } =
            ap (λ f. f (c + b.size)) same ∙ ground arith in
          (
            record {
              state = ground (arith, here, e.state, used);
              length = ground (arith, here, e.length);
              next = ground (arith, here);
              prev = ground (arith, here, e.prev);
              room = e.room;
              aligned = e.aligned;
            },
            (
              record {
                state = ground (arith, new);
                length = ground (arith, new);
                next = ground (arith, new);
                prev = ground (arith, new);
                room = room;
                aligned = aligned;
              },
              omega (arith, end),
            ),
          )

      merged :
          b.used ≡ false
          → Chain
              (extend_heap c finish bytes h).chunk
              (finish + bytes)
              p
              c
              (block (b.size + bytes) false ∷ [])
      merged free =
          let same = extend_free c pos lt (e.state ∙ ap state_of free) in
          let here : (extend_heap c finish bytes h).chunk c
              ≡ record (h.chunk c) { length = u64 ((h.chunk c).length + bytes); next = 0 } =
            ap (λ f. f c) same ∙ ground arith in
          (
            record {
              state = ground (arith, here, e.state, free);
              length = rw here (ground (arith, e.length, end));
              next = ground (arith, here);
              prev = ground (arith, here, e.prev);
              room = omega (arith, e.room);
              aligned = omega (arith, e.aligned, aligned);
            },
            omega (arith, end),
          )

  -- Growing a heap that has blocks.
  pub grow-Chain :
      (p at : ℕ) (b : Block) (bs : Blocks)
      → Chain h.chunk finish p at (b ∷ bs)
      → 0 < at
      → Chain
          (extend_heap (last_of at (b ∷ bs)) finish bytes h).chunk
          (finish + bytes)
          p
          at
          (grow_blocks bytes (b ∷ bs))
  grow-Chain p at b [] (e, c) pos = grow_last p at b e c pos
  grow-Chain p at b (b' ∷ bs) (e, c) pos =
      let (lo, hi) = last_of_bounds at (at + b.size) b' bs c in
      let last = last_of (at + b.size) (b' ∷ bs) in
      let same : (extend_heap last finish bytes h).chunk at ≡ h.chunk at =
        extend_other last at (omega (arith, lo)) hi (omega (arith, lo, e.room))
          (omega (arith, lo, hi)) in
      (
        record {
          state = ground (arith, same, e.state);
          length = ground (arith, same, e.length);
          next =
              ap (λ x. x.next) same ∙ (e.next ∙ sym (link-grow_blocks bytes b' bs (at + b.size)));
          prev = ground (arith, same, e.prev);
          room = e.room;
          aligned = e.aligned;
        },
        grow-Chain at (at + b.size) b' bs c (omega arith),
      )

-- The pages that are added hold any block that is not larger than they are.
pub first_fit-grow_blocks :
    (required bytes at : ℕ) (bs : Blocks)
    → 0 < at
    → required ≤ bytes
    → first_fit required at (grow_blocks bytes bs) ≢ 0
first_fit-grow_blocks required bytes at [] pos le = ground arith
first_fit-grow_blocks required bytes at (b ∷ []) pos le = ground arith
first_fit-grow_blocks required bytes at (b ∷ c ∷ bs) pos le =
    ground (arith, first_fit-grow_blocks required bytes (at + b.size) (c ∷ bs))

-- Growing touches no block in use.
pub grow_blocks-Keeps : (bytes at : ℕ) (bs : Blocks) → Keeps at bs at (grow_blocks bytes bs)
grow_blocks-Keeps bytes at [] a b' found used = absurd (let e : none ≡ some b' = found in cc)
grow_blocks-Keeps bytes at (b ∷ []) a b' found used = ground arith
grow_blocks-Keeps bytes at (b ∷ c ∷ bs) a b' found used =
    ground (arith, grow_blocks-Keeps bytes (at + b.size) (c ∷ bs) a b')
