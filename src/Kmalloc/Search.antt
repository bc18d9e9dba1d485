-- ===== src/Kmalloc/Search.antt =====
-- Taking the first block that fits: the chain after it, and the blocks that callers hold.
use archa_os.Base.{
  ℕ, ◌+◌, ◌-◌, ◌*◌, ◌/◌, ◌%◌, ◌^◌, ◌≤◌, ◌<◌, ◌≡◌, ◌≢◌, refl, Bool, true, false, not, ◌&&◌, arith,
  ◌==◌, leb, ltb, if◌then◌else◌, inl, inr, Bool-cases, ltb→lt, ne→==_false, [], ◌∷◌, Option, some,
  none, sym, ◌∙◌, ap, bit_and_round,
}
use archa_os.Kmalloc.{Chunk, Heap, header, min_split, alignment, take_chunk, u64, align_up}
use archa_os.Kmalloc.Blocks.{Block, block, Blocks, link, Chain, first_fit}
use archa_os.Kmalloc.Take.{carve, take_blocks, take_here, take_below}

-- The block at address `a` of a chain that starts at `at`.
abbrev pub block_at : ℕ → Blocks → ℕ → Option Block
block_at at [] a = none
block_at at (b ∷ bs) a = if a == at then some b else block_at (at + b.size) bs a

-- Every block that a caller holds is where it was, as long as it was.
abbrev pub Keeps : ℕ → Blocks → ℕ → Blocks → Type 0
Keeps at bs at' bs' =
    (a : ℕ) (b : Block) → block_at at bs a ≡ some b → b.used ≡ true → block_at at' bs' a ≡ some b

-- What `align_up` computes, where the sum does not wrap.
pub align_up_16 : (n : ℕ) → n + 15 < 2 ^ 64 → align_up n alignment ≡ (n + 15) / 16 * 16
unfolding align_up
align_up_16 n h =
    let e : u64 (n + alignment - 1) ≡ n + 15 = omega arith in rw e (bit_and_round 4 60 (n + 15) h)

pub align_up_page : (n : ℕ) → n + 4095 < 2 ^ 64 → align_up n 0x1000 ≡ (n + 4095) / 4096 * 4096
unfolding align_up
align_up_page n h =
    let e : u64 (n + 0x1000 - 1) ≡ n + 4095 = omega arith in rw e (bit_and_round 12 52 (n + 4095) h)

-- Near the top of the word the sum wraps, and the size rounds "up" to 0.
pub align_up_wraps : (n : ℕ) → 2 ^ 64 - 15 ≤ n → n < 2 ^ 64 → align_up n alignment ≡ 0
unfolding align_up
align_up_wraps n lo hi =
    let small : u64 (n + alignment - 1) < 2 ^ 64 = omega arith in
    bit_and_round 4 60 (u64 (n + alignment - 1)) small ∙ omega arith

module _ (h : Heap) (finish required : ℕ) where
  -- The block that the search finds, with the chain behind it.
  pub record Fit (at : ℕ) (c : ℕ) : Type 0 where
    pub before : ℕ
    pub found : Block
    pub after : Blocks
    pub chain : Chain h.chunk finish before c (found ∷ after)
    pub enough : required ≤ found.size
    pub low : at ≤ c

  pub locate :
      (p at : ℕ) (bs : Blocks)
      → Chain h.chunk finish p at bs
      → first_fit required at bs ≢ 0
      → Fit at (first_fit required at bs)
  locate p at [] c nz = absurd (nz refl)
  locate p at (b ∷ bs) (e, c) nz = elim (Bool-cases (not b.used && leb required b.size)) [
    | inl yes_ ↦ simp yes_ (record {
      before = p;
      found = b;
      after = bs;
      chain = (e, c);
      enough = ground arith;
      low = omega arith;
    })
    | inr no_ ↦
        let f = locate at (at + b.size) bs c (simp no_ at nz) in
        simp no_ (record {
          before = f.before;
          found = f.found;
          after = f.after;
          chain = f.chain;
          enough = f.enough;
          low = omega (arith, f.low);
        })
  ]

pub link-take_blocks :
    (required : ℕ) (bs : Blocks) (a : ℕ) → link (take_blocks required bs) a ≡ link bs a
link-take_blocks required [] a = refl
link-take_blocks required (b ∷ bs) a = ground arith

module _ (h : Heap) (finish required : ℕ) (fits : finish < 2 ^ 64) (room : header ≤ required)
    (aligned : required % alignment ≡ 0) where
  -- Taking the first fit turns the chain of `bs` into that of `take_blocks required bs`.
  pub take-Chain :
      (p at : ℕ) (bs : Blocks)
      → Chain h.chunk finish p at bs
      → 64 ≤ at
      → first_fit required at bs ≢ 0
      → Chain
          (take_chunk (first_fit required at bs) required h).1.chunk
          finish
          p
          at
          (take_blocks required bs)
  take-Chain p at [] c low nz = absurd (nz refl)
  take-Chain p at (b ∷ bs) (e, c) low nz = elim (Bool-cases (not b.used && leb required b.size)) [
    | inl here ↦
        simp here
          (take_here h finish required fits room aligned p at b bs (e, c) low (ground arith))
    | inr later ↦
        let nz' : first_fit required (at + b.size) bs ≢ 0 = simp later at nz in
        let f = locate h finish required at (at + b.size) bs c nz' in
        let same : (take_chunk (first_fit required (at + b.size) bs) required h).1.chunk at
            ≡ h.chunk at =
          take_below h finish required fits room aligned (first_fit required (at + b.size) bs) at
            (omega (arith, f.low, e.room)) f.before f.found f.after f.chain f.enough
            (omega (arith, f.low)) in
        simp later (
          record {
            state = ground (arith, same, e.state);
            length = ground (arith, same, e.length);
            next = ground (arith, same, e.next, link-take_blocks required bs (at + b.size));
            prev = ground (arith, same, e.prev);
            room = e.room;
            aligned = e.aligned;
          },
          take-Chain at (at + b.size) bs c (omega arith) nz',
        )
  ]

-- No block of a chain starts before the chain does.
block_at_before :
    (m : ℕ → Chunk) (finish p at : ℕ) (bs : Blocks) (a : ℕ)
    → Chain m finish p at bs
    → a < at
    → block_at at bs a ≡ none
block_at_before m finish p at [] a c lt = refl
block_at_before m finish p at (b ∷ bs) a (e, c) lt =
    let ne : (a == at) ≡ false = ground arith in
    rw ne (block_at_before m finish at (at + b.size) bs a c (omega arith))

pub first_fit_low :
    (required at : ℕ) (bs : Blocks) → first_fit required at bs ≢ 0 → at ≤ first_fit required at bs
first_fit_low required at [] nz = absurd (nz refl)
first_fit_low required at (b ∷ bs) nz = ground (arith, first_fit_low required (at + b.size) bs)

module _ (m : ℕ → Chunk) (finish required : ℕ) (room : header ≤ required) where
  -- The block that was taken is in use and holds `required` bytes.
  pub take_blocks_found :
      (p at : ℕ) (bs : Blocks)
      → Chain m finish p at bs
      → first_fit required at bs ≢ 0
      → (b : Block) × (block_at at (take_blocks required bs) (first_fit required at bs) ≡ some b)
        × (b.used ≡ true)
        × (required ≤ b.size)
  take_blocks_found p at [] c nz = absurd (nz refl)
  take_blocks_found p at (b ∷ bs) (e, c) nz =
      elim (Bool-cases (not b.used && leb required b.size)) [
        | inl here ↦ simp here (taken here)
        | inr later ↦
            let nz' : first_fit required (at + b.size) bs ≢ 0 = simp later at nz in
            let (b', found, used, enough) = take_blocks_found at (at + b.size) bs c nz' in
            let ne : (first_fit required (at + b.size) bs == at) ≡ false =
              ne→==_false _ _
                (omega (arith, first_fit_low required (at + b.size) bs nz', e.room)) in
            simp later (b', rw ne found, used, enough)
      ]
    where
      taken :
          (not b.used && leb required b.size) ≡ true
          → (b' : Block) × (block_at at (carve required b bs) at ≡ some b')
            × (b'.used ≡ true)
            × (required ≤ b'.size)
      taken here = elim (Bool-cases (leb (required + header + min_split) b.size)) [
        | inl big ↦ (block required true, rw big (ground arith), refl, omega arith)
        | inr small ↦ (block b.size true, rw small (ground arith), refl, ground arith)
      ]

  carve-Keeps :
      (p at : ℕ) (b : Block) (bs : Blocks)
      → Chain m finish p at (b ∷ bs)
      → b.used ≡ false
      → Keeps at (b ∷ bs) at (carve required b bs)
  carve-Keeps p at b bs (e, c) free a b' found used = elim (Bool-cases (a == at)) [
    | inl first ↦
        let same : some b ≡ some b' = rw first at found in
        absurd (true≢false (sym used ∙ (ap used_of (sym same) ∙ free)))
    | inr other ↦
        let rest : block_at (at + b.size) bs a ≡ some b' = rw other at found in
        elim (Bool-cases (ltb a (at + b.size))) [
          | inl early ↦ absurd (
              none≢some
                (sym (block_at_before m finish at (at + b.size) bs a c (ltb→lt _ _ early)) ∙ rest))
          | inr late ↦ elim (Bool-cases (leb (required + header + min_split) b.size)) [
            | inr small ↦ rw (small, other) rest
            | inl big ↦
                let miss : (a == at + required) ≡ false = ground arith in
                let back : at + required + (b.size - required) ≡ at + b.size = ground arith in
                rw (big, other, miss, back) rest
          ]
        ]
  ]
    where
      used_of : Option Block → Bool
      used_of none = true
      used_of (some x) = x.used

      true≢false : true ≢ false
      true≢false z = cc

      none≢some : none ≢ some b'
      none≢some z = cc

  -- Blocks in use are not touched.
  pub take_blocks-Keeps :
      (p at : ℕ) (bs : Blocks) → Chain m finish p at bs → Keeps at bs at (take_blocks required bs)
  take_blocks-Keeps p at [] c a b' found used = found
  take_blocks-Keeps p at (b ∷ bs) (e, c) a b' found used =
      elim (Bool-cases (not b.used && leb required b.size)) [
        | inl here ↦ simp here (carve-Keeps p at b bs (e, c) (ground arith) a b' found used)
        | inr later ↦ simp later (elim (Bool-cases (a == at)) [
          | inl first ↦ rw first (rw first at found)
          | inr other ↦
              rw other (take_blocks-Keeps at (at + b.size) bs c a b' (rw other at found) used)
        ])
      ]
