-- ===== src/Kmalloc/Take.antt =====
-- The split and the marking of a chunk, on the list of blocks.
use archa_os.Base.{
  ℕ, ◌+◌, ◌-◌, ◌%◌, ◌^◌, ◌≤◌, ◌<◌, ◌≡◌, ◌≢◌, refl, true, false, not, ◌&&◌, arith, leb, ltb,
  if◌then◌else◌, inl, inr, Bool-cases, lt→ltb, lt_of_leb, [], ◌∷◌, sym, ◌∙◌, ap,
}
use mathlib.Core.Path.{subst}
use archa_os.Kmalloc.{
  Heap, put, state_free, state_used, header, min_split, alignment, set_prev, ksplit, take_chunk,
  u64,
}
use archa_os.Kmalloc.Blocks.{
  Block, block, Blocks, link, Chain, Chain-frame, Chain-relink, Chain-total,
}

-- A free block cut to `required` bytes if what is left over can hold a header and 32 bytes.
abbrev pub carve : ℕ → Block → Blocks → Blocks
carve required b bs =
    if leb (required + header + min_split) b.size
    then block required true ∷ block (b.size - required) false ∷ bs
    else block b.size true ∷ bs

-- The first block that fits is taken.
abbrev pub take_blocks : ℕ → Blocks → Blocks
take_blocks required [] = []
take_blocks required (b ∷ bs) =
    if not b.used && leb required b.size then carve required b bs else b ∷ take_blocks required bs

-- The pointer behind a block is NULL or the address behind it.
link_apart : (bs : Blocks) (a x : ℕ) → x < a → 0 < x → link bs a ≢ x
link_apart [] a x lt pos = omega arith
link_apart (b ∷ bs) a x lt pos = omega arith

pub link_le : (bs : Blocks) (a : ℕ) → link bs a ≤ a
link_le [] a = omega arith
link_le (b ∷ bs) a = omega arith

pub link_self : (bs : Blocks) (a : ℕ) → bs ≢ [] → link bs a ≡ a
link_self [] a ne = absurd (ne refl)
link_self (b ∷ bs) a ne = refl

module _ (h : Heap) (c required : ℕ) where
  -- What `take_chunk` does to each header, without a split.
  whole :
      ltb (h.chunk c).length (u64 (required + header + min_split)) ≡ true
      → (take_chunk c required h).1.chunk
        ≡ put h.chunk c (record (h.chunk c) { state = state_used })
  unfolding take_chunk
  whole lt = ground arith

  -- The same with a split, where `n` is the new header and `next` the old successor.
  module _ (n next : ℕ) (at_n : u64 (c + required) ≡ n) (at_next : (h.chunk c).next ≡ next)
      (ne : n ≢ c) (apart : next ≢ c)
      (fits : leb (u64 (required + header + min_split)) (h.chunk c).length ≡ true) where
    split_c :
        (take_chunk c required h).1.chunk c
        ≡ record { state = state_used; length = required; next = n; prev = (h.chunk c).prev }
    unfolding take_chunk ksplit set_prev
    split_c = ground arith

    split_n :
        next ≢ n
        → (take_chunk c required h).1.chunk n ≡ record {
          state = state_free;
          length = u64 ((h.chunk c).length + (2 ^ 64 - required));
          next = next;
          prev = c;
        }
    unfolding take_chunk ksplit set_prev
    split_n d = ground arith

    split_next :
        next ≢ 0
        → next ≢ n
        → (take_chunk c required h).1.chunk next ≡ record (h.chunk next) { prev = n }
    unfolding take_chunk ksplit set_prev
    split_next nz d = ground arith

    split_other :
        (x : ℕ)
        → x ≢ c
        → x ≢ n
        → (next ≢ 0 → x ≢ next)
        → (take_chunk c required h).1.chunk x ≡ h.chunk x
    unfolding take_chunk ksplit set_prev
    split_other x a b z = ground arith

module _ (h : Heap) (finish required : ℕ) (fits : finish < 2 ^ 64) (room : header ≤ required)
    (aligned : required % alignment ≡ 0) where
  take_whole :
      (p c : ℕ) (b : Block) (bs : Blocks)
      → Chain h.chunk finish p c (b ∷ bs)
      → ltb (h.chunk c).length (u64 (required + header + min_split)) ≡ true
      → Chain (take_chunk c required h).1.chunk finish p c (block b.size true ∷ bs)
  take_whole p c b bs (e, rest) lt =
      let same = whole h c required lt in
      let here : (take_chunk c required h).1.chunk c ≡ record (h.chunk c) { state = state_used } =
        ap (λ f. f c) same ∙ ground arith in
      (
        record {
          state = ground (arith, here);
          length = ground (arith, here, e.length);
          next = ground (arith, here, e.next);
          prev = ground (arith, here, e.prev);
          room = e.room;
          aligned = e.aligned;
        },
        Chain-frame h.chunk (take_chunk c required h).1.chunk finish c (c + b.size) bs rest
            (λ x le. ap (λ f. f x) same ∙ (let r = e.room in ground arith)),
      )

  take_split :
      (p c : ℕ) (b : Block) (bs : Blocks)
      → Chain h.chunk finish p c (b ∷ bs)
      → 64 ≤ c
      → required + 64 ≤ b.size
      → Chain
          (take_chunk c required h).1.chunk
          finish
          p
          c
          (block required true ∷ block (b.size - required) false ∷ bs)
  take_split p c b bs (e, rest) low big =
      let all = Chain-total h.chunk finish c (c + b.size) bs rest in
      let n = c + required in
      let next = link bs (c + b.size) in
      let at_n : u64 (c + required) ≡ n = omega (arith, all, big) in
      let test : leb (u64 (required + header + min_split)) (h.chunk c).length ≡ true =
        rw e.length (ground (arith, all)) in
      let apart = link_apart bs (c + b.size) in
      let n_c : n ≢ c = omega (arith, room) in
      let next_c : next ≢ c = apart c (omega (arith, room)) (omega arith) in
      let next_n : next ≢ n = apart n (omega (arith, room)) (omega (arith, room)) in
      let back : c + b.size ≡ n + (b.size - required) = omega (arith, big) in
      let first = split_c h c required n next at_n e.next n_c next_c test in
      let second = split_n h c required n next at_n e.next n_c next_c test next_n in
      (
        record {
          state = ground (arith, first);
          length = ground (arith, first);
          next = ground (arith, first);
          prev = ground (arith, first, e.prev);
          room = room;
          aligned = aligned;
        },
        (
          record {
            state = ground (arith, second);
            length = rw second (ground (arith, e.length, all));
            next = rw second (ap (link bs) (omega (arith, big)));
            prev = ground (arith, second);
            room = omega (arith, big);
            aligned = omega (arith, e.aligned, aligned);
          },
          subst (λ a. Chain (take_chunk c required h).1.chunk finish n a bs) back
              (Chain-relink h.chunk (take_chunk c required h).1.chunk finish c n (c + b.size) bs
                rest
                (λ x lt.
                  split_other h c required n next at_n e.next n_c next_c test x (omega arith)
                    (omega (arith, room)) (λ _. omega (arith, link_le bs (c + b.size))))
                (λ some_left.
                  let l : next ≡ c + b.size = link_self bs (c + b.size) some_left in
                  subst (λ a. (take_chunk c required h).1.chunk a ≡ record (h.chunk a) { prev = n })
                    l
                    (split_next h c required n next at_n e.next n_c next_c test (omega (arith, l))
                      next_n))),
        ),
      )

  -- The block that was found is carved; the others keep their place.
  pub take_here :
      (p c : ℕ) (b : Block) (bs : Blocks)
      → Chain h.chunk finish p c (b ∷ bs)
      → 64 ≤ c
      → required ≤ b.size
      → Chain (take_chunk c required h).1.chunk finish p c (carve required b bs)
  take_here p c b bs chain low enough =
      let all = Chain-total h.chunk finish p c (b ∷ bs) chain in
      let (e, rest) = chain in
      let wrap : u64 (required + header + min_split) ≡ required + header + min_split =
        omega (arith, all) in
      elim (Bool-cases (leb (required + header + min_split) b.size)) [
        | inl big ↦ rw big (take_split p c b bs chain low (ground arith))
        | inr small ↦
            rw small
              (take_whole p c b bs chain (rw (e.length, wrap) (lt→ltb _ _ (lt_of_leb _ _ small))))
      ]

  pub take_below :
      (c x : ℕ)
      → x < c
      → (p : ℕ) (b : Block) (bs : Blocks) → Chain h.chunk finish p c (b ∷ bs)
      → required ≤ b.size
      → 64 ≤ c
      → (take_chunk c required h).1.chunk x ≡ h.chunk x
  take_below c x lt p b bs (e, rest) enough low =
      let all = Chain-total h.chunk finish c (c + b.size) bs rest in
      elim (Bool-cases (leb (u64 (required + header + min_split)) (h.chunk c).length)) [
        | inr small ↦ ap (λ f. f x) (whole h c required (ground arith)) ∙ ground arith
        | inl big ↦
            split_other h c required (c + required) (link bs (c + b.size)) (omega (arith, all))
              e.next (omega (arith, room))
              (link_apart bs (c + b.size) c (let r = e.room in omega arith) (omega arith)) big x
              (omega arith) (omega arith)
              (λ nz same.
                link_apart bs (c + b.size) x (let r = e.room in omega arith) (omega arith)
                  (sym same))
      ]
