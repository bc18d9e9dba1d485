-- ===== src/Kmalloc/Free.antt =====
-- `kfree`: what it does to the headers, by the state of the two neighbours.
use archa_os.Base.{
  ℕ, ◌+◌, ◌-◌, ◌^◌, ◌<◌, ◌≡◌, ◌≢◌, refl, true, false, arith, ◌==◌, ==_iff, if◌then◌else◌, inl, inr,
  ◌⊎◌, ◌||◌, not, Bool-cases, sym, ◌∙◌, ap, ne→==_false,
}
use archa_os.Kmalloc.{
  Chunk, Heap, write, state_free, state_used, header, u64, kfree, kmerge_next, absorb, set_prev,
}

-- Whether `kmerge_next c` merges.
pub merges :
    (c n : ℕ) (h : Heap)
    → c ≢ 0
    → n ≢ 0
    → n ≢ c
    → (h.chunk c).state ≡ state_free
    → (h.chunk c).next ≡ n
    → (h.chunk n).state ≡ state_free
    → kmerge_next c h
      ≡ set_prev (h.chunk n).next c (
          write c
            (record (h.chunk c) {
              length = u64 ((h.chunk c).length + (h.chunk n).length);
              next = (h.chunk n).next;
            })
            h)
unfolding kmerge_next absorb
merges c n h nz nz' apart free en free' =
    let hit : (c == c) ≡ true = ground arith in
    simp (ne→==_false _ _ nz, en, ne→==_false _ _ nz', free, free', hit) refl

pub merges_not :
    (c n : ℕ) (h : Heap)
    → (h.chunk c).next ≡ n
    → ((h.chunk c).state ≡ state_used) ⊎ ((n ≡ 0) ⊎ ((h.chunk n).state ≡ state_used))
    → kmerge_next c h ≡ h
unfolding kmerge_next
merges_not c n h en why = ground arith

abbrev pub freed : Heap → ℕ → Chunk
freed h c = record (h.chunk c) { state = state_free }

-- The chunk at `c` marked free.
abbrev pub marked : Heap → ℕ → Heap
marked h c = write c (freed h c) h

-- And then taken in by the free chunk `p` before it; `n` is the next chunk.
abbrev pub absorbed : Heap → ℕ → ℕ → ℕ → Heap
absorbed h c p n = set_prev n p (
    write p
      (record (h.chunk p) { length = u64 ((h.chunk p).length + (h.chunk c).length); next = n })
      (marked h c))

module _ (h : Heap) (c : ℕ) (fits : c + header < 2 ^ 64)
    (used : (h.chunk c).state ≡ state_used) where
  -- The steps of `kfree` on a chunk in use.
  pub kfree_steps :
      (p : ℕ)
      → (h.chunk c).prev ≡ p
      → kfree (c + header) h
        ≡ kmerge_next c (if p == 0 then (marked h c) else kmerge_next p (marked h c))
  unfolding kfree
  kfree_steps p ep =
      let back : u64 (c + header + (2 ^ 64 - header)) ≡ c = omega arith in
      let nz : (c + header == 0) ≡ false = ground arith in
      let hit : (c == c) ≡ true = ground arith in simp (back, nz, used, hit, ep) refl

  pub marked_at : (x : ℕ) → x ≢ c → (marked h c).chunk x ≡ h.chunk x
  marked_at x ne = ground arith

  module _ (p n : ℕ) (ep : (h.chunk c).prev ≡ p) (en : (h.chunk c).next ≡ n) (pc : p ≢ c)
      (nc : n ≢ c) (cz : c ≢ 0) where
    marked-c : (marked h c).chunk c ≡ (freed h c)
    marked-c = ground arith

    -- The predecessor is not free: `kfree` marks, and merges with the next chunk if that is free.
    first_merge_not :
        (p ≡ 0) ⊎ ((h.chunk p).state ≡ state_used)
        → (if p == 0 then (marked h c) else kmerge_next p (marked h c)) ≡ (marked h c)
    first_merge_not (inl z) = ground arith
    first_merge_not (inr busy) =
        let stays : kmerge_next p (marked h c) ≡ (marked h c) =
          merges_not p ((marked h c).chunk p).next (marked h c) refl
            (inl (ground (arith, marked_at p pc))) in
        ground arith

    pub alone :
        (p ≡ 0) ⊎ ((h.chunk p).state ≡ state_used)
        → (n ≡ 0) ⊎ ((h.chunk n).state ≡ state_used)
        → kfree (c + header) h ≡ (marked h c)
    alone a b =
        kfree_steps p ep
        ∙ (ap (kmerge_next c) (first_merge_not a)
            ∙ merges_not c n (marked h c) (ground arith) (inr (ground (arith, marked_at n nc))))

    pub with_next :
        (p ≡ 0) ⊎ ((h.chunk p).state ≡ state_used)
        → n ≢ 0
        → (h.chunk n).state ≡ state_free
        → kfree (c + header) h
          ≡ set_prev (h.chunk n).next c (
              write c
                (record (freed h c) {
                  length = u64 ((h.chunk c).length + (h.chunk n).length);
                  next = (h.chunk n).next;
                })
                (marked h c))
    with_next a nz free =
        kfree_steps p ep
        ∙ (ap (kmerge_next c) (first_merge_not a)
            ∙ (merges c n (marked h c) cz nz nc (ground arith) (ground arith)
                  (ground (arith, marked_at n nc))
                ∙ simp (marked-c, marked_at n nc) refl))

    module _ (pz : p ≢ 0) (pn : p ≢ n) (free : (h.chunk p).state ≡ state_free)
        (back : (h.chunk p).next ≡ c) where
      first_merge :
          (if p == 0 then (marked h c) else kmerge_next p (marked h c)) ≡ (absorbed h c p n)
      first_merge =
          let at_p = marked_at p pc in
          let nz : (p == 0) ≡ false = ne→==_false _ _ pz in
          let hit : (c == c) ≡ true = ground arith in
          simp nz (
            merges p c (marked h c) pz cz (λ e. pc (sym e)) (ground (arith, at_p))
              (ground (arith, at_p)) (ground (arith, marked-c))
            ∙ simp (hit, ne→==_false _ _ pc, en) refl)

      pub absorbed-c : (absorbed h c p n).chunk c ≡ (freed h c)
      unfolding set_prev
      absorbed-c = ground arith

      pub absorbed-n : n ≢ 0 → (absorbed h c p n).chunk n ≡ record (h.chunk n) { prev = p }
      unfolding set_prev
      absorbed-n nz = ground arith

      -- The next chunk is not free: `kfree` is done.
      pub with_prev :
          (n ≡ 0) ⊎ ((h.chunk n).state ≡ state_used) → kfree (c + header) h ≡ (absorbed h c p n)
      with_prev b =
          kfree_steps p ep
          ∙ (ap (kmerge_next c) first_merge
              ∙ merges_not c n (absorbed h c p n) (ground (arith, absorbed-c, en))
                  (inr (after_n b)))
        where
          after_n :
              (n ≡ 0) ⊎ ((h.chunk n).state ≡ state_used)
              → (n ≡ 0) ⊎ (((absorbed h c p n).chunk n).state ≡ state_used)
          after_n (inl z) = inl z
          after_n (inr busy) = elim (Bool-cases (n == 0)) [
            | inl z ↦ inl ((==_iff _ _).0 z)
            | inr nz ↦ inr (ap (λ k. k.state) (absorbed-n (ground arith)) ∙ busy)
          ]

      -- It is free too: `c`, which is no chunk any more, takes it in.
      pub with_both :
          n ≢ 0
          → (h.chunk n).state ≡ state_free
          → kfree (c + header) h
            ≡ set_prev (h.chunk n).next c (
                write c
                  (record (freed h c) {
                    length = u64 ((h.chunk c).length + (h.chunk n).length);
                    next = (h.chunk n).next;
                  })
                  (absorbed h c p n))
      with_both nz free' =
          kfree_steps p ep
          ∙ (ap (kmerge_next c) first_merge
              ∙ (merges c n (absorbed h c p n) cz nz nc (ap (λ k. k.state) absorbed-c)
                    (ap (λ k. k.next) absorbed-c ∙ en) (ap (λ k. k.state) (absorbed-n nz) ∙ free')
                  ∙ same ((absorbed h c p n).chunk c) ((absorbed h c p n).chunk n) absorbed-c
                      (absorbed-n nz)))
        where
          same :
              (x y : Chunk)
              → x ≡ (freed h c)
              → y ≡ record (h.chunk n) { prev = p }
              → set_prev y.next c (
                  write c
                    (record x { length = u64 (x.length + y.length); next = y.next })
                    (absorbed h c p n))
                ≡ set_prev (h.chunk n).next c (
                    write c
                      (record (freed h c) {
                        length = u64 ((h.chunk c).length + (h.chunk n).length);
                        next = (h.chunk n).next;
                      })
                      (absorbed h c p n))
          same x y e f = simp (e, f) refl

abbrev state_at : Heap → ℕ → ℕ
state_at h a = (h.chunk a).state

set_prev-state : (p v : ℕ) (h : Heap) (a : ℕ) → state_at (set_prev p v h) a ≡ state_at h a
unfolding set_prev
set_prev-state p v h a = ground arith

absorb-state : (c : ℕ) (h : Heap) (a : ℕ) → state_at (absorb c h) a ≡ state_at h a
unfolding absorb
absorb-state c h a = set_prev-state _ c _ a ∙ ground arith

kmerge_next-state : (c : ℕ) (h : Heap) (a : ℕ) → state_at (kmerge_next c h) a ≡ state_at h a
unfolding kmerge_next
kmerge_next-state c h a = ground (arith, absorb-state c h a)

-- A free of something that is no chunk in use.
kfree_idle :
    (ptr : ℕ) (h : Heap)
    → (ptr ≡ 0) ⊎ (state_at h (u64 (ptr + (2 ^ 64 - header))) ≢ state_used)
    → kfree ptr h ≡ h
unfolding kfree
kfree_idle ptr h (inl z) = ground arith
kfree_idle ptr h (inr ne) = ground arith

merged-state :
    (c p : ℕ) (h : Heap) (a : ℕ)
    → state_at (kmerge_next c (if p == 0 then h else kmerge_next p h)) a ≡ state_at h a
merged-state c p h a = elim (Bool-cases (p == 0)) [
  | inl z ↦ rw z (kmerge_next-state c h a)
  | inr nz ↦ rw nz (kmerge_next-state c (kmerge_next p h) a ∙ kmerge_next-state p h a)
]

-- On headers that are kept apart, a second `kfree` of a pointer changes nothing.
pub kfree_twice_lem : (ptr : ℕ) (h : Heap) → kfree ptr (kfree ptr h) ≡ kfree ptr h
kfree_twice_lem ptr h = elim (Bool-cases ((ptr == 0) || not (state_at h c == state_used))) [
  | inl idle ↦ let e = kfree_idle ptr h (ground arith) in ap (kfree ptr) e
  | inr acts ↦ kfree_idle ptr (kfree ptr h) (inr (freed_state (ground arith) (ground arith)))
]
  where
    c : ℕ
    c = u64 (ptr + (2 ^ 64 - header))

    freed_state :
        (ptr == 0) ≡ false
        → (state_at h c == state_used) ≡ true
        → state_at (kfree ptr h) c ≢ state_used
    freed_state nz used =
        let free : state_at (marked h c) c ≡ state_free = ground arith in
        unfold kfree in
        simp (nz, used)
          (rw (merged-state c ((marked h c).chunk c).prev (marked h c) c, free) (omega arith))
