-- ===== src/Kmalloc.antt =====
-- The kernel heap, kernel/lib/kmalloc.c. Chunk headers are kept by address; two headers are taken not
-- to overlap, and the bytes between headers belong to the callers and are not modelled. The virtual
-- memory manager is the interface `Vm`. Each walk along `next` gets as many rounds as the heap has
-- bytes, and one more: `none` would be a walk that does not end.
pub mod Blocks
pub mod Take
pub mod Search
pub mod Grow
pub mod Alloc
pub mod Extend
pub mod Serve
pub mod Free
pub mod Release
pub mod Merge
pub mod Returned
pub mod Kernel
pub mod Tests
use archa_os.Mm.Pmm.{Boot, running, panic}
use archa_os.Base.{
  ℕ, zero, suc, ◌+◌, ◌-◌, ◌*◌, ◌/◌, ◌%◌, ◌^◌, Bool, true, false, ◌==◌, ltb, leb, if◌then◌else◌, not,
  ◌&&◌, ◌||◌, bit_and, Option, none, some,
}

abbrev pub u64 : ℕ → ℕ
u64 n = n % 2 ^ 64

abbrev pub page_size : ℕ
page_size = 0x1000

abbrev pub state_free : ℕ
state_free = 0xA1A1A1A1

abbrev pub state_used : ℕ
state_used = 0xBFBFBFBF

abbrev pub alignment : ℕ
alignment = 16

abbrev pub min_split : ℕ
min_split = 32

-- `sizeof(kmalloc_chunk_t)`: four words.
abbrev pub header : ℕ
header = 32

-- `kmalloc_chunk_t`.
pub record Chunk : Type 0 where
  pub state : ℕ
  pub length : ℕ
  pub next : ℕ
  pub prev : ℕ

pub record Heap : Type 0 where
  pub head : ℕ
  pub heap_start : ℕ
  pub heap_end : ℕ
  pub chunk : ℕ → Chunk

-- `*a = c`.
abbrev pub put : (ℕ → Chunk) → ℕ → Chunk → ℕ → Chunk
put m a c x = if x == a then c else m x

abbrev pub write : ℕ → Chunk → Heap → Heap
write a c h = record h { chunk = put h.chunk a c }

-- `value + alignment - 1 & ~(alignment - 1)` on 64-bit words.
unfoldable pub align_up : ℕ → ℕ → ℕ
align_up value alignment = bit_and (u64 (value + alignment - 1)) (2 ^ 64 - alignment)

unfoldable pub kmalloc_init : Heap → Heap
kmalloc_init h = record h { head = 0; heap_start = 0; heap_end = 0 }

-- `if (p) p->prev = v`.
unfoldable pub set_prev : ℕ → ℕ → Heap → Heap
set_prev p v h = if p == 0 then h else write p (record (h.chunk p) { prev = v }) h

-- The part of `kmerge_next` behind its guards.
unfoldable pub absorb : ℕ → Heap → Heap
absorb c h =
    let n = (h.chunk c).next in
    let h₁ =
      write c
        (record (h.chunk c) {
          length = u64 ((h.chunk c).length + (h.chunk n).length);
          next = (h.chunk n).next;
        })
        h in
    set_prev (h₁.chunk c).next c h₁

unfoldable pub kmerge_next : ℕ → Heap → Heap
kmerge_next c h =
    if c == 0
    then h
    else if not ((h.chunk c).state == state_free)
    then h
    else if (h.chunk c).next == 0
    then h
    else if not ((h.chunk (h.chunk c).next).state == state_free)
    then h
    else absorb c h

-- `while (last->next) last = last->next`.
unfoldable pub find_last : ℕ → (ℕ → Chunk) → ℕ → Option ℕ
find_last zero m a = none
find_last (suc fuel) m a =
    let rest = find_last fuel m (m a).next in if (m a).next == 0 then some a else rest

-- The search for a free chunk that is large enough; 0 is NULL.
unfoldable pub find_fit : ℕ → (ℕ → Chunk) → ℕ → ℕ → Option ℕ
find_fit zero m required a = none
find_fit (suc fuel) m required a =
    let rest = find_fit fuel m required (m a).next in
    if a == 0
    then some 0
    else if ((m a).state == state_free) && leb required (m a).length
    then some a
    else rest

abbrev pub rounds : Heap → ℕ
rounds h = suc (h.heap_end - h.heap_start)

-- What the heap uses of the virtual memory manager: `vallocs` and `vfrees` over a state of its own;
-- `vallocs` can end in a panic.
pub record Vm : Type 1 where
  pub State : Type 0
  pub vallocs : Bool → ℕ → State → Boot (ℕ × State)
  pub vfrees : ℕ → ℕ → State → State

unfoldable pub ksplit : ℕ → ℕ → Heap → Heap
ksplit c length h =
    let n = u64 (c + length) in
    let h₁ =
      write n
        (record {
          state = state_free;
          length = u64 ((h.chunk c).length + (2 ^ 64 - length));
          next = (h.chunk c).next;
          prev = c;
        })
        h in
    let h₂ = set_prev (h₁.chunk c).next n h₁ in
    write c (record (h₂.chunk c) { next = n; length = length }) h₂

-- The end of `kmalloc`, once `c` is a chunk that is large enough.
unfoldable pub take_chunk : ℕ → ℕ → Heap → ℕ × Heap
take_chunk c required h =
    let h₁ =
      if leb (u64 (required + header + min_split)) (h.chunk c).length
      then ksplit c required h
      else h in
    (u64 (c + header), write c (record (h₁.chunk c) { state = state_used }) h₁)

-- The first pages of the heap.
unfoldable pub found_heap : ℕ → ℕ → Heap → Heap
found_heap address bytes h =
    write address (record { state = state_free; length = bytes; next = 0; prev = 0 })
      (record h { head = address; heap_start = address; heap_end = u64 (address + bytes) })

-- More pages behind the last chunk.
unfoldable pub extend_heap : ℕ → ℕ → ℕ → Heap → Heap
extend_heap last address bytes h =
    let h₁ =
      write address (record { state = state_free; length = bytes; next = 0; prev = last }) h in
    let h₂ = write last (record (h₁.chunk last) { next = address }) h₁ in
    let h₃ = record h₂ { heap_end = u64 (h₂.heap_end + bytes) } in
    if (h₃.chunk last).state == state_free then kmerge_next last h₃ else h₃

module _ (vm : Vm) where
  open vm use {State, vallocs, vfrees}

  -- What follows a call that can panic (`some panic`) or not end (`none`).
  abbrev pub and_go : {A B : Type 0} → Option (Boot A) → (A → Option (Boot B)) → Option (Boot B)
  and_go none f = none
  and_go (some panic) f = some panic
  and_go (some (running a)) f = f a

  unfoldable pub kmalloc_grow : ℕ → Heap → State → Option (Boot (Bool × Heap × State))
  kmalloc_grow size h v =
      let bytes = align_up size page_size in
      let pages = bytes / page_size in
      and_go (some (vallocs true pages v)) λ (address, v').
        if address == 0
        then some (running (false, h, v'))
        else if h.head == 0
        then some (running (true, found_heap address bytes h, v'))
        else if not (address == h.heap_end)
        then some (running (false, h, vfrees address pages v'))
        else elim (find_last (rounds h) h.chunk h.head) [
          | none ↦ none
          | some last ↦ some (running (true, extend_heap last address bytes h, v'))
        ]

  -- The search after the heap has grown.
  unfoldable pub retry : ℕ → Heap → State → Option (Boot (ℕ × Heap × State))
  retry required h v = elim (find_fit (rounds h) h.chunk required h.head) [
    | none ↦ none
    | some c ↦
        if c == 0
        then some (running (0, h, v))
        else let (p, h') = take_chunk c required h in some (running (p, h', v))
  ]

  unfoldable pub grow_and_retry : ℕ → Heap → State → Option (Boot (ℕ × Heap × State))
  grow_and_retry required h v =
      let grow_size = if ltb required (16 * page_size) then 16 * page_size else required in
      and_go (kmalloc_grow grow_size h v)
        λ (grown, h', v'). if not grown then some (running (0, h', v')) else retry required h' v'

  unfoldable pub kmalloc : ℕ → Heap → State → Option (Boot (ℕ × Heap × State))
  kmalloc size h v =
      let required = u64 (align_up size alignment + header) in
      if size == 0
      then some (running (0, h, v))
      else elim (find_fit (rounds h) h.chunk required h.head) [
        | none ↦ none
        | some c ↦
            if c == 0
            then grow_and_retry required h v
            else let (p, h') = take_chunk c required h in some (running (p, h', v))
      ]

  -- A product cut to `int`, as the 64-bit word that `kmalloc` and `memset` are then given.
  unfoldable pub int_size : ℕ → ℕ → ℕ
  int_size num len =
      let low = u64 (num * len) % 2 ^ 32 in
      if ltb low (2 ^ 31) then low else low + (2 ^ 64 - 2 ^ 32)

  -- `kcalloc` with the `memset(ptr, 0, size)` that it makes, if it makes one: address and count.
  pub record Calloc : Type 0 where
    pub ptr : ℕ
    pub cleared : Option (ℕ × ℕ)
    pub heap : Heap
    pub vm_state : State

  unfoldable pub kcalloc : ℕ → ℕ → Heap → State → Option (Boot Calloc)
  kcalloc num len h v =
      let nothing : Calloc = record { ptr = 0; cleared = none; heap = h; vm_state = v } in
      if (num == 0) || (len == 0)
      then some (running nothing)
      else and_go (kmalloc (int_size num len) h v) λ (p, h', v'). some (
          running
            (record { ptr = p; cleared = some (p, int_size num len); heap = h'; vm_state = v' }))

unfoldable pub kfree : ℕ → Heap → Heap
kfree ptr h =
    let c = u64 (ptr + (2 ^ 64 - header)) in
    if ptr == 0
    then h
    else if not ((h.chunk c).state == state_used)
    then h
    else let h₁ = write c (record (h.chunk c) { state = state_free }) h in
      let prev = (h₁.chunk c).prev in
      let h₂ = if prev == 0 then h₁ else kmerge_next prev h₁ in kmerge_next c h₂
