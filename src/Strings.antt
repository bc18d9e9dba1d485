-- ===== src/Strings.antt =====
-- Memory and strings, kernel/lib/string.c. Memory is the bytes by address; the ranges that a function
-- is given do not run past the end of the address space. `memcpy` is the C body, which is compiled
-- where the string instruction of the processor is not used. A walk to the end of a string has fuel:
-- `none` is a string without an end in reach.
pub mod Ranges
pub mod Search
pub mod Compare
pub mod Tests
use archa_os.Base.{
  ℕ, zero, suc, ◌+◌, ◌-◌, ◌*◌, ◌/◌, ◌%◌, Bool, true, false, ◌==◌, ltb, leb, if◌then◌else◌, not,
  ◌&&◌, ◌||◌, Option, none, some, ℤ, pos, negsuc, diff,
}

abbrev pub Memory : Type 0
Memory = ℕ → ℕ

-- `*a = v`.
abbrev pub store : Memory → ℕ → ℕ → Memory
store m a v x = if x == a then v else m x

-- `*(unaligned_u64 *)d = *(const unaligned_u64 *)s`: all eight bytes are read before any is written.
abbrev pub copy_word : ℕ → ℕ → Memory → Memory
copy_word d s m x = if leb d x && ltb x (d + 8) then m (s + (x - d)) else m x

-- The variables of `memcpy` between its loops.
pub record Copy : Type 0 where
  pub d : ℕ
  pub s : ℕ
  pub n : ℕ
  pub memory : Memory

-- `while (n >= 32)`.
unfoldable pub copy_blocks : ℕ → Copy → Copy
copy_blocks zero c = c
copy_blocks (suc fuel) c =
    let m₁ = copy_word c.d c.s c.memory in
    let m₂ = copy_word (c.d + 8) (c.s + 8) m₁ in
    let m₃ = copy_word (c.d + 16) (c.s + 16) m₂ in
    let m₄ = copy_word (c.d + 24) (c.s + 24) m₃ in
    let rest =
      copy_blocks fuel (record { d = c.d + 32; s = c.s + 32; n = c.n - 32; memory = m₄ }) in
    if leb 32 c.n then rest else c

-- `while (n >= 8)`.
unfoldable pub copy_words : ℕ → Copy → Copy
copy_words zero c = c
copy_words (suc fuel) c =
    let rest =
      copy_words fuel
        (record { d = c.d + 8; s = c.s + 8; n = c.n - 8; memory = copy_word c.d c.s c.memory }) in
    if leb 8 c.n then rest else c

-- `while (n--) *d++ = *s++`.
unfoldable pub copy_up : ℕ → ℕ → ℕ → Memory → Memory
copy_up zero d s m = m
copy_up (suc n) d s m = copy_up n (d + 1) (s + 1) (store m d (m s))

-- Each round of the first two loops takes bytes off `n`, so `n` rounds are enough.
unfoldable pub memcpy : ℕ → ℕ → ℕ → Memory → ℕ × Memory
memcpy dest src n m =
    let c₁ = copy_blocks n (record { d = dest; s = src; n = n; memory = m }) in
    let c₂ = copy_words c₁.n c₁ in (dest, copy_up c₂.n c₂.d c₂.s c₂.memory)

-- `while (n--) *--d = *--s`.
unfoldable pub copy_down : ℕ → ℕ → ℕ → Memory → Memory
copy_down zero d s m = m
copy_down (suc n) d s m = copy_down n (d - 1) (s - 1) (store m (d - 1) (m (s - 1)))

unfoldable pub memmove : ℕ → ℕ → ℕ → Memory → ℕ × Memory
memmove dest src n m =
    (dest, if ltb dest src then copy_up n dest src m else copy_down n (dest + n) (src + n) m)

unfoldable pub fill : ℕ → ℕ → ℕ → Memory → Memory
fill zero p value m = m
fill (suc n) p value m = fill n (p + 1) value (store m p (value % 256))

unfoldable pub memset : ℕ → ℕ → ℕ → Memory → ℕ × Memory
memset ptr value n m = (ptr, fill n ptr value m)

unfoldable pub memcmp : ℕ → ℕ → ℕ → Memory → ℤ
memcmp a b zero m = pos 0
memcmp a b (suc n) m =
    let rest = memcmp (a + 1) (b + 1) n m in if not (m a == m b) then diff (m a) (m b) else rest

unfoldable pub strcpy_loop : ℕ → ℕ → ℕ → Memory → Option Memory
strcpy_loop zero dest src m = none
strcpy_loop (suc fuel) dest src m =
    let m' = store m dest (m src) in
    let rest = strcpy_loop fuel (dest + 1) (src + 1) m' in if m src == 0 then some m' else rest

unfoldable pub strcpy : ℕ → ℕ → ℕ → Memory → Option (ℕ × Memory)
strcpy fuel dest src m = elim (strcpy_loop fuel dest src m) [
  | none ↦ none
  | some m' ↦ some (dest, m')
]

unfoldable pub strcmp : ℕ → ℕ → ℕ → Memory → Option ℤ
strcmp zero a b m = none
strcmp (suc fuel) a b m =
    let rest = strcmp fuel (a + 1) (b + 1) m in
    if not (m a == 0) && (m a == m b) then rest else some (diff (m a) (m b))

-- The bound `n` counts the rounds.
unfoldable pub strncmp : ℕ → ℕ → ℕ → Memory → ℤ
strncmp a b zero m = pos 0
strncmp a b (suc n) m =
    let rest = strncmp (a + 1) (b + 1) n m in
    if not (m a == 0) && (m a == m b) then rest else diff (m a) (m b)

-- `c` is an `int` of which `(char)c` is the low byte; 0 is NULL.
unfoldable pub strchr : ℕ → ℕ → ℕ → Memory → Option ℕ
strchr zero str c m = none
strchr (suc fuel) str c m =
    let rest = strchr fuel (str + 1) c m in
    if m str == 0
    then some (if c == 0 then str else 0)
    else if m str == c % 256
    then some str
    else rest

unfoldable pub strlen_loop : ℕ → ℕ → ℕ → Memory → Option ℕ
strlen_loop zero str len m = none
strlen_loop (suc fuel) str len m =
    let rest = strlen_loop fuel (str + 1) (len + 1) m in if m str == 0 then some len else rest

unfoldable pub strlen : ℕ → ℕ → Memory → Option ℕ
strlen fuel str m = if str == 0 then some 0 else strlen_loop fuel str 0 m

unfoldable pub strrchr_loop : ℕ → ℕ → ℕ → ℕ → Memory → Option ℕ
strrchr_loop zero str c last m = none
strrchr_loop (suc fuel) str c last m =
    let last' = if m str == c % 256 then str else last in
    let rest = strrchr_loop fuel (str + 1) c last' m in if m str == 0 then some last' else rest

unfoldable pub strrchr : ℕ → ℕ → ℕ → Memory → Option ℕ
strrchr fuel str c m = if str == 0 then some 0 else strrchr_loop fuel str c 0 m
