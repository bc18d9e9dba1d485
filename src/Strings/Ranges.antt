-- ===== src/Strings/Ranges.antt =====
-- `memcpy`, `memmove` and `memset`: which bytes they change, and to what.
use archa_os.Base.{
  ℕ, zero, suc, ◌+◌, ◌-◌, ◌%◌, ◌≤◌, ◌<◌, ◌≡◌, refl, arith, ltb, leb, if◌then◌else◌, ◌&&◌, inl, inr,
  ◌⊎◌, Bool-cases, sym, ◌∙◌, ap, fun_ext,
}
use mathlib.Core.Path.{subst}
use archa_os.Strings.{
  Memory, store, copy_word, Copy, copy_blocks, copy_words, copy_up, copy_down, memcpy, memmove,
  fill, memset,
}

-- The first `n` bytes behind `dest` are those that stood behind `src`.
abbrev pub moved : Memory → ℕ → ℕ → ℕ → Memory
moved m dest src n x = if leb dest x && ltb x (dest + n) then m (src + (x - dest)) else m x

-- The two ranges have no byte in common.
abbrev pub Apart : ℕ → ℕ → ℕ → Type 0
Apart dest src n = (src + n ≤ dest) ⊎ (dest + n ≤ src)

module _ (m : Memory) (dest src n : ℕ) where
  -- Memory after the first `k` bytes.
  abbrev at : ℕ → Memory
  at k = moved m dest src k

  store_next :
      (k : ℕ)
      → (src + k < dest) ⊎ (dest ≤ src)
      → store (at k) (dest + k) (at k (src + k)) ≡ at (k + 1)
  store_next k (inl lt) = fun_ext λ x. ground arith
  store_next k (inr le) = fun_ext λ x. ground arith

  copy_up-moved :
      (left k : ℕ)
      → k + left ≡ n
      → (src + n ≤ dest) ⊎ (dest ≤ src)
      → copy_up left (dest + k) (src + k) (at k) ≡ at n
  unfolding copy_up
  copy_up-moved zero k e apart = ap at (omega arith)
  copy_up-moved (suc left) k e apart =
      let one : dest + k + 1 ≡ dest + (k + 1) = omega arith in
      let one' : src + k + 1 ≡ src + (k + 1) = omega arith in
      rw (one, one', store_next k (omega arith)) (copy_up-moved left (k + 1) (omega arith) apart)

  -- The variables of `memcpy` after `k` bytes.
  abbrev part : ℕ → Copy
  part k = record { d = dest + k; s = src + k; n = n - k; memory = at k }

  record Reached (c : Copy) : Type 0 where
    count : ℕ
    le : count ≤ n
    is : c ≡ part count

  word_next :
      (k : ℕ) → Apart dest src n → k + 8 ≤ n → copy_word (dest + k) (src + k) (at k) ≡ at (k + 8)
  word_next k (inl a) le = fun_ext λ x. ground arith
  word_next k (inr a) le = fun_ext λ x. ground arith

  same_copy :
      (d s left k : ℕ) (m' : Memory)
      → d ≡ dest + k
      → s ≡ src + k
      → left ≡ n - k
      → m' ≡ at k
      → record { d = d; s = s; n = left; memory = m' } ≡ part k
  same_copy d s left k m' a b c e = simp (a, b, c, e) refl

  copy_words-Reached : Apart dest src n → (fuel k : ℕ) → k ≤ n → Reached (copy_words fuel (part k))
  unfolding copy_words
  copy_words-Reached apart zero k le = record { count = k; le = le; is = refl }
  copy_words-Reached apart (suc fuel) k le = elim (Bool-cases (leb 8 (n - k))) [
    | inl more ↦
        let next =
          same_copy (dest + k + 8) (src + k + 8) (n - k - 8) (k + 8)
            (copy_word (dest + k) (src + k) (at k)) (omega arith) (omega arith) (omega arith)
            (word_next k apart (ground arith)) in
        simp more (
          subst (λ c. Reached (copy_words fuel c)) (sym next)
            (copy_words-Reached apart fuel (k + 8) (ground arith)))
    | inr done ↦ simp done (record { count = k; le = le; is = refl })
  ]

  word_after :
      (d s k : ℕ) (m' : Memory)
      → Apart dest src n
      → k + 8 ≤ n
      → d ≡ dest + k
      → s ≡ src + k
      → m' ≡ at k
      → copy_word d s m' ≡ at (k + 8)
  word_after d s k m' apart le a b c = simp (a, b, c) (word_next k apart le)

  -- Four words.
  block_next :
      (k : ℕ)
      → Apart dest src n
      → k + 32 ≤ n
      → copy_word (dest + k + 24) (src + k + 24) (
          copy_word
            (dest + k + 16)
            (src + k + 16)
            (copy_word (dest + k + 8) (src + k + 8) (copy_word (dest + k) (src + k) (at k))))
        ≡ at (k + 32)
  block_next k apart le =
      let all : k + 24 + 8 ≡ k + 32 = omega arith in
      let up : (j : ℕ) → at (k + j + 8) ≡ at (k + (j + 8)) = λ j. ap at (omega arith) in
      word_after _ _ (k + 24) _ apart (omega arith) (omega arith) (omega arith) (
        word_after _ _ (k + 16) _ apart (omega arith) (omega arith) (omega arith) (
          word_after _ _ (k + 8) _ apart (omega arith) (omega arith) (omega arith)
            (word_next k apart (omega arith))
          ∙ up 8)
        ∙ up 16)
      ∙ ap at all

  copy_blocks-Reached :
      Apart dest src n → (fuel k : ℕ) → k ≤ n → Reached (copy_blocks fuel (part k))
  unfolding copy_blocks
  copy_blocks-Reached apart zero k le = record { count = k; le = le; is = refl }
  copy_blocks-Reached apart (suc fuel) k le = elim (Bool-cases (leb 32 (n - k))) [
    | inl more ↦
        let next =
          same_copy (dest + k + 32) (src + k + 32) (n - k - 32) (k + 32) _ (omega arith)
            (omega arith) (omega arith) (block_next k apart (ground arith)) in
        simp more (
          subst (λ c. Reached (copy_blocks fuel c)) (sym next)
            (copy_blocks-Reached apart fuel (k + 32) (ground arith)))
    | inr done ↦ simp done (record { count = k; le = le; is = refl })
  ]

  start : record { d = dest; s = src; n = n; memory = m } ≡ part 0
  start =
      same_copy dest src n 0 m (omega arith) (omega arith) (omega arith) (fun_ext λ x. ground arith)

  ahead : Apart dest src n → (src + n ≤ dest) ⊎ (dest ≤ src)
  ahead (inl a) = inl a
  ahead (inr a) = inr (omega arith)

  d0 : dest + 0 ≡ dest
  d0 = omega arith

  s0 : src + 0 ≡ src
  s0 = omega arith

  copy_up_start : copy_up n dest src m ≡ copy_up n (dest + 0) (src + 0) (at 0)
  copy_up_start =
      let same : m ≡ at 0 = fun_ext λ x. ground arith in
      ap (copy_up n dest src) same
      ∙ (ap (λ a. copy_up n a src (at 0)) (sym d0)
          ∙ ap (λ a. copy_up n (dest + 0) a (at 0)) (sym s0))

  -- Memory once all but the first `k` bytes are copied.
  abbrev from_end : ℕ → Memory
  from_end k x = if leb (dest + k) x && ltb x (dest + n) then m (src + (x - dest)) else m x

  store_before :
      (k : ℕ)
      → src ≤ dest
      → k + 1 ≤ n
      → store (from_end (k + 1)) (dest + k) (from_end (k + 1) (src + k)) ≡ from_end k
  store_before k le lt = fun_ext λ x. ground arith

  copy_down-moved :
      (k : ℕ) → src ≤ dest → k ≤ n → copy_down k (dest + k) (src + k) (from_end k) ≡ at n
  unfolding copy_down
  copy_down-moved zero le lt = fun_ext λ x. ground arith
  copy_down-moved (suc k) le lt =
      let d : dest + suc k - 1 ≡ dest + k = omega arith in
      let s : src + suc k - 1 ≡ src + k = omega arith in
      let k' : suc k ≡ k + 1 = omega arith in
      rw (d, s, k', store_before k le (omega arith)) (copy_down-moved k le (omega arith))

  copy_down_start :
      copy_down n (dest + n) (src + n) m ≡ copy_down n (dest + n) (src + n) (from_end n)
  copy_down_start = ap (copy_down n (dest + n) (src + n)) (fun_ext λ x. ground arith)

  -- Between ranges that have no byte in common, `memcpy` returns `dest` and copies exactly the `n`
  -- bytes.
  pub memcpy-moved : Apart dest src n → memcpy dest src n m ≡ (dest, moved m dest src n)
  unfolding memcpy
  memcpy-moved apart = ap (λ m'. (dest, m')) (second (copy_blocks n _) first)
    where
      first : Reached (copy_blocks n (record { d = dest; s = src; n = n; memory = m }))
      first =
          subst (λ c. Reached (copy_blocks n c)) (sym start)
            (copy_blocks-Reached apart n 0 (omega arith))

      third : (c : Copy) → Reached c → copy_up c.n c.d c.s c.memory ≡ at n
      third c r =
          subst (λ c. copy_up c.n c.d c.s c.memory ≡ at n) (sym r.is)
            (copy_up-moved (n - r.count) r.count (let le = r.le in omega arith) (ahead apart))

      second :
          (c : Copy)
          → Reached c
          → let c' = copy_words c.n c in copy_up c'.n c'.d c'.s c'.memory ≡ at n
      second c r = third (copy_words c.n c) (
          subst (λ c. Reached (copy_words c.n c)) (sym r.is)
            (copy_words-Reached apart (n - r.count) r.count r.le))

  -- `memmove` does the same for any two ranges, however they overlap.
  pub memmove-moved : memmove dest src n m ≡ (dest, moved m dest src n)
  unfolding memmove
  memmove-moved = elim (Bool-cases (ltb dest src)) [
    | inl lt ↦
        let up = copy_up-moved n 0 (omega arith) (inr (ground arith)) in
        simp lt (ap (λ m'. (dest, m')) (copy_up_start ∙ up))
    | inr ge ↦
        simp ge
          (ap (λ m'. (dest, m')) (copy_down_start ∙ copy_down-moved n (ground arith) (omega arith)))
  ]

fill_lem :
    (n p value : ℕ) (m : Memory) (x : ℕ)
    → fill n p value m x ≡ (if leb p x && ltb x (p + n) then value % 256 else m x)
unfolding fill
fill_lem zero p value m x = ground arith
fill_lem (suc n) p value m x = fill_lem n (p + 1) value (store m p (value % 256)) x ∙ ground arith

-- `memset` returns its pointer, and sets exactly the `n` bytes behind it to the low byte of `value`.
pub memset_lem :
    (ptr value n : ℕ) (m : Memory)
    → memset ptr value n m ≡ (ptr, λ x. if leb ptr x && ltb x (ptr + n) then value % 256 else m x)
unfolding memset
memset_lem ptr value n m = ap (λ m'. (ptr, m')) (fun_ext (fill_lem n ptr value m))
