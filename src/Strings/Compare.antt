-- ===== src/Strings/Compare.antt =====
-- `memcmp` and `strcmp`: when they return 0.
use archa_os.Base.{
  ℕ, zero, suc, ◌+◌, ◌<◌, ◌≡◌, ◌≢◌, refl, false, arith, ◌==◌, ==_iff, inl, inr, Bool-cases, sym,
  ◌∙◌, ap, Option, some, ◌↔◌, ℤ, pos, diff, diff-zero_iff,
}
use archa_os.Strings.{Memory, memcmp, strcmp}
use archa_os.Strings.Search.{IsString, rest_of, first_of, end_of}

-- The first `n` bytes at the two places are the same.
abbrev pub SameBytes : Memory → ℕ → ℕ → ℕ → Type 0
SameBytes m a b n = (i : ℕ) → i < n → m (a + i) ≡ m (b + i)

SameBytes-suc :
    (m : Memory) (a b n : ℕ)
    → SameBytes m a b (suc n) ↔ ((m a ≡ m b) × SameBytes m (a + 1) (b + 1) n)
SameBytes-suc m a b n = (
  λ s. (
    ap m (omega arith) ∙ (s 0 (omega arith) ∙ ap m (omega arith)),
    λ i lt. ap m (omega arith) ∙ (s (i + 1) (omega arith) ∙ ap m (omega arith)),
  ),
  λ (e, s). grown e s,
)
  where
    grown : m a ≡ m b → SameBytes m (a + 1) (b + 1) n → SameBytes m a b (suc n)
    grown e s zero lt = ap m (omega arith) ∙ (e ∙ ap m (omega arith))
    grown e s (suc i) lt = ap m (omega arith) ∙ (s i (omega arith) ∙ ap m (omega arith))

-- `memcmp` returns 0 exactly when the `n` bytes are the same.
pub memcmp-zero_iff : (a b n : ℕ) (m : Memory) → (memcmp a b n m ≡ pos 0) ↔ SameBytes m a b n
unfolding memcmp
memcmp-zero_iff a b zero m = (λ e i lt. absurd (omega arith), λ s. refl)
memcmp-zero_iff a b (suc n) m = elim (Bool-cases (m a == m b)) [
  | inl same ↦
      let (to, from) = memcmp-zero_iff (a + 1) (b + 1) n m in
      let (split, joined) = SameBytes-suc m a b n in
      (λ e. joined ((==_iff _ _).0 same, to (simp same at e)), λ s. simp same (from (split s).1))
  | inr other ↦ (
    λ e. absurd (differ other (simp other at e)),
    λ s. absurd (differ_bytes other ((SameBytes-suc m a b n).0 s).0),
  )
]
  where
    differ_bytes : (m a == m b) ≡ false → m a ≢ m b
    differ_bytes other = ground arith

    differ : (m a == m b) ≡ false → diff (m a) (m b) ≢ pos 0
    differ other e = differ_bytes other ((diff-zero_iff (m a) (m b)).0 e)

-- What the comparison of a string of `j` bytes with one of `k` bytes ends with.
pub record Compared (m : Memory) (a b j k : ℕ) (r : Option ℤ) : Type 0 where
  pub value : ℤ
  pub is : r ≡ some value
  pub equal : (value ≡ pos 0) ↔ ((j ≡ k) × SameBytes m a b j)

-- The walk stops at bytes that differ.
stops :
    (m : Memory) (a b j k : ℕ)
    → (m a ≡ m b → (j ≡ k) × SameBytes m a b j)
    → ((j ≡ k) × SameBytes m a b j → m a ≡ m b)
    → (r : Option ℤ) → r ≡ some (diff (m a) (m b))
    → Compared m a b j k r
stops m a b j k to from r e =
    let (zero_to, zero_from) = diff-zero_iff (m a) (m b) in
    record {
      value = diff (m a) (m b);
      is = e;
      equal = (λ z. to (zero_to z), λ s. zero_from (from s));
    }

-- On two strings, with fuel for each byte of the first and its end, `strcmp` ends, and returns 0
-- exactly when the strings have the same length and the same bytes.
pub strcmp-Compared :
    (fuel a b j k : ℕ) (m : Memory)
    → IsString m a j
    → IsString m b k
    → j < fuel
    → Compared m a b j k (strcmp fuel a b m)
unfolding strcmp
strcmp-Compared zero a b j k m s t enough = absurd (omega arith)
strcmp-Compared (suc fuel) a b zero k m s t enough =
    let ended = end_of s in
    stops m a b 0 k (λ e. (ends k t (sym e ∙ (==_iff _ _).0 ended), λ i lt. absurd (omega arith)))
      (λ (e, same). (==_iff _ _).0 ended ∙ sym (ended_too k t (sym e))) _ (rw ended refl)
  where
    ends : (k : ℕ) → IsString m b k → m b ≡ 0 → 0 ≡ k
    ends zero t z = refl
    ends (suc k) t z = absurd (let f = first_of t in ground arith)

    ended_too : (k : ℕ) → IsString m b k → k ≡ 0 → m b ≡ 0
    ended_too zero t z = (==_iff _ _).0 (end_of t)
    ended_too (suc k) t z = absurd (omega arith)
strcmp-Compared (suc fuel) a b (suc j) zero m s t enough =
    let first = first_of s in
    let ended = end_of t in
    stops m a b (suc j) 0 (λ e. absurd (ground arith)) (λ (e, same). absurd (omega arith)) _
      (ground arith)
strcmp-Compared (suc fuel) a b (suc j) (suc k) m s t enough = elim (Bool-cases (m a == m b)) [
  | inl same ↦
      let r = strcmp-Compared fuel (a + 1) (b + 1) j k m (rest_of s) (rest_of t) (omega arith) in
      let (split, joined) = SameBytes-suc m a b j in
      rw (first_of s, same)
        (record {
          value = r.value;
          is = r.is;
          equal = (
            λ z. let (e, bytes) = r.equal.0 z in (ap suc e, joined ((==_iff _ _).0 same, bytes)),
            λ (e, bytes). r.equal.1 (omega arith, (split bytes).1),
          );
        })
  | inr other ↦
      stops m a b (suc j) (suc k) (λ e. absurd (ground arith))
        (λ (e, bytes). ((SameBytes-suc m a b j).0 bytes).0) _ (rw (first_of s, other) refl)
]
