-- ===== src/Strings/Search.antt =====
-- The walks along a string: `strlen`, `strchr` and `strrchr`.
use archa_os.Base.{
  ℕ, zero, suc, ◌+◌, ◌%◌, ◌≤◌, ◌<◌, ◌≡◌, ◌≢◌, refl, true, false, arith, ◌==◌, ==_iff, if◌then◌else◌,
  inl, inr, Bool-cases, sym, ◌∙◌, ap, Option, some, ne→==_false,
}
use mathlib.Core.Path.{subst}
use archa_os.Strings.{Memory, strlen, strlen_loop, strchr, strrchr, strrchr_loop}

-- A string of `len` bytes starts at `str`.
pub record IsString (m : Memory) (str len : ℕ) : Type 0 where
  pub inside : (i : ℕ) → i < len → m (str + i) ≢ 0
  pub finish : m (str + len) ≡ 0

-- The string without its first byte.
pub rest_of : {m : Memory} {str len : ℕ} → IsString m str (suc len) → IsString m (str + 1) len
rest_of {m} {str} {len} s = record {
  inside = λ i lt.
      let e : str + 1 + i ≡ str + (i + 1) = omega arith in
      subst (λ a. m a ≢ 0) (sym e) (s.inside (i + 1) (omega arith));
  finish = let e : str + 1 + len ≡ str + suc len = omega arith in ap m e ∙ s.finish;
}

pub first_of : {m : Memory} {str len : ℕ} → IsString m str (suc len) → (m str == 0) ≡ false
first_of {m} {str} {len} s =
    let e : str + 0 ≡ str = omega arith in
    ne→==_false _ _ (subst (λ a. m a ≢ 0) e (s.inside 0 (omega arith)))

pub end_of : {m : Memory} {str : ℕ} → IsString m str 0 → (m str == 0) ≡ true
end_of {m} {str} s = let e : str ≡ str + 0 = omega arith in (==_iff _ _).1 (ap m e ∙ s.finish)

strlen_loop_lem :
    (fuel str len n : ℕ) (m : Memory)
    → IsString m str len
    → len < fuel
    → strlen_loop fuel str n m ≡ some (n + len)
unfolding strlen_loop
strlen_loop_lem zero str len n m s enough = absurd (omega arith)
strlen_loop_lem (suc fuel) str zero n m s enough = rw (end_of s) (ap some (omega arith))
strlen_loop_lem (suc fuel) str (suc len) n m s enough =
    rw (first_of s) (
      strlen_loop_lem fuel (str + 1) len (n + 1) m (rest_of s) (omega arith)
      ∙ ap some (omega arith))

-- On a string that does not start at NULL, with fuel for each byte and the end, `strlen` ends and
-- returns the length.
pub strlen_lem :
    (fuel str len : ℕ) (m : Memory)
    → IsString m str len
    → str ≢ 0
    → len < fuel
    → strlen fuel str m ≡ some len
unfolding strlen
strlen_lem fuel str len m s nz enough =
    rw (ne→==_false _ _ nz) (strlen_loop_lem fuel str len 0 m s enough ∙ ap some (omega arith))

-- What `strchr` finds: the first place of the byte, else the end if that is asked for, else NULL.
pub data FirstPlace (m : Memory) (str len c : ℕ) : Option ℕ → Type 0 where
  found :
      {r : Option ℕ} (i : ℕ)
      → i < len
      → m (str + i) ≡ c % 256
      → ((j : ℕ) → j < i → m (str + j) ≢ c % 256)
      → r ≡ some (str + i)
      → FirstPlace m str len c r
  at_end :
      {r : Option ℕ}
      → c ≡ 0
      → ((j : ℕ) → j < len → m (str + j) ≢ c % 256)
      → r ≡ some (str + len)
      → FirstPlace m str len c r
  nowhere :
      {r : Option ℕ}
      → c ≢ 0
      → ((j : ℕ) → j < len → m (str + j) ≢ c % 256)
      → r ≡ some 0
      → FirstPlace m str len c r

shift :
    (m : Memory) (str c n : ℕ)
    → m str ≢ c % 256
    → ((j : ℕ) → j < n → m (str + 1 + j) ≢ c % 256)
    → (j : ℕ) → j < n + 1
    → m (str + j) ≢ c % 256
shift m str c n other before zero lt =
    let e : str + 0 ≡ str = omega arith in subst (λ a. m a ≢ c % 256) (sym e) other
shift m str c n other before (suc j) lt =
    let e : str + 1 + j ≡ str + suc j = omega arith in
    subst (λ a. m a ≢ c % 256) e (before j (omega arith))

-- A byte in front in which the search is not done.
later :
    {m : Memory} {str len c : ℕ} {r : Option ℕ}
    → m str ≢ c % 256
    → FirstPlace m (str + 1) len c r
    → FirstPlace m str (suc len) c r
later {m} {str} {len} {c} other (found i lt hit before e) =
    found (i + 1) (omega arith) (ap m (omega arith) ∙ hit) (shift m str c i other before)
      (e ∙ ap some (omega arith))
later {m} {str} {len} {c} other (at_end z before e) =
    at_end z (λ j lt. shift m str c len other before j (omega arith)) (e ∙ ap some (omega arith))
later {m} {str} {len} {c} other (nowhere nz before e) =
    nowhere nz (λ j lt. shift m str c len other before j (omega arith)) e

-- On any string, with fuel for each byte and the end, `strchr` ends and finds the first place.
pub strchr-FirstPlace :
    (fuel str len c : ℕ) (m : Memory)
    → IsString m str len
    → len < fuel
    → FirstPlace m str len c (strchr fuel str c m)
unfolding strchr
strchr-FirstPlace zero str len c m s enough = absurd (omega arith)
strchr-FirstPlace (suc fuel) str zero c m s enough = elim (Bool-cases (c == 0)) [
  | inl z ↦
      at_end ((==_iff _ _).0 z) (λ j lt. absurd (omega arith))
        (rw (end_of s, z) (ap some (omega arith)))
  | inr nz ↦ nowhere (ground arith) (λ j lt. absurd (omega arith)) (rw (end_of s, nz) refl)
]
strchr-FirstPlace (suc fuel) str (suc len) c m s enough = elim (Bool-cases (m str == c % 256)) [
  | inl hit ↦
      found 0 (omega arith) (ap m (omega arith) ∙ (==_iff _ _).0 hit) (λ j lt. absurd (omega arith))
        (rw (first_of s, hit) (ap some (omega arith)))
  | inr other ↦
      rw (first_of s, other)
        (later (ground arith) (strchr-FirstPlace fuel (str + 1) len c m (rest_of s) (omega arith)))
]

-- What `strrchr` finds: the last place of the byte, the end included, else `last`.
pub data LastPlace (m : Memory) (str len c last : ℕ) : Option ℕ → Type 0 where
  found :
      {r : Option ℕ} (i : ℕ)
      → i ≤ len
      → m (str + i) ≡ c % 256
      → ((j : ℕ) → i < j → j ≤ len → m (str + j) ≢ c % 256)
      → r ≡ some (str + i)
      → LastPlace m str len c last r
  nowhere :
      {r : Option ℕ}
      → ((j : ℕ) → j ≤ len → m (str + j) ≢ c % 256)
      → r ≡ some last
      → LastPlace m str len c last r

-- A byte in front: it counts if nothing behind it does.
behind :
    {m : Memory} {str len c last : ℕ} {r : Option ℕ}
    → LastPlace m (str + 1) len c (if m str == c % 256 then str else last) r
    → LastPlace m str (suc len) c last r
behind {m} {str} {len} {c} {last} (found i le hit after e) =
    found (i + 1) (omega arith) (ap m (omega arith) ∙ hit) (moves i after)
      (e ∙ ap some (omega arith))
  where
    moves :
        (i : ℕ)
        → ((j : ℕ) → i < j → j ≤ len → m (str + 1 + j) ≢ c % 256)
        → (j : ℕ) → i + 1 < j
        → j ≤ suc len
        → m (str + j) ≢ c % 256
    moves i after zero lt le' = absurd (omega arith)
    moves i after (suc j) lt le' =
        let e : str + 1 + j ≡ str + suc j = omega arith in
        subst (λ a. m a ≢ c % 256) e (after j (omega arith) (omega arith))
behind {m} {str} {len} {c} {last} (nowhere none_behind e) = elim (Bool-cases (m str == c % 256)) [
  | inl hit ↦
      found 0 (omega arith) (ap m (omega arith) ∙ (==_iff _ _).0 hit)
        (λ j lt le. behind_only j lt le) (e ∙ rw hit (ap some (omega arith)))
  | inr other ↦
      nowhere
        (λ j le.
          shift m str c (len + 1) (ground arith) (λ j lt. none_behind j (omega arith)) j
            (omega arith))
        (e ∙ rw other refl)
]
  where
    behind_only : (j : ℕ) → 0 < j → j ≤ suc len → m (str + j) ≢ c % 256
    behind_only zero lt le = absurd (omega arith)
    behind_only (suc j) lt le =
        let e : str + 1 + j ≡ str + suc j = omega arith in
        subst (λ a. m a ≢ c % 256) e (none_behind j (omega arith))

strrchr_loop-LastPlace :
    (fuel str len c last : ℕ) (m : Memory)
    → IsString m str len
    → len < fuel
    → LastPlace m str len c last (strrchr_loop fuel str c last m)
unfolding strrchr_loop
strrchr_loop-LastPlace zero str len c last m s enough = absurd (omega arith)
strrchr_loop-LastPlace (suc fuel) str zero c last m s enough =
    elim (Bool-cases (m str == c % 256)) [
      | inl hit ↦
          found 0 (omega arith) (ap m (omega arith) ∙ (==_iff _ _).0 hit)
            (λ j lt le. absurd (omega arith)) (rw (end_of s, hit) (ap some (omega arith)))
      | inr other ↦
          nowhere
            (λ j le. shift m str c 0 (ground arith) (λ j lt. absurd (omega arith)) j (omega arith))
            (rw (end_of s, other) refl)
    ]
strrchr_loop-LastPlace (suc fuel) str (suc len) c last m s enough = rw (first_of s) (
    behind (
      strrchr_loop-LastPlace fuel (str + 1) len c (if m str == c % 256 then str else last) m
        (rest_of s) (omega arith)))

-- On a string that does not start at NULL, with fuel for each byte and the end, `strrchr` ends and
-- finds the last place of the byte, the end included; it gives NULL if there is none.
pub strrchr-LastPlace :
    (fuel str len c : ℕ) (m : Memory)
    → IsString m str len
    → str ≢ 0
    → len < fuel
    → LastPlace m str len c 0 (strrchr fuel str c m)
unfolding strrchr
strrchr-LastPlace fuel str len c m s nz enough =
    rw (ne→==_false _ _ nz) (strrchr_loop-LastPlace fuel str len c 0 m s enough)
