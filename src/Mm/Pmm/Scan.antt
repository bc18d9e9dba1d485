-- ===== src/Mm/Pmm/Scan.antt =====
-- The two loops of `palloc` over the bitmap.
use archa_os.Base.{
  ℕ, zero, suc, ◌+◌, ◌*◌, ◌/◌, ◌%◌, ◌<◌, ◌≡◌, refl, true, false, arith, ◌==◌, ==_iff, leb, ltb,
  if◌then◌else◌, inl, inr, Bool-cases, Option, none, some, ◌∙◌, test_bit, test_bit_full,
}
use archa_os.Mm.Pmm.{Pmm, page_used, mark_used, u64, page_size, scan_bits, scan_bytes}
use archa_os.Mm.Pmm.Marks.{IsValid, page_used_out}

abbrev pub UsedBelow : Pmm → ℕ → Type 0
UsedBelow s n = (q : ℕ) → q < n → page_used s q ≡ true

-- What a run of `palloc` may return: the lowest free page, now marked, or 0 with nothing changed
-- when no page is free.
pub data Outcome (s : Pmm) : ℕ × Pmm → Type 0 where
  taken :
      {r : ℕ × Pmm} (p : ℕ)
      → page_used s p ≡ false
      → UsedBelow s p
      → r ≡ (p * page_size, mark_used s p)
      → Outcome s r
  full : {r : ℕ × Pmm} → ((q : ℕ) → page_used s q ≡ true) → r ≡ (0, s) → Outcome s r

-- After some rounds on one byte: a return, or all its pages up to `n` are used.
abbrev Scanned : Pmm → ℕ → Option (ℕ × Pmm) → Type 0
Scanned s n none = UsedBelow s n
Scanned s n (some r) = Outcome s r

module _ (s : Pmm) (v : IsValid s) where
  page_of_bit :
      (byte bit : ℕ)
      → bit < 8
      → byte * 8 + bit < s.max_pages
      → page_used s (byte * 8 + bit) ≡ test_bit (s.bitmap byte) bit
  unfolding page_used
  page_of_bit byte bit h lt =
      let e : (byte * 8 + bit) / 8 ≡ byte = omega arith in
      let f : (byte * 8 + bit) % 8 ≡ bit = omega arith in simp (e, f) (ground arith)

  extend : (n : ℕ) → UsedBelow s n → page_used s n ≡ true → UsedBelow s (n + 1)
  extend n below here q h = elim (Bool-cases (q == n)) [
    | inl e ↦ rw ((==_iff q n).0 e) here
    | inr ne ↦ below q (ground arith)
  ]

  used_of_bit :
      (byte bit : ℕ)
      → bit < 8
      → test_bit (s.bitmap byte) bit ≡ true
      → page_used s (byte * 8 + bit) ≡ true
  used_of_bit byte bit h t = elim (Bool-cases (leb s.max_pages (byte * 8 + bit))) [
    | inl out ↦ page_used_out s v _ (ground arith)
    | inr inside ↦ page_of_bit byte bit h (ground arith) ∙ t
  ]

  hit :
      (byte bit : ℕ)
      → bit < 8
      → UsedBelow s (byte * 8 + bit)
      → test_bit (s.bitmap byte) bit ≡ false
      → Outcome s (
          if leb s.max_pages (byte * 8 + bit)
          then (0, s)
          else (u64 ((byte * 8 + bit) * page_size), mark_used s (byte * 8 + bit)))
  hit byte bit h below t = elim (Bool-cases (leb s.max_pages (byte * 8 + bit))) [
    | inl out ↦
        full
          (λ q. elim (Bool-cases (ltb q s.max_pages)) [
            | inl lt ↦ below q (ground arith)
            | inr ge ↦ page_used_out s v q (ground arith)
          ])
          (rw out)
    | inr inside ↦
        taken (byte * 8 + bit) (page_of_bit byte bit h (ground arith) ∙ t) below
          (rw inside (ground (arith, v.bounded)))
  ]

  scan_bits-Scanned :
      (left byte bit : ℕ)
      → bit + left ≡ 8
      → UsedBelow s (byte * 8 + bit)
      → Scanned s (byte * 8 + 8) (scan_bits left byte bit s)
  unfolding scan_bits
  scan_bits-Scanned zero byte bit e below = λ q h. below q (omega arith)
  scan_bits-Scanned (suc left) byte bit e below = elim (Bool-cases (test_bit (s.bitmap byte) bit)) [
    | inl t ↦ rw t (
        scan_bits-Scanned left byte (bit + 1) (omega arith) (λ q h.
          extend (byte * 8 + bit) below (used_of_bit byte bit (omega arith) t) q (omega arith)))
    | inr t ↦ rw t (hit byte bit (omega arith) below t)
  ]

  full_byte :
      (byte : ℕ) → UsedBelow s (byte * 8) → s.bitmap byte ≡ 0xFF → UsedBelow s ((byte + 1) * 8)
  full_byte byte below e q h = elim (Bool-cases (ltb q (byte * 8))) [
    | inl lt ↦ below q (ground arith)
    | inr ge ↦
        let q' : q ≡ byte * 8 + q % 8 = ground arith in
        rw q' (used_of_bit byte (q % 8) (omega arith) (rw e (test_bit_full (q % 8) (omega arith))))
  ]

  pub scan_bytes-Outcome :
      (left byte : ℕ)
      → byte + left ≡ s.sizeof_bitmap
      → UsedBelow s (byte * 8)
      → Outcome s (scan_bytes left byte s)
  unfolding scan_bytes
  scan_bytes-Outcome zero byte e below =
      full
        (λ q. elim (Bool-cases (ltb q s.max_pages)) [
          | inl lt ↦ below q (ground (arith, v.covers))
          | inr ge ↦ page_used_out s v q (ground arith)
        ])
        refl
  scan_bytes-Outcome (suc left) byte e below = elim (Bool-cases (s.bitmap byte == 0xFF)) [
    | inl t ↦
        rw t (
          scan_bytes-Outcome left (byte + 1) (omega arith)
            (full_byte byte below ((==_iff _ _).0 t)))
    | inr t ↦ rw t (
        pick (scan_bits 8 byte 0 s) (scan_bits-Scanned 8 byte 0 refl (λ q h. below q (omega arith)))
          (λ b. scan_bytes-Outcome left (byte + 1) (omega arith) (λ q h. b q (omega arith))))
  ]
    where
      pick :
          (o : Option (ℕ × Pmm))
          → Scanned s (byte * 8 + 8) o
          → (UsedBelow s (byte * 8 + 8) → Outcome s (scan_bytes left (byte + 1) s))
          → Outcome s (elim o [ none ↦ scan_bytes left (byte + 1) s | some r ↦ r ])
      pick none b next = next b
      pick (some r) o next = o
