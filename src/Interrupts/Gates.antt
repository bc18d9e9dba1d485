-- ===== src/Interrupts/Gates.antt =====
-- Gates of the interrupt descriptor table.
use archa_os.Base.{
  ℕ, ◌+◌, ◌*◌, ◌/◌, ◌%◌, ◌^◌, ◌<◌, ◌≡◌, ◌≢◌, refl, true, false, arith, ◌==◌, bit_and, bit_and_ones,
}
use archa_os.Interrupts.{IdtEntry, Idt, idt_set_gate, set_idt_vector}

-- The address that a gate leads to.
abbrev pub target : IdtEntry → ℕ
target e = e.offset_low + e.offset_mid * 2 ^ 16 + e.offset_high * 2 ^ 32

-- After `idt_set_gate` the gate at the vector leads to the handler, whatever its address, and every
-- other gate is as it was.
pub idt_set_gate-target :
    (vector handler : ℕ) (s : Idt)
    → vector < 256
    → handler < 2 ^ 64
    → (target ((idt_set_gate vector handler s).entries vector) ≡ handler)
      × ((v : ℕ) → v ≢ vector → (idt_set_gate vector handler s).entries v ≡ s.entries v)
unfolding idt_set_gate
idt_set_gate-target vector handler s lt small =
    let here : (vector == vector % 256) ≡ true = ground arith in
    (
      simp here (rw (bit_and_ones 16 handler, bit_and_ones 16 (handler / 2 ^ 16)) (omega arith)),
      λ v ne. let other : (v == vector % 256) ≡ false = ground arith in rw other refl,
    )

-- `set_idt_vector` does not replace a handler: once it has set one whose address does not end in 16
-- zero bits, setting another at the vector changes nothing.
pub set_idt_vector-set_idt_vector :
    (vector handler handler' : ℕ) (s : Idt)
    → handler % 2 ^ 16 ≢ 0
    → (s.entries (vector % 256)).offset_low ≡ 0
    → set_idt_vector vector handler' (set_idt_vector vector handler s)
      ≡ set_idt_vector vector handler s
unfolding set_idt_vector idt_set_gate
set_idt_vector-set_idt_vector vector handler handler' s nz empty =
    let here : (vector % 256 == vector % 256) ≡ true = ground arith in
    let low : (bit_and handler 0xFFFF == 0) ≡ false = rw (bit_and_ones 16 handler) (ground arith) in
    simp (empty, here, low) refl
