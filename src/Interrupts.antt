-- ===== src/Interrupts.antt =====
-- The interrupt descriptor table, kernel/arch/x86_64/interrupts/idt.c, and the two 8259 controllers,
-- pic.c. A port is the byte that a read of it gives: the data ports give back the mask that was last
-- written to them, as the controllers do once they are set up. Handlers are addresses.
pub mod Gates
pub mod Masks
pub mod Tests
use archa_os.Base.{
  ℕ, ◌+◌, ◌-◌, ◌*◌, ◌/◌, ◌%◌, ◌^◌, Bool, true, false, ◌==◌, ltb, leb, if◌then◌else◌, not, bit_and,
  bit_or,
}

abbrev pub kernel_cs : ℕ
kernel_cs = 0x08

-- `struct idt_entry`.
pub record IdtEntry : Type 0 where
  pub offset_low : ℕ
  pub selector : ℕ
  pub ist : ℕ
  pub type_attr : ℕ
  pub offset_mid : ℕ
  pub offset_high : ℕ
  pub zero_word : ℕ

-- The table, whether it has changed, and what the processor was last told to use: limit and base.
pub record Idt : Type 0 where
  pub entries : ℕ → IdtEntry
  pub idt_changed : Bool
  pub loaded : ℕ × ℕ

abbrev pub gate : ℕ → IdtEntry
gate handler = record {
  offset_low = bit_and handler 0xFFFF;
  selector = kernel_cs;
  ist = 0;
  type_attr = 0x8E;
  offset_mid = bit_and (handler / 2 ^ 16) 0xFFFF;
  offset_high = handler / 2 ^ 32 % 2 ^ 32;
  zero_word = 0;
}

unfoldable pub idt_set_gate : ℕ → ℕ → Idt → Idt
idt_set_gate vector handler s = record s {
  entries = λ v. if v == vector % 256 then gate handler else s.entries v;
}

-- The same body a second time.
unfoldable pub idt_set_custom_gate : ℕ → ℕ → Idt → Idt
idt_set_custom_gate vector handler s = record s {
  entries = λ v. if v == vector % 256 then gate handler else s.entries v;
}

unfoldable pub set_idt_vector : ℕ → ℕ → Idt → Idt
set_idt_vector vector handler s =
    if not ((s.entries (vector % 256)).offset_low == 0)
    then s
    else idt_set_gate vector handler
        (if not s.idt_changed then record s { idt_changed = true } else s)

-- `idt` is the address of the table, of 256 entries of 16 bytes.
unfoldable pub flush_idt_vector : ℕ → Idt → Idt
flush_idt_vector idt s = if s.idt_changed then record s { loaded = (256 * 16 - 1, idt) } else s

abbrev pub Ports : Type 0
Ports = ℕ → ℕ

-- `outb(value, port)`.
unfoldable pub outb : ℕ → ℕ → Ports → Ports
outb value port s p = if p == port % 2 ^ 16 then value % 256 else s p

abbrev pub pic_control_0 : ℕ
pic_control_0 = 0x20

abbrev pub pic_control_1 : ℕ
pic_control_1 = 0xA0

abbrev pub pic_data_0 : ℕ
pic_data_0 = 0x21

abbrev pub pic_data_1 : ℕ
pic_data_1 = 0xA1

-- `~0` and `~(1 << 2)` are the words of 32 bits.
unfoldable pub pic_init : ℕ → ℕ → Ports → Ports
pic_init pic0base pic1base s =
    let s₁ = outb 0x11 pic_control_0 s in
    let s₂ = outb pic0base pic_data_0 s₁ in
    let s₃ = outb 4 pic_data_0 s₂ in
    let s₄ = outb 0x01 pic_data_0 s₃ in
    let s₅ = outb (2 ^ 32 - 1 - 4) pic_data_0 s₄ in
    let s₆ = outb 0x11 pic_control_1 s₅ in
    let s₇ = outb pic1base pic_data_1 s₆ in
    let s₈ = outb 2 pic_data_1 s₇ in
    let s₉ = outb 0x05 pic_data_1 s₈ in outb (2 ^ 32 - 1) pic_data_1 s₉

-- `mask & ~(1 << irq)`, for a shift within an `int`.
abbrev pub without : ℕ → ℕ → ℕ
without mask irq = bit_and mask (2 ^ 32 - 1 - 2 ^ irq)

-- `mask | (1 << irq)`.
abbrev pub with : ℕ → ℕ → ℕ
with mask irq = bit_or mask (2 ^ irq)

-- An interrupt of the second controller comes in through line 2 of the first.
unfoldable pub pic_enable : ℕ → Ports → Ports
pic_enable irq s =
    if ltb irq 8
    then outb (without (s pic_data_0) irq) pic_data_0 s
    else let s₁ = outb (without (s pic_data_1) (irq - 8)) pic_data_1 s in
      outb (without (s₁ pic_data_0) 2) pic_data_0 s₁

unfoldable pub pic_disable : ℕ → Ports → Ports
pic_disable irq s =
    if ltb irq 8
    then outb (with (s pic_data_0) irq) pic_data_0 s
    else outb (with (s pic_data_1) (irq - 8)) pic_data_1 s

unfoldable pub pic_acknowledge : ℕ → Ports → Ports
pic_acknowledge irq s =
    if leb 8 irq
    then outb (0x60 + 2) pic_control_0 (outb (0x60 + (irq - 8)) pic_control_1 s)
    else outb (0x60 + irq) pic_control_0 s

-- The arguments in the order of the source.
unfoldable pub pic_disable_total : Ports → Ports
pic_disable_total s =
    let s₁ = outb 0x20 0x11 s in
    let s₂ = outb 0xA0 0x11 s₁ in
    let s₃ = outb 0x21 0x20 s₂ in
    let s₄ = outb 0xA1 0x28 s₃ in
    let s₅ = outb 0x21 0x2 s₄ in
    let s₆ = outb 0xA1 0x4 s₅ in
    let s₇ = outb 0x21 0x01 s₆ in
    let s₈ = outb 0xA1 0x01 s₇ in let s₉ = outb 0x21 0xFF s₈ in outb 0xA1 0xFF s₉
