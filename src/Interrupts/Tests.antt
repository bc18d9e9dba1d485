-- ===== src/Interrupts/Tests.antt =====
-- Runs of the models of idt.c and pic.c on an empty table and on two controllers with all lines masked.
use archa_os.Base.{ℕ, ◌≡◌, ◌≢◌, false, arith, ◌==◌, leb, not, ◌&&◌, ◌||◌}
use archa_os.Interrupts.{Idt, Ports, idt_set_gate, pic_enable}
use archa_os.Interrupts.Gates.{target, idt_set_gate-target}
use archa_os.Interrupts.Masks.{is_masked, IsPorts, pic_enable_lem}

abbrev empty_idt : Idt
empty_idt = record {
  entries = λ v. record {
    offset_low = 0;
    selector = 0;
    ist = 0;
    type_attr = 0;
    offset_mid = 0;
    offset_high = 0;
    zero_word = 0;
  };
  idt_changed = false;
  loaded = (0, 0);
}

idt_set_gate-target_example :
    (target ((idt_set_gate 14 0xFFFFFFFF80123456 empty_idt).entries 14) ≡ 0xFFFFFFFF80123456)
    × ((v : ℕ)
        → v ≢ 14
        → (idt_set_gate 14 0xFFFFFFFF80123456 empty_idt).entries v ≡ empty_idt.entries v)
idt_set_gate-target_example =
    idt_set_gate-target 14 0xFFFFFFFF80123456 empty_idt (omega arith) (omega arith)

abbrev all_masked : Ports
all_masked p = 0xFF

all_masked-IsPorts : IsPorts all_masked
all_masked-IsPorts = record { first = omega arith; second = omega arith }

pic_enable_lem_example :
    is_masked (pic_enable 12 all_masked) 2
    ≡ (not ((2 == 12) || (leb 8 12 && (2 == 2))) && is_masked all_masked 2)
pic_enable_lem_example =
    pic_enable_lem 12 all_masked all_masked-IsPorts (omega arith) 2 (omega arith)
