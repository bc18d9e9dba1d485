-- ===== src/Mm.antt =====
-- The memory managers of kernel/arch/x86_64/mm.
pub mod Pmm
pub mod Vmm
