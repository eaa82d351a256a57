-- ===== src/Osboot.antt =====
-- src/osboot.c: the boot loader application.
pub mod Examples
pub mod Files
pub mod MemoryMap
pub mod Acpi
pub mod Kernel
pub mod Boot
pub mod Main
