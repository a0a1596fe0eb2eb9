-- ===== src/Paging.antt =====
-- Paging: src/kernel/vanadinite/src/mem/paging/table/repr.rs and flags.rs, at the default Sv39
-- configuration (three levels of tables, no `paging.sv48` or `paging.sv57`).
mod Tests
pub mod Size
pub mod Virtual
pub mod Physical
pub mod Flags
pub mod Entry
