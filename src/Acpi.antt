-- ===== src/Acpi.antt =====
-- lethe-kernel/acpi: the tables.
pub mod Tables
