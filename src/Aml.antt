-- ===== src/Aml.antt =====
-- lethe-aml: the names of the AML interpreter, the namespaces that it keeps objects in, and the
-- interpreter itself.
pub mod Code
pub mod Namespace
pub mod Interp
pub mod Terms
pub mod DataObjects
pub mod Fields
pub mod Defs
pub mod Run
pub mod Interface
