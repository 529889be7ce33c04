-- ===== src/Utils.antt =====
-- lethe-utils: the containers that the kernel and the AML interpreter use.
pub mod Hashmap
pub mod Queue
pub mod LinkedList
