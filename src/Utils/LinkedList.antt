-- ===== src/Utils/LinkedList.antt =====
-- lethe-utils/linked_list.c: nodes in a store, 0 is NULL. `calloc` is liballoc's, so the pointer that
-- it gave is an argument; the debug messages are left out.
pub mod Append
mod Tests
use uefi_bare_bones.Prelude.{
  ℕ, zero, suc, Bool, true, false, ◌||◌, Option, none, some, List, [], ◌∷◌, ◌==◌, if◌then◌else◌,
}

-- `struct node`
pub record Node : Type 0 where
  pub ptr : ℕ
  pub next : ℕ
  pub root : ℕ

abbrev pub Store : Type 0
Store = ℕ → Node

-- A write of a node.
abbrev pub write_node : Store → ℕ → Node → Store
write_node store p node q = if q == p then node else store q

-- The result is none where NULL is used.
pub new_node : Store → ℕ → Option Store
new_node store node =
    if node == 0
    then none
    else some (write_node store node (record { ptr = 0; next = 0; root = node }))

-- The writes of `append_node` to a node that is there.
pub link : Store → ℕ → ℕ → ℕ → Store
link store node list ptr =
    let first = write_node store node (record (store node) { next = (store list).next }) in
    let second = write_node first list (record (first list) { next = node }) in
    write_node second node (record (second node) { ptr = ptr; root = list })

pub append_node : Store → ℕ → ℕ → ℕ → Option (ℕ × Store)
unfolding new_node link
append_node store node list ptr =
    let fresh = write_node store node (record { ptr = 0; next = 0; root = node }) in
    if node == 0 || list == 0 then none else some (node, link fresh node list ptr)

-- The pointers that `fn` is called on, in order; the fuel bounds the rounds.
pub linked_list_foreach : ℕ → Store → ℕ → Option (List ℕ)
linked_list_foreach zero store node = none
linked_list_foreach (suc fuel) store node =
    let rest = linked_list_foreach fuel store (store node).next in
    if node == 0
    then some []
    else elim rest [ none ↦ none | some ptrs ↦ some ((store node).ptr ∷ ptrs) ]
