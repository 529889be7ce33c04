-- ===== src/Utils/LinkedList/Append.antt =====
-- The list that the nodes of lethe-utils/linked_list.c make up.
use uefi_bare_bones.Prelude.{
  ℕ, zero, suc, ◌<◌, ◌≡◌, refl, sym, ap, ◌≢◌, true, false, some, List, [], ◌∷◌, arith, ◌==◌, length,
}
use uefi_bare_bones.Utils.LinkedList.{Store, write_node, link, append_node, linked_list_foreach}

-- The nodes from a pointer on are the ones listed, down to NULL.
abbrev pub Chain : Store → ℕ → List ℕ → Type 0
Chain store p [] = p ≡ 0
Chain store p (n ∷ ns) = (p ≡ n) × (n ≢ 0) × Chain store (store n).next ns

-- No node listed is `x`.
abbrev pub Avoids : ℕ → List ℕ → Type 0
Avoids x [] = ◌≡◌ {A = ℕ} 0 0
Avoids x (n ∷ ns) = (n ≢ x) × Avoids x ns

abbrev pub ptrs_of : Store → List ℕ → List ℕ
ptrs_of store [] = []
ptrs_of store (n ∷ ns) = (store n).ptr ∷ ptrs_of store ns

-- The loop calls `fn` on the pointer of each node once, in order, and ends.
linked_list_foreach_lem :
    (fuel : ℕ) (store : Store) (p : ℕ) (ns : List ℕ)
    → Chain store p ns
    → length ns < fuel
    → linked_list_foreach fuel store p ≡ some (ptrs_of store ns)
unfolding linked_list_foreach
linked_list_foreach_lem zero store p ns c lt = absurd (omega arith)
linked_list_foreach_lem (suc fuel) store p [] c lt =
    let e : (p == 0) ≡ true = ground arith in rw e refl
linked_list_foreach_lem (suc fuel) store p (n ∷ ns) (q, n0, c) lt =
    let e : (n == 0) ≡ false = ground arith in
    let ih = linked_list_foreach_lem fuel store (store n).next ns c (omega arith) in
    rw (q, e, ih) (ap (λ (t : ℕ). some ((store t).ptr ∷ ptrs_of store ns)) q)

-- What `append_node` leaves at each address.
linked : Store → ℕ → ℕ → ℕ → Store
unfolding link
linked store node list ptr =
    link (write_node store node (record { ptr = 0; next = 0; root = node })) node list ptr

linked_node :
    (store : Store) (node list ptr : ℕ)
    → node ≢ list
    → ((linked store node list ptr node).next ≡ (store list).next)
      × ((linked store node list ptr node).ptr ≡ ptr)
unfolding linked link
linked_node store node list ptr n =
    let a : (node == node) ≡ true = ground arith in
    let b : (list == node) ≡ false = ground arith in
    let c : (node == list) ≡ false = ground arith in (rw (a, c, b) refl, rw a refl)

linked_list :
    (store : Store) (node list ptr : ℕ)
    → node ≢ list
    → ((linked store node list ptr list).next ≡ node)
      × ((linked store node list ptr list).ptr ≡ (store list).ptr)
unfolding linked link
linked_list store node list ptr n =
    let a : (list == list) ≡ true = ground arith in
    let b : (list == node) ≡ false = ground arith in (rw (b, a) refl, rw (b, a) refl)

linked_other :
    (store : Store) (node list ptr q : ℕ)
    → q ≢ node
    → q ≢ list
    → linked store node list ptr q ≡ store q
unfolding linked link
linked_other store node list ptr q n1 n2 =
    let a : (q == node) ≡ false = ground arith in
    let b : (q == list) ≡ false = ground arith in rw (a, b) refl

linked-Chain :
    (store : Store) (node list ptr p : ℕ) (ns : List ℕ)
    → Avoids node ns
    → Avoids list ns
    → Chain store p ns
    → Chain (linked store node list ptr) p ns
      × (ptrs_of (linked store node list ptr) ns ≡ ptrs_of store ns)
linked-Chain store node list ptr p [] a b c = (c, refl)
linked-Chain store node list ptr p (n ∷ ns) (a, aa) (b, bb) (q, n0, c) =
    let e = linked_other store node list ptr n a b in
    let (c', r) = linked-Chain store node list ptr (store n).next ns aa bb c in
    ((q, n0, rw e c'), rw (e, r) refl)

-- A fresh node is put behind the head of the list, with its pointer, and the rest of the list
-- stays as it is.
append_node-Chain :
    (store : Store) (node list ptr : ℕ) (ns : List ℕ)
    → node ≢ 0
    → Avoids node (list ∷ ns)
    → Avoids list ns
    → Chain store list (list ∷ ns)
    → (store' : Store) × (append_node store node list ptr ≡ some (node, store'))
      × Chain store' list (list ∷ node ∷ ns)
      × (ptrs_of store' (list ∷ node ∷ ns) ≡ (store list).ptr ∷ ptr ∷ ptrs_of store ns)
unfolding append_node linked
append_node-Chain store node list ptr ns n0 (apart, aa) bb (_, l0, c) =
    let a : (node == 0) ≡ false = ground arith in
    let b : (list == 0) ≡ false = ground arith in
    let ne : node ≢ list = (λ h. apart (sym h)) in
    let (next_node, ptr_node) = linked_node store node list ptr ne in
    let (next_list, ptr_list) = linked_list store node list ptr ne in
    let (kept, ptrs) = linked-Chain store node list ptr (store list).next ns aa bb c in
    (
      linked store node list ptr,
      rw (a, b) refl,
      (refl, l0, (next_list, n0, rw next_node kept)),
      rw (ptr_list, ptr_node, ptrs) refl,
    )
