-- ===== src/Utils/LinkedList/Tests.antt =====
-- The list of lethe-utils/linked_list.c with two nodes.
use uefi_bare_bones.Prelude.{◌==◌, if◌then◌else◌}
use uefi_bare_bones.Utils.LinkedList.{Store}

-- Node 1 leads to node 2, which is the last.
abbrev two_nodes : Store
two_nodes n =
    if n == 1
    then record { ptr = 70; next = 2; root = 1 }
    else record { ptr = 80; next = 0; root = 1 }
