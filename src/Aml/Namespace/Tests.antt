-- ===== src/Aml/Namespace/Tests.antt =====
-- The namespaces of lethe-aml at concrete pointers.
use uefi_bare_bones.Prelude.{
  ℕ, ◌≡◌, ◌≢◌, refl, sym, ap, ◌∙◌, true, false, List, [], ◌∷◌, ◌++◌, arith, ◌==◌, if◌then◌else◌,
  replicate, length-replicate,
}
use uefi_bare_bones.Aml.Code.{valid_chars}
use uefi_bare_bones.Aml.Namespace.{
  Namespace, Aml, ok, ◌>>=◌, create_namespace, resolve_name, lookup, locate_object,
  init_aml_namespaces, add_child_to_namespace, same_name,
}
use uefi_bare_bones.Aml.Namespace.Paths.{Way, at_root, below, create_namespace-Way}
use uefi_bare_bones.Aml.Namespace.Locate.{locate_object-resolve_name}

abbrev no_space : Namespace
no_space = record { parent = 0; name = []; code = []; children = λ k. 0; namespaces = λ k. 0 }

-- "_SB_" and "DEV0"
abbrev sb : List ℕ
sb = b'_' ∷ b'S' ∷ b'B' ∷ b'_' ∷ []

abbrev dev : List ℕ
dev = b'D' ∷ b'E' ∷ b'V' ∷ b'0' ∷ []

-- The root at 1 with a namespace "_SB_" at 2, which has an object "DEV0" at 9.
abbrev two_spaces : Aml
two_spaces = record {
  spaces = λ p.
      if p == 1
      then record no_space { namespaces = λ k. if same_name k sb then 2 else 0 }
      else if p == 2
      then record no_space {
        parent = 1;
        name = sb;
        children = λ k. if same_name k dev then 9 else 0;
      }
      else no_space;
  root = 1;
}

abbrev root_path : Way two_spaces 0 1 []
root_path = at_root 1 refl refl

abbrev sb_path : Way two_spaces 1 2 sb
sb_path =
    below 2 1 0 [] sb root_path refl refl (λ e. absurd (omega arith)) (λ e. absurd (omega arith))
      (λ e. absurd (omega arith)) refl refl

sb_valid : valid_chars sb ≡ true
unfolding valid_chars
sb_valid = refl

dev_valid : valid_chars dev ≡ true
unfolding valid_chars
dev_valid = refl

locate_object-resolve_name_example :
    (key' : List ℕ) × ((resolve_name 2 (λ size. replicate size 0) two_spaces 2 dev >>= λ name.
    locate_object 0 two_spaces 1 name false)
      ≡ ok (9, key'))
locate_object-resolve_name_example =
    locate_object-resolve_name 2 0 1 (λ size. replicate size 0) dev false
      (λ size. length-replicate size 0) sb_path (omega arith) (λ e. absurd (omega arith)) refl
      sb_valid dev_valid

-- Only the two namespaces have a path.
path_bound : {levels q : ℕ} {names : List ℕ} → Way two_spaces levels q names → q ≢ 3
path_bound (at_root ns r e) z = absurd (omega (arith, r, z))
path_bound (below ns parent levels names name p e n a b c h r) z =
    a (sym e ∙ ap (λ (x : ℕ). (two_spaces.spaces x).parent) z)

create_namespace-Way_example :
    Way (create_namespace two_spaces 3 2 dev []) 2 3 (sb ++ dev)
    × ((levels' q : ℕ) (names' : List ℕ)
        → Way two_spaces levels' q names'
        → Way (create_namespace two_spaces 3 2 dev []) levels' q names')
create_namespace-Way_example =
    create_namespace-Way two_spaces 3 2 dev [] (λ e. absurd (omega arith))
      (λ e. absurd (omega arith)) refl sb_path (λ e. absurd (omega arith))
      (λ e. absurd (omega arith)) (λ levels' q names' p. path_bound p) refl

-- The names of `init_aml_namespaces` lead to the pointers that they were given.
abbrev empty_memory : Aml
empty_memory = record { spaces = λ p. no_space; root = 0 }

first_names :
    lookup (init_aml_namespaces empty_memory 1 2 3 4 5 6) 1 (b'_' ∷ b'T' ∷ b'Z' ∷ b'_' ∷ []) true
    ≡ 6
unfolding init_aml_namespaces
first_names = refl

child_added :
    lookup
      (add_child_to_namespace two_spaces 2 (b'D' ∷ b'E' ∷ b'V' ∷ b'1' ∷ []) 7)
      2
      (b'D' ∷ b'E' ∷ b'V' ∷ b'1' ∷ [])
      false
    ≡ 7
unfolding add_child_to_namespace
child_added = refl
