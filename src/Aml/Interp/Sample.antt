-- ===== src/Aml/Interp/Sample.antt =====
-- A small state of lethe-aml for the tests: the root at 1 with a namespace "_SB_" at 2, in which
-- "DEV0" is the byte 5 and "REG0" a region of memory.
use uefi_bare_bones.Prelude.{
  ℕ, ◌+◌, ◌≡◌, refl, true, false, List, [], ◌∷◌, arith, ◌==◌, if◌then◌else◌, replicate,
}
use uefi_bare_bones.Aml.Code.{valid_chars}
use uefi_bare_bones.Aml.Namespace.{Namespace, Aml, ok, same_name, locate_object}
use uefi_bare_bones.Aml.Namespace.Children.{locate_object-child}
use uefi_bare_bones.Aml.Interp.{OperationRegion, Field, byte, pkg, hack, variable, Host, Interp}

abbrev pub host : Host
host = record {
  malloc = λ n. 100 + n;
  fresh = λ size. replicate size 0;
  memory_at = λ address len. address + len;
  port_at = λ port len. port;
  depth = 3;
}

abbrev pub sb : List ℕ
sb = b'_' ∷ b'S' ∷ b'B' ∷ b'_' ∷ []

abbrev pub dev : List ℕ
dev = b'D' ∷ b'E' ∷ b'V' ∷ b'0' ∷ []

abbrev pub s5 : List ℕ
s5 = b'_' ∷ b'S' ∷ b'5' ∷ b'_' ∷ []

abbrev pub empty_space : Namespace
empty_space = record { parent = 0; name = []; code = []; children = λ k. 0; namespaces = λ k. 0 }

abbrev pub spaces : Aml
spaces = record {
  spaces = λ p.
      if p == 1
      then record empty_space {
        children = λ k. if same_name k s5 then 20 else 0;
        namespaces = λ k. if same_name k sb then 2 else 0;
      }
      else if p == 2
      then record empty_space {
        parent = 1;
        name = sb;
        children = λ k. if same_name k dev then 9 else 0;
      }
      else empty_space;
  root = 1;
}

abbrev pub memory_region : OperationRegion
memory_region = record {
  name = b'R' ∷ b'E' ∷ b'G' ∷ b'0' ∷ [];
  region_space = 0;
  offset = 64;
  len = 8;
}

abbrev pub byte_field : Field
byte_field = record {
  access_type = 1;
  should_lock = false;
  update_rule = 0;
  region = memory_region;
}

-- The object at 20 is a package of the bytes 5 and 7.
abbrev pub state : Interp
state = record {
  aml = spaces;
  objects = λ p.
      if p == 9
      then variable dev (byte 5)
      else if p == 20
      then variable s5 (pkg (21 ∷ 22 ∷ []))
      else if p == 21
      then variable [] (byte 5)
      else if p == 22
      then variable [] (byte 7)
      else hack;
  allocated = 0;
}

pub dev_valid : valid_chars dev ≡ true
unfolding valid_chars
dev_valid = refl

pub dev_found : locate_object 3 spaces 2 dev false ≡ ok (9, dev)
dev_found = locate_object-child 2 spaces 2 b'D' b'E' b'V' b'0' dev_valid (λ e. absurd (omega arith))
