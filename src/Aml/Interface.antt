-- ===== src/Aml/Interface.antt =====
-- lethe-aml/aml/interface.c: the methods and the sleep.
pub mod Sleep
mod Tests
use uefi_bare_bones.Prelude.{
  bit_or, bit_and, not, shl, ◌&&◌, ◌∷◌, ℕ, zero, suc, ◌+◌, ◌-◌, ◌*◌, ◌%◌, ◌^◌, Bool, true, false,
  not, List, [], ◌∷◌, Option, none, some, ltb, ◌==◌, ◌||◌, if◌then◌else◌, length, bit_and, bit_or,
  shl, sub64,
}
use uefi_bare_bones.Aml.Code.{next_byte, key_len}
use uefi_bare_bones.Aml.Interp.{
  Variable, uninit, str, pkg, buf, byte, short_int, integer, long_int, Method, Object, hack, method,
  region, variable, field_offset, mutex, word_field, Host, Outcome, too_deep, M, ◌>>=◌, ◌>>◌, pure,
  debug_exit, fault, assert, get_code, set_code, reading, advance, object_at,
}
use uefi_bare_bones.Aml.Fields.{def_field, def_index_field}
use uefi_bare_bones.Aml.Defs.{
  child, Run, root, child, def_if_else, def_method, def_name, def_op_region, def_scope, def_device,
  def_alias, def_mutex, def_create_word_field,
}
use uefi_bare_bones.Aml.Run.{parse_termlist}

pub execute_method : Host → Method → M (Unit {0})
execute_method host m = advance m.len m.code >>= parse_termlist host m.scope m.code

-- The `fadt` that scan_tables finds, as far as it is used.
pub record Fadt : Type 0 where
  pub flags : ℕ
  pub pm1a_control_block : ℕ
  pub pm1b_control_block : ℕ

-- `UINT64_MAX` where the data is no integer.
pub variable_to_int : Variable → ℕ
variable_to_int (byte n) = n
variable_to_int (integer n) = n
variable_to_int (short_int n) = n
variable_to_int (long_int n) = n
variable_to_int (uninit name) = 2 ^ 64 - 1
variable_to_int (str bytes) = 2 ^ 64 - 1
variable_to_int (pkg elements) = 2 ^ 64 - 1
variable_to_int (buf bytes) = 2 ^ 64 - 1

-- The data of an element, which is a variable.
abbrev pub element : Object → M Variable
element (variable label var) = pure var
element _ = fault

-- `slp_typa` and `slp_typb`, of the first two elements.
abbrev pub sleep_types : List ℕ → M (ℕ × ℕ)
sleep_types [] = fault
sleep_types (a ∷ []) = fault
sleep_types (a ∷ b ∷ elements) = object_at a >>= element >>= λ var_slp_typa.
    object_at b >>= element >>= λ var_slp_typb.
    pure (variable_to_int var_slp_typa, variable_to_int var_slp_typb)

abbrev pub sleep_package : Object → M (List ℕ)
sleep_package (variable label (pkg elements)) = pure elements
sleep_package _ = debug_exit

-- `slp_typ << 10 | ACPI_SLEEP`, in the 16 bits that `outw` writes.
abbrev pub sleep_word : ℕ → ℕ
sleep_word slp_typ = bit_or (shl slp_typ 10 % 2 ^ 64) 0x2000 % 2 ^ 16

-- The ports that are written, with what is written there.
pub execute_sleep : Fadt → ℕ → M (List (ℕ × ℕ))
unfolding variable_to_int
execute_sleep fadt state = assert (state == 5) >> root >>= λ ns.
    child ns (b'_' ∷ b'S' ∷ b'5' ∷ b'_' ∷ []) >>= λ obj.
    assert (not (obj == 0)) >> object_at obj >>= sleep_package >>= sleep_types >>= λ r.
    assert (not (r.0 == 2 ^ 64 - 1) && not (r.1 == 2 ^ 64 - 1))
    >> assert (bit_and fadt.flags (2 ^ 20) == 0)
    >> pure (
        (fadt.pm1a_control_block % 2 ^ 16, sleep_word r.0)
        ∷ (fadt.pm1b_control_block % 2 ^ 16, sleep_word r.1)
        ∷ [])
