-- ===== src/Aml/DataObjects.antt =====
-- lethe-aml/aml/helpers.c: populate_package and parse_data_object.
pub mod Literals
pub mod Depth
mod Tests
use uefi_bare_bones.Prelude.{
  ℕ, zero, suc, ◌+◌, ◌%◌, ◌^◌, Bool, true, false, not, ◌||◌, List, [], ◌∷◌, Option, none, some, ltb,
  ◌==◌, if◌then◌else◌, length,
}
use uefi_bare_bones.Aml.Code.{next_byte, key_len, parse_length, parse_namestring, valid_name}
use uefi_bare_bones.Aml.Namespace.{resolve_name}
use uefi_bare_bones.Aml.Interp.{
  Variable, uninit, str, pkg, buf, byte, short_int, integer, long_int, variable, Interp, Host,
  Outcome, too_deep, M, ◌>>=◌, ◌>>◌, pure, debug_exit, get_code, set_code, reading, take_bytes,
  lift_result, create_ptr,
}
use uefi_bare_bones.Aml.Terms.{little_endian, term_arg_to_int}

abbrev pub resolved : Host → ℕ → List ℕ → M (List ℕ)
resolved host ns name s =
    lift_result host.depth ns (resolve_name host.depth host.fresh s.aml ns name) s

-- An element of a package, where `parse_object` is parse_data_object.
abbrev pub package_element : M Variable → Host → ℕ → M Variable
package_element parse_object host ns = get_code ns >>= λ code_copy.
    reading parse_namestring ns >>= λ name.
    if not (valid_name name) || length name == 0
    then (set_code ns code_copy >> parse_object)
    else (resolved host ns name >>= λ resolved_name. pure (uninit resolved_name))

-- The elements; a label that is not written is what the new block has in it.
pub populate_package : M Variable → Host → ℕ → ℕ → M (List ℕ)
populate_package parse_object host ns zero = pure []
populate_package parse_object host ns (suc num_elements) =
    package_element parse_object host ns >>= λ element.
    create_ptr host (variable (host.fresh key_len) element) >>= λ p.
    populate_package parse_object host ns num_elements >>= λ elements. pure (p ∷ elements)

-- A string with its 0.
pub take_string : List ℕ → Option (List ℕ × List ℕ)
take_string [] = none
take_string (b ∷ code) = elim (b == 0) [
  | true ↦ some (b ∷ [], code)
  | false ↦ elim (take_string code) [ none ↦ none | some r ↦ some (b ∷ r.0, r.1) ]
]

abbrev pub package_object : M Variable → Host → ℕ → M ℕ → M Variable
package_object parse_object host ns count = reading parse_length ns >>= λ pkg_len.
    count >>= λ num_elements.
    populate_package parse_object host ns (num_elements % 2 ^ 8) >>= λ elements. pure (pkg elements)

abbrev pub buffer_object : Host → ℕ → M Variable
buffer_object host ns = reading parse_length ns >>= λ buf_len.
    term_arg_to_int host ns >>= λ buffer_size.
    reading (take_bytes buffer_size) ns >>= λ buffer. pure (buf buffer)

-- The switch of parse_data_object.
abbrev pub object_switch : M Variable → Host → ℕ → ℕ → M Variable
object_switch parse_object host ns op =
    if op == 0x00
    then pure (byte 0)
    else if op == 0x01
    then pure (byte 1)
    else if op == 0xFF
    then pure (byte 0xFF)
    else if op == 0x0A
    then (reading next_byte ns >>= λ b. pure (byte b))
    else if op == 0x0B
    then (little_endian ns 2 >>= λ word. pure (short_int word))
    else if op == 0x0C
    then (little_endian ns 4 >>= λ dword. pure (integer dword))
    else if op == 0x0E
    then (little_endian ns 8 >>= λ qword. pure (long_int qword))
    else if op == 0x0D
    then (reading take_string ns >>= λ string. pure (str string))
    else if op == 0x13
    then package_object parse_object host ns (term_arg_to_int host ns)
    else if op == 0x12
    then package_object parse_object host ns (reading next_byte ns)
    else if op == 0x11
    then buffer_object host ns
    else debug_exit

-- At most `fuel` objects deep.
pub data_objects : ℕ → Host → ℕ → M Variable
unfolding populate_package take_string
data_objects zero host ns = λ s. too_deep
data_objects (suc fuel) host ns =
    reading next_byte ns >>= object_switch (data_objects fuel host ns) host ns

pub parse_data_object : Host → ℕ → M Variable
unfolding data_objects
parse_data_object host ns = get_code ns >>= λ code. data_objects (suc (length code)) host ns
