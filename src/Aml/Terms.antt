-- ===== src/Aml/Terms.antt =====
-- lethe-aml/aml/helpers.c: read_mem, read_io, term_arg_to_int and term_arg_to_buffer.
pub mod Objects
pub mod Expressions
pub mod Depth
mod Tests
use uefi_bare_bones.Prelude.{
  ℕ, zero, suc, ◌+◌, ◌-◌, ◌%◌, ◌^◌, Bool, true, false, not, ◌&&◌, ◌||◌, List, [], ◌∷◌, ltb, ◌==◌,
  if◌then◌else◌, length,
}
use uefi_bare_bones.Aml.Code.{next_byte, key_len}
use uefi_bare_bones.Aml.Interp.{
  OperationRegion, Field, NamedField, Variable, uninit, str, pkg, buf, byte, short_int, integer,
  long_int, Object, hack, method, region, variable, field_offset, mutex, word_field, Host, Outcome,
  done, exit, undefined, too_deep, M, ◌>>=◌, ◌>>◌, pure, debug_exit, fault, get_code, set_code,
  reading, take_bytes, low_first, locate_named, object_at,
}

-- `read_mem` of `__is_libk`.
pub read_mem : Host → ℕ → ℕ → M ℕ
read_mem host address access_len =
    if access_len == 8 || access_len == 16 || access_len == 32 || access_len == 64
    then pure (host.memory_at address access_len)
    else debug_exit

pub read_io : Host → ℕ → ℕ → M ℕ
read_io host port access_len =
    if access_len == 8 || access_len == 16 || access_len == 32
    then pure (host.port_at port access_len)
    else debug_exit

-- The reads of a word of two, four or eight bytes.
abbrev pub little_endian : ℕ → ℕ → M ℕ
little_endian ns count = reading (take_bytes count) ns >>= λ bytes. pure (low_first bytes)

-- `ns->code--`
abbrev pub unread : ℕ → ℕ → M (Unit {0})
unread ns b = get_code ns >>= λ code. set_code ns (b ∷ code)

-- A key at `ns->code`, which stays there, and the object that it names.
abbrev pub named_object : Host → ℕ → M ℕ
named_object host ns = get_code ns >>= λ code. reading (take_bytes key_len) ns >>= λ name.
    set_code ns code >> locate_named host ns name false >>= λ r. pure r.0

-- `ns->code += KEY_LEN`, behind a key.
abbrev pub skip_key : ℕ → M (Unit {0})
skip_key ns = reading (take_bytes key_len) ns >>= λ name. pure tt

-- The value of a name, of the data types that the switch has.
abbrev pub variable_value : Variable → M ℕ
variable_value (byte n) = pure n
variable_value (short_int n) = pure n
variable_value (integer n) = pure n
variable_value (uninit name) = debug_exit
variable_value (str bytes) = debug_exit
variable_value (pkg elements) = debug_exit
variable_value (buf bytes) = debug_exit
variable_value (long_int n) = debug_exit

-- `read_len`
abbrev pub read_len : ℕ → M ℕ
read_len access_type =
    if access_type == 0 || access_type == 1
    then pure 8
    else if access_type == 2
    then pure 16
    else if access_type == 3
    then pure 32
    else if access_type == 4
    then pure 64
    else debug_exit

-- The read of a field's unit.
pub field_value : Host → NamedField → M ℕ
unfolding read_mem read_io
field_value host field =
    let region = field.parent.region in
    let address = (region.offset + field.offset) % 2 ^ 64 in
    read_len field.parent.access_type >>= λ len.
    if region.region_space == 0
    then read_mem host address len
    else if region.region_space == 1
    then read_io host (address % 2 ^ 16) len
    else debug_exit

-- The objects but `hack`, whose `data` is NULL.
pub object_value : Host → Object → M ℕ
unfolding field_value
object_value host hack = debug_exit
object_value host (variable label var) = variable_value var
object_value host (field_offset field) = field_value host field
object_value host (method m) = pure 0
object_value host (region r) = pure 0
object_value host (mutex name flags) = pure 0
object_value host (word_field name buffer index) = pure 0

-- The `default` of term_arg_to_int.
pub named_value : Host → ℕ → M ℕ
unfolding object_value
named_value host ns = named_object host ns >>= λ obj.
    if obj == 0
    then debug_exit
    else object_at obj >>= λ object. skip_key ns >> object_value host object

-- What a comparison gives in C.
abbrev pub truth : Bool → ℕ
truth b = if b then 1 else 0

-- The operators on two terms.
abbrev pub two_terms : M ℕ → (ℕ → ℕ → Bool) → M ℕ
two_terms term test = term >>= λ term1. term >>= λ term2. pure (truth (test term1 term2))

abbrev pub logical_and : ℕ → ℕ → Bool
logical_and a b = not (a == 0) && not (b == 0)

-- The switch of term_arg_to_int, where `term` reads the terms of an operator.
abbrev pub term_switch : M ℕ → Host → ℕ → ℕ → M ℕ
term_switch term host ns op =
    if op == 0x00
    then pure 0
    else if op == 0x01
    then pure 1
    else if op == 0xFF
    then pure (2 ^ 64 - 1)
    else if op == 0x0A
    then reading next_byte ns
    else if op == 0x0B
    then little_endian ns 2
    else if op == 0x0C
    then little_endian ns 4
    else if op == 0x92
    then (term >>= λ predicate. pure (truth (predicate == 0)))
    else if op == 0x93
    then two_terms term (λ a b. a == b)
    else if op == 0x90
    then two_terms term logical_and
    else if op == 0x95
    then two_terms term (λ a b. ltb a b)
    else if op == 0x94
    then two_terms term (λ a b. ltb b a)
    else (unread ns op >> named_value host ns)

-- At most `fuel` terms deep.
pub terms : ℕ → Host → ℕ → M ℕ
unfolding named_value
terms zero host ns = λ s. too_deep
terms (suc fuel) host ns = reading next_byte ns >>= term_switch (terms fuel host ns) host ns

-- A term has a byte of its own.
pub term_arg_to_int : Host → ℕ → M ℕ
unfolding terms
term_arg_to_int host ns = get_code ns >>= λ code. terms (suc (length code)) host ns

-- The buffer of a name; the object is read through a NULL pointer where there is none.
abbrev pub buffer_value : ℕ → Object → M (List ℕ)
buffer_value ns (variable label (buf bytes)) = skip_key ns >> pure bytes
buffer_value ns _ = debug_exit

pub term_arg_to_buffer : Host → ℕ → M (List ℕ)
term_arg_to_buffer host ns =
    named_object host ns >>= λ obj. if obj == 0 then fault else object_at obj >>= buffer_value ns
