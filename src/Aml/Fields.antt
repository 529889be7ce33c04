-- ===== src/Aml/Fields.antt =====
-- lethe-aml: the fields of a region, with parse_next_field_elem of aml/helpers.c and def_field and
-- def_index_field of aml/defs.c.
pub mod Offsets
pub mod Depth
mod Tests
use uefi_bare_bones.Prelude.{
  ℕ, zero, suc, ◌+◌, ◌-◌, ◌%◌, ◌^◌, Bool, true, false, not, ◌||◌, List, [], ◌∷◌, Option, none, some,
  ltb, ◌==◌, if◌then◌else◌, length, take, drop, bit_and, shr, sub64,
}
use uefi_bare_bones.Aml.Code.{
  next_byte, key_len, parse_length, parse_namestring, valid_name, trim_name,
}
use uefi_bare_bones.Aml.Namespace.{write_space, add_child_to_namespace}
use uefi_bare_bones.Aml.Interp.{
  OperationRegion, Field, NamedField, Variable, uninit, str, pkg, buf, byte, short_int, integer,
  long_int, Method, Object, hack, method, region, variable, field_offset, mutex, word_field, Host,
  Outcome, done, exit, undefined, too_deep, Interp, M, ◌>>=◌, ◌>>◌, pure, debug_exit, fault, assert,
  set_aml, get_code, set_code, reading, take_bytes, advance, locate_named, spanned, object_at,
  add_object, new_namespace,
}
use uefi_bare_bones.Aml.Terms.{unread, term_arg_to_int, term_arg_to_buffer}

-- A field's name, length and object; what it gives is how far the code has moved.
abbrev pub named_field : Host → ℕ → List ℕ → List ℕ → ℕ → Field → M (Option ℕ)
named_field host ns code_copy name offset parent = reading parse_length ns >>= λ len.
    let f : NamedField = record { offset = offset; len = len; name = name; parent = parent } in
    add_object host ns name (field_offset f) >> get_code ns >>= λ code.
    pure (some (length code_copy - length code))

-- The switch of parse_next_field_elem. `UINT64_MAX` is `none`.
abbrev pub elem_switch : Host → ℕ → ℕ → Field → List ℕ → ℕ → M (Option ℕ)
elem_switch host ns offset parent code_copy op =
    if op == 0x00
    then (reading parse_length ns >>= λ len. pure (some len))
    else if op == 0x01
    then (reading (take_bytes 2) ns >>= λ skipped. pure (some 2))
    else if op == 0x02
    then debug_exit
    else if op == 0x03
    then (reading (take_bytes 3) ns >>= λ skipped. pure (some 3))
    else (unread ns op >> reading (take_bytes key_len) ns >>= λ name.
        if valid_name name
        then named_field host ns code_copy name offset parent
        else (set_code ns code_copy >> pure none))

pub parse_next_field_elem : Host → ℕ → ℕ → Field → M (Option ℕ)
parse_next_field_elem host ns offset parent = get_code ns >>= λ code_copy.
    reading next_byte ns >>= elem_switch host ns offset parent code_copy

-- `offset += len`, of an `int` as a 64-bit address has it.
abbrev pub next_offset : ℕ → ℕ → ℕ
next_offset offset len =
    let sum = (offset + len) % 2 ^ 32 in if ltb sum (2 ^ 31) then sum else sum + (2 ^ 64 - 2 ^ 32)

abbrev pub until_none : (ℕ → M (Unit {0})) → Option ℕ → M (Unit {0})
until_none more none = pure tt
until_none more (some len) = more len

-- The loop of def_field, at most `fuel` rounds.
pub field_elems : ℕ → Host → ℕ → ℕ → Field → M (Unit {0})
unfolding parse_next_field_elem
field_elems zero host ns offset parent = λ s. too_deep
field_elems (suc fuel) host ns offset parent =
    parse_next_field_elem host ns offset parent >>= λ len.
    until_none (λ l. field_elems fuel host ns (next_offset offset l) parent) len

-- `obj`, where it is a region.
abbrev pub region_of : Object → M OperationRegion
region_of (region r) = pure r
region_of _ = debug_exit

abbrev pub field_of : ℕ → OperationRegion → Field
field_of flags of = record {
  access_type = bit_and flags 0xF;
  should_lock = not (bit_and flags 0x10 == 0);
  update_rule = shr (bit_and flags 0xC0) 6;
  region = of;
}

-- Every element has a byte of its own.
pub def_field : Host → ℕ → M (Unit {0})
unfolding field_elems
def_field host ns = spanned ns >>= λ r. reading parse_namestring ns >>= λ name.
    locate_named host ns name false >>= λ obj. reading next_byte ns >>= λ flags.
    assert (not (obj.0 == 0)) >> object_at obj.0 >>= region_of >>= λ region.
    assert (bit_and flags 0x80 == 0)
    >> ((get_code ns >>= λ code. field_elems (suc (length code)) host ns 0 (field_of flags region))
        >> (advance r.1 r.0 >>= λ end. set_code ns end))

pub def_index_field : ℕ → M (Unit {0})
def_index_field ns = spanned ns >>= λ r. advance r.1 r.0 >>= λ end. set_code ns end
