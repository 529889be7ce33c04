-- ===== src/Aml/Run.antt =====
-- lethe-aml: parse_next and parse_termlist of aml/helpers.c, parse_table of aml/defs.c.
pub mod Steps
pub mod Branches
mod Tests
use uefi_bare_bones.Prelude.{
  bit_or, bit_and, not, shl, ◌&&◌, ◌∷◌, ℕ, zero, suc, ◌+◌, ◌-◌, ◌*◌, ◌%◌, ◌^◌, Bool, true, false,
  not, List, [], ◌∷◌, Option, none, some, ltb, ◌==◌, ◌||◌, if◌then◌else◌, length, bit_and, bit_or,
  shl, sub64,
}
use uefi_bare_bones.Aml.Code.{next_byte, key_len}
use uefi_bare_bones.Aml.Interp.{
  Variable, uninit, str, pkg, buf, byte, short_int, integer, long_int, Method, Object, hack, method,
  region, variable, field_offset, mutex, word_field, Host, Outcome, too_deep, M, ◌>>=◌, ◌>>◌, pure,
  debug_exit, fault, assert, get_code, set_code, reading, advance, object_at,
}
use uefi_bare_bones.Aml.Fields.{def_field, def_index_field}
use uefi_bare_bones.Aml.Defs.{
  child, Run, root, child, def_if_else, def_method, def_name, def_op_region, def_scope, def_device,
  def_alias, def_mutex, def_create_word_field,
}

-- `op`
abbrev pub opcode : ℕ → M ℕ
opcode ns = reading next_byte ns >>= λ b.
    if b == 0x5B then (reading next_byte ns >>= λ ext. pure (0x5B00 + ext)) else pure b

-- The switch of parse_next; a word field goes on into the case below it.
abbrev pub next_switch : Run → Host → ℕ → ℕ → M (Unit {0})
next_switch run host ns op =
    if op == 0xA0
    then def_if_else run host ns
    else if op == 0x08
    then def_name host ns
    else if op == 0x14
    then def_method host ns
    else if op == 0x5B80
    then def_op_region host ns
    else if op == 0x5B81
    then def_field host ns
    else if op == 0x5B86
    then def_index_field ns
    else if op == 0x10
    then def_scope run host ns
    else if op == 0x5B82
    then def_device run host ns
    else if op == 0x5B01
    then def_mutex host ns
    else if op == 0x06
    then def_alias ns
    else if op == 0x8B
    then (def_create_word_field host ns >> def_index_field ns)
    else if op == 0x5B83
    then def_index_field ns
    else debug_exit

pub parse_next : Run → Host → ℕ → M (Unit {0})
parse_next run host ns = opcode ns >>= next_switch run host ns

-- A list of terms, where `loop` is its loop.
abbrev pub from_start : (ℕ → List ℕ → M (Unit {0})) → Run
from_start loop ns start end =
    get_code ns >>= λ copy. set_code ns start >> loop ns end >> set_code ns copy

-- The loop of parse_termlist, of at most `fuel` terms in a list and lists in a list. A pointer is
-- below `end` where more of the table is left behind it.
pub term_loop : ℕ → Host → ℕ → List ℕ → M (Unit {0})
unfolding parse_next
term_loop zero host ns end = λ s. too_deep
term_loop (suc fuel) host ns end = get_code ns >>= λ code.
    if ltb (length end) (length code)
    then (parse_next (from_start (term_loop fuel host)) host ns >> term_loop fuel host ns end)
    else pure tt

-- A term has a byte of its own.
pub parse_termlist : Host → Run
unfolding term_loop
parse_termlist host ns start end = from_start (term_loop (suc (length start)) host) ns start end

-- `parse_table`, with `populate_children`: the header's `length` is a `uint32_t`.
pub parse_table : Host → List ℕ → ℕ → M (Unit {0})
unfolding parse_termlist
parse_table host table_data table_len = root >>= λ ns.
    set_code ns table_data >> advance ((table_len + 2 ^ 32 - 36) % 2 ^ 32) table_data >>= λ end.
    parse_termlist host ns table_data end
