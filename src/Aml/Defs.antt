-- ===== src/Aml/Defs.antt =====
-- lethe-aml/aml/defs.c but for its fields. `run` is parse_termlist, of a
-- namespace, a start and an end.
pub mod Composed
pub mod Depth
pub mod Mutexes
pub mod Branches
mod Tests
use uefi_bare_bones.Prelude.{
  ℕ, zero, suc, ◌+◌, ◌-◌, ◌%◌, ◌^◌, Bool, true, false, not, ◌||◌, List, [], ◌∷◌, Option, none, some,
  ltb, ◌==◌, if◌then◌else◌, length, take, drop, bit_and, shr, sub64,
}
use uefi_bare_bones.Aml.Code.{
  next_byte, key_len, parse_length, parse_namestring, valid_name, trim_name,
}
use uefi_bare_bones.Aml.Namespace.{write_space, add_child_to_namespace}
use uefi_bare_bones.Aml.Interp.{
  set_parent, OperationRegion, Field, NamedField, Variable, uninit, str, pkg, buf, byte, short_int,
  integer, long_int, Method, Object, hack, method, region, variable, field_offset, mutex,
  word_field, Host, Outcome, done, exit, undefined, too_deep, Interp, M, ◌>>=◌, ◌>>◌, pure,
  debug_exit, fault, assert, set_aml, get_code, set_code, reading, take_bytes, advance,
  locate_named, spanned, object_at, add_object, new_namespace,
}
use uefi_bare_bones.Aml.Terms.{unread, term_arg_to_int, term_arg_to_buffer}
use uefi_bare_bones.Aml.DataObjects.{parse_data_object}

-- The namespace `root()`.
abbrev pub root : M ℕ
root s = done (s.aml.root, s)

abbrev pub Run : Type 0
Run = ℕ → List ℕ → List ℕ → M (Unit {0})

-- `*ns->code`
abbrev pub peek : ℕ → M ℕ
peek ns = get_code ns >>= λ code. reading next_byte ns >>= λ b. set_code ns code >> pure b

-- The ELSE of an IF; the code goes on `if_len` bytes behind its length.
abbrev pub else_branch : Run → ℕ → ℕ → ℕ → M (Unit {0})
else_branch run ns if_len predicate = reading next_byte ns >>= λ op. spanned ns >>= λ r.
    (if predicate == 0 then (advance r.1 r.0 >>= λ end. run ns r.0 end) else pure tt)
    >> (advance if_len r.0 >>= λ code. set_code ns code)

pub def_if_else : Run → Host → ℕ → M (Unit {0})
def_if_else run host ns = spanned ns >>= λ r. term_arg_to_int host ns >>= λ predicate.
    advance r.1 r.0 >>= λ end.
    (if predicate == 0 then set_code ns end else run ns r.0 end)
    >> (peek ns >>= λ op. if op == 0xA1 then else_branch run ns r.1 predicate else pure tt)

-- `inner + count - KEY_LEN`
abbrev pub last_key : List ℕ → M (List ℕ)
last_key name =
    if ltb (length name) key_len then fault else pure (drop (length name - key_len) name)

-- `ns->parent`
abbrev pub parent_of : ℕ → M ℕ
parent_of ns s = done ((s.aml.spaces ns).parent, s)

-- The namespace of a method's name.
abbrev pub method_scope : Host → ℕ → List ℕ → M ℕ
method_scope host ns [] = fault
method_scope host ns (c ∷ cs) =
    let count = length (c ∷ cs) in
    if count == key_len || count == key_len + 1
    then if c == b'\\' then root else if c == b'^' then parent_of ns else pure ns
    else (locate_named host ns (take (count - key_len) (c ∷ cs)) true >>= λ r. pure r.0)

abbrev pub method_object : List ℕ → ℕ → ℕ → List ℕ → List ℕ → ℕ → Object
method_object name flags method_len code_copy code own = method (record {
  name = name;
  flags = flags;
  len = sub64 method_len (length code_copy - length code);
  code = code;
  scope = own;
})

pub def_method : Host → ℕ → M (Unit {0})
def_method host ns = spanned ns >>= λ r. reading parse_namestring ns >>= λ method_name.
    reading next_byte ns >>= λ method_flags. get_code ns >>= λ code.
    last_key method_name >>= λ name. new_namespace host 0 name code >>= λ own.
    method_scope host ns method_name >>= λ scope.
    assert (not (scope == 0))
    >> add_object host scope name (method_object name method_flags r.1 r.0 code own)
    >> set_parent own scope
    >> (advance r.1 r.0 >>= λ end. set_code ns end)

pub def_name : Host → ℕ → M (Unit {0})
def_name host ns = reading parse_namestring ns >>= λ name.
    assert (length name == key_len)
    >> (parse_data_object host ns >>= λ var. add_object host ns name (variable name var))

pub def_op_region : Host → ℕ → M (Unit {0})
def_op_region host ns = reading parse_namestring ns >>= λ name.
    assert (length name == key_len)
    >> (reading next_byte ns >>= λ region_space. term_arg_to_int host ns >>= λ region_offset.
        term_arg_to_int host ns >>= λ region_len.
        let r : OperationRegion = record {
          name = name;
          region_space = region_space;
          offset = region_offset;
          len = region_len;
        } in
        add_object host ns name (region r))

-- A list of terms in a namespace up to `end`, behind which `ns` goes on.
abbrev pub run_in : Run → ℕ → ℕ → List ℕ → M (Unit {0})
run_in run ns scope end = get_code ns >>= λ code. run scope code end >> set_code ns end

-- Where there is no scope, the parent's name and the rest are copied first, from behind the first
-- byte, so that the rest is read one byte past the name's end.
pub def_scope : Run → Host → ℕ → M (Unit {0})
def_scope run host ns = spanned ns >>= λ r. advance r.1 r.0 >>= λ end.
    reading parse_namestring ns >>= λ scope_name.
    if length scope_name == 0
    then (root >>= λ scope. run_in run ns scope end)
    else (locate_named host ns scope_name true >>= λ scope.
        if not (scope.0 == 0)
        then run_in run ns scope.0 end
        else if ltb key_len (length scope_name)
        then fault
        else debug_exit)

-- The namespace of a device that there is none for yet; `device_name` is as locate_object leaves it.
abbrev pub create_device : Host → ℕ → List ℕ → M ℕ
create_device host ns device_name =
    let len = length device_name - key_len in
    get_code ns >>= λ code.
    if ltb key_len (length device_name)
    then (locate_named host ns (take len device_name) true >>= λ parent.
        new_namespace host parent.0 (trim_name device_name) code)
    else new_namespace host ns device_name code

pub def_device : Run → Host → ℕ → M (Unit {0})
def_device run host ns = spanned ns >>= λ r. advance r.1 r.0 >>= λ end.
    reading parse_namestring ns >>= λ device_name.
    locate_named host ns device_name true >>= λ found.
    (if found.0 == 0 then create_device host ns found.1 else pure found.0) >>= λ device.
    run_in run ns device end

-- `hm_get(ns->children, key)`
abbrev pub child : ℕ → List ℕ → M ℕ
child ns key s = done ((s.aml.spaces ns).children key, s)

pub def_alias : ℕ → M (Unit {0})
def_alias ns = reading parse_namestring ns >>= λ source. reading parse_namestring ns >>= λ alias.
    assert (length source == key_len)
    >> assert (length alias == key_len)
    >> child ns source
    >>= λ ref. assert (not (ref == 0)) >> λ s.
        done (tt, set_aml (add_child_to_namespace s.aml ns alias ref) s)

-- The first bytes of an `aml_name_t` whose `count` is KEY_LEN: `mutex_name` points at it, not at its
-- characters.
abbrev pub count_bytes : List ℕ
count_bytes = 4 ∷ 0 ∷ 0 ∷ 0 ∷ []

pub def_mutex : Host → ℕ → M (Unit {0})
def_mutex host ns = reading parse_namestring ns >>= λ mutex_name.
    assert (length mutex_name == key_len)
    >> (reading next_byte ns >>= λ sync_flags.
        add_object host ns count_bytes (mutex count_bytes sync_flags))

pub def_create_word_field : Host → ℕ → M (Unit {0})
def_create_word_field host ns = term_arg_to_buffer host ns >>= λ buffer.
    term_arg_to_int host ns >>= λ byte_index. reading parse_namestring ns >>= λ name.
    assert (length name == key_len) >> add_object host ns name (word_field name buffer byte_index)
