-- ===== src/Aml/Interp.antt =====
-- The state that lethe-aml/aml works on, its objects (aml/include/types.h) and the reads of the code
-- at `ns->code`. A pointer into a table is what is left of the table from there on, and moving one
-- past the table's end is `undefined`.
pub mod Cursor
pub mod Words
pub mod Named
pub mod Progress
pub mod Objects
pub mod Sample
use uefi_bare_bones.Prelude.{
  ℕ, zero, suc, ◌+◌, ◌-◌, ◌*◌, ◌^◌, Bool, true, false, List, [], ◌∷◌, Option, none, some, ltb, ◌==◌,
  if◌then◌else◌, length, take, drop, bit_or, shl,
}
use uefi_bare_bones.Aml.Code.{next_byte, key_len, parse_length}
use uefi_bare_bones.Aml.Namespace.{
  Result, ok, exit as search_exit, undefined as search_undefined, too_deep as search_too_deep,
  Namespace, Aml, write_space, create_namespace, add_child_to_namespace, locate_object,
  resolve_name,
}

-- `aml_operation_region_t`, `aml_field_t` and `aml_named_field_t`
pub record OperationRegion : Type 0 where
  pub name : List ℕ
  pub region_space : ℕ
  pub offset : ℕ
  pub len : ℕ

pub record Field : Type 0 where
  pub access_type : ℕ
  pub should_lock : Bool
  pub update_rule : ℕ
  pub region : OperationRegion

pub record NamedField : Type 0 where
  pub offset : ℕ
  pub len : ℕ
  pub name : List ℕ
  pub parent : Field

-- `data_type` and the union of `aml_variable_t`; the elements of a package are pointers to objects.
pub data Variable : Type 0 where
  uninit : List ℕ → Variable
  str : List ℕ → Variable
  pkg : List ℕ → Variable
  buf : List ℕ → Variable
  byte : ℕ → Variable
  short_int : ℕ → Variable
  integer : ℕ → Variable
  long_int : ℕ → Variable

-- `aml_method_t`, with its namespace.
pub record Method : Type 0 where
  pub name : List ℕ
  pub flags : ℕ
  pub len : ℕ
  pub code : List ℕ
  pub scope : ℕ

-- `aml_ptr_t`: `type` and `data`. A word field is a buffer and an index in it.
pub data Object : Type 0 where
  hack : Object
  method : Method → Object
  region : OperationRegion → Object
  variable : List ℕ → Variable → Object
  field_offset : NamedField → Object
  mutex : List ℕ → ℕ → Object
  word_field : List ℕ → List ℕ → ℕ → Object

-- What the code relies on: the pointer of the n-th `malloc` for a namespace or an object, what a
-- new block has in it, the memory and the ports that a field is read from, and how many parents a
-- walk up the namespaces may pass.
pub record Host : Type 0 where
  pub malloc : ℕ → ℕ
  pub fresh : ℕ → List ℕ
  pub memory_at : ℕ → ℕ → ℕ
  pub port_at : ℕ → ℕ → ℕ
  pub depth : ℕ

pub record Interp : Type 0 where
  pub aml : Aml
  pub objects : ℕ → Object
  pub allocated : ℕ

-- `exit` is `AML_EXIT`, a failed assertion or `unimplemented`; `too_deep` is the end of the
-- fuel. `past_depth` is a walk up the parents of a namespace that takes more steps than the depth
-- given, with the namespaces that there are then; where the parents form a cycle, the code walks on
-- for ever.
pub data Outcome (A : Type 0) : Type 0 where
  done : A → Outcome A
  exit : Outcome A
  undefined : Outcome A
  past_depth : ℕ → Aml → ℕ → Outcome A
  too_deep : Outcome A

abbrev pub M : Type 0 → Type 0
M A = Interp → Outcome (A × Interp)

abbrev pub bind : {A B : Type 0} → Outcome (A × Interp) → (A → M B) → Outcome (B × Interp)
bind (done (a, s)) f = f a s
bind exit f = exit
bind undefined f = undefined
bind (past_depth n aml q) f = past_depth n aml q
bind too_deep f = too_deep

infixl 5 ◌>>=◌ ◌>>◌
abbrev pub ◌>>=◌ : {A B : Type 0} → M A → (A → M B) → M B
◌>>=◌ m f s = bind (m s) f

abbrev pub ◌>>◌ : {B : Type 0} → M (Unit {0}) → M B → M B
◌>>◌ m k = m >>= λ _. k

abbrev pub pure : {A : Type 0} → A → M A
pure a s = done (a, s)

-- `AML_EXIT()`, and `debug_exit()`, which prints the namespaces before.
abbrev pub debug_exit : {A : Type 0} → M A
debug_exit s = exit

abbrev pub fault : {A : Type 0} → M A
fault s = undefined

-- A failed assertion, or an `unimplemented` case.
abbrev pub assert : Bool → M (Unit {0})
assert b = if b then pure tt else debug_exit

abbrev pub code_of : ℕ → Interp → List ℕ
code_of ns s = (s.aml.spaces ns).code

abbrev pub set_aml : Aml → Interp → Interp
set_aml aml s = record s { aml = aml }

-- `ns->code = code`
abbrev pub put_code : ℕ → List ℕ → Interp → Interp
put_code ns code s = set_aml (write_space s.aml ns (record (s.aml.spaces ns) { code = code })) s

abbrev pub get_code : ℕ → M (List ℕ)
get_code ns s = done (code_of ns s, s)

abbrev pub set_code : ℕ → List ℕ → M (Unit {0})
set_code ns code s = done (tt, put_code ns code s)

-- A read of the code that moves `ns->code`.
abbrev pub read_with : {A : Type 0} → ℕ → Option (A × List ℕ) → M A
read_with ns none s = undefined
read_with ns (some (a, code)) s = done (a, put_code ns code s)

abbrev pub reading : {A : Type 0} → (List ℕ → Option (A × List ℕ)) → ℕ → M A
reading read ns s = read_with ns (read (code_of ns s)) s

-- `count` bytes of the code.
abbrev pub take_bytes : ℕ → List ℕ → Option (List ℕ × List ℕ)
take_bytes count code =
    if ltb (length code) count then none else some (take count code, drop count code)

-- Bytes in a word, the lowest first, from the bits `shift` on.
abbrev pub join_bytes : ℕ → ℕ → List ℕ → ℕ
join_bytes word shift [] = word
join_bytes word shift (b ∷ bytes) = join_bytes (bit_or word (shl b shift)) (shift + 8) bytes

abbrev pub low_first : List ℕ → ℕ
low_first [] = 0
low_first (b ∷ bytes) = join_bytes b 8 bytes

-- `code + count`
abbrev pub advance : ℕ → List ℕ → M (List ℕ)
advance count code = if ltb (length code) count then fault else pure (drop count code)

-- What a search through the namespaces gives that begins at `ns` and may walk `n` steps up.
abbrev pub lift_result : {A : Type 0} → ℕ → ℕ → Result A → M A
lift_result n ns (ok a) s = done (a, s)
lift_result n ns search_exit s = exit
lift_result n ns search_undefined s = undefined
lift_result n ns search_too_deep s = past_depth n s.aml ns

-- `locate_object`, with the key as it leaves it.
abbrev pub locate_named : Host → ℕ → List ℕ → Bool → M (ℕ × List ℕ)
locate_named host ns key namespace s =
    lift_result host.depth ns (locate_object host.depth s.aml ns key namespace) s

-- The object behind a pointer that is not NULL.
abbrev pub object_at : ℕ → M Object
object_at p s = done (s.objects p, s)

abbrev pub next_pointer : Host → M ℕ
next_pointer host s = done (host.malloc s.allocated, record s { allocated = suc s.allocated })

-- `create_ptr`
abbrev pub create_ptr : Host → Object → M ℕ
create_ptr host object = next_pointer host >>= λ p s.
    done (p, record s { objects = λ q. if q == p then object else s.objects q })

-- `add_child_to_namespace(ns, name, create_ptr(…))`
abbrev pub add_object : Host → ℕ → List ℕ → Object → M (Unit {0})
add_object host ns key object =
    create_ptr host object >>= λ p s. done (tt, set_aml (add_child_to_namespace s.aml ns key p) s)

-- `create_namespace`, with its pointer.
abbrev pub new_namespace : Host → ℕ → List ℕ → List ℕ → M ℕ
new_namespace host parent name code =
    next_pointer host >>= λ p s. done (p, set_aml (create_namespace s.aml p parent name code) s)

-- The code from a length on, and the code behind what the length spans.
abbrev pub spanned : ℕ → M (List ℕ × ℕ)
spanned ns = get_code ns >>= λ code_copy. reading parse_length ns >>= λ len. pure (code_copy, len)

-- `ns->parent = parent`
abbrev pub set_parent : ℕ → ℕ → M (Unit {0})
set_parent ns parent s =
    done (tt, set_aml (write_space s.aml ns (record (s.aml.spaces ns) { parent = parent })) s)
