-- ===== src/Devices/Trace.antt =====
-- lethe-kernel/misc/trace.c: the symbols of the kernel's file. The file is what the sections of its
-- header lead to; a text is what is at its pointer.
pub mod Best
mod Tests
use uefi_bare_bones.Prelude.{
  ℕ, zero, suc, Bool, true, false, not, ◌&&◌, List, [], ◌∷◌, Option, none, some, ltb, leb, ◌==◌,
  if◌then◌else◌, bit_and, is_zero, get_or,
}
use uefi_bare_bones.Libc.Str.{Bytes, strlen, strncmp}

-- `Elf64_Sym`
pub record Symbol : Type 0 where
  pub st_name : ℕ
  pub st_info : ℕ
  pub st_value : ℕ

-- `Elf64_Shdr`, with the name in `shstrtab`, and what `sh_offset` leads to as symbols and as texts.
pub record Section : Type 0 where
  pub sh_type : ℕ
  pub name : Bytes
  pub symbols : List Symbol
  pub texts : ℕ → Bytes

-- The static variables; `sym_entries` is the length of `symtab`.
pub record Trace : Type 0 where
  pub has_header : Bool
  pub symtab : Option (List Symbol)
  pub strtab : Option (ℕ → Bytes)

-- ".strtab"
abbrev pub strtab_name : Bytes
strtab_name i = get_or (b'.' ∷ b's' ∷ b't' ∷ b'r' ∷ b't' ∷ b'a' ∷ b'b' ∷ []) i 0

-- A round of the loop over the sections.
pub read_section : Section → Trace → Trace
read_section s trace =
    let with_symbols : Trace =
      if s.sh_type == 2 then record trace { symtab = some s.symbols } else trace in
    if s.sh_type == 3 && is_zero (strncmp s.name strtab_name 7)
    then record with_symbols { strtab = some s.texts }
    else with_symbols

pub read_sections : List Section → Trace → Trace
unfolding read_section
read_sections [] trace = trace
read_sections (s ∷ sections) trace = read_sections sections (read_section s trace)

-- The file is read once.
pub load_sections : List Section → Trace → Trace
unfolding read_sections
load_sections sections trace =
    if trace.has_header then trace else read_sections sections (record trace { has_header = true })

abbrev pub is_function : Symbol → Bool
is_function symbol = bit_and symbol.st_info 0xF == 2

-- The lengths and the characters of the two texts; `none` is a text that does not end within the
-- fuel.
pub same_text : ℕ → Bytes → Bytes → Option Bool
same_text fuel text name = elim (strlen fuel text) [
  | none ↦ none
  | some n ↦ elim (strlen fuel name) [
    | none ↦ none
    | some m ↦ some (if n == m then is_zero (strncmp text name n) else false)
  ]
]

-- The loop of resolve_function_address.
pub find_symbol : ℕ → (ℕ → Bytes) → Bytes → List Symbol → Option ℕ
unfolding same_text
find_symbol fuel strtab name [] = some 0
find_symbol fuel strtab name (symbol ∷ symbols) =
    let rest = find_symbol fuel strtab name symbols in
    if is_function symbol
    then elim (same_text fuel (strtab symbol.st_name) name) [
      | none ↦ none
      | some same ↦ if same then some symbol.st_value else rest
    ]
    else rest

-- The address, and the variables as they are left.
pub resolve_function_address : ℕ → List Section → Trace → Bytes → Option ℕ × Trace
unfolding load_sections find_symbol
resolve_function_address fuel sections trace name =
    let loaded = load_sections sections trace in
    (
      elim loaded.strtab [
        | none ↦ some 0
        | some strtab ↦ elim loaded.symtab [
          | none ↦ some 0
          | some symtab ↦ find_symbol fuel strtab name symtab
        ]
      ],
      loaded,
    )

-- The loop of resolve_function_name.
pub best_symbol : ℕ → Symbol → List Symbol → Symbol
best_symbol rip best [] = best
best_symbol rip best (symbol ∷ symbols) =
    let better = ltb best.st_value symbol.st_value && leb symbol.st_value rip in
    best_symbol rip (if is_function symbol && better then symbol else best) symbols

-- The text that is given: "???", a name, or what is read in a table with no symbol.
pub data FunctionName : Type 0 where
  question_marks : FunctionName
  name_of : (ℕ → Bytes) → Symbol → FunctionName
  no_symbol : FunctionName

pub resolve_function_name : List Section → Trace → ℕ → FunctionName × Trace
unfolding load_sections best_symbol
resolve_function_name sections trace rip =
    let loaded = load_sections sections trace in
    (
      elim loaded.strtab [
        | none ↦ question_marks
        | some strtab ↦ elim loaded.symtab [
          | none ↦ question_marks
          | some [] ↦ no_symbol
          | some (symbol ∷ symbols) ↦ name_of strtab (best_symbol rip symbol (symbol ∷ symbols))
        ]
      ],
      loaded,
    )
